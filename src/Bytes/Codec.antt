-- ===== src/Bytes/Codec.antt =====
-- What it means that a reader method takes back what a writer method put down, and how such pairs
-- are chained. Nothing here models code.
use atlas_net.Prelude.{
  ℕ, ◌+◌, ◌^◌, ◌≤◌, ◌<◌, ◌≡◌, refl, sym, ap, ◌∙◌, List, [], ◌++◌, length, drop, length-append,
  length-drop, drop-drop, drop-append_self, append_assoc, append-nil, arith,
}
use atlas_net.Bytes.Result.{Result, ok, err}
use atlas_net.Bytes.Writer
use atlas_net.Bytes.Writer.{ByteWriter, Write}
use atlas_net.Bytes.Reader
use atlas_net.Bytes.Reader.{ByteReader, Read, ◌>>=◌, return}

-- The position lies in the span, and the span in the address space.
pub record IsValid (r : ByteReader) : Type 0 where
  pub within : r.position ≤ length r.source
  pub addressable : length r.source < 2 ^ 64

abbrev pub unread : ByteReader → List ℕ
unread r = drop r.position r.source

abbrev pub skip : ℕ → ByteReader → ByteReader
skip n r = record r { position = r.position + n }

-- Where the bytes `bs` come next, the method returns `a`, has moved behind them, and has changed
-- nothing else of the reader.
abbrev pub Reads {ℓ} : {A : Type ℓ} → Read A → List ℕ → A → Type ℓ
Reads m bs a =
    (r : ByteReader) (rest : List ℕ)
    → IsValid r
    → unread r ≡ bs ++ rest
    → m r ≡ ok (a, skip (length bs) r)

-- The method appends `bs` and changes nothing else of the writer.
abbrev pub Writes : Write → List ℕ → Type 0
Writes f bs = (w : ByteWriter) → f w ≡ record w { buf = w.buf ++ bs }

abbrev pub RoundTrips {ℓ} : {A : Type ℓ} → Write → Read A → A → Type ℓ
RoundTrips f m a = (bs : List ℕ) × Writes f bs × Reads m bs a

module _ (r : ByteReader) (bs rest : List ℕ) (v : IsValid r) (u : unread r ≡ bs ++ rest) where
  pub unread_length : r.position + length bs + length rest ≡ length r.source
  unread_length =
      omega (arith, v.within, ap length u, length-append bs rest, length-drop r.position r.source)

  pub skip-IsValid : IsValid (skip (length bs) r)
  skip-IsValid = record { within = omega (arith, unread_length); addressable = v.addressable }

  pub unread-skip : unread (skip (length bs) r) ≡ rest
  unread-skip =
      sym (drop-drop r.position (length bs) r.source)
      ∙ ap (drop (length bs)) u
      ∙ drop-append_self bs rest

module _ {ℓ} {A : Type ℓ} where
  pub Reads-return : (a : A) → Reads (return a) [] a
  Reads-return a r rest v u = ap (λ p. ok (a, record r { position = p })) (omega arith)

  pub RoundTrips-return : (a : A) → RoundTrips (λ w. w) (return a) a
  RoundTrips-return a =
      ([], (λ w. ap (λ b. record w { buf = b }) (sym (append-nil w.buf))), Reads-return a)

  pub Reads-bind {κ} :
      {B : Type κ} (m : Read A) (k : A → Read B) (bs cs : List ℕ) (a : A) (b : B)
      → Reads m bs a
      → Reads (k a) cs b
      → Reads (m >>= k) (bs ++ cs) b
  Reads-bind m k bs cs a b first second r rest v u =
      let u' = u ∙ append_assoc bs cs rest in
      ap (λ t. elim t [ ok (x, s) ↦ k x s | err e ↦ err e ]) (first r (cs ++ rest) v u')
      ∙ second (skip (length bs) r) rest (skip-IsValid r bs (cs ++ rest) v u')
          (unread-skip r bs (cs ++ rest) v u')
      ∙ ap (λ p. ok (b, record r { position = p })) (omega (arith, length-append bs cs))

pub Writes-bind :
    (f g : Write) (bs cs : List ℕ) → Writes f bs → Writes g cs → Writes (λ w. g (f w)) (bs ++ cs)
Writes-bind f g bs cs first second w =
    ap g (first w)
    ∙ second (record w { buf = w.buf ++ bs })
    ∙ ap (λ b. record w { buf = b }) (append_assoc w.buf bs cs)

module _ {ℓ κ} {A : Type ℓ} {B : Type κ} where
  -- Two fields one after the other.
  pub RoundTrips-bind :
      (f g : Write) (m : Read A) (k : A → Read B) (a : A) (b : B)
      → RoundTrips f m a
      → RoundTrips g (k a) b
      → RoundTrips (λ w. g (f w)) (m >>= k) b
  RoundTrips-bind f g m k a b (bs, wf, rf) (cs, wg, rg) =
      (bs ++ cs, Writes-bind f g bs cs wf wg, Reads-bind m k bs cs a b rf rg)

module _ {ℓ κ} {A : Type ℓ} {B : Type κ} where
  -- A value that is computed from the field that was read.
  pub RoundTrips-map :
      (f : Write) (m : Read A) (g : A → B) (a : A) (b : B)
      → g a ≡ b
      → RoundTrips f m a
      → RoundTrips f (m >>= λ x. return (g x)) b
  RoundTrips-map f m g a b e (bs, wf, rf) = (
    bs,
    wf,
    λ r rest v u.
        ap (λ t. elim t [ ok (x, s) ↦ ok (g x, s) | err x ↦ err x ]) (rf r rest v u)
        ∙ ap (λ y. ok (y, skip (length bs) r)) e,
  )

-- A whole buffer: what a fresh writer holds is read back, to the last byte.
module _ {ℓ} {A : Type ℓ} (f : Write) (m : Read A) (a : A) (h : RoundTrips f m a) where
  pub read-written :
      length (f Writer.new).buf < 2 ^ 64
      → m (Reader.new (f Writer.new).buf)
        ≡ ok (a, skip (length (f Writer.new).buf) (Reader.new (f Writer.new).buf))
  unfolding Writer.new Reader.new
  read-written small =
      let e : (f Writer.new).buf ≡ h.0 = ap (λ w. w.buf) (h.1 Writer.new) in
      rw e (
        h.2 (Reader.new h.0) []
          (record { within = omega arith; addressable = omega (arith, ap length e) })
          (sym (append-nil h.0)))

-- What a chain that returns has gone through.
pub >>=-eq-ok {ℓ κ} :
    {A : Type ℓ} {B : Type κ} (m : Read A) (k : A → Read B) (r t : ByteReader) (b : B)
    → (m >>= k) r ≡ ok (b, t)
    → (a : A) × (s : ByteReader) × (m r ≡ ok (a, s)) × (k a s ≡ ok (b, t))
>>=-eq-ok {A} {B} m k r t b h = split (m r) refl h
  where
    split :
        (x : Result (A × ByteReader))
        → m r ≡ x
        → (elim x [ ok (a, s) ↦ k a s | err e ↦ err e ]) ≡ ok (b, t)
        → (a : A) × (s : ByteReader) × (m r ≡ ok (a, s)) × (k a s ≡ ok (b, t))
    split (ok (a, s)) e g = (a, s, e, g)
    split (err x) e g = cc
