-- ===== src/Bytes/Sequence.antt =====
-- The loops by which the packets send a `small_vector`: its size as a uint64_t, then each element,
-- and `resize(br.u64())` followed by one read for each place; and the loops
-- that count with an int.
use atlas_net.Prelude.{
  ℕ, zero, suc, ◌^◌, ◌<◌, ◌≡◌, refl, true, ltb, if◌then◌else◌, List, [], ◌∷◌, length, All, arith,
}
use atlas_net.Bytes.Result.{err, undefined}
use atlas_net.Bytes.Writer
use atlas_net.Bytes.Writer.{Write}
use atlas_net.Bytes.Reader
use atlas_net.Bytes.Reader.{Read, ◌>>=◌, return}
use atlas_net.Bytes.Codec.{RoundTrips, RoundTrips-bind, RoundTrips-map, RoundTrips-return}
use atlas_net.Bytes.Integers.{RoundTrips-u64}

module _ {ℓ} {A : Type ℓ} where
  unfoldable pub write_each : (A → Write) → List A → Write
  write_each f [] w = w
  write_each f (x ∷ xs) w = write_each f xs (f x w)

  unfoldable pub write_sequence : (A → Write) → List A → Write
  write_sequence f xs w = write_each f xs (Writer.u64 (length xs) w)

  unfoldable pub read_each : Read A → ℕ → Read (List A)
  read_each m zero = return []
  read_each m (suc n) = do x ← m; xs ← read_each m n; return (x ∷ xs)

  unfoldable pub read_sequence : Read A → Read (List A)
  read_sequence m = do count ← Reader.u64; read_each m count

  -- The loop with a counter of type int, which overflows where it has counted 2 ^ 31 elements.
  abbrev count_up : Read A → ℕ → Read (List A)
  count_up m count =
      if ltb count (2 ^ 31)
      then read_each m count
      else (read_each m (2 ^ 31) >>= λ _. λ r. err undefined)

  unfoldable pub read_counted : Read A → Read (List A)
  read_counted m = Reader.u64 >>= count_up m

  RoundTrips-each :
      (f : A → Write) (m : Read A) (xs : List A)
      → All (λ x. RoundTrips (f x) m x) xs
      → RoundTrips (write_each f xs) (read_each m (length xs)) xs
  unfolding write_each read_each
  RoundTrips-each f m [] h = RoundTrips-return []
  RoundTrips-each f m (x ∷ xs) h =
      RoundTrips-bind _ _ _ _ x (x ∷ xs) h.0
        (RoundTrips-map _ _ _ xs (x ∷ xs) refl (RoundTrips-each f m xs h.1))

  pub RoundTrips-sequence :
      (f : A → Write) (m : Read A) (xs : List A)
      → length xs < 2 ^ 64
      → All (λ x. RoundTrips (f x) m x) xs
      → RoundTrips (write_sequence f xs) (read_sequence m) xs
  unfolding write_sequence read_sequence
  RoundTrips-sequence f m xs small h =
      RoundTrips-bind _ _ _ _ (length xs) xs (RoundTrips-u64 (length xs) small)
        (RoundTrips-each f m xs h)

  pub RoundTrips-counted :
      (f : A → Write) (m : Read A) (xs : List A)
      → length xs < 2 ^ 31
      → All (λ x. RoundTrips (f x) m x) xs
      → RoundTrips (write_sequence f xs) (read_counted m) xs
  unfolding write_sequence read_counted
  RoundTrips-counted f m xs small h =
      RoundTrips-bind (Writer.u64 (length xs)) (write_each f xs) Reader.u64 (count_up m) (length xs)
        xs (RoundTrips-u64 (length xs) (omega arith)) looping
    where
      below : (n : ℕ) → n < 2 ^ 31 → ltb n (2 ^ 31) ≡ true
      below n h = ground arith

      looping : RoundTrips (write_each f xs) (count_up m (length xs)) xs
      looping = rw (below (length xs) small) (RoundTrips-each f m xs h)

-- Where the elements of a list have a property, and the property gives a round trip.
pub All-map {ℓ κ μ} :
    {A : Type ℓ} {P : A → Type κ} {Q : A → Type μ} (g : (x : A) → P x → Q x) (xs : List A)
    → All P xs
    → All Q xs
All-map g [] h = tt
All-map g (x ∷ xs) h = (g x h.0, All-map g xs h.1)
