-- ===== src/Registry/Expiry.antt =====
-- Which pings `GetExpiredPings` finds.
use atlas_net.Prelude.{
  ◌≡◌, refl, ap, sym, ◌∙◌, inl, inr, Bool, false, not, List, [], ◌∷◌, Option, some, none,
  if◌then◌else◌, All, Bool-cases,
}
use atlas_net.Ledger.Uuids.{bytewise}
use atlas_net.Handoff.Maps.{Map, lookup, listed, same-eq, Distinct, lookup-of_Fresh}
use atlas_net.Interlink.Run.{done, bind_ext}
use atlas_net.Registry.Tables.{Text, Tables}
use atlas_net.Registry.Health.{
  Doubles, health_ping_table, all_pings, get_all_pings, expired_of, get_expired_pings, live_of,
  get_live_pings,
}

module _ (doubles : Doubles) (now : doubles.Double) where
  -- A ping's time, where it is one, is not after now.
  abbrev pub late : Option doubles.Double → Bool
  late none = false
  late (some d) = not (doubles.greater d now)

  -- There is a ping, and it has expired.
  abbrev pub expires : Option Text → Bool
  expires none = false
  expires (some v) = late (doubles.stod v)

  abbrev pub late_keys : Map Text → List Text
  late_keys [] = []
  late_keys (x ∷ xs) = if late (doubles.stod x.1) then x.0 ∷ late_keys xs else late_keys xs

  abbrev pub IsNumber : Text → Type 0
  IsNumber v = (d : doubles.Double) × (doubles.stod v ≡ some d)

  -- Every value is a number.
  abbrev pub Readable : Map Text → Type 0
  Readable m = All (λ x. IsNumber x.1) m

  found_late :
      (m : Map Text)
      → Readable m
      → (ys : List (Text × doubles.Double)) × (all_pings doubles m ≡ done ys)
        × (expired_of doubles now ys ≡ late_keys m)
  unfolding all_pings expired_of
  found_late [] h = ([], refl, refl)
  found_late (x ∷ xs) ((d, number), rest) =
      let (ys, read, late_ones) = found_late xs rest in
      (
        (x.0, d) ∷ ys,
        rw (all_pings, number, read) refl,
        elim (Bool-cases (doubles.greater d now)) [
          | inl after ↦ rw (after, number, after) late_ones
          | inr before ↦ rw (before, number, before) (ap (◌∷◌ x.0) late_ones)
        ],
      )

  listed-late_keys :
      (m : Map Text) (k : Text)
      → Distinct bytewise m
      → listed bytewise k (late_keys m) ≡ expires (lookup bytewise k m)
  listed-late_keys [] k h = refl
  listed-late_keys (x ∷ xs) k (fresh, apart) =
      let rest = listed-late_keys xs k apart in
      elim (Bool-cases (bytewise.same x.0 k)) [
        | inr other ↦ elim (Bool-cases (late (doubles.stod x.1))) [
          | inl is ↦ rw (is, other) rest
          | inr not_yet ↦ rw (not_yet, other) rest
        ]
        | inl same ↦ elim (Bool-cases (late (doubles.stod x.1))) [
          | inl is ↦ rw (is, same, is) refl
          | inr not_yet ↦
              rw (not_yet, same, not_yet)
                (rest
                  ∙ ap expires (
                      ap (λ y. lookup bytewise y xs) (sym (same-eq bytewise x.0 k same))
                      ∙ lookup-of_Fresh bytewise x.0 xs fresh))
        ]
      ]

live_of-expired_of :
    (doubles : Doubles) (now : doubles.Double) (ys : List (Text × doubles.Double))
    → live_of doubles now ys ≡ expired_of doubles now ys
unfolding live_of expired_of
live_of-expired_of doubles now [] = refl
live_of-expired_of doubles now (y ∷ ys) = rw (live_of-expired_of doubles now ys) refl

get_live_pings-get_expired_pings :
    (db : Tables) (doubles : Doubles) (now : doubles.Double) (s : db.State)
    → get_live_pings db doubles now s ≡ get_expired_pings db doubles now s
unfolding get_live_pings get_expired_pings
get_live_pings-get_expired_pings db doubles now s =
    bind_ext (get_all_pings db doubles s) (λ pings. done (live_of doubles now pings))
      (λ pings. done (expired_of doubles now pings))
      (λ pings. ap done (live_of-expired_of doubles now pings))

module _ (db : Tables) (doubles : Doubles) where
  -- Where every ping in the table is a number, `GetExpiredPings` returns, without throwing, keys among
  -- which exactly those stand that have a ping whose time is not after now; and `GetLivePings` returns
  -- the same keys.
  pub get_expired_pings_lem :
      (now : doubles.Double) (s : db.State)
      → Readable doubles now (db.hget_all health_ping_table s)
      → (keys : List Text) × (get_expired_pings db doubles now s ≡ done keys)
        × (get_live_pings db doubles now s ≡ done keys)
        × ((k : Text)
            → listed bytewise k keys ≡ expires doubles now (db.hget health_ping_table k s))
  unfolding get_expired_pings get_all_pings
  get_expired_pings_lem now s h =
      let all = db.hget_all health_ping_table s in
      let (ys, read, late_ones) = found_late doubles now all h in
      let expired : get_expired_pings db doubles now s ≡ done (expired_of doubles now ys) =
        rw (get_expired_pings, get_all_pings, read) refl in
      (
        expired_of doubles now ys,
        expired,
        get_live_pings-get_expired_pings db doubles now s ∙ expired,
        λ k.
            ap (listed bytewise k) late_ones
            ∙ listed-late_keys doubles now all k (db.Distinct-hget_all health_ping_table s)
            ∙ ap (expires doubles now) (db.lookup-hget_all health_ping_table k s),
      )
