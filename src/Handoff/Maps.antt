-- ===== src/Handoff/Maps.antt =====
-- `std::unordered_map` with entities' numbers as keys: a list of keys and values in the order in which
-- the container hands them out, which the library leaves open. `erase_all` is the loop that erases the
-- keys that a first loop has collected (SH_TransferMailbox.cpp).
use atlas_net.Prelude.{
  ◌≡◌, ◌≢◌, inl, inr, refl, sym, ap, ◌∙◌, Bool, true, false, ◌||◌, List, [], ◌∷◌, Option, some,
  none, if◌then◌else◌, All, Bool-cases,
}
use atlas_net.Ledger.Uuids.{Uuid, Uuids}

abbrev pub Map {ℓ} : Type ℓ → Type ℓ
Map V = List (Uuid × V)

module _ {ℓ} {V : Type ℓ} (u : Uuids) where
  abbrev pub lookup : Uuid → Map V → Option V
  lookup id [] = none
  lookup id (x ∷ xs) = if u.same x.0 id then some x.1 else lookup id xs

  -- `map[id] = v`. The place of a new key is open in the source.
  abbrev pub assign : Uuid → V → Map V → Map V
  assign id v [] = (id, v) ∷ []
  assign id v (x ∷ xs) = if u.same x.0 id then (x.0, v) ∷ xs else x ∷ assign id v xs

  -- A change of the value that `find` points to, where there is one.
  abbrev pub modify : Uuid → (V → V) → Map V → Map V
  modify id f [] = []
  modify id f (x ∷ xs) = if u.same x.0 id then (x.0, f x.1) ∷ xs else x ∷ modify id f xs

  abbrev pub erase : Uuid → Map V → Map V
  erase id [] = []
  erase id (x ∷ xs) = if u.same x.0 id then erase id xs else x ∷ erase id xs

  abbrev pub erase_all : List Uuid → Map V → Map V
  erase_all [] m = m
  erase_all (id ∷ ids) m = erase_all ids (erase id m)

  abbrev pub Fresh : Uuid → Map V → Type 0
  Fresh id m = All (λ x. u.same x.0 id ≡ false) m

  -- No key stands twice.
  abbrev pub Distinct : Map V → Type 0
  Distinct [] = Unit
  Distinct (x ∷ xs) = Fresh x.0 xs × Distinct xs

pub true-ne-false : true ≢ false
true-ne-false e = cc

module _ (u : Uuids) where
  abbrev pub listed : Uuid → List Uuid → Bool
  listed id [] = false
  listed id (x ∷ xs) = u.same x id || listed id xs

  pub same_self : (id : Uuid) → u.same id id ≡ true
  same_self id = (u.same_iff id id).1 refl

  pub same-eq : (a b : Uuid) → u.same a b ≡ true → a ≡ b
  same-eq a b = (u.same_iff a b).0

module _ {ℓ} {V : Type ℓ} (u : Uuids) where
  pub lookup-of_Fresh : (id : Uuid) (m : Map V) → Fresh u id m → lookup u id m ≡ none
  lookup-of_Fresh id [] h = refl
  lookup-of_Fresh id (x ∷ xs) h = rw h.0 (lookup-of_Fresh id xs h.1)

  pub lookup-erase_self : (id : Uuid) (m : Map V) → lookup u id (erase u id m) ≡ none
  lookup-erase_self id [] = refl
  lookup-erase_self id (x ∷ xs) = elim (Bool-cases (u.same x.0 id)) [
    | inl is ↦ rw is (lookup-erase_self id xs)
    | inr apart ↦ rw (apart, apart) (lookup-erase_self id xs)
  ]

  -- Where the erased key is another one.
  pub lookup-erase_other :
      (k id : Uuid) (m : Map V) → u.same k id ≡ false → lookup u id (erase u k m) ≡ lookup u id m
  lookup-erase_other k id [] h = refl
  lookup-erase_other k id (x ∷ xs) h = elim (Bool-cases (u.same x.0 k)) [
    | inr apart ↦ rw (apart, lookup-erase_other k id xs h) refl
    | inl is ↦ rw is (
        lookup-erase_other k id xs h
        ∙ sym (
            ap (λ b. if b then some x.1 else lookup u id xs)
              (ap (λ y. u.same y id) (same-eq u x.0 k is) ∙ h)))
  ]

  pub lookup-erase_all :
      (id : Uuid) (ids : List Uuid) (m : Map V)
      → lookup u id (erase_all u ids m) ≡ (if listed u id ids then none else lookup u id m)
  lookup-erase_all id [] m = refl
  lookup-erase_all id (k ∷ ids) m = elim (Bool-cases (u.same k id)) [
    | inr apart ↦ rw apart (
        lookup-erase_all id ids (erase u k m)
        ∙ ap (λ o. if listed u id ids then none else o) (lookup-erase_other k id m apart))
    | inl is ↦ rw is (lookup-erase_all id ids (erase u k m) ∙ gone is)
  ]
    where
      gone :
          u.same k id ≡ true → (if listed u id ids then none else lookup u id (erase u k m)) ≡ none
      gone is = elim (Bool-cases (listed u id ids)) [
        | inl in_it ↦ rw in_it refl
        | inr out ↦
            rw out
              (ap (λ y. lookup u id (erase u y m)) (same-eq u k id is) ∙ lookup-erase_self id m)
      ]

  pub lookup-modify_self :
      (id : Uuid) (f : V → V) (m : Map V) (v : V)
      → lookup u id m ≡ some v
      → lookup u id (modify u id f m) ≡ some (f v)
  lookup-modify_self id f [] v h = absurd cc
  lookup-modify_self id f (x ∷ xs) v h = elim (Bool-cases (u.same x.0 id)) [
    | inl is ↦ rw (is, is) (ap (λ o. elim o [ none ↦ none | some w ↦ some (f w) ]) (found is))
    | inr apart ↦ rw (apart, apart) (lookup-modify_self id f xs v (later apart))
  ]
    where
      found : u.same x.0 id ≡ true → some x.1 ≡ some v
      found is = sym (ap (λ b. if b then some x.1 else lookup u id xs) is) ∙ h

      later : u.same x.0 id ≡ false → lookup u id xs ≡ some v
      later apart = sym (ap (λ b. if b then some x.1 else lookup u id xs) apart) ∙ h

  pub lookup-modify_other :
      (k id : Uuid) (f : V → V) (m : Map V)
      → u.same k id ≡ false
      → lookup u id (modify u k f m) ≡ lookup u id m
  lookup-modify_other k id f [] h = refl
  lookup-modify_other k id f (x ∷ xs) h = elim (Bool-cases (u.same x.0 k)) [
    | inr apart ↦ rw (apart, lookup-modify_other k id f xs h) refl
    | inl is ↦ let other = ap (λ y. u.same y id) (same-eq u x.0 k is) ∙ h in rw (is, other) refl
  ]

  pub Fresh-assign :
      (k id : Uuid) (v : V) (m : Map V)
      → u.same id k ≡ false
      → Fresh u k m
      → Fresh u k (assign u id v m)
  Fresh-assign k id v [] h f = (h, tt)
  Fresh-assign k id v (x ∷ xs) h f = elim (Bool-cases (u.same x.0 id)) [
    | inl is ↦ rw is (f.0, f.1)
    | inr apart ↦ rw apart (f.0, Fresh-assign k id v xs h f.1)
  ]

  pub Distinct-assign :
      (id : Uuid) (v : V) (m : Map V) → Distinct u m → Distinct u (assign u id v m)
  Distinct-assign id v [] d = (tt, tt)
  Distinct-assign id v (x ∷ xs) d = elim (Bool-cases (u.same x.0 id)) [
    | inl is ↦ rw is (d.0, d.1)
    | inr apart ↦
        rw apart (Fresh-assign x.0 id v xs (turned apart) d.0, Distinct-assign id v xs d.1)
  ]
    where
      turned : u.same x.0 id ≡ false → u.same id x.0 ≡ false
      turned apart = elim (Bool-cases (u.same id x.0)) [
        | inr fine ↦ fine
        | inl is ↦ absurd (
            true-ne-false
              (sym (same_self u id) ∙ ap (λ y. u.same y id) (same-eq u id x.0 is) ∙ apart))
      ]
