-- ===== src/Handoff/Database.antt =====
-- What the handoff uses of `InternalDB`, which passes its calls on to Redis: strings under keys, with
-- what Redis documents of GET, SET, EXPIRE and DEL. That a time to live passes is not a call, and no law
-- speaks of it. Nothing here models code of the repository.
use atlas_net.Prelude.{
  ap, ◌<◌, ◌==◌, arith, none, false, ℕ, ◌≡◌, refl, List, Option, some, if◌then◌else◌, lex_same,
  lex_same_refl,
}

abbrev pub Text : Type 0
Text = List ℕ

pub record Database : Type 1 where
  pub State : Type 0
  pub get : Text → State → Option Text
  pub set : Text → Text → State → State
  pub expire : Text → ℕ → State → State
  pub del_key : Text → State → State
  pub get-set : (k v : Text) (d : State) → get k (set k v d) ≡ some v
  pub get-expire :
      (k j : Text) (seconds : ℕ) (d : State) → 0 < seconds → get k (expire j seconds d) ≡ get k d
  pub get-del_key : (k : Text) (d : State) → get k (del_key k d) ≡ none

pub not_zero : (n : ℕ) → 0 < n → (n == 0) ≡ false
not_zero n h = ground arith

-- A database as a function, without a clock.
abbrev pub tabled : Database
tabled = record {
  State = Text → Option Text;
  get = λ k d. d k;
  set = λ k v d j. if lex_same k j then some v else d j;
  expire = λ k seconds d. if seconds == 0 then (λ j. if lex_same k j then none else d j) else d;
  del_key = λ k d j. if lex_same k j then none else d j;
  get-expire = λ k j seconds d h.
      ap (λ b. (if b then (λ i. if lex_same j i then none else d i) else d) k) (not_zero seconds h);
  get-del_key = λ k d. rw (lex_same_refl k) refl;
  get-set = λ k v d. rw (lex_same_refl k) refl;
}
