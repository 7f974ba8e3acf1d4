-- ===== src/Handoff/Candidates.antt =====
-- Who can be elected owner.
use atlas_net.Prelude.{
  ◌≡◌, refl, sym, ap, ◌∙◌, inl, inr, Bool, true, false, not, List, [], ◌∷◌, Option, some, none,
  if◌then◌else◌, Bool-cases, lex_less, lex_same, lex_same_eq, lex_same_refl, some-cancel, ◌⊎◌,
  ==_iff,
}
use mathlib.Core.Path.{subst}
use atlas_net.Network.Identity.{NetworkIdentity, e_shard}
use atlas_net.Network.Names.{
  to_string, is_empty, nuke_string, trim_end, trim_start, visible_only, enum_to_string, is_space,
  keeps,
}
use atlas_net.Handoff.Maps.{true-ne-false}
use atlas_net.Handoff.Marks.{some-ne-none}
use atlas_net.Handoff.Database.{Text}
use atlas_net.Handoff.Election.{is_shard, pick, pick_each, select_bootstrap_owner, still_valid}

-- What is left of a text that starts with a letter starts with it.
nuke_string-letter : (cs : Text) → is_empty (nuke_string (101 ∷ cs)) ≡ false
unfolding nuke_string trim_end trim_start visible_only is_space keeps
nuke_string-letter cs = elim (Bool-cases (is_empty (trim_end (visible_only cs)))) [
  | inl it ↦ rw it refl
  | inr not_it ↦ rw not_it refl
]

module _ (text : Text → Text) where
  -- The name of a shard is not empty.
  shard_name : (id : NetworkIdentity) → is_shard id ≡ true → is_empty (to_string text id) ≡ false
  unfolding is_shard to_string enum_to_string
  shard_name id h = rw ((==_iff id.type e_shard).0 h) (nuke_string-letter _)

  still_valid_head :
      (x : NetworkIdentity) (xs : List NetworkIdentity)
      → is_shard x ≡ true
      → still_valid text (to_string text x) (x ∷ xs) ≡ true
  unfolding still_valid
  still_valid_head x xs h = rw (h, lex_same_refl (to_string text x)) refl

  still_valid_later :
      (a : Text) (x : NetworkIdentity) (xs : List NetworkIdentity)
      → still_valid text a xs ≡ true
      → still_valid text a (x ∷ xs) ≡ true
  unfolding still_valid
  still_valid_later a x xs h = elim (Bool-cases (is_shard x)) [
    | inr other ↦ rw other h
    | inl shard ↦ elim (Bool-cases (lex_same (to_string text x) a)) [
      | inl is ↦ rw (shard, is) refl
      | inr apart ↦ rw (shard, apart) h
    ]
  ]

  pub still_valid-filled :
      (a : Text) (xs : List NetworkIdentity) → still_valid text a xs ≡ true → is_empty a ≡ false
  unfolding still_valid
  still_valid-filled a [] h = absurd (true-ne-false (sym h))
  still_valid-filled a (x ∷ xs) h = elim (Bool-cases (is_shard x)) [
    | inr other ↦
        still_valid-filled a xs (sym (ap (λ s. choice s (lex_same (to_string text x) a)) other) ∙ h)
    | inl shard ↦ elim (Bool-cases (lex_same (to_string text x) a)) [
      | inl is ↦
          subst (λ y. is_empty y ≡ false) (lex_same_eq (to_string text x) a is) (shard_name x shard)
      | inr apart ↦ still_valid-filled a xs (sym (passed shard apart) ∙ h)
    ]
  ]
    where
      choice : Bool → Bool → Bool
      choice s l =
          let rest = still_valid text a xs in if not s then rest else if l then true else rest

      passed :
          is_shard x ≡ true
          → lex_same (to_string text x) a ≡ false
          → choice (is_shard x) (lex_same (to_string text x) a) ≡ still_valid text a xs
      passed shard apart = rw (shard, apart) refl

  -- A round keeps the candidate or takes the name of a shard.
  pick-cases :
      (best : Option Text) (x : NetworkIdentity)
      → (pick text best x ≡ best)
        ⊎ ((is_shard x ≡ true) × (pick text best x ≡ some (to_string text x)))
  unfolding pick
  pick-cases none x = elim (Bool-cases (is_shard x)) [
    | inr other ↦ inl (rw other refl)
    | inl shard ↦ inr (shard, rw shard refl)
  ]
  pick-cases (some b) x = elim (Bool-cases (is_shard x)) [
    | inr other ↦ inl (rw other refl)
    | inl shard ↦ elim (Bool-cases (lex_less (to_string text x) b)) [
      | inl lower ↦ inr (shard, rw (shard, lower) refl)
      | inr not_lower ↦ inl (rw (shard, not_lower) refl)
    ]
  ]

  pick-still_valid :
      (all : List NetworkIdentity) (x : NetworkIdentity) (best : Option Text) (b : Text)
      → ((a : Text) → best ≡ some a → still_valid text a all ≡ true)
      → (is_shard x ≡ true → still_valid text (to_string text x) all ≡ true)
      → pick text best x ≡ some b
      → still_valid text b all ≡ true
  pick-still_valid all x best b h k e = elim (pick-cases best x) [
    | inl kept ↦ h b (sym kept ∙ e)
    | inr (shard, taken) ↦
        subst (λ y. still_valid text y all ≡ true) (some-cancel (sym taken ∙ e)) (k shard)
  ]

  pick_each-still_valid :
      (all xs : List NetworkIdentity) (best : Option Text) (b : Text)
      → ((a : Text) → best ≡ some a → still_valid text a all ≡ true)
      → ((a : Text) → still_valid text a xs ≡ true → still_valid text a all ≡ true)
      → pick_each text best xs ≡ some b
      → still_valid text b all ≡ true
  unfolding pick_each
  pick_each-still_valid all [] best b h k e = h b e
  pick_each-still_valid all (x ∷ xs) best b h k e =
      pick_each-still_valid all xs (pick text best x) b
        (λ a q.
          pick-still_valid all x best a h
            (λ shard. k (to_string text x) (still_valid_head x xs shard)) q)
        (λ a q. k a (still_valid_later a x xs q)) e

  -- The bootstrap owner is a shard of the registry.
  pub bootstrap-still_valid :
      (servers : List NetworkIdentity) (b : Text)
      → select_bootstrap_owner text servers ≡ some b
      → still_valid text b servers ≡ true
  unfolding select_bootstrap_owner
  bootstrap-still_valid servers b e =
      pick_each-still_valid servers servers none b (λ a q. absurd (some-ne-none (sym q))) (λ a q. q)
        e
