-- ===== src/Ledger/Uuids.antt =====
-- `boost::uuids::uuid` as a key of `flat_map` and `unordered_set`: its two comparisons and what Boost
-- documents of them. Nothing here models code of the repository.
use atlas_net.Prelude.{
  ℕ, ◌≡◌, ◌↔◌, Bool, true, false, List, lex_less, lex_same, lex_less_trans, lex_less_irrefl,
  lex_less_total, lex_same_refl, lex_same_eq,
}

abbrev pub Uuid : Type 0
Uuid = List ℕ

pub record Uuids : Type 0 where
  pub less : Uuid → Uuid → Bool
  pub same : Uuid → Uuid → Bool
  pub less_trans : (a b c : Uuid) → less a b ≡ true → less b c ≡ true → less a c ≡ true
  pub less_irrefl : (a : Uuid) → less a a ≡ false
  pub less_total : (a b : Uuid) → less a b ≡ false → less b a ≡ false → a ≡ b
  pub same_iff : (a b : Uuid) → (same a b ≡ true) ↔ (a ≡ b)

-- Byte by byte, as Boost compares.
abbrev pub bytewise : Uuids
bytewise = record {
  less = lex_less;
  same = lex_same;
  less_trans = lex_less_trans;
  less_irrefl = lex_less_irrefl;
  less_total = lex_less_total;
  same_iff = λ a b. (lex_same_eq a b, λ e. rw e (lex_same_refl b));
}
