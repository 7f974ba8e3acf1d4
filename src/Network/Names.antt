-- ===== src/Network/Names.antt =====
-- `NetworkIdentity::ToString` (AtlasNet/lib/Native/Network/NetworkIdentity.cpp), by which identities are
-- compared, with `NukeString` of AtlasNet/lib/Native/Global/Misc/String_utils.hpp. How Boost writes a
-- UUID is a parameter, `text`.
use atlas_net.Prelude.{
  ℕ, ◌≡◌, ap, ◌==◌, Bool, true, false, ◌&&◌, ◌||◌, leb, List, [], ◌∷◌, ◌++◌, if◌then◌else◌,
  lex_same, lex_same_eq, lex_same_refl,
}
use atlas_net.Packets.Hash.{codes}
use atlas_net.Network.Identity.{
  NetworkIdentity, is_nil, e_invalid, e_shard, e_watch_dog, e_cartograph, e_game_client, e_proxy,
  e_atlas_net_initial,
}

-- Control characters go, but for line ends and tabs.
unfoldable pub keeps : ℕ → Bool
keeps c = leb 32 c || (c == 10 || (c == 13 || c == 9))

unfoldable pub visible_only : List ℕ → List ℕ
visible_only [] = []
visible_only (c ∷ cs) = let rest = visible_only cs in if keeps c then c ∷ rest else rest

-- `std::isspace` in the C locale.
unfoldable pub is_space : ℕ → Bool
is_space c = c == 32 || (leb 9 c && leb c 13)

unfoldable pub trim_start : List ℕ → List ℕ
trim_start [] = []
trim_start (c ∷ cs) = let rest = trim_start cs in if is_space c then rest else c ∷ cs

abbrev pub is_empty : List ℕ → Bool
is_empty [] = true
is_empty (c ∷ cs) = false

unfoldable pub trim_end : List ℕ → List ℕ
trim_end [] = []
trim_end (c ∷ cs) = let rest = trim_end cs in if is_empty rest && is_space c then [] else c ∷ rest

unfoldable pub nuke_string : List ℕ → List ℕ
nuke_string s = trim_end (trim_start (visible_only s))

-- `boost::describe::enum_to_string` over the enumerators that NetworkEnums.hpp describes.
unfoldable pub enum_to_string : ℕ → List ℕ
enum_to_string t =
    if t == e_invalid
    then codes "eInvalid"
    else if t == e_shard
    then codes "eShard"
    else if t == e_watch_dog
    then codes "eWatchDog"
    else if t == e_cartograph
    then codes "eCartograph"
    else if t == e_game_client
    then codes "eGameClient"
    else if t == e_proxy
    then codes "eProxy"
    else if t == e_atlas_net_initial
    then codes "eAtlasNetInitial"
    else codes "UnknownUnknownType?"

module _ (text : List ℕ → List ℕ) where
  unfoldable pub to_string : NetworkIdentity → List ℕ
  to_string n = nuke_string (enum_to_string n.type ++ (if is_nil n.id then [] else 32 ∷ text n.id))

  -- `operator==`
  unfoldable pub same : NetworkIdentity → NetworkIdentity → Bool
  same a b = lex_same (to_string a) (to_string b)

  pub same_refl : (a : NetworkIdentity) → same a a ≡ true
  unfolding same
  same_refl a = lex_same_refl (to_string a)

  pub same-to_string : (a b : NetworkIdentity) → same a b ≡ true → to_string a ≡ to_string b
  unfolding same
  same-to_string a b h = lex_same_eq (to_string a) (to_string b) h

  pub same_both : (a b n : NetworkIdentity) → same a b ≡ true → same a n ≡ same b n
  unfolding same
  same_both a b n h = ap (λ s. lex_same s (to_string n)) (same-to_string a b h)
