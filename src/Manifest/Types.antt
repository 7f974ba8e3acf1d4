-- ===== src/Manifest/Types.antt =====
-- `IHeuristic::Type` with its two conversions (AtlasNet/lib/Native/Heuristic/IHeuristic.hpp), and
-- `StripQuotes` of Heuristic/Database/HeuristicManifest.cpp.
use atlas_net.Prelude.{
  ℕ, ◌≡◌, refl, ap, Bool, true, false, ◌==◌, ◌&&◌, List, [], ◌∷◌, ◌++◌, if◌then◌else◌, lex_same,
}
use atlas_net.Packets.Hash.{codes}

pub data HeuristicType : Type 0 where
  e_none e_grid_cell e_octree e_quadtree e_invalid : HeuristicType

unfoldable pub type_to_string : HeuristicType → List ℕ
type_to_string e_none = codes "None"
type_to_string e_grid_cell = codes "GridCell"
type_to_string e_octree = codes "Octree"
type_to_string e_quadtree = codes "Quadtree"
type_to_string e_invalid = codes "Invalid"

unfoldable pub type_from_string : List ℕ → Bool × HeuristicType
type_from_string s =
    if lex_same s (codes "None")
    then (true, e_none)
    else if lex_same s (codes "GridCell")
    then (true, e_grid_cell)
    else if lex_same s (codes "Octree")
    then (true, e_octree)
    else if lex_same s (codes "Quadtree")
    then (true, e_quadtree)
    else if lex_same s (codes "Invalid")
    then (true, e_invalid)
    else (false, e_none)

-- The quotation mark.
abbrev pub mark : ℕ
mark = 34

unfoldable pub strip_front : List ℕ → List ℕ
strip_front [] = []
strip_front (c ∷ cs) = if c == mark then cs else c ∷ cs

unfoldable pub strip_back : List ℕ → List ℕ
strip_back [] = []
strip_back (c ∷ cs) = let rest = strip_back cs in strip_last c cs rest
  where
    strip_last : ℕ → List ℕ → List ℕ → List ℕ
    strip_last c [] rest = if c == mark then [] else c ∷ []
    strip_last c (d ∷ ds) rest = c ∷ rest

unfoldable pub strip_quotes : List ℕ → List ℕ
strip_quotes s = strip_back (strip_front s)

-- `PullHeuristic` takes the text out of its quotation marks where it has both.
unfoldable pub ends_quoted : List ℕ → Bool
ends_quoted [] = false
ends_quoted (c ∷ []) = c == mark
ends_quoted (c ∷ d ∷ ds) = ends_quoted (d ∷ ds)

unfoldable pub without_last : List ℕ → List ℕ
without_last [] = []
without_last (c ∷ []) = []
without_last (c ∷ d ∷ ds) = c ∷ without_last (d ∷ ds)

unfoldable pub unquote : List ℕ → List ℕ
unquote [] = []
unquote (c ∷ cs) = if c == mark && ends_quoted cs then without_last cs else c ∷ cs

-- `std::format("\"{}\"", s)`, and the text of a JSON string without characters to escape.
unfoldable pub quoted : List ℕ → List ℕ
quoted s = mark ∷ s ++ mark ∷ []

pub type_from_string_lem : (t : HeuristicType) → type_from_string (type_to_string t) ≡ (true, t)
unfolding type_from_string type_to_string
type_from_string_lem e_none = refl
type_from_string_lem e_grid_cell = refl
type_from_string_lem e_octree = refl
type_from_string_lem e_quadtree = refl
type_from_string_lem e_invalid = refl

pub strip_quotes-quoted :
    (t : HeuristicType) → strip_quotes (quoted (type_to_string t)) ≡ type_to_string t
unfolding strip_quotes quoted strip_front strip_back type_to_string
strip_quotes-quoted e_none = refl
strip_quotes-quoted e_grid_cell = refl
strip_quotes-quoted e_octree = refl
strip_quotes-quoted e_quadtree = refl
strip_quotes-quoted e_invalid = refl

ends_quoted-append : (s : List ℕ) → ends_quoted (s ++ mark ∷ []) ≡ true
unfolding ends_quoted
ends_quoted-append [] = refl
ends_quoted-append (c ∷ []) = refl
ends_quoted-append (c ∷ d ∷ ds) = ends_quoted-append (d ∷ ds)

without_last-append : (s : List ℕ) → without_last (s ++ mark ∷ []) ≡ s
unfolding without_last
without_last-append [] = refl
without_last-append (c ∷ []) = refl
without_last-append (c ∷ d ∷ ds) = ap (◌∷◌ c) (without_last-append (d ∷ ds))

pub unquote-quoted : (s : List ℕ) → unquote (quoted s) ≡ s
unfolding unquote quoted
unquote-quoted s = rw (ends_quoted-append s) (without_last-append s)
