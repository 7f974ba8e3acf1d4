-- ===== src/Manifest/Documents.antt =====
-- The JSON document of the heuristic manifest, and the interface to the commands of RedisJSON by which it
-- is kept, with what is documented of them. A JSON text is represented by the value that it denotes. A
-- command that changes the document is a function on the state, and what an error reply leaves behind is
-- not said: the laws speak of a document that is there and of members of the right kind. Nothing here models code of the repository.
use atlas_net.Manifest.Types.{quoted}
use atlas_net.Prelude.{
  Bool, false, lex_same, ℕ, ◌==◌, ◌≡◌, List, [], ◌∷◌, ◌++◌, map, Option, some, none, if◌then◌else◌,
}

abbrev pub Text : Type 0
Text = List ℕ

-- An object with the members that the manifest writes. `none` is a member that is not there.
pub record Entry : Type 0 where
  pub id : ℕ
  pub bounds64 : Text
  pub owner64 : Option Text
  pub owner_name : Option Text

pub data Listing : Type 0 where
  array : List Entry → Listing
  object : List (Text × Entry) → Listing

pub record Document : Type 0 where
  pub heuristic_type : Option Text
  pub heuristic_data64 : Option Text
  pub pending : Option Listing
  pub claimed : Option Listing

abbrev pub empty_document : Document
empty_document = record {
  heuristic_type = none;
  heuristic_data64 = none;
  pending = none;
  claimed = none;
}

pub data Member : Type 0 where
  the_pending the_claimed : Member

abbrev pub listing : Member → Document → Option Listing
listing the_pending d = d.pending
listing the_claimed d = d.claimed

abbrev pub with_listing : Member → Listing → Document → Document
with_listing the_pending l d = record d { pending = some l }
with_listing the_claimed l d = record d { claimed = some l }

abbrev pub entries_of : Option Listing → List Entry
entries_of none = []
entries_of (some (array es)) = es
entries_of (some (object es)) = map (λ x. x.1) es

abbrev pub having_id : ℕ → List Entry → List Entry
having_id id [] = []
having_id id (e ∷ es) = if e.id == id then e ∷ having_id id es else having_id id es

-- `none` equals no text.
abbrev pub same_owner : Text → Option Text → Bool
same_owner owner64 none = false
same_owner owner64 (some o) = lex_same o owner64

abbrev pub having_owner : Text → List Entry → List Entry
having_owner owner64 [] = []
having_owner owner64 (e ∷ es) =
    if same_owner owner64 e.owner64 then e ∷ having_owner owner64 es else having_owner owner64 es

abbrev pub owned : Text → Text → Entry → Entry
owned owner64 name e = record e { owner64 = some owner64; owner_name = some name }

abbrev pub or_empty : Option Document → Document
or_empty none = empty_document
or_empty (some d) = d

abbrev pub listed_nx : Member → Document → Option Listing → Document
listed_nx m d none = with_listing m (array []) d
listed_nx m d (some l) = d

pub record Documents : Type 1 where
  pub State : Type 0
  -- JSON.GET key .
  pub get : State → Option Document
  -- JSON.SET key . {} NX
  pub ensure : State → State
  -- JSON.SET key .HeuristicType v, and JSON.SET key .HeuristicData64 v
  pub set_type : Text → State → State
  pub set_data : Text → State → State
  -- JSON.GET key .HeuristicType, and JSON.GET key .HeuristicData64
  pub get_type : State → Option Text
  pub get_data : State → Option Text
  -- JSON.SET key .M [] NX
  pub list_nx : Member → State → State
  -- JSON.ARRAPPEND key .M e
  pub append : Member → Entry → State → State
  -- JSON.ARRPOP key M 0
  pub pop_first : Member → State → State
  -- JSON.SET key M[last].Owner64 o, and JSON.SET key M[last].OwnerName n
  pub own_last : Member → Text → Text → State → State
  -- JSON.GET key $.M[?(@.ID == id)]
  pub select : Member → ℕ → State → Option (List Entry)
  -- JSON.GET key $.M[?(@.Owner64 == o)]
  pub select_owner : Member → Text → State → Option (List Entry)
  pub get-ensure : (s : State) → get (ensure s) ≡ some (or_empty (get s))
  pub get-set_type :
      (v : Text) (s : State) (d : Document)
      → get s ≡ some d
      → get (set_type v s) ≡ some (record d { heuristic_type = some v })
  pub get-set_data :
      (v : Text) (s : State) (d : Document)
      → get s ≡ some d
      → get (set_data v s) ≡ some (record d { heuristic_data64 = some v })
  pub get-list_nx :
      (m : Member) (s : State) (d : Document)
      → get s ≡ some d
      → get (list_nx m s) ≡ some (listed_nx m d (listing m d))
  pub get-append :
      (m : Member) (e : Entry) (s : State) (d : Document) (es : List Entry)
      → get s ≡ some d
      → listing m d ≡ some (array es)
      → get (append m e s) ≡ some (with_listing m (array (es ++ e ∷ [])) d)
  pub get-pop_first :
      (m : Member) (s : State) (d : Document) (e : Entry) (es : List Entry)
      → get s ≡ some d
      → listing m d ≡ some (array (e ∷ es))
      → get (pop_first m s) ≡ some (with_listing m (array es) d)
  pub get-own_last :
      (m : Member) (owner64 name : Text) (s : State) (d : Document) (es : List Entry) (e : Entry)
      → get s ≡ some d
      → listing m d ≡ some (array (es ++ e ∷ []))
      → get (own_last m owner64 name s)
        ≡ some (with_listing m (array (es ++ owned owner64 name e ∷ [])) d)
  pub select_there :
      (m : Member) (id : ℕ) (s : State) (d : Document)
      → get s ≡ some d
      → select m id s ≡ some (having_id id (entries_of (listing m d)))
  pub select_missing : (m : Member) (id : ℕ) (s : State) → get s ≡ none → select m id s ≡ none
  pub select_owner_there :
      (m : Member) (owner64 : Text) (s : State) (d : Document)
      → get s ≡ some d
      → select_owner m owner64 s ≡ some (having_owner owner64 (entries_of (listing m d)))
  pub get_type_there :
      (v : Text) (s : State) (d : Document)
      → get s ≡ some d
      → d.heuristic_type ≡ some v
      → get_type s ≡ some (quoted v)
  pub get_data_there :
      (v : Text) (s : State) (d : Document)
      → get s ≡ some d
      → d.heuristic_data64 ≡ some v
      → get_data s ≡ some (quoted v)
