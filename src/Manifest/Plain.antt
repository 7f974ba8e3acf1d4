-- ===== src/Manifest/Plain.antt =====
-- A document that is kept in memory meets the interface to RedisJSON.
use atlas_net.Prelude.{◌≡◌, refl, ap, ◌∙◌, List, [], ◌∷◌, ◌++◌, Option, some, none}
use atlas_net.Manifest.Types.{quoted}
use atlas_net.Manifest.Documents.{
  Text, Entry, Listing, array, object, Document, Documents, Member, listing, with_listing,
  entries_of, having_id, having_owner, owned, or_empty, listed_nx,
}

abbrev pub change : (Document → Document) → Option Document → Option Document
change g none = none
change g (some d) = some (g d)

abbrev pub look {ℓ} : {A : Type ℓ} → (Document → A) → Option Document → Option A
look g none = none
look g (some d) = some (g d)

abbrev pub look_member : (Document → Option Text) → Option Document → Option Text
look_member g none = none
look_member g (some d) = elim (g d) [ none ↦ none | some v ↦ some (quoted v) ]

abbrev pub put_last : Entry → List Entry → List Entry
put_last e es = es ++ e ∷ []

abbrev pub own_last_of : Text → Text → List Entry → List Entry
own_last_of o n [] = []
own_last_of o n (e ∷ []) = owned o n e ∷ []
own_last_of o n (e ∷ d ∷ ds) = e ∷ own_last_of o n (d ∷ ds)

abbrev pub rest_of : List Entry → List Entry
rest_of [] = []
rest_of (e ∷ es) = es

-- A change of an array.
abbrev pub within : (List Entry → List Entry) → Member → Option Listing → Document → Document
within g m none d = d
within g m (some (object es)) d = d
within g m (some (array es)) d = with_listing m (array (g es)) d

pub own_last_of-append :
    (o n : Text) (es : List Entry) (e : Entry)
    → own_last_of o n (es ++ e ∷ []) ≡ es ++ owned o n e ∷ []
own_last_of-append o n [] e = refl
own_last_of-append o n (x ∷ []) e = refl
own_last_of-append o n (x ∷ y ∷ ys) e = ap (◌∷◌ x) (own_last_of-append o n (y ∷ ys) e)

pub change_there :
    (g : Document → Document) (s : Option Document) (d : Document)
    → s ≡ some d
    → change g s ≡ some (g d)
change_there g s d h = ap (change g) h

pub within_there :
    (g : List Entry → List Entry) (m : Member) (s : Option Document) (d : Document)
    (es : List Entry)
    → s ≡ some d
    → listing m d ≡ some (array es)
    → change (λ x. within g m (listing m x) x) s ≡ some (with_listing m (array (g es)) d)
within_there g m s d es h k =
    change_there (λ x. within g m (listing m x) x) s d h ∙ ap (λ l. some (within g m l d)) k

abbrev pub plain : Documents
plain = record {
  State = Option Document;
  get = λ s. s;
  ensure = λ s. some (or_empty s);
  set_type = λ v s. change (λ d. record d { heuristic_type = some v }) s;
  set_data = λ v s. change (λ d. record d { heuristic_data64 = some v }) s;
  get_type = λ s. look_member (λ d. d.heuristic_type) s;
  get_data = λ s. look_member (λ d. d.heuristic_data64) s;
  list_nx = λ m s. change (λ d. listed_nx m d (listing m d)) s;
  append = λ m e s. change (λ d. within (put_last e) m (listing m d) d) s;
  pop_first = λ m s. change (λ d. within rest_of m (listing m d) d) s;
  own_last = λ m o n s. change (λ d. within (own_last_of o n) m (listing m d) d) s;
  select = λ m id s. look (λ d. having_id id (entries_of (listing m d))) s;
  select_owner = λ m o s. look (λ d. having_owner o (entries_of (listing m d))) s;
  get-ensure = λ s. refl;
  get-set_type = λ v s d h. change_there (λ x. record x { heuristic_type = some v }) s d h;
  get-set_data = λ v s d h. change_there (λ x. record x { heuristic_data64 = some v }) s d h;
  get-list_nx = λ m s d h. change_there (λ x. listed_nx m x (listing m x)) s d h;
  get-append = λ m e s d es h k. within_there (put_last e) m s d es h k;
  get-pop_first = λ m s d e es h k. within_there rest_of m s d (e ∷ es) h k;
  get-own_last = λ m o n s d es e h k.
      within_there (own_last_of o n) m s d (es ++ e ∷ []) h k
      ∙ ap (λ xs. some (with_listing m (array xs) d)) (own_last_of-append o n es e);
  select_there = λ m id s d h. ap (look (λ x. having_id id (entries_of (listing m x)))) h;
  select_missing = λ m id s h. ap (look (λ x. having_id id (entries_of (listing m x)))) h;
  select_owner_there = λ m o s d h. ap (look (λ x. having_owner o (entries_of (listing m x)))) h;
  get_type_there = λ v s d h k.
      ap (look_member (λ x. x.heuristic_type)) h
      ∙ ap (λ o. elim o [ none ↦ none | some w ↦ some (quoted w) ]) k;
  get_data_there = λ v s d h k.
      ap (look_member (λ x. x.heuristic_data64)) h
      ∙ ap (λ o. elim o [ none ↦ none | some w ↦ some (quoted w) ]) k;
}
