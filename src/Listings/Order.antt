-- ===== src/Listings/Order.antt =====
-- The order of the listing queries, newest first and then by id: `_matched_rows` of
-- src/listings/adapters/inmemory/inmemory_property_listing_repo.py.
use estate_os_service.Base.{
  Uuid, ◌≡◌, refl, Bool, true, none, List, [], ◌∷◌, ◌&&◌, not, ◌==◌, arith,
}
use estate_os_service.Dict.{lookup, values_where}
use estate_os_service.Listings.Model.{PropertyListing}
use estate_os_service.Listings.Store.{Rows, comes_before, insert_row, sort_rows}

-- Every row is stored under its id, and no id twice.
abbrev pub IsKeyed : Rows → Type 0
IsKeyed [] = Unit
IsKeyed ((i, l) ∷ d) = (l.id ≡ i) × (lookup i d ≡ none) × IsKeyed d

abbrev pub lacks_id : Uuid → List PropertyListing → Bool
lacks_id i [] = true
lacks_id i (l ∷ ls) = let rest = lacks_id i ls in not (l.id == i) && rest

abbrev pub is_before_all : PropertyListing → List PropertyListing → Bool
is_before_all l [] = true
is_before_all l (m ∷ ms) = let rest = is_before_all l ms in comes_before l m && rest

-- Every row comes strictly before all later ones.
abbrev pub is_strict : List PropertyListing → Bool
is_strict [] = true
is_strict (l ∷ ls) = let rest = is_strict ls in is_before_all l ls && rest

before_all_trans :
    (l m : PropertyListing) (ms : List PropertyListing)
    → comes_before l m ≡ true
    → is_before_all m ms ≡ true
    → is_before_all l ms ≡ true
before_all_trans l m [] h all = refl
before_all_trans l m (n ∷ ns) h all = ground (arith, before_all_trans l m ns)

before_all-insert_row :
    (k l : PropertyListing) (ms : List PropertyListing)
    → comes_before k l ≡ true
    → is_before_all k ms ≡ true
    → is_before_all k (insert_row l ms) ≡ true
before_all-insert_row k l [] h all = ground arith
before_all-insert_row k l (m ∷ ms) h all = ground (arith, before_all-insert_row k l ms)

insert_row-strict :
    (l : PropertyListing) (ms : List PropertyListing)
    → lacks_id l.id ms ≡ true
    → is_strict ms ≡ true
    → is_strict (insert_row l ms) ≡ true
insert_row-strict l [] new h = refl
insert_row-strict l (m ∷ ms) new h =
    ground (arith, insert_row-strict l ms, before_all-insert_row m l ms, before_all_trans l m ms)

lacks_id-insert_row :
    (i : Uuid) (l : PropertyListing) (ms : List PropertyListing)
    → lacks_id i (insert_row l ms) ≡ (not (l.id == i) && lacks_id i ms)
lacks_id-insert_row i l [] = refl
lacks_id-insert_row i l (m ∷ ms) = ground (arith, lacks_id-insert_row i l ms)

lacks_id-sort_rows :
    (i : Uuid) (ls : List PropertyListing) → lacks_id i (sort_rows ls) ≡ lacks_id i ls
lacks_id-sort_rows i [] = refl
lacks_id-sort_rows i (l ∷ ls) =
    ground (arith, lacks_id-insert_row i l (sort_rows ls), lacks_id-sort_rows i ls)

lacks_id-values_where :
    (p : PropertyListing → Bool) (i : Uuid) (rows : Rows)
    → lookup i rows ≡ none
    → IsKeyed rows
    → lacks_id i (values_where p rows) ≡ true
lacks_id-values_where p i [] h k = refl
lacks_id-values_where p i ((j, l) ∷ d) h k = ground (arith, lacks_id-values_where p i d)

pub sort_rows-strict :
    (p : PropertyListing → Bool) (rows : Rows)
    → IsKeyed rows
    → is_strict (sort_rows (values_where p rows)) ≡ true
sort_rows-strict p [] k = refl
sort_rows-strict p ((j, l) ∷ d) k = ground (
  arith,
  sort_rows-strict p d,
  lacks_id-values_where p j d,
  lacks_id-sort_rows l.id (values_where p d),
  insert_row-strict l (sort_rows (values_where p d)),
)
