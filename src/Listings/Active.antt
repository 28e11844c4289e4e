-- ===== src/Listings/Active.antt =====
-- What a search may show: `SearchListings` of
-- src/listings/application/use_cases/search_listings.py over `list_by_ids` of
-- src/listings/adapters/inmemory/inmemory_property_listing_repo.py.
use estate_os_service.Base.{
  ℕ, zero, suc, Uuid, ◌≡◌, refl, Bool, true, Option, none, some, List, [], ◌∷◌, ◌++◌, ◌&&◌, ◌==◌,
  arith, filter, take, drop, inl, inr, Bool-cases, Option-cases,
}
use estate_os_service.Listings.Model.{PropertyListing, is_active}
use estate_os_service.Listings.Store.{Rows, list_by_ids, sort_rows, insert_row, wanted}
use estate_os_service.Dict.{values_where}
use estate_os_service.Listings.Search.{row_of, add_row, in_order, insert_by_place, sort_by_place}

-- Every row is active.
abbrev pub all_active : List PropertyListing → Bool
all_active [] = true
all_active (l ∷ ls) = let rest = all_active ls in is_active l.status && rest

pub all_active-append :
    (ls ms : List PropertyListing)
    → all_active ls ≡ true
    → all_active ms ≡ true
    → all_active (ls ++ ms) ≡ true
all_active-append [] ms h k = k
all_active-append (l ∷ ls) ms h k = ground (arith, all_active-append ls ms)

pub all_active-filter :
    (p : PropertyListing → Bool) (ls : List PropertyListing)
    → all_active ls ≡ true
    → all_active (filter p ls) ≡ true
all_active-filter p [] h = refl
all_active-filter p (l ∷ ls) h = ground (arith, all_active-filter p ls)

pub all_active-take :
    (n : ℕ) (ls : List PropertyListing) → all_active ls ≡ true → all_active (take n ls) ≡ true
all_active-take zero ls h = refl
all_active-take (suc n) [] h = refl
all_active-take (suc n) (l ∷ ls) h = ground (arith, all_active-take n ls)

pub all_active-drop :
    (n : ℕ) (ls : List PropertyListing) → all_active ls ≡ true → all_active (drop n ls) ≡ true
all_active-drop zero ls h = h
all_active-drop (suc n) [] h = refl
all_active-drop (suc n) (l ∷ ls) h = ground (arith, all_active-drop n ls)

all_active-insert_row :
    (l : PropertyListing) (ls : List PropertyListing)
    → is_active l.status ≡ true
    → all_active ls ≡ true
    → all_active (insert_row l ls) ≡ true
all_active-insert_row l [] a h = ground arith
all_active-insert_row l (m ∷ ms) a h = ground (arith, all_active-insert_row l ms)

pub all_active-sort_rows :
    (ls : List PropertyListing) → all_active ls ≡ true → all_active (sort_rows ls) ≡ true
all_active-sort_rows [] h = refl
all_active-sort_rows (l ∷ ls) h =
    ground (arith, all_active-insert_row l (sort_rows ls), all_active-sort_rows ls)

all_active-insert_by_place :
    (ids : List Uuid) (l : PropertyListing) (ls : List PropertyListing)
    → is_active l.status ≡ true
    → all_active ls ≡ true
    → all_active (insert_by_place ids l ls) ≡ true
all_active-insert_by_place ids l [] a h = ground arith
all_active-insert_by_place ids l (m ∷ ms) a h = ground (arith, all_active-insert_by_place ids l ms)

pub all_active-sort_by_place :
    (ids : List Uuid) (ls : List PropertyListing)
    → all_active ls ≡ true
    → all_active (sort_by_place ids ls) ≡ true
all_active-sort_by_place ids [] h = refl
all_active-sort_by_place ids (l ∷ ls) h = ground (
  arith,
  all_active-insert_by_place ids l (sort_by_place ids ls),
  all_active-sort_by_place ids ls,
)

all_active-values_where :
    (ids : List Uuid) (rows : Rows)
    → all_active (values_where (λ l. wanted l.id ids && is_active l.status) rows) ≡ true
all_active-values_where ids [] = refl
all_active-values_where ids ((j, l) ∷ d) = ground (arith, all_active-values_where ids d)

pub list_by_ids-active : (ids : List Uuid) (rows : Rows) → all_active (list_by_ids ids rows) ≡ true
unfolding list_by_ids
list_by_ids-active ids rows = all_active-values_where ids rows

abbrev is_shown : Option PropertyListing → Bool
is_shown none = true
is_shown (some l) = is_active l.status

row_of-active :
    (i : Uuid) (ls : List PropertyListing) → all_active ls ≡ true → is_shown (row_of i ls) ≡ true
row_of-active i [] h = refl
row_of-active i (l ∷ ls) h = elim (Option-cases (row_of i ls)) [
  | inl e ↦ elim (Bool-cases (l.id == i)) [
    | inl s ↦ rw (e, s) (ground arith)
    | inr s ↦ rw (e, s) refl
  ]
  | inr (m, e) ↦ ground (arith, row_of-active i ls)
]

all_active-add_row :
    (x : Option PropertyListing) (ls : List PropertyListing)
    → is_shown x ≡ true
    → all_active ls ≡ true
    → all_active (add_row x ls) ≡ true
all_active-add_row none ls a h = h
all_active-add_row (some l) ls a h = ground arith

pub all_active-in_order :
    (is : List Uuid) (ls : List PropertyListing)
    → all_active ls ≡ true
    → all_active (in_order is ls) ≡ true
all_active-in_order [] ls h = refl
all_active-in_order (i ∷ is) ls h =
    all_active-add_row (row_of i ls) (in_order is ls) (row_of-active i ls h)
      (all_active-in_order is ls h)
