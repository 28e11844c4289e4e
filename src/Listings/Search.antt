-- ===== src/Listings/Search.antt =====
-- `SearchListings`: src/listings/application/use_cases/search_listings.py, with the repository's
-- pre-filter. The extractor, the embedder and the vector index are parameters.
use estate_os_service.Base.{
  ℕ, ◌+◌, ◌*◌, Uuid, String, Bool, true, false, Option, none, some, List, [], ◌∷◌, ◌++◌, ◌&&◌, ◌||◌,
  ◌==◌, ltb, leb, not, length, filter, take, drop, is_some, str_eq, if◌then◌else◌,
}
use estate_os_service.Dict.{values_where}
use estate_os_service.Listings.Model.{
  PropertyListing, PropertyFilters, Typology, type_eq, typology_eq, is_active,
}
use estate_os_service.Listings.Store.{Rows, same_if_given, text_is, wanted, list_by_ids, sort_rows}
use estate_os_service.Listings.Cursor.{Codec, search_cursor, encode}
use estate_os_service.Listings.Pages.{CachedPage}

pub record LocationFilter : Type 0 where
  pub parish : Option String
  pub municipality : Option String
  pub district : Option String

pub record ParsedQuery : Type 0 where
  pub free_text_remainder : String
  pub typology : Option Typology
  pub min_bedrooms : Option ℕ
  pub min_bathrooms : Option ℕ
  pub min_area_m2 : Option ℕ
  pub max_area_m2 : Option ℕ
  pub min_price : Option ℕ
  pub max_price : Option ℕ
  pub has_pool : Option Bool
  pub has_garden : Option Bool
  pub has_elevator : Option Bool
  pub has_parking : Option Bool
  pub nearby_pois : List String

-- `route if route is not None else parsed`
abbrev pub first_given {ℓ} : {A : Type ℓ} → Option A → Option A → Option A
first_given none b = b
first_given (some a) b = some a

-- "if location.x and row.x != location.x: return False"
abbrev pub same_place : Option String → Option String → Bool
same_place none t = true
same_place (some s) t = if str_eq s "" then true else text_is s t

-- A bound that a missing value passes.
abbrev pub not_below : Option ℕ → Option ℕ → Bool
not_below (some bound) (some n) = not (ltb n bound)
not_below _ _ = true

abbrev pub not_above : Option ℕ → Option ℕ → Bool
not_above (some bound) (some n) = not (ltb bound n)
not_above _ _ = true

abbrev pub has_if_asked : Option Bool → Option Bool → Bool
has_if_asked (some true) (some b) = b
has_if_asked _ _ = true

abbrev pub parks_if_asked : Option Bool → Option ℕ → Bool
parks_if_asked (some true) (some n) = not (n == 0)
parks_if_asked _ _ = true

-- `_matches` in `list_ids_for_search`
unfoldable pub matches_search :
    LocationFilter → PropertyFilters → ParsedQuery → PropertyListing → Bool
matches_search location route parsed row =
    is_active row.status
    && same_place location.parish row.parish
    && same_place location.municipality row.municipality
    && same_place location.district row.district
    && same_if_given typology_eq (first_given route.typology parsed.typology) row.typology
    && same_if_given type_eq route.listing_type row.listing_type
    && not_below (first_given route.min_price parsed.min_price) row.min_price
    && not_above (first_given route.max_price parsed.max_price) row.min_price
    && not_below parsed.min_bedrooms row.num_of_bedrooms
    && not_below parsed.min_bathrooms row.num_of_bathrooms
    && not_below parsed.min_area_m2 row.area_in_m2
    && not_above parsed.max_area_m2 row.area_in_m2
    && has_if_asked parsed.has_pool row.has_pool
    && has_if_asked parsed.has_garden row.has_garden
    && has_if_asked parsed.has_elevator row.has_elevator
    && parks_if_asked parsed.has_parking row.parking_spaces

abbrev pub ids_of : List PropertyListing → List Uuid
ids_of [] = []
ids_of (l ∷ ls) = l.id ∷ ids_of ls

-- `list_ids_for_search`: the scan stops after the row that reaches the limit, so that a limit of 0
-- gives one row as well.
unfoldable pub list_ids_for_search :
    LocationFilter → PropertyFilters → ParsedQuery → ℕ → Rows → List Uuid
list_ids_for_search location route parsed limit rows =
    let ids = ids_of (values_where (matches_search location route parsed) rows) in
    if limit == 0 then take 1 ids else take limit ids

abbrev pub is_missing {ℓ} : {A : Type ℓ} → Option A → Bool
is_missing o = not (is_some o)

abbrev pub is_asked : Option Bool → Bool
is_asked (some b) = b
is_asked none = false

-- `_has_unevaluable_criterion`
unfoldable pub has_unevaluable_criterion : ParsedQuery → PropertyListing → Bool
has_unevaluable_criterion parsed row =
    (is_some parsed.min_bedrooms && is_missing row.num_of_bedrooms)
    || (is_some parsed.min_bathrooms && is_missing row.num_of_bathrooms)
    || ((is_some parsed.min_area_m2 || is_some parsed.max_area_m2) && is_missing row.area_in_m2)
    || (is_asked parsed.has_pool && is_missing row.has_pool)
    || (is_asked parsed.has_garden && is_missing row.has_garden)
    || (is_asked parsed.has_elevator && is_missing row.has_elevator)
    || (is_asked parsed.has_parking && is_missing row.parking_spaces)
    || ((is_some parsed.min_price || is_some parsed.max_price) && is_missing row.min_price)

-- `by_id.get(m.id)`: of two rows of one id, the dict keeps the last
abbrev pub row_of : Uuid → List PropertyListing → Option PropertyListing
row_of i [] = none
row_of i (l ∷ ls) =
    let later = row_of i ls in
    elim later [ some m ↦ some m | none ↦ if l.id == i then some l else none ]

abbrev pub add_row : Option PropertyListing → List PropertyListing → List PropertyListing
add_row none ls = ls
add_row (some l) ls = l ∷ ls

abbrev pub in_order : List Uuid → List PropertyListing → List PropertyListing
in_order [] rows = []
in_order (i ∷ is) rows = add_row (row_of i rows) (in_order is rows)

-- The two buckets, the rows that miss data last.
abbrev pub split_buckets : ParsedQuery → List PropertyListing → List PropertyListing
split_buckets parsed rows =
    filter (λ l. not (has_unevaluable_criterion parsed l)) rows
    ++ filter (has_unevaluable_criterion parsed) rows

-- `_partition_and_rank`, by the ids of the matches
unfoldable pub partition_and_rank :
    ParsedQuery → List Uuid → List PropertyListing → List PropertyListing
partition_and_rank parsed matches rows = split_buckets parsed (in_order matches rows)

-- `_relational_fallback`
unfoldable pub relational_fallback : ParsedQuery → List Uuid → ℕ → Rows → List PropertyListing
relational_fallback parsed candidates top_k rows =
    let found = list_by_ids (take top_k candidates) rows in
    sort_rows (filter (λ l. not (has_unevaluable_criterion parsed l)) found)
    ++ sort_rows (filter (has_unevaluable_criterion parsed) found)

-- The vector index by the ids of its matches, best first: with none it is asked for active listings
-- only, with a list also for those ids. The outer none is a query that raises.
abbrev pub VectorQuery : Type 0 → Type 0
VectorQuery Vector = Vector → Option (List Uuid) → ℕ → Option (List Uuid)

abbrev pub within : List Uuid → ℕ → List Uuid → List Uuid
within [] top_k matches = take top_k matches
within (c ∷ cs) top_k matches = take top_k (filter (λ m. wanted m (c ∷ cs)) matches)

abbrev pub narrowed : List Uuid → ℕ → Option (List Uuid) → Option (List Uuid)
narrowed candidates top_k none = none
narrowed candidates top_k (some matches) = some (within candidates top_k matches)

-- `_run_vector_query`
unfoldable pub run_vector_query :
    {Vector : Type 0} → VectorQuery Vector → Vector → List Uuid → Bool → ℕ → ℕ → Option (List Uuid)
run_vector_query query v candidates true top_k overshoot =
    narrowed candidates top_k (query v none (top_k * overshoot))
run_vector_query query v [] false top_k overshoot = some []
run_vector_query query v (c ∷ cs) false top_k overshoot = query v (some (c ∷ cs)) top_k

pub record CachedSearchResult : Type 0 where
  pub parsed : ParsedQuery
  pub ranked_ids : List Uuid

abbrev pub next_search_token :
    {Token : Type 0} → Codec Token → String → ℕ → ℕ → List Uuid → Option Token
next_search_token codec fp offset limit ids =
    if ltb (offset + limit) (length ids)
    then some (encode codec (search_cursor (record { fp = fp; offset = offset + limit })))
    else none

-- `order[r.id]`: the place of an id, the last one if it is there twice
abbrev pub place_of : Uuid → List Uuid → ℕ → ℕ → ℕ
place_of i [] n found = found
place_of i (j ∷ js) n found = place_of i js (n + 1) (if j == i then n else found)

abbrev pub insert_by_place :
    List Uuid → PropertyListing → List PropertyListing → List PropertyListing
insert_by_place ids l [] = l ∷ []
insert_by_place ids l (m ∷ ms) =
    let rest = insert_by_place ids l ms in
    if leb (place_of l.id ids 0 0) (place_of m.id ids 0 0) then l ∷ m ∷ ms else m ∷ rest

-- `rows.sort(key=lambda r: order[r.id])`
abbrev pub sort_by_place : List Uuid → List PropertyListing → List PropertyListing
sort_by_place ids [] = []
sort_by_place ids (l ∷ ls) = insert_by_place ids l (sort_by_place ids ls)

abbrev pub cached_page :
    {Token : Type 0}
    → Codec Token
    → String
    → ℕ
    → ℕ
    → List Uuid
    → List Uuid
    → Rows
    → CachedPage Token
cached_page codec fp offset limit ranked [] rows = record { items = []; next_cursor = none }
cached_page codec fp offset limit ranked (i ∷ is) rows = record {
  items = sort_by_place (i ∷ is) (list_by_ids (i ∷ is) rows);
  next_cursor = next_search_token codec fp offset limit ranked;
}

-- `_page_from_cache`
unfoldable pub page_from_cache :
    {Token : Type 0} → Codec Token → String → ℕ → ℕ → CachedSearchResult → Rows → CachedPage Token
page_from_cache codec fp offset limit hit rows =
    cached_page codec fp offset limit hit.ranked_ids (take limit (drop offset hit.ranked_ids)) rows
