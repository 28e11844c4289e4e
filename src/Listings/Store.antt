-- ===== src/Listings/Store.antt =====
-- The read side of src/listings/adapters/inmemory/inmemory_property_listing_repo.py. The text of a
-- UUID is 36 hexadecimal places, so texts of UUIDs are ordered like the UUIDs' numbers.
use estate_os_service.Base.{
  ℕ, suc, Uuid, String, Time, Bool, true, false, Option, none, some, List, [], ◌∷◌, ◌&&◌, ◌||◌,
  ◌==◌, ltb, not, length, filter, take, drop, str_eq, if◌then◌else◌,
}
use estate_os_service.Dict.{Dict, lookup, values_where}
use estate_os_service.Listings.Model.{
  PropertyListing, PropertyFilters, ListCursor, type_eq, typology_eq, is_active,
}

abbrev pub Rows : Type 0
Rows = Dict PropertyListing

abbrev pub get_by_id : Uuid → Rows → Option PropertyListing
get_by_id id rows = lookup id rows

-- "if filters.x is not None and listing.x != filters.x: return False"
abbrev pub same_if_given {ℓ} : {A B : Type ℓ} → (A → B → Bool) → Option A → B → Bool
same_if_given same none b = true
same_if_given same (some a) b = same a b

abbrev pub text_is : String → Option String → Bool
text_is s none = false
text_is s (some t) = str_eq t s

-- "listing.min_price is None or listing.min_price < filters.min_price"
abbrev pub at_least : ℕ → Option ℕ → Bool
at_least bound none = false
at_least bound (some p) = not (ltb p bound)

abbrev pub at_most : ℕ → Option ℕ → Bool
at_most bound none = false
at_most bound (some p) = not (ltb bound p)

-- `_matches_filters`
unfoldable pub matches_filters : PropertyFilters → PropertyListing → Bool
matches_filters filters l =
    is_active l.status
    && same_if_given type_eq filters.listing_type l.listing_type
    && same_if_given typology_eq filters.typology l.typology
    && same_if_given text_is filters.parish l.parish
    && same_if_given text_is filters.municipality l.municipality
    && same_if_given text_is filters.district l.district
    && same_if_given at_least filters.min_price l.min_price
    && same_if_given at_most filters.max_price l.min_price

-- `(created_at, str(id)) < (created_at', str(id'))`
abbrev pub key_less : Time → Uuid → Time → Uuid → Bool
key_less t i t' i' = ltb t t' || ((t == t') && ltb i i')

abbrev pub comes_before : PropertyListing → PropertyListing → Bool
comes_before l m = key_less m.created_at m.id l.created_at l.id

-- `rows.sort(key=lambda r: (r.created_at, str(r.id)), reverse=True)`: the greatest key first, and
-- equal keys keep their order.
abbrev pub insert_row : PropertyListing → List PropertyListing → List PropertyListing
insert_row l [] = l ∷ []
insert_row l (m ∷ ms) =
    let rest = insert_row l ms in if comes_before m l then m ∷ rest else l ∷ m ∷ ms

abbrev pub sort_rows : List PropertyListing → List PropertyListing
sort_rows [] = []
sort_rows (l ∷ ls) = insert_row l (sort_rows ls)

abbrev pub of_organization : Option Uuid → PropertyListing → Bool
of_organization none l = true
of_organization (some org) l = l.organization_id == org

-- `_matched_rows`
unfoldable pub matched_rows : PropertyFilters → Option Uuid → Rows → List PropertyListing
matched_rows filters org rows =
    sort_rows (values_where (λ l. of_organization org l && matches_filters filters l) rows)

-- `list_active`, and with an organization `list_active_for_organization`: one slice.
unfoldable pub list_active : PropertyFilters → Option Uuid → ℕ → ℕ → Rows → List PropertyListing
list_active filters org offset limit rows = take limit (drop offset (matched_rows filters org rows))

-- `count_active`, `count_active_for_organization`
unfoldable pub count_active : PropertyFilters → Option Uuid → Rows → ℕ
count_active filters org rows = length (matched_rows filters org rows)

abbrev pub past_cursor : Option ListCursor → List PropertyListing → List PropertyListing
past_cursor none rows = rows
past_cursor (some c) rows = filter (λ r. key_less r.created_at r.id c.created_at c.id) rows

-- `list_active_keyset`: the page, and whether there is more.
unfoldable pub list_active_keyset :
    PropertyFilters → Option ListCursor → ℕ → Rows → List PropertyListing × Bool
list_active_keyset filters cursor limit rows =
    let page = take (suc limit) (past_cursor cursor (matched_rows filters none rows)) in
    (take limit page, ltb limit (length page))

abbrev pub wanted : Uuid → List Uuid → Bool
wanted i [] = false
wanted i (j ∷ js) = (i == j) || wanted i js

-- `list_by_ids`
unfoldable pub list_by_ids : List Uuid → Rows → List PropertyListing
list_by_ids ids rows = values_where (λ l. wanted l.id ids && is_active l.status) rows
