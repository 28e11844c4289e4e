-- ===== src/Listings/Pages.antt =====
-- `ListProperties` (src/listings/application/use_cases/list_properties.py) over the in-memory page
-- cache (src/listings/adapters/inmemory/inmemory_page_cache.py); the monotonic clock is a number.
use Prim.Native.String.{◌++◌}
use estate_os_service.Base.{
  ℕ, ◌+◌, String, Time, Bool, true, Option, none, some, List, [], ◌∷◌, leb, str_eq, if◌then◌else◌,
}
use estate_os_service.Listings.Model.{PropertyListing, PropertyFilters, ListCursor}
use estate_os_service.Listings.Store.{Rows, list_active_keyset}
use estate_os_service.Listings.Cursor.{Codec, list_cursor, encode}

pub record CachedPage (Token : Type 0) : Type 0 where
  pub items : List PropertyListing
  pub next_cursor : Option Token

-- The page and the time from which it is expired, by key.
abbrev pub Cache : Type 0 → Type 0
Cache Token = List (String × (CachedPage Token × Time))

abbrev pub find_entry : {Token : Type 0} → String → Cache Token → Option (CachedPage Token × Time)
find_entry k [] = none
find_entry k ((j, e) ∷ d) = if str_eq j k then some e else find_entry k d

abbrev pub drop_entry : {Token : Type 0} → String → Cache Token → Cache Token
drop_entry k [] = []
drop_entry k ((j, e) ∷ d) = let rest = drop_entry k d in if str_eq j k then rest else (j, e) ∷ rest

abbrev pub put_entry :
    {Token : Type 0} → String → CachedPage Token × Time → Cache Token → Cache Token
put_entry k e [] = (k, e) ∷ []
put_entry k e ((j, f) ∷ d) =
    let rest = put_entry k e d in if str_eq j k then (k, e) ∷ d else (j, f) ∷ rest

abbrev pub check_entry :
    {Token : Type 0}
    → Option (CachedPage Token × Time)
    → String
    → Time
    → Cache Token
    → Option (CachedPage Token) × Cache Token
check_entry none key now cache = (none, cache)
check_entry (some (page, expires_at)) key now cache =
    if leb expires_at now then (none, drop_entry key cache) else (some page, cache)

-- `InMemoryListingsPageCache.get`: an expired entry is dropped.
unfoldable pub cache_get :
    {Token : Type 0} → String → Time → Cache Token → Option (CachedPage Token) × Cache Token
cache_get key now cache = check_entry (find_entry key cache) key now cache

-- `InMemoryListingsPageCache.set`
unfoldable pub cache_set :
    {Token : Type 0} → String → CachedPage Token → ℕ → Time → Cache Token → Cache Token
cache_set key page ttl now cache = put_entry key (page, now + ttl) cache

abbrev pub cursor_part : {Token : Type 0} → Codec Token → Option ListCursor → String
cursor_part codec none = "head"
cursor_part codec (some c) = codec.isoformat c.created_at ++ ":" ++ codec.uuid_text c.id

-- `build_list_cache_key`
unfoldable pub build_list_cache_key :
    {Token : Type 0} → Codec Token → String → Option ListCursor → ℕ → String
build_list_cache_key codec fp cursor limit =
    "listings:list:v1:" ++ fp ++ ":" ++ cursor_part codec cursor ++ ":" ++ codec.int_text limit

-- `items[-1]`, none for an empty list
abbrev pub last_row : List PropertyListing → Option PropertyListing
last_row [] = none
last_row (l ∷ []) = some l
last_row (l ∷ m ∷ ms) = last_row (m ∷ ms)

abbrev pub cursor_of : String → PropertyListing → ListCursor
cursor_of fp tail = record { fp = fp; created_at = tail.created_at; id = tail.id }

-- "if has_more and items: …"
abbrev pub next_token :
    {Token : Type 0} → Codec Token → String → Bool → Option PropertyListing → Option Token
next_token codec fp true (some tail) = some (encode codec (list_cursor (cursor_of fp tail)))
next_token codec fp _ _ = none

-- What `execute` builds when the cache has no page.
unfoldable pub fetch_page :
    {Token : Type 0}
    → Codec Token
    → String
    → PropertyFilters
    → Option ListCursor
    → ℕ
    → Rows
    → CachedPage Token
fetch_page codec fp filters cursor limit rows =
    let (items, has_more) = list_active_keyset filters cursor limit rows in
    record { items = items; next_cursor = next_token codec fp has_more (last_row items) }

abbrev pub on_miss :
    {Token : Type 0}
    → Option (CachedPage Token) × Cache Token
    → CachedPage Token
    → String
    → ℕ
    → Time
    → CachedPage Token × Cache Token
on_miss (some page, cache) fetched key ttl now = (page, cache)
on_miss (none, cache) fetched key ttl now = (fetched, cache_set key fetched ttl now cache)

-- `ListProperties.execute`
unfoldable pub list_properties :
    {Token : Type 0}
    → Codec Token
    → ℕ
    → String
    → PropertyFilters
    → Option ListCursor
    → ℕ
    → Time
    → Rows
    → Cache Token
    → CachedPage Token × Cache Token
list_properties codec ttl fp filters cursor limit now rows cache =
    let key = build_list_cache_key codec fp cursor limit in
    on_miss (cache_get key now cache) (fetch_page codec fp filters cursor limit rows) key ttl now
