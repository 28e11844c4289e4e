-- ===== src/Listings/Walk.antt =====
-- Walking the pages of the public list: `ListProperties` of
-- src/listings/application/use_cases/list_properties.py with the cursors of
-- src/listings/domain/pagination/cursor.py.
use estate_os_service.Base.{
  ℕ, zero, suc, ◌≤◌, ◌<◌, String, ◌≡◌, refl, true, Option, none, some, List, [], ◌∷◌, ◌++◌, arith,
  length, take, drop, ltb, Bool-cases, inl, inr, ap,
}
use estate_os_service.Exec.{Result, ok, err}
use estate_os_service.Listings.Model.{PropertyListing, PropertyFilters, ListCursor}
use estate_os_service.Listings.Store.{Rows, matched_rows, past_cursor, list_active_keyset}
use estate_os_service.Listings.Cursor.{
  Codec, IsInverse, Cursor, CursorError, list_cursor, search_cursor, decode_token,
}
use estate_os_service.Listings.Cursor.RoundTrip.{decode-encode}
use estate_os_service.Listings.Pages.{last_row, cursor_of, next_token, fetch_page}
use estate_os_service.Listings.Order.{IsKeyed, is_strict, sort_rows-strict}
use estate_os_service.Listings.Paging.{
  past_cursor-last, take-drop, take_short, length-take, take-take, length-drop, last-take,
}

-- What a client reads on after a page: it goes on as long as it gets a token that decodes.
abbrev pub read_on :
    (Option ListCursor → List PropertyListing) → Result CursorError Cursor → List PropertyListing
read_on next (ok (list_cursor c)) = next (some c)
read_on next (ok (search_cursor c)) = []
read_on next (err e) = []

abbrev pub follow :
    {Token : Type 0}
    → (Option ListCursor → List PropertyListing)
    → Codec Token
    → Option Token
    → List PropertyListing
follow next codec none = []
follow next codec (some token) = read_on next (decode_token codec token)

-- All the rows of at most `pages` pages, each fetched with the token of the one before.
abbrev pub walk :
    {Token : Type 0}
    → Codec Token
    → String
    → PropertyFilters
    → ℕ
    → Rows
    → ℕ
    → Option ListCursor
    → List PropertyListing
walk codec fp filters limit rows zero cursor = []
walk codec fp filters limit rows (suc pages) cursor =
    let page = fetch_page codec fp filters cursor limit rows in
    page.items ++ follow (walk codec fp filters limit rows pages) codec page.next_cursor

++-nil : (ls : List PropertyListing) → ls ++ [] ≡ ls
++-nil [] = refl
++-nil (l ∷ ls) = ap (λ t. l ∷ t) (++-nil ls)

keyset_page :
    (filters : PropertyFilters) (cursor : Option ListCursor) (limit : ℕ) (rows : Rows)
    → list_active_keyset filters cursor limit rows ≡ (
      take limit (past_cursor cursor (matched_rows filters none rows)),
      ltb limit (length (past_cursor cursor (matched_rows filters none rows))),
    )
unfolding list_active_keyset
keyset_page filters cursor limit rows =
    let ls = past_cursor cursor (matched_rows filters none rows) in
    rw (take-take limit ls, length-take limit ls) refl

module _ {Token : Type 0} (codec : Codec Token) (fp : String) (filters : PropertyFilters)
    (limit : ℕ) (rows : Rows) where
  abbrev rest_of : Option ListCursor → List PropertyListing
  rest_of cursor = past_cursor cursor (matched_rows filters none rows)

  fetch_page-keyset :
      (cursor : Option ListCursor)
      → fetch_page codec fp filters cursor limit rows ≡ (record {
        items = take limit (rest_of cursor);
        next_cursor =
            next_token codec fp
              (ltb limit (length (rest_of cursor)))
              (last_row (take limit (rest_of cursor)));
      })
  unfolding fetch_page
  fetch_page-keyset cursor = rw (keyset_page filters cursor limit rows) refl

  -- A walk reads every row past its cursor, once it has as many pages as there are such rows.
  walk-rest :
      (pages : ℕ) (cursor : Option ListCursor)
      → IsInverse codec
      → is_strict (matched_rows filters none rows) ≡ true
      → 0 < limit
      → length (rest_of cursor) ≤ pages
      → walk codec fp filters limit rows pages cursor ≡ rest_of cursor
  walk-rest zero cursor inv strict pos h = ground (arith, take_short 0 (rest_of cursor))
  walk-rest (suc pages) cursor inv strict pos h =
      rw (fetch_page-keyset cursor) (elim (Bool-cases (ltb limit (length (rest_of cursor)))) [
        | inl more ↦
            let (y, e) = last-take limit (rest_of cursor) pos (ground arith) in
            let onward : rest_of (some (cursor_of fp y)) ≡ drop limit (rest_of cursor) =
              past_cursor-last fp cursor y limit (matched_rows filters none rows) strict e in
            let fewer : length (rest_of (some (cursor_of fp y))) ≤ pages =
              ground (arith, onward, length-drop limit (rest_of cursor)) in
            rw
              (
                more,
                e,
                decode-encode codec (list_cursor (cursor_of fp y)) inv,
                walk-rest pages (some (cursor_of fp y)) inv strict pos fewer,
                onward,
              )
              (take-drop limit (rest_of cursor))
        | inr last ↦ rw (last, take_short limit (rest_of cursor) (ground arith)) (++-nil _)
      ])

-- Following the tokens from the first page, a client reads all the rows that match the filters, in
-- their order and each once, in at most as many pages as there are such rows.
pub walk_complete :
    {Token : Type 0} (codec : Codec Token) (fp : String) (filters : PropertyFilters) (limit : ℕ)
    (rows : Rows) (pages : ℕ)
    → IsInverse codec
    → IsKeyed rows
    → 0 < limit
    → length (matched_rows filters none rows) ≤ pages
    → walk codec fp filters limit rows pages none ≡ matched_rows filters none rows
unfolding matched_rows
walk_complete codec fp filters limit rows pages inv keyed pos h =
    walk-rest codec fp filters limit rows pages none inv (sort_rows-strict _ rows keyed) pos h
