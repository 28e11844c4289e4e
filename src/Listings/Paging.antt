-- ===== src/Listings/Paging.antt =====
-- What a page of a strictly ordered list leaves: `list_active_keyset` of
-- src/listings/adapters/inmemory/inmemory_property_listing_repo.py.
use estate_os_service.Base.{
  ℕ, zero, suc, ◌≤◌, ◌<◌, String, ◌≡◌, refl, Bool, true, Option, none, some, List, [], ◌∷◌, ◌++◌,
  ◌&&◌, ◌-◌, arith, length, filter, take, drop, ltb, sym, ap, ◌∙◌,
}
use estate_os_service.Listings.Model.{PropertyListing, ListCursor}
use estate_os_service.Listings.Store.{key_less, comes_before, past_cursor}
use estate_os_service.Listings.Pages.{last_row, cursor_of}
use estate_os_service.Listings.Order.{is_before_all, is_strict}

abbrev is_past : ListCursor → PropertyListing → Bool
is_past c r = key_less r.created_at r.id c.created_at c.id

abbrev all_hold : (PropertyListing → Bool) → List PropertyListing → Bool
all_hold p [] = true
all_hold p (l ∷ ls) = let rest = all_hold p ls in p l && rest

all_hold-filter :
    (p : PropertyListing → Bool) (ls : List PropertyListing) → all_hold p (filter p ls) ≡ true
all_hold-filter p [] = refl
all_hold-filter p (l ∷ ls) = ground (arith, all_hold-filter p ls)

all_hold-last :
    (p : PropertyListing → Bool) (y : PropertyListing) (n : ℕ) (ls : List PropertyListing)
    → all_hold p ls ≡ true
    → last_row (take n ls) ≡ some y
    → p y ≡ true
all_hold-last p y zero ls h e = ground arith
all_hold-last p y (suc n) [] h e = ground arith
all_hold-last p y (suc zero) (m ∷ ms) h e = ground arith
all_hold-last p y (suc (suc n)) (m ∷ []) h e = ground arith
all_hold-last p y (suc (suc n)) (m ∷ k ∷ ks) h e =
    ground (arith, all_hold-last p y (suc n) (k ∷ ks))

before_all-last :
    (l y : PropertyListing) (n : ℕ) (ls : List PropertyListing)
    → is_before_all l ls ≡ true
    → last_row (take n ls) ≡ some y
    → comes_before l y ≡ true
before_all-last l y zero ls h e = ground arith
before_all-last l y (suc n) [] h e = ground arith
before_all-last l y (suc zero) (m ∷ ms) h e = ground arith
before_all-last l y (suc (suc n)) (m ∷ []) h e = ground arith
before_all-last l y (suc (suc n)) (m ∷ k ∷ ks) h e =
    ground (arith, before_all-last l y (suc n) (k ∷ ks))

before_all-filter :
    (p : PropertyListing → Bool) (l : PropertyListing) (ls : List PropertyListing)
    → is_before_all l ls ≡ true
    → is_before_all l (filter p ls) ≡ true
before_all-filter p l [] h = refl
before_all-filter p l (m ∷ ms) h = ground (arith, before_all-filter p l ms)

pub strict-filter :
    (p : PropertyListing → Bool) (ls : List PropertyListing)
    → is_strict ls ≡ true
    → is_strict (filter p ls) ≡ true
strict-filter p [] h = refl
strict-filter p (l ∷ ls) h = ground (arith, strict-filter p ls, before_all-filter p l ls)

module _ (fp : String) where
  filter-before_all :
      (y : PropertyListing) (ls : List PropertyListing)
      → is_before_all y ls ≡ true
      → filter (is_past (cursor_of fp y)) ls ≡ ls
  filter-before_all y [] h = refl
  filter-before_all y (l ∷ ls) h = ground (arith, filter-before_all y ls)

  -- In a strictly ordered list, what is past the last row of a page is what the page leaves.
  filter-last :
      (y : PropertyListing) (n : ℕ) (ls : List PropertyListing)
      → is_strict ls ≡ true
      → last_row (take n ls) ≡ some y
      → filter (is_past (cursor_of fp y)) ls ≡ drop n ls
  filter-last y zero ls h e = ground arith
  filter-last y (suc n) [] h e = ground arith
  filter-last y (suc zero) (l ∷ ls) h e = ground (arith, filter-before_all l ls)
  filter-last y (suc (suc n)) (l ∷ []) h e = ground arith
  filter-last y (suc (suc n)) (l ∷ m ∷ ms) h e =
      ground (arith, filter-last y (suc n) (m ∷ ms), before_all-last l y (suc n) (m ∷ ms))

  filter_trans :
      (c : ListCursor) (y : PropertyListing) (ls : List PropertyListing)
      → is_past c y ≡ true
      → filter (is_past (cursor_of fp y)) (filter (is_past c) ls)
        ≡ filter (is_past (cursor_of fp y)) ls
  filter_trans c y [] h = refl
  filter_trans c y (l ∷ ls) h = ground (arith, filter_trans c y ls)

  -- The rows past the last row of a page are the rows past the page's cursor, less the page.
  pub past_cursor-last :
      (cursor : Option ListCursor) (y : PropertyListing) (n : ℕ) (ls : List PropertyListing)
      → is_strict ls ≡ true
      → last_row (take n (past_cursor cursor ls)) ≡ some y
      → past_cursor (some (cursor_of fp y)) ls ≡ drop n (past_cursor cursor ls)
  past_cursor-last none y n ls h e = filter-last y n ls h e
  past_cursor-last (some c) y n ls h e =
      sym (
        filter_trans c y ls (
          all_hold-last (is_past c) y n (filter (is_past c) ls) (all_hold-filter (is_past c) ls) e))
      ∙ filter-last y n (filter (is_past c) ls) (strict-filter (is_past c) ls h) e

pub take-drop : (n : ℕ) (ls : List PropertyListing) → take n ls ++ drop n ls ≡ ls
take-drop zero ls = refl
take-drop (suc n) [] = refl
take-drop (suc n) (l ∷ ls) = ap (λ t. l ∷ t) (take-drop n ls)

pub take_short : (n : ℕ) (ls : List PropertyListing) → length ls ≤ n → take n ls ≡ ls
take_short zero [] h = refl
take_short zero (l ∷ ls) h = ground arith
take_short (suc n) [] h = refl
take_short (suc n) (l ∷ ls) h = ground (arith, take_short n ls)

pub length-take :
    (n : ℕ) (ls : List PropertyListing) → ltb n (length (take (suc n) ls)) ≡ ltb n (length ls)
length-take zero [] = ground arith
length-take zero (l ∷ ls) = ground arith
length-take (suc n) [] = ground arith
length-take (suc n) (l ∷ ls) = ground (arith, length-take n ls)

pub take-take : (n : ℕ) (ls : List PropertyListing) → take n (take (suc n) ls) ≡ take n ls
take-take zero ls = refl
take-take (suc n) [] = refl
take-take (suc n) (l ∷ ls) = ap (λ t. l ∷ t) (take-take n ls)

pub length-drop : (n : ℕ) (ls : List PropertyListing) → length (drop n ls) ≡ length ls - n
length-drop zero ls = ground arith
length-drop (suc n) [] = ground arith
length-drop (suc n) (l ∷ ls) = ground (arith, length-drop n ls)

pub last-take :
    (n : ℕ) (ls : List PropertyListing)
    → 0 < n
    → n < length ls
    → (y : PropertyListing) × (last_row (take n ls) ≡ some y)
last-take zero ls p h = ground arith
last-take (suc n) [] p h = ground arith
last-take (suc zero) (l ∷ ls) p h = (l, refl)
last-take (suc (suc n)) (l ∷ []) p h = ground arith
last-take (suc (suc n)) (l ∷ m ∷ ms) p h = last-take (suc n) (m ∷ ms) (ground arith) (ground arith)
