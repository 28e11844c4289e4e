-- ===== src/Listings/Freshness.antt =====
-- How old a page of the public list can be: `ListProperties` over the page cache,
-- src/listings/application/use_cases/list_properties.py.
use estate_os_service.Base.{
  ℕ, ◌+◌, ◌<◌, String, Time, ◌≡◌, refl, ap, sym, ◌∙◌, Option, none, some, List, [], ◌∷◌, leb,
  or_else, ◌⊎◌, inl, inr, str_eq, eq_iff, arith, Bool-cases, Option-cases,
}
use estate_os_service.Listings.Model.{PropertyFilters, ListCursor}
use estate_os_service.Listings.Store.{Rows}
use estate_os_service.Listings.Cursor.{Codec}
use estate_os_service.Listings.Newest.{IsIn}
use estate_os_service.Listings.Pages.{
  CachedPage, Cache, find_entry, drop_entry, put_entry, cache_get, cache_set, build_list_cache_key,
  fetch_page, list_properties,
}

-- One request, with the time and the rows of the read model when it is served.
pub record Request : Type 0 where
  pub fp : String
  pub filters : PropertyFilters
  pub cursor : Option ListCursor
  pub limit : ℕ
  pub now : Time
  pub rows : Rows

entry_page :
    {Token : Type 0} {a b : CachedPage Token} {t u : Time}
    → Path (Option (CachedPage Token × Time)) (some (a, t)) (some (b, u))
    → a ≡ b
entry_page {Token} {a} {b} {t} {u} h =
    ap
      (λ (o : Option (CachedPage Token × Time)). (or_else {A = CachedPage Token × Time} o (a, t)).0)
      h

entry_time :
    {Token : Type 0} {a b : CachedPage Token} {t u : Time}
    → Path (Option (CachedPage Token × Time)) (some (a, t)) (some (b, u))
    → t ≡ u
entry_time {Token} {a} {b} {t} {u} h =
    ap
      (λ (o : Option (CachedPage Token × Time)). (or_else {A = CachedPage Token × Time} o (a, t)).1)
      h

find-drop_same :
    {Token : Type 0} (k : String) (cache : Cache Token) → find_entry k (drop_entry k cache) ≡ none
find-drop_same k [] = refl
find-drop_same k ((j, e) ∷ d) = ground (arith, find-drop_same k d)

find-drop_same_key :
    {Token : Type 0} (key k : String) (cache : Cache Token)
    → key ≡ k
    → find_entry k (drop_entry key cache) ≡ none
find-drop_same_key key k cache e =
    ap (λ t. find_entry k (drop_entry t cache)) e ∙ find-drop_same k cache

find-drop :
    {Token : Type 0} (key k : String) (cache : Cache Token)
    → (find_entry k (drop_entry key cache) ≡ none)
      ⊎ (find_entry k (drop_entry key cache) ≡ find_entry k cache)
find-drop key k [] = inl refl
find-drop key k ((j, e) ∷ d) = elim (Bool-cases (str_eq j key)) [
  | inl x ↦ elim (Bool-cases (str_eq j k)) [
    | inl y ↦ inl (rw x (find-drop_same_key key k d (sym ((eq_iff j key).0 x) ∙ (eq_iff j k).0 y)))
    | inr y ↦ rw (x, y) (find-drop key k d)
  ]
  | inr x ↦ elim (Bool-cases (str_eq j k)) [
    | inl y ↦ inr (rw (x, y) refl)
    | inr y ↦ rw (x, y) (find-drop key k d)
  ]
]

find-put :
    {Token : Type 0} (key k : String) (e : CachedPage Token × Time) (cache : Cache Token)
    → ((key ≡ k) × (find_entry k (put_entry key e cache) ≡ some e))
      ⊎ (find_entry k (put_entry key e cache) ≡ find_entry k cache)
find-put key k e [] = elim (Bool-cases (str_eq key k)) [
  | inl x ↦ inl ((eq_iff key k).0 x, rw x refl)
  | inr x ↦ inr (rw x refl)
]
find-put key k e ((j, f) ∷ d) = elim (Bool-cases (str_eq j key)) [
  | inl x ↦ elim (Bool-cases (str_eq key k)) [
    | inl y ↦ inl ((eq_iff key k).0 y, rw (x, y) refl)
    | inr y ↦ inr (rw (x, y, ap (λ t. str_eq t k) ((eq_iff j key).0 x) ∙ y) refl)
  ]
  | inr x ↦ elim (Bool-cases (str_eq j k)) [
    | inl y ↦ inr (rw (x, y) refl)
    | inr y ↦ rw (x, y) (find-put key k e d)
  ]
]

module _ {Token : Type 0} (codec : Codec Token) (ttl : ℕ) where
  abbrev pub key_of : Request → String
  key_of r = build_list_cache_key codec r.fp r.cursor r.limit

  -- The page that the request would get without a cache.
  abbrev pub page_of : Request → CachedPage Token
  page_of r = fetch_page codec r.fp r.filters r.cursor r.limit r.rows

  abbrev pub serve : Request → Cache Token → CachedPage Token × Cache Token
  serve r cache = list_properties codec ttl r.fp r.filters r.cursor r.limit r.now r.rows cache

  -- The cache after the requests, the last one first.
  abbrev pub cache_after : List Request → Cache Token
  cache_after [] = []
  cache_after (r ∷ rs) = (serve r (cache_after rs)).1

  -- The page was built for one of the requests, of this key.
  abbrev pub IsFetched : List Request → String → CachedPage Token → Time → Type 0
  IsFetched rs key page expires_at =
      (r : Request) × IsIn r rs × (key_of r ≡ key) × (page_of r ≡ page) × (r.now + ttl ≡ expires_at)

  abbrev pub AreFetched : List Request → Cache Token → Type 0
  AreFetched rs cache =
      (key : String) (page : CachedPage Token) (expires_at : Time)
      → find_entry key cache ≡ some (page, expires_at)
      → IsFetched rs key page expires_at

  older-IsFetched :
      (r : Request) (rs : List Request) (key : String) (page : CachedPage Token) (t : Time)
      → IsFetched rs key page t
      → IsFetched (r ∷ rs) key page t
  older-IsFetched r rs key page t (q, i, k, p, e) = (q, inr i, k, p, e)

  older-AreFetched :
      (r : Request) (rs : List Request) (cache : Cache Token)
      → AreFetched rs cache
      → AreFetched (r ∷ rs) cache
  older-AreFetched r rs cache all key page t h = older-IsFetched r rs key page t (all key page t h)

  drop-AreFetched :
      (key : String) (rs : List Request) (cache : Cache Token)
      → AreFetched rs cache
      → AreFetched rs (drop_entry key cache)
  drop-AreFetched key rs cache all k page t h = elim (find-drop key k cache) [
    | inl e ↦ ground arith
    | inr e ↦ all k page t (sym e ∙ h)
  ]

  put-AreFetched :
      (r : Request) (rs : List Request) (cache : Cache Token)
      → AreFetched rs cache
      → AreFetched (r ∷ rs) (put_entry (key_of r) (page_of r, r.now + ttl) cache)
  put-AreFetched r rs cache all k page t h =
      elim (find-put (key_of r) k (page_of r, r.now + ttl) cache) [
        | inl (e, f) ↦ (r, inl refl, e, entry_page (sym f ∙ h), entry_time (sym f ∙ h))
        | inr e ↦ older-AreFetched r rs cache all k page t (sym e ∙ h)
      ]

  -- A request is served from the cache, or the page is built and stored.
  serve-cases :
      (r : Request) (rs : List Request) (cache : Cache Token)
      → AreFetched rs cache
      → ((page : CachedPage Token) × (t : Time) × (find_entry (key_of r) cache ≡ some (page, t))
          × (r.now < t)
          × (serve r cache ≡ (page, cache)))
        ⊎ ((c : Cache Token) × AreFetched rs c
            × (serve r cache ≡ (page_of r, put_entry (key_of r) (page_of r, r.now + ttl) c)))
  unfolding list_properties cache_get cache_set
  serve-cases r rs cache all = elim (Option-cases (find_entry (key_of r) cache)) [
    | inl e ↦ inr (cache, all, rw e refl)
    | inr ((page, t), e) ↦ elim (Bool-cases (leb t r.now)) [
      | inl old ↦
          inr
            (drop_entry (key_of r) cache, drop-AreFetched (key_of r) rs cache all, rw (e, old) refl)
      | inr new ↦ inl (page, t, e, ground arith, rw (e, new) refl)
    ]
  ]

  serve-AreFetched :
      (r : Request) (rs : List Request) (cache : Cache Token)
      → AreFetched rs cache
      → AreFetched (r ∷ rs) (serve r cache).1
  serve-AreFetched r rs cache all = elim (serve-cases r rs cache all) [
    | inl (page, t, e, new, h) ↦ rw h (older-AreFetched r rs cache all)
    | inr (c, kept, h) ↦ rw h (put-AreFetched r rs c kept)
  ]

  cache_after-AreFetched : (rs : List Request) → AreFetched rs (cache_after rs)
  cache_after-AreFetched [] key page t h = ground arith
  cache_after-AreFetched (r ∷ rs) key page t h =
      serve-AreFetched r rs (cache_after rs) (cache_after-AreFetched rs) key page t h

-- After any requests, the page that a request is served was built for one of them that has its key,
-- less than the time to live before, or for itself.
pub list_properties-fresh :
    {Token : Type 0} (codec : Codec Token) (ttl : ℕ) (r : Request) (rs : List Request)
    → 0 < ttl
    → (q : Request) × IsIn q (r ∷ rs)
      × (key_of codec ttl q ≡ key_of codec ttl r)
      × (page_of codec ttl q ≡ (serve codec ttl r (cache_after codec ttl rs)).0)
      × (r.now < q.now + ttl)
list_properties-fresh codec ttl r rs pos =
    let all = cache_after-AreFetched codec ttl rs in
    elim (serve-cases codec ttl r rs (cache_after codec ttl rs) all) [
      | inl (page, t, e, new, h) ↦
          let (q, i, k, p, u) = all (key_of codec ttl r) page t e in
          (q, inr i, k, p ∙ sym (ap (λ x. x.0) h), rw u new)
      | inr (c, kept, h) ↦ (r, inl refl, refl, sym (ap (λ x. x.0) h), ground arith)
    ]
