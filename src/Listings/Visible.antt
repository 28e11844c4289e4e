-- ===== src/Listings/Visible.antt =====
-- The pages of `SearchListings`: src/listings/application/use_cases/search_listings.py.
use estate_os_service.Base.{
  ℕ, Uuid, String, ◌≡◌, refl, Bool, true, not, Option, none, some, List, [], ◌∷◌, filter, take,
  drop,
}
use estate_os_service.Listings.Model.{PropertyListing, PropertyFilters}
use estate_os_service.Listings.Store.{Rows, list_by_ids, sort_rows}
use estate_os_service.Listings.Cursor.{Codec}
use estate_os_service.Listings.Search.{
  LocationFilter, ParsedQuery, has_unevaluable_criterion, partition_and_rank, relational_fallback,
  in_order, split_buckets, run_vector_query, CachedSearchResult, page_from_cache, cached_page,
}
use estate_os_service.Listings.Pipeline.{
  Ports, compute_ranked, search_listings, rank_matches, rank_vector,
}
use estate_os_service.Listings.Active.{
  all_active, all_active-append, all_active-filter, all_active-take, all_active-drop,
  all_active-sort_rows, all_active-sort_by_place, list_by_ids-active, all_active-in_order,
}

-- Putting the rows that miss data last keeps what is shown active, sorted or not.
split_buckets-active :
    (parsed : ParsedQuery) (ls : List PropertyListing)
    → all_active ls ≡ true
    → all_active (split_buckets parsed ls) ≡ true
split_buckets-active parsed ls h =
    all_active-append (filter (λ l. not (has_unevaluable_criterion parsed l)) ls)
      (filter (has_unevaluable_criterion parsed) ls)
      (all_active-filter (λ l. not (has_unevaluable_criterion parsed l)) ls h)
      (all_active-filter (has_unevaluable_criterion parsed) ls h)

fallback-active :
    (parsed : ParsedQuery) (candidates : List Uuid) (top_k : ℕ) (rows : Rows)
    → all_active (relational_fallback parsed candidates top_k rows) ≡ true
unfolding relational_fallback
fallback-active parsed candidates top_k rows =
    let ls = list_by_ids (take top_k candidates) rows in
    let h = list_by_ids-active (take top_k candidates) rows in
    all_active-append (sort_rows (filter (λ l. not (has_unevaluable_criterion parsed l)) ls))
      (sort_rows (filter (has_unevaluable_criterion parsed) ls))
      (all_active-sort_rows (filter (λ l. not (has_unevaluable_criterion parsed l)) ls)
        (all_active-filter (λ l. not (has_unevaluable_criterion parsed l)) ls h))
      (all_active-sort_rows (filter (has_unevaluable_criterion parsed) ls)
        (all_active-filter (has_unevaluable_criterion parsed) ls h))

partition-active :
    (parsed : ParsedQuery) (is : List Uuid) (ls : List PropertyListing)
    → all_active ls ≡ true
    → all_active (partition_and_rank parsed is ls) ≡ true
unfolding partition_and_rank
partition-active parsed is ls h =
    split_buckets-active parsed (in_order is ls) (all_active-in_order is ls h)

rank_matches-active :
    (parsed : ParsedQuery) (ms : Option (List Uuid)) (candidates : List Uuid) (top_k : ℕ)
    (rows : Rows)
    → all_active (rank_matches parsed ms candidates top_k rows) ≡ true
rank_matches-active parsed none candidates top_k rows = fallback-active parsed candidates top_k rows
rank_matches-active parsed (some []) candidates top_k rows = refl
rank_matches-active parsed (some (m ∷ ms)) candidates top_k rows =
    partition-active parsed (m ∷ ms) (list_by_ids (m ∷ ms) rows) (list_by_ids-active (m ∷ ms) rows)

rank_vector-active :
    {Vector : Type 0}
    → (p : Ports Vector) (parsed : ParsedQuery) (v : Option Vector) (c : List Uuid × Bool)
      (rows : Rows)
    → all_active (rank_vector p parsed v c rows) ≡ true
rank_vector-active p parsed none (candidates, saturated) rows =
    fallback-active parsed candidates p.top_k rows
rank_vector-active p parsed (some v) (candidates, saturated) rows =
    rank_matches-active parsed (run_vector_query p.query v candidates saturated p.top_k p.overshoot)
      candidates p.top_k rows

cached_page-active :
    {Token : Type 0}
    → (codec : Codec Token) (fp : String) (offset limit : ℕ) (ranked is : List Uuid) (rows : Rows)
    → all_active (cached_page codec fp offset limit ranked is rows).items ≡ true
cached_page-active codec fp offset limit ranked [] rows = refl
cached_page-active codec fp offset limit ranked (i ∷ is) rows =
    all_active-sort_by_place (i ∷ is) (list_by_ids (i ∷ is) rows) (list_by_ids-active (i ∷ is) rows)

-- The ranked rows of `_compute_ranked`.
compute_ranked-active :
    {Vector : Type 0}
    → (p : Ports Vector) (q : String) (location : LocationFilter) (filters : PropertyFilters)
      (rows : Rows)
    → all_active (compute_ranked p q location filters rows).1 ≡ true
unfolding compute_ranked
compute_ranked-active p q location filters rows = rank_vector-active p _ _ _ rows

-- Every listing on a page of a search is active at the time of the call: whatever the cache holds,
-- and whichever listings the vector index names, also when the extractor, the pre-filter, the
-- embedder or the index fails.
pub search_shows_active :
    {Vector Token : Type 0}
    → (p : Ports Vector) (codec : Codec Token) (fp q : String) (location : LocationFilter)
      (filters : PropertyFilters) (offset limit : ℕ) (hit : Option CachedSearchResult) (rows : Rows)
    → all_active (search_listings p codec fp q location filters offset limit hit rows).0.items
      ≡ true
unfolding search_listings page_from_cache
search_shows_active p codec fp q location filters offset limit (some hit) rows =
    cached_page-active codec fp offset limit hit.ranked_ids
      (take limit (drop offset hit.ranked_ids)) rows
search_shows_active p codec fp q location filters offset limit none rows =
    all_active-take limit (drop offset (compute_ranked p q location filters rows).1) (
      all_active-drop offset (compute_ranked p q location filters rows).1
        (compute_ranked-active p q location filters rows))
