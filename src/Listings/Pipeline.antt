-- ===== src/Listings/Pipeline.antt =====
-- The pipeline of `SearchListings` on a cache miss:
-- src/listings/application/use_cases/search_listings.py. `strip` is Python's, and the extractor, the
-- embedder, the vector index and the repository's failures are parameters.
use Prim.Native.String.{◌++◌}
use estate_os_service.Base.{
  ℕ, Uuid, String, Bool, true, Option, none, some, List, [], ◌∷◌, ◌==◌, leb, or_else, length, take,
  drop, str_eq, if◌then◌else◌,
}
use estate_os_service.Listings.Model.{
  PropertyListing, PropertyFilters, Typology, house, apartment, land, ruin,
}
use estate_os_service.Listings.Store.{Rows, list_by_ids}
use estate_os_service.Listings.Cursor.{Codec}
use estate_os_service.Listings.Pages.{CachedPage}
use estate_os_service.Listings.Search.{
  LocationFilter, ParsedQuery, list_ids_for_search, partition_and_rank, relational_fallback,
  VectorQuery, run_vector_query, CachedSearchResult, next_search_token, page_from_cache, ids_of,
  is_asked,
}

abbrev pub append : List String → List String → List String
append [] ys = ys
append (x ∷ xs) ys = x ∷ append xs ys

-- `sep.join(parts)`
abbrev pub join_texts : String → List String → String
join_texts sep [] = ""
join_texts sep (x ∷ []) = x
join_texts sep (x ∷ y ∷ ys) = x ++ sep ++ join_texts sep (y ∷ ys)

abbrev pub typology_value : Typology → String
typology_value house = "house"
typology_value apartment = "apartment"
typology_value land = "land"
typology_value ruin = "ruin"

abbrev pub typology_part : Option Typology → List String
typology_part none = []
typology_part (some t) = ("TYPOLOGY: " ++ typology_value t) ∷ []

-- "if n: …" of an optional number, where 0 counts as missing
abbrev pub count_part : (ℕ → String) → Option ℕ → List String
count_part label none = []
count_part label (some n) = if n == 0 then [] else label n ∷ []

abbrev pub area_part : (ℕ → String) → Option ℕ → Option ℕ → List String
area_part int_text none none = []
area_part int_text (some a) (some b) = (int_text a ++ "-" ++ int_text b ++ "m²") ∷ []
area_part int_text (some a) none = ("≥" ++ int_text a ++ "m²") ∷ []
area_part int_text none (some b) = ("≤" ++ int_text b ++ "m²") ∷ []

abbrev pub feature : Option Bool → String → List String
feature asked name = if is_asked asked then name ∷ [] else []

abbrev pub section : String → List String → List String
section title [] = []
section title (x ∷ xs) = (title ++ join_texts ", " (x ∷ xs)) ∷ []

abbrev pub description_part : String → List String
description_part stripped = if str_eq stripped "" then [] else ("DESCRIPTION: " ++ stripped) ∷ []

-- `_render_query_for_embed`
unfoldable pub render_query_for_embed : (ℕ → String) → (String → String) → ParsedQuery → String
render_query_for_embed int_text strip parsed = join_texts "\n" (
    append (typology_part parsed.typology) (
      append
        (section "CHARACTERISTICS: " (
          append (count_part (λ n. "T" ++ int_text n) parsed.min_bedrooms) (
            append (area_part int_text parsed.min_area_m2 parsed.max_area_m2)
              (count_part (λ n. int_text n ++ " casas de banho") parsed.min_bathrooms))))
        (append
          (section "FEATURES: " (
            append (feature parsed.has_pool "piscina") (
              append (feature parsed.has_garden "jardim") (
                append (feature parsed.has_elevator "elevador")
                  (feature parsed.has_parking "garagem")))))
          (append (section "NEARBY: " parsed.nearby_pois)
            (description_part (strip parsed.free_text_remainder))))))

-- `ParsedQuery(free_text_remainder=query)`
abbrev pub unparsed : String → ParsedQuery
unparsed query = record {
  free_text_remainder = query;
  typology = none;
  min_bedrooms = none;
  min_bathrooms = none;
  min_area_m2 = none;
  max_area_m2 = none;
  min_price = none;
  max_price = none;
  has_pool = none;
  has_garden = none;
  has_elevator = none;
  has_parking = none;
  nearby_pois = [];
}

-- The ports and the settings of the use case; none is a call that raises.
pub record Ports (Vector : Type 0) : Type 0 where
  pub extract : String → Option ParsedQuery
  pub embed : String → Option Vector
  pub query : VectorQuery Vector
  pub prefilter_fails : Bool
  pub strip : String → String
  pub int_text : ℕ → String
  pub top_k : ℕ
  pub max_candidates : ℕ
  pub overshoot : ℕ

abbrev pub embed_text : {Vector : Type 0} → Ports Vector → String → ParsedQuery → String
embed_text p query parsed =
    let rendered = render_query_for_embed p.int_text p.strip parsed in
    if str_eq (p.strip rendered) "" then "DESCRIPTION: " ++ query else rendered

-- The pre-filter's ids, and whether there may be more.
abbrev pub candidates_of :
    {Vector : Type 0}
    → Ports Vector
    → LocationFilter
    → PropertyFilters
    → ParsedQuery
    → Rows
    → List Uuid × Bool
candidates_of p location filters parsed rows =
    if p.prefilter_fails
    then ([], true)
    else (let ids = list_ids_for_search location filters parsed p.max_candidates rows in
        (ids, leb p.max_candidates (length ids)))

abbrev pub rank_matches :
    ParsedQuery → Option (List Uuid) → List Uuid → ℕ → Rows → List PropertyListing
rank_matches parsed none candidates top_k rows = relational_fallback parsed candidates top_k rows
rank_matches parsed (some []) candidates top_k rows = []
rank_matches parsed (some (m ∷ ms)) candidates top_k rows =
    partition_and_rank parsed (m ∷ ms) (list_by_ids (m ∷ ms) rows)

abbrev pub rank_vector :
    {Vector : Type 0}
    → Ports Vector
    → ParsedQuery
    → Option Vector
    → List Uuid × Bool
    → Rows
    → List PropertyListing
rank_vector p parsed none (candidates, saturated) rows =
    relational_fallback parsed candidates p.top_k rows
rank_vector p parsed (some v) (candidates, saturated) rows =
    rank_matches parsed (run_vector_query p.query v candidates saturated p.top_k p.overshoot)
      candidates p.top_k rows

-- `_compute_ranked`
unfoldable pub compute_ranked :
    {Vector : Type 0}
    → Ports Vector
    → String
    → LocationFilter
    → PropertyFilters
    → Rows
    → ParsedQuery × List PropertyListing
compute_ranked p query location filters rows =
    let parsed = or_else (p.extract query) (unparsed query) in
    (
      parsed,
      rank_vector p parsed (p.embed (embed_text p query parsed))
          (candidates_of p location filters parsed rows) rows,
    )

-- `SearchListings.execute`, by what the search cache answers: the page, the parsed query, and what the
-- call stores in the cache.
unfoldable pub search_listings :
    {Vector Token : Type 0}
    → Ports Vector
    → Codec Token
    → String
    → String
    → LocationFilter
    → PropertyFilters
    → ℕ
    → ℕ
    → Option CachedSearchResult
    → Rows
    → CachedPage Token × ParsedQuery × Option CachedSearchResult
search_listings p codec fp q location filters offset limit (some hit) rows =
    (page_from_cache codec fp offset limit hit rows, hit.parsed, none)
search_listings p codec fp q location filters offset limit none rows =
    let (parsed, ordered) = compute_ranked p q location filters rows in
    (
      record {
        items = take limit (drop offset ordered);
        next_cursor = next_search_token codec fp offset limit (ids_of ordered);
      },
      parsed,
      some (record { parsed = parsed; ranked_ids = ids_of ordered }),
    )
