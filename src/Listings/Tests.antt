-- ===== src/Listings/Tests.antt =====
-- The listings theorems at two active listings, an event of one of them, and a codec that keeps a
-- payload as it is and counts in strokes.
use estate_os_service.Strokes.{strokes, count, count-strokes}
use estate_os_service.Base.{
  ℕ, ◌<◌, ◌+◌, ◌≤◌, Uuid, Time, ◌≡◌, refl, ap, sym, ◌∙◌, true, false, none, some, [], ◌∷◌, ◌↔◌,
  length, inl, inr, arith,
}
use estate_os_service.Exec.{ok, err}
use estate_os_service.Json.{Json, num, text, obj, field, end}
use estate_os_service.Listings.Model.{PropertyListing, PropertyFilters, active, sale, house}
use estate_os_service.Listings.Snapshot.{Snapshot, given, Characteristics}
use estate_os_service.Listings.Store.{Rows, matched_rows, matches_filters, list_by_ids}
use estate_os_service.Listings.Projection.{projected}
use estate_os_service.Listings.Cursor.{
  Codec, IsInverse, Cursor, list_cursor, natural, negative, encode, decode_token, read_cursor,
  server_error,
}
use estate_os_service.Listings.Cursor.RoundTrip.{decode-encode, numeric_id_crashes}
use estate_os_service.Listings.Order.{IsKeyed}
use estate_os_service.Listings.Walk.{walk, walk_complete}
use estate_os_service.Listings.Handlers.{
  World, property_created, property_updated, property_deleted, handle_property_event,
}
use estate_os_service.Listings.Register.{Facts, view, absorb, offer, handle_property_event-view}
use estate_os_service.Listings.Newest.{IsIn}
use estate_os_service.Listings.Convergence.{
  Deliveries, replay, offers, replay_converges, deleted_listing_returns,
}
use estate_os_service.Listings.Freshness.{
  Request, key_of, page_of, serve, cache_after, list_properties-fresh,
}
use estate_os_service.Listings.Search.{
  LocationFilter, has_unevaluable_criterion, partition_and_rank, run_vector_query,
}
use estate_os_service.Listings.Pipeline.{
  Ports, search_listings, compute_ranked, render_query_for_embed,
}
use estate_os_service.Listings.Active.{all_active}
use estate_os_service.Listings.Visible.{search_shows_active}

abbrev codec : Codec Json
codec = record {
  to_token = λ j. j;
  from_token = λ j. some j;
  isoformat = strokes;
  fromisoformat = λ s. some (count s);
  uuid_text = strokes;
  parse_uuid = λ s. some (count s);
  int_of_text = λ s. natural (count s);
  int_of_number = λ s. negative;
  int_text = strokes;
  is_one = λ s. false;
}

codec-IsInverse : IsInverse codec
codec-IsInverse = record {
  token = λ j. refl;
  iso = λ t. ap some (count-strokes t);
  uuid = λ i. ap some (count-strokes i);
}

abbrev cursor : Cursor
cursor = list_cursor (record { fp = "abc"; created_at = 5; id = 2 })

decode-encode_example : decode_token codec (encode codec cursor) ≡ ok cursor
decode-encode_example = decode-encode codec cursor codec-IsInverse

numeric_id_crashes_example :
    read_cursor codec false "abc" (
      obj (
        field "v" (num 1) (
          field "k"
            (text "list")
            (field "fp" (text "abc") (field "c" (text "iii") (field "i" (num 7) end))))))
    ≡ err server_error
numeric_id_crashes_example = numeric_id_crashes codec false "abc" "abc" "iii" _ 3 7 refl refl

abbrev plain : Characteristics
plain = record {
  num_of_bedrooms = some 3;
  num_of_bathrooms = none;
  area_in_m2 = some 90;
  has_pool = none;
  has_garden = some true;
  has_elevator = none;
  floor = none;
  parking_spaces = none;
  built_at = none;
  energy_rating = none;
}

abbrev snapshot : Uuid → ℕ → ℕ → Snapshot
snapshot id v amount = record {
  id = id;
  aggregate_version = v;
  organization_id = 9;
  title = some "Casa";
  status = active;
  listing_type = sale;
  typology = house;
  address = "Rua A";
  postal_code = none;
  country = none;
  characteristics = plain;
  prices = record { amount = given amount; listing_type = given sale } ∷ [];
  images = [];
  pois = none;
  description = none;
  latitude = none;
  longitude = none;
}

abbrev listing : Uuid → Time → PropertyListing
listing id now =
    projected (snapshot id 1 500) now none now (record { amount = 500; listing_type = sale } ∷ [])
      none

abbrev rows : Rows
rows = (1, listing 1 100) ∷ (2, listing 2 200) ∷ []

rows-IsKeyed : IsKeyed rows
unfolding projected
rows-IsKeyed = (refl, refl, (refl, refl, tt))

abbrev any : PropertyFilters
any = record {
  listing_type = none;
  typology = some house;
  min_price = some 100;
  max_price = none;
  parish = none;
  municipality = none;
  district = none;
}

two : length (matched_rows any none rows) ≤ 2
unfolding matched_rows matches_filters projected
two = ground arith

walk_complete_example : walk codec "abc" any 1 rows 2 none ≡ matched_rows any none rows
walk_complete_example =
    walk_complete codec "abc" any 1 rows 2 codec-IsInverse rows-IsKeyed (ground arith) two

abbrev empty : World
empty = record { rows = []; published = [] }

abbrev full : World
full = record { rows = rows; published = [] }

handle_property_event-view_example :
    view 2 (handle_property_event none none (property_updated (snapshot 2 4 300) 700) 900 full).1
    ≡ absorb 2 (property_updated (snapshot 2 4 300) 700) (view 2 full)
handle_property_event-view_example =
    handle_property_event-view none none (property_updated (snapshot 2 4 300) 700) 900 2 full

abbrev forth : Deliveries
forth =
    (property_created (snapshot 3 1 300) 700, 900)
    ∷ (property_updated (snapshot 3 2 400) 800, 901)
    ∷ []

abbrev back : Deliveries
back =
    (property_updated (snapshot 3 2 400) 800, 902)
    ∷ (property_created (snapshot 3 1 300) 700, 903)
    ∷ (property_updated (snapshot 3 2 400) 800, 904)
    ∷ []

same_offers : (e : ℕ × Facts) → IsIn e (offers 3 forth) ↔ IsIn e (offers 3 back)
same_offers e = (
  λ i. elim i [ inl x ↦ inr (inl x) | inr j ↦ elim j [ inl y ↦ inl y | inr z ↦ ground arith ] ],
  λ i. elim i [
    | inl x ↦ inr (inl x)
    | inr j ↦ elim j [
      | inl y ↦ inl y
      | inr k ↦ elim k [ inl z ↦ inr (inl z) | inr z ↦ ground arith ]
    ]
  ],
)

abbrev version : ℕ × Facts → ℕ
version e = e.0

same_facts : (e : ℕ × Facts) (v : ℕ) (f k : Facts) → e ≡ (v, f) → e ≡ (v, k) → f ≡ k
same_facts e v f k x y = ap (λ p. p.1) (sym x ∙ y)

one_each :
    (v : ℕ) (f k : Facts) → IsIn (v, f) (offers 3 forth) → IsIn (v, k) (offers 3 forth) → f ≡ k
one_each v f k (inl x) (inl y) = same_facts _ v f k x y
one_each v f k (inl x) (inr (inl y)) = ground (arith, ap version x, ap version y)
one_each v f k (inl x) (inr (inr y)) = ground arith
one_each v f k (inr (inl x)) (inl y) = ground (arith, ap version x, ap version y)
one_each v f k (inr (inl x)) (inr (inl y)) = same_facts _ v f k x y
one_each v f k (inr (inl x)) (inr (inr y)) = ground arith
one_each v f k (inr (inr x)) j = ground arith

replay_converges_example :
    view 3 (replay none none forth empty) ≡ view 3 (replay none none back empty)
replay_converges_example =
    replay_converges none none 3 forth back empty refl refl refl same_offers one_each

deleted_listing_returns_example :
    view 2 (
      replay none none
        ((property_deleted 2 5 700, 900) ∷ (property_updated (snapshot 2 4 300) 600, 901) ∷ [])
        full)
    ≡ offer 2 (property_updated (snapshot 2 4 300) 600)
unfolding projected
deleted_listing_returns_example =
    deleted_listing_returns none none (snapshot 2 4 300) _ _ 600 700 900 901 5 full refl
      (ground arith) (ground arith) refl

abbrev request : Time → Request
request now = record { fp = "abc"; filters = any; cursor = none; limit = 1; now = now; rows = rows }

list_properties-fresh_example :
    (q : Request) × IsIn q (request 130 ∷ request 100 ∷ [])
    × (key_of codec 60 q ≡ key_of codec 60 (request 130))
    × (page_of codec 60 q
        ≡ (serve codec 60 (request 130) (cache_after codec 60 (request 100 ∷ []))).0)
    × (130 < q.now + 60)
list_properties-fresh_example =
    list_properties-fresh codec 60 (request 130) (request 100 ∷ []) (ground arith)

-- An extractor and a pre-filter that fail, and an index that names both listings.
abbrev ports : Ports ℕ
ports = record {
  extract = λ q. none;
  embed = λ text. some 7;
  query = λ v within k. some (2 ∷ 1 ∷ []);
  prefilter_fails = true;
  strip = λ s. s;
  int_text = strokes;
  top_k = 5;
  max_candidates = 100;
  overshoot = 4;
}

abbrev somewhere : LocationFilter
somewhere = record { parish = none; municipality = none; district = some "Lisboa" }

-- The page has both listings.
shown : length (search_listings ports codec "abc" "casa" somewhere any 0 10 none rows).0.items ≡ 2
unfolding search_listings compute_ranked run_vector_query partition_and_rank list_by_ids
    has_unevaluable_criterion projected render_query_for_embed
shown = refl

search_shows_active_example :
    all_active (search_listings ports codec "abc" "casa" somewhere any 0 10 none rows).0.items
    ≡ true
search_shows_active_example =
    search_shows_active ports codec "abc" "casa" somewhere any 0 10 none rows
