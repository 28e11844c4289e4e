-- ===== src/Listings/Projection.antt =====
-- The write side of src/listings/adapters/inmemory/inmemory_property_listing_repo.py.
use estate_os_service.Base.{
  ℕ, ◌+◌, Uuid, String, Time, Bool, true, false, Option, none, some, List, [], ◌∷◌, ◌==◌, ltb, leb,
  or_else, str_eq, if◌then◌else◌,
}
use estate_os_service.Exec.{Result, ok, err, Exec}
use estate_os_service.Dict.{lookup, insert, erase}
use estate_os_service.Listings.Model.{
  PropertyListing, ListingPrice, ListingImage, AgencyContact, ParsedAddress, Error,
  invalid_operation, value_error,
}
use estate_os_service.Listings.Snapshot.{absent, unreadable, given, RawPrice, RawImage, Snapshot}
use estate_os_service.Listings.Store.{Rows}

abbrev pub Service : Type 0 → Type 0
Service A = Exec Error Rows A

-- `existing.x if existing else default`
abbrev pub kept {ℓ} : {A : Type ℓ} → (PropertyListing → A) → A → Option PropertyListing → A
kept field default none = default
kept field default (some l) = field l

-- `x or default` of a text
abbrev pub or_text : Option String → String → String
or_text none default = default
or_text (some s) default = if str_eq s "" then default else s

abbrev pub lower : Option ℕ → ℕ → Option ℕ
lower none amount = some amount
lower (some m) amount = some (if ltb amount m then amount else m)

-- The loop over `prices`: an amount that is missing or cannot be read is passed over.
abbrev pub lowest_price : Option ℕ → List RawPrice → Option ℕ
lowest_price m [] = m
lowest_price m (p ∷ ps) = elim p.amount [
  | given amount ↦ lowest_price (lower m amount) ps
  | absent ↦ lowest_price m ps
  | unreadable ↦ lowest_price m ps
]

-- The first image whose `display_order` is 0
abbrev pub cover_image : List RawImage → Option String
cover_image [] = none
cover_image (i ∷ is) = elim i.display_order [
  | some n ↦ if n == 0 then i.s3_key else cover_image is
  | none ↦ cover_image is
]

abbrev pub head_key : List RawImage → Option String
head_key [] = none
head_key (i ∷ is) = i.s3_key

abbrev pub first_image : List RawImage → Option String
first_image images = elim (cover_image images) [ some k ↦ some k | none ↦ head_key images ]

abbrev pub add_image :
    Option Uuid → Option String → Option ℕ → List ListingImage → List ListingImage
add_image (some i) (some k) (some n) rest = record { id = i; s3_key = k; display_order = n } ∷ rest
add_image _ _ _ rest = rest

abbrev pub images_list : List RawImage → List ListingImage
images_list [] = []
images_list (i ∷ is) = add_image i.id i.s3_key i.display_order (images_list is)

-- One item of the list of prices: both keys must be there, and then both must convert.
abbrev pub read_price : RawPrice → Result Error (Option ListingPrice)
read_price p = elim p.amount [
  | absent ↦ ok none
  | unreadable ↦ elim p.listing_type [
    | absent ↦ ok none
    | unreadable ↦ err invalid_operation
    | given t ↦ err invalid_operation
  ]
  | given amount ↦ elim p.listing_type [
    | absent ↦ ok none
    | unreadable ↦ err value_error
    | given t ↦ ok (some (record { amount = amount; listing_type = t }))
  ]
]

abbrev pub add_price :
    Result Error (Option ListingPrice)
    → Result Error (List ListingPrice)
    → Result Error (List ListingPrice)
add_price (err e) rest = err e
add_price (ok p) (err e) = err e
add_price (ok none) (ok ps) = ok ps
add_price (ok (some p)) (ok ps) = ok (p ∷ ps)

abbrev pub prices_list : List RawPrice → Result Error (List ListingPrice)
prices_list [] = ok []
prices_list (p ∷ ps) = add_price (read_price p) (prices_list ps)

-- `agency.x if agency is not None else (existing.x if existing else None)`
abbrev pub contact {ℓ} :
    {A : Type ℓ}
    → (AgencyContact → Option A)
    → (PropertyListing → Option A)
    → Option AgencyContact
    → Option PropertyListing
    → Option A
contact of_agency of_row (some a) existing = of_agency a
contact of_agency of_row none existing = kept of_row none existing

-- The row that `upsert_from_event` builds.
unfoldable pub projected :
    Snapshot
    → Time
    → Option AgencyContact
    → Time
    → List ListingPrice
    → Option PropertyListing
    → PropertyListing
projected snap at agency now prices existing = record {
  id = snap.id;
  organization_id = snap.organization_id;
  title = or_text snap.title "Property";
  status = snap.status;
  listing_type = snap.listing_type;
  typology = snap.typology;
  parish = kept (λ l. l.parish) none existing;
  municipality = kept (λ l. l.municipality) none existing;
  district = kept (λ l. l.district) none existing;
  location_enriched_at = kept (λ l. l.location_enriched_at) none existing;
  location_enrichment_attempts = kept (λ l. l.location_enrichment_attempts) 0 existing;
  num_of_bedrooms = snap.characteristics.num_of_bedrooms;
  num_of_bathrooms = snap.characteristics.num_of_bathrooms;
  area_in_m2 = snap.characteristics.area_in_m2;
  has_pool = snap.characteristics.has_pool;
  has_garden = snap.characteristics.has_garden;
  has_elevator = snap.characteristics.has_elevator;
  min_price = lowest_price none snap.prices;
  first_image_s3_key = first_image snap.images;
  description = snap.description;
  latitude = snap.latitude;
  longitude = snap.longitude;
  source_aggregate_version = snap.aggregate_version;
  source_occurred_at = at;
  created_at = kept (λ l. l.created_at) now existing;
  updated_at = now;
  built_at = snap.characteristics.built_at;
  energy_rating = snap.characteristics.energy_rating;
  floor = snap.characteristics.floor;
  parking_spaces = snap.characteristics.parking_spaces;
  country = kept (λ l. l.country) (or_text snap.country "Portugal") existing;
  city = kept (λ l. l.city) none existing;
  state = kept (λ l. l.state) none existing;
  region = kept (λ l. l.region) none existing;
  images = images_list snap.images;
  prices = prices;
  pois = or_else snap.pois (kept (λ l. l.pois) [] existing);
  embedding_text_hash = kept (λ l. l.embedding_text_hash) none existing;
  canonical_text_version = kept (λ l. l.canonical_text_version) none existing;
  embedding_model_version = kept (λ l. l.embedding_model_version) none existing;
  embedded_at = kept (λ l. l.embedded_at) none existing;
  embedding_status = kept (λ l. l.embedding_status) "PENDING" existing;
  agency_name = contact (λ a. a.name) (λ l. l.agency_name) agency existing;
  agency_email = contact (λ a. a.email) (λ l. l.agency_email) agency existing;
  agency_phone = contact (λ a. a.phone) (λ l. l.agency_phone) agency existing;
}

-- "existing is not None and existing.source_aggregate_version >= incoming_version"
abbrev pub is_stale : Option PropertyListing → ℕ → Bool
is_stale none v = false
is_stale (some l) v = leb v l.source_aggregate_version

abbrev pub store_row :
    Result Error (List ListingPrice)
    → (List ListingPrice → PropertyListing)
    → Uuid
    → Service (Option PropertyListing)
store_row (err e) row id rows = (err e, rows)
store_row (ok ps) row id rows = (ok (some (row ps)), insert id (row ps) rows)

unfoldable pub upsert_from_event :
    Snapshot → Time → Option AgencyContact → Time → Service (Option PropertyListing)
upsert_from_event snap at agency now rows =
    let existing = lookup snap.id rows in
    if is_stale existing snap.aggregate_version
    then (ok none, rows)
    else store_row (prices_list snap.prices) (λ ps. projected snap at agency now ps existing)
        snap.id rows

abbrev pub delete_row : Option PropertyListing → Uuid → ℕ → Rows → Bool × Rows
delete_row none id v rows = (false, rows)
delete_row (some l) id v rows =
    if leb v l.source_aggregate_version then (false, rows) else (true, erase id rows)

unfoldable pub delete_if_newer : Uuid → ℕ → Rows → Bool × Rows
delete_if_newer id v rows = delete_row (lookup id rows) id v rows

-- The methods that change one row in place, and do nothing when it is gone.
abbrev pub change_row :
    (PropertyListing → PropertyListing)
    → Option PropertyListing
    → Uuid
    → Rows
    → Option PropertyListing × Rows
change_row change none id rows = (none, rows)
change_row change (some l) id rows = (some (change l), insert id (change l) rows)

unfoldable pub update_location : Uuid → ParsedAddress → Time → Rows → Option PropertyListing × Rows
update_location id parsed now rows =
    change_row
      (λ l. record l {
        parish = parsed.parish;
        municipality = parsed.municipality;
        district = parsed.district;
        country = parsed.country;
        city = parsed.city;
        state = parsed.state;
        region = parsed.region;
        location_enriched_at = some now;
        location_enrichment_attempts = l.location_enrichment_attempts + 1;
      })
      (lookup id rows) id rows

unfoldable pub increment_enrichment_attempts : Uuid → Rows → Option PropertyListing × Rows
increment_enrichment_attempts id rows =
    change_row (λ l. record l { location_enrichment_attempts = l.location_enrichment_attempts + 1 })
      (lookup id rows) id rows

unfoldable pub set_embedding_indexed :
    Uuid → String → String → String → Time → Rows → Option PropertyListing × Rows
set_embedding_indexed id text_hash text_version model_version at rows =
    change_row
      (λ l. record l {
        embedding_text_hash = some text_hash;
        canonical_text_version = some text_version;
        embedding_model_version = some model_version;
        embedded_at = some at;
        embedding_status = "INDEXED";
      })
      (lookup id rows) id rows

unfoldable pub set_embedding_status : Uuid → String → Rows → Option PropertyListing × Rows
set_embedding_status id status rows =
    change_row (λ l. record l { embedding_status = status }) (lookup id rows) id rows
