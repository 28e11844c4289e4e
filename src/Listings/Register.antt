-- ===== src/Listings/Register.antt =====
-- What the projector promises of one listing, apart from how it is stored: a register that holds
-- the facts of a version, for src/listings/adapters/workers/property_event_handler.py.
use estate_os_service.Base.{
  ℕ, Uuid, String, Time, ◌≡◌, refl, Bool, true, false, Option, none, some, List, ◌==◌, leb, inl,
  inr, if◌then◌else◌, arith, ap, sym, ◌∙◌, Bool-cases, Option-cases,
}
use estate_os_service.Exec.{Result, ok, err}
use estate_os_service.Dict.{lookup, erase, lookup-insert, lookup-erase}
use estate_os_service.Listings.Model.{
  PropertyListing, ListingPrice, ListingImage, ListingType, Typology, PropertyStatus, AgencyContact,
  Error,
}
use estate_os_service.Listings.Snapshot.{Snapshot}
use estate_os_service.Listings.Store.{Rows}
use estate_os_service.Listings.Projection.{
  projected, or_text, lowest_price, first_image, images_list, prices_list, upsert_from_event,
  delete_if_newer, is_stale, store_row,
}
use estate_os_service.Listings.Handlers.{
  PropertyEvent, property_created, property_updated, property_published, property_deleted,
  property_unpublished, World, Publisher, ListingEvent, listing_deleted, project_listing,
  drop_listing, handle_property_event, publish_listing_event, agency_of, after_upsert, after_delete,
}

-- The part of a row that one event decides.
pub record Facts : Type 0 where
  pub organization_id : Uuid
  pub title : String
  pub status : PropertyStatus
  pub listing_type : ListingType
  pub typology : Typology
  pub num_of_bedrooms : Option ℕ
  pub num_of_bathrooms : Option ℕ
  pub area_in_m2 : Option ℕ
  pub has_pool : Option Bool
  pub has_garden : Option Bool
  pub has_elevator : Option Bool
  pub min_price : Option ℕ
  pub first_image_s3_key : Option String
  pub description : Option String
  pub latitude : Option String
  pub longitude : Option String
  pub built_at : Option ℕ
  pub energy_rating : Option String
  pub floor : Option ℕ
  pub parking_spaces : Option ℕ
  pub images : List ListingImage
  pub prices : List ListingPrice

abbrev pub facts : PropertyListing → Facts
facts l = record {
  organization_id = l.organization_id;
  title = l.title;
  status = l.status;
  listing_type = l.listing_type;
  typology = l.typology;
  num_of_bedrooms = l.num_of_bedrooms;
  num_of_bathrooms = l.num_of_bathrooms;
  area_in_m2 = l.area_in_m2;
  has_pool = l.has_pool;
  has_garden = l.has_garden;
  has_elevator = l.has_elevator;
  min_price = l.min_price;
  first_image_s3_key = l.first_image_s3_key;
  description = l.description;
  latitude = l.latitude;
  longitude = l.longitude;
  built_at = l.built_at;
  energy_rating = l.energy_rating;
  floor = l.floor;
  parking_spaces = l.parking_spaces;
  images = l.images;
  prices = l.prices;
}

abbrev pub carried : Snapshot → List ListingPrice → Facts
carried snap prices = record {
  organization_id = snap.organization_id;
  title = or_text snap.title "Property";
  status = snap.status;
  listing_type = snap.listing_type;
  typology = snap.typology;
  num_of_bedrooms = snap.characteristics.num_of_bedrooms;
  num_of_bathrooms = snap.characteristics.num_of_bathrooms;
  area_in_m2 = snap.characteristics.area_in_m2;
  has_pool = snap.characteristics.has_pool;
  has_garden = snap.characteristics.has_garden;
  has_elevator = snap.characteristics.has_elevator;
  min_price = lowest_price none snap.prices;
  first_image_s3_key = first_image snap.images;
  description = snap.description;
  latitude = snap.latitude;
  longitude = snap.longitude;
  built_at = snap.characteristics.built_at;
  energy_rating = snap.characteristics.energy_rating;
  floor = snap.characteristics.floor;
  parking_spaces = snap.characteristics.parking_spaces;
  images = images_list snap.images;
  prices = prices;
}

abbrev pub Register : Type 0
Register = Option (ℕ × Facts)

abbrev pub view_row : Option PropertyListing → Register
view_row none = none
view_row (some l) = some (l.source_aggregate_version, facts l)

abbrev pub view : Uuid → World → Register
view i w = view_row (lookup i w.rows)

-- A version replaces an older one only.
abbrev pub keep_newer : Register → ℕ × Facts → Register
keep_newer none e = some e
keep_newer (some (v, f)) (u, g) = if leb u v then some (v, f) else some (u, g)

-- A deletion empties the register of an older version only.
abbrev pub clear_older : Register → ℕ → Register
clear_older none u = none
clear_older (some (v, f)) u = if leb u v then some (v, f) else none

-- What an upsert offers to the listing `i`: nothing, when it is about another or has a price that
-- cannot be read.
abbrev pub offered : Uuid → Snapshot → Result Error (List ListingPrice) → Option (ℕ × Facts)
offered i snap (err e) = none
offered i snap (ok ps) =
    if snap.id == i then some (snap.aggregate_version, carried snap ps) else none

abbrev pub offer : Uuid → PropertyEvent → Option (ℕ × Facts)
offer i (property_created snap at) = offered i snap (prices_list snap.prices)
offer i (property_updated snap at) = offered i snap (prices_list snap.prices)
offer i (property_published snap at) = offered i snap (prices_list snap.prices)
offer i (property_deleted j v at) = none
offer i (property_unpublished j v at) = none

abbrev pub accept : Register → Option (ℕ × Facts) → Register
accept r none = r
accept r (some e) = keep_newer r e

abbrev pub absorb : Uuid → PropertyEvent → Register → Register
absorb i (property_deleted j v at) r = if j == i then clear_older r v else r
absorb i (property_unpublished j v at) r = if j == i then clear_older r v else r
absorb i e r = accept r (offer i e)

publish-rows :
    (p : Publisher) (e : ListingEvent) (w : World) → (publish_listing_event p e w).rows ≡ w.rows
unfolding publish_listing_event
publish-rows none e w = refl
publish-rows (some publish) e w = ground arith

facts-projected :
    (snap : Snapshot) (at : Time) (agency : Option AgencyContact) (now : Time)
    (ps : List ListingPrice) (existing : Option PropertyListing)
    → view_row (some (projected snap at agency now ps existing))
      ≡ some (snap.aggregate_version, carried snap ps)
unfolding projected
facts-projected snap at agency now ps existing = refl

-- An upsert of a listing that is `o`, past the guard on versions.
store-view :
    (i : Uuid) (snap : Snapshot) (at : Time) (agency : Option AgencyContact) (now : Time)
    (o : Option PropertyListing) (rows : Rows) (r : Result Error (List ListingPrice))
    → lookup snap.id rows ≡ o
    → is_stale o snap.aggregate_version ≡ false
    → view_row (lookup i (store_row r (λ ps. projected snap at agency now ps o) snap.id rows).1)
      ≡ accept (view_row (lookup i rows)) (offered i snap r)
store-view i snap at agency now o rows (err x) e new = refl
store-view i snap at agency now none rows (ok ps) e new = ground (
  arith,
  lookup-insert snap.id i (projected snap at agency now ps none) rows,
  facts-projected snap at agency now ps none,
)
store-view i snap at agency now (some l) rows (ok ps) e new = ground (
  arith,
  lookup-insert snap.id i (projected snap at agency now ps (some l)) rows,
  facts-projected snap at agency now ps (some l),
)

stale-view :
    (i : Uuid) (snap : Snapshot) (l : PropertyListing) (rows : Rows)
    (r : Result Error (List ListingPrice))
    → lookup snap.id rows ≡ some l
    → is_stale (some l) snap.aggregate_version ≡ true
    → accept (view_row (lookup i rows)) (offered i snap r) ≡ view_row (lookup i rows)
stale-view i snap l rows (err x) e old = refl
stale-view i snap l rows (ok ps) e old = elim (Bool-cases (snap.id == i)) [
  | inl same ↦ ground arith
  | inr other ↦ rw other refl
]

upsert-view :
    (i : Uuid) (snap : Snapshot) (at : Time) (agency : Option AgencyContact) (now : Time)
    (rows : Rows)
    → view_row (lookup i (upsert_from_event snap at agency now rows).1)
      ≡ accept (view_row (lookup i rows)) (offered i snap (prices_list snap.prices))
unfolding upsert_from_event
upsert-view i snap at agency now rows =
    elim (Bool-cases (is_stale (lookup snap.id rows) snap.aggregate_version)) [
      | inl old ↦ elim (Option-cases (lookup snap.id rows)) [
        | inl e ↦ ground arith
        | inr (l, e) ↦ rw old (
            sym (
              stale-view i snap l rows (prices_list snap.prices) e
                (sym (ap (λ o. is_stale o snap.aggregate_version) e) ∙ old)))
      ]
      | inr new ↦ rw new (
          store-view i snap at agency now (lookup snap.id rows) rows (prices_list snap.prices) refl
            new)
    ]

pub after_upsert-rows :
    (p : Publisher) (snap : Snapshot) (r : Result Error (Option PropertyListing) × Rows)
    (sent : List ListingEvent)
    → (after_upsert p snap r sent).1.rows ≡ r.1
after_upsert-rows p snap (err e, rows) sent = refl
after_upsert-rows p snap (ok none, rows) sent = refl
after_upsert-rows p snap (ok (some row), rows) sent = publish-rows p _ _ ∙ publish-rows p _ _

pub after_delete-rows :
    (p : Publisher) (k : Uuid) (r : Bool × Rows) (sent : List ListingEvent)
    → (after_delete p k r sent).rows ≡ r.1
after_delete-rows p k (true, rows) sent = publish-rows p _ _
after_delete-rows p k (false, rows) sent = refl

project-view :
    (p : Publisher) (g : Option (Uuid → Option AgencyContact)) (i : Uuid) (snap : Snapshot)
    (at now : Time) (w : World)
    → view i (project_listing p g snap at now w).1
      ≡ accept (view i w) (offered i snap (prices_list snap.prices))
unfolding project_listing
project-view p g i snap at now w =
    let r = upsert_from_event snap at (agency_of g snap.organization_id) now w.rows in
    ap (λ rows. view_row (lookup i rows)) (after_upsert-rows p snap r w.published)
    ∙ upsert-view i snap at (agency_of g snap.organization_id) now w.rows

drop-view :
    (p : Publisher) (i j : Uuid) (v : ℕ) (w : World)
    → view i (drop_listing p j v w).1 ≡ (if j == i then clear_older (view i w) v else view i w)
unfolding drop_listing delete_if_newer
drop-view p i j v w = elim (Option-cases (lookup j w.rows)) [
  | inl e ↦ ground (arith, e)
  | inr (l, e) ↦ elim (Bool-cases (leb v l.source_aggregate_version)) [
    | inl old ↦ ground (arith, e)
    | inr new ↦ ground (
      arith,
      e,
      lookup-erase j i w.rows,
      publish-rows p (listing_deleted j)
          (record { rows = erase j w.rows; published = w.published }),
    )
  ]
]

-- Handling an event changes the register of each listing as the version of the event says, whatever
-- the publisher, the agency lookup and the clock do.
pub handle_property_event-view :
    (p : Publisher) (g : Option (Uuid → Option AgencyContact)) (e : PropertyEvent) (now : Time)
    (i : Uuid) (w : World)
    → view i (handle_property_event p g e now w).1 ≡ absorb i e (view i w)
unfolding handle_property_event
handle_property_event-view p g (property_created snap at) now i w = project-view p g i snap at now w
handle_property_event-view p g (property_updated snap at) now i w = project-view p g i snap at now w
handle_property_event-view p g (property_published snap at) now i w =
    project-view p g i snap at now w
handle_property_event-view p g (property_deleted j v at) now i w = drop-view p i j v w
handle_property_event-view p g (property_unpublished j v at) now i w = drop-view p i j v w
