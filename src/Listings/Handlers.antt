-- ===== src/Listings/Handlers.antt =====
-- The projector and the enrichment handler of the listings worker:
-- src/listings/adapters/workers/property_event_handler.py and address_enrichment_handler.py. The
-- publisher, the agency lookup and the address searcher are parameters.
use estate_os_service.Base.{
  Uuid, String, Time, ℕ, Bool, Option, none, some, List, [], ◌∷◌, ◌++◌, str_eq, if◌then◌else◌,
}
use estate_os_service.Exec.{Result, ok, err, Exec}
use estate_os_service.Listings.Model.{
  PropertyListing, AgencyContact, ParsedAddress, Error, address_parse_error,
}
use estate_os_service.Listings.Snapshot.{Snapshot}
use estate_os_service.Listings.Store.{Rows}
use estate_os_service.Listings.Projection.{
  or_text, upsert_from_event, delete_if_newer, update_location, increment_enrichment_attempts,
}

-- `event.event_type`, `event.data` and `event.occurred_at`.
pub data PropertyEvent : Type 0 where
  property_created property_updated property_published : Snapshot → Time → PropertyEvent
  property_deleted property_unpublished : Uuid → ℕ → Time → PropertyEvent

-- The events that the projector publishes, with their data.
pub data ListingEvent : Type 0 where
  needs_address_enrichment : Uuid → String → Option String → String → ListingEvent
  listing_updated listing_deleted : Uuid → ListingEvent

pub record World : Type 0 where
  pub rows : Rows
  pub published : List ListingEvent

-- `context.get("publisher")`, by whether its `publish` returns for an event.
abbrev pub Publisher : Type 0
Publisher = Option (ListingEvent → Bool)

-- `_publish_listing_event`: a publish that raises is logged and passed over.
unfoldable pub publish_listing_event : Publisher → ListingEvent → World → World
publish_listing_event none e w = w
publish_listing_event (some publish) e w =
    if publish e then record w { published = w.published ++ e ∷ [] } else w

-- The two events of an applied upsert.
abbrev pub fan_out : Publisher → Snapshot → World → World
fan_out publisher snap w = publish_listing_event publisher (listing_updated snap.id) (
    publish_listing_event publisher
      (needs_address_enrichment snap.id snap.address snap.postal_code
        (or_text snap.country "Portugal"))
      w)

-- `getattr(listings, "get_agency_contact", None)`: the outer none is a missing port, the inner one
-- a lookup that raises.
abbrev pub agency_of : Option (Uuid → Option AgencyContact) → Uuid → Option AgencyContact
agency_of none org = none
agency_of (some execute) org = execute org

abbrev pub after_upsert :
    Publisher
    → Snapshot
    → Result Error (Option PropertyListing) × Rows
    → List ListingEvent
    → Result Error (Unit {0}) × World
after_upsert publisher snap (err e, rows) sent = (err e, record { rows = rows; published = sent })
after_upsert publisher snap (ok none, rows) sent = (ok tt, record { rows = rows; published = sent })
after_upsert publisher snap (ok (some row), rows) sent =
    (ok tt, fan_out publisher snap (record { rows = rows; published = sent }))

unfoldable pub project_listing :
    Publisher
    → Option (Uuid → Option AgencyContact)
    → Snapshot
    → Time
    → Time
    → Exec Error World (Unit {0})
project_listing publisher get_agency snap at now w =
    after_upsert publisher snap
      (upsert_from_event snap at (agency_of get_agency snap.organization_id) now w.rows) w.published

abbrev pub after_delete : Publisher → Uuid → Bool × Rows → List ListingEvent → World
after_delete publisher id (deleted, rows) sent =
    if deleted
    then publish_listing_event publisher (listing_deleted id)
        (record { rows = rows; published = sent })
    else record { rows = rows; published = sent }

unfoldable pub drop_listing : Publisher → Uuid → ℕ → Exec Error World (Unit {0})
drop_listing publisher id v w =
    (ok tt, after_delete publisher id (delete_if_newer id v w.rows) w.published)

unfoldable pub handle_property_event :
    Publisher
    → Option (Uuid → Option AgencyContact)
    → PropertyEvent
    → Time
    → Exec Error World (Unit {0})
handle_property_event publisher get_agency (property_deleted id v at) now =
    drop_listing publisher id v
handle_property_event publisher get_agency (property_unpublished id v at) now =
    drop_listing publisher id v
handle_property_event publisher get_agency (property_created snap at) now =
    project_listing publisher get_agency snap at now
handle_property_event publisher get_agency (property_updated snap at) now =
    project_listing publisher get_agency snap at now
handle_property_event publisher get_agency (property_published snap at) now =
    project_listing publisher get_agency snap at now

-- `searcher.search(…)` of the Portuguese searcher, none where it raises.
abbrev pub Searcher : Type 0
Searcher = String → Option String → String → Option ParsedAddress

-- `select_address_searcher`; none is the NotImplementedError.
unfoldable pub select_address_searcher : String → Searcher → Option Searcher
select_address_searcher country portugal = if str_eq country "Portugal" then some portugal else none

abbrev pub search_address : Option Searcher → String → Option String → String → Option ParsedAddress
search_address none address postal_code country = none
search_address (some search) address postal_code country = search address postal_code country

abbrev pub store_address : Option ParsedAddress → Uuid → String → Time → Exec Error Rows (Unit {0})
store_address none id address now rows =
    (err (address_parse_error address), (increment_enrichment_attempts id rows).1)
store_address (some parsed) id address now rows = (ok tt, (update_location id parsed now rows).1)

-- `handle_address_enrichment`
unfoldable pub handle_address_enrichment :
    Searcher → Uuid → String → Option String → Option String → Time → Exec Error Rows (Unit {0})
handle_address_enrichment portugal id address postal_code country now =
    let c = or_text country "Portugal" in
    store_address (search_address (select_address_searcher c portugal) address postal_code c) id
      address now
