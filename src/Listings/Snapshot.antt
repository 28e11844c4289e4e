-- ===== src/Listings/Snapshot.antt =====
-- The carried-state payload of a property event, `event.data`, with the keys that
-- src/listings/adapters/inmemory/inmemory_property_listing_repo.py reads. A key that is read by
-- `.get` is an option.
use estate_os_service.Base.{ℕ, String, Uuid, Bool, Option, List}
use estate_os_service.Listings.Model.{ListingType, Typology, PropertyStatus, ListingPoi}

-- The value of a key that may be missing or may not convert.
pub data Raw {ℓ} (A : Type ℓ) : Type ℓ where
  absent unreadable : Raw A
  given : A → Raw A

pub record RawPrice : Type 0 where
  pub amount : Raw ℕ
  pub listing_type : Raw ListingType

pub record RawImage : Type 0 where
  pub id : Option Uuid
  pub s3_key : Option String
  pub display_order : Option ℕ

pub record Characteristics : Type 0 where
  pub num_of_bedrooms : Option ℕ
  pub num_of_bathrooms : Option ℕ
  pub area_in_m2 : Option ℕ
  pub has_pool : Option Bool
  pub has_garden : Option Bool
  pub has_elevator : Option Bool
  pub floor : Option ℕ
  pub parking_spaces : Option ℕ
  pub built_at : Option ℕ
  pub energy_rating : Option String

pub record Snapshot : Type 0 where
  pub id : Uuid
  pub aggregate_version : ℕ
  pub organization_id : Uuid
  pub title : Option String
  pub status : PropertyStatus
  pub listing_type : ListingType
  pub typology : Typology
  pub address : String
  pub postal_code : Option String
  pub country : Option String
  pub characteristics : Characteristics
  pub prices : List RawPrice
  pub images : List RawImage
  pub pois : Option (List ListingPoi)
  pub description : Option String
  pub latitude : Option String
  pub longitude : Option String
