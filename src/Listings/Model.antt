-- ===== src/Listings/Model.antt =====
-- src/listings/domain: the read model's row, the filters of its queries, and the property events
-- that the projector reads. A Decimal price and a distance are numbers of their smallest unit, and
-- a latitude is the text of a float that is only copied.
use estate_os_service.Base.{ℕ, String, Uuid, Time, Bool, true, false, Option, List}
use estate_os_service.Json.{Json}

pub data ListingType : Type 0 where
  sale purchase : ListingType

pub data Typology : Type 0 where
  house apartment land ruin : Typology

pub data PropertyStatus : Type 0 where
  draft active sold rented withdrawn : PropertyStatus

-- What the repository raises on a price that it cannot read, and the enrichment handler on an
-- address that it cannot resolve.
pub data Error : Type 0 where
  invalid_operation value_error : Error
  address_parse_error : String → Error

pub record ListingPoi : Type 0 where
  pub category : String
  pub name : String
  pub distance_meters : ℕ
  pub address : Option String
  pub image_urls : List String
  pub reviews : Option Json

pub record ListingImage : Type 0 where
  pub id : Uuid
  pub s3_key : String
  pub display_order : ℕ

pub record ListingPrice : Type 0 where
  pub amount : ℕ
  pub listing_type : ListingType

pub record PropertyListing : Type 0 where
  pub id : Uuid
  pub organization_id : Uuid
  pub title : String
  pub status : PropertyStatus
  pub listing_type : ListingType
  pub typology : Typology
  pub parish : Option String
  pub municipality : Option String
  pub district : Option String
  pub location_enriched_at : Option Time
  pub location_enrichment_attempts : ℕ
  pub num_of_bedrooms : Option ℕ
  pub num_of_bathrooms : Option ℕ
  pub area_in_m2 : Option ℕ
  pub has_pool : Option Bool
  pub has_garden : Option Bool
  pub has_elevator : Option Bool
  pub min_price : Option ℕ
  pub first_image_s3_key : Option String
  pub description : Option String
  pub latitude : Option String
  pub longitude : Option String
  pub source_aggregate_version : ℕ
  pub source_occurred_at : Time
  pub created_at : Time
  pub updated_at : Time
  pub built_at : Option ℕ
  pub energy_rating : Option String
  pub floor : Option ℕ
  pub parking_spaces : Option ℕ
  pub country : String
  pub city : Option String
  pub state : Option String
  pub region : Option String
  pub images : List ListingImage
  pub prices : List ListingPrice
  pub pois : List ListingPoi
  pub embedding_text_hash : Option String
  pub canonical_text_version : Option String
  pub embedding_model_version : Option String
  pub embedded_at : Option Time
  pub embedding_status : String
  pub agency_name : Option String
  pub agency_email : Option String
  pub agency_phone : Option String

pub record AgencyContact : Type 0 where
  pub name : Option String
  pub email : Option String
  pub phone : Option String

-- `PropertyFilters`, for the keyset path, which leaves `limit` and `offset` out.
pub record PropertyFilters : Type 0 where
  pub listing_type : Option ListingType
  pub typology : Option Typology
  pub min_price : Option ℕ
  pub max_price : Option ℕ
  pub parish : Option String
  pub municipality : Option String
  pub district : Option String

pub record ListCursor : Type 0 where
  pub fp : String
  pub created_at : Time
  pub id : Uuid

pub record SearchCursor : Type 0 where
  pub fp : String
  pub offset : ℕ

-- `ParsedAddress`
pub record ParsedAddress : Type 0 where
  pub country : String
  pub parish : Option String
  pub municipality : Option String
  pub district : Option String
  pub city : Option String
  pub state : Option String
  pub region : Option String

abbrev pub type_eq : ListingType → ListingType → Bool
type_eq sale sale = true
type_eq purchase purchase = true
type_eq _ _ = false

abbrev pub typology_eq : Typology → Typology → Bool
typology_eq house house = true
typology_eq apartment apartment = true
typology_eq land land = true
typology_eq ruin ruin = true
typology_eq _ _ = false

-- `status == PropertyStatus.ACTIVE`
abbrev pub is_active : PropertyStatus → Bool
is_active active = true
is_active _ = false
