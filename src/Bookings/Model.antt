-- ===== src/Bookings/Model.antt =====
-- Domain records of src/bookings/domain. Identifiers are only compared, so they are numbers; the
-- texts that no test reads are kept as texts.
use estate_os_service.Base.{
  Uuid, Time, String, Bool, true, false, Option, none, some, ◌==◌, leb, if◌then◌else◌, str_eq,
}
use estate_os_service.Exec.{Result, ok, err}

pub data SlotStatus : Type 0 where
  available booked cancelled : SlotStatus

pub record Slot : Type 0 where
  pub id : Uuid
  pub property_id : Uuid
  pub agent_user_id : Uuid
  pub organization_id : Uuid
  pub start_time : Time
  pub end_time : Time
  pub status : SlotStatus
  pub created_at : Time
  pub updated_at : Time

pub data BookingStatus : Type 0 where
  confirmed cancelled_by_applicant cancelled_by_agent : BookingStatus

pub record Booking : Type 0 where
  pub id : Uuid
  pub slot_id : Uuid
  pub applicant_id : Uuid
  pub property_id : Uuid
  pub organization_id : Uuid
  pub status : BookingStatus
  pub notes : String
  pub created_at : Time
  pub updated_at : Time

pub data RiskLevel : Type 0 where
  low medium high : RiskLevel

pub record BookingApplicant : Type 0 where
  pub id : Uuid
  pub external_id : Uuid
  pub supabase_user_id : Option Uuid
  pub organization_id : Uuid
  pub name : String
  pub email : String
  pub risk_level : RiskLevel
  pub created_at : Time

-- `value_error` is Python's; `integrity_error` and `multiple_rows` are the database driver's, for
-- a violated constraint and for a second row behind `scalar_one_or_none`.
pub data Error : Type 0 where
  slot_not_found slot_not_available booking_not_found : Uuid → Error
  booking_not_cancellable risk_too_high : Uuid → Error
  forbidden value_error integrity_error multiple_rows : Error

abbrev pub is_available : SlotStatus → Bool
is_available available = true
is_available _ = false

abbrev pub is_booked : SlotStatus → Bool
is_booked booked = true
is_booked _ = false

abbrev pub is_confirmed : BookingStatus → Bool
is_confirmed confirmed = true
is_confirmed _ = false

abbrev pub belongs_to_agent : Slot → Uuid → Bool
belongs_to_agent slot user_id = slot.agent_user_id == user_id

abbrev pub belongs_to_applicant : Booking → Uuid → Bool
belongs_to_applicant booking applicant_id = booking.applicant_id == applicant_id

abbrev pub belongs_to_organization : Booking → Uuid → Bool
belongs_to_organization booking org_id = booking.organization_id == org_id

pub record CreateSlotParams : Type 0 where
  pub property_id : Uuid
  pub agent_user_id : Uuid
  pub organization_id : Uuid
  pub start_time : Time
  pub end_time : Time

-- `CreateSlotParams.__post_init__`
unfoldable pub create_slot_params : CreateSlotParams → Result Error CreateSlotParams
create_slot_params p = if leb p.end_time p.start_time then err value_error else ok p

-- The keys of the screening event that the code reads; a missing key is `none`.
pub record ScreeningData : Type 0 where
  pub applicant_id : Uuid
  pub organization_id : Uuid
  pub name : String
  pub email : String
  pub screening_risk_level : Option String
  pub risk_level : Option String

-- `data.get("screening", {}).get("risk_level") or data.get("risk_level", "")`
abbrev pub top_level_risk : Option String → String
top_level_risk none = ""
top_level_risk (some r) = r

unfoldable pub risk_value : ScreeningData → String
risk_value d = elim d.screening_risk_level [
  | none ↦ top_level_risk d.risk_level
  | some r ↦ if str_eq r "" then top_level_risk d.risk_level else r
]

-- `RiskLevel(value)`
unfoldable pub risk_level_of : String → Option RiskLevel
risk_level_of v =
    if str_eq v "LOW"
    then some low
    else if str_eq v "MEDIUM"
    then some medium
    else if str_eq v "HIGH"
    then some high
    else none

abbrev pub applicant_at_risk :
    ScreeningData → Uuid → Time → RiskLevel → Result Error BookingApplicant
applicant_at_risk d fresh now high = err (risk_too_high d.applicant_id)
applicant_at_risk d fresh now risk = ok (record {
  id = fresh;
  external_id = d.applicant_id;
  supabase_user_id = none;
  organization_id = d.organization_id;
  name = d.name;
  email = d.email;
  risk_level = risk;
  created_at = now;
})

-- `BookingApplicant.from_screening_event`, with the id and the time that it draws.
unfoldable pub from_screening_event : ScreeningData → Uuid → Time → Result Error BookingApplicant
unfolding risk_value risk_level_of
from_screening_event d fresh now = elim (risk_level_of (risk_value d)) [
  | none ↦ err value_error
  | some risk ↦ applicant_at_risk d fresh now risk
]

-- `BookingApplicant.is_approved`
abbrev pub is_approved : RiskLevel → Bool
is_approved high = false
is_approved _ = true
