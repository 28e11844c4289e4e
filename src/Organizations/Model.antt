-- ===== src/Organizations/Model.antt =====
-- The records of src/organizations/domain/models. A phone number and Google's metadata are only
-- passed on, so they are texts.
use estate_os_service.Base.{Uuid, Time, String, Option, none, some}
use estate_os_service.Organizations.Permissions.{MembershipRole}

pub record User : Type 0 where
  pub id : Uuid
  pub supabase_user_id : String
  pub email : String
  pub name : String
  pub phone : Option String
  pub google_metadata : Option String
  pub created_at : Time
  pub updated_at : Time

pub record Organization : Type 0 where
  pub id : Uuid
  pub created_by : Uuid
  pub name : Option String
  pub nif : Option String
  pub address : Option String
  pub created_at : Time
  pub updated_at : Time
  pub email : Option String
  pub phone : Option String

pub record Membership : Type 0 where
  pub id : Uuid
  pub user_id : Uuid
  pub organization_id : Uuid
  pub role : MembershipRole
  pub created_at : Time
  pub updated_at : Time

pub data InvitationStatus : Type 0 where
  pending accepted expired revoked : InvitationStatus

pub record Invitation : Type 0 where
  pub id : Uuid
  pub organization_id : Uuid
  pub email : String
  pub role : MembershipRole
  pub invited_by : Uuid
  pub token : String
  pub status : InvitationStatus
  pub expires_at : Time
  pub created_at : Time

-- The exceptions that the use cases raise; `port_error` stands for what a port raises.
pub data Error : Type 0 where
  membership_not_found invitation_not_found organization_not_found : Uuid → Error
  insufficient_permission membership_already_exists : String → Error
  last_owner authorization_error admin_account_already_exists port_error : Error

abbrev assign : Option String → Option String → Option String
assign none old = old
assign (some x) old = some x

-- `Organization.update`
unfoldable pub update_fields :
    Option String
    → Option String
    → Option String
    → Option String
    → Option String
    → Time
    → Organization
    → Organization
update_fields name nif address email phone now o = record o {
  name = assign name o.name;
  nif = assign nif o.nif;
  address = assign address o.address;
  email = assign email o.email;
  phone = assign phone o.phone;
  updated_at = now;
}
