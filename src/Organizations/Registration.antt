-- ===== src/Organizations/Registration.antt =====
-- src/organizations/application/use_cases/register_admin_account.py. Identity's `RegisterUserPort`
-- and billing's `SeedFreemiumSubscription` are functions that may raise; `S` is the subscription.
use estate_os_service.Base.{Uuid, Time, String, Option, none, some, List, [], ◌∷◌}
use estate_os_service.Exec.{Result, ok, err, pure, raise, ◌>>=◌, ◌>>◌}
use estate_os_service.Organizations.Permissions.{MembershipRole, owner}
use estate_os_service.Organizations.Model.{
  User, Organization, Membership, Invitation, accepted, Error, admin_account_already_exists,
}
use estate_os_service.Organizations.Store.{
  Service, list_by_user, put_membership, get_pending_by_email, put_invitation, organization_by_id,
  put_organization,
}

-- What the caller sends.
pub record Request : Type 0 where
  pub supabase_user_id : String
  pub email : String
  pub name : String
  pub phone : Option String
  pub organization_name : Option String
  pub google_metadata : Option String

pub record Ports (S : Type 0) : Type 0 where
  pub register_user : Request → Result Error User
  pub seed_freemium_subscription : Uuid → Result Error S

-- The ids that a registration draws, and its time.
pub record Draws : Type 0 where
  pub organization_id : Uuid
  pub membership_id : Uuid
  pub now : Time

pub record Registered (S : Type 0) : Type 0 where
  pub user : User
  pub organization : Option Organization
  pub membership : Membership
  pub subscription : Option S

abbrev pub new_organization : Request → User → Draws → Organization
new_organization r user d = record {
  id = d.organization_id;
  created_by = user.id;
  name = r.organization_name;
  nif = none;
  address = none;
  created_at = d.now;
  updated_at = d.now;
  email = none;
  phone = none;
}

abbrev pub new_membership : User → Uuid → MembershipRole → Draws → Membership
new_membership user org role d = record {
  id = d.membership_id;
  user_id = user.id;
  organization_id = org;
  role = role;
  created_at = d.now;
  updated_at = d.now;
}

abbrev pub call_port : {A : Type 0} → Result Error A → Service A
call_port (ok a) = pure a
call_port (err e) = raise e

-- "if existing_memberships: raise"
abbrev pub refuse_known : List Membership → Service (Unit {0})
refuse_known [] = pure tt
refuse_known (m ∷ ms) = raise admin_account_already_exists

module _ {S : Type 0} where
  -- "Honour pending email invitation if one exists"
  unfoldable pub join : Request → User → Draws → Invitation → Service (Registered S)
  join r user d i = do
    organization ← organization_by_id i.organization_id
    put_invitation (record i { status = accepted })
    put_membership (new_membership user i.organization_id i.role d)
    pure (record {
      user = user;
      organization = organization;
      membership = new_membership user i.organization_id i.role d;
      subscription = none;
    })

  unfoldable pub found_organization : Ports S → Request → User → Draws → Service (Registered S)
  found_organization p r user d = do
    put_organization (new_organization r user d)
    subscription ← call_port (p.seed_freemium_subscription d.organization_id)
    put_membership (new_membership user d.organization_id owner d)
    pure (record {
      user = user;
      organization = some (new_organization r user d);
      membership = new_membership user d.organization_id owner d;
      subscription = some subscription;
    })

  abbrev pub join_or_found :
      Ports S → Request → User → Draws → Option Invitation → Service (Registered S)
  join_or_found p r user d none = found_organization p r user d
  join_or_found p r user d (some i) = join r user d i

  -- `RegisterAdminAccount.execute`
  unfoldable pub register_admin_account : Ports S → Request → Draws → Service (Registered S)
  unfolding join found_organization
  register_admin_account p r d = do
    user ← call_port (p.register_user r)
    existing ← list_by_user user.id
    refuse_known existing
    invitation ← get_pending_by_email r.email
    join_or_found p r user d invitation
