-- ===== src/Organizations/Store.antt =====
-- The in-memory repositories of src/organizations/adapters/inmemory. A stored object is shared
-- with the caller there; every change a use case makes to one is written back at once.
use estate_os_service.Base.{
  Uuid, String, Bool, true, false, Option, none, some, List, [], ◌∷◌, ◌&&◌, ◌==◌, str_eq,
}
use estate_os_service.Exec.{Exec, gets, modify}
use estate_os_service.Dict.{Dict, lookup, insert, erase, values_where}
use estate_os_service.Organizations.Model.{
  User, Organization, Membership, Invitation, InvitationStatus, pending, Error,
}

pub record World : Type 0 where
  pub users : Dict User
  pub organizations : Dict Organization
  pub memberships : Dict Membership
  pub invitations : Dict Invitation

abbrev pub Service : Type 0 → Type 0
Service A = Exec Error World A

-- The first match of a loop over `values()`.
abbrev pub first {ℓ} : {A : Type ℓ} → List A → Option A
first [] = none
first (x ∷ xs) = some x

abbrev pub in_organization : Uuid → Membership → Bool
in_organization org m = m.organization_id == org

abbrev pub is_pending : InvitationStatus → Bool
is_pending pending = true
is_pending _ = false

unfoldable pub membership_by_id : Uuid → Service (Option Membership)
membership_by_id id = gets (λ w. lookup id w.memberships)

-- `get_by_user_and_organization`
abbrev pub membership_of : Uuid → Uuid → Dict Membership → Option Membership
membership_of user org d =
    first (values_where (λ m. (m.user_id == user) && (m.organization_id == org)) d)

unfoldable pub get_by_user_and_organization : Uuid → Uuid → Service (Option Membership)
get_by_user_and_organization user org = gets (λ w. membership_of user org w.memberships)

unfoldable pub list_by_organization : Uuid → Service (List Membership)
list_by_organization org = gets (λ w. values_where (in_organization org) w.memberships)

unfoldable pub list_by_user : Uuid → Service (List Membership)
list_by_user user = gets (λ w. values_where (λ m. m.user_id == user) w.memberships)

-- `save` and `update` of a membership
unfoldable pub put_membership : Membership → Service (Unit {0})
put_membership m = modify (λ w. record w { memberships = insert m.id m w.memberships })

unfoldable pub delete_membership : Uuid → Service (Unit {0})
delete_membership id = modify (λ w. record w { memberships = erase id w.memberships })

unfoldable pub invitation_by_id : Uuid → Service (Option Invitation)
invitation_by_id id = gets (λ w. lookup id w.invitations)

-- `get_pending_by_email`
abbrev pub pending_for : String → Dict Invitation → Option Invitation
pending_for email d = first (values_where (λ i. str_eq i.email email && is_pending i.status) d)

unfoldable pub get_pending_by_email : String → Service (Option Invitation)
get_pending_by_email email = gets (λ w. pending_for email w.invitations)

-- `save` and `update` of an invitation
unfoldable pub put_invitation : Invitation → Service (Unit {0})
put_invitation i = modify (λ w. record w { invitations = insert i.id i w.invitations })

-- `get_by_email`
unfoldable pub user_by_email : String → Service (Option User)
user_by_email email = gets (λ w. first (values_where (λ u. str_eq u.email email) w.users))

unfoldable pub organization_by_id : Uuid → Service (Option Organization)
organization_by_id id = gets (λ w. lookup id w.organizations)

-- `save` and `update` of an organization
unfoldable pub put_organization : Organization → Service (Unit {0})
put_organization o = modify (λ w. record w { organizations = insert o.id o w.organizations })
