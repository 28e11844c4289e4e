-- ===== src/Organizations/UseCases.antt =====
-- src/organizations/application/use_cases. Ids, tokens and the time that a call draws are its last
-- arguments; log lines are left out.
use estate_os_service.Base.{
  ℕ, ◌+◌, ◌*◌, Uuid, Time, String, Bool, false, not, Option, none, some, List, [], ◌∷◌, ◌&&◌, leb,
  is_some, if◌then◌else◌,
}
use estate_os_service.Exec.{pure, or_raise, raise_if, ◌>>=◌, ◌>>◌}
use estate_os_service.Organizations.Permissions.{MembershipRole, is_owner, has_permission}
use estate_os_service.Organizations.Model.{
  User, Organization, Membership, Invitation, pending, revoked, membership_not_found,
  invitation_not_found, organization_not_found, insufficient_permission, membership_already_exists,
  last_owner, authorization_error, update_fields,
}
use estate_os_service.Organizations.Store.{
  Service, membership_by_id, get_by_user_and_organization, list_by_organization, put_membership,
  delete_membership, invitation_by_id, put_invitation, user_by_email, organization_by_id,
  put_organization,
}

abbrev pub allows : String → Option Membership → Bool
allows codename none = false
allows codename (some m) = has_permission m.role codename

-- `if not membership or not has_permission(membership.role, codename): raise …`
unfoldable pub require : Uuid → Uuid → String → Service (Unit {0})
require user org codename = do
  membership ← get_by_user_and_organization user org
  raise_if (not (allows codename membership)) (insufficient_permission codename)

-- `sum(1 for m in members if m.role == MembershipRole.OWNER)`
abbrev pub count_owners : List Membership → ℕ
count_owners [] = 0
count_owners (m ∷ ms) = (if is_owner m.role then 1 else 0) + count_owners ms

-- "Prevent removing the last owner", "Prevent demoting the last owner"
unfoldable pub keep_an_owner : Bool → Uuid → Service (Unit {0})
keep_an_owner loses org = do
  members ← list_by_organization org
  raise_if (loses && leb (count_owners members) 1) last_owner

-- `RemoveMember.execute`
unfoldable pub remove_member : Uuid → Uuid → Service (Unit {0})
unfolding require keep_an_owner
remove_member requester membership_id = do
  found ← membership_by_id membership_id
  target ← or_raise found (membership_not_found membership_id)
  require requester target.organization_id "member.remove"
  keep_an_owner (is_owner target.role) target.organization_id
  delete_membership target.id

-- `UpdateMemberRole.execute`
unfoldable pub update_member_role : Uuid → Uuid → MembershipRole → Service Membership
unfolding require keep_an_owner
update_member_role requester membership_id new_role = do
  found ← membership_by_id membership_id
  target ← or_raise found (membership_not_found membership_id)
  require requester target.organization_id "member.update"
  keep_an_owner (is_owner target.role && not (is_owner new_role)) target.organization_id
  put_membership (record target { role = new_role })
  pure (record target { role = new_role })

-- `INVITATION_EXPIRY_DAYS`, in microseconds
abbrev pub invitation_expiry : Time
invitation_expiry = 7 * 86400 * 1000000

-- "Check if the user is already a member"
abbrev pub is_member : Uuid → Option User → Service Bool
is_member org none = pure false
is_member org (some u) = do
  existing ← get_by_user_and_organization u.id org
  pure (is_some existing)

-- `InviteMember.execute`
unfoldable pub invite_member :
    Uuid → Uuid → String → MembershipRole → Uuid → String → Time → Service Invitation
unfolding require
invite_member inviter org email role fresh token now = do
  require inviter org "member.invite"
  user ← user_by_email email
  already ← is_member org user
  raise_if already (membership_already_exists email)
  let invitation : Invitation = record {
    id = fresh;
    organization_id = org;
    email = email;
    role = role;
    invited_by = inviter;
    token = token;
    status = pending;
    expires_at = now + invitation_expiry;
    created_at = now;
  }
  put_invitation invitation
  pure invitation

-- `RevokeInvitation.execute`
unfoldable pub revoke_invitation : Uuid → Uuid → Service Invitation
unfolding require
revoke_invitation requester invitation_id = do
  found ← invitation_by_id invitation_id
  invitation ← or_raise found (invitation_not_found invitation_id)
  require requester invitation.organization_id "member.invite"
  put_invitation (record invitation { status = revoked })
  pure (record invitation { status = revoked })

-- `GetOrganization.execute`
unfoldable pub get_organization : Uuid → Uuid → Service Organization
get_organization requester org = do
  membership ← get_by_user_and_organization requester org
  raise_if (not (is_some membership)) authorization_error
  found ← organization_by_id org
  or_raise found (organization_not_found org)

-- `UpdateOrganization.execute`
unfoldable pub update_organization :
    Uuid
    → Uuid
    → Option String
    → Option String
    → Option String
    → Option String
    → Option String
    → Time
    → Service Organization
unfolding require
update_organization org requester name nif address email phone now = do
  require requester org "organization.update"
  found ← organization_by_id org
  organization ← or_raise found (organization_not_found org)
  let updated : Organization = update_fields name nif address email phone now organization
  put_organization updated
  pure updated
