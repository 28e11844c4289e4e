-- ===== src/Organizations/Steps.antt =====
-- Histories of the use cases that write: src/organizations/application/use_cases.
use estate_os_service.Base.{
  Uuid, Time, String, Option, none, ◌≡◌, refl, arith, inl, inr, Option-cases,
}
use estate_os_service.Exec.{Result-cases}
use estate_os_service.Dict.{lookup, insert}
use estate_os_service.Organizations.Permissions.{MembershipRole}
use estate_os_service.Organizations.Model.{Membership, User}
use estate_os_service.Organizations.Store.{
  World, pending_for, get_by_user_and_organization, list_by_user, user_by_email, invitation_by_id,
  put_invitation, get_pending_by_email, put_membership, organization_by_id, put_organization,
}
use estate_os_service.Organizations.UseCases.{
  invite_member, remove_member, update_member_role, revoke_invitation, update_organization,
}
use estate_os_service.Organizations.Registration.{
  Ports, Request, Draws, register_admin_account, found_organization, join, join_or_found,
  new_membership,
}
use estate_os_service.Organizations.Owners.{
  IsOwned, owners-insert_new, insert-IsKeyed, remove_member-IsOwned, update_member_role-IsOwned,
}

-- One call, which may return or raise; a registration draws a membership id that is not in use.
pub data Step {S : Type 0} (p : Ports S) (w : World) : World → Type 0 where
  invites :
      (inviter org : Uuid) (email : String) (role : MembershipRole) (fresh : Uuid) (token : String)
      (now : Time)
      → Step p w (invite_member inviter org email role fresh token now w).1
  removes : (requester id : Uuid) → Step p w (remove_member requester id w).1
  changes_role :
      (requester id : Uuid) (role : MembershipRole)
      → Step p w (update_member_role requester id role w).1
  revokes : (requester id : Uuid) → Step p w (revoke_invitation requester id w).1
  updates :
      (org requester : Uuid) (name nif address email phone : Option String) (now : Time)
      → Step p w (update_organization org requester name nif address email phone now w).1
  registers :
      (r : Request) (d : Draws)
      → lookup d.membership_id w.memberships ≡ none
      → Step p w (register_admin_account p r d w).1

pub data Steps {S : Type 0} (p : Ports S) (w : World) : World → Type 0 where
  done : Steps p w w
  then_step : {w' w'' : World} → Steps p w w' → Step p w' w'' → Steps p w w''

add-IsOwned :
    (org : Uuid) (m : Membership) (w w' : World)
    → IsOwned org w
    → lookup m.id w.memberships ≡ none
    → w'.memberships ≡ insert m.id m w.memberships
    → IsOwned org w'
add-IsOwned org m w w' o new e = record {
  keyed = ground (arith, insert-IsKeyed m.id m w.memberships refl o.keyed);
  owned = ground (arith, owners-insert_new org m.id m w.memberships new, o.owned);
}

same-IsOwned :
    (org : Uuid) (w w' : World) → IsOwned org w → w'.memberships ≡ w.memberships → IsOwned org w'
same-IsOwned org w w' o e = record {
  keyed = ground (arith, o.keyed);
  owned = ground (arith, o.owned);
}

module _ {S : Type 0} (p : Ports S) (r : Request) (d : Draws) (w : World) where
  join_or_found-IsOwned :
      (org : Uuid) (user : User)
      → IsOwned org w
      → lookup d.membership_id w.memberships ≡ none
      → IsOwned org (join_or_found p r user d (pending_for r.email w.invitations) w).1
  unfolding join found_organization organization_by_id put_invitation put_membership
      put_organization
  join_or_found-IsOwned org user o new = elim (Option-cases (pending_for r.email w.invitations)) [
    | inl e ↦ elim (Result-cases (p.seed_freemium_subscription d.organization_id)) [
      | inl (s, es) ↦ ground (
        arith,
        add-IsOwned org (new_membership user d.organization_id MembershipRole.owner d) w
            (join_or_found p r user d (pending_for r.email w.invitations) w).1 o new,
      )
      | inr (x, es) ↦ ground (
        arith,
        same-IsOwned org w (join_or_found p r user d (pending_for r.email w.invitations) w).1 o,
      )
    ]
    | inr (i, e) ↦ ground (
      arith,
      add-IsOwned org (new_membership user i.organization_id i.role d) w
          (join_or_found p r user d (pending_for r.email w.invitations) w).1 o new,
    )
  ]

  register-IsOwned :
      (org : Uuid)
      → IsOwned org w
      → lookup d.membership_id w.memberships ≡ none
      → IsOwned org (register_admin_account p r d w).1
  unfolding register_admin_account list_by_user get_pending_by_email
  register-IsOwned org o new = elim (Result-cases (p.register_user r)) [
    | inl (user, e) ↦ ground (arith, join_or_found-IsOwned org user o new)
    | inr (x, e) ↦ ground arith
  ]

step-IsOwned :
    {S : Type 0} (p : Ports S) (org : Uuid) (w w' : World)
    → Step p w w'
    → IsOwned org w
    → IsOwned org w'
unfolding invite_member revoke_invitation update_organization get_by_user_and_organization
    user_by_email invitation_by_id put_invitation organization_by_id put_organization
step-IsOwned p org w _ (invites inviter o' email role fresh token now) o =
    same-IsOwned org w (invite_member inviter o' email role fresh token now w).1 o (ground arith)
step-IsOwned p org w _ (removes requester id) o = remove_member-IsOwned org requester id w o
step-IsOwned p org w _ (changes_role requester id role) o =
    update_member_role-IsOwned org requester id role w o
step-IsOwned p org w _ (revokes requester id) o =
    same-IsOwned org w (revoke_invitation requester id w).1 o (ground arith)
step-IsOwned p org w _ (updates org' requester name nif address email phone now) o =
    same-IsOwned org w (update_organization org' requester name nif address email phone now w).1 o
      (ground arith)
step-IsOwned p org w _ (registers r d new) o = register-IsOwned p r d w org o new

-- An organization that has an owner keeps one through any history of calls, by whatever users,
-- whether the calls return or raise, if every registration draws an unused membership id.
pub steps-IsOwned :
    {S : Type 0} (p : Ports S) (org : Uuid) (w w' : World)
    → Steps p w w'
    → IsOwned org w
    → IsOwned org w'
steps-IsOwned p org w _ done o = o
steps-IsOwned p org w w'' (then_step {w'} ss s) o =
    step-IsOwned p org w' w'' s (steps-IsOwned p org w w' ss o)
