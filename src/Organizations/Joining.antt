-- ===== src/Organizations/Joining.antt =====
-- Who may remove a member, and what a registration gives: src/organizations/application/use_cases.
use estate_os_service.Base.{
  Uuid, none, some, [], ◌≡◌, ◌≢◌, arith, inl, inr, Option-cases, ◌==◌, if◌then◌else◌,
}
use estate_os_service.Exec.{ok, err}
use estate_os_service.Dict.{lookup, insert, values_where, lookup-erase}
use estate_os_service.Organizations.Permissions.{owner, member, has_permission}
use estate_os_service.Organizations.Model.{User, Membership, Invitation, accepted, Error}
use estate_os_service.Organizations.Store.{
  World, membership_of, pending_for, membership_by_id, get_by_user_and_organization,
  list_by_organization, delete_membership, put_membership, list_by_user, get_pending_by_email,
  put_invitation, organization_by_id, put_organization,
}
use estate_os_service.Organizations.UseCases.{remove_member}
use estate_os_service.Organizations.Registration.{
  Ports, Request, Draws, new_organization, new_membership, join, found_organization,
  register_admin_account,
}
use estate_os_service.Organizations.Owners.{IsKeyed, lookup_id}

-- A member is removed only at the request of an OWNER or an ADMIN of the same organization; then
-- that membership is gone, and every other one stays.
pub remove_member_authorised :
    (requester id : Uuid) (w : World)
    → IsKeyed w.memberships
    → (remove_member requester id w).0 ≡ ok tt
    → let w' : World = (remove_member requester id w).1 in
      ((target : Membership) × (by : Membership) × (lookup id w.memberships ≡ some target)
        × (membership_of requester target.organization_id w.memberships ≡ some by)
        × (by.role ≢ member))
      × ((j : Uuid) → lookup j w'.memberships ≡ (if id == j then none else lookup j w.memberships))
unfolding remove_member membership_by_id get_by_user_and_organization list_by_organization
    delete_membership has_permission
remove_member_authorised requester id w k h = elim (Option-cases (lookup id w.memberships)) [
  | inl e ↦ ground arith
  | inr (target, e) ↦
      elim (Option-cases (membership_of requester target.organization_id w.memberships)) [
        | inl e' ↦ ground arith
        | inr (by, e') ↦ (
          (target, by, e, e', ground arith),
          λ j. ground (
            arith,
            lookup_id id target w.memberships k e,
            lookup-erase target.id j w.memberships,
          ),
        )
      ]
]

-- Someone new who registers with a pending invitation joins its organization with the invited
-- role, and the invitation is accepted; its `expires_at` plays no part, so an invitation that
-- has expired is accepted too.
pub register_joins :
    {S : Type 0} (p : Ports S) (r : Request) (d : Draws) (w : World) (user : User) (i : Invitation)
    → p.register_user r ≡ ok user
    → values_where (λ m. m.user_id == user.id) w.memberships ≡ []
    → pending_for r.email w.invitations ≡ some i
    → register_admin_account p r d w ≡ (
      ok (record {
        user = user;
        organization = lookup i.organization_id w.organizations;
        membership = new_membership user i.organization_id i.role d;
        subscription = none;
      }),
      record w {
        invitations = insert i.id (record i { status = accepted }) w.invitations;
        memberships =
            insert d.membership_id (new_membership user i.organization_id i.role d) w.memberships;
      },
    )
unfolding register_admin_account list_by_user get_pending_by_email join organization_by_id
    put_invitation put_membership
register_joins p r d w user i hu hm hi = ground arith

-- Someone new without an invitation gets an organization of their own, as its owner, with the
-- subscription that billing seeds.
pub register_founds :
    {S : Type 0} (p : Ports S) (r : Request) (d : Draws) (w : World) (user : User) (s : S)
    → p.register_user r ≡ ok user
    → values_where (λ m. m.user_id == user.id) w.memberships ≡ []
    → pending_for r.email w.invitations ≡ none
    → p.seed_freemium_subscription d.organization_id ≡ ok s
    → register_admin_account p r d w ≡ (
      ok (record {
        user = user;
        organization = some (new_organization r user d);
        membership = new_membership user d.organization_id owner d;
        subscription = some s;
      }),
      record w {
        organizations = insert d.organization_id (new_organization r user d) w.organizations;
        memberships =
            insert d.membership_id (new_membership user d.organization_id owner d) w.memberships;
      },
    )
unfolding register_admin_account list_by_user get_pending_by_email found_organization
    put_organization put_membership
register_founds p r d w user s hu hm hi hs = ground arith

-- If billing's seed raises, the error is raised, and the new organization stays behind without
-- any membership; a retry that succeeds then founds a second one.
pub register_seed_fails :
    {S : Type 0} (p q : Ports S) (r : Request) (d d' : Draws) (w : World) (user : User) (s : S)
    (e : Error)
    → p.register_user r ≡ ok user
    → q.register_user r ≡ ok user
    → values_where (λ m. m.user_id == user.id) w.memberships ≡ []
    → pending_for r.email w.invitations ≡ none
    → p.seed_freemium_subscription d.organization_id ≡ err e
    → q.seed_freemium_subscription d'.organization_id ≡ ok s
    → let (out, w') = register_admin_account p r d w in
      let (again, w'') = register_admin_account q r d' w' in
      (out ≡ err e)
      × (w' ≡ record w {
        organizations = insert d.organization_id (new_organization r user d) w.organizations;
      })
      × (w''.organizations
          ≡ insert d'.organization_id
              (new_organization r user d')
              (insert d.organization_id (new_organization r user d) w.organizations))
unfolding register_admin_account list_by_user get_pending_by_email found_organization
    put_organization put_membership
register_seed_fails p q r d d' w user s e hp hq hm hi hs hs' = ground arith
