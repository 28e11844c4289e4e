-- ===== src/Organizations/Tests.antt =====
-- The organizations theorems at organization 1 with the owner 10 and the member 20.
use estate_os_service.Base.{
  Uuid, String, ◌≡◌, ◌≢◌, refl, none, some, [], ◌∷◌, arith, ◌==◌, if◌then◌else◌,
}
use estate_os_service.Exec.{ok, err}
use estate_os_service.Dict.{Dict, lookup, insert}
use estate_os_service.Organizations.Permissions.{
  MembershipRole, owner, admin, member, has_permission,
}
use estate_os_service.Organizations.Model.{
  User, Membership, Invitation, pending, accepted, port_error,
}
use estate_os_service.Organizations.Store.{
  World, membership_of, membership_by_id, get_by_user_and_organization, list_by_organization,
  delete_membership,
}
use estate_os_service.Organizations.UseCases.{remove_member, update_member_role}
use estate_os_service.Organizations.Registration.{
  Ports, Request, Draws, new_organization, new_membership, register_admin_account,
}
use estate_os_service.Organizations.Owners.{IsOwned}
use estate_os_service.Organizations.Steps.{
  Steps, removes, changes_role, done, then_step, steps-IsOwned,
}
use estate_os_service.Organizations.Joining.{
  remove_member_authorised, register_joins, register_seed_fails,
}

abbrev membership_in : Uuid → Uuid → MembershipRole → Membership
membership_in id user role = record {
  id = id;
  user_id = user;
  organization_id = 1;
  role = role;
  created_at = 0;
  updated_at = 0;
}

abbrev invitation : Invitation
invitation = record {
  id = 70;
  organization_id = 1;
  email = "ana@example.com";
  role = admin;
  invited_by = 10;
  token = "t";
  status = pending;
  expires_at = 5;
  created_at = 1;
}

abbrev world_with : Dict Invitation → World
world_with invitations = record {
  users = [];
  organizations = [];
  memberships = (100, membership_in 100 10 owner) ∷ (200, membership_in 200 20 member) ∷ [];
  invitations = invitations;
}

abbrev world : World
world = world_with []

abbrev user : User
user = record {
  id = 30;
  supabase_user_id = "s";
  email = "ana@example.com";
  name = "Ana";
  phone = none;
  google_metadata = none;
  created_at = 0;
  updated_at = 0;
}

abbrev request : Request
request = record {
  supabase_user_id = "s";
  email = "ana@example.com";
  name = "Ana";
  phone = none;
  organization_name = some "Casa";
  google_metadata = none;
}

abbrev draws : Uuid → Draws
draws org = record { organization_id = org; membership_id = 300; now = 9 }

abbrev working_ports : Ports String
working_ports = record {
  register_user = λ r. ok user;
  seed_freemium_subscription = λ org. ok "freemium";
}

abbrev failing_ports : Ports String
failing_ports = record {
  register_user = λ r. ok user;
  seed_freemium_subscription = λ org. err port_error;
}

world-IsOwned : IsOwned 1 world
world-IsOwned = record { keyed = (refl, refl, (refl, refl, tt)); owned = ground arith }

abbrev attempts :
    Steps working_ports world (remove_member 10 100 (update_member_role 10 100 member world).1).1
attempts = then_step (then_step done (changes_role 10 100 member)) (removes 10 100)

steps-IsOwned_example :
    IsOwned 1 (remove_member 10 100 (update_member_role 10 100 member world).1).1
steps-IsOwned_example =
    steps-IsOwned working_ports 1 world
      (remove_member 10 100 (update_member_role 10 100 member world).1).1 attempts world-IsOwned

removed : (remove_member 10 200 world).0 ≡ ok tt
unfolding remove_member membership_by_id get_by_user_and_organization list_by_organization
    delete_membership has_permission
removed = refl

remove_member_authorised_example :
    let w' : World = (remove_member 10 200 world).1 in
    ((target : Membership) × (by : Membership) × (lookup 200 world.memberships ≡ some target)
      × (membership_of 10 target.organization_id world.memberships ≡ some by)
      × (by.role ≢ member))
    × ((j : Uuid)
        → lookup j w'.memberships ≡ (if 200 == j then none else lookup j world.memberships))
remove_member_authorised_example =
    remove_member_authorised 10 200 world (refl, refl, (refl, refl, tt)) removed

register_joins_example :
    register_admin_account working_ports request (draws 2) (world_with ((70, invitation) ∷ [])) ≡ (
      ok (record {
        user = user;
        organization = none;
        membership = new_membership user 1 admin (draws 2);
        subscription = none;
      }),
      record world {
        invitations = (70, record invitation { status = accepted }) ∷ [];
        memberships = insert 300 (new_membership user 1 admin (draws 2)) world.memberships;
      },
    )
register_joins_example =
    register_joins working_ports request (draws 2) (world_with ((70, invitation) ∷ [])) user
      invitation refl refl refl

register_seed_fails_example :
    let (out, w') = register_admin_account failing_ports request (draws 2) world in
    let (again, w'') = register_admin_account working_ports request (draws 3) w' in
    (out ≡ err port_error)
    × (w' ≡ record world { organizations = (2, new_organization request user (draws 2)) ∷ [] })
    × (w''.organizations
        ≡ insert 3
            (new_organization request user (draws 3))
            (insert 2 (new_organization request user (draws 2)) world.organizations))
register_seed_fails_example =
    register_seed_fails failing_ports working_ports request (draws 2) (draws 3) world user
      "freemium" port_error refl refl refl refl refl refl
