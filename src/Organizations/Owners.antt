-- ===== src/Organizations/Owners.antt =====
-- The owners of an organization, under the writes that the use cases make.
use estate_os_service.Base.{
  ℕ, ◌+◌, ◌<◌, Uuid, ◌≡◌, refl, none, some, [], ◌∷◌, arith, inl, inr, Option-cases, if◌then◌else◌,
}
use estate_os_service.Dict.{Dict, lookup, insert, erase, values_where, lookup-insert, lookup-erase}
use estate_os_service.Organizations.Permissions.{MembershipRole, is_owner}
use estate_os_service.Organizations.Model.{Membership}
use estate_os_service.Organizations.Store.{
  World, in_organization, membership_by_id, get_by_user_and_organization, list_by_organization,
  put_membership, delete_membership,
}
use estate_os_service.Organizations.UseCases.{count_owners, remove_member, update_member_role}

-- How many owners the organization has.
abbrev pub owners : Uuid → Dict Membership → ℕ
owners org d = count_owners (values_where (in_organization org) d)

abbrev pub owner_units : Uuid → Membership → ℕ
owner_units org m = if in_organization org m then if is_owner m.role then 1 else 0 else 0

-- Every membership is stored under its own id, once.
abbrev pub IsKeyed : Dict Membership → Type 0
IsKeyed [] = Unit
IsKeyed ((i, m) ∷ d) = (m.id ≡ i) × (lookup i d ≡ none) × IsKeyed d

pub owners-insert_known :
    (org i : Uuid) (m m' : Membership) (d : Dict Membership)
    → lookup i d ≡ some m
    → owners org (insert i m' d) + owner_units org m ≡ owners org d + owner_units org m'
owners-insert_known org i m m' [] h = ground arith
owners-insert_known org i m m' ((j, n) ∷ d) h = ground (arith, owners-insert_known org i m m' d)

pub owners-insert_new :
    (org i : Uuid) (m : Membership) (d : Dict Membership)
    → lookup i d ≡ none
    → owners org (insert i m d) ≡ owners org d + owner_units org m
owners-insert_new org i m [] h = ground arith
owners-insert_new org i m ((j, n) ∷ d) h = ground (arith, owners-insert_new org i m d)

erase_absent : (i : Uuid) (d : Dict Membership) → lookup i d ≡ none → erase i d ≡ d
erase_absent i [] h = refl
erase_absent i ((j, n) ∷ d) h = ground (arith, erase_absent i d)

pub owners-erase :
    (org i : Uuid) (m : Membership) (d : Dict Membership)
    → IsKeyed d
    → lookup i d ≡ some m
    → owners org (erase i d) + owner_units org m ≡ owners org d
owners-erase org i m [] k h = ground arith
owners-erase org i m ((j, n) ∷ d) (own, once, k) h =
    ground (arith, owners-erase org i m d k, erase_absent i d)

pub insert-IsKeyed :
    (i : Uuid) (m : Membership) (d : Dict Membership)
    → m.id ≡ i
    → IsKeyed d
    → IsKeyed (insert i m d)
insert-IsKeyed i m [] e k = (e, refl, tt)
insert-IsKeyed i m ((j, n) ∷ d) e (own, once, k) =
    ground (arith, insert-IsKeyed i m d e k, lookup-insert i j m d)

pub erase-IsKeyed : (i : Uuid) (d : Dict Membership) → IsKeyed d → IsKeyed (erase i d)
erase-IsKeyed i [] k = tt
erase-IsKeyed i ((j, n) ∷ d) (own, once, k) =
    ground (arith, erase-IsKeyed i d k, lookup-erase i j d)

pub lookup_id :
    (i : Uuid) (m : Membership) (d : Dict Membership) → IsKeyed d → lookup i d ≡ some m → m.id ≡ i
lookup_id i m [] k h = ground arith
lookup_id i m ((j, n) ∷ d) (own, once, k) h = ground (arith, lookup_id i m d k)

-- Memberships that are stored under their ids, with an owner in the organization.
pub record IsOwned (org : Uuid) (w : World) : Type 0 where
  pub keyed : IsKeyed w.memberships
  pub owned : 0 < owners org w.memberships

-- Removing a member never takes an organization's last owner, whoever asks.
pub remove_member-IsOwned :
    (org requester id : Uuid) (w : World)
    → IsOwned org w
    → IsOwned org (remove_member requester id w).1
unfolding remove_member membership_by_id get_by_user_and_organization list_by_organization
    delete_membership
remove_member-IsOwned org requester id w o = elim (Option-cases (lookup id w.memberships)) [
  | inl e ↦ ground (arith, o.keyed, o.owned)
  | inr (m, e) ↦ record {
    keyed = ground (arith, o.keyed, erase-IsKeyed m.id w.memberships o.keyed);
    owned = ground (
      arith,
      lookup_id id m w.memberships o.keyed e,
      owners-erase org id m w.memberships o.keyed e,
      o.owned,
    );
  }
]

-- Changing a role never takes an organization's last owner, whoever asks.
pub update_member_role-IsOwned :
    (org requester id : Uuid) (role : MembershipRole) (w : World)
    → IsOwned org w
    → IsOwned org (update_member_role requester id role w).1
unfolding update_member_role membership_by_id get_by_user_and_organization list_by_organization
    put_membership
update_member_role-IsOwned org requester id role w o =
    elim (Option-cases (lookup id w.memberships)) [
      | inl e ↦ ground (arith, o.keyed, o.owned)
      | inr (m, e) ↦
          let m' : Membership = record m { role = role } in
          record {
            keyed = ground (arith, o.keyed, insert-IsKeyed m.id m' w.memberships refl o.keyed);
            owned = ground (
              arith,
              lookup_id id m w.memberships o.keyed e,
              owners-insert_known org id m m' w.memberships e,
              o.owned,
            );
          }
    ]
