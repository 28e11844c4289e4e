-- ===== src/Organizations/Permissions.antt =====
-- Roles and permissions: src/organizations/domain/models/authorization.py.
use Prim.Native.Char.{code}
use Prim.Native.String.{◌++◌ as ◌+++◌}
use estate_os_service.Base.{
  String, Bool, true, false, Option, none, some, List, [], ◌∷◌, ◌||◌, ◌==◌, str_eq, if◌then◌else◌,
}

pub data MembershipRole : Type 0 where
  owner admin member : MembershipRole

abbrev pub is_owner : MembershipRole → Bool
is_owner owner = true
is_owner _ = false

-- `ROLE_PERMISSIONS`
unfoldable pub role_permissions : MembershipRole → List String
role_permissions owner = "*" ∷ []
role_permissions admin =
    "organization.read" ∷ "organization.update" ∷ "member.invite" ∷ "member.read" ∷ "member.update"
    ∷ "member.remove" ∷ "property.*" ∷ "extraction.*" ∷ "subscription.read" ∷ []
role_permissions member =
    "organization.read" ∷ "property.create" ∷ "property.read" ∷ "property.update"
    ∷ "extraction.create" ∷ "extraction.read" ∷ "subscription.read" ∷ []

abbrev pub is_in : String → List String → Bool
is_in s [] = false
is_in s (t ∷ ts) = str_eq s t || is_in s ts

-- What stands before the last dot, if there is a dot.
abbrev pub before_last_dot : String → Option String
before_last_dot String.[] = none
before_last_dot (String.◌∷◌ c s) =
    let rest = before_last_dot s in
    elim rest [ some r ↦ some (String.◌∷◌ c r) | none ↦ if code c == 46 then some "" else none ]

abbrev pub or_whole : Option String → String → String
or_whole none s = s
or_whole (some r) s = r

-- `codename.rsplit(".", 1)[0] if "." in codename else codename`
unfoldable pub namespace : String → String
namespace codename = or_whole (before_last_dot codename) codename

unfoldable pub has_permission : MembershipRole → String → Bool
unfolding role_permissions namespace
has_permission role codename =
    is_in "*" (role_permissions role)
    || is_in codename (role_permissions role)
    || is_in (namespace codename +++ ".*") (role_permissions role)
