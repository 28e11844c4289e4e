-- ===== src/Sessions/Model.antt =====
-- src/sessions/domain: the session aggregate and its transitions. How many bytes `json.dumps` makes
-- of the preferences is the parameter `encoded_bytes`.
use estate_os_service.Base.{
  ℕ, ◌+◌, Uuid, Time, Bool, true, false, Option, none, some, List, [], ◌∷◌, ◌++◌, ◌||◌, ◌==◌, ltb,
  not, length, filter, if◌then◌else◌,
}
use estate_os_service.Exec.{Result, ok, err}
use estate_os_service.Json.{Json, obj, Fields, end, field, get, put}

pub data SessionKind : Type 0 where
  anonymous authenticated : SessionKind

pub data CookiesConsent : Type 0 where
  accepted declined : CookiesConsent

pub data Error : Type 0 where
  session_not_found session_revoked cookie_malformed cookie_signature_invalid
        portal_auth_token_invalid session_bound_to_other_user prefs_too_large
        favorite_limit_exceeded :
      Error

-- `favorites` is a frozenset: a list without repeats.
pub record Session : Type 0 where
  pub id : Uuid
  pub kind : SessionKind
  pub user_id : Option Uuid
  pub favorites : List Uuid
  pub prefs : Fields
  pub created_at : Time
  pub last_seen_at : Time
  pub claimed_at : Option Time
  pub revoked : Bool
  pub cookies_consent : Option CookiesConsent

-- A session and whether it is another object than the one that a call began with.
abbrev pub Tracked : Type 0
Tracked = Bool × Session

abbrev pub is_member : Uuid → List Uuid → Bool
is_member i [] = false
is_member i (j ∷ js) = (j == i) || is_member i js

unfoldable pub with_favorite_added : Uuid → ℕ → Tracked → Result Error Tracked
with_favorite_added property cap (changed, s) =
    if is_member property s.favorites
    then ok (changed, s)
    else (if ltb cap (length s.favorites + 1)
        then err favorite_limit_exceeded
        else ok (true, record s { favorites = s.favorites ++ property ∷ [] }))

unfoldable pub with_favorite_removed : Uuid → Tracked → Tracked
with_favorite_removed property (changed, s) =
    if is_member property s.favorites
    then (true, record s { favorites = filter (λ f. not (f == property)) s.favorites })
    else (changed, s)

-- `_deep_merge`
unfoldable mutual
  pub merge : Fields → Fields → Fields
  merge base end = base
  merge base (field k v rest) = merge (put k (merge_value (get k base) v) base) rest

  pub merge_value : Option Json → Json → Json
  merge_value (some (obj b)) (obj p) = obj (merge b p)
  merge_value _ v = v

unfoldable pub with_prefs_merged : (Json → ℕ) → Fields → ℕ → Tracked → Result Error Tracked
with_prefs_merged encoded_bytes patch max_bytes (changed, s) =
    let merged = merge s.prefs patch in
    if ltb max_bytes (encoded_bytes (obj merged))
    then err prefs_too_large
    else ok (true, record s { prefs = merged })

abbrev pub consent_eq : Option CookiesConsent → Option CookiesConsent → Bool
consent_eq none none = true
consent_eq (some accepted) (some accepted) = true
consent_eq (some declined) (some declined) = true
consent_eq _ _ = false

unfoldable pub with_cookies_consent : Option CookiesConsent → Tracked → Tracked
with_cookies_consent value (changed, s) =
    if consent_eq value s.cookies_consent
    then (changed, s)
    else (true, record s { cookies_consent = value })

unfoldable pub claimed_by : Uuid → Time → Session → Session
claimed_by user now s = record s {
  kind = authenticated;
  user_id = some user;
  claimed_at = some now;
}

unfoldable pub logged_out : Time → Session → Session
logged_out now s = record s {
  kind = anonymous;
  user_id = none;
  claimed_at = none;
  favorites = [];
  prefs = end;
  last_seen_at = now;
}

unfoldable pub touched : Time → Session → Session
touched now s = record s { last_seen_at = now }
