-- ===== src/Sessions/UseCases.antt =====
-- src/sessions/application/use_cases over src/sessions/adapters/inmemory/repository.py. The portal's
-- token validator is a parameter; a datetime is in microseconds.
use estate_os_service.Base.{
  ℕ, ◌+◌, ◌-◌, ◌*◌, Uuid, Time, String, Bool, true, false, Option, none, some, List, [], ◌∷◌, ◌==◌,
  ltb, ◌&&◌, if◌then◌else◌,
}
use estate_os_service.Exec.{Result, ok, err, Exec, or_raise, ◌>>=◌}
use estate_os_service.Json.{Json, Fields, end}
use estate_os_service.Dict.{Dict, insert}
use estate_os_service.Sessions.Model.{
  Session, SessionKind, anonymous, authenticated, CookiesConsent, Tracked, Error,
  portal_auth_token_invalid, session_bound_to_other_user, with_favorite_added,
  with_favorite_removed, with_prefs_merged, with_cookies_consent, claimed_by, logged_out, touched,
}

abbrev pub Rows : Type 0
Rows = Dict Session

abbrev pub Service : Type 0 → Type 0
Service A = Exec Error Rows A

-- `save`, and `update`, which is the same write
abbrev pub save : Session → Service Session
save s rows = (ok s, insert s.id s rows)

abbrev pub is_anonymous : SessionKind → Bool
is_anonymous anonymous = true
is_anonymous authenticated = false

abbrev pub is_stale : Time → Session → Bool
is_stale cutoff s = is_anonymous s.kind && ltb s.last_seen_at cutoff

-- The rows that stay, and how many went.
abbrev pub prune_rows : Time → Rows → ℕ × Rows
prune_rows cutoff [] = (0, [])
prune_rows cutoff ((i, s) ∷ d) =
    let (n, rest) = prune_rows cutoff d in
    if is_stale cutoff s then (n + 1, rest) else (n, (i, s) ∷ rest)

-- `PruneStaleAnonymousSessions.execute`, with `now - timedelta(days=ttl_days)`
unfoldable pub prune_stale_anonymous : ℕ → Time → Rows → ℕ × Rows
prune_stale_anonymous ttl_days now rows = prune_rows (now - ttl_days * 86400000000) rows

abbrev pub fresh_session : Uuid → Time → Session
fresh_session fresh now = record {
  id = fresh;
  kind = anonymous;
  user_id = none;
  favorites = [];
  prefs = end;
  created_at = now;
  last_seen_at = now;
  claimed_at = none;
  revoked = false;
  cookies_consent = none;
}

-- `_seconds_since(then, now) > debounce_seconds`
abbrev pub is_due : ℕ → Time → Session → Bool
is_due debounce now s = ltb (s.last_seen_at + debounce * 1000000) now

abbrev pub refresh : ℕ → Time → Session → Service Session
refresh debounce now s rows =
    if is_due debounce now s then save (touched now s) rows else (ok s, rows)

abbrev pub reuse : Option Session → Option Session
reuse none = none
reuse (some s) = if s.revoked then none else some s

abbrev pub mint_or_refresh : Option Session → ℕ → Uuid → Time → Service Session
mint_or_refresh none debounce fresh now = save (fresh_session fresh now)
mint_or_refresh (some s) debounce fresh now = refresh debounce now s

-- `InitSession.execute`
unfoldable pub init_session : Option Session → ℕ → Uuid → Time → Service Session
init_session existing debounce fresh now = mint_or_refresh (reuse existing) debounce fresh now

-- `GetSessionView.execute`
unfoldable pub get_session_view : Session → ℕ → Time → Service Session
get_session_view s debounce now = refresh debounce now s

abbrev pub claim_as : SessionKind → Option Uuid → Uuid → Time → Session → Service Session
claim_as authenticated (some owner) user now s rows =
    if owner == user then (ok s, rows) else (err session_bound_to_other_user, rows)
claim_as authenticated none user now s rows = save (claimed_by user now s) rows
claim_as anonymous _ user now s rows = save (claimed_by user now s) rows

-- `ClaimSession.execute`, by what the validator answers to a token
unfoldable pub claim_session : (String → Option Uuid) → Session → String → Time → Service Session
claim_session validate s token now = do
  user ← or_raise (validate token) portal_auth_token_invalid
  claim_as s.kind s.user_id user now s

abbrev pub is_blank : Session → Bool
is_blank s = elim s.kind [
  | authenticated ↦ false
  | anonymous ↦ elim s.user_id [
    | some u ↦ false
    | none ↦ elim s.favorites [ f ∷ fs ↦ false | [] ↦ elim s.prefs [ end ↦ true | _ ↦ false ] ]
  ]
]

-- `LogoutSession.execute`
unfoldable pub logout_session : Session → Time → Service Session
logout_session s now rows = if is_blank s then (ok s, rows) else save (logged_out now s) rows

pub record FavoritesPatch : Type 0 where
  pub add : List Uuid
  pub remove : List Uuid

pub record SessionPatch : Type 0 where
  pub favorites : Option FavoritesPatch
  pub prefs : Option Fields
  pub cookies_consent : Option CookiesConsent

abbrev pub remove_all : List Uuid → Tracked → Tracked
remove_all [] t = t
remove_all (i ∷ is) t = remove_all is (with_favorite_removed i t)

abbrev pub then_add : (Tracked → Result Error Tracked) → Result Error Tracked → Result Error Tracked
then_add f (err e) = err e
then_add f (ok t) = f t

abbrev pub add_all : List Uuid → ℕ → Tracked → Result Error Tracked
add_all [] cap t = ok t
add_all (i ∷ is) cap t = then_add (add_all is cap) (with_favorite_added i cap t)

abbrev pub patch_favorites : Option FavoritesPatch → ℕ → Tracked → Result Error Tracked
patch_favorites none cap t = ok t
patch_favorites (some p) cap t = add_all p.add cap (remove_all p.remove t)

abbrev pub patch_prefs : (Json → ℕ) → Option Fields → ℕ → Tracked → Result Error Tracked
patch_prefs encoded_bytes none max_bytes t = ok t
patch_prefs encoded_bytes (some p) max_bytes t = with_prefs_merged encoded_bytes p max_bytes t

abbrev pub patch_consent : Option CookiesConsent → Tracked → Result Error Tracked
patch_consent none t = ok t
patch_consent (some c) t = ok (with_cookies_consent (some c) t)

unfoldable pub patched : (Json → ℕ) → ℕ → ℕ → SessionPatch → Session → Result Error Tracked
patched encoded_bytes cap max_bytes patch s = then_add (patch_consent patch.cookies_consent) (
    then_add (patch_prefs encoded_bytes patch.prefs max_bytes)
      (patch_favorites patch.favorites cap (false, s)))

-- "if updated is session: return session"
abbrev pub store_if_changed : Result Error Tracked → Service Session
store_if_changed (err e) rows = (err e, rows)
store_if_changed (ok (false, s)) rows = (ok s, rows)
store_if_changed (ok (true, s)) rows = save s rows

-- `UpdateSessionSlice.execute`
unfoldable pub update_session_slice : (Json → ℕ) → ℕ → ℕ → Session → SessionPatch → Service Session
update_session_slice encoded_bytes cap max_bytes s patch =
    store_if_changed (patched encoded_bytes cap max_bytes patch s)
