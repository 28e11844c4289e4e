-- ===== src/Sessions/Histories.antt =====
-- Histories of the session use cases: src/sessions/application/use_cases.
use estate_os_service.Base.{
  ℕ, ◌≤◌, Uuid, Time, String, ◌≡◌, refl, sym, subst, if◌then◌else◌, Bool, true, false, Option, none,
  some, [], ◌∷◌, ◌==◌, inl, inr, arith, Bool-cases, Option-cases,
}
use estate_os_service.Exec.{Result, ok, err}
use estate_os_service.Json.{obj, end}
use estate_os_service.Dict.{lookup, insert}
use estate_os_service.Sessions.Model.{
  Session, SessionKind, authenticated, anonymous, Error, Tracked, claimed_by, logged_out, touched,
}
use estate_os_service.Sessions.UseCases.{
  Rows, is_stale, prune_rows, prune_stale_anonymous, fresh_session, is_due, refresh,
  mint_or_refresh, init_session, get_session_view, claim_as, claim_session, is_blank,
  logout_session, SessionPatch, patched, store_if_changed, update_session_slice,
}
use estate_os_service.Sessions.Slices.{
  Settings, IsSound, AreSound, lookup-IsSound, insert-AreSound, AllSound, patched-AllSound,
}

-- One call on a stored session, which may return or raise; a fresh id is not in use. Only the
-- sessions that `may_log_out` admits are logged out.
pub data Step (c : Settings) (may_log_out : Uuid → Bool) (rows : Rows) : Rows → Type 0 where
  inits_new :
      (fresh : Uuid) (now : Time)
      → lookup fresh rows ≡ none
      → Step c may_log_out rows (init_session none c.debounce_seconds fresh now rows).1
  inits :
      (i : Uuid) (s : Session) (fresh : Uuid) (now : Time)
      → lookup i rows ≡ some s
      → lookup fresh rows ≡ none
      → Step c may_log_out rows (init_session (some s) c.debounce_seconds fresh now rows).1
  views :
      (i : Uuid) (s : Session) (now : Time)
      → lookup i rows ≡ some s
      → Step c may_log_out rows (get_session_view s c.debounce_seconds now rows).1
  claims :
      (i : Uuid) (s : Session) (token : String) (now : Time)
      → lookup i rows ≡ some s
      → Step c may_log_out rows (claim_session c.validate s token now rows).1
  logs_out :
      (i : Uuid) (s : Session) (now : Time)
      → lookup i rows ≡ some s
      → may_log_out i ≡ true
      → Step c may_log_out rows (logout_session s now rows).1
  patches :
      (i : Uuid) (s : Session) (patch : SessionPatch)
      → lookup i rows ≡ some s
      → Step c may_log_out rows
          (update_session_slice c.encoded_bytes c.favorites_cap c.prefs_max_bytes s patch rows).1
  prunes : (now : Time) → Step c may_log_out rows (prune_stale_anonymous c.ttl_days now rows).1

pub data Steps (c : Settings) (may_log_out : Uuid → Bool) (rows : Rows) : Rows → Type 0 where
  done : Steps c may_log_out rows rows
  then_step :
      {rows' rows'' : Rows}
      → Steps c may_log_out rows rows'
      → Step c may_log_out rows' rows''
      → Steps c may_log_out rows rows''

module _ (c : Settings) where
  save-AreSound :
      (i : Uuid) (s : Session) (rows : Rows)
      → AreSound c rows
      → IsSound c i s
      → AreSound c (insert s.id s rows)
  save-AreSound i s rows all one =
      subst (λ k. AreSound c (insert k s rows)) (sym one.own) (insert-AreSound c i s rows all one)

  refresh-AreSound :
      (d : ℕ) (now : Time) (i : Uuid) (s : Session) (rows : Rows)
      → AreSound c rows
      → IsSound c i s
      → AreSound c (refresh d now s rows).1
  unfolding touched
  refresh-AreSound d now i s rows all o = elim (Bool-cases (is_due d now s)) [
    | inl e ↦ rw e (
        save-AreSound i (touched now s) rows all
          (record { own = o.own; bound = o.bound; few = o.few; small = o.small }))
    | inr e ↦ rw e all
  ]

  mint-AreSound :
      (fresh : Uuid) (now : Time) (rows : Rows)
      → c.encoded_bytes (obj end) ≤ c.prefs_max_bytes
      → AreSound c rows
      → AreSound c (insert fresh (fresh_session fresh now) rows)
  mint-AreSound fresh now rows small all =
      insert-AreSound c fresh (fresh_session fresh now) rows all
        (record { own = refl; bound = refl; few = ground arith; small = small })

  reuse-AreSound :
      (b : Bool) (i : Uuid) (s : Session) (fresh : Uuid) (now : Time) (rows : Rows)
      → c.encoded_bytes (obj end) ≤ c.prefs_max_bytes
      → AreSound c rows
      → IsSound c i s
      → AreSound c
          (mint_or_refresh (if b then none else some s) c.debounce_seconds fresh now rows).1
  reuse-AreSound true i s fresh now rows small all o = mint-AreSound fresh now rows small all
  reuse-AreSound false i s fresh now rows small all o =
      refresh-AreSound c.debounce_seconds now i s rows all o

  init-AreSound :
      (i : Uuid) (s : Session) (fresh : Uuid) (now : Time) (rows : Rows)
      → c.encoded_bytes (obj end) ≤ c.prefs_max_bytes
      → AreSound c rows
      → IsSound c i s
      → AreSound c (init_session (some s) c.debounce_seconds fresh now rows).1
  unfolding init_session
  init-AreSound i s fresh now rows small all o =
      reuse-AreSound s.revoked i s fresh now rows small all o

  claim_as-AreSound :
      (k : SessionKind) (owner : Option Uuid) (user i : Uuid) (now : Time) (s : Session)
      (rows : Rows)
      → AreSound c rows
      → IsSound c i s
      → AreSound c (claim_as k owner user now s rows).1
  unfolding claimed_by
  claim_as-AreSound authenticated (some v) user i now s rows all o = elim (Bool-cases (v == user)) [
    | inl e ↦ rw e all
    | inr e ↦ rw e all
  ]
  claim_as-AreSound authenticated none user i now s rows all o =
      save-AreSound i (claimed_by user now s) rows all
        (record { own = o.own; bound = refl; few = o.few; small = o.small })
  claim_as-AreSound anonymous owner user i now s rows all o =
      save-AreSound i (claimed_by user now s) rows all
        (record { own = o.own; bound = refl; few = o.few; small = o.small })

  claim-AreSound :
      (i : Uuid) (s : Session) (token : String) (now : Time) (rows : Rows)
      → AreSound c rows
      → IsSound c i s
      → AreSound c (claim_session c.validate s token now rows).1
  unfolding claim_session
  claim-AreSound i s token now rows all o = elim (Option-cases (c.validate token)) [
    | inl e ↦ rw e all
    | inr (u, e) ↦ rw e (claim_as-AreSound s.kind s.user_id u i now s rows all o)
  ]

  logout-AreSound :
      (i : Uuid) (s : Session) (now : Time) (rows : Rows)
      → c.encoded_bytes (obj end) ≤ c.prefs_max_bytes
      → AreSound c rows
      → IsSound c i s
      → AreSound c (logout_session s now rows).1
  unfolding logout_session logged_out
  logout-AreSound i s now rows small all o = elim (Bool-cases (is_blank s)) [
    | inl e ↦ rw e all
    | inr e ↦ rw e (
        save-AreSound i (logged_out now s) rows all
          (record { own = o.own; bound = refl; few = ground arith; small = small }))
  ]

  store-AreSound :
      (i : Uuid) (r : Result Error Tracked) (rows : Rows)
      → AreSound c rows
      → AllSound c i r
      → AreSound c (store_if_changed r rows).1
  store-AreSound i (err e) rows all o = all
  store-AreSound i (ok (false, s)) rows all o = all
  store-AreSound i (ok (true, s)) rows all o = save-AreSound i s rows all o

  prune-AreSound :
      (cutoff : Time) (rows : Rows) → AreSound c rows → AreSound c (prune_rows cutoff rows).1
  prune-AreSound cutoff [] all = tt
  prune-AreSound cutoff ((i, s) ∷ d) (one, all) = elim (Bool-cases (is_stale cutoff s)) [
    | inl e ↦ rw e (prune-AreSound cutoff d all)
    | inr e ↦ rw e (one, prune-AreSound cutoff d all)
  ]

  pub step-AreSound :
      (may : Uuid → Bool) (rows rows' : Rows)
      → Step c may rows rows'
      → c.encoded_bytes (obj end) ≤ c.prefs_max_bytes
      → AreSound c rows
      → AreSound c rows'
  unfolding init_session get_session_view update_session_slice prune_stale_anonymous
  step-AreSound may rows _ (inits_new fresh now new) small all =
      mint-AreSound fresh now rows small all
  step-AreSound may rows _ (inits i s fresh now h new) small all =
      init-AreSound i s fresh now rows small all (lookup-IsSound c i s rows all h)
  step-AreSound may rows _ (views i s now h) small all =
      refresh-AreSound c.debounce_seconds now i s rows all (lookup-IsSound c i s rows all h)
  step-AreSound may rows _ (claims i s token now h) small all =
      claim-AreSound i s token now rows all (lookup-IsSound c i s rows all h)
  step-AreSound may rows _ (logs_out i s now h ok_to) small all =
      logout-AreSound i s now rows small all (lookup-IsSound c i s rows all h)
  step-AreSound may rows _ (patches i s patch h) small all =
      store-AreSound i (patched c.encoded_bytes c.favorites_cap c.prefs_max_bytes patch s) rows all
        (patched-AllSound c i patch s (lookup-IsSound c i s rows all h))
  step-AreSound may rows _ (prunes now) small all = prune-AreSound _ rows all

-- Any history of the session use cases keeps every session stored under its id, with a user exactly
-- when it is authenticated, and with favorites and preferences within their caps, if the preferences
-- of a new session are.
pub sessions-AreSound :
    (c : Settings) (may : Uuid → Bool) (rows rows' : Rows)
    → Steps c may rows rows'
    → c.encoded_bytes (obj end) ≤ c.prefs_max_bytes
    → AreSound c rows
    → AreSound c rows'
sessions-AreSound c may rows _ done small all = all
sessions-AreSound c may rows rows'' (then_step {rows'} ss s) small all =
    step-AreSound c may rows' rows'' s small (sessions-AreSound c may rows rows' ss small all)
