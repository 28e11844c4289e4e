-- ===== src/Sessions/Owner.antt =====
-- The user that a session is bound to: src/sessions/application/use_cases.
use estate_os_service.Base.{
  ℕ, Uuid, Time, String, ◌≡◌, refl, ap, sym, ◌∙◌, subst, Bool, true, false, Option, none, some, [],
  ◌∷◌, ◌≤◌, ◌==◌, ◌&&◌, ltb, or_else, if◌then◌else◌, inl, inr, arith, Bool-cases, Option-cases,
}
use estate_os_service.Exec.{Result, ok, err}
use estate_os_service.Json.{obj, end}
use estate_os_service.Dict.{lookup, insert, lookup-insert}
use estate_os_service.Sessions.Model.{
  Session, SessionKind, authenticated, anonymous, Error, Tracked, claimed_by, logged_out, touched,
}
use estate_os_service.Sessions.UseCases.{
  Rows, is_anonymous, is_stale, prune_rows, prune_stale_anonymous, fresh_session, is_due, refresh,
  mint_or_refresh, init_session, get_session_view, claim_as, claim_session, is_blank,
  logout_session, store_if_changed, update_session_slice,
}
use estate_os_service.Sessions.Slices.{Settings, AreSound, lookup-IsSound}
use estate_os_service.Sessions.Histories.{
  Step, inits_new, inits, views, claims, logs_out, patches, prunes, Steps, done, then_step,
  sessions-AreSound,
}
use estate_os_service.Sessions.Same.{IsSame, AllSame, patched-AllSame}

-- The stored session `i` is authenticated and bound to `user`.
abbrev pub IsBound : Uuid → Uuid → Rows → Type 0
IsBound i user rows =
    (s : Session) × (lookup i rows ≡ some s) × (s.kind ≡ authenticated) × (s.user_id ≡ some user)

-- A write under the key `j`, which keeps the session `i` bound when `j` is `i`.
write-IsBound :
    (i j user : Uuid) (t : Session) (rows : Rows)
    → IsBound i user rows
    → (j ≡ i → (t.kind ≡ authenticated) × (t.user_id ≡ some user))
    → IsBound i user (insert j t rows)
write-IsBound i j user t rows (s, h, k, u) keeps = elim (Bool-cases (j == i)) [
  | inl e ↦
      (t, lookup-insert j i t rows ∙ rw e refl, (keeps (ground arith)).0, (keeps (ground arith)).1)
  | inr e ↦ (s, lookup-insert j i t rows ∙ rw e h, k, u)
]

same_entry :
    (i j : Uuid) (s t : Session) (rows : Rows)
    → lookup i rows ≡ some s
    → lookup j rows ≡ some t
    → j ≡ i
    → s ≡ t
same_entry i j s t rows h h' e =
    ap (λ o. or_else o s) (sym h ∙ ap (λ k. lookup k rows) (sym e) ∙ h')

-- A write of a session that differs from the stored one in neither kind nor user.
change-IsBound :
    (i j user : Uuid) (s t : Session) (rows : Rows)
    → IsBound i user rows
    → lookup j rows ≡ some s
    → s.id ≡ j
    → IsSame s t
    → IsBound i user (insert t.id t rows)
change-IsBound i j user s t rows (r, h, k, u) here own same =
    subst (λ x. IsBound i user (insert x t rows)) (sym (same.id ∙ own))
      (write-IsBound i j user t rows (r, h, k, u)
        (λ e. (
          same.kind ∙ ap (λ x. x.kind) (sym (same_entry i j r s rows h here e)) ∙ k,
          same.user ∙ ap (λ x. x.user_id) (sym (same_entry i j r s rows h here e)) ∙ u,
        )))

abbrev pick : Session → Rows → Uuid → Bool → Option Session
pick t d i b = if b then some t else lookup i d

unstored : {A : Type 0} (s : Session) → Path (Option Session) none (some s) → A
unstored s h = ground arith

unbound : (A : Type 0) (user : Uuid) → Path (Option Uuid) none (some user) → A
unbound A user h = ground arith

forbidden : (A : Type 0) → true ≡ false → A
forbidden A h = ground arith

unlike : (A : Type 0) → anonymous ≡ authenticated → A
unlike A h = ground arith

prune-lookup :
    (cutoff : Time) (i : Uuid) (s : Session) (rows : Rows)
    → is_stale cutoff s ≡ false
    → lookup i rows ≡ some s
    → lookup i (prune_rows cutoff rows).1 ≡ some s
prune-lookup cutoff i s [] live h = h
prune-lookup cutoff i s ((j, t) ∷ d) live h = elim (Bool-cases (j == i)) [
  | inl e ↦
      let same = ap (λ o. or_else o t) (ap (pick t d i) (sym e) ∙ h) in
      let kept = ap (is_stale cutoff) same ∙ live in rw (kept, e) (ap some same)
  | inr e ↦ elim (Bool-cases (is_stale cutoff t)) [
    | inl old ↦ rw old (prune-lookup cutoff i s d live (sym (ap (pick t d i) e) ∙ h))
    | inr kept ↦ rw (kept, e) (prune-lookup cutoff i s d live (sym (ap (pick t d i) e) ∙ h))
  ]
]

fresh-IsBound :
    (i j user : Uuid) (t : Session) (rows : Rows)
    → IsBound i user rows
    → lookup j rows ≡ none
    → IsBound i user (insert j t rows)
fresh-IsBound i j user t rows (s, h, k, u) new =
    write-IsBound i j user t rows (s, h, k, u)
      (λ e. unstored s (sym new ∙ ap (λ x. lookup x rows) e ∙ h))

refresh-IsBound :
    (d : ℕ) (now : Time) (i j user : Uuid) (s : Session) (rows : Rows)
    → IsBound i user rows
    → lookup j rows ≡ some s
    → s.id ≡ j
    → IsBound i user (refresh d now s rows).1
unfolding touched
refresh-IsBound d now i j user s rows b here own = elim (Bool-cases (is_due d now s)) [
  | inl e ↦ rw e (
      change-IsBound i j user s (touched now s) rows b here own
        (record { id = refl; kind = refl; user = refl }))
  | inr e ↦ rw e b
]

reuse-IsBound :
    (revoked : Bool) (d : ℕ) (now : Time) (i j user fresh : Uuid) (s : Session) (rows : Rows)
    → IsBound i user rows
    → lookup j rows ≡ some s
    → s.id ≡ j
    → lookup fresh rows ≡ none
    → IsBound i user (mint_or_refresh (if revoked then none else some s) d fresh now rows).1
reuse-IsBound true d now i j user fresh s rows b here own new =
    fresh-IsBound i fresh user (fresh_session fresh now) rows b new
reuse-IsBound false d now i j user fresh s rows b here own new =
    refresh-IsBound d now i j user s rows b here own

-- A write of a session other than `i`, or of one that is not bound.
other-IsBound :
    (i j user : Uuid) (s t : Session) (rows : Rows)
    → IsBound i user rows
    → lookup j rows ≡ some s
    → t.id ≡ j
    → ((A : Type 0) → j ≡ i → s.kind ≡ authenticated → s.user_id ≡ some user → A)
    → IsBound i user (insert t.id t rows)
other-IsBound i j user s t rows (r, h, k, u) here own never =
    subst (λ x. IsBound i user (insert x t rows)) (sym own)
      (write-IsBound i j user t rows (r, h, k, u)
        (λ e.
          never ((t.kind ≡ authenticated) × (t.user_id ≡ some user)) e
            (ap (λ x. x.kind) (sym (same_entry i j r s rows h here e)) ∙ k)
            (ap (λ x. x.user_id) (sym (same_entry i j r s rows h here e)) ∙ u)))

claim_as-IsBound :
    (k : SessionKind) (owner : Option Uuid) (claimant i j user : Uuid) (now : Time) (s : Session)
    (rows : Rows)
    → s.kind ≡ k
    → s.user_id ≡ owner
    → IsBound i user rows
    → lookup j rows ≡ some s
    → s.id ≡ j
    → IsBound i user (claim_as k owner claimant now s rows).1
unfolding claimed_by
claim_as-IsBound authenticated (some v) claimant i j user now s rows hk ho b here own =
    elim (Bool-cases (v == claimant)) [ inl e ↦ rw e b | inr e ↦ rw e b ]
claim_as-IsBound authenticated none claimant i j user now s rows hk ho b here own =
    other-IsBound i j user s (claimed_by claimant now s) rows b here own
      (λ A e k u. unbound A user (sym ho ∙ u))
claim_as-IsBound anonymous owner claimant i j user now s rows hk ho b here own =
    other-IsBound i j user s (claimed_by claimant now s) rows b here own
      (λ A e k u. unlike A (sym hk ∙ k))

claim-IsBound :
    (validate : String → Option Uuid) (token : String) (i j user : Uuid) (now : Time) (s : Session)
    (rows : Rows)
    → IsBound i user rows
    → lookup j rows ≡ some s
    → s.id ≡ j
    → IsBound i user (claim_session validate s token now rows).1
unfolding claim_session
claim-IsBound validate token i j user now s rows b here own = elim (Option-cases (validate token)) [
  | inl e ↦ rw e b
  | inr (v, e) ↦ rw e (claim_as-IsBound s.kind s.user_id v i j user now s rows refl refl b here own)
]

store-IsBound :
    (i j user : Uuid) (s : Session) (r : Result Error Tracked) (rows : Rows)
    → AllSame s r
    → IsBound i user rows
    → lookup j rows ≡ some s
    → s.id ≡ j
    → IsBound i user (store_if_changed r rows).1
store-IsBound i j user s (err e) rows o b here own = b
store-IsBound i j user s (ok (false, t)) rows o b here own = b
store-IsBound i j user s (ok (true, t)) rows o b here own =
    change-IsBound i j user s t rows b here own o

prune-IsBound :
    (cutoff : Time) (i user : Uuid) (rows : Rows)
    → IsBound i user rows
    → IsBound i user (prune_rows cutoff rows).1
prune-IsBound cutoff i user rows (s, h, k, u) = (
  s,
  prune-lookup cutoff i s rows (ap (λ x. is_anonymous x && ltb s.last_seen_at cutoff) k) h,
  k,
  u,
)

step-IsBound :
    (c : Settings) (may : Uuid → Bool) (i user : Uuid) (rows rows' : Rows)
    → may i ≡ false
    → Step c may rows rows'
    → AreSound c rows
    → IsBound i user rows
    → IsBound i user rows'
unfolding init_session get_session_view logout_session logged_out update_session_slice
    prune_stale_anonymous
step-IsBound c may i user rows _ barred (inits_new fresh now new) all b =
    fresh-IsBound i fresh user (fresh_session fresh now) rows b new
step-IsBound c may i user rows _ barred (inits j s fresh now here new) all b =
    reuse-IsBound s.revoked c.debounce_seconds now i j user fresh s rows b here
      (lookup-IsSound c j s rows all here).own new
step-IsBound c may i user rows _ barred (views j s now here) all b =
    refresh-IsBound c.debounce_seconds now i j user s rows b here
      (lookup-IsSound c j s rows all here).own
step-IsBound c may i user rows _ barred (claims j s token now here) all b =
    claim-IsBound c.validate token i j user now s rows b here
      (lookup-IsSound c j s rows all here).own
step-IsBound c may i user rows _ barred (logs_out j s now here allowed) all b =
    elim (Bool-cases (is_blank s)) [
      | inl e ↦ rw e b
      | inr e ↦ rw e (
          other-IsBound i j user s (logged_out now s) rows b here
            (lookup-IsSound c j s rows all here).own
            (λ A same k u. forbidden A (sym allowed ∙ ap may same ∙ barred)))
    ]
step-IsBound c may i user rows _ barred (patches j s patch here) all b =
    store-IsBound i j user s _ rows
      (patched-AllSame s c.encoded_bytes c.favorites_cap c.prefs_max_bytes patch) b here
      (lookup-IsSound c j s rows all here).own
step-IsBound c may i user rows _ barred (prunes now) all b = prune-IsBound _ i user rows b

-- A session that is bound to a user stays stored and bound to that user through any history in which
-- it is not logged out: nobody else can claim it and no pruning removes it.
pub session_kept-IsBound :
    (c : Settings) (may : Uuid → Bool) (i user : Uuid) (rows rows' : Rows)
    → may i ≡ false
    → c.encoded_bytes (obj end) ≤ c.prefs_max_bytes
    → AreSound c rows
    → IsBound i user rows
    → Steps c may rows rows'
    → IsBound i user rows'
session_kept-IsBound c may i user rows _ barred small all b done = b
session_kept-IsBound c may i user rows rows'' barred small all b (then_step {rows'} ss s) =
    step-IsBound c may i user rows' rows'' barred s
      (sessions-AreSound c may rows rows' ss small all)
      (session_kept-IsBound c may i user rows rows' barred small all b ss)
