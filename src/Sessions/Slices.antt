-- ===== src/Sessions/Slices.antt =====
-- What a patch keeps of a session: src/sessions/application/use_cases/update_session_slice.py.
use estate_os_service.Base.{
  ℕ, ◌≤◌, ◌+◌, Uuid, String, ◌≡◌, ap, sym, ◌∙◌, subst, or_else, if◌then◌else◌, Bool, true, false,
  Option, none, some, List, [], ◌∷◌, ◌++◌, ◌==◌, ltb, not, length, filter, is_some, inl, inr, arith,
  Bool-cases,
}
use estate_os_service.Exec.{Result, ok, err}
use estate_os_service.Json.{Json, obj, Fields}
use estate_os_service.Dict.{lookup, insert}
use estate_os_service.Sessions.Model.{
  Session, Error, Tracked, CookiesConsent, consent_eq, is_member, merge, with_favorite_added,
  with_favorite_removed, with_prefs_merged, with_cookies_consent,
}
use estate_os_service.Sessions.UseCases.{
  Rows, is_anonymous, FavoritesPatch, SessionPatch, remove_all, then_add, add_all, patch_favorites,
  patch_prefs, patch_consent, patched,
}

-- The settings of the sessions container, and the token validator.
pub record Settings : Type 0 where
  pub encoded_bytes : Json → ℕ
  pub favorites_cap : ℕ
  pub prefs_max_bytes : ℕ
  pub debounce_seconds : ℕ
  pub ttl_days : ℕ
  pub validate : String → Option Uuid

-- The session is anonymous exactly when it has no user, and its slices are within their caps.
pub record IsSound (c : Settings) (i : Uuid) (s : Session) : Type 0 where
  pub own : s.id ≡ i
  pub bound : is_anonymous s.kind ≡ not (is_some s.user_id)
  pub few : length s.favorites ≤ c.favorites_cap
  pub small : c.encoded_bytes (obj s.prefs) ≤ c.prefs_max_bytes

abbrev pub AreSound : Settings → Rows → Type 0
AreSound c [] = Unit
AreSound c ((i, s) ∷ d) = IsSound c i s × AreSound c d

same_key : (j i : Uuid) → (j == i) ≡ true → j ≡ i
same_key j i e = ground arith

abbrev found : Session → Rows → Uuid → Bool → Option Session
found t d i b = if b then some t else lookup i d

same_session :
    (i j : Uuid) (s t : Session) (d : Rows)
    → (j == i) ≡ true
    → lookup i ((j, t) ∷ d) ≡ some s
    → t ≡ s
same_session i j s t d e h = ap (λ o. or_else o t) (ap (found t d i) (sym e) ∙ h)

found-IsSound :
    (c : Settings) (i j : Uuid) (s t : Session) (d : Rows)
    → (j == i) ≡ true
    → lookup i ((j, t) ∷ d) ≡ some s
    → IsSound c j t
    → IsSound c i s
found-IsSound c i j s t d e h one =
    subst (λ u. IsSound c i u) (same_session i j s t d e h)
      (subst (λ k. IsSound c k t) (same_key j i e) one)

pub lookup-IsSound :
    (c : Settings) (i : Uuid) (s : Session) (rows : Rows)
    → AreSound c rows
    → lookup i rows ≡ some s
    → IsSound c i s
lookup-IsSound c i s [] all h = ground arith
lookup-IsSound c i s ((j, t) ∷ d) (one, all) h = elim (Bool-cases (j == i)) [
  | inl e ↦ found-IsSound c i j s t d e h one
  | inr e ↦ lookup-IsSound c i s d all (ground arith)
]

pub insert-AreSound :
    (c : Settings) (i : Uuid) (s : Session) (rows : Rows)
    → AreSound c rows
    → IsSound c i s
    → AreSound c (insert i s rows)
insert-AreSound c i s [] all one = (one, tt)
insert-AreSound c i s ((j, t) ∷ d) (mine, all) one = elim (Bool-cases (j == i)) [
  | inl e ↦ rw e (one, all)
  | inr e ↦ rw e (mine, insert-AreSound c i s d all one)
]

module _ (c : Settings) (i : Uuid) where
  abbrev pub AllSound : Result Error Tracked → Type 0
  AllSound (err e) = Unit
  AllSound (ok t) = IsSound c i t.1

  length-filter : (p : Uuid → Bool) (fs : List Uuid) → length (filter p fs) ≤ length fs
  length-filter p [] = ground arith
  length-filter p (f ∷ fs) = ground (arith, length-filter p fs)

  length-snoc : (fs : List Uuid) (f : Uuid) → length (fs ++ f ∷ []) ≡ length fs + 1
  length-snoc [] f = ground arith
  length-snoc (g ∷ gs) f = ground (arith, length-snoc gs f)

  remove-IsSound :
      (p : Uuid) (t : Tracked) → IsSound c i t.1 → IsSound c i (with_favorite_removed p t).1
  unfolding with_favorite_removed
  remove-IsSound p (b, s) o = elim (Bool-cases (is_member p s.favorites)) [
    | inr e ↦ rw e o
    | inl e ↦ rw e (record {
      own = o.own;
      bound = o.bound;
      few = ground (arith, o.few, length-filter (λ f. not (f == p)) s.favorites);
      small = o.small;
    })
  ]

  removes-IsSound :
      (ps : List Uuid) (t : Tracked) → IsSound c i t.1 → IsSound c i (remove_all ps t).1
  removes-IsSound [] t o = o
  removes-IsSound (p ∷ ps) t o =
      removes-IsSound ps (with_favorite_removed p t) (remove-IsSound p t o)

  add-IsSound :
      (p : Uuid) (t : Tracked)
      → IsSound c i t.1
      → AllSound (with_favorite_added p c.favorites_cap t)
  unfolding with_favorite_added
  add-IsSound p (b, s) o = elim (Bool-cases (is_member p s.favorites)) [
    | inl e ↦ rw e o
    | inr e ↦ rw e (elim (Bool-cases (ltb c.favorites_cap (length s.favorites + 1))) [
      | inl over ↦ rw over tt
      | inr room ↦ rw room (record {
        own = o.own;
        bound = o.bound;
        few = ground (arith, length-snoc s.favorites p);
        small = o.small;
      })
    ])
  ]

  then-AllSound :
      (f : Tracked → Result Error Tracked) (r : Result Error Tracked)
      → AllSound r
      → ((t : Tracked) → IsSound c i t.1 → AllSound (f t))
      → AllSound (then_add f r)
  then-AllSound f (err e) o h = tt
  then-AllSound f (ok t) o h = h t o

  adds-IsSound :
      (ps : List Uuid) (t : Tracked) → IsSound c i t.1 → AllSound (add_all ps c.favorites_cap t)
  adds-IsSound [] t o = o
  adds-IsSound (p ∷ ps) t o =
      then-AllSound (add_all ps c.favorites_cap) (with_favorite_added p c.favorites_cap t)
        (add-IsSound p t o) (adds-IsSound ps)

  prefs-IsSound :
      (p : Option Fields) (t : Tracked)
      → IsSound c i t.1
      → AllSound (patch_prefs c.encoded_bytes p c.prefs_max_bytes t)
  unfolding with_prefs_merged
  prefs-IsSound none t o = o
  prefs-IsSound (some p) (b, s) o =
      elim (Bool-cases (ltb c.prefs_max_bytes (c.encoded_bytes (obj (merge s.prefs p))))) [
        | inl over ↦ rw over tt
        | inr room ↦
            rw room (record { own = o.own; bound = o.bound; few = o.few; small = ground arith })
      ]

  favorites-AllSound :
      (p : Option FavoritesPatch) (s : Session)
      → IsSound c i s
      → AllSound (patch_favorites p c.favorites_cap (false, s))
  favorites-AllSound none s o = o
  favorites-AllSound (some p) s o =
      adds-IsSound p.add (remove_all p.remove (false, s)) (removes-IsSound p.remove (false, s) o)

  consent-AllSound :
      (v : Option CookiesConsent) (t : Tracked) → IsSound c i t.1 → AllSound (patch_consent v t)
  unfolding with_cookies_consent
  consent-AllSound none t o = o
  consent-AllSound (some v) (b, s) o = elim (Bool-cases (consent_eq (some v) s.cookies_consent)) [
    | inl e ↦ rw e o
    | inr e ↦ rw e (record { own = o.own; bound = o.bound; few = o.few; small = o.small })
  ]

  pub patched-AllSound :
      (patch : SessionPatch) (s : Session)
      → IsSound c i s
      → AllSound (patched c.encoded_bytes c.favorites_cap c.prefs_max_bytes patch s)
  unfolding patched
  patched-AllSound patch s o =
      then-AllSound (patch_consent patch.cookies_consent) _
        (then-AllSound (patch_prefs c.encoded_bytes patch.prefs c.prefs_max_bytes) _
          (favorites-AllSound patch.favorites s o) (prefs-IsSound patch.prefs))
        (consent-AllSound patch.cookies_consent)
