-- ===== src/Sessions/Same.antt =====
-- What a patch leaves alone: src/sessions/application/use_cases/update_session_slice.py.
use estate_os_service.Base.{
  ℕ, Uuid, ◌≡◌, refl, false, Option, none, some, List, [], ◌∷◌, ltb, ◌+◌, length, inl, inr,
  Bool-cases,
}
use estate_os_service.Exec.{Result, ok, err}
use estate_os_service.Json.{Json, obj, Fields}
use estate_os_service.Sessions.Model.{
  Session, CookiesConsent, Error, Tracked, consent_eq, is_member, merge, with_favorite_added,
  with_favorite_removed, with_prefs_merged, with_cookies_consent,
}
use estate_os_service.Sessions.UseCases.{
  FavoritesPatch, SessionPatch, remove_all, then_add, add_all, patch_favorites, patch_prefs,
  patch_consent, patched,
}

-- What a patch leaves alone.
pub record IsSame (s t : Session) : Type 0 where
  pub id : t.id ≡ s.id
  pub kind : t.kind ≡ s.kind
  pub user : t.user_id ≡ s.user_id

abbrev pub AllSame : Session → Result Error Tracked → Type 0
AllSame s (err e) = Unit
AllSame s (ok t) = IsSame s t.1

then-AllSame :
    (s : Session) (f : Tracked → Result Error Tracked) (r : Result Error Tracked)
    → AllSame s r
    → ((t : Tracked) → IsSame s t.1 → AllSame s (f t))
    → AllSame s (then_add f r)
then-AllSame s f (err e) o h = tt
then-AllSame s f (ok t) o h = h t o

remove-IsSame :
    (s : Session) (p : Uuid) (t : Tracked) → IsSame s t.1 → IsSame s (with_favorite_removed p t).1
unfolding with_favorite_removed
remove-IsSame s p (b, t) o = elim (Bool-cases (is_member p t.favorites)) [
  | inl e ↦ rw e (record { id = o.id; kind = o.kind; user = o.user })
  | inr e ↦ rw e o
]

removes-IsSame :
    (s : Session) (ps : List Uuid) (t : Tracked) → IsSame s t.1 → IsSame s (remove_all ps t).1
removes-IsSame s [] t o = o
removes-IsSame s (p ∷ ps) t o =
    removes-IsSame s ps (with_favorite_removed p t) (remove-IsSame s p t o)

add-IsSame :
    (s : Session) (p : Uuid) (cap : ℕ) (t : Tracked)
    → IsSame s t.1
    → AllSame s (with_favorite_added p cap t)
unfolding with_favorite_added
add-IsSame s p cap (b, t) o = elim (Bool-cases (is_member p t.favorites)) [
  | inl e ↦ rw e o
  | inr e ↦ rw e (elim (Bool-cases (ltb cap (length t.favorites + 1))) [
    | inl over ↦ rw over tt
    | inr room ↦ rw room (record { id = o.id; kind = o.kind; user = o.user })
  ])
]

adds-IsSame :
    (s : Session) (ps : List Uuid) (cap : ℕ) (t : Tracked)
    → IsSame s t.1
    → AllSame s (add_all ps cap t)
adds-IsSame s [] cap t o = o
adds-IsSame s (p ∷ ps) cap t o =
    then-AllSame s (add_all ps cap) (with_favorite_added p cap t) (add-IsSame s p cap t o)
      (adds-IsSame s ps cap)

favorites-AllSame :
    (s : Session) (p : Option FavoritesPatch) (cap : ℕ)
    → AllSame s (patch_favorites p cap (false, s))
favorites-AllSame s none cap = record { id = refl; kind = refl; user = refl }
favorites-AllSame s (some p) cap =
    adds-IsSame s p.add cap (remove_all p.remove (false, s))
      (removes-IsSame s p.remove (false, s) (record { id = refl; kind = refl; user = refl }))

prefs-AllSame :
    (s : Session) (encoded_bytes : Json → ℕ) (p : Option Fields) (max : ℕ) (t : Tracked)
    → IsSame s t.1
    → AllSame s (patch_prefs encoded_bytes p max t)
unfolding with_prefs_merged
prefs-AllSame s encoded_bytes none max t o = o
prefs-AllSame s encoded_bytes (some p) max (b, t) o =
    elim (Bool-cases (ltb max (encoded_bytes (obj (merge t.prefs p))))) [
      | inl over ↦ rw over tt
      | inr room ↦ rw room (record { id = o.id; kind = o.kind; user = o.user })
    ]

consent-AllSame :
    (s : Session) (v : Option CookiesConsent) (t : Tracked)
    → IsSame s t.1
    → AllSame s (patch_consent v t)
unfolding with_cookies_consent
consent-AllSame s none t o = o
consent-AllSame s (some v) (b, t) o = elim (Bool-cases (consent_eq (some v) t.cookies_consent)) [
  | inl e ↦ rw e o
  | inr e ↦ rw e (record { id = o.id; kind = o.kind; user = o.user })
]

pub patched-AllSame :
    (s : Session) (encoded_bytes : Json → ℕ) (cap max : ℕ) (patch : SessionPatch)
    → AllSame s (patched encoded_bytes cap max patch s)
unfolding patched
patched-AllSame s encoded_bytes cap max patch =
    then-AllSame s (patch_consent patch.cookies_consent) _
      (then-AllSame s (patch_prefs encoded_bytes patch.prefs max) _
        (favorites-AllSame s patch.favorites cap) (prefs-AllSame s encoded_bytes patch.prefs max))
      (consent-AllSame s patch.cookies_consent)
