-- ===== src/Listings/Newest.antt =====
-- What is left of a list of versions of a listing, in any order and with repeats: the register of
-- src/listings/adapters/workers/property_event_handler.py.
use estate_os_service.Base.{
  ℕ, ◌≤◌, ◌≡◌, refl, Bool, true, false, none, some, List, [], ◌∷◌, leb, ◌⊎◌, inl, inr, ◌↔◌,
  if◌then◌else◌, or_else, arith, ap, sym, ◌∙◌, subst, Bool-cases,
}
use estate_os_service.Listings.Register.{Facts, Register, keep_newer}

abbrev pub IsIn : {A : Type 0} → A → List A → Type 0
IsIn a [] = Path Bool true false
IsIn a (b ∷ bs) = (b ≡ a) ⊎ IsIn a bs

abbrev pub newest : List (ℕ × Facts) → Register → Register
newest [] r = r
newest (e ∷ es) r = newest es (keep_newer r e)

abbrev pub IsBelow : Register → ℕ → Type 0
IsBelow none v = Unit
IsBelow (some (u, f)) v = u ≤ v

-- What a register ends with: something it held or was offered, and nothing newer was offered.
record IsLatest (es : List (ℕ × Facts)) (r : Register) (v : ℕ) (f : Facts) : Type 0 where
  pub origin : (r ≡ some (v, f)) ⊎ IsIn (v, f) es
  pub above : IsBelow r v
  pub bound : (u : ℕ) (g : Facts) → IsIn (u, g) es → u ≤ v

some_injective : {A : Type 0} (a b : A) → some a ≡ some b → a ≡ b
some_injective a b h = ap (λ o. or_else o a) h

offered_origin :
    (e : ℕ × Facts) (es : List (ℕ × Facts)) (v : ℕ) (f : Facts)
    → (some e ≡ some (v, f)) ⊎ IsIn (v, f) es
    → IsIn (v, f) (e ∷ es)
offered_origin e es v f (inl h) = inl (some_injective e (v, f) h)
offered_origin e es v f (inr i) = inr i

bound_add :
    (u : ℕ) (g : Facts) (es : List (ℕ × Facts)) (v : ℕ)
    → u ≤ v
    → ((t : ℕ) (k : Facts) → IsIn (t, k) es → t ≤ v)
    → (t : ℕ) (k : Facts) → IsIn (t, k) ((u, g) ∷ es)
    → t ≤ v
bound_add u g es v h all t k (inl e) = rw⁻¹ (ap (λ p. p.0) e) h
bound_add u g es v h all t k (inr i) = all t k i

at_most_trans : (u w v : ℕ) → leb u w ≡ true → w ≤ v → u ≤ v
at_most_trans u w v old h = ground arith

over_trans : (u w v : ℕ) → leb u w ≡ false → u ≤ v → w ≤ v
over_trans u w v new h = ground arith

abbrev kept_of : List (ℕ × Facts) → ℕ → Facts → ℕ → Facts → Bool → Register
kept_of es u g w k b = newest es (if b then some (w, k) else some (u, g))

newest-IsLatest :
    (es : List (ℕ × Facts)) (r : Register) (v : ℕ) (f : Facts)
    → newest es r ≡ some (v, f)
    → IsLatest es r v f
newest-IsLatest [] r v f h = record {
  origin = inl h;
  above = rw h (ground arith);
  bound = λ u g i. ground arith;
}
newest-IsLatest ((u, g) ∷ es) none v f h =
    let l = newest-IsLatest es (some (u, g)) v f h in
    record {
      origin = inr (offered_origin (u, g) es v f l.origin);
      above = tt;
      bound = bound_add u g es v l.above l.bound;
    }
newest-IsLatest ((u, g) ∷ es) (some (w, k)) v f h = elim (Bool-cases (leb u w)) [
  | inl old ↦
      let l = newest-IsLatest es (some (w, k)) v f (ap (kept_of es u g w k) (sym old) ∙ h) in
      record {
        origin = elim l.origin [ inl x ↦ inl x | inr x ↦ inr (inr x) ];
        above = l.above;
        bound = bound_add u g es v (at_most_trans u w v old l.above) l.bound;
      }
  | inr new ↦
      let l = newest-IsLatest es (some (u, g)) v f (ap (kept_of es u g w k) (sym new) ∙ h) in
      record {
        origin = inr (offered_origin (u, g) es v f l.origin);
        above = over_trans u w v new l.above;
        bound = bound_add u g es v l.above l.bound;
      }
]

newest-some :
    (es : List (ℕ × Facts)) (e : ℕ × Facts)
    → (v : ℕ) × (f : Facts) × (newest es (some e) ≡ some (v, f))
newest-some [] (v, f) = (v, f, refl)
newest-some ((u, g) ∷ es) (w, k) = elim (Bool-cases (leb u w)) [
  | inl old ↦ let (v, f, h) = newest-some es (w, k) in (v, f, ap (kept_of es u g w k) old ∙ h)
  | inr new ↦ let (v, f, h) = newest-some es (u, g) in (v, f, ap (kept_of es u g w k) new ∙ h)
]

only_offered :
    (es : List (ℕ × Facts)) (v : ℕ) (f : Facts)
    → Path Register none (some (v, f)) ⊎ IsIn (v, f) es
    → IsIn (v, f) es
only_offered es v f (inl h) = ground arith
only_offered es v f (inr i) = i

at_most_antisym : (v w : ℕ) → v ≤ w → w ≤ v → v ≡ w
at_most_antisym v w h k = ground arith

moved : (v w : ℕ) (f : Facts) (es : List (ℕ × Facts)) → v ≡ w → IsIn (v, f) es → IsIn (w, f) es
moved v w f es e = subst (λ u. IsIn (u, f) es) e

same_entry : (v w : ℕ) (f k : Facts) → v ≡ w → f ≡ k → Path Register (some (v, f)) (some (w, k))
same_entry v w f k e h = rw (e, h) refl

-- Two lists of offers with the same members, of which no two differ in their facts alone, leave the
-- same newest one.
pub newest-same :
    (es es' : List (ℕ × Facts))
    → ((e : ℕ × Facts) → IsIn e es ↔ IsIn e es')
    → ((v : ℕ) (f g : Facts) → IsIn (v, f) es → IsIn (v, g) es → f ≡ g)
    → newest es none ≡ newest es' none
newest-same [] [] same one = refl
newest-same [] (e ∷ es') same one = ground (arith, (same e).1 (inl refl))
newest-same (e ∷ es) [] same one = ground (arith, (same e).0 (inl refl))
newest-same (e ∷ es) (e' ∷ es') same one =
    let (v, f, h) = newest-some es e in
    let (w, k, h') = newest-some es' e' in
    let l = newest-IsLatest (e ∷ es) none v f h in
    let l' = newest-IsLatest (e' ∷ es') none w k h' in
    let mine = only_offered (e ∷ es) v f l.origin in
    let theirs = (same (w, k)).1 (only_offered (e' ∷ es') w k l'.origin) in
    let level : v ≡ w =
      at_most_antisym v w (l'.bound v f ((same (v, f)).0 mine)) (l.bound w k theirs) in
    h ∙ same_entry v w f k level (one w f k (moved v w f (e ∷ es) level mine) theirs) ∙ sym h'
