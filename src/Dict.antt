-- ===== src/Dict.antt =====
-- A Python dict with opaque keys, in insertion order; also a database table by primary key.
use estate_os_service.Base.{
  ◌≡◌, Bool, true, true, ℕ, ◌+◌, Option, none, some, List, [], ◌∷◌, arith, length, ◌==◌,
  if◌then◌else◌,
}

abbrev pub Dict {ℓ} : Type ℓ → Type ℓ
Dict V = List (ℕ × V)

module _ {ℓ} {V : Type ℓ} where
  -- `d.get(k)`
  abbrev pub lookup : ℕ → Dict V → Option V
  lookup k [] = none
  lookup k ((j, v) ∷ d) = if j == k then some v else lookup k d

  -- `d[k] = v`
  abbrev pub insert : ℕ → V → Dict V → Dict V
  insert k v [] = (k, v) ∷ []
  insert k v ((j, w) ∷ d) = if j == k then (k, v) ∷ d else (j, w) ∷ insert k v d

  -- `d.pop(k, None)`, `del d[k]`
  abbrev pub erase : ℕ → Dict V → Dict V
  erase k [] = []
  erase k ((j, w) ∷ d) = let rest = erase k d in if j == k then rest else (j, w) ∷ rest

  -- `[v for v in d.values() if p(v)]`
  abbrev pub values_where : (V → Bool) → Dict V → List V
  values_where p [] = []
  values_where p ((j, v) ∷ d) = let rest = values_where p d in if p v then v ∷ rest else rest

  pub lookup-insert :
      (k j : ℕ) (v : V) (d : Dict V)
      → lookup j (insert k v d) ≡ (if k == j then some v else lookup j d)
  lookup-insert k j v [] = ground arith
  lookup-insert k j v ((i, w) ∷ d) = ground (arith, lookup-insert k j v d)

  pub lookup-erase :
      (k j : ℕ) (d : Dict V) → lookup j (erase k d) ≡ (if k == j then none else lookup j d)
  lookup-erase k j [] = ground arith
  lookup-erase k j ((i, w) ∷ d) = ground (arith, lookup-erase k j d)

  -- A row under a new key adds itself to the rows that are selected.
  pub length-values_where-insert :
      (p : V → Bool) (k : ℕ) (v : V) (d : Dict V)
      → lookup k d ≡ none
      → length (values_where p (insert k v d)) ≡ length (values_where p d) + (if p v then 1 else 0)
  length-values_where-insert p k v [] h = ground arith
  length-values_where-insert p k v ((i, w) ∷ d) h =
      ground (arith, length-values_where-insert p k v d)

  pub values_where-insert_first :
      (p : V → Bool) (k : ℕ) (v : V) (d : Dict V)
      → lookup k d ≡ none
      → values_where p d ≡ []
      → p v ≡ true
      → values_where p (insert k v d) ≡ v ∷ []
  values_where-insert_first p k v [] h e y = ground arith
  values_where-insert_first p k v ((i, w) ∷ d) h e y =
      ground (arith, values_where-insert_first p k v d)

  -- Writing a row again under its key changes nothing.
  pub insert_same : (k : ℕ) (v : V) (d : Dict V) → lookup k d ≡ some v → insert k v d ≡ d
  insert_same k v [] h = ground arith
  insert_same k v ((j, w) ∷ d) h = ground (arith, insert_same k v d)
