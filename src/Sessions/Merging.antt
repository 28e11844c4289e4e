-- ===== src/Sessions/Merging.antt =====
-- `_deep_merge`: src/sessions/domain/models/session.py.
use estate_os_service.Base.{
  String, ◌≡◌, refl, ap, sym, ◌∙◌, Bool, true, false, Option, none, some, ◌&&◌, not, or_else,
  str_eq, eq_iff, arith, inl, inr, Bool-cases, if◌then◌else◌,
}
use estate_os_service.Json.{
  Json, null, bool, num, other_num, text, arr, obj, Fields, end, field, get, put,
}
use estate_os_service.Sessions.Model.{merge, merge_value}

abbrev pub has_key : String → Fields → Bool
has_key k end = false
has_key k (field j v rest) = if str_eq j k then true else has_key k rest

-- A dict, as Python has it: no key twice, at any depth.
unfoldable mutual
  pub is_dict : Fields → Bool
  is_dict end = true
  is_dict (field k v rest) = not (has_key k rest) && (is_dict_value v && is_dict rest)

  pub is_dict_value : Json → Bool
  is_dict_value (obj p) = is_dict p
  is_dict_value _ = true

flipped : (h k : String) → str_eq h k ≡ false → str_eq k h ≡ false
flipped h k e = ground (arith, eq_iff h k, eq_iff k h)

rest_get :
    (j k : String) (u : Json) (d : Fields) → str_eq j k ≡ false → get k d ≡ get k (field j u d)
rest_get j k u d e = rw e refl

abbrev either : Json → Fields → String → Bool → Option Json
either u d k b = if b then some u else get k d

head_same :
    (j k : String) (u w : Json) (d : Fields)
    → str_eq j k ≡ true
    → get k (field j u d) ≡ some w
    → field k w d ≡ field j u d
head_same j k u w d e h =
    ap (λ x. field k x d) (ap (λ o. or_else o u) (sym h ∙ ap (either u d k) e))
    ∙ ap (λ x. field x u d) (sym ((eq_iff j k).0 e))

other_key : (h j k : String) → str_eq h k ≡ false → str_eq h j ≡ true → str_eq k j ≡ false
other_key h j k e g = ap (λ t. str_eq k t) (sym ((eq_iff h j).0 g)) ∙ flipped h k e

get-put :
    (j k : String) (v : Json) (d : Fields)
    → get j (put k v d) ≡ (if str_eq k j then some v else get j d)
get-put j k v end = refl
get-put j k v (field h w d) = elim (Bool-cases (str_eq h k)) [
  | inl e ↦ elim (Bool-cases (str_eq k j)) [
    | inl f ↦ rw (e, f) refl
    | inr f ↦ rw (e, f, ap (λ t. str_eq t j) ((eq_iff h k).0 e) ∙ f) refl
  ]
  | inr e ↦ elim (Bool-cases (str_eq h j)) [
    | inl g ↦ rw (e, g, other_key h j k e g) refl
    | inr g ↦ rw (e, g) (get-put j k v d)
  ]
]

put_same : (k : String) (w : Json) (d : Fields) → get k d ≡ some w → put k w d ≡ d
put_same k w end h = ground arith
put_same k w (field j u d) h = elim (Bool-cases (str_eq j k)) [
  | inl e ↦ rw e (head_same j k u w d e h)
  | inr e ↦ rw e (ap (field j u) (put_same k w d (rest_get j k u d e ∙ h)))
]

key_differs :
    (j k : String) (rest : Fields)
    → (if str_eq k j then true else has_key j rest) ≡ false
    → str_eq k j ≡ false
key_differs j k rest h = ground arith

key_absent :
    (j k : String) (rest : Fields)
    → (if str_eq k j then true else has_key j rest) ≡ false
    → has_key j rest ≡ false
key_absent j k rest h = ground arith

get-merge_other : (j : String) (b p : Fields) → has_key j p ≡ false → get j (merge b p) ≡ get j b
unfolding merge merge_value
get-merge_other j b end h = refl
get-merge_other j b (field k v rest) h =
    let n = key_differs j k rest h in
    get-merge_other j (put k (merge_value (get k b) v) b) rest (key_absent j k rest h)
    ∙ get-put j k (merge_value (get k b) v) b
    ∙ rw n refl

middle_true : (a b c : Bool) → (not a && (b && c)) ≡ true → b ≡ true
middle_true a true c h = refl
middle_true true false c h = h
middle_true false false c h = h

last_true : (a b c : Bool) → (not a && (b && c)) ≡ true → c ≡ true
last_true true b c h = ground arith
last_true false true c h = h
last_true false false c h = ground arith

dict_new :
    (k : String) (v : Json) (rest : Fields)
    → is_dict (field k v rest) ≡ true
    → has_key k rest ≡ false
unfolding is_dict
dict_new k v rest d = ground arith

dict_value :
    (k : String) (v : Json) (rest : Fields)
    → is_dict (field k v rest) ≡ true
    → is_dict_value v ≡ true
unfolding is_dict
dict_value k v rest d = middle_true (has_key k rest) (is_dict_value v) (is_dict rest) d

dict_rest :
    (k : String) (v : Json) (rest : Fields) → is_dict (field k v rest) ≡ true → is_dict rest ≡ true
unfolding is_dict
dict_rest k v rest d = last_true (has_key k rest) (is_dict_value v) (is_dict rest) d

found_value :
    (j k : String) (u v : Json) (rest : Fields)
    → str_eq k j ≡ true
    → get j (field k u rest) ≡ some v
    → u ≡ v
found_value j k u v rest e h = ap (λ o. or_else o u) (sym (ap (either u rest j) e) ∙ h)

head_get : (k : String) (v : Json) (rest : Fields) → get k (field k v rest) ≡ some v
head_get k v rest = rw ((eq_iff k k).1 refl) refl

no_entry :
    {A : Type 0} (j : String) (u : Json) (rest : Fields)
    → has_key j rest ≡ false
    → get j rest ≡ some u
    → A
no_entry j u end n h = ground arith
no_entry j u (field k w rest) n h = elim (Bool-cases (str_eq k j)) [
  | inl e ↦ ground arith
  | inr e ↦ no_entry j u rest (key_absent j k rest n) (rest_get k j w rest e ∙ h)
]

later_get :
    (j k : String) (u v : Json) (rest : Fields)
    → has_key k rest ≡ false
    → get j rest ≡ some u
    → get j (field k v rest) ≡ some u
later_get j k u v rest new h = elim (Bool-cases (str_eq k j)) [
  | inr e ↦ rw e h
  | inl e ↦ no_entry j u rest (ap (λ t. has_key t rest) (sym ((eq_iff k j).0 e)) ∙ new) h
]

get-merge :
    (j : String) (v : Json) (b p : Fields)
    → is_dict p ≡ true
    → get j p ≡ some v
    → get j (merge b p) ≡ some (merge_value (get j b) v)
unfolding merge is_dict
get-merge j v b end d h = ground arith
get-merge j v b (field k u rest) d h = elim (Bool-cases (str_eq k j)) [
  | inl e ↦
      get-merge_other j (put k (merge_value (get k b) u) b) rest
        (ap (λ t. has_key t rest) (sym ((eq_iff k j).0 e)) ∙ dict_new k u rest d)
      ∙ get-put j k (merge_value (get k b) u) b
      ∙ rw e (
          ap (λ t. some (merge_value (get t b) u)) ((eq_iff k j).0 e)
          ∙ ap (λ t. some (merge_value (get j b) t)) (found_value j k u v rest e h))
  | inr e ↦
      get-merge j v (put k (merge_value (get k b) u) b) rest (dict_rest k u rest d)
        (rest_get k j u rest e ∙ h)
      ∙ ap (λ o. some (merge_value o v)) (get-put j k (merge_value (get k b) u) b ∙ rw e refl)
]

-- Every entry of the patch is in the document already, so that merging it again changes nothing.
abbrev Fixed : Fields → Fields → Type 0
Fixed m end = Unit
Fixed m (field k v rest) =
    ((w : Json) × (get k m ≡ some w) × (merge_value (some w) v ≡ w)) × Fixed m rest

merge-Fixed : (m p : Fields) → Fixed m p → merge m p ≡ m
unfolding merge
merge-Fixed m end f = refl
merge-Fixed m (field k v rest) ((w, g, e), f) =
    ap (λ x. merge x rest)
      (ap (λ o. put k (merge_value o v) m) g ∙ ap (λ t. put k t m) e ∙ put_same k w m g)
    ∙ merge-Fixed m rest f

-- A value merged into itself, and a patch into a document that has all its entries.
mutual
  unfolding merge_value is_dict_value is_dict

  self_value : (v : Json) → is_dict_value v ≡ true → merge_value (some v) v ≡ v
  self_value (obj q) d = ap obj (merge-Fixed q q (self-Fixed q q d (λ k v h. h)))
  self_value null d = refl
  self_value (bool b) d = refl
  self_value (num n) d = refl
  self_value (other_num s) d = refl
  self_value (text s) d = refl
  self_value (arr is) d = refl

  self-Fixed :
      (m q : Fields)
      → is_dict q ≡ true
      → ((k : String) (v : Json) → get k q ≡ some v → get k m ≡ some v)
      → Fixed m q
  self-Fixed m end d all = tt
  self-Fixed m (field k v rest) d all = (
    (v, all k v (head_get k v rest), self_value v (dict_value k v rest d)),
    self-Fixed m rest (dict_rest k v rest d)
        (λ j u h. all j u (later_get j k u v rest (dict_new k v rest d) h)),
  )

abbrev is_object : Json → Bool
is_object (obj p) = true
is_object _ = false

-- A value that is no object replaces what it is merged into.
replaces : (o : Option Json) (v : Json) → is_object v ≡ false → merge_value o v ≡ v
unfolding merge_value
replaces none v h = refl
replaces (some (obj b)) (obj p) h = ground arith
replaces (some (obj b)) null h = refl
replaces (some (obj b)) (bool x) h = refl
replaces (some (obj b)) (num x) h = refl
replaces (some (obj b)) (other_num x) h = refl
replaces (some (obj b)) (text x) h = refl
replaces (some (obj b)) (arr x) h = refl
replaces (some null) v h = refl
replaces (some (bool x)) v h = refl
replaces (some (num x)) v h = refl
replaces (some (other_num x)) v h = refl
replaces (some (text x)) v h = refl
replaces (some (arr x)) v h = refl

merge_other :
    (o : Option Json) (v : Json)
    → is_object v ≡ false
    → merge_value (some (merge_value o v)) v ≡ merge_value o v
merge_other o v h = replaces (some (merge_value o v)) v h ∙ sym (replaces o v h)

-- Merging a value again over what it made changes nothing.
mutual
  unfolding merge_value is_dict_value is_dict

  value_twice :
      (o : Option Json) (v : Json)
      → is_dict_value v ≡ true
      → merge_value (some (merge_value o v)) v ≡ merge_value o v
  value_twice (some (obj b)) (obj p) d =
      ap obj
        (merge-Fixed (merge b p) p (twice-Fixed b (merge b p) p d (λ k v h. get-merge k v b p d h)))
  value_twice (some null) (obj p) d = self_value (obj p) d
  value_twice (some (bool x)) (obj p) d = self_value (obj p) d
  value_twice (some (num x)) (obj p) d = self_value (obj p) d
  value_twice (some (other_num x)) (obj p) d = self_value (obj p) d
  value_twice (some (text x)) (obj p) d = self_value (obj p) d
  value_twice (some (arr x)) (obj p) d = self_value (obj p) d
  value_twice none (obj p) d = self_value (obj p) d
  value_twice o null d = merge_other o null refl
  value_twice o (bool x) d = merge_other o (bool x) refl
  value_twice o (num x) d = merge_other o (num x) refl
  value_twice o (other_num x) d = merge_other o (other_num x) refl
  value_twice o (text x) d = merge_other o (text x) refl
  value_twice o (arr x) d = merge_other o (arr x) refl

  twice-Fixed :
      (b m q : Fields)
      → is_dict q ≡ true
      → ((k : String) (v : Json) → get k q ≡ some v → get k m ≡ some (merge_value (get k b) v))
      → Fixed m q
  twice-Fixed b m end d all = tt
  twice-Fixed b m (field k v rest) d all = (
    (
      merge_value (get k b) v,
      all k v (head_get k v rest),
      value_twice (get k b) v (dict_value k v rest d),
    ),
    twice-Fixed b m rest (dict_rest k v rest d)
        (λ j u h. all j u (later_get j k u v rest (dict_new k v rest d) h)),
  )

-- Merging the same patch of preferences twice gives what merging it once gives.
pub merge_idem :
    (base patch : Fields) → is_dict patch ≡ true → merge (merge base patch) patch ≡ merge base patch
merge_idem base patch d =
    merge-Fixed (merge base patch) patch
      (twice-Fixed base (merge base patch) patch d (λ k v h. get-merge k v base patch d h))
