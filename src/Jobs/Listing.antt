-- ===== src/Jobs/Listing.antt =====
-- `InMemoryJobRepository.list`: src/shared/jobs/adapters/persistence/inmemory_job_repository.py.
use estate_os_service.Base.{
  ℕ, ◌+◌, ◌≤◌, zero, suc, Uuid, ◌≡◌, refl, Bool, true, false, Option, none, some, not, ◌==◌, List,
  [], ◌∷◌, arith, length, filter, take, leb, if◌then◌else◌,
}
use estate_os_service.Dict.{values_where}
use estate_os_service.Jobs.Model.{Job, JobStatus, JobKind, JobEntityType}
use estate_os_service.Jobs.Store.{
  Rows, if_given, status_in, kind_eq, entity_eq, insert_newest, newest_first, matching, list,
}

-- Whether every job is no newer than the one before it.
abbrev pub is_newest_first : List Job → Bool
is_newest_first [] = true
is_newest_first (j ∷ []) = true
is_newest_first (j ∷ k ∷ ks) =
    let rest = is_newest_first (k ∷ ks) in if leb k.created_at j.created_at then rest else false

insert_newest-sorted :
    (j : Job) (ks : List Job)
    → is_newest_first ks ≡ true
    → is_newest_first (insert_newest j ks) ≡ true
insert_newest-sorted j [] h = refl
insert_newest-sorted j (k ∷ []) h = ground arith
insert_newest-sorted j (k ∷ l ∷ ls) h = ground (arith, insert_newest-sorted j (l ∷ ls))

newest_first-sorted : (js : List Job) → is_newest_first (newest_first js) ≡ true
newest_first-sorted [] = refl
newest_first-sorted (j ∷ js) = insert_newest-sorted j (newest_first js) (newest_first-sorted js)

take-sorted :
    (n : ℕ) (js : List Job) → is_newest_first js ≡ true → is_newest_first (take n js) ≡ true
take-sorted zero js h = refl
take-sorted (suc n) [] h = refl
take-sorted (suc zero) (j ∷ js) h = refl
take-sorted (suc (suc n)) (j ∷ []) h = refl
take-sorted (suc (suc n)) (j ∷ k ∷ ks) h = ground (arith, take-sorted (suc n) (k ∷ ks))

count-insert_newest :
    (p : Job → Bool) (j : Job) (ks : List Job)
    → length (filter p (insert_newest j ks)) ≡ (if p j then 1 else 0) + length (filter p ks)
count-insert_newest p j [] = ground arith
count-insert_newest p j (k ∷ ks) = ground (arith, count-insert_newest p j ks)

count-newest_first :
    (p : Job → Bool) (js : List Job) → length (filter p (newest_first js)) ≡ length (filter p js)
count-newest_first p [] = refl
count-newest_first p (j ∷ js) =
    ground (arith, count-insert_newest p j (newest_first js), count-newest_first p js)

length-insert_newest : (j : Job) (ks : List Job) → length (insert_newest j ks) ≡ suc (length ks)
length-insert_newest j [] = refl
length-insert_newest j (k ∷ ks) = ground (arith, length-insert_newest j ks)

length-newest_first : (js : List Job) → length (newest_first js) ≡ length js
length-newest_first [] = refl
length-newest_first (j ∷ js) =
    ground (arith, length-insert_newest j (newest_first js), length-newest_first js)

length-take : (n : ℕ) (js : List Job) → length (take n js) ≤ n
length-take zero js = ground arith
length-take (suc n) [] = ground arith
length-take (suc n) (j ∷ js) = ground (arith, length-take n js)

take_all : (n : ℕ) (js : List Job) → length js ≤ n → take n js ≡ js
take_all zero [] h = refl
take_all zero (j ∷ js) h = ground arith
take_all (suc n) [] h = refl
take_all (suc n) (j ∷ js) h = ground (arith, take_all n js)

count-take :
    (p : Job → Bool) (n : ℕ) (js : List Job) → length (filter p (take n js)) ≤ length (filter p js)
count-take p zero js = ground arith
count-take p (suc n) [] = ground arith
count-take p (suc n) (j ∷ js) = ground (arith, count-take p n js)

count-filter :
    (p q : Job → Bool) (js : List Job) → length (filter p (filter q js)) ≤ length (filter p js)
count-filter p q [] = ground arith
count-filter p q (j ∷ js) = ground (arith, count-filter p q js)

count-if_given :
    {A : Type 0} (p : Job → Bool) (o : Option A) (q : A → Job → Bool) (js : List Job)
    → length (filter p (if_given o q js)) ≤ length (filter p js)
count-if_given p none q js = ground arith
count-if_given p (some a) q js = count-filter p (q a) js

abbrev pub is_foreign : Uuid → Job → Bool
is_foreign org j = not (j.organization_id == org)

count-values_where :
    (org : Uuid) (rows : Rows)
    → length (filter (is_foreign org) (values_where (λ j. j.organization_id == org) rows)) ≡ 0
count-values_where org [] = refl
count-values_where org ((i, j) ∷ rows) = ground (arith, count-values_where org rows)

module _ (org : Uuid) (statuses : Option (List JobStatus)) (kind : Option JobKind)
    (entity_type : Option JobEntityType) (entity_id : Option Uuid) (limit : ℕ) (rows : Rows) where
  count-matching :
      length (filter (is_foreign org) (matching org statuses kind entity_type entity_id rows)) ≡ 0
  unfolding matching
  count-matching =
      let r0 : List Job = values_where (λ j. j.organization_id == org) rows in
      let r1 : List Job = if_given statuses (λ ss j. status_in j.status ss) r0 in
      let r2 : List Job = if_given kind (λ k j. kind_eq j.kind k) r1 in
      let r3 : List Job = if_given entity_type (λ e j. entity_eq j.entity_type e) r2 in
      omega (
        arith,
        count-if_given (is_foreign org) entity_id (λ e j. j.entity_id == e) r3,
        count-if_given (is_foreign org) entity_type (λ e j. entity_eq j.entity_type e) r2,
        count-if_given (is_foreign org) kind (λ k j. kind_eq j.kind k) r1,
        count-if_given (is_foreign org) statuses (λ ss j. status_in j.status ss) r0,
        count-values_where org rows,
      )

  -- A listing is sorted newest first, has at most `limit` jobs, and none of another organization.
  pub list_sound :
      (is_newest_first (list org statuses kind entity_type entity_id limit rows) ≡ true)
      × (length (list org statuses kind entity_type entity_id limit rows) ≤ limit)
      × (length (filter (is_foreign org) (list org statuses kind entity_type entity_id limit rows))
          ≡ 0)
  unfolding list
  list_sound =
      let js : List Job = matching org statuses kind entity_type entity_id rows in
      (
        take-sorted limit (newest_first js) (newest_first-sorted js),
        length-take limit (newest_first js),
        omega (
          arith,
          count-take (is_foreign org) limit (newest_first js),
          count-newest_first (is_foreign org) js,
          count-matching,
        ),
      )

  -- If no more jobs match the filters than `limit`, the listing has each of them as often as the
  -- store has: every test on jobs counts the same in both.
  pub list_complete :
      (p : Job → Bool)
      → length (matching org statuses kind entity_type entity_id rows) ≤ limit
      → length (filter p (list org statuses kind entity_type entity_id limit rows))
        ≡ length (filter p (matching org statuses kind entity_type entity_id rows))
  unfolding list
  list_complete p h =
      let js : List Job = matching org statuses kind entity_type entity_id rows in
      rw (take_all limit (newest_first js) (ground (arith, length-newest_first js)))
        (count-newest_first p js)
