-- ===== src/Jobs/History.antt =====
-- Histories of the tracker's calls: src/shared/jobs/adapters/tracking/default_job_tracker.py.
use estate_os_service.Base.{
  ℕ, ◌≤◌, Uuid, Time, String, ◌≡◌, refl, ◌∙◌, ◌⊎◌, Option, none, some, arith, inl, inr,
  Option-cases, Bool-cases, is_some, leb, ◌==◌,
}
use estate_os_service.Exec.{Result, ok, err, Result-cases}
use estate_os_service.Json.{Json}
use estate_os_service.Dict.{lookup, insert, lookup-insert}
use estate_os_service.Jobs.Model.{
  Job, JobKind, JobEntityType, Error, is_terminal, mark_completed, mark_failed, update_entity_id,
}
use estate_os_service.Jobs.Store.{Rows, insert_job, update_job, get_by_id}
use estate_os_service.Jobs.Tracker.{
  summary_cap, truncated, enforce_summary_cap, start_job, complete_job, fail_job, repoint_job,
  change_job,
}

-- One call, which may return or raise; a start draws an id that is not in use.
pub data Step (encoded_bytes : Json → ℕ) (rows : Rows) : Rows → Type 0 where
  starts :
      (organization_id user_id : Uuid) (kind : JobKind) (entity_type : JobEntityType)
      (entity_id : Uuid) (title : String) (fresh : Uuid) (now : Time)
      → lookup fresh rows ≡ none
      → Step encoded_bytes rows
          (start_job organization_id user_id kind entity_type entity_id title fresh now rows).1
  completes :
      (id : Uuid) (summary : Option Json) (now : Time)
      → Step encoded_bytes rows (complete_job encoded_bytes id summary now rows).1
  fails :
      (id : Uuid) (code message : String) (now : Time)
      → Step encoded_bytes rows (fail_job id code message now rows).1
  repoints :
      (id entity_id : Uuid) (now : Time)
      → Step encoded_bytes rows (repoint_job id entity_id now rows).1

pub data Steps (encoded_bytes : Json → ℕ) (rows : Rows) : Rows → Type 0 where
  done : Steps encoded_bytes rows rows
  then_step :
      {rows' rows'' : Rows}
      → Steps encoded_bytes rows rows'
      → Step encoded_bytes rows' rows''
      → Steps encoded_bytes rows rows''

-- A stored summary is within the cap, or says that it was truncated.
abbrev pub IsCapped : (Json → ℕ) → Option Json → Type 0
IsCapped encoded_bytes none = Unit
IsCapped encoded_bytes (some s) = (encoded_bytes s ≤ summary_cap) ⊎ ((n : ℕ) × (s ≡ truncated n))

enforce-IsCapped :
    (encoded_bytes : Json → ℕ) (s : Option Json)
    → IsCapped encoded_bytes (enforce_summary_cap encoded_bytes s)
unfolding enforce_summary_cap
enforce-IsCapped encoded_bytes none = tt
enforce-IsCapped encoded_bytes (some s) = elim (Bool-cases (leb (encoded_bytes s) summary_cap)) [
  | inl e ↦ rw e (inl (ground arith))
  | inr e ↦ rw e (inr (encoded_bytes s, refl))
]

pub record IsSound (encoded_bytes : Json → ℕ) (i : Uuid) (j : Job) : Type 0 where
  pub own : j.id ≡ i
  pub timed : is_some j.completed_at ≡ is_terminal j.status
  pub capped : IsCapped encoded_bytes j.result_summary

-- Every job is stored under its id, has a completion time exactly when it is COMPLETED or FAILED,
-- and a capped summary.
abbrev pub AreSound : (Json → ℕ) → Rows → Type 0
AreSound encoded_bytes rows =
    (i : Uuid) (j : Job) → lookup i rows ≡ some j → IsSound encoded_bytes i j

insert-AreSound :
    (encoded_bytes : Json → ℕ) (i : Uuid) (j : Job) (rows : Rows)
    → AreSound encoded_bytes rows
    → IsSound encoded_bytes i j
    → AreSound encoded_bytes (insert i j rows)
insert-AreSound encoded_bytes i j rows all one k l h = elim (Bool-cases (i == k)) [
  | inl e ↦ ground (arith, lookup-insert i k j rows)
  | inr e ↦ all k l (ground (arith, lookup-insert i k j rows))
]

module _ (encoded_bytes : Json → ℕ) where
  complete-IsSound :
      (i : Uuid) (j j' : Job) (s : Option Json) (now : Time)
      → IsSound encoded_bytes i j
      → IsCapped encoded_bytes s
      → mark_completed s now j ≡ ok j'
      → IsSound encoded_bytes i j'
  unfolding mark_completed
  complete-IsSound i j j' s now o c h = ground (arith, o.own, o.timed, o.capped)

  fail-IsSound :
      (i : Uuid) (j j' : Job) (code message : String) (now : Time)
      → IsSound encoded_bytes i j
      → mark_failed code message now j ≡ ok j'
      → IsSound encoded_bytes i j'
  unfolding mark_failed
  fail-IsSound i j j' code message now o h = ground (arith, o.own, o.timed, o.capped)

  repoint-IsSound :
      (i : Uuid) (j j' : Job) (entity_id : Uuid) (now : Time)
      → IsSound encoded_bytes i j
      → update_entity_id entity_id now j ≡ ok j'
      → IsSound encoded_bytes i j'
  unfolding update_entity_id
  repoint-IsSound i j j' entity_id now o h = ground (arith, o.own, o.timed, o.capped)

-- A change that raises stores nothing; one that returns stores the job under its id.
pub change_raises :
    (change : Job → Result Error Job) (id : Uuid) (rows : Rows) (j : Job) (x : Error)
    → lookup id rows ≡ some j
    → change j ≡ err x
    → change_job change id rows ≡ (err x, rows)
unfolding change_job get_by_id
change_raises change id rows j x e h = ground arith

pub change_stores :
    (change : Job → Result Error Job) (id : Uuid) (rows : Rows) (j j' : Job)
    → lookup id rows ≡ some j
    → change j ≡ ok j'
    → j'.id ≡ id
    → change_job change id rows ≡ (ok tt, insert id j' rows)
unfolding change_job get_by_id update_job
change_stores change id rows j j' e h own = ground arith

change_misses :
    (change : Job → Result Error Job) (id : Uuid) (rows : Rows)
    → lookup id rows ≡ none
    → (change_job change id rows).1 ≡ rows
unfolding change_job get_by_id
change_misses change id rows e = ground arith

module _ (encoded_bytes : Json → ℕ) where
  change-AreSound :
      (change : Job → Result Error Job) (id : Uuid) (rows : Rows)
      → AreSound encoded_bytes rows
      → ((j j' : Job) → IsSound encoded_bytes id j → change j ≡ ok j' → IsSound encoded_bytes id j')
      → AreSound encoded_bytes (change_job change id rows).1
  change-AreSound change id rows all keeps = elim (Option-cases (lookup id rows)) [
    | inl e ↦ rw (change_misses change id rows e) all
    | inr (j, e) ↦ elim (Result-cases (change j)) [
      | inl (j', h) ↦
          let one : IsSound encoded_bytes id j' = keeps j j' (all id j e) h in
          rw (change_stores change id rows j j' e h one.own)
            (insert-AreSound encoded_bytes id j' rows all one)
      | inr (x, h) ↦ rw (change_raises change id rows j x e h) all
    ]
  ]

  step-AreSound :
      (rows rows' : Rows)
      → Step encoded_bytes rows rows'
      → AreSound encoded_bytes rows
      → AreSound encoded_bytes rows'
  unfolding start_job insert_job complete_job fail_job repoint_job
  step-AreSound rows _ (starts o u k t e title fresh now new) all =
      insert-AreSound encoded_bytes fresh _ rows all
        (record { own = refl; timed = refl; capped = tt })
  step-AreSound rows _ (completes id s now) all =
      change-AreSound (mark_completed (enforce_summary_cap encoded_bytes s) now) id rows all
        (λ j j' o h.
          complete-IsSound encoded_bytes id j j' (enforce_summary_cap encoded_bytes s) now o
            (enforce-IsCapped encoded_bytes s) h)
  step-AreSound rows _ (fails id code message now) all =
      change-AreSound (mark_failed code message now) id rows all
        (λ j j' o h. fail-IsSound encoded_bytes id j j' code message now o h)
  step-AreSound rows _ (repoints id entity_id now) all =
      change-AreSound (update_entity_id entity_id now) id rows all
        (λ j j' o h. repoint-IsSound encoded_bytes id j j' entity_id now o h)

-- Any history of calls keeps every job stored under its id, with a completion time exactly when it
-- is COMPLETED or FAILED, and with a summary that is within the cap or says that it was truncated.
pub steps-AreSound :
    (encoded_bytes : Json → ℕ) (rows rows' : Rows)
    → Steps encoded_bytes rows rows'
    → AreSound encoded_bytes rows
    → AreSound encoded_bytes rows'
steps-AreSound encoded_bytes rows _ done all = all
steps-AreSound encoded_bytes rows rows'' (then_step {rows'} ss s) all =
    step-AreSound encoded_bytes rows' rows'' s (steps-AreSound encoded_bytes rows rows' ss all)

-- What each method does to a job that is COMPLETED or FAILED: it returns it as it is, or raises.
pub terminal_kept :
    (change : Job → Result Error Job) (id : Uuid) (rows : Rows) (i : Uuid) (job : Job)
    → lookup i rows ≡ some job
    → job.id ≡ i
    → ((j : Job) → change job ≡ ok j → j ≡ job)
    → ((j j' : Job) → change j ≡ ok j' → j'.id ≡ j.id)
    → ((k : Uuid) (j : Job) → lookup k rows ≡ some j → j.id ≡ k)
    → lookup i (change_job change id rows).1 ≡ some job
terminal_kept change id rows i job h own stays same keyed = elim (Option-cases (lookup id rows)) [
  | inl e ↦ rw (change_misses change id rows e) h
  | inr (j, e) ↦ elim (Result-cases (change j)) [
    | inr (x, r) ↦ rw (change_raises change id rows j x e r) h
    | inl (j', r) ↦
        rw (change_stores change id rows j j' e r (same j j' r ∙ keyed id j e))
          (elim (Bool-cases (id == i)) [
            | inl is ↦ ground (arith, lookup-insert id i j' rows, stays j')
            | inr isnt ↦ ground (arith, lookup-insert id i j' rows)
          ])
  ]
]
