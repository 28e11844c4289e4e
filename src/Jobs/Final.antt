-- ===== src/Jobs/Final.antt =====
-- Jobs that have ended: src/shared/jobs/domain/job.py and the tracker's calls.
use estate_os_service.Base.{ℕ, String, false, Uuid, Time, ◌≡◌, refl, true, Option, some, arith}
use estate_os_service.Exec.{ok, err}
use estate_os_service.Json.{Json}
use estate_os_service.Dict.{lookup, insert, lookup-insert, insert_same}
use estate_os_service.Jobs.Model.{
  Job, is_terminal, completed, mark_completed, mark_failed, update_entity_id,
  invalid_job_transition,
}
use estate_os_service.Jobs.Store.{Rows, insert_job}
use estate_os_service.Jobs.Tracker.{
  enforce_summary_cap, new_job, start_job, complete_job, fail_job, repoint_job,
}
use estate_os_service.Jobs.History.{
  Step, starts, completes, fails, repoints, Steps, done, then_step, AreSound, steps-AreSound,
  terminal_kept, change_stores, change_raises,
}

module _ (encoded_bytes : Json → ℕ) (i : Uuid) (job : Job)
    (ended : is_terminal job.status ≡ true) where
  step_final :
      (rows rows' : Rows)
      → Step encoded_bytes rows rows'
      → AreSound encoded_bytes rows
      → lookup i rows ≡ some job
      → lookup i rows' ≡ some job
  unfolding start_job insert_job complete_job fail_job repoint_job mark_completed mark_failed
      update_entity_id
  step_final rows _ (starts o u k t e title fresh now new) all h =
      ground (arith, lookup-insert fresh i (new_job o u k t e title fresh now) rows)
  step_final rows _ (completes id s now) all h =
      terminal_kept (mark_completed (enforce_summary_cap encoded_bytes s) now) id rows i job h
        (all i job h).own (λ j r. ground arith) (λ j j' r. ground arith) (λ k j e. (all k j e).own)
  step_final rows _ (fails id code message now) all h =
      terminal_kept (mark_failed code message now) id rows i job h (all i job h).own
        (λ j r. ground arith) (λ j j' r. ground arith) (λ k j e. (all k j e).own)
  step_final rows _ (repoints id entity_id now) all h =
      terminal_kept (update_entity_id entity_id now) id rows i job h (all i job h).own
        (λ j r. ground arith) (λ j j' r. ground arith) (λ k j e. (all k j e).own)

-- A stored job that is COMPLETED or FAILED is never changed again, by any history of calls on any
-- jobs, from rows that are sound.
pub terminal_job_final :
    (encoded_bytes : Json → ℕ) (i : Uuid) (job : Job) (rows rows' : Rows)
    → is_terminal job.status ≡ true
    → AreSound encoded_bytes rows
    → lookup i rows ≡ some job
    → Steps encoded_bytes rows rows'
    → lookup i rows' ≡ some job
terminal_job_final encoded_bytes i job rows _ ended all h done = h
terminal_job_final encoded_bytes i job rows rows'' ended all h (then_step {rows'} ss s) =
    step_final encoded_bytes i job ended rows' rows'' s
      (steps-AreSound encoded_bytes rows rows' ss all)
      (terminal_job_final encoded_bytes i job rows rows' ended all h ss)

-- Completing a job that has not ended returns, and completing it again returns and changes
-- nothing, whatever the second summary; failing it then raises.
pub complete_job_idem :
    (encoded_bytes : Json → ℕ) (id : Uuid) (s s' : Option Json) (code message : String)
    (now later : Time) (rows : Rows) (job : Job)
    → lookup id rows ≡ some job
    → job.id ≡ id
    → is_terminal job.status ≡ false
    → let (r, rows') = complete_job encoded_bytes id s now rows in
      (r ≡ ok tt)
      × (complete_job encoded_bytes id s' later rows' ≡ (ok tt, rows'))
      × (fail_job id code message later rows' ≡ (err (invalid_job_transition id), rows'))
unfolding complete_job fail_job mark_completed mark_failed
complete_job_idem encoded_bytes id s s' code message now later rows job h own going =
    let j : Job = record job {
      status = completed;
      result_summary = enforce_summary_cap encoded_bytes s;
      completed_at = some now;
      updated_at = now;
    } in
    let rows' : Rows = insert id j rows in
    let found : lookup id rows' ≡ some j = ground (arith, lookup-insert id id j rows) in
    let first : complete_job encoded_bytes id s now rows ≡ (ok tt, rows') =
      change_stores (mark_completed (enforce_summary_cap encoded_bytes s) now) id rows job j h
        (ground arith) own in
    let again : complete_job encoded_bytes id s' later rows' ≡ (ok tt, rows') =
      rw
        (
          change_stores (mark_completed (enforce_summary_cap encoded_bytes s') later) id rows' j j
              found refl own,
          insert_same id j rows' found,
        )
        refl in
    let refused : fail_job id code message later rows' ≡ (err (invalid_job_transition id), rows') =
      rw
        (
          change_raises (mark_failed code message later) id rows' j (invalid_job_transition job.id)
              found refl,
          own,
        )
        refl in
    rw first (refl, again, refused)
