-- ===== src/Jobs/Tests.antt =====
-- The jobs theorems at a processing job 1 and a failed job 2 of organization 7.
use estate_os_service.Base.{
  ℕ, ◌≤◌, ◌≡◌, refl, none, some, [], ◌∷◌, arith, length, ◌==◌, inl, inr, Bool-cases,
}
use estate_os_service.Json.{Json, text}
use estate_os_service.Dict.{lookup}
use estate_os_service.Jobs.Model.{Job, failed, contract_analysis, contract}
use estate_os_service.Jobs.Store.{Rows, matching}
use estate_os_service.Jobs.Tracker.{new_job, complete_job}
use estate_os_service.Jobs.History.{Steps, done, then_step, completes, AreSound, steps-AreSound}
use estate_os_service.Jobs.Final.{terminal_job_final}

-- Every summary is taken to be longer than the cap.
abbrev bytes : Json → ℕ
bytes s = 5000

abbrev running : Job
running = new_job 7 8 contract_analysis contract 9 "Analysis" 1 100

abbrev broken : Job
broken = record (new_job 7 8 contract_analysis contract 9 "Analysis" 2 200) {
  status = failed;
  error_code = some "timeout";
  completed_at = some 300;
}

abbrev rows : Rows
rows = (1, running) ∷ (2, broken) ∷ []

rows-AreSound : AreSound bytes rows
rows-AreSound i j h = elim (Bool-cases (1 == i)) [
  | inl e ↦ record {
    own = ground (arith, h);
    timed = ground (arith, h);
    capped = ground (arith, h);
  }
  | inr e ↦ record {
    own = ground (arith, h);
    timed = ground (arith, h);
    capped = ground (arith, h);
  }
]

abbrev after_two : Rows
after_two = (complete_job bytes 2 none 400 (complete_job bytes 1 (some (text "long")) 400 rows).1).1

abbrev two_steps : Steps bytes rows after_two
two_steps = then_step (then_step done (completes 1 (some (text "long")) 400)) (completes 2 none 400)

steps-AreSound_example : AreSound bytes after_two
steps-AreSound_example = steps-AreSound bytes rows after_two two_steps rows-AreSound

terminal_job_final_example : lookup 2 after_two ≡ some broken
terminal_job_final_example =
    terminal_job_final bytes 2 broken rows after_two refl rows-AreSound refl two_steps

few : length (matching 7 (some (failed ∷ [])) none none none rows) ≤ 10
unfolding matching
few = ground arith
