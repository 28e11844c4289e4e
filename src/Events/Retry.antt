-- ===== src/Events/Retry.antt =====
-- src/shared/events/adapters/_publish_retry.py. What `body_fn` does to the broker is a parameter;
-- the state also keeps the sleeps, in milliseconds. Log lines are left out.
use estate_os_service.Base.{
  ℕ, ◌+◌, ◌-◌, zero, suc, Bool, true, false, List, [], ◌∷◌, ◌++◌, ◌==◌, if◌then◌else◌,
}
use estate_os_service.Exec.{Result, ok, err, Exec}

-- The classes of exceptions that the `except` clauses tell apart, each by the first clause that
-- takes it; `runtime_error` says whether its text has the marker "Connection was not opened".
pub data Failure : Type 0 where
  probable_authentication delivery channel channel_invalid_state connection : Failure
  runtime_error : Bool → Failure
  other : Failure

unfoldable pub is_retriable : Failure → Bool
is_retriable probable_authentication = false
is_retriable delivery = false
is_retriable channel = false
is_retriable channel_invalid_state = true
is_retriable connection = true
is_retriable (runtime_error not_opened) = not_opened
is_retriable other = false

pub data PublishError : Type 0 where
  reraised : Failure → PublishError
  publish_failed_after_retry : ℕ → PublishError

-- `_BACKOFFS_SECONDS`
unfoldable pub backoff : ℕ → ℕ
backoff zero = 500
backoff (suc zero) = 1000
backoff (suc (suc n)) = 2000

-- `_MAX_ATTEMPTS`
abbrev pub max_attempts : ℕ
max_attempts = 3

pub record Publisher (B : Type 0) : Type 0 where
  pub broker : B
  pub sleeps : List ℕ

abbrev pub Publish : Type 0 → Type 0
Publish B = Exec PublishError (Publisher B) (Unit {0})

module _ {B : Type 0} where
  -- After a retriable failure: the last attempt gives up, another one sleeps and goes on.
  abbrev pub next_attempt : ℕ → Publish B → Publish B
  next_attempt attempt again p =
      let slept = again (record p { sleeps = p.sleeps ++ backoff (attempt - 1) ∷ [] }) in
      if attempt == max_attempts then (err (publish_failed_after_retry max_attempts), p) else slept

  abbrev pub handle_failure :
      ℕ → Publish B → Failure → Publisher B → Result PublishError (Unit {0}) × Publisher B
  handle_failure attempt again f p =
      let next = next_attempt attempt again p in
      if is_retriable f then next else (err (reraised f), p)

  abbrev pub after_attempt :
      ℕ
      → Publish B
      → Result Failure (Unit {0}) × B
      → Publisher B
      → Result PublishError (Unit {0}) × Publisher B
  after_attempt attempt again (ok u, b) p = (ok tt, record p { broker = b })
  after_attempt attempt again (err f, b) p =
      handle_failure attempt again f (record p { broker = b })

  -- The loop from one attempt on, with how many attempts are left.
  unfoldable pub attempts_from : ℕ → ℕ → Exec Failure B (Unit {0}) → Publish B
  attempts_from zero attempt body p = (err (publish_failed_after_retry max_attempts), p)
  attempts_from (suc left) attempt body p =
      after_attempt attempt (attempts_from left (attempt + 1) body) (body p.broker) p

  -- `publish_with_retry`
  unfoldable pub publish_with_retry : Exec Failure B (Unit {0}) → Publish B
  unfolding attempts_from
  publish_with_retry body = attempts_from max_attempts 1 body
