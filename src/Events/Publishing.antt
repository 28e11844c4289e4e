-- ===== src/Events/Publishing.antt =====
-- What `publish_with_retry` does: src/shared/events/adapters/_publish_retry.py.
use estate_os_service.Base.{
  ℕ, ◌+◌, ◌-◌, take, ◌≤◌, ◌<◌, ◌≡◌, Bool, true, false, [], ◌∷◌, arith, inl, inr, if◌then◌else◌,
}
use estate_os_service.Exec.{Result, ok, err, Exec, Result-cases}
use estate_os_service.Events.Retry.{
  Failure, is_retriable, PublishError, reraised, publish_failed_after_retry, backoff,
  publish_with_retry,
}

-- A body that answers each call in turn, and the number of calls that it has had.
abbrev pub scripted : (ℕ → Result Failure (Unit {0})) → Exec Failure ℕ (Unit {0})
scripted script calls = (script calls, calls + 1)

-- A failure after which the publish may be tried again.
abbrev pub is_transient : Result Failure (Unit {0}) → Bool
is_transient (ok u) = false
is_transient (err f) = is_retriable f

-- How a publish ends by the answer to its last call.
abbrev pub verdict : Result Failure (Unit {0}) → Result PublishError (Unit {0})
verdict (ok u) = ok tt
verdict (err f) = err (if is_retriable f then publish_failed_after_retry 3 else reraised f)

-- Whatever the broker answers, a publish ends after at most three calls, with the sleeps of 500 and
-- 1000 milliseconds between them. Every call but the last one failed in a way that may be retried;
-- the last one did so only if it was the third. The publish returns if the last call succeeded,
-- raises that call's failure again if it may not be retried, and gives up otherwise.
pub publish_bounded :
    (script : ℕ → Result Failure (Unit {0}))
    → let (r, p) = publish_with_retry (scripted script) (record { broker = 0; sleeps = [] }) in
      (1 ≤ p.broker)
      × (p.broker ≤ 3)
      × (p.sleeps ≡ take (p.broker - 1) (500 ∷ 1000 ∷ []))
      × (r ≡ verdict (script (p.broker - 1)))
      × (is_transient (script (p.broker - 1)) ≡ true → p.broker ≡ 3)
      × ((j : ℕ) → j + 1 < p.broker → is_transient (script j) ≡ true)
unfolding publish_with_retry backoff
publish_bounded script = elim (Result-cases (script 0)) [
  | inl (u, e) ↦ ground arith
  | inr (f, e) ↦ elim (Result-cases (script 1)) [
    | inl (u, e') ↦ ground arith
    | inr (g, e') ↦ elim (Result-cases (script 2)) [
      | inl (u, e'') ↦ ground arith
      | inr (h, e'') ↦ ground arith
    ]
  ]
]
