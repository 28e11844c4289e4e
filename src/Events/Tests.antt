-- ===== src/Events/Tests.antt =====
-- The transport theorems at scripted brokers and at a consumer with three messages.
use estate_os_service.Base.{
  ℕ, ◌+◌, ◌-◌, ◌≤◌, ◌<◌, zero, suc, ◌≡◌, refl, true, [], ◌∷◌, take, String,
}
use estate_os_service.Exec.{Result, ok, err}
use estate_os_service.Json.{null}
use estate_os_service.Events.Retry.{Failure, connection, channel_invalid_state, publish_with_retry}
use estate_os_service.Events.Publishing.{scripted, is_transient, verdict, publish_bounded}
use estate_os_service.Events.Bus.{
  DomainEvent, Message, Handlers, Consumer, dispatch, process_message, process_all, poll_once,
}

-- Two lost connections, then success.
abbrev flaky : ℕ → Result Failure (Unit {0})
flaky zero = err connection
flaky (suc zero) = err channel_invalid_state
flaky (suc (suc n)) = ok tt

publish_bounded_example :
    let (r, p) = publish_with_retry (scripted flaky) (record { broker = 0; sleeps = [] }) in
    (1 ≤ p.broker)
    × (p.broker ≤ 3)
    × (p.sleeps ≡ take (p.broker - 1) (500 ∷ 1000 ∷ []))
    × (r ≡ verdict (flaky (p.broker - 1)))
    × (is_transient (flaky (p.broker - 1)) ≡ true → p.broker ≡ 3)
    × ((j : ℕ) → j + 1 < p.broker → is_transient (flaky j) ≡ true)
publish_bounded_example = publish_bounded flaky

abbrev event_of : String → DomainEvent
event_of t = record { event_type = t; payload = null; event_id = "e"; occurred_at = "now" }

abbrev message : String → ℕ → Message
message t i = record { event = event_of t; message_id = i }

abbrev queue : Consumer ℕ
queue = record {
  pending = message "A" 1 ∷ message "B" 2 ∷ message "C" 3 ∷ [];
  acked = [];
  next_id = 3;
  context = 0;
}

-- "A" is counted, and "B" always raises.
abbrev half_broken : Handlers String ℕ
half_broken = ("A", (λ e c. (ok tt, c + 1)) ∷ []) ∷ ("B", (λ e c. (err "boom", c)) ∷ []) ∷ []

-- "B" raised and waits behind "C", and "A" is acknowledged.
settled_queue :
    ((poll_once half_broken 2 queue).pending ≡ message "C" 3 ∷ message "B" 2 ∷ [])
    × ((poll_once half_broken 2 queue).acked ≡ 1 ∷ [])
unfolding poll_once process_all process_message dispatch
settled_queue = (refl, refl)
