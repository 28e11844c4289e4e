-- ===== src/Bookings/Calls.antt =====
-- Calls of the services of src/bookings/application/services, and histories of calls.
use estate_os_service.Base.{Uuid, Time, String, Option, none, some, List, [], ◌∷◌}
use estate_os_service.Exec.{Result, ok, err}
use estate_os_service.Bookings.Model.{Error, CreateSlotParams, ScreeningData}
use estate_os_service.Bookings.Store.{World}
use estate_os_service.Bookings.Services.{
  slot_create, slot_cancel, booking_create, cancel_by_applicant, cancel_by_agent,
  create_from_screening,
}

-- One call of a service method that writes, with its arguments and what it draws.
pub data Call : Type 0 where
  new_slot : CreateSlotParams → Uuid → Time → Call
  drop_slot : Uuid → Uuid → Time → Call
  book : Uuid → Uuid → String → Uuid → Time → Call
  applicant_cancels agent_cancels : Uuid → Uuid → Time → Call
  screen : ScreeningData → Uuid → Time → Call

abbrev pub raised : {A : Type 0} → Result Error A × World → Option Error × World
raised (ok a, w) = (none, w)
raised (err e, w) = (some e, w)

unfoldable pub perform : Call → World → Option Error × World
perform (new_slot p fresh now) w = raised (slot_create p fresh now w)
perform (drop_slot slot agent now) w = raised (slot_cancel slot agent now w)
perform (book slot a notes fresh now) w = raised (booking_create slot a notes fresh now w)
perform (applicant_cancels id a now) w = raised (cancel_by_applicant id a now w)
perform (agent_cancels id org now) w = raised (cancel_by_agent id org now w)
perform (screen d fresh now) w = raised (create_from_screening d fresh now w)

-- A history of calls; a call that raises ends only itself.
unfoldable pub perform_all : List Call → World → World
perform_all [] w = w
perform_all (c ∷ cs) w = perform_all cs (perform c w).1
