-- ===== src/Bookings/History.antt =====
-- Whole histories of calls, and calls that raise.
use estate_os_service.Base.{Uuid, Time, ◌≡◌, refl, some, List, [], ◌∷◌, arith}
use estate_os_service.Bookings.Model.{
  Booking, Error, cancelled_by_applicant, cancelled_by_agent, belongs_to_applicant,
  belongs_to_organization, ScreeningData,
}
use estate_os_service.Bookings.Store.{
  World, in_uow, commit, notify, find_slot, create_slot, mark_booked, mark_available,
  cancel_slot_row, create_booking, find_booking, find_by_slot_id, update_status,
  find_by_external_id, create_applicant,
}
use estate_os_service.Bookings.Services.{
  slot_create, slot_cancel, booking_create, cancel_by_applicant, cancel_by_agent,
  create_from_screening,
}
use estate_os_service.Bookings.Calls.{Call, perform, perform_all}
use estate_os_service.Bookings.Consistency.{IsConsistent}
use estate_os_service.Bookings.Consistency.Calls.{
  slot_create-IsConsistent, booking_create-IsConsistent, slot_cancel-IsConsistent,
  cancel_with-IsConsistent,
}

screening-IsConsistent :
    (d : ScreeningData) (fresh : Uuid) (now : Time) (w : World)
    → IsConsistent w.tables
    → IsConsistent (create_from_screening d fresh now w).1.tables
unfolding create_from_screening find_by_external_id create_applicant in_uow commit
screening-IsConsistent d fresh now w c = ground arith

-- Every call keeps the tables consistent, whether it returns or raises.
pub perform-IsConsistent :
    (call : Call) (w : World) → IsConsistent w.tables → IsConsistent (perform call w).1.tables
unfolding perform cancel_by_applicant cancel_by_agent
perform-IsConsistent (Call.new_slot p fresh now) w c =
    ground (arith, slot_create-IsConsistent p fresh now w c)
perform-IsConsistent (Call.drop_slot slot agent now) w c =
    ground (arith, slot_cancel-IsConsistent slot agent now w c)
perform-IsConsistent (Call.book slot a notes fresh now) w c =
    ground (arith, booking_create-IsConsistent slot a notes fresh now w c)
perform-IsConsistent (Call.applicant_cancels id a now) w c = ground (
  arith,
  cancel_with-IsConsistent id (λ (b : Booking). belongs_to_applicant b a) cancelled_by_applicant now
      w refl c,
)
perform-IsConsistent (Call.agent_cancels id org now) w c = ground (
  arith,
  cancel_with-IsConsistent id (λ (b : Booking). belongs_to_organization b org) cancelled_by_agent
      now w refl c,
)
perform-IsConsistent (Call.screen d fresh now) w c =
    ground (arith, screening-IsConsistent d fresh now w c)

-- Over any history of service calls from consistent tables, a slot is booked exactly when it has one
-- confirmed booking, and no slot has two.
pub perform_all-IsConsistent :
    (calls : List Call) (w : World)
    → IsConsistent w.tables
    → IsConsistent (perform_all calls w).tables
unfolding perform_all
perform_all-IsConsistent [] w c = c
perform_all-IsConsistent (call ∷ calls) w c =
    perform_all-IsConsistent calls (perform call w).1 (perform-IsConsistent call w c)

-- A call of a bookings service that raises has changed no table and sent no notice.
pub perform_atomic :
    (call : Call) (w : World) {e : Error} → (perform call w).0 ≡ some e → (perform call w).1 ≡ w
unfolding perform cancel_by_applicant cancel_by_agent slot_create slot_cancel booking_create
    create_from_screening create_slot find_slot find_booking find_by_slot_id in_uow commit notify
    mark_booked mark_available cancel_slot_row create_booking update_status find_by_external_id
    create_applicant
perform_atomic (Call.new_slot p fresh now) w h = ground arith
perform_atomic (Call.drop_slot slot agent now) w h = ground arith
perform_atomic (Call.book slot a notes fresh now) w h = ground arith
perform_atomic (Call.applicant_cancels id a now) w h = ground arith
perform_atomic (Call.agent_cancels id org now) w h = ground arith
perform_atomic (Call.screen d fresh now) w h = ground arith
