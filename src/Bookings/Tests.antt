-- ===== src/Bookings/Tests.antt =====
-- The bookings theorems at concrete tables: slot 1 of agent 7 in organization 9, applicant 4, and
-- booking 5.
use estate_os_service.Base.{◌≡◌, refl, none, some, [], ◌∷◌, ◌++◌, arith}
use estate_os_service.Exec.{ok, err}
use estate_os_service.Dict.{lookup, insert}
use estate_os_service.Bookings.Model.{
  Slot, SlotStatus, available, booked, Booking, BookingApplicant, low, integrity_error, forbidden,
  Error, ScreeningData, from_screening_event,
}
use estate_os_service.Bookings.Store.{
  World, booking_confirmed, in_uow, find_booking, find_by_external_id, create_applicant, commit,
  find_slot, mark_booked, create_booking, notify,
}
use estate_os_service.Bookings.Services.{booking_create, cancel_by_applicant, create_from_screening}
use estate_os_service.Bookings.Calls.{Call, perform, perform_all}
use estate_os_service.Bookings.Consistency.{IsConsistent}
use estate_os_service.Bookings.History.{perform_all-IsConsistent, perform_atomic}
use estate_os_service.Bookings.Outcomes.{
  booking_of, booking_create_succeeds, cancelled_slot_unbookable,
}
use estate_os_service.Bookings.Once.{booking_once}
use estate_os_service.Bookings.Screening.{IsScreened}

abbrev slot_in : SlotStatus → Slot
slot_in st = record {
  id = 1;
  property_id = 2;
  agent_user_id = 7;
  organization_id = 9;
  start_time = 100;
  end_time = 200;
  status = st;
  created_at = 10;
  updated_at = 10;
}

abbrev applicant : BookingApplicant
applicant = record {
  id = 4;
  external_id = 40;
  supabase_user_id = none;
  organization_id = 9;
  name = "Ana";
  email = "ana@example.com";
  risk_level = low;
  created_at = 10;
}

abbrev booking : Booking
booking = booking_of (slot_in available) 1 4 "morning" 5 20

abbrev free_world : World
free_world = record {
  tables = record {
    slots = (1, slot_in available) ∷ [];
    bookings = [];
    applicants = (4, applicant) ∷ [];
  };
  sent = [];
}

abbrev booked_world : World
booked_world = record {
  tables = record {
    slots = (1, slot_in booked) ∷ [];
    bookings = (5, booking) ∷ [];
    applicants = (4, applicant) ∷ [];
  };
  sent = [];
}

abbrev empty_world : World
empty_world = record { tables = record { slots = []; bookings = []; applicants = [] }; sent = [] }

abbrev event : ScreeningData
event = record {
  applicant_id = 40;
  organization_id = 9;
  name = "Ana";
  email = "ana@example.com";
  screening_risk_level = some "LOW";
  risk_level = none;
}

empty-IsConsistent : IsConsistent empty_world.tables
empty-IsConsistent = record { keyed = tt; one_row = λ k. ground arith; agrees = λ k. refl }

free-IsConsistent : IsConsistent free_world.tables
free-IsConsistent = record { keyed = tt; one_row = λ k. ground arith; agrees = λ k. ground arith }

empty-IsScreened : IsScreened empty_world.tables.applicants
empty-IsScreened = record { approved = λ i a h. ground arith; one_row = λ x. ground arith }

perform_all-IsConsistent_example :
    IsConsistent
      (perform_all
        (Call.book 1 4 "morning" 5 20 ∷ Call.applicant_cancels 5 4 30 ∷ Call.book 1 4 "" 6 40 ∷ [])
        free_world).tables
perform_all-IsConsistent_example =
    perform_all-IsConsistent
      (Call.book 1 4 "morning" 5 20 ∷ Call.applicant_cancels 5 4 30 ∷ Call.book 1 4 "" 6 40 ∷ [])
      free_world free-IsConsistent

stranger_refused : (perform (Call.applicant_cancels 5 8 30) booked_world).0 ≡ some forbidden
unfolding perform cancel_by_applicant in_uow find_booking
stranger_refused = refl

perform_atomic_example : (perform (Call.applicant_cancels 5 8 30) booked_world).1 ≡ booked_world
perform_atomic_example =
    perform_atomic (Call.applicant_cancels 5 8 30) booked_world stranger_refused

booking_create_succeeds_example : booking_create 1 4 "morning" 5 20 free_world ≡ (
  ok booking,
  record {
    tables = record free_world.tables {
      slots =
          insert 1
            (record (slot_in available) { status = booked; updated_at = 20 })
            free_world.tables.slots;
      bookings = insert 5 booking free_world.tables.bookings;
    };
    sent = free_world.sent ++ booking_confirmed booking ∷ [];
  },
)
booking_create_succeeds_example =
    booking_create_succeeds 1 4 "morning" 5 20 free_world (slot_in available) refl refl refl refl
      refl

-- The slot is booked, and the booking is cancelled by its applicant.
booking_once_example :
    let w' : World =
      perform_all
        (Call.applicant_cancels 5 4 25 ∷ [])
        (booking_create 1 4 "morning" 5 20 free_world).1 in
    (e : Error) × (booking_create 1 4 "again" 6 30 w' ≡ (err e, w'))
unfolding booking_create find_slot mark_booked create_booking in_uow commit notify
booking_once_example =
    booking_once 1 4 4 "morning" "again" 5 6 20 30 free_world
      (booking_of (slot_in available) 1 4 "morning" 5 20) (Call.applicant_cancels 5 4 25 ∷ []) refl

cancelled_slot_unbookable_example :
    let w' : World = (cancel_by_applicant 5 4 30 booked_world).1 in
    (lookup 1 w'.tables.slots
      ≡ some (record (slot_in booked) { status = available; updated_at = 30 }))
    × (booking_create 1 4 "again" 6 40 w' ≡ (err integrity_error, w'))
cancelled_slot_unbookable_example =
    cancelled_slot_unbookable booked_world booking (slot_in booked) 30 40 4 "again" 6 refl refl refl

event_accepted : (create_from_screening event 4 10 empty_world).0 ≡ ok applicant
unfolding create_from_screening in_uow find_by_external_id from_screening_event create_applicant
    commit
event_accepted = refl
