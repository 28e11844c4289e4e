-- ===== src/Bookings/Outcomes.antt =====
-- What a booking, a cancellation and a screening do to the tables.
use estate_os_service.Base.{
  Uuid, Time, String, ◌≡◌, ◌≢◌, refl, true, none, some, [], ◌∷◌, ◌++◌, arith, is_some,
}
use estate_os_service.Exec.{ok, err}
use estate_os_service.Dict.{Dict, lookup, insert, lookup-insert}
use estate_os_service.Bookings.Model.{
  Slot, available, booked, Booking, confirmed, cancelled_by_applicant, integrity_error,
}
use estate_os_service.Bookings.Store.{
  Tables, World, booking_confirmed, booking_cancelled, in_uow, commit, notify, find_slot,
  mark_booked, mark_available, create_booking, find_booking, update_status,
}
use estate_os_service.Bookings.Services.{booking_create, cancel_by_applicant}
use estate_os_service.Bookings.Rows.{rows_for}

-- The row that `BookingService.create` stores.
abbrev pub booking_of : Slot → Uuid → Uuid → String → Uuid → Time → Booking
booking_of slot slot_id applicant_id notes fresh now = record {
  id = fresh;
  slot_id = slot_id;
  applicant_id = applicant_id;
  property_id = slot.property_id;
  organization_id = slot.organization_id;
  status = confirmed;
  notes = notes;
  created_at = now;
  updated_at = now;
}

-- A known applicant who asks for an available slot that was never booked gets it: the call
-- returns the confirmed booking, stores it, marks exactly that slot as booked, and sends one
-- confirmation.
pub booking_create_succeeds :
    (slot_id a : Uuid) (notes : String) (fresh : Uuid) (now : Time) (w : World) (s : Slot)
    → lookup slot_id w.tables.slots ≡ some s
    → s.status ≡ available
    → rows_for slot_id w.tables.bookings ≡ []
    → lookup fresh w.tables.bookings ≡ none
    → is_some (lookup a w.tables.applicants) ≡ true
    → booking_create slot_id a notes fresh now w ≡ (
      ok (booking_of s slot_id a notes fresh now),
      record {
        tables = record w.tables {
          slots = insert slot_id (record s { status = booked; updated_at = now }) w.tables.slots;
          bookings = insert fresh (booking_of s slot_id a notes fresh now) w.tables.bookings;
        };
        sent = w.sent ++ booking_confirmed (booking_of s slot_id a notes fresh now) ∷ [];
      },
    )
unfolding booking_create find_slot mark_booked create_booking in_uow commit notify
booking_create_succeeds slot_id a notes fresh now w s es av rows new known = ground (
  arith,
  lookup-insert slot_id slot_id (record s { status = booked; updated_at = now }) w.tables.slots,
)

-- The tables after a confirmed booking `b` with slot `s` has been cancelled by its applicant.
abbrev pub after_cancel : Tables → Booking → Slot → Time → Tables
after_cancel t b s now = record t {
  slots = insert b.slot_id (record s { status = available; updated_at = now }) t.slots;
  bookings =
      insert b.id (record b { status = cancelled_by_applicant; updated_at = now }) t.bookings;
}

-- The applicant of a confirmed booking can cancel it: the booking is marked, its slot is
-- available again, every other row stays, and one cancellation is sent.
pub cancel_by_applicant_succeeds :
    (w : World) (b : Booking) (s : Slot) (now : Time)
    → lookup b.id w.tables.bookings ≡ some b
    → b.status ≡ confirmed
    → lookup b.slot_id w.tables.slots ≡ some s
    → cancel_by_applicant b.id b.applicant_id now w ≡ (
      ok tt,
      record { tables = after_cancel w.tables b s now; sent = w.sent ++ booking_cancelled b ∷ [] },
    )
unfolding cancel_by_applicant find_booking update_status mark_available in_uow commit notify
cancel_by_applicant_succeeds w b s now eb cb es = ground arith

-- An insert under a known key keeps a row for the slot of that row.
rows_for-insert_nonempty :
    (i k : Uuid) (b b' : Booking) (d : Dict Booking)
    → lookup i d ≡ some b
    → b'.slot_id ≡ k
    → rows_for k (insert i b' d) ≢ []
rows_for-insert_nonempty i k b b' [] h e = ground arith
rows_for-insert_nonempty i k b b' ((j, c) ∷ d) h e =
    ground (arith, rows_for-insert_nonempty i k b b' d)

-- A slot that is available but has a row in the bookings table cannot be booked.
booking_create_blocked :
    (slot_id a : Uuid) (notes : String) (fresh : Uuid) (now : Time) (w : World) (s : Slot)
    → lookup slot_id w.tables.slots ≡ some s
    → s.status ≡ available
    → rows_for slot_id w.tables.bookings ≢ []
    → booking_create slot_id a notes fresh now w ≡ (err integrity_error, w)
unfolding booking_create find_slot mark_booked create_booking in_uow
booking_create_blocked slot_id a notes fresh now w s es av old = ground arith

-- After its applicant has cancelled a confirmed booking, the slot is available, but nobody can book
-- it: the cancelled row still holds the slot's unique key, so an attempt on the tables that the
-- cancellation leaves, by whatever applicant, ends in the database's integrity error and changes
-- nothing.
pub cancelled_slot_unbookable :
    (w : World) (b : Booking) (s : Slot) (now later : Time) (a : Uuid) (notes : String)
    (fresh : Uuid)
    → lookup b.id w.tables.bookings ≡ some b
    → b.status ≡ confirmed
    → lookup b.slot_id w.tables.slots ≡ some s
    → let w' : World = (cancel_by_applicant b.id b.applicant_id now w).1 in
      (lookup b.slot_id w'.tables.slots ≡ some (record s { status = available; updated_at = now }))
      × (booking_create b.slot_id a notes fresh later w' ≡ (err integrity_error, w'))
cancelled_slot_unbookable w b s now later a notes fresh eb cb es =
    rw (cancel_by_applicant_succeeds w b s now eb cb es) (
      free,
      booking_create_blocked b.slot_id a notes fresh later
          (record {
            tables = after_cancel w.tables b s now;
            sent = w.sent ++ booking_cancelled b ∷ [];
          })
          s' free refl
          (rows_for-insert_nonempty b.id b.slot_id b
            (record b { status = cancelled_by_applicant; updated_at = now }) w.tables.bookings eb
            refl),
    )
  where
    s' : Slot
    s' = record s { status = available; updated_at = now }

    free : lookup b.slot_id (insert b.slot_id s' w.tables.slots) ≡ some s'
    free = ground (arith, lookup-insert b.slot_id b.slot_id s' w.tables.slots)
