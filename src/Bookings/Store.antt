-- ===== src/Bookings/Store.antt =====
-- The unit of work and the SQL repositories of src/bookings/adapters/database. A session works on
-- a copy of the tables; `commit` makes the copy durable and leaving the block drops what was not
-- committed. A table maps primary keys to rows; an insert checks the keys that models.py declares.
use estate_os_service.Base.{
  Uuid, Time, Bool, true, false, not, Option, none, some, List, [], ◌∷◌, ◌++◌, ◌||◌, ◌==◌, is_some,
  if◌then◌else◌,
}
use estate_os_service.Exec.{Result, ok, err, Exec}
use estate_os_service.Dict.{Dict, lookup, insert, values_where}
use estate_os_service.Bookings.Model.{
  Slot, SlotStatus, available, booked, cancelled, Booking, BookingStatus, BookingApplicant, Error,
  integrity_error, multiple_rows, is_available,
}

pub record Tables : Type 0 where
  pub slots : Dict Slot
  pub bookings : Dict Booking
  pub applicants : Dict BookingApplicant

pub record Session : Type 0 where
  pub durable : Tables
  pub working : Tables

-- What the notifier has been given, in order.
pub data Notice : Type 0 where
  booking_confirmed booking_cancelled : Booking → Notice
  slot_cancelled : Slot → Option Booking → Notice

pub record World : Type 0 where
  pub tables : Tables
  pub sent : List Notice

abbrev pub Query : Type 0 → Type 0
Query A = Exec Error Session A

abbrev pub Service : Type 0 → Type 0
Service A = Exec Error World A

-- `async with self._uow: …`
unfoldable pub in_uow : {A : Type 0} → Query A → Service A
in_uow m w =
    let (r, s) = m (record { durable = w.tables; working = w.tables }) in
    (r, record w { tables = s.durable })

unfoldable pub commit : Query (Unit {0})
commit s = (ok tt, record s { durable = s.working })

unfoldable pub notify : Notice → Service (Unit {0})
notify n w = (ok tt, record w { sent = w.sent ++ n ∷ [] })

abbrev pub with_slots : Session → Dict Slot → Session
with_slots s d = record s { working = record s.working { slots = d } }

abbrev pub with_bookings : Session → Dict Booking → Session
with_bookings s d = record s { working = record s.working { bookings = d } }

abbrev pub with_applicants : Session → Dict BookingApplicant → Session
with_applicants s d = record s { working = record s.working { applicants = d } }

-- `UPDATE booking_slots SET status = …, updated_at = now() WHERE id = …`
abbrev pub restatus_slot : SlotStatus → Time → Option Slot → Uuid → Session → Session
restatus_slot st now none id s = s
restatus_slot st now (some r) id s =
    with_slots s (insert id (record r { status = st; updated_at = now }) s.working.slots)

unfoldable pub find_slot : Uuid → Query (Option Slot)
find_slot id s = (ok (lookup id s.working.slots), s)

abbrev pub insert_slot : Option Slot → Slot → Session → Result Error Slot × Session
insert_slot (some old) slot s = (err integrity_error, s)
insert_slot none slot s = (ok slot, with_slots s (insert slot.id slot s.working.slots))

unfoldable pub create_slot : Slot → Query Slot
create_slot slot s = insert_slot (lookup slot.id s.working.slots) slot s

-- The update has `status = 'available'` in its condition; the result is `rowcount > 0`.
abbrev pub book_row : Time → Option Slot → Uuid → Session → Result Error Bool × Session
book_row now none id s = (ok false, s)
book_row now (some r) id s =
    if is_available r.status
    then (ok true, restatus_slot booked now (some r) id s)
    else (ok false, s)

unfoldable pub mark_booked : Uuid → Time → Query Bool
mark_booked id now s = book_row now (lookup id s.working.slots) id s

unfoldable pub mark_available : Uuid → Time → Query (Unit {0})
mark_available id now s = (ok tt, restatus_slot available now (lookup id s.working.slots) id s)

unfoldable pub cancel_slot_row : Uuid → Time → Query (Unit {0})
cancel_slot_row id now s = (ok tt, restatus_slot cancelled now (lookup id s.working.slots) id s)

abbrev pub for_slot : Uuid → Booking → Bool
for_slot slot_id b = b.slot_id == slot_id

-- Primary key, `uq_booking_bookings_slot_id` and the two foreign keys.
abbrev pub violates : Booking → Tables → Bool
violates b t =
    is_some (lookup b.id t.bookings)
    || not (elim (values_where (for_slot b.slot_id) t.bookings) [ [] ↦ true | _ ∷ _ ↦ false ])
    || not (is_some (lookup b.slot_id t.slots))
    || not (is_some (lookup b.applicant_id t.applicants))

unfoldable pub create_booking : Booking → Query Booking
create_booking b s =
    if violates b s.working
    then (err integrity_error, s)
    else (ok b, with_bookings s (insert b.id b s.working.bookings))

unfoldable pub find_booking : Uuid → Query (Option Booking)
find_booking id s = (ok (lookup id s.working.bookings), s)

-- `result.scalar_one_or_none()`
abbrev pub scalar_one_or_none : {A : Type 0} → List A → Query (Option A)
scalar_one_or_none [] s = (ok none, s)
scalar_one_or_none (x ∷ []) s = (ok (some x), s)
scalar_one_or_none (x ∷ y ∷ r) s = (err multiple_rows, s)

unfoldable pub find_by_slot_id : Uuid → Query (Option Booking)
find_by_slot_id slot_id s =
    scalar_one_or_none (values_where (for_slot slot_id) s.working.bookings) s

abbrev pub restatus_booking : BookingStatus → Time → Option Booking → Uuid → Session → Session
restatus_booking st now none id s = s
restatus_booking st now (some b) id s =
    with_bookings s (insert id (record b { status = st; updated_at = now }) s.working.bookings)

unfoldable pub update_status : Uuid → BookingStatus → Time → Query (Unit {0})
update_status id st now s = (ok tt, restatus_booking st now (lookup id s.working.bookings) id s)

abbrev pub has_external_id : Uuid → BookingApplicant → Bool
has_external_id id a = a.external_id == id

unfoldable pub find_by_external_id : Uuid → Query (Option BookingApplicant)
find_by_external_id id s =
    scalar_one_or_none (values_where (has_external_id id) s.working.applicants) s

-- Primary key and `uq_booking_applicants_external_id`.
unfoldable pub create_applicant : BookingApplicant → Query BookingApplicant
create_applicant a s =
    if is_some (lookup a.id s.working.applicants)
      || not (elim (values_where (has_external_id a.external_id) s.working.applicants) [
        | [] ↦ true
        | _ ∷ _ ↦ false
      ])
    then (err integrity_error, s)
    else (ok a, with_applicants s (insert a.id a s.working.applicants))
