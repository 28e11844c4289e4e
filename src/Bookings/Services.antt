-- ===== src/Bookings/Services.antt =====
-- src/bookings/application/services. The ids and times that a call draws are its last arguments;
-- log lines are left out.
use estate_os_service.Base.{Uuid, Time, String, Bool, not, Option, none, some, if◌then◌else◌}
use estate_os_service.Exec.{Result, ok, err, pure, raise, or_raise, raise_if, ◌>>=◌, ◌>>◌}
use estate_os_service.Bookings.Model.{
  Slot, available, Booking, BookingStatus, confirmed, cancelled_by_applicant, cancelled_by_agent,
  BookingApplicant, Error, slot_not_found, slot_not_available, booking_not_found,
  booking_not_cancellable, forbidden, CreateSlotParams, ScreeningData, from_screening_event,
  is_available, is_booked, is_confirmed, belongs_to_agent, belongs_to_applicant,
  belongs_to_organization,
}
use estate_os_service.Bookings.Store.{
  Query, Service, booking_confirmed, booking_cancelled, slot_cancelled, in_uow, commit, notify,
  find_slot, create_slot, mark_booked, mark_available, cancel_slot_row, create_booking,
  find_booking, find_by_slot_id, update_status, find_by_external_id, create_applicant,
}

-- `SlotService.create`
unfoldable pub slot_create : CreateSlotParams → Uuid → Time → Service Slot
slot_create params fresh now = in_uow do
  created ← create_slot (record {
    id = fresh;
    property_id = params.property_id;
    agent_user_id = params.agent_user_id;
    organization_id = params.organization_id;
    start_time = params.start_time;
    end_time = params.end_time;
    status = available;
    created_at = now;
    updated_at = now;
  })
  commit
  pure created

-- `SlotService.find`
unfoldable pub slot_find : Uuid → Service Slot
slot_find slot_id = do slot ← in_uow (find_slot slot_id); or_raise slot (slot_not_found slot_id)

-- "If the slot was booked, cancel the booking first."
unfoldable pub release_booking : Slot → Uuid → Time → Query (Option Booking)
release_booking slot slot_id now =
    if is_booked slot.status
    then (do
      booking ← find_by_slot_id slot_id
      elim booking [
        | none ↦ pure none
        | some b ↦
            if is_confirmed b.status
            then (do update_status b.id cancelled_by_agent now; pure (some b))
            else pure (some b)
      ])
    else pure none

-- `SlotService.cancel`
unfoldable pub slot_cancel : Uuid → Uuid → Time → Service (Unit {0})
unfolding release_booking
slot_cancel slot_id agent_user_id now = do
  done ← in_uow do
    found ← find_slot slot_id
    slot ← or_raise found (slot_not_found slot_id)
    raise_if (not (belongs_to_agent slot agent_user_id)) forbidden
    booking ← release_booking slot slot_id now
    cancel_slot_row slot_id now
    commit
    pure (slot_cancelled slot booking)
  notify done

-- Steps 2 and 3 of `BookingService.create`, after the slot has been read.
unfoldable pub book_slot : Slot → Uuid → Uuid → String → Uuid → Time → Query Booking
book_slot slot slot_id applicant_id notes fresh now = do
  marked ← mark_booked slot_id now
  raise_if (not marked) (slot_not_available slot_id)
  created ← create_booking (record {
    id = fresh;
    slot_id = slot_id;
    applicant_id = applicant_id;
    property_id = slot.property_id;
    organization_id = slot.organization_id;
    status = confirmed;
    notes = notes;
    created_at = now;
    updated_at = now;
  })
  commit
  pure created

-- `BookingService.create`
unfoldable pub booking_create : Uuid → Uuid → String → Uuid → Time → Service Booking
unfolding book_slot
booking_create slot_id applicant_id notes fresh now = do
  created ← in_uow do
    found ← find_slot slot_id
    slot ← or_raise found (slot_not_found slot_id)
    raise_if (not (is_available slot.status)) (slot_not_available slot_id)
    book_slot slot slot_id applicant_id notes fresh now
  notify (booking_confirmed created)
  pure created

-- `BookingService.find`
unfoldable pub booking_find : Uuid → Service Booking
booking_find booking_id = do
  booking ← in_uow (find_booking booking_id)
  or_raise booking (booking_not_found booking_id)

-- The body that the two cancel methods share: they differ in the ownership test and in the status.
unfoldable pub cancel_with : Uuid → (Booking → Bool) → BookingStatus → Time → Service (Unit {0})
cancel_with booking_id owns status now = do
  cancelled ← in_uow do
    found ← find_booking booking_id
    booking ← or_raise found (booking_not_found booking_id)
    raise_if (not (owns booking)) forbidden
    raise_if (not (is_confirmed booking.status)) (booking_not_cancellable booking_id)
    update_status booking_id status now
    mark_available booking.slot_id now
    commit
    pure booking
  notify (booking_cancelled cancelled)

-- `BookingService.cancel_by_applicant`
unfoldable pub cancel_by_applicant : Uuid → Uuid → Time → Service (Unit {0})
unfolding cancel_with
cancel_by_applicant booking_id applicant_id now =
    cancel_with booking_id (λ b. belongs_to_applicant b applicant_id) cancelled_by_applicant now

-- `BookingService.cancel_by_agent`
unfoldable pub cancel_by_agent : Uuid → Uuid → Time → Service (Unit {0})
unfolding cancel_with
cancel_by_agent booking_id organization_id now =
    cancel_with booking_id (λ b. belongs_to_organization b organization_id) cancelled_by_agent now

-- "Domain validates and rejects HIGH risk.": a raise ends the block before the commit.
unfoldable pub enrol : Result Error BookingApplicant → Query BookingApplicant
enrol (err e) = raise e
enrol (ok applicant) = do created ← create_applicant applicant; commit; pure created

abbrev pub existing_or : Option BookingApplicant → Query BookingApplicant → Query BookingApplicant
existing_or none rest = rest
existing_or (some existing) rest = pure existing

-- `ApplicantService.create_from_screening`
unfoldable pub create_from_screening : ScreeningData → Uuid → Time → Service BookingApplicant
unfolding enrol
create_from_screening d fresh now = in_uow do
  existing ← find_by_external_id d.applicant_id
  existing_or existing (enrol (from_screening_event d fresh now))
