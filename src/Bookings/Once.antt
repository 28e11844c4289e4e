-- ===== src/Bookings/Once.antt =====
-- A slot gets one row in the bookings table, whatever calls come after.
use estate_os_service.Base.{
  ℕ, ◌≤◌, Uuid, Time, String, ◌≡◌, refl, Bool, true, some, List, [], ◌∷◌, arith, length, inl, inr,
  Bool-cases, Option-cases,
}
use estate_os_service.Exec.{ok, err}
use estate_os_service.Dict.{lookup}
use estate_os_service.Bookings.Model.{
  Slot, Booking, BookingStatus, Error, cancelled_by_applicant, cancelled_by_agent, is_available,
  is_booked, belongs_to_applicant, belongs_to_organization, CreateSlotParams, ScreeningData,
  slot_not_found, slot_not_available, integrity_error,
}
use estate_os_service.Bookings.Store.{
  World, in_uow, commit, notify, find_slot, create_slot, mark_booked, mark_available,
  cancel_slot_row, create_booking, find_booking, find_by_slot_id, update_status,
  find_by_external_id, create_applicant,
}
use estate_os_service.Bookings.Services.{
  slot_create, slot_cancel, booking_create, cancel_with, cancel_by_applicant, cancel_by_agent,
  create_from_screening,
}
use estate_os_service.Bookings.Calls.{Call, perform, perform_all}
use estate_os_service.Bookings.Rows.{rows_for, rows_for-insert_known, rows_for-insert_new}
use estate_os_service.Bookings.Outcomes.{booking_of}

-- How many rows a slot has in the bookings table.
abbrev pub count_rows : Uuid → World → ℕ
count_rows k w = length (rows_for k w.tables.bookings)

module _ (k : Uuid) where
  cancel_with-count :
      (id : Uuid) (owns : Booking → Bool) (st : BookingStatus) (now : Time) (w : World)
      → count_rows k w ≤ count_rows k (cancel_with id owns st now w).1
  unfolding cancel_with find_booking update_status mark_available in_uow commit notify
  cancel_with-count id owns st now w = elim (Option-cases (lookup id w.tables.bookings)) [
    | inl e ↦ ground arith
    | inr (b, e) ↦ ground (
      arith,
      rows_for-insert_known k id b (record b { status = st; updated_at = now }) w.tables.bookings e
          refl,
    )
  ]

  slot_create-count :
      (p : CreateSlotParams) (fresh : Uuid) (now : Time) (w : World)
      → count_rows k w ≤ count_rows k (slot_create p fresh now w).1
  unfolding slot_create create_slot in_uow commit
  slot_create-count p fresh now w = ground arith

  screening-count :
      (d : ScreeningData) (fresh : Uuid) (now : Time) (w : World)
      → count_rows k w ≤ count_rows k (create_from_screening d fresh now w).1
  unfolding create_from_screening find_by_external_id create_applicant in_uow commit
  screening-count d fresh now w = ground arith

  booking_create-count :
      (slot_id a : Uuid) (notes : String) (fresh : Uuid) (now : Time) (w : World)
      → count_rows k w ≤ count_rows k (booking_create slot_id a notes fresh now w).1
  unfolding booking_create find_slot mark_booked create_booking in_uow commit notify
  booking_create-count slot_id a notes fresh now w =
      elim (Option-cases (lookup slot_id w.tables.slots)) [
        | inl e ↦ ground arith
        | inr (s, e) ↦ elim (Option-cases (lookup fresh w.tables.bookings)) [
          | inl new ↦ ground (
            arith,
            rows_for-insert_new k fresh (booking_of s slot_id a notes fresh now) w.tables.bookings
                new,
          )
          | inr (b, old) ↦ ground arith
        ]
      ]

  slot_cancel-count :
      (slot_id agent : Uuid) (now : Time) (w : World)
      → count_rows k w ≤ count_rows k (slot_cancel slot_id agent now w).1
  unfolding slot_cancel find_slot find_by_slot_id update_status cancel_slot_row in_uow commit notify
  slot_cancel-count slot_id agent now w = elim (Option-cases (lookup slot_id w.tables.slots)) [
    | inl e ↦ ground arith
    | inr (s, e) ↦ elim (Bool-cases (is_booked s.status)) [
      | inr idle ↦ ground arith
      | inl busy ↦ go (rows_for slot_id w.tables.bookings) refl s e busy
    ]
  ]
    where
      go :
          (rows : List Booking)
          → rows_for slot_id w.tables.bookings ≡ rows
          → (s : Slot) → lookup slot_id w.tables.slots ≡ some s
          → is_booked s.status ≡ true
          → count_rows k w ≤ count_rows k (slot_cancel slot_id agent now w).1
      go [] r s e busy = ground arith
      go (b ∷ []) r s e busy = elim (Option-cases (lookup b.id w.tables.bookings)) [
        | inl gone ↦ ground arith
        | inr (c, here) ↦ ground (
          arith,
          rows_for-insert_known k b.id c
              (record c { status = cancelled_by_agent; updated_at = now }) w.tables.bookings here
              refl,
        )
      ]
      go (b ∷ c ∷ r') r s e busy = ground arith

  perform-count : (call : Call) (w : World) → count_rows k w ≤ count_rows k (perform call w).1
  unfolding perform cancel_by_applicant cancel_by_agent
  perform-count (Call.new_slot p fresh now) w = ground (arith, slot_create-count p fresh now w)
  perform-count (Call.drop_slot slot agent now) w =
      ground (arith, slot_cancel-count slot agent now w)
  perform-count (Call.book slot a notes fresh now) w =
      ground (arith, booking_create-count slot a notes fresh now w)
  perform-count (Call.applicant_cancels id a now) w = ground (
    arith,
    cancel_with-count id (λ (b : Booking). belongs_to_applicant b a) cancelled_by_applicant now w,
  )
  perform-count (Call.agent_cancels id org now) w = ground (
    arith,
    cancel_with-count id (λ (b : Booking). belongs_to_organization b org) cancelled_by_agent now w,
  )
  perform-count (Call.screen d fresh now) w = ground (arith, screening-count d fresh now w)

  perform_all-count :
      (calls : List Call) (w : World) → count_rows k w ≤ count_rows k (perform_all calls w)
  unfolding perform_all
  perform_all-count [] w = ground arith
  perform_all-count (call ∷ calls) w =
      ground (arith, perform-count call w, perform_all-count calls (perform call w).1)

-- A slot with a row cannot be booked: an attempt raises and changes nothing.
booking_create-blocked :
    (slot_id a : Uuid) (notes : String) (fresh : Uuid) (now : Time) (w : World)
    → 1 ≤ count_rows slot_id w
    → (e : Error) × (booking_create slot_id a notes fresh now w ≡ (err e, w))
unfolding booking_create find_slot mark_booked create_booking in_uow
booking_create-blocked slot_id a notes fresh now w old =
    elim (Option-cases (lookup slot_id w.tables.slots)) [
      | inl gone ↦ (slot_not_found slot_id, ground arith)
      | inr (s, here) ↦ elim (Bool-cases (is_available s.status)) [
        | inr busy ↦ (slot_not_available slot_id, ground arith)
        | inl free ↦ (integrity_error, ground arith)
      ]
    ]

-- A booking that was stored is a row of its slot.
booking_create-row :
    (slot_id a : Uuid) (notes : String) (fresh : Uuid) (now : Time) (w : World) (b : Booking)
    → (booking_create slot_id a notes fresh now w).0 ≡ ok b
    → 1 ≤ count_rows slot_id (booking_create slot_id a notes fresh now w).1
unfolding booking_create find_slot mark_booked create_booking in_uow commit notify
booking_create-row slot_id a notes fresh now w b done =
    elim (Option-cases (lookup slot_id w.tables.slots)) [
      | inl gone ↦ ground arith
      | inr (s, here) ↦ elim (Option-cases (lookup fresh w.tables.bookings)) [
        | inl new ↦ ground (
          arith,
          rows_for-insert_new slot_id fresh (booking_of s slot_id a notes fresh now)
              w.tables.bookings new,
        )
        | inr (c, old) ↦ ground arith
      ]
    ]

-- A slot is booked once: after a call that booked it, and any further service calls, cancellations
-- included, an attempt to book it, by whatever applicant, raises and changes nothing.
pub booking_once :
    (slot_id a a' : Uuid) (notes notes' : String) (fresh fresh' : Uuid) (now later : Time)
    (w : World) (b : Booking) (calls : List Call)
    → (booking_create slot_id a notes fresh now w).0 ≡ ok b
    → let w' : World = perform_all calls (booking_create slot_id a notes fresh now w).1 in
      (e : Error) × (booking_create slot_id a' notes' fresh' later w' ≡ (err e, w'))
booking_once slot_id a a' notes notes' fresh fresh' now later w b calls done =
    let w' : World = (booking_create slot_id a notes fresh now w).1 in
    booking_create-blocked slot_id a' notes' fresh' later (perform_all calls w') (
      ground (
        arith,
        booking_create-row slot_id a notes fresh now w b done,
        perform_all-count slot_id calls w',
      ))
