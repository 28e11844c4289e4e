-- ===== src/Bookings/Consistency/Calls.antt =====
-- Every service call of src/bookings/application/services keeps the tables consistent.
use estate_os_service.Base.{
  Uuid, Time, String, ◌≡◌, Bool, false, arith, inl, inr, Bool-cases, Option-cases,
}
use estate_os_service.Dict.{lookup}
use estate_os_service.Bookings.Model.{
  Slot, available, cancelled, Booking, BookingStatus, confirmed, cancelled_by_agent, is_booked,
  is_confirmed, CreateSlotParams,
}
use estate_os_service.Bookings.Store.{
  Tables, World, in_uow, commit, notify, find_slot, create_slot, mark_booked, mark_available,
  cancel_slot_row, create_booking, find_booking, find_by_slot_id, update_status,
}
use estate_os_service.Bookings.Services.{
  slot_create, slot_cancel, booking_create, book_slot, cancel_with,
}
use estate_os_service.Bookings.Rows.{lookup_id}
use estate_os_service.Bookings.Consistency.{
  IsConsistent, book-IsConsistent, restatus-IsConsistent, release-IsConsistent, confirmed_slot,
  booked_row,
}

-- `SlotService.create` keeps the tables consistent.
pub slot_create-IsConsistent :
    (p : CreateSlotParams) (fresh : Uuid) (now : Time) (w : World)
    → IsConsistent w.tables
    → IsConsistent (slot_create p fresh now w).1.tables
unfolding slot_create create_slot in_uow commit
slot_create-IsConsistent p fresh now w c = ground (
  arith,
  restatus-IsConsistent w.tables fresh
      (record {
        id = fresh;
        property_id = p.property_id;
        agent_user_id = p.agent_user_id;
        organization_id = p.organization_id;
        start_time = p.start_time;
        end_time = p.end_time;
        status = available;
        created_at = now;
        updated_at = now;
      })
      c,
  c.agrees fresh,
)

-- Whatever slot was read before, the locked write of `BookingService.create` keeps the tables
-- consistent, whether it succeeds or raises.
pub book_slot-IsConsistent :
    (slot : Slot) (slot_id applicant_id : Uuid) (notes : String) (fresh : Uuid) (now : Time)
    (t : Tables)
    → IsConsistent t
    → let (_, s) =
        book_slot slot slot_id applicant_id notes fresh now (record { durable = t; working = t }) in
      IsConsistent s.durable
unfolding book_slot mark_booked create_booking commit
book_slot-IsConsistent slot slot_id applicant_id notes fresh now t c =
    elim (Option-cases (lookup slot_id t.slots)) [
      | inl e ↦ ground arith
      | inr (s, e) ↦ ground (
        arith,
        book-IsConsistent t s
            (record {
              id = fresh;
              slot_id = slot_id;
              applicant_id = applicant_id;
              property_id = slot.property_id;
              organization_id = slot.organization_id;
              status = confirmed;
              notes = notes;
              created_at = now;
              updated_at = now;
            })
            now c,
      )
    ]

pub cancel_with-IsConsistent :
    (id : Uuid) (owns : Booking → Bool) (st : BookingStatus) (now : Time) (w : World)
    → is_confirmed st ≡ false
    → IsConsistent w.tables
    → IsConsistent (cancel_with id owns st now w).1.tables
unfolding cancel_with find_booking update_status mark_available in_uow commit notify
cancel_with-IsConsistent id owns st now w ns c = elim (Option-cases (lookup id w.tables.bookings)) [
  | inl e ↦ ground arith
  | inr (b, e) ↦ elim (Bool-cases (is_confirmed b.status)) [
    | inr over ↦ ground arith
    | inl live ↦
        let (s, es, sb) = confirmed_slot w.tables id b c e live in
        ground (
          arith,
          lookup_id id b w.tables.bookings c.keyed e,
          release-IsConsistent w.tables b (record s { status = available; updated_at = now }) st now
              c,
        )
  ]
]

-- `BookingService.create` keeps the tables consistent.
pub booking_create-IsConsistent :
    (slot_id applicant_id : Uuid) (notes : String) (fresh : Uuid) (now : Time) (w : World)
    → IsConsistent w.tables
    → IsConsistent (booking_create slot_id applicant_id notes fresh now w).1.tables
unfolding booking_create find_slot in_uow notify
booking_create-IsConsistent slot_id applicant_id notes fresh now w c =
    elim (Option-cases (lookup slot_id w.tables.slots)) [
      | inl e ↦ ground arith
      | inr (s, e) ↦
          ground (arith, book_slot-IsConsistent s slot_id applicant_id notes fresh now w.tables c)
    ]

-- `SlotService.cancel` keeps the tables consistent.
pub slot_cancel-IsConsistent :
    (slot_id agent : Uuid) (now : Time) (w : World)
    → IsConsistent w.tables
    → IsConsistent (slot_cancel slot_id agent now w).1.tables
unfolding slot_cancel find_slot find_by_slot_id update_status cancel_slot_row in_uow commit notify
slot_cancel-IsConsistent slot_id agent now w c =
    elim (Option-cases (lookup slot_id w.tables.slots)) [
      | inl e ↦ ground arith
      | inr (s, e) ↦
          let s' : Slot = record s { status = cancelled; updated_at = now } in
          elim (Bool-cases (is_booked s.status)) [
            | inr idle ↦
                ground (arith, restatus-IsConsistent w.tables slot_id s' c, c.agrees slot_id)
            | inl busy ↦
                let (b, one, kept, live, own) = booked_row w.tables slot_id s c e busy in
                ground (arith, release-IsConsistent w.tables b s' cancelled_by_agent now c)
          ]
    ]
