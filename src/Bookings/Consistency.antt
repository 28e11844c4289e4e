-- ===== src/Bookings/Consistency.antt =====
-- Tables where a slot is booked exactly when it has one confirmed booking, and the writes that keep
-- them so.
pub mod Calls
use estate_os_service.Base.{
  ℕ, ◌≤◌, Uuid, Time, String, ◌≡◌, refl, ap, Bool, true, false, Option, none, some, List, [], ◌∷◌,
  arith, length, if◌then◌else◌, inl, inr, Bool-cases, Option-cases,
}
use estate_os_service.Dict.{lookup, insert, lookup-insert}
use estate_os_service.Bookings.Model.{
  Slot, available, booked, cancelled, Booking, BookingStatus, confirmed, cancelled_by_agent,
  is_available, is_booked, is_confirmed, CreateSlotParams,
}
use estate_os_service.Bookings.Store.{
  Tables, World, in_uow, commit, notify, find_slot, create_slot, mark_booked, mark_available,
  cancel_slot_row, create_booking, find_booking, find_by_slot_id, update_status,
}
use estate_os_service.Bookings.Services.{
  slot_create, slot_cancel, booking_create, book_slot, cancel_with,
}
use estate_os_service.Bookings.Rows.{
  rows_for, confirmed_for, IsKeyed, confirmed_for-insert_known, confirmed_for-insert_new,
  rows_for-insert_known, rows_for-insert_new, insert-IsKeyed, lookup_id, confirmed_for-none,
  confirmed_for-one, confirmed_units-le,
}

-- What a slot's status asks for: one confirmed booking, or none.
abbrev pub booked_units : Option Slot → ℕ
booked_units none = 0
booked_units (some s) = if is_booked s.status then 1 else 0

pub record IsConsistent (t : Tables) : Type 0 where
  pub keyed : IsKeyed t.bookings
  pub one_row : (k : Uuid) → length (rows_for k t.bookings) ≤ 1
  pub agrees : (k : Uuid) → confirmed_for k t.bookings ≡ booked_units (lookup k t.slots)

-- A new confirmed booking of a slot that is available and has no row yet.
pub book-IsConsistent :
    (t : Tables) (s : Slot) (b : Booking) (now : Time)
    → IsConsistent t
    → lookup b.slot_id t.slots ≡ some s
    → is_available s.status ≡ true
    → b.status ≡ confirmed
    → lookup b.id t.bookings ≡ none
    → rows_for b.slot_id t.bookings ≡ []
    → IsConsistent (record t {
      slots = insert b.slot_id (record s { status = booked; updated_at = now }) t.slots;
      bookings = insert b.id b t.bookings;
    })
book-IsConsistent t s b now c es av cs fresh rows = record {
  keyed = insert-IsKeyed b.id b t.bookings refl c.keyed;
  one_row =
      λ k. ground (arith, rows_for-insert_new k b.id b t.bookings, c.one_row k, ap length rows);
  agrees = λ k. ground (
    arith,
    confirmed_for-insert_new k b.id b t.bookings,
    lookup-insert b.slot_id k (record s { status = booked; updated_at = now }) t.slots,
    c.agrees k,
    confirmed_for-none b.slot_id t.bookings rows,
  );
}

-- A slot that is written with a status other than booked, when it has no confirmed booking.
pub restatus-IsConsistent :
    (t : Tables) (k : Uuid) (s : Slot)
    → IsConsistent t
    → is_booked s.status ≡ false
    → confirmed_for k t.bookings ≡ 0
    → IsConsistent (record t { slots = insert k s t.slots })
restatus-IsConsistent t k s c nb z = record {
  keyed = c.keyed;
  one_row = c.one_row;
  agrees = λ j. ground (arith, lookup-insert k j s t.slots, c.agrees j);
}

-- A confirmed booking that ends, with its slot written as no longer booked.
pub release-IsConsistent :
    (t : Tables) (b : Booking) (s : Slot) (st : BookingStatus) (now : Time)
    → IsConsistent t
    → lookup b.id t.bookings ≡ some b
    → is_confirmed b.status ≡ true
    → is_confirmed st ≡ false
    → is_booked s.status ≡ false
    → IsConsistent (record t {
      slots = insert b.slot_id s t.slots;
      bookings = insert b.id (record b { status = st; updated_at = now }) t.bookings;
    })
release-IsConsistent t b s st now c eb cb nc nb = record {
  keyed = insert-IsKeyed b.id (record b { status = st; updated_at = now }) t.bookings refl c.keyed;
  one_row = λ k. ground (
    arith,
    rows_for-insert_known k b.id b (record b { status = st; updated_at = now }) t.bookings eb refl,
    c.one_row k,
  );
  agrees = λ k. ground (
    arith,
    confirmed_for-insert_known k b.id b (record b { status = st; updated_at = now }) t.bookings eb,
    lookup-insert b.slot_id k s t.slots,
    c.agrees k,
  );
}

-- A confirmed booking's slot is there, and booked.
pub confirmed_slot :
    (t : Tables) (id : Uuid) (b : Booking)
    → IsConsistent t
    → lookup id t.bookings ≡ some b
    → is_confirmed b.status ≡ true
    → (s : Slot) × (lookup b.slot_id t.slots ≡ some s) × (is_booked s.status ≡ true)
confirmed_slot t id b c e h = elim (Option-cases (lookup b.slot_id t.slots)) [
  | inl gone ↦
      absurd
        (ground (arith, c.agrees b.slot_id, confirmed_units-le b.slot_id id b t.bookings e, gone))
  | inr (s, es) ↦ (
    s,
    es,
    ground (arith, c.agrees b.slot_id, confirmed_units-le b.slot_id id b t.bookings e, es),
  )
]

-- A booked slot has one row, which is confirmed and stored under its id.
pub booked_row :
    (t : Tables) (k : Uuid) (s : Slot)
    → IsConsistent t
    → lookup k t.slots ≡ some s
    → is_booked s.status ≡ true
    → (b : Booking) × (rows_for k t.bookings ≡ b ∷ [])
      × (lookup b.id t.bookings ≡ some b)
      × (is_confirmed b.status ≡ true)
      × (b.slot_id ≡ k)
booked_row t k s c es h = go (rows_for k t.bookings) refl
  where
    go :
        (rows : List Booking)
        → rows_for k t.bookings ≡ rows
        → (b : Booking) × (rows_for k t.bookings ≡ b ∷ [])
          × (lookup b.id t.bookings ≡ some b)
          × (is_confirmed b.status ≡ true)
          × (b.slot_id ≡ k)
    go [] e = absurd (ground (arith, confirmed_for-none k t.bookings e, c.agrees k))
    go (b ∷ []) e =
        let (counted, kept, own) = confirmed_for-one k b t.bookings c.keyed e in
        (b, e, kept, ground (arith, c.agrees k, counted, own), own)
    go (b ∷ b' ∷ r) e = absurd (ground (arith, c.one_row k, ap length e))
