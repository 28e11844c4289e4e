-- ===== src/Bookings/Rows.antt =====
-- Counts of booking rows, under the writes that the repositories make.
use estate_os_service.Base.{
  ℕ, ◌+◌, ◌≤◌, Uuid, ◌≡◌, refl, none, some, List, [], ◌∷◌, arith, length, if◌then◌else◌,
}
use estate_os_service.Dict.{Dict, lookup, insert, values_where, lookup-insert}
use estate_os_service.Bookings.Model.{Booking, is_confirmed}
use estate_os_service.Bookings.Store.{for_slot}

abbrev pub rows_for : Uuid → Dict Booking → List Booking
rows_for k d = values_where (for_slot k) d

abbrev pub row_units : Uuid → Booking → ℕ
row_units k b = if for_slot k b then 1 else 0

abbrev pub confirmed_units : Uuid → Booking → ℕ
confirmed_units k b = if for_slot k b then if is_confirmed b.status then 1 else 0 else 0

-- How many confirmed bookings a slot has.
abbrev pub confirmed_for : Uuid → Dict Booking → ℕ
confirmed_for k [] = 0
confirmed_for k ((i, b) ∷ d) = confirmed_units k b + confirmed_for k d

-- Every row is found under its own id, and only there.
abbrev pub IsKeyed : Dict Booking → Type 0
IsKeyed [] = Unit
IsKeyed ((i, b) ∷ d) = (b.id ≡ i) × (lookup i d ≡ none) × IsKeyed d

pub confirmed_for-insert_known :
    (k i : Uuid) (b b' : Booking) (d : Dict Booking)
    → lookup i d ≡ some b
    → confirmed_for k (insert i b' d) + confirmed_units k b
      ≡ confirmed_for k d + confirmed_units k b'
confirmed_for-insert_known k i b b' [] h = ground arith
confirmed_for-insert_known k i b b' ((j, c) ∷ d) h =
    ground (arith, confirmed_for-insert_known k i b b' d)

pub confirmed_for-insert_new :
    (k i : Uuid) (b : Booking) (d : Dict Booking)
    → lookup i d ≡ none
    → confirmed_for k (insert i b d) ≡ confirmed_for k d + confirmed_units k b
confirmed_for-insert_new k i b [] h = ground arith
confirmed_for-insert_new k i b ((j, c) ∷ d) h = ground (arith, confirmed_for-insert_new k i b d)

pub rows_for-insert_known :
    (k i : Uuid) (b b' : Booking) (d : Dict Booking)
    → lookup i d ≡ some b
    → b'.slot_id ≡ b.slot_id
    → length (rows_for k (insert i b' d)) ≡ length (rows_for k d)
rows_for-insert_known k i b b' [] h e = ground arith
rows_for-insert_known k i b b' ((j, c) ∷ d) h e = ground (arith, rows_for-insert_known k i b b' d)

pub rows_for-insert_new :
    (k i : Uuid) (b : Booking) (d : Dict Booking)
    → lookup i d ≡ none
    → length (rows_for k (insert i b d)) ≡ length (rows_for k d) + row_units k b
rows_for-insert_new k i b [] h = ground arith
rows_for-insert_new k i b ((j, c) ∷ d) h = ground (arith, rows_for-insert_new k i b d)

pub insert-IsKeyed :
    (i : Uuid) (b : Booking) (d : Dict Booking) → b.id ≡ i → IsKeyed d → IsKeyed (insert i b d)
insert-IsKeyed i b [] e h = (e, refl, tt)
insert-IsKeyed i b ((j, c) ∷ d) e h =
    ground (arith, insert-IsKeyed i b d e h.2, lookup-insert i j b d)

pub lookup_id :
    (i : Uuid) (b : Booking) (d : Dict Booking) → IsKeyed d → lookup i d ≡ some b → b.id ≡ i
lookup_id i b [] h e = ground arith
lookup_id i b ((j, c) ∷ d) h e = ground (arith, lookup_id i b d h.2)

pub confirmed_for-none : (k : Uuid) (d : Dict Booking) → rows_for k d ≡ [] → confirmed_for k d ≡ 0
confirmed_for-none k [] h = refl
confirmed_for-none k ((j, c) ∷ d) h = ground (arith, confirmed_for-none k d)

-- The only row of a slot is stored under its id and carries the slot's whole count.
pub confirmed_for-one :
    (k : Uuid) (b : Booking) (d : Dict Booking)
    → IsKeyed d
    → rows_for k d ≡ b ∷ []
    → (confirmed_for k d ≡ confirmed_units k b) × (lookup b.id d ≡ some b) × (b.slot_id ≡ k)
confirmed_for-one k b [] h e = ground arith
confirmed_for-one k b ((j, c) ∷ d) h e =
    ground (arith, confirmed_for-one k b d h.2, confirmed_for-none k d)

pub confirmed_units-le :
    (k i : Uuid) (b : Booking) (d : Dict Booking)
    → lookup i d ≡ some b
    → confirmed_units k b ≤ confirmed_for k d
confirmed_units-le k i b [] h = ground arith
confirmed_units-le k i b ((j, c) ∷ d) h = ground (arith, confirmed_units-le k i b d)
