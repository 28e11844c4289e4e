-- ===== src/Bookings/Screening.antt =====
-- Applicants that come from screening: src/bookings/application/services/applicant_service.py.
use estate_os_service.Base.{◌≤◌, Uuid, Time, ◌≡◌, ap, true, none, some, [], arith, length, inl, inr}
use estate_os_service.Exec.{ok, Result-cases}
use estate_os_service.Dict.{
  Dict, lookup, insert, values_where, lookup-insert, length-values_where-insert,
  values_where-insert_first,
}
use estate_os_service.Bookings.Model.{
  BookingApplicant, ScreeningData, from_screening_event, is_approved,
}
use estate_os_service.Bookings.Store.{
  World, has_external_id, in_uow, commit, find_by_external_id, create_applicant,
}
use estate_os_service.Bookings.Services.{create_from_screening}

-- An accepted event gives an approved applicant, under the id that was drawn.
from_screening_event_ok :
    (d : ScreeningData) (fresh : Uuid) (now : Time) (a : BookingApplicant)
    → from_screening_event d fresh now ≡ ok a
    → (a.id ≡ fresh) × (a.external_id ≡ d.applicant_id) × (is_approved a.risk_level ≡ true)
unfolding from_screening_event
from_screening_event_ok d fresh now a h = ground arith

-- Every stored applicant was approved, and no two share an external id.
pub record IsScreened (d : Dict BookingApplicant) : Type 0 where
  pub approved :
      (i : Uuid) (a : BookingApplicant) → lookup i d ≡ some a → is_approved a.risk_level ≡ true
  pub one_row : (x : Uuid) → length (values_where (has_external_id x) d) ≤ 1

insert-IsScreened :
    (a : BookingApplicant) (d : Dict BookingApplicant)
    → IsScreened d
    → lookup a.id d ≡ none
    → values_where (has_external_id a.external_id) d ≡ []
    → is_approved a.risk_level ≡ true
    → IsScreened (insert a.id a d)
insert-IsScreened a d c new none_yet ok_risk = record {
  approved = λ i b h. ground (arith, lookup-insert a.id i a d, c.approved i b);
  one_row = λ x. ground (
    arith,
    length-values_where-insert (has_external_id x) a.id a d,
    c.one_row x,
    ap length none_yet,
  );
}

-- `create_from_screening` keeps the applicants screened; an applicant whose risk is HIGH is never stored.
pub create_from_screening-IsScreened :
    (d : ScreeningData) (fresh : Uuid) (now : Time) (w : World)
    → IsScreened w.tables.applicants
    → IsScreened (create_from_screening d fresh now w).1.tables.applicants
unfolding create_from_screening find_by_external_id create_applicant in_uow commit
create_from_screening-IsScreened d fresh now w c =
    elim (Result-cases (from_screening_event d fresh now)) [
      | inl (a, e) ↦
          let (own, outside, safe) = from_screening_event_ok d fresh now a e in
          ground (arith, insert-IsScreened a w.tables.applicants c)
      | inr (x, e) ↦ ground arith
    ]

-- Screening the same applicant again returns the stored row and changes nothing.
pub create_from_screening_idem :
    (d d' : ScreeningData) (fresh fresh' : Uuid) (now now' : Time) (w : World)
    (a : BookingApplicant)
    → IsScreened w.tables.applicants
    → d'.applicant_id ≡ d.applicant_id
    → (create_from_screening d fresh now w).0 ≡ ok a
    → let w' : World = (create_from_screening d fresh now w).1 in
      create_from_screening d' fresh' now' w' ≡ (ok a, w')
unfolding create_from_screening find_by_external_id create_applicant in_uow commit
create_from_screening_idem d d' fresh fresh' now now' w a c same h =
    elim (Result-cases (from_screening_event d fresh now)) [
      | inl (b, e) ↦
          let (own, outside, safe) = from_screening_event_ok d fresh now b e in
          ground (
            arith,
            values_where-insert_first (has_external_id d.applicant_id) b.id b w.tables.applicants,
          )
      | inr (x, e) ↦ ground arith
    ]
