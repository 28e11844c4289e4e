-- ===== src/Uow.antt =====
-- A unit of work (`SqlAlchemy…UnitOfWork`): the block works on a copy of the tables, `commit`
-- makes the copy durable, and leaving the block, by a return or by a raise, drops the rest.
use estate_os_service.Exec.{ok, Exec}

pub record Session (T : Type 0) : Type 0 where
  pub durable : T
  pub working : T

module _ {E T : Type 0} where
  -- `async with self._uow: …`
  abbrev pub in_uow : {A : Type 0} → Exec E (Session T) A → Exec E T A
  in_uow m t = let (r, s) = m (record { durable = t; working = t }) in (r, s.durable)

  abbrev pub commit : Exec E (Session T) (Unit {0})
  commit s = (ok tt, record s { durable = s.working })

  -- A repository's write.
  abbrev pub write : (T → T) → Exec E (Session T) (Unit {0})
  write f s = (ok tt, record s { working = f s.working })
