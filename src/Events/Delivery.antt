-- ===== src/Events/Delivery.antt =====
-- What one turn of the worker does to the queue: src/shared/events/worker.py and the in-memory
-- consumer.
use estate_os_service.Base.{ℕ, Bool, true, false, List, [], ◌∷◌, if◌then◌else◌}
use estate_os_service.Exec.{Result, ok, err}
use estate_os_service.Events.Bus.{Message, Handlers, dispatch}

abbrev pub returned : {E A : Type 0} → Result E A → Bool
returned (ok a) = true
returned (err e) = false

abbrev pub ids_of : List Message → List ℕ
ids_of [] = []
ids_of (m ∷ ms) = m.message_id ∷ ids_of ms

module _ {E C : Type 0} where
  -- The messages of a batch whose handlers return, or raise, each on the context that the messages
  -- before it have left; and the context at the end.
  abbrev pub whose : Bool → Handlers E C → List Message → C → List Message
  whose b router [] c = []
  whose b router (m ∷ ms) c =
      let (r, c') = dispatch router m.event c in
      let rest = whose b router ms c' in
      if returned r then (if b then m ∷ rest else rest) else (if b then rest else m ∷ rest)

  abbrev pub context_after : Handlers E C → List Message → C → C
  context_after router [] c = c
  context_after router (m ∷ ms) c = context_after router ms (dispatch router m.event c).1
