-- ===== src/Billing/Store.antt =====
-- src/billing/adapters/inmemory: subscriptions and the ids of the webhook events that are done.
use estate_os_service.Base.{
  String, Uuid, Bool, true, false, Option, none, some, List, [], ◌∷◌, ◌==◌, str_eq, if◌then◌else◌,
}
use estate_os_service.Exec.{Exec}
use estate_os_service.Json.{Json}
use estate_os_service.Dict.{Dict, insert}
use estate_os_service.Billing.Model.{Subscription, Error}

pub record World : Type 0 where
  pub subscriptions : Dict Subscription
  pub seen : List (String × (String × Json))

abbrev pub Service : Type 0 → Type 0
Service A = Exec Error World A

-- "for sub in self._subscriptions.values(): if p(sub): return sub"
abbrev pub first_where : (Subscription → Bool) → Dict Subscription → Option Subscription
first_where p [] = none
first_where p ((k, s) ∷ d) = if p s then some s else first_where p d

abbrev pub is_customer : String → Option String → Bool
is_customer c none = false
is_customer c (some d) = str_eq d c

unfoldable pub get_by_organization_id : Uuid → World → Option Subscription
get_by_organization_id org w = first_where (λ s. s.organization_id == org) w.subscriptions

unfoldable pub get_by_stripe_customer_id : String → World → Option Subscription
get_by_stripe_customer_id c w =
    first_where (λ s. is_customer c s.stripe_customer_id) w.subscriptions

-- `save`, and `update`, which is the same write
unfoldable pub save : Subscription → World → World
save s w = record w { subscriptions = insert s.id s w.subscriptions }

abbrev pub is_seen : String → List (String × (String × Json)) → Bool
is_seen i [] = false
is_seen i ((j, e) ∷ d) = if str_eq j i then true else is_seen i d

unfoldable pub has_processed : String → World → Bool
has_processed i w = is_seen i w.seen

abbrev pub add_event :
    String → String × Json → List (String × (String × Json)) → List (String × (String × Json))
add_event i e [] = (i, e) ∷ []
add_event i e (x ∷ d) = x ∷ add_event i e d

unfoldable pub try_mark_processed : String → String → Json → World → Bool × World
try_mark_processed i type payload w =
    if is_seen i w.seen
    then (false, w)
    else (true, record w { seen = add_event i (type, payload) w.seen })
