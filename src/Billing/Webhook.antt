-- ===== src/Billing/Webhook.antt =====
-- `HandleStripeWebhookEvent`: src/billing/application/use_cases/handle_stripe_webhook.py. The Stripe
-- client is a parameter.
use estate_os_service.Base.{
  ℕ, ◌*◌, String, Time, Bool, true, false, Option, none, some, List, [], ◌∷◌, ◌||◌, ◌==◌, or_else,
  str_eq, not, is_some, if◌then◌else◌,
}
use estate_os_service.Exec.{Result, ok, err}
use estate_os_service.Billing.Model.{
  Subscription, SubscriptionStatus, active, cancelled, past_due, stripe, Error,
  unknown_stripe_price, gateway_error, no_changes, update, PriceCatalog, plan_for,
  status_from_stripe, StripeItem, StripeObject, StripeEvent, SubscriptionPlan,
}
use estate_os_service.Billing.Store.{
  World, Service, get_by_stripe_customer_id, save, has_processed, try_mark_processed,
}

-- `get_subscription`, none where the call raises
abbrev pub GetSubscription : Type 0
GetSubscription = String → Option StripeObject

abbrev pub first_item : List StripeItem → Option StripeItem
first_item [] = none
first_item (i ∷ is) = some i

-- `_utc_from_stripe_ts`: seconds to the microseconds of a datetime
abbrev pub utc_from_stripe_ts : Option ℕ → Option Time
utc_from_stripe_ts none = none
utc_from_stripe_ts (some t) = some (t * 1000000)

-- `x or y` of timestamps, where 0 counts as missing
abbrev pub or_timestamp : Option ℕ → Option ℕ → Option ℕ
or_timestamp none y = y
or_timestamp (some t) y = if t == 0 then y else some t

-- "if items and (period_start is None or period_end is None)"
abbrev pub use_item_period : StripeObject → Bool
use_item_period o = not (is_some o.current_period_start) || not (is_some o.current_period_end)

abbrev pub period_start : StripeObject → StripeItem → Option ℕ
period_start o i =
    if use_item_period o
    then or_timestamp o.current_period_start i.current_period_start
    else o.current_period_start

abbrev pub period_end : StripeObject → StripeItem → Option ℕ
period_end o i =
    if use_item_period o
    then or_timestamp o.current_period_end i.current_period_end
    else o.current_period_end

abbrev pub synced :
    SubscriptionPlan → StripeObject → StripeItem → Time → Subscription → Subscription
synced plan o i now =
    update
      (record {
        plan = some plan;
        type = some stripe;
        status = some (status_from_stripe (or_else o.status ""));
        stripe_customer_id = none;
        stripe_subscription_id = o.id;
        stripe_price_id = some i.price_id;
        current_period_start = utc_from_stripe_ts (period_start o i);
        current_period_end = utc_from_stripe_ts (period_end o i);
      })
      now

abbrev pub save_plan :
    Result Error SubscriptionPlan
    → StripeObject
    → StripeItem
    → Time
    → Subscription
    → Service (Unit {0})
save_plan (err e) o i now s w = (err e, w)
save_plan (ok plan) o i now s w = (ok tt, save (synced plan o i now s) w)

abbrev pub apply_item :
    PriceCatalog → Option StripeItem → StripeObject → Time → Subscription → Service (Unit {0})
apply_item prices none o now s w = (err unknown_stripe_price, w)
apply_item prices (some i) o now s w = save_plan (plan_for prices i.price_id) o i now s w

-- `_apply_subscription`
unfoldable pub apply_subscription :
    PriceCatalog → Subscription → StripeObject → Time → Service (Unit {0})
apply_subscription prices s o now = apply_item prices (first_item o.items) o now s

-- `if not x: return` of an optional text
abbrev pub nonempty : Option String → Option String
nonempty none = none
nonempty (some s) = if str_eq s "" then none else some s

-- The local row of the object's customer, none where the handler returns at once.
abbrev pub local_row : Option String → World → Option Subscription
local_row none w = none
local_row (some c) w = get_by_stripe_customer_id c w

abbrev pub apply_fetched :
    PriceCatalog → Option StripeObject → Subscription → Time → Service (Unit {0})
apply_fetched prices none s now w = (err gateway_error, w)
apply_fetched prices (some o) s now w = apply_subscription prices s o now w

abbrev pub fetch_and_apply :
    PriceCatalog → GetSubscription → Option String → Subscription → Time → Service (Unit {0})
fetch_and_apply prices fetch none s now w = (ok tt, w)
fetch_and_apply prices fetch (some id) s now w = apply_fetched prices (fetch id) s now w

-- What each handler does with the row, once it is found.
abbrev pub with_row : Option Subscription → (Subscription → Service (Unit {0})) → Service (Unit {0})
with_row none f w = (ok tt, w)
with_row (some s) f w = f s w

abbrev pub set_status : SubscriptionStatus → Time → Subscription → Service (Unit {0})
set_status status now s w =
    (ok tt, save (update (record no_changes { status = some status }) now s) w)

abbrev pub is_past_due : SubscriptionStatus → Bool
is_past_due past_due = true
is_past_due _ = false

unfoldable pub on_checkout_completed :
    PriceCatalog → GetSubscription → StripeObject → Time → Service (Unit {0})
on_checkout_completed prices fetch o now w =
    with_row (local_row (nonempty o.customer) w)
      (λ s. fetch_and_apply prices fetch (nonempty o.subscription) s now) w

unfoldable pub on_subscription_upsert : PriceCatalog → StripeObject → Time → Service (Unit {0})
on_subscription_upsert prices o now w =
    with_row (local_row (nonempty o.customer) w) (λ s. apply_subscription prices s o now) w

unfoldable pub on_subscription_deleted : StripeObject → Time → Service (Unit {0})
on_subscription_deleted o now w =
    with_row (local_row (nonempty o.customer) w) (set_status cancelled now) w

unfoldable pub on_invoice_payment_failed : StripeObject → Time → Service (Unit {0})
on_invoice_payment_failed o now w =
    with_row (local_row (nonempty o.customer) w)
      (λ s v. if is_past_due s.status then (ok tt, v) else set_status past_due now s v) w

unfoldable pub on_invoice_paid : StripeObject → Time → Service (Unit {0})
on_invoice_paid o now w =
    with_row (local_row (nonempty o.customer) w)
      (λ s v. if is_past_due s.status then set_status active now s v else (ok tt, v)) w

-- The `match` on the event's type.
unfoldable pub dispatch :
    PriceCatalog → GetSubscription → String → StripeObject → Time → Service (Unit {0})
dispatch prices fetch type o now w =
    if str_eq type "checkout.session.completed"
    then on_checkout_completed prices fetch o now w
    else (if str_eq type "customer.subscription.created"
          || str_eq type "customer.subscription.updated"
        then on_subscription_upsert prices o now w
        else (if str_eq type "customer.subscription.deleted"
            then on_subscription_deleted o now w
            else (if str_eq type "invoice.payment_failed"
                then on_invoice_payment_failed o now w
                else (if str_eq type "invoice.paid" then on_invoice_paid o now w else (ok tt, w)))))

-- The event is recorded only after its effects.
abbrev pub record_event :
    StripeEvent → Result Error (Unit {0}) × World → Result Error (Unit {0}) × World
record_event e (err x, w) = (err x, w)
record_event e (ok tt, w) = (ok tt, (try_mark_processed e.id e.type e.raw_payload w).1)

-- `HandleStripeWebhookEvent.execute`
unfoldable pub handle_webhook :
    PriceCatalog → GetSubscription → StripeEvent → Time → Service (Unit {0})
handle_webhook prices fetch e now w =
    if has_processed e.id w
    then (ok tt, w)
    else record_event e (dispatch prices fetch e.type e.data_object now w)
