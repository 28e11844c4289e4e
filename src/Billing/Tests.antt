-- ===== src/Billing/Tests.antt =====
-- The billing theorems at one organization with a customer and a catalog of four prices.
use estate_os_service.Base.{String, ◌≡◌, ◌≢◌, refl, true, none, some, [], ◌∷◌, ◌⊎◌, arith, eq_iff}
use estate_os_service.Exec.{ok, err}
use estate_os_service.Json.{null}
use estate_os_service.Dict.{lookup}
use estate_os_service.Billing.Model.{
  Subscription, pro, stripe, cancelled, PriceCatalog, plan_for, Error, status_from_stripe,
  StripeItem, StripeObject, StripeEvent,
}
use estate_os_service.Billing.Store.{World, has_processed, get_by_stripe_customer_id}
use estate_os_service.Billing.Webhook.{GetSubscription, handle_webhook}
use estate_os_service.Billing.Checkout.{checkout_row}
use estate_os_service.Billing.Tidy.{IsTidy}
use estate_os_service.Billing.Histories.{done, then_step, receives, steps-IsTidy}
use estate_os_service.Billing.Outcomes.{
  AreApart, webhook_all_or_nothing, deliver, webhook_once, checkout_provisions,
  foreign_deletion_cancels,
}

abbrev catalog : PriceCatalog
catalog = record {
  pro_monthly = "p_m";
  pro_yearly = "p_y";
  enterprise_monthly = "e_m";
  enterprise_yearly = "e_y";
}

catalog-AreApart : AreApart catalog
catalog-AreApart = record {
  monthly_monthly = refl;
  monthly_yearly = refl;
  yearly_monthly = refl;
  yearly_yearly = refl;
}

abbrev item : StripeItem
item = record { price_id = "p_m"; current_period_start = some 10; current_period_end = some 20 }

abbrev bought : StripeObject
bought = record {
  id = some "sub_b";
  customer = some "cus";
  subscription = none;
  status = some "active";
  items = item ∷ [];
  current_period_start = none;
  current_period_end = none;
}

abbrev session : StripeObject
session = record bought { id = some "cs"; subscription = some "sub_b"; items = [] }

abbrev fetch : GetSubscription
fetch id = some bought

abbrev event : String → String → StripeObject → StripeEvent
event id type o = record { id = id; type = type; data_object = o; raw_payload = null }

abbrev row : Subscription
row = checkout_row 7 "cus" 1 100

abbrev world : World
world = record { subscriptions = (1, row) ∷ []; seen = [] }

abbrev completed : StripeEvent
completed = event "evt_1" "checkout.session.completed" session

checkout_provisions_example :
    let (r, w') = handle_webhook catalog fetch completed 200 world in
    (r ≡ ok tt)
    × (has_processed "evt_1" w' ≡ true)
    × ((t : Subscription) × (lookup 1 w'.subscriptions ≡ some t)
        × (t.plan ≡ pro)
        × (t.type ≡ stripe)
        × (t.status ≡ status_from_stripe "active")
        × (t.stripe_price_id ≡ some "p_m")
        × (t.organization_id ≡ 7))
unfolding has_processed get_by_stripe_customer_id plan_for
checkout_provisions_example =
    checkout_provisions catalog fetch completed 200 world "cus" "sub_b" row bought item pro refl
      refl refl refl refl refl refl refl refl refl

webhook_all_or_nothing_example :
    ((handle_webhook catalog fetch completed 200 world).0 ≡ ok tt
      × (has_processed "evt_1" (handle_webhook catalog fetch completed 200 world).1 ≡ true))
    ⊎ ((x : Error) × (handle_webhook catalog fetch completed 200 world ≡ (err x, world)))
webhook_all_or_nothing_example = webhook_all_or_nothing catalog fetch completed 200 world

abbrev removed : StripeEvent
removed = event "evt_2" "customer.subscription.deleted" (record bought { id = some "sub_a" })

webhook_once_example :
    handle_webhook catalog fetch completed 400 (
      deliver catalog fetch
        ((removed, 300) ∷ [])
        (handle_webhook catalog fetch completed 200 world).1)
    ≡ (
      ok tt,
      deliver catalog fetch
          ((removed, 300) ∷ [])
          (handle_webhook catalog fetch completed 200 world).1,
    )
webhook_once_example =
    webhook_once catalog fetch completed completed 200 400 ((removed, 300) ∷ []) world
      checkout_provisions_example.0 refl

abbrev subscribed : World
subscribed = record {
  subscriptions = (1, record row { stripe_subscription_id = some "sub_b" }) ∷ [];
  seen = [];
}

differ : ◌≢◌ {A = String} "sub_a" "sub_b"
differ e = ground (arith, (eq_iff "sub_a" "sub_b").1 e)

foreign_deletion_cancels_example :
    (t : Subscription) × (lookup 1
        (handle_webhook catalog fetch removed 300 subscribed).1.subscriptions
      ≡ some t)
    × (t.status ≡ cancelled)
    × (t.stripe_subscription_id ≡ some "sub_b")
unfolding has_processed get_by_stripe_customer_id
foreign_deletion_cancels_example =
    foreign_deletion_cancels catalog fetch removed 300 subscribed "cus" "sub_a" "sub_b" _ refl refl
      refl refl refl refl refl differ

steps-IsTidy_example : IsTidy (handle_webhook catalog fetch completed 200 world).1.subscriptions
steps-IsTidy_example =
    steps-IsTidy catalog world (handle_webhook catalog fetch completed 200 world).1
      (then_step done (receives fetch completed 200)) (refl, refl, refl, tt)
