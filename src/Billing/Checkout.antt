-- ===== src/Billing/Checkout.antt =====
-- Seeding, checkout and the billing portal: src/billing/application/use_cases. The Stripe client is a
-- parameter.
use estate_os_service.Base.{String, Uuid, Time, Option, none, some, str_eq, if◌then◌else◌}
use estate_os_service.Exec.{Result, ok, err}
use estate_os_service.Billing.Model.{
  Subscription, SubscriptionPlan, freemium, manual, stripe, active, inactive, Cadence, PriceCatalog,
  price_id_for, Error, gateway_error, billing_customer_missing, no_changes, update,
}
use estate_os_service.Billing.Store.{World, Service, get_by_organization_id, save}
use estate_os_service.Billing.Webhook.{nonempty}

pub record CheckoutSession : Type 0 where
  pub id : String
  pub url : String

-- The calls of the Stripe client; none is a call that raises. The URLs and the trial days of the
-- settings are part of the client here.
pub record Gateway : Type 0 where
  pub create_customer : Uuid → String → String → Option String
  pub create_checkout_session : String → String → Option CheckoutSession
  pub create_portal_session : String → Option String

abbrev pub freemium_row : Uuid → Uuid → Time → Subscription
freemium_row org fresh now = record {
  id = fresh;
  organization_id = org;
  plan = freemium;
  type = manual;
  status = active;
  stripe_customer_id = none;
  stripe_subscription_id = none;
  stripe_price_id = none;
  current_period_start = some now;
  current_period_end = none;
  created_at = now;
  updated_at = now;
}

-- `SeedFreemiumSubscriptionUseCase.__call__`
unfoldable pub seed_freemium : Uuid → Uuid → Time → Service Subscription
seed_freemium org fresh now w =
    (ok (freemium_row org fresh now), save (freemium_row org fresh now) w)

abbrev pub checkout_row : Uuid → String → Uuid → Time → Subscription
checkout_row org customer fresh now = record {
  id = fresh;
  organization_id = org;
  plan = freemium;
  type = stripe;
  status = inactive;
  stripe_customer_id = some customer;
  stripe_subscription_id = none;
  stripe_price_id = none;
  current_period_start = none;
  current_period_end = none;
  created_at = now;
  updated_at = now;
}

abbrev pub customer_of : Option Subscription → Option String
customer_of none = none
customer_of (some s) = nonempty s.stripe_customer_id

-- `billing_name or billing_email`
abbrev pub name_or : String → String → String
name_or name email = if str_eq name "" then email else name

abbrev pub keep_customer : Option Subscription → Uuid → String → Uuid → Time → World → World
keep_customer none org c fresh now w = save (checkout_row org c fresh now) w
keep_customer (some s) org c fresh now w =
    save (update (record no_changes { stripe_customer_id = some c }) now s) w

abbrev pub open_session : Option CheckoutSession → Service CheckoutSession
open_session none w = (err gateway_error, w)
open_session (some s) w = (ok s, w)

abbrev pub with_new_customer :
    Gateway
    → Option String
    → Option Subscription
    → Uuid
    → String
    → Uuid
    → Time
    → Service CheckoutSession
with_new_customer g none found org price fresh now w = (err gateway_error, w)
with_new_customer g (some c) found org price fresh now w =
    open_session (g.create_checkout_session c price) (keep_customer found org c fresh now w)

abbrev pub with_customer :
    Gateway
    → Option String
    → Option Subscription
    → Uuid
    → String
    → String
    → String
    → Uuid
    → Time
    → Service CheckoutSession
with_customer g (some c) found org price email name fresh now w =
    open_session (g.create_checkout_session c price) w
with_customer g none found org price email name fresh now w =
    with_new_customer g (g.create_customer org email (name_or name email)) found org price fresh now
      w

abbrev pub at_price :
    Gateway
    → Result Error String
    → Option Subscription
    → Uuid
    → String
    → String
    → Uuid
    → Time
    → Service CheckoutSession
at_price g (err e) found org email name fresh now w = (err e, w)
at_price g (ok price) found org email name fresh now w =
    with_customer g (customer_of found) found org price email name fresh now w

-- `StartCheckoutSession.execute`
unfoldable pub start_checkout :
    PriceCatalog
    → Gateway
    → Uuid
    → SubscriptionPlan
    → Cadence
    → String
    → String
    → Uuid
    → Time
    → Service CheckoutSession
start_checkout prices g org plan cadence email name fresh now w =
    at_price g (price_id_for prices plan cadence) (get_by_organization_id org w) org email name
      fresh now w

abbrev pub portal_url : Option String → Result Error String
portal_url none = err gateway_error
portal_url (some url) = ok url

abbrev pub portal_for : Gateway → Option String → Result Error String
portal_for g none = err billing_customer_missing
portal_for g (some c) = portal_url (g.create_portal_session c)

-- `StartBillingPortalSession.execute`
unfoldable pub start_portal : Gateway → Uuid → Service String
start_portal g org w = (portal_for g (customer_of (get_by_organization_id org w)), w)
