-- ===== src/Billing/Model.antt =====
-- src/billing/domain/models/subscription.py, the price catalog, and the parts of a Stripe event that
-- the webhook reads. A key that the code reads by `.get` is an option.
use estate_os_service.Base.{
  ℕ, String, Uuid, Time, Option, none, some, List, or_else, ◌||◌, str_eq, if◌then◌else◌,
}
use estate_os_service.Exec.{Result, ok, err}
use estate_os_service.Json.{Json}

pub data SubscriptionPlan : Type 0 where
  freemium pro enterprise : SubscriptionPlan

pub data SubscriptionType : Type 0 where
  stripe manual deposit : SubscriptionType

pub data SubscriptionStatus : Type 0 where
  active cancelled past_due trialing inactive : SubscriptionStatus

-- What the use cases raise; `gateway_error` stands for any exception of the Stripe client.
pub data Error : Type 0 where
  unknown_stripe_price billing_customer_missing gateway_error : Error

pub record Subscription : Type 0 where
  pub id : Uuid
  pub organization_id : Uuid
  pub plan : SubscriptionPlan
  pub type : SubscriptionType
  pub status : SubscriptionStatus
  pub stripe_customer_id : Option String
  pub stripe_subscription_id : Option String
  pub stripe_price_id : Option String
  pub current_period_start : Option Time
  pub current_period_end : Option Time
  pub created_at : Time
  pub updated_at : Time

-- "if x is not None: self.x = x" of a field that is an option itself
abbrev pub given_or {ℓ} : {A : Type ℓ} → Option A → Option A → Option A
given_or none old = old
given_or (some x) old = some x

-- The keyword arguments of `Subscription.update`.
pub record Changes : Type 0 where
  pub plan : Option SubscriptionPlan
  pub type : Option SubscriptionType
  pub status : Option SubscriptionStatus
  pub stripe_customer_id : Option String
  pub stripe_subscription_id : Option String
  pub stripe_price_id : Option String
  pub current_period_start : Option Time
  pub current_period_end : Option Time

abbrev pub no_changes : Changes
no_changes = record {
  plan = none;
  type = none;
  status = none;
  stripe_customer_id = none;
  stripe_subscription_id = none;
  stripe_price_id = none;
  current_period_start = none;
  current_period_end = none;
}

unfoldable pub update : Changes → Time → Subscription → Subscription
update c now s = record s {
  plan = or_else c.plan s.plan;
  type = or_else c.type s.type;
  status = or_else c.status s.status;
  stripe_customer_id = given_or c.stripe_customer_id s.stripe_customer_id;
  stripe_subscription_id = given_or c.stripe_subscription_id s.stripe_subscription_id;
  stripe_price_id = given_or c.stripe_price_id s.stripe_price_id;
  current_period_start = given_or c.current_period_start s.current_period_start;
  current_period_end = given_or c.current_period_end s.current_period_end;
  updated_at = now;
}

pub data Cadence : Type 0 where
  monthly yearly : Cadence

pub record PriceCatalog : Type 0 where
  pub pro_monthly : String
  pub pro_yearly : String
  pub enterprise_monthly : String
  pub enterprise_yearly : String

unfoldable pub price_id_for : PriceCatalog → SubscriptionPlan → Cadence → Result Error String
price_id_for c pro monthly = ok c.pro_monthly
price_id_for c pro yearly = ok c.pro_yearly
price_id_for c enterprise monthly = ok c.enterprise_monthly
price_id_for c enterprise yearly = ok c.enterprise_yearly
price_id_for c freemium cadence = err unknown_stripe_price

unfoldable pub plan_for : PriceCatalog → String → Result Error SubscriptionPlan
plan_for c price_id =
    if str_eq price_id c.pro_monthly || str_eq price_id c.pro_yearly
    then ok pro
    else (if str_eq price_id c.enterprise_monthly || str_eq price_id c.enterprise_yearly
        then ok enterprise
        else err unknown_stripe_price)

-- `_status_from_stripe`
unfoldable pub status_from_stripe : String → SubscriptionStatus
status_from_stripe s =
    if str_eq s "active"
    then active
    else (if str_eq s "trialing"
        then trialing
        else (if str_eq s "past_due" || str_eq s "unpaid"
            then past_due
            else (if str_eq s "canceled" then cancelled else inactive)))

-- One of `items.data`: `price.id` and the period that newer API versions put here.
pub record StripeItem : Type 0 where
  pub price_id : String
  pub current_period_start : Option ℕ
  pub current_period_end : Option ℕ

-- `event.data_object`, a checkout session, a subscription or an invoice.
pub record StripeObject : Type 0 where
  pub id : Option String
  pub customer : Option String
  pub subscription : Option String
  pub status : Option String
  pub items : List StripeItem
  pub current_period_start : Option ℕ
  pub current_period_end : Option ℕ

pub record StripeEvent : Type 0 where
  pub id : String
  pub type : String
  pub data_object : StripeObject
  pub raw_payload : Json
