-- ===== src/Billing/Histories.antt =====
-- Histories of what billing does to its rows: src/billing/application/use_cases.
use estate_os_service.Base.{String, Uuid, Time, ◌≡◌, none}
use estate_os_service.Dict.{lookup}
use estate_os_service.Billing.Model.{SubscriptionPlan, Cadence, PriceCatalog, StripeEvent}
use estate_os_service.Billing.Store.{World}
use estate_os_service.Billing.Webhook.{GetSubscription, handle_webhook}
use estate_os_service.Billing.Checkout.{Gateway, seed_freemium, start_checkout}
use estate_os_service.Billing.Tidy.{IsTidy, find_org, seed-IsTidy, checkout-IsTidy}
use estate_os_service.Billing.Careful.{webhook-IsTidy}

-- One call, which may return or raise; a fresh id is not in use, and a seeded organization is new.
pub data Step (prices : PriceCatalog) (w : World) : World → Type 0 where
  seeds :
      (org fresh : Uuid) (now : Time)
      → lookup fresh w.subscriptions ≡ none
      → find_org org w ≡ none
      → Step prices w (seed_freemium org fresh now w).1
  checks_out :
      (g : Gateway) (org : Uuid) (plan : SubscriptionPlan) (cadence : Cadence) (email name : String)
      (fresh : Uuid) (now : Time)
      → lookup fresh w.subscriptions ≡ none
      → Step prices w (start_checkout prices g org plan cadence email name fresh now w).1
  receives :
      (fetch : GetSubscription) (e : StripeEvent) (now : Time)
      → Step prices w (handle_webhook prices fetch e now w).1

pub data Steps (prices : PriceCatalog) (w : World) : World → Type 0 where
  done : Steps prices w w
  then_step : {w' w'' : World} → Steps prices w w' → Step prices w' w'' → Steps prices w w''

step-IsTidy :
    (prices : PriceCatalog) (w w' : World)
    → Step prices w w'
    → IsTidy w.subscriptions
    → IsTidy w'.subscriptions
step-IsTidy prices w _ (seeds org fresh now new alone) t = seed-IsTidy org fresh now w new alone t
step-IsTidy prices w _ (checks_out g org plan cadence email name fresh now new) t =
    checkout-IsTidy prices g org plan cadence email name fresh now w new t
step-IsTidy prices w _ (receives fetch e now) t = webhook-IsTidy prices fetch e now w t

-- Any history of seeds of new organizations, checkouts and Stripe events keeps every subscription
-- stored under its id, with at most one of them for each organization.
pub steps-IsTidy :
    (prices : PriceCatalog) (w w' : World)
    → Steps prices w w'
    → IsTidy w.subscriptions
    → IsTidy w'.subscriptions
steps-IsTidy prices w _ done t = t
steps-IsTidy prices w w'' (then_step {w'} ss s) t =
    step-IsTidy prices w' w'' s (steps-IsTidy prices w w' ss t)
