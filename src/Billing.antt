-- ===== src/Billing.antt =====
-- src/billing: subscriptions, the Stripe webhook and checkout.
pub mod Model
pub mod Store
pub mod Webhook
pub mod Checkout
pub mod Careful
pub mod Outcomes
pub mod Tidy
pub mod Histories
pub mod Tests
