-- ===== src/Billing/Outcomes.antt =====
-- Deliveries of Stripe events, with repeats and failures:
-- src/billing/application/use_cases/handle_stripe_webhook.py.
use estate_os_service.Base.{
  String, Time, ◌≡◌, refl, ap, sym, ◌∙◌, true, false, some, List, [], ◌∷◌, str_eq, eq_iff, ◌⊎◌, ◌≢◌,
  inl, inr, arith, Bool-cases, or_else,
}
use estate_os_service.Exec.{Result, ok, err, Result-cases}
use estate_os_service.Dict.{lookup, lookup-insert}
use estate_os_service.Billing.Model.{
  stripe, status_from_stripe, Subscription, SubscriptionPlan, freemium, pro, enterprise, cancelled,
  Cadence, monthly, yearly, PriceCatalog, price_id_for, plan_for, Error, update, no_changes,
  StripeObject, StripeItem, StripeEvent,
}
use estate_os_service.Billing.Store.{
  World, has_processed, try_mark_processed, get_by_stripe_customer_id, save,
}
use estate_os_service.Billing.Webhook.{
  GetSubscription, handle_webhook, dispatch, record_event, on_checkout_completed,
  on_subscription_deleted, apply_subscription, first_item, synced,
}
use estate_os_service.Billing.Careful.{
  mark-seen, dispatch-IsCareful, record-seen, record_raised, record_keep,
}

-- No price of one plan is a price of the other.
pub record AreApart (c : PriceCatalog) : Type 0 where
  pub monthly_monthly : str_eq c.enterprise_monthly c.pro_monthly ≡ false
  pub monthly_yearly : str_eq c.enterprise_monthly c.pro_yearly ≡ false
  pub yearly_monthly : str_eq c.enterprise_yearly c.pro_monthly ≡ false
  pub yearly_yearly : str_eq c.enterprise_yearly c.pro_yearly ≡ false

same_text : (s : String) → str_eq s s ≡ true
same_text s = (eq_iff s s).1 refl

-- The plan of the price that the catalog gives for a plan is that plan, if no price of one plan is a
-- price of the other.
pub plan_for-price_id_for :
    (c : PriceCatalog) (plan : SubscriptionPlan) (cadence : Cadence) (price : String)
    → AreApart c
    → price_id_for c plan cadence ≡ ok price
    → plan_for c price ≡ ok plan
unfolding price_id_for plan_for
plan_for-price_id_for c freemium cadence price apart h = ground arith
plan_for-price_id_for c pro monthly price apart h = ground (arith, same_text c.pro_monthly)
plan_for-price_id_for c pro yearly price apart h = ground (arith, same_text c.pro_yearly)
plan_for-price_id_for c enterprise monthly price apart h =
    ground (arith, same_text c.enterprise_monthly, apart.monthly_monthly, apart.monthly_yearly)
plan_for-price_id_for c enterprise yearly price apart h =
    ground (arith, same_text c.enterprise_yearly, apart.yearly_monthly, apart.yearly_yearly)

clash : {A : Type 0} (x : Error) → Path (Result Error (Unit {0})) (ok tt) (err x) → A
clash x h = ground arith

-- A delivery that raises changes nothing, so that Stripe's retry starts afresh; one that returns has
-- recorded its event.
pub webhook_all_or_nothing :
    (prices : PriceCatalog) (fetch : GetSubscription) (e : StripeEvent) (now : Time) (w : World)
    → ((handle_webhook prices fetch e now w).0 ≡ ok tt
        × (has_processed e.id (handle_webhook prices fetch e now w).1 ≡ true))
      ⊎ ((x : Error) × (handle_webhook prices fetch e now w ≡ (err x, w)))
unfolding handle_webhook
webhook_all_or_nothing prices fetch e now w = elim (Bool-cases (has_processed e.id w)) [
  | inl seen ↦ inl (rw seen (refl, seen))
  | inr new ↦
      let d = dispatch prices fetch e.type e.data_object now w in
      let c = dispatch-IsCareful prices fetch e.type e.data_object now w in
      elim (Result-cases d.0) [
        | inl (u, h) ↦ inl (rw new (record-seen e w d h))
        | inr (x, h) ↦ inr (x, rw new (record_raised e w d x c h))
      ]
]

recorded :
    (prices : PriceCatalog) (fetch : GetSubscription) (e : StripeEvent) (now : Time) (w : World)
    → (handle_webhook prices fetch e now w).0 ≡ ok tt
    → has_processed e.id (handle_webhook prices fetch e now w).1 ≡ true
recorded prices fetch e now w h = elim (webhook_all_or_nothing prices fetch e now w) [
  | inl (o, s) ↦ s
  | inr (x, f) ↦ clash x (sym h ∙ ap (λ r. r.0) f)
]

-- Every later delivery of a recorded event leaves it recorded.
keeps_seen :
    (prices : PriceCatalog) (fetch : GetSubscription) (e : StripeEvent) (now : Time) (i : String)
    (w : World)
    → has_processed i w ≡ true
    → has_processed i (handle_webhook prices fetch e now w).1 ≡ true
unfolding handle_webhook
keeps_seen prices fetch e now i w h = elim (Bool-cases (has_processed e.id w)) [
  | inl seen ↦ rw seen h
  | inr new ↦ rw new (
      record_keep e i w (dispatch prices fetch e.type e.data_object now w)
        (dispatch-IsCareful prices fetch e.type e.data_object now w) h)
]

-- The deliveries of an endpoint, with their times, the first one first.
abbrev pub deliver : PriceCatalog → GetSubscription → List (StripeEvent × Time) → World → World
deliver prices fetch [] w = w
deliver prices fetch ((e, now) ∷ es) w =
    deliver prices fetch es (handle_webhook prices fetch e now w).1

deliver_keeps :
    (prices : PriceCatalog) (fetch : GetSubscription) (i : String) (es : List (StripeEvent × Time))
    (w : World)
    → has_processed i w ≡ true
    → has_processed i (deliver prices fetch es w) ≡ true
deliver_keeps prices fetch i [] w h = h
deliver_keeps prices fetch i ((e, now) ∷ es) w h =
    deliver_keeps prices fetch i es (handle_webhook prices fetch e now w).1
      (keeps_seen prices fetch e now i w h)

seen_ignored :
    (prices : PriceCatalog) (fetch : GetSubscription) (e : StripeEvent) (now : Time) (w : World)
    → has_processed e.id w ≡ true
    → handle_webhook prices fetch e now w ≡ (ok tt, w)
unfolding handle_webhook
seen_ignored prices fetch e now w h = rw h refl

-- An event that was handled without an error takes effect once: whatever was delivered since, a
-- delivery that has its id changes nothing.
pub webhook_once :
    (prices : PriceCatalog) (fetch : GetSubscription) (e e' : StripeEvent) (now later : Time)
    (es : List (StripeEvent × Time)) (w : World)
    → (handle_webhook prices fetch e now w).0 ≡ ok tt
    → e'.id ≡ e.id
    → handle_webhook prices fetch e' later
        (deliver prices fetch es (handle_webhook prices fetch e now w).1)
      ≡ (ok tt, deliver prices fetch es (handle_webhook prices fetch e now w).1)
webhook_once prices fetch e e' now later es w h same = seen_ignored prices fetch e' later _ (
    ap (λ i. has_processed i (deliver prices fetch es (handle_webhook prices fetch e now w).1)) same
    ∙ deliver_keeps prices fetch e.id es (handle_webhook prices fetch e now w).1
        (recorded prices fetch e now w h))

module _ (prices : PriceCatalog) (fetch : GetSubscription) (e : StripeEvent) (now : Time)
    (w : World) where
  checkout_applies :
      (c id : String) (s : Subscription) (o : StripeObject) (i : StripeItem)
      (plan : SubscriptionPlan)
      → e.data_object.customer ≡ some c
      → str_eq c "" ≡ false
      → e.data_object.subscription ≡ some id
      → str_eq id "" ≡ false
      → get_by_stripe_customer_id c w ≡ some s
      → fetch id ≡ some o
      → first_item o.items ≡ some i
      → plan_for prices i.price_id ≡ ok plan
      → on_checkout_completed prices fetch e.data_object now w
        ≡ (ok tt, save (synced plan o i now s) w)
  unfolding on_checkout_completed apply_subscription
  checkout_applies c id s o i plan hc nc hid nid hs ho hi hp =
      rw (hc, nc, hs, hid, nid, ho, hi, hp) refl

  dispatch_checkout :
      (type : String)
      → type ≡ "checkout.session.completed"
      → dispatch prices fetch type e.data_object now w
        ≡ on_checkout_completed prices fetch e.data_object now w
  unfolding dispatch
  dispatch_checkout type h = rw h refl

  dispatch_deleted :
      (type : String)
      → type ≡ "customer.subscription.deleted"
      → dispatch prices fetch type e.data_object now w ≡ on_subscription_deleted e.data_object now w
  unfolding dispatch
  dispatch_deleted type h = rw h refl

  checkout_handled :
      (c id : String) (s : Subscription) (o : StripeObject) (i : StripeItem)
      (plan : SubscriptionPlan)
      → e.type ≡ "checkout.session.completed"
      → has_processed e.id w ≡ false
      → e.data_object.customer ≡ some c
      → str_eq c "" ≡ false
      → e.data_object.subscription ≡ some id
      → str_eq id "" ≡ false
      → get_by_stripe_customer_id c w ≡ some s
      → fetch id ≡ some o
      → first_item o.items ≡ some i
      → plan_for prices i.price_id ≡ ok plan
      → handle_webhook prices fetch e now w ≡ record_event e (ok tt, save (synced plan o i now s) w)
  unfolding handle_webhook
  checkout_handled c id s o i plan ht new hc nc hid nid hs ho hi hp = rw new (
      ap (record_event e)
        (dispatch_checkout e.type ht ∙ checkout_applies c id s o i plan hc nc hid nid hs ho hi hp))

  deletion_applies :
      (c : String) (s : Subscription)
      → e.data_object.customer ≡ some c
      → str_eq c "" ≡ false
      → get_by_stripe_customer_id c w ≡ some s
      → on_subscription_deleted e.data_object now w
        ≡ (ok tt, save (update (record no_changes { status = some cancelled }) now s) w)
  unfolding on_subscription_deleted
  deletion_applies c s hc nc hs = rw (hc, nc, hs) refl

  deletion_handled :
      (c : String) (s : Subscription)
      → e.type ≡ "customer.subscription.deleted"
      → has_processed e.id w ≡ false
      → e.data_object.customer ≡ some c
      → str_eq c "" ≡ false
      → get_by_stripe_customer_id c w ≡ some s
      → handle_webhook prices fetch e now w
        ≡ record_event e
            (ok tt, save (update (record no_changes { status = some cancelled }) now s) w)
  unfolding handle_webhook
  deletion_handled c s ht new hc nc hs =
      rw new (ap (record_event e) (dispatch_deleted e.type ht ∙ deletion_applies c s hc nc hs))

saved_row :
    (e : StripeEvent) (t : Subscription) (w : World)
    → lookup t.id (record_event e (ok tt, save t w)).1.subscriptions ≡ some t
unfolding save try_mark_processed
saved_row e t w = ground (arith, lookup-insert t.id t.id t w.subscriptions)

-- A completed checkout of a known customer stores the plan of the subscription's price on the
-- customer's row and records the event, when the price is in the catalog.
pub checkout_provisions :
    (prices : PriceCatalog) (fetch : GetSubscription) (e : StripeEvent) (now : Time) (w : World)
    (c id : String) (s : Subscription) (o : StripeObject) (i : StripeItem) (plan : SubscriptionPlan)
    → e.type ≡ "checkout.session.completed"
    → has_processed e.id w ≡ false
    → e.data_object.customer ≡ some c
    → str_eq c "" ≡ false
    → e.data_object.subscription ≡ some id
    → str_eq id "" ≡ false
    → get_by_stripe_customer_id c w ≡ some s
    → fetch id ≡ some o
    → first_item o.items ≡ some i
    → plan_for prices i.price_id ≡ ok plan
    → let (r, w') = handle_webhook prices fetch e now w in
      (r ≡ ok tt)
      × (has_processed e.id w' ≡ true)
      × ((t : Subscription) × (lookup s.id w'.subscriptions ≡ some t)
          × (t.plan ≡ plan)
          × (t.type ≡ stripe)
          × (t.status ≡ status_from_stripe (or_else o.status ""))
          × (t.stripe_price_id ≡ some i.price_id)
          × (t.organization_id ≡ s.organization_id))
unfolding update
checkout_provisions prices fetch e now w c id s o i plan ht new hc nc hid nid hs ho hi hp =
    rw (checkout_handled prices fetch e now w c id s o i plan ht new hc nc hid nid hs ho hi hp) (
      refl,
      mark-seen e.id e.type e.raw_payload (save (synced plan o i now s) w),
      (synced plan o i now s, saved_row e (synced plan o i now s) w, refl, refl, refl, refl, refl),
    )

-- The deletion of any subscription of a customer cancels the customer's row, also when the row is
-- about another subscription, which it goes on naming.
pub foreign_deletion_cancels :
    (prices : PriceCatalog) (fetch : GetSubscription) (e : StripeEvent) (now : Time) (w : World)
    (c old current : String) (s : Subscription)
    → e.type ≡ "customer.subscription.deleted"
    → has_processed e.id w ≡ false
    → e.data_object.customer ≡ some c
    → str_eq c "" ≡ false
    → e.data_object.id ≡ some old
    → get_by_stripe_customer_id c w ≡ some s
    → s.stripe_subscription_id ≡ some current
    → old ≢ current
    → (t : Subscription) × (lookup s.id (handle_webhook prices fetch e now w).1.subscriptions
        ≡ some t)
      × (t.status ≡ cancelled)
      × (t.stripe_subscription_id ≡ some current)
unfolding update
foreign_deletion_cancels prices fetch e now w c old current s ht new hc nc ho hs named differ =
    let t = update (record no_changes { status = some cancelled }) now s in
    rw (deletion_handled prices fetch e now w c s ht new hc nc hs) (t, saved_row e t w, refl, named)
