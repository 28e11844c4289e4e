-- ===== src/Billing/Careful.antt =====
-- What a handler of Stripe events leaves alone:
-- src/billing/application/use_cases/handle_stripe_webhook.py.
use estate_os_service.Base.{
  String, Time, ◌≡◌, refl, ap, ◌∙◌, Bool, true, false, Option, none, some, List, [], ◌∷◌, ◌||◌,
  str_eq, eq_iff, if◌then◌else◌, inl, inr, arith, Bool-cases, Option-cases,
}
use estate_os_service.Exec.{Result, ok, err, Result-cases}
use estate_os_service.Json.{Json}
use estate_os_service.Billing.Model.{
  Subscription, SubscriptionStatus, active, past_due, cancelled, PriceCatalog, plan_for, Error,
  update, no_changes, StripeObject, StripeEvent, unknown_stripe_price, gateway_error,
}
use estate_os_service.Billing.Store.{
  World, is_seen, has_processed, try_mark_processed, add_event, get_by_stripe_customer_id, save,
  first_where, is_customer,
}
use estate_os_service.Billing.Tidy.{IsTidy, save_change-IsTidy}
use estate_os_service.Billing.Webhook.{
  GetSubscription, handle_webhook, dispatch, record_event, on_checkout_completed,
  on_subscription_upsert, on_subscription_deleted, on_invoice_payment_failed, on_invoice_paid,
  apply_subscription, first_item, synced, with_row, local_row, nonempty, set_status, is_past_due,
  fetch_and_apply,
}

same_text : (s : String) → str_eq s s ≡ true
same_text s = (eq_iff s s).1 refl

seen-add :
    (i : String) (e : String × Json) (d : List (String × (String × Json)))
    → is_seen i (add_event i e d) ≡ true
seen-add i e [] = rw (same_text i) refl
seen-add i e ((j, f) ∷ d) = ground (arith, seen-add i e d)

seen-keep :
    (i j : String) (e : String × Json) (d : List (String × (String × Json)))
    → is_seen i d ≡ true
    → is_seen i (add_event j e d) ≡ true
seen-keep i j e [] h = ground arith
seen-keep i j e ((k, f) ∷ d) h = ground (arith, seen-keep i j e d)

pub mark-seen :
    (i type : String) (p : Json) (w : World)
    → has_processed i (try_mark_processed i type p w).1 ≡ true
unfolding has_processed try_mark_processed
mark-seen i type p w = ground (arith, seen-add i (type, p) w.seen)

mark-keep :
    (i j type : String) (p : Json) (w : World)
    → has_processed i w ≡ true
    → has_processed i (try_mark_processed j type p w).1 ≡ true
unfolding has_processed try_mark_processed
mark-keep i j type p w h = ground (arith, seen-keep i j (type, p) w.seen)

-- A handler that raises has changed nothing, none of them records an event, and the rows stay tidy.
pub record IsCareful (w : World) (r : Result Error (Unit {0}) × World) : Type 0 where
  pub raised : (x : Error) → r.0 ≡ err x → r.1 ≡ w
  pub unrecorded : r.1.seen ≡ w.seen
  pub tidy : IsTidy w.subscriptions → IsTidy r.1.subscriptions

-- A row that one of the repository's scans returned.
abbrev IsLocal : World → Subscription → Type 0
IsLocal w s = (p : Subscription → Bool) × (first_where p w.subscriptions ≡ some s)

ok-IsCareful : (w : World) → IsCareful w (ok tt, w)
ok-IsCareful w = record { raised = λ x h. refl; unrecorded = refl; tidy = λ t. t }

err-IsCareful : (w : World) (x : Error) → IsCareful w (err x, w)
err-IsCareful w x = record { raised = λ y h. refl; unrecorded = refl; tidy = λ t. t }

save-IsCareful :
    (w : World) (s t : Subscription)
    → IsLocal w s
    → t.id ≡ s.id
    → t.organization_id ≡ s.organization_id
    → IsCareful w (ok tt, save t w)
unfolding save
save-IsCareful w s t (p, h) own same = record {
  raised = λ x e. ground arith;
  unrecorded = refl;
  tidy = save_change-IsTidy p s t w h own same;
}

row-IsCareful :
    (c : Option String) (f : Subscription → World → Result Error (Unit {0}) × World) (w : World)
    → ((s : Subscription) → IsLocal w s → IsCareful w (f s w))
    → IsCareful w (with_row (local_row c w) f w)
unfolding get_by_stripe_customer_id
row-IsCareful none f w h = ok-IsCareful w
row-IsCareful (some c) f w h = elim (Option-cases (get_by_stripe_customer_id c w)) [
  | inl e ↦ rw e (ok-IsCareful w)
  | inr (s, e) ↦ rw e (h s ((λ t. is_customer c t.stripe_customer_id), e))
]

apply-IsCareful :
    (prices : PriceCatalog) (s : Subscription) (o : StripeObject) (now : Time) (w : World)
    → IsLocal w s
    → IsCareful w (apply_subscription prices s o now w)
unfolding apply_subscription update
apply-IsCareful prices s o now w here = elim (Option-cases (first_item o.items)) [
  | inl e ↦ rw e (err-IsCareful w unknown_stripe_price)
  | inr (i, e) ↦ rw e (elim (Result-cases (plan_for prices i.price_id)) [
    | inl (p, f) ↦ rw f (save-IsCareful w s (synced p o i now s) here refl refl)
    | inr (x, f) ↦ rw f (err-IsCareful w x)
  ])
]

fetch-IsCareful :
    (prices : PriceCatalog) (fetch : GetSubscription) (id : Option String) (s : Subscription)
    (now : Time) (w : World)
    → IsLocal w s
    → IsCareful w (fetch_and_apply prices fetch id s now w)
fetch-IsCareful prices fetch none s now w here = ok-IsCareful w
fetch-IsCareful prices fetch (some id) s now w here = elim (Option-cases (fetch id)) [
  | inl e ↦ rw e (err-IsCareful w gateway_error)
  | inr (o, e) ↦ rw e (apply-IsCareful prices s o now w here)
]

if-IsCareful :
    (b : Bool) (w : World) (r q : Result Error (Unit {0}) × World)
    → IsCareful w r
    → IsCareful w q
    → IsCareful w (if b then r else q)
if-IsCareful true w r q h k = h
if-IsCareful false w r q h k = k

status-IsCareful :
    (status : SubscriptionStatus) (now : Time) (s : Subscription) (w : World)
    → IsLocal w s
    → IsCareful w (set_status status now s w)
unfolding update
status-IsCareful status now s w here =
    save-IsCareful w s (update (record no_changes { status = some status }) now s) here refl refl

checkout-IsCareful :
    (prices : PriceCatalog) (fetch : GetSubscription) (o : StripeObject) (now : Time) (w : World)
    → IsCareful w (on_checkout_completed prices fetch o now w)
unfolding on_checkout_completed
checkout-IsCareful prices fetch o now w =
    row-IsCareful (nonempty o.customer)
      (λ s. fetch_and_apply prices fetch (nonempty o.subscription) s now) w
      (λ s here. fetch-IsCareful prices fetch (nonempty o.subscription) s now w here)

upsert-IsCareful :
    (prices : PriceCatalog) (o : StripeObject) (now : Time) (w : World)
    → IsCareful w (on_subscription_upsert prices o now w)
unfolding on_subscription_upsert
upsert-IsCareful prices o now w =
    row-IsCareful (nonempty o.customer) (λ s. apply_subscription prices s o now) w
      (λ s here. apply-IsCareful prices s o now w here)

deleted-IsCareful :
    (o : StripeObject) (now : Time) (w : World) → IsCareful w (on_subscription_deleted o now w)
unfolding on_subscription_deleted
deleted-IsCareful o now w =
    row-IsCareful (nonempty o.customer) (set_status cancelled now) w
      (λ s here. status-IsCareful cancelled now s w here)

failed-IsCareful :
    (o : StripeObject) (now : Time) (w : World) → IsCareful w (on_invoice_payment_failed o now w)
unfolding on_invoice_payment_failed
failed-IsCareful o now w =
    row-IsCareful (nonempty o.customer)
      (λ s v. if is_past_due s.status then (ok tt, v) else set_status past_due now s v) w
      (λ s here.
        if-IsCareful (is_past_due s.status) w (ok tt, w) (set_status past_due now s w)
          (ok-IsCareful w) (status-IsCareful past_due now s w here))

paid-IsCareful : (o : StripeObject) (now : Time) (w : World) → IsCareful w (on_invoice_paid o now w)
unfolding on_invoice_paid
paid-IsCareful o now w =
    row-IsCareful (nonempty o.customer)
      (λ s v. if is_past_due s.status then set_status active now s v else (ok tt, v)) w
      (λ s here.
        if-IsCareful (is_past_due s.status) w (set_status active now s w) (ok tt, w)
          (status-IsCareful active now s w here) (ok-IsCareful w))

pub dispatch-IsCareful :
    (prices : PriceCatalog) (fetch : GetSubscription) (type : String) (o : StripeObject)
    (now : Time) (w : World)
    → IsCareful w (dispatch prices fetch type o now w)
unfolding dispatch
dispatch-IsCareful prices fetch type o now w =
    if-IsCareful (str_eq type "checkout.session.completed") w
      (on_checkout_completed prices fetch o now w) _ (checkout-IsCareful prices fetch o now w)
      (if-IsCareful
        (str_eq type "customer.subscription.created" || str_eq type "customer.subscription.updated")
        w (on_subscription_upsert prices o now w) _ (upsert-IsCareful prices o now w)
        (if-IsCareful (str_eq type "customer.subscription.deleted") w
          (on_subscription_deleted o now w) _ (deleted-IsCareful o now w)
          (if-IsCareful (str_eq type "invoice.payment_failed") w (on_invoice_payment_failed o now w)
            _ (failed-IsCareful o now w)
            (if-IsCareful (str_eq type "invoice.paid") w (on_invoice_paid o now w) (ok tt, w)
              (paid-IsCareful o now w) (ok-IsCareful w)))))

pub record-seen :
    (e : StripeEvent) (w : World) (r : Result Error (Unit {0}) × World)
    → r.0 ≡ ok tt
    → ((record_event e r).0 ≡ ok tt) × (has_processed e.id (record_event e r).1 ≡ true)
record-seen e w (ok u, v) h = (refl, mark-seen e.id e.type e.raw_payload v)
record-seen e w (err x, v) h = ground arith

pub record_raised :
    (e : StripeEvent) (w : World) (r : Result Error (Unit {0}) × World) (x : Error)
    → IsCareful w r
    → r.0 ≡ err x
    → record_event e r ≡ (err x, w)
record_raised e w (ok u, v) x c h = ground arith
record_raised e w (err y, v) x c h = rw (h, c.raised y refl) refl

pub record_keep :
    (e : StripeEvent) (i : String) (w : World) (r : Result Error (Unit {0}) × World)
    → IsCareful w r
    → has_processed i w ≡ true
    → has_processed i (record_event e r).1 ≡ true
unfolding has_processed
record_keep e i w (ok u, v) c h =
    mark-keep i e.id e.type e.raw_payload v (ap (is_seen i) c.unrecorded ∙ h)
record_keep e i w (err y, v) c h = ap (is_seen i) c.unrecorded ∙ h

mark-rows :
    (i type : String) (p : Json) (w : World)
    → (try_mark_processed i type p w).1.subscriptions ≡ w.subscriptions
unfolding try_mark_processed
mark-rows i type p w = ground arith

record-IsTidy :
    (e : StripeEvent) (w : World) (r : Result Error (Unit {0}) × World)
    → IsCareful w r
    → IsTidy w.subscriptions
    → IsTidy (record_event e r).1.subscriptions
record-IsTidy e w (ok u, v) c t = rw (mark-rows e.id e.type e.raw_payload v) (c.tidy t)
record-IsTidy e w (err x, v) c t = c.tidy t

pub webhook-IsTidy :
    (prices : PriceCatalog) (fetch : GetSubscription) (e : StripeEvent) (now : Time) (w : World)
    → IsTidy w.subscriptions
    → IsTidy (handle_webhook prices fetch e now w).1.subscriptions
unfolding handle_webhook
webhook-IsTidy prices fetch e now w t = elim (Bool-cases (has_processed e.id w)) [
  | inl seen ↦ rw seen t
  | inr new ↦ rw new (
      record-IsTidy e w (dispatch prices fetch e.type e.data_object now w)
        (dispatch-IsCareful prices fetch e.type e.data_object now w) t)
]
