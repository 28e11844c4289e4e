-- ===== src/Billing/Tidy.antt =====
-- One subscription for each organization: src/billing/application/use_cases over
-- src/billing/adapters/inmemory/inmemory_subscription_repo.py.
use estate_os_service.Base.{
  String, Uuid, Time, ◌≡◌, refl, ap, sym, ◌∙◌, subst, Bool, true, false, Option, none, some, [],
  ◌∷◌, ◌==◌, inl, inr, arith, Bool-cases, Option-cases,
}
use estate_os_service.Exec.{Result-cases}
use estate_os_service.Dict.{Dict, lookup, insert, lookup-insert}
use estate_os_service.Billing.Model.{
  Subscription, SubscriptionPlan, Cadence, PriceCatalog, price_id_for, update, no_changes,
}
use estate_os_service.Billing.Store.{World, save, first_where, get_by_organization_id}
use estate_os_service.Billing.Checkout.{
  seed_freemium, freemium_row, checkout_row, keep_customer, customer_of, name_or, open_session,
  start_checkout, Gateway, CheckoutSession,
}

abbrev pub of_org : Uuid → Subscription → Bool
of_org o s = s.organization_id == o

-- Every row is stored under its id and no id or organization has two rows.
abbrev pub IsTidy : Dict Subscription → Type 0
IsTidy [] = Unit
IsTidy ((k, s) ∷ d) =
    (s.id ≡ k) × (lookup k d ≡ none) × (first_where (of_org s.organization_id) d ≡ none) × IsTidy d

pub lookup-first_where :
    (p : Subscription → Bool) (s : Subscription) (d : Dict Subscription)
    → IsTidy d
    → first_where p d ≡ some s
    → lookup s.id d ≡ some s
lookup-first_where p s [] t h = ground arith
lookup-first_where p s ((k, u) ∷ d) (own, new, alone, rest) h =
    ground (arith, lookup-first_where p s d rest)

org-insert_old :
    (o k : Uuid) (s t : Subscription) (d : Dict Subscription)
    → lookup k d ≡ some s
    → t.organization_id ≡ s.organization_id
    → first_where (of_org o) d ≡ none
    → first_where (of_org o) (insert k t d) ≡ none
org-insert_old o k s t [] h same none_of = ground arith
org-insert_old o k s t ((j, u) ∷ d) h same none_of = ground (arith, org-insert_old o k s t d)

org-insert_new :
    (o k : Uuid) (t : Subscription) (d : Dict Subscription)
    → of_org o t ≡ false
    → first_where (of_org o) d ≡ none
    → first_where (of_org o) (insert k t d) ≡ none
org-insert_new o k t [] other none_of = ground arith
org-insert_new o k t ((j, u) ∷ d) other none_of = ground (arith, org-insert_new o k t d)

head_org :
    (k j : Uuid) (s u : Subscription) (d : Dict Subscription)
    → (j == k) ≡ true
    → lookup k ((j, u) ∷ d) ≡ some s
    → s.organization_id ≡ u.organization_id
head_org k j s u d e h = ground arith

pub change-IsTidy :
    (k : Uuid) (s t : Subscription) (d : Dict Subscription)
    → lookup k d ≡ some s
    → t.id ≡ k
    → t.organization_id ≡ s.organization_id
    → IsTidy d
    → IsTidy (insert k t d)
change-IsTidy k s t [] h own same tidy = (own, refl, refl, tt)
change-IsTidy k s t ((j, u) ∷ d) h own same (mine, new, alone, rest) = elim (Bool-cases (j == k)) [
  | inl e ↦ rw e (
    own,
    ground arith,
    subst (λ o. first_where (of_org o) d ≡ none) (sym (same ∙ head_org k j s u d e h)) alone,
    rest,
  )
  | inr e ↦ rw e (
    mine,
    ground (arith, lookup-insert k j t d),
    org-insert_old u.organization_id k s t d (ground arith) same alone,
    change-IsTidy k s t d (ground arith) own same rest,
  )
]

pub add-IsTidy :
    (k : Uuid) (t : Subscription) (d : Dict Subscription)
    → lookup k d ≡ none
    → t.id ≡ k
    → first_where (of_org t.organization_id) d ≡ none
    → IsTidy d
    → IsTidy (insert k t d)
add-IsTidy k t [] h own one tidy = (own, refl, refl, tt)
add-IsTidy k t ((j, u) ∷ d) h own one (mine, new, alone, rest) = elim (Bool-cases (j == k)) [
  | inl e ↦ ground arith
  | inr e ↦ rw e (
    mine,
    ground (arith, lookup-insert k j t d),
    org-insert_new u.organization_id k t d (ground arith) alone,
    add-IsTidy k t d (ground arith) own (ground arith) rest,
  )
]

abbrev pub find_org : Uuid → World → Option Subscription
find_org o w = first_where (of_org o) w.subscriptions

pub save_change-IsTidy :
    (p : Subscription → Bool) (s t : Subscription) (w : World)
    → first_where p w.subscriptions ≡ some s
    → t.id ≡ s.id
    → t.organization_id ≡ s.organization_id
    → IsTidy w.subscriptions
    → IsTidy (save t w).subscriptions
unfolding save
save_change-IsTidy p s t w h own same tidy =
    change-IsTidy t.id s t w.subscriptions
      (ap (λ i. lookup i w.subscriptions) own ∙ lookup-first_where p s w.subscriptions tidy h) refl
      same tidy

save_new-IsTidy :
    (t : Subscription) (w : World)
    → lookup t.id w.subscriptions ≡ none
    → find_org t.organization_id w ≡ none
    → IsTidy w.subscriptions
    → IsTidy (save t w).subscriptions
unfolding save
save_new-IsTidy t w new alone tidy = add-IsTidy t.id t w.subscriptions new refl alone tidy

pub seed-IsTidy :
    (org fresh : Uuid) (now : Time) (w : World)
    → lookup fresh w.subscriptions ≡ none
    → find_org org w ≡ none
    → IsTidy w.subscriptions
    → IsTidy (seed_freemium org fresh now w).1.subscriptions
unfolding seed_freemium
seed-IsTidy org fresh now w new alone tidy =
    save_new-IsTidy (freemium_row org fresh now) w new alone tidy

keep-IsTidy :
    (found : Option Subscription) (org : Uuid) (c : String) (fresh : Uuid) (now : Time) (w : World)
    → find_org org w ≡ found
    → lookup fresh w.subscriptions ≡ none
    → IsTidy w.subscriptions
    → IsTidy (keep_customer found org c fresh now w).subscriptions
unfolding update
keep-IsTidy none org c fresh now w h new tidy =
    save_new-IsTidy (checkout_row org c fresh now) w new h tidy
keep-IsTidy (some s) org c fresh now w h new tidy =
    save_change-IsTidy (of_org org) s
      (update (record no_changes { stripe_customer_id = some c }) now s) w h refl refl tidy

open-rows : (o : Option CheckoutSession) (w : World) → (open_session o w).1 ≡ w
open-rows none w = refl
open-rows (some s) w = refl

pub checkout-IsTidy :
    (prices : PriceCatalog) (g : Gateway) (org : Uuid) (plan : SubscriptionPlan) (cadence : Cadence)
    (email name : String) (fresh : Uuid) (now : Time) (w : World)
    → lookup fresh w.subscriptions ≡ none
    → IsTidy w.subscriptions
    → IsTidy (start_checkout prices g org plan cadence email name fresh now w).1.subscriptions
unfolding start_checkout get_by_organization_id
checkout-IsTidy prices g org plan cadence email name fresh now w new tidy =
    elim (Result-cases (price_id_for prices plan cadence)) [
      | inr (x, e) ↦ rw e tidy
      | inl (price, e) ↦ rw e (elim (Option-cases (customer_of (find_org org w))) [
        | inr (c, f) ↦ rw (f, open-rows (g.create_checkout_session c price) w) tidy
        | inl f ↦ rw f (elim (Option-cases (g.create_customer org email (name_or name email))) [
          | inl k ↦ rw k tidy
          | inr (c, k) ↦
              rw
                (
                  k,
                  open-rows (g.create_checkout_session c price)
                      (keep_customer (find_org org w) org c fresh now w),
                )
                (keep-IsTidy (find_org org w) org c fresh now w refl new tidy)
        ])
      ])
    ]
