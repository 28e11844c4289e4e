-- ===== src/Listings/Convergence.antt =====
-- Deliveries of the events of a listing in any order, with repeats:
-- src/listings/adapters/workers/property_event_handler.py.
use estate_os_service.Base.{
  ℕ, ◌<◌, Uuid, Time, ◌≡◌, refl, Bool, false, Option, none, some, List, [], ◌∷◌, ◌==◌, ◌||◌, ◌↔◌,
  arith, ap, sym, ◌∙◌,
}
use estate_os_service.Listings.Model.{AgencyContact}
use estate_os_service.Listings.Snapshot.{Snapshot}
use estate_os_service.Listings.Handlers.{
  PropertyEvent, property_deleted, property_unpublished, property_created, property_updated,
  property_published, World, Publisher, handle_property_event,
}
use estate_os_service.Listings.Register.{
  Facts, Register, view, accept, offer, absorb, handle_property_event-view,
}
use estate_os_service.Listings.Newest.{IsIn, newest, newest-same}

-- Events with the times at which the worker handles them.
abbrev pub Deliveries : Type 0
Deliveries = List (PropertyEvent × Time)

-- A failed delivery goes on to the next one, and may be in the list again.
abbrev pub replay : Publisher → Option (Uuid → Option AgencyContact) → Deliveries → World → World
replay p g [] w = w
replay p g ((e, now) ∷ ds) w = replay p g ds (handle_property_event p g e now w).1

abbrev pub add_offer : Option (ℕ × Facts) → List (ℕ × Facts) → List (ℕ × Facts)
add_offer none es = es
add_offer (some e) es = e ∷ es

-- The versions of the listing `i` that the deliveries bring.
abbrev pub offers : Uuid → Deliveries → List (ℕ × Facts)
offers i [] = []
offers i ((e, now) ∷ ds) = add_offer (offer i e) (offers i ds)

abbrev pub drops : Uuid → PropertyEvent → Bool
drops i (property_deleted j v at) = j == i
drops i (property_unpublished j v at) = j == i
drops i e = false

abbrev pub drops_any : Uuid → Deliveries → Bool
drops_any i [] = false
drops_any i ((e, now) ∷ ds) = drops i e || drops_any i ds

newest-add :
    (o : Option (ℕ × Facts)) (es : List (ℕ × Facts)) (r : Register)
    → newest (add_offer o es) r ≡ newest es (accept r o)
newest-add none es r = refl
newest-add (some e) es r = refl

absorb-offer :
    (i : Uuid) (e : PropertyEvent) (r : Register)
    → drops i e ≡ false
    → absorb i e r ≡ accept r (offer i e)
absorb-offer i (property_created snap at) r h = refl
absorb-offer i (property_updated snap at) r h = refl
absorb-offer i (property_published snap at) r h = refl
absorb-offer i (property_deleted j v at) r h = ground arith
absorb-offer i (property_unpublished j v at) r h = ground arith

replay-view :
    (p : Publisher) (g : Option (Uuid → Option AgencyContact)) (i : Uuid) (ds : Deliveries)
    (w : World)
    → drops_any i ds ≡ false
    → view i (replay p g ds w) ≡ newest (offers i ds) (view i w)
replay-view p g i [] w h = refl
replay-view p g i ((e, now) ∷ ds) w h =
    replay-view p g i ds (handle_property_event p g e now w).1 (ground arith)
    ∙ ap (newest (offers i ds))
        (handle_property_event-view p g e now i w ∙ absorb-offer i e (view i w) (ground arith))
    ∙ sym (newest-add (offer i e) (offers i ds) (view i w))

cleared :
    (i : Uuid) (stored : ℕ × Facts) (v : ℕ) (at : Time)
    → stored.0 < v
    → absorb i (property_deleted i v at) (some stored) ≡ none
cleared i (u, f) v at h = ground arith

-- For a listing that is not in the read model yet, two deliveries of its events, in any order and
-- with any repeats, neither of which drops it, leave the same version and facts of it, if both
-- bring the same versions and a version always carries the same facts.
pub replay_converges :
    (p : Publisher) (g : Option (Uuid → Option AgencyContact)) (i : Uuid) (ds ds' : Deliveries)
    (w : World)
    → view i w ≡ none
    → drops_any i ds ≡ false
    → drops_any i ds' ≡ false
    → ((e : ℕ × Facts) → IsIn e (offers i ds) ↔ IsIn e (offers i ds'))
    → ((v : ℕ) (f k : Facts) → IsIn (v, f) (offers i ds) → IsIn (v, k) (offers i ds) → f ≡ k)
    → view i (replay p g ds w) ≡ view i (replay p g ds' w)
replay_converges p g i ds ds' w new kept kept' same one =
    replay-view p g i ds w kept
    ∙ ap (newest (offers i ds)) new
    ∙ newest-same (offers i ds) (offers i ds') same one
    ∙ ap (newest (offers i ds')) (sym new)
    ∙ sym (replay-view p g i ds' w kept')

-- A deletion forgets the version of the listing: an event that is older than the deletion, and is
-- handled after it, is applied, and the deleted listing is back.
pub deleted_listing_returns :
    (p : Publisher) (g : Option (Uuid → Option AgencyContact)) (snap : Snapshot)
    (stored offered : ℕ × Facts) (at deleted now now' : Time) (v : ℕ) (w : World)
    → view snap.id w ≡ some stored
    → stored.0 < v
    → snap.aggregate_version < v
    → offer snap.id (property_updated snap at) ≡ some offered
    → view snap.id (
        replay p g
          ((property_deleted snap.id v deleted, now) ∷ (property_updated snap at, now') ∷ [])
          w)
      ≡ some offered
deleted_listing_returns p g snap stored offered at deleted now now' v w here newer older o =
    handle_property_event-view p g (property_updated snap at) now' snap.id
      (handle_property_event p g (property_deleted snap.id v deleted) now w).1
    ∙ ap (λ r. accept r (offer snap.id (property_updated snap at)))
        (handle_property_event-view p g (property_deleted snap.id v deleted) now snap.id w
          ∙ ap (λ r. absorb snap.id (property_deleted snap.id v deleted) r) here
          ∙ cleared snap.id stored v deleted newer)
    ∙ ap (accept none) o
