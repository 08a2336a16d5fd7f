-- ===== src/Notify/Dispatcher/Progress.antt =====
-- A delivery can always go on.
use superapi.Prelude.{ℕ, Bool, true, ◌≡◌, refl, none, some, ltb, if◌then◌else◌, arith}
use superapi.Prelude.Places.{get_elem?, le-total}
use superapi.Notify.Dispatcher.{
  Message, Phase, sending, sent, released, uncounted, Delivery, Dispatcher, advance, Event,
  delivery, step,
}
use superapi.Notify.Dispatcher.Accounts.{IsConsistent, slot_of, present}

abbrev pub CanStep : Event → Dispatcher → Type 0
CanStep ev d = (e : Dispatcher) × (step ev d ≡ some e)

guarded_some :
    (b : Bool) (d : Dispatcher)
    → b ≡ true
    → (e : Dispatcher) × ((if b then some d else none) ≡ some e)
guarded_some b d h = (d, rw h refl)

advance_total :
    (i : ℕ) (failed : Bool) (m : Message) (p : Phase) (d : Dispatcher)
    → IsConsistent d
    → get_elem? i d.deliveries ≡ some (record { message = m; phase = p })
    → (e : Dispatcher) × (advance i failed m p d ≡ some e)
unfolding advance slot_of present
advance_total i failed m sending d h at = (_, refl)
advance_total i failed m sent d h at =
    let x : Delivery = record { message = m; phase = sent } in
    guarded_some (ltb 0 d.slots) _ (ground (arith, le-total slot_of i x d.deliveries at))
advance_total i failed m released d h at = (_, refl)
advance_total i failed m uncounted d h at =
    let x : Delivery = record { message = m; phase = uncounted } in
    guarded_some (ltb 0 d.wg) _ (ground (arith, le-total present i x d.deliveries at))

-- The next action of a delivery is never blocked by the channel, and never lowers the WaitGroup
-- below zero.
pub delivery-CanStep :
    (i : ℕ) (failed : Bool) (x : Delivery) (d : Dispatcher)
    → IsConsistent d
    → get_elem? i d.deliveries ≡ some x
    → CanStep (delivery i failed) d
unfolding step
delivery-CanStep i failed x d h at = rw at (advance_total i failed x.message x.phase d h at)
