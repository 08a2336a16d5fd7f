-- ===== src/Notify/Dispatcher/Drain.antt =====
-- How the deliveries that Shutdown finds come to an end.
use superapi.Prelude.{
  ℕ, zero, suc, ◌+◌, ◌*◌, ◌≤◌, Bool, true, false, ◌≡◌, refl, ◌⊎◌, inl, inr, Option, none, some,
  List, [], ◌∷◌, arith, Option-cases, subst,
}
use superapi.Prelude.Places.{get_elem?, total, total-replace_at, total-remove_at}
use superapi.Notify.Dispatcher.{
  Message, Phase, sending, sent, released, uncounted, Delivery, Waiter, filling, emptying, LogLine,
  Dispatcher, logged, dispatch, advance, deliver, wait_on, wait, cancel_on, cancel, begin_shutdown,
  drained, out_of_time, Event, notify, delivery, start_wait, turn_wait, cancel_wait, start_shutdown,
  finish_shutdown, time_out, step, new_dispatcher,
}
use superapi.Notify.Dispatcher.Accounts.{
  IsConsistent, present, step-IsConsistent, Reach, Reach-IsConsistent,
}
use superapi.Notify.Dispatcher.Progress.{CanStep, delivery-CanStep}

-- How many actions a delivery still has before it.
unfoldable pub work : Delivery → ℕ
work x = elim x.phase [ sending ↦ 4 | sent ↦ 3 | released ↦ 2 | uncounted ↦ 1 ]

abbrev and_then : Option Dispatcher → (Dispatcher → Option Dispatcher) → Option Dispatcher
and_then none f = none
and_then (some d) f = f d

unfoldable pub run : List Event → Dispatcher → Option Dispatcher
unfolding step
run [] d = some d
run (ev ∷ evs) d = and_then (step ev d) (λ e. run evs e)

abbrev pub one_if_delivery : Event → ℕ
one_if_delivery (delivery i failed) = 1
one_if_delivery _ = 0

unfoldable pub delivery_steps : List Event → ℕ
delivery_steps [] = 0
delivery_steps (ev ∷ evs) = one_if_delivery ev + delivery_steps evs

-- A step of a closed dispatcher leaves it closed, and starts no delivery.
abbrev Closes : ℕ → Dispatcher → Dispatcher → Type 0
Closes n d e = (e.closed ≡ true) × (n + total work e.deliveries ≡ total work d.deliveries)

logged-Closes : (l : LogLine) (d : Dispatcher) → d.closed ≡ true → Closes 0 d (logged l d)
unfolding logged
logged-Closes l d c = ground arith

advance-Closes :
    (i : ℕ) (failed : Bool) (m : Message) (p : Phase) (d e : Dispatcher)
    → get_elem? i d.deliveries ≡ some (record { message = m; phase = p })
    → advance i failed m p d ≡ some e
    → d.closed ≡ true
    → Closes 1 d e
unfolding advance work logged
advance-Closes i failed m sending d e at eq c =
    let x : Delivery = record { message = m; phase = sending } in
    let y : Delivery = record { message = m; phase = sent } in
    ground (arith, total-replace_at work i x y d.deliveries at)
advance-Closes i failed m sent d e at eq c =
    let x : Delivery = record { message = m; phase = sent } in
    let y : Delivery = record { message = m; phase = released } in
    ground (arith, total-replace_at work i x y d.deliveries at)
advance-Closes i failed m released d e at eq c =
    let x : Delivery = record { message = m; phase = released } in
    let y : Delivery = record { message = m; phase = uncounted } in
    ground (arith, total-replace_at work i x y d.deliveries at)
advance-Closes i failed m uncounted d e at eq c =
    let x : Delivery = record { message = m; phase = uncounted } in
    ground (arith, total-remove_at work i x d.deliveries at)

deliver-Closes :
    (i : ℕ) (failed : Bool) (o : Option Delivery) (d e : Dispatcher)
    → get_elem? i d.deliveries ≡ o
    → deliver i failed o d ≡ some e
    → d.closed ≡ true
    → Closes 1 d e
deliver-Closes i failed none d e at eq c = ground arith
deliver-Closes i failed (some x) d e at eq c = advance-Closes i failed x.message x.phase d e at eq c

wait-Closes :
    (i : ℕ) (o : Option Waiter) (d e : Dispatcher)
    → wait i o d ≡ some e
    → d.closed ≡ true
    → Closes 0 d e
unfolding wait_on
wait-Closes i none d e eq c = ground arith
wait-Closes i (some (filling n)) d e eq c = ground arith
wait-Closes i (some (emptying b zero)) d e eq c = ground arith
wait-Closes i (some (emptying b (suc n))) d e eq c = ground arith

cancel-Closes :
    (i : ℕ) (o : Option Waiter) (d e : Dispatcher)
    → cancel i o d ≡ some e
    → d.closed ≡ true
    → Closes 0 d e
unfolding cancel_on
cancel-Closes i none d e eq c = ground arith
cancel-Closes i (some (filling n)) d e eq c = ground arith
cancel-Closes i (some (emptying b n)) d e eq c = ground arith

step-Closes :
    (ev : Event) (d e : Dispatcher)
    → step ev d ≡ some e
    → d.closed ≡ true
    → Closes (one_if_delivery ev) d e
unfolding step dispatch begin_shutdown drained out_of_time
step-Closes (notify m) d e eq c = ground (arith, logged-Closes (LogLine.shut_down m.kind) d c)
step-Closes (delivery i failed) d e eq c =
    deliver-Closes i failed (get_elem? i d.deliveries) d e refl eq c
step-Closes start_wait d e eq c = ground arith
step-Closes (turn_wait i) d e eq c = wait-Closes i (get_elem? i d.waiters) d e eq c
step-Closes (cancel_wait i) d e eq c = cancel-Closes i (get_elem? i d.waiters) d e eq c
step-Closes start_shutdown d e eq c = ground arith
step-Closes finish_shutdown d e eq c = ground arith
step-Closes time_out d e eq c = ground arith

-- The goroutines are gone, or one of them can go on.
abbrev pub Settles : Dispatcher → Type 0
Settles e = (e.wg ≡ 0) ⊎ CanStep (delivery 0 false) e

total-le-four : (ds : List Delivery) → total work ds ≤ 4 * total present ds
unfolding total work present
total-le-four [] = omega arith
total-le-four (x ∷ ds) = ground (arith, total-le-four ds)

Settles-of : (ds : List Delivery) (e : Dispatcher) → e.deliveries ≡ ds → IsConsistent e → Settles e
unfolding total
Settles-of [] e eq h =
    let none_left : total present e.deliveries ≡ 0 = rw eq refl in inl (omega (arith, h.running))
Settles-of (x ∷ ds) e eq h = inr (delivery-CanStep 0 false x e h (rw eq refl))

abbrev pub Drains : List Event → Dispatcher → Dispatcher → Type 0
Drains evs d e =
    (delivery_steps evs + total work e.deliveries ≡ total work d.deliveries) × Settles e

run-Drains :
    (evs : List Event) (d e : Dispatcher)
    → d.closed ≡ true
    → IsConsistent d
    → run evs d ≡ some e
    → Drains evs d e
unfolding run delivery_steps
run-Drains [] d e c h eq =
    let same : d ≡ e = ground arith in
    (ground arith, Settles-of e.deliveries e refl (subst IsConsistent same h))
run-Drains (ev ∷ evs) d e c h eq = elim (Option-cases (step ev d)) [
  | inl stuck ↦ let none_some : none ≡ some e = rw (stuck, run) at eq in absurd (ground arith)
  | inr (m, has) ↦
      let rest : run evs m ≡ some e = rw (has, run) at eq in
      let first = step-Closes ev d m has c in
      let ih = run-Drains evs m e first.0 (step-IsConsistent ev d m has h) rest in
      (omega (arith, ih.0, first.1), ih.1)
]

-- Once the dispatcher is shut down, a delivery has a bounded number of actions left and no new one
-- starts: whatever the order of the steps, the actions of deliveries are at most four for each
-- goroutine that Shutdown found, each of them brings the end nearer, and until the WaitGroup is at
-- 0 another one can be taken.
pub run-closed :
    (has_log : Bool) (n : ℕ) (evs : List Event) (d e : Dispatcher)
    → Reach (new_dispatcher has_log n) d
    → d.closed ≡ true
    → run evs d ≡ some e
    → (delivery_steps evs ≤ 4 * d.wg) × Drains evs d e
run-closed has_log n evs d e r c eq =
    let h = Reach-IsConsistent has_log n d r in
    let drains = run-Drains evs d e c h eq in
    (omega (arith, drains.0, total-le-four d.deliveries, h.running), drains)
