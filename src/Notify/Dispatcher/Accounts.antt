-- ===== src/Notify/Dispatcher/Accounts.antt =====
-- The counters of the dispatcher agree with its goroutines in every state that it can reach.
use superapi.Prelude.{
  ℕ, zero, suc, ◌+◌, ◌≤◌, Bool, true, false, ◌≡◌, refl, Option, none, some, List, [], ◌∷◌, arith,
}
use superapi.Prelude.Places.{
  get_elem?, replace_at, total, total-replace_at, total-remove_at, total-append,
}
use superapi.Notify.Dispatcher.{
  Message, Phase, sending, sent, released, uncounted, Delivery, Waiter, filling, emptying, LogLine,
  Dispatcher, new_dispatcher, logged, dispatch, advance, deliver, wait_on, wait, cancel_on, cancel,
  begin_shutdown, drained, out_of_time, Event, notify, delivery, start_wait, turn_wait, cancel_wait,
  start_shutdown, finish_shutdown, time_out, step,
}

-- Whether a delivery holds a slot, is counted as in flight, and is still there.
unfoldable pub slot_of : Delivery → ℕ
slot_of x = elim x.phase [ sending ↦ 1 | sent ↦ 1 | released ↦ 0 | uncounted ↦ 0 ]

unfoldable pub flying : Delivery → ℕ
flying x = elim x.phase [ sending ↦ 1 | sent ↦ 1 | released ↦ 1 | uncounted ↦ 0 ]

unfoldable pub present : Delivery → ℕ
present x = 1

-- The tokens of a Wait in the channel.
unfoldable pub held : Waiter → ℕ
held (filling n) = n
held (emptying _ n) = n

pub record IsConsistent (d : Dispatcher) : Type 0 where
  pub bounded : d.slots ≤ d.capacity
  pub tokens : d.slots ≡ total slot_of d.deliveries + total held d.waiters
  pub flights : d.inflight ≡ total flying d.deliveries
  pub running : d.wg ≡ total present d.deliveries

new_dispatcher-IsConsistent : (has_log : Bool) (n : ℕ) → IsConsistent (new_dispatcher has_log n)
unfolding new_dispatcher total
new_dispatcher-IsConsistent has_log n = record {
  bounded = omega arith;
  tokens = refl;
  flights = refl;
  running = refl;
}

logged-IsConsistent : (l : LogLine) (d : Dispatcher) → IsConsistent d → IsConsistent (logged l d)
unfolding logged
logged-IsConsistent l d h = ground arith

dispatch-IsConsistent :
    (m : Message) (d : Dispatcher) → IsConsistent d → IsConsistent (dispatch m d)
unfolding dispatch total slot_of flying present
dispatch-IsConsistent m d h =
    let new : List Delivery = record { message = m; phase = sending } ∷ [] in
    ground (
      arith,
      logged-IsConsistent (LogLine.shut_down m.kind) d h,
      logged-IsConsistent (LogLine.saturated m.kind) d h,
      total-append slot_of d.deliveries new,
      total-append flying d.deliveries new,
      total-append present d.deliveries new,
    )

-- A delivery in one phase that moves on to another changes the sums by the weights of the two.
module _ (i : ℕ) (m : Message) (p q : Phase) (d : Dispatcher) where
  abbrev before : Delivery
  before = record { message = m; phase = p }

  abbrev after : Delivery
  after = record { message = m; phase = q }

  abbrev pub Moves : Type 0
  Moves =
      (total slot_of (replace_at i after d.deliveries) + slot_of before
        ≡ total slot_of d.deliveries + slot_of after)
      × (total flying (replace_at i after d.deliveries) + flying before
          ≡ total flying d.deliveries + flying after)
      × (total present (replace_at i after d.deliveries) + present before
          ≡ total present d.deliveries + present after)

  moves : get_elem? i d.deliveries ≡ some before → Moves
  moves at = (
    total-replace_at slot_of i before after d.deliveries at,
    total-replace_at flying i before after d.deliveries at,
    total-replace_at present i before after d.deliveries at,
  )

-- What a delivery's next action leaves, where it has one.
advance-IsConsistent :
    (i : ℕ) (failed : Bool) (m : Message) (p : Phase) (d e : Dispatcher)
    → get_elem? i d.deliveries ≡ some (record { message = m; phase = p })
    → advance i failed m p d ≡ some e
    → IsConsistent d
    → IsConsistent e
unfolding advance slot_of flying present logged
advance-IsConsistent i failed m sending d e at eq h = ground (arith, moves i m sending sent d at)
advance-IsConsistent i failed m sent d e at eq h = ground (arith, moves i m sent released d at)
advance-IsConsistent i failed m released d e at eq h =
    ground (arith, moves i m released uncounted d at)
advance-IsConsistent i failed m uncounted d e at eq h =
    let x : Delivery = record { message = m; phase = uncounted } in
    ground (
      arith,
      total-remove_at slot_of i x d.deliveries at,
      total-remove_at flying i x d.deliveries at,
      total-remove_at present i x d.deliveries at,
    )

wait_on-IsConsistent :
    (i : ℕ) (w : Waiter) (d e : Dispatcher)
    → get_elem? i d.waiters ≡ some w
    → wait_on i w d ≡ some e
    → IsConsistent d
    → IsConsistent e
unfolding wait_on held
wait_on-IsConsistent i (filling n) d e at eq h = ground (
  arith,
  total-replace_at held i (filling n) (filling (suc n)) d.waiters at,
  total-replace_at held i (filling n) (emptying false n) d.waiters at,
)
wait_on-IsConsistent i (emptying c (suc n)) d e at eq h =
    ground (arith, total-replace_at held i (emptying c (suc n)) (emptying c n) d.waiters at)
wait_on-IsConsistent i (emptying c zero) d e at eq h =
    ground (arith, total-remove_at held i (emptying c zero) d.waiters at)

cancel_on-IsConsistent :
    (i : ℕ) (w : Waiter) (d e : Dispatcher)
    → get_elem? i d.waiters ≡ some w
    → cancel_on i w d ≡ some e
    → IsConsistent d
    → IsConsistent e
unfolding cancel_on held
cancel_on-IsConsistent i (filling n) d e at eq h =
    ground (arith, total-replace_at held i (filling n) (emptying true n) d.waiters at)
cancel_on-IsConsistent i (emptying c n) d e at eq h = ground arith

deliver-IsConsistent :
    (i : ℕ) (failed : Bool) (o : Option Delivery) (d e : Dispatcher)
    → get_elem? i d.deliveries ≡ o
    → deliver i failed o d ≡ some e
    → IsConsistent d
    → IsConsistent e
deliver-IsConsistent i failed none d e at eq h = ground arith
deliver-IsConsistent i failed (some x) d e at eq h =
    advance-IsConsistent i failed x.message x.phase d e at eq h

wait-IsConsistent :
    (i : ℕ) (o : Option Waiter) (d e : Dispatcher)
    → get_elem? i d.waiters ≡ o
    → wait i o d ≡ some e
    → IsConsistent d
    → IsConsistent e
wait-IsConsistent i none d e at eq h = ground arith
wait-IsConsistent i (some w) d e at eq h = wait_on-IsConsistent i w d e at eq h

cancel-IsConsistent :
    (i : ℕ) (o : Option Waiter) (d e : Dispatcher)
    → get_elem? i d.waiters ≡ o
    → cancel i o d ≡ some e
    → IsConsistent d
    → IsConsistent e
cancel-IsConsistent i none d e at eq h = ground arith
cancel-IsConsistent i (some w) d e at eq h = cancel_on-IsConsistent i w d e at eq h

pub step-IsConsistent :
    (ev : Event) (d e : Dispatcher) → step ev d ≡ some e → IsConsistent d → IsConsistent e
unfolding step begin_shutdown drained out_of_time total held
step-IsConsistent (notify m) d e eq h = ground (arith, dispatch-IsConsistent m d h)
step-IsConsistent (delivery i failed) d e eq h =
    deliver-IsConsistent i failed (get_elem? i d.deliveries) d e refl eq h
step-IsConsistent start_wait d e eq h = ground (arith, total-append held d.waiters (filling 0 ∷ []))
step-IsConsistent (turn_wait i) d e eq h = wait-IsConsistent i (get_elem? i d.waiters) d e refl eq h
step-IsConsistent (cancel_wait i) d e eq h =
    cancel-IsConsistent i (get_elem? i d.waiters) d e refl eq h
step-IsConsistent start_shutdown d e eq h = ground arith
step-IsConsistent finish_shutdown d e eq h = ground arith
step-IsConsistent time_out d e eq h = ground arith

-- The states that a sequence of steps reaches.
pub data Reach (s : Dispatcher) : Dispatcher → Type 0 where
  here : Reach s s
  next : {d e : Dispatcher} (ev : Event) → Reach s d → step ev d ≡ some e → Reach s e

-- In every state that a new dispatcher reaches, whatever the order of the steps: the slots in use
-- are those of the deliveries that are sent and of the calls of Wait, and no more than there are;
-- the counter of deliveries in flight and the WaitGroup count the goroutines that have not yet
-- lowered them.
pub Reach-IsConsistent :
    (has_log : Bool) (n : ℕ) (d : Dispatcher) → Reach (new_dispatcher has_log n) d → IsConsistent d
Reach-IsConsistent has_log n d here = new_dispatcher-IsConsistent has_log n
Reach-IsConsistent has_log n d (next ev r eq) =
    step-IsConsistent ev _ d eq (Reach-IsConsistent has_log n _ r)
