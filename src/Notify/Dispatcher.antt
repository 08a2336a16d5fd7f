-- ===== src/Notify/Dispatcher.antt =====
-- internal/core/notify/notify.go: the Dispatcher. Its critical sections, each delivery's deferred
-- calls and each turn of the loops of Wait are steps that interleave. What the notifier answers to
-- a message stands in the step in which its call returns.
pub mod Accounts
pub mod Progress
pub mod Drain
pub mod Tests
use superapi.Prelude.{
  ℕ, zero, suc, ◌+◌, ◌-◌, Str, Bool, true, false, Option, none, some, List, [], ◌∷◌, ◌++◌, ltb, eqb,
  if◌then◌else◌,
}
use superapi.Prelude.Places.{get_elem?, replace_at, remove_at}

pub data Kind : Type 0 where
  password_reset : Kind
  email_verification : Kind

pub record Message : Type 0 where
  pub kind : Kind
  pub to : Str
  pub challenge : Str

-- Where the goroutine of a delivery is: in the call of the notifier, and before each of its three
-- deferred calls.
pub data Phase : Type 0 where
  sending : Phase
  sent : Phase
  released : Phase
  uncounted : Phase

pub record Delivery : Type 0 where
  pub message : Message
  pub phase : Phase

-- Where a call of Wait is: it has put this many tokens into the slots, or has this many to take out.
pub data Waiter : Type 0 where
  filling : ℕ → Waiter
  emptying : Bool → ℕ → Waiter

pub data LogLine : Type 0 where
  shut_down : Kind → LogLine
  saturated : Kind → LogLine
  delivery_failed : Kind → LogLine

-- `slots` counts the tokens in the channel. `shutdowns` counts the calls of Shutdown that wait, and
-- `abandoned` holds what those that have returned answered, `waits` whether each Wait was cancelled.
pub record Dispatcher : Type 0 where
  pub has_log : Bool
  pub capacity : ℕ
  pub slots : ℕ
  pub closed : Bool
  pub wg : ℕ
  pub inflight : ℕ
  pub stopped : Bool
  pub deliveries : List Delivery
  pub waiters : List Waiter
  pub shutdowns : ℕ
  pub abandoned : List ℕ
  pub waits : List Bool
  pub log : List LogLine

-- A negative count is treated as 0 is.
unfoldable pub new_dispatcher : Bool → ℕ → Dispatcher
new_dispatcher has_log max_in_flight = record {
  has_log = has_log;
  capacity = if eqb max_in_flight 0 then 64 else max_in_flight;
  slots = 0;
  closed = false;
  wg = 0;
  inflight = 0;
  stopped = false;
  deliveries = [];
  waiters = [];
  shutdowns = 0;
  abandoned = [];
  waits = [];
  log = [];
}

-- A line of the log, where there is one.
unfoldable pub logged : LogLine → Dispatcher → Dispatcher
logged line d = if d.has_log then record d { log = line ∷ d.log } else d

unfoldable pub dispatch : Message → Dispatcher → Dispatcher
unfolding logged
dispatch m d =
    if d.closed
    then logged (shut_down m.kind) d
    else if ltb d.slots d.capacity
    then record d {
      slots = suc d.slots;
      wg = suc d.wg;
      inflight = suc d.inflight;
      deliveries = d.deliveries ++ record { message = m; phase = sending } ∷ [];
    }
    else logged (saturated m.kind) d

abbrev moved : ℕ → Message → Phase → Dispatcher → List Delivery
moved i m phase d = replace_at i (record { message = m; phase = phase }) d.deliveries

-- The next action of a delivery. A receive from the empty channel blocks and a WaitGroup below zero
-- panics, so these steps are then not there. That the count of deliveries is not 0 where it is
-- lowered is part of the invariant.
unfoldable pub advance : ℕ → Bool → Message → Phase → Dispatcher → Option Dispatcher
unfolding logged
advance i failed m sending d =
    some (record (if failed then logged (delivery_failed m.kind) d else d) {
      deliveries = moved i m sent d;
    })
advance i failed m sent d =
    if ltb 0 d.slots
    then some (record d { slots = d.slots - 1; deliveries = moved i m released d })
    else none
advance i failed m released d =
    some (record d { inflight = d.inflight - 1; deliveries = moved i m uncounted d })
advance i failed m uncounted d =
    if ltb 0 d.wg
    then some (record d { wg = d.wg - 1; deliveries = remove_at i d.deliveries })
    else none

abbrev pub deliver : ℕ → Bool → Option Delivery → Dispatcher → Option Dispatcher
deliver i failed none d = none
deliver i failed (some x) d = advance i failed x.message x.phase d

-- Wait: a turn of one of its loops, or its return.
unfoldable pub wait_on : ℕ → Waiter → Dispatcher → Option Dispatcher
wait_on i (filling n) d =
    if ltb n d.capacity
    then (if ltb d.slots d.capacity
        then some
            (record d { slots = suc d.slots; waiters = replace_at i (filling (suc n)) d.waiters })
        else none)
    else some (record d { waiters = replace_at i (emptying false n) d.waiters })
wait_on i (emptying cancelled (suc n)) d =
    if ltb 0 d.slots
    then some
        (record d { slots = d.slots - 1; waiters = replace_at i (emptying cancelled n) d.waiters })
    else none
wait_on i (emptying cancelled zero) d =
    some (record d { waiters = remove_at i d.waiters; waits = cancelled ∷ d.waits })

abbrev pub wait : ℕ → Option Waiter → Dispatcher → Option Dispatcher
wait i none d = none
wait i (some w) d = wait_on i w d

-- The context of a Wait is done while it stands in its select.
unfoldable pub cancel_on : ℕ → Waiter → Dispatcher → Option Dispatcher
cancel_on i (filling n) d =
    if ltb n d.capacity
    then some (record d { waiters = replace_at i (emptying true n) d.waiters })
    else none
cancel_on i (emptying cancelled n) d = none

abbrev pub cancel : ℕ → Option Waiter → Dispatcher → Option Dispatcher
cancel i none d = none
cancel i (some w) d = cancel_on i w d

-- Shutdown: the part under the lock, and the two ways out of its select.
unfoldable pub begin_shutdown : Dispatcher → Dispatcher
begin_shutdown d = record d { closed = true; shutdowns = suc d.shutdowns }

unfoldable pub drained : Dispatcher → Option Dispatcher
drained d =
    if ltb 0 d.shutdowns
    then (if eqb d.wg 0
        then some (record d { shutdowns = d.shutdowns - 1; abandoned = 0 ∷ d.abandoned })
        else none)
    else none

unfoldable pub out_of_time : Dispatcher → Option Dispatcher
out_of_time d =
    if ltb 0 d.shutdowns
    then some (record d {
      shutdowns = d.shutdowns - 1;
      abandoned = d.inflight ∷ d.abandoned;
      stopped = true;
    })
    else none

pub data Event : Type 0 where
  notify : Message → Event
  delivery : ℕ → Bool → Event
  start_wait : Event
  turn_wait : ℕ → Event
  cancel_wait : ℕ → Event
  start_shutdown : Event
  finish_shutdown : Event
  time_out : Event

-- What happens next; none where that cannot happen.
unfoldable pub step : Event → Dispatcher → Option Dispatcher
unfolding dispatch begin_shutdown advance wait_on cancel_on drained out_of_time
step (notify m) d = some (dispatch m d)
step (delivery i failed) d = deliver i failed (get_elem? i d.deliveries) d
step start_wait d = some (record d { waiters = d.waiters ++ filling 0 ∷ [] })
step (turn_wait i) d = wait i (get_elem? i d.waiters) d
step (cancel_wait i) d = cancel i (get_elem? i d.waiters) d
step start_shutdown d = some (begin_shutdown d)
step finish_shutdown d = drained d
step time_out d = out_of_time d
