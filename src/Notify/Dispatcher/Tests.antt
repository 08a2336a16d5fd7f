-- ===== src/Notify/Dispatcher/Tests.antt =====
-- Runs of the dispatcher, and the theorems at concrete inputs.
use superapi.Prelude.{◌≤◌, str, true, false, ◌≡◌, refl, none, some, List, [], ◌∷◌}
use superapi.Notify.Dispatcher.{
  Message, password_reset, email_verification, sending, filling, LogLine, Dispatcher,
  new_dispatcher, logged, dispatch, advance, wait_on, begin_shutdown, out_of_time, Event, notify,
  delivery, start_wait, turn_wait, start_shutdown, time_out, step,
}
use superapi.Notify.Dispatcher.Accounts.{IsConsistent, Reach, Reach-IsConsistent}
use superapi.Notify.Dispatcher.Drain.{run, run-closed, delivery_steps, Drains}

abbrev alice : Message
alice = record { kind = password_reset; to = str "alice@example.com"; challenge = str "c1" }

abbrev bob : Message
bob = record { kind = email_verification; to = str "bob@example.com"; challenge = str "c2" }

abbrev fresh : Dispatcher
fresh = record {
  has_log = true;
  capacity = 1;
  slots = 0;
  closed = false;
  wg = 0;
  inflight = 0;
  stopped = false;
  deliveries = [];
  waiters = [];
  shutdowns = 0;
  abandoned = [];
  waits = [];
  log = [];
}

abbrev one_sent : Dispatcher
one_sent = record fresh {
  slots = 1;
  wg = 1;
  inflight = 1;
  deliveries = record { message = alice; phase = sending } ∷ [];
}

abbrev shutting : Dispatcher
shutting = record one_sent { closed = true; shutdowns = 1 }

fresh-eq : new_dispatcher true 1 ≡ fresh
unfolding new_dispatcher
fresh-eq = refl

-- The second message finds no slot.
second_is_dropped :
    run (notify alice ∷ notify bob ∷ []) fresh
    ≡ some (record one_sent { log = LogLine.saturated email_verification ∷ [] })
unfolding run dispatch logged
second_is_dropped = refl

abbrev four_steps : List Event
four_steps = delivery 0 false ∷ delivery 0 false ∷ delivery 0 false ∷ delivery 0 false ∷ []

abbrev drained_one : Dispatcher
drained_one = record fresh { closed = true; shutdowns = 1 }

four_steps_drain : run four_steps shutting ≡ some drained_one
unfolding run step advance
four_steps_drain = refl

timed_out :
    run (time_out ∷ []) shutting
    ≡ some (record shutting { shutdowns = 0; abandoned = 1 ∷ []; stopped = true })
unfolding run step out_of_time
timed_out = refl

-- Two calls of Wait on an idle dispatcher of capacity 2 that have each put one token in: neither
-- loop goes on.
abbrev two_waiting : Dispatcher
two_waiting = record fresh { capacity = 2; slots = 2; waiters = filling 1 ∷ filling 1 ∷ [] }

two_waits_meet :
    run (start_wait ∷ start_wait ∷ turn_wait 0 ∷ turn_wait 1 ∷ []) (record fresh { capacity = 2 })
    ≡ some two_waiting
unfolding run step wait_on
two_waits_meet = refl

first_wait_is_stuck : step (turn_wait 0) two_waiting ≡ none
unfolding step wait_on
first_wait_is_stuck = refl

second_wait_is_stuck : step (turn_wait 1) two_waiting ≡ none
unfolding step wait_on
second_wait_is_stuck = refl

one_sent-Reach : Reach (new_dispatcher true 1) one_sent
unfolding step dispatch new_dispatcher
one_sent-Reach = Reach.next (notify alice) Reach.here refl

shutting-Reach : Reach (new_dispatcher true 1) shutting
unfolding step begin_shutdown
shutting-Reach = Reach.next start_shutdown one_sent-Reach refl

Reach-IsConsistent_example : IsConsistent shutting
Reach-IsConsistent_example = Reach-IsConsistent true 1 shutting shutting-Reach

run-closed_example : (delivery_steps four_steps ≤ 4) × Drains four_steps shutting drained_one
run-closed_example =
    run-closed true 1 four_steps shutting drained_one shutting-Reach refl four_steps_drain
