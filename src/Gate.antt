-- ===== src/Gate.antt =====
-- The FIFO admission gate of snekql/_pool_gate.py. Each function is the text of one critical
-- section, run while the gate's condition is held; what can happen between two sections is in
-- Gate/Callers. A time is not modelled: whether the deadline has passed is an argument.
pub mod Callers
pub mod Queue
use snekql.Prelude.{
  ◌≡◌, ℕ, suc, ◌+◌, ◌-◌, Bool, true, false, ◌&&◌, not, Option, none, some, List, [], ◌∷◌, ◌++◌, ltb,
  ◌==◌, if◌then◌else◌, length,
}

pub record Gate : Type 0 where
  pub acquisition_cancellations : ℕ
  pub acquisition_failures : ℕ
  pub discarded_connections : ℕ
  pub admitted : ℕ
  pub capacity : ℕ
  pub waiters : List ℕ
  pub next_ticket : ℕ

abbrev pub init : ℕ → Gate
init capacity = record {
  acquisition_cancellations = 0;
  acquisition_failures = 0;
  discarded_connections = 0;
  admitted = 0;
  capacity = capacity;
  waiters = [];
  next_ticket = 0;
}

pub data PoolState : Type 0 where
  open_ closing closed : PoolState

pub record PoolStats : Type 0 where
  pub acquisition_cancellations : ℕ
  pub acquisition_failures : ℕ
  pub capacity : ℕ
  pub discarded_connections : ℕ
  pub state : PoolState
  pub observer_failures : ℕ
  pub occupied : ℕ
  pub waiters : ℕ

-- The count of observer failures is the telemetry's.
unfoldable pub snapshot : Gate → PoolState → ℕ → PoolStats
snapshot g state failures = record {
  acquisition_cancellations = g.acquisition_cancellations;
  acquisition_failures = g.acquisition_failures;
  capacity = g.capacity;
  discarded_connections = g.discarded_connections;
  state = state;
  observer_failures = failures;
  occupied = g.admitted;
  waiters = length g.waiters;
}

-- What a critical section leaves: the gate, and whether it called `notify_all`.
pub record Section : Type 0 where
  pub gate : Gate
  pub notified : Bool

-- `self._waiters[0] == ticket`, false on an empty queue
pub at_front : ℕ → List ℕ → Bool
at_front ticket [] = false
at_front ticket (w ∷ ws) = w == ticket

pub is_empty : List ℕ → Bool
is_empty [] = true
is_empty (w ∷ ws) = false

pub waiter_is_served_first : Option ℕ → List ℕ → Bool
unfolding at_front is_empty
waiter_is_served_first none ws = is_empty ws
waiter_is_served_first (some ticket) ws = at_front ticket ws

-- `deque.remove`: the first occurrence; a ticket that is not there changes nothing.
pub remove : ℕ → List ℕ → List ℕ
remove t [] = []
remove t (w ∷ ws) = if w == t then ws else w ∷ remove t ws

popleft : List ℕ → List ℕ
popleft [] = []
popleft (w ∷ ws) = ws

pub unqueue : Option ℕ → List ℕ → List ℕ
unfolding popleft
unqueue none ws = ws
unqueue (some t) ws = popleft ws

discard_waiter : ℕ → Gate → Section
unfolding remove
discard_waiter ticket g = record {
  gate = record g { waiters = remove ticket g.waiters };
  notified = true;
}

-- `finally: if ticket is not None` of `_admit`
pub discard_owned : Option ℕ → Gate → Section
unfolding discard_waiter
discard_owned none g = record { gate = g; notified = false }
discard_owned (some ticket) g = discard_waiter ticket g

enqueue_waiter : Option ℕ → Gate → ℕ × Gate
enqueue_waiter (some ticket) g = (ticket, g)
enqueue_waiter none g = (
  g.next_ticket,
  record g { next_ticket = suc g.next_ticket; waiters = g.waiters ++ g.next_ticket ∷ [] },
)

-- The claim of a slot; the ticket is popped where there is one.
pub claim : Option ℕ → Gate → Section
unfolding unqueue
claim ticket g = record {
  gate = record g { waiters = unqueue ticket g.waiters; admitted = g.admitted + 1 };
  notified = ltb (g.admitted + 1) g.capacity;
}

pub data Outcome : Type 0 where
  admits rejected timed_out : Outcome
  parks : ℕ → Outcome

-- A wait that ends in an exception: its own `_discard_waiter`, then that of `finally`.
pub abandon : ℕ → Gate → Section
unfolding discard_owned
abandon ticket g = discard_owned (some ticket) (discard_waiter ticket g).gate

-- A queued caller whose deadline has passed leaves the queue; any other goes to sleep.
pub wait_or_time_out : Bool → ℕ → Gate → Outcome × Section
unfolding abandon
wait_or_time_out true ticket g = (timed_out, abandon ticket g)
wait_or_time_out false ticket g = (parks ticket, record { gate = g; notified = false })

pub park : Bool → Option ℕ → Gate → Outcome × Section
unfolding enqueue_waiter wait_or_time_out
park expired ticket g = let (t, h) = enqueue_waiter ticket g in wait_or_time_out expired t h

abbrev pub may_claim : Option ℕ → Gate → Bool
may_claim ticket g = waiter_is_served_first ticket g.waiters && ltb g.admitted g.capacity

-- One round of the loop of `_admit`. `accepting` is whether `check_accepting_work` returns.
pub admit_round : Bool → Bool → Option ℕ → Gate → Outcome × Section
unfolding discard_owned waiter_is_served_first claim park
admit_round false expired ticket g = (rejected, discard_owned ticket g)
admit_round true expired ticket g =
    if may_claim ticket g then (admits, claim ticket g) else park expired ticket g

pub admit_round_claims :
    (expired : Bool) (ticket : Option ℕ) (g : Gate)
    → may_claim ticket g ≡ true
    → admit_round true expired ticket g ≡ (admits, claim ticket g)
unfolding admit_round
admit_round_claims expired ticket g h = rw h

pub admit_round_parks :
    (expired : Bool) (ticket : Option ℕ) (g : Gate)
    → may_claim ticket g ≡ false
    → admit_round true expired ticket g ≡ park expired ticket g
unfolding admit_round
admit_round_parks expired ticket g h = rw h

unfoldable pub release : Gate → Section
release g = record { gate = record g { admitted = g.admitted - 1 }; notified = true }
