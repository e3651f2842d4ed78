-- ===== src/Gate/Callers.antt =====
-- The callers of the gate, and the interleavings of their critical sections. The condition's
-- `notify_all` wakes every sleeper; a woken caller tries again in a round of its own.
pub mod Counting
pub mod Invariant
pub mod Moves
pub mod Order
pub mod Progress
mod Examples
use snekql.Prelude.{
  ℕ, zero, suc, Bool, true, false, Option, none, some, List, [], ◌∷◌, map, get_elem?,
}
use snekql.Gate.{
  Gate, Section, Outcome, admits, rejected, timed_out, parks, init, admit_round, abandon,
  discard_owned, release,
}

-- `idle` is a caller outside the gate, or one that has not yet entered its first round.
pub data Caller : Type 0 where
  idle holding : Caller
  parked woken : ℕ → Caller

pub record System : Type 0 where
  pub gate : Gate
  pub callers : List Caller

-- Caller `i` runs a round, has its wait time out, is cancelled, or gives its slot back.
pub data Event : Type 0 where
  round : ℕ → Bool → Bool → Event
  times_out cancelled releases : ℕ → Event

pub set : List Caller → ℕ → Caller → List Caller
set [] i c = []
set (x ∷ xs) zero c = c ∷ xs
set (x ∷ xs) (suc i) c = x ∷ set xs i c

pub wake : Caller → Caller
wake (parked t) = woken t
wake idle = idle
wake holding = holding
wake (woken t) = woken t

pub notify : Bool → List Caller → List Caller
unfolding wake
notify true cs = map wake cs
notify false cs = cs

becomes : Outcome → Caller
becomes admits = holding
becomes rejected = idle
becomes timed_out = idle
becomes (parks t) = parked t

-- Caller `i` ends a section as `c`.
pub after : System → ℕ → Caller → Section → System
unfolding set notify
after s i c done = record { gate = done.gate; callers = set (notify done.notified s.callers) i c }

pub settle : System → ℕ → Outcome × Section → System
unfolding after becomes
settle s i r = after s i (becomes r.0) r.1

pub enter : System → ℕ → Bool → Bool → Option ℕ → System
unfolding settle
enter s i accepting expired ticket = settle s i (admit_round accepting expired ticket s.gate)

-- A round is run by a caller that is idle or awake; one that sleeps or holds a slot runs none.
pub round_of : System → ℕ → Bool → Bool → Caller → System
unfolding enter
round_of s i accepting expired idle = enter s i accepting expired none
round_of s i accepting expired (woken t) = enter s i accepting expired (some t)
round_of s i accepting expired _ = s

-- The wait of a sleeper ends in `TimeoutError` and drops its ticket.
pub time_out_of : System → ℕ → Caller → System
unfolding after
time_out_of s i (parked t) = after s i idle (abandon t s.gate)
time_out_of s i _ = s

-- Cancelled asleep, or at the checkpoint or the lock of a later round.
pub cancel_of : System → ℕ → Caller → System
unfolding after
cancel_of s i (parked t) = after s i idle (abandon t s.gate)
cancel_of s i (woken t) = after s i idle (discard_owned (some t) s.gate)
cancel_of s i _ = s

pub release_of : System → ℕ → Caller → System
unfolding after
release_of s i holding = after s i idle (release s.gate)
release_of s i _ = s

at_caller : System → ℕ → (Caller → System) → System
at_caller s i f = elim (get_elem? s.callers i) [ none ↦ s | some c ↦ f c ]

pub step : System → Event → System
unfolding at_caller round_of time_out_of cancel_of release_of
step s (round i accepting expired) = at_caller s i (round_of s i accepting expired)
step s (times_out i) = at_caller s i (time_out_of s i)
step s (cancelled i) = at_caller s i (cancel_of s i)
step s (releases i) = at_caller s i (release_of s i)

pub run : System → List Event → System
run s [] = s
run s (e ∷ es) = run (step s e) es

abbrev pub start : ℕ → List Caller → System
start capacity callers = record { gate = init capacity; callers = callers }

-- `n` callers that have not yet come to the gate
abbrev pub idlers : ℕ → List Caller
idlers zero = []
idlers (suc n) = idle ∷ idlers n
