-- ===== src/Gate/Callers/Invariant.antt =====
-- What every interleaving of the callers keeps.
use snekql.Prelude.{
  ℕ, ◌+◌, ◌≤◌, ◌<◌, ◌≡◌, ◌⊎◌, true, false, some, false, arith, get_elem?, inl, inr,
}
use snekql.Gate.{Section, at_front}
use snekql.Gate.Queue.{Ascends, count}
use snekql.Gate.Callers.{Caller, System, set, notify, after}
use snekql.Gate.Callers.Counting.{
  total, holds, queues, sleeps, total-set, total-after, holds-wake, queues-wake,
  total-sleeps-notify,
}

-- `lo` bounds the queued tickets from below.
pub record Inv (lo : ℕ) (s : System) : Type 0 where
  -- slots in use are held by callers, and are at most the capacity
  pub held : total holds s.callers ≡ s.gate.admitted
  pub bounded : s.gate.admitted ≤ s.gate.capacity
  -- the queue is in order of arrival
  pub ordered : Ascends lo s.gate.waiters s.gate.next_ticket
  -- a ticket is queued as often as callers own it
  pub owned : (t : ℕ) → total (queues t) s.callers ≡ count t s.gate.waiters
  -- nobody sleeps on the front ticket while a slot is free
  pub awake :
      (t : ℕ)
      → s.gate.admitted < s.gate.capacity
      → at_front t s.gate.waiters ≡ true
      → total (sleeps t) s.callers ≡ 0

-- What a section must do for the caller that moves from `x` to `y`.
pub record Moves (lo : ℕ) (s : System) (x y : Caller) (d : Section) : Type 0 where
  pub held : d.gate.admitted + holds x ≡ s.gate.admitted + holds y
  pub bounded : d.gate.admitted ≤ d.gate.capacity
  pub ordered : Ascends lo d.gate.waiters d.gate.next_ticket
  pub owned : (t : ℕ) → count t d.gate.waiters + queues t x ≡ count t s.gate.waiters + queues t y
  pub told :
      (t : ℕ)
      → d.gate.admitted < d.gate.capacity
      → at_front t d.gate.waiters ≡ true
      → (sleeps t y ≡ 0)
        × ((d.notified ≡ true) ⊎ ((d.notified ≡ false) × (total (sleeps t) s.callers ≡ 0)))

pub after-Inv :
    (k lo : ℕ) (s : System) (i : ℕ) (x y : Caller) (d : Section)
    → get_elem? s.callers i ≡ some x
    → Inv k s
    → Moves lo s x y d
    → Inv lo (after s i y d)
unfolding after
after-Inv k lo s i x y d e v m = record {
  held = omega (arith, total-after holds holds-wake d.notified s.callers i x y e, v.held, m.held);
  bounded = m.bounded;
  ordered = m.ordered;
  owned = λ t. omega (
    arith,
    total-after (queues t) (queues-wake t) d.notified s.callers i x y e,
    v.owned t,
    m.owned t,
  );
  awake = λ t free front. go t (m.told t free front);
}
  where
    go :
        (t : ℕ)
        → (sleeps t y ≡ 0)
          × ((d.notified ≡ true) ⊎ ((d.notified ≡ false) × (total (sleeps t) s.callers ≡ 0)))
        → total (sleeps t) (set (notify d.notified s.callers) i y) ≡ 0
    go t (h, inl n) = rw n (total-sleeps-notify t s.callers i y h)
    go t (h, inr (n, z)) =
        rw n (unfold notify in omega (arith, total-set (sleeps t) s.callers i x y e))
