-- ===== src/Gate/Callers/Progress.antt =====
-- A free slot is never left unused while somebody queues, and nobody overtakes the queue.
use snekql.Prelude.{
  ℕ, zero, suc, ◌+◌, ◌<◌, ◌≡◌, ◌↔◌, refl, ap, Bool, true, false, none, some, List, [], ◌∷◌, arith,
  get_elem?, ◌==◌, Bool-cases, inl, inr,
}
use snekql.Gate.{
  Gate, admits, at_front, is_empty, may_claim, admit_round, admit_round_claims,
  waiter_is_served_first, claim,
}
use snekql.Gate.Queue.{empty_nil}
use snekql.Gate.Callers.{
  Caller, idle, holding, parked, woken, System, round, enter, step, settle, after, at_caller,
  round_of,
}
use snekql.Gate.Callers.Counting.{total, queues, sleeps, get_elem?-after}
use snekql.Gate.Callers.Invariant.{Inv}

-- A caller that has not queued is admitted in a round exactly when the pool accepts work, nobody is
-- queued and a slot is free: it never overtakes a waiter.
pub admit_round_fresh :
    (accepting expired : Bool) (g : Gate)
    → ((admit_round accepting expired none g).0 ≡ admits)
      ↔ ((accepting ≡ true) × (g.waiters ≡ []) × (g.admitted < g.capacity))
admit_round_fresh a x g = (to a x, λ (h0, h1, h2). rw h0 (from h1 h2))
  where
    to :
        (a x : Bool)
        → (admit_round a x none g).0 ≡ admits
        → (a ≡ true) × (g.waiters ≡ []) × (g.admitted < g.capacity)
    to false x h = absurd (unfold admit_round in cc)
    to true true h =
        unfold admit_round waiter_is_served_first in ground (arith, empty_nil g.waiters)
    to true false h =
        unfold admit_round waiter_is_served_first in ground (arith, empty_nil g.waiters)

    from : g.waiters ≡ [] → g.admitted < g.capacity → (admit_round true x none g).0 ≡ admits
    from e f = unfold admit_round waiter_is_served_first in ground (arith, ap is_empty e)

-- A caller whose ticket count is one and who does not sleep is awake.
find_owner :
    (t : ℕ) (cs : List Caller)
    → 0 < total (queues t) cs
    → total (sleeps t) cs ≡ 0
    → (i : ℕ) × (get_elem? cs i ≡ some (woken t))
find_owner t [] h z = absurd (omega arith)
find_owner t (idle ∷ cs) h z =
    let (i, e) = find_owner t cs (omega arith) (omega arith) in (suc i, e)
find_owner t (holding ∷ cs) h z =
    let (i, e) = find_owner t cs (omega arith) (omega arith) in (suc i, e)
find_owner t (parked u ∷ cs) h z =
    let (i, e) = find_owner t cs (omega arith) (omega arith) in (suc i, e)
find_owner t (woken u ∷ cs) h z = elim (Bool-cases (t == u)) [
  | inl same ↦ (zero, ground arith)
  | inr other ↦ let (i, e) = find_owner t cs (ground arith) (omega arith) in (suc i, e)
]

round_claims :
    (s : System) (i t : ℕ) (x : Bool)
    → get_elem? s.callers i ≡ some (woken t)
    → may_claim (some t) s.gate ≡ true
    → step s (round i true x) ≡ settle s i (admits, claim (some t) s.gate)
unfolding step at_caller round_of enter
round_claims s i t x own h = rw (own, at_caller) (rw (admit_round_claims x (some t) s.gate h))

-- While a slot is free and somebody queues, the owner of the front ticket is awake, and its next
-- round, if the pool accepts work, gives it a slot and takes its ticket off the queue.
pub front_progress :
    (k : ℕ) (s : System) (t : ℕ) (ws : List ℕ) (expired : Bool)
    → Inv k s
    → s.gate.waiters ≡ t ∷ ws
    → s.gate.admitted < s.gate.capacity
    → (i : ℕ) × (get_elem? s.callers i ≡ some (woken t))
      × (get_elem? (step s (round i true expired)).callers i ≡ some holding)
      × ((step s (round i true expired)).gate.waiters ≡ ws)
      × ((step s (round i true expired)).gate.admitted ≡ s.gate.admitted + 1)
front_progress k s t ws x v e free =
    let owner =
      find_owner t s.callers (rw (v.owned t, e) (ground arith))
        (v.awake t free (unfold at_front in ground arith)) in
    let granted =
      round_claims s owner.0 t x owner.1 (unfold waiter_is_served_first at_front in ground arith) in
    (
      owner.0,
      owner.1,
      rw granted
          (unfold settle after in get_elem?-after _ s.callers owner.0 (woken t) holding owner.1),
      rw granted (unfold settle after claim in rw e),
      rw granted (unfold settle after claim in refl),
    )
