-- ===== src/Gate/Callers/Moves.antt =====
-- Each critical section moves its caller and the gate in step.
use snekql.Prelude.{
  ℕ, suc, ◌<◌, ◌≡◌, refl, ap, subst, true, false, none, some, List, [], ◌∷◌, ◌++◌, arith, get_elem?,
  inl, inr,
}
use snekql.Gate.{
  at_front, abandon, discard_owned, release, claim, park, remove, waiter_is_served_first, may_claim,
}
use snekql.Gate.Queue.{
  Ascends, Ascends-append, Ascends-remove, count, count_above, count_le_one, count-append,
  count-remove, front-append, one_if_eq,
}
use snekql.Gate.Callers.{Caller, idle, holding, parked, woken, System}
use snekql.Gate.Callers.Counting.{holds, queues, total_ge}
use snekql.Gate.Callers.Invariant.{Inv, Moves}

-- The first round of a caller.
module _ (k : ℕ) (s : System) (v : Inv k s) where
  pub claim_fresh-Moves : may_claim none s.gate ≡ true → Moves k s idle holding (claim none s.gate)
  unfolding claim waiter_is_served_first
  claim_fresh-Moves e = record {
    held = omega arith;
    bounded = ground arith;
    ordered = v.ordered;
    owned = λ t. omega arith;
    told = λ t f fr. (refl, inl (ground arith));
  }

  pub claim_front-Moves :
      (t : ℕ) (ws : List ℕ)
      → s.gate.waiters ≡ t ∷ ws
      → may_claim (some t) s.gate ≡ true
      → Moves (suc t) s (woken t) holding (claim (some t) s.gate)
  unfolding claim
  claim_front-Moves t ws e free = record {
    held = omega arith;
    bounded = ground arith;
    ordered = rw e (subst (λ q. Ascends k q s.gate.next_ticket) e v.ordered).1;
    owned = λ u. rw e (omega arith);
    told = λ u f fr. (refl, inl (ground arith));
  }

  pub park_fresh-Moves :
      may_claim none s.gate ≡ false
      → Moves k s idle (parked s.gate.next_ticket) (park false none s.gate).1
  unfolding park waiter_is_served_first
  park_fresh-Moves e = record {
    held = omega arith;
    bounded = v.bounded;
    ordered = Ascends-append k s.gate.waiters s.gate.next_ticket v.ordered;
    owned = λ t. omega (arith, count-append t s.gate.waiters (s.gate.next_ticket ∷ []));
    told = λ t f fr.
        let old = front-append t k s.gate.waiters s.gate.next_ticket v.ordered (ground arith) fr in
        (old.1, inr (refl, v.awake t f old.0));
  }

  pub park_again-Moves :
      (t : ℕ)
      → may_claim (some t) s.gate ≡ false
      → Moves k s (woken t) (parked t) (park false (some t) s.gate).1
  unfolding park waiter_is_served_first
  park_again-Moves t e = record {
    held = omega arith;
    bounded = v.bounded;
    ordered = v.ordered;
    owned = λ u. omega arith;
    told = λ u f fr. (not_front u f fr, inr (refl, v.awake u f fr));
  }
    where
      not_front :
          (u : ℕ)
          → s.gate.admitted < s.gate.capacity
          → at_front u s.gate.waiters ≡ true
          → one_if_eq u t ≡ 0
      not_front u f fr = ground (arith, ap (λ n. at_front n s.gate.waiters))

  -- A fresh caller whose deadline has passed leaves the queue as it was, one ticket further on.
  pub park_expired-Moves : Moves k s idle idle (park true none s.gate).1
  unfolding park abandon
  park_expired-Moves = record {
    held = omega arith;
    bounded = v.bounded;
    ordered =
        Ascends-remove _ k _ _
          (Ascends-remove _ k _ _ (Ascends-append k s.gate.waiters s.gate.next_ticket v.ordered));
    owned = λ t. ground (
      arith,
      count-remove t n (remove n (s.gate.waiters ++ n ∷ [])),
      count-remove t n (s.gate.waiters ++ n ∷ []),
      count-append t s.gate.waiters (n ∷ []),
      count_above t k s.gate.waiters n v.ordered,
    );
    told = λ t f fr. (refl, inl refl);
  }
    where
      n : ℕ
      n = s.gate.next_ticket

  -- A caller that owns a ticket, asleep or awake, and leaves with it.
  module _ (i t : ℕ) (x : Caller) (at : get_elem? s.callers i ≡ some x)
      (own : (u : ℕ) → queues u x ≡ one_if_eq u t) (none_held : holds x ≡ 0) where
    queued_once : count t s.gate.waiters ≡ 1
    queued_once = ground (
      arith,
      count_le_one t k s.gate.waiters s.gate.next_ticket v.ordered,
      total_ge (queues t) s.callers i x at,
      v.owned t,
      own t,
    )

    pub discard-Moves : Moves k s x idle (discard_owned (some t) s.gate)
    unfolding discard_owned
    discard-Moves = record {
      held = omega arith;
      bounded = v.bounded;
      ordered = Ascends-remove t k _ _ v.ordered;
      owned = λ u. ground (arith, count-remove u t s.gate.waiters, own u, queued_once);
      told = λ u f fr. (refl, inl refl);
    }

    pub abandon-Moves : Moves k s x idle (abandon t s.gate)
    unfolding abandon
    abandon-Moves = record {
      held = omega arith;
      bounded = v.bounded;
      ordered = Ascends-remove t k _ _ (Ascends-remove t k _ _ v.ordered);
      owned = λ u. ground (
        arith,
        count-remove u t (remove t s.gate.waiters),
        count-remove u t s.gate.waiters,
        own u,
        queued_once,
      );
      told = λ u f fr. (refl, inl refl);
    }

  pub reject-Moves : Moves k s idle idle (discard_owned none s.gate)
  unfolding discard_owned
  reject-Moves = record {
    held = refl;
    bounded = v.bounded;
    ordered = v.ordered;
    owned = λ u. refl;
    told = λ u f fr. (refl, inr (refl, v.awake u f fr));
  }

  pub release-Moves :
      (i : ℕ) → get_elem? s.callers i ≡ some holding → Moves k s holding idle (release s.gate)
  unfolding release
  release-Moves i at = record {
    held = omega (arith, total_ge holds s.callers i holding at, v.held);
    bounded = omega (arith, v.bounded);
    ordered = v.ordered;
    owned = λ u. refl;
    told = λ u f fr. (refl, inl refl);
  }
