-- ===== src/Pool/Closed.antt =====
-- A pool that has been closed: nothing is open, and nothing happens any more.
use snekql.Prelude.{
  ℕ, ◌≡◌, refl, ap, subst, ◌≤◌, Bool, true, false, not, ◌&&◌, List, [], ◌∷◌, ltb, if◌then◌else◌,
  length, arith,
}
use snekql.Pool.{
  Pool, Closer, resting, waiting, trying, init, is_in, guarded, admit, checkout, give_up,
  end_opening, abandon_opening, close_opening, discard, release, close_discarded, free_slot,
  begin_close, try_next, end_wait, time_out, Event, admits, checks_out, gives_up, opens, abandons,
  frees, begins_close, ends_wait, times_out, reaps, tries, discards, releases, closes, step, run,
}
use snekql.Pool.Lists.{count}
use snekql.Pool.Accounts.{IsStage, Inv}
use snekql.Pool.Closing.{run-init-Inv}

empty_of_length : (xs : List ℕ) → length xs ≡ 0 → xs ≡ []
empty_of_length [] h = refl
empty_of_length (x ∷ xs) h = absurd (omega (arith, h))

-- Nothing is under way, and no connection is open.
record IsSettled (p : Pool) : Type 0 where
  closed : p.closed ≡ true
  closer : p.closer ≡ resting
  counters : (p.entering ≡ 0) × (p.opening ≡ 0) × (p.reaping ≡ 0) × (p.returning ≡ 0)
  leased : p.leased ≡ []
  detached : p.detached ≡ []
  idle : p.idle_connections ≡ []
  pending : p.pending_close_connections ≡ []

at_rest : (k : Closer) (p : Pool) → IsStage k p → p.closed ≡ true → k ≡ resting
at_rest resting p s h = refl
at_rest waiting p s h = absurd (ground (arith, s.1))
at_rest (trying false cs bad) p s h = absurd (ground (arith, s.1))
at_rest (trying true cs bad) p s h = absurd (ground (arith, s.1))

closed-IsSettled : (p : Pool) → Inv p → p.closed ≡ true → IsSettled p
closed-IsSettled p v h = record {
  closed = h;
  closer = at_rest p.closer p v.stage h;
  counters = (
    omega (arith, none_taken, v.slots),
    omega (arith, none_taken, v.slots),
    omega (arith, none_taken, v.slots),
    omega (arith, none_taken, v.slots),
  );
  leased = empty_of_length p.leased (omega (arith, none_taken, v.slots));
  detached = empty_of_length p.detached (omega (arith, none_taken, v.slots));
  idle = resting_facts.1;
  pending = resting_facts.2;
}
  where
    resting_facts :
        (p.admitted ≡ 0) × (p.idle_connections ≡ []) × (p.pending_close_connections ≡ [])
    resting_facts = subst (λ k. IsStage k p) (at_rest p.closer p v.stage h) v.stage h

    none_taken : p.admitted ≡ 0
    none_taken = resting_facts.0

guard_off : (b : Bool) (q p : Pool) → b ≡ false → guarded b q p ≡ p
guard_off true q p h = cc
guard_off false q p h = refl

nothing_in : (c : ℕ) (xs : List ℕ) → xs ≡ [] → is_in c xs ≡ false
unfolding is_in
nothing_in c [] h = refl
nothing_in c (x ∷ xs) h = cc

resting_stays :
    (ok : Bool) (k : Closer) (p : Pool)
    → k ≡ resting
    → p.closed ≡ true
    → (begin_close k p ≡ p) × (end_wait k p ≡ p) × (time_out k p ≡ p) × (try_next ok k p ≡ p)
unfolding begin_close end_wait time_out try_next
resting_stays ok resting p h c = (guard_off (not p.closed) _ p (ground arith), refl, refl, refl)
resting_stays ok waiting p h c = cc
resting_stays ok (trying last cs bad) p h c = cc

settled_stays : (e : Event) (p : Pool) → IsSettled p → step p e ≡ p
unfolding step admit checkout give_up end_opening abandon_opening free_slot close_opening discard
    release close_discarded
settled_stays admits p s =
    guard_off (not p.closed && not p.closing && ltb p.admitted p.pool_size) _ p
      (ground (arith, s.closed))
settled_stays checks_out p s = guard_off (ltb 0 p.entering) _ p (ground (arith, s.counters))
settled_stays gives_up p s = guard_off (ltb 0 p.entering) _ p (ground (arith, s.counters))
settled_stays opens p s = guard_off (ltb 0 p.opening) _ p (ground (arith, s.counters))
settled_stays abandons p s = guard_off (ltb 0 p.opening) _ p (ground (arith, s.counters))
settled_stays frees p s = guard_off (ltb 0 p.returning) _ p (ground (arith, s.counters))
settled_stays begins_close p s = (resting_stays true p.closer p s.closer s.closed).0
settled_stays ends_wait p s = (resting_stays true p.closer p s.closer s.closed).1
settled_stays times_out p s = (resting_stays true p.closer p s.closer s.closed).2
settled_stays (reaps got) p s = guard_off (ltb 0 p.reaping) _ p (ground (arith, s.counters))
settled_stays (tries ok) p s = (resting_stays ok p.closer p s.closer s.closed).3
settled_stays (discards c) p s = guard_off (is_in c p.leased) _ p (nothing_in c p.leased s.leased)
settled_stays (releases c) p s = guard_off (is_in c p.leased) _ p (nothing_in c p.leased s.leased)
settled_stays (closes c ok) p s =
    guard_off (is_in c p.detached) _ p (nothing_in c p.detached s.detached)

all_shut :
    (p : Pool) → Inv p → IsSettled p → (c : ℕ) → count c p.shut ≡ (if ltb c p.opened then 1 else 0)
all_shut p v s c = ground (
  arith,
  v.placed c,
  ap (count c) s.idle,
  ap (count c) s.leased,
  ap (count c) s.detached,
  ap (count c) s.pending,
)

-- Once a close has succeeded, every connection that was ever opened has been closed, exactly once,
-- and no event changes the pool any more.
pub closed_pool_is_empty :
    (size : ℕ) (es : List Event) (e : Event)
    → 1 ≤ size
    → (run (init size) es).closed ≡ true
    → ((c : ℕ)
        → count c (run (init size) es).shut ≡ (if ltb c (run (init size) es).opened then 1 else 0))
      × (step (run (init size) es) e ≡ run (init size) es)
closed_pool_is_empty size es e h k =
    (all_shut _ v (closed-IsSettled _ v k), settled_stays e _ (closed-IsSettled _ v k))
  where
    v : Inv (run (init size) es)
    v = run-init-Inv size es h
