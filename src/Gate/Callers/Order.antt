-- ===== src/Gate/Callers/Order.antt =====
-- Every event keeps the invariant, and tickets are served in the order in which they were drawn.
use snekql.Prelude.{
  ℕ, zero, suc, ◌≤◌, ◌≡◌, refl, subst, Bool, true, false, Option, none, some, List, [], ◌∷◌, arith,
  get_elem?, Bool-cases, inl, inr, Option-cases,
}
use snekql.Gate.{
  Gate, Outcome, Section, may_claim, park, claim, admit_round_claims, admit_round_parks, admits,
  at_front, admit_round, waiter_is_served_first,
}
use snekql.Gate.Queue.{Ascends, Ascends-le, front_cons}
use snekql.Gate.Callers.{
  Caller, idle, holding, parked, woken, System, Event, round, times_out, cancelled, releases, after,
  settle, enter, round_of, time_out_of, cancel_of, release_of, at_caller, step, run, start, idlers,
}
use snekql.Gate.Callers.Counting.{total, holds, queues}
use snekql.Gate.Callers.Invariant.{Inv, after-Inv}
use snekql.Gate.Callers.Moves.{
  claim_fresh-Moves, claim_front-Moves, park_fresh-Moves, park_again-Moves, park_expired-Moves,
  discard-Moves, abandon-Moves, reject-Moves, release-Moves,
}

if_admitted : ℕ → Outcome → Option ℕ
if_admitted t admits = some t
if_admitted t _ = none

serves_of : System → Bool → Bool → Option Caller → Option ℕ
unfolding if_admitted
serves_of s a x (some (woken t)) = if_admitted t (admit_round a x (some t) s.gate).0
serves_of s a x _ = none

-- The ticket that an event turns into a slot.
pub serves : System → Event → Option ℕ
unfolding serves_of
serves s (round i a x) = serves_of s a x (get_elem? s.callers i)
serves s _ = none

abbrev floor : ℕ → Option ℕ → ℕ
floor k none = k
floor k (some t) = suc t

settle-Inv :
    (k : ℕ) (s : System) (i : ℕ) (p q : Outcome × Section)
    → p ≡ q
    → Inv k (settle s i q)
    → Inv k (settle s i p)
settle-Inv k s i p q e v = rw e v

-- The round of the owner of `t` ended as `r`; a floor rises over `t` where that served it.
abbrev Settled : ℕ → System → ℕ → ℕ → Outcome × Section → Type 0
Settled k s i t r = Inv (floor k (if_admitted t r.0)) (settle s i r)

module _ (k : ℕ) (s : System) (v : Inv k s) (i : ℕ) where
  fresh_round-Inv : (a x : Bool) → get_elem? s.callers i ≡ some idle → Inv k (enter s i a x none)
  unfolding enter park
  fresh_round-Inv false x at =
      unfold admit_round in after-Inv k k s i idle idle _ at v (reject-Moves k s v)
  fresh_round-Inv true x at = elim (Bool-cases (may_claim none s.gate)) [
    | inl h ↦
        settle-Inv k s i _ _ (admit_round_claims x none s.gate h)
          (after-Inv k k s i idle holding _ at v (claim_fresh-Moves k s v h))
    | inr h ↦ settle-Inv k s i _ _ (admit_round_parks x none s.gate h) (parked_or_out x h)
  ]
    where
      parked_or_out :
          (x : Bool) → may_claim none s.gate ≡ false → Inv k (settle s i (park x none s.gate))
      parked_or_out true h = after-Inv k k s i idle idle _ at v (park_expired-Moves k s v)
      parked_or_out false h =
          after-Inv k k s i idle (parked s.gate.next_ticket) _ at v (park_fresh-Moves k s v h)

  woken_round-Inv :
      (t : ℕ) (a x : Bool)
      → get_elem? s.callers i ≡ some (woken t)
      → Settled k s i t (admit_round a x (some t) s.gate)
  unfolding settle after
  woken_round-Inv t false x at =
      unfold if_admitted admit_round in
      after-Inv k k s i (woken t) idle _ at v
        (discard-Moves k s v i t (woken t) at (λ u. refl) refl)
  woken_round-Inv t true x at = elim (Bool-cases (may_claim (some t) s.gate)) [
    | inl h ↦ rw (admit_round_claims x (some t) s.gate h) (claimed h)
    | inr h ↦ rw (admit_round_parks x (some t) s.gate h) (parked_or_out x h)
  ]
    where
      claimed : may_claim (some t) s.gate ≡ true → Settled k s i t (admits, claim (some t) s.gate)
      claimed h =
          unfold if_admitted in
          let (ws, e) =
            front_cons t s.gate.waiters (unfold waiter_is_served_first in ground arith) in
          after-Inv k (suc t) s i (woken t) holding _ at v (claim_front-Moves k s v t ws e h)

      parked_or_out :
          (x : Bool) → may_claim (some t) s.gate ≡ false → Settled k s i t (park x (some t) s.gate)
      parked_or_out true h =
          unfold if_admitted park in
          after-Inv k k s i (woken t) idle _ at v
            (abandon-Moves k s v i t (woken t) at (λ u. refl) refl)
      parked_or_out false h =
          unfold if_admitted park in
          after-Inv k k s i (woken t) (parked t) _ at v (park_again-Moves k s v t h)

  time_out-Inv : (c : Caller) → get_elem? s.callers i ≡ some c → Inv k (time_out_of s i c)
  unfolding time_out_of
  time_out-Inv idle at = v
  time_out-Inv holding at = v
  time_out-Inv (woken t) at = v
  time_out-Inv (parked t) at =
      after-Inv k k s i (parked t) idle _ at v
        (abandon-Moves k s v i t (parked t) at (λ u. refl) refl)

  cancel-Inv : (c : Caller) → get_elem? s.callers i ≡ some c → Inv k (cancel_of s i c)
  unfolding cancel_of
  cancel-Inv idle at = v
  cancel-Inv holding at = v
  cancel-Inv (parked t) at =
      after-Inv k k s i (parked t) idle _ at v
        (abandon-Moves k s v i t (parked t) at (λ u. refl) refl)
  cancel-Inv (woken t) at =
      after-Inv k k s i (woken t) idle _ at v
        (discard-Moves k s v i t (woken t) at (λ u. refl) refl)

  release-Inv : (c : Caller) → get_elem? s.callers i ≡ some c → Inv k (release_of s i c)
  unfolding release_of
  release-Inv idle at = v
  release-Inv (woken t) at = v
  release-Inv (parked t) at = v
  release-Inv holding at = after-Inv k k s i holding idle _ at v (release-Moves k s v i at)

  at_caller-Inv :
      (f : Caller → System)
      → ((c : Caller) → get_elem? s.callers i ≡ some c → Inv k (f c))
      → Inv k (at_caller s i f)
  unfolding at_caller
  at_caller-Inv f h = elim (Option-cases (get_elem? s.callers i)) [
    | inl e ↦ rw (e, at_caller) v
    | inr (c, e) ↦ rw (e, at_caller) (h c e)
  ]

  round-Inv :
      (a x : Bool) (o : Option Caller)
      → get_elem? s.callers i ≡ o
      → Inv (floor k (serves_of s a x o)) (elim o [ none ↦ s | some c ↦ round_of s i a x c ])
  unfolding serves_of round_of
  round-Inv a x none e = v
  round-Inv a x (some idle) e = fresh_round-Inv a x e
  round-Inv a x (some holding) e = v
  round-Inv a x (some (parked t)) e = v
  round-Inv a x (some (woken t)) e = woken_round-Inv t a x e

-- Every event keeps the slots within the capacity, the queue in order, each ticket owned by one
-- caller and nobody asleep at the front of the queue while a slot is free.
pub step-Inv : (k : ℕ) (s : System) (e : Event) → Inv k s → Inv (floor k (serves s e)) (step s e)
unfolding step serves
step-Inv k s (round i a x) v =
    unfold at_caller in round-Inv k s v i a x (get_elem? s.callers i) refl
step-Inv k s (times_out i) v = at_caller-Inv k s v i _ (time_out-Inv k s v i)
step-Inv k s (cancelled i) v = at_caller-Inv k s v i _ (cancel-Inv k s v i)
step-Inv k s (releases i) v = at_caller-Inv k s v i _ (release-Inv k s v i)

served_front :
    (a x : Bool) (u t : ℕ) (g : Gate)
    → if_admitted u (admit_round a x (some u) g).0 ≡ some t
    → (u ≡ t) × (at_front u g.waiters ≡ true)
unfolding if_admitted admit_round
served_front false x u t g h = absurd (cc)
served_front true true u t g h = ground arith
served_front true false u t g h = ground arith

-- A ticket that an event serves was queued, so it is not below the floor.
serves_ge : (k : ℕ) (s : System) (e : Event) (t : ℕ) → Inv k s → serves s e ≡ some t → k ≤ t
unfolding serves
serves_ge k s (round i a x) t v h = go a (get_elem? s.callers i) h
  where
    go : (a : Bool) (o : Option Caller) → serves_of s a x o ≡ some t → k ≤ t
    go a none h = absurd (unfold serves_of in cc)
    go a (some idle) h = absurd (unfold serves_of in cc)
    go a (some holding) h = absurd (unfold serves_of in cc)
    go a (some (parked u)) h = absurd (unfold serves_of in cc)
    go a (some (woken u)) h =
        let (same, front) = served_front a x u t s.gate (unfold serves_of in h) in
        let (ws, e) = front_cons u s.gate.waiters front in
        omega (arith, same, (subst (λ q. Ascends k q s.gate.next_ticket) e v.ordered).0)
serves_ge k s (times_out i) t v h = absurd (cc)
serves_ge k s (cancelled i) t v h = absurd (cc)
serves_ge k s (releases i) t v h = absurd (cc)

-- The tickets that a run serves, first served first.
unfoldable pub served : System → List Event → List ℕ
unfolding serves
served s [] = []
served s (e ∷ es) = elim (serves s e) [
  | none ↦ served (step s e) es
  | some t ↦ t ∷ served (step s e) es
]

served-Ascends :
    (k : ℕ) (s : System) (es : List Event)
    → Inv k s
    → Ascends k (served s es) (run s es).gate.next_ticket
unfolding served run
served-Ascends k s [] v = Ascends-le k s.gate.waiters _ v.ordered
served-Ascends k s (e ∷ es) v = elim (Option-cases (serves s e)) [
  | inl n ↦
      rw (n, served)
        (served-Ascends k (step s e) es
          (subst (λ o. Inv (floor k o) (step s e)) n (step-Inv k s e v)))
  | inr (t, n) ↦
      rw (n, served)
        (
          serves_ge k s e t v n,
          served-Ascends (suc t) (step s e) es
              (subst (λ o. Inv (floor k o) (step s e)) n (step-Inv k s e v)),
        )
]

start-Inv : (capacity n : ℕ) → Inv 0 (start capacity (idlers n))
start-Inv capacity n = record {
  held = none_held n;
  bounded = omega arith;
  ordered = omega arith;
  owned = none_queued n;
  awake = λ t free front. absurd (unfold at_front in cc);
}
  where
    none_held : (n : ℕ) → total holds (idlers n) ≡ 0
    none_held zero = refl
    none_held (suc n) = omega (arith, none_held n)

    none_queued : (n t : ℕ) → total (queues t) (idlers n) ≡ 0
    none_queued zero t = refl
    none_queued (suc n) t = omega (arith, none_queued n t)

run-Inv : (k : ℕ) (s : System) (es : List Event) → Inv k s → (m : ℕ) × Inv m (run s es)
unfolding run
run-Inv k s [] v = (k, v)
run-Inv k s (e ∷ es) v = run-Inv (floor k (serves s e)) (step s e) es (step-Inv k s e v)

-- For a gate of any capacity with any number of callers, after any interleaving of rounds,
-- timeouts, cancellations and releases, the slots in use are exactly those that callers hold and
-- are at most the capacity; the queued tickets rise strictly; each ticket is queued exactly as
-- often as callers own it, so no ticket is left behind; and nobody sleeps on the front ticket while
-- a slot is free.
pub run-start-Inv :
    (capacity n : ℕ) (es : List Event) → (k : ℕ) × Inv k (run (start capacity (idlers n)) es)
run-start-Inv capacity n es = run-Inv 0 _ es (start-Inv capacity n)

-- In any run of any number of callers from an empty gate, the queued tickets that are turned into
-- slots are served in the strictly rising order in which they were drawn.
pub served-run-Ascends :
    (capacity n : ℕ) (es : List Event)
    → let s = start capacity (idlers n) in Ascends 0 (served s es) (run s es).gate.next_ticket
served-run-Ascends capacity n es = served-Ascends 0 _ es (start-Inv capacity n)
