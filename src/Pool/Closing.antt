-- ===== src/Pool/Closing.antt =====
-- Closing keeps the books, and so does every sequence of events.
use snekql.Prelude.{ℕ, ◌≡◌, refl, ap, ◌∙◌, ◌≤◌, Bool, true, false, not, List, [], ◌∷◌, ◌==◌, arith}
use snekql.Pool.{
  Pool, Closer, resting, waiting, trying, init, take_out, is_none, start_round, begin_close,
  close_one, finish_round, try_next, end_wait, time_out, Event, admits, checks_out, gives_up, opens,
  abandons, frees, begins_close, ends_wait, times_out, reaps, tries, discards, releases, closes,
  step, run,
}
use snekql.Pool.Lists.{count, count-append, count-take_out, take_out_first}
use snekql.Pool.Accounts.{IsStage, Inv}
use snekql.Pool.Events.{
  guarded-Inv, admit-Inv, checkout-Inv, give_up-Inv, end_opening-Inv, abandon_opening-Inv,
  close_opening-Inv, discard-Inv, release-Inv, close_discarded-Inv, free_slot-Inv,
}

start_round-Inv :
    (last : Bool) (p : Pool)
    → Inv p
    → p.closed ≡ false
    → (last ≡ true → p.admitted ≡ 0)
    → Inv (start_round last p)
unfolding start_round
start_round-Inv false p v h k = record {
  slots = v.slots;
  bounded = v.bounded;
  placed = λ x.
      ground (arith, v.placed x, count-append x p.pending_close_connections p.idle_connections);
  spare = omega (arith, v.spare);
  quarantined = λ e. cc;
  stage = (refl, h, λ c. omega arith);
}
start_round-Inv true p v h k = record {
  slots = v.slots;
  bounded = v.bounded;
  placed = λ x.
      ground (arith, v.placed x, count-append x p.pending_close_connections p.idle_connections);
  spare = omega (arith, v.spare);
  quarantined = λ e. cc;
  stage = (refl, h, λ c. omega arith, k refl, refl, λ e. refl);
}

begin_close-Inv : (k : Closer) (p : Pool) → Inv p → Inv (begin_close k p)
unfolding begin_close
begin_close-Inv resting p v =
    guarded-Inv (not p.closed) _ p v (λ h. start_round-Inv false p v (ground arith) (λ e. cc))
begin_close-Inv waiting p v = v
begin_close-Inv (trying last cs bad) p v = v

end_wait-Inv : (k : Closer) (p : Pool) → IsStage k p → Inv p → Inv (end_wait k p)
unfolding end_wait
end_wait-Inv waiting p s v =
    guarded-Inv (p.admitted == 0) _ p v (λ h. start_round-Inv true p v s.1 (λ e. ground arith))
end_wait-Inv resting p s v = v
end_wait-Inv (trying last cs bad) p s v = v

emptied : (xs : List ℕ) → not (is_none xs) ≡ false → xs ≡ []
unfolding is_none
emptied [] h = refl
emptied (x ∷ xs) h = cc

time_out-Inv : (k : Closer) (p : Pool) → IsStage k p → Inv p → Inv (time_out k p)
unfolding time_out
time_out-Inv waiting p s v = record {
  slots = v.slots;
  bounded = v.bounded;
  placed = v.placed;
  spare = v.spare;
  quarantined = λ e. emptied p.pending_close_connections (ground arith);
  stage = λ c. cc;
}
time_out-Inv resting p s v = v
time_out-Inv (trying last cs bad) p s v = v

-- A handle of the round has closed.
shut_one :
    (last bad : Bool) (c : ℕ) (cs : List ℕ) (p : Pool)
    → IsStage (trying last (c ∷ cs) bad) p
    → Inv p
    → Inv (close_one true last bad c cs p)
unfolding close_one
shut_one false bad c cs p s v = record {
  slots = v.slots;
  bounded = v.bounded;
  placed = λ x. ground (arith, v.placed x, count-take_out x c p.pending_close_connections there);
  spare = v.spare;
  quarantined = λ e. cc;
  stage =
      (s.0, s.1, λ x. omega (arith, s.2 x, count-take_out x c p.pending_close_connections there));
}
  where
    there : 1 ≤ count c p.pending_close_connections
    there = ground (arith, s.2 c)
shut_one true bad c cs p s v = record {
  slots = v.slots;
  bounded = v.bounded;
  placed = λ x. ground (arith, v.placed x, count-take_out x c p.pending_close_connections there);
  spare = v.spare;
  quarantined = λ e. cc;
  stage = (
    s.0,
    s.1,
    λ x. omega (arith, s.2 x, count-take_out x c p.pending_close_connections there),
    s.3,
    s.4,
    λ e. ap (take_out c) (s.5 e) ∙ take_out_first c cs,
  );
}
  where
    there : 1 ≤ count c p.pending_close_connections
    there = ground (arith, s.2 c)

-- A handle of the round has not closed, and stays pending.
left_one :
    (last bad : Bool) (c : ℕ) (cs : List ℕ) (p : Pool)
    → IsStage (trying last (c ∷ cs) bad) p
    → Inv p
    → Inv (close_one false last bad c cs p)
unfolding close_one
left_one false bad c cs p s v = record {
  slots = v.slots;
  bounded = v.bounded;
  placed = v.placed;
  spare = v.spare;
  quarantined = v.quarantined;
  stage = (s.0, s.1, λ x. ground (arith, s.2 x));
}
left_one true bad c cs p s v = record {
  slots = v.slots;
  bounded = v.bounded;
  placed = v.placed;
  spare = v.spare;
  quarantined = v.quarantined;
  stage = (s.0, s.1, λ x. ground (arith, s.2 x), s.3, s.4, λ e. cc);
}

-- The end of a round
end_round :
    (last bad : Bool) (p : Pool)
    → IsStage (trying last [] bad) p
    → Inv p
    → Inv (finish_round last bad p)
unfolding finish_round
end_round false true p s v = record {
  slots = v.slots;
  bounded = v.bounded;
  placed = v.placed;
  spare = v.spare;
  quarantined = v.quarantined;
  stage = λ c. cc;
}
end_round true true p s v = record {
  slots = v.slots;
  bounded = v.bounded;
  placed = v.placed;
  spare = v.spare;
  quarantined = v.quarantined;
  stage = λ c. cc;
}
end_round false false p s v = record {
  slots = v.slots;
  bounded = v.bounded;
  placed = v.placed;
  spare = v.spare;
  quarantined = v.quarantined;
  stage = (s.0, s.1);
}
end_round true false p s v = record {
  slots = v.slots;
  bounded = v.bounded;
  placed = v.placed;
  spare = v.spare;
  quarantined = λ e. cc;
  stage = λ c. (s.3, s.4, s.5 refl);
}

try_next-Inv : (ok : Bool) (k : Closer) (p : Pool) → IsStage k p → Inv p → Inv (try_next ok k p)
unfolding try_next
try_next-Inv true (trying last (c ∷ cs) bad) p s v = shut_one last bad c cs p s v
try_next-Inv false (trying last (c ∷ cs) bad) p s v = left_one last bad c cs p s v
try_next-Inv ok (trying last [] bad) p s v = end_round last bad p s v
try_next-Inv ok resting p s v = v
try_next-Inv ok waiting p s v = v

step-Inv : (e : Event) (p : Pool) → Inv p → Inv (step p e)
unfolding step
step-Inv admits p v = admit-Inv p v
step-Inv checks_out p v = checkout-Inv p v
step-Inv gives_up p v = give_up-Inv p v
step-Inv opens p v = end_opening-Inv p v
step-Inv abandons p v = abandon_opening-Inv p v
step-Inv frees p v = free_slot-Inv p v
step-Inv begins_close p v = begin_close-Inv p.closer p v
step-Inv ends_wait p v = end_wait-Inv p.closer p v.stage v
step-Inv times_out p v = time_out-Inv p.closer p v.stage v
step-Inv (reaps got) p v = close_opening-Inv got p v
step-Inv (tries ok) p v = try_next-Inv ok p.closer p v.stage v
step-Inv (discards c) p v = discard-Inv c p v
step-Inv (releases c) p v = release-Inv c p v
step-Inv (closes c ok) p v = close_discarded-Inv c ok p v

run-Inv : (es : List Event) (p : Pool) → Inv p → Inv (run p es)
unfolding run
run-Inv [] p v = v
run-Inv (e ∷ es) p v = run-Inv es (step p e) (step-Inv e p v)

-- Whatever callers, openings, closes and background tasks do to a new pool, in any order: each taken
-- slot has one holder and no more than `pool_size` are taken; each connection that was ever opened
-- is in exactly one place, so that no two callers hold the same one and none is lost; no more than
-- `pool_size` are idle, being opened, leased or being discarded; and a handle that failed to close
-- is retained while the pool takes no work.
pub run-init-Inv : (size : ℕ) (es : List Event) → 1 ≤ size → Inv (run (init size) es)
run-init-Inv size es h = run-Inv es (init size) (record {
  slots = omega arith;
  bounded = omega arith;
  placed = λ x. ground arith;
  spare = omega (arith, h);
  quarantined = λ e. refl;
  stage = λ e. cc;
})
