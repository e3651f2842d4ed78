-- ===== src/Gate/Callers/Examples.antt =====
-- Runs of the gate, and the theorems at concrete inputs.
use snekql.Prelude.{
  ℕ, ◌≡◌, ◌+◌, ◌<◌, refl, true, false, some, List, [], ◌∷◌, arith, get_elem?, Bool, none, ◌↔◌,
}
use snekql.Gate.{admit_round, admits, init, release}
use snekql.Gate.Queue.{Ascends}
use snekql.Gate.Callers.{
  Event, System, round, cancelled, releases, step, run, start, idlers, woken, holding, idle,
}
use snekql.Gate.Callers.Invariant.{Inv}
use snekql.Gate.Callers.Order.{served, run-start-Inv, served-run-Ascends}
use snekql.Gate.Callers.Progress.{admit_round_fresh, front_progress}

-- One slot, three callers: the first holds it, the others queue, the second is cancelled and the
-- third is served after the release.
abbrev contention : List Event
contention =
    round 0 true false
    ∷ round 1 true false
    ∷ round 2 true false
    ∷ cancelled 1
    ∷ releases 0
    ∷ round 2 true false
    ∷ []

abbrev ended : System
ended = run (start 1 (idlers 3)) contention

contention_ends : ended.callers ≡ idle ∷ idle ∷ holding ∷ []
unfolding run step admit_round release
contention_ends = refl

contention_serves : served (start 1 (idlers 3)) contention ≡ 1 ∷ []
unfolding served run step admit_round release
contention_serves = refl

run-start-Inv_example : (k : ℕ) × Inv k (run (start 1 (idlers 3)) contention)
run-start-Inv_example = run-start-Inv 1 3 contention

served-run-Ascends_example :
    Ascends 0
      (served (start 1 (idlers 3)) contention)
      (run (start 1 (idlers 3)) contention).gate.next_ticket
served-run-Ascends_example = served-run-Ascends 1 3 contention

abbrev freed : System
freed = run (start 1 (idlers 2)) (round 0 true false ∷ round 1 true false ∷ releases 0 ∷ [])

-- The slot is free and ticket 0 is awake.
abbrev freed-Inv : (k : ℕ) × Inv k freed
freed-Inv = run-start-Inv 1 2 (round 0 true false ∷ round 1 true false ∷ releases 0 ∷ [])

front_progress_example :
    (i : ℕ) × (get_elem? freed.callers i ≡ some (woken 0))
    × (get_elem? (step freed (round i true false)).callers i ≡ some holding)
    × ((step freed (round i true false)).gate.waiters ≡ [])
    × ((step freed (round i true false)).gate.admitted ≡ freed.gate.admitted + 1)
unfolding run step admit_round release
front_progress_example = front_progress freed-Inv.0 freed 0 [] false freed-Inv.1 refl (omega arith)

admit_round_fresh_example :
    ((admit_round true false none (init 2)).0 ≡ admits)
    ↔ (◌≡◌ {A = Bool} true true × ((init 2).waiters ≡ []) × ((init 2).admitted < (init 2).capacity))
admit_round_fresh_example = admit_round_fresh true false (init 2)
