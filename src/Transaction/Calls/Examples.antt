-- ===== src/Transaction/Calls/Examples.antt =====
-- Concrete runs of a transaction: a commit with a savepoint whose constraint failure was caught, and
-- the state in which each law is used.
use snekql.Prelude.{map, ◌≤◌, ◌+◌, ◌≡◌, ◌≢◌, ◌↔◌, ◌⊎◌, refl, true, false, List, [], ◌∷◌, ok, err}
use snekql.Transaction.{
  succeeds, violates, commit, query, rollback_to, release_savepoint, released, discarded, called,
  Transaction, fresh, state_error, database_error, uncertain, committed, times_out, complete_entry,
  reserve_entry, fails, interrupted, cancelled,
}
use snekql.Transaction.Calls.{
  Call, reserves, enters, queries, enters_nested, exits_nested, exits, perform, run, run_query,
  exit, exit_nested, enter_nested,
}
use snekql.Transaction.Calls.Lease.{Inv, acquisitions, settlements, open_leases}
use snekql.Transaction.Calls.Settling.{run-fresh-Inv, MayExit}
use snekql.Transaction.Calls.Evidence.{clean_exit_evidence}
use snekql.Transaction.Calls.Closed.{closed_is_silent}
use snekql.Transaction.Calls.Violation.{Attempt, querying, nesting, attempt, violation_in_savepoint}

abbrev opening : List Call
opening = reserves ∷ enters true succeeds ∷ queries 7 succeeds ∷ []

abbrev whole : List Call
whole =
    reserves
    ∷ enters true succeeds
    ∷ enters_nested 7 succeeds
    ∷ queries 7 violates
    ∷ exits_nested 7 1 true succeeds succeeds
    ∷ queries 7 succeeds
    ∷ exits 7 false false uncertain succeeds
    ∷ []

whole_commits : (run fresh whole).commit_outcome ≡ committed
unfolding run perform exit run_query exit_nested enter_nested complete_entry reserve_entry
whole_commits = refl

run-fresh-Inv_example :
    let t = run fresh opening in
    let u = (exit 7 true false committed times_out t).1 in
    Inv t
    × (acquisitions t.effects ≤ 1)
    × (settlements t.effects + open_leases t.effects ≡ acquisitions t.effects)
    × ((settlements u.effects ≡ acquisitions u.effects)
        ↔ ((settlements t.effects ≡ acquisitions t.effects) ⊎ MayExit 7 t))
run-fresh-Inv_example = run-fresh-Inv opening 7 true false committed times_out

clean_exit_evidence_example :
    let t = run fresh opening in
    let r = exit 7 true false committed times_out t in
    ((r.0 ≡ ok tt) ↔ ((times_out ≡ succeeds) × (true ≡ false)))
    × ((r.0 ≡ err cancelled) ↔ ((times_out ≡ interrupted) ⊎ (true ≡ true)))
    × ((r.1.commit_outcome ≡ committed) ↔ ((times_out ≡ succeeds) ⊎ (committed ≡ committed)))
    × ((r.1.effects ≡ released ∷ called commit times_out ∷ t.effects) ↔ (times_out ≡ succeeds))
    × ((r.1.effects ≡ discarded ∷ called commit times_out ∷ t.effects) ↔ (times_out ≢ succeeds))
unfolding run perform run_query complete_entry reserve_entry
clean_exit_evidence_example =
    clean_exit_evidence 7 true committed times_out (run fresh opening) (record {
      connected = refl;
      reusable = refl;
      flat = refl;
      unowned = refl;
      unheld = refl;
      unclosed = refl;
    })

-- The COMMIT succeeds, and the cancelled caller still gets its cancellation.
cancelled_commit :
    let r = exit 7 true false uncertain succeeds (run fresh opening) in
    (r.0 ≡ err cancelled) × (r.1.commit_outcome ≡ committed)
unfolding run perform exit run_query complete_entry reserve_entry
cancelled_commit = (refl, refl)

abbrev again : List Call
again =
    reserves ∷ enters true succeeds ∷ queries 7 succeeds ∷ exits 7 false false uncertain fails ∷ []

closed_is_silent_example :
    let u = run (run fresh whole) again in
    (u.closed ≡ true) × (u.effects ≡ (run fresh whole).effects)
unfolding run perform exit run_query exit_nested enter_nested complete_entry reserve_entry
closed_is_silent_example = closed_is_silent whole again refl

abbrev nested : Transaction
nested = run fresh (reserves ∷ enters true succeeds ∷ enters_nested 7 succeeds ∷ [])

abbrev attempts : List Attempt
attempts = querying 7 succeeds ∷ nesting 7 succeeds ∷ querying 8 fails ∷ []

violation_in_savepoint_example :
    let (r, u) = run_query 7 violates nested in
    let w = run u (map attempt attempts) in
    let (x, v) = exit_nested 7 1 false succeeds succeeds w in
    (r ≡ err database_error)
    × (u.effects ≡ called query violates ∷ nested.effects)
    × (w ≡ u)
    × (perform (attempt (querying 7 succeeds)) w ≡ (err state_error, u))
    × (x ≡ err state_error)
    × (v.effects
        ≡ called (release_savepoint 1) succeeds ∷ called (rollback_to 1) succeeds ∷ u.effects)
    × (v.nested_stack ≡ [])
    × (v.connection_reusable ≡ true)
unfolding run perform enter_nested complete_entry reserve_entry
violation_in_savepoint_example =
    violation_in_savepoint 7 (record { name = 1; failed = false }) [] attempts (querying 7 succeeds)
      nested
      (record {
        connected = (refl, refl);
        reusable = refl;
        top = refl;
        owned = refl;
        unheld = refl;
      })
      refl
