-- ===== src/Transaction/Calls/Violation.antt =====
-- A constraint failure that is caught inside a savepoint.
use snekql.Prelude.{
  map, ℕ, ◌≡◌, refl, ap, ◌∙◌, true, false, ◌==◌, none, some, List, [], ◌∷◌, arith, err,
}
use snekql.Transaction.{
  Done, Driver, succeeds, violates, query, rollback_to, release_savepoint, called, Transaction,
  Nested, state_error, database_error,
}
use snekql.Transaction.Calls.{
  run, queries, enters_nested, Call, perform, run_query, enter_nested, exit_nested,
}

-- An open savepoint on an unbroken connection, used by its own task.
pub record IsNested (task : ℕ) (n : Nested) (ns : List Nested) (t : Transaction) : Type 0 where
  pub connected : (t.connected ≡ true) × (t.closed ≡ false)
  pub reusable : t.connection_reusable ≡ true
  pub top : t.nested_stack ≡ n ∷ ns
  pub owned : t.nested_owner ≡ some task
  pub unheld : t.stream_owner ≡ none

eq_self : (n : ℕ) → (n == n) ≡ true
eq_self n = ground arith

-- A further query, or a further savepoint, of any task
pub data Attempt : Type 0 where
  querying nesting : ℕ → Driver → Attempt

abbrev pub attempt : Attempt → Call
attempt (querying task d) = queries task d
attempt (nesting task d) = enters_nested task d

-- A savepoint whose work can only be undone refuses what is attempted.
record IsBarred (task : ℕ) (n : Nested) (ns : List Nested) (t : Transaction) : Type 0 where
  nested : IsNested task n ns t
  marked : n.failed ≡ true

attempt_barred :
    (task : ℕ) (n : Nested) (ns : List Nested) (a : Attempt) (t : Transaction)
    → IsBarred task n ns t
    → perform (attempt a) t ≡ (err state_error, t)
unfolding perform run_query enter_nested
attempt_barred task n ns (querying other d) t b = ground arith
attempt_barred task n ns (nesting other d) t b = ground arith

run_barred :
    (task : ℕ) (n : Nested) (ns : List Nested) (attempts : List Attempt) (t : Transaction)
    → IsBarred task n ns t
    → run t (map attempt attempts) ≡ t
unfolding run
run_barred task n ns [] t b = refl
run_barred task n ns (a ∷ more) t b =
    ap (λ (q : Done). run q.1 (map attempt more)) (attempt_barred task n ns a t b)
    ∙ run_barred task n ns more t b

violated :
    (task : ℕ) (n : Nested) (ns : List Nested) (t : Transaction)
    → IsNested task n ns t
    → IsBarred task (record n { failed = true }) ns (run_query task violates t).1
unfolding run_query
violated task n ns t h = record {
  nested = record {
    connected = ground arith;
    reusable = ground arith;
    top = ground arith;
    owned = ground arith;
    unheld = ground arith;
  };
  marked = refl;
}

undone :
    (task : ℕ) (n : Nested) (ns : List Nested) (t : Transaction)
    → IsBarred task n ns t
    → let (x, v) = exit_nested task n.name false succeeds succeeds t in
      (x ≡ err state_error)
      × (v.effects
          ≡ called (release_savepoint n.name) succeeds
            ∷ called (rollback_to n.name) succeeds
            ∷ t.effects)
      × (v.nested_stack ≡ ns)
      × (v.connection_reusable ≡ true)
unfolding exit_nested
undone task n ns t b = ground (arith, eq_self n.name)

failing :
    (task : ℕ) (n : Nested) (ns : List Nested) (t : Transaction)
    → IsNested task n ns t
    → n.failed ≡ false
    → ((run_query task violates t).0 ≡ err database_error)
      × ((run_query task violates t).1.effects ≡ called query violates ∷ t.effects)
unfolding run_query
failing task n ns t h f = ground arith

-- A constraint failure inside a savepoint leaves the connection usable, and bars what comes before
-- the savepoint's end: however many queries and new savepoints any tasks attempt, each is refused
-- and changes nothing. Where the block then ends without an error, the exit undoes the savepoint's
-- work, releases it and raises, if the driver's two calls in it succeed.
pub violation_in_savepoint :
    (task : ℕ) (n : Nested) (ns : List Nested) (attempts : List Attempt) (later : Attempt)
    (t : Transaction)
    → IsNested task n ns t
    → n.failed ≡ false
    → let (r, u) = run_query task violates t in
      let w = run u (map attempt attempts) in
      let (x, v) = exit_nested task n.name false succeeds succeeds w in
      (r ≡ err database_error)
      × (u.effects ≡ called query violates ∷ t.effects)
      × (w ≡ u)
      × (perform (attempt later) w ≡ (err state_error, u))
      × (x ≡ err state_error)
      × (v.effects
          ≡ called (release_savepoint n.name) succeeds
            ∷ called (rollback_to n.name) succeeds
            ∷ u.effects)
      × (v.nested_stack ≡ ns)
      × (v.connection_reusable ≡ true)
violation_in_savepoint task n ns attempts later t h f =
    let b = violated task n ns t h in
    let (raised, undoes, popped, usable) = undone task _ ns _ b in
    rw (run_barred task _ ns attempts _ b) (
      (failing task n ns t h f).0,
      (failing task n ns t h f).1,
      refl,
      attempt_barred task _ ns later _ b,
      raised,
      undoes,
      popped,
      usable,
    )
