-- ===== src/Transaction/Calls/Closing.antt =====
-- The order of effects through a close, and through a run of calls.
use snekql.Prelude.{
  ℕ, ◌≡◌, refl, Bool, true, false, not, List, [], ◌∷◌, arith, ok, err, if◌then◌else◌,
}
use snekql.Transaction.{
  Driver, succeeds, discarded, Transaction, raise, emit, no_stack, state_error, same_or_free,
  is_owner, closed_error, fresh, CommitOutcome,
}
use snekql.Transaction.Calls.{
  Call, perform, run, abandon_nested, close_reusable, reserves, enters, queries, enters_nested,
  exits_nested, exits, stream_opens, stream_closes, close_connected, close_by_commit,
  close_by_rollback, close, exit, join_close, joined,
}
use snekql.Transaction.Calls.Lease.{Inv, IsOrderly, NoBreak, open_leases}
use snekql.Transaction.Calls.Savepoints.{
  reserve_entry-Inv, run_query-Inv, complete_entry-Inv, enter_nested-Keeps, exit_nested-Keeps,
  same-Inv,
}

-- A transaction whose close has taken the connection, and not yet settled the lease.
record IsClosing (t : Transaction) : Type 0 where
  orderly : IsOrderly t.effects
  leased : open_leases t.effects ≡ 1
  unbroken : t.connection_reusable ≡ true → NoBreak t.effects
  cleared : (t.connected ≡ false) × (t.closed ≡ true) × (t.entering ≡ false)

close_by_commit-Inv :
    (e : CommitOutcome) (d : Driver) (t : Transaction)
    → IsClosing t
    → t.connection_reusable ≡ true
    → Inv (close_by_commit e d t).1
unfolding close_by_commit
close_by_commit-Inv e succeeds t c h = ground arith
close_by_commit-Inv e _ t c h = ground arith

close_by_rollback-Inv :
    (d : Driver) (t : Transaction)
    → IsClosing t
    → t.connection_reusable ≡ true
    → Inv (close_by_rollback d t).1
unfolding close_by_rollback
close_by_rollback-Inv succeeds t c h = ground arith
close_by_rollback-Inv _ t c h = ground arith

abandon_nested-Inv :
    (raising : Bool) (t : Transaction) → IsClosing t → Inv (abandon_nested raising t).1
unfolding abandon_nested
abandon_nested-Inv raising t c = ground arith

close_reusable-Inv :
    (raising : Bool) (e : CommitOutcome) (d : Driver) (t : Transaction)
    → IsClosing t
    → Inv (close_reusable raising e d t).1
unfolding close_reusable
close_reusable-Inv raising e d t c = go t.connection_reusable refl raising
  where
    go :
        (b : Bool)
        → t.connection_reusable ≡ b
        → (r : Bool)
        → Inv
            (if not b
              then (ok tt, emit discarded t)
              else if r
              then close_by_rollback d t
              else close_by_commit e d t).1
    go true h true = close_by_rollback-Inv d t c h
    go true h false = close_by_commit-Inv e d t c h
    go false h r = unfold emit in ground arith

close_connected-Inv :
    (raising : Bool) (e : CommitOutcome) (d : Driver) (t : Transaction)
    → IsClosing t
    → Inv (close_connected raising e d t).1
unfolding close_connected
close_connected-Inv raising e d t c =
    elim (not (no_stack t.nested_stack))
      as (λ b. Inv (if b then abandon_nested raising t else close_reusable raising e d t).1) [
        | true ↦ abandon_nested-Inv raising t c
        | false ↦ close_reusable-Inv raising e d t c
      ]

close-Inv :
    (task : ℕ) (raising : Bool) (e : CommitOutcome) (d : Driver) (t : Transaction)
    → Inv t
    → Inv (close task raising e d t).1
unfolding close
close-Inv task raising e d t v =
    elim (not (same_or_free task t.nested_owner))
      as (λ b.
        Inv
          (if b
            then raise state_error t
            else if not t.connected
            then raise closed_error t
            else close_connected raising e d (record t { connected = false; closed = true })).1) [
              | true ↦ v
              | false ↦ go t.connected refl
            ]
  where
    go :
        (b : Bool)
        → t.connected ≡ b
        → Inv
            (if not b
              then raise closed_error t
              else close_connected raising e d (record t { connected = false; closed = true })).1
    go false h = v
    go true h =
        close_connected-Inv raising e d (record t { connected = false; closed = true })
          (record {
            orderly = v.orderly;
            leased = (v.live h).0;
            unbroken = v.unbroken;
            cleared = (refl, refl, ground arith);
          })

pub exit-Inv :
    (task : ℕ) (cancels raising : Bool) (e : CommitOutcome) (d : Driver) (t : Transaction)
    → Inv t
    → Inv (exit task cancels raising e d t).1
unfolding exit join_close
exit-Inv task cancels raising e d t v =
    first (not (same_or_free task t.nested_owner)) (is_owner task t.stream_owner) t.close_started
  where
    closing : Transaction
    closing = record t { close_started = true }

    first :
        (a b c : Bool)
        → Inv
            (if a
              then raise state_error t
              else if b
              then raise state_error t
              else if c
              then (joined cancels (err closed_error), t)
              else join_close task cancels raising e d closing).1
    first true b c = v
    first false true c = v
    first false false true = v
    first false false false =
        close-Inv task raising e d closing (same-Inv t closing (refl, refl, refl, refl, refl) v)

perform-Inv : (c : Call) (t : Transaction) → Inv t → Inv (perform c t).1
unfolding perform
perform-Inv reserves t v = reserve_entry-Inv t v
perform-Inv (enters leased d) t v = complete_entry-Inv leased d t v
perform-Inv (queries task d) t v = run_query-Inv task d t v
perform-Inv (enters_nested task d) t v = (enter_nested-Keeps task d).at t v
perform-Inv (exits_nested task name raising d₁ d₂) t v =
    (exit_nested-Keeps task name raising d₁ d₂).at t v
perform-Inv (exits task cancels raising e d) t v = exit-Inv task cancels raising e d t v
perform-Inv (stream_opens task) t v = same-Inv t _ (refl, refl, refl, refl, refl) v
perform-Inv stream_closes t v = same-Inv t _ (refl, refl, refl, refl, refl) v

pub run-Inv : (t : Transaction) (cs : List Call) → Inv t → Inv (run t cs)
unfolding run
run-Inv t [] v = v
run-Inv t (c ∷ cs) v = run-Inv (perform c t).1 cs (perform-Inv c t v)

pub fresh-Inv : Inv fresh
fresh-Inv = record {
  orderly = tt;
  live = λ h. cc;
  settled = λ h. refl;
  untouched = λ h k. refl;
  entry = λ h. cc;
  unbroken = λ h. tt;
}
