-- ===== src/Transaction/Calls.antt =====
-- The rest of the methods of `Transaction` and `_NestedTransaction` in snekql/runtime.py: the close,
-- the queries and the savepoints.
pub mod Lease
pub mod Savepoints
pub mod Closing
pub mod Settling
pub mod Evidence
pub mod Closed
pub mod Violation
mod Examples
use snekql.Prelude.{
  ℕ, suc, Bool, true, false, not, ◌||◌, Option, none, some, List, [], ◌∷◌, ◌==◌, if◌then◌else◌,
  Result, ok, err,
}
use snekql.Transaction.{
  Driver, Command, commit, rollback, query, savepoint, rollback_to, release_savepoint, released,
  discarded, CommitOutcome, committed, rejected, uncertain, Nested, Transaction, state_error,
  closed_error, database_error, cancelled, TxError, Done, Method, pure, raise, ◌andthen◌, emit,
  unsafe, no_stack, same_or_free, is_owner, is_held, run_driver_operation, check_nested_owner,
  require_connection, reserve_entry, complete_entry,
}

-- `finally` of `_close`: the lease goes back, or is thrown away.
pub settle_lease : Transaction → Transaction
unfolding emit
settle_lease t = emit (if t.connection_reusable then released else discarded) t

-- The evidence that the connection itself holds after a COMMIT that raised.
pub reported_or : CommitOutcome → CommitOutcome → CommitOutcome
reported_or committed old = committed
reported_or rejected old = rejected
reported_or _ old = old

pub committed_with : CommitOutcome → Result TxError (Unit {0}) → Method
unfolding reported_or settle_lease
committed_with evidence (ok _) t = (ok tt, settle_lease (record t { commit_outcome = committed }))
committed_with evidence (err e) t =
    (err e, settle_lease (record t { commit_outcome = reported_or evidence t.commit_outcome }))

pub close_by_commit : CommitOutcome → Driver → Method
unfolding run_driver_operation committed_with
close_by_commit evidence d t =
    let (r, t') = run_driver_operation commit false d (record t { commit_outcome = uncertain }) in
    committed_with evidence r t'

-- A failed rollback is logged only, so that the pending error stays; a cancellation is not.
pub rolled_back : Result TxError (Unit {0}) → Method
unfolding settle_lease
rolled_back (err cancelled) t = (err cancelled, settle_lease t)
rolled_back _ t = (ok tt, settle_lease t)

pub close_by_rollback : Driver → Method
unfolding run_driver_operation rolled_back
close_by_rollback d t = let (r, t') = run_driver_operation rollback false d t in rolled_back r t'

pub abandon_nested : Bool → Method
unfolding emit unsafe
abandon_nested raising t = (
  if raising then ok tt else err state_error,
  emit discarded (record (unsafe t) { nested_stack = []; nested_owner = none }),
)

-- An unsafe connection is discarded with neither COMMIT nor ROLLBACK, and nothing is raised.
pub close_reusable : Bool → CommitOutcome → Driver → Method
unfolding close_by_commit close_by_rollback emit
close_reusable raising evidence d t =
    if not t.connection_reusable
    then (ok tt, emit discarded t)
    else if raising
    then close_by_rollback d t
    else close_by_commit evidence d t

pub close_connected : Bool → CommitOutcome → Driver → Method
unfolding abandon_nested close_reusable no_stack
close_connected raising evidence d t =
    if not (no_stack t.nested_stack)
    then abandon_nested raising t
    else close_reusable raising evidence d t

-- `_close`. `raising` is whether the block raised.
pub close : ℕ → Bool → CommitOutcome → Driver → Method
unfolding close_connected raise same_or_free
close task raising evidence d t =
    if not (same_or_free task t.nested_owner)
    then raise state_error t
    else if not t.connected
    then raise closed_error t
    else close_connected raising evidence d (record t { connected = false; closed = true })

-- What a caller raises that has waited for the close to end: its own cancellation meanwhile comes
-- before what the close gave.
pub joined : Bool → Result TxError (Unit {0}) → Result TxError (Unit {0})
joined cancels r = if cancels then err cancelled else r

-- The close as a task of its own, which goes on to its end when the caller is cancelled.
pub join_close : ℕ → Bool → Bool → CommitOutcome → Driver → Method
unfolding close joined
join_close task cancels raising evidence d t =
    let (r, t') = close task raising evidence d t in (joined cancels r, t')

-- `__aexit__`. `cancels` is whether the caller is cancelled while it waits for a close.
pub exit : ℕ → Bool → Bool → CommitOutcome → Driver → Method
unfolding join_close joined is_owner
exit task cancels raising evidence d t =
    if not (same_or_free task t.nested_owner)
    then raise state_error t
    else if is_owner task t.stream_owner
    then raise state_error t
    else if t.close_started
    then (joined cancels (err closed_error), t)
    else join_close task cancels raising evidence d (record t { close_started = true })

-- A buffered query: `require_connection`, then the driver call, which may recover a constraint.
pub run_query : ℕ → Driver → Method
unfolding ◌andthen◌ check_nested_owner require_connection run_driver_operation
run_query task d =
    check_nested_owner task andthen (require_connection andthen run_driver_operation query true d)

pub check_stream : Method
unfolding raise pure is_held
check_stream t = if is_held t.stream_owner then raise state_error t else pure t

pub check_access : ℕ → Method
unfolding ◌andthen◌ check_nested_owner check_stream
check_access task = check_nested_owner task andthen check_stream

-- `_control`: only a rollback mark is ignored, never an unsafe connection.
pub control : Command → Driver → Method
unfolding require_connection run_driver_operation
control c d t =
    if not t.connected || t.closed || not t.connection_reusable
    then require_connection t
    else run_driver_operation c false d t

pub push_nested : ℕ → Method
push_nested task t = (
  ok tt,
  record t {
    nested_stack = record { name = t.savepoint_sequence; failed = false } ∷ t.nested_stack;
    nested_owner = some task;
  },
)

pub next_savepoint : Method
next_savepoint t = (ok tt, record t { savepoint_sequence = suc t.savepoint_sequence })

-- `SAVEPOINT`, under the name just drawn.
pub begin_savepoint : Driver → Method
unfolding control
begin_savepoint d t = control (savepoint t.savepoint_sequence) d t

-- `_NestedTransaction.__aenter__` of a context that has not been used.
pub enter_nested : ℕ → Driver → Method
unfolding check_access require_connection next_savepoint begin_savepoint push_nested ◌andthen◌
enter_nested task d =
    check_access task
    andthen (require_connection
        andthen (next_savepoint andthen (begin_savepoint d andthen push_nested task)))

pop_stack : List Nested → List Nested
pop_stack [] = []
pop_stack (n ∷ ns) = ns

owner_after : List Nested → Option ℕ → Option ℕ
owner_after [] owner = none
owner_after (n ∷ ns) owner = owner

-- `finally` of a savepoint's exit
pub pop_nested : Transaction → Transaction
unfolding pop_stack owner_after
pop_nested t = record t {
  nested_stack = pop_stack t.nested_stack;
  nested_owner = owner_after (pop_stack t.nested_stack) t.nested_owner;
}

-- The savepoint's own commands, by whether its work is undone first.
pub end_savepoint : Bool → ℕ → Driver → Driver → Method
unfolding ◌andthen◌ control
end_savepoint true name d₁ d₂ =
    control (rollback_to name) d₁ andthen control (release_savepoint name) d₂
end_savepoint false name d₁ d₂ = control (release_savepoint name) d₂

-- What the exit raises: cancellations always, other cleanup errors only from a clean block, and the
-- mark of a caught constraint failure.
pub end_result : Bool → Bool → Result TxError (Unit {0}) → Result TxError (Unit {0})
end_result raising failed (err cancelled) = err cancelled
end_result true failed r = ok tt
end_result false true (ok _) = err state_error
end_result false false (ok _) = ok tt
end_result false failed (err e) = err e

-- On an unsafe connection nothing is sent.
pub leave_unsafe : Bool → Method
unfolding pop_nested
leave_unsafe raising t = (if raising then ok tt else err database_error, pop_nested t)

pub leave_safe : Bool → Nested → Driver → Driver → Method
unfolding end_savepoint end_result pop_nested
leave_safe raising n d₁ d₂ t =
    let (r, t') = end_savepoint (raising || n.failed) n.name d₁ d₂ t in
    (end_result raising n.failed r, pop_nested t')

pub leave_savepoint : Bool → Nested → Driver → Driver → Method
unfolding leave_unsafe leave_safe
leave_savepoint raising n d₁ d₂ t =
    if t.connection_reusable then leave_safe raising n d₁ d₂ t else leave_unsafe raising t

-- The context named `name` may exit only from the top of the stack.
pub exit_top : ℕ → Bool → Driver → Driver → List Nested → Method
unfolding leave_savepoint raise
exit_top name raising d₁ d₂ [] t = raise state_error t
exit_top name raising d₁ d₂ (n ∷ ns) t =
    if n.name == name then leave_savepoint raising n d₁ d₂ t else raise state_error t

pub exit_open : ℕ → Bool → Driver → Driver → Method
unfolding require_connection exit_top
exit_open name raising d₁ d₂ t =
    if not t.connected || t.closed
    then require_connection t
    else exit_top name raising d₁ d₂ t.nested_stack t

-- `_NestedTransaction.__aexit__`
pub exit_nested : ℕ → ℕ → Bool → Driver → Driver → Method
unfolding check_access exit_open ◌andthen◌
exit_nested task name raising d₁ d₂ = check_access task andthen exit_open name raising d₁ d₂

-- The calls that a program can make, each with what the driver does in it. A chunk stream holds the
-- transaction for its task from `stream_opens` to `stream_closes`.
pub data Call : Type 0 where
  reserves : Call
  enters : Bool → Driver → Call
  queries : ℕ → Driver → Call
  enters_nested : ℕ → Driver → Call
  exits_nested : ℕ → ℕ → Bool → Driver → Driver → Call
  exits : ℕ → Bool → Bool → CommitOutcome → Driver → Call
  stream_opens : ℕ → Call
  stream_closes : Call

pub perform : Call → Method
perform reserves t = reserve_entry t
perform (enters leased d) t = complete_entry leased d t
perform (queries task d) t = run_query task d t
perform (enters_nested task d) t = enter_nested task d t
perform (exits_nested task name raising d₁ d₂) t = exit_nested task name raising d₁ d₂ t
perform (exits task cancels raising evidence d) t = exit task cancels raising evidence d t
perform (stream_opens task) t = (ok tt, record t { stream_owner = some task })
perform stream_closes t = (ok tt, record t { stream_owner = none })

pub run : Transaction → List Call → Transaction
run t [] = t
run t (c ∷ cs) = run (perform c t).1 cs
