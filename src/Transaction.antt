-- ===== src/Transaction.antt =====
-- The lifecycle of a Transaction and of its savepoints: `Transaction` and `_NestedTransaction` of
-- snekql/runtime.py. A method takes the state and the outcomes of its driver calls, and returns what
-- it raised beside the state that it left. `effects` is what the runtime and the driver were asked
-- for, latest first. The lock serialises the methods, and tasks are numbers.
pub mod Calls
use snekql.Prelude.{
  ℕ, zero, suc, Bool, true, false, not, ◌&&◌, ◌||◌, Option, none, some, List, [], ◌∷◌, ◌==◌,
  if◌then◌else◌, Result, ok, err,
}

-- How one driver interaction ends.
pub data Driver : Type 0 where
  succeeds times_out violates fails interrupted : Driver

pub data Command : Type 0 where
  begin commit rollback query : Command
  savepoint rollback_to release_savepoint : ℕ → Command

pub data Effect : Type 0 where
  acquired released discarded : Effect
  called : Command → Driver → Effect

pub data CommitOutcome : Type 0 where
  not_attempted committed rejected uncertain : CommitOutcome

-- A savepoint context on the stack.
pub record Nested : Type 0 where
  pub name : ℕ
  pub failed : Bool

pub record Transaction : Type 0 where
  pub entering : Bool
  pub connected : Bool
  pub closed : Bool
  pub close_started : Bool
  pub connection_reusable : Bool
  pub commit_outcome : CommitOutcome
  pub savepoint_sequence : ℕ
  pub nested_stack : List Nested
  pub nested_owner : Option ℕ
  pub stream_owner : Option ℕ
  pub effects : List Effect

abbrev pub fresh : Transaction
fresh = record {
  entering = false;
  connected = false;
  closed = false;
  close_started = false;
  connection_reusable = true;
  commit_outcome = not_attempted;
  savepoint_sequence = 0;
  nested_stack = [];
  nested_owner = none;
  stream_owner = none;
  effects = [];
}

pub data TxError : Type 0 where
  reuse_error state_error closed_error not_started_error timeout_error database_error cancelled :
      TxError

abbrev pub Done : Type 0
Done = Result TxError (Unit {0}) × Transaction

abbrev pub Method : Type 0
Method = Transaction → Done

pure : Method
pure t = (ok tt, t)

raise : TxError → Method
raise e t = (err e, t)

continue : Result TxError (Unit {0}) → Method → Method
continue (ok _) next t = next t
continue (err e) next t = (err e, t)

infixr 6 ◌andthen◌
◌andthen◌ : Method → Method → Method
unfolding continue
◌andthen◌ first next t = let (r, t') = first t in continue r next t'

emit : Effect → Transaction → Transaction
emit e t = record t { effects = e ∷ t.effects }

unsafe : Transaction → Transaction
unsafe t = record t { connection_reusable = false }

no_stack : List Nested → Bool
no_stack [] = true
no_stack (n ∷ ns) = false

mark_failed : List Nested → List Nested
mark_failed [] = []
mark_failed (n ∷ ns) = record n { failed = true } ∷ ns

top_failed : List Nested → Bool
top_failed [] = false
top_failed (n ∷ ns) = n.failed

pub same_or_free : ℕ → Option ℕ → Bool
same_or_free task none = true
same_or_free task (some owner) = owner == task

pub is_owner : ℕ → Option ℕ → Bool
is_owner task none = false
is_owner task (some owner) = owner == task

is_held : Option ℕ → Bool
is_held none = false
is_held (some owner) = true

-- `_run_driver_operation`, after the call has been made.
settle_driver : Bool → Driver → Method
unfolding pure raise unsafe no_stack mark_failed
settle_driver recover succeeds t = (ok tt, t)
settle_driver recover times_out t = (err timeout_error, unsafe t)
settle_driver recover fails t = (err database_error, unsafe t)
settle_driver recover interrupted t = (err cancelled, unsafe t)
settle_driver recover violates t =
    if recover && not (no_stack t.nested_stack) && t.connection_reusable
    then (err database_error, record t { nested_stack = mark_failed t.nested_stack })
    else (err database_error, unsafe t)

pub run_driver_operation : Command → Bool → Driver → Method
unfolding settle_driver emit
run_driver_operation c recover d t = settle_driver recover d (emit (called c d) t)

pub check_nested_owner : ℕ → Method
unfolding same_or_free pure raise
check_nested_owner task t = if same_or_free task t.nested_owner then pure t else raise state_error t

pub require_connection : Method
unfolding top_failed pure raise
require_connection t =
    if t.closed
    then raise closed_error t
    else if not t.connected
    then raise not_started_error t
    else if not t.connection_reusable
    then raise database_error t
    else if top_failed t.nested_stack
    then raise state_error t
    else pure t

-- `__aenter__` up to its first await.
pub reserve_entry : Method
unfolding raise
reserve_entry t =
    if t.entering || t.connected
    then raise reuse_error t
    else if t.closed
    then raise reuse_error t
    else (ok tt, record t { entering = true })

-- What `__aenter__` does once `begin` has ended.
began : Result TxError (Unit {0}) → Transaction → Done
unfolding emit unsafe
began (ok _) t = (ok tt, record t { connected = true; entering = false })
began (err e) t = (err e, record (unsafe (emit discarded t)) { closed = true; entering = false })

-- The rest of `__aenter__`: a lease, or none, and the `begin` on it.
finish_entry : Bool → Driver → Method
unfolding run_driver_operation began emit
finish_entry false d t = (err database_error, record t { entering = false })
finish_entry true d t =
    let (r, t') = run_driver_operation begin false d (emit acquired t) in began r t'

abbrev guarded : Bool → Method → Method
guarded true m t = m t
guarded false m t = (ok tt, t)

-- A reservation has to stand before the entry goes on.
pub complete_entry : Bool → Driver → Method
unfolding finish_entry
complete_entry leased d t = guarded t.entering (finish_entry leased d) t
