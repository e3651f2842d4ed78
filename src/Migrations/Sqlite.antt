-- ===== src/Migrations/Sqlite.antt =====
-- The migration loop of snekql/sqlite/migrations.py over an abstract database. SQLite itself is a
-- parameter: `run_body` executes the statements of one body inside the owned transaction, and a
-- rolled-back transaction leaves the committed database as it was. `Turn` holds what else the
-- outside decides in one turn of the loop. The `applied_at` texts of legacy rows are left out.
pub mod Standing
pub mod Atomic
pub mod Complete
mod Examples
use snekql.Prelude.{
  ℕ, zero, suc, Bool, true, false, not, ◌&&◌, ◌||◌, Option, none, some, List, [], ◌∷◌, ◌++◌, map,
  ltb, ◌==◌, if◌then◌else◌, length, take, drop, get_elem?, Text, Result, ok, err, ◌>>=◌, ◌>>◌,
  raise_if,
}
use snekql.Migrations.Prefix.{records}
use snekql.Migrations.{
  Migration, MigrationPlan, MigrationRecord, MigrationResult, MigrationStatus, HistoryError,
  history_record, names, validate_history_prefix, validate_legacy_history, is_member,
}

-- The history layouts that `_fetch_history_shape` tells apart, with their rows.
pub data History : Type 0 where
  absent unknown : History
  v1 : List Text → History
  v2 : List MigrationRecord → History

pub record Database (Schema : Type 0) : Type 0 where
  pub history : History
  pub schema : Schema

-- A body ran to its end, raised, or left the transaction with what it had committed.
pub data Body (Schema : Type 0) : Type 0 where
  done ended : Schema → Body Schema
  failed : Body Schema

pub data Lock : Type 0 where
  granted busy begin_error : Lock

-- `late_cancel` is a cancellation that surfaces after a COMMIT that took effect.
pub data Commit : Type 0 where
  committed commit_error late_cancel : Commit

-- One turn of the loop, as the outside decides it: `before` is what other connections commit while
-- the lock is awaited.
pub record Turn (Schema : Type 0) : Type 0 where
  pub before : Database Schema → Database Schema
  pub lock : Lock
  pub creates_v2 : Bool
  pub staging_free : Bool
  pub confirms_row : Bool
  pub commit : Commit

pub data MigrateError : Type 0 where
  lock_timeout could_not_begin consent_required staging_exists could_not_create : MigrateError
  unknown_schema commit_failed cancelled missing unsupported_shape : MigrateError
  bad_history : HistoryError → MigrateError
  body_failed transaction_ended not_recorded could_not_commit : Text → MigrateError

-- `raise` keeps its error where a history check fails.
pub checked : {A : Type 0} → Result HistoryError A → Result MigrateError A
checked (ok a) = ok a
checked (err e) = err (bad_history e)

pub minimum_or_all : MigrationPlan → Option ℕ → ℕ
minimum_or_all plan none = length plan
minimum_or_all plan (some n) = n

-- The two lists of names that the loop collects, and its flag.
pub record Progress : Type 0 where
  pub applied : List Text
  pub already_applied : List Text
  pub legacy_adopted : Bool

is_nil : List Text → Bool
is_nil [] = true
is_nil (t ∷ ts) = false

-- `for record in history: if record.name not in …`
pub note_already : List MigrationRecord → Progress → Progress
note_already [] p = p
note_already (r ∷ rs) p = note_already rs (
    if is_member r.name p.applied || is_member r.name p.already_applied
    then p
    else record p { already_applied = p.already_applied ++ r.name ∷ [] })

-- How a turn ends, with the database as it is then committed.
pub data TurnEnd (Schema : Type 0) : Type 0 where
  returned : Database Schema → MigrationResult → TurnEnd Schema
  goes_on : Database Schema → Progress → TurnEnd Schema
  raised : Database Schema → MigrateError → TurnEnd Schema

module _ {Schema : Type 0} where
  pub upgrade_legacy_history :
      Turn Schema
      → Bool
      → MigrationPlan
      → List Text
      → Result MigrateError (List MigrationRecord × Bool)
  unfolding checked is_nil
  upgrade_legacy_history turn adopt plan legacy = do
    raise_if (not (is_nil legacy) && not adopt) consent_required
    prefix ← checked (validate_legacy_history legacy plan)
    raise_if (not turn.staging_free) staging_exists
    ok (records (take prefix plan), not (is_nil legacy))

  -- The v2 rows that the transaction sees, and whether it adopted legacy rows.
  pub ensure_v2_history :
      Turn Schema
      → Bool
      → MigrationPlan
      → History
      → Result MigrateError (List MigrationRecord × Bool)
  ensure_v2_history turn adopt plan absent =
      if turn.creates_v2 then ok ([], false) else err could_not_create
  ensure_v2_history turn adopt plan (v2 rows) = ok (rows, false)
  ensure_v2_history turn adopt plan (v1 legacy) = upgrade_legacy_history turn adopt plan legacy
  ensure_v2_history turn adopt plan unknown = err unknown_schema

  -- `COMMIT` of `new` over `old`; an error rolls back.
  pub commit_body : Commit → Text → Database Schema → Database Schema → Progress → TurnEnd Schema
  commit_body committed name old new p = goes_on new (record p { applied = p.applied ++ name ∷ [] })
  commit_body commit_error name old new p = raised old (could_not_commit name)
  commit_body late_cancel name old new p = raised new cancelled

  -- `COMMIT` where nothing is pending
  pub commit_head : Commit → Database Schema → Database Schema → Progress → TurnEnd Schema
  commit_head committed old new p = returned new (record {
    applied = p.applied;
    already_applied = p.already_applied;
    legacy_adopted = p.legacy_adopted;
  })
  commit_head commit_error old new p = raised old commit_failed
  commit_head late_cancel old new p = raised new cancelled

  -- `_record_history`, and the commit
  pub record_history :
      Bool → Commit → Text → Database Schema → Database Schema → Progress → TurnEnd Schema
  unfolding commit_body
  record_history true c name old new p = commit_body c name old new p
  record_history false c name old new p = raised old (not_recorded name)

  -- What follows `_apply_body`, by how the body ended.
  pub apply_next :
      Turn Schema
      → Migration
      → List MigrationRecord
      → Database Schema
      → Progress
      → Body Schema
      → TurnEnd Schema
  unfolding record_history
  apply_next turn m rows db p failed = raised db (body_failed m.name)
  apply_next turn m rows db p (ended s) =
      raised (record { history = v2 rows; schema = s }) (transaction_ended m.name)
  apply_next turn m rows db p (done s) =
      record_history turn.confirms_row turn.commit m.name db
        (record { history = v2 (rows ++ history_record m ∷ []); schema = s }) p

module _ {Schema : Type 0} (run_body : Text → Schema → Body Schema) (plan : MigrationPlan) where
  -- The turn under the lock, once the history has been read as `rows`. The rows are a prefix of the
  -- plan, so no migration stands at their number exactly where the two lengths agree.
  pub pending_turn :
      Turn Schema
      → Database Schema
      → Progress
      → List MigrationRecord
      → Option Migration
      → TurnEnd Schema
  pending_turn turn db p rows none =
      commit_head turn.commit db (record { history = v2 rows; schema = db.schema }) p
  pending_turn turn db p rows (some m) = apply_next turn m rows db p (run_body m.sql db.schema)

  -- The history check, and what follows where it passes.
  pub checked_turn :
      Turn Schema
      → Database Schema
      → Progress
      → List MigrationRecord
      → Result HistoryError (Unit {0})
      → TurnEnd Schema
  checked_turn turn db p rows (err e) = raised db (bad_history e)
  checked_turn turn db p rows (ok _) =
      pending_turn turn db (note_already rows p) rows (get_elem? plan (length rows))

  pub read_turn :
      Turn Schema
      → Database Schema
      → Progress
      → Result MigrateError (List MigrationRecord × Bool)
      → TurnEnd Schema
  read_turn turn db p (err e) = raised db e
  read_turn turn db p (ok (rows, adopted)) =
      checked_turn turn db (record p { legacy_adopted = adopted || p.legacy_adopted }) rows
        (validate_history_prefix rows plan false 0)

  pub locked_turn : Bool → Turn Schema → Database Schema → Progress → Lock → TurnEnd Schema
  locked_turn adopt turn db p busy = raised db lock_timeout
  locked_turn adopt turn db p begin_error = raised db could_not_begin
  locked_turn adopt turn db p granted =
      read_turn turn db p (ensure_v2_history turn adopt plan db.history)

  pub turn_once : Bool → Turn Schema → Database Schema → Progress → TurnEnd Schema
  unfolding locked_turn
  turn_once adopt turn start p = locked_turn adopt turn (turn.before start) p turn.lock

  -- `while True`, with fuel; the `k`-th turn meets the outside `turns k`.
  pub apply_loop :
      ℕ
      → Bool
      → (ℕ → Turn Schema)
      → ℕ
      → Database Schema
      → Progress
      → Option (Database Schema × Result MigrateError MigrationResult)
  apply_loop zero adopt turns k db p = none
  apply_loop (suc fuel) adopt turns k db p = elim (turn_once adopt (turns k) db p) [
    | returned db' r ↦ some (db', ok r)
    | raised db' e ↦ some (db', err e)
    | goes_on db' p' ↦ apply_loop fuel adopt turns (suc k) db' p'
  ]

  abbrev pub no_progress : Progress
  no_progress = record { applied = []; already_applied = []; legacy_adopted = false }

  pub apply_sqlite_migrations :
      ℕ
      → Bool
      → (ℕ → Turn Schema)
      → Database Schema
      → Option (Database Schema × Result MigrateError MigrationResult)
  unfolding apply_loop
  apply_sqlite_migrations fuel adopt turns db = apply_loop fuel adopt turns 0 db no_progress

module _ (plan : MigrationPlan) where
  -- The read-only check. `begins` is whether BEGIN succeeded.
  pub verify_sqlite_migrations : Bool → Option ℕ → History → Result MigrateError MigrationStatus
  unfolding checked minimum_or_all
  verify_sqlite_migrations false minimum_applied h = err could_not_begin
  verify_sqlite_migrations true minimum_applied absent = do
    raise_if (ltb 0 (minimum_or_all plan minimum_applied)) missing
    ok (record { applied = []; history_present = false; pending = names plan })
  verify_sqlite_migrations true minimum_applied (v2 rows) = do
    checked (validate_history_prefix rows plan false (minimum_or_all plan minimum_applied))
    ok (record {
      applied = map (λ (r : MigrationRecord). r.name) rows;
      history_present = true;
      pending = names (drop (length rows) plan);
    })
  verify_sqlite_migrations true minimum_applied _ = err unsupported_shape
