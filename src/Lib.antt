-- ===== src/Lib.antt =====
-- snekql, a typed query library over SQLite and MariaDB.
--
-- The parts that are modelled, from the pool upwards:
--   * The connection pool of SQLite (snekql/sqlite/pool.py). Pool.antt has its connections and
--     slots, and every interleaving of leases, openings, discards and closes as a list of events.
--   * It admits its callers through a gate (snekql/_pool_gate.py). Gate.antt has one function for
--     each critical section of `FairAdmissionGate`; Gate/Callers.antt has the callers, and every
--     interleaving of their rounds, releases, timeouts and cancellations as a list of events.
--   * A transaction (snekql/runtime.py) takes one lease from the pool and settles it.
--     Transaction.antt has its state, one driver interaction and its entry,
--     Transaction/Calls.antt its queries, its savepoints (`_NestedTransaction`) and its close,
--     which goes on to its end when the caller of the exit is cancelled meanwhile.
--     What the driver does in a call is an argument of the call: it succeeds, times out, violates
--     a constraint, fails or is cut off.
--   * A chunk stream (`ChunkStream` of snekql/runtime.py, in Chunks.antt) holds the transaction
--     for the task that entered it and gives out the rows of a query in lists.
--   * The writer lock of SQLite is taken with a bounded retry (snekql/sqlite/retry.py, in
--     Retry.antt), whose backoff may be cancelled.
--   * Migrations are declared, compared with the stored history (snekql/_migrations.py, in
--     Migrations.antt) and applied one by one in transactions of their own
--     (snekql/sqlite/migrations.py, in Migrations/Sqlite.antt).
--   * CHECK constraints and the conditions of partial indexes are declared as predicates
--     (snekql/_checks.py), printed into the schema and read back from the catalog
--     (snekql/_check_catalog.py). Checks.antt has the expressions and `normalize_check`,
--     Checks/Declarations.antt `bind_checks`, Checks/Binding.antt the binder of predicates,
--     Checks/Render.antt `render_check`, Checks/Tokens.antt the tokenizer, Checks/Parser.antt the
--     parser, Checks/Coding.antt UTF-8, hexadecimal and decimal text, and Checks/Catalog.antt the
--     readers of catalog SQL. `Written` of Checks/Render/Written.antt describes, case by case, the
--     expressions that the binder makes, with their text and their tokens; the lemmas on the
--     printer, the tokenizer and the parser are about it.
--   * Indexes and foreign keys are printed by snekql/_schema_compile.py (Schema.antt).
--   * The schema of a list of models is planned (snekql/_schema_plan.py, in Schema/Plan.antt) and
--     compared with the catalog under a policy (snekql/_schema_startup.py, in
--     Schema/Startup.antt). The comparison of two tables (snekql/_schema_shape.py) is
--     `compare_table_shapes` of Schema/Shapes/Tables.antt, with the foreign keys in
--     Schema/Shapes/Keys.antt and literal defaults of snekql/_server_defaults.py.
--
-- Parameters. SHA-256 is an argument of what uses it, and so is what SQLite does with a migration
-- body; what other connections commit meanwhile, which lock or commit fails, and which task
-- calls, are arguments too. `fetchmany` is a parameter with what drivers document of it, and so
-- is the decoding of a row. The comparison of two SQL values in a CHECK is a parameter, NULLs
-- included. Which characters beyond ASCII are letters or alphanumeric, and `casefold`, are
-- parameters of the tokenizer and of the declarations. The binder takes what the storage layer
-- gives it: the type that an annotation resolves to, and the encoder of a column. The plan takes
-- the model that the annotation of a foreign key names, and verification what the backend expects
-- and finds of a table, `repr` and, for the comparison of shapes, the texts of issues and facts.
--
-- Fuel. `apply_loop` takes one unit of fuel for each turn of the `while True` of
-- `apply_sqlite_migrations`, and more units than the plan has migrations are enough. `consume`
-- takes one unit for each round of an `async for` over a stream, and one more than there are rows
-- is enough. `retry_from` takes one unit for each call, of which `max_retries + 1` are enough.
-- `normalize_check` takes fuel for each call of itself, and two units for each level of the
-- expression are enough; the comparison of shapes gives it that, and so leaves out the
-- recursion limit of Python. The tokenizer takes one unit for each character and one for the end. The
-- parser takes a unit for each nested call, which stands for the recursion limit of Python, and
-- `need` bounds what an expression takes of it. All else is by structural recursion.
--
-- Texts are lists of code points, and all numbers are natural numbers without a bound, as
-- Python's are. Times, telemetry, the texts of errors and all log lines but
-- the warnings of schema verification are left out. So are, as I/O
-- or as calls of drivers: opening connections, running SQL and reading the catalog. The query
-- builder, its compilation and the MariaDB backend are not modelled.
mod Prelude
pub mod Gate
pub mod Migrations
pub mod Transaction
pub mod Checks
pub mod Pool
pub mod Chunks
pub mod Retry
pub mod Schema
