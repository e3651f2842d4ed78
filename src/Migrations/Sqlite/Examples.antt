-- ===== src/Migrations/Sqlite/Examples.antt =====
-- Runs of the SQLite migration loop, and the theorems at them.
use snekql.Prelude.{
  ℕ, ◌≡◌, ◌≢◌, ◌↔◌, refl, true, false, some, List, [], ◌∷◌, ◌++◌, arith, Text, Result, ok, text_eq,
  if◌then◌else◌,
}
use snekql.Migrations.{
  history_record, MigrationResult, MigrationStatus, validate_history_prefix, names,
}
use snekql.Migrations.Sqlite.{
  absent, v2, Body, done, failed, ended, Database, Turn, granted, committed, MigrateError,
  apply_sqlite_migrations, verify_sqlite_migrations, minimum_or_all,
}
use snekql.Migrations.Sqlite.Standing.{StandsAt, Ended, bodies}
use snekql.Migrations.Sqlite.Atomic.{apply_sqlite_migrations_atomic}
use snekql.Migrations.Sqlite.Complete.{Reports, verify_sqlite_migrations-Reports}
use snekql.Migrations.Data.{plan, one_row}

-- A schema is the list of bodies that ran; the body `Y` fails.
abbrev run_body : Text → List Text → Body (List Text)
run_body sql s = if text_eq sql (b'Y' ∷ []) then failed else done (s ++ sql ∷ [])

stays : (sql : Text) (s t : List Text) → run_body sql s ≢ ended t
stays sql s t e = ground arith

abbrev calm : ℕ → Turn (List Text)
calm i = record {
  before = λ db. db;
  lock = granted;
  creates_v2 = true;
  staging_free = true;
  confirms_row = true;
  commit = committed;
}

abbrev untracked : Database (List Text)
untracked = record { history = absent; schema = [] }

abbrev untracked-StandsAt : StandsAt run_body plan [] 0 untracked
untracked-StandsAt = record {
  within = omega arith;
  tracked = refl;
  effects = unfold bodies in refl;
}

apply_sqlite_migrations_atomic_example :
    (out : Database (List Text) × Result MigrateError MigrationResult) × (apply_sqlite_migrations
        run_body plan 3 false calm untracked
      ≡ some out)
    × Ended run_body plan [] 0 out.0 out.1
apply_sqlite_migrations_atomic_example =
    apply_sqlite_migrations_atomic run_body plan [] stays 3 false calm 0 untracked
      (λ i k db st. (k, omega arith, st)) (omega arith) untracked-StandsAt

one_row_status :
    verify_sqlite_migrations plan true (some 1) (v2 one_row)
    ≡ ok (record { applied = (b'a' ∷ []) ∷ []; history_present = true; pending = (b'b' ∷ []) ∷ [] })
unfolding verify_sqlite_migrations validate_history_prefix names history_record text_eq
one_row_status = refl

abbrev one_status : MigrationStatus
one_status = record {
  applied = (b'a' ∷ []) ∷ [];
  history_present = true;
  pending = (b'b' ∷ []) ∷ [];
}

verify_sqlite_migrations-Reports_example :
    (verify_sqlite_migrations plan true (some 1) (v2 one_row) ≡ ok one_status)
    ↔ Reports plan 1 (v2 one_row) one_status
unfolding minimum_or_all
verify_sqlite_migrations-Reports_example =
    verify_sqlite_migrations-Reports plan (some 1) (v2 one_row) one_status (refl, (refl, tt))
