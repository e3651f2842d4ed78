-- ===== src/Retry/Examples.antt =====
-- An operation that meets a busy database twice.
use snekql.Prelude.{
  ℕ, zero, suc, ◌≡◌, refl, true, false, Option, none, some, [], Result, ok, err, arith,
}
use snekql.Retry.{DriverError, retry_on_sqlite_busy, locked_message}
use snekql.Retry.Bounded.{Settles, retry_on_sqlite_busy-Settles}

-- SQLITE_BUSY_SNAPSHOT
abbrev busy : DriverError
busy = record { operational = true; sqlite_errorcode = some 517; message = [] }

abbrev locked : DriverError
locked = record { operational = true; sqlite_errorcode = none; message = locked_message }

abbrev calls : ℕ → Result DriverError ℕ
calls zero = err busy
calls (suc zero) = err locked
calls (suc (suc n)) = ok n

abbrev undisturbed : ℕ → Option DriverError
undisturbed i = none

abbrev cancellation : DriverError
cancellation = record { operational = false; sqlite_errorcode = none; message = [] }

-- The second backoff is cancelled.
abbrev disturbed : ℕ → Option DriverError
disturbed zero = none
disturbed (suc n) = some cancellation

third_call_counts : retry_on_sqlite_busy 5 calls undisturbed 6 ≡ some (ok 0, 3)
unfolding retry_on_sqlite_busy
third_call_counts = refl

cancelled_backoff : retry_on_sqlite_busy 5 calls disturbed 6 ≡ some (err cancellation, 2)
unfolding retry_on_sqlite_busy
cancelled_backoff = refl

retry_on_sqlite_busy-Settles_example :
    Settles 5 calls disturbed 0 (retry_on_sqlite_busy 5 calls disturbed 6)
retry_on_sqlite_busy-Settles_example =
    retry_on_sqlite_busy-Settles 5 calls disturbed 6 (omega arith)
