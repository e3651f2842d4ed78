-- ===== src/Retry.antt =====
-- The bounded retry of BEGIN IMMEDIATE: snekql/sqlite/retry.py. The k-th call of the operation ends
-- as `operation k` says, and the backoff after it is slept through, or raises what `sleep k` gives (a
-- cancellation). The length of a backoff is random and left out; an error carries its message as
-- `str(error).lower()` gives it.
pub mod Bounded
mod Examples
use snekql.Prelude.{
  ℕ, zero, suc, Bool, true, false, not, ◌&&◌, ◌||◌, Option, none, some, List, [], ◌∷◌, leb, ◌==◌,
  if◌then◌else◌, Text, Result, ok, err,
}
use Prim.Native.Nat.{◌%◌}

pub record DriverError : Type 0 where
  pub operational : Bool
  pub sqlite_errorcode : Option ℕ
  pub message : Text

pub starts_with : Text → Text → Bool
starts_with [] t = true
starts_with (c ∷ p) [] = false
starts_with (c ∷ p) (d ∷ t) = (c == d) && starts_with p t

-- `part in text`
pub contains : Text → Text → Bool
unfolding starts_with
contains p [] = starts_with p []
contains p (c ∷ t) = starts_with p (c ∷ t) || contains p t

-- The primary code 5 is SQLITE_BUSY; `& 0xFF` of a code is its remainder by 256.
pub has_busy_code : Option ℕ → Bool
has_busy_code none = false
has_busy_code (some code) = (code % 256) == 5

-- "database is "
abbrev database_is : Text → Text
database_is t = 100 ∷ 97 ∷ 116 ∷ 97 ∷ 98 ∷ 97 ∷ 115 ∷ 101 ∷ 32 ∷ 105 ∷ 115 ∷ 32 ∷ t

-- "database is locked"
abbrev pub locked_message : Text
locked_message = database_is (108 ∷ 111 ∷ 99 ∷ 107 ∷ 101 ∷ 100 ∷ [])

-- "database is busy"
abbrev pub busy_message : Text
busy_message = database_is (98 ∷ 117 ∷ 115 ∷ 121 ∷ [])

pub is_sqlite_busy_error : DriverError → Bool
unfolding contains has_busy_code
is_sqlite_busy_error e =
    e.operational
    && (has_busy_code e.sqlite_errorcode
        || contains locked_message e.message
        || contains busy_message e.message)

-- How a retried operation ends, and how often it was called.
abbrev pub Ending : Type 0 → Type 0
Ending A = Result DriverError A × ℕ

module _ {A : Type 0} (max_retries : ℕ) (operation : ℕ → Result DriverError A)
    (sleep : ℕ → Option DriverError) where
  -- The backoff is a point at which the caller may be cancelled.
  pub after_sleep : ℕ → Option DriverError → Option (Ending A) → Option (Ending A)
  after_sleep attempt none again = again
  after_sleep attempt (some e) again = some (err e, suc attempt)

  -- One round of `while True`, by how the call of index `attempt` ended; `again` is the next round.
  pub retry_round : ℕ → Result DriverError A → Option (Ending A) → Option (Ending A)
  unfolding is_sqlite_busy_error after_sleep
  retry_round attempt (ok a) again = some (ok a, suc attempt)
  retry_round attempt (err e) again =
      if not (is_sqlite_busy_error e) || leb max_retries attempt
      then some (err e, suc attempt)
      else after_sleep attempt (sleep attempt) again

  pub retry_from : ℕ → ℕ → Option (Ending A)
  unfolding retry_round
  retry_from zero attempt = none
  retry_from (suc fuel) attempt =
      retry_round attempt (operation attempt) (retry_from fuel (suc attempt))

  pub retry_on_sqlite_busy : ℕ → Option (Ending A)
  unfolding retry_from
  retry_on_sqlite_busy fuel = retry_from fuel 0
