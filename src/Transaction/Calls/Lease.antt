-- ===== src/Transaction/Calls/Lease.antt =====
-- The order in which a transaction asks for things: its lease, driver calls, and the return or
-- discard of the lease.
use snekql.Prelude.{ℕ, suc, ◌+◌, ◌≤◌, arith, ◌≡◌, true, false, List, [], ◌∷◌}
use snekql.Transaction.{
  succeeds, times_out, fails, interrupted, commit, rollback, Effect, acquired, released, discarded,
  called, Transaction,
}

-- 1 while a lease is open
abbrev pub open_leases : List Effect → ℕ
open_leases [] = 0
open_leases (acquired ∷ es) = 1
open_leases (released ∷ es) = 0
open_leases (discarded ∷ es) = 0
open_leases (called c d ∷ es) = open_leases es

-- How often a lease was taken
abbrev pub acquisitions : List Effect → ℕ
acquisitions [] = 0
acquisitions (acquired ∷ es) = suc (acquisitions es)
acquisitions (_ ∷ es) = acquisitions es

-- How often a lease was returned or discarded
abbrev pub settlements : List Effect → ℕ
settlements [] = 0
settlements (released ∷ es) = suc (settlements es)
settlements (discarded ∷ es) = suc (settlements es)
settlements (_ ∷ es) = settlements es

-- No driver call was cut off or failed for another reason than a constraint.
abbrev pub NoBreak : List Effect → Type 0
NoBreak [] = Unit {0}
NoBreak (called c times_out ∷ es) = ⊥
NoBreak (called c fails ∷ es) = ⊥
NoBreak (called c interrupted ∷ es) = ⊥
NoBreak (_ ∷ es) = NoBreak es

-- The last thing done on the lease was a COMMIT or a ROLLBACK that succeeded.
abbrev pub EndsWell : List Effect → Type 0
EndsWell (called commit succeeds ∷ es) = Unit {0}
EndsWell (called rollback succeeds ∷ es) = Unit {0}
EndsWell _ = ⊥

-- Each effect, with those before it.
abbrev pub IsOrderly : List Effect → Type 0
IsOrderly [] = Unit {0}
IsOrderly (acquired ∷ es) = (es ≡ []) × IsOrderly es
IsOrderly (called c d ∷ es) = (open_leases es ≡ 1) × NoBreak es × IsOrderly es
IsOrderly (released ∷ es) = (open_leases es ≡ 1) × NoBreak es × EndsWell es × IsOrderly es
IsOrderly (discarded ∷ es) = (open_leases es ≡ 1) × IsOrderly es

pub record Inv (t : Transaction) : Type 0 where
  pub orderly : IsOrderly t.effects
  pub live : t.connected ≡ true → (open_leases t.effects ≡ 1) × (t.closed ≡ false)
  pub settled : t.connected ≡ false → open_leases t.effects ≡ 0
  pub untouched : t.connected ≡ false → t.closed ≡ false → t.effects ≡ []
  pub entry : t.entering ≡ true → (t.connected ≡ false) × (t.closed ≡ false)
  pub unbroken : t.connection_reusable ≡ true → NoBreak t.effects

-- Orderly effects take one lease at most, and each that they take is settled or still open.
pub IsOrderly-counted :
    (es : List Effect)
    → IsOrderly es
    → (settlements es + open_leases es ≡ acquisitions es) × (acquisitions es ≤ 1)
IsOrderly-counted [] o = (omega arith, omega arith)
IsOrderly-counted (acquired ∷ es) o = rw o.0 (omega arith, omega arith)
IsOrderly-counted (called c d ∷ es) o = IsOrderly-counted es o.2
IsOrderly-counted (released ∷ es) o =
    let (p, q) = IsOrderly-counted es o.3 in (omega (arith, p, o.0), q)
IsOrderly-counted (discarded ∷ es) o =
    let (p, q) = IsOrderly-counted es o.1 in (omega (arith, p, o.0), q)
