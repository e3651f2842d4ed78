-- ===== src/Transaction/Calls/Savepoints.antt =====
-- The order of effects in entry, queries and savepoints.
use snekql.Prelude.{
  ℕ, ◌≡◌, refl, Bool, true, false, not, ◌||◌, ◌==◌, List, [], ◌∷◌, arith, Result, ok, err,
  if◌then◌else◌,
}
use snekql.Transaction.{
  Driver, succeeds, Command, Transaction, Nested, ◌andthen◌, continue, raise, state_error, Method,
  TxError, reserve_entry, complete_entry, require_connection, check_nested_owner,
}
use snekql.Transaction.Calls.{
  run_query, enter_nested, exit_nested, check_access, check_stream, next_savepoint, begin_savepoint,
  exit_open, leave_safe, leave_unsafe, push_nested, pop_nested, end_savepoint, leave_savepoint,
  exit_top, control,
}
use snekql.Transaction.Calls.Lease.{Inv}

pub reserve_entry-Inv : (t : Transaction) → Inv t → Inv (reserve_entry t).1
unfolding reserve_entry
reserve_entry-Inv t v = ground arith

pub run_query-Inv : (task : ℕ) (d : Driver) (t : Transaction) → Inv t → Inv (run_query task d t).1
unfolding run_query
run_query-Inv task succeeds t v = ground arith
run_query-Inv task _ t v = ground arith

pub complete_entry-Inv :
    (l : Bool) (d : Driver) (t : Transaction) → Inv t → Inv (complete_entry l d t).1
unfolding complete_entry
complete_entry-Inv l succeeds t v = ground arith
complete_entry-Inv l _ t v = ground arith

-- Nothing that the invariant reads has changed.
pub same-Inv :
    (t u : Transaction)
    → (u.effects ≡ t.effects)
      × (u.connected ≡ t.connected)
      × (u.closed ≡ t.closed)
      × (u.entering ≡ t.entering)
      × (u.connection_reusable ≡ t.connection_reusable)
    → Inv t
    → Inv u
same-Inv t u h v = ground arith

-- A method keeps the invariant, whether it returns or raises.
pub record Keeps (m : Method) : Type 0 where
  pub at : (t : Transaction) → Inv t → Inv (m t).1

module _ (first next : Method) where
  continue-Inv :
      (r : Result TxError (Unit {0})) (t : Transaction)
      → Keeps next
      → Inv t
      → Inv (continue r next t).1
  unfolding continue
  continue-Inv (ok _) t k v = k.at t v
  continue-Inv (err e) t k v = v

  andthen-Keeps : Keeps first → Keeps next → Keeps (first andthen next)
  unfolding ◌andthen◌
  andthen-Keeps kf kn = record {
    at = λ t v. let (r, t') = first t in continue-Inv r t' kn (kf.at t v);
  }

control-Inv : (c : Command) (d : Driver) (t : Transaction) → Inv t → Inv (control c d t).1
unfolding control
control-Inv c succeeds t v = ground arith
control-Inv c _ t v = ground arith

control-Keeps : (c : Command) (d : Driver) → Keeps (control c d)
control-Keeps c d = record { at = control-Inv c d }

pub check_nested_owner-Keeps : (task : ℕ) → Keeps (check_nested_owner task)
unfolding check_nested_owner
check_nested_owner-Keeps task = record { at = λ t v. ground arith }

check_stream-Keeps : Keeps check_stream
unfolding check_stream
check_stream-Keeps = record { at = λ t v. ground arith }

check_access-Keeps : (task : ℕ) → Keeps (check_access task)
unfolding check_access
check_access-Keeps task = search (andthen-Keeps, check_nested_owner-Keeps, check_stream-Keeps)

require_connection-Keeps : Keeps require_connection
unfolding require_connection
require_connection-Keeps = record { at = λ t v. ground arith }

push_nested-Keeps : (task : ℕ) → Keeps (push_nested task)
unfolding push_nested
push_nested-Keeps task = record { at = λ t v. same-Inv t _ (refl, refl, refl, refl, refl) v }

next_savepoint-Keeps : Keeps next_savepoint
unfolding next_savepoint
next_savepoint-Keeps = record { at = λ t v. same-Inv t _ (refl, refl, refl, refl, refl) v }

pop_nested-Inv : (t : Transaction) → Inv t → Inv (pop_nested t)
unfolding pop_nested
pop_nested-Inv t v = same-Inv t _ (refl, refl, refl, refl, refl) v

begin_savepoint-Keeps : (d : Driver) → Keeps (begin_savepoint d)
unfolding begin_savepoint
begin_savepoint-Keeps d = record { at = λ t v. control-Inv _ d t v }

ruleset keeps_rules = (
  andthen-Keeps, control-Keeps, check_access-Keeps, require_connection-Keeps, push_nested-Keeps,
  next_savepoint-Keeps, begin_savepoint-Keeps,
)

pub enter_nested-Keeps : (task : ℕ) (d : Driver) → Keeps (enter_nested task d)
unfolding enter_nested
enter_nested-Keeps task d = search keeps_rules

end_savepoint-Keeps :
    (undo : Bool) (name : ℕ) (d₁ d₂ : Driver) → Keeps (end_savepoint undo name d₁ d₂)
unfolding end_savepoint
end_savepoint-Keeps true name d₁ d₂ = search keeps_rules
end_savepoint-Keeps false name d₁ d₂ = search keeps_rules

leave_savepoint-Inv :
    (raising : Bool) (n : Nested) (d₁ d₂ : Driver) (t : Transaction)
    → Inv t
    → Inv (leave_savepoint raising n d₁ d₂ t).1
unfolding leave_savepoint
leave_savepoint-Inv raising n d₁ d₂ t v =
    elim t.connection_reusable
      as (λ b. Inv (if b then leave_safe raising n d₁ d₂ t else leave_unsafe raising t).1) [
        | true ↦ pop_nested-Inv _ ((end_savepoint-Keeps (raising || n.failed) n.name d₁ d₂).at t v)
        | false ↦ pop_nested-Inv t v
      ]

exit_top-Inv :
    (name : ℕ) (raising : Bool) (d₁ d₂ : Driver) (ns : List Nested) (t : Transaction)
    → Inv t
    → Inv (exit_top name raising d₁ d₂ ns t).1
unfolding exit_top
exit_top-Inv name raising d₁ d₂ [] t v = v
exit_top-Inv name raising d₁ d₂ (n ∷ ns) t v =
    elim (n.name == name)
      as (λ b. Inv (if b then leave_savepoint raising n d₁ d₂ t else raise state_error t).1) [
        | true ↦ leave_savepoint-Inv raising n d₁ d₂ t v
        | false ↦ v
      ]

exit_open-Keeps :
    (name : ℕ) (raising : Bool) (d₁ d₂ : Driver) → Keeps (exit_open name raising d₁ d₂)
unfolding exit_open
exit_open-Keeps name raising d₁ d₂ = record {
  at = λ t v.
      elim (not t.connected || t.closed)
        as (λ b.
          Inv
            (if b then require_connection t else exit_top name raising d₁ d₂ t.nested_stack t).1) [
              | true ↦ require_connection-Keeps.at t v
              | false ↦ exit_top-Inv name raising d₁ d₂ t.nested_stack t v
            ];
}

pub exit_nested-Keeps :
    (task name : ℕ) (raising : Bool) (d₁ d₂ : Driver) → Keeps (exit_nested task name raising d₁ d₂)
unfolding exit_nested
exit_nested-Keeps task name raising d₁ d₂ = search (keeps_rules, exit_open-Keeps)
