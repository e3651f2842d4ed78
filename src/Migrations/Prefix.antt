-- ===== src/Migrations/Prefix.antt =====
-- A history is accepted exactly where it is a prefix of the declaration that is long enough.
use snekql.Prelude.{
  ℕ, suc, ◌≤◌, ◌≡◌, ◌↔◌, refl, ap, Bool, true, List, [], ◌∷◌, arith, if◌then◌else◌, length, take,
  text_eq_iff, ok,
}
use snekql.Migrations.{
  Migration, MigrationPlan, MigrationRecord, history_record, record_eq, check_records,
  require_minimum, validate_history_prefix,
}

-- Positions count up from `k`.
abbrev pub InOrder : ℕ → MigrationPlan → Type 0
InOrder k [] = Unit {0}
InOrder k (m ∷ ms) = (m.position ≡ k) × InOrder (suc k) ms

abbrev pub records : MigrationPlan → List MigrationRecord
records [] = []
records (m ∷ ms) = history_record m ∷ records ms

record_eq_iff : (a b : MigrationRecord) → (record_eq a b ≡ true) ↔ (a ≡ b)
unfolding record_eq
record_eq_iff a b = (
  λ h. ground (arith, text_eq_iff a.name b.name, text_eq_iff a.checksum b.checksum),
  λ h. ground (
    arith,
    text_eq_iff a.name b.name,
    text_eq_iff a.checksum b.checksum,
    ap (λ (r : MigrationRecord). r.name) h,
    ap (λ (r : MigrationRecord). r.checksum) h,
    ap (λ (r : MigrationRecord). r.position) h,
  ),
)

check_records_sound :
    (k : ℕ) (actual : List MigrationRecord) (expected : MigrationPlan)
    → check_records k actual expected ≡ ok tt
    → actual ≡ records (take (length actual) expected)
unfolding check_records
check_records_sound k [] expected h = refl
check_records_sound k (r ∷ rs) [] h = absurd (cc)
check_records_sound k (r ∷ rs) (m ∷ ms) h =
    ground (arith, record_eq_iff r (history_record m), check_records_sound (suc k) rs ms)

position_of : (r : MigrationRecord) (m : Migration) → r ≡ history_record m → r.position ≡ m.position
unfolding history_record
position_of r m h = ap (λ (r : MigrationRecord). r.position) h

check_records_complete :
    (k : ℕ) (actual : List MigrationRecord) (expected : MigrationPlan)
    → InOrder k expected
    → length actual ≤ length expected
    → actual ≡ records (take (length actual) expected)
    → check_records k actual expected ≡ ok tt
unfolding check_records
check_records_complete k [] expected o l h = refl
check_records_complete k (r ∷ rs) [] o l h = absurd (omega arith)
check_records_complete k (r ∷ rs) (m ∷ ms) o l h = ground (
  arith,
  record_eq_iff r (history_record m),
  position_of r m,
  check_records_complete (suc k) rs ms o.1 (omega arith),
)

-- The number of migrations that a call requires.
abbrev pub required : Bool → ℕ → MigrationPlan → ℕ
required require_head minimum expected = if require_head then length expected else minimum

-- A declaration in order accepts a history exactly where it is no longer than the declaration, holds
-- the records of the first migrations in order, and reaches the required number of them.
pub validate_history_prefix_iff :
    (actual : List MigrationRecord) (expected : MigrationPlan) (require_head : Bool) (minimum : ℕ)
    → InOrder 1 expected
    → (validate_history_prefix actual expected require_head minimum ≡ ok tt) ↔ (
        (length actual ≤ length expected)
        × (actual ≡ records (take (length actual) expected))
        × (required require_head minimum expected ≤ length actual))
validate_history_prefix_iff actual expected require_head minimum o = (to, from)
  where
    to :
        validate_history_prefix actual expected require_head minimum ≡ ok tt
        → (length actual ≤ length expected)
          × (actual ≡ records (take (length actual) expected))
          × (required require_head minimum expected ≤ length actual)
    to h = unfold validate_history_prefix in ground (arith, check_records_sound 1 actual expected)

    from :
        (length actual ≤ length expected)
          × (actual ≡ records (take (length actual) expected))
          × (required require_head minimum expected ≤ length actual)
        → validate_history_prefix actual expected require_head minimum ≡ ok tt
    from (l, e, r) =
        unfold validate_history_prefix require_minimum in
        ground (arith, check_records_complete 1 actual expected o l e)
