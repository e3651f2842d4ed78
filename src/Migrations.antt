-- ===== src/Migrations.antt =====
-- Migration declarations and histories: snekql/_migrations.py. `Digest` stands for
-- `sha256(sql.encode()).hexdigest()`, which every definition takes as an argument.
pub mod Prefix
pub mod Prepared
pub mod Sqlite
mod Data
mod Examples
use snekql.Prelude.{
  ℕ, zero, suc, ◌+◌, Bool, true, false, not, ◌&&◌, ◌||◌, Option, none, some, List, [], ◌∷◌, map,
  leb, ltb, ◌==◌, if◌then◌else◌, length, take, get_elem?, Text, text_eq, Result, ok, err, ◌>>=◌,
  ◌>>◌, raise_if,
}

abbrev pub Digest : Type 0
Digest = Text → Text

-- A key or a value of the declared object: an exact `str`, or anything else.
pub data Item : Type 0 where
  str : Text → Item
  other : Item

-- An exact `dict`, by its items in order, or anything else.
pub data Declaration : Type 0 where
  dict : List (Item × Item) → Declaration
  not_dict : Declaration

pub record MigrationRecord : Type 0 where
  pub position : ℕ
  pub name : Text
  pub checksum : Text

pub record Migration : Type 0 where
  pub position : ℕ
  pub name : Text
  pub checksum : Text
  pub sql : Text

pub record MigrationStatus : Type 0 where
  pub applied : List Text
  pub history_present : Bool
  pub pending : List Text

pub record MigrationResult : Type 0 where
  pub applied : List Text
  pub already_applied : List Text
  pub legacy_adopted : Bool

abbrev pub MigrationPlan : Type 0
MigrationPlan = List Migration

unfoldable pub history_record : Migration → MigrationRecord
history_record m = record { position = m.position; name = m.name; checksum = m.checksum }

pub data DeclarationError : Type 0 where
  not_exact_dict : DeclarationError
  name_not_str name_empty : ℕ → DeclarationError
  name_too_long body_not_str body_blank has_nul not_utf8 : Text → DeclarationError

abbrev pub max_migration_name_length : ℕ
max_migration_name_length = 255

-- `str.isspace` of one code point, as `str.strip` uses it.
unfoldable pub is_space : ℕ → Bool
is_space c =
    (leb 9 c && leb c 13)
    || (leb 28 c && leb c 32)
    || (c == 133)
    || (c == 160)
    || (c == 5760)
    || (leb 8192 c && leb c 8202)
    || (c == 8232)
    || (c == 8233)
    || (c == 8239)
    || (c == 8287)
    || (c == 12288)

-- `not sql.strip()`
unfoldable pub is_blank : Text → Bool
unfolding is_space
is_blank [] = true
is_blank (c ∷ s) = is_space c && is_blank s

unfoldable pub contains : ℕ → Text → Bool
contains x [] = false
contains x (c ∷ s) = (c == x) || contains x s

-- A lone surrogate is what UTF-8 cannot encode.
unfoldable pub encodable : Text → Bool
encodable [] = true
encodable (c ∷ s) = not (leb 55296 c && leb c 57343) && encodable s

abbrev pub is_empty : Text → Bool
is_empty [] = true
is_empty (c ∷ s) = false

unfoldable pub prepare_body : Digest → ℕ → Text → Text → Result DeclarationError Migration
prepare_body digest position name sql = do
  raise_if (is_blank sql) (body_blank name)
  raise_if (contains 0 name || contains 0 sql) (has_nul name)
  raise_if (not (encodable name && encodable sql)) (not_utf8 name)
  ok (record { position = position; name = name; checksum = digest sql; sql = sql })

unfoldable pub prepare_named : Digest → ℕ → Text → Item → Result DeclarationError Migration
prepare_named digest position name body = do
  raise_if (is_empty name) (name_empty position)
  raise_if (ltb max_migration_name_length (length name)) (name_too_long name)
  elim body [ str sql ↦ prepare_body digest position name sql | other ↦ err (body_not_str name) ]

-- One turn of the loop of `prepare_migrations`.
unfoldable pub prepare_item : Digest → ℕ → Item → Item → Result DeclarationError Migration
prepare_item digest position (str name) body = prepare_named digest position name body
prepare_item digest position other body = err (name_not_str position)

unfoldable pub prepare_items :
    Digest → ℕ → List (Item × Item) → Result DeclarationError MigrationPlan
prepare_items digest position [] = ok []
prepare_items digest position ((name, body) ∷ items) = do
  migration ← prepare_item digest position name body
  rest ← prepare_items digest (suc position) items
  ok (migration ∷ rest)

unfoldable pub prepare_migrations : Digest → Declaration → Result DeclarationError MigrationPlan
unfolding prepare_items
prepare_migrations digest (dict items) = prepare_items digest 1 items
prepare_migrations digest not_dict = err not_exact_dict

pub data HistoryError : Type 0 where
  history_longer : ℕ → ℕ → HistoryError
  position_invalid : ℕ → ℕ → HistoryError
  diverges : ℕ → HistoryError
  behind : Text → HistoryError
  -- `expected[len(actual)]` past the end
  index_error : HistoryError
  legacy_longer legacy_not_prefix : HistoryError

record_eq : MigrationRecord → MigrationRecord → Bool
record_eq a b = (a.position == b.position) && text_eq a.name b.name && text_eq a.checksum b.checksum

-- The comparison loop; `expected` is the declaration from `ordinal` on.
pub check_records : ℕ → List MigrationRecord → MigrationPlan → Result HistoryError (Unit {0})
unfolding record_eq
check_records ordinal [] expected = ok tt
check_records ordinal (r ∷ rs) [] = err index_error
check_records ordinal (r ∷ rs) (m ∷ ms) = do
  raise_if (not (r.position == ordinal)) (position_invalid r.position ordinal)
  raise_if (not (record_eq r (history_record m))) (diverges ordinal)
  check_records (suc ordinal) rs ms

-- The report of a history that is too short.
report_behind : ℕ → MigrationPlan → Result HistoryError (Unit {0})
report_behind n expected = elim (get_elem? expected n) [
  | none ↦ err index_error
  | some m ↦ err (behind m.name)
]

pub require_minimum : ℕ → ℕ → MigrationPlan → Result HistoryError (Unit {0})
unfolding report_behind
require_minimum minimum n expected = if ltb n minimum then report_behind n expected else ok tt

pub validate_history_prefix :
    List MigrationRecord → MigrationPlan → Bool → ℕ → Result HistoryError (Unit {0})
unfolding check_records require_minimum
validate_history_prefix actual expected require_head minimum_applied = do
  raise_if (ltb (length expected) (length actual))
      (history_longer (length actual) (length expected))
  check_records 1 actual expected
  require_minimum (if require_head then length expected else minimum_applied) (length actual)
      expected

-- A set of names, by its members; `set == set` compares the members both ways.
unfoldable pub is_member : Text → List Text → Bool
is_member t [] = false
is_member t (s ∷ ss) = text_eq s t || is_member t ss

unfoldable pub is_subset : List Text → List Text → Bool
unfolding is_member
is_subset [] bs = true
is_subset (a ∷ rest) bs = is_member a bs && is_subset rest bs

pub names : MigrationPlan → List Text
names ms = map (λ (m : Migration). m.name) ms

unfoldable pub validate_legacy_history : List Text → MigrationPlan → Result HistoryError ℕ
unfolding is_subset names
validate_legacy_history legacy expected = do
  raise_if (ltb (length expected) (length legacy)) legacy_longer
  let declared = names (take (length legacy) expected)
  raise_if (not (is_subset legacy declared && is_subset declared legacy)) legacy_not_prefix
  ok (length legacy)
