-- ===== src/Schema/Plan.antt =====
-- `build_schema_plan` of snekql/_schema_plan.py. A model is what model binding left of a class;
-- `target_of` resolves the annotation of a foreign-key column to the model that it names.
pub mod Targets
pub mod ForeignKeys
pub mod Samples
mod Examples
pub mod Names
use snekql.Prelude.{
  ℕ, Bool, true, false, not, ◌&&◌, ◌||◌, Option, none, some, List, [], ◌∷◌, ◌++◌, ◌+◌, ◌==◌, ltb,
  Text, text_eq, codes, map, is_one_of, if◌then◌else◌, Result, ok, err, ◌>>=◌, ◌>>◌, raise_if,
}
use snekql.Checks.Declarations.{BoundCheck}
use snekql.Schema.{NormalizedIndex, PlannedForeignKey}

pub data SchemaError : Type 0 where
  unresolved_target foreign_target not_unique auto_increment_in_key nullable_in_key : SchemaError
  set_null_never_fires duplicate_table duplicate_index : SchemaError

-- What the plan looks at in a column's descriptor; descriptors are compared by identity.
pub record Column : Type 0 where
  pub identity : ℕ
  pub primary_key : Bool
  pub unique : Bool
  pub index : Bool
  pub nullable : Option Bool
  pub auto_increment : Bool
  pub foreign_key_target : Option ℕ
  pub on_delete : Option Text
  pub on_update : Option Text

pub record Model : Type 0 where
  pub table_name : Text
  pub columns : List (Text × Column)
  pub indexes : List NormalizedIndex
  pub foreign_keys : List PlannedForeignKey
  pub checks : List BoundCheck

pub record PlannedColumn : Type 0 where
  pub column : Column
  pub name : Text
  pub composite_pk : Bool

pub record PlannedModel : Type 0 where
  pub table_name : Text
  pub columns : List PlannedColumn
  pub foreign_keys : List PlannedForeignKey
  pub indexes : List NormalizedIndex
  pub checks : List BoundCheck

abbrev pub index_of : Text → Text → Text → Bool → NormalizedIndex
index_of prefix table_name name unique = record {
  column_names = name ∷ [];
  name = prefix ++ (table_name ++ (codes "_" ++ name));
  unique = unique;
  prefix_lengths = none;
  condition = none;
}

pub column_indexes : Text → List PlannedColumn → List NormalizedIndex
column_indexes table_name [] = []
column_indexes table_name (c ∷ cs) =
    let rest = column_indexes table_name cs in
    if c.column.unique
    then index_of (codes "ux_") table_name c.name true ∷ rest
    else if c.column.index
    then index_of (codes "ix_") table_name c.name false ∷ rest
    else rest

-- The name of the column with this identity
pub find_target : ℕ → List (Text × Column) → Option (Text × Column)
find_target n [] = none
find_target n ((name, c) ∷ cs) =
    let rest = find_target n cs in if c.identity == n then some (name, c) else rest

pub count_keys : List (Text × Column) → ℕ
count_keys [] = 0
count_keys ((name, c) ∷ cs) = (if c.primary_key then 1 else 0) + count_keys cs

abbrev pub is_sole : Text → List Text → Bool
is_sole t (s ∷ []) = text_eq s t
is_sole t _ = false

abbrev pub no_prefix : Option (List (Option ℕ)) → Bool
no_prefix none = true
no_prefix (some []) = true
no_prefix (some (none ∷ ps)) = no_prefix (some ps)
no_prefix (some (some n ∷ ps)) = n == 0 && no_prefix (some ps)

pub is_whole : NormalizedIndex → Bool
is_whole i = no_prefix i.prefix_lengths && elim i.condition [ none ↦ true | some e ↦ false ]

-- `any(index.unique and index.column_names == (name,) and ...)`
pub any_unique_index : Text → List NormalizedIndex → Bool
unfolding is_whole
any_unique_index name [] = false
any_unique_index name (i ∷ is) =
    (i.unique && is_sole name i.column_names && is_whole i) || any_unique_index name is

pub resolve_target_column : Model → ℕ → Result SchemaError Text
unfolding find_target count_keys any_unique_index
resolve_target_column target n = elim (find_target n target.columns) [
  | none ↦ err foreign_target
  | some (name, c) ↦
      if (c.primary_key && count_keys target.columns == 1)
        || (c.unique || any_unique_index name target.indexes)
      then ok name
      else err not_unique
]

abbrev pub is_set_null : Option Text → Bool
is_set_null none = false
is_set_null (some t) = text_eq t (codes "SET NULL")

abbrev pub is_false : Option Bool → Bool
is_false (some false) = true
is_false _ = false

abbrev pub is_true : Option Bool → Bool
is_true (some true) = true
is_true _ = false

-- Whether `_validate_referential_actions` raises
pub sets_null_in_vain : Column → Bool
sets_null_in_vain c =
    (c.primary_key || is_false c.nullable) && (is_set_null c.on_delete || is_set_null c.on_update)

abbrev pub key_of : Text → Column → Model → Text → PlannedForeignKey
key_of name c target target_name = record {
  foreign_columns = name ∷ [];
  target_table = target.table_name;
  target_columns = target_name ∷ [];
  on_delete = c.on_delete;
  on_update = c.on_update;
}

abbrev pub resolved : Option Model → Result SchemaError Model
resolved none = err unresolved_target
resolved (some m) = ok m

module _ (target_of : Model → Text → Option Model) where
  -- The foreign key of a column with a target
  pub plan_foreign_key : Model → PlannedColumn → ℕ → Result SchemaError PlannedForeignKey
  unfolding sets_null_in_vain resolve_target_column
  plan_foreign_key m c n = do
    raise_if (sets_null_in_vain c.column) set_null_never_fires
    target ← resolved (target_of m c.name)
    name ← resolve_target_column target n
    ok (key_of c.name c.column target name)

  pub column_foreign_keys : Model → List PlannedColumn → Result SchemaError (List PlannedForeignKey)
  unfolding plan_foreign_key
  column_foreign_keys m [] = ok []
  column_foreign_keys m (c ∷ cs) = elim c.column.foreign_key_target [
    | none ↦ column_foreign_keys m cs
    | some n ↦ plan_foreign_key m c n >>= λ k. column_foreign_keys m cs >>= λ ks. ok (k ∷ ks)
  ]

  -- The first key column of a composite key that cannot be one
  pub key_error : List (Text × Column) → Option SchemaError
  key_error [] = none
  key_error ((name, c) ∷ cs) =
      let rest = key_error cs in
      if not c.primary_key
      then rest
      else if c.auto_increment
      then some auto_increment_in_key
      else if is_true c.nullable
      then some nullable_in_key
      else rest

  pub planned : Bool → List (Text × Column) → List PlannedColumn
  planned composite [] = []
  planned composite ((name, c) ∷ cs) =
      record { column = c; name = name; composite_pk = composite && c.primary_key }
      ∷ planned composite cs

  pub plan_columns : Model → Result SchemaError (List PlannedColumn)
  unfolding count_keys key_error planned
  plan_columns m =
      let composite = ltb 1 (count_keys m.columns) in
      elim (if composite then key_error m.columns else none) [
        | some e ↦ err e
        | none ↦ ok (planned composite m.columns)
      ]

  pub plan_model : Model → Result SchemaError PlannedModel
  unfolding plan_columns column_foreign_keys column_indexes
  plan_model m = do
    cs ← plan_columns m
    ks ← column_foreign_keys m cs
    ok (record {
      table_name = m.table_name;
      columns = cs;
      foreign_keys = ks ++ m.foreign_keys;
      indexes = column_indexes m.table_name cs ++ m.indexes;
      checks = m.checks;
    })

  pub plan_models : List Model → Result SchemaError (List PlannedModel)
  unfolding plan_model
  plan_models [] = ok []
  plan_models (m ∷ ms) = do p ← plan_model m; ps ← plan_models ms; ok (p ∷ ps)

-- The names of the indexes so far and of these, or none where one comes twice
pub add_indexes : List Text → List NormalizedIndex → Option (List Text)
unfolding is_one_of
add_indexes names [] = some names
add_indexes names (i ∷ is) =
    let rest = add_indexes (i.name ∷ names) is in if is_one_of i.name names then none else rest

-- The error of the first name that comes twice
pub name_error : List Text → List Text → List PlannedModel → Option SchemaError
unfolding add_indexes
name_error tables indexes [] = none
name_error tables indexes (p ∷ ps) =
    if is_one_of p.table_name tables
    then some duplicate_table
    else elim (add_indexes indexes p.indexes) [
      | none ↦ some duplicate_index
      | some names ↦ name_error (p.table_name ∷ tables) names ps
    ]

-- What `build_schema_plan` does with the planned models
pub check_names : Result SchemaError (List PlannedModel) → Result SchemaError (List PlannedModel)
unfolding name_error
check_names (err e) = err e
check_names (ok ps) = elim (name_error [] [] ps) [ some e ↦ err e | none ↦ ok ps ]

pub build_schema_plan :
    (Model → Text → Option Model) → List Model → Result SchemaError (List PlannedModel)
unfolding plan_models check_names
build_schema_plan target_of ms = check_names (plan_models target_of ms)
