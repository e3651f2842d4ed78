-- ===== src/Schema/Shapes/Tables.antt =====
-- Columns, indexes, checks and the whole of two shapes (snekql/_schema_shape.py), with
-- `compare_literal_default` of snekql/_server_defaults.py.
use snekql.Prelude.{
  ℕ, Bool, true, false, ◌&&◌, ◌||◌, Option, none, some, List, [], ◌∷◌, Text, text_eq, codes, map,
  if◌then◌else◌,
}
use snekql.Checks.{Value, CheckExpression}
use snekql.Checks.Catalog.{CheckShape, parse_default_literal}
use snekql.Schema.Startup.{Status, matched, drift, unchecked}
use snekql.Schema.Shapes.{
  Fact, fact, Evidence, check, ◌and◌, nothing, Issue, storage_options_differ, column_missing,
  column_extra, index_missing, index_extra, check_missing, check_differs, column_differs,
  index_differs, LiteralDefaultShape, ServerDefault, text_default, literal_default, ColumnShape,
  IndexShape, bool_eq, number_eq, option_eq, list_eq, check_optional, put_all, keys, compare_names,
  compare_each,
}
use snekql.Schema.Shapes.Forms.{value_eq, same_form}
use snekql.Schema.Shapes.Keys.{ForeignKeyShape, compare_foreign_keys}

pub record TableShape : Type 0 where
  pub table_name : Text
  pub columns : List ColumnShape
  pub indexes : List IndexShape
  pub foreign_keys : List ForeignKeyShape
  pub storage_options : List Text
  pub checks : Option (List CheckShape)

abbrev pub when : Bool → Status
when true = matched
when false = drift

-- An evidence of a status: drift is a difference.
unfoldable pub check_status : Text → Text → Status → Evidence Text
check_status kind name drift = (kind ∷ [], fact kind (some name) drift ∷ [])
check_status kind name s = ([], fact kind (some name) s ∷ [])

-- The kinds of the facts that are never compared
abbrev pub common_limits : List Text
common_limits =
    codes "table.check_constraints"
    ∷ codes "columns.generated_expressions"
    ∷ codes "table.triggers"
    ∷ codes "table.views"
    ∷ codes "table.data"
    ∷ codes "table.other_options"
    ∷ codes "primary_key.structure"
    ∷ codes "foreign_keys.names"
    ∷ codes "foreign_keys.match"
    ∷ codes "foreign_keys.deferral"
    ∷ codes "indexes.expressions"
    ∷ codes "indexes.predicates"
    ∷ codes "indexes.sort_direction"
    ∷ codes "indexes.collations"
    ∷ []

abbrev pub default_eq : ServerDefault → ServerDefault → Bool
default_eq (text_default s) (text_default t) = text_eq s t
default_eq _ _ = false

abbrev pub is_absent : Value → Bool
is_absent Value.absent = true
is_absent _ = false

abbrev pub columns_by_name : List ColumnShape → List (Text × ColumnShape)
columns_by_name cs = put_all [] (map (λ (c : ColumnShape). (c.name, c)) cs)

abbrev pub indexes_by_name : List IndexShape → List (Text × IndexShape)
indexes_by_name is = put_all [] (map (λ (i : IndexShape). (i.name, i)) is)

abbrev pub same_name : Option Text → Option Text → Bool
same_name none none = true
same_name (some s) (some t) = text_eq s t
same_name _ _ = false

pub checks_named : Option Text → List CheckShape → List CheckShape
checks_named n [] = []
checks_named n (c ∷ cs) =
    let rest = checks_named n cs in if same_name c.name n then c ∷ rest else rest

abbrev pub text_of : Option Text → Text
text_of none = codes "None"
text_of (some t) = t

abbrev pub listed : Option (List CheckShape) → List CheckShape
listed none = []
listed (some cs) = cs

abbrev pub any_same : Option Text → List (Option Text) → Bool
any_same n [] = false
any_same n (m ∷ ms) = same_name m n || any_same n ms

-- A fact for each name of checks that no model declares
unfoldable pub unmanaged : List CheckShape → List (Option Text) → List CheckShape → List Fact
unfolding checks_named
unmanaged expected seen [] = []
unmanaged expected seen (c ∷ cs) = elim (checks_named c.name expected) [
  | e ∷ es ↦ unmanaged expected seen cs
  | [] ↦
      if any_same c.name seen
      then unmanaged expected seen cs
      else fact (codes "check.unmanaged") c.name unchecked ∷ unmanaged expected (c.name ∷ seen) cs
]

module _ (beyond_alpha beyond_alnum : ℕ → Bool) (depth_limit : ℕ) where
  pub compare_parsed : Value → Option Value → Status
  compare_parsed v none = unchecked
  compare_parsed v (some w) = when (value_eq v w)

  pub compare_literal_default : LiteralDefaultShape → Option ServerDefault → Bool → Status
  unfolding compare_parsed
  compare_literal_default l none nullable = when (l.mariadb && is_absent l.value && nullable)
  compare_literal_default l (some (text_default t)) nullable =
      if text_eq t (codes "CurrentTimestamp")
      then drift
      else compare_parsed l.value
          (parse_default_literal beyond_alpha beyond_alnum depth_limit l.mariadb t)
  compare_literal_default l (some (literal_default m)) nullable = unchecked

  -- MariaDB does not tell an implicit NULL from an explicit one.
  unfoldable pub explicitness :
      Text → LiteralDefaultShape → Option ServerDefault → Bool → Evidence Text
  explicitness name l none nullable =
      if l.mariadb && is_absent l.value && nullable
      then ([], fact (codes "column.server_default_explicitness") (some name) unchecked ∷ [])
      else nothing
  explicitness name l (some d) nullable = nothing

  unfoldable pub compare_defaults :
      Text → Option ServerDefault → Option ServerDefault → Bool → Evidence Text
  unfolding ◌and◌ compare_literal_default explicitness check_status check option_eq
  compare_defaults name (some (literal_default l)) actual nullable =
      check_status (codes "column.server_default") name (compare_literal_default l actual nullable)
      and explicitness name l actual nullable
  compare_defaults name expected actual nullable =
      check (codes "column.server_default") (some name) (option_eq default_eq expected actual)
        (codes "column.server_default")

  unfoldable pub column_differences : ColumnShape → ColumnShape → Evidence Text
  unfolding ◌and◌ check compare_defaults check_optional
  column_differences e a =
      check (codes "column.type") (some e.name) (text_eq e.storage_type a.storage_type)
        (codes "type")
      and check (codes "column.nullable") (some e.name) (bool_eq e.nullable a.nullable)
          (codes "nullable")
      and check (codes "column.primary_key") (some e.name) (bool_eq e.primary_key a.primary_key)
          (codes "primary key")
      and check (codes "column.auto_increment") (some e.name)
          (bool_eq e.auto_increment a.auto_increment) (codes "auto-increment")
      and compare_defaults e.name e.server_default a.server_default a.nullable
      and check_optional text_eq (codes "column.collation") e.name e.collation a.collation
      and check_optional number_eq (codes "column.datetime_precision") e.name e.datetime_precision
          a.datetime_precision
      and check_optional bool_eq (codes "column.unsigned") e.name e.unsigned a.unsigned

  unfoldable pub compare_columns : List ColumnShape → List ColumnShape → Evidence Issue
  unfolding ◌and◌ compare_names compare_each column_differences put_all
  compare_columns expected actual =
      let e = columns_by_name expected in
      let a = columns_by_name actual in
      compare_names (codes "column.presence") column_missing column_extra (keys e) (keys a)
      and compare_each column_differs column_differences a e

  -- The predicate of a partial index, where the model has one
  unfoldable pub compare_predicates :
      Text → Option CheckExpression → Option Bool → Option CheckExpression → Evidence Text
  unfolding check
  compare_predicates name none partial actual = nothing
  compare_predicates name (some e) none actual =
      ([], fact (codes "index.predicate") (some name) unchecked ∷ [])
  compare_predicates name (some e) (some true) none =
      ([], fact (codes "index.predicate") (some name) unchecked ∷ [])
  compare_predicates name (some e) (some false) none =
      check (codes "index.predicate") (some name) false (codes "predicate")
  compare_predicates name (some e) (some partial) (some a) =
      check (codes "index.predicate") (some name) (same_form e a) (codes "predicate")

  unfoldable pub index_differences : IndexShape → IndexShape → Evidence Text
  unfolding ◌and◌ check check_optional compare_predicates list_eq option_eq
  index_differences e a =
      check (codes "index.columns") (some e.name) (list_eq text_eq e.column_names a.column_names)
        (codes "columns")
      and check (codes "index.unique") (some e.name) (bool_eq e.unique a.unique)
          (codes "uniqueness")
      and check_optional bool_eq (codes "index.partial") e.name e.partial a.partial
      and check_optional (list_eq (option_eq number_eq)) (codes "index.prefix_lengths") e.name
          e.prefix_lengths a.prefix_lengths
      and check_optional text_eq (codes "index.type") e.name e.index_type a.index_type
      and compare_predicates e.name e.condition a.partial a.condition

  unfoldable pub compare_indexes : List IndexShape → List IndexShape → Evidence Issue
  unfolding ◌and◌ compare_names compare_each index_differences put_all
  compare_indexes expected actual =
      let e = indexes_by_name expected in
      let a = indexes_by_name actual in
      compare_names (codes "index.presence") index_missing index_extra (keys e) (keys a)
      and compare_each index_differs index_differences a e

  abbrev pub both_same : Option CheckExpression → CheckExpression → Bool
  both_same none a = false
  both_same (some e) a = same_form a e

  unfoldable pub compare_expression : CheckShape → Option CheckExpression → Evidence Issue
  unfolding check
  compare_expression e none = ([], fact (codes "check.expression") e.name unchecked ∷ [])
  compare_expression e (some a) =
      check (codes "check.expression") e.name (both_same e.expression a)
        (check_differs (text_of e.name))

  -- A declared check against those of its name
  unfoldable pub compare_check : CheckShape → List CheckShape → Evidence Issue
  unfolding ◌and◌ check compare_expression
  compare_check e [] = check (codes "check.presence") e.name false (check_missing (text_of e.name))
  compare_check e (c ∷ d ∷ cs) = (
    [],
    fact (codes "check.presence") e.name matched
        ∷ fact (codes "check.expression") e.name unchecked
        ∷ [],
  )
  compare_check e (c ∷ []) =
      ([], fact (codes "check.presence") e.name matched ∷ []) and compare_expression e c.expression

  unfoldable pub declared_checks : List CheckShape → Option (List CheckShape) → Evidence Issue
  unfolding ◌and◌ compare_check checks_named
  declared_checks [] actual = nothing
  declared_checks (e ∷ es) none =
      ([], fact (codes "check.presence") e.name unchecked ∷ []) and declared_checks es none
  declared_checks (e ∷ es) (some cs) =
      compare_check e (checks_named e.name cs) and declared_checks es (some cs)

  unfoldable pub compare_checks :
      Option (List CheckShape) → Option (List CheckShape) → Evidence Issue
  unfolding ◌and◌ declared_checks unmanaged
  compare_checks expected actual =
      declared_checks (listed expected) actual
      and ([], unmanaged (listed expected) [] (listed actual))

  -- `compare_table_shapes`
  unfoldable pub compare_table_shapes : TableShape → TableShape → Evidence Issue
  unfolding ◌and◌ check compare_columns compare_indexes compare_checks list_eq
  compare_table_shapes e a =
      ([], fact (codes "table.presence") none matched ∷ [])
      and check (codes "table.storage_options") none
          (list_eq text_eq e.storage_options a.storage_options) storage_options_differ
      and compare_columns e.columns a.columns
      and compare_indexes e.indexes a.indexes
      and compare_foreign_keys e.foreign_keys a.foreign_keys
      and compare_checks e.checks a.checks
      and ([], map (λ kind. fact kind none unchecked) common_limits)
