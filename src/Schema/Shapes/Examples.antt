-- ===== src/Schema/Shapes/Examples.antt =====
-- A table whose only column is nullable in the catalog and not in the model
use snekql.Prelude.{
  ℕ, ◌≡◌, ◌↔◌, Bool, true, false, Option, none, some, List, [], ◌∷◌, Text, text_eq, codes, All, ok,
  if◌then◌else◌,
}
use snekql.Schema.Plan.{PlannedModel}
use snekql.Schema.Plan.Samples.{user, post, target_of, plan, user_and_post_planned}
use snekql.Schema.Startup.{SchemaVerificationFact, Verified, verify_schema}
use snekql.Schema.Shapes.{Fact, Issue, ColumnShape, text_default}
use snekql.Schema.Shapes.Tables.{TableShape, compare_table_shapes}
use snekql.Schema.Shapes.Evidence.{Calm}
use snekql.Schema.Shapes.Verdict.{compare_table_shapes_iff}
use snekql.Schema.Shapes.Verified.{compared, HasNoDrift, verify_schema-compare_table_shapes}

abbrev nothing_beyond : ℕ → Bool
nothing_beyond c = false

abbrev id_column : Bool → ColumnShape
id_column nullable = record {
  name = codes "id";
  storage_type = codes "INTEGER";
  nullable = nullable;
  primary_key = true;
  auto_increment = false;
  server_default = some (text_default (codes "1"));
  collation = none;
  datetime_precision = none;
  unsigned = none;
}

abbrev shape : Bool → Text → TableShape
shape nullable name = record {
  table_name = name;
  columns = id_column nullable ∷ [];
  indexes = [];
  foreign_keys = [];
  storage_options = codes "STRICT" ∷ [];
  checks = some [];
}

compare_table_shapes_iff_example :
    ((compare_table_shapes nothing_beyond nothing_beyond 10
        (shape false (codes "user"))
        (shape true (codes "user"))).0
      ≡ [])
    ↔ Calm
        (compare_table_shapes nothing_beyond nothing_beyond 10
          (shape false (codes "user"))
          (shape true (codes "user"))).1
compare_table_shapes_iff_example =
    compare_table_shapes_iff nothing_beyond nothing_beyond 10 (shape false (codes "user"))
      (shape true (codes "user"))

abbrev describe : Issue → Text
describe i = codes "issue"

abbrev record_of : TableShape → Fact → SchemaVerificationFact
record_of t f = record {
  table_name = t.table_name;
  object_name = f.object_name;
  kind = f.kind;
  status = f.status;
  detail = [];
}

abbrev expected_shape : PlannedModel → TableShape
expected_shape p = shape false p.table_name

abbrev no_limits : PlannedModel → List SchemaVerificationFact
no_limits p = []

abbrev plain : Text → Text
plain t = t

abbrev catalog : List PlannedModel → Text → Option TableShape
catalog ps t = if text_eq t (codes "user") then some (shape false t) else none

verify_schema-compare_table_shapes_example :
    ((v : Verified) × (verify_schema expected_shape
          (compared nothing_beyond nothing_beyond 10 describe record_of)
          no_limits
          plain
          target_of
          (codes "strict")
          catalog
          (user ∷ post ∷ [])
        ≡ ok v))
    ↔ All
        (HasNoDrift nothing_beyond nothing_beyond 10 describe record_of expected_shape no_limits
          plain target_of catalog
          (catalog plan))
        plan
verify_schema-compare_table_shapes_example =
    verify_schema-compare_table_shapes nothing_beyond nothing_beyond 10 describe record_of
      expected_shape no_limits plain target_of catalog (user ∷ post ∷ []) plan user_and_post_planned
