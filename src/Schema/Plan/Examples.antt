-- ===== src/Schema/Plan/Examples.antt =====
-- The plan of two tables
use snekql.Prelude.{◌≡◌, ◌↔◌, [], ◌∷◌, ok, AreDistinct}
use snekql.Schema.Plan.{plan_models, build_schema_plan}
use snekql.Schema.Plan.Names.{table_names, index_names, build_schema_plan_iff}
use snekql.Schema.Plan.ForeignKeys.{AreKeys, column_foreign_keys-AreKeys}
use snekql.Schema.Plan.Samples.{
  user, post, target_of, author_column, author_key, plan, author_is_planned,
}

build_schema_plan_iff_example : (build_schema_plan target_of (user ∷ post ∷ []) ≡ ok plan) ↔ (
    (plan_models target_of (user ∷ post ∷ []) ≡ ok plan)
    × AreDistinct (table_names plan)
    × AreDistinct (index_names plan))
build_schema_plan_iff_example = build_schema_plan_iff target_of (user ∷ post ∷ []) plan

column_foreign_keys-AreKeys_example : AreKeys target_of post (author_column ∷ []) (author_key ∷ [])
column_foreign_keys-AreKeys_example =
    column_foreign_keys-AreKeys target_of post (author_column ∷ []) (author_key ∷ [])
      author_is_planned
