-- ===== src/Schema/Plan/Samples.antt =====
-- Two tables, of which the second refers to the first
use snekql.Prelude.{
  ◌≡◌, refl, true, false, Option, none, some, List, [], ◌∷◌, Text, text_eq, is_one_of, codes, ok,
}
use snekql.Schema.{PlannedForeignKey}
use snekql.Schema.Plan.{
  Column, Model, PlannedColumn, PlannedModel, index_of, column_indexes, key_of, find_target,
  count_keys, is_whole, any_unique_index, resolve_target_column, sets_null_in_vain,
  plan_foreign_key, column_foreign_keys, key_error, planned, plan_columns, plan_model, plan_models,
  add_indexes, name_error, check_names, build_schema_plan,
}

abbrev pub id : Column
id = record {
  identity = 1;
  primary_key = true;
  unique = false;
  index = false;
  nullable = none;
  auto_increment = true;
  foreign_key_target = none;
  on_delete = none;
  on_update = none;
}

abbrev pub author : Column
author = record {
  identity = 2;
  primary_key = false;
  unique = false;
  index = true;
  nullable = some true;
  auto_increment = false;
  foreign_key_target = some 1;
  on_delete = some (codes "SET NULL");
  on_update = none;
}

abbrev pub user : Model
user = record {
  table_name = codes "user";
  columns = (codes "id", id) ∷ [];
  indexes = [];
  foreign_keys = [];
  checks = [];
}

abbrev pub post : Model
post = record {
  table_name = codes "post";
  columns = (codes "author", author) ∷ [];
  indexes = [];
  foreign_keys = [];
  checks = [];
}

abbrev pub target_of : Model → Text → Option Model
target_of m name = some user

abbrev pub id_column : PlannedColumn
id_column = record { column = id; name = codes "id"; composite_pk = false }

abbrev pub author_column : PlannedColumn
author_column = record { column = author; name = codes "author"; composite_pk = false }

abbrev pub author_key : PlannedForeignKey
author_key = key_of (codes "author") author user (codes "id")

abbrev pub plan : List PlannedModel
plan =
    record {
      table_name = codes "user";
      columns = id_column ∷ [];
      foreign_keys = [];
      indexes = [];
      checks = [];
    }
    ∷ record {
      table_name = codes "post";
      columns = author_column ∷ [];
      foreign_keys = author_key ∷ [];
      indexes = index_of (codes "ix_") (codes "post") (codes "author") false ∷ [];
      checks = [];
    }
    ∷ []

pub author_is_planned :
    column_foreign_keys target_of post (author_column ∷ []) ≡ ok (author_key ∷ [])
unfolding column_foreign_keys plan_foreign_key sets_null_in_vain resolve_target_column find_target
    count_keys
author_is_planned = refl

-- The plan of both
pub user_and_post_planned : build_schema_plan target_of (user ∷ post ∷ []) ≡ ok plan
unfolding build_schema_plan check_names name_error add_indexes is_one_of text_eq plan_models
    plan_model plan_columns column_indexes column_foreign_keys plan_foreign_key sets_null_in_vain
    resolve_target_column find_target count_keys key_error planned any_unique_index is_whole
user_and_post_planned = refl
