-- ===== src/Migrations/Examples.antt =====
-- The theorems on declarations and histories, at a declaration of two migrations.
use snekql.Prelude.{◌≤◌, ◌≡◌, ◌↔◌, refl, true, false, arith, length, take, ok}
use snekql.Migrations.{
  dict, prepare_migrations, validate_history_prefix, prepare_items, prepare_item, prepare_named,
  prepare_body, is_blank, contains, encodable,
}
use snekql.Migrations.Prefix.{records, required, validate_history_prefix_iff}
use snekql.Migrations.Prepared.{
  ArePrepared, prepare_migrations_iff, complete_history_determines_plan,
}
use snekql.Migrations.Data.{plain, items, plan, one_row}

plan_prepared : prepare_migrations plain (dict items) ≡ ok plan
unfolding prepare_migrations prepare_items prepare_item prepare_named prepare_body is_blank contains
    encodable
plan_prepared = refl

validate_history_prefix_iff_example : (validate_history_prefix one_row plan false 1 ≡ ok tt) ↔ (
    (length one_row ≤ length plan)
    × (one_row ≡ records (take (length one_row) plan))
    × (required false 1 plan ≤ length one_row))
validate_history_prefix_iff_example =
    validate_history_prefix_iff one_row plan false 1 (refl, (refl, tt))

prepare_migrations_iff_example :
    (prepare_migrations plain (dict items) ≡ ok plan) ↔ ArePrepared plain 1 items plan
prepare_migrations_iff_example = prepare_migrations_iff plain items plan

full_history : validate_history_prefix (records plan) plan true 0 ≡ ok tt
full_history =
    (validate_history_prefix_iff (records plan) plan true 0 (refl, (refl, tt))).1
      (omega arith, refl, omega arith)

complete_history_determines_plan_example : plan ≡ plan
complete_history_determines_plan_example =
    complete_history_determines_plan plain (λ s t e. e) items items plan plan (records plan)
      plan_prepared plan_prepared full_history full_history
