-- ===== src/Schema/Startup/Examples.antt =====
-- The catalog has the table of users, and the one of posts is missing.
use snekql.Prelude.{
  ◌≡◌, ◌↔◌, Option, none, some, List, [], ◌∷◌, Text, text_eq, codes, ok, if◌then◌else◌,
}
use snekql.Schema.Plan.{PlannedModel}
use snekql.Schema.Plan.Samples.{user, post, target_of, plan, user_and_post_planned}
use snekql.Schema.Startup.{
  SchemaVerificationFact, Verified, tables_of, verify_models, verify_schema,
}
use snekql.Schema.Startup.Policies.{Fits, verify_schema_strict, verify_schema_warn}

-- A shape is the name of its table here.
abbrev expected_shape : PlannedModel → Text
expected_shape p = p.table_name

abbrev compare_names : Text → Text → List Text × List SchemaVerificationFact
compare_names a b = if text_eq a b then ([], []) else (codes "the name differs" ∷ [], [])

abbrev no_limits : PlannedModel → List SchemaVerificationFact
no_limits p = []

abbrev plain : Text → Text
plain t = t

abbrev catalog : List PlannedModel → Text → Option Text
catalog ps t = if text_eq t (codes "user") then some t else none

verify_schema_strict_example :
    ((v : Verified) × (verify_schema expected_shape compare_names no_limits plain target_of
          (codes "strict")
          catalog
          (user ∷ post ∷ [])
        ≡ ok v))
    ↔ Fits expected_shape compare_names no_limits plain target_of catalog plan
verify_schema_strict_example =
    verify_schema_strict expected_shape compare_names no_limits plain target_of catalog
      (user ∷ post ∷ []) plan user_and_post_planned

verify_schema_warn_example :
    (v : Verified) × (verify_schema expected_shape compare_names no_limits plain target_of
        (codes "warn")
        catalog
        (user ∷ post ∷ [])
      ≡ ok v)
    × (v.outcome.checked_tables ≡ tables_of plan)
    × (v.outcome.issues
        ≡ (verify_models expected_shape compare_names no_limits plain (catalog plan) plan).0)
    × ((v.warnings ≡ []) ↔ Fits expected_shape compare_names no_limits plain target_of catalog plan)
verify_schema_warn_example =
    verify_schema_warn expected_shape compare_names no_limits plain target_of catalog
      (user ∷ post ∷ []) plan user_and_post_planned
