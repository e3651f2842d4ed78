-- ===== src/Schema/Startup/Policies.antt =====
-- Verification under the two policies.
use snekql.Prelude.{
  ◌≡◌, refl, sym, ◌∙◌, ◌↔◌, ◌||◌, true, Option, List, [], ◌∷◌, Text, text_eq, codes, All, ok,
}
use snekql.Schema.Plan.{Model, PlannedModel, build_schema_plan}
use snekql.Schema.Startup.{
  SchemaVerificationFact, SchemaVerificationResult, Verified, drift_messages, report, tables_of,
  verify_models, result_of, verify_plan, verify_schema,
}
use snekql.Schema.Startup.Drift.{
  FitsModel, found, messages, messages_iff, report_strict, report_warn,
}

strict_valid :
    (text_eq (codes "strict") (codes "strict") || text_eq (codes "strict") (codes "warn")) ≡ true
unfolding text_eq
strict_valid = refl

warn_valid :
    (text_eq (codes "warn") (codes "strict") || text_eq (codes "warn") (codes "warn")) ≡ true
unfolding text_eq
warn_valid = refl

module _ {Shape : Type 0} (expected_shape : PlannedModel → Shape)
    (compare_table_shapes : Shape → Shape → List Text × List SchemaVerificationFact)
    (verification_limits : PlannedModel → List SchemaVerificationFact) (repr : Text → Text)
    (target_of : Model → Text → Option Model)
    (inspect_shapes : List PlannedModel → Text → Option Shape) where
  -- The result of a plan, and its messages
  abbrev seen : List PlannedModel → SchemaVerificationResult
  seen ps =
      found expected_shape compare_table_shapes verification_limits repr (inspect_shapes ps) ps

  abbrev said : List PlannedModel → List Text
  said ps =
      messages expected_shape compare_table_shapes verification_limits repr (inspect_shapes ps) ps

  abbrev pub Fits : List PlannedModel → Type 0
  Fits ps =
      All
        (FitsModel expected_shape compare_table_shapes verification_limits repr (inspect_shapes ps))
        ps

  plan_reports :
      (policy : Text) (ps : List PlannedModel)
      → verify_plan expected_shape compare_table_shapes verification_limits repr policy
          inspect_shapes ps
        ≡ report policy (seen ps) (said ps)
  unfolding verify_plan result_of verify_models report drift_messages
  plan_reports policy [] = refl
  plan_reports policy (p ∷ ps) = refl

  schema_reports :
      (policy : Text) (ms : List Model) (ps : List PlannedModel)
      → (text_eq policy (codes "strict") || text_eq policy (codes "warn")) ≡ true
      → build_schema_plan target_of ms ≡ ok ps
      → verify_schema expected_shape compare_table_shapes verification_limits repr target_of policy
          inspect_shapes ms
        ≡ report policy (seen ps) (said ps)
  unfolding verify_schema
  schema_reports policy ms ps valid h = rw (valid, h) (plan_reports policy ps)

  -- For models that make a plan, strict verification returns exactly when each table of the plan is in
  -- the catalog and its comparison with the model gives no difference.
  pub verify_schema_strict :
      (ms : List Model) (ps : List PlannedModel)
      → build_schema_plan target_of ms ≡ ok ps
      → ((v : Verified) × (verify_schema expected_shape compare_table_shapes verification_limits
              repr target_of
              (codes "strict")
              inspect_shapes
              ms
            ≡ ok v))
        ↔ Fits ps
  verify_schema_strict ms ps h =
      let (f, g) = report_strict (seen ps) (said ps) in
      let (j, k) =
        messages_iff expected_shape compare_table_shapes verification_limits repr
          (inspect_shapes ps) ps in
      let same = schema_reports (codes "strict") ms ps (strict_valid) h in
      (λ v. j (f (v.0, sym same ∙ v.1)), λ fits. let (v, e) = g (k fits) in (v, same ∙ e))

  -- For models that make a plan, verification that warns returns, whatever it finds: its outcome names
  -- the tables of the plan in order and has all the issues that were found, and it logs nothing
  -- exactly when each table is in the catalog and its comparison with the model gives no difference.
  pub verify_schema_warn :
      (ms : List Model) (ps : List PlannedModel)
      → build_schema_plan target_of ms ≡ ok ps
      → (v : Verified) × (verify_schema expected_shape compare_table_shapes verification_limits repr
            target_of
            (codes "warn")
            inspect_shapes
            ms
          ≡ ok v)
        × (v.outcome.checked_tables ≡ tables_of ps)
        × (v.outcome.issues
            ≡ (verify_models expected_shape compare_table_shapes verification_limits repr
                (inspect_shapes ps)
                ps).0)
        × ((v.warnings ≡ []) ↔ Fits ps)
  unfolding result_of
  verify_schema_warn ms ps h = (
    record { outcome = seen ps; warnings = said ps },
    schema_reports (codes "warn") ms ps (warn_valid) h ∙ report_warn (seen ps) (said ps),
    refl,
    refl,
    messages_iff expected_shape compare_table_shapes verification_limits repr (inspect_shapes ps)
        ps,
  )
