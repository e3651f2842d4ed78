-- ===== src/Schema/Shapes/Verified.antt =====
-- Verification of a schema by the comparison of shapes.
use snekql.Prelude.{ℕ, ◌≡◌, refl, ◌↔◌, Bool, Option, some, List, [], ◌∷◌, Text, codes, map, All, ok}
use snekql.Schema.Plan.{Model, PlannedModel, build_schema_plan}
use snekql.Schema.Startup.{SchemaVerificationFact, Verified, verify_schema}
use snekql.Schema.Startup.Drift.{FitsModel}
use snekql.Schema.Startup.Policies.{verify_schema_strict}
use snekql.Schema.Shapes.{Fact, Issue}
use snekql.Schema.Shapes.Tables.{TableShape, compare_table_shapes}
use snekql.Schema.Shapes.Evidence.{Calm}
use snekql.Schema.Shapes.Verdict.{compare_table_shapes_iff}

map_empty : {A B : Type 0} (f : A → B) (xs : List A) → (map f xs ≡ []) ↔ (xs ≡ [])
map_empty f [] = (λ h. refl, λ h. refl)
map_empty f (x ∷ xs) = (λ h. cc, λ h. cc)

module _ (beyond_alpha beyond_alnum : ℕ → Bool) (depth_limit : ℕ) (describe : Issue → Text)
    (record_of : TableShape → Fact → SchemaVerificationFact) where
  -- The comparison with its texts, which the parameters make
  abbrev pub compared : TableShape → TableShape → List Text × List SchemaVerificationFact
  compared e a =
      let (is, fs) = compare_table_shapes beyond_alpha beyond_alnum depth_limit e a in
      (map describe is, map (record_of e) fs)

  module _ (expected_shape : PlannedModel → TableShape)
      (verification_limits : PlannedModel → List SchemaVerificationFact) (repr : Text → Text)
      (target_of : Model → Text → Option Model)
      (inspect_shapes : List PlannedModel → Text → Option TableShape) where
    -- The table is in the catalog, and no fact of its comparison with the model is drift.
    abbrev pub HasNoDrift : (Text → Option TableShape) → PlannedModel → Type 0
    HasNoDrift shapes p =
        (s : TableShape) × (shapes p.table_name ≡ some s)
        × Calm (compare_table_shapes beyond_alpha beyond_alnum depth_limit (expected_shape p) s).1

    fits_iff :
        (shapes : Text → Option TableShape) (ps : List PlannedModel)
        → All (FitsModel expected_shape compared verification_limits repr shapes) ps
          ↔ All (HasNoDrift shapes) ps
    fits_iff shapes [] = (λ h. tt, λ h. tt)
    fits_iff shapes (p ∷ ps) =
        let (f, g) = fits_iff shapes ps in
        (
          λ h.
              let s = h.0.0 in
              (
                (
                  s,
                  h.0.1,
                  (compare_table_shapes_iff beyond_alpha beyond_alnum depth_limit (expected_shape p)
                        s).0
                      ((map_empty describe _).0 h.0.2),
                ),
                f h.1,
              ),
          λ h.
              let s = h.0.0 in
              (
                (
                  s,
                  h.0.1,
                  (map_empty describe _).1 (
                      (compare_table_shapes_iff beyond_alpha beyond_alnum depth_limit
                          (expected_shape p) s).1
                        h.0.2),
                ),
                g h.1,
              ),
        )

    -- For models that make a plan, strict verification by the comparison of shapes returns exactly when
    -- each table of the plan is in the catalog and no fact of its comparison with its model is drift.
    pub verify_schema-compare_table_shapes :
        (ms : List Model) (ps : List PlannedModel)
        → build_schema_plan target_of ms ≡ ok ps
        → ((v : Verified) × (verify_schema expected_shape compared verification_limits repr
                target_of
                (codes "strict")
                inspect_shapes
                ms
              ≡ ok v))
          ↔ All (HasNoDrift (inspect_shapes ps)) ps
    verify_schema-compare_table_shapes ms ps h =
        let (f, g) =
          verify_schema_strict expected_shape compared verification_limits repr target_of
            inspect_shapes ms ps h in
        let (j, k) = fits_iff (inspect_shapes ps) ps in (λ v. j (f v), λ fits. g (k fits))
