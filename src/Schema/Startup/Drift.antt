-- ===== src/Schema/Startup/Drift.antt =====
-- Drift is reported exactly when a table differs from its model.
use snekql.Prelude.{
  ◌≡◌, ◌≢◌, refl, sym, ◌∙◌, subst, ◌↔◌, inl, inr, ◌⊎◌, true, Option, none, some, List, [], ◌∷◌,
  ◌++◌, Text, text_eq, text_eq_iff, codes, map, All, ok, All-append,
}
use snekql.Schema.Plan.{PlannedModel}
use snekql.Schema.Startup.{
  SchemaDriftIssue, SchemaVerificationFact, SchemaVerificationResult, details_of, message_of,
  drift_messages, Verified, issue, report, tables_of, verify_model, verify_models, result_of,
}

abbrev In : Text → List Text → Type 0
In t [] = ⊥
In t (s ∷ ss) = (s ≡ t) ⊎ In t ss

append_none : {A : Type 0} (xs ys : List A) → xs ++ ys ≡ [] → (xs ≡ []) × (ys ≡ [])
append_none [] ys h = (refl, h)
append_none (x ∷ xs) ys h = cc

-- A table with an issue has a message.
heard :
    (repr : Text → Text) (t : Text) (i : SchemaDriftIssue) (is : List SchemaDriftIssue)
    → text_eq i.table_name t ≡ true
    → message_of repr t (details_of t (i ∷ is)) ≢ []
unfolding details_of
heard repr t i is h =
    let found : details_of t (i ∷ is) ≡ i.detail ∷ details_of t is = rw (details_of, h) refl in
    subst (λ ds. message_of repr t ds ≢ []) (sym found) (λ e. cc)

drift_messages_some :
    (repr : Text → Text) (ts : List Text) (i : SchemaDriftIssue) (is : List SchemaDriftIssue)
    → In i.table_name ts
    → drift_messages repr ts (i ∷ is) ≢ []
unfolding drift_messages
drift_messages_some repr [] i is h e = h
drift_messages_some repr (t ∷ ts) i is (inl same) e =
    heard repr t i is ((text_eq_iff i.table_name t).1 (sym same))
      ((append_none (message_of repr t (details_of t (i ∷ is))) _ e).0)
drift_messages_some repr (t ∷ ts) i is (inr h) e =
    drift_messages_some repr ts i is h
      ((append_none (message_of repr t (details_of t (i ∷ is))) _ e).1)

drift_messages_none : (repr : Text → Text) (ts : List Text) → drift_messages repr ts [] ≡ []
unfolding drift_messages details_of
drift_messages_none repr [] = refl
drift_messages_none repr (t ∷ ts) = drift_messages_none repr ts

abbrev AreOf : List Text → List SchemaDriftIssue → Type 0
AreOf ts is = All (λ i. In i.table_name ts) is

-- With issues of these tables only, there are messages exactly when there are issues.
drift_messages_iff :
    (repr : Text → Text) (ts : List Text) (is : List SchemaDriftIssue)
    → AreOf ts is
    → (drift_messages repr ts is ≡ []) ↔ (is ≡ [])
drift_messages_iff repr ts [] h = (λ e. refl, λ e. drift_messages_none repr ts)
drift_messages_iff repr ts (i ∷ is) h =
    (λ e. absurd (drift_messages_some repr ts i is h.0 e), λ e. cc)

wider : (t : Text) (ts : List Text) (is : List SchemaDriftIssue) → AreOf ts is → AreOf (t ∷ ts) is
wider t ts [] h = tt
wider t ts (i ∷ is) h = (inr h.0, wider t ts is h.1)

own_details : (t : Text) (ts ds : List Text) → AreOf (t ∷ ts) (map (issue t) ds)
own_details t ts [] = tt
own_details t ts (d ∷ ds) = (inl refl, own_details t ts ds)

map_none : (t : Text) (ds : List Text) → (map (issue t) ds ≡ []) ↔ (ds ≡ [])
map_none t [] = (λ e. refl, λ e. refl)
map_none t (d ∷ ds) = (λ e. cc, λ e. cc)

some_injective : {A : Type 0} {a b : A} → some a ≡ some b → a ≡ b
some_injective h = cc

module _ {Shape : Type 0} (expected_shape : PlannedModel → Shape)
    (compare_table_shapes : Shape → Shape → List Text × List SchemaVerificationFact)
    (verification_limits : PlannedModel → List SchemaVerificationFact) (repr : Text → Text)
    (shapes : Text → Option Shape) where
  -- The table of a model is there, and the comparison has nothing to say.
  abbrev pub FitsModel : PlannedModel → Type 0
  FitsModel p =
      (s : Shape) × (shapes p.table_name ≡ some s)
      × ((compare_table_shapes (expected_shape p) s).0 ≡ [])

  model_issues :
      (p : PlannedModel) (ts : List Text) (o : Option Shape)
      → AreOf
          (p.table_name ∷ ts)
          (verify_model expected_shape compare_table_shapes verification_limits repr p o).0
  unfolding verify_model
  model_issues p ts none = (inl refl, tt)
  model_issues p ts (some s) =
      own_details p.table_name ts (compare_table_shapes (expected_shape p) s).0

  models_issues :
      (ps : List PlannedModel)
      → AreOf
          (tables_of ps)
          (verify_models expected_shape compare_table_shapes verification_limits repr shapes ps).0
  unfolding verify_models
  models_issues [] = tt
  models_issues (p ∷ ps) =
      All-append (λ i. In i.table_name (tables_of (p ∷ ps))) _ _
        (model_issues p (tables_of ps) (shapes p.table_name))
        (wider p.table_name (tables_of ps) _ (models_issues ps))

  model_fits :
      (p : PlannedModel) (o : Option Shape)
      → shapes p.table_name ≡ o
      → ((verify_model expected_shape compare_table_shapes verification_limits repr p o).0 ≡ [])
        ↔ FitsModel p
  unfolding verify_model
  model_fits p none e = (λ h. cc, λ h. let q : none ≡ some h.0 = sym e ∙ h.1 in cc)
  model_fits p (some s) e = (
    λ h. (s, e, (map_none p.table_name (compare_table_shapes (expected_shape p) s).0).0 h),
    λ h.
        let same : h.0 ≡ s = some_injective (sym h.1 ∙ e) in
        (map_none p.table_name (compare_table_shapes (expected_shape p) s).0).1
          (subst (λ u. (compare_table_shapes (expected_shape p) u).0 ≡ []) same h.2),
  )

  models_fit :
      (ps : List PlannedModel)
      → ((verify_models expected_shape compare_table_shapes verification_limits repr shapes ps).0
          ≡ [])
        ↔ All FitsModel ps
  unfolding verify_models
  models_fit [] = (λ h. tt, λ h. refl)
  models_fit (p ∷ ps) =
      let (f, g) = model_fits p (shapes p.table_name) refl in
      let (j, k) = models_fit ps in
      (λ h. let (a, b) = append_none _ _ h in (f a, j b), λ h. rw (g h.0, k h.1) refl)

  -- What verification finds of a plan, and what it logs about it
  abbrev pub found : List PlannedModel → SchemaVerificationResult
  found ps =
      result_of expected_shape compare_table_shapes verification_limits repr ps
        (verify_models expected_shape compare_table_shapes verification_limits repr shapes ps)

  abbrev pub messages : List PlannedModel → List Text
  messages ps = drift_messages repr (found ps).checked_tables (found ps).issues

  pub messages_iff : (ps : List PlannedModel) → (messages ps ≡ []) ↔ All FitsModel ps
  unfolding result_of
  messages_iff ps =
      let (f, g) = drift_messages_iff repr (tables_of ps) _ (models_issues ps) in
      let (j, k) = models_fit ps in (λ h. j (f h), λ h. g (k h))

pub report_strict :
    (r : SchemaVerificationResult) (ms : List Text)
    → ((v : Verified) × (report (codes "strict") r ms ≡ ok v)) ↔ (ms ≡ [])
unfolding report text_eq
report_strict r [] = (λ h. refl, λ h. (_, refl))
report_strict r (m ∷ ms) = (λ h. let e = h.1 in cc, λ h. cc)

pub report_warn :
    (r : SchemaVerificationResult) (ms : List Text)
    → report (codes "warn") r ms ≡ ok (record { outcome = r; warnings = ms })
unfolding report text_eq
report_warn r [] = refl
report_warn r (m ∷ ms) = refl
