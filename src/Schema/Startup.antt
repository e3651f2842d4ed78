-- ===== src/Schema/Startup.antt =====
-- `verify_schema` of snekql/_schema_startup.py, with the outcomes of snekql/_schema_verification.py.
-- The comparison of two shapes is a parameter, as are what the backend expects, finds and cannot
-- inspect, and `repr` of a table's name. The warnings of the log are part of the result.
pub mod Drift
pub mod Policies
mod Examples
use snekql.Prelude.{
  Bool, true, false, not, ◌||◌, Option, none, some, List, [], ◌∷◌, ◌++◌, Text, text_eq, codes, map,
  if◌then◌else◌, Result, ok, err, ◌>>=◌, ◌>>◌, raise_if,
}
use snekql.Schema.Plan.{SchemaError, Model, PlannedModel, build_schema_plan}

pub record SchemaDriftIssue : Type 0 where
  pub table_name : Text
  pub detail : Text

pub data Status : Type 0 where
  matched drift unchecked : Status

pub record SchemaVerificationFact : Type 0 where
  pub table_name : Text
  pub object_name : Option Text
  pub kind : Text
  pub status : Status
  pub detail : Text

pub record SchemaVerificationResult : Type 0 where
  pub checked_tables : List Text
  pub issues : List SchemaDriftIssue
  pub facts : List SchemaVerificationFact

pub data VerifyError : Type 0 where
  wrong_policy : VerifyError
  wrong_models : SchemaError → VerifyError
  schema_drift : Text → SchemaVerificationResult → VerifyError

-- `sep.join`
pub join : Text → List Text → Text
join sep [] = []
join sep (t ∷ []) = t
join sep (t ∷ u ∷ us) = t ++ (sep ++ join sep (u ∷ us))

-- The details of the issues of a table
pub details_of : Text → List SchemaDriftIssue → List Text
details_of t [] = []
details_of t (i ∷ is) =
    let rest = details_of t is in if text_eq i.table_name t then i.detail ∷ rest else rest

abbrev pub message_of : (Text → Text) → Text → List Text → List Text
message_of repr t [] = []
message_of repr t (d ∷ ds) =
    (codes "schema drift detected for table "
      ++ (repr t ++ (codes ": " ++ join (codes "; ") (d ∷ ds))))
    ∷ []

-- `_schema_drift_messages`
pub drift_messages : (Text → Text) → List Text → List SchemaDriftIssue → List Text
unfolding join details_of
drift_messages repr [] is = []
drift_messages repr (t ∷ ts) is = message_of repr t (details_of t is) ++ drift_messages repr ts is

-- Whether a fact about the same thing is among these
abbrev pub same_object : Option Text → Option Text → Bool
same_object none none = true
same_object (some s) (some t) = text_eq s t
same_object _ _ = false

pub is_compared : SchemaVerificationFact → List SchemaVerificationFact → Bool
is_compared f [] = false
is_compared f (g ∷ gs) =
    (if text_eq g.kind f.kind then same_object g.object_name f.object_name else false)
    || is_compared f gs

pub not_compared :
    List SchemaVerificationFact → List SchemaVerificationFact → List SchemaVerificationFact
unfolding is_compared
not_compared facts [] = []
not_compared facts (f ∷ fs) =
    let rest = not_compared facts fs in if is_compared f facts then rest else f ∷ rest

-- The result of a verification that does not raise, and what it logs
pub record Verified : Type 0 where
  pub outcome : SchemaVerificationResult
  pub warnings : List Text

abbrev pub Findings : Type 0
Findings = List SchemaDriftIssue × List SchemaVerificationFact

abbrev pub missing_issue : Text
missing_issue = codes "table is missing from the database"

abbrev pub missing_fact : Text → SchemaVerificationFact
missing_fact t = record {
  table_name = t;
  object_name = none;
  kind = codes "table.presence";
  status = drift;
  detail = missing_issue;
}

abbrev pub issue : Text → Text → SchemaDriftIssue
issue t detail = record { table_name = t; detail = detail }

-- `_report_schema_drift`
pub report : Text → SchemaVerificationResult → List Text → Result VerifyError Verified
unfolding text_eq join
report policy r [] = ok (record { outcome = r; warnings = [] })
report policy r (m ∷ ms) =
    if text_eq policy (codes "strict")
    then err (schema_drift (join (codes " | ") (m ∷ ms)) r)
    else ok (record { outcome = r; warnings = m ∷ ms })

abbrev pub models_checked :
    Result SchemaError (List PlannedModel) → Result VerifyError (List PlannedModel)
models_checked (ok ps) = ok ps
models_checked (err e) = err (wrong_models e)

abbrev pub tables_of : List PlannedModel → List Text
tables_of ps = map (λ (p : PlannedModel). p.table_name) ps

module _ {Shape : Type 0} (expected_shape : PlannedModel → Shape)
    (compare_table_shapes : Shape → Shape → List Text × List SchemaVerificationFact)
    (verification_limits : PlannedModel → List SchemaVerificationFact) (repr : Text → Text) where
  -- One model against what the catalog has of its table
  pub verify_model : PlannedModel → Option Shape → Findings
  unfolding not_compared
  verify_model p none = (issue p.table_name missing_issue ∷ [], missing_fact p.table_name ∷ [])
  verify_model p (some actual) =
      let (details, facts) = compare_table_shapes (expected_shape p) actual in
      (map (issue p.table_name) details, facts ++ not_compared facts (verification_limits p))

  pub verify_models : (Text → Option Shape) → List PlannedModel → Findings
  unfolding verify_model
  verify_models shapes [] = ([], [])
  verify_models shapes (p ∷ ps) =
      let (is, fs) = verify_model p (shapes p.table_name) in
      let (js, gs) = verify_models shapes ps in (is ++ js, fs ++ gs)

  pub result_of : List PlannedModel → Findings → SchemaVerificationResult
  result_of ps (is, fs) = record { checked_tables = tables_of ps; issues = is; facts = fs }

  pub verify_plan :
      Text
      → (List PlannedModel → Text → Option Shape)
      → List PlannedModel
      → Result VerifyError Verified
  unfolding drift_messages verify_models result_of report
  verify_plan policy inspect_shapes [] =
      ok (record { outcome = result_of [] ([], []); warnings = [] })
  verify_plan policy inspect_shapes (p ∷ ps) =
      let r = result_of (p ∷ ps) (verify_models (inspect_shapes (p ∷ ps)) (p ∷ ps)) in
      report policy r (drift_messages repr r.checked_tables r.issues)

  pub verify_schema :
      (Model → Text → Option Model)
      → Text
      → (List PlannedModel → Text → Option Shape)
      → List Model
      → Result VerifyError Verified
  unfolding verify_plan
  verify_schema target_of policy inspect_shapes ms = do
    raise_if (not (text_eq policy (codes "strict") || text_eq policy (codes "warn"))) wrong_policy
    ps ← models_checked (build_schema_plan target_of ms)
    verify_plan policy inspect_shapes ps
