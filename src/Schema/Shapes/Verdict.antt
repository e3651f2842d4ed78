-- ===== src/Schema/Shapes/Verdict.antt =====
-- Issues and facts agree on whole tables.
use snekql.Prelude.{
  ℕ, ◌≡◌, ◌≢◌, refl, ◌↔◌, Bool, true, false, ◌&&◌, Option, none, some, List, [], ◌∷◌, Text, codes,
  map, if◌then◌else◌,
}
use snekql.Checks.{CheckExpression}
use snekql.Checks.Catalog.{CheckShape}
use snekql.Schema.Startup.{Status, matched, drift, unchecked}
use snekql.Schema.Shapes.{
  fact, nothing, column_differs, index_differs, column_missing, column_extra, index_missing,
  index_extra, LiteralDefaultShape, ServerDefault, text_default, literal_default, ColumnShape,
  IndexShape, option_eq,
}
use snekql.Schema.Shapes.Tables.{
  TableShape, check_status, is_absent, default_eq, common_limits, explicitness, compare_defaults,
  column_differences, columns_by_name, compare_columns, compare_predicates, index_differences,
  indexes_by_name, compare_indexes, checks_named, any_same, compare_check, compare_expression,
  listed, declared_checks, unmanaged, compare_checks, compare_table_shapes,
}
use snekql.Schema.Shapes.Evidence.{
  Calm, Agrees, agree, agreement, check-Agrees, and_Agrees, nothing-Agrees, Calm-Agrees,
  check_optional-Agrees, compare_each-Agrees, compare_names-Agrees,
}
use snekql.Schema.Shapes.KeysAgree.{compare_foreign_keys-Agrees}

not_drift : unchecked ≢ drift
not_drift e = cc

still_matched : matched ≢ drift
still_matched e = cc

check_status-Agrees : (kind name : Text) (s : Status) → Agrees (check_status kind name s)
unfolding check_status
check_status-Agrees kind name matched = Calm-Agrees _ (still_matched, tt)
check_status-Agrees kind name drift = agree (λ h. cc, λ h. absurd (h.0 refl))
check_status-Agrees kind name unchecked = Calm-Agrees _ (not_drift, tt)

unmanaged-Calm :
    (es : List CheckShape) (seen : List (Option Text)) (cs : List CheckShape)
    → Calm (unmanaged es seen cs)
unfolding unmanaged
unmanaged-Calm es seen [] = tt
unmanaged-Calm es seen (c ∷ cs) =
    by_name (checks_named c.name es) (any_same c.name seen) (unmanaged-Calm es seen cs)
      (unmanaged-Calm es (c.name ∷ seen) cs)
  where
    by_name :
        (l : List CheckShape) (b : Bool)
        → Calm (unmanaged es seen cs)
        → Calm (unmanaged es (c.name ∷ seen) cs)
        → Calm (elim l [
          | d ∷ ds ↦ unmanaged es seen cs
          | [] ↦
              if b
              then unmanaged es seen cs
              else fact (codes "check.unmanaged") c.name unchecked ∷ unmanaged es (c.name ∷ seen) cs
        ])
    by_name (d ∷ ds) b h k = h
    by_name [] true h k = h
    by_name [] false h k = (not_drift, k)

limits-Calm : (ts : List Text) → Calm (map (λ t. fact t none unchecked) ts)
limits-Calm [] = tt
limits-Calm (t ∷ ts) = (not_drift, limits-Calm ts)

module _ (beyond_alpha beyond_alnum : ℕ → Bool) (depth_limit : ℕ) where
  explicitness-Agrees :
      (name : Text) (l : LiteralDefaultShape) (d : Option ServerDefault) (nullable : Bool)
      → Agrees (explicitness beyond_alpha beyond_alnum depth_limit name l d nullable)
  unfolding explicitness
  explicitness-Agrees name l none nullable = by_test (l.mariadb && is_absent l.value && nullable)
    where
      by_test :
          (b : Bool)
          → Agrees {A = Text} (
              if b
              then (
                [],
                fact (codes "column.server_default_explicitness") (some name) unchecked ∷ [],
              )
              else nothing)
      by_test true = Calm-Agrees _ (not_drift, tt)
      by_test false = nothing-Agrees
  explicitness-Agrees name l (some d) nullable = nothing-Agrees

  compare_defaults-Agrees :
      (name : Text) (e a : Option ServerDefault) (nullable : Bool)
      → Agrees (compare_defaults beyond_alpha beyond_alnum depth_limit name e a nullable)
  unfolding compare_defaults
  compare_defaults-Agrees name none a nullable = check-Agrees _ _ (option_eq default_eq none a) _
  compare_defaults-Agrees name (some (text_default t)) a nullable =
      check-Agrees _ _ (option_eq default_eq (some (text_default t)) a) _
  compare_defaults-Agrees name (some (literal_default l)) a nullable =
      and_Agrees _ _ (check_status-Agrees _ _ _) (explicitness-Agrees name l a nullable)

  column_differences-Agrees :
      (e a : ColumnShape) → Agrees (column_differences beyond_alpha beyond_alnum depth_limit e a)
  unfolding column_differences
  column_differences-Agrees e a = and_Agrees _ _ (check-Agrees _ _ _ _) (
      and_Agrees _ _ (check-Agrees _ _ _ _) (
        and_Agrees _ _ (check-Agrees _ _ _ _) (
          and_Agrees _ _ (check-Agrees _ _ _ _) (
            and_Agrees _ _
              (compare_defaults-Agrees e.name e.server_default a.server_default a.nullable)
              (and_Agrees _ _ (check_optional-Agrees _ _ _ e.collation a.collation) (
                and_Agrees _ _
                  (check_optional-Agrees _ _ _ e.datetime_precision a.datetime_precision)
                  (check_optional-Agrees _ _ _ e.unsigned a.unsigned)))))))

  compare_columns-Agrees :
      (es cs : List ColumnShape)
      → Agrees (compare_columns beyond_alpha beyond_alnum depth_limit es cs)
  unfolding compare_columns
  compare_columns-Agrees es cs =
      and_Agrees _ _ (compare_names-Agrees _ column_missing column_extra _ _) (
        compare_each-Agrees column_differs _ (columns_by_name cs) (columns_by_name es)
          column_differences-Agrees)

  compare_predicates-Agrees :
      (name : Text) (e : Option CheckExpression) (p : Option Bool) (a : Option CheckExpression)
      → Agrees (compare_predicates beyond_alpha beyond_alnum depth_limit name e p a)
  unfolding compare_predicates
  compare_predicates-Agrees name none p a = nothing-Agrees
  compare_predicates-Agrees name (some e) none a = Calm-Agrees _ (not_drift, tt)
  compare_predicates-Agrees name (some e) (some true) none = Calm-Agrees _ (not_drift, tt)
  compare_predicates-Agrees name (some e) (some false) none = check-Agrees _ _ false _
  compare_predicates-Agrees name (some e) (some true) (some a) = check-Agrees _ _ _ _
  compare_predicates-Agrees name (some e) (some false) (some a) = check-Agrees _ _ _ _

  index_differences-Agrees :
      (e a : IndexShape) → Agrees (index_differences beyond_alpha beyond_alnum depth_limit e a)
  unfolding index_differences
  index_differences-Agrees e a = and_Agrees _ _ (check-Agrees _ _ _ _) (
      and_Agrees _ _ (check-Agrees _ _ _ _) (
        and_Agrees _ _ (check_optional-Agrees _ _ _ e.partial a.partial) (
          and_Agrees _ _ (check_optional-Agrees _ _ _ e.prefix_lengths a.prefix_lengths) (
            and_Agrees _ _ (check_optional-Agrees _ _ _ e.index_type a.index_type)
              (compare_predicates-Agrees e.name e.condition a.partial a.condition)))))

  compare_indexes-Agrees :
      (es is : List IndexShape)
      → Agrees (compare_indexes beyond_alpha beyond_alnum depth_limit es is)
  unfolding compare_indexes
  compare_indexes-Agrees es is =
      and_Agrees _ _ (compare_names-Agrees _ index_missing index_extra _ _) (
        compare_each-Agrees index_differs _ (indexes_by_name is) (indexes_by_name es)
          index_differences-Agrees)

  compare_expression-Agrees :
      (e : CheckShape) (a : Option CheckExpression)
      → Agrees (compare_expression beyond_alpha beyond_alnum depth_limit e a)
  unfolding compare_expression
  compare_expression-Agrees e none = Calm-Agrees _ (not_drift, tt)
  compare_expression-Agrees e (some a) = check-Agrees _ _ _ _

  compare_check-Agrees :
      (e : CheckShape) (cs : List CheckShape)
      → Agrees (compare_check beyond_alpha beyond_alnum depth_limit e cs)
  unfolding compare_check
  compare_check-Agrees e [] = check-Agrees _ _ false _
  compare_check-Agrees e (c ∷ d ∷ cs) = Calm-Agrees _ (still_matched, (not_drift, tt))
  compare_check-Agrees e (c ∷ []) =
      and_Agrees _ _
        (Calm-Agrees (fact (codes "check.presence") e.name matched ∷ []) (still_matched, tt))
        (compare_expression-Agrees e c.expression)

  declared_checks-Agrees :
      (es : List CheckShape) (actual : Option (List CheckShape))
      → Agrees (declared_checks beyond_alpha beyond_alnum depth_limit es actual)
  unfolding declared_checks
  declared_checks-Agrees [] actual = nothing-Agrees
  declared_checks-Agrees (e ∷ es) none =
      and_Agrees _ _
        (Calm-Agrees (fact (codes "check.presence") e.name unchecked ∷ []) (not_drift, tt))
        (declared_checks-Agrees es none)
  declared_checks-Agrees (e ∷ es) (some cs) =
      and_Agrees _ _ (compare_check-Agrees e (checks_named e.name cs))
        (declared_checks-Agrees es (some cs))

  pub compare_table_shapes-Agrees :
      (e a : TableShape) → Agrees (compare_table_shapes beyond_alpha beyond_alnum depth_limit e a)
  unfolding compare_table_shapes compare_checks
  compare_table_shapes-Agrees e a =
      and_Agrees _ _
        (Calm-Agrees (fact (codes "table.presence") none matched ∷ []) (still_matched, tt))
        (and_Agrees _ _ (check-Agrees _ _ _ _) (
          and_Agrees _ _ (compare_columns-Agrees e.columns a.columns) (
            and_Agrees _ _ (compare_indexes-Agrees e.indexes a.indexes) (
              and_Agrees _ _ (compare_foreign_keys-Agrees e.foreign_keys a.foreign_keys) (
                and_Agrees _ _
                  (and_Agrees _ _ (declared_checks-Agrees (listed e.checks) a.checks)
                    (Calm-Agrees _ (unmanaged-Calm (listed e.checks) [] (listed a.checks))))
                  (Calm-Agrees _ (limits-Calm common_limits)))))))

  -- The comparison of two tables reports an issue exactly when one of its facts is drift.
  pub compare_table_shapes_iff :
      (e a : TableShape)
      → ((compare_table_shapes beyond_alpha beyond_alnum depth_limit e a).0 ≡ [])
        ↔ Calm (compare_table_shapes beyond_alpha beyond_alnum depth_limit e a).1
  compare_table_shapes_iff e a = agreement (compare_table_shapes-Agrees e a)
