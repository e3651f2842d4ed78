-- ===== src/Schema/Plan/Names.antt =====
-- A plan is accepted exactly when no table and no index comes twice.
use snekql.Prelude.{
  ◌≡◌, ◌≢◌, refl, subst, ◌↔◌, inl, inr, Bool-cases, false, Option, none, some, List, [], ◌∷◌, ◌++◌,
  Text, All, AreDistinct, is_one_of, is_one_of_iff, map, Result, ok, err,
}
use snekql.Schema.{NormalizedIndex}
use snekql.Schema.Plan.{
  SchemaError, Model, PlannedModel, plan_models, add_indexes, name_error, check_names,
  build_schema_plan,
}

abbrev AreNew : List Text → List Text → Type 0
AreNew seen ns = All (λ n. All (λ s. s ≢ n) seen) ns

-- Distinct names, none of which has been seen
abbrev Fresh : List Text → List Text → Type 0
Fresh seen ns = AreDistinct ns × AreNew seen ns

split_new :
    (seen ns : List Text) (n : Text) → AreNew (n ∷ seen) ns ↔ (All (λ m. n ≢ m) ns × AreNew seen ns)
split_new seen [] n = (λ h. (tt, tt), λ h. tt)
split_new seen (m ∷ ns) n =
    let (f, g) = split_new seen ns n in
    (λ h. let (p, q) = f h.1 in ((h.0.0, p), (h.0.1, q)), λ h. ((h.0.0, h.1.0), g (h.0.1, h.1.1)))

Fresh-step :
    (seen ns : List Text) (n : Text)
    → Fresh seen (n ∷ ns) ↔ ((is_one_of n seen ≡ false) × Fresh (n ∷ seen) ns)
Fresh-step seen ns n =
    let (f, g) = split_new seen ns n in
    let (i, j) = is_one_of_iff n seen in
    (
      λ h. (j h.1.0, (h.0.1, g (h.0.0, h.1.1))),
      λ h. let (p, q) = f h.1.1 in ((p, h.1.0), (i h.0, q)),
    )

nothing_seen : (ns : List Text) → AreNew [] ns
nothing_seen [] = tt
nothing_seen (n ∷ ns) = (tt, nothing_seen ns)

abbrev names_of : List NormalizedIndex → List Text
names_of is = map (λ (i : NormalizedIndex). i.name) is

abbrev pub table_names : List PlannedModel → List Text
table_names [] = []
table_names (p ∷ ps) = p.table_name ∷ table_names ps

-- The names of all indexes of a plan
abbrev pub index_names : List PlannedModel → List Text
index_names [] = []
index_names (p ∷ ps) = names_of p.indexes ++ index_names ps

-- What `add_indexes` gives is new, and leaves the rest new or not as it was.
abbrev Adds : List Text → Option (List Text) → Type 0
Adds rest none = ⊥
Adds rest (some names) = Fresh names rest

add_indexes-Fresh :
    (seen rest : List Text) (is : List NormalizedIndex)
    → Fresh seen (names_of is ++ rest) ↔ Adds rest (add_indexes seen is)
unfolding add_indexes
add_indexes-Fresh seen rest [] = (λ h. h, λ h. h)
add_indexes-Fresh seen rest (i ∷ is) =
    let (f, g) = Fresh-step seen (names_of is ++ rest) i.name in
    let (j, k) = add_indexes-Fresh (i.name ∷ seen) rest is in
    elim (Bool-cases (is_one_of i.name seen)) [
      | inl e ↦ rw e (λ h. let p = (f h).0 in cc, λ h. absurd h)
      | inr e ↦ rw e (λ h. j (f h).1, λ h. g (e, k h))
    ]

step_iff :
    (p : PlannedModel) (ps : List PlannedModel) (tables indexes : List Text)
    → ((names : List Text)
        → (name_error (p.table_name ∷ tables) names ps ≡ none)
          ↔ (Fresh (p.table_name ∷ tables) (table_names ps) × Fresh names (index_names ps)))
    → (name_error tables indexes (p ∷ ps) ≡ none)
      ↔ (Fresh tables (table_names (p ∷ ps)) × Fresh indexes (index_names (p ∷ ps)))
unfolding name_error
step_iff p ps tables indexes rest =
    let (f, g) = Fresh-step tables (table_names ps) p.table_name in
    let (j, k) = add_indexes-Fresh indexes (index_names ps) p.indexes in
    elim (Bool-cases (is_one_of p.table_name tables)) [
      | inl e ↦ rw e (λ h. cc, λ h. let q = (f h.0).0 in cc)
      | inr e ↦ rw e (by_indexes (add_indexes indexes p.indexes) j k e f g)
    ]
  where
    by_indexes :
        (o : Option (List Text))
        → (Fresh indexes (index_names (p ∷ ps)) → Adds (index_names ps) o)
        → (Adds (index_names ps) o → Fresh indexes (index_names (p ∷ ps)))
        → (is_one_of p.table_name tables ≡ false)
        → (Fresh tables (table_names (p ∷ ps))
            → (is_one_of p.table_name tables ≡ false)
              × Fresh (p.table_name ∷ tables) (table_names ps))
        → ((is_one_of p.table_name tables ≡ false) × Fresh (p.table_name ∷ tables) (table_names ps)
            → Fresh tables (table_names (p ∷ ps)))
        → (elim o [
          | none ↦ some SchemaError.duplicate_index
          | some names ↦ name_error (p.table_name ∷ tables) names ps
        ]
            ≡ none)
          ↔ (Fresh tables (table_names (p ∷ ps)) × Fresh indexes (index_names (p ∷ ps)))
    by_indexes none j k e f g = (λ h. cc, λ h. absurd (j h.1))
    by_indexes (some names) j k e f g = (
      λ h. let (a, b) = (rest names).0 h in (g (e, a), k b),
      λ h. (rest names).1 ((f h.0).1, j h.1),
    )

name_error_iff :
    (ps : List PlannedModel) (tables indexes : List Text)
    → (name_error tables indexes ps ≡ none)
      ↔ (Fresh tables (table_names ps) × Fresh indexes (index_names ps))
unfolding name_error
name_error_iff [] tables indexes = (λ h. ((tt, tt), (tt, tt)), λ h. refl)
name_error_iff (p ∷ ps) tables indexes =
    step_iff p ps tables indexes (λ names. name_error_iff ps (p.table_name ∷ tables) names)

passed :
    (o : Option SchemaError) (qs ps : List PlannedModel)
    → ◌≡◌ {A = Result SchemaError (List PlannedModel)}
        (elim o [ some e ↦ err e | none ↦ ok qs ])
        (ok ps)
    → (o ≡ none) × (qs ≡ ps)
passed none qs ps h = (refl, cc)
passed (some e) qs ps h = cc

check_names_iff :
    (r : Result SchemaError (List PlannedModel)) (ps : List PlannedModel)
    → (check_names r ≡ ok ps)
      ↔ ((r ≡ ok ps) × AreDistinct (table_names ps) × AreDistinct (index_names ps))
unfolding check_names
check_names_iff (err e) ps = (λ h. cc, λ h. cc)
check_names_iff (ok qs) ps = (
  λ h.
      let (e, f) = passed (name_error [] [] qs) qs ps h in
      subst
        (λ us.
          ◌≡◌ {A = Result SchemaError (List PlannedModel)} (ok qs) (ok us)
          × AreDistinct (table_names us)
          × AreDistinct (index_names us))
        f (let (a, b) = (name_error_iff qs [] []).0 e in (refl, a.0, b.0)),
  λ h.
      let same : ps ≡ qs = cc in
      subst (λ us. check_names (ok us) ≡ ok ps) same
        (rw
          (
            (name_error_iff ps [] []).1
                ((h.1, nothing_seen (table_names ps)), (h.2, nothing_seen (index_names ps))),
            check_names,
          )
          refl),
)

-- Models are planned, with this plan, exactly when each of them can be planned by itself, the plan is
-- made of their plans in order, no two of them have the same table, and no two indexes of the whole
-- plan have the same name.
pub build_schema_plan_iff :
    (target_of : Model → Text → Option Model) (ms : List Model) (ps : List PlannedModel)
    → (build_schema_plan target_of ms ≡ ok ps) ↔ (
        (plan_models target_of ms ≡ ok ps)
        × AreDistinct (table_names ps)
        × AreDistinct (index_names ps))
unfolding build_schema_plan
build_schema_plan_iff target_of ms ps = check_names_iff (plan_models target_of ms) ps
