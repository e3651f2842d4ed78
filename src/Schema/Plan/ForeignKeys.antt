-- ===== src/Schema/Plan/ForeignKeys.antt =====
-- What a planned foreign key of a column stands for.
use snekql.Prelude.{
  ℕ, ◌≡◌, ◌≢◌, refl, ap, subst, inl, inr, ◌⊎◌, Bool, true, false, ◌&&◌, ◌||◌, Option, none, some,
  List, [], ◌∷◌, Text, text_eq, codes, ok, ◌>>=◌, raise_if, >>=-ok, ok-injective,
}
use snekql.Schema.{PlannedForeignKey}
use snekql.Schema.Plan.{
  SchemaError, Column, Model, PlannedColumn, resolve_target_column, is_set_null, is_false,
  sets_null_in_vain, plan_foreign_key, column_foreign_keys, key_of, resolved,
}
use snekql.Schema.Plan.Targets.{IsTarget, resolve_target_column-IsTarget}

-- A column that is never NULL does not have this action.
abbrev pub Fires : Column → Option Text → Type 0
Fires c action =
    ((c.primary_key ≡ true) ⊎ (c.nullable ≡ some false)) → action ≢ some (codes "SET NULL")

set_null_lem : (action : Option Text) → action ≡ some (codes "SET NULL") → is_set_null action ≡ true
unfolding text_eq
set_null_lem action e = rw e refl

never_null :
    (c : Column)
    → (c.primary_key ≡ true) ⊎ (c.nullable ≡ some false)
    → (c.primary_key || is_false c.nullable) ≡ true
never_null c (inl p) = rw p refl
never_null c (inr p) = rw p (or_true c.primary_key)
  where
    or_true : (b : Bool) → (b || true) ≡ true
    or_true true = refl
    or_true false = refl

clash_left : (a b c : Bool) → (a && (b || c)) ≡ false → a ≡ true → b ≡ true → ⊥
clash_left true true c h p q = cc
clash_left true false c h p q = cc
clash_left false b c h p q = cc

clash_right : (a b c : Bool) → (a && (b || c)) ≡ false → a ≡ true → c ≡ true → ⊥
clash_right true true c h p q = cc
clash_right true false true h p q = cc
clash_right true false false h p q = cc
clash_right false b c h p q = cc

resolved_lem : (o : Option Model) (m : Model) → resolved o ≡ ok m → o ≡ some m
resolved_lem none m h = cc
resolved_lem (some t) m h = ap some (ok-injective h)

passes : (b : Bool) (e : SchemaError) {u : Unit {0}} → raise_if b e ≡ ok u → b ≡ false
passes true e h = cc
passes false e h = refl

fires_lem : (c : Column) → sets_null_in_vain c ≡ false → Fires c c.on_delete × Fires c c.on_update
unfolding sets_null_in_vain
fires_lem c h = (
  (λ b e. clash_left _ _ (is_set_null c.on_update) h (never_null c b) (set_null_lem c.on_delete e)),
  λ b e. clash_right _ (is_set_null c.on_delete) _ h (never_null c b) (set_null_lem c.on_update e),
)

module _ (target_of : Model → Text → Option Model) where
  -- The foreign keys that come of the columns of a model: one for each column with a target, in order.
  -- Its target is a table whose column of the declared identity tells its rows apart, and its actions
  -- are the declared ones, of which SET NULL is none where the column is never NULL.
  pub data AreKeys (m : Model) : List PlannedColumn → List PlannedForeignKey → Type 0 where
    no_columns : AreKeys m [] []
    plain :
        {cs : List PlannedColumn} {ks : List PlannedForeignKey} (c : PlannedColumn)
        → c.column.foreign_key_target ≡ none
        → AreKeys m cs ks
        → AreKeys m (c ∷ cs) ks
    refers :
        {cs : List PlannedColumn} {ks : List PlannedForeignKey} (c : PlannedColumn)
        (k : PlannedForeignKey) (n : ℕ) (target : Model) (name : Text)
        → c.column.foreign_key_target ≡ some n
        → target_of m c.name ≡ some target
        → IsTarget target n name
        → k.foreign_columns ≡ c.name ∷ []
        → k.target_table ≡ target.table_name
        → k.target_columns ≡ name ∷ []
        → (k.on_delete ≡ c.column.on_delete) × (k.on_update ≡ c.column.on_update)
        → Fires c.column k.on_delete × Fires c.column k.on_update
        → AreKeys m cs ks
        → AreKeys m (c ∷ cs) (k ∷ ks)

  planned_key :
      (m : Model) (c : PlannedColumn) (n : ℕ) (k : PlannedForeignKey) (cs : List PlannedColumn)
      (ks : List PlannedForeignKey)
      → c.column.foreign_key_target ≡ some n
      → plan_foreign_key target_of m c n ≡ ok k
      → AreKeys m cs ks
      → AreKeys m (c ∷ cs) (k ∷ ks)
  unfolding plan_foreign_key
  planned_key m c n k cs ks t h rest =
      let (u, e, f) =
        >>=-ok _ (raise_if (sets_null_in_vain c.column) SchemaError.set_null_never_fires) h in
      let (target, r, g) = >>=-ok _ (resolved (target_of m c.name)) f in
      let (name, i, j) = >>=-ok _ (resolve_target_column target n) g in
      let same : key_of c.name c.column target name ≡ k = ok-injective j in
      subst (λ k. AreKeys m (c ∷ cs) (k ∷ ks)) same
        (refers c _ n target name t (resolved_lem _ target r)
          (resolve_target_column-IsTarget target n name i) refl refl refl (refl, refl)
          (fires_lem c.column (passes _ _ e)) rest)

  -- Where the foreign keys of the columns are planned, the plan has one for each column with a target,
  -- in the order of the columns, and no other. It is on that column alone and has the declared
  -- actions. Its target is the column of the declared identity of the model that the annotation
  -- names, and that column is the only key column of its model, or unique, or alone in a unique index
  -- without prefixes or condition. Where the column is a key or declared not nullable, neither action
  -- is SET NULL.
  pub column_foreign_keys-AreKeys :
      (m : Model) (cs : List PlannedColumn) (ks : List PlannedForeignKey)
      → column_foreign_keys target_of m cs ≡ ok ks
      → AreKeys m cs ks
  unfolding column_foreign_keys
  column_foreign_keys-AreKeys m [] ks h =
      let same : [] ≡ ks = ok-injective h in subst (AreKeys m []) same no_columns
  column_foreign_keys-AreKeys m (c ∷ cs) ks h =
      keys_with c.column.foreign_key_target refl h (column_foreign_keys-AreKeys m cs)
    where
      keys_with :
          (o : Option ℕ)
          → c.column.foreign_key_target ≡ o
          → elim o [
            | none ↦ column_foreign_keys target_of m cs
            | some n ↦ plan_foreign_key target_of m c n >>= λ k.
                column_foreign_keys target_of m cs >>= λ ks. ok (k ∷ ks)
          ]
            ≡ ok ks
          → ((ks : List PlannedForeignKey)
              → column_foreign_keys target_of m cs ≡ ok ks
              → AreKeys m cs ks)
          → AreKeys m (c ∷ cs) ks
      keys_with none t g again = plain c t (again ks g)
      keys_with (some n) t g again =
          let (k, e, f) = >>=-ok _ (plan_foreign_key target_of m c n) g in
          let (rest, i, j) = >>=-ok _ (column_foreign_keys target_of m cs) f in
          let same : k ∷ rest ≡ ks = ok-injective j in
          subst (AreKeys m (c ∷ cs)) same (planned_key m c n k cs rest t e (again rest i))
