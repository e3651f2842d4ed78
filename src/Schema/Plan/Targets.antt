-- ===== src/Schema/Plan/Targets.antt =====
-- What the target of a foreign key is.
use snekql.Prelude.{
  ℕ, ◌≡◌, refl, ap, subst, inl, inr, ◌⊎◌, Bool, true, false, ◌&&◌, ◌||◌, ◌==◌, Option, none, some,
  List, [], ◌∷◌, Text, text_eq_iff, ==_iff, if◌then◌else◌, Result, ok, err,
}
use snekql.Checks.{CheckExpression}
use snekql.Schema.{NormalizedIndex}
use snekql.Schema.Plan.{
  SchemaError, Column, Model, find_target, count_keys, is_sole, no_prefix, is_whole,
  any_unique_index, resolve_target_column,
}

-- The columns of a model
pub data Has : List (Text × Column) → Text → Column → Type 0 where
  here : {cs : List (Text × Column)} (name : Text) (c : Column) → Has ((name, c) ∷ cs) name c
  there :
      {cs : List (Text × Column)} {name : Text} {c : Column} (x : Text × Column)
      → Has cs name c
      → Has (x ∷ cs) name c

-- A whole unique index over one column among the indexes
pub data HasUniqueIndex (name : Text) : List NormalizedIndex → Type 0 where
  this :
      (i : NormalizedIndex) (is : List NormalizedIndex)
      → i.unique ≡ true
      → i.column_names ≡ name ∷ []
      → no_prefix i.prefix_lengths ≡ true
      → i.condition ≡ none
      → HasUniqueIndex name (i ∷ is)
  later :
      (i : NormalizedIndex) (is : List NormalizedIndex)
      → HasUniqueIndex name is
      → HasUniqueIndex name (i ∷ is)

-- A column that by itself tells the rows of its model apart
pub data IsKey (m : Model) (name : Text) (c : Column) : Type 0 where
  sole_key : c.primary_key ≡ true → count_keys m.columns ≡ 1 → IsKey m name c
  unique_column : c.unique ≡ true → IsKey m name c
  unique_index : HasUniqueIndex name m.indexes → IsKey m name c

picked :
    {A : Type 0} (b : Bool) (x : A) (o : Option A) (y : A)
    → (if b then some x else o) ≡ some y
    → ((b ≡ true) × (x ≡ y)) ⊎ (o ≡ some y)
picked true x o y h = inl (refl, cc)
picked false x o y h = inr h

find_target-Has :
    (n : ℕ) (cs : List (Text × Column)) (name : Text) (c : Column)
    → find_target n cs ≡ some (name, c)
    → Has cs name c × (c.identity ≡ n)
unfolding find_target
find_target-Has n [] name c h = cc
find_target-Has n ((other, d) ∷ cs) name c h =
    elim (picked (d.identity == n) (other, d) (find_target n cs) (name, c) h) [
      | inl p ↦
          subst (λ (x : Text × Column). Has ((other, d) ∷ cs) x.0 x.1 × (x.1.identity ≡ n)) p.1
            (here other d, (==_iff d.identity n).0 p.0)
      | inr e ↦ let (has, same) = find_target-Has n cs name c e in (there (other, d) has, same)
    ]

either : (a b : Bool) → (a || b) ≡ true → (a ≡ true) ⊎ (b ≡ true)
either true b h = inl refl
either false b h = inr h

both : (a b : Bool) → (a && b) ≡ true → (a ≡ true) × (b ≡ true)
both true b h = (refl, h)
both false b h = cc

sole_name : (t : Text) (ss : List Text) → is_sole t ss ≡ true → ss ≡ t ∷ []
sole_name t [] h = cc
sole_name t (s ∷ []) h = ap (λ u. u ∷ []) ((text_eq_iff s t).0 h)
sole_name t (s ∷ u ∷ ss) h = cc

whole_lem :
    (i : NormalizedIndex)
    → is_whole i ≡ true
    → (no_prefix i.prefix_lengths ≡ true) × (i.condition ≡ none)
unfolding is_whole
whole_lem i h =
    let (p, q) = both (no_prefix i.prefix_lengths) _ h in (p, no_condition i.condition q)
  where
    no_condition :
        (o : Option CheckExpression) → elim o [ none ↦ true | some e ↦ false ] ≡ true → o ≡ none
    no_condition none h = refl
    no_condition (some e) h = cc

any_unique_index-Has :
    (name : Text) (is : List NormalizedIndex)
    → any_unique_index name is ≡ true
    → HasUniqueIndex name is
unfolding any_unique_index
any_unique_index-Has name [] h = cc
any_unique_index-Has name (i ∷ is) h =
    elim (either (i.unique && is_sole name i.column_names && is_whole i) (any_unique_index name is)
      h) [
        | inl e ↦
            let (us, w) = both (i.unique && is_sole name i.column_names) (is_whole i) e in
            let (u, s) = both i.unique (is_sole name i.column_names) us in
            let (p, c) = whole_lem i w in this i is u (sole_name name i.column_names s) p c
        | inr e ↦ later i is (any_unique_index-Has name is e)
      ]

-- A column of the target that tells its rows apart and has this name and this identity
abbrev pub IsTarget : Model → ℕ → Text → Type 0
IsTarget m n name = (c : Column) × Has m.columns name c × (c.identity ≡ n) × IsKey m name c

key_lem :
    (m : Model) (name : Text) (c : Column)
    → ((c.primary_key && count_keys m.columns == 1)
        || (c.unique || any_unique_index name m.indexes))
      ≡ true
    → IsKey m name c
key_lem m name c h = elim (either (c.primary_key && count_keys m.columns == 1) _ h) [
  | inl e ↦
      let (p, q) = both c.primary_key _ e in sole_key p ((==_iff (count_keys m.columns) 1).0 q)
  | inr e ↦ elim (either c.unique (any_unique_index name m.indexes) e) [
    | inl u ↦ unique_column u
    | inr u ↦ unique_index (any_unique_index-Has name m.indexes u)
  ]
]

if_ok :
    {A : Type 0} (b : Bool) (x y : A) (e : SchemaError)
    → ◌≡◌ {A = Result SchemaError A} (if b then ok x else err e) (ok y)
    → (b ≡ true) × (x ≡ y)
if_ok true x y e h = (refl, cc)
if_ok false x y e h = cc

pub resolve_target_column-IsTarget :
    (m : Model) (n : ℕ) (name : Text) → resolve_target_column m n ≡ ok name → IsTarget m n name
unfolding resolve_target_column
resolve_target_column-IsTarget m n name h = go (find_target n m.columns) refl h
  where
    go :
        (o : Option (Text × Column))
        → find_target n m.columns ≡ o
        → ◌≡◌ {A = Result SchemaError Text}
            (elim o [
              | none ↦ err SchemaError.foreign_target
              | some (name, c) ↦
                  if (c.primary_key && count_keys m.columns == 1)
                    || (c.unique || any_unique_index name m.indexes)
                  then ok name
                  else err SchemaError.not_unique
            ])
            (ok name)
        → IsTarget m n name
    go none e h = cc
    go (some (other, c)) e h =
        let (test, same) =
          if_ok
            ((c.primary_key && count_keys m.columns == 1)
              || (c.unique || any_unique_index other m.indexes))
            other name SchemaError.not_unique h in
        let (has, id) = find_target-Has n m.columns other c e in
        subst (IsTarget m n) same (c, has, id, key_lem m other c test)
