-- ===== src/Schema.antt =====
-- The SQL of indexes and foreign keys: `compile_foreign_key_constraint` and
-- `compile_create_index_sql` of snekql/_schema_compile.py, with `NormalizedIndex` of
-- snekql/indexes.py and `PlannedForeignKey` of snekql/_schema_plan.py. Whatever is raised gives none.
pub mod Indexes
pub mod Plan
pub mod Startup
pub mod Shapes
mod Examples
use snekql.Prelude.{
  ℕ, Bool, true, false, Option, none, some, List, [], ◌∷◌, ◌++◌, Text, codes, map, if◌then◌else◌,
}
use snekql.Checks.Coding.{digits}
use snekql.Checks.Render.{Backend, sqlite, quote_identifier, joined, render_check}
use snekql.Checks.{CheckExpression, ◌>>=◌}

pub record NormalizedIndex : Type 0 where
  pub column_names : List Text
  pub name : Text
  pub unique : Bool
  pub prefix_lengths : Option (List (Option ℕ))
  pub condition : Option CheckExpression

pub record PlannedForeignKey : Type 0 where
  pub foreign_columns : List Text
  pub target_table : Text
  pub target_columns : List Text
  pub on_delete : Option Text
  pub on_update : Option Text

abbrev pub clause : Text → Option Text → Text
clause w none = []
clause w (some action) = w ++ action

-- `", ".join(quote(name) for name in names)`
pub quoted_names : Backend → List Text → Text
quoted_names backend names = joined (map (quote_identifier backend) names)

pub compile_foreign_key_constraint : Backend → PlannedForeignKey → Text
unfolding quoted_names
compile_foreign_key_constraint backend k =
    codes "FOREIGN KEY ("
    ++ (quoted_names backend k.foreign_columns
        ++ (codes ") REFERENCES "
            ++ (quote_identifier backend k.target_table
                ++ (codes " ("
                    ++ (quoted_names backend k.target_columns
                        ++ (codes ")"
                            ++ (clause (codes " ON DELETE ") k.on_delete
                                ++ clause (codes " ON UPDATE ") k.on_update)))))))

abbrev pub prefix_text : Option ℕ → Text
prefix_text none = []
prefix_text (some n) = codes "(" ++ (digits n ++ codes ")")

-- `zip` of the names and the prefixes, which raises where one is shorter
pub with_prefixes : List Text → List (Option ℕ) → Option (List Text)
with_prefixes [] [] = some []
with_prefixes (n ∷ ns) (p ∷ ps) =
    with_prefixes ns ps >>= λ ts. some ((quote_identifier sqlite n ++ prefix_text p) ∷ ts)
with_prefixes [] (p ∷ ps) = none
with_prefixes (n ∷ ns) [] = none

-- `index.prefix_lengths or (None,) * len(index.column_names)`
pub prefixes : Option (List (Option ℕ)) → List Text → List (Option ℕ)
prefixes none names = map (λ n. none) names
prefixes (some []) names = map (λ n. none) names
prefixes (some (p ∷ ps)) names = p ∷ ps

-- The predicate of a partial index; SQLite is the only backend that has them.
pub where_text : Option CheckExpression → Option Text
where_text none = some []
where_text (some e) = render_check sqlite e >>= λ t. some (codes " WHERE " ++ t)

-- With the dialect of SQLite
pub compile_create_index_sql : Text → NormalizedIndex → Option Text
unfolding with_prefixes prefixes where_text
compile_create_index_sql table_name index = do
  columns ← with_prefixes index.column_names (prefixes index.prefix_lengths index.column_names)
  predicate ← where_text index.condition
  some (
      codes "CREATE "
      ++ ((if index.unique then codes "UNIQUE " else [])
          ++ (codes "INDEX "
              ++ (quote_identifier sqlite index.name
                  ++ (codes " ON "
                      ++ (quote_identifier sqlite table_name
                          ++ (codes " (" ++ (joined columns ++ (codes ")" ++ predicate)))))))))
