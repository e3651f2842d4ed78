-- ===== src/Schema/Examples.antt =====
-- A unique partial index
use snekql.Prelude.{◌≡◌, refl, true, none, some, List, ◌∷◌, [], Text, codes, arith, text_eq}
use snekql.Checks.Binding.Samples.{
  columns, hint_of, encode, nothing_beyond, predicate, expression, predicate_binds,
  encode-IsEncoder,
}
use snekql.Checks.Catalog.{sqlite_index_predicate, find_column, column_text}
use snekql.Checks.Catalog.Scanning.{Knows}
use snekql.Schema.{NormalizedIndex, compile_create_index_sql}
use snekql.Schema.Indexes.{sqlite_index_predicate-compile}

abbrev index : NormalizedIndex
index = record {
  column_names = codes "a" ∷ codes "b" ∷ [];
  name = codes "some \"rows\"";
  unique = true;
  prefix_lengths = none;
  condition = some expression;
}

abbrev column_names : List Text
column_names = codes "a" ∷ codes "b" ∷ []

expression_Knows : Knows column_names expression
unfolding text_eq find_column column_text
expression_Knows = ((refl, (tt, tt)), (((refl, (tt, tt)), tt), tt))

sqlite_index_predicate-compile_example :
    (sql : Text) × (compile_create_index_sql (codes "t") index ≡ some sql)
    × (sqlite_index_predicate nothing_beyond nothing_beyond 100 column_names (some sql)
        ≡ some expression)
sqlite_index_predicate-compile_example =
    sqlite_index_predicate-compile nothing_beyond nothing_beyond 100 9 columns hint_of encode
      (codes "t") index predicate expression column_names encode-IsEncoder (tt, tt) predicate_binds
      refl refl expression_Knows (omega arith)
