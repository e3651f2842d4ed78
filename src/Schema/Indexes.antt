-- ===== src/Schema/Indexes.antt =====
-- What the catalog reads from the SQL of a partial index.
use mathlib.Core.List.{append-nil, append_assoc}
use snekql.Prelude.{
  ℕ, ◌≡◌, refl, ap, ◌∙◌, ◌≤◌, Bool, true, false, Option, none, some, List, [], ◌∷◌, ◌++◌, Text,
  codes, map, if◌then◌else◌,
}
use snekql.Checks.Tokens.{Token}
use snekql.Checks.Tokens.Pieces.{
  Gives, end_Gives, open_Gives, close_Gives, comma_Gives, blank_Gives, identifier_Gives,
}
use snekql.Checks.Tokens.Statements.{create_Gives, unique_Gives, index_Gives, on_Gives, where_Gives}
use snekql.Checks.Parser.Whole.{need, Written-parse}
use snekql.Checks.Render.{sqlite, double, enclose, quote_identifier, joined, render_check}
use snekql.Checks.Render.Written.{sym_token}
use snekql.Checks.Render.Extends.{Written-render}
use snekql.Checks.Render.Spelling.{Written-Gives}
use snekql.Checks.Binding.{Scalar, Logical, Attr, Predicate, bind}
use snekql.Checks.Binding.Bound.{IsPaired, IsEncoder, bind-IsWritten}
use snekql.Checks.Catalog.{sqlite_index_predicate}
use snekql.Checks.Catalog.Scanning.{
  Knows, name_tokens, index_rest, index_tokens, find_where_index, predicate_read, Written-plain,
  Written-canonical,
}
use snekql.Checks.{CheckExpression}
use snekql.Schema.{NormalizedIndex, with_prefixes, where_text, prefixes, compile_create_index_sql}

-- Quoted names in front of a text
abbrev names_text : List Text → Text → Text
names_text [] r = r
names_text (n ∷ []) r = b'"' ∷ (double b'"' n ++ b'"' ∷ r)
names_text (n ∷ m ∷ ns) r = b'"' ∷ (double b'"' n ++ b'"' ∷ b',' ∷ b' ' ∷ names_text (m ∷ ns) r)

-- From INDEX on, and then the whole
abbrev index_text : Text → Text → List Text → Text → Text
index_text name table ns r =
    codes "INDEX "
    ++ (b'"'
        ∷ (double b'"' name
            ++ b'"'
              ∷ (codes " ON "
                  ++ (b'"'
                      ∷ (double b'"' table
                          ++ b'"'
                            ∷ (codes " ("
                                ++ names_text ns (codes ")" ++ (codes " WHERE " ++ r))))))))

abbrev statement_text : Bool → Text → Text
statement_text true r = codes "CREATE " ++ (codes "UNIQUE " ++ r)
statement_text false r = codes "CREATE " ++ r

module _ (beyond_alpha beyond_alnum : ℕ → Bool) where
  names_Gives :
      (ns : List Text) (r : Text) (ks : List Token)
      → Gives beyond_alpha beyond_alnum r ks
      → Gives beyond_alpha beyond_alnum
          (names_text ns (b')' ∷ r))
          (name_tokens ns (sym_token (codes ")") ∷ ks))
  names_Gives [] r ks g = close_Gives beyond_alpha beyond_alnum r ks g
  names_Gives (n ∷ []) r ks g =
      identifier_Gives beyond_alpha beyond_alnum n _ _ refl
        (close_Gives beyond_alpha beyond_alnum r ks g)
  names_Gives (n ∷ m ∷ ns) r ks g = identifier_Gives beyond_alpha beyond_alnum n _ _ refl (
      comma_Gives beyond_alpha beyond_alnum _ _
        (blank_Gives beyond_alpha beyond_alnum _ _ (names_Gives (m ∷ ns) r ks g)))

  index_text-Gives :
      (name table : Text) (ns : List Text) (r : Text) (ks : List Token)
      → Gives beyond_alpha beyond_alnum r ks
      → Gives beyond_alpha beyond_alnum (index_text name table ns r) (index_rest name table ns ks)
  index_text-Gives name table ns r ks g = index_Gives beyond_alpha beyond_alnum _ _ (
      identifier_Gives beyond_alpha beyond_alnum name _ _ refl (
        on_Gives beyond_alpha beyond_alnum _ _ (
          identifier_Gives beyond_alpha beyond_alnum table _ _ refl (
            blank_Gives beyond_alpha beyond_alnum _ _ (
              open_Gives beyond_alpha beyond_alnum _ _
                (names_Gives ns _ _ (where_Gives beyond_alpha beyond_alnum r ks g)))))))

  statement_Gives :
      (unique : Bool) (r : Text) (ks : List Token)
      → Gives beyond_alpha beyond_alnum r ks
      → Gives beyond_alpha beyond_alnum (statement_text unique r) (index_tokens unique ks)
  statement_Gives true r ks g =
      create_Gives beyond_alpha beyond_alnum _ _ (unique_Gives beyond_alpha beyond_alnum _ _ g)
  statement_Gives false r ks g = create_Gives beyond_alpha beyond_alnum _ _ g

abbrev all_quoted : List Text → List Text
all_quoted ns = map (quote_identifier sqlite) ns

no_prefixes : (ns : List Text) → with_prefixes ns (map (λ n. none) ns) ≡ some (all_quoted ns)
unfolding with_prefixes
no_prefixes [] = refl
no_prefixes (n ∷ ns) = rw (no_prefixes ns, append-nil) refl

-- A all_quoted name in front of a text
quoted_before : (n r : Text) → quote_identifier sqlite n ++ r ≡ b'"' ∷ (double b'"' n ++ b'"' ∷ r)
unfolding quote_identifier enclose
quoted_before n r = ap (λ x. b'"' ∷ x) (append_assoc (double b'"' n) (b'"' ∷ []) r)

joined-all_quoted : (ns : List Text) (r : Text) → joined (all_quoted ns) ++ r ≡ names_text ns r
unfolding joined
joined-all_quoted [] r = refl
joined-all_quoted (n ∷ []) r = quoted_before n r
joined-all_quoted (n ∷ m ∷ ns) r =
    append_assoc (quote_identifier sqlite n) (b',' ∷ b' ' ∷ joined (all_quoted (m ∷ ns))) r
    ∙ quoted_before n (b',' ∷ b' ' ∷ (joined (all_quoted (m ∷ ns)) ++ r))
    ∙ ap (λ x. b'"' ∷ (double b'"' n ++ b'"' ∷ b',' ∷ b' ' ∷ x)) (joined-all_quoted (m ∷ ns) r)

-- The text that the parts of the statement make
parts_text :
    (name table : Text) (ns : List Text) (r : Text)
    → codes "INDEX "
        ++ (quote_identifier sqlite name
            ++ (codes " ON "
                ++ (quote_identifier sqlite table
                    ++ (codes " ("
                        ++ (joined (all_quoted ns) ++ (codes ")" ++ (codes " WHERE " ++ r)))))))
      ≡ index_text name table ns r
parts_text name table ns r =
    ap (λ x. codes "INDEX " ++ x)
      (quoted_before name _
        ∙ ap (λ x. b'"' ∷ (double b'"' name ++ b'"' ∷ (codes " ON " ++ x)))
            (quoted_before table _
              ∙ ap (λ x. b'"' ∷ (double b'"' table ++ b'"' ∷ (codes " (" ++ x)))
                  (joined-all_quoted ns (codes ")" ++ (codes " WHERE " ++ r)))))

create_text :
    (unique : Bool) (r : Text)
    → codes "CREATE " ++ ((if unique then codes "UNIQUE " else []) ++ r) ≡ statement_text unique r
create_text true r = refl
create_text false r = refl

compiled :
    (table : Text) (index : NormalizedIndex) (e : CheckExpression) (t : Text)
    → index.prefix_lengths ≡ none
    → index.condition ≡ some e
    → render_check sqlite e ≡ some t
    → compile_create_index_sql table index
      ≡ some (statement_text index.unique (index_text index.name table index.column_names t))
unfolding compile_create_index_sql where_text prefixes
compiled table index e t h k r =
    rw (h, no_prefixes index.column_names, k, r)
      (ap some (
        create_text index.unique _
        ∙ ap (statement_text index.unique) (parts_text index.name table index.column_names t)))

module _ (beyond_alpha beyond_alnum : ℕ → Bool) (depth_limit : ℕ) (owner : ℕ)
    (columns : Text → Option Attr) (hint_of : Text → Option (Bool × List Logical))
    (encode : Attr → Scalar → Option Scalar) where
  -- Take a partial index without prefix lengths, whose condition the binder made of a predicate with
  -- two children in each compound part, under an encoder whose ints have at most 4300 digits and are
  -- no minus zero. If the reader has fuel enough for the condition, and finds each column of the
  -- condition under its own name among the columns of the table, the SQL of the index exists, and
  -- what is read from it is the condition itself.
  pub sqlite_index_predicate-compile :
      (table : Text) (index : NormalizedIndex) (p : Predicate) (e : CheckExpression)
      (column_names : List Text)
      → IsEncoder encode
      → IsPaired p
      → bind owner columns hint_of encode p ≡ some e
      → index.condition ≡ some e
      → index.prefix_lengths ≡ none
      → Knows column_names e
      → need e ≤ depth_limit
      → (sql : Text) × (compile_create_index_sql table index ≡ some sql)
        × (sqlite_index_predicate beyond_alpha beyond_alnum depth_limit column_names (some sql)
            ≡ some e)
  sqlite_index_predicate-compile table index p e column_names encoder paired bound condition prefix
        knows enough =
      let (t, k, w) = bind-IsWritten owner columns hint_of encode encoder p e paired bound in
      (
        statement_text index.unique (index_text index.name table index.column_names (t [])),
        compiled table index e (t []) prefix condition (Written-render w),
        predicate_read beyond_alpha beyond_alnum depth_limit column_names _ _ (k []) e e
            (statement_Gives beyond_alpha beyond_alnum index.unique _ _ (
              index_text-Gives beyond_alpha beyond_alnum index.name table index.column_names _ _ (
                Written-Gives beyond_alpha beyond_alnum w [] [] refl
                  (end_Gives beyond_alpha beyond_alnum))))
            (find_where_index index.unique index.name table index.column_names (k [])
              (Written-plain w [] tt))
            (Written-parse w depth_limit enough) (Written-canonical column_names w knows),
      )
