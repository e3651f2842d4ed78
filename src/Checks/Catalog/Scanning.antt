-- ===== src/Checks/Catalog/Scanning.antt =====
-- The scan for WHERE and the names of columns, on the tokens of a written predicate.
use snekql.Prelude.{
  ℕ, ◌≡◌, refl, ap, ◌∙◌, Bool, true, false, some, List, [], ◌∷◌, Text, text_eq, codes, All, ok,
}
use snekql.Checks.Tokens.{Token, token, identifier}
use snekql.Checks.Render.Written.{
  Leaf, names, says, encodes, counts, owes, equal, unequal, above, at_least, below, at_most,
  Spelled, More, last, comma, Written, compares, lacks, has, among, not_among, ranges, denies,
  conjoins, disjoins, sym_token, keyword,
}
use snekql.Checks.Catalog.{
  has_symbol, is_symbol, has_word, paren, lower, find_column, column_text, canonical_columns,
  canonical_each, drop_semicolon, find_where, sqlite_index_predicate,
}
use snekql.Checks.Tokens.Lexing.{lex}
use snekql.Checks.Parser.{parse}
use snekql.Checks.{Operator, absent, CheckExpression, node, Arguments, nil, cons}

-- Not a semicolon
abbrev pub IsPlain : Token → Type 0
IsPlain k = is_symbol (codes ";") k ≡ false

pub drop_semicolon_none : (ks : List Token) → All IsPlain ks → drop_semicolon ks ≡ ks
unfolding drop_semicolon
drop_semicolon_none [] h = refl
drop_semicolon_none (k ∷ []) h = rw h.0 refl
drop_semicolon_none (k ∷ l ∷ ks) h = ap (λ x. k ∷ x) (drop_semicolon_none (l ∷ ks) h.1)

abbrev KeepsPlain : (List Token → List Token) → Type 0
KeepsPlain k = (r : List Token) → All IsPlain r → All IsPlain (k r)

Leaf-plain :
    {e : CheckExpression} {t : Text → Text} {k : List Token → List Token}
    → Leaf e t k
    → KeepsPlain k
unfolding has_symbol text_eq
Leaf-plain (names t) r h = (refl, h)
Leaf-plain (says t bs i j) r h = (refl, h)
Leaf-plain (encodes t bs i j) r h = (refl, (refl, (refl, (refl, (refl, (refl, (refl, h)))))))
Leaf-plain (counts n i) r h = (refl, h)
Leaf-plain (owes n i j) r h = (refl, (refl, h))

More-plain :
    {es : Arguments} {t : Text → Text} {k : List Token → List Token} → More es t k → KeepsPlain k
unfolding has_symbol text_eq
More-plain last r h = h
More-plain (comma l m) r h = (refl, Leaf-plain l _ (More-plain m r h))

Spelled-IsPlain : {op : Operator} {w : Text} → Spelled op w → IsPlain (sym_token w)
unfolding has_symbol text_eq
Spelled-IsPlain equal = refl
Spelled-IsPlain unequal = refl
Spelled-IsPlain above = refl
Spelled-IsPlain at_least = refl
Spelled-IsPlain below = refl
Spelled-IsPlain at_most = refl

pub Written-plain :
    {e : CheckExpression} {t : Text → Text} {k : List Token → List Token}
    → Written e t k
    → KeepsPlain k
unfolding has_symbol text_eq
Written-plain (compares op w p l m) r h = Leaf-plain l _ (Spelled-IsPlain p, Leaf-plain m r h)
Written-plain (lacks l) r h = Leaf-plain l _ (refl, (refl, h))
Written-plain (has l) r h = Leaf-plain l _ (refl, (refl, (refl, h)))
Written-plain (among l m n) r h =
    Leaf-plain l _ (refl, (refl, Leaf-plain m _ (More-plain n _ (refl, h))))
Written-plain (not_among l m n) r h =
    Leaf-plain l _ (refl, (refl, (refl, Leaf-plain m _ (More-plain n _ (refl, h)))))
Written-plain (ranges l m n) r h = Leaf-plain l _ (refl, Leaf-plain m _ (refl, Leaf-plain n r h))
Written-plain (denies v) r h = (refl, (refl, Written-plain v _ (refl, h)))
Written-plain (conjoins v w) r h =
    (refl, Written-plain v _ (refl, (refl, (refl, Written-plain w _ (refl, h)))))
Written-plain (disjoins v w) r h =
    (refl, Written-plain v _ (refl, (refl, (refl, Written-plain w _ (refl, h)))))

abbrev mutual
  -- Each column of an expression is found under its own name.
  pub Knows : List Text → CheckExpression → Type 0
  Knows ns (node Operator.column v es) =
      find_column (lower (column_text v)) ns ≡ some (column_text v)
  Knows ns (node op v es) = KnowsEach ns es

  pub KnowsEach : List Text → Arguments → Type 0
  KnowsEach ns nil = Unit {0}
  KnowsEach ns (cons e es) = Knows ns e × KnowsEach ns es

Leaf-canonical :
    {e : CheckExpression} {t : Text → Text} {k : List Token → List Token} (ns : List Text)
    → Leaf e t k
    → Knows ns e
    → canonical_columns ns e ≡ some e
unfolding canonical_columns canonical_each column_text
Leaf-canonical ns (names t) h = rw h refl
Leaf-canonical ns (says t bs i j) h = refl
Leaf-canonical ns (encodes t bs i j) h = refl
Leaf-canonical ns (counts n i) h = refl
Leaf-canonical ns (owes n i j) h = refl

More-canonical :
    {es : Arguments} {t : Text → Text} {k : List Token → List Token} (ns : List Text)
    → More es t k
    → KnowsEach ns es
    → canonical_each ns es ≡ some es
unfolding canonical_each
More-canonical ns last h = refl
More-canonical ns (comma l m) h = rw (Leaf-canonical ns l h.0, More-canonical ns m h.1) refl

Spelled-canonical :
    {op : Operator} {w : Text} (ns : List Text) (a b : CheckExpression)
    → Spelled op w
    → (Knows ns a → canonical_columns ns a ≡ some a)
    → (Knows ns b → canonical_columns ns b ≡ some b)
    → Knows ns (node op absent (cons a (cons b nil)))
    → canonical_columns ns (node op absent (cons a (cons b nil)))
      ≡ some (node op absent (cons a (cons b nil)))
unfolding canonical_columns canonical_each
Spelled-canonical ns a b equal f g h = rw (f h.0, g h.1.0) refl
Spelled-canonical ns a b unequal f g h = rw (f h.0, g h.1.0) refl
Spelled-canonical ns a b above f g h = rw (f h.0, g h.1.0) refl
Spelled-canonical ns a b at_least f g h = rw (f h.0, g h.1.0) refl
Spelled-canonical ns a b below f g h = rw (f h.0, g h.1.0) refl
Spelled-canonical ns a b at_most f g h = rw (f h.0, g h.1.0) refl

pub Written-canonical :
    {e : CheckExpression} {t : Text → Text} {k : List Token → List Token} (ns : List Text)
    → Written e t k
    → Knows ns e
    → canonical_columns ns e ≡ some e
unfolding canonical_columns canonical_each
Written-canonical ns (compares {a} {b} op w p l m) h =
    Spelled-canonical ns a b p (Leaf-canonical ns l) (Leaf-canonical ns m) h
Written-canonical ns (lacks l) h = rw (Leaf-canonical ns l h.0) refl
Written-canonical ns (has l) h = rw (Leaf-canonical ns l h.0) refl
Written-canonical ns (among l m n) h =
    rw (Leaf-canonical ns l h.0, Leaf-canonical ns m h.1.0, More-canonical ns n h.1.1) refl
Written-canonical ns (not_among l m n) h =
    rw (Leaf-canonical ns l h.0, Leaf-canonical ns m h.1.0, More-canonical ns n h.1.1) refl
Written-canonical ns (ranges l m n) h =
    rw (Leaf-canonical ns l h.0, Leaf-canonical ns m h.1.0, Leaf-canonical ns n h.1.1.0) refl
Written-canonical ns (denies v) h = rw (Written-canonical ns v h.0) refl
Written-canonical ns (conjoins v w) h =
    rw (Written-canonical ns v h.0, Written-canonical ns w h.1.0) refl
Written-canonical ns (disjoins v w) h =
    rw (Written-canonical ns v h.0, Written-canonical ns w h.1.0) refl

-- A list of quoted names, as tokens
abbrev pub name_tokens : List Text → List Token → List Token
name_tokens [] k = k
name_tokens (n ∷ []) k = token identifier n ∷ k
name_tokens (n ∷ m ∷ ns) k = token identifier n ∷ sym_token (codes ",") ∷ name_tokens (m ∷ ns) k

pub names_plain : (ns : List Text) → KeepsPlain (name_tokens ns)
unfolding has_symbol text_eq
names_plain [] r h = h
names_plain (n ∷ []) r h = (refl, h)
names_plain (n ∷ m ∷ ns) r h = (refl, (refl, names_plain (m ∷ ns) r h))

pub find_where_names :
    (ns : List Text) (b : Bool) (ks : List Token)
    → find_where 1 b (name_tokens ns (sym_token (codes ")") ∷ ks)) ≡ find_where 0 true ks
unfolding find_where paren has_symbol text_eq
find_where_names [] b ks = refl
find_where_names (n ∷ []) b ks = refl
find_where_names (n ∷ m ∷ ns) b ks = find_where_names (m ∷ ns) b ks

-- The tokens of CREATE INDEX with a WHERE, from INDEX on
abbrev pub index_rest : Text → Text → List Text → List Token → List Token
index_rest name table ns ks =
    keyword (codes "INDEX")
    ∷ token identifier name
    ∷ keyword (codes "ON")
    ∷ token identifier table
    ∷ sym_token (codes "(")
    ∷ name_tokens ns (sym_token (codes ")") ∷ keyword (codes "WHERE") ∷ ks)

abbrev pub index_tokens : Bool → List Token → List Token
index_tokens true rest = keyword (codes "CREATE") ∷ keyword (codes "UNIQUE") ∷ rest
index_tokens false rest = keyword (codes "CREATE") ∷ rest

index_tokens-IsPlain :
    (unique : Bool) (name table : Text) (ns : List Text) (ks : List Token)
    → All IsPlain ks
    → All IsPlain (index_tokens unique (index_rest name table ns ks))
unfolding has_symbol text_eq
index_tokens-IsPlain true name table ns ks h =
    (refl, (refl, (refl, (refl, (refl, (refl, (refl, names_plain ns _ (refl, (refl, h)))))))))
index_tokens-IsPlain false name table ns ks h =
    (refl, (refl, (refl, (refl, (refl, (refl, names_plain ns _ (refl, (refl, h))))))))

where_found :
    (unique : Bool) (name table : Text) (ns : List Text) (ks : List Token)
    → find_where 0 false (index_tokens unique (index_rest name table ns ks)) ≡ some ks
unfolding find_where paren has_symbol has_word text_eq
where_found true name table ns ks = find_where_names ns false (keyword (codes "WHERE") ∷ ks)
where_found false name table ns ks = find_where_names ns false (keyword (codes "WHERE") ∷ ks)

pub find_where_index :
    (unique : Bool) (name table : Text) (ns : List Text) (ks : List Token)
    → All IsPlain ks
    → find_where 0 false (drop_semicolon (index_tokens unique (index_rest name table ns ks)))
      ≡ some ks
find_where_index unique name table ns ks h =
    ap (find_where 0 false) (drop_semicolon_none _ (index_tokens-IsPlain unique name table ns ks h))
    ∙ where_found unique name table ns ks

-- The reader of an index, by its parts
pub predicate_read :
    (beyond_alpha beyond_alnum : ℕ → Bool) (depth_limit : ℕ) (column_names : List Text) (sql : Text)
    (ks behind : List Token) (e f : CheckExpression)
    → lex beyond_alpha beyond_alnum false sql ≡ ok ks
    → find_where 0 false (drop_semicolon ks) ≡ some behind
    → parse false depth_limit behind ≡ some e
    → canonical_columns column_names e ≡ some f
    → sqlite_index_predicate beyond_alpha beyond_alnum depth_limit column_names (some sql) ≡ some f
unfolding sqlite_index_predicate
predicate_read alpha alnum limit ns sql ks behind e f h k l m = rw (h, k, l, m) refl
