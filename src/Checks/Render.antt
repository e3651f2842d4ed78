-- ===== src/Checks/Render.antt =====
-- `render_check` of snekql/_checks.py, with `quote_identifier` of snekql/sqlite/identifiers.py and
-- snekql/mariadb/identifiers.py. Whatever is raised gives none.
pub mod Written
pub mod Spelling
pub mod Extends
pub mod RoundTrip
use snekql.Prelude.{
  ℕ, zero, suc, Bool, true, false, not, ◌&&◌, ◌||◌, Option, none, some, List, [], ◌∷◌, ◌++◌, ◌==◌,
  ltb, length, if◌then◌else◌, Text, codes,
}
use snekql.Checks.Coding.{utf8, hex, digits, max_digits}
use snekql.Checks.{
  Operator, column, literal, negation, conjunction, disjunction, eq, ne, gt, gte, lt, lte, is_null,
  is_not_null, member, not_member, between, Value, absent, str, int, CheckExpression, node,
  Arguments, nil, cons, ◌>>=◌,
}

-- `value.replace(q, q + q)`
unfoldable pub double : ℕ → Text → Text
double q [] = []
double q (c ∷ t) = let rest = double q t in if c == q then q ∷ q ∷ rest else c ∷ rest

-- A text between two of the same quotes
unfoldable pub enclose : ℕ → Text → Text
unfolding double
enclose q t = q ∷ (double q t ++ q ∷ [])

pub data Backend : Type 0 where
  sqlite mariadb : Backend

unfoldable pub quote_identifier : Backend → Text → Text
unfolding enclose
quote_identifier sqlite t = enclose b'"' t
quote_identifier mariadb t = enclose b'`' t

abbrev pub has_nul : Text → Bool
has_nul [] = false
has_nul (c ∷ t) = c == 0 || has_nul t

-- `str` of an int; too many digits raise.
pub print_int : Bool → ℕ → Option Text
print_int nonnegative n =
    if ltb max_digits (length (digits n))
    then none
    else some (if nonnegative then digits n else b'-' ∷ digits n)

pub render_text : Backend → Text → List ℕ → Text
unfolding enclose
render_text mariadb t bs = codes "CONVERT(X'" ++ hex bs ++ codes "' USING utf8mb4)"
render_text sqlite t bs =
    if has_nul t then codes "CAST(X'" ++ hex bs ++ codes "' AS TEXT)" else enclose b'\'' t

pub render_literal : Backend → Value → Option Text
unfolding print_int render_text
render_literal backend (str t) = utf8 t >>= λ bs. some (render_text backend t bs)
render_literal backend (int s n) = print_int s n
render_literal backend absent = some (codes "None")

-- `quote(str(value))`
pub render_column : Backend → Value → Option Text
unfolding print_int quote_identifier
render_column backend (str t) = some (quote_identifier backend t)
render_column backend (int s n) = print_int s n >>= λ t. some (quote_identifier backend t)
render_column backend absent = some (quote_identifier backend (codes "None"))

-- The spelling of an operator that stands between two operands
pub infix_word : Operator → Option Text
infix_word eq = some (codes "=")
infix_word ne = some (codes "<>")
infix_word gt = some (codes ">")
infix_word gte = some (codes ">=")
infix_word lt = some (codes "<")
infix_word lte = some (codes "<=")
infix_word _ = none

abbrev pub spaced : Text → Text → Text → Text
spaced l w r = l ++ b' ' ∷ (w ++ b' ' ∷ r)

abbrev pub in_parentheses : Text → Text
in_parentheses t = b'(' ∷ (t ++ b')' ∷ [])

-- `", ".join`
unfoldable pub joined : List Text → Text
joined [] = []
joined (t ∷ []) = t
joined (t ∷ u ∷ us) = t ++ b',' ∷ b' ' ∷ joined (u ∷ us)

pub compared : Option Text → List Text → Option Text
compared (some w) (l ∷ r ∷ []) = some (spaced l w r)
compared _ _ = none

-- An operator over its rendered children
pub combine : Operator → List Text → Option Text
unfolding infix_word compared joined
combine is_null (t ∷ ts) = some (t ++ codes " IS NULL")
combine is_not_null (t ∷ ts) = some (t ++ codes " IS NOT NULL")
combine negation (t ∷ ts) = some (codes "NOT (" ++ (t ++ codes ")"))
combine member (t ∷ ts) = some (t ++ (codes " IN (" ++ (joined ts ++ codes ")")))
combine not_member (t ∷ ts) = some (t ++ (codes " NOT IN (" ++ (joined ts ++ codes ")")))
combine between (t ∷ low ∷ high ∷ ts) =
    some (t ++ (codes " BETWEEN " ++ (low ++ (codes " AND " ++ high))))
combine conjunction (l ∷ r ∷ []) = some (spaced (in_parentheses l) (codes "AND") (in_parentheses r))
combine disjunction (l ∷ r ∷ []) = some (spaced (in_parentheses l) (codes "OR") (in_parentheses r))
combine is_null [] = none
combine is_not_null [] = none
combine op ts = compared (infix_word op) ts

mutual
  unfolding render_literal render_column combine

  pub render_check : Backend → CheckExpression → Option Text
  render_check backend (node column v es) = render_column backend v
  render_check backend (node literal v es) = render_literal backend v
  render_check backend (node op v es) = render_each backend es >>= combine op

  pub render_each : Backend → Arguments → Option (List Text)
  render_each backend nil = some []
  render_each backend (cons e es) =
      render_check backend e >>= λ t. render_each backend es >>= λ ts. some (t ∷ ts)
