-- ===== src/Checks/Parser.antt =====
-- `_Parser` of snekql/_check_catalog.py. A parser takes the tokens that are left; whatever is raised
-- gives none. Fuel bounds the nesting of calls, as the interpreter's recursion limit does, and the
-- rounds of the loops.
pub mod Reads
pub mod Whole
use snekql.Prelude.{
  ℕ, zero, suc, Bool, true, false, not, ◌&&◌, ◌||◌, Option, none, some, List, [], ◌∷◌, leb, ltb,
  ◌==◌, ◌-◌, if◌then◌else◌, Text, text_eq, codes, map, is_one_of,
}
use snekql.Checks.Coding.{value_of, text_of_hex}
use snekql.Checks.Tokens.{Kind, word, literal, identifier, number, symbol, Token}
use snekql.Checks.{
  Operator, column, negation, conjunction, disjunction, eq, ne, gt, gte, lt, lte, is_null,
  is_not_null, member, not_member, between, Value, absent, str, int, CheckExpression, node,
  Arguments, nil, cons, ◌>>=◌,
}
use snekql.Checks

-- `text.upper()`, where only ASCII words and symbols are compared
abbrev pub upper : Text → Text
upper [] = []
upper (c ∷ t) = (if leb b'a' c && leb c b'z' then c - 32 else c) ∷ upper t

abbrev pub Parse : Type 0 → Type 0
Parse A = Option (A × List Token)

-- `_accept` of the next token
pub is_keyword : Text → Kind → Text → Bool
is_keyword t word s = text_eq (upper s) t
is_keyword t symbol s = text_eq (upper s) t
is_keyword t _ s = false

unfoldable pub accept : Text → List Token → Option (List Token)
unfolding is_keyword
accept t [] = none
accept t (k ∷ ks) = if is_keyword t k.kind k.text then some ks else none

abbrev pub node2 : Operator → CheckExpression → CheckExpression → CheckExpression
node2 op a b = node op absent (cons a (cons b nil))

-- An int of sign and digits; minus zero is zero.
pub signed : Bool → Option ℕ → Option Value
signed negative none = none
signed negative (some n) = some (int (not negative || n == 0) n)

pub literal_of : Option Value → List Token → Parse CheckExpression
literal_of none ks = none
literal_of (some v) ks = some (node Checks.literal v nil, ks)

abbrev pub reserved : List Text
reserved =
    codes "TRUE"
    ∷ codes "FALSE"
    ∷ codes "NULL"
    ∷ codes "CURRENT_DATE"
    ∷ codes "CURRENT_TIME"
    ∷ codes "CURRENT_TIMESTAMP"
    ∷ codes "CURRENT_USER"
    ∷ codes "SESSION_USER"
    ∷ codes "SYSTEM_USER"
    ∷ []

-- `literal_keywords`, where they are taken for values
pub keyword_value : Text → Option Value
keyword_value t =
    if text_eq t (codes "TRUE")
    then some (int true 1)
    else if text_eq t (codes "FALSE")
    then some (int true 0)
    else if text_eq t (codes "NULL")
    then some absent
    else none

-- The text of a literal token
pub take_literal : List Token → Option (Text × List Token)
take_literal [] = none
take_literal (k ∷ ks) = elim k.kind [ literal ↦ some (k.text, ks) | _ ↦ none ]

pub require_each : List Text → List Token → Option (List Token)
unfolding accept
require_each [] ks = some ks
require_each (t ∷ ts) ks = do rest ← accept t ks; require_each ts rest

-- `CONVERT(X'…' USING utf8mb4)` and `CAST(X'…' AS TEXT)`, from behind the first word
pub coded_text : Bool → List Token → Parse CheckExpression
unfolding require_each take_literal literal_of
coded_text converts ks = do
  inside ← require_each (codes "(" ∷ codes "X" ∷ []) ks
  (encoded, after) ← take_literal inside
  rest ←
      require_each
        ((if converts then codes "USING" else codes "AS")
          ∷ (if converts then codes "UTF8MB4" else codes "TEXT")
          ∷ codes ")"
          ∷ [])
        after
  t ← text_of_hex encoded
  some (node Checks.literal (str t) nil, rest)

pub keyword_or_column : Text → Option Value → List Token → Parse CheckExpression
unfolding literal_of is_one_of
keyword_or_column t (some v) ks = literal_of (some v) ks
keyword_or_column t none ks =
    if is_one_of (upper t) reserved then none else some (node column (str t) nil, ks)

pub word_operand : Bool → Text → List Token → Parse CheckExpression
unfolding coded_text keyword_or_column keyword_value
word_operand keywords t ks =
    if text_eq (upper t) (codes "CONVERT")
    then coded_text true ks
    else if text_eq (upper t) (codes "CAST")
    then coded_text false ks
    else keyword_or_column t (if keywords then keyword_value (upper t) else none) ks

pub data Sign : Type 0 where
  unsigned plus minus : Sign

abbrev pub is_minus : Sign → Bool
is_minus minus = true
is_minus _ = false

-- `_operand` behind a sign, if there is one; a sign stands before a number only.
pub sole_operand : Bool → Sign → Kind → Text → List Token → Parse CheckExpression
unfolding signed literal_of word_operand
sole_operand keywords sign number t ks = literal_of (signed (is_minus sign) (value_of t)) ks
sole_operand keywords unsigned literal t ks = some (node Checks.literal (str t) nil, ks)
sole_operand keywords unsigned word t ks = word_operand keywords t ks
sole_operand keywords unsigned identifier t ks = some (node column (str t) nil, ks)
sole_operand keywords _ _ t ks = none

pub take_operand : Bool → Sign → List Token → Parse CheckExpression
unfolding sole_operand
take_operand keywords sign [] = none
take_operand keywords sign (k ∷ ks) = sole_operand keywords sign k.kind k.text ks

pub plain_operand : Bool → List Token → Parse CheckExpression
unfolding accept take_operand
plain_operand keywords ks = elim (accept (codes "-") ks) [
  | some rest ↦ take_operand keywords minus rest
  | none ↦ elim (accept (codes "+") ks) [
    | some rest ↦ take_operand keywords plus rest
    | none ↦ take_operand keywords unsigned ks
  ]
]

-- What `_comparison` does behind IS
pub null_test : CheckExpression → List Token → Parse CheckExpression
unfolding accept
null_test left ks = elim (accept (codes "NOT") ks) [
  | some rest ↦ elim (accept (codes "NULL") rest) [
    | some after ↦ some (node is_not_null absent (cons left nil), after)
    | none ↦ none
  ]
  | none ↦ elim (accept (codes "NULL") ks) [
    | some after ↦ some (node is_null absent (cons left nil), after)
    | none ↦ none
  ]
]

abbrev spellings : List (Text × Operator)
spellings =
    (codes "=", eq)
    ∷ (codes "==", eq)
    ∷ (codes "<>", ne)
    ∷ (codes "!=", ne)
    ∷ (codes ">", gt)
    ∷ (codes ">=", gte)
    ∷ (codes "<", lt)
    ∷ (codes "<=", lte)
    ∷ []

pub find_operator : List (Text × Operator) → List Token → Option (Operator × List Token)
unfolding accept
find_operator [] ks = none
find_operator ((t, op) ∷ rest) ks = elim (accept t ks) [
  | some after ↦ some (op, after)
  | none ↦ find_operator rest ks
]

pub comparison_operator : List Token → Option (Operator × List Token)
unfolding find_operator
comparison_operator ks = find_operator spellings ks

abbrev pub connective : Bool → Operator
connective true = conjunction
connective false = disjunction

abbrev pub connective_word : Bool → Text
connective_word true = codes "AND"
connective_word false = codes "OR"

abbrev pub negation_of : CheckExpression → CheckExpression
negation_of e = node negation absent (cons e nil)

module _ (keywords : Bool) where
  -- `_boolean` with its loop, `_comparison`, the rest of it behind its left operand, the list of an
  -- IN, and `_operand`. The flag of `boolean` is for AND.
  mutual
    unfolding accept null_test comparison_operator plain_operand

    pub boolean : ℕ → Bool → List Token → Parse CheckExpression
    boolean zero conjoins ks = none
    boolean (suc fuel) conjoins ks =
        elim conjoins [ true ↦ comparison fuel ks | false ↦ boolean fuel true ks ] >>= λ p.
        boolean_rest fuel conjoins p.0 p.1

    pub boolean_rest : ℕ → Bool → CheckExpression → List Token → Parse CheckExpression
    boolean_rest zero conjoins e ks = none
    boolean_rest (suc fuel) conjoins e ks = elim (accept (connective_word conjoins) ks) [
      | none ↦ some (e, ks)
      | some rest ↦
          elim conjoins [ true ↦ comparison fuel rest | false ↦ boolean fuel true rest ] >>= λ p.
          boolean_rest fuel conjoins (node2 (connective conjoins) e p.0) p.1
    ]

    pub comparison : ℕ → List Token → Parse CheckExpression
    comparison zero ks = none
    comparison (suc fuel) ks = elim (accept (codes "NOT") ks) [
      | some rest ↦ comparison fuel rest >>= λ p. some (negation_of p.0, p.1)
      | none ↦ operand fuel ks >>= λ p. comparison_rest fuel p.0 p.1
    ]

    pub comparison_rest : ℕ → CheckExpression → List Token → Parse CheckExpression
    comparison_rest zero left ks = none
    comparison_rest (suc fuel) left ks = elim (accept (codes "IS") ks) [
      | some rest ↦ null_test left rest
      | none ↦ elim (accept (codes "NOT") ks) [
        | some rest ↦ compare_with fuel true left rest
        | none ↦ compare_with fuel false left ks
      ]
    ]

    pub compare_with : ℕ → Bool → CheckExpression → List Token → Parse CheckExpression
    compare_with zero negated left ks = none
    compare_with (suc fuel) negated left ks = elim (accept (codes "IN") ks) [
      | some rest ↦ accept (codes "(") rest >>= λ inside. operand fuel inside >>= λ p.
          operands fuel p.1 >>= λ q. accept (codes ")") q.1 >>= λ after.
          some
            (node (if negated then not_member else member) absent (cons left (cons p.0 q.0)), after)
      | none ↦ elim (accept (codes "BETWEEN") ks) [
        | some rest ↦ operand fuel rest >>= λ p. accept (codes "AND") p.1 >>= λ behind.
            operand fuel behind >>= λ q.
            let e = node between absent (cons left (cons p.0 (cons q.0 nil))) in
            some (if negated then negation_of e else e, q.1)
        | none ↦ if negated then none else elim (comparison_operator ks) [
          | some (op, rest) ↦ operand fuel rest >>= λ p. some (node2 op left p.0, p.1)
          | none ↦ some (left, ks)
        ]
      ]
    ]

    pub operands : ℕ → List Token → Option (Arguments × List Token)
    operands zero ks = none
    operands (suc fuel) ks = elim (accept (codes ",") ks) [
      | none ↦ some (nil, ks)
      | some rest ↦ operand fuel rest >>= λ p. operands fuel p.1 >>= λ q. some (cons p.0 q.0, q.1)
    ]

    pub operand : ℕ → List Token → Parse CheckExpression
    operand zero ks = none
    operand (suc fuel) ks = elim (accept (codes "(") ks) [
      | some inside ↦
          boolean fuel false inside >>= λ p. accept (codes ")") p.1 >>= λ after. some (p.0, after)
      | none ↦ plain_operand keywords ks
    ]

  pub no_more : Parse CheckExpression → Option CheckExpression
  no_more none = none
  no_more (some (e, [])) = some e
  no_more (some (e, k ∷ ks)) = none

  pub parse : ℕ → List Token → Option CheckExpression
  unfolding no_more
  parse fuel ks = no_more (boolean fuel false ks)
