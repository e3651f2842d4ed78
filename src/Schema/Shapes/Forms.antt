-- ===== src/Schema/Shapes/Forms.antt =====
-- Whether two CHECK expressions have one normal form: the `==` of two `CheckExpression`s. The fuel is
-- two units for each level of an expression. A NOT around a NOT without an argument, on which Python
-- raises an IndexError, has no normal form; neither the binder nor the parser makes one.
pub mod Same
use snekql.Prelude.{ℕ, Bool, true, false, ◌&&◌, Option, some, text_eq, ◌==◌, ◌*◌}
use snekql.Checks.{
  Operator, column, literal, negation, conjunction, disjunction, eq, ne, gt, gte, lt, lte, is_null,
  is_not_null, member, not_member, between, Value, absent, str, int, CheckExpression, node,
  Arguments, nil, cons, normalize_check,
}
use snekql.Checks.Meaning.{depth}

abbrev pub number_of : Operator → ℕ
number_of column = 0
number_of literal = 1
number_of negation = 2
number_of conjunction = 3
number_of disjunction = 4
number_of eq = 5
number_of ne = 6
number_of gt = 7
number_of gte = 8
number_of lt = 9
number_of lte = 10
number_of is_null = 11
number_of is_not_null = 12
number_of member = 13
number_of not_member = 14
number_of between = 15

pub value_eq : Value → Value → Bool
value_eq absent absent = true
value_eq (str s) (str t) = text_eq s t
value_eq (int true m) (int true n) = m == n
value_eq (int false m) (int false n) = m == n
value_eq _ _ = false

unfoldable mutual
  unfolding value_eq

  pub expression_eq : CheckExpression → CheckExpression → Bool
  expression_eq (node op v es) (node op' w fs) =
      number_of op == number_of op' && value_eq v w && arguments_eq es fs

  pub arguments_eq : Arguments → Arguments → Bool
  arguments_eq nil nil = true
  arguments_eq (cons e es) (cons f fs) = expression_eq e f && arguments_eq es fs
  arguments_eq nil (cons f fs) = false
  arguments_eq (cons e es) nil = false

abbrev pub same_result : Option CheckExpression → Option CheckExpression → Bool
same_result (some e) (some f) = expression_eq e f
same_result _ _ = false

-- Fuel for each level of an expression: the calls of `normalize_check` end.
abbrev pub fuel_for : CheckExpression → ℕ
fuel_for e = 2 * depth e

unfoldable pub same_form : CheckExpression → CheckExpression → Bool
same_form e f = same_result (normalize_check (fuel_for e) e) (normalize_check (fuel_for f) f)
