-- ===== src/Checks/Examples.antt =====
-- A CHECK over two integer columns, and the row in which it is read.
use snekql.Prelude.{
  ℕ, ◌↔◌, ◌≡◌, refl, true, false, Option, none, some, [], ◌∷◌, ltb, text_eq, if◌then◌else◌, arith,
}
use snekql.Checks.{
  gt, lte, is_null, is_not_null, negation, conjunction, disjunction, column, literal, Value, absent,
  str, int, CheckExpression, node, nil, cons, normalize_check,
}
use snekql.Checks.Meaning.{Order, before, same, after, Reading, holds, meaning}
use snekql.Checks.Rewriting.{Normalized}
use snekql.Checks.Normal.{normalize_check-Normalized}
use snekql.Schema.Shapes.Forms.{same_form, fuel_for, expression_eq}
use snekql.Schema.Shapes.Forms.Same.{same_form_same_meaning, same_form_iff}

abbrev order_of : Option ℕ → Option ℕ → Option Order
order_of (some m) (some n) = some (if ltb m n then before else if ltb n m then after else same)
order_of _ _ = none

-- The column `a` holds 5, and every other column NULL.
abbrev column_of : Value → Option ℕ
column_of (str t) = if text_eq t (97 ∷ []) then some 5 else none
column_of _ = none

abbrev number_of : Value → Option ℕ
number_of (int true n) = some n
number_of _ = none

abbrev row : Reading
row = record {
  Datum = Option ℕ;
  of_column = column_of;
  of_literal = number_of;
  missing = none;
  truth = λ x. holds;
  null = λ x. elim x [ none ↦ true | some n ↦ false ];
  order = order_of;
}

abbrev a : CheckExpression
a = node column (str (97 ∷ [])) nil

abbrev b : CheckExpression
b = node column (str (98 ∷ [])) nil

abbrev three : CheckExpression
three = node literal (int true 3) nil

-- NOT (a > 3 AND b IS NULL)
abbrev declared : CheckExpression
declared = node negation absent (
    cons
      (node conjunction absent (
        cons (node gt absent (cons a (cons three nil)))
          (cons (node is_null absent (cons b nil)) nil)))
      nil)

-- a <= 3 OR b IS NOT NULL
abbrev stored : CheckExpression
stored = node disjunction absent (
    cons (node lte absent (cons a (cons three nil)))
      (cons (node is_not_null absent (cons b nil)) nil))

normalize_check-Normalized_example : Normalized row declared (normalize_check 8 declared)
normalize_check-Normalized_example =
    normalize_check-Normalized row 8 declared ((tt, (tt, tt)), ((tt, tt), tt)) (omega arith)

forms_agree : same_form declared stored ≡ true
unfolding same_form expression_eq normalize_check text_eq
forms_agree = refl

same_form_same_meaning_example : meaning row declared ≡ meaning row stored
same_form_same_meaning_example =
    same_form_same_meaning row declared stored ((tt, (tt, tt)), ((tt, tt), tt))
      ((tt, (tt, tt)), ((tt, tt), tt)) forms_agree

same_form_iff_example :
    (g : CheckExpression) × (h : CheckExpression) × (normalize_check (fuel_for declared) declared
      ≡ some g)
    × (normalize_check (fuel_for stored) stored ≡ some h)
    × ((same_form declared stored ≡ true) ↔ (g ≡ h))
same_form_iff_example =
    same_form_iff declared stored (((((tt, (tt, tt)), ((tt, tt), tt))), tt))
      ((tt, (tt, tt)), ((tt, tt), tt))
