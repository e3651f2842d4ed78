-- ===== src/Schema/Shapes/Forms/Same.antt =====
-- Equal normal forms and what they mean.
use snekql.Prelude.{
  ℕ, ◌↔◌, ◌≡◌, refl, sym, ap, ◌∙◌, Bool, true, false, ◌&&◌, ◌==◌, ==_iff, Option, some, text_eq_iff,
  arith, List, [], ◌∷◌, zero, suc,
}
use snekql.Checks.{
  Operator, column, literal, negation, conjunction, disjunction, eq, ne, gt, gte, lt, lte, is_null,
  is_not_null, member, not_member, between, Value, absent, str, int, CheckExpression, node,
  Arguments, nil, cons, normalize_check,
}
use snekql.Checks.Meaning.{Reading, meaning, IsPredicate}
use snekql.Checks.Rewriting.{Normalized}
use snekql.Checks.Built.{IsBuilt}
use snekql.Checks.Ends.{normalize_check_returns}
use snekql.Checks.Normal.{normalize_check-Normalized}
use snekql.Schema.Shapes.Forms.{
  number_of, value_eq, expression_eq, arguments_eq, same_result, fuel_for, same_form,
}

abbrev operators : List Operator
operators =
    column ∷ literal ∷ negation ∷ conjunction ∷ disjunction ∷ eq ∷ ne ∷ gt ∷ gte ∷ lt ∷ lte
    ∷ is_null ∷ is_not_null ∷ member ∷ not_member ∷ between ∷ []

element : List Operator → ℕ → Operator
element [] n = column
element (op ∷ ops) zero = op
element (op ∷ ops) (suc n) = element ops n

operator_of : ℕ → Operator
unfolding element
operator_of n = element operators n

operator_of-number_of : (op : Operator) → operator_of (number_of op) ≡ op
unfolding operator_of
operator_of-number_of column = refl
operator_of-number_of literal = refl
operator_of-number_of negation = refl
operator_of-number_of conjunction = refl
operator_of-number_of disjunction = refl
operator_of-number_of eq = refl
operator_of-number_of ne = refl
operator_of-number_of gt = refl
operator_of-number_of gte = refl
operator_of-number_of lt = refl
operator_of-number_of lte = refl
operator_of-number_of is_null = refl
operator_of-number_of is_not_null = refl
operator_of-number_of member = refl
operator_of-number_of not_member = refl
operator_of-number_of between = refl

same_operator : (a b : Operator) → (number_of a == number_of b) ≡ true → a ≡ b
same_operator a b h =
    sym (operator_of-number_of a)
    ∙ ap operator_of ((==_iff (number_of a) (number_of b)).0 h)
    ∙ operator_of-number_of b

same_value : (v w : Value) → value_eq v w ≡ true → v ≡ w
unfolding value_eq
same_value absent absent h = refl
same_value (str s) (str t) h = ap str ((text_eq_iff s t).0 h)
same_value (int true m) (int true n) h = ap (int true) ((==_iff m n).0 h)
same_value (int false m) (int false n) h = ap (int false) ((==_iff m n).0 h)
same_value absent (str t) h = cc
same_value absent (int b n) h = cc
same_value (str s) absent h = cc
same_value (str s) (int b n) h = cc
same_value (int true m) absent h = cc
same_value (int false m) absent h = cc
same_value (int true m) (str t) h = cc
same_value (int false m) (str t) h = cc
same_value (int true m) (int false n) h = cc
same_value (int false m) (int true n) h = cc

both : (a b : Bool) → (a && b) ≡ true → (a ≡ true) × (b ≡ true)
both true true h = (refl, refl)
both true false h = cc
both false b h = cc

assembled :
    {op op' : Operator} {v w : Value} {es fs : Arguments}
    → op ≡ op'
    → v ≡ w
    → es ≡ fs
    → node op v es ≡ node op' w fs
assembled o x y = rw (o, x, y) refl

lined_up : {e f : CheckExpression} {es fs : Arguments} → e ≡ f → es ≡ fs → cons e es ≡ cons f fs
lined_up x y = rw (x, y) refl

mutual
  unfolding expression_eq arguments_eq

  same_expression : (e f : CheckExpression) → expression_eq e f ≡ true → e ≡ f
  same_expression (node op v es) (node op' w fs) h =
      let (r, y) = both (number_of op == number_of op' && value_eq v w) (arguments_eq es fs) h in
      let (o, x) = both (number_of op == number_of op') (value_eq v w) r in
      assembled (same_operator op op' o) (same_value v w x) (same_arguments es fs y)

  same_arguments : (es fs : Arguments) → arguments_eq es fs ≡ true → es ≡ fs
  same_arguments nil nil h = refl
  same_arguments (cons e es) (cons f fs) h =
      let (x, y) = both (expression_eq e f) (arguments_eq es fs) h in
      lined_up (same_expression e f x) (same_arguments es fs y)
  same_arguments nil (cons f fs) h = cc
  same_arguments (cons e es) nil h = cc

same_results :
    (x y : Option CheckExpression) (e f : CheckExpression)
    → x ≡ some e
    → y ≡ some f
    → same_result x y ≡ true
    → e ≡ f
same_results x y e f p q h =
    same_expression e f (sym (ap (λ z. same_result z (some f)) p) ∙ sym (ap (same_result x) q) ∙ h)

self_value : (v : Value) → value_eq v v ≡ true
unfolding value_eq
self_value absent = refl
self_value (str s) = (text_eq_iff s s).1 refl
self_value (int true m) = (==_iff m m).1 refl
self_value (int false m) = (==_iff m m).1 refl

mutual
  unfolding expression_eq arguments_eq

  self_expression : (e : CheckExpression) → expression_eq e e ≡ true
  self_expression (node op v es) =
      rw ((==_iff (number_of op) (number_of op)).1 refl, self_value v, self_arguments es) refl

  self_arguments : (es : Arguments) → arguments_eq es es ≡ true
  self_arguments nil = refl
  self_arguments (cons e es) = rw (self_expression e, self_arguments es) refl

-- Two expressions, each NOT of which has an argument, have a normal form each, and the comparison is
-- true exactly where these are equal.
pub same_form_iff :
    (e f : CheckExpression)
    → IsBuilt e
    → IsBuilt f
    → (g : CheckExpression) × (h : CheckExpression) × (normalize_check (fuel_for e) e ≡ some g)
      × (normalize_check (fuel_for f) f ≡ some h)
      × ((same_form e f ≡ true) ↔ (g ≡ h))
unfolding same_form
same_form_iff e f b c =
    let (g, p) = normalize_check_returns (fuel_for e) e b (omega arith) in
    let (h, q) = normalize_check_returns (fuel_for f) f c (omega arith) in
    (
      g,
      h,
      p,
      q,
      (
        λ k. same_results _ _ g h p q k,
        λ k. rw (p, q) (ap (expression_eq g) (sym k) ∙ self_expression g),
      ),
    )

-- Two well-formed predicates (`IsPredicate`) that the comparison finds to have one normal form have the
-- same three-valued meaning, however the database reads columns, literals and comparisons.
pub same_form_same_meaning :
    (d : Reading) (e f : CheckExpression)
    → IsPredicate e
    → IsPredicate f
    → same_form e f ≡ true
    → meaning d e ≡ meaning d f
unfolding same_form
same_form_same_meaning d e f p q h =
    sym a.means
    ∙ ap (meaning d) (same_results _ _ a.result b.result a.returned b.returned h)
    ∙ b.means
  where
    a : Normalized d e (normalize_check (fuel_for e) e)
    a = normalize_check-Normalized d (fuel_for e) e p (omega arith)

    b : Normalized d f (normalize_check (fuel_for f) f)
    b = normalize_check-Normalized d (fuel_for f) f q (omega arith)
