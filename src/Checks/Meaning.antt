-- ===== src/Checks/Meaning.antt =====
-- What a CHECK means to the database: three-valued logic over columns and literals. A comparison
-- with NULL has no order; `missing` stands for an operand that is neither a column nor a literal,
-- which the predicates below do not have.
use snekql.Prelude.{ℕ, zero, suc, Bool, true, false, Option, none, some, List, [], ◌∷◌}
use snekql.Checks.{
  Operator, column, literal, negation, conjunction, disjunction, eq, ne, gt, gte, lt, lte, is_null,
  is_not_null, member, not_member, between, Value, CheckExpression, node, Arguments, nil, cons,
}

pub data Truth : Type 0 where
  holds fails unknown : Truth

pub data Order : Type 0 where
  before same after : Order

abbrev pub not3 : Truth → Truth
not3 holds = fails
not3 fails = holds
not3 unknown = unknown

abbrev pub and3 : Truth → Truth → Truth
and3 holds b = b
and3 fails b = fails
and3 unknown fails = fails
and3 unknown _ = unknown

abbrev pub or3 : Truth → Truth → Truth
or3 fails b = b
or3 holds b = holds
or3 unknown holds = holds
or3 unknown _ = unknown

-- The comparison of two values, by their order
abbrev pub related : Operator → Option Order → Truth
related op none = unknown
related eq (some same) = holds
related eq (some _) = fails
related ne (some same) = fails
related ne (some _) = holds
related gt (some after) = holds
related gt (some _) = fails
related gte (some before) = fails
related gte (some _) = holds
related lt (some before) = holds
related lt (some _) = fails
related lte (some after) = fails
related lte (some _) = holds
related _ (some _) = unknown

-- How the database reads columns, literals and truth values, and orders two values that are not NULL.
pub record Reading : Type 1 where
  pub Datum : Type 0
  pub of_column : Value → Datum
  pub of_literal : Value → Datum
  pub missing : Datum
  pub truth : Datum → Truth
  pub null : Datum → Bool
  pub order : Datum → Datum → Option Order

module _ (d : Reading) where
  abbrev pub any_equal : d.Datum → List d.Datum → Truth
  any_equal x [] = fails
  any_equal x (y ∷ ys) = or3 (related eq (d.order x y)) (any_equal x ys)

  abbrev pub nullity : Bool → Truth
  nullity true = holds
  nullity false = fails

  -- An operator on its operands
  abbrev pub atom : Operator → List d.Datum → Truth
  atom is_null (x ∷ []) = nullity (d.null x)
  atom is_not_null (x ∷ []) = not3 (nullity (d.null x))
  atom member (x ∷ ys) = any_equal x ys
  atom not_member (x ∷ ys) = not3 (any_equal x ys)
  atom between (x ∷ y ∷ z ∷ []) = and3 (related gte (d.order x y)) (related lte (d.order x z))
  atom op (x ∷ y ∷ []) = related op (d.order x y)
  atom op _ = unknown

  abbrev pub datum : CheckExpression → d.Datum
  datum (node column v es) = d.of_column v
  datum (node literal v es) = d.of_literal v
  datum (node op v es) = d.missing

  abbrev pub data_of : Arguments → List d.Datum
  data_of nil = []
  data_of (cons e es) = datum e ∷ data_of es

  abbrev mutual
    pub meaning : CheckExpression → Truth
    meaning (node column v es) = d.truth (d.of_column v)
    meaning (node literal v es) = d.truth (d.of_literal v)
    meaning (node negation v es) = not3 (one_of es)
    meaning (node conjunction v es) = all_of es
    meaning (node disjunction v es) = some_of es
    meaning (node op v es) = atom op (data_of es)

    pub one_of : Arguments → Truth
    one_of nil = unknown
    one_of (cons e es) = meaning e

    pub all_of : Arguments → Truth
    all_of nil = holds
    all_of (cons e es) = and3 (meaning e) (all_of es)

    pub some_of : Arguments → Truth
    some_of nil = fails
    some_of (cons e es) = or3 (meaning e) (some_of es)

-- A column or a literal
abbrev pub IsOperand : CheckExpression → Type 0
IsOperand (node column v nil) = Unit {0}
IsOperand (node literal v nil) = Unit {0}
IsOperand _ = ⊥

abbrev pub AreOperands : Arguments → Type 0
AreOperands nil = Unit {0}
AreOperands (cons e es) = IsOperand e × AreOperands es

-- What the binder of CHECK declarations produces, and bare columns and literals beside that.
abbrev mutual
  pub IsPredicate : CheckExpression → Type 0
  IsPredicate (node column v es) = IsOperand (node column v es)
  IsPredicate (node literal v es) = IsOperand (node literal v es)
  IsPredicate (node negation v nil) = ⊥
  IsPredicate (node negation v (cons e nil)) = IsPredicate e
  IsPredicate (node negation v (cons e (cons f es))) = ⊥
  IsPredicate (node conjunction v es) = ArePredicates es
  IsPredicate (node disjunction v es) = ArePredicates es
  IsPredicate (node op v es) = AreOperands es

  pub ArePredicates : Arguments → Type 0
  ArePredicates nil = Unit {0}
  ArePredicates (cons e es) = IsPredicate e × ArePredicates es

-- Only a column, a literal or a BETWEEN stands under a NOT.
abbrev pub IsKept : CheckExpression → Type 0
IsKept (node column v es) = Unit {0}
IsKept (node literal v es) = Unit {0}
IsKept (node between v es) = Unit {0}
IsKept _ = ⊥

abbrev mutual
  pub IsNormal : CheckExpression → Type 0
  IsNormal (node negation v nil) = ⊥
  IsNormal (node negation v (cons e es)) = IsKept e
  IsNormal (node conjunction v es) = AreNormal es
  IsNormal (node disjunction v es) = AreNormal es
  IsNormal (node op v es) = Unit {0}

  pub AreNormal : Arguments → Type 0
  AreNormal nil = Unit {0}
  AreNormal (cons e es) = IsNormal e × AreNormal es

abbrev pub max : ℕ → ℕ → ℕ
max zero n = n
max (suc m) zero = suc m
max (suc m) (suc n) = suc (max m n)

abbrev mutual
  pub depth : CheckExpression → ℕ
  depth (node op v es) = suc (depth_of es)

  pub depth_of : Arguments → ℕ
  depth_of nil = 0
  depth_of (cons e es) = max (depth e) (depth_of es)
