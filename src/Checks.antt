-- ===== src/Checks.antt =====
-- CHECK expressions and their normal form: `CheckExpression` of snekql/_checks.py and
-- `normalize_check` of snekql/_check_catalog.py. The operator strings of the source are the
-- constructors of `Operator`.
pub mod Built
pub mod EndsOfNots
pub mod Ends
pub mod Meaning
pub mod Negations
pub mod Lists
pub mod Rewriting
pub mod Nots
pub mod Normal
pub mod Tokens
pub mod Coding
pub mod Parser
pub mod Render
pub mod Binding
pub mod Declarations
pub mod Catalog
mod Examples
use snekql.Prelude.{
  ℕ, zero, suc, Bool, true, false, Option, none, some, Text, ◌≡◌, refl, if◌then◌else◌,
}

pub data Operator : Type 0 where
  column literal negation conjunction disjunction : Operator
  eq ne gt gte lt lte is_null is_not_null member not_member between : Operator

-- `str | int | None`; an int has a sign and a magnitude.
pub data Value : Type 0 where
  absent : Value
  str : Text → Value
  int : Bool → ℕ → Value

mutual
  pub data CheckExpression : Type 0 where
    node : Operator → Value → Arguments → CheckExpression

  pub data Arguments : Type 0 where
    nil : Arguments
    cons : CheckExpression → Arguments → Arguments

pub append : Arguments → Arguments → Arguments
append nil bs = bs
append (cons e es) bs = cons e (append es bs)

pub complement : Operator → Option Operator
complement eq = some ne
complement ne = some eq
complement gt = some lte
complement gte = some lt
complement lt = some gte
complement lte = some gt
complement is_null = some is_not_null
complement is_not_null = some is_null
complement member = some not_member
complement not_member = some member
complement _ = none

-- A NOT around each member
pub negate_each : Arguments → Arguments
negate_each nil = nil
negate_each (cons e es) = cons (node negation absent (cons e nil)) (negate_each es)

-- `child.arguments if child.operator == expression.operator else (child,)`, for AND and for OR
pub spread_and : CheckExpression → Arguments
spread_and (node conjunction v es) = es
spread_and e = cons e nil

pub spread_or : CheckExpression → Arguments
spread_or (node disjunction v es) = es
spread_or e = cons e nil

pub flatten : (CheckExpression → Arguments) → Arguments → Arguments
unfolding append
flatten spread nil = nil
flatten spread (cons e es) = append (spread e) (flatten spread es)

infixl 5 ◌>>=◌
abbrev pub ◌>>=◌ : {A B : Type 0} → Option A → (A → Option B) → Option B
none >>= f = none
some a >>= f = f a

-- What a chain of steps gave, each of its steps gave.
pub chain_some :
    {A B : Type 0} (o : Option A) {f : A → Option B} {b : B}
    → (o >>= f) ≡ some b
    → (a : A) × (o ≡ some a) × (f a ≡ some b)
chain_some none h = cc
chain_some (some a) h = (a, refl, h)

-- The same of a test
pub if_some :
    {A : Type 0} (b : Bool) {o : Option A} {a : A}
    → (if b then o else none) ≡ some a
    → (b ≡ true) × (o ≡ some a)
if_some true h = (refl, h)
if_some false h = cc

-- A call that raises gives none.
pub each : (CheckExpression → Option CheckExpression) → Arguments → Option Arguments
each f nil = some nil
each f (cons e es) = do e' ← f e; es' ← each f es; some (cons e' es')

-- `child.arguments[0]`
pub first_argument : Arguments → Option CheckExpression
first_argument nil = none
first_argument (cons e es) = some e

-- `if child.operator in complements`, and the return at the end otherwise.
pub replace_not :
    Option Operator → Value → CheckExpression → Arguments → Arguments → CheckExpression
replace_not (some op) v child es rest = node op absent es
replace_not none v child es rest = node negation v (cons child rest)

-- A NOT with normalized arguments; `again` is the recursive call.
pub rewrite_not :
    (CheckExpression → Option CheckExpression)
    → Value
    → CheckExpression
    → Arguments
    → Option CheckExpression
unfolding complement negate_each first_argument replace_not
rewrite_not again v (node conjunction w es) rest = again (node disjunction absent (negate_each es))
rewrite_not again v (node disjunction w es) rest = again (node conjunction absent (negate_each es))
rewrite_not again v (node negation w es) rest = first_argument es
rewrite_not again v (node op w es) rest =
    some (replace_not (complement op) v (node op w es) es rest)

-- What follows once the arguments are normalized.
pub rewrite :
    (CheckExpression → Option CheckExpression)
    → Operator
    → Value
    → Arguments
    → Option CheckExpression
unfolding rewrite_not flatten spread_and spread_or
rewrite again negation v (cons child rest) = rewrite_not again v child rest
rewrite again conjunction v es = some (node conjunction v (flatten spread_and es))
rewrite again disjunction v es = some (node disjunction v (flatten spread_or es))
rewrite again op v es = some (node op v es)

-- `normalize_check`, with fuel for its calls of itself.
pub normalize_check : ℕ → CheckExpression → Option CheckExpression
unfolding each rewrite
normalize_check zero e = none
normalize_check (suc n) (node op v es) = do
  es' ← each (normalize_check n) es
  rewrite (normalize_check n) op v es'
