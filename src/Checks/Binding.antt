-- ===== src/Checks/Binding.antt =====
-- The predicates of a declaration and `_CheckBinder` and `bind_checks` of snekql/_checks.py. Objects
-- are compared by an identity. Resolving a hint and encoding a value are the storage layer's
-- (`hint_of` and `encode` below); whatever is raised gives none.
pub mod Bound
pub mod Samples
mod Examples
use snekql.Prelude.{
  ℕ, Bool, true, false, not, ◌&&◌, ◌||◌, Option, none, some, List, [], ◌∷◌, ◌==◌, if◌then◌else◌,
  Text, text_eq, codes,
}
use snekql.Checks.Coding.{utf8}
use snekql.Checks.Tokens.{is_alpha, is_alnum}
use snekql.Checks.{
  Operator, negation, conjunction, disjunction, is_null, is_not_null, member, not_member, between,
  Value, absent, CheckExpression, node, Arguments, nil, cons, ◌>>=◌,
}
use snekql.Checks

-- A Python value, as far as the binder looks at it
pub data Scalar : Type 0 where
  str : Text → Scalar
  int : Bool → ℕ → Scalar
  bool : Bool → Scalar
  other_value : Scalar

-- The types that a column of a CHECK may have, and any other one
pub data Logical : Type 0 where
  text_type int_type bool_type other_type : Logical

-- `type(value)`
abbrev pub type_of : Scalar → Logical
type_of (str t) = text_type
type_of (int s n) = int_type
type_of (bool b) = bool_type
type_of other_value = other_type

-- `is`, of two types that a CHECK may have
abbrev pub same_type : Logical → Logical → Bool
same_type text_type text_type = true
same_type int_type int_type = true
same_type bool_type bool_type = true
same_type _ _ = false

pub record Attr : Type 0 where
  identity : ℕ
  owner : ℕ
  name : Option Text
  storage_type_name : Text
  text_collation : Option Text

pub data Operand : Type 0 where
  attr : Attr → Operand
  expression : Operand

pub data ComparisonOperator : Type 0 where
  eq ne gt gte lt lte : ComparisonOperator

abbrev pub operator_of : ComparisonOperator → Operator
operator_of ComparisonOperator.eq = Operator.eq
operator_of ComparisonOperator.ne = Operator.ne
operator_of ComparisonOperator.gt = Operator.gt
operator_of ComparisonOperator.gte = Operator.gte
operator_of ComparisonOperator.lt = Operator.lt
operator_of ComparisonOperator.lte = Operator.lte

mutual
  -- The flag of a compound predicate is for AND, the others say whether it is negated.
  pub data Predicate : Type 0 where
    compound : Bool → Predicates → Predicate
    negated : Predicate → Predicate
    null : Operand → Bool → Predicate
    membership : Operand → List Scalar → Bool → Predicate
    range : Operand → Scalar → Scalar → Predicate
    compares_value : Operand → ComparisonOperator → Scalar → Predicate
    compares_column : Operand → ComparisonOperator → Operand → Predicate
    unsupported : Predicate

  pub data Predicates : Type 0 where
    no_predicates : Predicates
    and_predicate : Predicate → Predicates → Predicates

abbrev pub same_collation : Option Text → Option Text → Bool
same_collation none none = true
same_collation (some s) (some t) = text_eq s t
same_collation _ _ = false

-- What an encoded value becomes; a bool is an int.
pub wire_literal : Scalar → Option Value
wire_literal (str t) = utf8 t >>= λ bs. some (Value.str t)
wire_literal (int s n) = some (Value.int s n)
wire_literal (bool true) = some (Value.int true 1)
wire_literal (bool false) = some (Value.int true 0)
wire_literal other_value = none

-- Whether a column of this storage holds such values
pub stores : Text → Logical → Bool
stores storage text_type = text_eq storage (codes "Text")
stores storage int_type = text_eq storage (codes "Integer") || text_eq storage (codes "Boolean")
stores storage bool_type = text_eq storage (codes "Integer") || text_eq storage (codes "Boolean")
stores storage other_type = false

abbrev pub is_identity : ℕ → Option Attr → Bool
is_identity n none = false
is_identity n (some a) = a.identity == n

-- The single logical type of a hint, if it is not of JSON
pub logical_of : Option (Bool × List Logical) → Option Logical
logical_of (some (false, l ∷ [])) = some l
logical_of _ = none

-- `not values or any(type(value) is not logical for value in values)`, negated
pub are_typed : Logical → List Scalar → Bool
are_typed logical [] = true
are_typed logical (v ∷ vs) = same_type (type_of v) logical && are_typed logical vs

abbrev pub any_values : List Scalar → Bool
any_values [] = false
any_values (v ∷ vs) = true

abbrev pub column_node : Text → CheckExpression
column_node t = node Operator.column (Value.str t) nil

module _ (owner : ℕ) (columns : Text → Option Attr) (hint_of : Text → Option (Bool × List Logical))
    (encode : Attr → Scalar → Option Scalar) where
  -- A column with its name and its logical type
  pub named_column : Attr → Option Text → Option (Attr × Text × Logical)
  unfolding stores logical_of
  named_column a none = none
  named_column a (some name) =
      if a.owner == owner && is_identity a.identity (columns name)
      then logical_of (hint_of name) >>= (λ logical.
        if stores a.storage_type_name logical then some (a, name, logical) else none)
      else none

  pub local_column : Operand → Option (Attr × Text × Logical)
  unfolding named_column
  local_column (attr a) = named_column a a.name
  local_column expression = none

  pub check_literal : Attr → Scalar → Logical → Option CheckExpression
  unfolding wire_literal
  check_literal a v logical =
      if same_type (type_of v) logical
      then encode a v >>= (λ w. wire_literal w >>= λ u. some (node Operator.literal u nil))
      else none

  pub literals : Attr → Logical → List Scalar → Option Arguments
  unfolding check_literal
  literals a logical [] = some nil
  literals a logical (v ∷ vs) = do
    e ← check_literal a v logical
    es ← literals a logical vs
    some (cons e es)

  -- The values of an IN or of a BETWEEN, behind their column
  pub value_list : Operator → Operand → List Scalar → Option CheckExpression
  unfolding local_column literals are_typed
  value_list op operand vs = do
    (a, name, logical) ← local_column operand
    es ← if any_values vs && are_typed logical vs then literals a logical vs else none
    some (node op absent (cons (column_node name) es))

  pub null_node : Bool → Operand → Option CheckExpression
  unfolding local_column
  null_node is_negated operand = do
    (a, name, logical) ← local_column operand
    some (node (if is_negated then is_not_null else is_null) absent (cons (column_node name) nil))

  pub value_comparison : Operator → Operand → Scalar → Option CheckExpression
  unfolding local_column check_literal
  value_comparison op operand v = do
    (a, name, logical) ← local_column operand
    e ← check_literal a v logical
    some (node op absent (cons (column_node name) (cons e nil)))

  pub column_comparison : Operator → Operand → Operand → Option CheckExpression
  unfolding local_column
  column_comparison op operand other = do
    (a, name, logical) ← local_column operand
    (b, other_name, other_logical) ← local_column other
    if same_type other_logical logical
          && text_eq a.storage_type_name b.storage_type_name
          && same_collation a.text_collation b.text_collation
        then some (node op absent (cons (column_node name) (cons (column_node other_name) nil)))
        else none

  mutual
    unfolding value_list null_node value_comparison column_comparison

    pub bind : Predicate → Option CheckExpression
    bind (compound conjoins ps) =
        bind_each ps >>= λ es. some (node (if conjoins then conjunction else disjunction) absent es)
    bind (negated p) = bind p >>= λ e. some (node negation absent (cons e nil))
    bind (null operand is_negated) = null_node is_negated operand
    bind (membership operand values is_negated) =
        value_list (if is_negated then not_member else member) operand values
    bind (range operand low high) = value_list between operand (low ∷ high ∷ [])
    bind (compares_value operand op v) = value_comparison (operator_of op) operand v
    bind (compares_column operand op other) = column_comparison (operator_of op) operand other
    bind unsupported = none

    pub bind_each : Predicates → Option Arguments
    bind_each no_predicates = some nil
    bind_each (and_predicate p ps) = bind p >>= λ e. bind_each ps >>= λ es. some (cons e es)
