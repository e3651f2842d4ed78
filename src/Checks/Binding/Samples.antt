-- ===== src/Checks/Binding/Samples.antt =====
-- The predicate `a >= 7 AND NOT (b IN ('it''s'))` of a table with an integer column and a text column.
use snekql.Prelude.{
  ℕ, ◌≡◌, ◌≢◌, subst, refl, ◌≤◌, Bool, true, false, Option, none, some, List, [], ◌∷◌,
  if◌then◌else◌, Text, text_eq, codes, arith, length,
}
use snekql.Checks.Coding.{utf8, utf8_character, digits, digits_before, max_digits}
use snekql.Checks.Binding.{
  Scalar, str, int, bool, other_value, Logical, text_type, int_type, Attr, attr, gte, Predicate,
  compound, negated, membership, compares_value, no_predicates, and_predicate, bind, bind_each,
  value_comparison, value_list, literals, are_typed, check_literal, wire_literal, local_column,
  named_column, logical_of, stores, column_node,
}
use snekql.Checks.Binding.Bound.{IsEncoder}
use snekql.Checks.{CheckExpression, node, cons, nil, conjunction, negation, member, absent}
use snekql.Checks

abbrev pub a : Attr
a = record {
  identity = 1;
  owner = 9;
  name = some (codes "a");
  storage_type_name = codes "Integer";
  text_collation = none;
}

abbrev pub b : Attr
b = record {
  identity = 2;
  owner = 9;
  name = some (codes "b");
  storage_type_name = codes "Text";
  text_collation = none;
}

abbrev pub columns : Text → Option Attr
columns t = if text_eq t (codes "a") then some a else if text_eq t (codes "b") then some b else none

abbrev pub hint_of : Text → Option (Bool × List Logical)
hint_of t =
    if text_eq t (codes "a") then some (false, int_type ∷ []) else some (false, text_type ∷ [])

-- Every int is encoded as 7.
abbrev pub encode : Attr → Scalar → Option Scalar
encode c (int s n) = some (int true 7)
encode c (str t) = some (str t)
encode c v = none

abbrev pub nothing_beyond : ℕ → Bool
nothing_beyond c = false

abbrev pub predicate : Predicate
predicate = compound true (
    and_predicate (compares_value (attr a) gte (int true 7))
      (and_predicate (negated (membership (attr b) (str (codes "it's") ∷ []) false)) no_predicates))

abbrev pub expression : CheckExpression
expression = node conjunction absent (
    cons
      (node Checks.gte absent
        (cons (column_node (codes "a")) (cons (node Checks.literal (Checks.int true 7) nil) nil)))
      (cons
        (node negation absent (
          cons
            (node member absent (
              cons (column_node (codes "b"))
                (cons (node Checks.literal (Checks.str (codes "it's")) nil) nil)))
            nil))
        nil))

pub predicate_binds : bind 9 columns hint_of encode predicate ≡ some expression
unfolding bind bind_each value_comparison value_list literals are_typed check_literal wire_literal
    local_column named_column logical_of stores text_eq utf8 utf8_character
predicate_binds = refl

seven_fits : length (digits 7) ≤ max_digits
unfolding digits digits_before
seven_fits = omega arith

seven_only :
    (s : Bool) (n : ℕ)
    → int true 7 ≡ int s n
    → (length (digits n) ≤ max_digits) × (s ≡ false → n ≢ 0)
seven_only s n h =
    let e : 7 ≡ n = cc in
    subst (λ k. (length (digits k) ≤ max_digits) × (s ≡ false → k ≢ 0)) e (seven_fits, λ i. λ j. cc)

pub encode-IsEncoder : IsEncoder encode
encode-IsEncoder c (int s n) s' n' h = seven_only s' n' (cc)
encode-IsEncoder c (str t) s n h = cc
encode-IsEncoder c (bool x) s n h = cc
encode-IsEncoder c other_value s n h = cc
