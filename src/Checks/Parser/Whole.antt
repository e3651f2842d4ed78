-- ===== src/Checks/Parser/Whole.antt =====
-- The parser on whole predicates.
use snekql.Prelude.{
  ℕ, suc, ◌+◌, ◌-◌, ◌≡◌, refl, ◌∙◌, subst, ◌≤◌, true, false, some, List, [], ◌∷◌, Text, text_eq,
  codes, arith,
}
use snekql.Checks.Tokens.{Token}
use snekql.Checks.Render.Written.{
  Written, compares, lacks, has, among, not_among, ranges, denies, conjoins, disjoins, sym_token,
  keyword,
}
use snekql.Checks.Parser.{
  accept, null_test, negation_of, boolean, comparison, comparison_rest, compare_with, parse,
}
use snekql.Checks.{is_null, is_not_null, absent, CheckExpression, node, Arguments, nil, cons}
use snekql.Checks.Parser.Reads.{
  Closed, ends, closes, Leaf-IsOperand, length_of, operand_first, reads_operator, More-operands,
  reads_range, reads_list, both_levels, parenthesized, Closed-stays, joined_stays, reads_both,
}

abbrev mutual
  -- Fuel that is enough
  pub need : CheckExpression → ℕ
  need (node op v es) = 6 + need_all es

  pub need_all : Arguments → ℕ
  need_all nil = 0
  need_all (cons e es) = need e + need_all es

six_le_need : (e : CheckExpression) → 6 ≤ need e
six_le_need (node op v es) = omega arith

length_le_need : (es : Arguments) → length_of es ≤ need_all es
length_le_need nil = omega arith
length_le_need (cons e es) = omega (arith, six_le_need e, length_le_need es)

-- `boolean` with `n` units of fuel reads `e` in front of `rest`.
abbrev Reads : CheckExpression → List Token → List Token → ℕ → Type 0
Reads e ks rest n = boolean false n false ks ≡ some (e, rest)

at_fuel :
    (e : CheckExpression) (ks rest : List Token) (n : ℕ)
    → 6 ≤ n
    → Reads e ks rest (suc (suc (suc (suc (suc (suc (n - 6)))))))
    → Reads e ks rest n
at_fuel e ks rest n h r =
    let same : suc (suc (suc (suc (suc (suc (n - 6)))))) ≡ n = omega (arith, h) in
    subst (Reads e ks rest) same r

lacks_lem :
    (g : ℕ) (a : CheckExpression) (rest : List Token)
    → comparison_rest false
        (suc (suc (suc g)))
        a
        (keyword (codes "IS") ∷ keyword (codes "NULL") ∷ rest)
      ≡ some (node is_null absent (cons a nil), rest)
unfolding comparison_rest null_test accept text_eq
lacks_lem g a rest = refl

has_lem :
    (g : ℕ) (a : CheckExpression) (rest : List Token)
    → comparison_rest false
        (suc (suc (suc g)))
        a
        (keyword (codes "IS") ∷ keyword (codes "NOT") ∷ keyword (codes "NULL") ∷ rest)
      ≡ some (node is_not_null absent (cons a nil), rest)
unfolding comparison_rest null_test accept text_eq
has_lem g a rest = refl

-- An IN, plain or behind a NOT
list_behind :
    (g : ℕ) (a : CheckExpression) (ks : List Token)
    → comparison_rest false (suc (suc (suc g))) a (keyword (codes "IN") ∷ ks)
      ≡ compare_with false (suc (suc g)) false a (keyword (codes "IN") ∷ ks)
unfolding comparison_rest accept text_eq
list_behind g a ks = refl

list_behind_not :
    (g : ℕ) (a : CheckExpression) (ks : List Token)
    → comparison_rest false (suc (suc (suc g))) a (keyword (codes "NOT") ∷ ks)
      ≡ compare_with false (suc (suc g)) true a ks
unfolding comparison_rest accept text_eq
list_behind_not g a ks = refl

denied :
    (f : ℕ) (a : CheckExpression) (ks rest : List Token)
    → comparison false (suc f) ks ≡ some (a, rest)
    → comparison false (suc (suc f)) (keyword (codes "NOT") ∷ ks) ≡ some (negation_of a, rest)
unfolding comparison accept text_eq
denied f a ks rest h = rw (comparison, h) refl

Written-Reads :
    {e : CheckExpression} {t : Text → Text} {ks : List Token → List Token}
    → Written e t ks
    → (g : ℕ) (rest : List Token) → need e ≤ 6 + g
    → Closed rest
    → Reads e (ks rest) rest (suc (suc (suc (suc (suc (suc g))))))
Written-Reads (compares op w p la lb) g rest h c = both_levels (suc (suc (suc g))) _ _ rest c (
    operand_first _ _ _ _ _ (Leaf-IsOperand la (suc (suc g)) _)
      (reads_operator g _ _ _ rest p (Leaf-IsOperand lb g rest)))
Written-Reads (lacks la) g rest h c = both_levels (suc (suc (suc g))) _ _ rest c (
    operand_first _ _ _ _ _
      (Leaf-IsOperand la (suc (suc g)) (keyword (codes "IS") ∷ keyword (codes "NULL") ∷ rest))
      (lacks_lem g _ rest))
Written-Reads (has la) g rest h c =
    both_levels (suc (suc (suc g))) _ _ rest c
      (operand_first _ _ _ _ _ (Leaf-IsOperand la (suc (suc g)) _) (has_lem g _ rest))
Written-Reads (ranges la lb lc) g rest h c = both_levels (suc (suc (suc g))) _ _ rest c (
    operand_first _ _ _ _ _ (Leaf-IsOperand la (suc (suc g)) _)
      (reads_range g _ _ _ _ _ rest (Leaf-IsOperand lb g _) (Leaf-IsOperand lc g rest)))
Written-Reads (among {es} la lb m) g rest h c = both_levels (suc (suc (suc g))) _ _ rest c (
    operand_first _ _ _ _ _ (Leaf-IsOperand la (suc (suc g)) _) (
      list_behind g _ _
      ∙ reads_list g false _ _ _ _ _ rest (Leaf-IsOperand lb g _)
          (More-operands m g rest (omega (arith, h, length_le_need es)))))
Written-Reads (not_among {es} la lb m) g rest h c = both_levels (suc (suc (suc g))) _ _ rest c (
    operand_first _ _ _ _ _ (Leaf-IsOperand la (suc (suc g)) _) (
      list_behind_not g _ _
      ∙ reads_list g true _ _ _ _ _ rest (Leaf-IsOperand lb g _)
          (More-operands m g rest (omega (arith, h, length_le_need es)))))
Written-Reads (denies {a} w) g rest h c = both_levels (suc (suc (suc g))) _ _ rest c (
    denied (suc (suc g)) a _ rest (
      parenthesized g a _ rest
        (at_fuel a _ _ (suc g) (omega (arith, h, six_le_need a)) (
          Written-Reads w (suc g - 6) (sym_token (codes ")") ∷ rest) (omega (arith, h))
            (closes rest)))
        (Closed-stays g a rest c)))
Written-Reads (conjoins {a} {b} v w) g rest h c =
    reads_both (suc (suc g)) true a b _ _ rest c
      (parenthesized (suc g) a _ _
        (at_fuel a _ _ (suc (suc g)) (omega (arith, h, six_le_need a, six_le_need b))
          (Written-Reads v (suc (suc g) - 6) _ (omega (arith, h)) (closes _)))
        (joined_stays (suc g) true a _))
      (parenthesized g b _ rest
        (at_fuel b _ _ (suc g) (omega (arith, h, six_le_need a, six_le_need b))
          (Written-Reads w (suc g - 6) _ (omega (arith, h, six_le_need a)) (closes rest)))
        (Closed-stays g b rest c))
Written-Reads (disjoins {a} {b} v w) g rest h c =
    reads_both (suc (suc g)) false a b _ _ rest c
      (parenthesized (suc g) a _ _
        (at_fuel a _ _ (suc (suc g)) (omega (arith, h, six_le_need a, six_le_need b))
          (Written-Reads v (suc (suc g) - 6) _ (omega (arith, h)) (closes _)))
        (joined_stays (suc g) false a _))
      (parenthesized g b _ rest
        (at_fuel b _ _ (suc g) (omega (arith, h, six_le_need a, six_le_need b))
          (Written-Reads w (suc g - 6) _ (omega (arith, h, six_le_need a)) (closes rest)))
        (Closed-stays g b rest c))

-- The parser, with the fuel that the expression needs, reads its tokens back.
pub Written-parse :
    {e : CheckExpression} {t : Text → Text} {ks : List Token → List Token}
    → Written e t ks
    → (fuel : ℕ) → need e ≤ fuel
    → parse false fuel (ks []) ≡ some e
unfolding parse
Written-parse {e} {ks} w fuel h =
    rw
      (
        parse,
        at_fuel e (ks []) [] fuel (omega (arith, h, six_le_need e))
            (Written-Reads w (fuel - 6) [] (omega (arith, h)) ends),
      )
      refl
