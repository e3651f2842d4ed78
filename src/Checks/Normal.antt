-- ===== src/Checks/Normal.antt =====
-- The normal form of a CHECK: `normalize_check` ends, and keeps what the predicate means.
use snekql.Prelude.{ℕ, zero, suc, ◌+◌, ◌*◌, refl, ◌≤◌, arith}
use snekql.Checks.{
  Operator, CheckExpression, node, nil, cons, rewrite, normalize_check, column, literal, negation,
  conjunction, disjunction, eq, ne, gt, gte, lt, lte, is_null, is_not_null, member, not_member,
  between,
}
use snekql.Checks.Meaning.{Reading, IsPredicate, depth, depth_of}
use snekql.Checks.Lists.{le_max_left}
use snekql.Checks.Rewriting.{
  extra, need_le, Normalized, Normalizes, conjunction-Normalized, disjunction-Normalized,
  operator-Normalized,
}
use snekql.Checks.Nots.{negation-Normalized}

no_fuel : (op : Operator) (k : ℕ) → ¬ (extra op + (k + k) ≤ 0)
no_fuel negation k h = omega (arith, h)
no_fuel _ k h = omega (arith, h)

-- Whatever the fuel, where it is enough.
normalize_check-Normalizes : (d : Reading) (n : ℕ) → Normalizes d n
unfolding rewrite
normalize_check-Normalizes d zero (node op v es) p k = absurd (no_fuel op (depth_of es) k)
normalize_check-Normalizes d (suc n) (node negation v nil) p k = absurd p
normalize_check-Normalizes d (suc n) (node negation v (cons c nil)) p k =
    negation-Normalized d n v c (normalize_check-Normalizes d n) p
      (omega (arith, k, le_max_left (depth c) 0))
normalize_check-Normalizes d (suc n) (node negation v (cons c (cons e es))) p k = absurd p
normalize_check-Normalizes d (suc n) (node conjunction v es) p k =
    conjunction-Normalized d n v es (normalize_check-Normalizes d n) p (omega (arith, k))
normalize_check-Normalizes d (suc n) (node disjunction v es) p k =
    disjunction-Normalized d n v es (normalize_check-Normalizes d n) p (omega (arith, k))
normalize_check-Normalizes d (suc n) (node column v nil) p k =
    operator-Normalized d n column v nil tt (omega arith) (λ again. refl) tt tt
normalize_check-Normalizes d (suc n) (node column v (cons e es)) p k = absurd p
normalize_check-Normalizes d (suc n) (node literal v nil) p k =
    operator-Normalized d n literal v nil tt (omega arith) (λ again. refl) tt tt
normalize_check-Normalizes d (suc n) (node literal v (cons e es)) p k = absurd p
normalize_check-Normalizes d (suc n) (node eq v es) p k =
    operator-Normalized d n eq v es p (omega (arith, k)) (λ again. refl) p tt
normalize_check-Normalizes d (suc n) (node ne v es) p k =
    operator-Normalized d n ne v es p (omega (arith, k)) (λ again. refl) p tt
normalize_check-Normalizes d (suc n) (node gt v es) p k =
    operator-Normalized d n gt v es p (omega (arith, k)) (λ again. refl) p tt
normalize_check-Normalizes d (suc n) (node gte v es) p k =
    operator-Normalized d n gte v es p (omega (arith, k)) (λ again. refl) p tt
normalize_check-Normalizes d (suc n) (node lt v es) p k =
    operator-Normalized d n lt v es p (omega (arith, k)) (λ again. refl) p tt
normalize_check-Normalizes d (suc n) (node lte v es) p k =
    operator-Normalized d n lte v es p (omega (arith, k)) (λ again. refl) p tt
normalize_check-Normalizes d (suc n) (node is_null v es) p k =
    operator-Normalized d n is_null v es p (omega (arith, k)) (λ again. refl) p tt
normalize_check-Normalizes d (suc n) (node is_not_null v es) p k =
    operator-Normalized d n is_not_null v es p (omega (arith, k)) (λ again. refl) p tt
normalize_check-Normalizes d (suc n) (node member v es) p k =
    operator-Normalized d n member v es p (omega (arith, k)) (λ again. refl) p tt
normalize_check-Normalizes d (suc n) (node not_member v es) p k =
    operator-Normalized d n not_member v es p (omega (arith, k)) (λ again. refl) p tt
normalize_check-Normalizes d (suc n) (node between v es) p k =
    operator-Normalized d n between v es p (omega (arith, k)) (λ again. refl) p tt

-- `normalize_check` on a predicate, with two units of fuel for each level of it, returns: a predicate
-- that is no deeper, has a NOT only around a column, a literal or a BETWEEN, and has the same
-- three-valued meaning however the database reads columns, literals and comparisons.
pub normalize_check-Normalized :
    (d : Reading) (n : ℕ) (e : CheckExpression)
    → IsPredicate e
    → 2 * depth e ≤ n
    → Normalized d e (normalize_check n e)
normalize_check-Normalized d n e p k =
    normalize_check-Normalizes d n e p (omega (arith, k, need_le e))
