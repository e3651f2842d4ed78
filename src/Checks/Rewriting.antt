-- ===== src/Checks/Rewriting.antt =====
-- One call of `normalize_check` on an AND, an OR or an operator over operands, given that calls with
-- less fuel behave.
use snekql.Prelude.{ℕ, zero, suc, ◌+◌, ◌≡◌, refl, ap, ◌∙◌, ◌≤◌, Option, some, arith}
use snekql.Checks.{
  Operator, Value, CheckExpression, node, Arguments, nil, cons, flatten, spread_and, spread_or,
  each, rewrite, normalize_check, column, literal, negation, conjunction, disjunction,
}
use snekql.Checks.Meaning.{
  Reading, meaning, all_of, some_of, and3, or3, AreOperands, IsPredicate, ArePredicates, IsNormal,
  AreNormal, depth, depth_of, max,
}
use snekql.Checks.Lists.{
  max_le, le_max_left, le_max_right, spread_and-Spreads, spread_or-Spreads, together-flatten,
  flatten-ArePredicates, flatten-AreNormal, depth_of-flatten,
}

abbrev pub extra : Operator → ℕ
extra negation = 2
extra _ = 1

-- Fuel that is enough
abbrev pub need : CheckExpression → ℕ
need (node op v es) = extra op + (depth_of es + depth_of es)

-- The code returned a normal predicate with the meaning of `e`, and no deeper.
pub record Normalized (d : Reading) (e : CheckExpression) (r : Option CheckExpression)
    : Type 0 where
  pub result : CheckExpression
  pub returned : r ≡ some result
  pub means : meaning d result ≡ meaning d e
  pub predicate : IsPredicate result
  pub normal : IsNormal result
  pub shallow : depth result ≤ depth e

record NormalizedAll (d : Reading) (es : Arguments) (r : Option Arguments) : Type 0 where
  results : Arguments
  returned : r ≡ some results
  all : all_of d results ≡ all_of d es
  any : some_of d results ≡ some_of d es
  predicates : ArePredicates results
  normal : AreNormal results
  shallow : depth_of results ≤ depth_of es

abbrev pub Normalizes : Reading → ℕ → Type 0
Normalizes d n =
    (e : CheckExpression) → IsPredicate e → need e ≤ n → Normalized d e (normalize_check n e)

pub need_le : (e : CheckExpression) → need e ≤ depth e + depth e
need_le (node op v es) = ground arith

pub max_mono : (a b a' b' : ℕ) → a' ≤ a → b' ≤ b → max a' b' ≤ max a b
max_mono a b a' b' h k =
    max_le a' b' (max a b) (omega (arith, h, le_max_left a b)) (omega (arith, k, le_max_right a b))

cons-Normalized :
    (d : Reading) (n : ℕ) (e : CheckExpression) (es : Arguments)
    → Normalized d e (normalize_check n e)
    → NormalizedAll d es (each (normalize_check n) es)
    → NormalizedAll d (cons e es) (each (normalize_check n) (cons e es))
unfolding each
cons-Normalized d n e es a them = record {
  results = cons a.result them.results;
  returned = rw (a.returned, them.returned) refl;
  all = ap (λ x. and3 x (all_of d them.results)) a.means ∙ ap (and3 (meaning d e)) them.all;
  any = ap (λ x. or3 x (some_of d them.results)) a.means ∙ ap (or3 (meaning d e)) them.any;
  predicates = (a.predicate, them.predicates);
  normal = (a.normal, them.normal);
  shallow =
      max_mono (depth e) (depth_of es) (depth a.result) (depth_of them.results) a.shallow
        them.shallow;
}

each-Normalized :
    (d : Reading) (n : ℕ) (h : Normalizes d n) (es : Arguments)
    → ArePredicates es
    → depth_of es + depth_of es ≤ n
    → NormalizedAll d es (each (normalize_check n) es)
unfolding each
each-Normalized d n h nil p k = record {
  results = nil;
  returned = refl;
  all = refl;
  any = refl;
  predicates = tt;
  normal = tt;
  shallow = omega arith;
}
each-Normalized d n h (cons e es) p k =
    cons-Normalized d n e es
      (h e p.0 (omega (arith, k, need_le e, le_max_left (depth e) (depth_of es))))
      (each-Normalized d n h es p.1 (omega (arith, k, le_max_right (depth e) (depth_of es))))

pub conjunction-Normalized :
    (d : Reading) (n : ℕ) (v : Value) (es : Arguments)
    → Normalizes d n
    → ArePredicates es
    → depth_of es + depth_of es ≤ n
    → Normalized d (node conjunction v es) (normalize_check (suc n) (node conjunction v es))
unfolding normalize_check rewrite
conjunction-Normalized d n v es h p k = record {
  result = node conjunction v (flatten spread_and them.results);
  returned = rw them.returned refl;
  means = together-flatten d (all_of d) spread_and (spread_and-Spreads d) them.results ∙ them.all;
  predicate =
      flatten-ArePredicates d (all_of d) spread_and (spread_and-Spreads d) them.results
        them.predicates;
  normal =
      flatten-AreNormal d (all_of d) spread_and (spread_and-Spreads d) them.results them.normal;
  shallow = omega (
    arith,
    depth_of-flatten d (all_of d) spread_and (spread_and-Spreads d) (depth_of es) them.results
        them.shallow,
  );
}
  where
    them : NormalizedAll d es (each (normalize_check n) es)
    them = each-Normalized d n h es p k

pub disjunction-Normalized :
    (d : Reading) (n : ℕ) (v : Value) (es : Arguments)
    → Normalizes d n
    → ArePredicates es
    → depth_of es + depth_of es ≤ n
    → Normalized d (node disjunction v es) (normalize_check (suc n) (node disjunction v es))
unfolding normalize_check rewrite
disjunction-Normalized d n v es h p k = record {
  result = node disjunction v (flatten spread_or them.results);
  returned = rw them.returned refl;
  means = together-flatten d (some_of d) spread_or (spread_or-Spreads d) them.results ∙ them.any;
  predicate =
      flatten-ArePredicates d (some_of d) spread_or (spread_or-Spreads d) them.results
        them.predicates;
  normal = flatten-AreNormal d (some_of d) spread_or (spread_or-Spreads d) them.results them.normal;
  shallow = omega (
    arith,
    depth_of-flatten d (some_of d) spread_or (spread_or-Spreads d) (depth_of es) them.results
        them.shallow,
  );
}
  where
    them : NormalizedAll d es (each (normalize_check n) es)
    them = each-Normalized d n h es p k

operands_stay :
    (n : ℕ) (es : Arguments)
    → AreOperands es
    → depth_of es ≤ n
    → each (normalize_check n) es ≡ some es
unfolding each normalize_check rewrite
operands_stay n nil p k = refl
operands_stay zero (cons e es) p k = ground (arith, le_max_left (depth e) (depth_of es))
operands_stay (suc n) (cons (node column v nil) es) p k =
    rw (operands_stay (suc n) es p.1 (omega (arith, k, le_max_right 1 (depth_of es)))) refl
operands_stay (suc n) (cons (node literal v nil) es) p k =
    rw (operands_stay (suc n) es p.1 (omega (arith, k, le_max_right 1 (depth_of es)))) refl
operands_stay (suc n) (cons (node _ v _) es) p k = absurd p.0

-- An operator that is neither a NOT, an AND nor an OR, over operands
pub operator-Normalized :
    (d : Reading) (n : ℕ) (op : Operator) (v : Value) (es : Arguments)
    → AreOperands es
    → depth_of es ≤ n
    → ((again : CheckExpression → Option CheckExpression)
        → rewrite again op v es ≡ some (node op v es))
    → IsPredicate (node op v es)
    → IsNormal (node op v es)
    → Normalized d (node op v es) (normalize_check (suc n) (node op v es))
unfolding normalize_check
operator-Normalized d n op v es p k stays q m = record {
  result = node op v es;
  returned = rw (operands_stay n es p k) (stays (normalize_check n));
  means = refl;
  predicate = q;
  normal = m;
  shallow = omega arith;
}
