-- ===== src/Checks/Built.antt =====
-- Expressions as the binder and the parser make them, and what `normalize_check` does with a list.
use snekql.Prelude.{ℕ, ◌+◌, ◌≡◌, refl, ◌≤◌, Option, some, arith}
use snekql.Checks.{
  Operator, Value, CheckExpression, node, Arguments, nil, cons, append, flatten, spread_and,
  spread_or, negate_each, each, normalize_check, negation, conjunction, disjunction,
}
use snekql.Checks.Meaning.{depth, depth_of, max}
use snekql.Checks.Lists.{max_le, le_max_left, le_max_right}
use snekql.Checks.Rewriting.{need, need_le, max_mono}

-- Each NOT has an argument, as the binder and the parser make them.
abbrev mutual
  pub IsBuilt : CheckExpression → Type 0
  IsBuilt (node negation v nil) = ⊥
  IsBuilt (node op v es) = AreBuilt es

  pub AreBuilt : Arguments → Type 0
  AreBuilt nil = Unit {0}
  AreBuilt (cons e es) = IsBuilt e × AreBuilt es

-- A result that is built and no deeper than a bound
pub record Returned (k : ℕ) (r : Option CheckExpression) : Type 0 where
  pub result : CheckExpression
  pub returned : r ≡ some result
  pub built : IsBuilt result
  pub shallow : depth result ≤ k

pub record ReturnedAll (k : ℕ) (r : Option Arguments) : Type 0 where
  pub results : Arguments
  pub returned : r ≡ some results
  pub built : AreBuilt results
  pub shallow : depth_of results ≤ k

abbrev pub Returns : ℕ → Type 0
Returns n =
    (e : CheckExpression) → IsBuilt e → need e ≤ n → Returned (depth e) (normalize_check n e)

arguments_built :
    (op : Operator) (v : Value) (es : Arguments) → IsBuilt (node op v es) → AreBuilt es
arguments_built negation v nil h = absurd h
arguments_built negation v (cons e es) h = h
arguments_built _ v es h = h

cons-Returned :
    (n : ℕ) (e : CheckExpression) (es : Arguments)
    → Returned (depth e) (normalize_check n e)
    → ReturnedAll (depth_of es) (each (normalize_check n) es)
    → ReturnedAll (max (depth e) (depth_of es)) (each (normalize_check n) (cons e es))
unfolding each
cons-Returned n e es first others = record {
  results = cons first.result others.results;
  returned = rw (first.returned, others.returned) refl;
  built = (first.built, others.built);
  shallow =
      max_mono (depth e) (depth_of es) (depth first.result) (depth_of others.results) first.shallow
        others.shallow;
}

pub each-Returned :
    (n : ℕ) (es : Arguments)
    → Returns n
    → AreBuilt es
    → depth_of es + depth_of es ≤ n
    → ReturnedAll (depth_of es) (each (normalize_check n) es)
unfolding each
each-Returned n nil h b k = record {
  results = nil;
  returned = refl;
  built = tt;
  shallow = omega arith;
}
each-Returned n (cons e es) h b k =
    cons-Returned n e es
      (h e b.0 (omega (arith, k, need_le e, le_max_left (depth e) (depth_of es))))
      (each-Returned n es h b.1 (omega (arith, k, le_max_right (depth e) (depth_of es))))

append-built :
    (k : ℕ) (es fs : Arguments)
    → AreBuilt es
    → AreBuilt fs
    → depth_of es ≤ k
    → depth_of fs ≤ k
    → AreBuilt (append es fs) × (depth_of (append es fs) ≤ k)
unfolding append
append-built k nil fs b c l m = (c, m)
append-built k (cons e es) fs b c l m =
    let (d, n) =
      append-built k es fs b.1 c (omega (arith, l, le_max_right (depth e) (depth_of es))) m in
    (
      (b.0, d),
      max_le (depth e) (depth_of (append es fs)) k
          (omega (arith, l, le_max_left (depth e) (depth_of es))) n,
    )

-- What is spread comes from the expression or is it.
abbrev Spreads : (CheckExpression → Arguments) → Type 0
Spreads spread =
    (e : CheckExpression) → IsBuilt e → AreBuilt (spread e) × (depth_of (spread e) ≤ depth e)

single_le : (e : CheckExpression) → max (depth e) 0 ≤ depth e
single_le e = max_le (depth e) 0 (depth e) (omega arith) (omega arith)

pub spread_and-built : Spreads spread_and
unfolding spread_and
spread_and-built (node conjunction v es) b = (b, omega arith)
spread_and-built (node _ v es) b = ((b, tt), omega arith)

pub spread_or-built : Spreads spread_or
unfolding spread_or
spread_or-built (node disjunction v es) b = (b, omega arith)
spread_or-built (node _ v es) b = ((b, tt), omega arith)

pub flatten-built :
    (k : ℕ) (spread : CheckExpression → Arguments) (es : Arguments)
    → Spreads spread
    → AreBuilt es
    → depth_of es ≤ k
    → AreBuilt (flatten spread es) × (depth_of (flatten spread es) ≤ k)
unfolding flatten
flatten-built k spread nil s b l = (tt, l)
flatten-built k spread (cons e es) s b l =
    let (c, m) = s e b.0 in
    let (d, n) =
      flatten-built k spread es s b.1 (omega (arith, l, le_max_right (depth e) (depth_of es))) in
    append-built k (spread e) (flatten spread es) c d
      (omega (arith, m, l, le_max_left (depth e) (depth_of es))) n

pub negate_each-built : (es : Arguments) → AreBuilt es → AreBuilt (negate_each es)
unfolding negate_each
negate_each-built nil b = tt
negate_each-built (cons e es) b = ((b.0, tt), negate_each-built es b.1)
