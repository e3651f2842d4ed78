-- ===== src/Checks/Ends.antt =====
-- How `normalize_check` ends on an expression as the binder and the parser make it.
use snekql.Prelude.{ℕ, zero, suc, ◌+◌, ◌*◌, ◌≡◌, refl, ◌≤◌, some, arith}
use snekql.Checks.{
  Operator, Value, CheckExpression, node, Arguments, nil, cons, flatten, spread_and, spread_or,
  each, rewrite, normalize_check, negation, conjunction, disjunction,
}
use snekql.Checks.Meaning.{depth, depth_of, max}
use snekql.Checks.Lists.{le_max_left, le_max_right}
use snekql.Checks.Rewriting.{extra, need_le, max_mono}
use snekql.Checks.Built.{
  IsBuilt, AreBuilt, Returned, Returns, each-Returned, flatten-built, spread_and-built,
  spread_or-built,
}
use snekql.Checks.EndsOfNots.{rewrite_not-Returned, looser}

-- What follows once the arguments are normalized
rewrite-Returned :
    (n : ℕ) (op : Operator) (v : Value) (es : Arguments)
    → Returns n
    → IsBuilt (node op v es)
    → extra op + (depth_of es + depth_of es) ≤ suc n
    → Returned (suc (depth_of es)) (rewrite (normalize_check n) op v es)
unfolding rewrite
rewrite-Returned n negation v nil h b k = absurd b
rewrite-Returned n negation v (cons c rest) h b k =
    rewrite_not-Returned n v c rest h b.0 b.1
      (omega (arith, k, le_max_left (depth c) (depth_of rest)))
rewrite-Returned n conjunction v es h b k =
    let (c, l) = flatten-built (depth_of es) spread_and es spread_and-built b (omega arith) in
    record {
      result = node conjunction v (flatten spread_and es);
      returned = refl;
      built = c;
      shallow = omega (arith, l);
    }
rewrite-Returned n disjunction v es h b k =
    let (c, l) = flatten-built (depth_of es) spread_or es spread_or-built b (omega arith) in
    record {
      result = node disjunction v (flatten spread_or es);
      returned = refl;
      built = c;
      shallow = omega (arith, l);
    }
rewrite-Returned n _ v es h b k = record {
  result = node _ v es;
  returned = refl;
  built = b;
  shallow = omega arith;
}

normalized :
    (n : ℕ) (op : Operator) (v : Value) (es fs : Arguments)
    → Returns n
    → each (normalize_check n) es ≡ some fs
    → IsBuilt (node op v fs)
    → depth_of fs ≤ depth_of es
    → extra op + (depth_of es + depth_of es) ≤ suc n
    → Returned (suc (depth_of es)) (normalize_check (suc n) (node op v es))
unfolding normalize_check
normalized n op v es fs h e b l k = rw e (
    looser (suc (depth_of fs)) (suc (depth_of es)) _ (omega (arith, l))
      (rewrite-Returned n op v fs h b (omega (arith, k, l))))

negation-Returned :
    (n : ℕ) (v : Value) (c : CheckExpression) (rest : Arguments)
    → Returns n
    → IsBuilt c
    → AreBuilt rest
    → 2 + (max (depth c) (depth_of rest) + max (depth c) (depth_of rest)) ≤ suc n
    → Returned
        (suc (max (depth c) (depth_of rest)))
        (normalize_check (suc n) (node negation v (cons c rest)))
unfolding each
negation-Returned n v c rest h b r k =
    let first = h c b (omega (arith, k, need_le c, le_max_left (depth c) (depth_of rest))) in
    let others =
      each-Returned n rest h r (omega (arith, k, le_max_right (depth c) (depth_of rest))) in
    normalized n negation v (cons c rest) (cons first.result others.results) h
      (rw (first.returned, others.returned) refl) (first.built, others.built)
      (max_mono (depth c) (depth_of rest) (depth first.result) (depth_of others.results)
        first.shallow others.shallow)
      k

positive : (op : Operator) → 1 ≤ extra op
positive negation = omega arith
positive _ = omega arith

node-IsBuilt :
    (op : Operator) (v : Value) (es : Arguments)
    → (op ≡ negation → ⊥)
    → AreBuilt es
    → IsBuilt (node op v es)
node-IsBuilt negation v nil h b = absurd (h refl)
node-IsBuilt negation v (cons e es) h b = b
node-IsBuilt _ v es h b = b

other-Returned :
    (n : ℕ) (op : Operator) (v : Value) (es : Arguments)
    → Returns n
    → (op ≡ negation → ⊥)
    → AreBuilt es
    → extra op + (depth_of es + depth_of es) ≤ suc n
    → Returned (suc (depth_of es)) (normalize_check (suc n) (node op v es))
other-Returned n op v es h o b k =
    let them = each-Returned n es h b (omega (arith, k, positive op)) in
    normalized n op v es them.results h them.returned (node-IsBuilt op v them.results o them.built)
      them.shallow k

normalize_check-Returns : (n : ℕ) → Returns n
normalize_check-Returns zero (node op v es) b k = absurd (omega (arith, k, positive op))
normalize_check-Returns (suc n) (node negation v nil) b k = absurd b
normalize_check-Returns (suc n) (node negation v (cons c rest)) b k =
    negation-Returned n v c rest (normalize_check-Returns n) b.0 b.1 k
normalize_check-Returns (suc n) (node _ v es) b k =
    other-Returned n _ v es (normalize_check-Returns n) (λ e. cc) b k

-- With two units of fuel for each level, `normalize_check` has a result on every expression each
-- NOT of which has an argument.
pub normalize_check_returns :
    (n : ℕ) (e : CheckExpression)
    → IsBuilt e
    → 2 * depth e ≤ n
    → (f : CheckExpression) × (normalize_check n e ≡ some f)
normalize_check_returns n e b k =
    let r = normalize_check-Returns n e b (omega (arith, k, need_le e)) in (r.result, r.returned)
