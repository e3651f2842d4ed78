-- ===== src/Checks/EndsOfNots.antt =====
-- How `normalize_check` ends on a NOT.
use snekql.Prelude.{ℕ, suc, ◌+◌, refl, ◌≤◌, Option, some, arith}
use snekql.Checks.{
  Operator, Value, absent, CheckExpression, node, Arguments, nil, cons, negate_each, rewrite_not,
  replace_not, complement, first_argument, normalize_check, column, literal, negation, conjunction,
  disjunction, eq, ne, gt, gte, lt, lte, is_null, is_not_null, member, not_member, between,
}
use snekql.Checks.Meaning.{depth, depth_of, max}
use snekql.Checks.Lists.{le_max_left, depth_of-negate_each}
use snekql.Checks.Built.{IsBuilt, AreBuilt, Returned, Returns, negate_each-built}

kept :
    (v : Value) (c : CheckExpression) (rest : Arguments)
    → IsBuilt c
    → AreBuilt rest
    → Returned (suc (max (depth c) (depth_of rest))) (some (node negation v (cons c rest)))
kept v c rest b r = record {
  result = node negation v (cons c rest);
  returned = refl;
  built = (b, r);
  shallow = omega arith;
}

swapped :
    (op : Operator) (es rest : Arguments)
    → IsBuilt (node op absent es)
    → Returned (suc (max (suc (depth_of es)) (depth_of rest))) (some (node op absent es))
swapped op es rest b = record {
  result = node op absent es;
  returned = refl;
  built = b;
  shallow = omega (arith, le_max_left (suc (depth_of es)) (depth_of rest));
}

-- The argument of an inner NOT
uncovered :
    (x : CheckExpression) (xs rest : Arguments)
    → IsBuilt x
    → Returned (suc (max (suc (max (depth x) (depth_of xs))) (depth_of rest))) (some x)
uncovered x xs rest b = record {
  result = x;
  returned = refl;
  built = b;
  shallow = omega (
    arith,
    le_max_left (depth x) (depth_of xs),
    le_max_left (suc (max (depth x) (depth_of xs))) (depth_of rest),
  );
}

pub looser : (k l : ℕ) (r : Option CheckExpression) → k ≤ l → Returned k r → Returned l r
looser k l r h a = record {
  result = a.result;
  returned = a.returned;
  built = a.built;
  shallow = omega (arith, h, a.shallow);
}

-- A NOT over an AND or an OR is normalized again, as an OR or an AND of NOTs.
module _ (n : ℕ) (h : Returns n) (es rest : Arguments) (b : AreBuilt es)
    (k : suc (suc (depth_of es) + suc (depth_of es)) ≤ n) where
  negated_le : depth_of (negate_each es) ≤ suc (depth_of es)
  negated_le = depth_of-negate_each (depth_of es) es (omega arith)

  not_and :
      Returned
        (suc (max (suc (depth_of es)) (depth_of rest)))
        (normalize_check n (node disjunction absent (negate_each es)))
  not_and =
      looser _ _ _ (omega (arith, negated_le, le_max_left (suc (depth_of es)) (depth_of rest))) (
        h (node disjunction absent (negate_each es)) (negate_each-built es b)
          (omega (arith, k, negated_le)))

  not_or :
      Returned
        (suc (max (suc (depth_of es)) (depth_of rest)))
        (normalize_check n (node conjunction absent (negate_each es)))
  not_or =
      looser _ _ _ (omega (arith, negated_le, le_max_left (suc (depth_of es)) (depth_of rest))) (
        h (node conjunction absent (negate_each es)) (negate_each-built es b)
          (omega (arith, k, negated_le)))

-- A NOT around a built expression
pub rewrite_not-Returned :
    (n : ℕ) (v : Value) (c : CheckExpression) (rest : Arguments)
    → Returns n
    → IsBuilt c
    → AreBuilt rest
    → suc (depth c + depth c) ≤ n
    → Returned (suc (max (depth c) (depth_of rest))) (rewrite_not (normalize_check n) v c rest)
unfolding rewrite_not complement replace_not first_argument
rewrite_not-Returned n v (node conjunction w es) rest h b r k = not_and n h es rest b k
rewrite_not-Returned n v (node disjunction w es) rest h b r k = not_or n h es rest b k
rewrite_not-Returned n v (node negation w nil) rest h b r k = absurd b
rewrite_not-Returned n v (node negation w (cons x xs)) rest h b r k = uncovered x xs rest b.0
rewrite_not-Returned n v (node column w es) rest h b r k = kept v (node column w es) rest b r
rewrite_not-Returned n v (node literal w es) rest h b r k = kept v (node literal w es) rest b r
rewrite_not-Returned n v (node between w es) rest h b r k = kept v (node between w es) rest b r
rewrite_not-Returned n v (node eq w es) rest h b r k = swapped ne es rest b
rewrite_not-Returned n v (node ne w es) rest h b r k = swapped eq es rest b
rewrite_not-Returned n v (node gt w es) rest h b r k = swapped lte es rest b
rewrite_not-Returned n v (node lte w es) rest h b r k = swapped gt es rest b
rewrite_not-Returned n v (node gte w es) rest h b r k = swapped lt es rest b
rewrite_not-Returned n v (node lt w es) rest h b r k = swapped gte es rest b
rewrite_not-Returned n v (node is_null w es) rest h b r k = swapped is_not_null es rest b
rewrite_not-Returned n v (node is_not_null w es) rest h b r k = swapped is_null es rest b
rewrite_not-Returned n v (node member w es) rest h b r k = swapped not_member es rest b
rewrite_not-Returned n v (node not_member w es) rest h b r k = swapped member es rest b
