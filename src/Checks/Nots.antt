-- ===== src/Checks/Nots.antt =====
-- One call of `normalize_check` on a NOT.
use snekql.Prelude.{ℕ, suc, ◌+◌, ◌≡◌, refl, sym, ap, ◌∙◌, ◌≤◌, some, arith}
use snekql.Checks.{
  Operator, Value, absent, CheckExpression, node, Arguments, nil, cons, negate_each, each, rewrite,
  rewrite_not, replace_not, complement, first_argument, normalize_check, column, literal, negation,
  conjunction, disjunction, eq, ne, gt, gte, lt, lte, is_null, is_not_null, member, not_member,
  between,
}
use snekql.Checks.Meaning.{
  Reading, meaning, not3, data_of, AreOperands, IsPredicate, IsKept, IsNormal, depth, depth_of,
}
use snekql.Checks.Negations.{not3-not3, atom-complement}
use snekql.Checks.Lists.{
  max_le, le_max_left, negate_each-ArePredicates, all_of-negate_each, some_of-negate_each,
  depth_of-negate_each,
}
use snekql.Checks.Rewriting.{need_le, max_mono, Normalized, Normalizes}

kept-IsNormal : (e : CheckExpression) → IsPredicate e → IsKept e → IsNormal e
kept-IsNormal (node column v es) p k = tt
kept-IsNormal (node literal v es) p k = tt
kept-IsNormal (node between v es) p k = tt
kept-IsNormal (node _ v es) p k = absurd k

complemented :
    (d : Reading) (n : ℕ) (op op' : Operator) (v w : Value) (es : Arguments)
    → meaning d (node op' absent es) ≡ not3 (meaning d (node op w es))
    → AreOperands es
    → IsPredicate (node op' absent es)
    → IsNormal (node op' absent es)
    → rewrite_not (normalize_check n) v (node op w es) nil ≡ some (node op' absent es)
    → Normalized d
        (node negation v (cons (node op w es) nil))
        (rewrite_not (normalize_check n) v (node op w es) nil)
complemented d n op op' v w es m p q k r = record {
  result = node op' absent es;
  returned = r;
  means = m;
  predicate = q;
  normal = k;
  shallow = omega arith;
}

kept_not :
    (d : Reading) (n : ℕ) (v : Value) (c : CheckExpression)
    → IsPredicate c
    → IsKept c
    → rewrite_not (normalize_check n) v c nil ≡ some (node negation v (cons c nil))
    → Normalized d (node negation v (cons c nil)) (rewrite_not (normalize_check n) v c nil)
kept_not d n v c p k r = record {
  result = node negation v (cons c nil);
  returned = r;
  means = refl;
  predicate = p;
  normal = k;
  shallow = omega arith;
}

-- A NOT around a normal predicate
rewrite_not-Normalized :
    (d : Reading) (n : ℕ) (v : Value) (c : CheckExpression)
    → Normalizes d n
    → IsPredicate c
    → IsNormal c
    → suc (depth c + depth c) ≤ n
    → Normalized d (node negation v (cons c nil)) (rewrite_not (normalize_check n) v c nil)
unfolding rewrite_not replace_not complement first_argument
rewrite_not-Normalized d n v (node conjunction w es) h p m k = record {
  result = a.result;
  returned = a.returned;
  means = a.means ∙ some_of-negate_each d es;
  predicate = a.predicate;
  normal = a.normal;
  shallow = omega (arith, a.shallow, depth_of-negate_each (depth_of es) es (omega arith));
}
  where
    a :
        Normalized d
          (node disjunction absent (negate_each es))
          (normalize_check n (node disjunction absent (negate_each es)))
    a =
        h (node disjunction absent (negate_each es)) (negate_each-ArePredicates es p)
          (omega (arith, k, depth_of-negate_each (depth_of es) es (omega arith)))
rewrite_not-Normalized d n v (node disjunction w es) h p m k = record {
  result = a.result;
  returned = a.returned;
  means = a.means ∙ all_of-negate_each d es;
  predicate = a.predicate;
  normal = a.normal;
  shallow = omega (arith, a.shallow, depth_of-negate_each (depth_of es) es (omega arith));
}
  where
    a :
        Normalized d
          (node conjunction absent (negate_each es))
          (normalize_check n (node conjunction absent (negate_each es)))
    a =
        h (node conjunction absent (negate_each es)) (negate_each-ArePredicates es p)
          (omega (arith, k, depth_of-negate_each (depth_of es) es (omega arith)))
rewrite_not-Normalized d n v (node negation w (cons x nil)) h p m k = record {
  result = x;
  returned = refl;
  means = sym (not3-not3 (meaning d x));
  predicate = p;
  normal = kept-IsNormal x p m;
  shallow =
      omega
        (arith, le_max_left (depth x) 0, max_le (depth x) 0 (depth x) (omega arith) (omega arith));
}
rewrite_not-Normalized d n v (node negation w nil) h p m k = absurd p
rewrite_not-Normalized d n v (node negation w (cons x (cons y ys))) h p m k = absurd p
rewrite_not-Normalized d n v (node column w es) h p m k =
    kept_not d n v (node column w es) p tt refl
rewrite_not-Normalized d n v (node literal w es) h p m k =
    kept_not d n v (node literal w es) p tt refl
rewrite_not-Normalized d n v (node between w es) h p m k =
    kept_not d n v (node between w es) p tt refl
rewrite_not-Normalized d n v (node eq w es) h p m k =
    complemented d n eq ne v w es (atom-complement d eq ne (data_of d es) refl) p p tt refl
rewrite_not-Normalized d n v (node ne w es) h p m k =
    complemented d n ne eq v w es (atom-complement d ne eq (data_of d es) refl) p p tt refl
rewrite_not-Normalized d n v (node gt w es) h p m k =
    complemented d n gt lte v w es (atom-complement d gt lte (data_of d es) refl) p p tt refl
rewrite_not-Normalized d n v (node gte w es) h p m k =
    complemented d n gte lt v w es (atom-complement d gte lt (data_of d es) refl) p p tt refl
rewrite_not-Normalized d n v (node lt w es) h p m k =
    complemented d n lt gte v w es (atom-complement d lt gte (data_of d es) refl) p p tt refl
rewrite_not-Normalized d n v (node lte w es) h p m k =
    complemented d n lte gt v w es (atom-complement d lte gt (data_of d es) refl) p p tt refl
rewrite_not-Normalized d n v (node is_null w es) h p m k =
    complemented d n is_null is_not_null v w es
      (atom-complement d is_null is_not_null (data_of d es) refl) p p tt refl
rewrite_not-Normalized d n v (node is_not_null w es) h p m k =
    complemented d n is_not_null is_null v w es
      (atom-complement d is_not_null is_null (data_of d es) refl) p p tt refl
rewrite_not-Normalized d n v (node member w es) h p m k =
    complemented d n member not_member v w es
      (atom-complement d member not_member (data_of d es) refl) p p tt refl
rewrite_not-Normalized d n v (node not_member w es) h p m k =
    complemented d n not_member member v w es
      (atom-complement d not_member member (data_of d es) refl) p p tt refl

pub negation-Normalized :
    (d : Reading) (n : ℕ) (v : Value) (c : CheckExpression)
    → Normalizes d n
    → IsPredicate c
    → suc (depth c + depth c) ≤ n
    → Normalized d
        (node negation v (cons c nil))
        (normalize_check (suc n) (node negation v (cons c nil)))
unfolding normalize_check rewrite each
negation-Normalized d n v c h p k = record {
  result = b.result;
  returned = rw a.returned b.returned;
  means = b.means ∙ ap not3 a.means;
  predicate = b.predicate;
  normal = b.normal;
  shallow =
      omega (arith, b.shallow, max_mono (depth c) 0 (depth a.result) 0 a.shallow (omega arith));
}
  where
    a : Normalized d c (normalize_check n c)
    a = h c p (omega (arith, k, need_le c))

    b :
        Normalized d
          (node negation v (cons a.result nil))
          (rewrite_not (normalize_check n) v a.result nil)
    b = rewrite_not-Normalized d n v a.result h a.predicate a.normal (omega (arith, k, a.shallow))
