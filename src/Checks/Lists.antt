-- ===== src/Checks/Lists.antt =====
-- The lists of arguments that the normal form builds: negated and flattened ones.
use snekql.Prelude.{ℕ, zero, suc, ◌≡◌, refl, sym, ap, ◌∙◌, ◌≤◌, arith}
use snekql.Checks.{
  absent, CheckExpression, node, Arguments, nil, cons, append, negate_each, flatten, spread_and,
  spread_or, negation, conjunction, disjunction,
}
use snekql.Checks.Meaning.{
  Truth, holds, fails, Reading, meaning, all_of, some_of, not3, and3, or3, IsPredicate,
  ArePredicates, IsNormal, AreNormal, depth, depth_of, max,
}
use snekql.Checks.Negations.{and3-not3, or3-not3, and3_assoc, or3_assoc}

pub max_le : (a b c : ℕ) → a ≤ c → b ≤ c → max a b ≤ c
max_le zero b c h k = k
max_le (suc a) zero c h k = h
max_le (suc a) (suc b) zero h k = omega (arith, h)
max_le (suc a) (suc b) (suc c) h k =
    omega (arith, max_le a b c (omega (arith, h)) (omega (arith, k)))

pub le_max_left : (a b : ℕ) → a ≤ max a b
le_max_left zero b = omega arith
le_max_left (suc a) zero = omega arith
le_max_left (suc a) (suc b) = omega (arith, le_max_left a b)

pub le_max_right : (a b : ℕ) → b ≤ max a b
le_max_right zero b = omega arith
le_max_right (suc a) zero = omega arith
le_max_right (suc a) (suc b) = omega (arith, le_max_right a b)

pub negate_each-ArePredicates : (es : Arguments) → ArePredicates es → ArePredicates (negate_each es)
unfolding negate_each
negate_each-ArePredicates nil p = tt
negate_each-ArePredicates (cons e es) p = (p.0, negate_each-ArePredicates es p.1)

pub all_of-negate_each :
    (d : Reading) (es : Arguments) → all_of d (negate_each es) ≡ not3 (some_of d es)
unfolding negate_each
all_of-negate_each d nil = refl
all_of-negate_each d (cons e es) =
    ap (and3 (not3 (meaning d e))) (all_of-negate_each d es)
    ∙ and3-not3 (meaning d e) (some_of d es)

pub some_of-negate_each :
    (d : Reading) (es : Arguments) → some_of d (negate_each es) ≡ not3 (all_of d es)
unfolding negate_each
some_of-negate_each d nil = refl
some_of-negate_each d (cons e es) =
    ap (or3 (not3 (meaning d e))) (some_of-negate_each d es) ∙ or3-not3 (meaning d e) (all_of d es)

pub depth_of-negate_each :
    (k : ℕ) (es : Arguments) → depth_of es ≤ k → depth_of (negate_each es) ≤ suc k
unfolding negate_each
depth_of-negate_each k nil h = omega arith
depth_of-negate_each k (cons e es) h =
    max_le (depth (node negation absent (cons e nil))) (depth_of (negate_each es)) (suc k)
      (omega (
        arith,
        h,
        le_max_left (depth e) (depth_of es),
        max_le (depth e) 0 k (omega (arith, h, le_max_left (depth e) (depth_of es))) (omega arith),
      ))
      (depth_of-negate_each k es (omega (arith, h, le_max_right (depth e) (depth_of es))))

append-ArePredicates :
    (es fs : Arguments) → ArePredicates es → ArePredicates fs → ArePredicates (append es fs)
unfolding append
append-ArePredicates nil fs p q = q
append-ArePredicates (cons e es) fs p q = (p.0, append-ArePredicates es fs p.1 q)

append-AreNormal : (es fs : Arguments) → AreNormal es → AreNormal fs → AreNormal (append es fs)
unfolding append
append-AreNormal nil fs p q = q
append-AreNormal (cons e es) fs p q = (p.0, append-AreNormal es fs p.1 q)

all_of-append :
    (d : Reading) (es fs : Arguments) → all_of d (append es fs) ≡ and3 (all_of d es) (all_of d fs)
unfolding append
all_of-append d nil fs = refl
all_of-append d (cons e es) fs =
    ap (and3 (meaning d e)) (all_of-append d es fs)
    ∙ sym (and3_assoc (meaning d e) (all_of d es) (all_of d fs))

some_of-append :
    (d : Reading) (es fs : Arguments) → some_of d (append es fs) ≡ or3 (some_of d es) (some_of d fs)
unfolding append
some_of-append d nil fs = refl
some_of-append d (cons e es) fs =
    ap (or3 (meaning d e)) (some_of-append d es fs)
    ∙ sym (or3_assoc (meaning d e) (some_of d es) (some_of d fs))

depth_of-append :
    (k : ℕ) (es fs : Arguments) → depth_of es ≤ k → depth_of fs ≤ k → depth_of (append es fs) ≤ k
unfolding append
depth_of-append k nil fs p q = q
depth_of-append k (cons e es) fs p q =
    max_le (depth e) (depth_of (append es fs)) k
      (omega (arith, p, le_max_left (depth e) (depth_of es)))
      (depth_of-append k es fs (omega (arith, p, le_max_right (depth e) (depth_of es))) q)

-- A way to spread one member among others, which `op` joins, keeps what they mean together.
pub record Spreads (d : Reading) (together : Arguments → Truth)
    (spread : CheckExpression → Arguments) : Type 0 where
  pub op : Truth → Truth → Truth
  pub joins : (es fs : Arguments) → together (append es fs) ≡ op (together es) (together fs)
  pub means : (e : CheckExpression) → together (spread e) ≡ together (cons e nil)
  pub predicates : (e : CheckExpression) → IsPredicate e → ArePredicates (spread e)
  pub normal : (e : CheckExpression) → IsNormal e → AreNormal (spread e)
  pub shallow : (e : CheckExpression) (k : ℕ) → depth e ≤ k → depth_of (spread e) ≤ k

and3_unit : (a : Truth) → and3 a holds ≡ a
and3_unit a = ground arith

or3_unit : (a : Truth) → or3 a fails ≡ a
or3_unit a = ground arith

spread_and_means :
    (d : Reading) (e : CheckExpression) → all_of d (spread_and e) ≡ all_of d (cons e nil)
unfolding spread_and
spread_and_means d (node conjunction v es) = sym (and3_unit (all_of d es))
spread_and_means d (node _ v es) = refl

spread_and-ArePredicates : (e : CheckExpression) → IsPredicate e → ArePredicates (spread_and e)
unfolding spread_and
spread_and-ArePredicates (node conjunction v es) p = p
spread_and-ArePredicates (node _ v es) p = (p, tt)

spread_and-AreNormal : (e : CheckExpression) → IsNormal e → AreNormal (spread_and e)
unfolding spread_and
spread_and-AreNormal (node conjunction v es) p = p
spread_and-AreNormal (node _ v es) p = (p, tt)

depth_of-spread_and : (e : CheckExpression) (k : ℕ) → depth e ≤ k → depth_of (spread_and e) ≤ k
unfolding spread_and
depth_of-spread_and (node conjunction v es) k h = omega (arith, h)
depth_of-spread_and (node _ v es) k h = max_le (suc (depth_of es)) 0 k h (omega arith)

pub spread_and-Spreads : (d : Reading) → Spreads d (all_of d) spread_and
spread_and-Spreads d = record {
  op = and3;
  joins = all_of-append d;
  means = spread_and_means d;
  predicates = spread_and-ArePredicates;
  normal = spread_and-AreNormal;
  shallow = depth_of-spread_and;
}

spread_or_means :
    (d : Reading) (e : CheckExpression) → some_of d (spread_or e) ≡ some_of d (cons e nil)
unfolding spread_or
spread_or_means d (node disjunction v es) = sym (or3_unit (some_of d es))
spread_or_means d (node _ v es) = refl

spread_or-ArePredicates : (e : CheckExpression) → IsPredicate e → ArePredicates (spread_or e)
unfolding spread_or
spread_or-ArePredicates (node disjunction v es) p = p
spread_or-ArePredicates (node _ v es) p = (p, tt)

spread_or-AreNormal : (e : CheckExpression) → IsNormal e → AreNormal (spread_or e)
unfolding spread_or
spread_or-AreNormal (node disjunction v es) p = p
spread_or-AreNormal (node _ v es) p = (p, tt)

depth_of-spread_or : (e : CheckExpression) (k : ℕ) → depth e ≤ k → depth_of (spread_or e) ≤ k
unfolding spread_or
depth_of-spread_or (node disjunction v es) k h = omega (arith, h)
depth_of-spread_or (node _ v es) k h = max_le (suc (depth_of es)) 0 k h (omega arith)

pub spread_or-Spreads : (d : Reading) → Spreads d (some_of d) spread_or
spread_or-Spreads d = record {
  op = or3;
  joins = some_of-append d;
  means = spread_or_means d;
  predicates = spread_or-ArePredicates;
  normal = spread_or-AreNormal;
  shallow = depth_of-spread_or;
}

module _ (d : Reading) (together : Arguments → Truth) (spread : CheckExpression → Arguments)
    (s : Spreads d together spread) where
  pub together-flatten : (es : Arguments) → together (flatten spread es) ≡ together es
  unfolding flatten append
  together-flatten nil = refl
  together-flatten (cons e es) =
      s.joins (spread e) (flatten spread es)
      ∙ ap (λ a. s.op a (together (flatten spread es))) (s.means e)
      ∙ ap (s.op (together (cons e nil))) (together-flatten es)
      ∙ sym (s.joins (cons e nil) es)

  pub flatten-ArePredicates :
      (es : Arguments) → ArePredicates es → ArePredicates (flatten spread es)
  unfolding flatten
  flatten-ArePredicates nil p = tt
  flatten-ArePredicates (cons e es) p =
      append-ArePredicates (spread e) (flatten spread es) (s.predicates e p.0)
        (flatten-ArePredicates es p.1)

  pub flatten-AreNormal : (es : Arguments) → AreNormal es → AreNormal (flatten spread es)
  unfolding flatten
  flatten-AreNormal nil p = tt
  flatten-AreNormal (cons e es) p =
      append-AreNormal (spread e) (flatten spread es) (s.normal e p.0) (flatten-AreNormal es p.1)

  pub depth_of-flatten :
      (k : ℕ) (es : Arguments) → depth_of es ≤ k → depth_of (flatten spread es) ≤ k
  unfolding flatten
  depth_of-flatten k nil h = h
  depth_of-flatten k (cons e es) h =
      depth_of-append k (spread e) (flatten spread es)
        (s.shallow e k (omega (arith, h, le_max_left (depth e) (depth_of es))))
        (depth_of-flatten k es (omega (arith, h, le_max_right (depth e) (depth_of es))))
