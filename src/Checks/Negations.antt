-- ===== src/Checks/Negations.antt =====
-- Negation in three-valued logic: De Morgan's laws, and the complement of each comparison.
use snekql.Prelude.{◌≡◌, refl, Option, some, List, [], ◌∷◌, arith}
use snekql.Checks.{Operator, complement}
use snekql.Checks.Meaning.{
  Truth, holds, fails, unknown, Order, not3, and3, or3, related, Reading, atom, nullity, any_equal,
}

pub not3-not3 : (a : Truth) → not3 (not3 a) ≡ a
not3-not3 holds = refl
not3-not3 fails = refl
not3-not3 unknown = refl

pub and3-not3 : (a b : Truth) → and3 (not3 a) (not3 b) ≡ not3 (or3 a b)
and3-not3 holds b = refl
and3-not3 fails b = refl
and3-not3 unknown holds = refl
and3-not3 unknown fails = refl
and3-not3 unknown unknown = refl

pub or3-not3 : (a b : Truth) → or3 (not3 a) (not3 b) ≡ not3 (and3 a b)
or3-not3 holds b = refl
or3-not3 fails b = refl
or3-not3 unknown holds = refl
or3-not3 unknown fails = refl
or3-not3 unknown unknown = refl

pub and3_assoc : (a b c : Truth) → and3 (and3 a b) c ≡ and3 a (and3 b c)
and3_assoc holds b c = refl
and3_assoc fails b c = refl
and3_assoc unknown holds c = refl
and3_assoc unknown fails c = refl
and3_assoc unknown unknown holds = refl
and3_assoc unknown unknown fails = refl
and3_assoc unknown unknown unknown = refl

pub or3_assoc : (a b c : Truth) → or3 (or3 a b) c ≡ or3 a (or3 b c)
or3_assoc holds b c = refl
or3_assoc fails b c = refl
or3_assoc unknown fails c = refl
or3_assoc unknown holds c = refl
or3_assoc unknown unknown holds = refl
or3_assoc unknown unknown fails = refl
or3_assoc unknown unknown unknown = refl

-- The comparison under the complement is the negation, whatever the order is.
related-complement :
    (op op' : Operator) (o : Option Order)
    → complement op ≡ some op'
    → related op' o ≡ not3 (related op o)
unfolding complement
related-complement op op' o h = ground arith

-- The complement of an operator means its negation, on any operands.
pub atom-complement :
    (d : Reading) (op op' : Operator) (xs : List d.Datum)
    → complement op ≡ some op'
    → atom d op' xs ≡ not3 (atom d op xs)
unfolding complement
atom-complement d op op' [] h = ground arith
atom-complement d op op' (x ∷ []) h =
    ground (arith, not3-not3 (nullity d (d.null x)), not3-not3 (any_equal d x []))
atom-complement d op op' (x ∷ y ∷ []) h =
    ground (arith, not3-not3 (any_equal d x (y ∷ [])), related-complement op op' (d.order x y) h)
atom-complement d op op' (x ∷ y ∷ z ∷ zs) h = ground (arith, not3-not3 (any_equal d x (y ∷ z ∷ zs)))
