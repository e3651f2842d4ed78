-- ===== src/Gate/Queue.antt =====
-- The ticket queue: its order, and how often a ticket stands in it.
use snekql.Prelude.{
  ℕ, suc, ◌+◌, ◌-◌, ◌≤◌, ◌<◌, ◌≡◌, refl, true, false, List, [], ◌∷◌, ◌++◌, arith, ◌==◌,
  if◌then◌else◌,
}
use snekql.Gate.{remove, at_front, is_empty}

-- 1 where the two tickets are one, else 0
abbrev pub one_if_eq : ℕ → ℕ → ℕ
one_if_eq a b = if a == b then 1 else 0

abbrev pub count : ℕ → List ℕ → ℕ
count t [] = 0
count t (w ∷ ws) = one_if_eq t w + count t ws

-- Strictly rising tickets, from `lo` on and below `hi`.
abbrev pub Ascends : ℕ → List ℕ → ℕ → Type 0
Ascends lo [] hi = lo ≤ hi
Ascends lo (w ∷ ws) hi = (lo ≤ w) × Ascends (suc w) ws hi

pub Ascends-le : (lo : ℕ) (ws : List ℕ) (hi : ℕ) → Ascends lo ws hi → lo ≤ hi
Ascends-le lo [] hi a = a
Ascends-le lo (w ∷ ws) hi a = omega (arith, Ascends-le (suc w) ws hi a.1)

pub Ascends-weaken : (k lo : ℕ) (ws : List ℕ) (hi : ℕ) → k ≤ lo → Ascends lo ws hi → Ascends k ws hi
Ascends-weaken k lo [] hi h a = omega arith
Ascends-weaken k lo (w ∷ ws) hi h a = (omega arith, a.1)

pub Ascends-append :
    (lo : ℕ) (ws : List ℕ) (hi : ℕ) → Ascends lo ws hi → Ascends lo (ws ++ hi ∷ []) (suc hi)
Ascends-append lo [] hi a = (a, omega arith)
Ascends-append lo (w ∷ ws) hi a = (a.0, Ascends-append (suc w) ws hi a.1)

pub Ascends-remove :
    (t lo : ℕ) (ws : List ℕ) (hi : ℕ) → Ascends lo ws hi → Ascends lo (remove t ws) hi
unfolding remove
Ascends-remove t lo [] hi a = a
Ascends-remove t lo (w ∷ ws) hi a =
    ground
      (arith, Ascends-remove t (suc w) ws hi a.1, Ascends-weaken lo (suc w) ws hi (omega arith) a.1)

-- A ticket outside the range is not in the queue.
pub count_below : (t lo : ℕ) (ws : List ℕ) (hi : ℕ) → Ascends lo ws hi → t < lo → count t ws ≡ 0
count_below t lo [] hi a h = refl
count_below t lo (w ∷ ws) hi a h = ground (arith, count_below t (suc w) ws hi a.1)

pub count_above : (t lo : ℕ) (ws : List ℕ) (hi : ℕ) → Ascends lo ws hi → hi ≤ t → count t ws ≡ 0
count_above t lo [] hi a h = refl
count_above t lo (w ∷ ws) hi a h =
    ground (arith, count_above t (suc w) ws hi a.1, Ascends-le (suc w) ws hi a.1)

pub count_le_one : (t lo : ℕ) (ws : List ℕ) (hi : ℕ) → Ascends lo ws hi → count t ws ≤ 1
count_le_one t lo [] hi a = omega arith
count_le_one t lo (w ∷ ws) hi a =
    ground (arith, count_le_one t (suc w) ws hi a.1, count_below t (suc w) ws hi a.1)

pub count-append : (t : ℕ) (ws vs : List ℕ) → count t (ws ++ vs) ≡ count t ws + count t vs
count-append t [] vs = omega arith
count-append t (w ∷ ws) vs = omega (arith, count-append t ws vs)

pub count-remove : (u t : ℕ) (ws : List ℕ) → count u (remove t ws) ≡ count u ws - one_if_eq u t
unfolding remove
count-remove u t [] = ground arith
count-remove u t (w ∷ ws) = ground (arith, count-remove u t ws)

-- The front of a queue that was not empty stays the front, and is not the new ticket.
pub front-append :
    (t k : ℕ) (ws : List ℕ) (hi : ℕ)
    → Ascends k ws hi
    → is_empty ws ≡ false
    → at_front t (ws ++ hi ∷ []) ≡ true
    → (at_front t ws ≡ true) × (one_if_eq t hi ≡ 0)
unfolding at_front is_empty
front-append t k [] hi a h f = absurd (cc)
front-append t k (w ∷ ws) hi a h f = (f, ground (arith, Ascends-le (suc w) ws hi a.1))

pub front_cons : (t : ℕ) (ws : List ℕ) → at_front t ws ≡ true → (vs : List ℕ) × (ws ≡ t ∷ vs)
unfolding at_front
front_cons t [] h = absurd (cc)
front_cons t (w ∷ ws) h = (ws, ground arith)

pub empty_nil : (ws : List ℕ) → is_empty ws ≡ true → ws ≡ []
unfolding is_empty
empty_nil [] h = refl
empty_nil (w ∷ ws) h = absurd (cc)
