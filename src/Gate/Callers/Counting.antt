-- ===== src/Gate/Callers/Counting.antt =====
-- How many callers hold a slot, and how many own or sleep on a ticket.
use snekql.Prelude.{
  ℕ, zero, suc, ◌+◌, ◌≤◌, ◌≡◌, refl, ap, ◌⊎◌, inl, inr, Bool, true, false, some, List, [], ◌∷◌, map,
  arith, get_elem?,
}
use snekql.Gate.Queue.{one_if_eq}
use snekql.Gate.Callers.{Caller, idle, holding, parked, woken, set, wake, notify}

abbrev pub total : (Caller → ℕ) → List Caller → ℕ
total f [] = 0
total f (c ∷ cs) = f c + total f cs

abbrev pub holds : Caller → ℕ
holds holding = 1
holds idle = 0
holds (parked t) = 0
holds (woken t) = 0

-- The caller owns ticket `u`, asleep or awake.
abbrev pub queues : ℕ → Caller → ℕ
queues u holding = 0
queues u idle = 0
queues u (parked t) = one_if_eq u t
queues u (woken t) = one_if_eq u t

abbrev pub sleeps : ℕ → Caller → ℕ
sleeps u (parked t) = one_if_eq u t
sleeps u holding = 0
sleeps u idle = 0
sleeps u (woken t) = 0

pub total-set :
    (f : Caller → ℕ) (cs : List Caller) (i : ℕ) (x y : Caller)
    → get_elem? cs i ≡ some x
    → total f (set cs i y) + f x ≡ total f cs + f y
unfolding set
total-set f [] i x y e = absurd (cc)
total-set f (c ∷ cs) zero x y e = ground arith
total-set f (c ∷ cs) (suc i) x y e = omega (arith, total-set f cs i x y e)

get_elem?-set :
    (cs : List Caller) (i : ℕ) (x y : Caller)
    → get_elem? cs i ≡ some x
    → get_elem? (set cs i y) i ≡ some y
unfolding set
get_elem?-set [] i x y e = absurd (cc)
get_elem?-set (c ∷ cs) zero x y e = refl
get_elem?-set (c ∷ cs) (suc i) x y e = get_elem?-set cs i x y e

get_elem?-notify :
    (b : Bool) (cs : List Caller) (i : ℕ) (x : Caller)
    → get_elem? cs i ≡ some x
    → (x' : Caller) × (get_elem? (notify b cs) i ≡ some x') × ((x' ≡ x) ⊎ (x' ≡ wake x))
unfolding notify
get_elem?-notify false cs i x e = (x, e, inl refl)
get_elem?-notify true [] i x e = absurd (cc)
get_elem?-notify true (c ∷ cs) zero x e = (wake c, refl, inr (cc))
get_elem?-notify true (c ∷ cs) (suc i) x e = get_elem?-notify true cs i x e

total-notify :
    (f : Caller → ℕ)
    → ((c : Caller) → f (wake c) ≡ f c)
    → (b : Bool) (cs : List Caller) → total f (notify b cs) ≡ total f cs
unfolding notify
total-notify f h false cs = refl
total-notify f h true [] = refl
total-notify f h true (c ∷ cs) = omega (arith, h c, total-notify f h true cs)

-- A count that waking does not change follows the one caller that has moved.
pub total-after :
    (f : Caller → ℕ)
    → ((c : Caller) → f (wake c) ≡ f c)
    → (b : Bool) (cs : List Caller) (i : ℕ) (x y : Caller) → get_elem? cs i ≡ some x
    → total f (set (notify b cs) i y) + f x ≡ total f cs + f y
total-after f h b cs i x y e = go (get_elem?-notify b cs i x e)
  where
    go :
        (x' : Caller) × (get_elem? (notify b cs) i ≡ some x') × ((x' ≡ x) ⊎ (x' ≡ wake x))
        → total f (set (notify b cs) i y) + f x ≡ total f cs + f y
    go (x', e', inl p) =
        omega (arith, total-set f (notify b cs) i x' y e', total-notify f h b cs, ap f p)
    go (x', e', inr p) =
        omega (arith, total-set f (notify b cs) i x' y e', total-notify f h b cs, ap f p, h x)

pub holds-wake : (c : Caller) → holds (wake c) ≡ holds c
unfolding wake
holds-wake idle = refl
holds-wake _ = refl

pub queues-wake : (u : ℕ) (c : Caller) → queues u (wake c) ≡ queues u c
unfolding wake
queues-wake u idle = refl
queues-wake u _ = refl

sleeps-wake : (u : ℕ) (c : Caller) → sleeps u (wake c) ≡ 0
unfolding wake
sleeps-wake u idle = refl
sleeps-wake u _ = refl

-- After `notify_all` nobody sleeps.
pub total-sleeps-notify :
    (u : ℕ) (cs : List Caller) (i : ℕ) (y : Caller)
    → sleeps u y ≡ 0
    → total (sleeps u) (set (notify true cs) i y) ≡ 0
unfolding notify set
total-sleeps-notify u [] i y h = refl
total-sleeps-notify u (c ∷ cs) zero y h = omega (arith, rest cs, h)
  where
    rest : (ds : List Caller) → total (sleeps u) (map wake ds) ≡ 0
    rest [] = refl
    rest (d ∷ ds) = omega (arith, sleeps-wake u d, rest ds)
total-sleeps-notify u (c ∷ cs) (suc i) y h =
    omega (arith, sleeps-wake u c, total-sleeps-notify u cs i y h)

pub total_ge :
    (f : Caller → ℕ) (cs : List Caller) (i : ℕ) (x : Caller)
    → get_elem? cs i ≡ some x
    → f x ≤ total f cs
total_ge f [] i x e = absurd (cc)
total_ge f (c ∷ cs) zero x e = ground arith
total_ge f (c ∷ cs) (suc i) x e = omega (arith, total_ge f cs i x e)

pub get_elem?-after :
    (b : Bool) (cs : List Caller) (i : ℕ) (x y : Caller)
    → get_elem? cs i ≡ some x
    → get_elem? (set (notify b cs) i y) i ≡ some y
get_elem?-after b cs i x y e = go (get_elem?-notify b cs i x e)
  where
    go :
        (x' : Caller) × (get_elem? (notify b cs) i ≡ some x') × ((x' ≡ x) ⊎ (x' ≡ wake x))
        → get_elem? (set (notify b cs) i y) i ≡ some y
    go (x', e', _) = get_elem?-set (notify b cs) i x' y e'
