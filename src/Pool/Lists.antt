-- ===== src/Pool/Lists.antt =====
-- How often a connection stands in a list.
use snekql.Prelude.{
  ℕ, ◌+◌, ◌≡◌, refl, ◌≤◌, true, Option, none, some, List, [], ◌∷◌, ◌++◌, ◌==◌, if◌then◌else◌,
  length, arith,
}
use snekql.Pool.{is_in, take_out, keep_first, pop}

abbrev pub count : ℕ → List ℕ → ℕ
count c [] = 0
count c (x ∷ xs) = (if x == c then 1 else 0) + count c xs

pub count-append : (c : ℕ) (xs ys : List ℕ) → count c (xs ++ ys) ≡ count c xs + count c ys
count-append c [] ys = omega arith
count-append c (x ∷ xs) ys = omega (arith, count-append c xs ys)

pub count-is_in : (c : ℕ) (xs : List ℕ) → is_in c xs ≡ true → 1 ≤ count c xs
unfolding is_in
count-is_in c [] h = cc
count-is_in c (x ∷ xs) h = ground (arith, count-is_in c xs)

pub count-take_out :
    (x c : ℕ) (xs : List ℕ)
    → 1 ≤ count c xs
    → count x (take_out c xs) + count x (c ∷ []) ≡ count x xs
unfolding take_out
count-take_out x c [] h = omega (arith, h)
count-take_out x c (y ∷ ys) h = ground (arith, count-take_out x c ys)

pub length-take_out :
    (c : ℕ) (xs : List ℕ) → 1 ≤ count c xs → length (take_out c xs) + 1 ≡ length xs
unfolding take_out
length-take_out c [] h = omega (arith, h)
length-take_out c (y ∷ ys) h = ground (arith, length-take_out c ys)

pub take_out_first : (c : ℕ) (xs : List ℕ) → take_out c (c ∷ xs) ≡ xs
unfolding take_out
take_out_first c xs = ground arith

-- What `pop` leaves and gives
pub record Pops (xs ys : List ℕ) (c : ℕ) : Type 0 where
  pub counts : (x : ℕ) → count x ys + count x (c ∷ []) ≡ count x xs
  pub shorter : length ys + 1 ≡ length xs

keep_first-Pops :
    (x c : ℕ) (xs ys : List ℕ) (r : Option (List ℕ × ℕ))
    → (r ≡ none → xs ≡ [])
    → ((zs : List ℕ) (y : ℕ) → r ≡ some (zs, y) → Pops xs zs y)
    → keep_first x r ≡ some (ys, c)
    → Pops (x ∷ xs) ys c
unfolding keep_first
keep_first-Pops x c xs ys none e h k = record {
  counts = λ z. ground (arith, e refl);
  shorter = ground (arith, e refl);
}
keep_first-Pops x c xs ys (some (zs, y)) e h k = record {
  counts = λ z. ground (arith, (h zs y refl).counts z);
  shorter = ground (arith, (h zs y refl).shorter);
}

keep_first_some : (x : ℕ) (r : Option (List ℕ × ℕ)) → keep_first x r ≡ none → ⊥
unfolding keep_first
keep_first_some x none h = cc
keep_first_some x (some (ys, c)) h = cc

pub popped_nothing : (xs : List ℕ) → pop xs ≡ none → xs ≡ []
unfolding pop
popped_nothing [] h = refl
popped_nothing (x ∷ xs) h = absurd (keep_first_some x (pop xs) h)

pub pop-Pops : (xs ys : List ℕ) (c : ℕ) → pop xs ≡ some (ys, c) → Pops xs ys c
unfolding pop
pop-Pops [] ys c h = cc
pop-Pops (x ∷ xs) ys c h =
    keep_first-Pops x c xs ys (pop xs) (popped_nothing xs) (λ zs y k. pop-Pops xs zs y k) h
