-- ===== src/Checks/Coding/Numbers.antt =====
-- `int` reads back what `str` prints.
use snekql.Prelude.{
  ℕ, zero, suc, ◌+◌, ◌/◌, ◌%◌, ◌≡◌, refl, ap, ◌∙◌, ◌≤◌, Bool, true, false, some, [], ◌∷◌, ◌==◌,
  if◌then◌else◌, Bool-cases, inl, inr, Text, length, arith, All,
}
use snekql.Checks.Coding.{digits_before, digits, value_from, value_of, max_digits}

-- Reading on after the digits of `n` gives what reading on from `n` gives.
digits_before-reads :
    (fuel n : ℕ) (acc : Text)
    → n ≤ fuel
    → value_from 0 (digits_before fuel n acc) ≡ value_from n acc
unfolding digits_before value_from
digits_before-reads zero n acc h = ground (arith, h)
digits_before-reads (suc fuel) n acc h = elim (Bool-cases (n == 0)) [
  | inl e ↦ rw e (ap (λ k. value_from k acc) (ground (arith, e)))
  | inr e ↦ rw e (
      digits_before-reads fuel (n / 10) ((b'0' + n % 10) ∷ acc) (ground (arith, e, h))
      ∙ ap (λ k. value_from k acc) (omega arith))
]

pub value_from-digits : (n : ℕ) → value_from 0 (digits n) ≡ n
unfolding digits value_from
value_from-digits zero = refl
value_from-digits (suc n) = digits_before-reads (suc n) (suc n) [] (omega arith)

abbrev pub IsDigit : ℕ → Type 0
IsDigit c = (b'0' ≤ c) × (c ≤ b'9')

digits_before-digits :
    (fuel n : ℕ) (acc : Text) → All IsDigit acc → All IsDigit (digits_before fuel n acc)
unfolding digits_before
digits_before-digits zero n acc h = h
digits_before-digits (suc fuel) n acc h =
    elim (n == 0)
      as (λ b.
        All IsDigit (if b then acc else digits_before fuel (n / 10) ((b'0' + n % 10) ∷ acc))) [
          | true ↦ h
          | false ↦
              digits_before-digits fuel (n / 10) ((b'0' + n % 10) ∷ acc)
                ((omega arith, omega arith), h)
        ]

pub digits-digits : (n : ℕ) → All IsDigit (digits n)
unfolding digits
digits-digits zero = ((omega arith, omega arith), tt)
digits-digits (suc n) = digits_before-digits (suc n) (suc n) [] tt

longer : (fuel n : ℕ) (acc : Text) → 1 ≤ length acc → 1 ≤ length (digits_before fuel n acc)
unfolding digits_before
longer zero n acc h = h
longer (suc fuel) n acc h = ground (arith, longer fuel (n / 10) ((b'0' + n % 10) ∷ acc))

pub digits_some : (n : ℕ) → 1 ≤ length (digits n)
unfolding digits digits_before
digits_some zero = omega arith
digits_some (suc n) = ground (arith, longer n (suc n / 10) ((b'0' + suc n % 10) ∷ []))

pub value_of-digits : (n : ℕ) → length (digits n) ≤ max_digits → value_of (digits n) ≡ some n
unfolding value_of
value_of-digits n h = ground (arith, value_from-digits n)

-- A bit is printed with one digit.
pub digits-bit_short : (b : Bool) → length (digits (if b then 1 else 0)) ≡ 1
unfolding digits
digits-bit_short true = refl
digits-bit_short false = refl
