-- ===== src/Checks/Coding.antt =====
-- The parts of Python's text handling that the CHECK catalog uses: `str(int)` and `int(str)`, UTF-8
-- and the hexadecimal form of bytes.
pub mod Numbers
pub mod Bytes
use snekql.Prelude.{
  ℕ, zero, suc, ◌+◌, ◌-◌, ◌*◌, ◌/◌, ◌%◌, Bool, true, false, not, ◌&&◌, ◌||◌, Option, none, some,
  List, [], ◌∷◌, ◌++◌, leb, ltb, ◌==◌, if◌then◌else◌, Text, length,
}

-- The digits of a positive number before `acc`; the number itself is fuel enough.
unfoldable pub digits_before : ℕ → ℕ → Text → Text
digits_before zero n acc = acc
digits_before (suc fuel) n acc =
    let more = digits_before fuel (n / 10) ((b'0' + n % 10) ∷ acc) in if n == 0 then acc else more

unfoldable pub digits : ℕ → Text
unfolding digits_before
digits zero = b'0' ∷ []
digits (suc n) = digits_before (suc n) (suc n) []

pub value_from : ℕ → Text → ℕ
value_from acc [] = acc
value_from acc (c ∷ t) = value_from (acc * 10 + (c - b'0')) t

-- Python converts no more digits at once than this, in either direction.
abbrev pub max_digits : ℕ
max_digits = 4300

-- `int` of a text of digits
pub value_of : Text → Option ℕ
unfolding value_from
value_of t = if ltb max_digits (length t) then none else some (value_from 0 t)

unfoldable pub utf8_character : ℕ → Option (List ℕ)
utf8_character c =
    if ltb c 128
    then some (c ∷ [])
    else if ltb c 2048
    then some ((192 + c / 64) ∷ (128 + c % 64) ∷ [])
    else if ltb c 55296 || (leb 57344 c && ltb c 65536)
    then some ((224 + c / 4096) ∷ (128 + c / 64 % 64) ∷ (128 + c % 64) ∷ [])
    else if leb 65536 c && ltb c 1114112
    then some
        ((240 + c / 262144) ∷ (128 + c / 4096 % 64) ∷ (128 + c / 64 % 64) ∷ (128 + c % 64) ∷ [])
    else none

abbrev pub both : Option Text → Option Text → Option Text
both (some s) (some t) = some (s ++ t)
both _ _ = none

-- `encode("utf-8")`; a surrogate raises.
unfoldable pub utf8 : Text → Option (List ℕ)
unfolding utf8_character
utf8 [] = some []
utf8 (c ∷ t) = both (utf8_character c) (utf8 t)

abbrev pub hex_digit : ℕ → ℕ
hex_digit n = if ltb n 10 then b'0' + n else b'a' + (n - 10)

-- `hex()` of bytes
pub hex : List ℕ → Text
hex [] = []
hex (b ∷ bs) = hex_digit (b / 16) ∷ hex_digit (b % 16) ∷ hex bs

pub hex_value : ℕ → Option ℕ
hex_value c =
    if leb b'0' c && leb c b'9'
    then some (c - b'0')
    else if leb b'a' c && leb c b'f'
    then some (c - b'a' + 10)
    else if leb b'A' c && leb c b'F'
    then some (c - b'A' + 10)
    else none

abbrev pub is_blank : ℕ → Bool
is_blank c = c == b' ' || (leb 9 c && leb c 13)

abbrev pub add_byte : Option ℕ → Option ℕ → Option (List ℕ) → Option (List ℕ)
add_byte (some h) (some l) (some bs) = some ((h * 16 + l) ∷ bs)
add_byte _ _ _ = none

-- `bytes.fromhex`, which passes over blanks between two bytes
pub from_hex : Text → Option (List ℕ)
unfolding hex_value
from_hex [] = some []
from_hex (c ∷ []) = if is_blank c then some [] else none
from_hex (c ∷ d ∷ t) =
    let after_one = from_hex (d ∷ t) in
    let after_two = from_hex t in
    if is_blank c then after_one else add_byte (hex_value c) (hex_value d) after_two

abbrev is_trail : ℕ → Bool
is_trail b = leb 128 b && ltb b 192

pub next_two : ℕ → List ℕ → Option (ℕ × List ℕ)
next_two a (b ∷ t) = if is_trail b then some ((a - 192) * 64 + (b - 128), t) else none
next_two a [] = none

pub next_three : ℕ → List ℕ → Option (ℕ × List ℕ)
next_three a (b ∷ c ∷ t) =
    let n = (a - 224) * 4096 + (b - 128) * 64 + (c - 128) in
    if is_trail b && is_trail c && leb 2048 n && (ltb n 55296 || leb 57344 n)
    then some (n, t)
    else none
next_three a _ = none

pub next_four : ℕ → List ℕ → Option (ℕ × List ℕ)
next_four a (b ∷ c ∷ d ∷ t) =
    let n = (a - 240) * 262144 + (b - 128) * 4096 + (c - 128) * 64 + (d - 128) in
    if is_trail b && is_trail c && is_trail d && leb 65536 n && ltb n 1114112
    then some (n, t)
    else none
next_four a _ = none

-- The first character of bytes in UTF-8
pub next_character : ℕ → List ℕ → Option (ℕ × List ℕ)
unfolding next_two next_three next_four
next_character a t =
    if ltb a 128
    then some (a, t)
    else if leb 194 a && ltb a 224
    then next_two a t
    else if leb 224 a && ltb a 240
    then next_three a t
    else if leb 240 a && ltb a 245
    then next_four a t
    else none

-- `decode("utf-8")`, with a unit of fuel for each character
pub decode : ℕ → List ℕ → Option Text
unfolding next_character
decode fuel [] = some []
decode zero (a ∷ t) = none
decode (suc fuel) (a ∷ t) = elim (next_character a t) [
  | none ↦ none
  | some (c, rest) ↦ elim (decode fuel rest) [ none ↦ none | some cs ↦ some (c ∷ cs) ]
]

-- `bytes.fromhex(t).decode("utf-8")`
pub text_of_hex : Text → Option Text
unfolding from_hex decode
text_of_hex t = elim (from_hex t) [ none ↦ none | some bs ↦ decode (length bs) bs ]
