-- ===== src/Checks/Coding/Bytes.antt =====
-- Decoding gives back what was encoded, and the hexadecimal form has no quote and no backslash.
use snekql.Prelude.{
  ℕ, zero, suc, ◌+◌, ◌-◌, ◌*◌, ◌/◌, ◌%◌, ◌≡◌, refl, ◌≤◌, ◌<◌, Bool, true, false, ◌&&◌, ◌||◌, Option,
  none, some, List, [], ◌∷◌, ◌++◌, leb, ltb, if◌then◌else◌, Text, length, arith, All, subst, ◌≢◌,
  length-append,
}
use snekql.Checks.Coding.{
  utf8_character, both, utf8, hex_digit, hex, hex_value, from_hex, next_character, decode,
  text_of_hex,
}

hex_value-hex_digit : (n : ℕ) → n < 16 → hex_value (hex_digit n) ≡ some n
unfolding hex_value
hex_value-hex_digit n h = ground arith

abbrev pub AreBytes : List ℕ → Type 0
AreBytes bs = All (λ b. b < 256) bs

byte-back :
    (b : ℕ) (t : Text) (bs : List ℕ)
    → b < 256
    → from_hex t ≡ some bs
    → from_hex (hex_digit (b / 16) ∷ hex_digit (b % 16) ∷ t) ≡ some (b ∷ bs)
unfolding from_hex
byte-back b t bs h k = ground (arith, hex_value-hex_digit (b / 16), hex_value-hex_digit (b % 16))

pub from_hex-hex : (bs : List ℕ) → AreBytes bs → from_hex (hex bs) ≡ some bs
unfolding from_hex hex
from_hex-hex [] h = refl
from_hex-hex (b ∷ bs) h = byte-back b (hex bs) bs h.0 (from_hex-hex bs h.1)

two_back :
    (c : ℕ) (rest : List ℕ)
    → 128 ≤ c
    → c < 2048
    → next_character (192 + c / 64) ((128 + c % 64) ∷ rest) ≡ some (c, rest)
unfolding next_character
two_back c rest h k = ground arith

-- The number that three bytes stand for
three_sum :
    (c : ℕ)
    → c < 65536
    → (224 + c / 4096 - 224) * 4096 + (128 + c / 64 % 64 - 128) * 64 + (128 + c % 64 - 128) ≡ c
three_sum c h = omega arith

three_back :
    (c : ℕ) (rest : List ℕ)
    → 2048 ≤ c
    → (ltb c 55296 || (leb 57344 c && ltb c 65536)) ≡ true
    → next_character (224 + c / 4096) ((128 + c / 64 % 64) ∷ (128 + c % 64) ∷ rest) ≡ some (c, rest)
unfolding next_character
three_back c rest h k = ground (arith, three_sum c)

four_sum :
    (c : ℕ)
    → c < 1114112
    → (240 + c / 262144 - 240) * 262144
        + (128 + c / 4096 % 64 - 128) * 4096
        + (128 + c / 64 % 64 - 128) * 64
        + (128 + c % 64 - 128)
      ≡ c
four_sum c h = omega arith

four_back :
    (c : ℕ) (rest : List ℕ)
    → 65536 ≤ c
    → c < 1114112
    → next_character
        (240 + c / 262144)
        ((128 + c / 4096 % 64) ∷ (128 + c / 64 % 64) ∷ (128 + c % 64) ∷ rest)
      ≡ some (c, rest)
unfolding next_character
four_back c rest h k = ground (arith, four_sum c)

-- What `utf8_character` gives starts with a byte from which the character is read.
abbrev Reads : ℕ → List ℕ → Option (List ℕ) → Type 0
Reads c rest none = Unit {0}
Reads c rest (some []) = ⊥
Reads c rest (some (a ∷ t)) = (next_character a (t ++ rest) ≡ some (c, rest)) × AreBytes (a ∷ t)

if-Reads :
    (b : Bool) (c : ℕ) (rest : List ℕ) (o p : Option (List ℕ))
    → (b ≡ true → Reads c rest o)
    → (b ≡ false → Reads c rest p)
    → Reads c rest (if b then o else p)
if-Reads true c rest o p h k = h refl
if-Reads false c rest o p h k = k refl

utf8_character-Reads : (c : ℕ) (rest : List ℕ) → Reads c rest (utf8_character c)
unfolding utf8_character next_character
utf8_character-Reads c rest =
    if-Reads (ltb c 128) c rest _ _ (λ e. (ground (arith, e), (ground (arith, e), tt)))
      (λ e₁.
        if-Reads (ltb c 2048) c rest _ _
          (λ e. (
            two_back c rest (ground (arith, e₁)) (ground (arith, e)),
            (ground (arith, e), (omega arith, tt)),
          ))
          (λ e₂.
            if-Reads (ltb c 55296 || (leb 57344 c && ltb c 65536)) c rest _ _
              (λ e. (
                three_back c rest (ground (arith, e₂)) e,
                (ground (arith, e), (omega arith, (omega arith, tt))),
              ))
              (λ e₃.
                if-Reads (leb 65536 c && ltb c 1114112) c rest _ _
                  (λ e. (
                    four_back c rest (ground (arith, e)) (ground (arith, e)),
                    (ground (arith, e), (omega arith, (omega arith, (omega arith, tt)))),
                  ))
                  (λ e. tt))))

AreBytes-append : (xs ys : List ℕ) → AreBytes xs → AreBytes ys → AreBytes (xs ++ ys)
AreBytes-append [] ys h k = k
AreBytes-append (x ∷ xs) ys h k = (h.0, AreBytes-append xs ys h.1 k)

-- What an encoded text decodes to
record Encodes (t : Text) (bs : List ℕ) : Type 0 where
  back : (fuel : ℕ) → length bs ≤ fuel → decode fuel bs ≡ some t
  small : AreBytes bs

first_decodes :
    (fuel a c : ℕ) (bs rest : List ℕ) (t : Text)
    → next_character a bs ≡ some (c, rest)
    → decode fuel rest ≡ some t
    → decode (suc fuel) (a ∷ bs) ≡ some (c ∷ t)
unfolding decode
first_decodes fuel a c bs rest t h k = rw (decode, h, k) refl

add_character :
    (c : ℕ) (t : Text) (o : Option (List ℕ)) (rest bs : List ℕ)
    → Reads c rest o
    → Encodes t rest
    → both o (some rest) ≡ some bs
    → Encodes (c ∷ t) bs
add_character c t none rest bs r e h = cc
add_character c t (some []) rest bs r e h = absurd r
add_character c t (some (a ∷ tail)) rest bs r e h =
    subst (Encodes (c ∷ t)) (some_injective h)
      (record { back = back; small = ((r.1).0, AreBytes-append tail rest (r.1).1 e.small) })
  where
    some_injective : {xs ys : List ℕ} → some xs ≡ some ys → xs ≡ ys
    some_injective k = cc

    back :
        (fuel : ℕ)
        → length (a ∷ (tail ++ rest)) ≤ fuel
        → decode fuel (a ∷ (tail ++ rest)) ≡ some (c ∷ t)
    back zero k = absurd (omega (arith, k))
    back (suc fuel) k =
        first_decodes fuel a c (tail ++ rest) rest t r.0
          (e.back fuel (omega (arith, k, length-append tail rest)))

split_both :
    (o p : Option (List ℕ)) (bs : List ℕ)
    → both o p ≡ some bs
    → (rest : List ℕ) × (p ≡ some rest) × (both o (some rest) ≡ some bs)
split_both none p bs h = cc
split_both (some x) none bs h = cc
split_both (some x) (some y) bs h = (y, refl, h)

utf8-Encodes : (t : Text) (bs : List ℕ) → utf8 t ≡ some bs → Encodes t bs
unfolding utf8 decode
utf8-Encodes [] bs h = subst (Encodes []) (same h) (record { back = λ f k. stop f; small = tt })
  where
    same : some [] ≡ some bs → [] ≡ bs
    same k = cc

    stop : (f : ℕ) → decode f [] ≡ some []
    stop zero = refl
    stop (suc f) = refl
utf8-Encodes (c ∷ t) bs h =
    let (rest, a, b) = split_both (utf8_character c) (utf8 t) bs h in
    add_character c t (utf8_character c) rest bs (utf8_character-Reads c rest)
      (utf8-Encodes t rest a) b

-- What is encoded, written in hexadecimal, read and decoded is the text again.
pub text_of_hex-hex : (t : Text) (bs : List ℕ) → utf8 t ≡ some bs → text_of_hex (hex bs) ≡ some t
unfolding text_of_hex
text_of_hex-hex t bs h =
    rw (text_of_hex, from_hex-hex bs (utf8-Encodes t bs h).small)
      ((utf8-Encodes t bs h).back (length bs) (omega arith))

-- Neither quote, backslash nor anything else that is not a hexadecimal digit
abbrev pub IsPlain : ℕ → Type 0
IsPlain c = (b'0' ≤ c) × (c ≤ b'f') × (c ≢ b'\\')

hex_digit-IsPlain : (n : ℕ) → n < 16 → IsPlain (hex_digit n)
hex_digit-IsPlain n h = ground arith

pub hex-IsPlain : (bs : List ℕ) → AreBytes bs → All IsPlain (hex bs)
unfolding hex
hex-IsPlain [] h = tt
hex-IsPlain (b ∷ bs) h = (
  hex_digit-IsPlain (b / 16) (omega (arith, h.0)),
  (hex_digit-IsPlain (b % 16) (omega arith), hex-IsPlain bs h.1),
)

pub encoded-IsPlain : (t : Text) (bs : List ℕ) → utf8 t ≡ some bs → All IsPlain (hex bs)
encoded-IsPlain t bs h = hex-IsPlain bs (utf8-Encodes t bs h).small
