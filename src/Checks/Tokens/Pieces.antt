-- ===== src/Checks/Tokens/Pieces.antt =====
-- The tokens of one piece of a text, in front of whatever follows.
use snekql.Prelude.{
  ℕ, ◌≡◌, ◌≢◌, refl, ap, ◌∙◌, ◌≤◌, Bool, true, false, ◌||◌, some, List, [], ◌∷◌, ◌++◌, ◌==◌, Text,
  codes, next_is, prefix_of, length, ok, arith, All, Bool-cases, ◌⊎◌, inl, inr,
}
use snekql.Checks.Coding.Numbers.{IsDigit}
use snekql.Checks.Render.{double}
use snekql.Checks.Tokens.{
  Token, token, literal, identifier, number, symbol, emits, add_character, read_quoted, quoted,
  is_digit, in_word, word_token, number_token, scan_token, scan, add_token, tokens, go_on,
}
use snekql.Checks.Tokens.Lexing.{lex, lex_step}

-- What may stand behind an operand: the end, a blank, a closing parenthesis or a comma
abbrev pub stops : Text → Bool
stops [] = true
stops (c ∷ t) = c == b' ' || c == b')' || c == b','

cons_character :
    (q c : ℕ) (u : Text)
    → (c == q) ≡ false
    → read_quoted q true (c ∷ u) ≡ add_character c (read_quoted q true u)
unfolding read_quoted
cons_character q c [] h = rw h refl
cons_character q c (d ∷ u) h = rw h refl

eq_self : (q : ℕ) → (q == q) ≡ true
eq_self q = ground arith

two_quotes :
    (q : ℕ) (u : Text) → read_quoted q true (q ∷ q ∷ u) ≡ add_character q (read_quoted q true u)
unfolding read_quoted
two_quotes q u = rw (eq_self q) refl

last_quote : (q : ℕ) (r : Text) → next_is q r ≡ false → read_quoted q true (q ∷ r) ≡ some ([], r)
unfolding read_quoted
last_quote q [] h = rw (eq_self q) refl
last_quote q (d ∷ r) h = rw (eq_self q, h) refl

-- A text with its quotes doubled, between two of them, is read as itself.
pub read_quoted-double :
    (q : ℕ) (t r : Text)
    → next_is q r ≡ false
    → read_quoted q true (double q t ++ q ∷ r) ≡ some (t, r)
unfolding double
read_quoted-double q [] r h = last_quote q r h
read_quoted-double q (c ∷ t) r h = elim (Bool-cases (c == q)) [
  | inl e ↦ rw e (
      two_quotes q (double q t ++ q ∷ r)
      ∙ ap (add_character q) (read_quoted-double q t r h)
      ∙ ap (λ x. some (x ∷ t, r)) (ground (arith, e)))
  | inr e ↦ rw e (
      cons_character q c (double q t ++ q ∷ r) e
      ∙ ap (add_character c) (read_quoted-double q t r h))
]

-- Where no quote occurs there is nothing to double.
pub double_same : (q : ℕ) (t : Text) → All (λ c. c ≢ q) t → double q t ≡ t
unfolding double
double_same q [] h = refl
double_same q (c ∷ t) h = ground (arith, h.0, double_same q t h.1)

prefix_stops :
    (test : ℕ → Bool) (r : Text)
    → (test b' ' ≡ false)
    → (test b')' ≡ false)
    → (test b',' ≡ false)
    → stops r ≡ true
    → prefix_of test r ≡ ([], r)
unfolding prefix_of
prefix_stops test [] h k l s = refl
prefix_stops test (c ∷ t) h k l s = go (Bool-cases (test c))
  where
    go : (test c ≡ true) ⊎ (test c ≡ false) → prefix_of test (c ∷ t) ≡ ([], c ∷ t)
    go (inr e) = rw e refl
    go (inl e) = absurd (ground (arith, e, h, k, l, s))

pub prefix_of-All :
    (test : ℕ → Bool) (s r : Text)
    → All (λ c. test c ≡ true) s
    → prefix_of test r ≡ ([], r)
    → prefix_of test (s ++ r) ≡ (s, r)
unfolding prefix_of
prefix_of-All test [] r h k = k
prefix_of-All test (c ∷ s) r h k = rw (h.0, prefix_of-All test s r h.1 k) refl

digits_test : (s : Text) → All IsDigit s → All (λ c. is_digit c ≡ true) s
digits_test [] h = tt
digits_test (c ∷ s) h = (ground (arith, h.0), digits_test s h.1)

module _ (beyond_alpha beyond_alnum : ℕ → Bool) where
  -- The text from here on gives these tokens.
  abbrev pub Gives : Text → List Token → Type 0
  Gives t ks = lex beyond_alpha beyond_alnum false t ≡ ok ks

  pub gives :
      (c : ℕ) (t : Text) (k : Token) (rest : Text) (ks : List Token)
      → scan beyond_alpha beyond_alnum false c t ≡ emits k rest
      → Gives rest ks
      → Gives (c ∷ t) (k ∷ ks)
  unfolding go_on
  gives c t k rest ks h g =
      lex_step beyond_alpha beyond_alnum false c t
      ∙ ap (go_on beyond_alpha beyond_alnum (lex beyond_alpha beyond_alnum false)) h
      ∙ ap (add_token beyond_alpha beyond_alnum k) g

  pub end_Gives : Gives [] []
  unfolding tokens
  end_Gives = refl

  pub blank_Gives : (t : Text) (ks : List Token) → Gives t ks → Gives (b' ' ∷ t) ks
  unfolding go_on scan
  blank_Gives t ks g = lex_step beyond_alpha beyond_alnum false b' ' t ∙ g

  -- Symbols
  pub open_Gives :
      (t : Text) (ks : List Token) → Gives t ks → Gives (b'(' ∷ t) (token symbol (codes "(") ∷ ks)
  unfolding scan scan_token
  open_Gives t ks g = gives b'(' t _ t ks refl g

  pub close_Gives :
      (t : Text) (ks : List Token) → Gives t ks → Gives (b')' ∷ t) (token symbol (codes ")") ∷ ks)
  unfolding scan scan_token
  close_Gives t ks g = gives b')' t _ t ks refl g

  pub comma_Gives :
      (t : Text) (ks : List Token) → Gives t ks → Gives (b',' ∷ t) (token symbol (codes ",") ∷ ks)
  unfolding scan scan_token
  comma_Gives t ks g = gives b',' t _ t ks refl g

  pub identifier_Gives :
      (name r : Text) (ks : List Token)
      → next_is b'"' r ≡ false
      → Gives r ks
      → Gives (b'"' ∷ (double b'"' name ++ b'"' ∷ r)) (token identifier name ∷ ks)
  unfolding scan scan_token quoted
  identifier_Gives name r ks h g =
      gives b'"' _ _ r ks (ap (quoted identifier) (read_quoted-double b'"' name r h)) g

  pub literal_Gives :
      (t r : Text) (ks : List Token)
      → next_is b'\'' r ≡ false
      → Gives r ks
      → Gives (b'\'' ∷ (double b'\'' t ++ b'\'' ∷ r)) (token literal t ∷ ks)
  unfolding scan scan_token quoted
  literal_Gives t r ks h g =
      gives b'\'' _ _ r ks (ap (quoted literal) (read_quoted-double b'\'' t r h)) g

  scan_digit :
      (c : ℕ) (t : Text)
      → IsDigit c
      → scan beyond_alpha beyond_alnum false c t
        ≡ number_token beyond_alpha beyond_alnum c (prefix_of is_digit t)
  unfolding scan scan_token
  scan_digit c t h = ground arith

  pub number_Gives :
      (ds r : Text) (ks : List Token)
      → All IsDigit ds
      → 1 ≤ length ds
      → stops r ≡ true
      → Gives r ks
      → Gives (ds ++ r) (token number ds ∷ ks)
  unfolding number_token
  number_Gives [] r ks h l s g = absurd (omega (arith, l))
  number_Gives (d ∷ ds) r ks h l s g =
      gives d (ds ++ r) _ r ks
        (scan_digit d (ds ++ r) h.0
          ∙ ap (number_token beyond_alpha beyond_alnum d) (
              prefix_of-All is_digit ds r (digits_test ds h.1)
                (prefix_stops is_digit r refl refl refl s)))
        g

  pub minus_Gives :
      (t : Text) (ks : List Token)
      → next_is b'-' t ≡ false
      → Gives t ks
      → Gives (b'-' ∷ t) (token symbol (codes "-") ∷ ks)
  unfolding scan scan_token
  minus_Gives t ks h g = gives b'-' t _ t ks (rw h refl) g

  -- A word, by what its first character starts and where it ends
  pub word_Gives :
      (c : ℕ) (s r : Text) (k : Token) (ks : List Token)
      → scan beyond_alpha beyond_alnum false c (s ++ r)
        ≡ word_token beyond_alpha beyond_alnum c
            (prefix_of (in_word beyond_alpha beyond_alnum) (s ++ r))
      → All (λ d. in_word beyond_alpha beyond_alnum d ≡ true) s
      → stops r ≡ true
      → word_token beyond_alpha beyond_alnum c (s, r) ≡ emits k r
      → Gives r ks
      → Gives (c ∷ (s ++ r)) (k ∷ ks)
  word_Gives c s r k ks h a p w g =
      gives c (s ++ r) k r ks
        (h
          ∙ ap (word_token beyond_alpha beyond_alnum c) (
              prefix_of-All (in_word beyond_alpha beyond_alnum) s r a
                (prefix_stops (in_word beyond_alpha beyond_alnum) r refl refl refl p))
          ∙ w)
        g
