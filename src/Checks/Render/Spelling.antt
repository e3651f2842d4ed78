-- ===== src/Checks/Render/Spelling.antt =====
-- The tokenizer reads the text of each predicate as its tokens.
use snekql.Prelude.{
  ℕ, ◌≡◌, ◌≢◌, refl, subst, ◌≤◌, Bool, true, false, List, [], ◌∷◌, ◌++◌, ◌==◌, Text, codes, next_is,
  length, arith, All,
}
use snekql.Checks.Coding.{hex, digits}
use snekql.Checks.Coding.Numbers.{IsDigit, digits-digits, digits_some}
use snekql.Checks.Coding.Bytes.{IsPlain, encoded-IsPlain}
use snekql.Checks.Tokens.{Token, token, word, literal, symbol}
use snekql.Checks.Tokens.Pieces.{
  stops, double_same, Gives, blank_Gives, open_Gives, close_Gives, comma_Gives, identifier_Gives,
  literal_Gives, number_Gives, minus_Gives,
}
use snekql.Checks.Tokens.Phrases.{
  cast_Gives, as_text_Gives, is_null_Gives, is_not_null_Gives, in_Gives, not_in_Gives,
  between_Gives, and_Gives, not_Gives, and_between_Gives, or_between_Gives, Spelled-Gives,
}
use snekql.Checks.Render.Written.{
  Leaf, names, says, encodes, counts, owes, More, last, comma, Written, compares, lacks, has, among,
  not_among, ranges, denies, conjoins, disjoins,
}
use snekql.Checks.{CheckExpression, Arguments}

quote_behind :
    (q : ℕ) (r : Text)
    → (b' ' == q) ≡ false
    → (b')' == q) ≡ false
    → (b',' == q) ≡ false
    → stops r ≡ true
    → next_is q r ≡ false
quote_behind q [] h k l s = refl
quote_behind q (c ∷ t) h k l s = ground (arith, h, k, l, s)

unquoted : (t : Text) → All IsPlain t → All (λ c. c ≢ b'\'') t
unquoted [] h = tt
unquoted (c ∷ t) h = ((λ e. ground (arith, e, h.0)), unquoted t h.1)

no_minus : (ds r : Text) → All IsDigit ds → 1 ≤ length ds → next_is b'-' (ds ++ r) ≡ false
no_minus [] r h l = absurd (omega (arith, l))
no_minus (d ∷ ds) r h l = ground (arith, h.0)

module _ (beyond_alpha beyond_alnum : ℕ → Bool) where
  Leaf-Gives :
      {e : CheckExpression} {t : Text → Text} {k : List Token → List Token}
      → Leaf e t k
      → (r : Text) (ks : List Token) → stops r ≡ true
      → Gives beyond_alpha beyond_alnum r ks
      → Gives beyond_alpha beyond_alnum (t r) (k ks)
  Leaf-Gives (names t) r ks s g =
      identifier_Gives beyond_alpha beyond_alnum t r ks (quote_behind b'"' r refl refl refl s) g
  Leaf-Gives (says t bs h i) r ks s g =
      literal_Gives beyond_alpha beyond_alnum t r ks (quote_behind b'\'' r refl refl refl s) g
  Leaf-Gives (encodes t bs h i) r ks s g = cast_Gives beyond_alpha beyond_alnum _ _ (
      subst
        (λ u. Gives beyond_alpha beyond_alnum (b'\'' ∷ (u ++ (codes "' AS TEXT)" ++ r))) (
          token literal (hex bs)
          ∷ token word (codes "AS")
          ∷ token word (codes "TEXT")
          ∷ token symbol (codes ")")
          ∷ ks))
        (double_same b'\'' (hex bs) (unquoted (hex bs) (encoded-IsPlain t bs h)))
        (literal_Gives beyond_alpha beyond_alnum (hex bs) (codes " AS TEXT)" ++ r) _ refl
          (as_text_Gives beyond_alpha beyond_alnum r ks g)))
  Leaf-Gives (counts n h) r ks s g =
      number_Gives beyond_alpha beyond_alnum (digits n) r ks (digits-digits n) (digits_some n) s g
  Leaf-Gives (owes n h k) r ks s g =
      minus_Gives beyond_alpha beyond_alnum (digits n ++ r) _
        (no_minus (digits n) r (digits-digits n) (digits_some n))
        (number_Gives beyond_alpha beyond_alnum (digits n) r ks (digits-digits n) (digits_some n) s
          g)

  More-Gives :
      {es : Arguments} {t : Text → Text} {k : List Token → List Token}
      → More es t k
      → (r : Text) (ks : List Token) → stops r ≡ true
      → Gives beyond_alpha beyond_alnum r ks
      → (stops (t r) ≡ true) × Gives beyond_alpha beyond_alnum (t r) (k ks)
  More-Gives last r ks s g = (s, g)
  More-Gives (comma l m) r ks s g =
      let (s', g') = More-Gives m r ks s g in
      (
        refl,
        comma_Gives beyond_alpha beyond_alnum _ _
            (blank_Gives beyond_alpha beyond_alnum _ _ (Leaf-Gives l _ _ s' g')),
      )

  pub Written-Gives :
      {e : CheckExpression} {t : Text → Text} {k : List Token → List Token}
      → Written e t k
      → (r : Text) (ks : List Token) → stops r ≡ true
      → Gives beyond_alpha beyond_alnum r ks
      → Gives beyond_alpha beyond_alnum (t r) (k ks)
  Written-Gives (compares op w p la lb) r ks s g =
      Leaf-Gives la _ _ refl
        (Spelled-Gives beyond_alpha beyond_alnum _ _ p (Leaf-Gives lb r ks s g))
  Written-Gives (lacks la) r ks s g =
      Leaf-Gives la _ _ refl (is_null_Gives beyond_alpha beyond_alnum r ks s g)
  Written-Gives (has la) r ks s g =
      Leaf-Gives la _ _ refl (is_not_null_Gives beyond_alpha beyond_alnum r ks s g)
  Written-Gives (among la lb m) r ks s g =
      let (s', g') =
        More-Gives m (b')' ∷ r) _ refl (close_Gives beyond_alpha beyond_alnum r ks g) in
      Leaf-Gives la _ _ refl (in_Gives beyond_alpha beyond_alnum _ _ (Leaf-Gives lb _ _ s' g'))
  Written-Gives (not_among la lb m) r ks s g =
      let (s', g') =
        More-Gives m (b')' ∷ r) _ refl (close_Gives beyond_alpha beyond_alnum r ks g) in
      Leaf-Gives la _ _ refl (not_in_Gives beyond_alpha beyond_alnum _ _ (Leaf-Gives lb _ _ s' g'))
  Written-Gives (ranges la lb lc) r ks s g = Leaf-Gives la _ _ refl (
      between_Gives beyond_alpha beyond_alnum _ _
        (Leaf-Gives lb _ _ refl (and_Gives beyond_alpha beyond_alnum _ _ (Leaf-Gives lc r ks s g))))
  Written-Gives (denies w) r ks s g =
      not_Gives beyond_alpha beyond_alnum _ _
        (Written-Gives w _ _ refl (close_Gives beyond_alpha beyond_alnum r ks g))
  Written-Gives (conjoins v w) r ks s g = open_Gives beyond_alpha beyond_alnum _ _ (
      Written-Gives v _ _ refl (
        and_between_Gives beyond_alpha beyond_alnum _ _
          (Written-Gives w _ _ refl (close_Gives beyond_alpha beyond_alnum r ks g))))
  Written-Gives (disjoins v w) r ks s g = open_Gives beyond_alpha beyond_alnum _ _ (
      Written-Gives v _ _ refl (
        or_between_Gives beyond_alpha beyond_alnum _ _
          (Written-Gives w _ _ refl (close_Gives beyond_alpha beyond_alnum r ks g))))
