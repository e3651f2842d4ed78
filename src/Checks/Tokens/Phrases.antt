-- ===== src/Checks/Tokens/Phrases.antt =====
-- The keywords of a rendered predicate, in front of whatever follows.
use snekql.Prelude.{ℕ, ◌≡◌, refl, Bool, true, List, ◌∷◌, ◌++◌, Text, codes, prefix_of}
use snekql.Checks.Tokens.{Token, token, word, symbol, word_token, scan_token, scan}
use snekql.Checks.{Operator}
use snekql.Checks.Tokens.Pieces.{
  stops, Gives, gives, blank_Gives, open_Gives, close_Gives, word_Gives,
}
use snekql.Checks.Render.Written.{
  Spelled, equal, unequal, above, at_least, below, at_most, sym_token, keyword,
}

module _ (beyond_alpha beyond_alnum : ℕ → Bool) where
  abbrev G : Text → List Token → Type 0
  G = Gives beyond_alpha beyond_alnum

  pub cast_Gives :
      (t : Text) (ks : List Token)
      → G (b'\'' ∷ t) ks
      → G
          (codes "CAST(X'" ++ t)
          (token word (codes "CAST") ∷ token symbol (codes "(") ∷ token word (codes "X") ∷ ks)
  unfolding scan scan_token word_token prefix_of
  cast_Gives t ks g = gives beyond_alpha beyond_alnum b'C' _ _ (codes "(X'" ++ t) _ refl (
      open_Gives beyond_alpha beyond_alnum _ _
        (gives beyond_alpha beyond_alnum b'X' _ _ (b'\'' ∷ t) _ refl g))

  pub as_text_Gives :
      (r : Text) (ks : List Token)
      → G r ks
      → G
          (codes " AS TEXT)" ++ r)
          (token word (codes "AS") ∷ token word (codes "TEXT") ∷ token symbol (codes ")") ∷ ks)
  unfolding scan scan_token word_token prefix_of
  as_text_Gives r ks g = blank_Gives beyond_alpha beyond_alnum _ _ (
      gives beyond_alpha beyond_alnum b'A' _ _ (codes " TEXT)" ++ r) _ refl (
        blank_Gives beyond_alpha beyond_alnum _ _ (
          gives beyond_alpha beyond_alnum b'T' _ _ (codes ")" ++ r) _ refl
            (close_Gives beyond_alpha beyond_alnum r ks g))))

  null_Gives :
      (r : Text) (ks : List Token)
      → stops r ≡ true
      → G r ks
      → G (codes "NULL" ++ r) (keyword (codes "NULL") ∷ ks)
  unfolding scan scan_token word_token
  null_Gives r ks s g =
      word_Gives beyond_alpha beyond_alnum b'N' (codes "ULL") r _ ks refl (refl, (refl, (refl, tt)))
        s refl g

  pub is_null_Gives :
      (r : Text) (ks : List Token)
      → stops r ≡ true
      → G r ks
      → G (codes " IS NULL" ++ r) (keyword (codes "IS") ∷ keyword (codes "NULL") ∷ ks)
  unfolding scan scan_token word_token prefix_of
  is_null_Gives r ks s g = blank_Gives beyond_alpha beyond_alnum _ _ (
      gives beyond_alpha beyond_alnum b'I' _ _ (codes " NULL" ++ r) _ refl
        (blank_Gives beyond_alpha beyond_alnum _ _ (null_Gives r ks s g)))

  pub is_not_null_Gives :
      (r : Text) (ks : List Token)
      → stops r ≡ true
      → G r ks
      → G
          (codes " IS NOT NULL" ++ r)
          (keyword (codes "IS") ∷ keyword (codes "NOT") ∷ keyword (codes "NULL") ∷ ks)
  unfolding scan scan_token word_token prefix_of
  is_not_null_Gives r ks s g = blank_Gives beyond_alpha beyond_alnum _ _ (
      gives beyond_alpha beyond_alnum b'I' _ _ (codes " NOT NULL" ++ r) _ refl (
        blank_Gives beyond_alpha beyond_alnum _ _ (
          gives beyond_alpha beyond_alnum b'N' _ _ (codes " NULL" ++ r) _ refl
            (blank_Gives beyond_alpha beyond_alnum _ _ (null_Gives r ks s g)))))

  pub in_Gives :
      (t : Text) (ks : List Token)
      → G t ks
      → G (codes " IN (" ++ t) (keyword (codes "IN") ∷ sym_token (codes "(") ∷ ks)
  unfolding scan scan_token word_token prefix_of
  in_Gives t ks g = blank_Gives beyond_alpha beyond_alnum _ _ (
      gives beyond_alpha beyond_alnum b'I' _ _ (codes " (" ++ t) _ refl
        (blank_Gives beyond_alpha beyond_alnum _ _ (open_Gives beyond_alpha beyond_alnum _ _ g)))

  pub not_in_Gives :
      (t : Text) (ks : List Token)
      → G t ks
      → G
          (codes " NOT IN (" ++ t)
          (keyword (codes "NOT") ∷ keyword (codes "IN") ∷ sym_token (codes "(") ∷ ks)
  unfolding scan scan_token word_token prefix_of
  not_in_Gives t ks g =
      blank_Gives beyond_alpha beyond_alnum _ _
        (gives beyond_alpha beyond_alnum b'N' _ _ (codes " IN (" ++ t) _ refl (in_Gives t ks g))

  pub between_Gives :
      (t : Text) (ks : List Token)
      → G t ks
      → G (codes " BETWEEN " ++ t) (keyword (codes "BETWEEN") ∷ ks)
  unfolding scan scan_token word_token prefix_of
  between_Gives t ks g = blank_Gives beyond_alpha beyond_alnum _ _ (
      gives beyond_alpha beyond_alnum b'B' _ _ (codes " " ++ t) _ refl
        (blank_Gives beyond_alpha beyond_alnum _ _ g))

  pub and_Gives :
      (t : Text) (ks : List Token) → G t ks → G (codes " AND " ++ t) (keyword (codes "AND") ∷ ks)
  unfolding scan scan_token word_token prefix_of
  and_Gives t ks g = blank_Gives beyond_alpha beyond_alnum _ _ (
      gives beyond_alpha beyond_alnum b'A' _ _ (codes " " ++ t) _ refl
        (blank_Gives beyond_alpha beyond_alnum _ _ g))

  pub not_Gives :
      (t : Text) (ks : List Token)
      → G t ks
      → G (codes "NOT (" ++ t) (keyword (codes "NOT") ∷ sym_token (codes "(") ∷ ks)
  unfolding scan scan_token word_token prefix_of
  not_Gives t ks g =
      gives beyond_alpha beyond_alnum b'N' _ _ (codes " (" ++ t) _ refl
        (blank_Gives beyond_alpha beyond_alnum _ _ (open_Gives beyond_alpha beyond_alnum _ _ g))

  pub and_between_Gives :
      (t : Text) (ks : List Token)
      → G t ks
      → G
          (codes ") AND (" ++ t)
          (sym_token (codes ")") ∷ keyword (codes "AND") ∷ sym_token (codes "(") ∷ ks)
  unfolding scan scan_token word_token prefix_of
  and_between_Gives t ks g = close_Gives beyond_alpha beyond_alnum _ _ (
      blank_Gives beyond_alpha beyond_alnum _ _ (
        gives beyond_alpha beyond_alnum b'A' _ _ (codes " (" ++ t) _ refl
          (blank_Gives beyond_alpha beyond_alnum _ _ (open_Gives beyond_alpha beyond_alnum _ _ g))))

  pub or_between_Gives :
      (t : Text) (ks : List Token)
      → G t ks
      → G
          (codes ") OR (" ++ t)
          (sym_token (codes ")") ∷ keyword (codes "OR") ∷ sym_token (codes "(") ∷ ks)
  unfolding scan scan_token word_token prefix_of
  or_between_Gives t ks g = close_Gives beyond_alpha beyond_alnum _ _ (
      blank_Gives beyond_alpha beyond_alnum _ _ (
        gives beyond_alpha beyond_alnum b'O' _ _ (codes " (" ++ t) _ refl
          (blank_Gives beyond_alpha beyond_alnum _ _ (open_Gives beyond_alpha beyond_alnum _ _ g))))

  -- A comparison between two blanks
  pub Spelled-Gives :
      {op : Operator} {w : Text} (t : Text) (ks : List Token)
      → Spelled op w
      → G t ks
      → G (b' ' ∷ (w ++ b' ' ∷ t)) (sym_token w ∷ ks)
  unfolding scan scan_token
  Spelled-Gives t ks equal g = blank_Gives beyond_alpha beyond_alnum _ _ (
      gives beyond_alpha beyond_alnum b'=' _ _ (b' ' ∷ t) _ refl
        (blank_Gives beyond_alpha beyond_alnum _ _ g))
  Spelled-Gives t ks unequal g = blank_Gives beyond_alpha beyond_alnum _ _ (
      gives beyond_alpha beyond_alnum b'<' _ _ (b' ' ∷ t) _ refl
        (blank_Gives beyond_alpha beyond_alnum _ _ g))
  Spelled-Gives t ks above g = blank_Gives beyond_alpha beyond_alnum _ _ (
      gives beyond_alpha beyond_alnum b'>' _ _ (b' ' ∷ t) _ refl
        (blank_Gives beyond_alpha beyond_alnum _ _ g))
  Spelled-Gives t ks at_least g = blank_Gives beyond_alpha beyond_alnum _ _ (
      gives beyond_alpha beyond_alnum b'>' _ _ (b' ' ∷ t) _ refl
        (blank_Gives beyond_alpha beyond_alnum _ _ g))
  Spelled-Gives t ks below g = blank_Gives beyond_alpha beyond_alnum _ _ (
      gives beyond_alpha beyond_alnum b'<' _ _ (b' ' ∷ t) _ refl
        (blank_Gives beyond_alpha beyond_alnum _ _ g))
  Spelled-Gives t ks at_most g = blank_Gives beyond_alpha beyond_alnum _ _ (
      gives beyond_alpha beyond_alnum b'<' _ _ (b' ' ∷ t) _ refl
        (blank_Gives beyond_alpha beyond_alnum _ _ g))
