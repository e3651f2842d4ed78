-- ===== src/Checks/Tokens/Statements.antt =====
-- The words of CREATE INDEX, in front of whatever follows.
use snekql.Prelude.{ℕ, refl, Bool, List, ◌∷◌, ◌++◌, Text, codes, prefix_of}
use snekql.Checks.Tokens.{Token, word_token, scan_token, scan}
use snekql.Checks.Tokens.Pieces.{Gives, gives, blank_Gives}
use snekql.Checks.Render.Written.{keyword}

module _ (beyond_alpha beyond_alnum : ℕ → Bool) where
  abbrev G : Text → List Token → Type 0
  G = Gives beyond_alpha beyond_alnum

  pub create_Gives :
      (t : Text) (ks : List Token)
      → G t ks
      → G (codes "CREATE " ++ t) (keyword (codes "CREATE") ∷ ks)
  unfolding scan scan_token word_token prefix_of
  create_Gives t ks g =
      gives beyond_alpha beyond_alnum b'C' _ _ (codes " " ++ t) _ refl
        (blank_Gives beyond_alpha beyond_alnum _ _ g)

  pub unique_Gives :
      (t : Text) (ks : List Token)
      → G t ks
      → G (codes "UNIQUE " ++ t) (keyword (codes "UNIQUE") ∷ ks)
  unfolding scan scan_token word_token prefix_of
  unique_Gives t ks g =
      gives beyond_alpha beyond_alnum b'U' _ _ (codes " " ++ t) _ refl
        (blank_Gives beyond_alpha beyond_alnum _ _ g)

  pub index_Gives :
      (t : Text) (ks : List Token) → G t ks → G (codes "INDEX " ++ t) (keyword (codes "INDEX") ∷ ks)
  unfolding scan scan_token word_token prefix_of
  index_Gives t ks g =
      gives beyond_alpha beyond_alnum b'I' _ _ (codes " " ++ t) _ refl
        (blank_Gives beyond_alpha beyond_alnum _ _ g)

  pub on_Gives :
      (t : Text) (ks : List Token) → G t ks → G (codes " ON " ++ t) (keyword (codes "ON") ∷ ks)
  unfolding scan scan_token word_token prefix_of
  on_Gives t ks g = blank_Gives beyond_alpha beyond_alnum _ _ (
      gives beyond_alpha beyond_alnum b'O' _ _ (codes " " ++ t) _ refl
        (blank_Gives beyond_alpha beyond_alnum _ _ g))

  pub where_Gives :
      (t : Text) (ks : List Token)
      → G t ks
      → G (codes " WHERE " ++ t) (keyword (codes "WHERE") ∷ ks)
  unfolding scan scan_token word_token prefix_of
  where_Gives t ks g = blank_Gives beyond_alpha beyond_alnum _ _ (
      gives beyond_alpha beyond_alnum b'W' _ _ (codes " " ++ t) _ refl
        (blank_Gives beyond_alpha beyond_alnum _ _ g))
