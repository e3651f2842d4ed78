-- ===== src/Checks/Render/RoundTrip.antt =====
-- What is rendered for SQLite is parsed back.
use snekql.Prelude.{ℕ, ◌≡◌, refl, ◌≤◌, Bool, false, Option, some, List, [], Text, ok}
use snekql.Checks.Tokens.{Token}
use snekql.Checks.Tokens.Lexing.{lex}
use snekql.Checks.Tokens.Pieces.{end_Gives}
use snekql.Checks.Parser.{parse}
use snekql.Checks.Parser.Whole.{need, Written-parse}
use snekql.Checks.Render.{render_check, sqlite}
use snekql.Checks.Render.Spelling.{Written-Gives}
use snekql.Checks.Render.Extends.{Written-render}
use snekql.Checks.Binding.{Scalar, Logical, Attr, Predicate, bind}
use snekql.Checks.Binding.Bound.{IsPaired, IsEncoder, bind-IsWritten}
use snekql.Checks.{CheckExpression}

module _ (beyond_alpha beyond_alnum : ℕ → Bool) (owner : ℕ) (columns : Text → Option Attr)
    (hint_of : Text → Option (Bool × List Logical)) (encode : Attr → Scalar → Option Scalar) where
  -- Take a predicate whose compound parts have two children each, and that the binder accepts, under
  -- an encoder whose ints have at most 4300 digits and are no minus zero. The expression that the
  -- binder makes has a SQLite text, the tokenizer reads that text to the end without an error, and the
  -- parser, given fuel enough for the expression, makes the same expression from the tokens.
  pub bind-render_check-parse :
      (p : Predicate) (e : CheckExpression) (fuel : ℕ)
      → IsEncoder encode
      → IsPaired p
      → bind owner columns hint_of encode p ≡ some e
      → need e ≤ fuel
      → (t : Text) × (ks : List Token) × (render_check sqlite e ≡ some t)
        × (lex beyond_alpha beyond_alnum false t ≡ ok ks)
        × (parse false fuel ks ≡ some e)
  bind-render_check-parse p e fuel encoder paired bound enough =
      let (t, k, w) = bind-IsWritten owner columns hint_of encode encoder p e paired bound in
      (
        t [],
        k [],
        Written-render w,
        Written-Gives beyond_alpha beyond_alnum w [] [] refl (end_Gives beyond_alpha beyond_alnum),
        Written-parse w fuel enough,
      )
