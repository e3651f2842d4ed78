-- ===== src/Checks/Binding/Examples.antt =====
-- A sample predicate, there and back
use snekql.Prelude.{◌≡◌, true, false, some, List, ◌∷◌, [], Text, arith, ok, err, ◌≢◌, ◌↔◌, codes}
use snekql.Checks.Tokens.{Token, tokens, no_fuel}
use snekql.Checks.Tokens.Lexing.{lex, tokens_total}
use snekql.Checks.Parser.{parse}
use snekql.Checks.Render.{render_check, sqlite}
use snekql.Checks.Render.RoundTrip.{bind-render_check-parse}
use snekql.Checks.Binding.{str, bind}
use snekql.Checks.Catalog.{lower}
use snekql.Checks.Declarations.{
  CheckEntry, check_constraint, BoundCheck, bind_checks, AreBound, HaveOwnNames, bind_checks_iff,
}
use snekql.Checks.Binding.Samples.{
  columns, hint_of, encode, nothing_beyond, predicate, expression, predicate_binds,
  encode-IsEncoder,
}

bind-render_check-parse_example :
    (t : Text) × (ks : List Token) × (render_check sqlite expression ≡ some t)
    × (lex nothing_beyond nothing_beyond false t ≡ ok ks)
    × (parse false 100 ks ≡ some expression)
bind-render_check-parse_example =
    bind-render_check-parse nothing_beyond nothing_beyond 9 columns hint_of encode predicate
      expression 100 encode-IsEncoder (tt, tt) predicate_binds (omega arith)

abbrev declarations : List CheckEntry
declarations = check_constraint (str (codes "Range_1")) predicate ∷ []

abbrev checks : List BoundCheck
checks = record { name = codes "Range_1"; expression = expression } ∷ []

bind_checks_iff_example :
    (bind_checks nothing_beyond nothing_beyond lower
        (bind 9 columns hint_of encode)
        (some declarations)
      ≡ some checks)
    ↔ (AreBound nothing_beyond nothing_beyond lower
          (bind 9 columns hint_of encode)
          declarations
          checks
        × HaveOwnNames nothing_beyond nothing_beyond lower (bind 9 columns hint_of encode) checks)
bind_checks_iff_example =
    bind_checks_iff nothing_beyond nothing_beyond lower (bind 9 columns hint_of encode) declarations
      checks

tokens_total_example :
    tokens nothing_beyond nothing_beyond 12 true (codes "a >= '\\''") ≢ err no_fuel
tokens_total_example =
    tokens_total nothing_beyond nothing_beyond 12 true (codes "a >= '\\''") (omega arith)
