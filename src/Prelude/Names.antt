-- ===== src/Prelude/Names.antt =====
-- Names in a list, and lists without the same name twice.
use mathlib.Core.Path.{◌≡◌, refl}
use mathlib.Core.Logic.{◌≢◌, ◌↔◌}
use mathlib.Core.Bool.{false}
use mathlib.Core.List.{List, [], ◌∷◌}
use native.Mathlib.Omega.{arith}
use snekql.Prelude.Tests.{Text, text_eq_iff, is_one_of}
use snekql.Prelude.Lists.{All}

pub is_one_of_iff : (t : Text) (ss : List Text) → (is_one_of t ss ≡ false) ↔ All (λ s. s ≢ t) ss
unfolding is_one_of
is_one_of_iff t [] = (λ e. tt, λ e. refl)
is_one_of_iff t (s ∷ ss) = ground (arith, text_eq_iff s t, is_one_of_iff t ss)

-- No name is in the list twice.
abbrev pub AreDistinct : List Text → Type 0
AreDistinct [] = Unit {0}
AreDistinct (n ∷ ns) = All (λ m. n ≢ m) ns × AreDistinct ns
