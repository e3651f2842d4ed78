-- ===== src/Schema/Shapes/KeysAgree.antt =====
-- Issues and facts agree on foreign keys.
use snekql.Prelude.{◌≢◌, refl, Bool, true, false, List, [], ◌∷◌, ◌++◌, Text, All-append}
use snekql.Schema.Startup.{drift}
use snekql.Schema.Shapes.{Fact, Evidence, Issue}
use snekql.Schema.Shapes.Keys.{
  ForeignKeyShape, with_fact, compare_columns_keys, with_groups, no_keys, compare_foreign_keys,
}
use snekql.Schema.Shapes.Evidence.{Calm, Agrees, agree, and_Agrees, nothing-Agrees, Calm-Agrees}

with_fact-Agrees : (n : Text) (is : List Issue) → Agrees (with_fact n is)
unfolding with_fact
with_fact-Agrees n [] = agree (λ h. ((λ e. cc), tt), λ h. refl)
with_fact-Agrees n (i ∷ is) = agree (λ h. cc, λ h. absurd (h.0 refl))

compare_columns_keys-Agrees :
    (es ks : List ForeignKeyShape) (ns : List Text) → Agrees (compare_columns_keys es ks ns)
unfolding compare_columns_keys
compare_columns_keys-Agrees es ks [] = nothing-Agrees
compare_columns_keys-Agrees es ks (n ∷ ns) =
    and_Agrees _ (compare_columns_keys es ks ns) (with_fact-Agrees n _)
      (compare_columns_keys-Agrees es ks ns)

-- One more fact that is calm, and one that is not
Calm-more : (fs gs : List Fact) → Calm gs → Calm fs → Calm (fs ++ gs)
Calm-more fs gs h k = All-append (λ f. f.status ≢ drift) fs gs k h

Calm-less : (fs gs : List Fact) → Calm (fs ++ gs) → Calm fs × Calm gs
Calm-less [] gs h = (tt, h)
Calm-less (f ∷ fs) gs h = let (a, b) = Calm-less fs gs h.1 in ((h.0, a), b)

with_groups-Agrees : (b : Bool) (e : Evidence Issue) → Agrees e → Agrees (with_groups b e)
unfolding with_groups
with_groups-Agrees true (is, fs) (agree h) =
    agree (λ e. Calm-more fs _ ((λ x. cc), tt) (h.0 e), λ c. h.1 (Calm-less fs _ c).0)
with_groups-Agrees false ([], fs) h = agree (λ e. cc, λ c. absurd ((Calm-less fs _ c).1.0 refl))
with_groups-Agrees false (i ∷ is, fs) (agree h) = agree (λ e. cc, λ c. h.1 (Calm-less fs _ c).0)

no_keys-Agrees : (es ks : List ForeignKeyShape) → Agrees (no_keys es ks)
unfolding no_keys
no_keys-Agrees [] [] = Calm-Agrees _ ((λ e. cc), tt)
no_keys-Agrees [] (k ∷ ks) = nothing-Agrees
no_keys-Agrees (e ∷ es) [] = nothing-Agrees
no_keys-Agrees (e ∷ es) (k ∷ ks) = nothing-Agrees

pub compare_foreign_keys-Agrees :
    (es ks : List ForeignKeyShape) → Agrees (compare_foreign_keys es ks)
unfolding compare_foreign_keys
compare_foreign_keys-Agrees es ks =
    with_groups-Agrees _ _
      (and_Agrees (no_keys es ks) _ (no_keys-Agrees es ks) (compare_columns_keys-Agrees es ks _))
