-- ===== src/Checks/Declarations.antt =====
-- `bind_checks` of snekql/_checks.py. `casefold` and the letters beyond ASCII are the interpreter's,
-- and the binder of predicates is a parameter, which `_CheckBinder.bind` fills. Whatever is raised
-- gives none.
use snekql.Prelude.{
  ℕ, ◌≡◌, ◌≢◌, refl, sym, subst, ◌↔◌, Bool, true, false, not, ◌&&◌, ◌||◌, Option, none, some, List,
  [], ◌∷◌, ◌==◌, Text, All, is_one_of, is_one_of_iff, arith, if◌then◌else◌,
}
use snekql.Checks.Tokens.{is_alpha, is_alnum}
use snekql.Checks.Binding.{Scalar, str, int, bool, other_value, Predicate}
use snekql.Checks.{CheckExpression, ◌>>=◌, chain_some, if_some}

-- An entry of `__checks__`
pub data CheckEntry : Type 0 where
  check_constraint : Scalar → Predicate → CheckEntry
  other_entry : CheckEntry

pub record BoundCheck : Type 0 where
  pub name : Text
  pub expression : CheckExpression

module _ (beyond_alpha beyond_alnum : ℕ → Bool) (casefold : Text → Text)
    (bind : Predicate → Option CheckExpression) where
  in_name : Text → Bool
  in_name [] = true
  in_name (c ∷ t) = (is_alnum beyond_alpha beyond_alnum c || c == b'_') && in_name t

  pub is_identifier : Text → Bool
  unfolding in_name
  is_identifier [] = false
  is_identifier (c ∷ t) = (is_alpha beyond_alpha beyond_alnum c || c == b'_') && in_name (c ∷ t)

  -- The loop of `bind_checks`, where `names` are the folded names so far
  pub bind_rest : List Text → List CheckEntry → Option (List BoundCheck)
  unfolding is_one_of
  bind_rest names [] = some []
  bind_rest names (check_constraint (str name) p ∷ ds) =
      if is_identifier name && not (is_one_of (casefold name) names)
      then bind p >>= (λ e. bind_rest (casefold name ∷ names) ds >>= λ bs.
          some (record { name = name; expression = e } ∷ bs))
      else none
  bind_rest names (d ∷ ds) = none

  -- None for what is not a list
  pub bind_checks : Option (List CheckEntry) → Option (List BoundCheck)
  unfolding bind_rest
  bind_checks none = none
  bind_checks (some ds) = bind_rest [] ds

  -- Entries and the checks that they become
  abbrev pub AreBound : List CheckEntry → List BoundCheck → Type 0
  AreBound [] [] = Unit {0}
  AreBound (check_constraint (str name) p ∷ ds) (b ∷ bs) =
      (b.name ≡ name) × (bind p ≡ some b.expression) × (is_identifier name ≡ true) × AreBound ds bs
  AreBound _ _ = ⊥

  abbrev pub HaveOwnNames : List BoundCheck → Type 0
  HaveOwnNames [] = Unit {0}
  HaveOwnNames (b ∷ bs) = All (λ c. casefold b.name ≢ casefold c.name) bs × HaveOwnNames bs

  -- No check has one of the names.
  abbrev AreApart : List Text → List BoundCheck → Type 0
  AreApart names bs = All (λ b. All (λ n. n ≢ casefold b.name) names) bs

  taken :
      (names : List Text) (bs : List BoundCheck) (n : Text)
      → AreApart (n ∷ names) bs
      → All (λ c. n ≢ casefold c.name) bs × AreApart names bs
  taken names [] n h = (tt, tt)
  taken names (b ∷ bs) n h = let (p, q) = taken names bs n h.1 in ((h.0.0, p), (h.0.1, q))

  given :
      (names : List Text) (bs : List BoundCheck) (n : Text)
      → All (λ c. n ≢ casefold c.name) bs
      → AreApart names bs
      → AreApart (n ∷ names) bs
  given names [] n h k = tt
  given names (b ∷ bs) n h k = ((h.0, k.0), given names bs n h.1 k.1)

  bound_of :
      (names : List Text) (ds : List CheckEntry) (bs : List BoundCheck)
      → bind_rest names ds ≡ some bs
      → AreBound ds bs × HaveOwnNames bs × AreApart names bs
  unfolding bind_rest
  bound_of names [] [] h = (tt, tt, tt)
  bound_of names [] (b ∷ bs) h = cc
  bound_of names (check_constraint (str name) p ∷ ds) bs h =
      let (valid, k) = if_some (is_identifier name && not (is_one_of (casefold name) names)) h in
      let (e, f, l) = chain_some (bind p) k in
      let (cs, g, m) = chain_some (bind_rest (casefold name ∷ names) ds) l in
      let same : record { name = name; expression = e } ∷ cs ≡ bs = cc in
      let (each, own, apart) = bound_of (casefold name ∷ names) ds cs g in
      let (first, rest) = taken names cs (casefold name) apart in
      let is_new : is_one_of (casefold name) names ≡ false = ground (arith, valid) in
      subst
        (λ bs.
          AreBound (check_constraint (str name) p ∷ ds) bs × HaveOwnNames bs × AreApart names bs)
        same
        (
          (refl, f, ground (arith, valid), each),
          (first, own),
          ((is_one_of_iff (casefold name) names).0 is_new, rest),
        )
  bound_of names (check_constraint (int x n) p ∷ ds) bs h = cc
  bound_of names (check_constraint (bool x) p ∷ ds) bs h = cc
  bound_of names (check_constraint other_value p ∷ ds) bs h = cc
  bound_of names (other_entry ∷ ds) bs h = cc

  of_bound :
      (names : List Text) (ds : List CheckEntry) (bs : List BoundCheck)
      → AreBound ds bs
      → HaveOwnNames bs
      → AreApart names bs
      → bind_rest names ds ≡ some bs
  unfolding bind_rest
  of_bound names [] [] each own apart = refl
  of_bound names [] (b ∷ bs) each own apart = absurd each
  of_bound names (check_constraint (str name) p ∷ ds) (b ∷ bs) each own apart =
      let fits : name ≡ b.name = sym each.0 in
      let is_new : is_one_of (casefold b.name) names ≡ false =
        (is_one_of_iff (casefold b.name) names).1 apart.0 in
      let rest =
        of_bound (casefold b.name ∷ names) ds bs each.3 own.1
          (given names bs (casefold b.name) own.0 apart.1) in
      let valid : is_identifier b.name ≡ true = subst (λ n. is_identifier n ≡ true) fits each.2 in
      subst (λ n. bind_rest names (check_constraint (str n) p ∷ ds) ≡ some (b ∷ bs)) each.0
        (rw (valid, is_new, each.1, rest) refl)
  of_bound names (check_constraint (str name) p ∷ ds) [] each own apart = absurd each
  of_bound names (check_constraint (int x n) p ∷ ds) bs each own apart = absurd each
  of_bound names (check_constraint (bool x) p ∷ ds) bs each own apart = absurd each
  of_bound names (check_constraint other_value p ∷ ds) bs each own apart = absurd each
  of_bound names (other_entry ∷ ds) bs each own apart = absurd each

  no_names : (bs : List BoundCheck) → AreApart [] bs
  no_names [] = tt
  no_names (b ∷ bs) = (tt, no_names bs)

  -- A list of entries is accepted, with these checks as its result, exactly when each entry is a
  -- constraint with a SQL identifier for its name and a predicate that the binder makes into the
  -- expression of the check at the same place, the check has that name, and no two of the checks have
  -- the same name once folded.
  pub bind_checks_iff :
      (ds : List CheckEntry) (bs : List BoundCheck)
      → (bind_checks (some ds) ≡ some bs) ↔ (AreBound ds bs × HaveOwnNames bs)
  unfolding bind_checks
  bind_checks_iff ds bs = (
    λ h. let (each, own, apart) = bound_of [] ds bs h in (each, own),
    λ h. of_bound [] ds bs h.0 h.1 (no_names bs),
  )
