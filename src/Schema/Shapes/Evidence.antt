-- ===== src/Schema/Shapes/Evidence.antt =====
-- Issues and facts agree: there is an issue exactly when a fact is drift.
use snekql.Prelude.{
  ◌≡◌, ◌≢◌, refl, sym, subst, ◌↔◌, inl, inr, Bool-cases, Bool, true, false, ◌&&◌, ◌||◌, Option,
  none, some, List, [], ◌∷◌, ◌++◌, Text, text_eq, text_eq_iff, text_eq_refl, is_one_of, map, All,
  All-append,
}
use snekql.Schema.Startup.{drift}
use snekql.Schema.Shapes.{
  Fact, Evidence, check, ◌and◌, nothing, Issue, check_optional, option_eq, get, insert_name,
  sorted_names, text_before, without, presence, compare_names, gathered, compare_each,
}

abbrev pub Calm : List Fact → Type 0
Calm fs = All (λ f. f.status ≢ drift) fs

-- No issue exactly when no fact is drift
pub data Agrees {A : Type 0} (e : Evidence A) : Type 0 where
  agree : ((e.0 ≡ []) ↔ Calm e.1) → Agrees e

pub agreement : {A : Type 0} {e : Evidence A} → Agrees e → ((e.0 ≡ []) ↔ Calm e.1)
agreement (agree h) = h

split-All : {A : Type 0} (P : A → Type 0) (xs ys : List A) → All P (xs ++ ys) → All P xs × All P ys
split-All P [] ys h = (tt, h)
split-All P (x ∷ xs) ys h = let (a, b) = split-All P xs ys h.1 in ((h.0, a), b)

pub split_nil : {A : Type 0} (xs ys : List A) → xs ++ ys ≡ [] → (xs ≡ []) × (ys ≡ [])
split_nil [] ys h = (refl, h)
split_nil (x ∷ xs) ys h = cc

pub check-Agrees :
    {A : Type 0} (kind : Text) (object : Option Text) (b : Bool) (i : A)
    → Agrees (check kind object b i)
unfolding check
check-Agrees kind object true i = agree (λ h. ((λ e. cc), tt), λ h. refl)
check-Agrees kind object false i = agree (λ h. cc, λ h. absurd (h.0 refl))

pub and_Agrees : {A : Type 0} (d e : Evidence A) → Agrees d → Agrees e → Agrees (d and e)
unfolding ◌and◌
and_Agrees (is, fs) (js, gs) (agree p) (agree q) = agree (
  λ h. let (a, b) = split_nil is js h in All-append (λ f. f.status ≢ drift) fs gs (p.0 a) (q.0 b),
  λ h. let (a, b) = split-All (λ f. f.status ≢ drift) fs gs h in rw (p.1 a, q.1 b) refl,
)

pub nothing-Agrees : {A : Type 0} → Agrees {A = A} nothing
nothing-Agrees = agree (λ h. tt, λ h. refl)

-- Facts none of which is drift, and no issue
pub Calm-Agrees : {A : Type 0} (fs : List Fact) → Calm fs → Agrees {A = A} ([], fs)
Calm-Agrees fs c = agree (λ h. c, λ h. refl)

pub check_optional-Agrees :
    {A : Type 0} (eq : A → A → Bool) (kind name : Text) (a b : Option A)
    → Agrees (check_optional eq kind name a b)
unfolding check_optional option_eq
check_optional-Agrees eq kind name none none = nothing-Agrees
check_optional-Agrees eq kind name none (some b) =
    check-Agrees kind (some name) (option_eq eq none (some b)) kind
check_optional-Agrees eq kind name (some a) none =
    check-Agrees kind (some name) (option_eq eq (some a) none) kind
check_optional-Agrees eq kind name (some a) (some b) = check-Agrees kind (some name) (eq a b) kind

gathered-Agrees :
    (make : List Text → Issue) (e : Evidence Text) → Agrees e → Agrees (gathered make e)
gathered-Agrees make ([], fs) (agree h) = agree (λ e. h.0 refl, λ c. refl)
gathered-Agrees make (d ∷ ds, fs) (agree h) = agree (λ e. cc, λ c. let n = h.1 c in cc)

pub compare_each-Agrees :
    {A : Type 0} (make : Text → List Text → Issue) (compare : A → A → Evidence Text)
    (actual expected : List (Text × A))
    → ((a b : A) → Agrees (compare a b))
    → Agrees (compare_each make compare actual expected)
unfolding compare_each
compare_each-Agrees make compare actual [] h = nothing-Agrees
compare_each-Agrees {A} make compare actual ((n, a) ∷ expected) h =
    and_Agrees _ (compare_each make compare actual expected) (at_name (get n actual))
      (compare_each-Agrees make compare actual expected h)
  where
    at_name :
        (o : Option A)
        → Agrees {A = Issue} (elim o [ none ↦ nothing | some b ↦ gathered (make n) (compare a b) ])
    at_name none = nothing-Agrees
    at_name (some b) = gathered-Agrees (make n) (compare a b) (h a b)

-- A predicate holds of the sorted names exactly when it holds of the names.
insert_name-All :
    (P : Text → Type 0) (n : Text) (ms : List Text) → All P (insert_name n ms) ↔ (P n × All P ms)
unfolding insert_name
insert_name-All P n [] = (λ h. h, λ h. h)
insert_name-All P n (m ∷ ms) = elim (Bool-cases (text_eq n m)) [
  | inl e ↦ rw e (λ h. (subst P (sym ((text_eq_iff n m).0 e)) h.0, h), λ h. h.1)
  | inr e ↦ elim (Bool-cases (text_before n m)) [
    | inl f ↦ rw (e, f) (λ h. h, λ h. h)
    | inr f ↦
        let (j, k) = insert_name-All P n ms in
        rw (e, f) (λ h. let (a, b) = j h.1 in (a, (h.0, b)), λ h. (h.1.0, k (h.0, h.1.1)))
  ]
]

sorted_names-All : (P : Text → Type 0) (ns : List Text) → All P (sorted_names ns) ↔ All P ns
unfolding sorted_names
sorted_names-All P [] = (λ h. h, λ h. h)
sorted_names-All P (n ∷ ns) =
    let (f, g) = insert_name-All P n (sorted_names ns) in
    let (j, k) = sorted_names-All P ns in (λ h. let (a, b) = f h in (a, j b), λ h. g (h.0, k h.1))

abbrev AreIn : List Text → List Text → Type 0
AreIn ms ns = All (λ n. is_one_of n ms ≡ true) ns

without-none : (ms ns : List Text) → (without ms ns ≡ []) ↔ AreIn ms ns
unfolding without
without-none ms [] = (λ h. tt, λ h. refl)
without-none ms (n ∷ ns) =
    let (f, g) = without-none ms ns in
    elim (Bool-cases (is_one_of n ms)) [
      | inl e ↦ rw e (λ h. (refl, f h), λ h. g h.1)
      | inr e ↦ rw e (λ h. cc, λ h. let x = h.0 in cc)
    ]

map_nil : (make : Text → Issue) (ns : List Text) → (map make ns ≡ []) ↔ (ns ≡ [])
map_nil make [] = (λ h. refl, λ h. refl)
map_nil make (n ∷ ns) = (λ h. cc, λ h. cc)

presence-Calm :
    (kind : Text) (es ns ms : List Text)
    → Calm (presence kind es ns ms) ↔ All (λ n. (is_one_of n es && is_one_of n ns) ≡ true) ms
unfolding presence
presence-Calm kind es ns [] = (λ h. tt, λ h. tt)
presence-Calm kind es ns (m ∷ ms) =
    let (f, g) = presence-Calm kind es ns ms in
    elim (Bool-cases (is_one_of m es && is_one_of m ns)) [
      | inl e ↦ rw e (λ h. (refl, f h.1), λ h. ((λ x. cc), g h.1))
      | inr e ↦ rw e (λ h. absurd (h.0 refl), λ h. let x = h.0 in cc)
    ]

in_more : (n : Text) (ms ns : List Text) → AreIn ms ns → AreIn (n ∷ ms) ns
unfolding is_one_of
in_more n ms [] h = tt
in_more n ms (m ∷ ns) h = (rw h.0 (or_true (text_eq n m)), in_more n ms ns h.1)
  where
    or_true : (b : Bool) → (b || true) ≡ true
    or_true true = refl
    or_true false = refl

in_itself : (ns : List Text) → AreIn ns ns
unfolding is_one_of
in_itself [] = tt
in_itself (n ∷ ns) = (rw (text_eq_refl n) refl, in_more n ns ns (in_itself ns))

and_All :
    (es ns ms : List Text)
    → All (λ n. (is_one_of n es && is_one_of n ns) ≡ true) ms ↔ (AreIn es ms × AreIn ns ms)
and_All es ns [] = (λ h. (tt, tt), λ h. tt)
and_All es ns (m ∷ ms) =
    let (f, g) = and_All es ns ms in
    (
      λ h. let (a, b) = f h.1 in let (c, d) = both _ _ h.0 in ((c, a), (d, b)),
      λ h. (rw (h.0.0, h.1.0) refl, g (h.0.1, h.1.1)),
    )
  where
    both : (a b : Bool) → (a && b) ≡ true → (a ≡ true) × (b ≡ true)
    both true b h = (refl, h)
    both false b h = cc

pub compare_names-Agrees :
    (kind : Text) (missing extra : Text → Issue) (es ns : List Text)
    → Agrees (compare_names kind missing extra es ns)
unfolding compare_names
compare_names-Agrees kind missing extra es ns =
    let (a, b) = presence-Calm kind es ns (sorted_names (es ++ ns)) in
    let (c, d) = sorted_names-All (λ n. (is_one_of n es && is_one_of n ns) ≡ true) (es ++ ns) in
    let (i, j) = and_All es ns (es ++ ns) in
    agree (
      λ h.
          let (p, q) = split_nil (map missing (without ns es)) (map extra (without es ns)) h in
          let u = (without-none ns es).0 ((map_nil missing (without ns es)).0 p) in
          let v = (without-none es ns).0 ((map_nil extra (without es ns)).0 q) in
          b (
            d (
              j (
                All-append (λ n. is_one_of n es ≡ true) es ns (in_itself es) v,
                All-append (λ n. is_one_of n ns ≡ true) es ns u (in_itself ns),
              ))),
      λ h.
          let (u, v) = i (c (a h)) in
          let p = (split-All (λ n. is_one_of n es ≡ true) es ns u).1 in
          let q = (split-All (λ n. is_one_of n ns ≡ true) es ns v).0 in
          rw ((without-none ns es).1 q, (without-none es ns).1 p) refl,
    )
