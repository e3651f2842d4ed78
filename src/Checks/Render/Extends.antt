-- ===== src/Checks/Render/Extends.antt =====
-- What `render_check` prints for SQLite is the text of a written predicate.
use mathlib.Core.List.{append-nil, append_assoc}
use snekql.Prelude.{
  ℕ, ◌≡◌, refl, sym, ap, ◌∙◌, ◌≤◌, Bool, true, false, some, List, [], ◌∷◌, ◌++◌, Text, codes,
  length, ltb, if◌then◌else◌, arith,
}
use snekql.Checks.Coding.{hex, digits, max_digits}
use snekql.Checks.Tokens.{Token}
use snekql.Checks.Render.{
  double, enclose, quote_identifier, print_int, render_text, render_literal, render_column,
  infix_word, spaced, in_parentheses, joined, compared, combine, render_check, render_each, sqlite,
}
use snekql.Checks.Render.Written.{
  Leaf, names, says, encodes, counts, owes, equal, unequal, above, at_least, below, at_most,
  Spelled, More, last, comma, Written, compares, lacks, has, among, not_among, ranges, denies,
  conjoins, disjoins,
}
use snekql.Checks.{
  Operator, CheckExpression, Arguments, node, absent, cons, nil, conjunction, disjunction, member,
  not_member, between,
}

-- A text in front of what follows is the text alone, and then what follows.
Leaf-extends :
    {e : CheckExpression} {t : Text → Text} {k : List Token → List Token}
    → Leaf e t k
    → (r : Text) → t r ≡ t [] ++ r
Leaf-extends (names t) r = ap (λ u. b'"' ∷ u) (sym (append_assoc (double b'"' t) (b'"' ∷ []) r))
Leaf-extends (says t bs h i) r =
    ap (λ u. b'\'' ∷ u) (sym (append_assoc (double b'\'' t) (b'\'' ∷ []) r))
Leaf-extends (encodes t bs h i) r =
    ap (λ u. codes "CAST(X'" ++ u) (sym (append_assoc (hex bs) (codes "' AS TEXT)") r))
Leaf-extends (counts n h) r = rw append-nil refl
Leaf-extends (owes n h k) r = rw append-nil refl

-- `t` puts its text in front of what follows.
abbrev Extends : (Text → Text) → Type 0
Extends t = (r : Text) → t r ≡ t [] ++ r

puts : (w : Text) → Extends (λ r. w ++ r)
puts w r = rw append-nil refl

after : (t u : Text → Text) → Extends t → Extends u → Extends (λ r. t (u r))
after t u h k r =
    h (u r)
    ∙ ap (λ x. t [] ++ x) (k r)
    ∙ sym (append_assoc (t []) (u []) r)
    ∙ ap (λ x. x ++ r) (sym (h (u [])))

More-extends :
    {es : Arguments} {t : Text → Text} {k : List Token → List Token}
    → More es t k
    → (r : Text) → t r ≡ t [] ++ r
More-extends last r = refl
More-extends (comma {t} {u} l m) r =
    after (λ x. codes ", " ++ x) (λ x. t (u x)) (puts (codes ", "))
      (after t u (Leaf-extends l) (More-extends m)) r

Written-extends :
    {e : CheckExpression} {t : Text → Text} {k : List Token → List Token}
    → Written e t k
    → (r : Text) → t r ≡ t [] ++ r
Written-extends (compares {t} {u} op w p l m) r =
    after t (λ x. codes " " ++ (w ++ (codes " " ++ u x))) (Leaf-extends l)
      (after (λ x. codes " " ++ x) (λ x. w ++ (codes " " ++ u x)) (puts (codes " "))
        (after (λ x. w ++ x) (λ x. codes " " ++ u x) (puts w)
          (after (λ x. codes " " ++ x) u (puts (codes " ")) (Leaf-extends m))))
      r
Written-extends (lacks {t} l) r =
    after t (λ x. codes " IS NULL" ++ x) (Leaf-extends l) (puts (codes " IS NULL")) r
Written-extends (has {t} l) r =
    after t (λ x. codes " IS NOT NULL" ++ x) (Leaf-extends l) (puts (codes " IS NOT NULL")) r
Written-extends (among {t} {u} {v} l m n) r =
    after t (λ x. codes " IN (" ++ u (v (codes ")" ++ x))) (Leaf-extends l)
      (after (λ x. codes " IN (" ++ x) (λ x. u (v (codes ")" ++ x))) (puts (codes " IN ("))
        (after u (λ x. v (codes ")" ++ x)) (Leaf-extends m)
          (after v (λ x. codes ")" ++ x) (More-extends n) (puts (codes ")")))))
      r
Written-extends (not_among {t} {u} {v} l m n) r =
    after t (λ x. codes " NOT IN (" ++ u (v (codes ")" ++ x))) (Leaf-extends l)
      (after (λ x. codes " NOT IN (" ++ x) (λ x. u (v (codes ")" ++ x))) (puts (codes " NOT IN ("))
        (after u (λ x. v (codes ")" ++ x)) (Leaf-extends m)
          (after v (λ x. codes ")" ++ x) (More-extends n) (puts (codes ")")))))
      r
Written-extends (ranges {t} {u} {v} l m n) r =
    after t (λ x. codes " BETWEEN " ++ u (codes " AND " ++ v x)) (Leaf-extends l)
      (after (λ x. codes " BETWEEN " ++ x) (λ x. u (codes " AND " ++ v x))
        (puts (codes " BETWEEN "))
        (after u (λ x. codes " AND " ++ v x) (Leaf-extends m)
          (after (λ x. codes " AND " ++ x) v (puts (codes " AND ")) (Leaf-extends n))))
      r
Written-extends (denies {t} w) r =
    after (λ x. codes "NOT (" ++ x) (λ x. t (codes ")" ++ x)) (puts (codes "NOT ("))
      (after t (λ x. codes ")" ++ x) (Written-extends w) (puts (codes ")"))) r
Written-extends (conjoins {t} {u} v w) r =
    after (λ x. codes "(" ++ x) (λ x. t (codes ") AND (" ++ u (codes ")" ++ x))) (puts (codes "("))
      (after t (λ x. codes ") AND (" ++ u (codes ")" ++ x)) (Written-extends v)
        (after (λ x. codes ") AND (" ++ x) (λ x. u (codes ")" ++ x)) (puts (codes ") AND ("))
          (after u (λ x. codes ")" ++ x) (Written-extends w) (puts (codes ")")))))
      r
Written-extends (disjoins {t} {u} v w) r =
    after (λ x. codes "(" ++ x) (λ x. t (codes ") OR (" ++ u (codes ")" ++ x))) (puts (codes "("))
      (after t (λ x. codes ") OR (" ++ u (codes ")" ++ x)) (Written-extends v)
        (after (λ x. codes ") OR (" ++ x) (λ x. u (codes ")" ++ x)) (puts (codes ") OR ("))
          (after u (λ x. codes ")" ++ x) (Written-extends w) (puts (codes ")")))))
      r

fits : (n : ℕ) → n ≤ max_digits → ltb max_digits n ≡ false
fits n h = ground (arith, h)

digits_render :
    (s : Bool) (n : ℕ)
    → length (digits n) ≤ max_digits
    → print_int s n ≡ some (if s then digits n else b'-' ∷ digits n)
unfolding print_int
digits_render s n h = rw (print_int, fits (length (digits n)) h) refl

Leaf-render :
    {e : CheckExpression} {t : Text → Text} {k : List Token → List Token}
    → Leaf e t k
    → render_check sqlite e ≡ some (t [])
unfolding render_check render_column quote_identifier enclose render_literal render_text
Leaf-render (names t) = refl
Leaf-render (says t bs h i) = rw (render_check, render_literal, h, i) refl
Leaf-render (encodes t bs h i) = rw (h, i) refl
Leaf-render (counts n h) = rw append-nil (digits_render true n h)
Leaf-render (owes n h k) = rw append-nil (digits_render false n h)

-- The operands of an IN, joined behind the first one
More-render :
    {es : Arguments} {t : Text → Text} {k : List Token → List Token}
    → More es t k
    → (us : List Text) × (render_each sqlite es ≡ some us)
      × ((u : Text) → joined (u ∷ us) ≡ u ++ t [])
unfolding render_each joined
More-render last = ([], refl, λ u. rw append-nil refl)
More-render (comma {t} {u} l m) =
    let (us, h, k) = More-render m in
    (
      t [] ∷ us,
      rw (Leaf-render l, h) refl,
      λ w. ap (λ x. w ++ (codes ", " ++ x)) (k (t []) ∙ sym (Leaf-extends l (u []))),
    )

Spelled-render :
    {op : Operator} {w : Text} (a b : CheckExpression) {t u : Text}
    → Spelled op w
    → render_check sqlite a ≡ some t
    → render_check sqlite b ≡ some u
    → render_check sqlite (node op absent (cons a (cons b nil))) ≡ some (spaced t w u)
unfolding render_check render_each combine compared infix_word
Spelled-render a b equal h k = rw (h, k) refl
Spelled-render a b unequal h k = rw (h, k) refl
Spelled-render a b above h k = rw (h, k) refl
Spelled-render a b at_least h k = rw (h, k) refl
Spelled-render a b below h k = rw (h, k) refl
Spelled-render a b at_most h k = rw (h, k) refl

listed_render :
    (a b : CheckExpression) {es : Arguments} {t u : Text} {v : Text → Text}
    {k : List Token → List Token} (negated : Bool)
    → render_check sqlite a ≡ some t
    → render_check sqlite b ≡ some u
    → More es v k
    → render_check sqlite
        (node (if negated then not_member else member) absent (cons a (cons b es)))
      ≡ some (
          t
          ++ ((if negated then codes " NOT IN (" else codes " IN (") ++ ((u ++ v []) ++ codes ")")))
unfolding render_check render_each combine
listed_render a b {u} true h k m = let (us, e, f) = More-render m in rw (h, k, e, f u) refl
listed_render a b {u} false h k m = let (us, e, f) = More-render m in rw (h, k, e, f u) refl

ranges_render :
    (a b c : CheckExpression) {t u v : Text}
    → render_check sqlite a ≡ some t
    → render_check sqlite b ≡ some u
    → render_check sqlite c ≡ some v
    → render_check sqlite (node between absent (cons a (cons b (cons c nil))))
      ≡ some (t ++ (codes " BETWEEN " ++ (u ++ (codes " AND " ++ v))))
unfolding render_check render_each combine
ranges_render a b c h k l = rw (h, k, l) refl

joins_render :
    (a b : CheckExpression) {t u : Text} (conjoins : Bool)
    → render_check sqlite a ≡ some t
    → render_check sqlite b ≡ some u
    → render_check sqlite
        (node (if conjoins then conjunction else disjunction) absent (cons a (cons b nil)))
      ≡ some (
          spaced
            (in_parentheses t)
            (if conjoins then codes "AND" else codes "OR")
            (in_parentheses u))
unfolding render_check render_each combine
joins_render a b true h k = rw (h, k) refl
joins_render a b false h k = rw (h, k) refl

-- A list of an IN as it is put and as it is printed
listed_text :
    {a b : CheckExpression} {es : Arguments} {t u v : Text → Text} {k l m : List Token → List Token}
    (w : Text)
    → Leaf a t k
    → Leaf b u l
    → More es v m
    → t [] ++ (w ++ ((u [] ++ v []) ++ codes ")")) ≡ t (w ++ u (v (codes ")")))
listed_text {t} {u} {v} w l m n =
    ap (λ x. t [] ++ (w ++ x))
      (append_assoc (u []) (v []) (codes ")")
        ∙ ap (λ x. u [] ++ x) (sym (More-extends n (codes ")")))
        ∙ sym (Leaf-extends m (v (codes ")"))))
    ∙ sym (Leaf-extends l (w ++ u (v (codes ")"))))

ranges_text :
    {a b c : CheckExpression} {t u v : Text → Text} {k l m : List Token → List Token}
    → Leaf a t k
    → Leaf b u l
    → Leaf c v m
    → t [] ++ (codes " BETWEEN " ++ (u [] ++ (codes " AND " ++ v [])))
      ≡ t (codes " BETWEEN " ++ u (codes " AND " ++ v []))
ranges_text {t} {v} l m n =
    ap (λ x. t [] ++ (codes " BETWEEN " ++ x)) (sym (Leaf-extends m (codes " AND " ++ v [])))
    ∙ sym (Leaf-extends l _)

joined_text :
    {a b : CheckExpression} {t u : Text → Text} {k l : List Token → List Token} (w : Text)
    → Written a t k
    → Written b u l
    → spaced (in_parentheses (t [])) w (in_parentheses (u []))
      ≡ codes "(" ++ t (codes ") " ++ (w ++ (codes " (" ++ u (codes ")"))))
joined_text {t} {u} w v v' =
    ap (λ x. b'(' ∷ x)
      (append_assoc (t []) (codes ")") _
        ∙ ap (λ x. t [] ++ (codes ") " ++ (w ++ (codes " (" ++ x))))
            (sym (Written-extends v' (codes ")")))
        ∙ sym (Written-extends v _))

pub Written-render :
    {e : CheckExpression} {t : Text → Text} {k : List Token → List Token}
    → Written e t k
    → render_check sqlite e ≡ some (t [])
unfolding render_check render_each combine
Written-render (compares {a} {b} op w p l m) =
    Spelled-render a b p (Leaf-render l) (Leaf-render m) ∙ ap some (sym (Leaf-extends l _))
Written-render (lacks {t} l) = rw (Leaf-render l, Leaf-extends l (codes " IS NULL")) refl
Written-render (has {t} l) = rw (Leaf-render l, Leaf-extends l (codes " IS NOT NULL")) refl
Written-render (among {a} {b} l m n) =
    listed_render a b false (Leaf-render l) (Leaf-render m) n
    ∙ ap some (listed_text (codes " IN (") l m n)
Written-render (not_among {a} {b} l m n) =
    listed_render a b true (Leaf-render l) (Leaf-render m) n
    ∙ ap some (listed_text (codes " NOT IN (") l m n)
Written-render (ranges {a} {b} {c} l m n) =
    ranges_render a b c (Leaf-render l) (Leaf-render m) (Leaf-render n)
    ∙ ap some (ranges_text l m n)
Written-render (denies w) = rw (Written-render w, Written-extends w (codes ")")) refl
Written-render (conjoins {a} {b} v w) =
    joins_render a b true (Written-render v) (Written-render w)
    ∙ ap some (joined_text (codes "AND") v w)
Written-render (disjoins {a} {b} v w) =
    joins_render a b false (Written-render v) (Written-render w)
    ∙ ap some (joined_text (codes "OR") v w)
