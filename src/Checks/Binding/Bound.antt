-- ===== src/Checks/Binding/Bound.antt =====
-- What the binder makes is a written predicate.
use snekql.Prelude.{
  ℕ, ap, text_eq, ◌≡◌, ◌≢◌, refl, ◌∙◌, subst, inl, inr, Bool-cases, ◌≤◌, Bool, true, false, ◌&&◌,
  Option, some, List, [], ◌∷◌, if◌then◌else◌, Text, length, arith,
}
use snekql.Checks.Coding.{utf8, digits, max_digits}
use snekql.Checks.Coding.Numbers.{digits-bit_short}
use snekql.Checks.Tokens.{Token}
use snekql.Checks.Render.{has_nul}
use snekql.Checks.Render.Written.{
  Leaf, names, says, encodes, counts, owes, equal, unequal, above, at_least, below, at_most, More,
  last, comma, Written, compares, lacks, has, among, not_among, ranges, denies, conjoins, disjoins,
}
use snekql.Checks.Binding.{
  Scalar, str, int, bool, other_value, Logical, type_of, same_type, Attr, Operand,
  ComparisonOperator, eq, ne, gt, gte, lt, lte, operator_of, Predicate, compound, negated, null,
  membership, range, compares_value, compares_column, unsupported, no_predicates, and_predicate,
  same_collation, wire_literal, column_node, local_column, check_literal, literals, are_typed,
  value_list, null_node, value_comparison, column_comparison, bind, bind_each,
}
use snekql.Checks.{
  Operator, negation, conjunction, disjunction, is_null, is_not_null, member, not_member, between,
  Value, absent, CheckExpression, node, Arguments, nil, cons, chain_some, if_some,
}

-- Every compound predicate has two children.
abbrev pub IsPaired : Predicate → Type 0
IsPaired (compound conj (and_predicate p (and_predicate q no_predicates))) = IsPaired p × IsPaired q
IsPaired (compound conj _) = ⊥
IsPaired (negated p) = IsPaired p
IsPaired _ = Unit {0}

-- An encoder gives no int that Python could not print, and no minus zero.
abbrev pub IsEncoder : (Attr → Scalar → Option Scalar) → Type 0
IsEncoder encode =
    (a : Attr) (v : Scalar) (s : Bool) (n : ℕ)
    → encode a v ≡ some (int s n)
    → (length (digits n) ≤ max_digits) × (s ≡ false → n ≢ 0)

abbrev IsLeaf : CheckExpression → Type 0
IsLeaf e = (t : Text → Text) × (k : List Token → List Token) × Leaf e t k

abbrev AreMore : Arguments → Type 0
AreMore es = (t : Text → Text) × (k : List Token → List Token) × More es t k

abbrev pub IsWritten : CheckExpression → Type 0
IsWritten e = (t : Text → Text) × (k : List Token → List Token) × Written e t k

text_IsLeaf :
    (t : Text) (bs : List ℕ) → utf8 t ≡ some bs → IsLeaf (node Operator.literal (Value.str t) nil)
text_IsLeaf t bs h = elim (Bool-cases (has_nul t)) [
  | inl e ↦ (_, _, encodes t bs h e)
  | inr e ↦ (_, _, says t bs h e)
]

int_IsLeaf :
    (s : Bool) (n : ℕ)
    → length (digits n) ≤ max_digits
    → (s ≡ false → n ≢ 0)
    → IsLeaf (node Operator.literal (Value.int s n) nil)
int_IsLeaf true n h k = (_, _, counts n h)
int_IsLeaf false n h k = (_, _, owes n h (k refl))

bit_fits : (b : Bool) → length (digits (if b then 1 else 0)) ≤ max_digits
bit_fits b = rw (digits-bit_short b) (omega arith)

wire_IsLeaf :
    (v : Scalar) (u : Value)
    → ((s : Bool) (n : ℕ) → v ≡ int s n → (length (digits n) ≤ max_digits) × (s ≡ false → n ≢ 0))
    → wire_literal v ≡ some u
    → IsLeaf (node Operator.literal u nil)
unfolding wire_literal
wire_IsLeaf (str t) u h k =
    let (bs, e, f) = chain_some (utf8 t) k in
    let g : Value.str t ≡ u = cc in
    subst (λ u. IsLeaf (node Operator.literal u nil)) g (text_IsLeaf t bs e)
wire_IsLeaf (int s n) u h k =
    let g : Value.int s n ≡ u = cc in
    let (f, p) = h s n refl in
    subst (λ u. IsLeaf (node Operator.literal u nil)) g (int_IsLeaf s n f p)
wire_IsLeaf (bool true) u h k =
    let g : Value.int true 1 ≡ u = cc in
    subst (λ u. IsLeaf (node Operator.literal u nil)) g
      (int_IsLeaf true 1 (bit_fits true) (λ e. cc))
wire_IsLeaf (bool false) u h k =
    let g : Value.int true 0 ≡ u = cc in
    subst (λ u. IsLeaf (node Operator.literal u nil)) g
      (int_IsLeaf true 0 (bit_fits false) (λ e. cc))
wire_IsLeaf other_value u h k = cc

compares_IsWritten :
    (op : ComparisonOperator) (a b : CheckExpression)
    → IsLeaf a
    → IsLeaf b
    → IsWritten (node (operator_of op) absent (cons a (cons b nil)))
compares_IsWritten eq a b (_, _, l) (_, _, m) = (_, _, compares _ _ equal l m)
compares_IsWritten ne a b (_, _, l) (_, _, m) = (_, _, compares _ _ unequal l m)
compares_IsWritten gt a b (_, _, l) (_, _, m) = (_, _, compares _ _ above l m)
compares_IsWritten gte a b (_, _, l) (_, _, m) = (_, _, compares _ _ at_least l m)
compares_IsWritten lt a b (_, _, l) (_, _, m) = (_, _, compares _ _ below l m)
compares_IsWritten lte a b (_, _, l) (_, _, m) = (_, _, compares _ _ at_most l m)

null_IsWritten :
    (name : Text) (is_negated : Bool)
    → IsWritten
        (node (if is_negated then is_not_null else is_null) absent (cons (column_node name) nil))
null_IsWritten name true = (_, _, has (names name))
null_IsWritten name false = (_, _, lacks (names name))

listed_IsWritten :
    (name : Text) (is_negated : Bool) (e : CheckExpression) (es : Arguments)
    → IsLeaf e
    → AreMore es
    → IsWritten (
        node
          (if is_negated then not_member else member)
          absent
          (cons (column_node name) (cons e es)))
listed_IsWritten name true e es (_, _, l) (_, _, m) = (_, _, not_among (names name) l m)
listed_IsWritten name false e es (_, _, l) (_, _, m) = (_, _, among (names name) l m)

joins_IsWritten :
    (conj : Bool) (a b : CheckExpression)
    → IsWritten a
    → IsWritten b
    → IsWritten (node (if conj then conjunction else disjunction) absent (cons a (cons b nil)))
joins_IsWritten true a b (_, _, v) (_, _, w) = (_, _, conjoins v w)
joins_IsWritten false a b (_, _, v) (_, _, w) = (_, _, disjoins v w)

module _ (owner : ℕ) (columns : Text → Option Attr) (hint_of : Text → Option (Bool × List Logical))
    (encode : Attr → Scalar → Option Scalar) (encodes_well : IsEncoder encode) where
  literal_IsLeaf :
      (a : Attr) (v : Scalar) (logical : Logical) (e : CheckExpression)
      → check_literal owner columns hint_of encode a v logical ≡ some e
      → IsLeaf e
  unfolding check_literal
  literal_IsLeaf a v logical e h =
      let (t, k) = if_some (same_type (type_of v) logical) h in
      let (w, f, l) = chain_some (encode a v) k in
      let (u, g, m) = chain_some (wire_literal w) l in
      let same : node Operator.literal u nil ≡ e = cc in
      subst IsLeaf same (wire_IsLeaf w u (λ s n p. encodes_well a v s n (f ∙ ap some p)) g)

  literals-AreMore :
      (a : Attr) (logical : Logical) (vs : List Scalar) (es : Arguments)
      → literals owner columns hint_of encode a logical vs ≡ some es
      → AreMore es
  unfolding literals
  literals-AreMore a logical [] es h = let same : nil ≡ es = cc in subst AreMore same (_, _, last)
  literals-AreMore a logical (v ∷ vs) es h =
      let (e, f, k) = chain_some _ h in
      let (es', g, l) = chain_some _ k in
      let same : cons e es' ≡ es = cc in
      let (_, _, m) = literal_IsLeaf a v logical e f in
      let (_, _, n) = literals-AreMore a logical vs es' g in subst AreMore same (_, _, comma m n)

  null_bound :
      (operand : Operand) (is_negated : Bool) (e : CheckExpression)
      → null_node owner columns hint_of encode is_negated operand ≡ some e
      → IsWritten e
  unfolding null_node
  null_bound operand b e h =
      let ((a, name, l), f, k) = chain_some (local_column owner columns hint_of encode operand) h in
      let same : node (if b then is_not_null else is_null) absent (cons (column_node name) nil)
          ≡ e =
        cc in
      subst IsWritten same (null_IsWritten name b)

  value_bound :
      (operand : Operand) (op : ComparisonOperator) (v : Scalar) (e : CheckExpression)
      → value_comparison owner columns hint_of encode (operator_of op) operand v ≡ some e
      → IsWritten e
  unfolding value_comparison
  value_bound operand op v e h =
      let ((a, name, l), f, k) = chain_some (local_column owner columns hint_of encode operand) h in
      let (w, g, m) = chain_some (check_literal owner columns hint_of encode a v l) k in
      let same : node (operator_of op) absent (cons (column_node name) (cons w nil)) ≡ e = cc in
      subst IsWritten same (compares_IsWritten op _ _ (_, _, names name) (literal_IsLeaf a v l w g))

  column_bound :
      (operand other : Operand) (op : ComparisonOperator) (e : CheckExpression)
      → column_comparison owner columns hint_of encode (operator_of op) operand other ≡ some e
      → IsWritten e
  unfolding column_comparison
  column_bound operand other op e h =
      let ((a, name, l), f, k) = chain_some (local_column owner columns hint_of encode operand) h in
      let ((b, other_name, l'), g, m) =
        chain_some (local_column owner columns hint_of encode other) k in
      let (_, n) =
        if_some
          (same_type l' l
            && text_eq a.storage_type_name b.storage_type_name
            && same_collation a.text_collation b.text_collation)
          m in
      let same : node (operator_of op) absent
            (cons (column_node name) (cons (column_node other_name) nil))
          ≡ e =
        cc in
      subst IsWritten same (compares_IsWritten op _ _ (_, _, names name) (_, _, names other_name))

  listed_bound :
      (operand : Operand) (vs : List Scalar) (is_negated : Bool) (e : CheckExpression)
      → value_list owner columns hint_of encode
          (if is_negated then not_member else member)
          operand
          vs
        ≡ some e
      → IsWritten e
  unfolding value_list literals
  listed_bound operand [] b e h =
      let ((a, name, l), f, k) = chain_some (local_column owner columns hint_of encode operand) h in
      cc
  listed_bound operand (v ∷ vs) b e h =
      let ((a, name, l), f, k) = chain_some (local_column owner columns hint_of encode operand) h in
      let (es, g, m) = chain_some _ k in
      let (p, q) = if_some (are_typed l (v ∷ vs)) g in
      let (x, r, s) = chain_some (check_literal owner columns hint_of encode a v l) q in
      let (xs, t, u) = chain_some _ s in
      let same : node (if b then not_member else member) absent
            (cons (column_node name) (cons x xs))
          ≡ e =
        cc in
      subst IsWritten same
        (listed_IsWritten name b x xs (literal_IsLeaf a v l x r) (literals-AreMore a l vs xs t))

  range_bound :
      (operand : Operand) (low high : Scalar) (e : CheckExpression)
      → value_list owner columns hint_of encode between operand (low ∷ high ∷ []) ≡ some e
      → IsWritten e
  unfolding value_list literals
  range_bound operand low high e h =
      let ((a, name, l), f, k) = chain_some (local_column owner columns hint_of encode operand) h in
      let (es, g, m) = chain_some _ k in
      let (p, q) = if_some (are_typed l (low ∷ high ∷ [])) g in
      let (x, r, s) = chain_some (check_literal owner columns hint_of encode a low l) q in
      let (ys, t, u) = chain_some _ s in
      let (y, v, w) = chain_some (check_literal owner columns hint_of encode a high l) t in
      let (_, _, i) = literal_IsLeaf a low l x r in
      let (_, _, j) = literal_IsLeaf a high l y v in
      let same : node between absent (cons (column_node name) (cons x (cons y nil))) ≡ e = cc in
      subst IsWritten same (_, _, ranges (names name) i j)

  -- An expression that the binder makes of paired predicates is a written predicate.
  pub bind-IsWritten :
      (p : Predicate) (e : CheckExpression)
      → IsPaired p
      → bind owner columns hint_of encode p ≡ some e
      → IsWritten e
  unfolding bind bind_each
  bind-IsWritten (compound conj no_predicates) e c h = absurd c
  bind-IsWritten (compound conj (and_predicate p no_predicates)) e c h = absurd c
  bind-IsWritten (compound conj (and_predicate p (and_predicate q (and_predicate r rs)))) e c h =
      absurd c
  bind-IsWritten (compound conj (and_predicate p (and_predicate q no_predicates))) e c h =
      let (es, f, k) = chain_some _ h in
      let (a, g, l) = chain_some (bind owner columns hint_of encode p) f in
      let (bs, i, m) = chain_some _ l in
      let (b, j, n) = chain_some (bind owner columns hint_of encode q) i in
      let same : node (if conj then conjunction else disjunction) absent (cons a (cons b nil)) ≡ e =
        cc in
      subst IsWritten same
        (joins_IsWritten conj a b (bind-IsWritten p a c.0 g) (bind-IsWritten q b c.1 j))
  bind-IsWritten (negated p) e c h =
      let (a, g, l) = chain_some (bind owner columns hint_of encode p) h in
      let same : node negation absent (cons a nil) ≡ e = cc in
      let (_, _, w) = bind-IsWritten p a c g in subst IsWritten same (_, _, denies w)
  bind-IsWritten (null operand b) e c h = null_bound operand b e h
  bind-IsWritten (membership operand vs b) e c h = listed_bound operand vs b e h
  bind-IsWritten (range operand low high) e c h = range_bound operand low high e h
  bind-IsWritten (compares_value operand op v) e c h = value_bound operand op v e h
  bind-IsWritten (compares_column operand op other) e c h = column_bound operand other op e h
  bind-IsWritten unsupported e c h = cc
