-- ===== src/Checks/Parser/Reads.antt =====
-- The parser reads back the tokens of what the binder of declarations makes.
use snekql.Prelude.{
  ℕ, zero, suc, ◌≡◌, ◌≢◌, refl, ◌≤◌, Bool, true, false, ◌==◌, none, some, List, [], ◌∷◌, Text,
  text_eq, codes, arith, if◌then◌else◌,
}
use snekql.Checks.Coding.{hex, text_of_hex}
use snekql.Checks.Coding.Numbers.{value_of-digits}
use snekql.Checks.Coding.Bytes.{text_of_hex-hex}
use snekql.Checks.Tokens.{Token, token, literal}
use snekql.Checks.Render.Written.{
  Leaf, names, says, encodes, counts, owes, More, last, comma, equal, unequal, above, at_least,
  below, at_most, Spelled, sym_token, keyword,
}
use snekql.Checks.Parser.{
  Parse, accept, signed, literal_of, coded_text, sole_operand, take_operand, plain_operand,
  comparison_operator, connective, connective_word, node2, boolean, comparison, comparison_rest,
  compare_with, operands, operand,
}
use snekql.Checks.{
  Operator, column, negation, conjunction, disjunction, eq, ne, gt, gte, lt, lte, is_null,
  is_not_null, member, not_member, between, absent, str, int, CheckExpression, node, Arguments, nil,
  cons, ◌>>=◌,
}

-- Nothing follows, or a closing parenthesis does.
pub data Closed : List Token → Type 0 where
  ends : Closed []
  closes : (k : List Token) → Closed (sym_token (codes ")") ∷ k)

-- The tokens of a leaf start neither a NOT nor a parenthesis, and are read as the leaf.
pub record IsOperand (f : ℕ) (e : CheckExpression) (ks rest : List Token) : Type 0 where
  pub plain : accept (codes "NOT") ks ≡ none
  pub reads : operand false (suc f) ks ≡ some (e, rest)

coded_back :
    (t : Text) (bs : List ℕ) (k : List Token)
    → text_of_hex (hex bs) ≡ some t
    → coded_text false (
        sym_token (codes "(")
        ∷ keyword (codes "X")
        ∷ token literal (hex bs)
        ∷ keyword (codes "AS")
        ∷ keyword (codes "TEXT")
        ∷ sym_token (codes ")")
        ∷ k)
      ≡ some (node snekql.Checks.literal (str t) nil, k)
unfolding coded_text text_eq
coded_back t bs k h = rw h refl

nonzero : (n : ℕ) → n ≢ 0 → (n == 0) ≡ false
nonzero n h = ground arith

pub Leaf-IsOperand :
    {e : CheckExpression} {t : Text → Text} {ks : List Token → List Token}
    → Leaf e t ks
    → (f : ℕ) (rest : List Token) → IsOperand f e (ks rest) rest
unfolding operand plain_operand take_operand sole_operand signed literal_of accept text_eq
Leaf-IsOperand (names t) f rest = record { plain = refl; reads = refl }
Leaf-IsOperand (says t bs h i) f rest = record { plain = refl; reads = refl }
Leaf-IsOperand (encodes t bs h i) f rest = record {
  plain = refl;
  reads = coded_back t bs rest (text_of_hex-hex t bs h);
}
Leaf-IsOperand (counts n h) f rest = record { plain = refl; reads = rw (value_of-digits n h) refl }
Leaf-IsOperand (owes n h k) f rest = record {
  plain = refl;
  reads = rw (value_of-digits n h, nonzero n k) refl;
}

-- A comparison that starts with an operand
pub operand_first :
    (f : ℕ) (e : CheckExpression) (ks rest : List Token) (r : Parse CheckExpression)
    → IsOperand f e ks rest
    → comparison_rest false (suc f) e rest ≡ r
    → comparison false (suc (suc f)) ks ≡ r
unfolding comparison
operand_first f e ks rest r o h = rw (comparison, o.plain, o.reads) h

compared_behind :
    (f : ℕ) (op : Operator) (a b : CheckExpression) (ks rest behind : List Token)
    → accept (codes "IN") behind ≡ none
    → accept (codes "BETWEEN") behind ≡ none
    → comparison_operator behind ≡ some (op, ks)
    → IsOperand f b ks rest
    → compare_with false (suc (suc f)) false a behind ≡ some (node2 op a b, rest)
unfolding compare_with
compared_behind f op a b ks rest behind h k l o = rw (compare_with, h, k, l, o.reads) refl

pub reads_operator :
    {op : Operator} {w : Text} (f : ℕ) (a b : CheckExpression) (ks rest : List Token)
    → Spelled op w
    → IsOperand f b ks rest
    → comparison_rest false (suc (suc (suc f))) a (sym_token w ∷ ks) ≡ some (node2 op a b, rest)
unfolding comparison_rest comparison_operator accept text_eq
reads_operator f a b ks rest equal o =
    compared_behind f eq a b ks rest (sym_token (codes "=") ∷ ks) refl refl refl o
reads_operator f a b ks rest unequal o =
    compared_behind f ne a b ks rest (sym_token (codes "<>") ∷ ks) refl refl refl o
reads_operator f a b ks rest above o =
    compared_behind f gt a b ks rest (sym_token (codes ">") ∷ ks) refl refl refl o
reads_operator f a b ks rest at_least o =
    compared_behind f gte a b ks rest (sym_token (codes ">=") ∷ ks) refl refl refl o
reads_operator f a b ks rest below o =
    compared_behind f lt a b ks rest (sym_token (codes "<") ∷ ks) refl refl refl o
reads_operator f a b ks rest at_most o =
    compared_behind f lte a b ks rest (sym_token (codes "<=") ∷ ks) refl refl refl o

-- What ends an operand: nothing that goes on with a comparison
nothing_behind :
    (f : ℕ) (a : CheckExpression) (ks : List Token)
    → accept (codes "IN") ks ≡ none
    → accept (codes "BETWEEN") ks ≡ none
    → comparison_operator ks ≡ none
    → compare_with false (suc f) false a ks ≡ some (a, ks)
unfolding compare_with
nothing_behind f a ks h k l = rw (compare_with, h, k, l) refl

stays :
    (f : ℕ) (a : CheckExpression) (ks : List Token)
    → accept (codes "IS") ks ≡ none
    → accept (codes "NOT") ks ≡ none
    → accept (codes "IN") ks ≡ none
    → accept (codes "BETWEEN") ks ≡ none
    → comparison_operator ks ≡ none
    → comparison_rest false (suc (suc f)) a ks ≡ some (a, ks)
unfolding comparison_rest
stays f a ks h i j k l = rw (comparison_rest, h, i) (nothing_behind f a ks j k l)

abbrev pub length_of : Arguments → ℕ
length_of nil = 0
length_of (cons e es) = suc (length_of es)

pub More-operands :
    {es : Arguments} {t : Text → Text} {ks : List Token → List Token}
    → More es t ks
    → (f : ℕ) (rest : List Token) → length_of es ≤ f
    → operands false (suc f) (ks (sym_token (codes ")") ∷ rest))
      ≡ some (es, sym_token (codes ")") ∷ rest)
unfolding operands accept text_eq
More-operands last f rest h = refl
More-operands (comma l m) zero rest h = absurd (omega (arith, h))
More-operands (comma {l = n} l m) (suc f) rest h =
    rw
      (
        (Leaf-IsOperand l f (n (sym_token (codes ")") ∷ rest))).reads,
        More-operands m f rest (omega (arith, h)),
      )
      refl

pub reads_range :
    (f : ℕ) (a b c : CheckExpression) (ks ls rest : List Token)
    → IsOperand f b ks (keyword (codes "AND") ∷ ls)
    → IsOperand f c ls rest
    → comparison_rest false (suc (suc (suc f))) a (keyword (codes "BETWEEN") ∷ ks)
      ≡ some (node between absent (cons a (cons b (cons c nil))), rest)
unfolding comparison_rest accept text_eq
reads_range f a b c ks ls rest o p = rw (comparison_rest, o.reads, p.reads) refl

pub reads_list :
    (f : ℕ) (negated : Bool) (a b : CheckExpression) (es : Arguments) (ks ls rest : List Token)
    → IsOperand f b ks ls
    → operands false (suc f) ls ≡ some (es, sym_token (codes ")") ∷ rest)
    → compare_with false (suc (suc f)) negated a (keyword (codes "IN") ∷ sym_token (codes "(") ∷ ks)
      ≡ some (node (if negated then not_member else member) absent (cons a (cons b es)), rest)
unfolding compare_with accept text_eq
reads_list f negated a b es ks ls rest o p = rw (compare_with, o.reads, p) refl

-- Two nested calls of `boolean` around a comparison, with nothing to join
pub both_levels :
    (f : ℕ) (e : CheckExpression) (ks rest : List Token)
    → Closed rest
    → comparison false (suc f) ks ≡ some (e, rest)
    → boolean false (suc (suc (suc f))) false ks ≡ some (e, rest)
unfolding boolean accept text_eq
both_levels f e ks rest ends h = rw (boolean, h) refl
both_levels f e ks rest (closes k) h = rw (boolean, h) refl

in_parentheses :
    (f : ℕ) (e : CheckExpression) (ks rest : List Token)
    → boolean false f false ks ≡ some (e, sym_token (codes ")") ∷ rest)
    → operand false (suc f) (sym_token (codes "(") ∷ ks) ≡ some (e, rest)
unfolding operand accept text_eq
in_parentheses f e ks rest h = rw (operand, h) refl

-- A parenthesized expression in front of a connective or of the end
pub parenthesized :
    (f : ℕ) (e : CheckExpression) (ks rest : List Token)
    → boolean false (suc f) false ks ≡ some (e, sym_token (codes ")") ∷ rest)
    → comparison_rest false (suc (suc f)) e rest ≡ some (e, rest)
    → comparison false (suc (suc (suc f))) (sym_token (codes "(") ∷ ks) ≡ some (e, rest)
unfolding comparison accept text_eq
parenthesized f e ks rest h k = rw (comparison, in_parentheses (suc f) e ks rest h) k

pub Closed-stays :
    (f : ℕ) (e : CheckExpression) (rest : List Token)
    → Closed rest
    → comparison_rest false (suc (suc f)) e rest ≡ some (e, rest)
unfolding comparison_operator accept text_eq
Closed-stays f e rest ends = stays f e [] refl refl refl refl refl
Closed-stays f e rest (closes k) = stays f e (sym_token (codes ")") ∷ k) refl refl refl refl refl

pub joined_stays :
    (f : ℕ) (b : Bool) (e : CheckExpression) (rest : List Token)
    → comparison_rest false (suc (suc f)) e (keyword (connective_word b) ∷ rest)
      ≡ some (e, keyword (connective_word b) ∷ rest)
unfolding comparison_operator accept text_eq
joined_stays f true e rest = stays f e (keyword (codes "AND") ∷ rest) refl refl refl refl refl
joined_stays f false e rest = stays f e (keyword (codes "OR") ∷ rest) refl refl refl refl refl

-- Two parenthesized expressions around a connective
pub reads_both :
    (f : ℕ) (b : Bool) (l r : CheckExpression) (ks ms rest : List Token)
    → Closed rest
    → comparison false (suc (suc f)) ks ≡ some (l, keyword (connective_word b) ∷ ms)
    → comparison false (suc f) ms ≡ some (r, rest)
    → boolean false (suc (suc (suc (suc f)))) false ks ≡ some (node2 (connective b) l r, rest)
unfolding boolean accept text_eq
reads_both f true l r ks ms rest ends h k = rw (boolean, h, k) refl
reads_both f true l r ks ms rest (closes m) h k = rw (boolean, h, k) refl
reads_both f false l r ks ms rest ends h k = rw (boolean, h, k) refl
reads_both f false l r ks ms rest (closes m) h k = rw (boolean, h, k) refl
