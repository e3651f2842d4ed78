-- ===== src/Checks/Render/Written.antt =====
-- The expressions that the binder of declarations makes, with the text that SQLite gets for each and
-- the tokens of that text, both in front of whatever follows.
use snekql.Prelude.{ℕ, ◌≡◌, ◌≢◌, ◌≤◌, true, false, some, List, ◌∷◌, ◌++◌, length, Text, codes}
use snekql.Checks.Coding.{utf8, hex, digits, max_digits}
use snekql.Checks.Tokens.{Token, token, word, literal, identifier, number, symbol}
use snekql.Checks.Render.{double, has_nul}
use snekql.Checks.{
  Operator, column, negation, conjunction, disjunction, is_null, is_not_null, eq, ne, gt, gte, lt,
  lte, member, not_member, between, absent, str, int, CheckExpression, node, Arguments, nil, cons,
}
use snekql.Checks

abbrev pub sym_token : Text → Token
sym_token t = token symbol t

abbrev pub keyword : Text → Token
keyword t = token word t

-- A column or a literal
pub data Leaf : CheckExpression → (Text → Text) → (List Token → List Token) → Type 0 where
  names :
      (t : Text)
      → Leaf
          (node column (str t) nil)
          (λ r. b'"' ∷ (double b'"' t ++ b'"' ∷ r))
          (λ k. token identifier t ∷ k)
  says :
      (t : Text) (bs : List ℕ)
      → utf8 t ≡ some bs
      → has_nul t ≡ false
      → Leaf
          (node Checks.literal (str t) nil)
          (λ r. b'\'' ∷ (double b'\'' t ++ b'\'' ∷ r))
          (λ k. token literal t ∷ k)
  encodes :
      (t : Text) (bs : List ℕ)
      → utf8 t ≡ some bs
      → has_nul t ≡ true
      → Leaf
          (node Checks.literal (str t) nil)
          (λ r. codes "CAST(X'" ++ (hex bs ++ (codes "' AS TEXT)" ++ r)))
          (λ k.
            keyword (codes "CAST")
            ∷ sym_token (codes "(")
            ∷ keyword (codes "X")
            ∷ token literal (hex bs)
            ∷ keyword (codes "AS")
            ∷ keyword (codes "TEXT")
            ∷ sym_token (codes ")")
            ∷ k)
  counts :
      (n : ℕ)
      → length (digits n) ≤ max_digits
      → Leaf
          (node Checks.literal (int true n) nil)
          (λ r. digits n ++ r)
          (λ k. token number (digits n) ∷ k)
  owes :
      (n : ℕ)
      → length (digits n) ≤ max_digits
      → n ≢ 0
      → Leaf
          (node Checks.literal (int false n) nil)
          (λ r. b'-' ∷ (digits n ++ r))
          (λ k. sym_token (codes "-") ∷ token number (digits n) ∷ k)

-- A comparison and its spelling
pub data Spelled : Operator → Text → Type 0 where
  equal : Spelled eq (codes "=")
  unequal : Spelled ne (codes "<>")
  above : Spelled gt (codes ">")
  at_least : Spelled gte (codes ">=")
  below : Spelled lt (codes "<")
  at_most : Spelled lte (codes "<=")

-- The operands of an IN behind its first one
pub data More : Arguments → (Text → Text) → (List Token → List Token) → Type 0 where
  last : More nil (λ r. r) (λ k. k)
  comma :
      {e : CheckExpression} {es : Arguments} {t u : Text → Text} {k l : List Token → List Token}
      → Leaf e t k
      → More es u l
      → More (cons e es) (λ r. b',' ∷ b' ' ∷ t (u r)) (λ r. sym_token (codes ",") ∷ k (l r))

pub data Written : CheckExpression → (Text → Text) → (List Token → List Token) → Type 0 where
  compares :
      {a b : CheckExpression} {t u : Text → Text} {k l : List Token → List Token} (op : Operator)
      (w : Text)
      → Spelled op w
      → Leaf a t k
      → Leaf b u l
      → Written
          (node op absent (cons a (cons b nil)))
          (λ r. t (b' ' ∷ (w ++ b' ' ∷ u r)))
          (λ r. k (sym_token w ∷ l r))
  lacks :
      {a : CheckExpression} {t : Text → Text} {k : List Token → List Token}
      → Leaf a t k
      → Written
          (node is_null absent (cons a nil))
          (λ r. t (codes " IS NULL" ++ r))
          (λ r. k (keyword (codes "IS") ∷ keyword (codes "NULL") ∷ r))
  has :
      {a : CheckExpression} {t : Text → Text} {k : List Token → List Token}
      → Leaf a t k
      → Written
          (node is_not_null absent (cons a nil))
          (λ r. t (codes " IS NOT NULL" ++ r))
          (λ r. k (keyword (codes "IS") ∷ keyword (codes "NOT") ∷ keyword (codes "NULL") ∷ r))
  among :
      {a b : CheckExpression} {es : Arguments} {t u v : Text → Text}
      {k l m : List Token → List Token}
      → Leaf a t k
      → Leaf b u l
      → More es v m
      → Written
          (node member absent (cons a (cons b es)))
          (λ r. t (codes " IN (" ++ u (v (b')' ∷ r))))
          (λ r.
            k (keyword (codes "IN") ∷ sym_token (codes "(") ∷ l (m (sym_token (codes ")") ∷ r))))
  not_among :
      {a b : CheckExpression} {es : Arguments} {t u v : Text → Text}
      {k l m : List Token → List Token}
      → Leaf a t k
      → Leaf b u l
      → More es v m
      → Written
          (node not_member absent (cons a (cons b es)))
          (λ r. t (codes " NOT IN (" ++ u (v (b')' ∷ r))))
          (λ r. k (
            keyword (codes "NOT")
            ∷ keyword (codes "IN")
            ∷ sym_token (codes "(")
            ∷ l (m (sym_token (codes ")") ∷ r))))
  ranges :
      {a b c : CheckExpression} {t u v : Text → Text} {k l m : List Token → List Token}
      → Leaf a t k
      → Leaf b u l
      → Leaf c v m
      → Written
          (node between absent (cons a (cons b (cons c nil))))
          (λ r. t (codes " BETWEEN " ++ u (codes " AND " ++ v r)))
          (λ r. k (keyword (codes "BETWEEN") ∷ l (keyword (codes "AND") ∷ m r)))
  denies :
      {a : CheckExpression} {t : Text → Text} {k : List Token → List Token}
      → Written a t k
      → Written
          (node negation absent (cons a nil))
          (λ r. codes "NOT (" ++ t (b')' ∷ r))
          (λ r. keyword (codes "NOT") ∷ sym_token (codes "(") ∷ k (sym_token (codes ")") ∷ r))
  conjoins :
      {a b : CheckExpression} {t u : Text → Text} {k l : List Token → List Token}
      → Written a t k
      → Written b u l
      → Written
          (node conjunction absent (cons a (cons b nil)))
          (λ r. b'(' ∷ t (codes ") AND (" ++ u (b')' ∷ r)))
          (λ r.
            sym_token (codes "(")
            ∷ k (
                sym_token (codes ")")
                ∷ keyword (codes "AND")
                ∷ sym_token (codes "(")
                ∷ l (sym_token (codes ")") ∷ r)))
  disjoins :
      {a b : CheckExpression} {t u : Text → Text} {k l : List Token → List Token}
      → Written a t k
      → Written b u l
      → Written
          (node disjunction absent (cons a (cons b nil)))
          (λ r. b'(' ∷ t (codes ") OR (" ++ u (b')' ∷ r)))
          (λ r.
            sym_token (codes "(")
            ∷ k (
                sym_token (codes ")")
                ∷ keyword (codes "OR")
                ∷ sym_token (codes "(")
                ∷ l (sym_token (codes ")") ∷ r)))
