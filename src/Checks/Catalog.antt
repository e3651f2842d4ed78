-- ===== src/Checks/Catalog.antt =====
-- `parse_check`, `sqlite_checks`, `parse_default_literal` and `sqlite_index_predicate` of
-- snekql/_check_catalog.py. An error of the tokenizer or the parser gives what the source's handlers
-- give; the fuel of the parser stands for the recursion limit, which they handle alike.
pub mod Scanning
use snekql.Prelude.{
  ℕ, zero, suc, Bool, true, false, not, ◌&&◌, ◌||◌, Option, none, some, List, [], ◌∷◌, ◌==◌, ◌+◌,
  Text, text_eq, codes, leb, Result, ok, err, if◌then◌else◌, length,
}
use snekql.Checks.Tokens.{Kind, word, literal, identifier, number, symbol, Token, Lexed}
use snekql.Checks.Tokens.Lexing.{lex}
use snekql.Checks.Parser.{parse, upper}
use snekql.Checks.{
  CheckExpression, node, Arguments, nil, cons, Value, absent, str, int, Operator, ◌>>=◌,
}
use snekql.Checks

pub record CheckShape : Type 0 where
  pub name : Option Text
  pub expression : Option CheckExpression

pub has_symbol : Text → Kind → Text → Bool
has_symbol t symbol s = text_eq s t
has_symbol t _ s = false

-- `token == _Token("symbol", t)`
abbrev pub is_symbol : Text → Token → Bool
is_symbol t k = has_symbol t k.kind k.text

pub has_word : Text → Kind → Text → Bool
has_word t word s = text_eq (upper s) t
has_word t _ s = false

-- `token.kind == "word" and token.text.upper() == t`
abbrev pub is_word : Text → Token → Bool
is_word t k = has_word t k.kind k.text

abbrev pub push : Token → Option (List Token × List Token) → Option (List Token × List Token)
push k none = none
push k (some (inside, rest)) = some (k ∷ inside, rest)

-- What a token does to the depth of parentheses
pub data Paren : Type 0 where
  opens closes neither : Paren

pub paren : Token → Paren
unfolding has_symbol
paren k =
    if is_symbol (codes "(") k then opens else if is_symbol (codes ")") k then closes else neither

-- The tokens up to the parenthesis that closes `nested` open ones, and those behind it
pub split_close : ℕ → List Token → Option (List Token × List Token)
unfolding paren
split_close nested [] = none
split_close zero (k ∷ ks) = none
split_close (suc zero) (k ∷ ks) = elim (paren k) [
  | opens ↦ push k (split_close 2 ks)
  | closes ↦ some ([], ks)
  | neither ↦ push k (split_close 1 ks)
]
split_close (suc (suc n)) (k ∷ ks) = elim (paren k) [
  | opens ↦ push k (split_close (suc (suc (suc n))) ks)
  | closes ↦ push k (split_close (suc n) ks)
  | neither ↦ push k (split_close (suc (suc n)) ks)
]

-- The name before a CHECK, from the tokens before it, the last one first
pub constraint_name : List Token → Option Text
unfolding has_word
constraint_name (n ∷ k ∷ ks) = if is_word (codes "CONSTRAINT") k then some n.text else none
constraint_name _ = none

-- The body of a CHECK from the tokens behind the word
pub body : List Token → Option (List Token)
unfolding has_symbol split_close
body [] = none
body (k ∷ ks) = if is_symbol (codes "(") k then split_close 1 ks >>= (λ p. some p.0) else none

-- What the loop of `sqlite_checks` does at a token
pub data TokenEvent : Type 0 where
  opens closes passes refuses : TokenEvent
  found : Option Text → List Token → TokenEvent

-- `depth` counts from the tokens so far: opened minus closed.
pub event : List Token → ℕ → ℕ → Token → List Token → TokenEvent
unfolding paren has_word constraint_name body
event before opened closed k ks = elim (paren k) [
  | Paren.opens ↦ opens
  | Paren.closes ↦ closes
  | neither ↦
      if opened == suc closed && is_word (codes "CHECK") k
      then elim (body ks) [ none ↦ refuses | some inside ↦ found (constraint_name before) inside ]
      else passes
]

-- The loop, which passes over `skipped` tokens before it looks at one again
pub find_checks : ℕ → List Token → ℕ → ℕ → ℕ → List Token → Option (List CheckShape)
unfolding event
find_checks depth_limit before opened closed skipped [] = some []
find_checks depth_limit before opened closed (suc skipped) (k ∷ ks) =
    find_checks depth_limit (k ∷ before) opened closed skipped ks
find_checks depth_limit before opened closed zero (k ∷ ks) =
    elim (event before opened closed k ks) [
      | opens ↦ find_checks depth_limit (k ∷ before) (suc opened) closed 0 ks
      | closes ↦ find_checks depth_limit (k ∷ before) opened (suc closed) 0 ks
      | passes ↦ find_checks depth_limit (k ∷ before) opened closed 0 ks
      | refuses ↦ none
      | found name inside ↦
          find_checks depth_limit (k ∷ before) opened closed (suc (suc (length inside))) ks
          >>= λ cs. some (record { name = name; expression = parse false depth_limit inside } ∷ cs)
    ]

abbrev pub accepted : Lexed → Option (List Token)
accepted (ok ks) = some ks
accepted (err e) = none

abbrev pub has_character : ℕ → Text → Bool
has_character c [] = false
has_character c (d ∷ t) = d == c || has_character c t

pub has_escape : Kind → Text → Bool
has_escape literal t = has_character b'\\' t
has_escape _ t = false

-- Whether a literal has a backslash in it
pub any_escape : List Token → Bool
unfolding has_escape
any_escape [] = false
any_escape (k ∷ ks) = has_escape k.kind k.text || any_escape ks

pub default_of : CheckExpression → Option Value
default_of (node Operator.literal v es) = some v
default_of e = none

-- `column_names` by their lowercase form; the last of two alike wins.
abbrev pub lower : Text → Text
lower [] = []
lower (c ∷ t) = (if leb b'A' c && leb c b'Z' then c + 32 else c) ∷ lower t

unfoldable pub find_column : Text → List Text → Option Text
find_column t [] = none
find_column t (n ∷ ns) = elim (find_column t ns) [
  | some m ↦ some m
  | none ↦ if text_eq (lower n) t then some n else none
]

-- `str(expression.value)`; a column that the parser made has a text.
unfoldable pub column_text : Value → Text
column_text (str t) = t
column_text (int s n) = []
column_text absent = []

mutual
  unfolding find_column column_text

  pub canonical_columns : List Text → CheckExpression → Option CheckExpression
  canonical_columns names (node Operator.column v es) =
      find_column (lower (column_text v)) names >>= λ n. some (node Operator.column (str n) nil)
  canonical_columns names (node op v es) = canonical_each names es >>= λ fs. some (node op v fs)

  pub canonical_each : List Text → Arguments → Option Arguments
  canonical_each names nil = some nil
  canonical_each names (cons e es) =
      canonical_columns names e >>= λ f. canonical_each names es >>= λ fs. some (cons f fs)

-- A last `;` is dropped.
pub drop_semicolon : List Token → List Token
unfolding has_symbol
drop_semicolon [] = []
drop_semicolon (k ∷ []) = if is_symbol (codes ";") k then [] else k ∷ []
drop_semicolon (k ∷ l ∷ ks) = k ∷ drop_semicolon (l ∷ ks)

-- The tokens behind the first WHERE outside of parentheses that stands after a closed list
pub find_where : ℕ → Bool → List Token → Option (List Token)
unfolding paren has_word
find_where depth columns_closed [] = none
find_where zero columns_closed (k ∷ ks) = elim (paren k) [
  | Paren.opens ↦ find_where 1 columns_closed ks
  | Paren.closes ↦ none
  | neither ↦
      if columns_closed && is_word (codes "WHERE") k
      then some ks
      else find_where zero columns_closed ks
]
find_where (suc depth) columns_closed (k ∷ ks) = elim (paren k) [
  | Paren.opens ↦ find_where (suc (suc depth)) columns_closed ks
  | Paren.closes ↦ find_where depth (depth == 0) ks
  | neither ↦ find_where (suc depth) columns_closed ks
]

module _ (beyond_alpha beyond_alnum : ℕ → Bool) (depth_limit : ℕ) where
  pub parse_check : Text → Option CheckExpression
  unfolding any_escape
  parse_check sql = accepted (lex beyond_alpha beyond_alnum true sql) >>= λ ks.
      if any_escape ks then none else parse false depth_limit ks

  pub sqlite_checks : Option Text → Option (List CheckShape)
  unfolding find_checks
  sqlite_checks none = none
  sqlite_checks (some sql) = accepted (lex beyond_alpha beyond_alnum false sql) >>= λ ks.
      find_checks depth_limit [] 0 0 0 ks

  pub parse_default_literal : Bool → Text → Option Value
  unfolding any_escape default_of
  parse_default_literal mariadb sql = accepted (lex beyond_alpha beyond_alnum mariadb sql) >>= λ ks.
      if mariadb && any_escape ks then none else parse true depth_limit ks >>= default_of

  pub sqlite_index_predicate : List Text → Option Text → Option CheckExpression
  unfolding canonical_columns drop_semicolon find_where
  sqlite_index_predicate column_names none = none
  sqlite_index_predicate column_names (some sql) =
      accepted (lex beyond_alpha beyond_alnum false sql) >>= λ ks.
      find_where 0 false (drop_semicolon ks) >>= λ behind.
      parse false depth_limit behind >>= canonical_columns column_names
