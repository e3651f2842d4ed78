-- ===== src/Checks/Tokens.antt =====
-- `_tokens` of snekql/_check_catalog.py. Which characters beyond ASCII are letters or alphanumeric is
-- the interpreter's: `beyond_alpha` and `beyond_alnum`. A position is the text from it on, and the
-- loop takes fuel, of which a unit for each character and one for the end are enough.
pub mod Lexing
pub mod Pieces
pub mod Phrases
pub mod Statements
use snekql.Prelude.{
  ℕ, zero, suc, Bool, true, false, not, ◌&&◌, ◌||◌, Option, none, some, List, [], ◌∷◌, leb, ltb,
  ◌==◌, if◌then◌else◌, Text, next_is, prefix_of, length, drop, Result, ok, err,
}

pub data Kind : Type 0 where
  word literal identifier number symbol : Kind

pub record Token : Type 0 where
  pub kind : Kind
  pub text : Text

pub data LexError : Type 0 where
  unsupported no_fuel : LexError

abbrev pub Lexed : Type 0
Lexed = Result LexError (List Token)

abbrev pub token : Kind → Text → Token
token k t = record { kind = k; text = t }

-- One round of the loop: nothing to keep, a token, or an error
pub data Scan : Type 0 where
  skips : Text → Scan
  emits : Token → Text → Scan
  refuses : Scan

abbrev pub is_digit : ℕ → Bool
is_digit c = leb b'0' c && leb c b'9'

abbrev pub is_letter : ℕ → Bool
is_letter c = (leb b'a' c && leb c b'z') || (leb b'A' c && leb c b'Z')

abbrev pub is_space : ℕ → Bool
is_space c = c == b' ' || c == b'\t' || c == b'\n' || c == b'\r' || c == 12

-- `sql.find("\n", …)`, and the text behind it
pub after_newline : Text → Text
after_newline [] = []
after_newline (c ∷ t) = if c == b'\n' then t else after_newline t

-- `sql.find("*/", …)`, and the text behind it
pub after_block : Text → Option Text
after_block [] = none
after_block (c ∷ t) = if c == b'*' && next_is b'/' t then some (drop 1 t) else after_block t

abbrev pub add_character : ℕ → Option (Text × Text) → Option (Text × Text)
add_character c none = none
add_character c (some (value, rest)) = some (c ∷ value, rest)

-- The inside of a quoted token and the text behind it; `doubles` is whether a doubled closing quote
-- stands for one.
pub read_quoted : ℕ → Bool → Text → Option (Text × Text)
read_quoted q doubles [] = none
read_quoted q doubles (c ∷ []) = if c == q then some ([], []) else none
read_quoted q doubles (c ∷ d ∷ t) =
    let one = read_quoted q doubles (d ∷ t) in
    let two = read_quoted q doubles t in
    if not (c == q)
    then add_character c one
    else if d == q && doubles
    then add_character q two
    else some ([], d ∷ t)

pub quoted : Kind → Option (Text × Text) → Scan
quoted k none = refuses
quoted k (some (value, rest)) = emits (token k value) rest

pub comment : Bool → Option Text → Scan
comment hint none = refuses
comment true (some rest) = refuses
comment false (some rest) = skips rest

-- `/*!` and `/*M!`, from behind the star
abbrev pub is_hint : Text → Bool
is_hint t = next_is b'!' t || (next_is b'M' t && next_is b'!' (drop 1 t))

abbrev pub starts_blank : Text → Bool
starts_blank [] = true
starts_blank (c ∷ t) = is_space c

abbrev pub is_ascii : Text → Bool
is_ascii [] = true
is_ascii (c ∷ t) = ltb c 128 && is_ascii t

-- `pair in (">=", "<=", "<>", "!=", "==")`
abbrev pub is_pair : ℕ → Text → Bool
is_pair c t =
    ((c == b'>' || c == b'<' || c == b'!' || c == b'=') && next_is b'=' t)
    || (c == b'<' && next_is b'>' t)

module _ (beyond_alpha beyond_alnum : ℕ → Bool) where
  abbrev pub is_alpha : ℕ → Bool
  is_alpha c = is_letter c || (leb 128 c && beyond_alpha c)

  abbrev pub is_alnum : ℕ → Bool
  is_alnum c = is_letter c || is_digit c || (leb 128 c && beyond_alnum c)

  abbrev pub in_word : ℕ → Bool
  in_word c = is_alnum c || c == b'_' || c == b'$'

  pub word_token : ℕ → Text × Text → Scan
  word_token c (v, rest) =
      emits (token (if is_ascii (c ∷ v) then word else identifier) (c ∷ v)) rest

  pub number_token : ℕ → Text × Text → Scan
  number_token c (v, rest) = emits (token number (c ∷ v)) rest

  -- What is neither blank nor a comment
  pub scan_token : ℕ → Text → Scan
  unfolding quoted word_token number_token
  scan_token c t =
      if c == b'\''
      then quoted literal (read_quoted c true t)
      else if c == b'"' || c == b'`'
      then quoted identifier (read_quoted c true t)
      else if c == b'['
      then quoted identifier (read_quoted b']' false t)
      else if is_alpha c || c == b'_'
      then word_token c (prefix_of in_word t)
      else if is_digit c
      then number_token c (prefix_of is_digit t)
      else if is_pair c t
      then emits (token symbol (c ∷ take_one t)) (drop 1 t)
      else emits (token symbol (c ∷ [])) t
    where
      take_one : Text → Text
      take_one [] = []
      take_one (d ∷ t) = d ∷ []

  pub scan : Bool → ℕ → Text → Scan
  unfolding comment
  scan mariadb c t =
      if is_space c
      then skips t
      else if c == b'-' && next_is b'-' t && (not mariadb || starts_blank (drop 1 t))
      then skips (after_newline (drop 1 t))
      else if c == b'/' && next_is b'*' t
      then comment (is_hint (drop 1 t)) (after_block (drop 1 t))
      else scan_token c t

  abbrev pub add_token : Token → Lexed → Lexed
  add_token k (ok ks) = ok (k ∷ ks)
  add_token k (err e) = err e

  pub go_on : (Text → Lexed) → Scan → Lexed
  go_on later (skips rest) = later rest
  go_on later (emits k rest) = add_token k (later rest)
  go_on later refuses = err unsupported

  pub tokens : ℕ → Bool → Text → Lexed
  unfolding go_on scan
  tokens zero mariadb sql = err no_fuel
  tokens (suc fuel) mariadb [] = ok []
  tokens (suc fuel) mariadb (c ∷ t) = go_on (tokens fuel mariadb) (scan mariadb c t)
