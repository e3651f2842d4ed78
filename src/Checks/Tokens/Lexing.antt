-- ===== src/Checks/Tokens/Lexing.antt =====
-- The loop over the text ends, and how much fuel it has makes no difference where it is enough.
use snekql.Prelude.{
  ℕ, zero, suc, ◌≡◌, ◌≢◌, refl, ap, ◌≤◌, ◌<◌, Bool, true, false, not, ◌&&◌, ◌||◌, Option, none,
  some, [], ◌∷◌, ◌==◌, if◌then◌else◌, Text, next_is, prefix_of, length, drop, ok, err, arith,
}
use snekql.Checks.Tokens.{
  Kind, no_fuel, Lexed, Scan, skips, emits, refuses, after_newline, after_block, add_character,
  read_quoted, quoted, comment, is_space, starts_blank, is_hint, is_digit, in_word, is_alpha,
  is_pair, scan_token, scan, add_token, go_on, tokens,
}

-- No more than `n` characters are left.
abbrev pub Leaves : ℕ → Scan → Type 0
Leaves n (skips rest) = length rest ≤ n
Leaves n (emits k rest) = length rest ≤ n
Leaves n refuses = Unit {0}

abbrev LeavesSome : {A : Type 0} → (A → Text) → ℕ → Option A → Type 0
LeavesSome rest n none = Unit {0}
LeavesSome rest n (some a) = length (rest a) ≤ n

after_newline-Leaves : (t : Text) → length (after_newline t) ≤ length t
unfolding after_newline
after_newline-Leaves [] = omega arith
after_newline-Leaves (c ∷ t) = ground (arith, after_newline-Leaves t)

drop-Leaves : (t : Text) → length (drop 1 t) ≤ length t
drop-Leaves [] = omega arith
drop-Leaves (c ∷ t) = omega arith

weaken :
    {A : Type 0} (rest : A → Text) (m n : ℕ) (o : Option A)
    → m ≤ n
    → LeavesSome rest m o
    → LeavesSome rest n o
weaken rest m n none h k = tt
weaken rest m n (some a) h k = omega (arith, h, k)

after_block-Leaves : (t : Text) → LeavesSome (λ r. r) (length t) (after_block t)
unfolding after_block
after_block-Leaves [] = tt
after_block-Leaves (c ∷ t) =
    elim (c == b'*' && next_is b'/' t)
      as (λ b.
        LeavesSome (λ r. r) (length (c ∷ t)) (if b then some (drop 1 t) else after_block t)) [
          | true ↦ omega (arith, drop-Leaves t)
          | false ↦
              weaken (λ r. r) (length t) (length (c ∷ t)) (after_block t) (omega arith)
                (after_block-Leaves t)
        ]

added :
    (c m n : ℕ) (o : Option (Text × Text))
    → m ≤ n
    → LeavesSome (λ (p : Text × Text). p.1) m o
    → LeavesSome (λ (p : Text × Text). p.1) n (add_character c o)
added c m n none h k = tt
added c m n (some (v, r)) h k = omega (arith, h, k)

read_quoted-Leaves :
    (q : ℕ) (doubles : Bool) (t : Text)
    → LeavesSome (λ (p : Text × Text). p.1) (length t) (read_quoted q doubles t)
unfolding read_quoted
read_quoted-Leaves q doubles [] = tt
read_quoted-Leaves q doubles (c ∷ []) =
    elim (c == q)
      as (λ b. LeavesSome (λ (p : Text × Text). p.1) 1 (if b then some ([], []) else none)) [
        | true ↦ omega arith
        | false ↦ tt
      ]
read_quoted-Leaves q doubles (c ∷ d ∷ t) =
    elim (not (c == q))
      as (λ b.
        LeavesSome (λ (p : Text × Text). p.1) (length (c ∷ d ∷ t))
          (if b
            then add_character c (read_quoted q doubles (d ∷ t))
            else if d == q && doubles
            then add_character q (read_quoted q doubles t)
            else some ([], d ∷ t))) [
              | true ↦
                  added c (length (d ∷ t)) _ (read_quoted q doubles (d ∷ t)) (omega arith)
                    (read_quoted-Leaves q doubles (d ∷ t))
              | false ↦
                  elim (d == q && doubles)
                    as (λ b.
                      LeavesSome (λ (p : Text × Text). p.1) (length (c ∷ d ∷ t))
                        (if b
                          then add_character q (read_quoted q doubles t)
                          else some ([], d ∷ t))) [
                            | true ↦
                                added q (length t) _ (read_quoted q doubles t) (omega arith)
                                  (read_quoted-Leaves q doubles t)
                            | false ↦ omega arith
                          ]
            ]

prefix_of-Leaves : (test : ℕ → Bool) (t : Text) → length (prefix_of test t).1 ≤ length t
unfolding prefix_of
prefix_of-Leaves test [] = omega arith
prefix_of-Leaves test (c ∷ t) = ground (arith, prefix_of-Leaves test t)

quoted-Leaves :
    (k : Kind) (n : ℕ) (o : Option (Text × Text))
    → LeavesSome (λ (p : Text × Text). p.1) n o
    → Leaves n (quoted k o)
unfolding quoted
quoted-Leaves k n none h = tt
quoted-Leaves k n (some (v, r)) h = h

comment-Leaves :
    (hint : Bool) (n : ℕ) (o : Option Text) → LeavesSome (λ r. r) n o → Leaves n (comment hint o)
unfolding comment
comment-Leaves hint n none h = tt
comment-Leaves true n (some r) h = tt
comment-Leaves false n (some r) h = h

if-Leaves :
    (b : Bool) (n : ℕ) (s r : Scan) → Leaves n s → Leaves n r → Leaves n (if b then s else r)
if-Leaves true n s r h k = h
if-Leaves false n s r h k = k

module _ (beyond_alpha beyond_alnum : ℕ → Bool) where
  scan_token-Leaves :
      (c : ℕ) (t : Text) → Leaves (length t) (scan_token beyond_alpha beyond_alnum c t)
  unfolding scan_token
  scan_token-Leaves c t =
      if-Leaves (c == b'\'') _ _ _
        (quoted-Leaves _ _ (read_quoted c true t) (read_quoted-Leaves c true t))
        (if-Leaves (c == b'"' || c == b'`') _ _ _
          (quoted-Leaves _ _ (read_quoted c true t) (read_quoted-Leaves c true t))
          (if-Leaves (c == b'[') _ _ _
            (quoted-Leaves _ _ (read_quoted b']' false t) (read_quoted-Leaves b']' false t))
            (if-Leaves (is_alpha beyond_alpha beyond_alnum c || c == b'_') _ _ _
              (prefix_of-Leaves (in_word beyond_alpha beyond_alnum) t)
              (if-Leaves (is_digit c) _ _ _ (prefix_of-Leaves is_digit t)
                (if-Leaves (is_pair c t) _ _ _ (drop-Leaves t) (omega arith))))))

  pub scan-Leaves :
      (m : Bool) (c : ℕ) (t : Text) → Leaves (length t) (scan beyond_alpha beyond_alnum m c t)
  unfolding scan
  scan-Leaves m c t = if-Leaves (is_space c) _ _ _ (omega arith) (
      if-Leaves (c == b'-' && next_is b'-' t && (not m || starts_blank (drop 1 t))) _ _ _
        (omega (arith, after_newline-Leaves (drop 1 t), drop-Leaves t))
        (if-Leaves (c == b'/' && next_is b'*' t) _ _ _
          (comment-Leaves (is_hint (drop 1 t)) _ (after_block (drop 1 t)) (
            weaken (λ r. r) (length (drop 1 t)) _ (after_block (drop 1 t)) (drop-Leaves t)
              (after_block-Leaves (drop 1 t))))
          (scan_token-Leaves c t)))

  go_on-same :
      (f g : Text → Lexed) (n : ℕ) (s : Scan)
      → Leaves n s
      → ((r : Text) → length r ≤ n → f r ≡ g r)
      → go_on beyond_alpha beyond_alnum f s ≡ go_on beyond_alpha beyond_alnum g s
  unfolding go_on
  go_on-same f g n (skips r) h k = k r h
  go_on-same f g n (emits t r) h k = ap (add_token beyond_alpha beyond_alnum t) (k r h)
  go_on-same f g n refuses h k = refl

  pub tokens_enough :
      (m n : ℕ) (b : Bool) (t : Text)
      → length t < m
      → length t < n
      → tokens beyond_alpha beyond_alnum m b t ≡ tokens beyond_alpha beyond_alnum n b t
  unfolding tokens
  tokens_enough zero n b t h k = absurd (omega (arith, h))
  tokens_enough (suc m) zero b t h k = absurd (omega (arith, k))
  tokens_enough (suc m) (suc n) b [] h k = refl
  tokens_enough (suc m) (suc n) b (c ∷ t) h k =
      go_on-same (tokens beyond_alpha beyond_alnum m b) (tokens beyond_alpha beyond_alnum n b)
        (length t) (scan beyond_alpha beyond_alnum b c t) (scan-Leaves b c t)
        (λ r l. tokens_enough m n b r (omega (arith, h, l)) (omega (arith, k, l)))

  -- The tokens of a text, with the fuel that it needs.
  abbrev pub lex : Bool → Text → Lexed
  lex b t = tokens beyond_alpha beyond_alnum (suc (length t)) b t

  pub lex_step :
      (b : Bool) (c : ℕ) (t : Text)
      → lex b (c ∷ t)
        ≡ go_on beyond_alpha beyond_alnum (lex b) (scan beyond_alpha beyond_alnum b c t)
  unfolding tokens
  lex_step b c t =
      go_on-same (tokens beyond_alpha beyond_alnum (suc (length t)) b) (lex b) (length t)
        (scan beyond_alpha beyond_alnum b c t) (scan-Leaves b c t)
        (λ r l.
          tokens_enough (suc (length t)) (suc (length r)) b r (omega (arith, l)) (omega arith))

  never_out :
      (n : ℕ) (s : Scan) (f : Text → Lexed)
      → Leaves n s
      → ((r : Text) → length r ≤ n → f r ≢ err no_fuel)
      → go_on beyond_alpha beyond_alnum f s ≢ err no_fuel
  unfolding go_on
  never_out n (skips r) f h k = k r h
  never_out n (emits t r) f h k = kept (f r) (k r h)
    where
      kept : (l : Lexed) → l ≢ err no_fuel → add_token beyond_alpha beyond_alnum t l ≢ err no_fuel
      kept (ok ks) h = λ e. cc
      kept (err e) h = h
  never_out n refuses f h k = λ e. cc

  -- With fuel for each character and the end, the tokenizer never runs out of it.
  pub tokens_total :
      (fuel : ℕ) (mariadb : Bool) (sql : Text)
      → length sql < fuel
      → tokens beyond_alpha beyond_alnum fuel mariadb sql ≢ err no_fuel
  unfolding tokens
  tokens_total zero b t h = absurd (omega (arith, h))
  tokens_total (suc m) b [] h = λ e. cc
  tokens_total (suc m) b (c ∷ t) h =
      never_out (length t) (scan beyond_alpha beyond_alnum b c t)
        (tokens beyond_alpha beyond_alnum m b) (scan-Leaves b c t)
        (λ r l. tokens_total m b r (omega (arith, h, l)))
