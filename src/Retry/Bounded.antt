-- ===== src/Retry/Bounded.antt =====
-- How the retry ends.
use snekql.Prelude.{
  ℕ, zero, suc, ◌+◌, ◌≡◌, refl, sym, ap, subst, ◌==◌, ==_iff, Bool-cases, inl, inr, ◌≤◌, ◌<◌, Bool,
  true, false, not, ◌||◌, Option, none, some, ◌⊎◌, leb, if◌then◌else◌, Result, ok, err, arith,
}
use snekql.Retry.{
  DriverError, is_sqlite_busy_error, Ending, after_sleep, retry_round, retry_from,
  retry_on_sqlite_busy,
}

-- A result after which another call may be made
abbrev pub is_busy : {A : Type 0} → Result DriverError A → Bool
is_busy (ok a) = false
is_busy (err e) = is_sqlite_busy_error e

module _ {A : Type 0} (max_retries : ℕ) (operation : ℕ → Result DriverError A)
    (sleep : ℕ → Option DriverError) where
  -- The last call's own result
  pub record Returned (last : ℕ) (r : Option (Ending A)) : Type 0 where
    pub ended : r ≡ some (operation last, suc last)
    pub settled : last < max_retries → is_busy (operation last) ≡ false

  -- The backoff after a busy call was cut off.
  pub record CutOff (last : ℕ) (r : Option (Ending A)) : Type 0 where
    pub error : DriverError
    pub raised : sleep last ≡ some error
    pub ended : r ≡ some (err error, suc last)
    pub busy : is_busy (operation last) ≡ true
    pub retriable : last < max_retries

  -- `last` is the index of the last call.
  pub record Settles (from : ℕ) (r : Option (Ending A)) : Type 0 where
    pub last : ℕ
    pub within : last ≤ max_retries
    pub started : from ≤ last
    pub ends : Returned last r ⊎ CutOff last r
    pub busy_before : (i : ℕ) → from ≤ i → i < last → is_busy (operation i) ≡ true
    pub slept_before : (i : ℕ) → from ≤ i → i < last → sleep i ≡ none

  stops :
      (a : ℕ) (r : Option (Ending A)) → a ≤ max_retries → Returned a r ⊎ CutOff a r → Settles a r
  stops a r h k = record {
    last = a;
    within = h;
    started = omega arith;
    ends = k;
    busy_before = λ i m n. absurd (omega (arith, m, n));
    slept_before = λ i m n. absurd (omega (arith, m, n));
  }

  -- What holds of a call, and of all after it, holds from it on.
  here_or_after :
      (P : ℕ → Type 0) (a i n : ℕ) → P a → ((i : ℕ) → suc a ≤ i → i < n → P i) → a ≤ i → i < n → P i
  here_or_after P a i n h k l m = elim (Bool-cases (a == i)) [
    | inl e ↦ subst P ((==_iff a i).0 e) h
    | inr e ↦ k i (ground (arith, e, l)) m
  ]

  slept :
      (a : ℕ) (again : Option (Ending A))
      → a < max_retries
      → is_busy (operation a) ≡ true
      → sleep a ≡ none
      → Settles (suc a) again
      → Settles a again
  slept a again l b k s = record {
    last = s.last;
    within = s.within;
    started = omega (arith, s.started);
    ends = s.ends;
    busy_before = λ i. here_or_after (λ j. is_busy (operation j) ≡ true) a i s.last b s.busy_before;
    slept_before = λ i. here_or_after (λ j. sleep j ≡ none) a i s.last k s.slept_before;
  }

  after_sleep-Settles :
      (a : ℕ) (o : Option DriverError) (again : Option (Ending A))
      → sleep a ≡ o
      → a < max_retries
      → is_busy (operation a) ≡ true
      → Settles (suc a) again
      → Settles a (after_sleep max_retries operation sleep a o again)
  unfolding after_sleep
  after_sleep-Settles a none again h l b s = slept a again l b h s
  after_sleep-Settles a (some e) again h l b s =
      stops a _ (omega (arith, l))
        (inr (record { error = e; raised = h; ended = refl; busy = b; retriable = l }))

  round-Settles :
      (a : ℕ) (o : Result DriverError A) (again : Option (Ending A))
      → operation a ≡ o
      → a ≤ max_retries
      → (a < max_retries → Settles (suc a) again)
      → Settles a (retry_round max_retries operation sleep a o again)
  unfolding retry_round
  round-Settles a (ok x) again h k ih =
      stops a _ k
        (inl (record { ended = ap (λ r. some (r, suc a)) (sym h); settled = λ l. rw h refl }))
  round-Settles a (err e) again h k ih = go (is_sqlite_busy_error e) refl (leb max_retries a) refl
    where
      go :
          (b : Bool)
          → is_sqlite_busy_error e ≡ b
          → (c : Bool) → leb max_retries a ≡ c
          → Settles a (
              if not b || c
              then some (err e, suc a)
              else after_sleep max_retries operation sleep a (sleep a) again)
      go false m c n =
          stops a _ k
            (inl (record { ended = ap (λ r. some (r, suc a)) (sym h); settled = λ l. rw h m }))
      go true m true n = stops a _ k (
          inl (record {
            ended = ap (λ r. some (r, suc a)) (sym h);
            settled = λ l. absurd (ground arith);
          }))
      go true m false n =
          after_sleep-Settles a (sleep a) again refl (ground arith) (rw h m) (ih (ground arith))

  retry_from-Settles :
      (fuel a : ℕ)
      → a ≤ max_retries
      → max_retries < fuel + a
      → Settles a (retry_from max_retries operation sleep fuel a)
  unfolding retry_from
  retry_from-Settles zero a h k = absurd (omega (arith, h, k))
  retry_from-Settles (suc fuel) a h k =
      round-Settles a (operation a) (retry_from max_retries operation sleep fuel (suc a)) refl h
        (λ l. retry_from-Settles fuel (suc a) (omega (arith, l)) (omega (arith, k)))

-- With fuel for one call more than the retries, the retry returns. Before its last call there were
-- nothing but busy errors, each slept off, and the operation has been called at most
-- `max_retries + 1` times. It gives the result of its last call, which is not busy itself or is the
-- call after the last permitted retry; or, where that call was busy and another permitted, it raises
-- what cut the backoff off.
pub retry_on_sqlite_busy-Settles :
    {A : Type 0} (max_retries : ℕ) (operation : ℕ → Result DriverError A)
    (sleep : ℕ → Option DriverError) (fuel : ℕ)
    → max_retries < fuel
    → Settles max_retries operation sleep 0 (retry_on_sqlite_busy max_retries operation sleep fuel)
unfolding retry_on_sqlite_busy
retry_on_sqlite_busy-Settles max_retries operation sleep fuel h =
    retry_from-Settles max_retries operation sleep fuel 0 (omega arith) (omega (arith, h))
