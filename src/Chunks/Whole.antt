-- ===== src/Chunks/Whole.antt =====
-- The rows that a loop over a chunk stream sees.
use snekql.Prelude.{
  ℕ, zero, suc, ◌≡◌, refl, sym, ap, ◌∙◌, ◌≤◌, ◌<◌, true, false, Option, none, some, List, [], ◌∷◌,
  ◌++◌, length, length-append, All, arith, Result, ok, err,
}
use snekql.Chunks.{
  Stream, StreamError, stop_iteration, is_foreign, append_row, materialize, batch, deliver, fetch,
  fetch_from, next, consume, add_chunk, enter, new_stream,
}

abbrev pub join : {A : Type 0} → List (List A) → List A
join [] = []
join (c ∷ cs) = c ++ join cs

-- What a driver's `fetchmany` documents: the next rows, no more than asked for, and none only at the end.
pub record Fetches {Raw : Type 0} (fetchmany : ℕ → List Raw → List Raw × List Raw) (size : ℕ)
    : Type 0 where
  pub whole : (rows : List Raw) → (fetchmany size rows).0 ++ (fetchmany size rows).1 ≡ rows
  pub bounded : (rows : List Raw) → length (fetchmany size rows).0 ≤ size
  pub moves : (rows : List Raw) → (fetchmany size rows).0 ≡ [] → rows ≡ []

some_inj : {A : Type 0} {a b : A} → some a ≡ some b → a ≡ b
some_inj h = cc

module _ {Raw Row : Type 0} (materialize_row : Raw → Option Row)
    (fetchmany : ℕ → List Raw → List Raw × List Raw) (size : ℕ) where
  -- What a split list of rows decodes to
  record Split (xs ys : List Raw) (out : List Row) : Type 0 where
    front : List Row
    back : List Row
    front_decodes : materialize materialize_row fetchmany size xs ≡ some front
    back_decodes : materialize materialize_row fetchmany size ys ≡ some back
    together : front ++ back ≡ out
    sized : length front ≡ length xs

  appended :
      (o : Option Row) (m : Option (List Row)) (out : List Row)
      → append_row materialize_row fetchmany size o m ≡ some out
      → (r : Row) × (rs : List Row) × (o ≡ some r) × (m ≡ some rs) × (r ∷ rs ≡ out)
  unfolding append_row
  appended none m out h = cc
  appended (some r) none out h = cc
  appended (some r) (some rs) out h = (r, rs, refl, refl, cc)

  cons-Split :
      (x : Raw) (xs ys : List Raw) (r : Row) (rs out : List Row)
      → materialize_row x ≡ some r
      → r ∷ rs ≡ out
      → Split xs ys rs
      → Split (x ∷ xs) ys out
  unfolding materialize append_row
  cons-Split x xs ys r rs out a c d = record {
    front = r ∷ d.front;
    back = d.back;
    front_decodes = rw (a, d.front_decodes) refl;
    back_decodes = d.back_decodes;
    together = ap (λ t. r ∷ t) d.together ∙ c;
    sized = ap suc d.sized;
  }

  materialize-append :
      (xs ys : List Raw) (out : List Row)
      → materialize materialize_row fetchmany size (xs ++ ys) ≡ some out
      → Split xs ys out
  unfolding materialize
  materialize-append [] ys out h = record {
    front = [];
    back = out;
    front_decodes = refl;
    back_decodes = h;
    together = refl;
    sized = refl;
  }
  materialize-append (x ∷ xs) ys out h =
      let (r, rs, a, b, c) = appended _ _ out h in
      cons-Split x xs ys r rs out a c (materialize-append xs ys rs b)

  fetched_next :
      (task : ℕ) (rows : List Raw) (s : Stream Raw)
      → is_foreign task s.owner_task ≡ false
      → s.cursor ≡ some rows
      → next materialize_row fetchmany size task true true s
        ≡ batch materialize_row fetchmany size
            (fetchmany size rows).0
            (record s { cursor = some (fetchmany size rows).1 })
  unfolding next fetch_from fetch
  fetched_next task rows s h k = rw (h, k) refl

  -- What a loop has seen
  abbrev pub Seen : Option (List (List Row) × StreamError) → List Row → Type 0
  Seen r out =
      (chunks : List (List Row)) × (r ≡ some (chunks, stop_iteration))
      × (join chunks ≡ out)
      × All (λ c. (1 ≤ length c) × (length c ≤ size)) chunks

  after_chunk :
      (fuel task : ℕ) (chunk : List Row) (s s' : Stream Raw)
      → next materialize_row fetchmany size task true true s ≡ (ok chunk, s')
      → consume materialize_row fetchmany size (suc fuel) task s
        ≡ add_chunk materialize_row fetchmany size chunk
            (consume materialize_row fetchmany size fuel task s')
  unfolding consume
  after_chunk fuel task chunk s s' h =
      ap
        (λ (q : Result StreamError (List Row) × Stream Raw). elim q.0 [
          | ok c ↦
              add_chunk materialize_row fetchmany size c
                (consume materialize_row fetchmany size fuel task q.1)
          | err e ↦ some ([], e)
        ])
        h

  full_batch :
      (x : Raw) (xs : List Raw) (rows : List Row) (s : Stream Raw)
      → materialize materialize_row fetchmany size (x ∷ xs) ≡ some rows
      → batch materialize_row fetchmany size (x ∷ xs) s ≡ (ok rows, s)
  unfolding batch deliver
  full_batch x xs rows s h = ap (λ m. deliver materialize_row fetchmany size m s) h

  -- One round of the loop, by the batch that it fetched.
  round-Seen :
      (fuel task : ℕ) (chunk rest : List Raw) (s : Stream Raw) (out : List Row)
      → next materialize_row fetchmany size task true true s
        ≡ batch materialize_row fetchmany size chunk (record s { cursor = some rest })
      → (chunk ≡ [] → out ≡ [])
      → length chunk ≤ size
      → (d : Split chunk rest out)
      → (1 ≤ length chunk
          → Seen
              (consume materialize_row fetchmany size fuel task (record s { cursor = some rest }))
              d.back)
      → Seen (consume materialize_row fetchmany size (suc fuel) task s) out
  unfolding consume add_chunk batch deliver
  round-Seen fuel task [] rest s out h k l d ih = ([], rw (consume, h) refl, sym (k refl), tt)
  round-Seen fuel task (x ∷ xs) rest s out h k l d ih =
      let (chunks, a, b, c) = ih (omega arith) in
      (
        d.front ∷ chunks,
        after_chunk fuel task d.front s _ (h ∙ full_batch x xs d.front _ d.front_decodes)
            ∙ ap (add_chunk materialize_row fetchmany size d.front) a,
        ap (λ t. d.front ++ t) b ∙ d.together,
        ((omega (arith, d.sized), omega (arith, d.sized, l)), c),
      )

  consume-Seen :
      Fetches fetchmany size
      → (fuel task : ℕ) (rows : List Raw) (s : Stream Raw) (out : List Row)
      → materialize materialize_row fetchmany size rows ≡ some out
      → is_foreign task s.owner_task ≡ false
      → s.cursor ≡ some rows
      → length rows < fuel
      → Seen (consume materialize_row fetchmany size fuel task s) out
  unfolding materialize
  consume-Seen f zero task rows s out h k l m = absurd (omega (arith, m))
  consume-Seen f (suc fuel) task rows s out h k l m =
      round-Seen fuel task chunk rest s out (fetched_next task rows s k l) (λ e. nothing e)
        (f.bounded rows) d
        (λ e.
          consume-Seen f fuel task rest (record s { cursor = some rest }) d.back d.back_decodes k
            refl (omega (arith, e, m, ap length (f.whole rows), length-append chunk rest)))
    where
      chunk : List Raw
      chunk = (fetchmany size rows).0

      rest : List Raw
      rest = (fetchmany size rows).1

      d : Split chunk rest out
      d =
          materialize-append chunk rest out
            (ap (materialize materialize_row fetchmany size) (f.whole rows) ∙ h)

      nothing : chunk ≡ [] → out ≡ []
      nothing e =
          some_inj (sym h ∙ ap (materialize materialize_row fetchmany size) (f.moves rows e))

-- A loop over a stream that was entered over `rows`, each of which decodes, ends with the end of the
-- iteration, where the driver fetches as documented and fuel is left for each row and the end. Its
-- chunks joined are the decoded rows in order, and none is empty or larger than the size.
pub consume_whole :
    {Raw Row : Type 0} (materialize_row : Raw → Option Row)
    (fetchmany : ℕ → List Raw → List Raw × List Raw) (size fuel task : ℕ) (rows : List Raw)
    (out : List Row)
    → Fetches fetchmany size
    → materialize materialize_row fetchmany size rows ≡ some out
    → length rows < fuel
    → (chunks : List (List Row)) × (consume materialize_row fetchmany size fuel task
          (enter task true true (some rows) new_stream).1
        ≡ some (chunks, stop_iteration))
      × (join chunks ≡ out)
      × All (λ c. (1 ≤ length c) × (length c ≤ size)) chunks
unfolding enter is_foreign
consume_whole materialize_row fetchmany size fuel task rows out f h m =
    consume-Seen materialize_row fetchmany size f fuel task rows
      (enter task true true (some rows) new_stream).1 out h (ground arith) refl m
