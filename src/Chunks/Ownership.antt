-- ===== src/Chunks/Ownership.antt =====
-- Who may use a stream, and what its exit leaves.
use snekql.Prelude.{
  ℕ, ◌≡◌, ◌≢◌, refl, Bool, true, false, Option, none, some, List, [], ◌∷◌, arith, Result, ok, err,
  if◌then◌else◌,
}
use snekql.Chunks.{
  Stream, StreamError, rejected, driver_failed, not_open, not_locked, foreign_task, is_foreign,
  enter, exit, next, new_stream, fetch_from, fetch, batch, deliver,
}

-- A fetch that some task tries: who it is, whether the savepoints let it, and whether the driver
-- delivers.
pub record Try : Type 0 where
  pub by : ℕ
  pub nested_ok : Bool
  pub fetches : Bool

-- A stream in the hands of a task.
pub record IsHeld {Raw : Type 0} (task : ℕ) (s : Stream Raw) : Type 0 where
  pub owned : s.owner_task ≡ some task
  pub holding : s.stream_owner ≡ some task
  pub locked : s.locked ≡ true
  pub rows : List Raw
  pub unread : s.cursor ≡ some rows

module _ {Raw Row : Type 0} (materialize_row : Raw → Option Row)
    (fetchmany : ℕ → List Raw → List Raw × List Raw) (size : ℕ) where
  abbrev pub try_all : List Try → Stream Raw → Stream Raw
  try_all [] s = s
  try_all (t ∷ ts) s =
      try_all ts (next materialize_row fetchmany size t.by t.nested_ok t.fetches s).1

  deliver-IsHeld :
      (task : ℕ) (o : Option (List Row)) (s : Stream Raw)
      → IsHeld task s
      → IsHeld task (deliver materialize_row fetchmany size o s).1
  unfolding deliver
  deliver-IsHeld task none s h = record {
    owned = h.owned;
    holding = h.holding;
    locked = h.locked;
    rows = h.rows;
    unread = h.unread;
  }
  deliver-IsHeld task (some out) s h = h

  batch-IsHeld :
      (task : ℕ) (chunk : List Raw) (s : Stream Raw)
      → IsHeld task s
      → IsHeld task (batch materialize_row fetchmany size chunk s).1
  unfolding batch
  batch-IsHeld task [] s h = h
  batch-IsHeld task (x ∷ xs) s h = deliver-IsHeld task _ s h

  fetch_from-IsHeld :
      (task : ℕ) (fetches : Bool) (cursor : Option (List Raw)) (s : Stream Raw)
      → IsHeld task s
      → IsHeld task (fetch_from materialize_row fetchmany size fetches cursor s).1
  unfolding fetch_from fetch
  fetch_from-IsHeld task fetches none s h = h
  fetch_from-IsHeld task false (some rows) s h = record {
    owned = h.owned;
    holding = h.holding;
    locked = h.locked;
    rows = h.rows;
    unread = h.unread;
  }
  fetch_from-IsHeld task true (some rows) s h =
      batch-IsHeld task (fetchmany size rows).0 (record s { cursor = some (fetchmany size rows).1 })
        (record {
          owned = h.owned;
          holding = h.holding;
          locked = h.locked;
          rows = (fetchmany size rows).1;
          unread = refl;
        })

  next-IsHeld :
      (task by : ℕ) (nested_ok fetches : Bool) (s : Stream Raw)
      → IsHeld task s
      → IsHeld task (next materialize_row fetchmany size by nested_ok fetches s).1
  unfolding next
  next-IsHeld task by false fetches s h = h
  next-IsHeld task by true fetches s h =
      elim (is_foreign by s.owner_task)
        as (λ b.
          IsHeld task
            (if b
              then (err foreign_task, s)
              else fetch_from materialize_row fetchmany size fetches s.cursor s).1) [
                | true ↦ h
                | false ↦ fetch_from-IsHeld task fetches s.cursor s h
              ]

  try_all-IsHeld :
      (task : ℕ) (tries : List Try) (s : Stream Raw) → IsHeld task s → IsHeld task (try_all tries s)
  try_all-IsHeld task [] s h = h
  try_all-IsHeld task (t ∷ ts) s h =
      try_all-IsHeld task ts _ (next-IsHeld task t.by t.nested_ok t.fetches s h)

abbrev pub refusal : Bool → StreamError
refusal nested_ok = if nested_ok then foreign_task else rejected

abbrev pub closing_result : Bool → Result StreamError (Unit {0})
closing_result closes = if closes then ok tt else err driver_failed

refused :
    {Raw Row : Type 0} (materialize_row : Raw → Option Row)
    (fetchmany : ℕ → List Raw → List Raw × List Raw) (size task other : ℕ)
    (nested_ok fetches closes : Bool) (s : Stream Raw)
    → IsHeld task s
    → other ≢ task
    → (next materialize_row fetchmany size other nested_ok fetches s ≡ (err (refusal nested_ok), s))
      × (exit other nested_ok closes s ≡ (err (refusal nested_ok), s))
unfolding exit next is_foreign
refused materialize_row fetchmany size task other nested_ok fetches closes s h k = ground arith

given_back :
    {Raw : Type 0} (task : ℕ) (closes : Bool) (s : Stream Raw)
    → IsHeld task s
    → let (r, u) = exit task true closes s in
      (r ≡ closing_result closes)
      × (u.cursor ≡ none)
      × (u.stream_owner ≡ none)
      × (u.locked ≡ false)
      × (u.owner_task ≡ some task)
unfolding exit is_foreign
given_back task closes s h = ground arith

ended :
    {Raw Row : Type 0} (materialize_row : Raw → Option Row)
    (fetchmany : ℕ → List Raw → List Raw × List Raw) (size task : ℕ) (fetches closes : Bool)
    (u : Stream Raw)
    → u.cursor ≡ none
    → u.locked ≡ false
    → u.owner_task ≡ some task
    → ((next materialize_row fetchmany size task true fetches u).0 ≡ err not_open)
      × ((exit task true closes u).0 ≡ err not_locked)
unfolding next exit is_foreign
ended materialize_row fetchmany size task fetches closes u h k l = ground arith

-- Once a task has entered a stream, and however many fetches any tasks have then tried in whatever
-- order, every other task can neither fetch nor close: it gets an error and changes nothing. The
-- exit of the owner, where the open savepoints let it, gives the cursor, the hold on the transaction
-- and its lock back whether the driver's close succeeds or not, and raises exactly the failure of
-- that close. Afterwards the owner fetches nothing more, and a second exit raises.
pub owner_only :
    {Raw Row : Type 0} (materialize_row : Raw → Option Row)
    (fetchmany : ℕ → List Raw → List Raw × List Raw) (size task other : ℕ) (rows : List Raw)
    (tries : List Try) (nested_ok fetches closes : Bool)
    → other ≢ task
    → let s =
        try_all materialize_row fetchmany size tries
          (enter task true true (some rows) new_stream).1 in
      let (r, u) = exit task true closes s in
      (next materialize_row fetchmany size other nested_ok fetches s ≡ (err (refusal nested_ok), s))
      × (exit other nested_ok closes s ≡ (err (refusal nested_ok), s))
      × (r ≡ closing_result closes)
      × (u.cursor ≡ none)
      × (u.stream_owner ≡ none)
      × (u.locked ≡ false)
      × ((next materialize_row fetchmany size task true fetches u).0 ≡ err not_open)
      × ((exit task true closes u).0 ≡ err not_locked)
unfolding enter
owner_only {Raw} materialize_row fetchmany size task other rows tries nested_ok fetches closes k =
    let (r₁, r₂) =
      refused materialize_row fetchmany size task other nested_ok fetches closes s held k in
    let (raised, cursor, owner, lock, by) = given_back task closes s held in
    let (no_fetch, no_exit) =
      ended materialize_row fetchmany size task fetches closes (exit task true closes s).1 cursor
        lock by in
    (r₁, r₂, raised, cursor, owner, lock, no_fetch, no_exit)
  where
    s : Stream Raw
    s = try_all materialize_row fetchmany size tries (enter task true true (some rows) new_stream).1

    held : IsHeld task s
    held =
        try_all-IsHeld materialize_row fetchmany size task tries _
          (record { owned = refl; holding = refl; locked = refl; rows = rows; unread = refl })
