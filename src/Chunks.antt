-- ===== src/Chunks.antt =====
-- Chunk streams of builder queries: `ChunkStream` of snekql/runtime.py. `Raw` rows come from the
-- driver's cursor, of which the rows not yet fetched are kept; `fetchmany` is the driver's, and
-- `materialize_row` gives none where the decoding raises. Whether a check of the transaction passes,
-- and whether a driver call does, are arguments. Raw statements are left out.
pub mod Whole
pub mod Ownership
mod Examples
use snekql.Prelude.{
  ℕ, zero, suc, Bool, true, false, not, ◌&&◌, ◌||◌, Option, none, some, List, [], ◌∷◌, ◌++◌, ◌≡◌,
  ◌≤◌, ◌==◌, length, if◌then◌else◌, Result, ok, err,
}

pub data StreamError : Type 0 where
  already_open not_open foreign_task rejected driver_failed decoding_failed stop_iteration
        not_locked :
      StreamError

pub record Stream (Raw : Type 0) : Type 0 where
  pub entered : Bool
  pub owner_task : Option ℕ
  pub cursor : Option (List Raw)
  pub failed : Bool
  pub locked : Bool
  pub stream_owner : Option ℕ

-- `_check_owner`, after the transaction's own check
pub is_foreign : ℕ → Option ℕ → Bool
is_foreign task none = false
is_foreign task (some owner) = not (owner == task)

abbrev pub Ends : Type 0 → Type 0 → Type 0
Ends Raw A = Result StreamError A × Stream Raw

module _ {Raw : Type 0} where
  abbrev pub new_stream : Stream Raw
  new_stream = record {
    entered = false;
    owner_task = none;
    cursor = none;
    failed = false;
    locked = false;
    stream_owner = none;
  }

  -- The cursor is opened under the lock, which a failure releases.
  pub open_cursor : ℕ → Option (List Raw) → Stream Raw → Ends Raw (Unit {0})
  open_cursor task none s = (err driver_failed, record s { locked = false })
  open_cursor task (some rows) s =
      (ok tt, record s { cursor = some rows; stream_owner = some task })

  -- `__aenter__`; the lock is free once it has been waited for.
  pub enter : ℕ → Bool → Bool → Option (List Raw) → Stream Raw → Ends Raw (Unit {0})
  unfolding open_cursor
  enter task nested_ok checks_ok rows s =
      if s.entered
      then (err already_open, s)
      else if not nested_ok
      then (err rejected, record s { entered = true })
      else if not checks_ok
      then (err rejected, record s { entered = true; owner_task = some task; locked = false })
      else open_cursor task rows
          (record s { entered = true; owner_task = some task; locked = true })

  -- `finally` of `__aexit__`: a stream that does not hold the lock fails to release it, and that
  -- comes before what closing the cursor gave.
  pub release_lock : Result StreamError (Unit {0}) → Stream Raw → Ends Raw (Unit {0})
  release_lock r s =
      if s.locked
      then (r, record s { stream_owner = none; locked = false })
      else (err not_locked, record s { stream_owner = none })

  -- `__aexit__`; the cursor of a stream that has one is closed.
  pub close_cursor : Bool → Option (List Raw) → Stream Raw → Ends Raw (Unit {0})
  unfolding release_lock
  close_cursor true (some rows) s = release_lock (ok tt) (record s { cursor = none })
  close_cursor false (some rows) s = release_lock (err driver_failed) (record s { cursor = none })
  close_cursor closes none s = release_lock (ok tt) s

  pub exit : ℕ → Bool → Bool → Stream Raw → Ends Raw (Unit {0})
  unfolding close_cursor is_foreign
  exit task nested_ok closes s =
      if not nested_ok
      then (err rejected, s)
      else if is_foreign task s.owner_task
      then (err foreign_task, s)
      else close_cursor closes s.cursor s

module _ {Raw Row : Type 0} (materialize_row : Raw → Option Row)
    (fetchmany : ℕ → List Raw → List Raw × List Raw) (size : ℕ) where
  pub append_row : Option Row → Option (List Row) → Option (List Row)
  append_row (some r) (some rs) = some (r ∷ rs)
  append_row _ _ = none

  pub materialize : List Raw → Option (List Row)
  unfolding append_row
  materialize [] = some []
  materialize (x ∷ xs) = append_row (materialize_row x) (materialize xs)

  pub deliver : Option (List Row) → Stream Raw → Ends Raw (List Row)
  deliver (some rows) s = (ok rows, s)
  deliver none s = (err decoding_failed, record s { failed = true })

  -- A fetched batch: the end of the stream, or rows to decode
  pub batch : List Raw → Stream Raw → Ends Raw (List Row)
  unfolding materialize deliver
  batch [] s = (err stop_iteration, s)
  batch (x ∷ xs) s = deliver (materialize (x ∷ xs)) s

  pub fetch : Bool → List Raw → Stream Raw → Ends Raw (List Row)
  unfolding batch
  fetch false rows s = (err driver_failed, record s { failed = true })
  fetch true rows s =
      let (chunk, rest) = fetchmany size rows in batch chunk (record s { cursor = some rest })

  pub fetch_from : Bool → Option (List Raw) → Stream Raw → Ends Raw (List Row)
  unfolding fetch
  fetch_from fetches none s = (err not_open, s)
  fetch_from fetches (some rows) s = fetch fetches rows s

  -- `__anext__`
  pub next : ℕ → Bool → Bool → Stream Raw → Ends Raw (List Row)
  unfolding fetch_from is_foreign
  next task nested_ok fetches s =
      if not nested_ok
      then (err rejected, s)
      else if is_foreign task s.owner_task
      then (err foreign_task, s)
      else fetch_from fetches s.cursor s

  pub add_chunk :
      List Row → Option (List (List Row) × StreamError) → Option (List (List Row) × StreamError)
  add_chunk chunk none = none
  add_chunk chunk (some (chunks, e)) = some (chunk ∷ chunks, e)

  -- `async for` over the stream, with fuel for its rounds: the chunks, and what ended it.
  pub consume : ℕ → ℕ → Stream Raw → Option (List (List Row) × StreamError)
  unfolding next add_chunk
  consume zero task s = none
  consume (suc fuel) task s =
      let (r, s') = next task true true s in
      elim r [ ok chunk ↦ add_chunk chunk (consume fuel task s') | err e ↦ some ([], e) ]
