-- ===== src/Pool.antt =====
-- The connections of `SQLiteConnectionPool` in snekql/sqlite/pool.py, over the slots of its gate.
-- Connections are numbered as they are opened. The fields from `entering` on are the tasks that are
-- under way: callers between two awaits of `_acquire`, openings, abandoned openings, callers'
-- connections, connections in `_close_discarded`, and slots about to be freed. Each event is the text
-- between two awaits; one that cannot happen changes nothing.
pub mod Lists
pub mod Accounts
pub mod Events
pub mod Closing
pub mod Closed
mod Examples
use snekql.Prelude.{
  ℕ, zero, suc, ◌+◌, ◌-◌, Bool, true, false, not, ◌&&◌, ◌||◌, Option, none, some, List, [], ◌∷◌,
  ◌++◌, ltb, ◌==◌, if◌then◌else◌,
}

-- `_close`: not running; trying the handles that are left of a snapshot, with whether one has failed
-- and whether this is the last round; or waiting for the slots.
pub data Closer : Type 0 where
  resting waiting : Closer
  trying : Bool → List ℕ → Bool → Closer

pub record Pool : Type 0 where
  pub pool_size : ℕ
  pub closed : Bool
  pub closing : Bool
  pub idle_connections : List ℕ
  pub pending_close_connections : List ℕ
  pub admitted : ℕ
  pub closer : Closer
  pub opened : ℕ
  pub shut : List ℕ
  pub entering : ℕ
  pub opening : ℕ
  pub reaping : ℕ
  pub leased : List ℕ
  pub detached : List ℕ
  pub returning : ℕ

-- `__init__`, with the initial connection 0
abbrev pub init : ℕ → Pool
init size = record {
  pool_size = size;
  closed = false;
  closing = false;
  idle_connections = 0 ∷ [];
  pending_close_connections = [];
  admitted = 0;
  closer = resting;
  opened = 1;
  shut = [];
  entering = 0;
  opening = 0;
  reaping = 0;
  leased = [];
  detached = [];
  returning = 0;
}

pub is_in : ℕ → List ℕ → Bool
is_in c [] = false
is_in c (x ∷ xs) = x == c || is_in c xs

-- `list.remove`
pub take_out : ℕ → List ℕ → List ℕ
take_out c [] = []
take_out c (x ∷ xs) = let rest = take_out c xs in if x == c then xs else x ∷ rest

-- `list.pop`
pub keep_first : ℕ → Option (List ℕ × ℕ) → Option (List ℕ × ℕ)
keep_first x none = some ([], x)
keep_first x (some (ys, y)) = some (x ∷ ys, y)

pub pop : List ℕ → Option (List ℕ × ℕ)
unfolding keep_first
pop [] = none
pop (x ∷ xs) = keep_first x (pop xs)

pub is_none : List ℕ → Bool
is_none [] = true
is_none (x ∷ xs) = false

abbrev pub guarded : Bool → Pool → Pool → Pool
guarded true q p = q
guarded false q p = p

-- The gate admits a caller: `check_accepting_work` returns, and a slot is free.
pub admit : Pool → Pool
admit p =
    guarded (not p.closed && not p.closing && ltb p.admitted p.pool_size)
      (record p { admitted = p.admitted + 1; entering = p.entering + 1 }) p

-- `_acquire` under the condition: an idle connection, or an opening task
pub take_idle : Option (List ℕ × ℕ) → Pool → Pool
take_idle (some (rest, c)) p = record p {
  entering = p.entering - 1;
  idle_connections = rest;
  leased = c ∷ p.leased;
}
take_idle none p = record p { entering = p.entering - 1; opening = p.opening + 1 }

pub checkout : Pool → Pool
unfolding take_idle pop
checkout p = guarded (ltb 0 p.entering) (take_idle (pop p.idle_connections) p) p

-- A caller that is cut off before that
pub give_up : Pool → Pool
give_up p =
    guarded (ltb 0 p.entering) (record p { entering = p.entering - 1; returning = p.returning + 1 })
      p

-- The opening has ended in time: the caller has the connection, unless the pool shuts down, where
-- `_close_opening` goes on to close it.
pub finish_opening : Bool → Pool → Pool
finish_opening true p = record p {
  opening = p.opening - 1;
  opened = suc p.opened;
  leased = p.opened ∷ p.leased;
}
finish_opening false p = record p {
  opening = p.opening - 1;
  opened = suc p.opened;
  detached = p.opened ∷ p.detached;
}

pub end_opening : Pool → Pool
unfolding finish_opening
end_opening p = guarded (ltb 0 p.opening) (finish_opening (not p.closed && not p.closing) p) p

-- A timeout, a cancellation or an error of the opening
pub abandon_opening : Pool → Pool
abandon_opening p =
    guarded (ltb 0 p.opening) (record p { opening = p.opening - 1; reaping = p.reaping + 1 }) p

-- `_close_opening`, by whether the opening gave a connection after all
pub reap : Bool → Pool → Pool
reap true p = record p {
  reaping = p.reaping - 1;
  opened = suc p.opened;
  detached = p.opened ∷ p.detached;
}
reap false p = record p { reaping = p.reaping - 1; returning = p.returning + 1 }

pub close_opening : Bool → Pool → Pool
unfolding reap
close_opening got p = guarded (ltb 0 p.reaping) (reap got p) p

-- `discard` of a leased connection
pub detach : ℕ → Pool → Pool
unfolding take_out
detach c p = record p { leased = take_out c p.leased; detached = c ∷ p.detached }

pub discard : ℕ → Pool → Pool
unfolding detach is_in
discard c p = guarded (is_in c p.leased) (detach c p) p

-- `release` up to its call of `gate.release`
pub give_back : Bool → ℕ → Pool → Pool
unfolding detach take_out
give_back true c p = detach c p
give_back false c p = record p {
  leased = take_out c p.leased;
  idle_connections = p.idle_connections ++ c ∷ [];
  returning = p.returning + 1;
}

pub release : ℕ → Pool → Pool
unfolding give_back is_in
release c p = guarded (is_in c p.leased) (give_back (p.closed || p.closing) c p) p

-- `_close_discarded`: a failed close retains the handle and quarantines the pool.
pub end_discarded : Bool → ℕ → Pool → Pool
unfolding take_out
end_discarded true c p = record p {
  detached = take_out c p.detached;
  shut = c ∷ p.shut;
  returning = p.returning + 1;
}
end_discarded false c p = record p {
  detached = take_out c p.detached;
  pending_close_connections = p.pending_close_connections ++ c ∷ [];
  closing = true;
  returning = p.returning + 1;
}

pub close_discarded : ℕ → Bool → Pool → Pool
unfolding end_discarded is_in
close_discarded c ok p = guarded (is_in c p.detached) (end_discarded ok c p) p

-- `gate.release`
pub free_slot : Pool → Pool
free_slot p =
    guarded (ltb 0 p.returning)
      (record p { returning = p.returning - 1; admitted = p.admitted - 1 }) p

-- `close_connections` of the idle connections, up to its first close
pub start_round : Bool → Pool → Pool
start_round last p = record p {
  closing = true;
  idle_connections = [];
  pending_close_connections = p.pending_close_connections ++ p.idle_connections;
  closer = trying last (p.pending_close_connections ++ p.idle_connections) false;
}

-- `_close` begins where no other runs.
pub begin_close : Closer → Pool → Pool
unfolding start_round
begin_close resting p = guarded (not p.closed) (start_round false p) p
begin_close _ p = p

-- One physical close of a round
pub close_one : Bool → Bool → Bool → ℕ → List ℕ → Pool → Pool
unfolding take_out
close_one true last bad c cs p = record p {
  pending_close_connections = take_out c p.pending_close_connections;
  shut = c ∷ p.shut;
  closer = trying last cs bad;
}
close_one false last bad c cs p = record p { closer = trying last cs true }

-- The end of a round: a failure is raised with the pool still closing.
pub finish_round : Bool → Bool → Pool → Pool
finish_round last true p = record p { closer = resting }
finish_round false false p = record p { closer = waiting }
finish_round true false p = record p { closed = true; closing = false; closer = resting }

pub try_next : Bool → Closer → Pool → Pool
unfolding close_one finish_round
try_next ok (trying last (c ∷ cs) bad) p = close_one ok last bad c cs p
try_next ok (trying last [] bad) p = finish_round last bad p
try_next ok resting p = p
try_next ok waiting p = p

-- The wait ends once no slot is taken.
pub end_wait : Closer → Pool → Pool
unfolding start_round
end_wait waiting p = guarded (p.admitted == 0) (start_round true p) p
end_wait _ p = p

pub time_out : Closer → Pool → Pool
unfolding is_none
time_out waiting p = record p {
  closing = not (is_none p.pending_close_connections);
  closer = resting;
}
time_out _ p = p

pub data Event : Type 0 where
  admits checks_out gives_up opens abandons frees begins_close ends_wait times_out : Event
  reaps tries : Bool → Event
  discards releases : ℕ → Event
  closes : ℕ → Bool → Event

pub step : Pool → Event → Pool
unfolding admit checkout give_up end_opening abandon_opening free_slot begin_close end_wait time_out
    close_opening try_next discard release close_discarded
step p admits = admit p
step p checks_out = checkout p
step p gives_up = give_up p
step p opens = end_opening p
step p abandons = abandon_opening p
step p frees = free_slot p
step p begins_close = begin_close p.closer p
step p ends_wait = end_wait p.closer p
step p times_out = time_out p.closer p
step p (reaps got) = close_opening got p
step p (tries ok) = try_next ok p.closer p
step p (discards c) = discard c p
step p (releases c) = release c p
step p (closes c ok) = close_discarded c ok p

pub run : Pool → List Event → Pool
unfolding step
run p [] = p
run p (e ∷ es) = run (step p e) es
