-- ===== src/Migrations/Sqlite/Atomic.antt =====
-- However a run of the loop ends, the committed database stands exactly behind some prefix of the
-- plan: its history rows and the effects of its bodies agree.
use snekql.Prelude.{
  ℕ, zero, suc, ◌+◌, ◌≤◌, ◌<◌, ◌≡◌, ◌≢◌, refl, sym, ap, subst, Bool, true, false, Option, none,
  some, List, [], ◌∷◌, ◌++◌, arith, length, take, get_elem?, Text, Result, ok, err,
}
use snekql.Migrations.{
  Migration, MigrationPlan, MigrationRecord, MigrationResult, history_record,
  validate_legacy_history, HistoryError,
}
use snekql.Migrations.Prefix.{records}
use snekql.Migrations.Sqlite.{
  History, absent, unknown, v1, v2, Database, Body, done, ended, failed, Turn, TurnEnd, returned,
  goes_on, raised, Lock, granted, busy, begin_error, Commit, committed, commit_error, late_cancel,
  Progress, MigrateError, checked, upgrade_legacy_history, ensure_v2_history, commit_body,
  commit_head, apply_next, record_history, checked_turn, locked_turn, pending_turn, read_turn,
  turn_once, apply_loop, apply_sqlite_migrations, note_already,
}
use snekql.Migrations.Sqlite.Standing.{
  Tracks, StandsAt, StandsFrom, IsComplete, bodies, Ended, OthersExtend, records-take-suc,
  length-records-take, get_elem?-none, get_elem?_lt, take_all, bodies-take-suc,
}

module _ {Schema : Type 0} (run_body : Text → Schema → Body Schema) where
  module _ (plan : MigrationPlan) (base : Schema)
      (stays : (sql : Text) (s s' : Schema) → run_body sql s ≢ ended s') where
    -- What a turn that began behind `k` migrations may end with.
    abbrev pub Sound : ℕ → TurnEnd Schema → Type 0
    Sound k (returned db r) = IsComplete run_body plan base db
    Sound k (goes_on db p) = StandsFrom run_body plan base (suc k) db
    Sound k (raised db e) = StandsFrom run_body plan base k db

    ensure-Tracks :
        (turn : Turn Schema) (adopt : Bool) (k : ℕ) (h : History) (rows : List MigrationRecord)
        (a : Bool)
        → Tracks plan k h
        → ensure_v2_history turn adopt plan h ≡ ok (rows, a)
        → rows ≡ records (take k plan)
    unfolding ensure_v2_history
    ensure-Tracks turn adopt k absent rows a t e = ground (arith, ap (λ n. records (take n plan)) t)
    ensure-Tracks turn adopt k unknown rows a t e = absurd (cc)
    ensure-Tracks turn adopt k (v2 rows') rows a t e = ground (arith, t)
    ensure-Tracks turn adopt k (v1 legacy) rows a t e =
        unfold upgrade_legacy_history checked validate_legacy_history in
        ground (arith, ap (λ n. records (take n plan)) t)

    commit_body-Sound :
        (c : Commit) (name : Text) (old new : Database Schema) (p : Progress) (k : ℕ)
        → StandsAt run_body plan base k old
        → StandsAt run_body plan base (suc k) new
        → Sound k (commit_body c name old new p)
    unfolding commit_body
    commit_body-Sound committed name old new p k ho hn = (suc k, omega arith, hn)
    commit_body-Sound commit_error name old new p k ho hn = (k, omega arith, ho)
    commit_body-Sound late_cancel name old new p k ho hn = (suc k, omega arith, hn)

    apply_next-Sound :
        (turn : Turn Schema) (m : Migration) (k : ℕ) (db : Database Schema) (p : Progress)
        (o : Body Schema)
        → run_body m.sql db.schema ≡ o
        → get_elem? plan k ≡ some m
        → StandsAt run_body plan base k db
        → Sound k (apply_next turn m (records (take k plan)) db p o)
    unfolding apply_next
    apply_next-Sound turn m k db p failed e at st = (k, omega arith, st)
    apply_next-Sound turn m k db p (ended s) e at st = absurd (stays m.sql db.schema s e)
    apply_next-Sound turn m k db p (done s) e at st = recorded turn.confirms_row
      where
        new : Database Schema
        new = record { history = v2 (records (take k plan) ++ history_record m ∷ []); schema = s }

        next : StandsAt run_body plan base (suc k) new
        next = record {
          within = get_elem?_lt plan k m at;
          tracked = sym (records-take-suc plan k m at);
          effects = bodies-take-suc run_body plan k m base db.schema s at st.effects e;
        }

        recorded : (b : Bool) → Sound k (record_history b turn.commit m.name db new p)
        recorded true = commit_body-Sound turn.commit m.name db _ p k st next
        recorded false = (k, omega arith, st)

    -- Rows read under the lock stand for the first `k` migrations.
    pending_turn-Sound :
        (turn : Turn Schema) (db : Database Schema) (p : Progress) (k : ℕ) (o : Option Migration)
        → StandsAt run_body plan base k db
        → get_elem? plan k ≡ o
        → Sound k (pending_turn run_body plan turn db p (records (take k plan)) o)
    unfolding pending_turn
    pending_turn-Sound turn db p k (some m) st e = apply_next-Sound turn m k db p _ refl e st
    pending_turn-Sound turn db p k none st e = at_head turn.commit
      where
        all : take k plan ≡ plan
        all = take_all k plan (get_elem?-none plan k e)

        new : Database Schema
        new = record { history = v2 (records (take k plan)); schema = db.schema }

        at_head : (c : Commit) → Sound k (commit_head c db new p)
        at_head committed =
            unfold commit_head in
            (
              ap (λ q. v2 (records q)) all,
              subst (λ q. bodies run_body q base ≡ some db.schema) all st.effects,
            )
        at_head commit_error = unfold commit_head in (k, omega arith, st)
        at_head late_cancel =
            unfold commit_head in
            (k, omega arith, record { within = st.within; tracked = refl; effects = st.effects })

    checked_turn-Sound :
        (turn : Turn Schema) (db : Database Schema) (p : Progress) (k : ℕ)
        (rows : List MigrationRecord) (r : Result HistoryError (Unit {0}))
        → StandsAt run_body plan base k db
        → rows ≡ records (take k plan)
        → Sound k (checked_turn run_body plan turn db p rows r)
    unfolding checked_turn
    checked_turn-Sound turn db p k rows (err e) st h = (k, omega arith, st)
    checked_turn-Sound turn db p k rows (ok _) st h = rw h (
        pending_turn-Sound turn db (note_already (records (take k plan)) p) k _ st
          (ap (get_elem? plan) (sym (length-records-take k plan st.within))))

    read_turn-Sound :
        (turn : Turn Schema) (adopt : Bool) (db : Database Schema) (p : Progress) (k : ℕ)
        (r : Result MigrateError (List MigrationRecord × Bool))
        → StandsAt run_body plan base k db
        → ensure_v2_history turn adopt plan db.history ≡ r
        → Sound k (read_turn run_body plan turn db p r)
    unfolding read_turn
    read_turn-Sound turn adopt db p k (err e) st h = (k, omega arith, st)
    read_turn-Sound turn adopt db p k (ok (rows, a)) st h =
        checked_turn-Sound turn db _ k rows _ st
          (ensure-Tracks turn adopt k db.history rows a st.tracked h)

    Sound-mono : (j k : ℕ) (t : TurnEnd Schema) → j ≤ k → Sound k t → Sound j t
    Sound-mono j k (returned db r) h s = s
    Sound-mono j k (goes_on db p) h (i, l, st) = (i, omega arith, st)
    Sound-mono j k (raised db e) h (i, l, st) = (i, omega arith, st)

    pub turn_once-Sound :
        (adopt : Bool) (turn : Turn Schema) (start : Database Schema) (p : Progress) (k : ℕ)
        → StandsFrom run_body plan base k (turn.before start)
        → Sound k (turn_once run_body plan adopt turn start p)
    unfolding turn_once
    turn_once-Sound adopt turn start p k (j, le, st) = Sound-mono k j _ le (go turn.lock)
      where
        go : (l : Lock) → Sound j (locked_turn run_body plan adopt turn (turn.before start) p l)
        go busy = (j, omega arith, st)
        go begin_error = (j, omega arith, st)
        go granted = read_turn-Sound turn adopt (turn.before start) p j _ st refl

    Ended-mono :
        (j k : ℕ) (db : Database Schema) (r : Result MigrateError MigrationResult)
        → j ≤ k
        → Ended run_body plan base k db r
        → Ended run_body plan base j db r
    Ended-mono j k db (ok r) h s = s
    Ended-mono j k db (err e) h (i, l, st) = (i, omega arith, st)

    loop-Ended :
        (fuel : ℕ) (adopt : Bool) (turns : ℕ → Turn Schema) (i k : ℕ) (db : Database Schema)
        (p : Progress)
        → OthersExtend run_body plan base turns
        → length plan < fuel + k
        → StandsAt run_body plan base k db
        → (out : Database Schema × Result MigrateError MigrationResult) × (apply_loop run_body plan
              fuel adopt turns i db p
            ≡ some out)
          × Ended run_body plan base k out.0 out.1
    unfolding apply_loop
    loop-Ended zero adopt turns i k db p keep enough st = absurd (omega (arith, st.within))
    loop-Ended (suc fuel) adopt turns i k db p keep enough st =
        go (λ j db' p' st' lt. loop-Ended fuel adopt turns (suc i) j db' p' keep (omega arith) st')
          (turn_once run_body plan adopt (turns i) db p) refl
          (turn_once-Sound adopt (turns i) db p k (keep i k db st))
      where
        go :
            ((j : ℕ) (db' : Database Schema) (p' : Progress)
              → StandsAt run_body plan base j db'
              → k < j
              → (out : Database Schema × Result MigrateError MigrationResult) × (apply_loop run_body
                    plan fuel adopt turns
                    (suc i)
                    db'
                    p'
                  ≡ some out)
                × Ended run_body plan base j out.0 out.1)
            → (t : TurnEnd Schema) → turn_once run_body plan adopt (turns i) db p ≡ t
            → Sound k t
            → (out : Database Schema × Result MigrateError MigrationResult) × (apply_loop run_body
                  plan
                  (suc fuel)
                  adopt
                  turns
                  i
                  db
                  p
                ≡ some out)
              × Ended run_body plan base k out.0 out.1
        go rest (returned db' r) e s = ((db', ok r), rw (e, apply_loop), s)
        go rest (raised db' x) e s = ((db', err x), rw (e, apply_loop), s)
        go rest (goes_on db' p') e (j, lt, st') =
            let (out, eq, h) = rest j db' p' st' lt in
            (out, rw (e, apply_loop) eq, Ended-mono k j out.0 out.1 (omega arith) h)

-- For bodies that never leave the owned transaction, from a database behind the first `k` migrations
-- of the plan, and with other connections that only extend what is applied, a run whose fuel
-- exceeds the pending migrations ends. On success the history holds the whole plan and every body
-- has run once, in order; on any error, a late cancellation included, the committed database stands
-- behind some prefix of at least `k` migrations, its history and its schema in agreement.
pub apply_sqlite_migrations_atomic :
    {Schema : Type 0} (run_body : Text → Schema → Body Schema) (plan : MigrationPlan)
    (base : Schema)
    → ((sql : Text) (s s' : Schema) → run_body sql s ≢ ended s')
    → (fuel : ℕ) (adopt : Bool) (turns : ℕ → Turn Schema) (k : ℕ) (db : Database Schema)
    → OthersExtend run_body plan base turns
    → length plan < fuel + k
    → StandsAt run_body plan base k db
    → (out : Database Schema × Result MigrateError MigrationResult) × (apply_sqlite_migrations
          run_body plan fuel adopt turns db
        ≡ some out)
      × Ended run_body plan base k out.0 out.1
unfolding apply_sqlite_migrations
apply_sqlite_migrations_atomic run_body plan base stays fuel adopt turns k db keep enough st =
    loop-Ended run_body plan base stays fuel adopt turns 0 k db _ keep enough st
