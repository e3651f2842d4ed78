-- ===== src/Migrations/Sqlite/Standing.antt =====
-- When a database stands behind a prefix of a plan: its history rows and the effects of its bodies
-- agree.
use snekql.Prelude.{
  ℕ, zero, suc, ◌≤◌, ◌<◌, ◌≡◌, refl, ap, Option, none, some, List, [], ◌∷◌, ◌++◌, arith, length,
  take, get_elem?, Text, Result, ok, err,
}
use snekql.Migrations.{Migration, MigrationPlan, MigrationResult, history_record}
use snekql.Migrations.Prefix.{records}
use snekql.Migrations.Sqlite.{
  History, absent, unknown, v1, v2, Database, Body, done, ended, failed, Turn, MigrateError,
}

-- The history stands for the first `k` migrations.
abbrev pub Tracks : MigrationPlan → ℕ → History → Type 0
Tracks plan k absent = k ≡ 0
Tracks plan k (v1 legacy) = k ≡ length legacy
Tracks plan k (v2 rows) = rows ≡ records (take k plan)
Tracks plan k unknown = Unit {0}

pub records-take-suc :
    (plan : MigrationPlan) (k : ℕ) (m : Migration)
    → get_elem? plan k ≡ some m
    → records (take (suc k) plan) ≡ records (take k plan) ++ history_record m ∷ []
records-take-suc [] k m e = absurd (cc)
records-take-suc (x ∷ xs) zero m e = cc
records-take-suc (x ∷ xs) (suc k) m e = ap (◌∷◌ (history_record x)) (records-take-suc xs k m e)

pub length-records-take :
    (k : ℕ) (plan : MigrationPlan) → k ≤ length plan → length (records (take k plan)) ≡ k
length-records-take zero plan h = refl
length-records-take (suc k) [] h = absurd (omega arith)
length-records-take (suc k) (m ∷ ms) h = ap suc (length-records-take k ms (omega arith))

pub get_elem?-none : {A : Type 0} (xs : List A) (k : ℕ) → get_elem? xs k ≡ none → length xs ≤ k
get_elem?-none [] k e = omega arith
get_elem?-none (x ∷ xs) zero e = absurd (cc)
get_elem?-none (x ∷ xs) (suc k) e = omega (arith, get_elem?-none xs k e)

pub get_elem?_lt :
    {A : Type 0} (xs : List A) (k : ℕ) (x : A) → get_elem? xs k ≡ some x → k < length xs
get_elem?_lt [] k x e = absurd (cc)
get_elem?_lt (y ∷ xs) zero x e = omega arith
get_elem?_lt (y ∷ xs) (suc k) x e = omega (arith, get_elem?_lt xs k x e)

pub take_all : {A : Type 0} (k : ℕ) (xs : List A) → length xs ≤ k → take k xs ≡ xs
take_all zero [] h = refl
take_all zero (x ∷ xs) h = absurd (omega arith)
take_all (suc k) [] h = refl
take_all (suc k) (x ∷ xs) h = ap (◌∷◌ x) (take_all k xs (omega arith))

module _ {Schema : Type 0} (run_body : Text → Schema → Body Schema) where
  -- The bodies, each run once and in order.
  unfoldable pub bodies : MigrationPlan → Schema → Option Schema
  bodies [] s = some s
  bodies (m ∷ ms) s = elim (run_body m.sql s) [
    | done s' ↦ bodies ms s'
    | failed ↦ none
    | ended s' ↦ none
  ]

  pub bodies-take-suc :
      (plan : MigrationPlan) (k : ℕ) (m : Migration) (b s s' : Schema)
      → get_elem? plan k ≡ some m
      → bodies (take k plan) b ≡ some s
      → run_body m.sql s ≡ done s'
      → bodies (take (suc k) plan) b ≡ some s'
  unfolding bodies
  bodies-take-suc [] k m b s s' e h r = absurd (cc)
  bodies-take-suc (x ∷ xs) zero m b s s' e h r = ground arith
  bodies-take-suc (x ∷ xs) (suc k) m b s s' e h r =
      go (λ b' h'. bodies-take-suc xs k m b' s s' e h' r) (run_body x.sql b) refl
    where
      go :
          ((b' : Schema) → bodies (take k xs) b' ≡ some s → bodies (take (suc k) xs) b' ≡ some s')
          → (o : Body Schema) → run_body x.sql b ≡ o
          → bodies (x ∷ take (suc k) xs) b ≡ some s'
      go rest (done b') eq = rw (eq, bodies) (rest b' (rw (eq, bodies) at h))
      go rest failed eq = absurd (ground (arith, eq, h))
      go rest (ended b') eq = absurd (ground (arith, eq, h))

  -- The committed database stands behind the first `k` migrations over `base`.
  pub record StandsAt (plan : MigrationPlan) (base : Schema) (k : ℕ) (db : Database Schema)
      : Type 0 where
    pub within : k ≤ length plan
    pub tracked : Tracks plan k db.history
    pub effects : bodies (take k plan) base ≡ some db.schema

  -- It stands behind at least the first `k`.
  abbrev pub StandsFrom : MigrationPlan → Schema → ℕ → Database Schema → Type 0
  StandsFrom plan base k db = (j : ℕ) × (k ≤ j) × StandsAt plan base j db

  abbrev pub IsComplete : MigrationPlan → Schema → Database Schema → Type 0
  IsComplete plan base db = (db.history ≡ v2 (records plan)) × (bodies plan base ≡ some db.schema)

  -- How a run may end.
  abbrev pub Ended :
      MigrationPlan → Schema → ℕ → Database Schema → Result MigrateError MigrationResult → Type 0
  Ended plan base k db (ok r) = IsComplete plan base db
  Ended plan base k db (err e) = StandsFrom plan base k db

  -- Other connections only extend what is applied.
  abbrev pub OthersExtend : MigrationPlan → Schema → (ℕ → Turn Schema) → Type 0
  OthersExtend plan base turns =
      (i k : ℕ) (db : Database Schema)
      → StandsAt plan base k db
      → StandsFrom plan base k ((turns i).before db)
