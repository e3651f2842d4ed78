-- ===== src/Pool/Accounts.antt =====
-- The books of the pool: each slot has one holder, each connection one place, and what a close may
-- rely on in each of its stages.
use snekql.Prelude.{ℕ, ◌+◌, ◌≡◌, ◌≤◌, true, false, ◌||◌, [], ltb, if◌then◌else◌, length}
use snekql.Pool.{Pool, Closer, resting, waiting, trying}
use snekql.Pool.Lists.{count}

-- The places where a connection can be
abbrev pub places : Pool → ℕ → ℕ
places p c =
    count c p.idle_connections
    + count c p.leased
    + count c p.detached
    + count c p.pending_close_connections
    + count c p.shut

abbrev pub IsStage : Closer → Pool → Type 0
IsStage resting p =
    p.closed ≡ true
    → (p.admitted ≡ 0) × (p.idle_connections ≡ []) × (p.pending_close_connections ≡ [])
IsStage waiting p = (p.closing ≡ true) × (p.closed ≡ false)
IsStage (trying false cs bad) p =
    (p.closing ≡ true)
    × (p.closed ≡ false)
    × ((c : ℕ) → count c cs ≤ count c p.pending_close_connections)
IsStage (trying true cs bad) p =
    (p.closing ≡ true)
    × (p.closed ≡ false)
    × ((c : ℕ) → count c cs ≤ count c p.pending_close_connections)
    × (p.admitted ≡ 0)
    × (p.idle_connections ≡ [])
    × (bad ≡ false → p.pending_close_connections ≡ cs)

pub record Inv (p : Pool) : Type 0 where
  pub slots :
      p.admitted
      ≡ p.entering + p.opening + p.reaping + length p.leased + length p.detached + p.returning
  pub bounded : p.admitted ≤ p.pool_size
  pub placed : (c : ℕ) → places p c ≡ (if ltb c p.opened then 1 else 0)
  pub spare :
      length p.idle_connections + p.opening + p.reaping + length p.leased + length p.detached
      ≤ p.pool_size
  pub quarantined : (p.closing || p.closed) ≡ false → p.pending_close_connections ≡ []
  pub stage : IsStage p.closer p
