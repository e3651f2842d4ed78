-- ===== src/Pool/Examples.antt =====
-- A pool of two slots in which one connection fails to close at first, and which is then closed.
use snekql.Prelude.{ℕ, ◌≡◌, refl, true, false, List, [], ◌∷◌, ltb, if◌then◌else◌, arith}
use snekql.Pool.{
  Event, init, step, run, admits, checks_out, opens, frees, begins_close, ends_wait, tries,
  discards, releases, closes,
}
use snekql.Pool.Lists.{count}
use snekql.Pool.Accounts.{Inv}
use snekql.Pool.Closing.{run-init-Inv}
use snekql.Pool.Closed.{closed_pool_is_empty}

-- Two callers lease connections 0 and 1; 0 is returned, 1 is discarded and does not close.
abbrev used : List Event
used =
    admits
    ∷ admits
    ∷ checks_out
    ∷ checks_out
    ∷ opens
    ∷ releases 0
    ∷ frees
    ∷ discards 1
    ∷ closes 1 false
    ∷ frees
    ∷ []

abbrev shut_down : List Event
shut_down =
    admits
    ∷ checks_out
    ∷ releases 0
    ∷ frees
    ∷ begins_close
    ∷ tries true
    ∷ tries true
    ∷ ends_wait
    ∷ tries true
    ∷ []

used_quarantines : (run (init 2) used).pending_close_connections ≡ 1 ∷ []
unfolding run
used_quarantines = refl

shut_down_closes : (run (init 2) shut_down).closed ≡ true
unfolding run
shut_down_closes = refl

run-init-Inv_example : Inv (run (init 2) used)
run-init-Inv_example = run-init-Inv 2 used (omega arith)

closed_pool_is_empty_example :
    ((c : ℕ)
      → count c (run (init 2) shut_down).shut
        ≡ (if ltb c (run (init 2) shut_down).opened then 1 else 0))
    × (step (run (init 2) shut_down) admits ≡ run (init 2) shut_down)
closed_pool_is_empty_example =
    closed_pool_is_empty 2 shut_down admits (omega arith) shut_down_closes
