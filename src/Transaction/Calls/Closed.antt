-- ===== src/Transaction/Calls/Closed.antt =====
-- A closed transaction.
use snekql.Prelude.{◌≡◌, refl, ◌∙◌, true, false, List, [], ◌∷◌, arith}
use snekql.Transaction.{fresh, Transaction, reserve_entry, complete_entry}
use snekql.Transaction.Calls.{
  run, join_close, close, Call, reserves, perform, run_query, exit, enter_nested, exit_nested,
}
use snekql.Transaction.Calls.Lease.{Inv}
use snekql.Transaction.Calls.Closing.{run-Inv, fresh-Inv}

record IsOver (t : Transaction) : Type 0 where
  closed : t.closed ≡ true
  unconnected : t.connected ≡ false
  idle : t.entering ≡ false

perform-IsOver :
    (c : Call) (t : Transaction)
    → IsOver t
    → IsOver (perform c t).1 × ((perform c t).1.effects ≡ t.effects)
unfolding perform reserve_entry complete_entry run_query enter_nested exit_nested exit join_close
    close
perform-IsOver reserves t v = ground arith
perform-IsOver c t v = ground arith

run-IsOver :
    (t : Transaction) (cs : List Call)
    → IsOver t
    → ((run t cs).closed ≡ true) × ((run t cs).effects ≡ t.effects)
unfolding run
run-IsOver t [] v = (v.closed, refl)
run-IsOver t (c ∷ cs) v =
    let (w, same) = perform-IsOver c t v in
    let (closed, rest) = run-IsOver (perform c t).1 cs w in (closed, rest ∙ same)

over : (t : Transaction) → Inv t → t.closed ≡ true → IsOver t
over t v h = record { closed = h; unconnected = ground arith; idle = ground arith }

-- Once a transaction, used in any way, is closed, it stays closed, and no further calls, however
-- many and of whatever kind, reach the pool or the driver: no second lease is taken and none is
-- settled again.
pub closed_is_silent :
    (before after : List Call)
    → (run fresh before).closed ≡ true
    → let u = run (run fresh before) after in
      (u.closed ≡ true) × (u.effects ≡ (run fresh before).effects)
closed_is_silent before after h =
    run-IsOver (run fresh before) after (over _ (run-Inv fresh before fresh-Inv) h)
