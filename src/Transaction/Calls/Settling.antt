-- ===== src/Transaction/Calls/Settling.antt =====
-- What an exit leaves of the lease.
use snekql.Prelude.{
  ℕ, ◌↔◌, ◌⊎◌, inl, inr, ◌+◌, ◌≤◌, ◌≡◌, refl, Bool, true, false, not, List, arith, err,
  if◌then◌else◌,
}
use snekql.Transaction.{
  Driver, Transaction, raise, state_error, same_or_free, is_owner, closed_error, fresh,
  CommitOutcome,
}
use snekql.Transaction.Calls.{
  Call, run, abandon_nested, close_reusable, close_connected, close_by_commit, close_by_rollback,
  close, exit, join_close, joined,
}
use snekql.Transaction.Calls.Lease.{Inv, IsOrderly-counted, open_leases, acquisitions, settlements}
use snekql.Transaction.Calls.Closing.{fresh-Inv, run-Inv, exit-Inv}

-- The tasks from which an exit is accepted, while no close has begun.
pub record MayExit (task : ℕ) (t : Transaction) : Type 0 where
  pub permitted : same_or_free task t.nested_owner ≡ true
  pub unheld : is_owner task t.stream_owner ≡ false
  pub unclosed : t.close_started ≡ false

close_connected-connected :
    (raising : Bool) (e : CommitOutcome) (d : Driver) (t : Transaction)
    → t.connected ≡ false
    → (close_connected raising e d t).1.connected ≡ false
unfolding close_connected close_reusable close_by_commit close_by_rollback abandon_nested
close_connected-connected raising e d t h = ground arith

close_disconnects :
    (task : ℕ) (raising : Bool) (e : CommitOutcome) (d : Driver) (t : Transaction)
    → same_or_free task t.nested_owner ≡ true
    → (close task raising e d t).1.connected ≡ false
unfolding close
close_disconnects task raising e d t h = rw h (go t.connected refl)
  where
    go :
        (b : Bool)
        → t.connected ≡ b
        → (if not b
            then raise closed_error t
            else close_connected raising e d
                (record t { connected = false; closed = true })).1.connected
          ≡ false
    go false k = unfold raise in k
    go true k = close_connected-connected raising e d _ refl

exit_connected :
    (task : ℕ) (cancels raising : Bool) (e : CommitOutcome) (d : Driver) (t : Transaction)
    → ((exit task cancels raising e d t).1.connected ≡ false)
      ↔ ((t.connected ≡ false) ⊎ MayExit task t)
unfolding exit join_close close
exit_connected task cancels raising e d t =
    go (same_or_free task t.nested_owner) refl (is_owner task t.stream_owner) refl t.close_started
      refl t.connected refl
  where
    closing : Transaction
    closing = record t { close_started = true }

    go :
        (a : Bool)
        → same_or_free task t.nested_owner ≡ a
        → (b : Bool) → is_owner task t.stream_owner ≡ b
        → (c : Bool) → t.close_started ≡ c
        → (k : Bool) → t.connected ≡ k
        → ((if not a
              then raise state_error t
              else if b
              then raise state_error t
              else if c
              then (joined cancels (err closed_error), t)
              else (
                joined cancels (close task raising e d closing).0,
                (close task raising e d closing).1,
              )).1.connected
            ≡ false)
          ↔ ((t.connected ≡ false) ⊎ MayExit task t)
    go false h b i c j k l =
        (λ x. inl x, λ x. elim x [ inl y ↦ y | inr m ↦ absurd (ground (arith, h, m.permitted)) ])
    go true h true i c j k l =
        (λ x. inl x, λ x. elim x [ inl y ↦ y | inr m ↦ absurd (ground (arith, i, m.unheld)) ])
    go true h false i true j k l =
        (λ x. inl x, λ x. elim x [ inl y ↦ y | inr m ↦ absurd (ground (arith, j, m.unclosed)) ])
    go true h false i false j k l = (
      λ x. inr (record { permitted = h; unheld = i; unclosed = j }),
      λ x. close_disconnects task raising e d closing h,
    )

settled_iff :
    (t : Transaction)
    → Inv t
    → (settlements t.effects ≡ acquisitions t.effects) ↔ (t.connected ≡ false)
settled_iff t v = (λ h. off t.connected refl h, λ h. omega (arith, counted.0, v.settled h))
  where
    counted :
        (settlements t.effects + open_leases t.effects ≡ acquisitions t.effects)
        × (acquisitions t.effects ≤ 1)
    counted = IsOrderly-counted t.effects v.orderly

    off :
        (b : Bool)
        → t.connected ≡ b
        → settlements t.effects ≡ acquisitions t.effects
        → t.connected ≡ false
    off false k h = k
    off true k h = absurd (omega (arith, counted.0, (v.live k).0, h))

-- Whatever calls are made on a new transaction, and whatever the driver does in them: at most one
-- lease is ever acquired, driver calls go out only while it is open and before any call was cut off
-- or failed for another reason than a constraint, it is returned to the pool only after a COMMIT or
-- ROLLBACK that succeeded, and it is open exactly while the transaction is connected. Each lease
-- taken is settled once, or still open. An exit that comes next, cancelled or not and however its
-- driver calls end, leaves every lease settled exactly where that was so before, or where it comes
-- from a task that may exit: no close has begun, no open savepoint belongs to another task and no
-- open stream to this one.
pub run-fresh-Inv :
    (cs : List Call) (task : ℕ) (cancels raising : Bool) (e : CommitOutcome) (d : Driver)
    → let t = run fresh cs in
      let u = (exit task cancels raising e d t).1 in
      Inv t
      × (acquisitions t.effects ≤ 1)
      × (settlements t.effects + open_leases t.effects ≡ acquisitions t.effects)
      × ((settlements u.effects ≡ acquisitions u.effects)
          ↔ ((settlements t.effects ≡ acquisitions t.effects) ⊎ MayExit task t))
run-fresh-Inv cs task cancels raising e d = (v, counted.1, counted.0, (toward, back))
  where
    t : Transaction
    t = run fresh cs

    u : Transaction
    u = (exit task cancels raising e d t).1

    v : Inv t
    v = run-Inv fresh cs fresh-Inv

    w : Inv u
    w = exit-Inv task cancels raising e d t v

    counted :
        (settlements t.effects + open_leases t.effects ≡ acquisitions t.effects)
        × (acquisitions t.effects ≤ 1)
    counted = IsOrderly-counted t.effects v.orderly

    toward :
        settlements u.effects ≡ acquisitions u.effects
        → (settlements t.effects ≡ acquisitions t.effects) ⊎ MayExit task t
    toward h = elim ((exit_connected task cancels raising e d t).0 ((settled_iff u w).0 h)) [
      | inl k ↦ inl ((settled_iff t v).1 k)
      | inr m ↦ inr m
    ]

    back :
        (settlements t.effects ≡ acquisitions t.effects) ⊎ MayExit task t
        → settlements u.effects ≡ acquisitions u.effects
    back h = (settled_iff u w).1 (
        (exit_connected task cancels raising e d t).1
          (elim h [ inl k ↦ inl ((settled_iff t v).0 k) | inr m ↦ inr m ]))
