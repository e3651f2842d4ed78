-- ===== src/Transaction/Calls/Evidence.antt =====
-- The evidence that a clean exit leaves of its COMMIT.
use snekql.Prelude.{
  Bool, ℕ, ◌≡◌, ◌≢◌, ◌↔◌, ◌⊎◌, inl, inr, refl, sym, ap, ◌∙◌, true, false, none, List, [], ◌∷◌,
  arith, ok, err, if◌then◌else◌,
}
use snekql.Transaction.{
  cancelled, Driver, succeeds, times_out, violates, fails, interrupted, commit, Effect, released,
  discarded, called, Transaction, CommitOutcome, not_attempted, committed, rejected, uncertain,
}
use snekql.Transaction.Calls.{
  joined, join_close, exit, close_reusable, close_by_commit, reported_or,
}

-- Connected, unbroken, with no savepoint open and no stream: ready for its close.
pub record IsReady (t : Transaction) : Type 0 where
  pub connected : t.connected ≡ true
  pub reusable : t.connection_reusable ≡ true
  pub flat : t.nested_stack ≡ []
  pub unowned : t.nested_owner ≡ none
  pub unheld : t.stream_owner ≡ none
  pub unclosed : t.close_started ≡ false

exit_ready :
    (task : ℕ) (cancels : Bool) (e : CommitOutcome) (d : Driver) (t : Transaction)
    → IsReady t
    → let (r, u) =
        close_by_commit e d (record t { connected = false; closed = true; close_started = true }) in
      exit task cancels false e d t ≡ (joined cancels r, u)
unfolding exit join_close close_reusable
exit_ready task cancels e d t r = ground arith

reported_or_iff :
    (e : CommitOutcome) (d : Driver)
    → d ≢ succeeds
    → (reported_or e uncertain ≡ committed) ↔ ((d ≡ succeeds) ⊎ (e ≡ committed))
unfolding reported_or
reported_or_iff e d b = (toward e, λ h. elim h [ inl k ↦ absurd (b k) | inr k ↦ rw k refl ])
  where
    toward :
        (e : CommitOutcome) → reported_or e uncertain ≡ committed → (d ≡ succeeds) ⊎ (e ≡ committed)
    toward committed h = inr refl
    toward rejected h = cc
    toward not_attempted h = cc
    toward uncertain h = cc

released≢discarded : {es fs : List Effect} → (released ∷ es) ≢ (discarded ∷ fs)
released≢discarded h = cc

joined_iff :
    (cancels : Bool) (e : CommitOutcome) (d : Driver) (t : Transaction)
    → let r = joined cancels (close_by_commit e d t).0 in
      ((r ≡ ok tt) ↔ ((d ≡ succeeds) × (cancels ≡ false)))
      × ((r ≡ err cancelled) ↔ ((d ≡ interrupted) ⊎ (cancels ≡ true)))
unfolding close_by_commit joined
joined_iff true e d t = ((λ h. cc, λ h. cc), (λ h. inr refl, λ h. refl))
joined_iff false e succeeds t =
    ((λ h. (refl, refl), λ h. refl), (λ h. cc, λ h. elim h [ inl k ↦ cc | inr k ↦ cc ]))
joined_iff false e interrupted t = ((λ h. cc, λ h. cc), (λ h. inl refl, λ h. refl))
joined_iff false e violates t =
    ((λ h. cc, λ h. cc), (λ h. cc, λ h. elim h [ inl k ↦ cc | inr k ↦ cc ]))
joined_iff false e times_out t =
    ((λ h. cc, λ h. cc), (λ h. cc, λ h. elim h [ inl k ↦ cc | inr k ↦ cc ]))
joined_iff false e fails t =
    ((λ h. cc, λ h. cc), (λ h. cc, λ h. elim h [ inl k ↦ cc | inr k ↦ cc ]))

-- Leaving a ready transaction without an error sends one COMMIT, which a cancellation of the caller
-- does not stop. The exit returns exactly where the COMMIT succeeded and the caller was not
-- cancelled meanwhile, and raises a cancellation exactly where the caller or the COMMIT was
-- cancelled. In all cases the recorded outcome is `committed` exactly where the COMMIT succeeded or
-- the connection itself reports so, and the connection goes back to the pool exactly where it
-- succeeded.
pub clean_exit_evidence :
    (task : ℕ) (cancels : Bool) (e : CommitOutcome) (d : Driver) (t : Transaction)
    → IsReady t
    → let r = exit task cancels false e d t in
      ((r.0 ≡ ok tt) ↔ ((d ≡ succeeds) × (cancels ≡ false)))
      × ((r.0 ≡ err cancelled) ↔ ((d ≡ interrupted) ⊎ (cancels ≡ true)))
      × ((r.1.commit_outcome ≡ committed) ↔ ((d ≡ succeeds) ⊎ (e ≡ committed)))
      × ((r.1.effects ≡ released ∷ called commit d ∷ t.effects) ↔ (d ≡ succeeds))
      × ((r.1.effects ≡ discarded ∷ called commit d ∷ t.effects) ↔ (d ≢ succeeds))
unfolding close_by_commit
clean_exit_evidence task cancels e d t r = rw (exit_ready task cancels e d t r) (
  (joined_iff cancels e d closing).0,
  (joined_iff cancels e d closing).1,
  (go d).0,
  (go d).1,
  (go d).2,
)
  where
    closing : Transaction
    closing = record t { connected = false; closed = true; close_started = true }

    usable :
        (close_by_commit e succeeds
          (record t { connected = false; closed = true; close_started = true })).1.effects
        ≡ released ∷ called commit succeeds ∷ t.effects
    usable =
        ap (λ b. (if b then released else discarded) ∷ called commit succeeds ∷ t.effects)
          r.reusable

    dropped :
        (close_by_commit e succeeds
            (record t { connected = false; closed = true; close_started = true })).1.effects
          ≡ discarded ∷ called commit succeeds ∷ t.effects
        → succeeds ≢ succeeds
    dropped h = absurd (released≢discarded (sym usable ∙ h))

    go :
        (d : Driver)
        → let r =
            close_by_commit e d
              (record t { connected = false; closed = true; close_started = true }) in
          ((r.1.commit_outcome ≡ committed) ↔ ((d ≡ succeeds) ⊎ (e ≡ committed)))
          × ((r.1.effects ≡ released ∷ called commit d ∷ t.effects) ↔ (d ≡ succeeds))
          × ((r.1.effects ≡ discarded ∷ called commit d ∷ t.effects) ↔ (d ≢ succeeds))
    go succeeds = (
      (λ h. inl refl, λ h. refl),
      (λ h. refl, λ h. usable),
      (λ h. dropped h, λ h. absurd (h refl)),
    )
    go violates = (reported_or_iff e _ (λ h. cc), (λ h. cc, λ h. cc), (λ h. λ k. cc, λ h. refl))
    go times_out = (reported_or_iff e _ (λ h. cc), (λ h. cc, λ h. cc), (λ h. λ k. cc, λ h. refl))
    go fails = (reported_or_iff e _ (λ h. cc), (λ h. cc, λ h. cc), (λ h. λ k. cc, λ h. refl))
    go interrupted = (reported_or_iff e _ (λ h. cc), (λ h. cc, λ h. cc), (λ h. λ k. cc, λ h. refl))
