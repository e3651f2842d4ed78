-- ===== src/Pool/Events.antt =====
-- What callers and background tasks do keeps the books.
use snekql.Prelude.{
  ℕ, ◌≡◌, refl, ap, sym, ◌∙◌, ◌≤◌, Bool, true, false, not, ◌&&◌, Option, none, some, List, [], ◌∷◌,
  ltb, length, length-append, arith,
}
use snekql.Pool.{
  Pool, Closer, resting, waiting, trying, is_in, pop, guarded, admit, take_idle, checkout, give_up,
  finish_opening, end_opening, abandon_opening, reap, close_opening, detach, discard, give_back,
  release, end_discarded, close_discarded, free_slot,
}
use snekql.Pool.Lists.{
  count, count-append, count-is_in, count-take_out, length-take_out, popped_nothing, pop-Pops,
}
use snekql.Pool.Accounts.{IsStage, Inv}

pub guarded-Inv : (b : Bool) (q p : Pool) → Inv p → (b ≡ true → Inv q) → Inv (guarded b q p)
guarded-Inv true q p v h = h refl
guarded-Inv false q p v h = v

-- While a slot is taken, a close is at most in its first round or waiting.
busy-IsStage :
    (k : Closer) (p q : Pool)
    → IsStage k p
    → 1 ≤ p.admitted
    → q.closed ≡ p.closed
    → (p.closing ≡ true → q.closing ≡ true)
    → ((c : ℕ) → count c p.pending_close_connections ≤ count c q.pending_close_connections)
    → IsStage k q
busy-IsStage resting p q s h e f g = λ c. absurd (ground (arith, (s (sym e ∙ c)).0))
busy-IsStage waiting p q s h e f g = (f s.0, e ∙ s.1)
busy-IsStage (trying false cs bad) p q s h e f g = (f s.0, e ∙ s.1, λ c. omega (arith, s.2 c, g c))
busy-IsStage (trying true cs bad) p q s h e f g = absurd (omega (arith, s.3, h))

open-IsStage :
    (k : Closer) (p q : Pool) → IsStage k p → p.closing ≡ false → q.closed ≡ false → IsStage k q
open-IsStage resting p q s h e = λ c. cc
open-IsStage waiting p q s h e = cc
open-IsStage (trying false cs bad) p q s h e = absurd (ground (arith, s.0))
open-IsStage (trying true cs bad) p q s h e = absurd (ground (arith, s.0))

pub admit-Inv : (p : Pool) → Inv p → Inv (admit p)
unfolding admit
admit-Inv p v =
    guarded-Inv (not p.closed && not p.closing && ltb p.admitted p.pool_size) _ p v (λ h. record {
      slots = ground (arith, v.slots);
      bounded = ground (arith, v.bounded);
      placed = v.placed;
      spare = v.spare;
      quarantined = v.quarantined;
      stage = open-IsStage p.closer p _ v.stage (ground arith) (ground arith);
    })

take_idle-Inv : (p : Pool) → Inv p → 1 ≤ p.entering → Inv (take_idle (pop p.idle_connections) p)
unfolding take_idle
take_idle-Inv p v h = go (pop p.idle_connections) refl
  where
    go : (o : Option (List ℕ × ℕ)) → pop p.idle_connections ≡ o → Inv (take_idle o p)
    go none e = record {
      slots = omega (arith, v.slots, h);
      bounded = v.bounded;
      placed = v.placed;
      spare = omega (arith, v.slots, v.bounded, h, ap length (popped_nothing p.idle_connections e));
      quarantined = v.quarantined;
      stage =
          busy-IsStage p.closer p _ v.stage (omega (arith, v.slots, h)) refl (λ k. k)
            (λ c. omega arith);
    }
    go (some (rest, c)) e = record {
      slots = omega (arith, v.slots, h);
      bounded = v.bounded;
      placed = λ x. ground (arith, v.placed x, (pop-Pops p.idle_connections rest c e).counts x);
      spare = omega (arith, v.spare, (pop-Pops p.idle_connections rest c e).shorter);
      quarantined = v.quarantined;
      stage =
          busy-IsStage p.closer p _ v.stage (omega (arith, v.slots, h)) refl (λ k. k)
            (λ c. omega arith);
    }

pub checkout-Inv : (p : Pool) → Inv p → Inv (checkout p)
unfolding checkout
checkout-Inv p v = guarded-Inv (ltb 0 p.entering) _ p v (λ h. take_idle-Inv p v (ground arith))

pub give_up-Inv : (p : Pool) → Inv p → Inv (give_up p)
unfolding give_up
give_up-Inv p v = guarded-Inv (ltb 0 p.entering) _ p v (λ h. record {
  slots = ground (arith, v.slots);
  bounded = v.bounded;
  placed = v.placed;
  spare = v.spare;
  quarantined = v.quarantined;
  stage =
      busy-IsStage p.closer p _ v.stage (ground (arith, v.slots)) refl (λ k. k) (λ c. omega arith);
})

finish_opening-Inv : (b : Bool) (p : Pool) → Inv p → 1 ≤ p.opening → Inv (finish_opening b p)
unfolding finish_opening
finish_opening-Inv true p v h = record {
  slots = omega (arith, v.slots, h);
  bounded = v.bounded;
  placed = λ x. ground (arith, v.placed x);
  spare = omega (arith, v.spare, h);
  quarantined = v.quarantined;
  stage =
      busy-IsStage p.closer p _ v.stage (omega (arith, v.slots, h)) refl (λ k. k)
        (λ c. omega arith);
}
finish_opening-Inv false p v h = record {
  slots = omega (arith, v.slots, h);
  bounded = v.bounded;
  placed = λ x. ground (arith, v.placed x);
  spare = omega (arith, v.spare, h);
  quarantined = v.quarantined;
  stage =
      busy-IsStage p.closer p _ v.stage (omega (arith, v.slots, h)) refl (λ k. k)
        (λ c. omega arith);
}

pub end_opening-Inv : (p : Pool) → Inv p → Inv (end_opening p)
unfolding end_opening
end_opening-Inv p v =
    guarded-Inv (ltb 0 p.opening) _ p v (λ h. finish_opening-Inv _ p v (ground arith))

pub abandon_opening-Inv : (p : Pool) → Inv p → Inv (abandon_opening p)
unfolding abandon_opening
abandon_opening-Inv p v = guarded-Inv (ltb 0 p.opening) _ p v (λ h. record {
  slots = ground (arith, v.slots);
  bounded = v.bounded;
  placed = v.placed;
  spare = ground (arith, v.spare);
  quarantined = v.quarantined;
  stage =
      busy-IsStage p.closer p _ v.stage (ground (arith, v.slots)) refl (λ k. k) (λ c. omega arith);
})

reap-Inv : (b : Bool) (p : Pool) → Inv p → 1 ≤ p.reaping → Inv (reap b p)
unfolding reap
reap-Inv true p v h = record {
  slots = omega (arith, v.slots, h);
  bounded = v.bounded;
  placed = λ x. ground (arith, v.placed x);
  spare = omega (arith, v.spare, h);
  quarantined = v.quarantined;
  stage =
      busy-IsStage p.closer p _ v.stage (omega (arith, v.slots, h)) refl (λ k. k)
        (λ c. omega arith);
}
reap-Inv false p v h = record {
  slots = omega (arith, v.slots, h);
  bounded = v.bounded;
  placed = v.placed;
  spare = omega (arith, v.spare, h);
  quarantined = v.quarantined;
  stage =
      busy-IsStage p.closer p _ v.stage (omega (arith, v.slots, h)) refl (λ k. k)
        (λ c. omega arith);
}

pub close_opening-Inv : (b : Bool) (p : Pool) → Inv p → Inv (close_opening b p)
unfolding close_opening
close_opening-Inv b p v = guarded-Inv (ltb 0 p.reaping) _ p v (λ h. reap-Inv b p v (ground arith))

detach-Inv : (c : ℕ) (p : Pool) → Inv p → 1 ≤ count c p.leased → Inv (detach c p)
unfolding detach
detach-Inv c p v h = record {
  slots = omega (arith, v.slots, length-take_out c p.leased h);
  bounded = v.bounded;
  placed = λ x. ground (arith, v.placed x, count-take_out x c p.leased h);
  spare = omega (arith, v.spare, length-take_out c p.leased h);
  quarantined = v.quarantined;
  stage =
      busy-IsStage p.closer p _ v.stage (omega (arith, v.slots, length-take_out c p.leased h)) refl
        (λ k. k) (λ c. omega arith);
}

pub discard-Inv : (c : ℕ) (p : Pool) → Inv p → Inv (discard c p)
unfolding discard
discard-Inv c p v =
    guarded-Inv (is_in c p.leased) _ p v (λ h. detach-Inv c p v (count-is_in c p.leased h))

give_back-Inv : (b : Bool) (c : ℕ) (p : Pool) → Inv p → 1 ≤ count c p.leased → Inv (give_back b c p)
unfolding give_back
give_back-Inv true c p v h = detach-Inv c p v h
give_back-Inv false c p v h = record {
  slots = omega (arith, v.slots, length-take_out c p.leased h);
  bounded = v.bounded;
  placed = λ x. ground (
    arith,
    v.placed x,
    count-take_out x c p.leased h,
    count-append x p.idle_connections (c ∷ []),
  );
  spare =
      omega
        (arith, v.spare, length-take_out c p.leased h, length-append p.idle_connections (c ∷ []));
  quarantined = v.quarantined;
  stage =
      busy-IsStage p.closer p _ v.stage (omega (arith, v.slots, length-take_out c p.leased h)) refl
        (λ k. k) (λ c. omega arith);
}

pub release-Inv : (c : ℕ) (p : Pool) → Inv p → Inv (release c p)
unfolding release
release-Inv c p v =
    guarded-Inv (is_in c p.leased) _ p v (λ h. give_back-Inv _ c p v (count-is_in c p.leased h))

end_discarded-Inv :
    (ok : Bool) (c : ℕ) (p : Pool) → Inv p → 1 ≤ count c p.detached → Inv (end_discarded ok c p)
unfolding end_discarded
end_discarded-Inv true c p v h = record {
  slots = omega (arith, v.slots, length-take_out c p.detached h);
  bounded = v.bounded;
  placed = λ x. ground (arith, v.placed x, count-take_out x c p.detached h);
  spare = omega (arith, v.spare, length-take_out c p.detached h);
  quarantined = v.quarantined;
  stage =
      busy-IsStage p.closer p _ v.stage (omega (arith, v.slots, length-take_out c p.detached h))
        refl (λ k. k) (λ c. omega arith);
}
end_discarded-Inv false c p v h = record {
  slots = omega (arith, v.slots, length-take_out c p.detached h);
  bounded = v.bounded;
  placed = λ x. ground (
    arith,
    v.placed x,
    count-take_out x c p.detached h,
    count-append x p.pending_close_connections (c ∷ []),
  );
  spare = omega (arith, v.spare, length-take_out c p.detached h);
  quarantined = λ k. cc;
  stage =
      busy-IsStage p.closer p _ v.stage (omega (arith, v.slots, length-take_out c p.detached h))
        refl (λ k. refl) (λ x. omega (arith, count-append x p.pending_close_connections (c ∷ [])));
}

pub close_discarded-Inv : (c : ℕ) (ok : Bool) (p : Pool) → Inv p → Inv (close_discarded c ok p)
unfolding close_discarded
close_discarded-Inv c ok p v =
    guarded-Inv (is_in c p.detached) _ p v
      (λ h. end_discarded-Inv ok c p v (count-is_in c p.detached h))

pub free_slot-Inv : (p : Pool) → Inv p → Inv (free_slot p)
unfolding free_slot
free_slot-Inv p v = guarded-Inv (ltb 0 p.returning) _ p v (λ h. record {
  slots = ground (arith, v.slots);
  bounded = ground (arith, v.bounded);
  placed = v.placed;
  spare = v.spare;
  quarantined = v.quarantined;
  stage =
      busy-IsStage p.closer p _ v.stage (ground (arith, v.slots)) refl (λ k. k) (λ c. omega arith);
})
