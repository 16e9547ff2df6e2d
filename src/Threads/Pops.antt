-- ===== src/Threads/Pops.antt =====
-- The steps of `Pop` keep the invariant.
use peli.Base.{
  ℕ, zero, suc, ◌+◌, ◌%◌, ◌≡◌, inl, inr, refl, sym, ap, ◌∙◌, subst, Bool, true, false, ◌||◌, List,
  [], ◌++◌, if◌then◌else◌, ◌==◌, ltb, arith, append_nil,
}
use peli.Threads.Spsc.{
  Consumer, working, spinning, waiting, asleep, checking, fetching, advancing, stopped, failed,
  Spsc, pop_at, returned, signal_for_kill,
}
use peli.Threads.Held.{unadded, is_notifying, claimed, Consuming, Consuming-wake, claimed-wake}
use peli.Threads.Pushes.{Held, Inv, Inv-if}
use peli.Threads.Claims.{counted_claim, claim_waits, late_cases, at_place, claim-Held, advance-Held}

module _ {A : Type 0} where
  still : (s : Spsc A) (xs ys : List A) → Inv xs ys s → Inv xs (ys ++ []) s
  still s xs ys h = subst (λ l. Inv xs l s) (sym (append_nil ys)) h

  unmoved :
      (c : Consumer A) (s : Spsc A) (xs ys : List A)
      → s.consumer ≡ c
      → Held s.producer c s xs ys
      → Inv xs ys s
  unfolding Inv
  unmoved c s xs ys e h = subst (λ c. Held s.producer c s xs ys) (sym e) h

  -- The place depends on a test.
  at_either :
      (b : Bool) (c d d' : Consumer A) (s : Spsc A) (xs ys : List A)
      → Held s.producer c s xs ys
      → claimed d ≡ claimed c
      → claimed d' ≡ claimed c
      → (b ≡ true
          → Consuming d
              (unadded s.producer)
              (is_notifying s.producer)
              s.head
              s.tail
              s.pending
              s.exit_now
              s.buffer)
      → (b ≡ false
          → Consuming d'
              (unadded s.producer)
              (is_notifying s.producer)
              s.head
              s.tail
              s.pending
              s.exit_now
              s.buffer)
      → Inv xs ys (record s { consumer = if b then d else d' })
  unfolding Inv
  at_either true c d d' s xs ys h e e' k k' = at_place s.producer c d s xs ys h e (k refl)
  at_either false c d d' s xs ys h e e' k k' = at_place s.producer c d' s xs ys h e' (k' refl)

  wait-Inv :
      (s : Spsc A) (xs ys : List A)
      → Held s.producer waiting s xs ys
      → Inv xs ys
          (record s { consumer = if ltb s.pending 128 || s.exit_now then checking else asleep })
  wait-Inv s xs ys h =
      let late = late_cases s.producer waiting s xs ys h in
      at_either (ltb s.pending 128 || s.exit_now) waiting checking asleep s xs ys h refl refl
        (λ woken on.
          counted_claim s.head s.tail s.pending (unadded s.producer) h.pending_bound h.balance late
            (ground (arith, woken, on)))
        (λ calm. (
          ground (arith, calm),
          inl (
              claim_waits s.head s.tail s.pending (unadded s.producer) h.pending_bound h.balance
                late (ground (arith, calm))),
        ))

  pub pop_at-Inv :
      (rounds : ℕ) (c : Consumer A) (s : Spsc A) (xs ys : List A)
      → s.consumer ≡ c
      → Held s.producer c s xs ys
      → Inv xs (ys ++ returned c) (pop_at rounds c s)
  unfolding pop_at Inv
  pop_at-Inv rounds working s xs ys e h =
      still _ xs ys (at_place s.producer working _ s xs ys h refl tt)
  pop_at-Inv rounds (spinning zero) s xs ys e h =
      still _ xs ys (claim-Held (spinning zero) s xs ys refl h)
  pop_at-Inv rounds (spinning (suc n)) s xs ys e h = still _ xs ys (
      Inv-if (s.pending == 0) _ _ xs ys
        (λ none. at_place s.producer (spinning (suc n)) (spinning n) s xs ys h refl tt)
        (λ some. claim-Held (spinning (suc n)) s xs ys refl h))
  pop_at-Inv rounds waiting s xs ys e h = still _ xs ys (wait-Inv s xs ys h)
  pop_at-Inv rounds asleep s xs ys e h = still s xs ys (unmoved asleep s xs ys e h)
  pop_at-Inv rounds checking s xs ys e h =
      still _ xs ys
        (at_either s.exit_now checking stopped fetching s xs ys h refl refl (λ off. tt) h.consuming)
  pop_at-Inv rounds fetching s xs ys e h = still _ xs ys (
      at_either (s.tail == s.head) fetching failed (advancing (s.buffer s.head)) s xs ys h refl refl
        (λ clash. h.consuming.0 (ground (arith, clash))) (λ there. (h.consuming, refl)))
  pop_at-Inv rounds (advancing a) s xs ys e h = advance-Held a s xs ys h
  pop_at-Inv rounds stopped s xs ys e h = still s xs ys (unmoved stopped s xs ys e h)
  pop_at-Inv rounds failed s xs ys e h = absurd h.consuming

  pub signal_for_kill-Inv :
      (s : Spsc A) (xs ys : List A) → Inv xs ys s → Inv xs ys (signal_for_kill s)
  unfolding signal_for_kill Inv
  signal_for_kill-Inv s xs ys h = record {
    head_bound = h.head_bound;
    tail_bound = h.tail_bound;
    pending_bound = h.pending_bound;
    balance =
        ap (λ n. (s.pending + unadded s.producer + n) % 256) (claimed-wake s.consumer) ∙ h.balance;
    producing = h.producing;
    consuming =
        Consuming-wake s.consumer (unadded s.producer) s.head s.tail s.pending
          (is_notifying s.producer) _ s.exit_now true s.buffer (inr refl) h.consuming;
    order = h.order;
  }
