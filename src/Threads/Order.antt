-- ===== src/Threads/Order.antt =====
-- What the queue between two threads promises, in every reachable state.
use peli.Base.{
  ℕ, ◌+◌, ◌%◌, ◌≡◌, ◌≢◌, ◌<◌, ◌⊎◌, inl, inr, refl, sym, ap, ◌∙◌, subst, true, false, List, [], ◌∷◌,
  ◌++◌, append_assoc, arith,
}
use peli.Threads.Spsc.{
  Producer, resting, enqueueing, writing, publishing, adding, notifying, Consumer, working,
  spinning, waiting, asleep, checking, fetching, advancing, stopped, failed, Spsc, new_spsc,
  push_step, pop_step, Reach, created, calls, pushes, pops, kills,
}
use peli.Threads.Held.{
  count, contents, in_hand, unadded, is_notifying, claimed, Consuming, unadded-cases,
}
use peli.Threads.Pushes.{Held, Inv, push_at-Inv, new_spsc-Inv, count_full}
use peli.Threads.Claims.{count_cases}
use peli.Threads.Pops.{pop_at-Inv, signal_for_kill-Inv}

-- The values that `pending_` takes.
three_values :
    (head tail n late taken : ℕ)
    → n < 256
    → (n + late + taken) % 256 ≡ count head tail
    → ((late ≡ 0) ⊎ ((late ≡ 1) × (head ≢ tail)))
    → ((taken ≡ 0) ⊎ (taken ≡ 1))
    → (n ≡ 0) ⊎ (n ≡ 1) ⊎ (n ≡ 255)
three_values head tail n late taken bound balance cases some = elim cases [
  | inl none ↦ elim some [
    | inl idle ↦ elim (count_cases head tail) [
      | inl z ↦ inl (omega (arith, balance ∙ z))
      | inr z ↦ inr (inl (omega (arith, balance ∙ z)))
    ]
    | inr busy ↦ elim (count_cases head tail) [
      | inl z ↦ inr (inr (omega (arith, balance ∙ z)))
      | inr z ↦ inl (omega (arith, balance ∙ z))
    ]
  ]
  | inr (one, differ) ↦
      let z = balance ∙ count_full head tail differ in
      elim some [ inl idle ↦ inl (omega (arith, z)) | inr busy ↦ inr (inr (omega (arith, z))) ]
]

empty_of_count : (head tail : ℕ) → count head tail ≡ 0 → head ≡ tail
empty_of_count head tail e = ground arith

module _ {A : Type 0} where
  call-Inv :
      (a : A) (s : Spsc A) (xs ys : List A)
      → s.producer ≡ resting
      → Held resting s.consumer s xs ys
      → Inv (xs ++ (a ∷ [])) ys (record s { producer = enqueueing a })
  unfolding Inv
  call-Inv a s xs ys e h = record {
    head_bound = h.head_bound;
    tail_bound = h.tail_bound;
    pending_bound = h.pending_bound;
    balance = h.balance;
    producing = tt;
    consuming = h.consuming;
    order =
        ap (λ l. l ++ (a ∷ [])) h.order
        ∙ append_assoc ys (contents s.head s.tail s.buffer ++ []) (a ∷ [])
        ∙ ap (λ l. ys ++ l) (append_assoc (contents s.head s.tail s.buffer) [] (a ∷ []));
  }

  Reach-Inv : (junk : ℕ → A) {xs ys : List A} {s : Spsc A} → Reach junk xs ys s → Inv xs ys s
  unfolding Inv push_step pop_step new_spsc
  Reach-Inv junk created = new_spsc-Inv junk
  Reach-Inv junk (calls {xs} {ys} {s} a r e) =
      call-Inv a s xs ys e (subst (λ p. Held p s.consumer s xs ys) e (Reach-Inv junk r))
  Reach-Inv junk (pushes {xs} {ys} {s} r) = push_at-Inv s.producer s xs ys refl (Reach-Inv junk r)
  Reach-Inv junk (pops {xs} {ys} {s} rounds r) =
      pop_at-Inv rounds s.consumer s xs ys refl (Reach-Inv junk r)
  Reach-Inv junk (kills {xs} {ys} {s} r) = signal_for_kill-Inv s xs ys (Reach-Inv junk r)

  claimed_cases : (c : Consumer A) → (claimed c ≡ 0) ⊎ (claimed c ≡ 1)
  claimed_cases working = inl refl
  claimed_cases (spinning n) = inl refl
  claimed_cases waiting = inr refl
  claimed_cases asleep = inr refl
  claimed_cases checking = inr refl
  claimed_cases fetching = inr refl
  claimed_cases (advancing a) = inr refl
  claimed_cases stopped = inr refl
  claimed_cases failed = inr refl

  adding_of_unadded : (p : Producer A) → unadded p ≡ 1 → p ≡ adding
  adding_of_unadded adding e = refl
  adding_of_unadded resting e = absurd (ground arith)
  adding_of_unadded (enqueueing a) e = absurd (ground arith)
  adding_of_unadded (writing a) e = absurd (ground arith)
  adding_of_unadded (publishing a) e = absurd (ground arith)
  adding_of_unadded notifying e = absurd (ground arith)

  notifying_of_alarm : (p : Producer A) → is_notifying p ≡ true → p ≡ notifying
  notifying_of_alarm notifying e = refl
  notifying_of_alarm adding e = absurd (cc)
  notifying_of_alarm resting e = absurd (cc)
  notifying_of_alarm (enqueueing a) e = absurd (cc)
  notifying_of_alarm (writing a) e = absurd (cc)
  notifying_of_alarm (publishing a) e = absurd (cc)

  never_failed :
      (s : Spsc A) (xs ys : List A) → Held s.producer s.consumer s xs ys → s.consumer ≢ failed
  never_failed s xs ys h e =
      subst
        (λ c.
          Consuming c (unadded s.producer) (is_notifying s.producer) s.head s.tail s.pending
            s.exit_now s.buffer)
        e h.consuming

  -- Whatever the two threads and the killing thread do in whatever order: `Pop` has returned the
  -- first of the tasks given to `Push`, in order and each once, and the rest are the one in the
  -- ring, if any, and the one that `Push` holds, if any; the check of `Pop` that the ring is not
  -- empty never fails; the indices stay in the ring and `pending_` is -1, 0 or 1, so that its eight
  -- bits never wrap.
  pub tasks_in_order :
      (junk : ℕ → A) {xs ys : List A} {s : Spsc A}
      → Reach junk xs ys s
      → (xs ≡ ys ++ (contents s.head s.tail s.buffer ++ in_hand s.producer))
        × (s.consumer ≢ failed)
        × (s.head < 2)
        × (s.tail < 2)
        × ((s.pending ≡ 0) ⊎ (s.pending ≡ 1) ⊎ (s.pending ≡ 255))
  unfolding Inv
  tasks_in_order junk {xs} {ys} {s} r =
      let h : Held s.producer s.consumer s xs ys = Reach-Inv junk r in
      (
        h.order,
        never_failed s xs ys h,
        h.head_bound,
        h.tail_bound,
        three_values s.head s.tail s.pending (unadded s.producer) (claimed s.consumer)
            h.pending_bound h.balance (unadded-cases s.producer s.head s.tail s.buffer h.producing)
            (claimed_cases s.consumer),
      )

  -- No wakeup is lost: in every reachable state in which the worker sleeps, it is not told to exit,
  -- and the ring is empty or `Push` is about to count the task in it or to notify the worker.
  pub sleeper_lem :
      (junk : ℕ → A) {xs ys : List A} {s : Spsc A}
      → Reach junk xs ys s
      → s.consumer ≡ asleep
      → (s.exit_now ≡ false)
        × ((s.head ≡ s.tail) ⊎ (s.producer ≡ adding) ⊎ (s.producer ≡ notifying))
  unfolding Inv
  sleeper_lem junk {xs} {ys} {s} r e =
      let h : Held s.producer asleep s xs ys =
        subst (λ c. Held s.producer c s xs ys) e (Reach-Inv junk r) in
      (
        h.consuming.0,
        elim h.consuming.1 [
          | inr alarm ↦ inr (inr (notifying_of_alarm s.producer alarm))
          | inl full ↦ elim (unadded-cases s.producer s.head s.tail s.buffer h.producing) [
            | inr (late, differ) ↦ inr (inl (adding_of_unadded s.producer late))
            | inl none ↦ inl (
                empty_of_count s.head s.tail (
                  sym h.balance
                  ∙ ap (λ n. (n + unadded s.producer + 1) % 256) full
                  ∙ ap (λ n. (255 + n + 1) % 256) none))
          ]
        ],
      )
