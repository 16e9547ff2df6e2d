-- ===== src/Threads/Meet.antt =====
-- No task leaves a barrier that another has not entered.
use peli.Base.{
  ℕ, ◌+◌, ◌≡◌, ◌≢◌, ◌≤◌, ◌<◌, inl, inr, refl, sym, ap, ◌∙◌, subst, Bool, Bool-cases, true, false,
  if◌then◌else◌, arith,
}
use peli.Threads.Barrier.{
  Place, outside, Barrier, new_barrier, update, enter, look_at, look, leaves, Reach, created,
  enters, looks,
}
use peli.Threads.Watching.{
  Watches, update_here, update_other, update_grows, same_or_not, Watches-grow, look_at-Watches,
  leaving, left_bounds,
}

record Meets (n : ℕ) (entered left : ℕ → ℕ) (s : Barrier) : Type 0 where
  counted : (j : ℕ) → s.sync_counter j ≡ entered j
  watches : (task : ℕ) → Watches s.sync_counter task (left task) (s.places task)
  meets : (task j : ℕ) → j < n → left task ≤ s.sync_counter j

new_barrier-Meets : (n : ℕ) → Meets n (λ task. 0) (λ task. 0) new_barrier
unfolding new_barrier
new_barrier-Meets n = record {
  counted = λ j. refl;
  watches = λ task. refl;
  meets = λ task j below. omega arith;
}

enter-Meets :
    (n task : ℕ) (entered left : ℕ → ℕ) (s : Barrier)
    → s.places task ≡ outside
    → Meets n entered left s
    → Meets n (update entered task (entered task + 1)) left (enter task s)
unfolding enter
enter-Meets n task entered left s free h = record {
  counted = λ j. elim (same_or_not j task) [
    | inl here ↦
        update_here s.sync_counter task j _ here
        ∙ ap (λ k. k + 1) (h.counted task)
        ∙ sym (update_here entered task j _ here)
    | inr other ↦
        update_other s.sync_counter task j _ other
        ∙ h.counted j
        ∙ sym (update_other entered task j _ other)
  ];
  watches = λ j. elim (same_or_not j task) [
    | inl here ↦
        subst (Watches (update s.sync_counter task (s.sync_counter task + 1)) j (left j))
          (sym (update_here s.places task j _ here))
          (
            update_here s.sync_counter task j _ here,
            ap left here ∙ subst (Watches s.sync_counter task (left task)) free (h.watches task),
            λ i none. absurd (omega (arith, none)),
          )
    | inr other ↦
        subst (Watches (update s.sync_counter task (s.sync_counter task + 1)) j (left j))
          (sym (update_other s.places task j _ other))
          (Watches-grow s.sync_counter _ j (left j) (s.places j) (update_grows s.sync_counter task)
            (update_other s.sync_counter task j _ other) (h.watches j))
  ];
  meets = λ t j below.
      let had : left t ≤ s.sync_counter j = h.meets t j below in
      let grown : s.sync_counter j ≤ update s.sync_counter task (s.sync_counter task + 1) j =
        update_grows s.sync_counter task j in
      omega arith;
}

own_meets :
    (b : Bool) (gone bound : ℕ)
    → (b ≡ true → gone + 1 ≤ bound)
    → gone ≤ bound
    → (if b then gone + 1 else gone) ≤ bound
own_meets true gone bound h k = h refl
own_meets false gone bound h k = k

module _ (n task : ℕ) where
  step_left : (ℕ → ℕ) → Place → ℕ → ℕ
  step_left left p = if leaves n p then update left task (left task + 1) else left

  left_here :
      (left : ℕ → ℕ) (p : Place)
      → step_left left p task ≡ (if leaves n p then left task + 1 else left task)
  unfolding step_left
  left_here left p = elim (Bool-cases (leaves n p)) [
    | inl out ↦ rw (out, if◌then◌else◌) (update_here left task task _ refl)
    | inr in_loop ↦ rw (in_loop, if◌then◌else◌) refl
  ]

  left_other : (left : ℕ → ℕ) (p : Place) (j : ℕ) → j ≢ task → step_left left p j ≡ left j
  unfolding step_left
  left_other left p j other = elim (Bool-cases (leaves n p)) [
    | inl out ↦ rw (out, if◌then◌else◌) (update_other left task j _ other)
    | inr in_loop ↦ rw (in_loop, if◌then◌else◌) refl
  ]

  look-Meets :
      (entered left : ℕ → ℕ) (s : Barrier)
      → Meets n entered left s
      → Meets n entered (step_left left (s.places task)) (look n task s)
  unfolding look
  look-Meets entered left s h = record {
    counted = h.counted;
    watches = λ j. elim (same_or_not j task) [
      | inl here ↦
          subst
            (λ k.
              Watches s.sync_counter k (step_left left (s.places task) k)
                (update s.places task (look_at n task s (s.places task)) k))
            (sym here)
            (subst (Watches s.sync_counter task (step_left left (s.places task) task))
              (sym (update_here s.places task task _ refl))
              (subst (λ k. Watches s.sync_counter task k (look_at n task s (s.places task)))
                (sym (left_here left (s.places task)))
                (look_at-Watches n task (left task) s (s.places task) (h.watches task))))
      | inr other ↦
          subst (Watches s.sync_counter j (step_left left (s.places task) j))
            (sym (update_other s.places task j _ other))
            (subst (λ k. Watches s.sync_counter j k (s.places j))
              (sym (left_other left (s.places task) j other)) (h.watches j))
    ];
    meets = λ t j below. elim (same_or_not t task) [
      | inr other ↦
          subst (λ k. k ≤ s.sync_counter j) (sym (left_other left (s.places task) t other))
            (h.meets t j below)
      | inl here ↦
          subst (λ k. step_left left (s.places task) k ≤ s.sync_counter j) (sym here)
            (subst (λ k. k ≤ s.sync_counter j) (sym (left_here left (s.places task)))
              (own_meets (leaves n (s.places task)) (left task) (s.sync_counter j)
                (leaving n task (left task) s (s.places task) j (h.watches task) below)
                (h.meets task j below)))
    ];
  }

Reach-Meets :
    (n : ℕ) {entered left : ℕ → ℕ} {s : Barrier} → Reach n entered left s → Meets n entered left s
unfolding step_left
Reach-Meets n created = new_barrier-Meets n
Reach-Meets n (enters {entered} {left} {s} task r free) =
    enter-Meets n task entered left s free (Reach-Meets n r)
Reach-Meets n (looks {entered} {left} {s} task r) =
    look-Meets n task entered left s (Reach-Meets n r)

-- However the steps of `n` tasks interleave, a task has left no more barriers than any of the `n`
-- has entered, so that none leaves its k-th barrier before all have entered theirs; and a task has
-- entered as many as it has left or one more.
pub barrier_lem :
    (n : ℕ) {entered left : ℕ → ℕ} {s : Barrier}
    → Reach n entered left s
    → (task : ℕ)
    → ((j : ℕ) → j < n → left task ≤ entered j)
      × (left task ≤ entered task)
      × (entered task ≤ left task + 1)
barrier_lem n {entered} {left} {s} r task =
    let h = Reach-Meets n r in
    let (least, most) =
      left_bounds s.sync_counter task (left task) (s.places task) (h.watches task) in
    let same : s.sync_counter task ≡ entered task = h.counted task in
    (
      λ j below. subst (λ k. left task ≤ k) (h.counted j) (h.meets task j below),
      omega (arith, least, same),
      omega (arith, most, same),
    )
