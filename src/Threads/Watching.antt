-- ===== src/Threads/Watching.antt =====
-- What the place of a task says of the counters at a barrier.
use peli.Base.{
  ℕ, ◌+◌, ◌≡◌, ◌≢◌, ◌≤◌, ◌<◌, ◌⊎◌, inl, inr, refl, sym, ap, ◌∙◌, subst, Bool-cases, true, false,
  ◌&&◌, not, if◌then◌else◌, ◌==◌, leb, arith,
}
use peli.Threads.Barrier.{Place, outside, watching, Barrier, update, look_at, leaves}

-- What the place of a task says of the counters; `mine` is its own, `gone` how often it has left.
abbrev pub Watches : (ℕ → ℕ) → ℕ → ℕ → Place → Type 0
Watches counter task gone outside = gone ≡ counter task
Watches counter task gone (watching old i) =
    (counter task ≡ old + 1) × (gone ≡ old) × ((j : ℕ) → j < i → j ≢ task → old < counter j)

pub update_here : {X : Type 0} (f : ℕ → X) (task j : ℕ) (x : X) → j ≡ task → update f task x j ≡ x
update_here f task j x e = ground arith

pub update_other :
    {X : Type 0} (f : ℕ → X) (task j : ℕ) (x : X) → j ≢ task → update f task x j ≡ f j
update_other f task j x e = ground arith

pub update_grows : (f : ℕ → ℕ) (task j : ℕ) → f j ≤ update f task (f task + 1) j
update_grows f task j = grind arith

pub same_or_not : (j task : ℕ) → (j ≡ task) ⊎ (j ≢ task)
same_or_not j task = ground arith

-- Counters only grow under a place.
pub Watches-grow :
    (counter counter' : ℕ → ℕ) (task gone : ℕ) (p : Place)
    → ((j : ℕ) → counter j ≤ counter' j)
    → counter' task ≡ counter task
    → Watches counter task gone p
    → Watches counter' task gone p
Watches-grow counter counter' task gone outside grows same h = h ∙ sym same
Watches-grow counter counter' task gone (watching old i) grows same h = (
  same ∙ h.0,
  h.1,
  λ j below other.
      let more : old < counter j = h.2 j below other in
      let grown : counter j ≤ counter' j = grows j in omega arith,
)

past_old : (c old i task : ℕ) → i ≢ task → (not (i == task) && leb c old) ≡ false → old < c
past_old c old i task other e = grind arith

-- The task's own place after its step, and how often it has left.
pub look_at-Watches :
    (n task gone : ℕ) (s : Barrier) (p : Place)
    → Watches s.sync_counter task gone p
    → Watches s.sync_counter task (if leaves n p then gone + 1 else gone) (look_at n task s p)
unfolding look_at
look_at-Watches n task gone s outside h = h
look_at-Watches n task gone s (watching old i) h = elim (Bool-cases (leb n i)) [
  | inl done ↦ rw (done, if◌then◌else◌) (ap (λ k. k + 1) h.1 ∙ sym h.0)
  | inr on ↦
      rw (on, if◌then◌else◌)
        ((elim (not (i == task) && leb (s.sync_counter i) old)
            as (λ b.
              (not (i == task) && leb (s.sync_counter i) old) ≡ b
              → Watches s.sync_counter task gone
                  (if b then watching old i else watching old (i + 1))) [
                    | true ↦ λ e. h
                    | false ↦ λ e. (
                      h.0,
                      h.1,
                      λ j below other. elim (same_or_not j i) [
                        | inl last ↦
                            subst (λ k. old < s.sync_counter k) (sym last)
                              (past_old (s.sync_counter i) old i task (λ same. other (last ∙ same))
                                e)
                        | inr before ↦ h.2 j (omega arith) other
                      ],
                    )
                  ])
          refl)
]

-- A task that leaves has seen every other counter above its own old one.
pub leaving :
    (n task gone : ℕ) (s : Barrier) (p : Place) (j : ℕ)
    → Watches s.sync_counter task gone p
    → j < n
    → leaves n p ≡ true
    → gone + 1 ≤ s.sync_counter j
leaving n task gone s outside j h below e = absurd (cc)
leaving n task gone s (watching old i) j h below e = elim (same_or_not j task) [
  | inl here ↦
      let mine : s.sync_counter j ≡ old + 1 = ap s.sync_counter here ∙ h.0 in
      let was : gone ≡ old = h.1 in omega arith
  | inr other ↦
      let far : n ≤ i = ground arith in
      let seen : old < s.sync_counter j = h.2 j (omega arith) other in
      let was : gone ≡ old = h.1 in omega arith
]

pub left_bounds :
    (counter : ℕ → ℕ) (task gone : ℕ) (p : Place)
    → Watches counter task gone p
    → (gone ≤ counter task) × (counter task ≤ gone + 1)
left_bounds counter task gone outside h = (omega (arith, h), omega (arith, h))
left_bounds counter task gone (watching old i) h =
    let mine : counter task ≡ old + 1 = h.0 in
    let was : gone ≡ old = h.1 in (omega arith, omega arith)
