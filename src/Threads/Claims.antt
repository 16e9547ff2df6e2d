-- ===== src/Threads/Claims.antt =====
-- What `pending_` says of the ring, and the steps of `Pop` that change the counters.
use peli.Base.{
  ℕ, ◌+◌, ◌%◌, ◌≡◌, ◌≢◌, ◌<◌, ◌⊎◌, inl, inr, refl, sym, ap, ◌∙◌, true, false, List, [], ◌∷◌, ◌++◌,
  if◌then◌else◌, ◌==◌, ltb, arith, append_assoc,
}
use peli.Threads.Spsc.{Producer, Consumer, working, waiting, checking, advancing, Spsc, claim}
use peli.Threads.Held.{
  count, in_hand, unadded, is_notifying, claimed, Loaded, Consuming, unadded-cases,
  Producing-Loaded,
}
use peli.Threads.Pushes.{Held, Inv, contents_empty, contents_full, count_empty, count_full}

pub count_cases : (head tail : ℕ) → (count head tail ≡ 0) ⊎ (count head tail ≡ 1)
count_cases head tail = ground arith

-- `pending_ > 0` before the decrement: a counted task is there.
counted_task :
    (head tail n late : ℕ)
    → n < 256
    → (n + late + 0) % 256 ≡ count head tail
    → ((late ≡ 0) ⊎ ((late ≡ 1) × (head ≢ tail)))
    → (n == 0) ≡ false
    → Loaded late head tail
counted_task head tail n late bound balance cases some =
    let here : n ≢ 0 = ground arith in
    elim cases [
      | inl none ↦ (λ same. let z = count_empty head tail same in omega (arith, balance ∙ z), none)
      | inr (one, differ) ↦ let z = count_full head tail differ in omega (arith, balance ∙ z)
    ]

-- `pending_ >= 0` after it.
pub counted_claim :
    (head tail n late : ℕ)
    → n < 256
    → (n + late + 1) % 256 ≡ count head tail
    → ((late ≡ 0) ⊎ ((late ≡ 1) × (head ≢ tail)))
    → ltb n 128 ≡ true
    → Loaded late head tail
counted_claim head tail n late bound balance cases some =
    let here : n < 128 = ground arith in
    elim cases [
      | inl none ↦ (λ same. let z = count_empty head tail same in omega (arith, balance ∙ z), none)
      | inr (one, differ) ↦ let z = count_full head tail differ in omega (arith, balance ∙ z)
    ]

-- `pending_ < 0` after it.
pub claim_waits :
    (head tail n late : ℕ)
    → n < 256
    → (n + late + 1) % 256 ≡ count head tail
    → ((late ≡ 0) ⊎ ((late ≡ 1) × (head ≢ tail)))
    → ltb n 128 ≡ false
    → n ≡ 255
claim_waits head tail n late bound balance cases some =
    let here : 127 < n = ground arith in
    elim cases [
      | inl none ↦ elim (count_cases head tail) [
        | inl z ↦ omega (arith, balance ∙ z)
        | inr z ↦ omega (arith, balance ∙ z)
      ]
      | inr (one, differ) ↦ let z = count_full head tail differ in omega (arith, balance ∙ z)
    ]

claimed_balance : (n late : ℕ) → ((n + 255) % 256 + late + 1) % 256 ≡ (n + late + 0) % 256
claimed_balance n late = omega arith

moved_balance :
    (n late : ℕ) → (n + late + 1) % 256 ≡ 1 → n < 256 → late ≡ 0 → (n + late + 0) % 256 ≡ 0
moved_balance n late e b z = omega arith

next_place : (head tail : ℕ) → head < 2 → tail < 2 → head ≢ tail → (head + 1) % 2 ≡ tail
next_place head tail h t e = grind arith

module _ {A : Type 0} where
  pub late_cases :
      (p : Producer A) (c : Consumer A) (s : Spsc A) (xs ys : List A)
      → Held p c s xs ys
      → (unadded p ≡ 0) ⊎ ((unadded p ≡ 1) × (s.head ≢ s.tail))
  late_cases p c s xs ys h = unadded-cases p s.head s.tail s.buffer h.producing

  -- Only the place of the consumer changes.
  pub at_place :
      (p : Producer A) (c c' : Consumer A) (s : Spsc A) (xs ys : List A)
      → Held p c s xs ys
      → claimed c' ≡ claimed c
      → Consuming c' (unadded p) (is_notifying p) s.head s.tail s.pending s.exit_now s.buffer
      → Held p c' (record s { consumer = c' }) xs ys
  at_place p c c' s xs ys h same consuming = record {
    head_bound = h.head_bound;
    tail_bound = h.tail_bound;
    pending_bound = h.pending_bound;
    balance = ap (λ n. (s.pending + unadded p + n) % 256) same ∙ h.balance;
    producing = h.producing;
    consuming = consuming;
    order = h.order;
  }

  pub claim-Held :
      (c : Consumer A) (s : Spsc A) (xs ys : List A)
      → claimed c ≡ 0
      → Held s.producer c s xs ys
      → Inv xs ys (claim s)
  unfolding claim Inv
  claim-Held c s xs ys none h =
      (elim (s.pending == 0)
          as (λ b.
            (s.pending == 0) ≡ b
            → Held s.producer (if b then waiting else checking)
                (record s {
                  pending = (s.pending + 255) % 256;
                  consumer = if b then waiting else checking;
                })
                xs ys) [
                  | true ↦ λ e. taken waiting refl tt
                  | false ↦ λ e. taken checking refl (λ on.
                      counted_task s.head s.tail s.pending (unadded s.producer) h.pending_bound
                        before (late_cases s.producer c s xs ys h) e)
                ])
        refl
    where
      before : (s.pending + unadded s.producer + 0) % 256 ≡ count s.head s.tail
      before = ap (λ n. (s.pending + unadded s.producer + n) % 256) (sym none) ∙ h.balance

      taken :
          (c' : Consumer A)
          → claimed c' ≡ 1
          → Consuming c'
              (unadded s.producer)
              (is_notifying s.producer)
              s.head
              s.tail
              ((s.pending + 255) % 256)
              s.exit_now
              s.buffer
          → Held s.producer c' (record s { pending = (s.pending + 255) % 256; consumer = c' }) xs ys
      taken c' one consuming = record {
        head_bound = h.head_bound;
        tail_bound = h.tail_bound;
        pending_bound = omega arith;
        balance =
            ap (λ n. ((s.pending + 255) % 256 + unadded s.producer + n) % 256) one
            ∙ claimed_balance s.pending (unadded s.producer)
            ∙ before;
        producing = h.producing;
        consuming = consuming;
        order = h.order;
      }

  -- The head moves past the task.
  pub advance-Held :
      (a : A) (s : Spsc A) (xs ys : List A)
      → Held s.producer (advancing a) s xs ys
      → Inv xs (ys ++ (a ∷ [])) (record s { head = (s.head + 1) % 2; consumer = working })
  unfolding Inv
  advance-Held a s xs ys h =
      let ((differ, none), taken) = h.consuming in
      let empty : (s.head + 1) % 2 ≡ s.tail =
        next_place s.head s.tail h.head_bound h.tail_bound differ in
      record {
        head_bound = omega arith;
        tail_bound = h.tail_bound;
        pending_bound = h.pending_bound;
        balance =
            moved_balance s.pending (unadded s.producer)
              (h.balance ∙ count_full s.head s.tail differ) h.pending_bound none
            ∙ sym (count_empty ((s.head + 1) % 2) s.tail empty);
        producing = Producing-Loaded s.producer s.head _ s.tail s.buffer (differ, none) h.producing;
        consuming = tt;
        order =
            h.order
            ∙ ap (λ l. ys ++ (l ++ in_hand s.producer))
                (contents_full s.head s.tail s.buffer differ ∙ ap (λ b. b ∷ []) taken)
            ∙ sym (append_assoc ys (a ∷ []) (in_hand s.producer))
            ∙ ap (λ l. (ys ++ (a ∷ [])) ++ (l ++ in_hand s.producer))
                (sym (contents_empty ((s.head + 1) % 2) s.tail s.buffer empty));
      }
