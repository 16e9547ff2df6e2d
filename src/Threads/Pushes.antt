-- ===== src/Threads/Pushes.antt =====
-- The invariant, and that the steps of `Push` keep it.
use peli.Base.{
  ℕ, ◌+◌, ◌%◌, ◌≡◌, ◌≢◌, ◌<◌, inl, refl, sym, ap, ◌∙◌, subst, Bool, true, false, not, List, [], ◌∷◌,
  ◌++◌, if◌then◌else◌, ◌==◌, arith,
}
use peli.Threads.Spsc.{
  Producer, resting, enqueueing, writing, publishing, adding, notifying, Consumer, working, Spsc,
  put, new_spsc, push_at,
}
use peli.Threads.Held.{
  count, contents, in_hand, unadded, is_notifying, claimed, Producing, Consuming, Consuming-empty,
  Consuming-add, Consuming-wake, claimed-wake,
}

full_ring : (tail head : ℕ) → tail < 2 → head < 2 → ((tail + 1) % 2 == head) ≡ false → head ≡ tail
full_ring tail head t h e = grind arith

pub count_empty : (head tail : ℕ) → head ≡ tail → count head tail ≡ 0
count_empty head tail e = ground arith

pub count_full : (head tail : ℕ) → head ≢ tail → count head tail ≡ 1
count_full head tail e = ground arith

-- `int8_t` arithmetic.
one_more : (n c : ℕ) → (n + 0 + c) % 256 ≡ 0 → (n + 1 + c) % 256 ≡ 1
one_more n c e = omega arith

added_up : (n c : ℕ) → ((n + 1) % 256 + 0 + c) % 256 ≡ (n + 1 + c) % 256
added_up n c = omega arith

module _ {A : Type 0} where
  -- The invariant, with the places of the two threads set apart from the state.
  pub record Held (p : Producer A) (c : Consumer A) (s : Spsc A) (xs ys : List A) : Type 0 where
    pub head_bound : s.head < 2
    pub tail_bound : s.tail < 2
    pub pending_bound : s.pending < 256
    pub balance : (s.pending + unadded p + claimed c) % 256 ≡ count s.head s.tail
    pub producing : Producing p s.head s.tail s.buffer
    pub consuming :
        Consuming c (unadded p) (is_notifying p) s.head s.tail s.pending s.exit_now s.buffer
    pub order : xs ≡ ys ++ (contents s.head s.tail s.buffer ++ in_hand p)

  unfoldable pub Inv : List A → List A → Spsc A → Type 0
  Inv xs ys s = Held s.producer s.consumer s xs ys

  put_here : (b : ℕ → A) (i : ℕ) (a : A) → put b i a i ≡ a
  unfolding put
  put_here b i a = ground arith

  pub contents_empty : (head tail : ℕ) (b : ℕ → A) → head ≡ tail → contents head tail b ≡ []
  contents_empty head tail b e = ground arith

  pub contents_full : (head tail : ℕ) (b : ℕ → A) → head ≢ tail → contents head tail b ≡ b head ∷ []
  contents_full head tail b e = ground arith

  pub new_spsc-Inv : (junk : ℕ → A) → Held resting working (new_spsc junk) [] []
  unfolding new_spsc
  new_spsc-Inv junk = record {
    head_bound = omega arith;
    tail_bound = omega arith;
    pending_bound = omega arith;
    balance = refl;
    producing = tt;
    consuming = tt;
    order = refl;
  }

  pub Inv-if :
      (b : Bool) (s t : Spsc A) (xs ys : List A)
      → (b ≡ true → Inv xs ys s)
      → (b ≡ false → Inv xs ys t)
      → Inv xs ys (if b then s else t)
  Inv-if true s t xs ys h k = h refl
  Inv-if false s t xs ys h k = k refl

  added-Inv :
      (b : Bool) (s : Spsc A) (xs ys : List A)
      → Held adding s.consumer s xs ys
      → Consuming s.consumer 0 b s.head s.tail ((s.pending + 1) % 256) s.exit_now s.buffer
      → Inv xs ys (record s {
        pending = (s.pending + 1) % 256;
        producer = if b then notifying else resting;
      })
  unfolding Inv
  added-Inv true s xs ys h c = record {
    head_bound = h.head_bound;
    tail_bound = h.tail_bound;
    pending_bound = omega arith;
    balance = added_up s.pending (claimed s.consumer) ∙ h.balance;
    producing = tt;
    consuming = c;
    order = h.order;
  }
  added-Inv false s xs ys h c = record {
    head_bound = h.head_bound;
    tail_bound = h.tail_bound;
    pending_bound = omega arith;
    balance = added_up s.pending (claimed s.consumer) ∙ h.balance;
    producing = tt;
    consuming = c;
    order = h.order;
  }

  pub push_at-Inv :
      (p : Producer A) (s : Spsc A) (xs ys : List A)
      → s.producer ≡ p
      → Held p s.consumer s xs ys
      → Inv xs ys (push_at p s)
  unfolding push_at Inv
  push_at-Inv resting s xs ys e h = subst (λ p. Held p s.consumer s xs ys) (sym e) h
  push_at-Inv (enqueueing a) s xs ys e h =
      Inv-if s.exit_now s _ xs ys (λ off. same)
        (λ on.
          Inv-if (not ((s.tail + 1) % 2 == s.head)) _ s xs ys
            (λ room. record {
              head_bound = h.head_bound;
              tail_bound = h.tail_bound;
              pending_bound = h.pending_bound;
              balance = h.balance;
              producing = full_ring s.tail s.head h.tail_bound h.head_bound (ground arith);
              consuming = h.consuming;
              order = h.order;
            })
            (λ full. same))
    where
      same : Inv xs ys s
      same = subst (λ p. Held p s.consumer s xs ys) (sym e) h
  push_at-Inv (writing a) s xs ys e h = record {
    head_bound = h.head_bound;
    tail_bound = h.tail_bound;
    pending_bound = h.pending_bound;
    balance = h.balance;
    producing = (h.producing, put_here s.buffer s.tail a);
    consuming =
        Consuming-empty s.consumer 0 0 s.head s.tail s.tail s.pending false s.exit_now s.buffer _
          h.producing h.consuming;
    order =
        h.order
        ∙ ap (λ l. ys ++ (l ++ (a ∷ [])))
            (contents_empty s.head s.tail s.buffer h.producing
              ∙ sym (contents_empty s.head s.tail (put s.buffer s.tail a) h.producing));
  }
  push_at-Inv (publishing a) s xs ys e h =
      let tail_bound = h.tail_bound in
      let same = h.producing.0 in
      let differ : s.head ≢ (s.tail + 1) % 2 = λ clash. omega arith in
      record {
        head_bound = h.head_bound;
        tail_bound = omega arith;
        pending_bound = h.pending_bound;
        balance =
            one_more s.pending (claimed s.consumer) (h.balance ∙ count_empty s.head s.tail same)
            ∙ sym (count_full s.head ((s.tail + 1) % 2) differ);
        producing = differ;
        consuming =
            Consuming-empty s.consumer 0 1 s.head s.tail ((s.tail + 1) % 2) s.pending false
              s.exit_now s.buffer s.buffer same h.consuming;
        order =
            h.order
            ∙ ap (λ l. ys ++ (l ++ (a ∷ []))) (contents_empty s.head s.tail s.buffer same)
            ∙ ap (λ b. ys ++ (b ∷ [])) (sym (ap s.buffer same ∙ h.producing.1))
            ∙ ap (λ l. ys ++ (l ++ [])) (sym (contents_full s.head _ s.buffer differ));
      }
  push_at-Inv adding s xs ys e h =
      added-Inv (s.pending == 255) s xs ys h
        (Consuming-add s.consumer s.head s.tail s.pending _ s.exit_now s.buffer h.consuming)
  push_at-Inv notifying s xs ys e h = record {
    head_bound = h.head_bound;
    tail_bound = h.tail_bound;
    pending_bound = h.pending_bound;
    balance = ap (λ n. (s.pending + 0 + n) % 256) (claimed-wake s.consumer) ∙ h.balance;
    producing = tt;
    consuming =
        Consuming-wake s.consumer 0 s.head s.tail s.pending true false s.exit_now s.exit_now
          s.buffer (inl refl) h.consuming;
    order = h.order;
  }
