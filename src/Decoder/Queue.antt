-- ===== src/Decoder/Queue.antt =====
-- `dmlc::ConcurrentBlockingQueue`, of the library dmlc-core, as its users see it: first in, first
-- out; `Pop` waits while the queue is empty, and returns false at once after `SignalForKill`.
use peli.Base.{◌≡◌, ◌⊎◌, inl, inr, refl, Bool, true, false, List, [], ◌∷◌, ◌++◌}

pub data Popped (Queue : Type 0) (A : Type 0) : Type 0 where
  waits : Popped Queue A
  killed : Popped Queue A
  got : A → Queue → Popped Queue A

pub Popped-cases :
    {Q A : Type 0} (p : Popped Q A)
    → (p ≡ waits) ⊎ (p ≡ killed) ⊎ ((a : A) × (q : Q) × (p ≡ got a q))
Popped-cases waits = inl refl
Popped-cases killed = inr (inl refl)
Popped-cases (got a q) = inr (inr (a, q, refl))

pub record BlockingQueue : Type 1 where
  pub Queue : Type 0 → Type 0
  pub new_queue : (A : Type 0) → Queue A
  pub push : (A : Type 0) → Queue A → A → Queue A
  pub pop : (A : Type 0) → Queue A → Popped (Queue A) A
  pub kill : (A : Type 0) → Queue A → Queue A
  pub items : (A : Type 0) → Queue A → List A
  pub is_killed : (A : Type 0) → Queue A → Bool
  pub items-new_queue : (A : Type 0) → items A (new_queue A) ≡ []
  pub is_killed-new_queue : (A : Type 0) → is_killed A (new_queue A) ≡ false
  pub items-push : (A : Type 0) (q : Queue A) (a : A) → items A (push A q a) ≡ items A q ++ (a ∷ [])
  pub is_killed-push : (A : Type 0) (q : Queue A) (a : A) → is_killed A (push A q a) ≡ is_killed A q
  pub items-kill : (A : Type 0) (q : Queue A) → items A (kill A q) ≡ items A q
  pub is_killed-kill : (A : Type 0) (q : Queue A) → is_killed A (kill A q) ≡ true
  pub pop-killed : (A : Type 0) (q : Queue A) → is_killed A q ≡ true → pop A q ≡ killed
  pub pop-waits :
      (A : Type 0) (q : Queue A) → is_killed A q ≡ false → items A q ≡ [] → pop A q ≡ waits
  pub pop-got :
      (A : Type 0) (q : Queue A) (a : A) (r : Queue A)
      → pop A q ≡ got a r
      → (items A q ≡ a ∷ items A r) × (is_killed A r ≡ is_killed A q)
  pub pop-some :
      (A : Type 0) (q : Queue A) (a : A) (l : List A)
      → is_killed A q ≡ false
      → items A q ≡ a ∷ l
      → (r : Queue A) × (pop A q ≡ got a r)
