-- ===== src/Decoder/Lines.antt =====
-- Lists as blocking queues: the laws of `BlockingQueue` can be met.
use peli.Base.{◌≡◌, refl, Bool, true, false, List, [], ◌∷◌, ◌++◌}
use peli.Decoder.Queue.{BlockingQueue, Popped, waits, killed, got}

abbrev pub Line : Type 0 → Type 0
Line A = List A × Bool

abbrev pub line_pop : (A : Type 0) → Line A → Popped (Line A) A
line_pop A (l, true) = killed
line_pop A ([], false) = waits
line_pop A (a ∷ l, false) = got a (l, false)

pub line_killed : (A : Type 0) (q : Line A) → q.1 ≡ true → line_pop A q ≡ killed
line_killed A (l, true) h = refl
line_killed A (l, false) h = absurd (cc)

pub line_waits : (A : Type 0) (q : Line A) → q.1 ≡ false → q.0 ≡ [] → line_pop A q ≡ waits
line_waits A (l, true) h e = absurd (cc)
line_waits A ([], false) h e = refl
line_waits A (a ∷ l, false) h e = absurd (cc)

pub line_got :
    (A : Type 0) (q : Line A) (a : A) (r : Line A)
    → line_pop A q ≡ got a r
    → (q.0 ≡ a ∷ r.0) × (r.1 ≡ q.1)
line_got A (l, true) a r e = absurd (cc)
line_got A ([], false) a r e = absurd (cc)
line_got A (b ∷ l, false) a r e = (cc, cc)

pub line_some :
    (A : Type 0) (q : Line A) (a : A) (l : List A)
    → q.1 ≡ false
    → q.0 ≡ a ∷ l
    → (r : Line A) × (line_pop A q ≡ got a r)
line_some A (k, true) a l h e = absurd (cc)
line_some A ([], false) a l h e = absurd (cc)
line_some A (b ∷ k, false) a l h e = ((k, false), cc)

abbrev pub lines : BlockingQueue
lines = record {
  Queue = Line;
  new_queue = λ A. ([], false);
  push = λ A q a. (q.0 ++ (a ∷ []), q.1);
  pop = line_pop;
  kill = λ A q. (q.0, true);
  items = λ A q. q.0;
  is_killed = λ A q. q.1;
  items-new_queue = λ A. refl;
  is_killed-new_queue = λ A. refl;
  items-push = λ A q a. refl;
  is_killed-push = λ A q a. refl;
  items-kill = λ A q. refl;
  is_killed-kill = λ A q. refl;
  pop-killed = line_killed;
  pop-waits = line_waits;
  pop-got = line_got;
  pop-some = line_some;
}
