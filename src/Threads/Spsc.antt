-- ===== src/Threads/Spsc.antt =====
-- `SpscTaskQueue` (src/runtime/thread_pool.cc), the queue from the launching thread to one worker. A
-- step is an atomic access of one thread, or what it does under the mutex; the two threads see each
-- other's writes in order.
use peli.Base.{
  ℕ, zero, suc, ◌+◌, ◌%◌, ◌≡◌, ◌++◌, Bool, true, false, ◌||◌, not, List, [], ◌∷◌, if◌then◌else◌,
  ◌==◌, ltb,
}

-- Where the launching thread stands in `Push` and `Enqueue`.
pub data Producer (A : Type 0) : Type 0 where
  resting : Producer A
  enqueueing : A → Producer A
  writing : A → Producer A
  publishing : A → Producer A
  adding : Producer A
  notifying : Producer A

-- Where the worker stands in `Pop`: `spinning n` has `n` rounds left to spin, `asleep` waits on the
-- condition variable, `stopped` has returned false and `failed` has failed the check.
pub data Consumer (A : Type 0) : Type 0 where
  working : Consumer A
  spinning : ℕ → Consumer A
  waiting : Consumer A
  asleep : Consumer A
  checking : Consumer A
  fetching : Consumer A
  advancing : A → Consumer A
  stopped : Consumer A
  failed : Consumer A

-- `pending` is the byte of an `int8_t`: -1 is 255.
pub record Spsc (A : Type 0) : Type 0 where
  pub buffer : ℕ → A
  pub head : ℕ
  pub tail : ℕ
  pub pending : ℕ
  pub exit_now : Bool
  pub producer : Producer A
  pub consumer : Consumer A

-- `kRingSize`.
abbrev pub ring_size : ℕ
ring_size = 2

module _ {A : Type 0} where
  -- The constructor, on a buffer of anything.
  unfoldable pub new_spsc : (ℕ → A) → Spsc A
  new_spsc junk = record {
    buffer = junk;
    head = 0;
    tail = 0;
    pending = 0;
    exit_now = false;
    producer = resting;
    consumer = working;
  }

  unfoldable pub put : (ℕ → A) → ℕ → A → ℕ → A
  put buffer i a j = if j == i then a else buffer j

  -- A sleeping worker that is notified looks again.
  unfoldable pub wake : Consumer A → Consumer A
  wake asleep = waiting
  wake other = other

  -- A step of `Push`.
  unfoldable pub push_at : Producer A → Spsc A → Spsc A
  push_at resting s = s
  push_at (enqueueing a) s =
      if s.exit_now
      then s
      else if not ((s.tail + 1) % ring_size == s.head)
      then record s { producer = writing a }
      else s
  push_at (writing a) s = record s { buffer = put s.buffer s.tail a; producer = publishing a }
  push_at (publishing a) s = record s { tail = (s.tail + 1) % ring_size; producer = adding }
  push_at adding s = record s {
    pending = (s.pending + 1) % 256;
    producer = if s.pending == 255 then notifying else resting;
  }
  push_at notifying s = record s { producer = resting; consumer = wake s.consumer }

  unfoldable pub push_step : Spsc A → Spsc A
  push_step s = push_at s.producer s

  -- The atomic decrement, and whether the worker must wait.
  unfoldable pub claim : Spsc A → Spsc A
  claim s = record s {
    pending = (s.pending + 255) % 256;
    consumer = if s.pending == 0 then waiting else checking;
  }

  -- A step of `Pop`, which is called with the number of rounds to spin.
  unfoldable pub pop_at : ℕ → Consumer A → Spsc A → Spsc A
  pop_at rounds working s = record s { consumer = spinning rounds }
  pop_at rounds (spinning zero) s = claim s
  pop_at rounds (spinning (suc n)) s =
      if s.pending == 0 then record s { consumer = spinning n } else claim s
  pop_at rounds waiting s = record s {
    consumer = if ltb s.pending 128 || s.exit_now then checking else asleep;
  }
  pop_at rounds asleep s = s
  pop_at rounds checking s = record s { consumer = if s.exit_now then stopped else fetching }
  pop_at rounds fetching s = record s {
    consumer = if s.tail == s.head then failed else advancing (s.buffer s.head);
  }
  pop_at rounds (advancing a) s = record s { head = (s.head + 1) % ring_size; consumer = working }
  pop_at rounds stopped s = s
  pop_at rounds failed s = s

  unfoldable pub pop_step : ℕ → Spsc A → Spsc A
  pop_step rounds s = pop_at rounds s.consumer s

  -- `SignalForKill`.
  unfoldable pub signal_for_kill : Spsc A → Spsc A
  signal_for_kill s = record s { exit_now = true; consumer = wake s.consumer }

  -- What a step of `Pop` hands out.
  abbrev pub returned : Consumer A → List A
  returned (advancing a) = a ∷ []
  returned other = []

-- The states that the threads reach, with the tasks given to `Push` and those `Pop` has returned.
pub data Reach {A : Type 0} (junk : ℕ → A) : List A → List A → Spsc A → Type 0 where
  created : Reach junk [] [] (new_spsc junk)
  calls :
      {xs ys : List A} {s : Spsc A} (a : A)
      → Reach junk xs ys s
      → s.producer ≡ resting
      → Reach junk (xs ++ (a ∷ [])) ys (record s { producer = enqueueing a })
  pushes : {xs ys : List A} {s : Spsc A} → Reach junk xs ys s → Reach junk xs ys (push_step s)
  pops :
      {xs ys : List A} {s : Spsc A} (rounds : ℕ)
      → Reach junk xs ys s
      → Reach junk xs (ys ++ returned s.consumer) (pop_step rounds s)
  kills : {xs ys : List A} {s : Spsc A} → Reach junk xs ys s → Reach junk xs ys (signal_for_kill s)
