-- ===== src/Threads/Held.antt =====
-- What holds of the queue and of the places of its two threads.
use peli.Base.{
  ℕ, ◌≡◌, ◌≢◌, ◌⊎◌, inl, inr, refl, sym, ◌∙◌, Bool, true, false, List, [], ◌∷◌, if◌then◌else◌, ◌==◌,
  arith,
}
use peli.Threads.Spsc.{
  Producer, resting, enqueueing, writing, publishing, adding, notifying, Consumer, working,
  spinning, waiting, asleep, checking, fetching, advancing, stopped, failed, wake,
}

-- How many tasks are in the ring.
abbrev pub count : ℕ → ℕ → ℕ
count head tail = if head == tail then 0 else 1

-- A task that the worker can take: `late` counts what is not in `pending_`.
abbrev pub Loaded : ℕ → ℕ → ℕ → Type 0
Loaded late head tail = (head ≢ tail) × (late ≡ 0)

module _ {A : Type 0} where
  abbrev pub contents : ℕ → ℕ → (ℕ → A) → List A
  contents head tail buffer = if head == tail then [] else (buffer head ∷ [])

  -- The task that `Push` was given and the ring does not have.
  abbrev pub in_hand : Producer A → List A
  in_hand (enqueueing a) = a ∷ []
  in_hand (writing a) = a ∷ []
  in_hand (publishing a) = a ∷ []
  in_hand other = []

  -- A task in the ring that is not in `pending_` yet.
  abbrev pub unadded : Producer A → ℕ
  unadded adding = 1
  unadded other = 0

  abbrev pub is_notifying : Producer A → Bool
  is_notifying notifying = true
  is_notifying other = false

  -- What `Pop` has taken from `pending_` and not from the ring.
  abbrev pub claimed : Consumer A → ℕ
  claimed working = 0
  claimed (spinning n) = 0
  claimed other = 1

  abbrev pub Producing : Producer A → ℕ → ℕ → (ℕ → A) → Type 0
  Producing (writing a) head tail buffer = head ≡ tail
  Producing (publishing a) head tail buffer = (head ≡ tail) × (buffer tail ≡ a)
  Producing adding head tail buffer = head ≢ tail
  Producing other head tail buffer = Unit

  abbrev pub Consuming : Consumer A → ℕ → Bool → ℕ → ℕ → ℕ → Bool → (ℕ → A) → Type 0
  Consuming asleep late alarm head tail pending exit buffer =
      (exit ≡ false) × ((pending ≡ 255) ⊎ (alarm ≡ true))
  Consuming checking late alarm head tail pending exit buffer = exit ≡ false → Loaded late head tail
  Consuming fetching late alarm head tail pending exit buffer = Loaded late head tail
  Consuming (advancing a) late alarm head tail pending exit buffer =
      Loaded late head tail × (buffer head ≡ a)
  Consuming failed late alarm head tail pending exit buffer = ⊥
  Consuming other late alarm head tail pending exit buffer = Unit

  -- While the ring is empty, what the producer does in it is of no concern to the worker.
  pub Consuming-empty :
      (c : Consumer A) (late late' head tail tail' pending : ℕ) (alarm exit : Bool) (b b' : ℕ → A)
      → head ≡ tail
      → Consuming c late alarm head tail pending exit b
      → Consuming c late' alarm head tail' pending exit b'
  Consuming-empty asleep late late' head tail tail' pending alarm exit b b' e h = h
  Consuming-empty checking late late' head tail tail' pending alarm exit b b' e h =
      λ on. absurd ((h on).0 e)
  Consuming-empty fetching late late' head tail tail' pending alarm exit b b' e h = absurd (h.0 e)
  Consuming-empty (advancing a) late late' head tail tail' pending alarm exit b b' e h =
      absurd (h.0.0 e)
  Consuming-empty failed late late' head tail tail' pending alarm exit b b' e h = h
  Consuming-empty working late late' head tail tail' pending alarm exit b b' e h = tt
  Consuming-empty (spinning n) late late' head tail tail' pending alarm exit b b' e h = tt
  Consuming-empty waiting late late' head tail tail' pending alarm exit b b' e h = tt
  Consuming-empty stopped late late' head tail tail' pending alarm exit b b' e h = tt

  -- The task is counted; a worker that sleeps is to be notified.
  pub Consuming-add :
      (c : Consumer A) (head tail pending pending' : ℕ) (exit : Bool) (b : ℕ → A)
      → Consuming c 1 false head tail pending exit b
      → Consuming c 0 (pending == 255) head tail pending' exit b
  Consuming-add asleep head tail pending pending' exit b h =
      (h.0, inr (elim h.1 [ inl full ↦ ground arith | inr alarm ↦ absurd (cc) ]))
  Consuming-add checking head tail pending pending' exit b h = λ on. ((h on).0, refl)
  Consuming-add fetching head tail pending pending' exit b h = (h.0, refl)
  Consuming-add (advancing a) head tail pending pending' exit b h = ((h.0.0, refl), h.1)
  Consuming-add failed head tail pending pending' exit b h = h
  Consuming-add working head tail pending pending' exit b h = tt
  Consuming-add (spinning n) head tail pending pending' exit b h = tt
  Consuming-add waiting head tail pending pending' exit b h = tt
  Consuming-add stopped head tail pending pending' exit b h = tt

  -- A worker that is woken, by a notification or to exit.
  pub Consuming-wake :
      (c : Consumer A) (late head tail pending : ℕ) (alarm alarm' exit exit' : Bool) (b : ℕ → A)
      → ((exit' ≡ exit) ⊎ (exit' ≡ true))
      → Consuming c late alarm head tail pending exit b
      → Consuming (wake c) late alarm' head tail pending exit' b
  unfolding wake
  Consuming-wake asleep late head tail pending alarm alarm' exit exit' b e h = tt
  Consuming-wake checking late head tail pending alarm alarm' exit exit' b e h =
      λ on. elim e [ inl same ↦ h (sym same ∙ on) | inr off ↦ absurd (cc) ]
  Consuming-wake fetching late head tail pending alarm alarm' exit exit' b e h = h
  Consuming-wake (advancing a) late head tail pending alarm alarm' exit exit' b e h = h
  Consuming-wake failed late head tail pending alarm alarm' exit exit' b e h = h
  Consuming-wake working late head tail pending alarm alarm' exit exit' b e h = tt
  Consuming-wake (spinning n) late head tail pending alarm alarm' exit exit' b e h = tt
  Consuming-wake waiting late head tail pending alarm alarm' exit exit' b e h = tt
  Consuming-wake stopped late head tail pending alarm alarm' exit exit' b e h = tt

  pub claimed-wake : (c : Consumer A) → claimed (wake c) ≡ claimed c
  unfolding wake
  claimed-wake asleep = refl
  claimed-wake checking = refl
  claimed-wake fetching = refl
  claimed-wake (advancing a) = refl
  claimed-wake failed = refl
  claimed-wake working = refl
  claimed-wake (spinning n) = refl
  claimed-wake waiting = refl
  claimed-wake stopped = refl

  -- A task that is not counted is in the ring.
  pub unadded-cases :
      (p : Producer A) (head tail : ℕ) (b : ℕ → A)
      → Producing p head tail b
      → (unadded p ≡ 0) ⊎ ((unadded p ≡ 1) × (head ≢ tail))
  unadded-cases adding head tail b h = inr (refl, h)
  unadded-cases resting head tail b h = inl refl
  unadded-cases (enqueueing a) head tail b h = inl refl
  unadded-cases (writing a) head tail b h = inl refl
  unadded-cases (publishing a) head tail b h = inl refl
  unadded-cases notifying head tail b h = inl refl

  -- The worker may move on in a ring that has a counted task.
  pub Producing-Loaded :
      (p : Producer A) (head head' tail : ℕ) (b : ℕ → A)
      → Loaded (unadded p) head tail
      → Producing p head tail b
      → Producing p head' tail b
  Producing-Loaded adding head head' tail b l h = absurd (let z : 1 ≡ 0 = l.1 in ground arith)
  Producing-Loaded resting head head' tail b l h = tt
  Producing-Loaded (enqueueing a) head head' tail b l h = tt
  Producing-Loaded (writing a) head head' tail b l h = absurd (l.0 h)
  Producing-Loaded (publishing a) head head' tail b l h = absurd (l.0 h.0)
  Producing-Loaded notifying head head' tail b l h = tt
