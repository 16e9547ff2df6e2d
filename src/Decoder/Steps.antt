-- ===== src/Decoder/Steps.antt =====
-- The two threads of a decoder as steps, and what every reachable state satisfies.
use peli.Base.{
  ℕ, ◌+◌, ◌≡◌, ◌⊎◌, Bool, true, false, Option, some, List, [], ok, length, ℤ, pos, ◌+ℤ◌,
}
use peli.Reader.State.{Frame, Packet}
use peli.Decoder.Queue.{BlockingQueue}
use peli.Decoder.State.{
  Codec, Place, idle, counting, stopping, killing, ended, Decoder, new_decoder,
}
use peli.Decoder.Worker.{moved, worker_step}
use peli.Decoder.Client.{
  start, clear, set_codec_context, suggest_discard, clear_discard, push, answered, thrown, took,
  pop_takes, pop_ends,
}

-- Where the owner stands: in no call, or in a `Pop` whose queue has given its result.
pub data Owner : Type 0 where
  resting : Owner
  holding : Option Frame → Owner

-- A step of the worker, or one of the owner: the part of `Pop` that takes from the queue, the part
-- after it, and every other call as a whole, `Stop` as part of `Clear`.
pub data Step (bq : BlockingQueue) (cd : Codec) (s t : Decoder bq cd) : Owner → Owner → Type 0 where
  work : {o : Owner} → worker_step bq cd s ≡ moved t → Step bq cd s t o o
  pushes :
      (packet : Option Packet) (buf : Frame)
      → push bq cd packet buf s ≡ ok t
      → Step bq cd s t resting resting
  takes :
      (result : Option Frame)
      → pop_takes bq cd s ≡ took result t
      → Step bq cd s t resting (holding result)
  returns :
      (result : Option Frame) (old f : Frame) (found : Bool)
      → pop_ends bq cd old result s ≡ answered found f t
      → Step bq cd s t (holding result) resting
  throws :
      (result : Option Frame) (old : Frame)
      → pop_ends bq cd old result s ≡ thrown
      → t ≡ s
      → Step bq cd s t (holding result) resting
  starts : start bq cd s ≡ ok t → Step bq cd s t resting resting
  clears : (fuel : ℕ) → clear bq cd fuel s ≡ ok t → Step bq cd s t resting resting
  sets_codec :
      (fuel : ℕ) (codec : cd.State)
      → set_codec_context bq cd fuel codec s ≡ ok t
      → Step bq cd s t resting resting
  suggests : (pts : List ℤ) → t ≡ suggest_discard bq cd pts s → Step bq cd s t resting resting
  forgets : t ≡ clear_discard bq cd s → Step bq cd s t resting resting

pub data Reach (bq : BlockingQueue) (cd : Codec) (codec : cd.State)
    : Owner → Decoder bq cd → Type 0 where
  created : Reach bq cd codec resting (new_decoder bq cd codec)
  later :
      {s t : Decoder bq cd} {o o' : Owner}
      → Reach bq cd codec o s
      → Step bq cd s t o o'
      → Reach bq cd codec o' t

-- The frames that are in the queue and not counted.
abbrev pub owed : Place → ℕ
owed (counting after) = 1
owed other = 0

-- The frames that `Pop` has taken from the queue and still counts.
abbrev pub held : Owner → ℕ
held (holding (some f)) = 1
held other = 0

-- The worker has recorded an error and is about to end the run.
abbrev pub is_stopping : Place → Bool
is_stopping stopping = true
is_stopping other = false

-- A thread that has returned, or none.
abbrev pub IsAtRest : Place → Type 0
IsAtRest idle = Unit
IsAtRest ended = Unit
IsAtRest other = ⊥

-- A place where all frames are counted and no error is recorded.
abbrev pub IsCalm : Place → Type 0
IsCalm (counting after) = ⊥
IsCalm stopping = ⊥
IsCalm killing = ⊥
IsCalm other = Unit

-- A frame is counted before anything else is done.
abbrev pub IsProper : Place → Type 0
IsProper (counting after) = IsCalm after
IsProper other = Unit

-- The worker has not ended the run.
abbrev pub IsRunning : Place → Type 0
IsRunning killing = ⊥
IsRunning other = Unit

module _ (bq : BlockingQueue) (cd : Codec) where
  abbrev pub frames : Decoder bq cd → List Frame
  frames s = bq.items Frame s.frame_queue

  -- `frame_count_` against the queue, where `Pop` holds `h` frames.
  abbrev pub Counts : ℕ → Decoder bq cd → Type 0
  Counts h s = s.frame_count +ℤ pos (owed s.worker) ≡ pos (length (frames s) + h)

  abbrev pub IsOpen : Decoder bq cd → Type 0
  IsOpen s =
      (bq.is_killed (Option Packet) s.pkt_queue ≡ false)
      × (bq.is_killed Frame s.buffer_queue ≡ false)
      × (bq.is_killed Frame s.frame_queue ≡ false)

  abbrev pub Running : ℕ → Decoder bq cd → Type 0
  Running h s =
      IsRunning s.worker
      × (s.error_status ≡ is_stopping s.worker)
      × ((s.error_status ≡ false) → Counts h s)
      × IsOpen s

  -- The worker has ended and there is nothing to take.
  abbrev pub AtEnd : Decoder bq cd → Type 0
  AtEnd s = IsAtRest s.worker × ((bq.is_killed Frame s.frame_queue ≡ true) ⊎ (frames s ≡ []))

  abbrev pub Stopped : ℕ → Decoder bq cd → Type 0
  Stopped h s =
      (AtEnd s ⊎ ((s.worker ≡ killing) × (s.error_status ≡ true)))
      × ((s.error_status ≡ false) → (s.frame_count ≡ pos 0) × (h ≡ 0))

  -- Running: an error is recorded only where the worker is about to end the run, else the frames
  -- are counted, and the queues are open. Not running: the worker is at rest and the frame queue
  -- has nothing to give, or an error is recorded and the worker is about to kill that queue.
  pub record Inv (h : ℕ) (s : Decoder bq cd) : Type 0 where
    pub proper : IsProper s.worker
    pub running : s.run ≡ true → Running h s
    pub stopped : s.run ≡ false → Stopped h s
