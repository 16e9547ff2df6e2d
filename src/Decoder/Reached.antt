-- ===== src/Decoder/Reached.antt =====
-- What holds of a decoder in every reachable state: `frame_count_` against the queue, and `Stop`.
use peli.Base.{
  ℕ, zero, suc, ◌+◌, ◌≢◌, Option, none, some, ◌≡◌, ◌<◌, ◌⊎◌, inl, inr, refl, sym, ap, ◌∙◌, subst,
  Bool, true, false, Bool-cases, [], ◌∷◌, ok, IfOk-ok, length, arith, ℤ, pos, ◌+ℤ◌, ◌-ℤ◌, +ℤ_parts,
  -ℤ_parts, eq_of_parts, if◌then◌else◌, pos_part, neg_part,
}
use peli.Reader.State.{Frame}
use peli.Decoder.Queue.{BlockingQueue, Popped, waits, killed, got}
use peli.Decoder.State.{Codec, idle, killing, Decoder}
use peli.Decoder.Worker.{kill_frames, AfterTurn-moved}
use peli.Decoder.Client.{
  join, stop, suggest_discard, clear_discard, answered, thrown, pop_takes, pop_ends,
}
use peli.Decoder.Steps.{
  Owner, holding, held, is_stopping, AtEnd, Step, work, pushes, takes, returns, throws, starts,
  clears, sets_codec, suggests, forgets, Reach, created, later, owed, frames, Inv,
}
use peli.Decoder.Counts.{worker_step-Inv}
use peli.Decoder.Stops.{
  weight, Joined, join-ends, join-Joined, signal_stop-Halted, signal_stop-off, signal_stop-worker,
}
use peli.Decoder.Rest.{join_rest, join_killing, killing_weight, kill_frames-run}
use peli.Decoder.Client.{take_frame, AfterTaken, AfterTaken-took, AfterAnswer, AfterAnswer-answered}
use peli.Decoder.Owner.{new_decoder-Inv, start-Inv, clear-Inv, set_codec_context-Inv, push-Inv}

-- The frame that was taken is counted.
one_less : (c : ℤ) (o n : ℕ) → c +ℤ pos o ≡ pos (n + 1) → (c -ℤ pos 1) +ℤ pos o ≡ pos (n + 0)
one_less c o n e =
    let p = ap pos_part e in
    let q = ap neg_part e in
    eq_of_parts _ _
      (omega (arith, +ℤ_parts c (pos o), -ℤ_parts c (pos 1), +ℤ_parts (c -ℤ pos 1) (pos o)))

unless_error :
    {D : Type 0} (P : D → Type 0) (b found : Bool) (f : Frame) (s : D)
    → (b ≡ false → P s)
    → AfterAnswer P (if b then thrown else answered found f s)
unless_error P true found f s h = tt
unless_error P false found f s h = h refl

module _ (bq : BlockingQueue) (cd : Codec) where
  gives_nothing :
      (s : Decoder bq cd) (f : Frame) (q : bq.Queue Frame)
      → bq.pop Frame s.frame_queue ≡ got f q
      → (bq.is_killed Frame s.frame_queue ≡ true) ⊎ (frames bq cd s ≡ [])
      → ⊥
  gives_nothing s f q e (inl k) =
      let clash : killed ≡ got f q = sym (bq.pop-killed Frame s.frame_queue k) ∙ e in cc
  gives_nothing s f q e (inr none_left) =
      let clash : [] ≡ f ∷ bq.items Frame q =
        sym none_left ∙ (bq.pop-got Frame s.frame_queue f q e).0 in
      cc

  -- What `Pop` takes it holds; nothing is taken once the worker has ended.
  taken-Inv :
      (s : Decoder bq cd) (f : Frame) (q : bq.Queue Frame)
      → bq.pop Frame s.frame_queue ≡ got f q
      → Inv bq cd 0 s
      → Inv bq cd 1 (record s { frame_queue = q })
  taken-Inv s f q e i =
      let (front, same) = bq.pop-got Frame s.frame_queue f q e in
      let moves : length (frames bq cd s) + 0 ≡ length (bq.items Frame q) + 1 =
        omega (arith, ap length front) in
      record {
        proper = i.proper;
        running = λ on.
            let (run_on, error, counted, is_open) = i.running on in
            (
              run_on,
              error,
              λ sound. counted sound ∙ ap pos moves,
              (is_open.0, is_open.1, same ∙ is_open.2),
            );
        stopped = λ off. elim (i.stopped off).0 [
          | inl (_, none_left) ↦ absurd (gives_nothing s f q e none_left)
          | inr (at, error) ↦ (
            inr (at, error),
            λ sound. absurd (let clash : true ≡ false = sym error ∙ sound in cc),
          )
        ];
      }

  take_frame-Inv :
      (s : Decoder bq cd) (popped : Popped (bq.Queue Frame) Frame)
      → bq.pop Frame s.frame_queue ≡ popped
      → Inv bq cd 0 s
      → AfterTaken (λ result. Inv bq cd (held (holding result))) (take_frame bq cd s popped)
  unfolding take_frame
  take_frame-Inv s waits e i = tt
  take_frame-Inv s killed e i = i
  take_frame-Inv s (got f q) e i = taken-Inv s f q e i

  -- The frame that `Pop` holds is counted.
  counted-Inv :
      (s : Decoder bq cd)
      → Inv bq cd 1 s
      → s.error_status ≡ false
      → Inv bq cd 0 (record s { frame_count = s.frame_count -ℤ pos 1 })
  counted-Inv s i sound = record {
    proper = i.proper;
    running = λ on.
        let (run_on, error, counted, is_open) = i.running on in
        (
          run_on,
          error,
          λ sound. one_less s.frame_count (owed s.worker) (length (frames bq cd s)) (counted sound),
          is_open,
        );
    stopped = λ off. absurd (let clash = ((i.stopped off).1 sound).1 in omega arith);
  }

  -- With an error recorded the counters promise nothing, and a `Pop` may forget its frame.
  thrown-Inv : (h : ℕ) (s : Decoder bq cd) → s.error_status ≡ true → Inv bq cd h s → Inv bq cd 0 s
  thrown-Inv h s bad i =
      let unsound : s.error_status ≢ false =
        λ sound. let clash : true ≡ false = sym bad ∙ sound in absurd (cc) in
      record {
        proper = i.proper;
        running = λ on.
            let (run_on, error, _, is_open) = i.running on in
            (run_on, error, λ sound. absurd (unsound sound), is_open);
        stopped = λ off. ((i.stopped off).0, λ sound. absurd (unsound sound));
      }

  pop_ends-Inv :
      (old : Frame) (result : Option Frame) (s : Decoder bq cd)
      → Inv bq cd (held (holding result)) s
      → AfterAnswer (Inv bq cd 0) (pop_ends bq cd old result s)
  unfolding pop_ends
  pop_ends-Inv old none s i = unless_error (Inv bq cd 0) s.error_status false old s (λ _. i)
  pop_ends-Inv old (some f) s i =
      unless_error (Inv bq cd 0) s.error_status f.defined f _ (counted-Inv s i)

  pop_ends-thrown :
      (old : Frame) (result : Option Frame) (s : Decoder bq cd)
      → pop_ends bq cd old result s ≡ thrown
      → s.error_status ≡ true
  unfolding pop_ends
  pop_ends-thrown old none s e = ground (arith, e)
  pop_ends-thrown old (some f) s e = ground (arith, e)

  Step-Inv :
      {s t : Decoder bq cd} {o o' : Owner}
      → Step bq cd s t o o'
      → Inv bq cd (held o) s
      → Inv bq cd (held o') t
  unfolding pop_takes suggest_discard clear_discard
  Step-Inv {s} {t} {o} (work e) i =
      AfterTurn-moved (Inv bq cd (held o)) _ t (worker_step-Inv bq cd (held o) s i) e
  Step-Inv {s} {t} (pushes packet buf e) i =
      IfOk-ok (Inv bq cd 0) _ t (push-Inv bq cd packet buf s i) e
  Step-Inv {s} {t} (takes result e) i =
      AfterTaken-took (λ r. Inv bq cd (held (holding r))) _ result t (take_frame-Inv s _ refl i) e
  Step-Inv {s} {t} (returns result old f found e) i =
      AfterAnswer-answered (Inv bq cd 0) _ found f t (pop_ends-Inv old result s i) e
  Step-Inv {s} {t} (throws result old e same) i =
      subst (Inv bq cd 0) (sym same)
        (thrown-Inv (held (holding result)) s (pop_ends-thrown old result s e) i)
  Step-Inv {s} {t} (starts e) i = IfOk-ok (Inv bq cd 0) _ t (start-Inv bq cd s i) e
  Step-Inv {s} {t} (clears fuel e) i = IfOk-ok (Inv bq cd 0) _ t (clear-Inv bq cd fuel s i) e
  Step-Inv {s} {t} (sets_codec fuel codec e) i =
      IfOk-ok (Inv bq cd 0) _ t (set_codec_context-Inv bq cd fuel codec s i) e
  Step-Inv {s} (suggests pts e) i =
      subst (Inv bq cd 0) (sym e)
        (record { proper = i.proper; running = i.running; stopped = i.stopped })
  Step-Inv {s} (forgets e) i =
      subst (Inv bq cd 0) (sym e)
        (record { proper = i.proper; running = i.running; stopped = i.stopped })

  pub Reach-Inv :
      {codec : cd.State} {o : Owner} {s : Decoder bq cd}
      → Reach bq cd codec o s
      → Inv bq cd (held o) s
  Reach-Inv {codec} created = new_decoder-Inv bq cd codec
  Reach-Inv (later r st) = Step-Inv st (Reach-Inv r)

  -- Whatever the two threads of a decoder have done since it was made, `Stop` being called by
  -- `Clear` only: while it runs, an error is recorded exactly while the worker stands between
  -- recording it and ending the run; and while none is recorded, `frame_count_` is the number of
  -- frames in the frame queue, less one exactly while the worker has pushed a frame and not yet
  -- counted it, and more by one exactly while `Pop` has taken a frame and not yet counted it.
  pub frame_count_lem :
      {codec : cd.State} {o : Owner} {s : Decoder bq cd}
      → Reach bq cd codec o s
      → s.run ≡ true
      → (s.error_status ≡ is_stopping s.worker)
        × ((s.error_status ≡ true)
            ⊎ (s.frame_count +ℤ pos (owed s.worker) ≡ pos (length (frames bq cd s) + held o)))
  frame_count_lem {s = s} r on =
      let (_, error, counted, _) = (Reach-Inv r).running on in
      (
        error,
        elim (Bool-cases s.error_status) [ inl bad ↦ inl bad | inr sound ↦ inr (counted sound) ],
      )

  -- The join of a worker that has ended, or has only the frame queue left to kill.
  rest_ends :
      (s : Decoder bq cd) (fuel : ℕ)
      → AtEnd bq cd s ⊎ ((s.worker ≡ killing) × (s.error_status ≡ true))
      → weight s.worker < suc fuel
      → (t : Decoder bq cd) × (join bq cd (suc fuel) s ≡ ok t) × (t.worker ≡ idle) × (t.run ≡ s.run)
  rest_ends s fuel (inl (rest, _)) less =
      (record s { worker = idle }, join_rest bq cd fuel s rest, refl, refl)
  rest_ends s zero (inr (at, _)) less = absurd (omega (arith, killing_weight bq cd s.worker at))
  rest_ends s (suc fuel) (inr (at, _)) less = (
    record (kill_frames bq cd s) { worker = idle },
    join_killing bq cd fuel s at,
    refl,
    kill_frames-run bq cd s,
  )

  -- In every state that the two threads can reach, `Stop` ends: with more rounds for the join than
  -- `weight` gives for the place where the worker stands, it returns, the thread is joined and the
  -- decoder no longer runs.
  pub stop_ends :
      {codec : cd.State} {o : Owner} {s : Decoder bq cd} (fuel : ℕ)
      → Reach bq cd codec o s
      → weight s.worker < fuel
      → (t : Decoder bq cd) × (stop bq cd fuel s ≡ ok t) × (t.worker ≡ idle) × (t.run ≡ false)
  unfolding stop
  stop_ends {s = s} zero r less = absurd (omega arith)
  stop_ends {s = s} (suc fuel) r less = elim (Bool-cases s.run) [
    | inl on ↦
        let h = signal_stop-Halted bq cd s on in
        let (t, e) =
          join-ends bq cd (suc fuel) _ h
            (subst (λ p. weight p < suc fuel) (sym (signal_stop-worker bq cd s)) less) in
        let (halted, joined) = IfOk-ok (Joined bq cd) _ t (join-Joined bq cd (suc fuel) _ h) e in
        (t, e, joined, halted.off)
    | inr off ↦
        let (t, ends, joined, same) = rest_ends s fuel (((Reach-Inv r).stopped off).0) less in
        let unsignalled = ap (join bq cd (suc fuel)) (signal_stop-off bq cd s off) in
        (t, unsignalled ∙ ends, joined, same ∙ off)
  ]
