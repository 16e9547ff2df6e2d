-- ===== src/Decoder/Live.antt =====
-- A running decoder whose frames are all counted, and the moves of its worker that keep the
-- invariant.
use peli.Base.{
  ℕ, ◌+◌, ◌≡◌, refl, sym, ap, ◌∙◌, true, false, [], ◌∷◌, length, length-append, arith, ℤ, pos, ◌+ℤ◌,
  +ℤ_parts, eq_of_parts, pos-+ℤ,
}
use peli.Reader.State.{Frame}
use peli.Decoder.Queue.{BlockingQueue}
use peli.Decoder.State.{
  Codec, Place, idle, fetch, deliver, drain, marking, counting, recording, stopping, killing, ended,
  Decoder,
}
use peli.Decoder.Worker.{fail, queue_frame}
use peli.Decoder.Steps.{owed, is_stopping, IsCalm, IsProper, IsRunning, frames, IsOpen, Inv}

plus_zero : (z : ℤ) → z +ℤ pos 0 ≡ z
plus_zero z = eq_of_parts _ _ (omega (arith, +ℤ_parts z (pos 0)))

pub calm_lem :
    (p : Place) → IsCalm p → (owed p ≡ 0) × (is_stopping p ≡ false) × IsRunning p × IsProper p
calm_lem idle h = (refl, refl, tt, tt)
calm_lem ended h = (refl, refl, tt, tt)
calm_lem fetch h = (refl, refl, tt, tt)
calm_lem drain h = (refl, refl, tt, tt)
calm_lem (deliver p d) h = (refl, refl, tt, tt)
calm_lem (marking n) h = (refl, refl, tt, tt)
calm_lem recording h = (refl, refl, tt, tt)
calm_lem (counting after) h = absurd h
calm_lem stopping h = absurd h
calm_lem killing h = absurd h

-- `Pop` holds `h` frames that it has taken and not yet counted.
module _ (bq : BlockingQueue) (cd : Codec) (h : ℕ) where
  -- A running decoder whose frames are all counted.
  pub record Live (s : Decoder bq cd) : Type 0 where
    pub on : s.run ≡ true
    pub sound : s.error_status ≡ false
    pub counted : s.frame_count ≡ pos (length (frames bq cd s) + h)
    pub is_open : IsOpen bq cd s

  pub Live-Inv : (s : Decoder bq cd) → Live s → IsCalm s.worker → Inv bq cd h s
  Live-Inv s l calm =
      let (none_owed, not_yet, run_on, proper) = calm_lem s.worker calm in
      record {
        proper = proper;
        running = λ _. (
          run_on,
          l.sound ∙ sym not_yet,
          λ _. ap (λ n. s.frame_count +ℤ pos n) none_owed ∙ plus_zero s.frame_count ∙ l.counted,
          l.is_open,
        );
        stopped = λ off. absurd (let clash : true ≡ false = sym l.on ∙ off in cc);
      }

  pub Inv-Live :
      (s : Decoder bq cd) (p : Place)
      → s.worker ≡ p
      → IsCalm p
      → Inv bq cd h s
      → s.run ≡ true
      → Live s
  Inv-Live s p at calm i on =
      let (run_on, error, counted, is_open) = i.running on in
      let (none_owed, not_yet, _, _) = calm_lem p calm in
      let sound : s.error_status ≡ false = error ∙ ap is_stopping at ∙ not_yet in
      record {
        on = on;
        sound = sound;
        counted =
            sym (plus_zero s.frame_count)
            ∙ ap (λ n. s.frame_count +ℤ pos n) (sym (ap owed at ∙ none_owed))
            ∙ counted sound;
        is_open = is_open;
      }

  -- A live decoder stays so while the worker alone changes what only it reads.
  pub moved-Inv :
      (s : Decoder bq cd) (codec : cd.State) (p : Place)
      → Live s
      → IsCalm p
      → Inv bq cd h (record s { codec = codec; worker = p })
  moved-Inv s codec p l calm =
      Live-Inv _ (record { on = l.on; sound = l.sound; counted = l.counted; is_open = l.is_open })
        calm

  pub fail-Inv : (s : Decoder bq cd) → Live s → Inv bq cd h (fail bq cd s)
  unfolding fail
  fail-Inv s l = moved-Inv s s.codec recording l tt

  pub queue_frame-Inv :
      (s : Decoder bq cd) (f : Frame) (after : Place)
      → Live s
      → IsCalm after
      → Inv bq cd h (queue_frame bq cd s f after)
  unfolding queue_frame
  queue_frame-Inv s f after l proper = record {
    proper = proper;
    running = λ _. (
      tt,
      l.sound,
      λ _.
          ap (λ z. z +ℤ pos 1) l.counted ∙ pos-+ℤ (length (frames bq cd s) + h) 1 ∙ ap pos one_more,
      (l.is_open.0, l.is_open.1, bq.is_killed-push Frame s.frame_queue f ∙ l.is_open.2),
    );
    stopped = λ off. absurd (let clash : true ≡ false = sym l.on ∙ off in cc);
  }
    where
      one_more :
          length (frames bq cd s) + h + 1
          ≡ length (bq.items Frame (bq.push Frame s.frame_queue f)) + h
      one_more = omega (
        arith,
        ap length (bq.items-push Frame s.frame_queue f) ∙ length-append (frames bq cd s) (f ∷ []),
      )

  pub with_codec :
      (s : Decoder bq cd) (codec : cd.State) → Live s → Live (record s { codec = codec })
  with_codec s codec l = record {
    on = l.on;
    sound = l.sound;
    counted = l.counted;
    is_open = l.is_open;
  }
