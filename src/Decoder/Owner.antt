-- ===== src/Decoder/Owner.antt =====
-- The invariant in every reachable state, and what it says of `frame_count_` and of `Stop`.
use peli.Base.{
  ℕ, zero, suc, ◌+◌, ◌≡◌, ◌⊎◌, inl, inr, refl, sym, ap, ◌∙◌, subst, Bool, true, false, not, ◌&&◌,
  Bool-cases, Option, List, [], IfOk, IfOk-weaken, IfOk->>=, IfOk->>, IfOk-if, length, arith, ℤ,
  pos, ◌+ℤ◌,
}
use peli.Reader.State.{Frame, Packet}
use peli.Decoder.Queue.{BlockingQueue}
use peli.Decoder.State.{Codec, idle, fetch, Decoder, new_decoder}
use peli.Decoder.Client.{
  start, signal_stop, join, stop, clear, set_codec_context, push, is_null, is_idle,
}
use peli.Decoder.Steps.{IsAtRest, IsProper, frames, Stopped, Inv}
use peli.Decoder.Stops.{Joined, join-Joined, signal_stop-Halted, signal_stop-off}
use peli.Decoder.Rest.{
  join_rest, join_killing, join_killing_short, kill_frames-run, kill_frames-is_killed,
}

zero_plus_zero : pos 0 +ℤ pos 0 ≡ pos 0
unfolding ◌+ℤ◌
zero_plus_zero = refl

module _ (bq : BlockingQueue) (cd : Codec) where
  pub new_decoder-Inv : (codec : cd.State) → Inv bq cd 0 (new_decoder bq cd codec)
  unfolding new_decoder
  new_decoder-Inv codec = record {
    proper = tt;
    running = λ on. absurd (cc);
    stopped = λ off. (inl (tt, inr (bq.items-new_queue Frame)), λ sound. (refl, refl));
  }

  -- A decoder that does not run, with no thread and nothing to give.
  record Quiet (s : Decoder bq cd) : Type 0 where
    off : s.run ≡ false
    no_thread : s.worker ≡ idle
    empty : (bq.is_killed Frame s.frame_queue ≡ true) ⊎ (frames bq cd s ≡ [])

  rest-Quiet :
      (fuel : ℕ) (s : Decoder bq cd)
      → s.run ≡ false
      → Stopped bq cd 0 s
      → IfOk Quiet (join bq cd fuel s)
  unfolding join
  rest-Quiet zero s off stopped = tt
  rest-Quiet (suc fuel) s off (inl (rest, none_left), _) =
      subst (IfOk Quiet) (sym (join_rest bq cd fuel s rest))
        (record { off = off; no_thread = refl; empty = none_left })
  rest-Quiet (suc zero) s off (inr (at, _), _) =
      subst (IfOk Quiet) (sym (join_killing_short bq cd s at)) tt
  rest-Quiet (suc (suc fuel)) s off (inr (at, _), _) =
      subst (IfOk Quiet) (sym (join_killing bq cd fuel s at)) (record {
        off = kill_frames-run bq cd s ∙ off;
        no_thread = refl;
        empty = inl (kill_frames-is_killed bq cd s);
      })

  stop-Quiet : (fuel : ℕ) (s : Decoder bq cd) → Inv bq cd 0 s → IfOk Quiet (stop bq cd fuel s)
  unfolding stop
  stop-Quiet fuel s i = elim (Bool-cases s.run) [
    | inl on ↦
        IfOk-weaken (Joined bq cd) Quiet (join bq cd fuel (signal_stop bq cd s))
          (join-Joined bq cd fuel _ (signal_stop-Halted bq cd s on))
          (λ t j. record { off = j.0.off; no_thread = j.1; empty = inl j.0.no_frames })
    | inr off ↦
        subst (λ u. IfOk Quiet (join bq cd fuel u)) (sym (signal_stop-off bq cd s off))
          (rest-Quiet fuel s off (i.stopped off))
  ]

  -- What `Clear` leaves, before and after the flags are reset.
  reset-Inv :
      (s : Decoder bq cd) (codec : cd.State) (filter : Bool) (pts : List ℤ)
      → Quiet s
      → Inv bq cd 0 (record s {
        codec = codec;
        has_filter = filter;
        frame_count = pos 0;
        draining = false;
        discard_pts = pts;
        error_status = false;
      })
  reset-Inv s codec filter pts q = record {
    proper = subst IsProper (sym q.no_thread) tt;
    running = λ on. absurd (let clash : true ≡ false = sym on ∙ q.off in cc);
    stopped = λ off. (inl (subst IsAtRest (sym q.no_thread) tt, q.empty), λ sound. (refl, refl));
  }

  -- A new thread on new queues, none of whose frames is counted.
  fresh-Inv :
      (s : Decoder bq cd)
      → s.error_status ≡ false
      → s.frame_count ≡ pos 0
      → Inv bq cd 0 (record s {
        pkt_queue = bq.new_queue (Option Packet);
        frame_queue = bq.new_queue Frame;
        buffer_queue = bq.new_queue Frame;
        run = true;
        worker = fetch;
      })
  fresh-Inv s sound none_yet = record {
    proper = tt;
    running = λ on. (
      tt,
      sound,
      λ calm.
          ap (λ z. z +ℤ pos 0) none_yet
          ∙ zero_plus_zero
          ∙ ap (λ (l : List Frame). pos (length l + 0)) (sym (bq.items-new_queue Frame)),
      (
        bq.is_killed-new_queue (Option Packet),
        bq.is_killed-new_queue Frame,
        bq.is_killed-new_queue Frame,
      ),
    );
    stopped = λ off. absurd (cc);
  }

  pub start-Inv : (s : Decoder bq cd) → Inv bq cd 0 s → IfOk (Inv bq cd 0) (start bq cd s)
  unfolding start
  start-Inv s i = IfOk->> (Inv bq cd 0) (not s.error_status) _ (λ sound.
      IfOk-if (Inv bq cd 0) s.run _ _ (λ on. i)
        (λ off. IfOk->> (Inv bq cd 0) (is_idle s.worker) _ (λ no_thread.
          let calm : s.error_status ≡ false = ground (arith, sound) in
          fresh-Inv s calm ((i.stopped off).1 calm).0)))

  pub clear-Inv :
      (fuel : ℕ) (s : Decoder bq cd) → Inv bq cd 0 s → IfOk (Inv bq cd 0) (clear bq cd fuel s)
  unfolding clear
  clear-Inv fuel s i =
      IfOk->>= Quiet (Inv bq cd 0) (stop bq cd fuel s) _ (stop-Quiet fuel s i)
        (λ t q. reset-Inv t (cd.flush_buffers t.codec) t.has_filter [] q)

  pub set_codec_context-Inv :
      (fuel : ℕ) (codec : cd.State) (s : Decoder bq cd)
      → Inv bq cd 0 s
      → IfOk (Inv bq cd 0) (set_codec_context bq cd fuel codec s)
  unfolding set_codec_context
  set_codec_context-Inv fuel codec s i =
      IfOk->>= (Inv bq cd 0) (Inv bq cd 0) (clear bq cd fuel s) _ (clear-Inv fuel s i) (λ t j.
        let u : Decoder bq cd = record t { codec = codec; has_filter = true } in
        let k : Inv bq cd 0 u = record {
          proper = j.proper;
          running = j.running;
          stopped = j.stopped;
        } in
        IfOk-if (Inv bq cd 0) s.run _ _ (λ on. start-Inv u k) (λ off. k))

  pub push-Inv :
      (packet : Option Packet) (buf : Frame) (s : Decoder bq cd)
      → Inv bq cd 0 s
      → IfOk (Inv bq cd 0) (push bq cd packet buf s)
  unfolding push
  push-Inv packet buf s i = IfOk->> (Inv bq cd 0) s.run _ (λ on.
      IfOk->> (Inv bq cd 0) (not (is_null packet && s.draining)) _ (λ once. record {
        proper = i.proper;
        running = λ on'.
            let (run_on, error, counted, is_open) = i.running on in
            (
              run_on,
              error,
              counted,
              (
                bq.is_killed-push (Option Packet) s.pkt_queue packet ∙ is_open.0,
                bq.is_killed-push Frame s.buffer_queue buf ∙ is_open.1,
                is_open.2,
              ),
            );
        stopped = λ off. absurd (let clash : true ≡ false = sym on ∙ off in cc);
      }))
