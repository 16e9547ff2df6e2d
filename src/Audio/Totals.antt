-- ===== src/Audio/Totals.antt =====
-- What `DecodePacket` leaves: every channel has as many samples as were converted.
use peli.Base.{
  ℕ, zero, suc, ◌≡◌, ◌<◌, ◌⊎◌, inl, inr, refl, Bool, [], Outcome, ◌>>=◌, Ensures, Option-cases,
  Ensures-weaken, Ensures->>=, arith, ℤ, pos, ◌==ℤ◌, Bool-cases,
}
use peli.Audio.State.{
  Read, packet, end_of_file, failed, Sent, accepted, full, refused, Received, frame, again,
  finished, broken, Media, Sys,
}
use peli.Audio.Decode.{
  receive_loop, drain_decoder, after_receive, after_send, packet_loop, decode_packet,
}
use peli.Audio.Ends.{Ends, Uniform, Balanced}
use peli.Audio.Frames

Read-cases : (r : Read) → ((i : ℤ) × (r ≡ packet i)) ⊎ (r ≡ end_of_file) ⊎ (r ≡ failed)
Read-cases (packet i) = inl (i, refl)
Read-cases end_of_file = inr (inl refl)
Read-cases failed = inr (inr refl)

module _ (md : Media) (flushes frames packets k : ℕ) (mono : Bool)
    (ends : Ends md flushes frames packets) (some_channel : 0 < k)
    (uniform : Uniform md mono k) where
  open md use {State, receive_frame, send_packet, send_null, read_frame}

  abbrev Fed : ℕ → Sys md → Type 0
  Fed = Frames.Fed md flushes frames packets k mono ends some_channel

  abbrev Decoded : Sys md → Type 0
  Decoded s = Balanced k s.audio × (s.audio.mono ≡ mono)

  to_decoded : {u : ℕ} {s : Sys md} → Fed u s → Decoded s
  to_decoded g = (g.balanced, g.mixed)

  -- What follows a packet that was read, if the rest of the loop is right.
  after_receive-Decoded :
      (u : ℕ) (go_on : Sys md → Outcome (Sys md)) (r : Received) (s : Sys md)
      → Fed u s
      → ((t : Sys md) → Fed u t → Ensures Decoded (go_on t))
      → Ensures Decoded (after_receive md go_on r s)
  unfolding after_receive
  after_receive-Decoded u go_on again s g next = next s g
  after_receive-Decoded u go_on finished s g next = to_decoded g
  after_receive-Decoded u go_on broken s g next = to_decoded g
  after_receive-Decoded u go_on (frame f) s g next = to_decoded g

  received-Decoded :
      (u : ℕ) (go_on : Sys md → Outcome (Sys md)) (s : Sys md)
      → Fed u s
      → ends.ready s.media < frames
      → ((t : Sys md) → Fed u t → Ensures Decoded (go_on t))
      → Ensures Decoded (receive_loop md flushes frames s >>= λ r. after_receive md go_on r.0 r.1)
  received-Decoded u go_on s g h next =
      Ensures->>= (λ o. Fed u o.1) Decoded (receive_loop md flushes frames s) _
        (Frames.receive_loop-Fed md flushes frames packets k mono ends some_channel uniform u frames
          (ends.ready s.media) s
          (record {
            balanced = g.balanced;
            mixed = g.mixed;
            at_most = omega arith;
            unread_same = g.unread_same;
          })
          h)
        (λ o g'. after_receive-Decoded u go_on o.0 o.1 g' next)

  after_send-Decoded :
      (u : ℕ) (go_on : Sys md → Outcome (Sys md)) (sent : Sent) (s : Sys md)
      → Fed u s
      → ends.ready s.media < frames
      → ((t : Sys md) → Fed u t → Ensures Decoded (go_on t))
      → Ensures Decoded (after_send md flushes frames go_on sent s)
  unfolding after_send
  after_send-Decoded u go_on refused s g h next = to_decoded g
  after_send-Decoded u go_on accepted s g h next = received-Decoded u go_on s g h next
  after_send-Decoded u go_on full s g h next = received-Decoded u go_on s g h next

  packet_loop-Decoded :
      (fuel u : ℕ) (s : Sys md)
      → Fed u s
      → u < fuel
      → Ensures Decoded (packet_loop md flushes frames fuel s)
  unfolding packet_loop
  packet_loop-Decoded zero u s g h = absurd (omega arith)
  packet_loop-Decoded (suc fuel) u s g h = elim (Read-cases ((read_frame s.media).0)) [
    | inl (i, e) ↦
        let media = (read_frame s.media).1 in
        let fewer = ends.read_unread s.media i e in
        let u' = ends.unread media in
        let less : u' < fuel = omega (arith, g.unread_same) in
        let rest = λ (t : Sys md) (g' : Fed u' t). packet_loop-Decoded fuel u' t g' less in
        rw (e, packet_loop)
          (elim (Bool-cases (i ==ℤ pos s.audio.audio_stream_index)) [
            | inl ours ↦ rw ours (
                after_send-Decoded u' (packet_loop md flushes frames fuel) ((send_packet media).0) _
                  (record {
                    balanced = g.balanced;
                    mixed = g.mixed;
                    unread_same = ends.send_unread media;
                  })
                  (ends.send_ready media) rest)
            | inr foreign ↦
                rw foreign
                  (rest _ (record { balanced = g.balanced; mixed = g.mixed; unread_same = refl }))
          ])
    | inr (inl e) ↦ rw (e, packet_loop) (g.balanced, g.mixed)
    | inr (inr e) ↦ rw (e, packet_loop) (g.balanced, g.mixed)
  ]

  drain_decoder-Decoded :
      (s : Sys md) → Decoded s → Ensures Decoded (drain_decoder md flushes frames s)
  unfolding drain_decoder
  drain_decoder-Decoded s g = elim (Bool-cases (send_null s.media).0) [
    | inr e ↦ rw (e, drain_decoder) g
    | inl e ↦
        let u = ends.unread (send_null s.media).1 in
        rw (e, drain_decoder)
          (Ensures->>= (λ o. Fed u o.1) Decoded _ _
            (Frames.receive_loop-Fed md flushes frames packets k mono ends some_channel uniform u
              frames (ends.ready (send_null s.media).1) (record s { media = (send_null s.media).1 })
              (record { balanced = g.0; mixed = g.1; at_most = omega arith; unread_same = refl })
              (ends.null_ready s.media))
            (λ o g'. (g'.balanced, g'.mixed)))
  ]

  -- On a file that ends, whose frames all have `k` channels after mixing, `DecodePacket` from a
  -- reader without samples ends, or throws, and leaves either no samples and a count of 0, or
  -- exactly `k` channels of as many samples as the resampler reported, with `numChannels` at `k`.
  pub decode_packet-Balanced :
      (s : Sys md)
      → s.audio.mono ≡ mono
      → s.audio.output_vector ≡ []
      → s.audio.total_converted ≡ pos 0
      → Ensures (λ t. Balanced k t.audio) (decode_packet md flushes frames packets s)
  unfolding decode_packet
  decode_packet-Balanced s mixed empty zero_count =
      elim (Option-cases (md.init_resampler s.media s.audio.mono s.audio.target_sample_rate)) [
        | inl e ↦ rw (e, decode_packet) tt
        | inr (media, e) ↦
            let t : Sys md = record s { media = media } in
            rw (e, decode_packet)
              (Ensures-weaken Decoded (λ t'. Balanced k t'.audio) _
                (Ensures->>= Decoded Decoded (packet_loop md flushes frames packets t) _
                  (packet_loop-Decoded packets (ends.unread media) t
                    (record {
                      balanced = record {
                        samples = 0;
                        counted = zero_count;
                        rows = inl (empty, refl);
                        channels = inl empty;
                      };
                      mixed = mixed;
                      unread_same = refl;
                    })
                    (ends.init_unread s.media s.audio.mono s.audio.target_sample_rate media e))
                  (λ t' g. drain_decoder-Decoded t' g))
                (λ t' g. g.0))
      ]
