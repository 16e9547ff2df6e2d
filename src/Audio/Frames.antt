-- ===== src/Audio/Frames.antt =====
-- `HandleFrame` and the loop over the frames that the decoder has ready.
use peli.Base.{
  ℕ, zero, suc, ◌+◌, ◌-◌, ◌≡◌, ◌≤◌, ◌<◌, ◌⊎◌, inl, inr, refl, ap, subst, ◌∙◌, Bool, true, Option,
  none, some, Ensures, Ensures-weaken, Ensures->>=, Ensures->>, arith, ℤ, pos, pos_part, leb_ℤ,
  ltb_ℤ, negsuc, ◌<ℤ◌, ◌+ℤ◌, pos-+ℤ, Bool-cases,
}
use peli.Audio.State.{Frame, Received, frame, again, finished, broken, Media, Sys}
use peli.Audio.Save.{save_to_vector}
use peli.Audio.Decode.{pad, out_channels, convert_some, flush, handle_frame, receive_loop}
use peli.Audio.Rows.{HasRows, save_to_vector-HasRows}
use peli.Audio.Ends.{Ends, Uniform, Balanced}

not_negative : (z : ℤ) → leb_ℤ (pos 0) z ≡ true → z ≡ pos (pos_part z)
not_negative (pos n) h = refl
not_negative (negsuc n) h = absurd (ground arith)

module _ (md : Media) (flushes frames packets k : ℕ) (mono : Bool)
    (ends : Ends md flushes frames packets) (some_channel : 0 < k) where
  open md use {State, convert, receive_frame, send_packet, send_null, read_frame}

  -- `r` frames are ready at most, and `u` packets are unread.
  pub record Good (r u : ℕ) (s : Sys md) : Type 0 where
    pub balanced : Balanced k s.audio
    pub mixed : s.audio.mono ≡ mono
    pub at_most : ends.ready s.media ≤ r
    pub unread_same : ends.unread s.media ≡ u

  -- The same once a frame has come.
  record Busy (r u : ℕ) (s : Sys md) : Type 0 where
    good : Good r u s
    numbered : s.audio.num_channels ≡ k

  abbrev Converted : ℕ → ℕ → ℕ → Option Frame → Sys md → ℤ × Sys md → Type 0
  Converted r u n f s o =
      Busy r u o.1 × (o.0 ≡ (convert s.media n f).0) × (o.1.media ≡ (convert s.media n f).2)

  convert_some-Busy :
      (r u n : ℕ) (f : Option Frame) (s : Sys md)
      → Busy r u s
      → Ensures (Converted r u n f s) (convert_some md k n f s)
  unfolding convert_some
  convert_some-Busy r u n f s b =
      let got = (convert s.media n f).0 in
      let t = b.good.balanced.samples in
      Ensures->> (Converted r u n f s) (leb_ℤ (pos 0) got) _ (λ sign.
        Ensures->>= (HasRows k (t + pos_part got)) (Converted r u n f s)
          (save_to_vector (convert s.media n f).1 k (pos_part got) s.audio.output_vector) _
          (save_to_vector-HasRows (convert s.media n f).1 k (pos_part got) t _ some_channel
            b.good.balanced.rows)
          (λ saved rows. (
            record {
              good = record {
                balanced = record {
                  samples = t + pos_part got;
                  counted =
                      ap (λ z. z +ℤ got) b.good.balanced.counted
                      ∙ ap (λ z. pos t +ℤ z) (not_negative got sign)
                      ∙ pos-+ℤ t (pos_part got);
                  rows = rows;
                  channels = inr b.numbered;
                };
                mixed = b.good.mixed;
                at_most = omega (arith, ends.convert_ready s.media n f, b.good.at_most);
                unread_same = ends.convert_unread s.media n f ∙ b.good.unread_same;
              };
              numbered = b.numbered;
            },
            refl,
            refl,
          )))

  flush-Busy :
      (r u fuel n : ℕ) (got : ℤ) (s : Sys md)
      → Busy r u s
      → 0 < fuel
      → (pos 0 <ℤ got → ends.held s.media + 1 < fuel)
      → Ensures (Busy r u) (flush md fuel k n got s)
  unfolding flush
  flush-Busy r u zero n got s b h enough = absurd (omega arith)
  flush-Busy r u (suc fuel) n got s b h enough = elim (Bool-cases (ltb_ℤ (pos 0) got)) [
    | inl more ↦
        let left = enough (ground arith) in
        rw (more, flush)
          (Ensures->>= (Converted r u n none s) (Busy r u) (convert_some md k n none s) _
            (convert_some-Busy r u n none s b)
            (λ o c. flush-Busy r u fuel n o.0 o.1 c.0 (omega arith) (λ h'.
              let fewer = ends.flush_held s.media n (subst (λ z. pos 0 <ℤ z) c.1 h') in
              let same = ap ends.held c.2 in omega arith)))
    | inr done ↦ rw (done, flush) b
  ]

  -- The fields that a frame sets before its samples are converted.
  start :
      {r u : ℕ} {s : Sys md}
      → Good r u s
      → (pts : ℤ)
      → Busy r u (record s {
        audio = record s.audio { padding = pad s.audio.padding pts; num_channels = k };
      })
  start g pts = record {
    good = record {
      balanced = record {
        samples = g.balanced.samples;
        counted = g.balanced.counted;
        rows = g.balanced.rows;
        channels = inr refl;
      };
      mixed = g.mixed;
      at_most = g.at_most;
      unread_same = g.unread_same;
    };
    numbered = refl;
  }

  -- A frame of `k` channels.
  handle_frame-Good :
      (r u : ℕ) (f : Frame) (s : Sys md)
      → Good r u s
      → out_channels md mono f ≡ k
      → Ensures (Good r u) (handle_frame md flushes f s)
  unfolding handle_frame
  handle_frame-Good r u f s g uniform =
      let channels : out_channels md s.audio.mono f ≡ k =
        ap (λ m. out_channels md m f) g.mixed ∙ uniform in
      let n = md.rescale_up f.nb_samples s.audio.target_sample_rate f.sample_rate in
      let padded : Sys md = record s {
        audio = record s.audio { padding = pad s.audio.padding f.pts; num_channels = k };
      } in
      rw (channels, handle_frame)
        (Ensures->> (Good r u) (md.alloc_samples s.media k n) _ (λ _.
          Ensures->>= (Converted r u n (some f) padded) (Good r u)
            (convert_some md k n (some f) padded) _
            (convert_some-Busy r u n (some f) padded (start g f.pts))
            (λ o c.
              Ensures-weaken (Busy r u) (Good r u) _
                (flush-Busy r u flushes n o.0 o.1 c.0
                  (omega (arith, ends.convert_held s.media n (some f)))
                  (λ h'.
                    let same = ap ends.held c.2 in
                    omega (arith, ends.convert_held s.media n (some f))))
                (λ t b. b.good))))

  -- After a frame fewer are ready.
  after_frame :
      (r u : ℕ) (f : Frame) (s : Sys md)
      → Good r u s
      → (receive_frame s.media).0 ≡ frame f
      → Good (r - 1) u (record {
        audio = record s.audio { total_samples = s.audio.total_samples + f.nb_samples };
        media = (receive_frame s.media).1;
      })
  after_frame r u f s g e = record {
    balanced = record {
      samples = g.balanced.samples;
      counted = g.balanced.counted;
      rows = g.balanced.rows;
      channels = g.balanced.channels;
    };
    mixed = g.mixed;
    at_most = omega (arith, ends.receive_ready s.media f e, g.at_most);
    unread_same = ends.receive_unread s.media ∙ g.unread_same;
  }

  Received-cases :
      (r : Received) → ((f : Frame) × (r ≡ frame f)) ⊎ (r ≡ again) ⊎ (r ≡ finished) ⊎ (r ≡ broken)
  Received-cases (frame f) = inl (f, refl)
  Received-cases again = inr (inl refl)
  Received-cases finished = inr (inr (inl refl))
  Received-cases broken = inr (inr (inr refl))

  -- What is at most `frames` ready, whatever it is.
  pub record Fed (u : ℕ) (s : Sys md) : Type 0 where
    pub balanced : Balanced k s.audio
    pub mixed : s.audio.mono ≡ mono
    pub unread_same : ends.unread s.media ≡ u

  stopped :
      (u r : ℕ) (s : Sys md) → Good r u s → Fed u (record s { media = (receive_frame s.media).1 })
  stopped u r s g = record {
    balanced = g.balanced;
    mixed = g.mixed;
    unread_same = ends.receive_unread s.media ∙ g.unread_same;
  }

  module _ (uniform : Uniform md mono k) where
    -- The loop over the frames that are ready.
    pub receive_loop-Fed :
        (u fuel r : ℕ) (s : Sys md)
        → Good r u s
        → r < fuel
        → Ensures (λ o. Fed u o.1) (receive_loop md flushes fuel s)
    unfolding receive_loop
    receive_loop-Fed u zero r s g h = absurd (omega arith)
    receive_loop-Fed u (suc fuel) r s g h = elim (Received-cases ((receive_frame s.media).0)) [
      | inl (f, e) ↦
          let t : Sys md = record {
            audio = record s.audio { total_samples = s.audio.total_samples + f.nb_samples };
            media = (receive_frame s.media).1;
          } in
          let fewer : r - 1 < fuel = omega (arith, ends.receive_ready s.media f e, g.at_most) in
          rw (e, receive_loop)
            (Ensures->>= (Good (r - 1) u) (λ o. Fed u o.1) (handle_frame md flushes f t) _
              (handle_frame-Good (r - 1) u f t (after_frame r u f s g e) (uniform s.media f e))
              (λ t' g'. receive_loop-Fed u fuel (r - 1) t' g' fewer))
      | inr (inl e) ↦ rw (e, receive_loop) (stopped u r s g)
      | inr (inr (inl e)) ↦ rw (e, receive_loop) (stopped u r s g)
      | inr (inr (inr e)) ↦ rw (e, receive_loop) (stopped u r s g)
    ]
