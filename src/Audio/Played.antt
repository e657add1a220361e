-- ===== src/Audio/Played.antt =====
-- What OutputAudioSource::popAudio (src/outputs/audio-source.cpp) plays of the buffer.
use src_link.Audio.Mixed.{mix_chunk-take, mix_into-nil, mix_into-append}
use src_link.Audio.Buffered.{Filled, stream, total_left, plane_of, frames_left, Sound}
use src_link.Prelude.Slices.{
  drop, drop-drop, drop-past, drop-within, drop-zero, length-drop, take, take-past, take-within,
  take-zero, take_all,
}
use src_link.Prelude.{
  not, if◌then◌else◌, sub64-small, sub64, ◌||◌, ◌==◌, ◌^◌, ◌∙◌, Bool, ltb, ◌<◌, sym, true, branch,
  refl, ap, arith, ◌+◌, ◌≤◌, ◌≡◌, All, length, ◌∷◌, [], ◌-◌, ◌++◌, ℕ, List,
}
use src_link.Audio.{
  no_gap, pop_audio, turn_frames, pop_chunks, audio_output_frames, mix_chunk, Mixes, Capture,
  mix_into, Chunk,
}

module _ {S : Type 0} (mix : S → S → S) where
  -- What a run of the loop leaves, for a channel of a track that `mixers` selects.
  record Plays (channel track wanted : ℕ) (cs : List (Chunk S)) (out : Mixes S)
      (r : List (Chunk S) × ℕ × Mixes S) : Type 0 where
    counted : r.1 ≡ total_left r.0
    spent : r.1 + wanted ≡ total_left cs
    filled : All (Filled channel) r.0
    rest : stream channel r.0 ≡ drop wanted (stream channel cs)
    played :
        r.2 track channel
        ≡ mix_into mix
            (audio_output_frames - wanted)
            (take wanted (stream channel cs))
            (out track channel)

  idle-Plays :
      (channel track held : ℕ) (cs : List (Chunk S)) (out : Mixes S)
      → held ≡ total_left cs
      → All (Filled channel) cs
      → Plays channel track 0 cs out (cs, held, out)
  idle-Plays channel track held cs out e h = record {
    counted = e;
    spent = ground arith;
    filled = h;
    rest = sym (drop-zero _);
    played = sym (
        ap (λ l. mix_into mix (audio_output_frames - 0) l (out track channel)) (take-zero _)
        ∙ mix_into-nil mix _ _);
  }

  -- The chunk has all that is wanted, and more.
  part-Plays :
      (channel track wanted held : ℕ) (c : Chunk S) (cs : List (Chunk S)) (out out' : Mixes S)
      → held + wanted ≡ total_left (c ∷ cs)
      → wanted < frames_left c
      → Filled channel c
      → All (Filled channel) cs
      → out' track channel
        ≡ mix_into mix
            (audio_output_frames - wanted)
            (take wanted (drop c.offset (plane_of channel c)))
            (out track channel)
      → Plays channel track wanted
          (c ∷ cs)
          out
          (record c { offset = c.offset + wanted } ∷ cs, held, out')
  part-Plays channel track wanted held c cs out out' e few f h m =
      let enough : wanted ≤ length (drop c.offset (plane_of channel c)) =
        ground (arith, length-drop c.offset (plane_of channel c), f.long) in
      record {
        counted = ground arith;
        spent = e;
        filled = (record { long = f.long; within = ground (arith, f.within) }, h);
        rest =
            ap (λ l. l ++ stream channel cs) (sym (drop-drop c.offset wanted _))
            ∙ sym (drop-within wanted _ _ enough);
        played =
            m
            ∙ sym (
                ap (λ l. mix_into mix (audio_output_frames - wanted) l (out track channel))
                  (take-within wanted _ _ enough));
      }

  -- The chunk is used up, and the loop goes on.
  whole-Plays :
      (channel track wanted held : ℕ) (c : Chunk S) (cs : List (Chunk S)) (out out' : Mixes S)
      (r : List (Chunk S) × ℕ × Mixes S)
      → frames_left c ≤ wanted
      → wanted ≤ audio_output_frames
      → Filled channel c
      → out' track channel
        ≡ mix_into mix
            (audio_output_frames - wanted)
            (take (frames_left c) (drop c.offset (plane_of channel c)))
            (out track channel)
      → Plays channel track (wanted - frames_left c) cs out' r
      → Plays channel track wanted (c ∷ cs) out r
  whole-Plays channel track wanted held c cs out out' r few most f m h =
      let plane = drop c.offset (plane_of channel c) in
      let long : length plane ≡ frames_left c =
        length-drop c.offset (plane_of channel c) ∙ ap (λ n. n - c.offset) f.long in
      let at = audio_output_frames - wanted in
      let later = take (wanted - frames_left c) (stream channel cs) in
      let place : audio_output_frames - (wanted - frames_left c) ≡ at + length plane =
        ground arith in
      record {
        counted = h.counted;
        spent = ground (arith, h.spent);
        filled = h.filled;
        rest =
            h.rest
            ∙ ap (λ n. drop (wanted - n) (stream channel cs)) (sym long)
            ∙ sym (drop-past wanted plane _ (ground arith));
        played =
            h.played
            ∙ ap (λ k. mix_into mix k later (out' track channel)) place
            ∙ ap (λ o. mix_into mix (at + length plane) later o)
                (m
                  ∙ ap (λ l. mix_into mix at l (out track channel))
                      (take_all (frames_left c) plane (ground arith)))
            ∙ sym (mix_into-append mix at plane later (out track channel))
            ∙ sym (
                ap (λ l. mix_into mix at l (out track channel))
                  (take-past wanted plane (stream channel cs) (ground arith)
                    ∙ ap (λ k. plane ++ take (wanted - k) (stream channel cs)) long));
      }

  -- One turn of the loop, of `n` frames.
  turn-Plays :
      (astray : ℕ → List (Chunk S) → ℕ → Mixes S → List (Chunk S) × ℕ × Mixes S) (mixers : ℕ → Bool)
      (channel track wanted held n : ℕ) (c : Chunk S) (cs : List (Chunk S)) (out : Mixes S)
      → n ≡ turn_frames wanted (frames_left c)
      → mixers track ≡ true
      → wanted ≤ audio_output_frames
      → wanted ≤ held
      → held ≡ total_left (c ∷ cs)
      → held < 2 ^ 64
      → Filled channel c
      → All (Filled channel) cs
      → (frames_left c ≤ wanted
          → (out' : Mixes S)
          → Plays channel track (wanted - frames_left c) cs out' (
              pop_chunks mix astray mixers
                (wanted - frames_left c)
                cs
                (sub64 held (frames_left c))
                out'))
      → Plays channel track wanted (c ∷ cs) out (
          if n == frames_left c
          then pop_chunks mix astray mixers
              (wanted - n)
              cs
              (sub64 held n)
              (mix_chunk mix mixers (audio_output_frames - wanted) n c out)
          else (
            record c { offset = c.offset + n } ∷ cs,
            sub64 held n,
            mix_chunk mix mixers (audio_output_frames - wanted) n c out,
          ))
  turn-Plays astray mixers channel track wanted held n c cs out q m most enough e small f h next =
      branch (Plays channel track wanted (c ∷ cs) out) (n == frames_left c) _ _
        (λ y.
          let all : n ≡ frames_left c = ground arith in
          let few : frames_left c ≤ wanted = ground (arith, q) in
          rw all (
            whole-Plays channel track wanted held c cs out _ _ few most f
              (mix_chunk-take mix mixers channel track (audio_output_frames - wanted)
                (frames_left c) c out m)
              (next few _)))
        λ y.
          let some_left : wanted < frames_left c = ground (arith, q) in
          let part : n ≡ wanted = ground (arith, q) in
          let taken = sub64-small held wanted enough small in
          rw part (
            part-Plays channel track wanted (sub64 held wanted) c cs out _ (ground arith) some_left
              f h
              (mix_chunk-take mix mixers channel track (audio_output_frames - wanted) wanted c out
                m))

  pop_chunks-Plays :
      (astray : ℕ → List (Chunk S) → ℕ → Mixes S → List (Chunk S) × ℕ × Mixes S) (mixers : ℕ → Bool)
      (channel track wanted : ℕ) (cs : List (Chunk S)) (held : ℕ) (out : Mixes S)
      → mixers track ≡ true
      → wanted ≤ audio_output_frames
      → wanted ≤ held
      → held ≡ total_left cs
      → held < 2 ^ 64
      → All (Filled channel) cs
      → All (λ (c : Chunk S). no_gap c.planes ≡ true) cs
      → Plays channel track wanted cs out (pop_chunks mix astray mixers wanted cs held out)
  unfolding pop_chunks
  pop_chunks-Plays astray mixers channel track wanted [] held out m most enough e small h w =
      let none_wanted : wanted ≡ 0 = ground arith in
      rw none_wanted (idle-Plays channel track held [] out e h)
  pop_chunks-Plays astray mixers channel track wanted (c ∷ cs) held out m most enough e small h w =
      branch (Plays channel track wanted (c ∷ cs) out) ((wanted == 0) || (held == 0)) _ _
        (λ y.
          let none_wanted : wanted ≡ 0 = ground arith in
          rw none_wanted (idle-Plays channel track held (c ∷ cs) out e h))
        λ y. rw (w.0) (
          turn-Plays astray mixers channel track wanted held (turn_frames wanted (frames_left c)) c
            cs out refl m most enough e small h.0 h.1
            λ few out'.
              let taken = sub64-small held (frames_left c) (ground arith) small in
              pop_chunks-Plays astray mixers channel track (wanted - frames_left c) cs _ out' m
                (ground arith) (ground arith) (ground arith) (ground arith) h.1 w.1)

  -- `r` is what is left of `c`, and the mixes, once 1024 frames of `c` were played.
  pub record Popped (channel track : ℕ) (c : Capture S) (out : Mixes S) (r : Capture S × Mixes S)
      : Type 0 where
    pub sound : Sound channel r.0
    pub spent : r.0.buffer_frames + audio_output_frames ≡ c.buffer_frames
    pub rest : stream channel r.0.buffer ≡ drop audio_output_frames (stream channel c.buffer)
    pub played :
        r.1 track channel
        ≡ mix_into mix 0 (take audio_output_frames (stream channel c.buffer)) (out track channel)

  -- An active buffer of 1024 frames or more, sound on a channel, of whose chunks none lacks a
  -- channel, plays on each selected track exactly the first 1024 samples of the channel that are
  -- left, mixed into the track from its start, across as many chunks as it takes; the others are
  -- left in order, the buffer holds 1024 frames less, and it stays sound.
  pub pop_audio-stream :
      (astray : ℕ → List (Chunk S) → ℕ → Mixes S → List (Chunk S) × ℕ × Mixes S) (mixers : ℕ → Bool)
      (channel track : ℕ) (out : Mixes S) (c : Capture S)
      → mixers track ≡ true
      → c.active ≡ true
      → audio_output_frames ≤ c.buffer_frames
      → Sound channel c
      → All (λ (c : Chunk S). no_gap c.planes ≡ true) c.buffer
      → Popped channel track c out (pop_audio mix astray mixers out c)
  unfolding pop_audio
  pop_audio-stream astray mixers channel track out c m a enough h w =
      let plays =
        pop_chunks-Plays astray mixers channel track audio_output_frames c.buffer c.buffer_frames
          out m (ground arith) enough h.counted (ground (arith, h.bounded)) h.filled w in
      branch (Popped channel track c out) (not c.active || ltb c.buffer_frames audio_output_frames)
        _ _ (λ y. ground arith)
        λ _. record {
          sound = record {
            counted = plays.counted;
            bounded = ground (arith, plays.spent, h.counted, h.bounded);
            filled = plays.filled;
          };
          spent = plays.spent ∙ sym h.counted;
          rest = plays.rest;
          played = plays.played;
        }
