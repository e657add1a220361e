-- ===== src/Ingress/AudioThread.antt =====
-- src/sources/ingress-link-source.cpp: class SourceAudioThread, which sends the audio of the
-- decoder to the source, beside the capture that fills the buffer (SourceAudioCapture, module
-- Audio).
use mathlib.Core.List.{append-nil, append_assoc}
use src_link.Audio.{
  make_room, no_gap, max_audio_buffer_frames, Chunk, Capture, push_audio, on_source_audio,
}
use src_link.Prelude.{
  ltb, All, branch, true, false, refl, ap, ◌∙◌, sym, refl, [], ◌&&◌, Option, arith, ◌==◌, ◌≤◌, ◌++◌,
  not, sub64, false, if◌then◌else◌, ◌≡◌, ℕ, ◌∷◌, ◌+◌, List, Bool,
}

-- `sent` has the chunks that `obs_source_output_audio` was given, the oldest first.
pub record Thread (S : Type 0) : Type 0 where
  pub running : Bool
  pub capture : Capture S
  pub sent : List (Chunk S)

-- A chunk is captured, muted or not; the loop takes a turn, with or without a source; or it is
-- asked to end.
pub data ThreadEvent (S : Type 0) : Type 0 where
  captured : Bool → ℕ → List (Option (List S)) → ThreadEvent S
  turned : Bool → ThreadEvent S
  interrupted : ThreadEvent S

module _ {S : Type 0} where
  abbrev set_active : Bool → Thread S → Thread S
  set_active b t = record t { running = b; capture = record t.capture { active = b } }

  -- A pop of a chunk that lacks a channel removes more bytes than it has: `misread` stands for what the
  -- rest of the deque is read as then.
  abbrev send_first : (List (Chunk S) → List (Chunk S)) → List (Chunk S) → Thread S → Thread S
  send_first misread [] t = t
  send_first misread (c ∷ cs) t = record t {
    capture = record t.capture {
      buffer = if no_gap c.planes then cs else misread cs;
      buffer_frames = sub64 t.capture.buffer_frames c.frames;
    };
    sent = t.sent ++ c ∷ [];
  }

  -- One turn of the loop, under the mutex of the buffer.
  unfoldable pub turn : (List (Chunk S) → List (Chunk S)) → Bool → Thread S → Thread S
  turn misread has_source t =
      let next =
        if t.capture.buffer_frames == 0 then t else send_first misread t.capture.buffer t in
      if not t.running then t else if has_source then next else set_active false t

  unfoldable pub thread_step :
      (List (Chunk S) → List (Chunk S)) → ThreadEvent S → Thread S → Thread S
  unfolding turn on_source_audio
  thread_step misread (captured muted frames planes) t = record t {
    capture = on_source_audio muted frames planes t.capture;
  }
  thread_step misread (turned has_source) t = turn misread has_source t
  thread_step misread interrupted t = set_active false t

  unfoldable pub run_thread :
      (List (Chunk S) → List (Chunk S)) → List (ThreadEvent S) → Thread S → Thread S
  unfolding thread_step
  run_thread misread [] t = t
  run_thread misread (e ∷ es) t = run_thread misread es (thread_step misread e t)

  abbrev chunk : ℕ → List (Option (List S)) → Chunk S
  chunk frames planes = record { frames = frames; offset = 0; planes = planes }

  -- No chunk that comes lacks a channel.
  abbrev pub Whole : List (ThreadEvent S) → Type 0
  Whole [] = Unit
  Whole (captured muted frames planes ∷ es) = (no_gap planes ≡ true) × Whole es
  Whole (turned b ∷ es) = Whole es
  Whole (interrupted ∷ es) = Whole es

  -- None of those that wait does.
  abbrev pub AllWhole : List (Chunk S) → Type 0
  AllWhole cs = All (λ (c : Chunk S). no_gap c.planes ≡ true) cs

  module _ (misread : List (Chunk S) → List (Chunk S)) where
    -- The chunks of the events, as far as the capture was active.
    abbrev pub heard : List (ThreadEvent S) → Thread S → List (Chunk S)
    heard [] t = []
    heard (captured muted frames planes ∷ es) t =
        let rest = heard es (thread_step misread (captured muted frames planes) t) in
        if not muted && t.capture.active then chunk frames planes ∷ rest else rest
    heard (turned b ∷ es) t = heard es (thread_step misread (turned b) t)
    heard (interrupted ∷ es) t = heard es (thread_step misread interrupted t)

    -- No chunk comes while the buffer is too full for it.
    abbrev pub HasRoom : List (ThreadEvent S) → Thread S → Type 0
    HasRoom [] t = Unit
    HasRoom (captured muted frames planes ∷ es) t =
        (t.capture.buffer_frames + frames ≤ max_audio_buffer_frames)
        × HasRoom es (thread_step misread (captured muted frames planes) t)
    HasRoom (turned b ∷ es) t = HasRoom es (thread_step misread (turned b) t)
    HasRoom (interrupted ∷ es) t = HasRoom es (thread_step misread interrupted t)

    -- The chunks that were sent, and after them those that wait.
    abbrev pub line : Thread S → List (Chunk S)
    line t = t.sent ++ t.capture.buffer

    send_first-line :
        (cs : List (Chunk S)) (t : Thread S)
        → t.capture.buffer ≡ cs
        → AllWhole cs
        → (line (send_first misread cs t) ≡ t.sent ++ cs)
          × AllWhole (send_first misread cs t).capture.buffer
    send_first-line [] t e w = (rw e refl, rw e tt)
    send_first-line (c ∷ cs) t e w = rw (w.0) (append_assoc t.sent (c ∷ []) cs, w.1)

    turn-line :
        (b : Bool) (t : Thread S)
        → AllWhole t.capture.buffer
        → (line (turn misread b t) ≡ line t) × AllWhole (turn misread b t).capture.buffer
    unfolding turn
    turn-line b t w =
        let P : Thread S → Type 0 = λ t'. (line t' ≡ line t) × AllWhole t'.capture.buffer in
        branch P (not t.running) _ _ (λ _. (refl, w))
          λ _.
            branch P b _ _
              (λ _.
                branch P (t.capture.buffer_frames == 0) _ _ (λ _. (refl, w))
                  λ _. send_first-line t.capture.buffer t refl w)
              λ _. (refl, w)

    captured-line :
        (muted : Bool) (frames : ℕ) (planes : List (Option (List S))) (t : Thread S)
        → t.capture.buffer_frames + frames ≤ max_audio_buffer_frames
        → line (thread_step misread (captured muted frames planes) t)
          ≡ line t ++ (if not muted && t.capture.active then chunk frames planes ∷ [] else [])
    unfolding thread_step on_source_audio push_audio
    captured-line muted frames planes t h = ground (
      arith,
      append_assoc t.sent t.capture.buffer (chunk frames planes ∷ []),
      append-nil (line t),
    )

    AllWhole-snoc :
        (cs : List (Chunk S)) (c : Chunk S)
        → AllWhole cs
        → no_gap c.planes ≡ true
        → AllWhole (cs ++ c ∷ [])
    AllWhole-snoc [] c w h = (h, tt)
    AllWhole-snoc (x ∷ xs) c w h = (w.0, AllWhole-snoc xs c w.1 h)

    captured-AllWhole :
        (muted : Bool) (frames : ℕ) (planes : List (Option (List S))) (t : Thread S)
        → AllWhole t.capture.buffer
        → no_gap planes ≡ true
        → AllWhole (thread_step misread (captured muted frames planes) t).capture.buffer
    unfolding thread_step on_source_audio push_audio
    captured-AllWhole muted frames planes t w h =
        let P : Capture S → Type 0 = λ c. AllWhole c.buffer in
        let room : AllWhole (make_room frames t.capture).buffer =
          branch P (ltb max_audio_buffer_frames (t.capture.buffer_frames + frames)) _ _ (λ _. tt)
            (λ _. w) in
        branch P muted _ _ (λ _. w)
          λ _.
            branch P t.capture.active _ _
              (λ _. AllWhole-snoc (make_room frames t.capture).buffer (chunk frames planes) room h)
              λ _. w

    one_more_heard :
        (b : Bool) (c : Chunk S) (xs ys : List (Chunk S))
        → (xs ++ (if b then c ∷ [] else [])) ++ ys ≡ xs ++ (if b then c ∷ ys else ys)
    one_more_heard true c xs ys = append_assoc xs (c ∷ []) ys
    one_more_heard false c xs ys = ap (λ l. l ++ ys) (append-nil xs)

    -- Without an overflow and as long as no chunk lacks a channel, every chunk that is captured
    -- while the thread is active has been sent or waits, once and in the order of its capture,
    -- after those that were there before; nothing else is sent.
    pub run_thread-line :
        (es : List (ThreadEvent S)) (t : Thread S)
        → HasRoom es t
        → Whole es
        → AllWhole t.capture.buffer
        → line (run_thread misread es t) ≡ line t ++ heard es t
    unfolding run_thread thread_step
    run_thread-line [] t h w b = sym (append-nil (line t))
    run_thread-line (captured muted frames planes ∷ es) t h w b =
        let t' = thread_step misread (captured muted frames planes) t in
        run_thread-line es t' h.1 w.1 (captured-AllWhole muted frames planes t b w.0)
        ∙ ap (λ l. l ++ heard es t') (captured-line muted frames planes t h.0)
        ∙ one_more_heard (not muted && t.capture.active) (chunk frames planes) (line t)
            (heard es t')
    run_thread-line (turned has_source ∷ es) t h w b =
        let (same, kept) = turn-line has_source t b in
        run_thread-line es (turn misread has_source t) h w kept
        ∙ ap (λ l. l ++ heard es (turn misread has_source t)) same
    run_thread-line (interrupted ∷ es) t h w b = run_thread-line es (set_active false t) h w b
