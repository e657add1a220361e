-- ===== src/Egress/Started.antt =====
-- EgressLinkOutput::start (src/outputs/egress-link-output.cpp): the pointers and the statuses of an
-- output, from the reconstruction of its pipeline to the encoders.
use src_link.Prelude.{
  ℕ, ◌≡◌, refl, ap, String, Bool, true, false, ◌&&◌, not, arith, Option-cases, inl, inr,
}
use src_link.Egress.Link.{EgressSettings}
use src_link.Egress.State.{Status, RecordingStatus, is_status, Obs, Output}
use src_link.Egress.Status.{set_status}
use src_link.Egress.Pipeline.{destroy_pipeline, create_source, retrieve_connection}
use src_link.Egress.Create.{create_video, create_audio, make_video_encoder, make_audio_encoder}
use src_link.Egress.Start.{
  or_error, is_connected, is_disabled, mark_active, audio_uuid, take_source, prepare_video,
  prepare_audio, start_encoders, start_video, gather_settings, start_pipeline, reconstructs,
  start_connected, start,
}
use src_link.Egress.Wired.{Wired, destroy_pipeline-Wired, destroy_pipeline-Closed}
use src_link.Egress.Wired.{if_Wired, sync-Wired}
use src_link.Egress.Opened.{
  Ready, Encoded, error-Ready, or_error-Ready, if_Ready, open_outputs-Encoded,
}

-- Ready, with a video encoder.
record Filmed (o : Output) : Type 0 where
  ready : Ready o
  video : o.video_encoder ≡ true

create_audio-Filmed :
    (w : Obs) (u : String) (o : Output)
    → o.audio_encoder ≡ false
    → Filmed o
    → Filmed (create_audio w u o).1 × ((create_audio w u o).1.audio_encoder ≡ false)
unfolding create_audio
create_audio-Filmed w u o n h = ground arith

make_audio_encoder-Encoded :
    (w : Obs) (e : EgressSettings) (u : String) (o : Output)
    → o.audio_encoder ≡ false
    → Filmed o
    → Ready (make_audio_encoder w e u o).1
      × ((make_audio_encoder w e u o).0 ≡ true → Encoded (make_audio_encoder w e u o).1)
unfolding make_audio_encoder
make_audio_encoder-Encoded w e u o n h = ground arith

prepare_audio-Ready :
    (w : Obs) (e : EgressSettings) (o : Output) (rest : Output → Output)
    → Filmed o
    → ((o : Output) → Encoded o → Ready (rest o))
    → Ready (prepare_audio w e o rest)
unfolding prepare_audio
prepare_audio-Ready w e o rest h k =
    if_Ready o.audio_encoder _ _ (λ y. k o (record { ready = h.ready; video = h.video; audio = y }))
      λ n.
        let made = create_audio-Filmed w (audio_uuid o) o n h in
        or_error-Ready w (create_audio w (audio_uuid o) o)
          (λ x. or_error w (make_audio_encoder w e (audio_uuid o) x) rest) made.0.ready
          λ _.
            let last = make_audio_encoder-Encoded w e (audio_uuid o) _ made.1 made.0 in
            or_error-Ready w
              (make_audio_encoder w e (audio_uuid o) (create_audio w (audio_uuid o) o).1) rest
              last.0 λ y. k _ (last.1 y)

create_video-Ready :
    (w : Obs) (o : Output)
    → o.video_encoder ≡ false
    → Ready o
    → Ready (create_video w o).1 × ((create_video w o).1.video_encoder ≡ false)
unfolding create_video
create_video-Ready w o n h = ground arith

make_video_encoder-Filmed :
    (w : Obs) (e : EgressSettings) (x y : ℕ) (o : Output)
    → o.video_encoder ≡ false
    → Ready o
    → Ready (make_video_encoder w e x y o).1
      × ((make_video_encoder w e x y o).0 ≡ true → Filmed (make_video_encoder w e x y o).1)
unfolding make_video_encoder
make_video_encoder-Filmed w e x y o n h = ground arith

prepare_video-Ready :
    (w : Obs) (e : EgressSettings) (size : ℕ × ℕ) (o : Output) (rest : Output → Output)
    → Ready o
    → ((o : Output) → Filmed o → Ready (rest o))
    → Ready (prepare_video w e size o rest)
unfolding prepare_video
prepare_video-Ready w e size o rest h k =
    if_Ready o.video_encoder _ _ (λ y. k o (record { ready = h; video = y }))
      λ n.
        let made = create_video-Ready w o n h in
        or_error-Ready w (create_video w o)
          (λ x. or_error w (make_video_encoder w e size.0 size.1 x) rest) made.0
          λ _.
            let last = make_video_encoder-Filmed w e size.0 size.1 _ made.1 made.0 in
            or_error-Ready w (make_video_encoder w e size.0 size.1 (create_video w o).1) rest last.0
              λ y. k _ (last.1 y)

start_encoders-Ready :
    (w : Obs) (b : Bool) (e : EgressSettings) (size : ℕ × ℕ) (o : Output)
    → Ready o
    → Ready (start_encoders w b e size o)
unfolding start_encoders
start_encoders-Ready w b e size o h =
    prepare_video-Ready w e size o _ h
      λ o1 h1. prepare_audio-Ready w e o1 _ h1 λ o2 h2. (open_outputs-Encoded w b e o2 h2).ready

start_video-Ready : (w : Obs) (b : Bool) (o : Output) → Ready o → Ready (start_video w b o)
unfolding start_video
start_video-Ready w b o h = elim (Option-cases w.video_info) [
  | inl e ↦ rw (e, start_video) (error-Ready w o h)
  | inr (size, e) ↦ elim (Option-cases (gather_settings w o)) [
    | inl e' ↦ rw (e, start_video) (rw (e', start_video) (error-Ready w o h))
    | inr (egress, e') ↦
        rw (e, start_video) (rw (e', start_video) (start_encoders-Ready w b egress _ o h))
  ]
]

stand_by-Ready :
    (w : Obs) (o : Output)
    → is_connected o.connection ≡ false
    → Ready o
    → Ready (set_status w Status.stand_by o)
unfolding set_status
stand_by-Ready w o n h = ground arith

start_pipeline-Ready : (w : Obs) (b : Bool) (o : Output) → Ready o → Ready (start_pipeline w b o)
unfolding start_pipeline
start_pipeline-Ready w b o h =
    let h1 =
      if_Ready (not (is_connected o.connection) && b) (set_status w Status.stand_by o) o
        (λ y. stand_by-Ready w o (ground arith) h) (λ _. h) in
    if_Ready (not (is_connected o.connection) && not o.settings.recording) _ _ (λ _. h1)
      (λ _. start_video-Ready w b _ h1)

mark_active-Ready : (o : Output) → Ready o → Ready (mark_active o)
mark_active-Ready o h = ground arith

take_source-Ready : (w : Obs) (o : Output) → Ready o → Ready (take_source w o).1
unfolding take_source create_source
take_source-Ready w o h = ground arith

inactive-Ready :
    (o : Output)
    → Wired o
    → is_status o.status Status.inactive ≡ true
    → o.streaming_output ≡ false
    → Ready o
inactive-Ready o h e n = ground arith

reset-Ready :
    (w : Obs) (o : Output)
    → Wired o
    → Ready (destroy_pipeline w Status.inactive RecordingStatus.inactive o)
reset-Ready w o h =
    let (closed, status, _) =
      destroy_pipeline-Closed w Status.inactive RecordingStatus.inactive o in
    inactive-Ready _ (destroy_pipeline-Wired w Status.inactive o refl h)
      (ap (λ s. is_status s Status.inactive) status) closed.streaming_output

-- No need to reconstruct: the connection and the status go together.
kept-Ready : (o : Output) → Wired o → reconstructs o ≡ false → Ready o
unfolding reconstructs
kept-Ready o h e = ground arith

start_connected-Ready : (w : Obs) (o : Output) → Wired o → Ready (start_connected w o)
unfolding start_connected
start_connected-Ready w o h =
    if_Ready (reconstructs o) _ _
      (λ _.
        or_error-Ready w
          (take_source w (destroy_pipeline w Status.inactive RecordingStatus.inactive o))
          (λ o1. start_pipeline w true (mark_active o1)) (take_source-Ready w _ (reset-Ready w o h))
          λ _.
            start_pipeline-Ready w true _
              (mark_active-Ready _ (take_source-Ready w _ (reset-Ready w o h))))
      λ n. start_pipeline-Ready w false o (kept-Ready o h n)

retrieve_connection-Wired : (o : Output) → Wired o → Wired (retrieve_connection o)
unfolding retrieve_connection
retrieve_connection-Wired o h = ground arith

pub start-Wired : (w : Obs) (o : Output) → Wired o → Wired (start w o)
unfolding start
start-Wired w o h =
    if_Wired (is_disabled o.settings) _ _
      (sync-Wired _ (destroy_pipeline-Wired w Status.disabled o refl h))
      (sync-Wired _ (start_connected-Ready w _ (retrieve_connection-Wired o h)).wired)
