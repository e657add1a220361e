-- ===== src/Egress/Carry/Starting.antt =====
-- The starts and stops of src/outputs/egress-link-output.cpp, for a predicate on the status and the
-- API client.
use src_link.Egress.Carry.{or_error-keep, recording-keep, destroy-keep, if_keep, Carried}
use src_link.Prelude.{
  ℕ, refl, Bool, true, false, arith, Option-cases, inl, inr, if◌then◌else◌, not, ◌&&◌,
}
use src_link.Egress.Link.{EgressSettings}
use src_link.Egress.State.{
  streaming, recording, start_output, force_stop_output, set_encoders, Status, RecordingStatus, Obs,
  Output,
}
use src_link.Egress.Status.{emit, set_status}
use src_link.Egress.Pipeline.{destroy_pipeline, retrieve_connection, inc_source}
use src_link.Egress.Create.{create_video, create_audio, make_video_encoder, make_audio_encoder}
use src_link.Egress.Start.{
  or_error, is_connected, is_disabled, streaming_or_error, recording_or_error, mark_active,
  audio_uuid, take_source, prepare_video, prepare_audio, open_streaming, open_recording,
  activate_streaming, activate_outputs, open_outputs, start_encoders, start_video, gather_settings,
  start_pipeline, reconstructs, start_connected, start, start_streaming, start_recording, stop,
  restart_streaming,
}
use src_link.Egress.Frame.{
  take_source-Same, create_video-Same, create_audio-Same, make_video_encoder-Same,
  make_audio_encoder-Same, create_streaming_output-Same, create_recording_output-Same,
}

module _ (P : Output → Type 0) (c : Carried P) where
  pub streaming_or_error-keep : (w : Obs) (r : Bool × Output) → P r.1 → P (streaming_or_error w r)
  streaming_or_error-keep w (true, o) h = h
  streaming_or_error-keep w (false, o) h = c.keep_status w Status.error o h

  pub recording_or_error-keep : (w : Obs) (r : Bool × Output) → P r.1 → P (recording_or_error w r)
  recording_or_error-keep w (true, o) h = h
  recording_or_error-keep w (false, o) h = recording-keep P c w RecordingStatus.error o h

  pub open_streaming-keep :
      (w : Obs) (e : EgressSettings) (o : Output) → P o → P (open_streaming w e o)
  unfolding open_streaming
  open_streaming-keep w e o h =
      if_keep P c _ _ _
        (streaming_or_error-keep w _ (c.frame _ _ (create_streaming_output-Same w e o) h)) h

  pub open_recording-keep :
      (w : Obs) (e : EgressSettings) (o : Output) → P o → P (open_recording w e o)
  unfolding open_recording
  open_recording-keep w e o h =
      if_keep P c _ _ _
        (recording_or_error-keep w _ (c.frame _ _ (create_recording_output-Same w e o) h)) h

  pub activate_outputs-keep : (w : Obs) (b : Bool) (o : Output) → P o → P (activate_outputs w b o)
  unfolding activate_outputs
  activate_outputs-keep w b o h =
      if_keep P c _ _ _ h (streams _ (if_keep P c _ _ _ (recording-keep P c w _ o h) h))
    where
      streams : (o : Output) → P o → P (activate_streaming w b o)
      streams o h =
          if_keep P c _ _ _
            (c.keep_status w _ _ (c.frame o _ (record { api = refl; status = refl }) h)) h

  pub open_outputs-keep :
      (w : Obs) (b : Bool) (e : EgressSettings) (o : Output) → P o → P (open_outputs w b e o)
  unfolding open_outputs
  open_outputs-keep w b e o h =
      activate_outputs-keep w b _ (open_recording-keep w e _ (open_streaming-keep w e o h))

  pub prepare_audio-keep :
      (w : Obs) (e : EgressSettings) (o : Output) (rest : Output → Output)
      → P o
      → ((o : Output) → P o → P (rest o))
      → P (prepare_audio w e o rest)
  unfolding prepare_audio
  prepare_audio-keep w e o rest h k = if_keep P c o.audio_encoder _ _ (k o h) (
      or_error-keep P c w (create_audio w (audio_uuid o) o)
        (λ x. or_error w (make_audio_encoder w e (audio_uuid o) x) rest)
        (c.frame o _ (create_audio-Same w (audio_uuid o) o) h)
        λ o1 h1.
          or_error-keep P c w (make_audio_encoder w e (audio_uuid o) o1) rest
            (c.frame o1 _ (make_audio_encoder-Same w e (audio_uuid o) o1) h1) k)

  pub prepare_video-keep :
      (w : Obs) (e : EgressSettings) (size : ℕ × ℕ) (o : Output) (rest : Output → Output)
      → P o
      → ((o : Output) → P o → P (rest o))
      → P (prepare_video w e size o rest)
  unfolding prepare_video
  prepare_video-keep w e size o rest h k = if_keep P c o.video_encoder _ _ (k o h) (
      or_error-keep P c w (create_video w o)
        (λ x. or_error w (make_video_encoder w e size.0 size.1 x) rest)
        (c.frame o _ (create_video-Same w o) h)
        λ o1 h1.
          or_error-keep P c w (make_video_encoder w e size.0 size.1 o1) rest
            (c.frame o1 _ (make_video_encoder-Same w e size.0 size.1 o1) h1) k)

  pub start_encoders-keep :
      (w : Obs) (b : Bool) (e : EgressSettings) (size : ℕ × ℕ) (o : Output)
      → P o
      → P (start_encoders w b e size o)
  unfolding start_encoders
  start_encoders-keep w b e size o h =
      prepare_video-keep w e size o _ h
        λ o1 h1. prepare_audio-keep w e o1 _ h1 (open_outputs-keep w b e)

  pub start_video-keep : (w : Obs) (b : Bool) (o : Output) → P o → P (start_video w b o)
  unfolding start_video
  start_video-keep w b o h = elim (Option-cases w.video_info) [
    | inl e ↦ rw (e, start_video) (c.keep_status w _ o h)
    | inr (size, e) ↦ elim (Option-cases (gather_settings w o)) [
      | inl e' ↦ rw (e, start_video) (rw (e', start_video) (c.keep_status w _ o h))
      | inr (egress, e') ↦
          rw (e, start_video) (rw (e', start_video) (start_encoders-keep w b egress _ o h))
    ]
  ]

  pub start_pipeline-keep : (w : Obs) (b : Bool) (o : Output) → P o → P (start_pipeline w b o)
  unfolding start_pipeline
  start_pipeline-keep w b o h = if_keep P c _ _ _ idle (start_video-keep w b _ idle)
    where
      idle : P (if not (is_connected o.connection) && b then set_status w Status.stand_by o else o)
      idle = if_keep P c _ _ _ (c.keep_status w _ o h) h

  pub start_connected-keep : (w : Obs) (o : Output) → P o → P (start_connected w o)
  unfolding start_connected
  start_connected-keep w o h =
      if_keep P c (reconstructs o) _ _
        (or_error-keep P c w (take_source w closed) (λ x. start_pipeline w true (mark_active x))
          (c.frame closed _ (take_source-Same w closed) (destroy-keep P c w _ _ o h))
          λ o1 h1.
            start_pipeline-keep w true (mark_active o1)
              (c.frame o1 _ (record { api = refl; status = refl }) h1))
        (start_pipeline-keep w false o h)
    where
      closed : Output
      closed = destroy_pipeline w Status.inactive RecordingStatus.inactive o

  pub start-keep : (w : Obs) (o : Output) → P o → P (start w o)
  unfolding start retrieve_connection
  start-keep w o h =
      if_keep P c (is_disabled o.settings) _ _
        (c.keep_sync _ (destroy-keep P c w Status.disabled RecordingStatus.inactive o h))
        (c.keep_sync _ (
          start_connected-keep w (retrieve_connection o)
            (c.frame o _ (record { api = refl; status = refl }) h)))

  pub stop-keep : (w : Obs) (o : Output) → P o → P (stop w o)
  unfolding stop
  stop-keep w o h = c.keep_sync _ (destroy-keep P c w _ _ o h)

  pub inc_source-keep : (o : Output) → P o → P (inc_source o)
  inc_source-keep o h = c.frame o _ (record { api = ground arith; status = ground arith }) h

  pub start_streaming-keep : (w : Obs) (o : Output) → P o → P (start_streaming w o)
  unfolding start_streaming
  start_streaming-keep w o h = c.keep_sync _ (
      if_keep P c _ _ _
        (if_keep P c _ _ _ (c.keep_status w _ _ (inc_source-keep _ marked))
          (c.keep_status w _ _ marked))
        h)
    where
      marked : P (
          emit (start_output streaming o.streaming_output) (
            emit
              (set_encoders streaming o.video_encoder o.audio_encoder)
              (record o { connection_attempting_at = w.now })))
      marked = c.frame o _ (record { api = refl; status = refl }) h

  pub start_recording-keep : (w : Obs) (o : Output) → P o → P (start_recording w o)
  unfolding start_recording
  start_recording-keep w o h =
      if_keep P c _ _ _
        (if_keep P c _ _ _ (recording-keep P c w _ _ (inc_source-keep _ marked))
          (recording-keep P c w _ _ marked))
        h
    where
      marked : P (
          emit
            (start_output recording o.recording_output)
            (emit (set_encoders recording o.video_encoder o.audio_encoder) o))
      marked = c.frame o _ (record { api = refl; status = refl }) h

  pub restart_streaming-keep : (w : Obs) (o : Output) → P o → P (restart_streaming w o)
  unfolding restart_streaming
  restart_streaming-keep w o h = if_keep P c _ _ _ (c.keep_status w _ _ marked) marked
    where
      marked : P (
          emit (start_output streaming o.streaming_output) (
            emit
              (force_stop_output streaming o.streaming_output)
              (record o { connection_attempting_at = w.now })))
      marked = c.frame o _ (record { api = refl; status = refl }) h
