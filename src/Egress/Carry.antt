-- ===== src/Egress/Carry.antt =====
-- What carries over a step of src/outputs/egress-link-output.cpp if it depends on the status and on
-- the API client alone.
pub mod Starting
pub mod Turn
use src_link.Prelude.{
  ℕ, refl, Bool, true, false, arith, Bool-cases, Option-cases, inl, inr, if◌then◌else◌, not, ◌&&◌,
  ◌||◌, ltb,
}
use src_link.Egress.Link.{EgressSettings}
use src_link.Egress.State.{
  streaming, recording, start_output, force_stop_output, set_encoders, Status, RecordingStatus, Obs,
  Output, is_status, is_recording,
}
use src_link.Egress.Status.{emit, set_status, set_recording_status}
use src_link.Egress.Pipeline.{destroy_pipeline, retrieve_connection, inc_source, is_sending}
use src_link.Egress.Create.{create_video, create_audio, make_video_encoder, make_audio_encoder}
use src_link.Egress.Start.{
  sync, or_error, is_connected, is_disabled, streaming_or_error, recording_or_error, mark_active,
  audio_uuid, take_source, prepare_video, prepare_audio, open_streaming, open_recording,
  activate_streaming, activate_outputs, open_outputs, start_encoders, start_video, gather_settings,
  start_pipeline, reconstructs, start_connected, start, start_streaming, start_recording, stop,
  restart_streaming, restart_recording,
}
use src_link.Egress.Monitor.{
  streaming_alive, recording_alive, is_inactive, waited, settle, restart_dead, supervise, activate,
  monitor_turn, on_monitoring_timer_timeout, scripting_shutdown, scene_collection_changing,
  other_event, interlock_stops, interlock_starts,
}
use src_link.Egress.Step.{
  Event, monitor_tick, snapshot_tick, stopped, uplink_ready, updated, source_chosen, visibility_set,
  frontend_event, step,
}
use src_link.Egress.Frame.{
  Same, release_recording-Same, release_streaming-Same, release_source-Same, take_source-Same,
  create_video-Same, create_audio-Same, make_video_encoder-Same, make_audio_encoder-Same,
  create_streaming_output-Same, create_recording_output-Same, set_recording_status-Same,
  poll_statistics-Same, snapshot-Same, uplink_ready-Same, source_chosen-Same,
}

-- A predicate that reads only the status and the API client, and that `setStatus` and the sync keep.
pub record Carried (P : Output → Type 0) : Type 0 where
  pub frame : (o o' : Output) → Same o o' → P o → P o'
  pub keep_status : (w : Obs) (s : Status) (o : Output) → P o → P (set_status w s o)
  pub keep_sync : (o : Output) → P o → P (sync o)

module _ (P : Output → Type 0) (c : Carried P) where
  pub or_error-keep :
      (w : Obs) (r : Bool × Output) (rest : Output → Output)
      → P r.1
      → ((o : Output) → P o → P (rest o))
      → P (or_error w r rest)
  unfolding or_error
  or_error-keep w (true, o) rest h k = k o h
  or_error-keep w (false, o) rest h k = c.keep_status w Status.error o h

  pub recording-keep :
      (w : Obs) (s : RecordingStatus) (o : Output) → P o → P (set_recording_status w s o)
  recording-keep w s o h = c.frame _ _ (set_recording_status-Same w s o) h

  pub destroy-keep :
      (w : Obs) (s : Status) (r : RecordingStatus) (o : Output) → P o → P (destroy_pipeline w s r o)
  unfolding destroy_pipeline
  destroy-keep w s r o h = recording-keep w r _ (
      c.keep_status w s _ (
        c.frame _ _ (release_source-Same _)
          (c.frame _ _ (release_streaming-Same _) (c.frame _ _ (release_recording-Same o) h))))

  pub if_keep : (b : Bool) (x y : Output) → P x → P y → P (if b then x else y)
  if_keep true x y h k = h
  if_keep false x y h k = k
