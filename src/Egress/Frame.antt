-- ===== src/Egress/Frame.antt =====
-- The parts of src/outputs/egress-link-output.cpp that leave the status and the API client alone.
use src_link.Prelude.{ℕ, ◌≡◌, String, arith}
use src_link.Schema.{UplinkInfo}
use src_link.Egress.Link.{EgressSettings}
use src_link.Egress.State.{RecordingStatus, Obs, Output}
use src_link.Egress.Status.{set_recording_status, update_statistics}
use src_link.Egress.Pipeline.{release_recording, release_streaming, release_source, create_source}
use src_link.Egress.Create.{
  create_video, create_audio, create_streaming_output, create_recording_output, make_video_encoder,
  make_audio_encoder,
}
use src_link.Egress.Start.{take_source}
use src_link.Egress.Monitor.{
  poll_statistics, on_snapshot_timer_timeout, on_uplink_ready, set_source_uuid,
}

-- `o'` has the status of `o` and its view of the API client.
pub record Same (o o' : Output) : Type 0 where
  pub api : o'.api ≡ o.api
  pub status : o'.status ≡ o.status

pub release_recording-Same : (o : Output) → Same o (release_recording o)
unfolding release_recording
release_recording-Same o = ground arith

pub release_streaming-Same : (o : Output) → Same o (release_streaming o)
unfolding release_streaming
release_streaming-Same o = ground arith

pub release_source-Same : (o : Output) → Same o (release_source o)
unfolding release_source
release_source-Same o = ground arith

pub create_source-Same : (w : Obs) (u : String) (o : Output) → Same o (create_source w u o).1
unfolding create_source
create_source-Same w u o = ground arith

pub take_source-Same : (w : Obs) (o : Output) → Same o (take_source w o).1
unfolding take_source create_source
take_source-Same w o = ground arith

pub create_video-Same : (w : Obs) (o : Output) → Same o (create_video w o).1
unfolding create_video
create_video-Same w o = ground arith

pub create_audio-Same : (w : Obs) (u : String) (o : Output) → Same o (create_audio w u o).1
unfolding create_audio
create_audio-Same w u o = ground arith

pub make_video_encoder-Same :
    (w : Obs) (e : EgressSettings) (x y : ℕ) (o : Output) → Same o (make_video_encoder w e x y o).1
unfolding make_video_encoder
make_video_encoder-Same w e x y o = ground arith

pub make_audio_encoder-Same :
    (w : Obs) (e : EgressSettings) (u : String) (o : Output) → Same o (make_audio_encoder w e u o).1
unfolding make_audio_encoder
make_audio_encoder-Same w e u o = ground arith

pub create_streaming_output-Same :
    (w : Obs) (e : EgressSettings) (o : Output) → Same o (create_streaming_output w e o).1
unfolding create_streaming_output
create_streaming_output-Same w e o = ground arith

pub create_recording_output-Same :
    (w : Obs) (e : EgressSettings) (o : Output) → Same o (create_recording_output w e o).1
unfolding create_recording_output
create_recording_output-Same w e o = ground arith

pub set_recording_status-Same :
    (w : Obs) (s : RecordingStatus) (o : Output) → Same o (set_recording_status w s o)
unfolding set_recording_status
set_recording_status-Same w s o = ground arith

pub poll_statistics-Same : (w : Obs) (o : Output) → Same o (poll_statistics w o)
unfolding poll_statistics update_statistics
poll_statistics-Same w o = ground arith

pub snapshot-Same : (w : Obs) (o : Output) → Same o (on_snapshot_timer_timeout w o)
unfolding on_snapshot_timer_timeout
snapshot-Same w o = ground arith

pub uplink_ready-Same : (u : UplinkInfo) (o : Output) → Same o (on_uplink_ready u o)
unfolding on_uplink_ready
uplink_ready-Same u o = ground arith

pub source_chosen-Same : (uuid : String) (o : Output) → Same o (set_source_uuid uuid o)
unfolding set_source_uuid
source_chosen-Same uuid o = ground arith
