-- ===== src/Egress/Start.antt =====
-- src/outputs/egress-link-output.cpp: EgressLinkOutput::start, ::startStreaming, ::startRecording,
-- ::stop, ::restartStreaming and ::restartRecording. Each holds `outputMutex` from its first line to
-- its last, so a call is one step.
use src_link.Prelude.{
  ℕ, String, Bool, true, false, ◌&&◌, ◌||◌, not, Option, none, some, str_eq, ◌==◌, if◌then◌else◌,
}
use src_link.Schema.{StageConnection}
use src_link.ApiClient.Uplink.{sync_uplink_status}
use src_link.Egress.Link.{Settings, EgressSettings, no_server, no_auth, create_egress_settings}
use src_link.Egress.State.{
  Status, RecordingStatus, is_status, streaming, recording, start_output, force_stop_output,
  set_encoders, Obs, Output,
}
use src_link.Egress.Status.{emit, set_status, set_recording_status}
use src_link.Egress.Pipeline.{destroy_pipeline, retrieve_connection, create_source, inc_source}
use src_link.Egress.Create.{
  create_video, create_audio, create_streaming_output, create_recording_output, make_video_encoder,
  make_audio_encoder,
}

-- `apiClient->syncUplinkStatus()`
abbrev pub sync : Output → Output
sync o = record o { api = sync_uplink_status false o.api }

-- `if (!made) { setStatus(ERROR); return; }`, and the rest of the function if it was made.
unfoldable pub or_error : Obs → Bool × Output → (Output → Output) → Output
or_error w (true, o) rest = rest o
or_error w (false, o) rest = set_status w Status.error o

abbrev pub is_connected : Option StageConnection → Bool
is_connected none = false
is_connected (some c) = true

unfoldable pub reconstructs : Output → Bool
reconstructs o =
    let go_stand_by = not (is_connected o.connection) && not (is_status o.status Status.stand_by) in
    let go_active = is_connected o.connection && not (is_status o.status Status.active) in
    not (str_eq o.settings.source_uuid o.active_source_uuid)
    || go_stand_by
    || go_active
    || not (o.active_settings_rev == o.stored_settings_rev)

-- Take the source, unless it is the program, before the pipeline counts as set up.
unfoldable pub take_source : Obs → Output → Bool × Output
take_source w o =
    if str_eq o.settings.source_uuid "program"
    then (true, o)
    else create_source w o.settings.source_uuid o

abbrev pub mark_active : Output → Output
mark_active o = record o {
  active_source_uuid = o.settings.source_uuid;
  active_settings_rev = o.stored_settings_rev;
}

-- The settings of the encoders, or none if the protocol is unknown.
unfoldable pub gather_settings : Obs → Output → Option EgressSettings
gather_settings w o = elim o.connection [
  | none ↦ some (record { common = o.settings; server = no_server; key = ""; auth = no_auth })
  | some c ↦ create_egress_settings w.qt o.api.uplink o.settings c
]

abbrev pub encoder_size : ℕ × ℕ → Option StageConnection → ℕ × ℕ
encoder_size video none = video
encoder_size video (some c) = (c.width, c.height)

unfoldable pub prepare_video : Obs → EgressSettings → ℕ × ℕ → Output → (Output → Output) → Output
unfolding or_error
prepare_video w egress size o rest =
    if o.video_encoder
    then rest o
    else or_error w (create_video w o) λ o'.
      let (width, height) = size in or_error w (make_video_encoder w egress width height o') rest

-- No custom audio source means the audio of the source.
abbrev pub audio_uuid : Output → String
audio_uuid o =
    if str_eq o.settings.audio_source "" then o.active_source_uuid else o.settings.audio_source

unfoldable pub prepare_audio : Obs → EgressSettings → Output → (Output → Output) → Output
unfolding or_error
prepare_audio w egress o rest =
    if o.audio_encoder
    then rest o
    else or_error w (create_audio w (audio_uuid o) o)
        λ o'. or_error w (make_audio_encoder w egress (audio_uuid o) o') rest

abbrev pub streaming_or_error : Obs → Bool × Output → Output
streaming_or_error w (true, o) = o
streaming_or_error w (false, o) = set_status w Status.error o

abbrev pub recording_or_error : Obs → Bool × Output → Output
recording_or_error w (true, o) = o
recording_or_error w (false, o) = set_recording_status w RecordingStatus.error o

unfoldable pub open_streaming : Obs → EgressSettings → Output → Output
open_streaming w egress o =
    if not o.streaming_output && is_connected o.connection
    then streaming_or_error w (create_streaming_output w egress o)
    else o

unfoldable pub open_recording : Obs → EgressSettings → Output → Output
open_recording w egress o =
    if not o.recording_output && o.settings.recording
    then recording_or_error w (create_recording_output w egress o)
    else o

unfoldable pub activate_recording : Obs → Bool → Output → Output
activate_recording w reconstruct o =
    if reconstruct && o.recording_output
    then set_recording_status w RecordingStatus.activating o
    else o

unfoldable pub activate_streaming : Obs → Bool → Output → Output
activate_streaming w reconstruct o =
    if reconstruct && o.streaming_output
    then set_status w Status.activating (record o { connection_attempting_at = w.now })
    else o

unfoldable pub activate_outputs : Obs → Bool → Output → Output
unfolding activate_recording activate_streaming
activate_outputs w reconstruct o =
    if not o.streaming_output && not o.recording_output
    then o
    else activate_streaming w reconstruct (activate_recording w reconstruct o)

unfoldable pub open_outputs : Obs → Bool → EgressSettings → Output → Output
unfolding open_streaming open_recording activate_outputs
open_outputs w reconstruct egress o =
    activate_outputs w reconstruct (open_recording w egress (open_streaming w egress o))

unfoldable pub start_encoders : Obs → Bool → EgressSettings → ℕ × ℕ → Output → Output
unfolding prepare_video prepare_audio open_outputs
start_encoders w reconstruct egress size o =
    prepare_video w egress size o
      λ o1. prepare_audio w egress o1 (open_outputs w reconstruct egress)

-- Abort where there is no video.
unfoldable pub start_video : Obs → Bool → Output → Output
unfolding gather_settings start_encoders
start_video w reconstruct o = elim w.video_info [
  | none ↦ set_status w Status.error o
  | some size ↦ elim (gather_settings w o) [
    | none ↦ set_status w Status.error o
    | some egress ↦ start_encoders w reconstruct egress (encoder_size size o.connection) o
  ]
]

-- From "Gather parameters" on.
unfoldable pub start_pipeline : Obs → Bool → Output → Output
unfolding start_video
start_pipeline w reconstruct o =
    let idle = not (is_connected o.connection) in
    let o1 = if idle && reconstruct then set_status w Status.stand_by o else o in
    if idle && not o.settings.recording then o1 else start_video w reconstruct o1

unfoldable pub start_connected : Obs → Output → Output
unfolding reconstructs take_source start_pipeline or_error
start_connected w o =
    if reconstructs o
    then or_error w (take_source w (destroy_pipeline w Status.inactive RecordingStatus.inactive o))
        (λ o1. start_pipeline w true (mark_active o1))
    else start_pipeline w false o

abbrev pub is_disabled : Settings → Bool
is_disabled s = str_eq s.source_uuid "" || not s.visible

unfoldable pub start : Obs → Output → Output
unfolding start_connected
start w o =
    if is_disabled o.settings
    then sync (destroy_pipeline w Status.disabled RecordingStatus.inactive o)
    else sync (start_connected w (retrieve_connection o))

unfoldable pub start_streaming : Obs → Output → Output
start_streaming w o =
    let o1 = emit (start_output streaming o.streaming_output) (
      emit (set_encoders streaming o.video_encoder o.audio_encoder)
        (record o { connection_attempting_at = w.now })) in
    let started =
      if w.output_starts streaming
      then set_status w Status.active (inc_source o1)
      else set_status w Status.error o1 in
    sync (if o.streaming_output then started else o)

unfoldable pub start_recording : Obs → Output → Output
start_recording w o =
    let o1 =
      emit (start_output recording o.recording_output)
        (emit (set_encoders recording o.video_encoder o.audio_encoder) o) in
    let started =
      if w.output_starts recording
      then set_recording_status w RecordingStatus.active (inc_source o1)
      else set_recording_status w RecordingStatus.error o1 in
    if o.recording_output then started else o

unfoldable pub stop : Obs → Output → Output
stop w o = sync (destroy_pipeline w Status.inactive RecordingStatus.inactive o)

-- There is no test of the pointer here.
unfoldable pub restart_streaming : Obs → Output → Output
restart_streaming w o =
    let o1 = emit (start_output streaming o.streaming_output) (
      emit (force_stop_output streaming o.streaming_output)
        (record o { connection_attempting_at = w.now })) in
    if w.output_starts streaming then set_status w Status.reconnecting o1 else o1

unfoldable pub restart_recording : Obs → Output → Output
restart_recording w o =
    emit (start_output recording o.recording_output)
      (emit (force_stop_output recording o.recording_output) o)
