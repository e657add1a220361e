-- ===== src/Egress/Create.antt =====
-- src/outputs/egress-link-output.cpp: the `create…` functions of EgressLinkOutput, which make the
-- parts of a pipeline. The first component of a result says whether the part was made.
use text.Mathlib.Text.{starts_with}
use src_link.Prelude.{
  ℕ, ◌+◌, ◌-◌, ◌%◌, ◌^◌, String, Bool, true, false, ◌&&◌, ◌||◌, not, Option, none, some, str_eq,
  ◌==◌, if◌then◌else◌,
}
use src_link.Egress.Link.{EgressSettings}
use src_link.Egress.State.{
  streaming, recording, set_view_source, create_service, create_output, set_reconnect, set_service,
  create_video_encoder, scale_video, create_audio_encoder, make_directory, Obs, Output,
}
use src_link.Egress.Status.{emit}

-- The spec of the source's video, whose output size is its base size.
abbrev invalid_video : ℕ → ℕ → Bool
invalid_video width height = width == 0 || height == 0 || width == 0 || height == 0

unfoldable pub create_video : Obs → Output → Bool × Output
create_video w o = elim o.source [
  | none ↦ (w.main_video, o)
  | some u ↦
      let o' = emit (set_view_source (some u)) (record o { source_view = true }) in
      (if invalid_video (w.source_width u) (w.source_height u) then false else w.view_video, o')
]

-- `createSilenceAudio` needs OBS's audio info to open the silent output.
abbrev silence_opens : Obs → Bool
silence_opens w = w.audio_info && w.silence_audio

-- The custom source was found.
abbrev create_custom_audio : Obs → Output → Bool × Output
create_custom_audio w o =
    if w.audio_info
    then (w.source_audio, record o { audio_source = w.source_audio })
    else (false, o)

unfoldable pub create_audio : Obs → String → Output → Bool × Output
create_audio w uuid o =
    if str_eq uuid "no_audio"
    then (silence_opens w, record o { audio_silence = silence_opens w })
    else if not (str_eq uuid "program") && not (str_eq uuid "master_track")
    then elim (w.source_by_uuid uuid) [
      | none ↦ (w.main_audio, o)
      | some info ↦ create_custom_audio w o
    ]
    else (w.main_audio, o)

-- The type of the output: the service's, else by the scheme of its server.
abbrev type_of_url : Option String → String
type_of_url none = "rtmp_output"
type_of_url (some url) =
    if starts_with url "ftl"
    then "ftl_output"
    else if not (starts_with url "rtmp")
    then "ffmpeg_mpegts_muxer"
    else "rtmp_output"

unfoldable pub output_type : Option String → Option String → String
output_type (some type) url = type
output_type none url = type_of_url url

unfoldable pub create_streaming_output : Obs → EgressSettings → Output → Bool × Output
unfolding output_type
create_streaming_output w egress o =
    let o1 = emit (create_service egress) (record o { service = w.service_created }) in
    let o2 =
      emit (create_output streaming (output_type w.preferred_output_type w.connect_url))
        (record o1 { streaming_output = w.streaming_created }) in
    let o3 = emit (set_service w.service_created) (emit (set_reconnect 0 1) o2) in
    if not w.service_created
    then (false, o1)
    else if not w.streaming_created
    then (false, o2)
    else (true, o3)

unfoldable pub create_recording_output : Obs → EgressSettings → Output → Bool × Output
create_recording_output w egress o =
    let type =
      if str_eq egress.common.rec_format "hybrid_mp4" then "mp4_output" else "ffmpeg_muxer" in
    let o1 = emit (make_directory egress.common.path) o in
    (
      w.recording_created,
      emit (create_output recording type) (record o1 { recording_output = w.recording_created }),
    )

-- `obs_data_get_string` returns no null pointer, so the test of the encoder's name never fails.
unfoldable pub make_video_encoder : Obs → EgressSettings → ℕ → ℕ → Output → Bool × Output
make_video_encoder w egress width height o =
    let o1 =
      emit (create_video_encoder egress) (record o { video_encoder = w.video_encoder_created }) in
    if w.video_encoder_created
    then (true, emit (scale_video width height) (record o1 { width = width; height = height }))
    else (false, o1)

-- `value - 1` on a size_t: track 0 wraps.
unfoldable pub audio_track : String → ℕ → ℕ
audio_track uuid value = if str_eq uuid "master_track" then (value + 2 ^ 64 - 1) % 2 ^ 64 else 0

unfoldable pub make_audio_encoder : Obs → EgressSettings → String → Output → Bool × Output
unfolding audio_track
make_audio_encoder w egress uuid o = (
  w.audio_encoder_created,
  emit
      (create_audio_encoder egress.common.audio_encoder egress.common.audio_bitrate
        (audio_track uuid egress.common.audio_track))
      (record o { audio_encoder = w.audio_encoder_created }),
)
