-- ===== src/Egress/Pipeline.antt =====
-- src/outputs/egress-link-output.cpp: EgressLinkOutput::destroyPipeline, ::retrieveConnection and
-- ::createSource, with `isSourceAvailable` and `isSourceVisible` of src/utils.hpp.
use src_link.Prelude.{
  ℕ, ◌+◌, ◌%◌, ◌^◌, String, Bool, true, false, ◌&&◌, ◌||◌, not, Option, none, some, List, [], ◌∷◌,
  str_eq, ◌==◌, if◌then◌else◌,
}
use src_link.Schema.{StageConnection, UplinkInfo}
use src_link.Egress.State.{
  Status, RecordingStatus, is_status, is_recording, streaming, recording, inc_showing, dec_showing,
  stop_output, set_view_source, remove_view, SourceInfo, SceneInfo, Obs, Output,
}
use src_link.Egress.Status.{emit, set_status, set_recording_status}

-- `if (source) obs_source_dec_showing(source)`, and the same for `inc`.
abbrev pub dec_source : Output → Output
dec_source o = elim o.source [ none ↦ o | some u ↦ emit (dec_showing u) o ]

abbrev pub inc_source : Output → Output
inc_source o = elim o.source [ none ↦ o | some u ↦ emit (inc_showing u) o ]

unfoldable pub release_recording : Output → Output
release_recording o =
    let stopped = emit (stop_output recording o.recording_output) (dec_source o) in
    let o' =
      if o.recording_output && is_recording o.recording_status RecordingStatus.active
      then stopped
      else o in
    record o' { recording_output = false }

abbrev pub is_sending : Status → Bool
is_sending s = is_status s Status.active || is_status s Status.reconnecting

unfoldable pub release_streaming : Output → Output
release_streaming o =
    let stopped = emit (stop_output streaming o.streaming_output) (dec_source o) in
    let o' = if o.streaming_output && is_sending o.status then stopped else o in
    record o' {
      streaming_output = false;
      service = false;
      audio_encoder = false;
      video_encoder = false;
    }

unfoldable pub release_source : Output → Output
release_source o =
    let o' = if o.source_view then emit remove_view (emit (set_view_source none) o) else o in
    record (dec_source (record o' { source_view = false })) {
      source = none;
      active_source_uuid = "";
      audio_source = false;
      audio_silence = false;
    }

unfoldable pub destroy_pipeline : Obs → Status → RecordingStatus → Output → Output
unfolding release_recording release_streaming release_source
destroy_pipeline w next next_recording o =
    set_recording_status w next_recording
      (set_status w next (release_source (release_streaming (release_recording o))))

-- The loop over the connections of the uplink, with its `break`.
unfoldable pub connection_of : String → List StageConnection → Option StageConnection
connection_of name [] = none
connection_of name (c ∷ cs) = if str_eq c.source_name name then some c else connection_of name cs

abbrev pub connections : Option UplinkInfo → List StageConnection
connections none = []
connections (some u) = u.connections

unfoldable pub retrieve_connection : Output → Output
unfolding connection_of
retrieve_connection o = record o { connection = connection_of o.name (connections o.api.uplink) }

-- Whether a scene of the front end is the source, or has it inside.
unfoldable pub in_scenes : String → String → List SceneInfo → Bool
in_scenes uuid name [] = false
in_scenes uuid name (s ∷ ss) = str_eq s.uuid uuid || s.finds name || in_scenes uuid name ss

unfoldable pub is_source_available : Obs → String → SourceInfo → Bool
unfolding in_scenes
is_source_available w uuid info = info.is_scene || in_scenes uuid info.name w.scenes

-- A side is made even, as a uint32_t, before the test.
abbrev even_side : ℕ → ℕ
even_side n = (n + n % 2) % 2 ^ 32

unfoldable pub is_source_visible : Obs → String → Bool
is_source_visible w uuid =
    not (even_side (w.source_width uuid) == 0) && not (even_side (w.source_height uuid) == 0)

abbrev usable : Obs → String → Option SourceInfo → Bool
usable w uuid none = false
usable w uuid (some info) = is_source_available w uuid info && is_source_visible w uuid

-- The result says whether the source was found.
unfoldable pub create_source : Obs → String → Output → Bool × Output
unfolding is_source_available is_source_visible
create_source w uuid o =
    if usable w uuid (w.source_by_uuid uuid)
    then (true, emit (inc_showing uuid) (record o { source = some uuid }))
    else (false, record o { source = none })
