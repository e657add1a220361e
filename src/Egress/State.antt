-- ===== src/Egress/State.antt =====
-- src/outputs/egress-link-output.hpp: the state of an output, what OBS answers to it, and the calls
-- that it makes.
use src_link.Prelude.{ℕ, String, Bool, Option, List, ◌==◌}
use src_link.Schema.{StageConnection}
use src_link.ApiClient.Uplink.{Uplink}
use src_link.Egress.Link.{Settings, EgressSettings, Qt}

pub data Status : Type 0 where
  inactive stand_by activating active error disabled reconnecting changing : Status

pub data RecordingStatus : Type 0 where
  inactive activating active error disabled : RecordingStatus

-- The numbers of the two enumerations.
abbrev pub status_number : Status → ℕ
status_number Status.inactive = 0
status_number Status.stand_by = 1
status_number Status.activating = 2
status_number Status.active = 3
status_number Status.error = 4
status_number Status.disabled = 5
status_number Status.reconnecting = 6
status_number Status.changing = 7

abbrev pub recording_number : RecordingStatus → ℕ
recording_number RecordingStatus.inactive = 0
recording_number RecordingStatus.activating = 1
recording_number RecordingStatus.active = 2
recording_number RecordingStatus.error = 3
recording_number RecordingStatus.disabled = 4

abbrev pub is_status : Status → Status → Bool
is_status s t = status_number s == status_number t

abbrev pub is_recording : RecordingStatus → RecordingStatus → Bool
is_recording s t = recording_number s == recording_number t

-- The status that the server is told, OUTPUT_STATUS_* of src/api-client.hpp.
pub data WireStatus : Type 0 where
  inactive active reconnecting standby : WireStatus

-- A `long double` of kilobits in a second, kept as the fraction that it rounds: `bits / 1000` over
-- `nanoseconds / 1000000000`.
pub data Bitrate : Type 0 where
  zero_rate : Bitrate
  fraction : ℕ → ℕ → Bitrate

pub record Metric : Type 0 where
  pub bitrate : Bitrate
  pub total_frames : ℕ
  pub dropped_frames : ℕ
  pub total_size : ℕ

pub data OutputKind : Type 0 where
  streaming recording : OutputKind

-- The calls that leave the class. A `Bool` says whether the pointer that is passed is there.
pub data Effect : Type 0 where
  inc_showing dec_showing : String → Effect
  start_output stop_output force_stop_output : OutputKind → Bool → Effect
  set_encoders : OutputKind → Bool → Bool → Effect
  set_view_source : Option String → Effect
  remove_view : Effect
  create_service : EgressSettings → Effect
  create_output : OutputKind → String → Effect
  set_reconnect : ℕ → ℕ → Effect
  set_service : Bool → Effect
  create_video_encoder : EgressSettings → Effect
  scale_video : ℕ → ℕ → Effect
  create_audio_encoder : String → ℕ → ℕ → Effect
  make_directory : String → Effect
  save_settings : Effect
  put_statistics : WireStatus → Bool → Metric → Effect
  statistics_updated : Metric → Effect
  put_screenshot : Option String → Effect
  status_changed : Status → Effect
  recording_status_changed : RecordingStatus → Effect

-- A source as OBS shows it.
pub record SourceInfo : Type 0 where
  pub is_scene : Bool
  pub name : String

-- A scene of the front end, and which source names `obs_scene_find_source_recursive` finds in it.
pub record SceneInfo : Type 0 where
  pub uuid : String
  pub finds : String → Bool

-- What OBS, the clock and the user's settings answer while one handler runs: the same question
-- gets the same answer within a handler. `source_by_uuid` looks a source up, `held_source` tells of
-- a source that the output holds a reference to, which may have been removed.
pub record Obs : Type 0 where
  pub now : ℕ
  pub time_ns : ℕ
  pub qt : Qt
  pub source_by_uuid : String → Option SourceInfo
  pub held_source : String → SourceInfo
  pub source_width : String → ℕ
  pub source_height : String → ℕ
  pub scenes : List SceneInfo
  pub video_info : Option (ℕ × ℕ)
  pub main_video : Bool
  pub view_video : Bool
  pub main_audio : Bool
  pub audio_info : Bool
  pub silence_audio : Bool
  pub source_audio : Bool
  pub service_created : Bool
  pub preferred_output_type : Option String
  pub connect_url : Option String
  pub streaming_created : Bool
  pub recording_created : Bool
  pub video_encoder_created : Bool
  pub audio_encoder_created : Bool
  pub output_starts : OutputKind → Bool
  pub output_active : OutputKind → Bool
  pub streaming_reconnecting : Bool
  pub frontend_streaming : Bool
  pub frontend_recording : Bool
  pub frontend_virtualcam : Bool
  pub total_bytes : ℕ
  pub total_frames : ℕ
  pub frames_dropped : ℕ
  pub interlock_setting : String
  pub screenshot_taken : Bool

-- class EgressLinkOutput. `connection_attempting_at`, `width` and `height` are not set by its
-- constructor. A pointer to an OBS object is `true` while it is set; `source` keeps the
-- uuid. `api` is the state of the API client that all outputs share, `effects` the calls made so
-- far, the latest first.
pub record Output : Type 0 where
  pub name : String
  pub connection : Option StageConnection
  pub settings : Settings
  pub service : Bool
  pub streaming_output : Bool
  pub recording_output : Bool
  pub video_encoder : Bool
  pub audio_encoder : Bool
  pub source : Option String
  pub source_view : Bool
  pub audio_silence : Bool
  pub audio_source : Bool
  pub status : Status
  pub recording_status : RecordingStatus
  pub active_source_uuid : String
  pub stored_settings_rev : ℕ
  pub active_settings_rev : ℕ
  pub connection_attempting_at : ℕ
  pub width : ℕ
  pub height : ℕ
  pub last_bytes_sent : ℕ
  pub last_bytes_sent_time : ℕ
  pub initial_total_frames : ℕ
  pub initial_dropped_frames : ℕ
  pub last_put_statistics_at : ℕ
  pub api : Uplink
  pub effects : List Effect
