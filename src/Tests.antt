-- ===== src/Tests.antt =====
-- The theorems at concrete inputs: a dock of two outputs, its server, and the queue of requests.
pub mod Docks
pub mod Threads
pub mod Clients
pub mod Names
pub mod ApiRuns
pub mod Streams
pub mod Requests
pub mod Portals
pub mod Media
use src_link.Egress.Statistics.{measured_bitrate-progress, progress}
use src_link.Egress.Create.{
  create_recording_output, create_streaming_output, make_audio_encoder, create_audio,
  make_video_encoder, create_video,
}
use src_link.Egress.Safe.{step-Wired}
use src_link.Egress.Choices.{retrieve_connection-agrees, is_interlock}
use src_link.Schema.Array.{find-eq-first, first, find}
use src_link.Egress.Status.{set_status, set_recording_status, measured_bitrate}
use src_link.Egress.Service.{
  override_latency-values, create_egress_settings-bounds, values, is_right,
}
use src_link.Sequencer.Fifo.{started, requested, refreshed, finished, Trace-Fifo, Trace, Fifo}
use src_link.Egress.Wired.{destroy_pipeline-Closed, all_safe, Closed, Wired}
use src_link.Sequencer.Drain.{Trace-drain, drain}
use src_link.Sequencer.{
  invoke_all, unlinked, empty, linked, remove_one, request, queue, finish_all,
  on_requestor_finished, on_o2_refresh_finished, refresh, Sequencer,
}
use src_link.Egress.Monitor.{interlock_starts, interlock_stops, on_uplink_ready}
use src_link.Egress.Pipeline.{connection_of, retrieve_connection, destroy_pipeline}
use src_link.Egress.Start.{start_streaming, start_recording, start}
use src_link.Prelude.Int.{◌-ℤ◌, ◌+ℤ◌, pos}
use src_link.Egress.Step.{monitor_tick, uplink_ready, Event, step}
use src_link.ApiClient.Uplink.{
  sync_uplink_status-agrees, told, next_uplink_status, sync_uplink_status, UplinkStatus, Uplink,
}
use src_link.Egress.State.{fraction, zero_rate, RecordingStatus, Status, Obs, Output}
use src_link.Schema.{get_id, UplinkInfo, StageConnection}
use src_link.Fleet.{run-fleet_status, run-Counts, fleet_status, Counts, run}
use src_link.Prelude.{
  ◌-◌, ◌&&◌, not, ltb, ◌||◌, arith, if◌then◌else◌, str_eq, length, none, refl, some, ◌*◌, map, ◌≡◌,
  [], ◌∷◌, true, false, List, ℕ,
}
use src_link.Egress.Link.{override_latency, create_egress_settings, Settings, Qt}
use src_link.Egress.Life.{life-Closed, destroyed, created, run_events}

abbrev pub qt : Qt
qt = record {
  number = λ n. "7000";
  parse_query = λ s. ("latency", "50000") ∷ [];
  url_host = λ s. s;
}

abbrev pub guest : StageConnection
guest = record {
  id = "c1";
  stage_id = "st1";
  seat_name = "seat";
  source_name = "Camera";
  protocol = "srt";
  server = "192.0.2.1";
  port = 10000;
  stream_id = "s1";
  passphrase = "secret";
  parameters = "latency=50000";
  relay = false;
  max_bitrate = 8000;
  min_bitrate = 1000;
  width = 1920;
  height = 1080;
  revision = 3;
  disabled = false;
  allocation_id = "a1";
  unreachable = false;
  lan_server = "10.0.0.2";
  latency = 7;
  owner_user_id = "u1";
  auth_username = "";
  relay_app = "";
}

abbrev pub server : UplinkInfo
server = record { lan = false; connections = guest ∷ []; public_address = "198.51.100.7" }

abbrev pub client : Uplink
client = record {
  active_outputs = pos 0;
  stand_by_outputs = pos 0;
  uplink_status = UplinkStatus.inactive;
  uplink = some server;
  has_token = true;
  puts = [];
}

abbrev pub program : Settings
program = record {
  source_uuid = "program";
  visible = true;
  recording = true;
  audio_source = "";
  audio_track = 1;
  video_encoder = "obs_x264";
  audio_encoder = "ffmpeg_aac";
  bitrate = 10000;
  audio_bitrate = 160;
  rec_format = "mp4";
  path = "/tmp";
}

-- OBS at a time in milliseconds, with the virtual camera on, where everything works.
abbrev pub obs : ℕ → Obs
obs now = record {
  now = now;
  time_ns = now * 1000000;
  qt = qt;
  source_by_uuid = λ u. some (record { is_scene = true; name = u });
  held_source = λ u. record { is_scene = true; name = u };
  source_width = λ u. 1920;
  source_height = λ u. 1080;
  scenes = [];
  video_info = some (1280, 720);
  main_video = true;
  view_video = true;
  main_audio = true;
  audio_info = true;
  silence_audio = true;
  source_audio = true;
  service_created = true;
  preferred_output_type = none;
  connect_url = some "srt://192.0.2.1";
  streaming_created = true;
  recording_created = true;
  video_encoder_created = true;
  audio_encoder_created = true;
  output_starts = λ k. true;
  output_active = λ k. true;
  streaming_reconnecting = false;
  frontend_streaming = false;
  frontend_recording = false;
  frontend_virtualcam = true;
  total_bytes = now * 100;
  total_frames = now;
  frames_dropped = 0;
  interlock_setting = "";
  screenshot_taken = true;
}

abbrev pub camera : Output
camera = created "Camera" client program true 0 0 0

-- An output that has streamed.
abbrev pub streaming_camera : Output
streaming_camera = record camera {
  streaming_output = true;
  last_bytes_sent = 900;
  last_bytes_sent_time = 1000000;
}
