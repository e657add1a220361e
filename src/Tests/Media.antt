-- ===== src/Tests/Media.antt =====
-- The theorems on references, audio and ingress sources at concrete inputs.
use src_link.Ingress.Allocated.{Allocates}
use src_link.Egress.Status.{set_status}
use src_link.Egress.Pipeline.{destroy_pipeline}
use src_link.Tests.{obs, guest, streaming_camera, qt}
use src_link.ApiClient.Ports.{free_port_from, get_free_port, Ports}
use src_link.Ingress.Listening.{handle-Listens, Listens}
use src_link.Egress.State.{RecordingStatus, Status, Output}
use src_link.Ingress.Downlink.{settings_updated, downlink_ready, handle, on_downlink_ready}
use src_link.Audio.Buffered.{data_size-missing, missing, push_audio-Sound, Sound}
use src_link.Ingress.Decoding.{on_downlink_ready-again, handle-Fits, Fits}
use src_link.Egress.Shows.{
  destroy_pipeline-given_back, references, changing-given_back, has_source, taken, given_back,
}
use src_link.Audio.{pushed_bytes, pop_audio, push_audio, Capture, data_size}
use src_link.Ingress.Capture.{new_request, reallocate_port, capture_settings}
use src_link.Prelude.{
  ◌*◌, zero, ap, ◌+◌, refl, [], ◌≡◌, ltb, ◌==◌, if◌then◌else◌, true, List, some, none, arith, false,
  length, ◌∷◌, ℕ, suc,
}
use src_link.Audio.Played.{pop_audio-stream, Popped}
use src_link.Ingress.{ClientSettings, SourceSettings, Ingress}

-- A camera that has streamed from a source of its own.
abbrev own_camera : Output
own_camera = record streaming_camera { source = some "s1"; status = Status.active }

destroy_pipeline-given_back_example :
    (given_back "s1"
        (destroy_pipeline (obs 20000) Status.inactive RecordingStatus.inactive own_camera).effects
      ≡ (if has_source "s1" (some "s1") then references own_camera else 0)
        + given_back "s1" own_camera.effects)
    × (taken "s1"
          (destroy_pipeline (obs 20000) Status.inactive RecordingStatus.inactive own_camera).effects
        ≡ taken "s1" own_camera.effects)
destroy_pipeline-given_back_example =
    destroy_pipeline-given_back "s1" (obs 20000) Status.inactive RecordingStatus.inactive own_camera

changing-given_back_example :
    suc (
      given_back "s1"
        (destroy_pipeline
          (obs 20000)
          Status.inactive
          RecordingStatus.inactive
          (set_status (obs 19000) Status.changing own_camera)).effects)
    ≡ given_back "s1"
        (destroy_pipeline (obs 20000) Status.inactive RecordingStatus.inactive own_camera).effects
changing-given_back_example =
    changing-given_back "s1" (obs 20000) (obs 19000) Status.inactive RecordingStatus.inactive
      own_camera refl refl refl

-- The same camera before the stream starts.
abbrev waiting_camera : Output
waiting_camera = record own_camera { status = Status.activating }

-- Silence, for samples that are natural numbers.
unfoldable silence : ℕ → List ℕ
silence zero = []
silence (suc n) = 0 ∷ silence n

length-silence : (n : ℕ) → length (silence n) ≡ n
unfolding silence
length-silence zero = refl
length-silence (suc n) = ap suc (length-silence n)

abbrev clipped : ℕ → ℕ → ℕ
clipped a b = if ltb 9 (a + b) then 9 else a + b

abbrev quiet : Capture ℕ
quiet = record { active = true; buffer = []; buffer_frames = 0 }

quiet-Sound : Sound 0 quiet
quiet-Sound = record { counted = refl; bounded = ground arith; filled = tt }

push_audio-Sound_example : Sound 0 (push_audio 1500 (some (silence 1500) ∷ none ∷ []) quiet)
push_audio-Sound_example =
    push_audio-Sound 0 1500 (some (silence 1500) ∷ none ∷ []) quiet (ground arith)
      (length-silence 1500) quiet-Sound

abbrev one_chunk : Capture ℕ
one_chunk = record {
  active = true;
  buffer =
      record {
        frames = 1500;
        offset = 100;
        planes = some (silence 1500) ∷ some (silence 1500) ∷ [];
      }
      ∷ [];
  buffer_frames = 1400;
}

one_chunk-Sound : Sound 0 one_chunk
one_chunk-Sound = record {
  counted = ground arith;
  bounded = ground arith;
  filled = (record { long = length-silence 1500; within = ground arith }, tt);
}

pop_audio-stream_example :
    Popped clipped 0 2 one_chunk
      (λ track channel. silence 1024)
      (pop_audio clipped
        (λ n cs held out. (cs, held, out))
        (λ track. true)
        (λ track channel. silence 1024)
        one_chunk)
pop_audio-stream_example =
    pop_audio-stream clipped (λ n cs held out. (cs, held, out)) (λ track. true) 0 2
      (λ track channel. silence 1024) one_chunk refl refl (ground arith) one_chunk-Sound (refl, tt)

data_size-missing_example :
    data_size 88 480 (some (silence 480) ∷ none ∷ [])
    ≡ pushed_bytes 88 480 (some (silence 480) ∷ none ∷ [])
      + missing (some (silence 480) ∷ none ∷ []) * 480 * 4
data_size-missing_example = data_size-missing 88 480 (some (silence 480) ∷ none ∷ [])

abbrev ports : Ports
ports p = p == 10000

abbrev preferences : ClientSettings
preferences = record {
  ingress_protocol = "srt";
  private_ip = "10.0.0.5";
  reconnect_delay_time = 1;
  network_buffer_size = 1;
  srt_latency = 200;
  srt_pbkeylen = 16;
  port_min = 10000;
  port_max = 10099;
}

abbrev choice : SourceSettings
choice = record {
  stage_id = "st1";
  seat_name = "seat";
  source_name = "Camera";
  max_bitrate = 10000;
  min_bitrate = 5000;
  width = 1920;
  height = 1080;
  hw_decode = false;
  clear_on_media_end = false;
  relay = false;
  advanced_settings = false;
  reconnect_delay_sec = 1;
  buffering_mb = 1;
  srt_latency = 200;
}

abbrev receiver : Ingress
receiver = record {
  uuid = "c1";
  connection = none;
  request = record {
    protocol = "";
    lan_server = "";
    stage_id = "";
    seat_name = "";
    source_name = "";
    max_bitrate = 0;
    min_bitrate = 0;
    width = 0;
    height = 0;
    relay = false;
    stream_id = "";
    parameters = "";
    revision = 0;
    port = 0;
  };
  revision = 0;
  reconnect_delay_sec = 1;
  buffering_mb = 1;
  hw_decode = false;
  clear_on_media_end = false;
  decoder = record {
    input = none;
    reconnect_delay_sec = 1;
    buffering_mb = 1;
    hw_decode = false;
    clear_on_media_end = false;
  };
  calls = [];
}

receiver-Listens : Listens ports 0 (10000 ∷ [])
receiver-Listens = record { own = refl; rest = (refl, tt); apart = (refl, tt) }

-- The first port is another source's.
receiver_port : (capture_settings qt preferences choice "id" ports receiver).1.request.port ≡ 10001
unfolding capture_settings reallocate_port new_request get_free_port free_port_from
receiver_port = refl

handle-Listens_example :
    Listens
      (handle qt (settings_updated preferences choice "id") ports receiver).0
      (handle qt (settings_updated preferences choice "id") ports receiver).1.request.port
      (10000 ∷ [])
    × Allocates
        (settings_updated preferences choice "id")
        ports
        receiver.request.port
        (handle qt (settings_updated preferences choice "id") ports receiver).0
        (handle qt (settings_updated preferences choice "id") ports receiver).1.request.port
handle-Listens_example =
    handle-Listens qt (settings_updated preferences choice "id") ports receiver (10000 ∷ [])
      receiver-Listens

receiver-Fits : Fits receiver
receiver-Fits = record { allocated = λ e. ground arith }

handle-Fits_example : Fits (handle qt (downlink_ready (some guest)) ports receiver).1
handle-Fits_example = handle-Fits qt (downlink_ready (some guest)) ports receiver receiver-Fits

on_downlink_ready-again_example :
    on_downlink_ready qt (some guest) (on_downlink_ready qt (some guest) receiver)
    ≡ on_downlink_ready qt (some guest) receiver
on_downlink_ready-again_example = on_downlink_ready-again qt (some guest) receiver
