-- ===== src/Egress/Life.antt =====
-- The life of an output (src/outputs/egress-link-output.cpp), from its constructor to its destructor.
use src_link.Egress.Link.{Settings}
use src_link.Egress.Safe.{stop-Wired, step-Wired}
use src_link.ApiClient.Uplink.{Uplink}
use src_link.Egress.Wired.{destroy_pipeline-Closed, all_safe, Wired, Closed}
use src_link.Egress.Start.{sync, stop}
use src_link.Egress.State.{RecordingStatus, Status, Obs, Output}
use src_link.Prelude.{true, [], if◌then◌else◌, false, ◌≡◌, none, ℕ, Bool, arith, ◌∷◌, String, List}
use src_link.Egress.Step.{Event, step}

-- The constructor: `loadSettings` counts a settings file that is there as a revision. The last three
-- numbers are whatever memory the uninitialised members are in.
unfoldable pub created : String → Uplink → Settings → Bool → ℕ → ℕ → ℕ → Output
created name api settings has_file attempting width height = record {
  name = name;
  connection = none;
  settings = settings;
  service = false;
  streaming_output = false;
  recording_output = false;
  video_encoder = false;
  audio_encoder = false;
  source = none;
  source_view = false;
  audio_silence = false;
  audio_source = false;
  status = Status.inactive;
  recording_status = RecordingStatus.inactive;
  active_source_uuid = "";
  stored_settings_rev = if has_file then 1 else 0;
  active_settings_rev = 0;
  connection_attempting_at = attempting;
  width = width;
  height = height;
  last_bytes_sent = 0;
  last_bytes_sent_time = 0;
  initial_total_frames = 0;
  initial_dropped_frames = 0;
  last_put_statistics_at = 0;
  api = api;
  effects = [];
}

unfoldable pub run_events : List Event → Output → Output
run_events [] o = o
run_events (e ∷ es) o = run_events es (step e o)

-- The destructor stops the output.
abbrev pub destroyed : Obs → Output → Output
destroyed w o = stop w o

run_events-Wired : (es : List Event) (o : Output) → Wired o → Wired (run_events es o)
unfolding run_events
run_events-Wired [] o h = h
run_events-Wired (e ∷ es) o h = run_events-Wired es _ (step-Wired e o h)

created-Wired :
    (name : String) (api : Uplink) (s : Settings) (b : Bool) (t x y : ℕ)
    → Wired (created name api s b t x y)
unfolding created
created-Wired name api s b t x y = ground arith

sync-Closed : (o : Output) → Closed o → Closed (sync o)
sync-Closed o h = ground arith

-- An output that is created, meets any events in any order, and is destroyed, ends inactive with
-- nothing of a pipeline left; and in all its life each output that it started or stopped was
-- there, and each output's encoders were there when it was given them.
pub life-Closed :
    (name : String) (api : Uplink) (s : Settings) (b : Bool) (t x y : ℕ) (es : List Event) (w : Obs)
    → let o = destroyed w (run_events es (created name api s b t x y)) in
      Closed o
      × (o.status ≡ Status.inactive)
      × (o.recording_status ≡ RecordingStatus.inactive)
      × (all_safe o.effects ≡ true)
unfolding stop
life-Closed name api s b t x y es w =
    let o = run_events es (created name api s b t x y) in
    let wired = run_events-Wired es _ (created-Wired name api s b t x y) in
    let (closed, status, rec) =
      destroy_pipeline-Closed w Status.inactive RecordingStatus.inactive o in
    (sync-Closed _ closed, status, rec, (stop-Wired w o wired).safe)
