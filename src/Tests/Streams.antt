-- ===== src/Tests/Streams.antt =====
-- The theorems on outputs, the dock and the server at concrete inputs.
use src_link.Tests.{program, server, camera, obs, client, guest, qt}
use src_link.Egress.Create.{
  create_recording_output, create_streaming_output, make_audio_encoder, create_audio,
  make_video_encoder, create_video,
}
use src_link.Egress.Safe.{step-Wired}
use src_link.Egress.Choices.{retrieve_connection-agrees}
use src_link.Egress.Status.{set_status, set_recording_status}
use src_link.Egress.Service.{create_egress_settings-bounds, is_right}
use src_link.Egress.Wired.{all_safe, Closed, Wired}
use src_link.Egress.Monitor.{on_uplink_ready}
use src_link.Egress.Pipeline.{connection_of, retrieve_connection, destroy_pipeline}
use src_link.Egress.Start.{start_streaming, start_recording, start}
use src_link.Prelude.Int.{◌-ℤ◌, ◌+ℤ◌, pos}
use src_link.Egress.Step.{monitor_tick, uplink_ready, Event, step}
use src_link.ApiClient.Uplink.{sync_uplink_status}
use src_link.Egress.State.{RecordingStatus, Status, Output}
use src_link.Schema.{get_id}
use src_link.Fleet.{run-fleet_status, run-Counts, fleet_status, Counts, run}
use src_link.Prelude.{not, arith, str_eq, refl, some, map, ◌≡◌, [], ◌∷◌, true, false, List, ℕ}
use src_link.Egress.Link.{create_egress_settings}
use src_link.Egress.Life.{life-Closed, destroyed, created, run_events}

abbrev screen : Output
screen = created "Screen" client program true 0 0 0

-- Ticks that set the pipeline up, activate it, and see it run.
abbrev session : List Event
session =
    uplink_ready server
    ∷ monitor_tick (obs 10000)
    ∷ monitor_tick (obs 12000)
    ∷ monitor_tick (obs 16000)
    ∷ []

session-status : (run_events session camera).status ≡ Status.active
unfolding run_events step created start retrieve_connection destroy_pipeline set_recording_status
    set_status create_egress_settings create_video make_video_encoder create_audio
    make_audio_encoder create_streaming_output create_recording_output start_recording
    start_streaming
session-status = refl

abbrev dock : List (ℕ × Event)
dock =
    (0, monitor_tick (obs 10000))
    ∷ (1, monitor_tick (obs 10000))
    ∷ (0, monitor_tick (obs 12000))
    ∷ (5, monitor_tick (obs 13000))
    ∷ []

dock-status :
    map (λ o. o.status) (run dock client (camera ∷ screen ∷ [])).1
    ≡ Status.active ∷ Status.stand_by ∷ []
unfolding run step created start retrieve_connection destroy_pipeline set_recording_status
    set_status create_egress_settings create_video make_video_encoder create_audio
    make_audio_encoder create_streaming_output create_recording_output start_recording
    start_streaming sync_uplink_status ◌+ℤ◌
dock-status = refl

camera-Wired : Wired camera
unfolding created
camera-Wired = ground arith

-- Safe.
step-Wired_example : Wired (step (monitor_tick (obs 10000)) camera)
step-Wired_example = step-Wired (monitor_tick (obs 10000)) camera camera-Wired

life-Closed_example :
    let o =
      destroyed (obs 20000) (run_events session (created "Camera" client program true 0 0 0)) in
    Closed o
    × (o.status ≡ Status.inactive)
    × (o.recording_status ≡ RecordingStatus.inactive)
    × (all_safe o.effects ≡ true)
life-Closed_example = life-Closed "Camera" client program true 0 0 0 session (obs 20000)

dock-Counts : Counts (pos 0) (pos 0) client (camera ∷ screen ∷ [])
unfolding created ◌+ℤ◌
dock-Counts = record { active = refl; stand_by = refl }

run-Counts_example :
    Counts
      (pos 0)
      (pos 0)
      (run dock client (camera ∷ screen ∷ [])).0
      (run dock client (camera ∷ screen ∷ [])).1
run-Counts_example = run-Counts dock (pos 0) (pos 0) client (camera ∷ screen ∷ []) dock-Counts

dock-uplink : (run dock client (camera ∷ screen ∷ [])).0.uplink ≡ some server
unfolding run step created start retrieve_connection destroy_pipeline set_recording_status
    set_status create_egress_settings create_video make_video_encoder create_audio
    make_audio_encoder create_streaming_output create_recording_output start_recording
    start_streaming sync_uplink_status ◌+ℤ◌ ◌-ℤ◌
dock-uplink = refl

run-fleet_status_example :
    (sync_uplink_status false (run dock client (camera ∷ screen ∷ [])).0).uplink_status
    ≡ fleet_status (run dock client (camera ∷ screen ∷ [])).1
run-fleet_status_example =
    run-fleet_status dock false client (camera ∷ screen ∷ []) server dock-Counts dock-uplink

camera-uplink : camera.api.uplink ≡ some server
unfolding created
camera-uplink = refl

camera-new :
    not (str_eq (get_id camera.connection) (get_id (retrieve_connection camera).connection)) ≡ true
unfolding created retrieve_connection connection_of
camera-new = refl

retrieve_connection-agrees_example :
    (on_uplink_ready server camera).connection ≡ (retrieve_connection camera).connection
retrieve_connection-agrees_example =
    retrieve_connection-agrees server camera camera-uplink camera-new

create_egress_settings-bounds_example :
    is_right guest (create_egress_settings qt (some server) program guest) ≡ true
create_egress_settings-bounds_example =
    create_egress_settings-bounds qt (some server) program guest (ground arith)
