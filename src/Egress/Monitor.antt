-- ===== src/Egress/Monitor.antt =====
-- src/outputs/egress-link-output.cpp: the timers and slots of EgressLinkOutput, and its settings.
use src_link.Prelude.{
  sub64, ℕ, suc, String, Bool, true, false, ◌&&◌, ◌||◌, not, none, some, str_eq, ltb, if◌then◌else◌,
}
use src_link.Schema.{UplinkInfo, get_id, get_revision}
use src_link.Schema.Array.{find}
use src_link.Egress.Link.{Settings}
use src_link.Egress.State.{
  Status, RecordingStatus, is_status, is_recording, streaming, recording, save_settings,
  put_screenshot, Obs, Output,
}
use src_link.Egress.Status.{emit, update_statistics, set_status}
use src_link.Egress.Pipeline.{is_sending, is_source_available}
use src_link.Egress.Start.{
  start, start_streaming, start_recording, stop, restart_streaming, restart_recording,
}

-- SRCLinkSettingsStore::value of src/settings.cpp: an empty text counts as no value.
abbrev pub value : String → String → String
value stored default = if str_eq stored "" then default else stored

unfoldable pub interlock_type : Obs → String
interlock_type w = value w.interlock_setting "virtual_cam"

-- More than `delay` milliseconds have passed since the last attempt, by unsigned subtraction.
abbrev pub waited : Obs → Output → ℕ → Bool
waited w o delay = ltb delay (sub64 w.now o.connection_attempting_at)

-- The tests that start an inactive output.
unfoldable pub interlock_starts : Obs → Bool
unfolding interlock_type
interlock_starts w =
    let type = interlock_type w in
    if str_eq type "always_on"
    then true
    else if str_eq type "streaming"
    then w.frontend_streaming
    else if str_eq type "recording"
    then w.frontend_recording
    else if str_eq type "streaming_recording"
    then w.frontend_streaming || w.frontend_recording
    else if str_eq type "virtual_cam"
    then w.frontend_virtualcam
    else false

-- The tests that stop an active one.
unfoldable pub interlock_stops : Obs → Bool
unfolding interlock_type
interlock_stops w =
    let type = interlock_type w in
    if str_eq type ""
    then true
    else if str_eq type "streaming"
    then not w.frontend_streaming
    else if str_eq type "recording"
    then not w.frontend_recording
    else if str_eq type "streaming_recording"
    then not w.frontend_streaming && not w.frontend_recording
    else if str_eq type "virtual_cam"
    then not w.frontend_virtualcam
    else false

abbrev pub streaming_alive : Obs → Output → Bool
streaming_alive w o = o.streaming_output && w.output_active streaming

abbrev pub recording_alive : Obs → Output → Bool
recording_alive w o = o.recording_output && w.output_active recording

-- The two operands are the same test.
abbrev pub source_gone : Obs → Output → Bool
source_gone w o = elim o.source [
  | none ↦ false
  | some u ↦
      not (is_source_available w u (w.held_source u))
      || not (is_source_available w u (w.held_source u))
]

-- The end of a turn: a stream that came back, and a source that went away.
unfoldable pub settle : Obs → Output → Output
settle w o =
    let o' =
      if streaming_alive w o && is_status o.status Status.reconnecting
      then set_status w Status.active o
      else o in
    if source_gone w o' then stop w o' else o'

unfoldable pub restart_dead : Obs → Output → Output
unfolding settle
restart_dead w o =
    let o' =
      if is_recording o.recording_status RecordingStatus.active && not (recording_alive w o)
      then restart_recording w o
      else o in
    if not (streaming_alive w o) && is_sending o.status then restart_streaming w o' else settle w o'

-- The turn of an output that streams or stands by, when it may be stopped or restarted.
unfoldable pub supervise : Obs → Output → Output
unfolding interlock_stops restart_dead
supervise w o =
    if interlock_stops w
    then stop w o
    else if not (streaming_alive w o) && is_status o.status Status.stand_by
    then start w o
    else if ltb o.active_settings_rev o.stored_settings_rev && not w.streaming_reconnecting
    then set_status w Status.changing o
    else restart_dead w o

unfoldable pub activate : Obs → Output → Output
activate w o =
    let streams = is_status o.status Status.activating in
    let records = is_recording o.recording_status RecordingStatus.activating in
    let o' = if streams then start_streaming w o else o in
    if records then start_recording w o' else o'

unfoldable pub poll_statistics : Obs → Output → Output
poll_statistics w o =
    if is_sending o.status && ltb 5000 (sub64 w.now o.last_put_statistics_at)
    then update_statistics w o
    else o

abbrev pub is_inactive : Status → Bool
is_inactive s =
    not (is_status s Status.active)
    && not (is_status s Status.stand_by)
    && not (is_status s Status.reconnecting)

-- One tick of the monitoring timer, once a second.
unfoldable pub monitor_turn : Obs → Output → Output
unfolding activate supervise interlock_starts
monitor_turn w o =
    if is_status o.status Status.changing
    then start w o
    else if is_status o.status Status.activating
        || is_recording o.recording_status RecordingStatus.activating
    then (if waited w o 1000 then activate w o else o)
    else if is_inactive o.status
    then (if interlock_starts w then start w o else o)
    else if waited w o 3500
    then supervise w o
    else o

unfoldable pub on_monitoring_timer_timeout : Obs → Output → Output
unfolding poll_statistics monitor_turn
on_monitoring_timer_timeout w o = monitor_turn w (poll_statistics w o)

-- The screenshot shows the source, or the current scene.
unfoldable pub on_snapshot_timer_timeout : Obs → Output → Output
on_snapshot_timer_timeout w o =
    if is_status o.status Status.active || is_status o.status Status.stand_by
    then (if w.screenshot_taken then emit (put_screenshot o.source) o else o)
    else o

unfoldable pub on_uplink_ready : UplinkInfo → Output → Output
unfolding find
on_uplink_ready uplink o =
    let incoming = find (λ c. str_eq c.source_name o.name) uplink.connections in
    if not (str_eq (get_id o.connection) (get_id incoming))
      || ltb (get_revision o.connection) (get_revision incoming)
    then record o { connection = incoming; stored_settings_rev = suc o.stored_settings_rev }
    else o

abbrev save : Output → Output
save o = emit save_settings o

-- `applied` is the settings with the defaults and then the new ones applied by `obs_data_apply`.
unfoldable pub update : Settings → Output → Output
update applied o =
    let o' = save (record o { settings = applied }) in
    record o' { stored_settings_rev = suc o.stored_settings_rev }

unfoldable pub set_source_uuid : String → Output → Output
set_source_uuid value o =
    let o' = save (record o { settings = record (o.settings) { source_uuid = value } }) in
    if str_eq value o.settings.source_uuid
    then o
    else record o' { stored_settings_rev = suc o.stored_settings_rev }

unfoldable pub set_visible : Bool → Output → Output
set_visible value o =
    let o' = save (record o { settings = record (o.settings) { visible = value } }) in
    record o' { stored_settings_rev = suc o.stored_settings_rev }

pub data FrontendEvent : Type 0 where
  scripting_shutdown scene_collection_changing other_event : FrontendEvent

unfoldable pub on_obs_frontend_event : Obs → FrontendEvent → Output → Output
on_obs_frontend_event w scripting_shutdown o = stop w o
on_obs_frontend_event w scene_collection_changing o = stop w o
on_obs_frontend_event w other_event o = o
