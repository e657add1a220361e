-- ===== src/Egress/Safe.antt =====
-- The pointers and the statuses of an output over one event (the timers and slots of
-- src/outputs/egress-link-output.cpp).
use src_link.Schema.{UplinkInfo}
use src_link.Egress.Step.{
  monitor_tick, snapshot_tick, stopped, uplink_ready, updated, source_chosen, visibility_set,
  frontend_event, Event, step,
}
use src_link.Egress.Started.{start-Wired}
use src_link.Egress.Monitor.{
  scripting_shutdown, scene_collection_changing, other_event, interlock_starts, set_visible, waited,
  update, on_snapshot_timer_timeout, monitor_turn, on_uplink_ready, is_inactive, set_source_uuid,
  poll_statistics, interlock_stops, supervise, recording_alive, source_gone, streaming_alive,
  settle, activate, restart_dead,
}
use src_link.Prelude.{
  ◌||◌, String, ltb, false, ◌∙◌, ap, refl, not, ◌&&◌, if◌then◌else◌, Bool, ◌≡◌, true, arith,
}
use src_link.Egress.State.{
  is_recording, recording, Obs, set_encoders, RecordingStatus, Status, streaming, is_status,
  start_output, is_recording, Obs, Output,
}
use src_link.Egress.Status.{update_statistics, set_recording_status, emit, set_status}
use src_link.Egress.Pipeline.{is_sending, inc_source}
use src_link.Egress.Start.{
  stop, start_recording, restart_streaming, restart_recording, start_streaming,
}
use src_link.Egress.Wired.{
  set_recording_status-Wired, set_status-Wired, destroy_pipeline-Wired, when_Wired, if_Wired,
  sync-Wired, Wired,
}

inc_source-Wired : (o : Output) → Wired o → Wired (inc_source o)
inc_source-Wired o h = ground arith

-- The status once the stream has started, or has not.
streaming_result-Wired :
    (w : Obs) (b : Bool) (o : Output)
    → o.streaming_output ≡ true
    → Wired o
    → Wired (if b then set_status w Status.active (inc_source o) else set_status w Status.error o)
streaming_result-Wired w b o y h =
    let h' = inc_source-Wired o h in
    if_Wired b _ _
      (set_status-Wired w Status.active (inc_source o) (λ _. ground arith) (λ e. ground arith)
        h'.records h'.encoded h'.safe)
      (set_status-Wired w Status.error o (λ e. ground arith) (λ e. ground arith) h.records h.encoded
        h.safe)

launch_streaming-Wired :
    (w : Obs) (o : Output)
    → o.streaming_output ≡ true
    → Wired o
    → Wired (
        emit (start_output streaming o.streaming_output) (
          emit
            (set_encoders streaming o.video_encoder o.audio_encoder)
            (record o { connection_attempting_at = w.now })))
launch_streaming-Wired w o y h = ground arith

pub start_streaming-Wired : (w : Obs) (o : Output) → Wired o → Wired (start_streaming w o)
unfolding start_streaming
start_streaming-Wired w o h = sync-Wired _ (
    when_Wired o.streaming_output _ _
      (λ y.
        streaming_result-Wired w (w.output_starts streaming) _ y (launch_streaming-Wired w o y h))
      (λ _. h))

recording_result-Wired :
    (w : Obs) (b : Bool) (o : Output)
    → o.recording_output ≡ true
    → Wired o
    → Wired (
        if b
        then set_recording_status w RecordingStatus.active (inc_source o)
        else set_recording_status w RecordingStatus.error o)
recording_result-Wired w b o y h =
    if_Wired b _ _
      (set_recording_status-Wired w RecordingStatus.active (inc_source o) (λ _. ground arith)
        (inc_source-Wired o h))
      (set_recording_status-Wired w RecordingStatus.error o (λ e. ground arith) h)

launch_recording-Wired :
    (w : Obs) (o : Output)
    → o.recording_output ≡ true
    → Wired o
    → Wired (
        emit
          (start_output recording o.recording_output)
          (emit (set_encoders recording o.video_encoder o.audio_encoder) o))
launch_recording-Wired w o y h = ground arith

pub start_recording-Wired : (w : Obs) (o : Output) → Wired o → Wired (start_recording w o)
unfolding start_recording
start_recording-Wired w o h =
    when_Wired o.recording_output _ _
      (λ y.
        recording_result-Wired w (w.output_starts recording) _ y (launch_recording-Wired w o y h))
      (λ _. h)

pub stop-Wired : (w : Obs) (o : Output) → Wired o → Wired (stop w o)
unfolding stop
stop-Wired w o h = sync-Wired _ (destroy_pipeline-Wired w Status.inactive o refl h)

pub restart_streaming-Wired :
    (w : Obs) (o : Output) → is_sending o.status ≡ true → Wired o → Wired (restart_streaming w o)
unfolding restart_streaming set_status
restart_streaming-Wired w o e h = ground arith

pub restart_recording-Wired :
    (w : Obs) (o : Output)
    → is_recording o.recording_status RecordingStatus.active ≡ true
    → Wired o
    → Wired (restart_recording w o)
unfolding restart_recording
restart_recording-Wired w o e h = ground arith

activate-Wired : (w : Obs) (o : Output) → Wired o → Wired (activate w o)
unfolding activate
activate-Wired w o h =
    let h' = if_Wired (is_status o.status Status.activating) _ _ (start_streaming-Wired w o h) h in
    if_Wired (is_recording o.recording_status RecordingStatus.activating) _ _
      (start_recording-Wired w _ h') h'

revive-Wired :
    (w : Obs) (o : Output)
    → streaming_alive w o && is_status o.status Status.reconnecting ≡ true
    → Wired o
    → Wired (set_status w Status.active o)
revive-Wired w o y h =
    set_status-Wired w Status.active o (λ _. ground arith) (λ e. ground arith) h.records h.encoded
      h.safe

abbrev revived : Obs → Output → Output
revived w o =
    if streaming_alive w o && is_status o.status Status.reconnecting
    then set_status w Status.active o
    else o

settle-Wired : (w : Obs) (o : Output) → Wired o → Wired (settle w o)
unfolding settle
settle-Wired w o h =
    let h' =
      when_Wired (streaming_alive w o && is_status o.status Status.reconnecting) _ _
        (λ y. revive-Wired w o y h) (λ _. h) in
    if_Wired (source_gone w (revived w o)) (stop w (revived w o)) (revived w o)
      (stop-Wired w (revived w o) h') h'

status-restart_recording :
    (w : Obs) (b : Bool) (o : Output) → (if b then restart_recording w o else o).status ≡ o.status
unfolding restart_recording
status-restart_recording w true o = refl
status-restart_recording w false o = refl

restart_dead-Wired : (w : Obs) (o : Output) → Wired o → Wired (restart_dead w o)
unfolding restart_dead
restart_dead-Wired w o h =
    let h' =
      when_Wired
        (is_recording o.recording_status RecordingStatus.active && not (recording_alive w o)) _ _
        (λ y. restart_recording-Wired w o (ground arith) h) (λ _. h) in
    when_Wired (not (streaming_alive w o) && is_sending o.status) _ _
      (λ y.
        restart_streaming-Wired w _
          (ap is_sending (
              status-restart_recording w
                (is_recording o.recording_status RecordingStatus.active
                  && not (recording_alive w o))
                o)
            ∙ ground arith)
          h')
      (λ _. settle-Wired w _ h')

change-Wired :
    (w : Obs) (o : Output)
    → is_inactive o.status ≡ false
    → not (streaming_alive w o) && is_status o.status Status.stand_by ≡ false
    → Wired o
    → Wired (set_status w Status.changing o)
change-Wired w o e n h =
    set_status-Wired w Status.changing o (λ _. ground arith) (λ e. ground arith) h.records h.encoded
      h.safe

supervise-Wired :
    (w : Obs) (o : Output) → is_inactive o.status ≡ false → Wired o → Wired (supervise w o)
unfolding supervise
supervise-Wired w o e h = if_Wired (interlock_stops w) _ _ (stop-Wired w o h) (
    when_Wired (not (streaming_alive w o) && is_status o.status Status.stand_by) _ _
      (λ _. start-Wired w o h)
      λ n.
        if_Wired (ltb o.active_settings_rev o.stored_settings_rev && not w.streaming_reconnecting) _
          _ (change-Wired w o e n h) (restart_dead-Wired w o h))

monitor_turn-Wired : (w : Obs) (o : Output) → Wired o → Wired (monitor_turn w o)
unfolding monitor_turn
monitor_turn-Wired w o h = if_Wired (is_status o.status Status.changing) _ _ (start-Wired w o h) (
    if_Wired
      (is_status o.status Status.activating
        || is_recording o.recording_status RecordingStatus.activating)
      _ _ (if_Wired (waited w o 1000) _ _ (activate-Wired w o h) h)
      (when_Wired (is_inactive o.status) _ _
        (λ _. if_Wired (interlock_starts w) _ _ (start-Wired w o h) h)
        λ e. if_Wired (waited w o 3500) _ _ (supervise-Wired w o e h) h))

poll_statistics-Wired : (w : Obs) (o : Output) → Wired o → Wired (poll_statistics w o)
unfolding poll_statistics update_statistics
poll_statistics-Wired w o h = ground arith

snapshot-Wired : (w : Obs) (o : Output) → Wired o → Wired (on_snapshot_timer_timeout w o)
unfolding on_snapshot_timer_timeout
snapshot-Wired w o h = ground arith

uplink_ready-Wired : (u : UplinkInfo) (o : Output) → Wired o → Wired (on_uplink_ready u o)
unfolding on_uplink_ready
uplink_ready-Wired u o h = ground arith

source_chosen-Wired : (uuid : String) (o : Output) → Wired o → Wired (set_source_uuid uuid o)
unfolding set_source_uuid
source_chosen-Wired uuid o h = ground arith

-- Every event keeps an output wired: a status that stands for a stream or a recording has that
-- output, an output that stands by has no streaming output, any output has both encoders, and every
-- call so far that started or stopped an output, or set its encoders, was given them.
pub step-Wired : (e : Event) (o : Output) → Wired o → Wired (step e o)
unfolding step update set_visible
step-Wired (monitor_tick w) o h = monitor_turn-Wired w _ (poll_statistics-Wired w o h)
step-Wired (stopped w) o h = stop-Wired w o h
step-Wired (frontend_event w scripting_shutdown) o h = stop-Wired w o h
step-Wired (frontend_event w scene_collection_changing) o h = stop-Wired w o h
step-Wired (frontend_event w other_event) o h = h
step-Wired (snapshot_tick w) o h = snapshot-Wired w o h
step-Wired (uplink_ready u) o h = uplink_ready-Wired u o h
step-Wired (updated s) o h = ground arith
step-Wired (source_chosen uuid) o h = source_chosen-Wired uuid o h
step-Wired (visibility_set b) o h = ground arith
