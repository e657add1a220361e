-- ===== src/Egress/Carry/Turn.antt =====
-- The turns of the timers and the other events of src/outputs/egress-link-output.cpp, for a predicate
-- on the status and the API client.
use src_link.Egress.Carry.Starting.{
  start_recording-keep, start-keep, restart_streaming-keep, start_streaming-keep, stop-keep,
}
use src_link.Egress.Carry.{if_keep, Carried}
use src_link.Prelude.{refl, Bool-cases, inl, inr, if◌then◌else◌, not, ◌&&◌, ◌||◌, ltb}
use src_link.Egress.State.{Status, RecordingStatus, Obs, Output, is_status, is_recording}
use src_link.Egress.Pipeline.{is_sending}
use src_link.Egress.Start.{start_streaming, restart_recording}
use src_link.Egress.Monitor.{
  streaming_alive, recording_alive, is_inactive, waited, settle, restart_dead, supervise, activate,
  monitor_turn, on_monitoring_timer_timeout, scripting_shutdown, scene_collection_changing,
  other_event, interlock_stops, interlock_starts,
}
use src_link.Egress.Step.{
  Event, monitor_tick, snapshot_tick, stopped, uplink_ready, updated, source_chosen, visibility_set,
  frontend_event, step,
}
use src_link.Egress.Frame.{
  poll_statistics-Same, snapshot-Same, uplink_ready-Same, source_chosen-Same,
}

module _ (P : Output → Type 0) (c : Carried P) where
  settle-keep : (w : Obs) (o : Output) → P o → P (settle w o)
  unfolding settle
  settle-keep w o h =
      elim (Bool-cases (streaming_alive w o && is_status o.status Status.reconnecting)) [
        | inl e ↦
            rw e (
              if_keep P c _ _ _ (stop-keep P c w _ (c.keep_status w _ o h)) (c.keep_status w _ o h))
        | inr e ↦ rw e (if_keep P c _ _ _ (stop-keep P c w o h) h)
      ]

  restart_dead-keep : (w : Obs) (o : Output) → P o → P (restart_dead w o)
  unfolding restart_dead restart_recording
  restart_dead-keep w o h =
      if_keep P c (not (streaming_alive w o) && is_sending o.status) _ _
        (restart_streaming-keep P c w _ restarted) (settle-keep w _ restarted)
    where
      restarted : P (
          if is_recording o.recording_status RecordingStatus.active && not (recording_alive w o)
          then restart_recording w o
          else o)
      restarted =
          if_keep P c
            (is_recording o.recording_status RecordingStatus.active && not (recording_alive w o)) _
            _ (c.frame o (restart_recording w o) (record { api = refl; status = refl }) h) h

  supervise-keep : (w : Obs) (o : Output) → P o → P (supervise w o)
  unfolding supervise
  supervise-keep w o h = if_keep P c (interlock_stops w) _ _ (stop-keep P c w o h) (
      if_keep P c (not (streaming_alive w o) && is_status o.status Status.stand_by) _ _
        (start-keep P c w o h)
        (if_keep P c
          (ltb o.active_settings_rev o.stored_settings_rev && not w.streaming_reconnecting) _ _
          (c.keep_status w _ o h) (restart_dead-keep w o h)))

  activate-keep : (w : Obs) (o : Output) → P o → P (activate w o)
  unfolding activate
  activate-keep w o h =
      if_keep P c (is_recording o.recording_status RecordingStatus.activating) _ _
        (start_recording-keep P c w _ streams) streams
    where
      streams : P (if is_status o.status Status.activating then start_streaming w o else o)
      streams =
          if_keep P c (is_status o.status Status.activating) _ _ (start_streaming-keep P c w o h) h

  monitor_turn-keep : (w : Obs) (o : Output) → P o → P (monitor_turn w o)
  unfolding monitor_turn
  monitor_turn-keep w o h =
      if_keep P c (is_status o.status Status.changing) _ _ (start-keep P c w o h) (
        if_keep P c
          (is_status o.status Status.activating
            || is_recording o.recording_status RecordingStatus.activating)
          _ _ (if_keep P c (waited w o 1000) _ _ (activate-keep w o h) h)
          (if_keep P c (is_inactive o.status) _ _
            (if_keep P c (interlock_starts w) _ _ (start-keep P c w o h) h)
            (if_keep P c (waited w o 3500) _ _ (supervise-keep w o h) h)))

  monitor-keep : (w : Obs) (o : Output) → P o → P (on_monitoring_timer_timeout w o)
  unfolding on_monitoring_timer_timeout
  monitor-keep w o h = monitor_turn-keep w _ (c.frame o _ (poll_statistics-Same w o) h)

  pub step-keep : (e : Event) (o : Output) → P o → P (step e o)
  unfolding step
  step-keep (monitor_tick w) o h = monitor-keep w o h
  step-keep (stopped w) o h = stop-keep P c w o h
  step-keep (frontend_event w scripting_shutdown) o h = stop-keep P c w o h
  step-keep (frontend_event w scene_collection_changing) o h = stop-keep P c w o h
  step-keep (frontend_event w other_event) o h = h
  step-keep (snapshot_tick w) o h = c.frame o _ (snapshot-Same w o) h
  step-keep (uplink_ready u) o h = c.frame o _ (uplink_ready-Same u o) h
  step-keep (updated s) o h = c.frame o _ (record { api = refl; status = refl }) h
  step-keep (source_chosen uuid) o h = c.frame o _ (source_chosen-Same uuid o) h
  step-keep (visibility_set b) o h = c.frame o _ (record { api = refl; status = refl }) h
