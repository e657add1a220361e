-- ===== src/Egress/Step.antt =====
-- src/outputs/egress-link-output.cpp: everything that can happen to an output, as one step function.
use src_link.Prelude.{String, Bool}
use src_link.Schema.{UplinkInfo}
use src_link.Egress.Link.{Settings}
use src_link.Egress.State.{Obs, Output}
use src_link.Egress.Start.{stop}
use src_link.Egress.Monitor.{
  on_monitoring_timer_timeout, on_snapshot_timer_timeout, on_uplink_ready, update, set_source_uuid,
  set_visible, FrontendEvent, on_obs_frontend_event,
}

-- The timers, the slots, the calls of the dock, and the events of the front end.
pub data Event : Type 0 where
  monitor_tick snapshot_tick stopped : Obs → Event
  uplink_ready : UplinkInfo → Event
  updated : Settings → Event
  source_chosen : String → Event
  visibility_set : Bool → Event
  frontend_event : Obs → FrontendEvent → Event

unfoldable pub step : Event → Output → Output
unfolding on_monitoring_timer_timeout on_snapshot_timer_timeout on_uplink_ready
    on_obs_frontend_event update set_source_uuid set_visible
step (monitor_tick w) o = on_monitoring_timer_timeout w o
step (snapshot_tick w) o = on_snapshot_timer_timeout w o
step (stopped w) o = stop w o
step (uplink_ready u) o = on_uplink_ready u o
step (updated s) o = update s o
step (source_chosen uuid) o = set_source_uuid uuid o
step (visibility_set b) o = set_visible b o
step (frontend_event w e) o = on_obs_frontend_event w e o
