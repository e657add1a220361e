-- ===== src/ApiClient/Runs.antt =====
-- Runs of the API client: the invariant of what it stores, and what becomes of a client that terminates.
use src_link.ApiClient.Calls.{sync_uplink_status}
use src_link.Schema.Json.{JsonObject}
use src_link.ApiClient.State.{Client}
use src_link.ApiClient.Stored.{
  removed-Stored, changed-Stored, logout-Stored, reply-Stored, continue_with-Stored, Stored,
  all_valid,
}
use src_link.Prelude.{true, [], ◌∷◌, arith, String, List, Bool}
use src_link.ApiClient.Events.{
  socket_disconnected, linking_fails, linking_succeeds, syncs_resources, terminates, logs_out,
  logs_in, party_chosen, subscribe_all, participant_chosen, tokens_changed, outputs_counted,
  socket_aborted, socket_ready, data_removed, data_changed, refresh_finishes, syncs_status,
  requested, reply, request_finished, ApiEvent, created_client, api_step, resubscribe, run_api,
}

resubscribe-Stored :
    (b : Bool) (m : List (String × JsonObject)) (c : Client) → Stored c → Stored (resubscribe b m c)
unfolding resubscribe
resubscribe-Stored b [] c s = s
resubscribe-Stored b ((k, d) ∷ m) c s = resubscribe-Stored b m _ (ground arith)

sync-Stored : (force : Bool) (c : Client) → Stored c → Stored (sync_uplink_status force c)
unfolding sync_uplink_status
sync-Stored force c s = ground arith

api_step-Stored : (e : ApiEvent) (c : Client) → Stored c → Stored (api_step e c)
unfolding api_step all_valid
api_step-Stored (request_finished q k r) c s =
    continue_with-Stored k r.error (reply q r c) (reply-Stored q r c s)
api_step-Stored (requested q) c s = ground arith
api_step-Stored logs_in c s = ground arith
api_step-Stored logs_out c s = logout-Stored c s
api_step-Stored terminates c s = ground arith
api_step-Stored syncs_resources c s = ground arith
api_step-Stored linking_succeeds c s = ground arith
api_step-Stored linking_fails c s = ground arith
api_step-Stored (syncs_status force) c s = sync-Stored force c s
api_step-Stored (refresh_finishes e) c s = ground arith
api_step-Stored (data_changed m) c s =
    let h =
      changed-Stored m.name m.id m.payload (record c { signals_blocked = m.continuous })
        (ground arith) in
    ground arith
api_step-Stored (data_removed m) c s =
    let h =
      removed-Stored m.name m.id (record c { signals_blocked = m.continuous }) (ground arith) in
    ground arith
api_step-Stored (socket_ready reconnect) c s =
    let all = resubscribe-Stored reconnect c.downlinks (subscribe_all reconnect c) (ground arith) in
    let c' = resubscribe reconnect c.downlinks (subscribe_all reconnect c) in
    ground (arith, sync-Stored true c' all)
api_step-Stored (socket_aborted reason) c s = ground arith
api_step-Stored socket_disconnected c s = ground arith
api_step-Stored (outputs_counted a b) c s = ground arith
api_step-Stored (tokens_changed token linked) c s = ground arith
api_step-Stored (participant_chosen id) c s = ground arith
api_step-Stored (party_chosen id) c s = ground arith

run_api-kept : (es : List ApiEvent) (c : Client) → Stored c → Stored (run_api es c)
unfolding run_api
run_api-kept [] c s = s
run_api-kept (e ∷ es) c s = run_api-kept es (api_step e c) (api_step-Stored e c s)

-- Whatever a client has met since it was created, in any order, the parties, events, stages, portals and
-- downlinks that it holds have passed `isValid`.
pub run_api-Stored :
    (stored generated : String) (token linked expired : Bool) (participant party : String)
    (es : List ApiEvent)
    → Stored (run_api es (created_client stored generated token linked expired participant party))
unfolding created_client all_valid
run_api-Stored stored generated token linked expired participant party es =
    run_api-kept es _ (ground arith)
