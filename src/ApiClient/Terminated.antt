-- ===== src/ApiClient/Terminated.antt =====
-- A client that terminates: no answer of a request brings the uplink back.
use src_link.Schema.Array.{find_index}
use src_link.ApiClient.Replies.{object_of, Reply}
use src_link.ApiClient.MessageRule.{removed-rule}
use src_link.ApiClient.Downlinks.{merge, activate}
use src_link.ApiClient.Removals.{
  remove_ws_portals, remove_participants, remove_stages, remove_downlink, remove_connection,
  removed,
}
use src_link.Schema.Json.{remove, value, to_array, end, JsonObject, Value}
use src_link.ApiClient.Calls.{change_license, sync_uplink_status, put_uplink, logout, terminate}
use src_link.ApiClient.State.{
  get_uplink, get_stages, get_participants, get_party_events, get_parties, get_account_info,
  redeem_invite_code, delete_uplink, put_status, put_uplink_info, delete_downlink,
  then_start_socket, put_downlink, then_put_uplink, put_downlink_status, get_downlink, nothing,
  ApiRequest, NetworkError, Continuation, Client, then_unlink,
}
use src_link.ApiClient.Events.{
  socket_disconnected, linking_fails, linking_succeeds, syncs_resources, terminates, logs_out,
  logs_in, party_chosen, tokens_changed, outputs_counted, socket_aborted, subscribe_all,
  socket_ready, data_removed, refresh_finishes, syncs_status, requested, request_finished,
  data_changed, ApiEvent, resubscribe, continue_with, run_api, api_step, reply, participant_chosen,
}
use src_link.Prelude.{arith, true, All, false, List, String, Bool, ◌≡◌, [], ◌∷◌}

pub record Gone (c : Client) : Type 0 where
  pub terminating : c.terminating ≡ true
  pub uplink : c.uplink ≡ end

abbrev pub is_data_changed : ApiEvent → Bool
is_data_changed (data_changed m) = true
is_data_changed _ = false

activate-Gone : (vs : List Value) (c : Client) → Gone c → Gone (activate vs c)
unfolding put_uplink
activate-Gone [] c g = g
activate-Gone (v ∷ vs) c g = ground arith

reply-Gone : (q : ApiRequest) (r : Reply) (c : Client) → Gone c → Gone (reply q r c)
unfolding reply change_license put_uplink
reply-Gone get_account_info r c g = ground arith
reply-Gone get_parties r c g = ground arith
reply-Gone get_party_events r c g = ground arith
reply-Gone get_participants r c g = ground arith
reply-Gone get_stages r c g = ground arith
reply-Gone get_uplink r c g = ground arith
reply-Gone (get_downlink uuid) r c g = ground arith
reply-Gone (put_downlink_status uuid) r c g = ground arith
reply-Gone (put_downlink uuid body) r c g = ground arith
reply-Gone (delete_downlink uuid parallel) r c g = ground arith
reply-Gone (put_uplink_info participant status) r c g = ground arith
reply-Gone (put_status status) r c g = ground arith
reply-Gone (delete_uplink parallel) r c g = ground arith
reply-Gone (redeem_invite_code code) r c g =
    let activated = to_array (value "participants" (object_of r)) in
    let c' = record c { participants = merge activated c.participants } in
    let g' : Gone c' = ground arith in ground (arith, activate-Gone activated c' g')

continue_with-Gone :
    (k : Continuation) (e : NetworkError) (c : Client) → Gone c → Gone (continue_with k e c)
unfolding continue_with put_uplink
continue_with-Gone nothing e c g = g
continue_with-Gone then_put_uplink e c g = ground arith
continue_with-Gone then_start_socket e c g = ground arith
continue_with-Gone then_unlink e c g = ground arith

removed-Gone : (name id : String) (c : Client) → Gone c → Gone (removed name id c)
unfolding logout remove_connection remove_downlink remove_stages remove_participants
    remove_ws_portals remove value find_index
removed-Gone name id c g = removed-rule Gone name id c (record {
  same = g;
  allocation = ground arith;
  stage = ground arith;
  connection = ground arith;
  downlink = ground arith;
  stages = ground arith;
  participants = ground arith;
  account = ground arith;
  portals = ground arith;
})

resubscribe-Gone :
    (b : Bool) (m : List (String × JsonObject)) (c : Client) → Gone c → Gone (resubscribe b m c)
unfolding resubscribe
resubscribe-Gone b [] c g = g
resubscribe-Gone b ((k, d) ∷ m) c g = resubscribe-Gone b m _ (ground arith)

sync_stays : (force : Bool) (c : Client) → Gone c → sync_uplink_status force c ≡ c
unfolding sync_uplink_status
sync_stays force c g = ground arith

api_step-Gone :
    (e : ApiEvent) (c : Client) → is_data_changed e ≡ false → Gone c → Gone (api_step e c)
unfolding api_step
api_step-Gone (request_finished q k r) c h g =
    continue_with-Gone k r.error (reply q r c) (reply-Gone q r c g)
api_step-Gone (requested q) c h g = ground arith
api_step-Gone logs_in c h g = ground arith
api_step-Gone logs_out c h g = ground arith
api_step-Gone terminates c h g = ground arith
api_step-Gone syncs_resources c h g = ground arith
api_step-Gone linking_succeeds c h g = ground arith
api_step-Gone linking_fails c h g = ground arith
api_step-Gone (syncs_status force) c h g = rw (sync_stays force c g) g
api_step-Gone (refresh_finishes e) c h g = ground arith
api_step-Gone (data_changed m) c h g = cc
api_step-Gone (data_removed m) c h g =
    let k = removed-Gone m.name m.id (record c { signals_blocked = m.continuous }) (ground arith) in
    ground arith
api_step-Gone (socket_ready reconnect) c h g =
    let all = resubscribe-Gone reconnect c.downlinks (subscribe_all reconnect c) (ground arith) in
    let c' = resubscribe reconnect c.downlinks (subscribe_all reconnect c) in
    ground (arith, sync_stays true c' all)
api_step-Gone (socket_aborted reason) c h g = ground arith
api_step-Gone socket_disconnected c h g = ground arith
api_step-Gone (outputs_counted a b) c h g = ground arith
api_step-Gone (tokens_changed token linked) c h g = ground arith
api_step-Gone (participant_chosen id) c h g = ground arith
api_step-Gone (party_chosen id) c h g = ground arith

run_api-Gone :
    (es : List ApiEvent) (c : Client)
    → All (λ e. is_data_changed e ≡ false) es
    → Gone c
    → Gone (run_api es c)
unfolding run_api
run_api-Gone [] c h g = g
run_api-Gone (e ∷ es) c h g = run_api-Gone es (api_step e c) h.1 (api_step-Gone e c h.0 g)

-- Once a client terminates, whatever answers still arrive and whatever else happens, as long as the web
-- socket reports no changed data, it has no uplink, and a sync, forced or not, does nothing.
pub terminate-no_uplink :
    (es : List ApiEvent) (c : Client) (force : Bool)
    → All (λ e. is_data_changed e ≡ false) es
    → ((run_api es (terminate c)).uplink ≡ end)
      × (sync_uplink_status force (run_api es (terminate c)) ≡ run_api es (terminate c))
unfolding terminate
terminate-no_uplink es c force h =
    let gone = run_api-Gone es (terminate c) h (ground arith) in
    (gone.uplink, sync_stays force _ gone)
