-- ===== src/ApiClient/Events.antt =====
-- src/api-client.cpp: the end of a request, the slots for the OAuth client and for the web socket, the
-- constructor, and everything that can happen to the client as one step function.
-- The handler of a request, and then what else is connected to its end.
use src_link.ApiClient.Removals.{on_web_socket_data_removed}
use src_link.ApiClient.Messages.{on_web_socket_data_changed}
use src_link.ApiClient.Downlinks.{
  redeem_invite_code_reply, delete_downlink_reply, put_downlink_status_reply, put_downlink_reply,
  downlink_reply, about,
}
use src_link.Schema.Messages.{WebSocketMessage}
use src_link.Prelude.Int.{ℤ, pos}
use src_link.Schema.Json.{end, str, truth, entry, is_empty, JsonObject}
use src_link.ApiClient.Calls.{
  sync_uplink_status, ask, checked, sync_online_resources, begin, terminate, logout, login,
  clear_online_resources, put_uplink,
}
use src_link.Prelude.{[], not, false, true, ◌||◌, str_eq, if◌then◌else◌, ◌∷◌, String, Bool, List}
use src_link.ApiClient.State.{
  get_uplink, get_stages, get_participants, get_party_events, get_parties, get_account_info,
  redeem_invite_code, then_unlink, delete_uplink, put_status, put_uplink_info, delete_downlink,
  put_downlink, get_downlink, web_socket_disconnected, then_put_uplink, nothing,
  put_downlink_status, logout_succeeded, ApiEffect, schedule_refresh, refresh_token, start_socket,
  login_succeeded, stop_socket, then_start_socket, socket_subscribe, login_failed, ready,
  Continuation, fire, perform, Client, ApiRequest, NetworkError,
}
use src_link.ApiClient.Replies.{
  delete_uplink_reply, put_uplink_status_reply, put_uplink_reply, uplink_reply, stages_reply,
  participants_reply, is_ok, party_events_reply, Reply, parties_reply, account_info_reply,
}
use src_link.ApiClient.Uplink.{UplinkStatus}

unfoldable pub reply : ApiRequest → Reply → Client → Client
unfolding account_info_reply parties_reply party_events_reply participants_reply stages_reply
    uplink_reply put_uplink_reply put_uplink_status_reply delete_uplink_reply downlink_reply
    put_downlink_reply put_downlink_status_reply delete_downlink_reply redeem_invite_code_reply
reply get_account_info r c = account_info_reply r c
reply get_parties r c = parties_reply r c
reply get_party_events r c = party_events_reply r c
reply get_participants r c = participants_reply r c
reply get_stages r c = stages_reply r c
reply get_uplink r c = uplink_reply r c
reply (get_downlink uuid) r c = downlink_reply uuid r c
reply (put_downlink_status uuid) r c = put_downlink_status_reply uuid r c
reply (put_downlink uuid body) r c = put_downlink_reply uuid r c
reply (delete_downlink uuid parallel) r c = delete_downlink_reply uuid r c
reply (put_uplink_info participant status) r c = put_uplink_reply r c
reply (put_status status) r c = put_uplink_status_reply r c
reply (delete_uplink parallel) r c = delete_uplink_reply r c
reply (redeem_invite_code code) r c = redeem_invite_code_reply code r c

unfoldable pub continue_with : Continuation → NetworkError → Client → Client
unfolding put_uplink
continue_with nothing e c = c
continue_with then_put_uplink e c = if is_ok e then put_uplink then_start_socket c else c
continue_with then_start_socket e c = perform start_socket c
continue_with then_unlink e c = perform ApiEffect.unlink c

unfoldable pub finished : ApiRequest → Continuation → Reply → Client → Client
unfolding reply continue_with
finished q k r c = continue_with k r.error (reply q r c)

unfoldable pub on_o2_linking_succeeded : Client → Client
unfolding clear_online_resources
on_o2_linking_succeeded c =
    let first_time = if is_empty c.account_info then begin c else c in
    let linked = if c.has_token then fire login_succeeded first_time else c in
    let unlinked = fire logout_succeeded (clear_online_resources (perform stop_socket c)) in
    if c.linked then linked else unlinked

unfoldable pub on_o2_linking_failed : Client → Client
on_o2_linking_failed c = fire login_failed (perform stop_socket c)

unfoldable pub on_o2_refresh_finished : NetworkError → Client → Client
on_o2_refresh_finished e c = if is_ok e then checked (perform schedule_refresh) c else c

abbrev pub initial : Bool → JsonObject
initial b = entry "initial_data" (truth b) end

-- The loop over the downlinks.
unfoldable pub resubscribe : Bool → List (String × JsonObject) → Client → Client
resubscribe reconnect [] c = c
resubscribe reconnect ((uuid, downlink) ∷ m) c =
    let told = perform (socket_subscribe "downlink" (about uuid)) c in
    resubscribe reconnect m
      (if reconnect then ask (put_downlink_status uuid) nothing told else told)

abbrev pub subscribe_all : Bool → Client → Client
subscribe_all reconnect c = perform (socket_subscribe "ws-portals" (initial true)) (
    perform (socket_subscribe "participants" (initial true)) (
      perform (socket_subscribe "stages" (initial true)) (
        perform
          (socket_subscribe "uplink"
            (entry "uuid" (str c.uuid) (entry "initial_data" (truth (not reconnect)) end)))
          (perform (socket_subscribe "accounts" (initial reconnect)) c))))

unfoldable pub on_web_socket_ready : Bool → Client → Client
unfolding resubscribe sync_uplink_status
on_web_socket_ready reconnect c =
    let c' = resubscribe reconnect c.downlinks (subscribe_all reconnect c) in
    fire (ready reconnect) (if reconnect then sync_uplink_status true c' else c')

unfoldable pub on_web_socket_aborted : String → Client → Client
on_web_socket_aborted reason c =
    if str_eq reason "token-expired" || str_eq reason "not-authorized"
    then perform refresh_token c
    else c

-- The constructor: `stored` is the settings' id of the client, `generated` a new one, and
-- `expired` whether the token is about to expire.
unfoldable pub created_client : String → String → Bool → Bool → Bool → String → String → Client
created_client stored generated has_token linked expired participant party =
    let c : Client = record {
      uuid = if str_eq stored "" then generated else stored;
      has_token = has_token;
      linked = linked;
      active_outputs = pos 0;
      stand_by_outputs = pos 0;
      uplink_status = UplinkStatus.inactive;
      terminating = false;
      account_info = end;
      parties = [];
      party_events = [];
      participants = [];
      stages = [];
      uplink = end;
      downlinks = [];
      ws_portals = [];
      participant_id = participant;
      party_id = party;
      signals_blocked = false;
      effects = [];
    } in
    if expired then perform refresh_token c else perform schedule_refresh (begin c)

-- The ends of requests, the calls of the other parts, what the OAuth client and the web socket
-- report, and what the user and the outputs set.
pub data ApiEvent : Type 0 where
  request_finished : ApiRequest → Continuation → Reply → ApiEvent
  requested : ApiRequest → ApiEvent
  logs_in logs_out terminates syncs_resources linking_succeeds linking_fails : ApiEvent
  syncs_status : Bool → ApiEvent
  refresh_finishes : NetworkError → ApiEvent
  data_changed data_removed : WebSocketMessage → ApiEvent
  socket_ready : Bool → ApiEvent
  socket_aborted : String → ApiEvent
  socket_disconnected : ApiEvent
  outputs_counted : ℤ → ℤ → ApiEvent
  tokens_changed : Bool → Bool → ApiEvent
  participant_chosen party_chosen : String → ApiEvent

unfoldable pub api_step : ApiEvent → Client → Client
unfolding finished login logout terminate sync_online_resources on_o2_linking_succeeded
    on_o2_linking_failed sync_uplink_status on_o2_refresh_finished on_web_socket_data_changed
    on_web_socket_data_removed on_web_socket_ready on_web_socket_aborted
api_step (request_finished q k r) c = finished q k r c
api_step (requested q) c = ask q nothing c
api_step logs_in c = login c
api_step logs_out c = logout c
api_step terminates c = terminate c
api_step syncs_resources c = checked sync_online_resources c
api_step linking_succeeds c = on_o2_linking_succeeded c
api_step linking_fails c = on_o2_linking_failed c
api_step (syncs_status force) c = sync_uplink_status force c
api_step (refresh_finishes e) c = on_o2_refresh_finished e c
api_step (data_changed m) c = on_web_socket_data_changed m c
api_step (data_removed m) c = on_web_socket_data_removed m c
api_step (socket_ready reconnect) c = on_web_socket_ready reconnect c
api_step (socket_aborted reason) c = on_web_socket_aborted reason c
api_step socket_disconnected c = fire web_socket_disconnected c
api_step (outputs_counted a b) c = record c { active_outputs = a; stand_by_outputs = b }
api_step (tokens_changed token linked) c = record c { has_token = token; linked = linked }
api_step (participant_chosen id) c = record c { participant_id = id }
api_step (party_chosen id) c = record c { party_id = id }

unfoldable pub run_api : List ApiEvent → Client → Client
unfolding api_step
run_api [] c = c
run_api (e ∷ es) c = run_api es (api_step e c)
