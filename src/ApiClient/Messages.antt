-- ===== src/ApiClient/Messages.antt =====
-- src/api-client.cpp: onWebSocketDataChanged.
use src_link.Schema.Portals.{ws_portal_valid}
use src_link.Schema.Licenses.{account_resource_usage_valid, subscription_license_valid}
use src_link.Schema.Accounts.{account_valid}
use src_link.Schema.Participants.{party_event_participant_valid}
use src_link.Schema.Connections.{stage_connection_valid}
use src_link.Schema.Stages.{stage_valid}
use src_link.Schema.Allocations.{stage_seat_allocation_valid}
use src_link.ApiClient.Resources.{has_id, upsert}
use src_link.ApiClient.Calls.{change_license}
use src_link.Schema.Messages.{WebSocketMessage}
use src_link.ApiClient.State.{
  insert_key, ws_portals_ready, stages_ready, account_info_ready, participants_ready,
  downlink_ready, uplink_ready, lookup, fire, Client,
}
use src_link.Schema.Json.{
  end, is_empty, items, to_array, to_bool, value, arr, obj, insert, to_object, Value, JsonObject,
}
use src_link.Prelude.{none, some, ◌&&◌, not, str_eq, if◌then◌else◌, false, Bool, String, List}

-- A payload that is not valid is ignored.
abbrev pub when_valid :
    (JsonObject → Bool) → (JsonObject → Client → Client) → JsonObject → Client → Client
when_valid valid f payload c = if valid payload then f payload c else c

abbrev pub announce_uplink : Client → Client
announce_uplink c = fire (uplink_ready c.uplink) c

unfoldable pub change_allocation : JsonObject → Client → Client
change_allocation payload c =
    announce_uplink (record c { uplink = insert "allocation" (obj payload) c.uplink })

unfoldable pub change_stage : JsonObject → Client → Client
change_stage payload c =
    announce_uplink (record c { uplink = insert "stage" (obj payload) c.uplink })

abbrev pub connections_of : Client → List Value
connections_of c = to_array (value "connections" c.uplink)

abbrev pub set_connections : List Value → Client → Client
set_connections vs c =
    announce_uplink (record c { uplink = insert "connections" (arr (items vs)) c.uplink })

unfoldable pub change_connection : String → JsonObject → Client → Client
unfolding upsert
change_connection id payload c =
    set_connections (upsert (has_id id) (obj payload) (connections_of c)) c

-- `downlinks[id]` makes an empty downlink where there is none.
abbrev pub downlink_at : String → Client → JsonObject
downlink_at id c = elim (lookup id c.downlinks) [ none ↦ end | some o ↦ o ]

unfoldable pub change_downlink : String → JsonObject → Client → Client
change_downlink id payload c =
    let downlink = insert "connection" (obj payload) (downlink_at id c) in
    fire (downlink_ready downlink) (record c { downlinks = insert_key id downlink c.downlinks })

unfoldable pub change_stages : String → JsonObject → Client → Client
unfolding upsert
change_stages id payload c =
    let stages = upsert (has_id id) (obj payload) c.stages in
    fire (stages_ready stages) (record c { stages = stages })

unfoldable pub change_participants : String → JsonObject → Client → Client
unfolding upsert
change_participants id payload c =
    let participants = upsert (has_id id) (obj payload) c.participants in
    fire (participants_ready participants) (record c { participants = participants })

unfoldable pub change_ws_portals : String → JsonObject → Client → Client
unfolding upsert
change_ws_portals id payload c =
    let portals = upsert (has_id id) (obj payload) c.ws_portals in
    fire (ws_portals_ready portals) (record c { ws_portals = portals })

abbrev pub set_account : String → JsonObject → Client → Client
set_account key payload c =
    let info = insert key (obj payload) c.account_info in
    fire (account_info_ready info) (record c { account_info = info })

abbrev pub license_valid : JsonObject → Bool
license_valid license = to_bool (value "valid" license)

abbrev pub license_of : JsonObject → JsonObject
license_of info = to_object (value "subscription_license" info)

-- `emitLicenseChanged`: an account is known, and its license's validity is another one.
abbrev pub license_differs : JsonObject → Client → Bool
license_differs license c =
    not (is_empty c.account_info)
    && (if license_valid (license_of c.account_info)
        then not (license_valid license)
        else license_valid license)

unfoldable pub change_account_license : JsonObject → Client → Client
unfolding change_license
change_account_license payload c =
    let set = set_account "subscription_license" payload c in
    if license_differs payload c then change_license payload set else set

abbrev pub changed : String → String → JsonObject → Client → Client
unfolding change_allocation change_stage change_connection change_downlink change_stages
    change_participants change_ws_portals change_account_license
changed name id payload c =
    if str_eq name "uplink.allocations"
    then when_valid stage_seat_allocation_valid change_allocation payload c
    else if str_eq name "uplink.stages"
    then when_valid stage_valid change_stage payload c
    else if str_eq name "uplink.connections"
    then when_valid stage_connection_valid (change_connection id) payload c
    else if str_eq name "downlink.connections"
    then when_valid stage_connection_valid (change_downlink id) payload c
    else if str_eq name "stages"
    then when_valid stage_valid (change_stages id) payload c
    else if str_eq name "participants"
    then when_valid party_event_participant_valid (change_participants id) payload c
    else if str_eq name "accounts"
    then when_valid account_valid (set_account "account") payload c
    else if str_eq name "accounts.licenses"
    then when_valid subscription_license_valid change_account_license payload c
    else if str_eq name "accounts.resourceUsage"
    then when_valid account_resource_usage_valid (set_account "resource_usage") payload c
    else if str_eq name "ws-portals"
    then when_valid ws_portal_valid (change_ws_portals id) payload c
    else c

-- The signals are blocked while a message is handled that others follow.
unfoldable pub on_web_socket_data_changed : WebSocketMessage → Client → Client
unfolding changed
on_web_socket_data_changed m c =
    let c' = changed m.name m.id m.payload (record c { signals_blocked = m.continuous }) in
    record c' { signals_blocked = false }
