-- ===== src/ApiClient/Removals.antt =====
-- src/api-client.cpp: onWebSocketDataRemoved.
use src_link.ApiClient.Messages.{announce_uplink, set_connections, connections_of}
use src_link.ApiClient.Calls.{logout}
use src_link.Schema.Json.{remove, value, to_object, obj, Value}
use src_link.Schema.Array.{find_index}
use src_link.ApiClient.State.{
  ws_portals_ready, participants_ready, stages_ready, erase, downlink_removed, fire, lookup, Client,
}
use src_link.ApiClient.Resources.{has_id, remove_first}
use src_link.Schema.Messages.{WebSocketMessage}
use src_link.Prelude.{◌||◌, str_eq, true, Bool, if◌then◌else◌, false, List, String, none, some}

abbrev pub remove_uplink_key : String → String → Client → Client
remove_uplink_key key id c =
    if has_id id (obj (to_object (value key c.uplink)))
    then announce_uplink (record c { uplink = remove key c.uplink })
    else c

-- Whether `findIndex` finds an element.
abbrev pub is_in : String → List Value → Bool
is_in id vs = elim (find_index (has_id id) vs) [ none ↦ false | some i ↦ true ]

unfoldable pub remove_connection : String → Client → Client
unfolding remove_first find_index
remove_connection id c =
    if is_in id (connections_of c)
    then set_connections (remove_first (has_id id) (connections_of c)) c
    else c

unfoldable pub remove_downlink : String → Client → Client
remove_downlink id c = elim (lookup id c.downlinks) [
  | none ↦ c
  | some o ↦ fire (downlink_removed id) (record c { downlinks = erase id c.downlinks })
]

unfoldable pub remove_stages : String → Client → Client
unfolding remove_first find_index
remove_stages id c =
    let stages = remove_first (has_id id) c.stages in
    if is_in id c.stages then fire (stages_ready stages) (record c { stages = stages }) else c

unfoldable pub remove_participants : String → Client → Client
unfolding remove_first find_index
remove_participants id c =
    let participants = remove_first (has_id id) c.participants in
    if is_in id c.participants
    then fire (participants_ready participants) (record c { participants = participants })
    else c

unfoldable pub remove_ws_portals : String → Client → Client
unfolding remove_first find_index
remove_ws_portals id c =
    let portals = remove_first (has_id id) c.ws_portals in
    if is_in id c.ws_portals
    then fire (ws_portals_ready portals) (record c { ws_portals = portals })
    else c

-- An account that is removed is logged out at once.
abbrev pub removed : String → String → Client → Client
unfolding remove_connection remove_downlink remove_stages remove_participants remove_ws_portals
    logout
removed name id c =
    if str_eq name "uplink.allocations"
    then remove_uplink_key "allocation" id c
    else if str_eq name "uplink.stages"
    then remove_uplink_key "stage" id c
    else if str_eq name "uplink.connections"
    then remove_connection id c
    else if str_eq name "downlink.connections"
    then remove_downlink id c
    else if str_eq name "stages"
    then remove_stages id c
    else if str_eq name "participants"
    then remove_participants id c
    else if str_eq name "accounts.licenses" || str_eq name "accounts.resourceUsage"
    then c
    else if str_eq name "accounts"
    then logout c
    else if str_eq name "ws-portals"
    then remove_ws_portals id c
    else c

unfoldable pub on_web_socket_data_removed : WebSocketMessage → Client → Client
unfolding removed
on_web_socket_data_removed m c =
    let c' = removed m.name m.id (record c { signals_blocked = m.continuous }) in
    record c' { signals_blocked = false }
