-- ===== src/ApiClient/State.antt =====
-- src/api-client.hpp: the members of class SRCLinkApiClient, its signals, and the calls that it makes.
use Prim.Native.String.{compare}
use Prim.Native.Nat.{Ordering}
use src_link.Prelude.{
  true, false, String, Bool, Option, none, some, List, [], ◌∷◌, if◌then◌else◌, str_eq,
}
use src_link.Prelude.Int.{ℤ}
use src_link.Schema.Json.{JsonObject, Value}
use src_link.ApiClient.Uplink.{UplinkStatus}

-- QNetworkReply::NetworkError: the values that the client tells apart.
pub data NetworkError : Type 0 where
  no_error content_conflict unknown_content other_error : NetworkError

-- The requests, with what they carry. Flags: sent in parallel with the queue.
pub data ApiRequest : Type 0 where
  get_account_info get_parties get_party_events get_participants get_stages : ApiRequest
  get_uplink : ApiRequest
  get_downlink put_downlink_status : String → ApiRequest
  put_downlink : String → JsonObject → ApiRequest
  delete_downlink : String → Bool → ApiRequest
  put_uplink_info : String → UplinkStatus → ApiRequest
  put_status : UplinkStatus → ApiRequest
  delete_uplink : Bool → ApiRequest
  redeem_invite_code : String → ApiRequest

-- What is connected to the end of a request beside its own handler.
pub data Continuation : Type 0 where
  nothing then_put_uplink then_start_socket then_unlink : Continuation

pub data Signal : Type 0 where
  login_succeeded login_failed logout_succeeded web_socket_disconnected : Signal
  ready : Bool → Signal
  account_info_ready uplink_ready downlink_ready license_changed : JsonObject → Signal
  parties_ready party_events_ready participants_ready stages_ready ws_portals_ready :
      List Value → Signal
  account_info_failed parties_failed party_events_failed participants_failed stages_failed : Signal
  uplink_failed downlink_failed downlink_removed : String → Signal
  put_downlink_succeeded put_downlink_status_succeeded : JsonObject → Signal
  put_downlink_failed put_downlink_status_failed : String → Signal
  delete_downlink_succeeded delete_downlink_failed : String → Signal
  put_uplink_succeeded put_uplink_status_succeeded : JsonObject → Signal
  put_uplink_failed : String → NetworkError → Signal
  put_uplink_status_failed delete_uplink_succeeded delete_uplink_failed : String → Signal
  redeem_invite_code_succeeded : JsonObject → Signal
  redeem_invite_code_failed : String → Signal

-- Calls of the requests' sequencer, of the web socket, of the OAuth client and of its timer.
pub data ApiEffect : Type 0 where
  signal : Signal → ApiEffect
  send : ApiRequest → Continuation → ApiEffect
  socket_subscribe socket_unsubscribe : String → JsonObject → ApiEffect
  start_socket stop_socket refresh_token schedule_refresh link unlink : ApiEffect

-- `downlinks` is the map as pairs in the order of the keys, `participant_id` and `party_id` stand
-- in the settings, `has_token` is whether the OAuth client has a refresh token, and `linked` what
-- it answers to `linked`. The effects are those so far, the latest first.
pub record Client : Type 0 where
  pub uuid : String
  pub has_token : Bool
  pub linked : Bool
  pub active_outputs : ℤ
  pub stand_by_outputs : ℤ
  pub uplink_status : UplinkStatus
  pub terminating : Bool
  pub account_info : JsonObject
  pub parties : List Value
  pub party_events : List Value
  pub participants : List Value
  pub stages : List Value
  pub uplink : JsonObject
  pub downlinks : List (String × JsonObject)
  pub ws_portals : List Value
  pub participant_id : String
  pub party_id : String
  pub signals_blocked : Bool
  pub effects : List ApiEffect

abbrev pub perform : ApiEffect → Client → Client
perform e c = record c { effects = e ∷ c.effects }

-- `emit` reaches nothing while the signals are blocked.
abbrev pub fire : Signal → Client → Client
fire s c = if c.signals_blocked then c else perform (signal s) c

-- QMap, whose keys are in order: `operator[]`, `contains`, an assignment, and `remove`. The keys are
-- uuids, which the order of bytes and that of QString agree on.
abbrev is_before : String → String → Bool
is_before k j = elim (compare k j) [ Ordering.lt ↦ true | _ ↦ false ]

abbrev pub lookup : String → List (String × JsonObject) → Option JsonObject
lookup k [] = none
lookup k ((j, v) ∷ m) = if str_eq j k then some v else lookup k m

abbrev pub insert_key :
    String → JsonObject → List (String × JsonObject) → List (String × JsonObject)
insert_key k v [] = (k, v) ∷ []
insert_key k v ((j, w) ∷ m) =
    let rest = insert_key k v m in
    if str_eq j k then (k, v) ∷ m else if is_before k j then (k, v) ∷ (j, w) ∷ m else (j, w) ∷ rest

abbrev pub erase : String → List (String × JsonObject) → List (String × JsonObject)
erase k [] = []
erase k ((j, w) ∷ m) = let rest = erase k m in if str_eq j k then rest else (j, w) ∷ rest
