-- ===== src/ApiClient/Replies.antt =====
-- src/api-client.cpp: what each request does when it is finished.
use src_link.ApiClient.Messages.{license_of, license_differs}
use src_link.ApiClient.Resources.{id_of}
use src_link.Schema.Accounts.{account_info_valid}
use src_link.Schema.Participants.{party_event_participant_valid}
use src_link.Schema.Events.{party_event_valid}
use src_link.Schema.Parties.{party_valid}
use src_link.Schema.Stages.{stage_valid}
use src_link.Schema.Connections.{uplink_resource_valid}
use src_link.Schema.Json.{end, str, entry, every, to_array, to_object, Value, JsonObject}
use src_link.ApiClient.State.{
  delete_uplink_failed, put_uplink_failed, delete_uplink_succeeded, put_uplink_succeeded,
  account_info_failed, put_uplink_status_failed, party_events_failed, participants_failed,
  parties_failed, uplink_failed, put_uplink_status_succeeded, stages_failed, participants_ready,
  stages_ready, parties_ready, party_events_ready, uplink_ready, no_error, socket_unsubscribe,
  socket_subscribe, account_info_ready, unknown_content, fire, perform, NetworkError, Client,
}
use src_link.ApiClient.Calls.{change_license}
use src_link.Prelude.{
  [], str_eq, not, ◌∷◌, false, true, ◌&&◌, String, Bool, if◌then◌else◌, List, some,
}

-- The error, and the body as JSON; a body that is no JSON is null.
pub record Reply : Type 0 where
  pub error : NetworkError
  pub body : Value

abbrev pub is_ok : NetworkError → Bool
is_ok no_error = true
is_ok _ = false

abbrev pub object_of : Reply → JsonObject
object_of r = to_object (some r.body)

abbrev pub array_in : Reply → List Value
array_in r = to_array (some r.body)

-- A reply is accepted if there is no error and its object passes `isValid`.
abbrev pub accepted : (JsonObject → Bool) → Reply → Bool
accepted valid r = is_ok r.error && valid (object_of r)

-- The same of an array and its elements.
abbrev pub accepted_all : (JsonObject → Bool) → Reply → Bool
accepted_all valid r = is_ok r.error && every valid (array_in r)

unfoldable pub account_info_reply : Reply → Client → Client
unfolding change_license
account_info_reply r c =
    let info = object_of r in
    let set = fire (account_info_ready info) (record c { account_info = info }) in
    if not (accepted account_info_valid r)
    then fire account_info_failed c
    else if license_differs (license_of info) c
    then change_license (license_of info) set
    else set

abbrev first_id : List Value → String → String
first_id [] id = id
first_id (v ∷ vs) id = if str_eq id "" then id_of v else id

unfoldable pub parties_reply : Reply → Client → Client
parties_reply r c =
    let parties = array_in r in
    if accepted_all party_valid r
    then fire (parties_ready parties)
        (record c { parties = parties; party_id = first_id parties c.party_id })
    else fire parties_failed c

unfoldable pub party_events_reply : Reply → Client → Client
party_events_reply r c =
    let events = array_in r in
    if accepted_all party_event_valid r
    then fire (party_events_ready events) (record c { party_events = events })
    else fire party_events_failed c

unfoldable pub participants_reply : Reply → Client → Client
participants_reply r c =
    let participants = array_in r in
    if accepted_all party_event_participant_valid r
    then fire (participants_ready participants) (record c { participants = participants })
    else fire participants_failed c

unfoldable pub stages_reply : Reply → Client → Client
stages_reply r c =
    let stages = array_in r in
    if accepted_all stage_valid r
    then fire (stages_ready stages) (record c { stages = stages })
    else fire stages_failed c

-- The three requests of an uplink differ in the signals around these two.
unfoldable pub uplink_reply : Reply → Client → Client
uplink_reply r c =
    if c.terminating
    then c
    else if accepted uplink_resource_valid r
    then fire (uplink_ready (object_of r)) (record c { uplink = object_of r })
    else fire (uplink_failed c.uuid) c

abbrev put_error : NetworkError → NetworkError
put_error no_error = unknown_content
put_error e = e

unfoldable pub put_uplink_reply : Reply → Client → Client
put_uplink_reply r c =
    let uplink = object_of r in
    let stored =
      perform (socket_subscribe "uplink" (entry "uuid" (str c.uuid) end))
        (record c { uplink = uplink }) in
    if c.terminating
    then c
    else if accepted uplink_resource_valid r
    then fire (uplink_ready uplink) (fire (put_uplink_succeeded uplink) stored)
    else fire (uplink_failed c.uuid) (fire (put_uplink_failed c.uuid (put_error r.error)) c)

unfoldable pub put_uplink_status_reply : Reply → Client → Client
put_uplink_status_reply r c =
    let uplink = object_of r in
    if c.terminating
    then c
    else if accepted uplink_resource_valid r
    then fire (uplink_ready uplink)
        (fire (put_uplink_status_succeeded uplink) (record c { uplink = uplink }))
    else fire (uplink_failed c.uuid) (fire (put_uplink_status_failed c.uuid) c)

unfoldable pub delete_uplink_reply : Reply → Client → Client
delete_uplink_reply r c =
    let gone =
      perform (socket_unsubscribe "uplink" (entry "uuid" (str c.uuid) end))
        (record c { uplink = end }) in
    if is_ok r.error
    then fire (delete_uplink_succeeded c.uuid) gone
    else fire (delete_uplink_failed c.uuid) c
