-- ===== src/ApiClient/Downlinks.antt =====
-- src/api-client.cpp: what the requests of a downlink and an invite code do when they are finished.
use src_link.ApiClient.Calls.{put_uplink}
use src_link.Schema.Connections.{downlink_info_valid}
use src_link.Schema.Json.{to_object, obj, value, end, to_array, str, Value, entry, JsonObject}
use src_link.ApiClient.Resources.{id_of, has_id, upsert}
use src_link.ApiClient.State.{
  nothing, redeem_invite_code_failed, delete_downlink_failed, put_downlink_failed,
  put_downlink_status_failed, downlink_failed, put_downlink_status_succeeded,
  put_downlink_succeeded, redeem_invite_code_succeeded, erase, downlink_ready,
  delete_downlink_succeeded, participants_ready, fire, lookup, socket_subscribe, socket_unsubscribe,
  insert_key, perform, Client,
}
use src_link.ApiClient.Replies.{is_ok, accepted, object_of, Reply}
use src_link.Prelude.{[], if◌then◌else◌, ◌∷◌, List, String, none, some}

abbrev set_downlink : String → JsonObject → Client → Client
set_downlink uuid downlink c = record c { downlinks = insert_key uuid downlink c.downlinks }

abbrev pub about : String → JsonObject
about uuid = entry "uuid" (str uuid) end

unfoldable pub downlink_reply : String → Reply → Client → Client
downlink_reply uuid r c =
    let downlink = object_of r in
    if accepted downlink_info_valid r
    then fire (downlink_ready downlink) (set_downlink uuid downlink c)
    else fire (downlink_failed uuid) c

unfoldable pub put_downlink_reply : String → Reply → Client → Client
put_downlink_reply uuid r c =
    let downlink = object_of r in
    let stored =
      perform (socket_subscribe "downlink" (about uuid)) (set_downlink uuid downlink c) in
    if accepted downlink_info_valid r
    then fire (downlink_ready downlink) (fire (put_downlink_succeeded downlink) stored)
    else fire (downlink_failed uuid) (fire (put_downlink_failed uuid) c)

unfoldable pub put_downlink_status_reply : String → Reply → Client → Client
put_downlink_status_reply uuid r c =
    let downlink = object_of r in
    if accepted downlink_info_valid r
    then fire (downlink_ready downlink)
        (fire (put_downlink_status_succeeded downlink) (set_downlink uuid downlink c))
    else fire (downlink_failed uuid) (fire (put_downlink_status_failed uuid) c)

unfoldable pub delete_downlink_reply : String → Reply → Client → Client
delete_downlink_reply uuid r c =
    let left = perform (socket_unsubscribe "downlink" (about uuid)) c in
    if is_ok r.error
    then elim (lookup uuid c.downlinks) [
      | none ↦ left
      | some o ↦
          fire (delete_downlink_succeeded uuid) (record left { downlinks = erase uuid c.downlinks })
    ]
    else fire (delete_downlink_failed uuid) c

-- The loop that merges the participants of the result. A participant is found by its own id.
unfoldable pub merge : List Value → List Value → List Value
unfolding upsert
merge [] participants = participants
merge (v ∷ vs) participants =
    merge vs (upsert (has_id (id_of v)) (obj (to_object (some v))) participants)

abbrev pub activate : List Value → Client → Client
unfolding put_uplink
activate [] c = c
activate (v ∷ vs) c = put_uplink nothing (record c { participant_id = id_of v })

-- The result is not checked by `isValid`.
unfoldable pub redeem_invite_code_reply : String → Reply → Client → Client
unfolding merge activate
redeem_invite_code_reply code r c =
    let result = object_of r in
    let activated = to_array (value "participants" result) in
    let c' = activate activated (record c { participants = merge activated c.participants }) in
    if is_ok r.error
    then fire (participants_ready c'.participants) (fire (redeem_invite_code_succeeded result) c')
    else fire (redeem_invite_code_failed code) c
