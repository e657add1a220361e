-- ===== src/ApiClient/Stored.antt =====
-- What the client stores of the server's resources has passed `isValid`.
use src_link.ApiClient.Downlinks.{merge, activate}
use src_link.ApiClient.MessageRule.{removed-rule, changed-rule}
use src_link.Schema.Portals.{ws_portal_valid}
use src_link.ApiClient.Resources.{has_id}
use src_link.Schema.Stages.{stage_valid}
use src_link.ApiClient.Tables.{every-upsert, every-remove_first}
use src_link.Schema.Events.{party_event_valid}
use src_link.ApiClient.Replies.{object_of, Reply}
use src_link.Schema.Parties.{party_valid}
use src_link.ApiClient.Calls.{logout, change_license, put_uplink}
use src_link.Schema.Json.{value, to_array, Value, value-insert, obj, insert, every, JsonObject}
use src_link.Schema.Connections.{stage_connection_valid, downlink_info_valid}
use src_link.ApiClient.State.{
  lookup, then_unlink, get_uplink, get_stages, get_participants, get_party_events, get_parties,
  get_account_info, redeem_invite_code, delete_uplink, put_status, then_start_socket,
  put_uplink_info, delete_downlink, then_put_uplink, put_downlink, nothing, put_downlink_status,
  get_downlink, erase, insert_key, NetworkError, Continuation, ApiRequest, Client,
}
use src_link.ApiClient.Messages.{
  downlink_at, changed, change_account_license, change_ws_portals, change_participants,
  change_stages, change_downlink, change_connection, change_stage, change_allocation,
}
use src_link.ApiClient.Events.{continue_with, reply}
use src_link.ApiClient.Removals.{
  remove_downlink, remove_connection, remove_stages, remove_participants, remove_ws_portals,
  remove_uplink_key, removed,
}
use src_link.Prelude.{
  inr, inl, refl, ◌&&◌, [], ◌∷◌, Option-cases, true, arith, ◌≡◌, Bool, String, List,
}

-- Each downlink of the map is valid.
unfoldable pub all_valid : List (String × JsonObject) → Bool
all_valid [] = true
all_valid ((k, d) ∷ m) = downlink_info_valid d && all_valid m

all_valid-insert_key :
    (k : String) (d : JsonObject) (m : List (String × JsonObject))
    → downlink_info_valid d ≡ true
    → all_valid m ≡ true
    → all_valid (insert_key k d m) ≡ true
unfolding all_valid
all_valid-insert_key k d [] h v = ground arith
all_valid-insert_key k d ((j, e) ∷ m) h v = ground (arith, all_valid-insert_key k d m h)

all_valid-erase :
    (k : String) (m : List (String × JsonObject))
    → all_valid m ≡ true
    → all_valid (erase k m) ≡ true
unfolding all_valid
all_valid-erase k [] v = refl
all_valid-erase k ((j, e) ∷ m) v = ground (arith, all_valid-erase k m)

-- A downlink is valid once a valid connection has been set.
downlink-set :
    (payload o : JsonObject)
    → stage_connection_valid payload ≡ true
    → downlink_info_valid (insert "connection" (obj payload) o) ≡ true
unfolding downlink_info_valid
downlink-set payload o h = rw (value-insert "connection" "connection" (obj payload) o) h

pub record Stored (c : Client) : Type 0 where
  pub parties : every party_valid c.parties ≡ true
  pub party_events : every party_event_valid c.party_events ≡ true
  pub stages : every stage_valid c.stages ≡ true
  pub ws_portals : every ws_portal_valid c.ws_portals ≡ true
  pub downlinks : all_valid c.downlinks ≡ true

activate-Stored : (vs : List Value) (c : Client) → Stored c → Stored (activate vs c)
unfolding put_uplink
activate-Stored [] c s = s
activate-Stored (v ∷ vs) c s = ground arith

pub reply-Stored : (q : ApiRequest) (r : Reply) (c : Client) → Stored c → Stored (reply q r c)
unfolding reply all_valid change_license put_uplink
reply-Stored get_account_info r c s = ground arith
reply-Stored get_parties r c s = ground arith
reply-Stored get_party_events r c s = ground arith
reply-Stored get_participants r c s = ground arith
reply-Stored get_stages r c s = ground arith
reply-Stored get_uplink r c s = ground arith
reply-Stored (get_downlink uuid) r c s =
    ground (arith, all_valid-insert_key uuid (object_of r) c.downlinks)
reply-Stored (put_downlink_status uuid) r c s =
    ground (arith, all_valid-insert_key uuid (object_of r) c.downlinks)
reply-Stored (put_downlink uuid body) r c s =
    ground (arith, all_valid-insert_key uuid (object_of r) c.downlinks)
reply-Stored (delete_downlink uuid parallel) r c s =
    ground (arith, all_valid-erase uuid c.downlinks)
reply-Stored (put_uplink_info participant status) r c s = ground arith
reply-Stored (put_status status) r c s = ground arith
reply-Stored (delete_uplink parallel) r c s = ground arith
reply-Stored (redeem_invite_code code) r c s =
    let activated = to_array (value "participants" (object_of r)) in
    let c' = record c { participants = merge activated c.participants } in
    let s' : Stored c' = ground arith in ground (arith, activate-Stored activated c' s')

pub continue_with-Stored :
    (k : Continuation) (e : NetworkError) (c : Client) → Stored c → Stored (continue_with k e c)
unfolding continue_with put_uplink
continue_with-Stored nothing e c s = s
continue_with-Stored then_put_uplink e c s = ground arith
continue_with-Stored then_start_socket e c s = ground arith
continue_with-Stored then_unlink e c s = ground arith

pub changed-Stored :
    (name id : String) (payload : JsonObject) (c : Client)
    → Stored c
    → Stored (changed name id payload c)
unfolding change_allocation change_stage change_connection change_downlink change_stages
    change_participants change_ws_portals change_account_license change_license put_uplink
changed-Stored name id payload c s =
    changed-rule (λ d d'. Stored d) name id payload c c
      (record {
        same = s;
        allocation = λ v. ground arith;
        stage = λ v. ground arith;
        connection = λ v. ground arith;
        downlink = λ v. ground (
          arith,
          downlink-set payload (downlink_at id c) v,
          all_valid-insert_key id (insert "connection" (obj payload) (downlink_at id c))
              c.downlinks,
        );
        stages =
            λ v. ground (arith, every-upsert stage_valid (has_id id) payload c.stages v s.stages);
        participants = λ v. ground arith;
        account = λ v. ground arith;
        license = λ v. ground arith;
        usage = λ v. ground arith;
        portals = λ v.
            ground
              (arith, every-upsert ws_portal_valid (has_id id) payload c.ws_portals v s.ws_portals);
      })

uplink_key-Stored : (key id : String) (c : Client) → Stored c → Stored (remove_uplink_key key id c)
uplink_key-Stored key id c s = ground arith

downlink_removed-Stored : (id : String) (c : Client) → Stored c → Stored (remove_downlink id c)
unfolding remove_downlink
downlink_removed-Stored id c s = elim (Option-cases (lookup id c.downlinks)) [
  | inl m ↦ rw (m, remove_downlink) s
  | inr (o, f) ↦ rw (f, remove_downlink) (ground (arith, all_valid-erase id c.downlinks))
]

connection_removed-Stored : (id : String) (c : Client) → Stored c → Stored (remove_connection id c)
unfolding remove_connection
connection_removed-Stored id c s = ground arith

stages_removed-Stored : (id : String) (c : Client) → Stored c → Stored (remove_stages id c)
unfolding remove_stages
stages_removed-Stored id c s = ground (arith, every-remove_first stage_valid (has_id id) c.stages)

participants_removed-Stored :
    (id : String) (c : Client) → Stored c → Stored (remove_participants id c)
unfolding remove_participants
participants_removed-Stored id c s = ground arith

ws_portals_removed-Stored : (id : String) (c : Client) → Stored c → Stored (remove_ws_portals id c)
unfolding remove_ws_portals
ws_portals_removed-Stored id c s =
    ground (arith, every-remove_first ws_portal_valid (has_id id) c.ws_portals)

pub logout-Stored : (c : Client) → Stored c → Stored (logout c)
unfolding logout
logout-Stored c s = ground arith

pub removed-Stored : (name id : String) (c : Client) → Stored c → Stored (removed name id c)
removed-Stored name id c s = removed-rule Stored name id c (record {
  same = s;
  allocation = uplink_key-Stored "allocation" id c s;
  stage = uplink_key-Stored "stage" id c s;
  connection = connection_removed-Stored id c s;
  downlink = downlink_removed-Stored id c s;
  stages = stages_removed-Stored id c s;
  participants = participants_removed-Stored id c s;
  account = logout-Stored c s;
  portals = ws_portals_removed-Stored id c s;
})
