-- ===== src/Tests/ApiRuns.antt =====
-- Concrete runs of the API client (src/api-client.cpp): a client that logs in, meets the server's
-- messages, and terminates.
use src_link.Schema.Connections.{uplink_resource_object}
use src_link.ApiClient.Removals.{on_web_socket_data_removed}
use src_link.ApiClient.Terminated.{terminate-no_uplink}
use src_link.ApiClient.Runs.{run_api-Stored}
use src_link.Prelude.Int.{pos}
use src_link.Schema.Accounts.{account_info_object}
use src_link.Tests.Clients.{resource, info, studio, license}
use src_link.Schema.Json.{null, end, str, obj}
use src_link.Schema.Stages.{stage_object}
use src_link.ApiClient.Catalog.{removed-entry, of_stages, rows}
use src_link.Prelude.{none, str_eq, refl, if◌then◌else◌, some, [], ◌∷◌, true, ◌≡◌, false, List}
use src_link.ApiClient.Stored.{Stored}
use src_link.ApiClient.Reconnected.{on_web_socket_ready-asks, statuses, watched}
use src_link.Schema.Licenses.{subscription_license_object, SubscriptionLicense}
use src_link.Schema.Messages.{WebSocketMessage}
use src_link.ApiClient.Refusals.{reply-garbled, listed, refused}
use src_link.ApiClient.Replies.{Reply}
use src_link.ApiClient.Events.{
  syncs_status, data_removed, data_changed, socket_ready, request_finished, created_client,
  ApiEvent, on_web_socket_ready, run_api, reply,
}
use src_link.Schema.Array.{first}
use src_link.ApiClient.Tables.{Distinct, entry_of}
use src_link.ApiClient.State.{
  other_error, delete_uplink, nothing, then_put_uplink, get_account_info, get_uplink, get_stages,
  content_conflict, no_error, Client,
}
use src_link.ApiClient.Calls
use src_link.ApiClient.Uplink.{UplinkStatus}

-- A client with a token, an account and a downlink.
abbrev logged_in : Client
logged_in = record {
  uuid = "me";
  has_token = true;
  linked = true;
  active_outputs = pos 1;
  stand_by_outputs = pos 0;
  uplink_status = UplinkStatus.inactive;
  terminating = false;
  account_info = account_info_object info;
  parties = [];
  party_events = [];
  participants = [];
  stages = [];
  uplink = uplink_resource_object resource;
  downlinks = ("s1", end) ∷ ("s2", end) ∷ [];
  ws_portals = [];
  participant_id = "none";
  party_id = "";
  signals_blocked = false;
  effects = [];
}

abbrev stage_message : WebSocketMessage
stage_message = record {
  event = "changed";
  reason = "";
  name = "stages";
  id = "st1";
  payload = stage_object studio;
  continuous = false;
}

abbrev with_stage : Client
with_stage = record logged_in { stages = obj (stage_object studio) ∷ [] }

removed-entry_example :
    (entry_of (rows of_stages (on_web_socket_data_removed stage_message with_stage)) "st1"
      ≡ (if str_eq "st1" "st1" then none else none))
    × Distinct (rows of_stages (on_web_socket_data_removed stage_message with_stage))
unfolding first
removed-entry_example = removed-entry of_stages stage_message with_stage "st1" refl (refl, tt)

abbrev followed : WebSocketMessage
followed = record stage_message { continuous = true }

abbrev a_day : List ApiEvent
a_day =
    request_finished get_account_info then_put_uplink
      (record { error = no_error; body = obj (account_info_object info) })
    ∷ socket_ready false
    ∷ data_changed followed
    ∷ data_removed stage_message
    ∷ syncs_status true
    ∷ []

run_api-Stored_example : Stored (run_api a_day (created_client "" "me" true true false "none" ""))
run_api-Stored_example = run_api-Stored "" "me" true true false "none" "" a_day

abbrev late_answers : List ApiEvent
late_answers =
    request_finished get_uplink nothing
      (record { error = no_error; body = obj (uplink_resource_object resource) })
    ∷ request_finished (delete_uplink true) nothing (record { error = other_error; body = null })
    ∷ data_removed stage_message
    ∷ []

terminate-no_uplink_example :
    ((run_api late_answers (Calls.terminate logged_in)).uplink ≡ end)
    × (Calls.sync_uplink_status true (run_api late_answers (Calls.terminate logged_in))
        ≡ run_api late_answers (Calls.terminate logged_in))
terminate-no_uplink_example =
    terminate-no_uplink late_answers logged_in true (refl, (refl, (refl, tt)))

abbrev conflict : Reply
conflict = record { error = content_conflict; body = null }

abbrev page : Reply
page = record { error = no_error; body = str "<html>" }

reply-garbled_example :
    (refused get_stages page ≡ false)
    × (listed get_stages (reply get_stages page with_stage) ≡ some [])
reply-garbled_example = reply-garbled get_stages page with_stage refl refl refl

on_web_socket_ready-asks_example :
    (watched (on_web_socket_ready true logged_in).effects ≡ "s2" ∷ "s1" ∷ [])
    × (statuses (on_web_socket_ready true logged_in).effects ≡ "s2" ∷ "s1" ∷ [])
on_web_socket_ready-asks_example = on_web_socket_ready-asks true logged_in refl

abbrev expired : SubscriptionLicense
expired = record license { license_valid = false }

abbrev license_message : WebSocketMessage
license_message = record {
  event = "changed";
  reason = "";
  name = "accounts.licenses";
  id = "l1";
  payload = subscription_license_object expired;
  continuous = false;
}

abbrev account_reply : Reply
account_reply = record { error = no_error; body = obj (account_info_object info) }
