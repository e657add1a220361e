-- ===== src/ApiClient/Calls.antt =====
-- src/api-client.cpp: the public calls of class SRCLinkApiClient, up to the requests that they send.
use src_link.Schema.Json.{value, to_bool, is_empty, end, JsonObject}
use src_link.Prelude.{◌==◌, not, ◌||◌, [], true, str_eq, if◌then◌else◌, String, Bool}
use src_link.ApiClient.State.{
  put_uplink_info, get_parties, get_party_events, then_unlink, get_participants, send, ApiEffect,
  nothing, then_put_uplink, license_changed, get_account_info, fire, perform, put_status,
  delete_uplink, get_stages, Client, Continuation, ApiRequest,
}
use src_link.ApiClient.Uplink.{UplinkStatus, is_positive, uplink_number}

-- CHECK_CLIENT_TOKEN: nothing is sent without a refresh token.
abbrev pub checked : (Client → Client) → Client → Client
checked f c = if c.has_token then f c else c

abbrev pub ask : ApiRequest → Continuation → Client → Client
ask r k c = checked (perform (send r k)) c

-- The body of putUplink: no participant is the empty id.
abbrev pub uplink_participant : Client → String
uplink_participant c = if str_eq c.participant_id "none" then "" else c.participant_id

unfoldable pub put_uplink : Continuation → Client → Client
put_uplink k c = ask (put_uplink_info (uplink_participant c) c.uplink_status) k c

unfoldable pub put_uplink_status : Client → Client
put_uplink_status c = ask (put_status c.uplink_status) nothing c

-- The status that the counters of the outputs stand for.
abbrev pub output_status : Client → UplinkStatus
output_status c =
    if is_positive c.active_outputs
    then UplinkStatus.active
    else if is_positive c.stand_by_outputs
    then UplinkStatus.standby
    else UplinkStatus.inactive

unfoldable pub sync_uplink_status : Bool → Client → Client
unfolding put_uplink_status
sync_uplink_status force c =
    let next = output_status c in
    if is_empty c.uplink
    then c
    else if force || not (uplink_number next == uplink_number c.uplink_status)
    then put_uplink_status (record c { uplink_status = next })
    else c

unfoldable pub sync_online_resources : Client → Client
sync_online_resources c =
    ask get_stages nothing
      (ask get_participants nothing (ask get_party_events nothing (ask get_parties nothing c)))

unfoldable pub clear_online_resources : Client → Client
clear_online_resources c = record c {
  account_info = end;
  parties = [];
  party_events = [];
  participants = [];
  stages = [];
  uplink = end;
  ws_portals = [];
  downlinks = [];
  participant_id = "";
  party_id = "";
}

unfoldable pub terminate : Client → Client
terminate c = ask (delete_uplink true) nothing (record c { terminating = true; uplink = end })

unfoldable pub login : Client → Client
login c = perform ApiEffect.link c

unfoldable pub logout : Client → Client
logout c = ask (delete_uplink true) then_unlink c

-- The account and the uplink are asked for one after the other, and then the web socket is started.
abbrev pub begin : Client → Client
begin c = ask get_account_info then_put_uplink c

-- The signal licenseChanged, with the constructor's own slot for it.
unfoldable pub change_license : JsonObject → Client → Client
unfolding put_uplink
change_license license c =
    let told = fire (license_changed license) c in
    if c.signals_blocked
    then c
    else if to_bool (value "valid" license)
    then put_uplink nothing told
    else told
