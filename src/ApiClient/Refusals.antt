-- ===== src/ApiClient/Refusals.antt =====
-- Replies whose body is no array (the handlers of src/api-client.cpp).
use src_link.Schema.Connections.{downlink_info_valid, uplink_resource_valid}
use src_link.Schema.Stages.{stage_valid}
use src_link.Schema.Participants.{party_event_participant_valid}
use src_link.Schema.Events.{party_event_valid}
use src_link.Schema.Parties.{party_valid}
use src_link.Schema.Accounts.{account_info_valid}
use src_link.Schema.Json.{null, truth, num, real, str, arr, obj, to_array, is_array, Value}
use src_link.ApiClient.Replies.{array_in, is_ok, accepted_all, accepted, Reply}
use src_link.Prelude.{refl, none, [], false, some, arith, true, not, ◌≡◌, Option, Bool, List}
use src_link.ApiClient.Events.{reply}
use src_link.ApiClient.State.{
  get_uplink, get_account_info, redeem_invite_code, delete_uplink, put_status, put_uplink_info,
  delete_downlink, get_stages, put_downlink, get_participants, put_downlink_status,
  get_party_events, get_parties, get_downlink, no_error, ApiRequest, Client,
}

abbrev pub refused : ApiRequest → Reply → Bool
refused get_account_info r = not (accepted account_info_valid r)
refused get_parties r = not (accepted_all party_valid r)
refused get_party_events r = not (accepted_all party_event_valid r)
refused get_participants r = not (accepted_all party_event_participant_valid r)
refused get_stages r = not (accepted_all stage_valid r)
refused get_uplink r = not (accepted uplink_resource_valid r)
refused (get_downlink uuid) r = not (accepted downlink_info_valid r)
refused (put_downlink_status uuid) r = not (accepted downlink_info_valid r)
refused (put_downlink uuid body) r = not (accepted downlink_info_valid r)
refused (delete_downlink uuid parallel) r = not (is_ok r.error)
refused (put_uplink_info participant status) r = not (accepted uplink_resource_valid r)
refused (put_status status) r = not (accepted uplink_resource_valid r)
refused (delete_uplink parallel) r = not (is_ok r.error)
refused (redeem_invite_code code) r = not (is_ok r.error)

-- The array that a request asks for.
abbrev pub listed : ApiRequest → Client → Option (List Value)
listed get_parties c = some c.parties
listed get_party_events c = some c.party_events
listed get_participants c = some c.participants
listed get_stages c = some c.stages
listed _ c = none

abbrev pub is_list : ApiRequest → Bool
is_list get_parties = true
is_list get_party_events = true
is_list get_participants = true
is_list get_stages = true
is_list _ = false

items_of : (v : Value) → is_array (some v) ≡ false → to_array (some v) ≡ []
items_of null b = refl
items_of (truth x) b = refl
items_of (num z) b = refl
items_of (real s) b = refl
items_of (str s) b = refl
items_of (arr vs) b = cc
items_of (obj o) b = refl

none_of : (r : Reply) → is_array (some r.body) ≡ false → array_in r ≡ []
none_of r b = items_of r.body b

-- A reply without error that is no array, such as a page of text, is not refused: the array that was
-- asked for becomes empty.
pub reply-garbled :
    (q : ApiRequest) (r : Reply) (c : Client)
    → is_list q ≡ true
    → r.error ≡ no_error
    → is_array (some r.body) ≡ false
    → (refused q r ≡ false) × (listed q (reply q r c) ≡ some [])
unfolding reply
reply-garbled get_parties r c h e b = (ground (arith, none_of r b), ground (arith, none_of r b))
reply-garbled get_party_events r c h e b =
    (ground (arith, none_of r b), ground (arith, none_of r b))
reply-garbled get_participants r c h e b =
    (ground (arith, none_of r b), ground (arith, none_of r b))
reply-garbled get_stages r c h e b = (ground (arith, none_of r b), ground (arith, none_of r b))
reply-garbled get_account_info r c h e b = cc
reply-garbled get_uplink r c h e b = cc
reply-garbled (get_downlink u) r c h e b = cc
reply-garbled (put_downlink_status u) r c h e b = cc
reply-garbled (put_downlink u o) r c h e b = cc
reply-garbled (delete_downlink u p) r c h e b = cc
reply-garbled (put_uplink_info p s) r c h e b = cc
reply-garbled (put_status s) r c h e b = cc
reply-garbled (delete_uplink p) r c h e b = cc
reply-garbled (redeem_invite_code x) r c h e b = cc
