-- ===== src/Schema/Participants.antt =====
-- src/schema.hpp: the participants of an event, and the result of an invite code. Of each class:
-- what its getters return, as a record that they read from the JSON, the object that its setters
-- write, and `isValid`. A date is kept as its text. class PartyEventParticipant.
use src_link.Schema.Accounts.{
  account_view_valid, account_view_object, account_view-read, account_view, AccountView,
}
use src_link.Schema.Stages.{
  stage_seat_view_valid, stage_seat_view_object, stage_seat_view-read, stage_seat_view,
  stage_view_object, StageSeatView, stage_view-read, stage_view_valid, stage_view, StageView,
}
use src_link.Schema.Events.{
  party_event_view_valid, party_event_view_object, party_event_view-read, party_event_view,
  PartyEventView,
}
use src_link.Prelude.{[], arith, map, ◌∷◌, true, ◌&&◌, ◌≡◌, List, Bool, String}
use src_link.Schema.Parties.{
  party_view_valid, party_view_object, party_member-read, party_member_valid, party-read,
  party_member_object, party_view-read, party_view, party_object, party_member, PartyView,
  party_valid, party, PartyMember, Party,
}
use src_link.Schema.Json.{
  array_of, every, to_array, array_of-read, arr, is_bool, is_array, objects, maybe, truth, str,
  is_string, to_object, to_bool, obj, set_all, to_string, JsonObject, value,
}

pub record PartyEventParticipant : Type 0 where
  pub id : String
  pub party_id : String
  pub party_event_id : String
  pub stage_id : String
  pub member_id : String
  pub account_id : String
  pub seat_name : String
  pub disabled : Bool
  pub lan : Bool
  pub party_view : PartyView
  pub party_event_view : PartyEventView
  pub stage_view : StageView
  pub account_view : AccountView
  pub stage_seat_view : StageSeatView
  pub byol : Bool
  pub owner_user_id : String
  pub owner_account_view : AccountView

unfoldable pub party_event_participant : JsonObject → PartyEventParticipant
party_event_participant o = record {
  id = to_string (value "_id" o);
  party_id = to_string (value "party_id" o);
  party_event_id = to_string (value "party_event_id" o);
  stage_id = to_string (value "stage_id" o);
  member_id = to_string (value "member_id" o);
  account_id = to_string (value "account_id" o);
  seat_name = to_string (value "seat_name" o);
  disabled = to_bool (value "disabled" o);
  lan = to_bool (value "lan" o);
  party_view = party_view (to_object (value "party_view" o));
  party_event_view = party_event_view (to_object (value "party_event_view" o));
  stage_view = stage_view (to_object (value "stage_view" o));
  account_view = account_view (to_object (value "account_view" o));
  stage_seat_view = stage_seat_view (to_object (value "stage_seat_view" o));
  byol = to_bool (value "byol" o);
  owner_user_id = to_string (value "owner_user_id" o);
  owner_account_view = account_view (to_object (value "owner_account_view" o));
}

unfoldable pub party_event_participant_object : PartyEventParticipant → JsonObject
party_event_participant_object r = set_all (
    ("_id", str r.id)
    ∷ ("party_id", str r.party_id)
    ∷ ("party_event_id", str r.party_event_id)
    ∷ ("stage_id", str r.stage_id)
    ∷ ("member_id", str r.member_id)
    ∷ ("account_id", str r.account_id)
    ∷ ("seat_name", str r.seat_name)
    ∷ ("disabled", truth r.disabled)
    ∷ ("lan", truth r.lan)
    ∷ ("party_view", obj (party_view_object r.party_view))
    ∷ ("party_event_view", obj (party_event_view_object r.party_event_view))
    ∷ ("stage_view", obj (stage_view_object r.stage_view))
    ∷ ("account_view", obj (account_view_object r.account_view))
    ∷ ("stage_seat_view", obj (stage_seat_view_object r.stage_seat_view))
    ∷ ("byol", truth r.byol)
    ∷ ("owner_user_id", str r.owner_user_id)
    ∷ ("owner_account_view", obj (account_view_object r.owner_account_view))
    ∷ [])

unfoldable pub party_event_participant_valid : JsonObject → Bool
party_event_participant_valid o =
    is_string (value "_id" o)
    && is_string (value "party_id" o)
    && is_string (value "party_event_id" o)
    && is_string (value "stage_id" o)
    && maybe (value "member_id" o) (is_string (value "member_id" o))
    && maybe (value "account_id" o) (is_string (value "account_id" o))
    && maybe (value "seat_name" o) (is_string (value "seat_name" o))
    && maybe (value "disabled" o) (is_bool (value "disabled" o))
    && maybe (value "lan" o) (is_bool (value "lan" o))
    && maybe (value "byol" o) (is_bool (value "byol" o))
    && stage_view_valid (to_object (value "stage_view" o))
    && party_view_valid (to_object (value "party_view" o))
    && party_event_view_valid (to_object (value "party_event_view" o))
    && maybe (value "account_view" o) (account_view_valid (to_object (value "account_view" o)))
    && maybe (value "stage_seat_view" o)
        (stage_seat_view_valid (to_object (value "stage_seat_view" o)))
    && is_string (value "owner_user_id" o)
    && maybe (value "owner_account_view" o)
        (account_view_valid (to_object (value "owner_account_view" o)))

pub party_event_participant-read :
    (r : PartyEventParticipant)
    → (party_event_participant (party_event_participant_object r) ≡ r)
      × (party_event_participant_valid (party_event_participant_object r) ≡ true)
unfolding party_event_participant party_event_participant_object party_event_participant_valid value
    set_all
party_event_participant-read r =
    let party_view = party_view-read r.party_view in
    let party_event_view = party_event_view-read r.party_event_view in
    let stage_view = stage_view-read r.stage_view in
    let account_view = account_view-read r.account_view in
    let stage_seat_view = stage_seat_view-read r.stage_seat_view in
    let owner_account_view = account_view-read r.owner_account_view in (ground arith, ground arith)

-- class MemberActivationResult.
pub record MemberActivationResult : Type 0 where
  pub party : Party
  pub member : PartyMember
  pub participants : List PartyEventParticipant

unfoldable pub member_activation_result : JsonObject → MemberActivationResult
member_activation_result o = record {
  party = party (to_object (value "party" o));
  member = party_member (to_object (value "member" o));
  participants = map party_event_participant (objects (to_array (value "participants" o)));
}

unfoldable pub member_activation_result_object : MemberActivationResult → JsonObject
member_activation_result_object r = set_all (
    ("party", obj (party_object r.party))
    ∷ ("member", obj (party_member_object r.member))
    ∷ ("participants", arr (array_of party_event_participant_object r.participants))
    ∷ [])

unfoldable pub member_activation_result_valid : JsonObject → Bool
member_activation_result_valid o =
    party_valid (to_object (value "party" o))
    && party_member_valid (to_object (value "member" o))
    && maybe (value "participants" o) (
        is_array (value "participants" o)
        && every party_event_participant_valid (to_array (value "participants" o)))

-- The result of an invite code that the setters write, with its party, member and participants, is
-- valid, and the getters return what was set.
pub member_activation_result-read :
    (r : MemberActivationResult)
    → (member_activation_result (member_activation_result_object r) ≡ r)
      × (member_activation_result_valid (member_activation_result_object r) ≡ true)
unfolding member_activation_result member_activation_result_object member_activation_result_valid
    value set_all
member_activation_result-read r =
    let party = party-read r.party in
    let member = party_member-read r.member in
    let participants =
      array_of-read party_event_participant party_event_participant_object
        party_event_participant_valid party_event_participant-read r.participants in
    (ground arith, ground arith)
