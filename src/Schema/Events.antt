-- ===== src/Schema/Events.antt =====
-- src/schema.hpp: the events of a party. Of each class: what its getters return, as a record that they
-- read from the JSON, the object that its setters write, and `isValid`. A date is kept as its text.
-- class PartyEvent.
use src_link.Schema.Accounts.{
  account_view_object, account_view_valid, account_view-read, account_view, AccountView,
}
use src_link.Schema.Stages.{
  stage_view_object, stage_view_valid, stage_view-read, stage_view, StageView,
}
use src_link.Schema.Parties.{
  party_view_object, party_view_valid, party_view-read, party_view, PartyView,
}
use src_link.Prelude.Int.{ℤ}
use src_link.Prelude.{arith, [], refl, true, ◌∷◌, ◌&&◌, ◌≡◌, Bool, String}
use src_link.Schema.Json.{
  is_double, obj, maybe, num, to_object, is_string, str, to_int, set_all, to_string, value,
  JsonObject,
}

pub record PartyEvent : Type 0 where
  pub id : String
  pub name : String
  pub description : String
  pub start_time : String
  pub end_time : String
  pub picture_id : String
  pub status : String
  pub status_changed_at : String
  pub capacity : ℤ
  pub party_view : PartyView
  pub stage_view : StageView
  pub owner_account_view : AccountView
  pub owner_user_id : String

unfoldable pub party_event : JsonObject → PartyEvent
party_event o = record {
  id = to_string (value "_id" o);
  name = to_string (value "name" o);
  description = to_string (value "description" o);
  start_time = to_string (value "start_time" o);
  end_time = to_string (value "end_time" o);
  picture_id = to_string (value "picture_id" o);
  status = to_string (value "status" o);
  status_changed_at = to_string (value "status_changed_at" o);
  capacity = to_int (value "capacity" o);
  party_view = party_view (to_object (value "party_view" o));
  stage_view = stage_view (to_object (value "stage_view" o));
  owner_account_view = account_view (to_object (value "owner_account_view" o));
  owner_user_id = to_string (value "owner_user_id" o);
}

unfoldable pub party_event_object : PartyEvent → JsonObject
party_event_object r = set_all (
    ("_id", str r.id)
    ∷ ("name", str r.name)
    ∷ ("description", str r.description)
    ∷ ("start_time", str r.start_time)
    ∷ ("end_time", str r.end_time)
    ∷ ("picture_id", str r.picture_id)
    ∷ ("status", str r.status)
    ∷ ("status_changed_at", str r.status_changed_at)
    ∷ ("capacity", num r.capacity)
    ∷ ("party_view", obj (party_view_object r.party_view))
    ∷ ("stage_view", obj (stage_view_object r.stage_view))
    ∷ ("owner_account_view", obj (account_view_object r.owner_account_view))
    ∷ ("owner_user_id", str r.owner_user_id)
    ∷ [])

unfoldable pub party_event_valid : JsonObject → Bool
party_event_valid o =
    is_string (value "_id" o)
    && is_string (value "name" o)
    && maybe (value "description" o) (is_string (value "description" o))
    && is_string (value "start_time" o)
    && maybe (value "end_time" o) (is_string (value "end_time" o))
    && maybe (value "picture_id" o) (is_string (value "picture_id" o))
    && is_string (value "status" o)
    && is_string (value "status_changed_at" o)
    && maybe (value "capacity" o) (is_double (value "capacity" o))
    && party_view_valid (to_object (value "party_view" o))
    && stage_view_valid (to_object (value "stage_view" o))
    && account_view_valid (to_object (value "owner_account_view" o))
    && is_string (value "owner_user_id" o)

pub party_event-read :
    (r : PartyEvent)
    → (party_event (party_event_object r) ≡ r) × (party_event_valid (party_event_object r) ≡ true)
unfolding party_event party_event_object party_event_valid value set_all
party_event-read r =
    let party_view = party_view-read r.party_view in
    let stage_view = stage_view-read r.stage_view in
    let owner_account_view = account_view-read r.owner_account_view in (ground arith, ground arith)

-- class PartyEventView.
pub record PartyEventView : Type 0 where
  pub name : String
  pub picture_id : String
  pub description : String
  pub status : String
  pub status_changed_at : String

unfoldable pub party_event_view : JsonObject → PartyEventView
party_event_view o = record {
  name = to_string (value "name" o);
  picture_id = to_string (value "picture_id" o);
  description = to_string (value "description" o);
  status = to_string (value "status" o);
  status_changed_at = to_string (value "status_changed_at" o);
}

unfoldable pub party_event_view_object : PartyEventView → JsonObject
party_event_view_object r = set_all (
    ("name", str r.name)
    ∷ ("picture_id", str r.picture_id)
    ∷ ("description", str r.description)
    ∷ ("status", str r.status)
    ∷ ("status_changed_at", str r.status_changed_at)
    ∷ [])

unfoldable pub party_event_view_valid : JsonObject → Bool
party_event_view_valid o =
    is_string (value "name" o)
    && maybe (value "picture_id" o) (is_string (value "picture_id" o))
    && maybe (value "description" o) (is_string (value "description" o))
    && is_string (value "status" o)
    && is_string (value "status_changed_at" o)

pub party_event_view-read :
    (r : PartyEventView)
    → (party_event_view (party_event_view_object r) ≡ r)
      × (party_event_view_valid (party_event_view_object r) ≡ true)
unfolding party_event_view party_event_view_object party_event_view_valid value set_all
party_event_view-read r = (refl, refl)
