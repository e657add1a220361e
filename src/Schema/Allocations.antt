-- ===== src/Schema/Allocations.antt =====
-- src/schema.hpp: the advices of a connection and the allocation of a seat. Of each class: what
-- its getters return, as a record that they read from the JSON, the object that its setters write,
-- and `isValid`. A date is kept as its text. class ConnectionAdvices.
use src_link.Prelude.Int.{ℤ}
use src_link.Schema.Json.{
  num, is_double, str, truth, to_int, is_bool, maybe, to_bool, to_string, is_string, set_all, value,
  JsonObject,
}
use src_link.Prelude.{[], refl, true, ◌∷◌, ◌&&◌, ◌≡◌, String, Bool}

pub record ConnectionAdvices : Type 0 where
  pub unreachable : Bool

unfoldable pub connection_advices : JsonObject → ConnectionAdvices
connection_advices o = record { unreachable = to_bool (value "unreachable" o) }

unfoldable pub connection_advices_object : ConnectionAdvices → JsonObject
connection_advices_object r = set_all (("unreachable", truth r.unreachable) ∷ [])

unfoldable pub connection_advices_valid : JsonObject → Bool
connection_advices_valid o = maybe (value "unreachable" o) (is_bool (value "unreachable" o))

pub connection_advices-read :
    (r : ConnectionAdvices)
    → (connection_advices (connection_advices_object r) ≡ r)
      × (connection_advices_valid (connection_advices_object r) ≡ true)
unfolding connection_advices connection_advices_object connection_advices_valid value set_all
connection_advices-read r = (refl, refl)

-- class StageSeatAllocation.
pub record StageSeatAllocation : Type 0 where
  pub id : String
  pub party_id : String
  pub party_event_id : String
  pub stage_id : String
  pub seat_name : String
  pub member_id : String
  pub participant_id : String
  pub account_id : String
  pub disabled : Bool
  pub lan : Bool
  pub latency : ℤ
  pub owner_user_id : String

unfoldable pub stage_seat_allocation : JsonObject → StageSeatAllocation
stage_seat_allocation o = record {
  id = to_string (value "_id" o);
  party_id = to_string (value "party_id" o);
  party_event_id = to_string (value "party_event_id" o);
  stage_id = to_string (value "stage_id" o);
  seat_name = to_string (value "seat_name" o);
  member_id = to_string (value "member_id" o);
  participant_id = to_string (value "participant_id" o);
  account_id = to_string (value "account_id" o);
  disabled = to_bool (value "disabled" o);
  lan = to_bool (value "lan" o);
  latency = to_int (value "latency" o);
  owner_user_id = to_string (value "owner_user_id" o);
}

unfoldable pub stage_seat_allocation_object : StageSeatAllocation → JsonObject
stage_seat_allocation_object r = set_all (
    ("_id", str r.id)
    ∷ ("party_id", str r.party_id)
    ∷ ("party_event_id", str r.party_event_id)
    ∷ ("stage_id", str r.stage_id)
    ∷ ("seat_name", str r.seat_name)
    ∷ ("member_id", str r.member_id)
    ∷ ("participant_id", str r.participant_id)
    ∷ ("account_id", str r.account_id)
    ∷ ("disabled", truth r.disabled)
    ∷ ("lan", truth r.lan)
    ∷ ("latency", num r.latency)
    ∷ ("owner_user_id", str r.owner_user_id)
    ∷ [])

unfoldable pub stage_seat_allocation_valid : JsonObject → Bool
stage_seat_allocation_valid o =
    is_string (value "_id" o)
    && is_string (value "party_id" o)
    && is_string (value "party_event_id" o)
    && is_string (value "stage_id" o)
    && is_string (value "seat_name" o)
    && is_string (value "member_id" o)
    && is_string (value "participant_id" o)
    && is_string (value "account_id" o)
    && maybe (value "disabled" o) (is_bool (value "disabled" o))
    && maybe (value "lan" o) (is_bool (value "lan" o))
    && maybe (value "latency" o) (is_double (value "latency" o))
    && is_string (value "owner_user_id" o)

pub stage_seat_allocation-read :
    (r : StageSeatAllocation)
    → (stage_seat_allocation (stage_seat_allocation_object r) ≡ r)
      × (stage_seat_allocation_valid (stage_seat_allocation_object r) ≡ true)
unfolding stage_seat_allocation stage_seat_allocation_object stage_seat_allocation_valid value
    set_all
stage_seat_allocation-read r = (refl, refl)
