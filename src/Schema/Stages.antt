-- ===== src/Schema/Stages.antt =====
-- src/schema.hpp: stages with their sources and seats. Of each class: what its getters return, as
-- a record that they read from the JSON, the object that its setters write, and `isValid`. A date
-- is kept as its text. class StageSource.
use src_link.Schema.Accounts.{
  account_view_valid, account_view_object, account_view, account_view-read, AccountView,
}
use src_link.Prelude.Int.{ℤ}
use src_link.Prelude.{arith, ◌&&◌, refl, [], ◌∷◌, map, true, Bool, ◌≡◌, List, String}
use src_link.Schema.Json.{
  to_object, every, obj, is_array, array_of, to_array, is_double, objects, array_of-read, arr, num,
  maybe, is_string, to_int, to_string, str, JsonObject, set_all, value,
}

pub record StageSource : Type 0 where
  pub name : String
  pub display_name : String
  pub description : String

unfoldable pub stage_source : JsonObject → StageSource
stage_source o = record {
  name = to_string (value "name" o);
  display_name = to_string (value "display_name" o);
  description = to_string (value "description" o);
}

unfoldable pub stage_source_object : StageSource → JsonObject
stage_source_object r = set_all (
    ("name", str r.name)
    ∷ ("display_name", str r.display_name)
    ∷ ("description", str r.description)
    ∷ [])

unfoldable pub stage_source_valid : JsonObject → Bool
stage_source_valid o =
    is_string (value "name" o)
    && is_string (value "display_name" o)
    && maybe (value "description" o) (is_string (value "description" o))

pub stage_source-read :
    (r : StageSource)
    → (stage_source (stage_source_object r) ≡ r)
      × (stage_source_valid (stage_source_object r) ≡ true)
unfolding stage_source stage_source_object stage_source_valid value set_all
stage_source-read r = (refl, refl)

-- class StageSeat.
pub record StageSeat : Type 0 where
  pub name : String
  pub display_name : String

unfoldable pub stage_seat : JsonObject → StageSeat
stage_seat o = record {
  name = to_string (value "name" o);
  display_name = to_string (value "display_name" o);
}

unfoldable pub stage_seat_object : StageSeat → JsonObject
stage_seat_object r = set_all (("name", str r.name) ∷ ("display_name", str r.display_name) ∷ [])

unfoldable pub stage_seat_valid : JsonObject → Bool
stage_seat_valid o = is_string (value "name" o) && is_string (value "display_name" o)

pub stage_seat-read :
    (r : StageSeat)
    → (stage_seat (stage_seat_object r) ≡ r) × (stage_seat_valid (stage_seat_object r) ≡ true)
unfolding stage_seat stage_seat_object stage_seat_valid value set_all
stage_seat-read r = (refl, refl)

-- class RelayServer.
pub record RelayServer : Type 0 where
  pub address : String
  pub port : ℤ
  pub app : String

unfoldable pub relay_server : JsonObject → RelayServer
relay_server o = record {
  address = to_string (value "address" o);
  port = to_int (value "port" o);
  app = to_string (value "app" o);
}

unfoldable pub relay_server_object : RelayServer → JsonObject
relay_server_object r =
    set_all (("address", str r.address) ∷ ("port", num r.port) ∷ ("app", str r.app) ∷ [])

unfoldable pub relay_server_valid : JsonObject → Bool
relay_server_valid o =
    is_string (value "address" o) && is_double (value "port" o) && is_string (value "app" o)

pub relay_server-read :
    (r : RelayServer)
    → (relay_server (relay_server_object r) ≡ r)
      × (relay_server_valid (relay_server_object r) ≡ true)
unfolding relay_server relay_server_object relay_server_valid value set_all
relay_server-read r = (refl, refl)

-- class StageSeatView.
pub record StageSeatView : Type 0 where
  pub display_name : String

unfoldable pub stage_seat_view : JsonObject → StageSeatView
stage_seat_view o = record { display_name = to_string (value "display_name" o) }

unfoldable pub stage_seat_view_object : StageSeatView → JsonObject
stage_seat_view_object r = set_all (("display_name", str r.display_name) ∷ [])

unfoldable pub stage_seat_view_valid : JsonObject → Bool
stage_seat_view_valid o = maybe (value "display_name" o) (is_string (value "display_name" o))

pub stage_seat_view-read :
    (r : StageSeatView)
    → (stage_seat_view (stage_seat_view_object r) ≡ r)
      × (stage_seat_view_valid (stage_seat_view_object r) ≡ true)
unfolding stage_seat_view stage_seat_view_object stage_seat_view_valid value set_all
stage_seat_view-read r = (refl, refl)

-- class Stage.
pub record Stage : Type 0 where
  pub id : String
  pub name : String
  pub description : String
  pub picture_id : String
  pub sources : List StageSource
  pub seats : List StageSeat
  pub relay_servers : List RelayServer
  pub owner_account_view : AccountView
  pub owner_user_id : String

unfoldable pub stage : JsonObject → Stage
stage o = record {
  id = to_string (value "_id" o);
  name = to_string (value "name" o);
  description = to_string (value "description" o);
  picture_id = to_string (value "picture_id" o);
  sources = map stage_source (objects (to_array (value "sources" o)));
  seats = map stage_seat (objects (to_array (value "seats" o)));
  relay_servers = map relay_server (objects (to_array (value "relay_servers" o)));
  owner_account_view = account_view (to_object (value "owner_account_view" o));
  owner_user_id = to_string (value "owner_user_id" o);
}

unfoldable pub stage_object : Stage → JsonObject
stage_object r = set_all (
    ("_id", str r.id)
    ∷ ("name", str r.name)
    ∷ ("description", str r.description)
    ∷ ("picture_id", str r.picture_id)
    ∷ ("sources", arr (array_of stage_source_object r.sources))
    ∷ ("seats", arr (array_of stage_seat_object r.seats))
    ∷ ("relay_servers", arr (array_of relay_server_object r.relay_servers))
    ∷ ("owner_account_view", obj (account_view_object r.owner_account_view))
    ∷ ("owner_user_id", str r.owner_user_id)
    ∷ [])

unfoldable pub stage_valid : JsonObject → Bool
stage_valid o =
    is_string (value "_id" o)
    && is_string (value "name" o)
    && maybe (value "description" o) (is_string (value "description" o))
    && maybe (value "picture_id" o) (is_string (value "picture_id" o))
    && maybe (value "sources" o)
        (is_array (value "sources" o) && every stage_source_valid (to_array (value "sources" o)))
    && maybe (value "seats" o)
        (is_array (value "seats" o) && every stage_seat_valid (to_array (value "seats" o)))
    && maybe (value "relay_servers" o) (
        is_array (value "relay_servers" o)
        && every relay_server_valid (to_array (value "relay_servers" o)))
    && account_view_valid (to_object (value "owner_account_view" o))
    && is_string (value "owner_user_id" o)

pub stage-read : (r : Stage) → (stage (stage_object r) ≡ r) × (stage_valid (stage_object r) ≡ true)
unfolding stage stage_object stage_valid value set_all
stage-read r =
    let sources =
      array_of-read stage_source stage_source_object stage_source_valid stage_source-read
        r.sources in
    let seats =
      array_of-read stage_seat stage_seat_object stage_seat_valid stage_seat-read r.seats in
    let relay_servers =
      array_of-read relay_server relay_server_object relay_server_valid relay_server-read
        r.relay_servers in
    let owner_account_view = account_view-read r.owner_account_view in (ground arith, ground arith)

-- class StageView.
pub record StageView : Type 0 where
  pub name : String
  pub picture_id : String
  pub description : String

unfoldable pub stage_view : JsonObject → StageView
stage_view o = record {
  name = to_string (value "name" o);
  picture_id = to_string (value "picture_id" o);
  description = to_string (value "description" o);
}

unfoldable pub stage_view_object : StageView → JsonObject
stage_view_object r = set_all (
    ("name", str r.name)
    ∷ ("picture_id", str r.picture_id)
    ∷ ("description", str r.description)
    ∷ [])

unfoldable pub stage_view_valid : JsonObject → Bool
stage_view_valid o =
    is_string (value "name" o)
    && maybe (value "picture_id" o) (is_string (value "picture_id" o))
    && maybe (value "description" o) (is_string (value "description" o))

pub stage_view-read :
    (r : StageView)
    → (stage_view (stage_view_object r) ≡ r) × (stage_view_valid (stage_view_object r) ≡ true)
unfolding stage_view stage_view_object stage_view_valid value set_all
stage_view-read r = (refl, refl)
