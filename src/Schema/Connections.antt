-- ===== src/Schema/Connections.antt =====
-- src/schema.hpp: the connections of a stage, and what an uplink and a downlink have of them. Of each
-- class: what its getters return, as a record that they read from the JSON, the object that its
-- setters write, and `isValid`. The counts of a connection are natural numbers.
use src_link.Prelude.Int.{pos, pos_part}
use src_link.Schema.Stages.{stage-read, stage_valid, stage_object, stage, Stage}
use src_link.Prelude.{
  refl, some, arith, [], none, String, map, ◌∷◌, true, ◌&&◌, ℕ, if◌then◌else◌, ◌≡◌, List, Bool,
  Option,
}
use src_link.Schema.Json.{
  every, array_of-read, array_of, truth, to_array, is_array, is_bool, arr, is_double, num, to_int,
  objects, is_empty, is_string, maybe, obj, str, to_bool, set_all, to_string, Value, to_object,
  value, JsonObject,
}
use src_link.Schema.{UplinkInfo, StageConnection}
use src_link.Schema.Allocations.{
  stage_seat_allocation-read, connection_advices_valid, connection_advices_object,
  stage_seat_allocation_valid, stage_seat_allocation_object, connection_advices,
  StageSeatAllocation, stage_seat_allocation,
}

abbrev to_count : Option Value → ℕ
to_count v = pos_part (to_int v)

unfoldable pub stage_connection : JsonObject → StageConnection
stage_connection o = record {
  id = to_string (value "_id" o);
  stage_id = to_string (value "stage_id" o);
  seat_name = to_string (value "seat_name" o);
  source_name = to_string (value "source_name" o);
  protocol = to_string (value "protocol" o);
  server = to_string (value "server" o);
  port = to_count (value "port" o);
  stream_id = to_string (value "stream_id" o);
  passphrase = to_string (value "passphrase" o);
  parameters = to_string (value "parameters" o);
  relay = to_bool (value "relay" o);
  max_bitrate = to_count (value "max_bitrate" o);
  min_bitrate = to_count (value "min_bitrate" o);
  width = to_count (value "width" o);
  height = to_count (value "height" o);
  revision = to_count (value "revision" o);
  disabled = to_bool (value "disabled" o);
  allocation_id = to_string (value "allocation_id" o);
  unreachable = (connection_advices (to_object (value "connection_advices" o))).unreachable;
  lan_server = to_string (value "lan_server" o);
  latency = to_count (value "latency" o);
  owner_user_id = to_string (value "owner_user_id" o);
  auth_username = to_string (value "auth_username" o);
  relay_app = to_string (value "relay_app" o);
}

unfoldable pub stage_connection_object : StageConnection → JsonObject
stage_connection_object r = set_all (
    ("_id", str r.id)
    ∷ ("stage_id", str r.stage_id)
    ∷ ("seat_name", str r.seat_name)
    ∷ ("source_name", str r.source_name)
    ∷ ("protocol", str r.protocol)
    ∷ ("server", str r.server)
    ∷ ("port", num (pos r.port))
    ∷ ("stream_id", str r.stream_id)
    ∷ ("passphrase", str r.passphrase)
    ∷ ("parameters", str r.parameters)
    ∷ ("relay", truth r.relay)
    ∷ ("max_bitrate", num (pos r.max_bitrate))
    ∷ ("min_bitrate", num (pos r.min_bitrate))
    ∷ ("width", num (pos r.width))
    ∷ ("height", num (pos r.height))
    ∷ ("revision", num (pos r.revision))
    ∷ ("disabled", truth r.disabled)
    ∷ ("allocation_id", str r.allocation_id)
    ∷ (
      "connection_advices",
      obj (connection_advices_object (record { unreachable = r.unreachable })),
    )
    ∷ ("lan_server", str r.lan_server)
    ∷ ("latency", num (pos r.latency))
    ∷ ("owner_user_id", str r.owner_user_id)
    ∷ ("auth_username", str r.auth_username)
    ∷ ("relay_app", str r.relay_app)
    ∷ [])

unfoldable pub stage_connection_valid : JsonObject → Bool
stage_connection_valid o =
    is_string (value "_id" o)
    && is_string (value "stage_id" o)
    && is_string (value "seat_name" o)
    && is_string (value "source_name" o)
    && is_string (value "protocol" o)
    && is_string (value "server" o)
    && is_double (value "port" o)
    && is_string (value "stream_id" o)
    && is_string (value "passphrase" o)
    && is_string (value "parameters" o)
    && is_bool (value "relay" o)
    && is_double (value "max_bitrate" o)
    && is_double (value "min_bitrate" o)
    && is_double (value "width" o)
    && is_double (value "height" o)
    && is_double (value "revision" o)
    && maybe (value "disabled" o) (is_bool (value "disabled" o))
    && maybe (value "allocation_id" o) (is_string (value "allocation_id" o))
    && maybe (value "connection_advices" o)
        (connection_advices_valid (to_object (value "connection_advices" o)))
    && maybe (value "lan_server" o) (is_string (value "lan_server" o))
    && maybe (value "latency" o) (is_double (value "latency" o))
    && is_string (value "owner_user_id" o)
    && maybe (value "auth_username" o) (is_string (value "auth_username" o))
    && maybe (value "relay_app" o) (is_string (value "relay_app" o))

pub stage_connection-read :
    (r : StageConnection)
    → (stage_connection (stage_connection_object r) ≡ r)
      × (stage_connection_valid (stage_connection_object r) ≡ true)
unfolding stage_connection stage_connection_object stage_connection_valid value set_all
    connection_advices connection_advices_object connection_advices_valid
stage_connection-read r = (refl, refl)

-- class UplinkInfo, with all of its allocation and its stage.
pub record UplinkResource : Type 0 where
  pub allocation : StageSeatAllocation
  pub stage : Stage
  pub connections : List StageConnection
  pub public_address : String

unfoldable pub uplink_resource : JsonObject → UplinkResource
uplink_resource o = record {
  allocation = stage_seat_allocation (to_object (value "allocation" o));
  stage = stage (to_object (value "stage" o));
  connections = map stage_connection (objects (to_array (value "connections" o)));
  public_address = to_string (value "public_address" o);
}

unfoldable pub uplink_resource_object : UplinkResource → JsonObject
uplink_resource_object r = set_all (
    ("allocation", obj (stage_seat_allocation_object r.allocation))
    ∷ ("stage", obj (stage_object r.stage))
    ∷ ("connections", arr (array_of stage_connection_object r.connections))
    ∷ ("public_address", str r.public_address)
    ∷ [])

unfoldable pub uplink_resource_valid : JsonObject → Bool
uplink_resource_valid o =
    maybe (value "allocation" o) (stage_seat_allocation_valid (to_object (value "allocation" o)))
    && maybe (value "stage" o) (stage_valid (to_object (value "stage" o)))
    && is_array (value "connections" o)
    && every stage_connection_valid (to_array (value "connections" o))
    && is_string (value "public_address" o)

-- An uplink that the setters write, with its allocation, its stage and its connections, is valid,
-- and the getters return what was set.
pub uplink_resource-read :
    (r : UplinkResource)
    → (uplink_resource (uplink_resource_object r) ≡ r)
      × (uplink_resource_valid (uplink_resource_object r) ≡ true)
unfolding uplink_resource uplink_resource_object uplink_resource_valid value set_all
uplink_resource-read r =
    let allocation = stage_seat_allocation-read r.allocation in
    let stage = stage-read r.stage in
    let connections =
      array_of-read stage_connection stage_connection_object stage_connection_valid
        stage_connection-read r.connections in
    (ground arith, ground arith)

-- What the outputs read of an uplink; the empty object is no uplink.
unfoldable pub uplink_info : JsonObject → Option UplinkInfo
unfolding uplink_resource stage_seat_allocation
uplink_info o =
    let r = uplink_resource o in
    if is_empty o
    then none
    else some (record {
      lan = r.allocation.lan;
      connections = r.connections;
      public_address = r.public_address;
    })

-- class DownlinkInfo.
pub record DownlinkInfo : Type 0 where
  pub connection : StageConnection

unfoldable pub downlink_info : JsonObject → DownlinkInfo
downlink_info o = record { connection = stage_connection (to_object (value "connection" o)) }

unfoldable pub downlink_info_object : DownlinkInfo → JsonObject
downlink_info_object r = set_all (("connection", obj (stage_connection_object r.connection)) ∷ [])

unfoldable pub downlink_info_valid : JsonObject → Bool
downlink_info_valid o = stage_connection_valid (to_object (value "connection" o))

pub downlink_info-read :
    (r : DownlinkInfo)
    → (downlink_info (downlink_info_object r) ≡ r)
      × (downlink_info_valid (downlink_info_object r) ≡ true)
unfolding downlink_info downlink_info_object downlink_info_valid value set_all
downlink_info-read r =
    let connection = stage_connection-read r.connection in (ground arith, ground arith)
