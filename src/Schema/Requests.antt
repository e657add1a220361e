-- ===== src/Schema/Requests.antt =====
-- src/schema.hpp: class DownlinkRequestBody, which an ingress source sends. What its getters return, as a
-- record that they read from the JSON, the object that its setters write, and `isValid`.
use mathlib.Core.Bool.{and-false}
use src_link.Prelude.Int.{ℤ}
use src_link.Schema.Json.{
  obj, every, arr, is_array, truth, is_bool, is_double, num, items, to_bool, to_int, elements,
  to_array, is_string, str, Value, to_string, set_all, JsonObject, value,
}
use src_link.Prelude.{some, refl, [], false, ap, ◌≡◌, ◌∷◌, ◌&&◌, Bool, List, String}

pub record DownlinkRequestBody : Type 0 where
  pub stage_id : String
  pub seat_name : String
  pub source_name : String
  pub protocol : String
  pub port : ℤ
  pub stream_id : String
  pub parameters : String
  pub relay : Bool
  pub max_bitrate : ℤ
  pub min_bitrate : ℤ
  pub width : ℤ
  pub height : ℤ
  pub revision : ℤ
  pub lan_server : String
  pub relay_apps : List Value

unfoldable pub downlink_request_body : JsonObject → DownlinkRequestBody
downlink_request_body o = record {
  stage_id = to_string (value "stage_id" o);
  seat_name = to_string (value "seat_name" o);
  source_name = to_string (value "source_name" o);
  protocol = to_string (value "protocol" o);
  port = to_int (value "port" o);
  stream_id = to_string (value "stream_id" o);
  parameters = to_string (value "parameters" o);
  relay = to_bool (value "relay" o);
  max_bitrate = to_int (value "max_bitrate" o);
  min_bitrate = to_int (value "min_bitrate" o);
  width = to_int (value "width" o);
  height = to_int (value "height" o);
  revision = to_int (value "revision" o);
  lan_server = to_string (value "lan_server" o);
  relay_apps = to_array (value "relay_apps" o);
}

unfoldable pub downlink_request_body_object : DownlinkRequestBody → JsonObject
downlink_request_body_object r = set_all (
    ("stage_id", str r.stage_id)
    ∷ ("seat_name", str r.seat_name)
    ∷ ("source_name", str r.source_name)
    ∷ ("protocol", str r.protocol)
    ∷ ("port", num r.port)
    ∷ ("stream_id", str r.stream_id)
    ∷ ("parameters", str r.parameters)
    ∷ ("relay", truth r.relay)
    ∷ ("max_bitrate", num r.max_bitrate)
    ∷ ("min_bitrate", num r.min_bitrate)
    ∷ ("width", num r.width)
    ∷ ("height", num r.height)
    ∷ ("revision", num r.revision)
    ∷ ("lan_server", str r.lan_server)
    ∷ ("relay_apps", arr (items r.relay_apps))
    ∷ [])

-- `every` reads each element as an object before it gives it to the predicate.
unfoldable pub downlink_request_body_valid : JsonObject → Bool
downlink_request_body_valid o =
    is_string (value "stage_id" o)
    && is_string (value "seat_name" o)
    && is_string (value "source_name" o)
    && is_string (value "protocol" o)
    && is_double (value "port" o)
    && is_string (value "stream_id" o)
    && is_string (value "passphrase" o)
    && is_string (value "parameters" o)
    && is_bool (value "relay" o)
    && is_double (value "max_bitrate" o)
    && is_double (value "min_bitrate" o)
    && is_double (value "width" o)
    && is_double (value "height" o)
    && is_double (value "revision" o)
    && is_string (value "lan_server" o)
    && is_array (value "relay_apps" o)
    && every (λ app. is_string (some (obj app))) (to_array (value "relay_apps" o))

elements-items : (vs : List Value) → elements (items vs) ≡ vs
elements-items [] = refl
elements-items (v ∷ vs) = ap (λ r. v ∷ r) (elements-items vs)

-- A request that the setters write is read back as it was, but it is never valid: `isValid` wants
-- a passphrase, which no setter writes. Nor is any object valid whose list of relay applications
-- has an element.
pub downlink_request_body-read :
    (r : DownlinkRequestBody) (o : JsonObject) (app : Value) (apps : List Value)
    → to_array (value "relay_apps" o) ≡ app ∷ apps
    → (downlink_request_body (downlink_request_body_object r) ≡ r)
      × (downlink_request_body_valid (downlink_request_body_object r) ≡ false)
      × (downlink_request_body_valid o ≡ false)
unfolding downlink_request_body downlink_request_body_object downlink_request_body_valid value
    set_all
downlink_request_body-read r o app apps h = (
  ap (λ (l : List Value). record r { relay_apps = l }) (elements-items r.relay_apps),
  refl,
  rw h (simp and-false),
)
