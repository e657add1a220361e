-- ===== src/Schema/Messages.antt =====
-- src/schema.hpp: the messages of the web socket. Of each class: what its getters return, as a
-- record that they read from the JSON, the object that its setters write, and `isValid`. A date is
-- kept as its text. class WebSocketMessage.
use src_link.Prelude.{[], refl, true, ◌∷◌, ◌≡◌, ◌&&◌, Bool, String}
use src_link.Schema.Json.{
  is_bool, truth, is_object, obj, maybe, to_bool, str, is_string, to_object, to_string, set_all,
  JsonObject, value,
}

pub record WebSocketMessage : Type 0 where
  pub event : String
  pub reason : String
  pub name : String
  pub id : String
  pub payload : JsonObject
  pub continuous : Bool

unfoldable pub web_socket_message : JsonObject → WebSocketMessage
web_socket_message o = record {
  event = to_string (value "event" o);
  reason = to_string (value "reason" o);
  name = to_string (value "name" o);
  id = to_string (value "id" o);
  payload = to_object (value "payload" o);
  continuous = to_bool (value "continuous" o);
}

unfoldable pub web_socket_message_object : WebSocketMessage → JsonObject
web_socket_message_object r = set_all (
    ("event", str r.event)
    ∷ ("reason", str r.reason)
    ∷ ("name", str r.name)
    ∷ ("id", str r.id)
    ∷ ("payload", obj r.payload)
    ∷ ("continuous", truth r.continuous)
    ∷ [])

unfoldable pub web_socket_message_valid : JsonObject → Bool
web_socket_message_valid o =
    is_string (value "event" o)
    && maybe (value "reason" o) (is_string (value "reason" o))
    && maybe (value "name" o) (is_string (value "name" o))
    && maybe (value "id" o) (is_string (value "id" o))
    && maybe (value "payload" o) (is_object (value "payload" o))
    && maybe (value "continuous" o) (is_bool (value "continuous" o))

pub web_socket_message-read :
    (r : WebSocketMessage)
    → (web_socket_message (web_socket_message_object r) ≡ r)
      × (web_socket_message_valid (web_socket_message_object r) ≡ true)
unfolding web_socket_message web_socket_message_object web_socket_message_valid value set_all
web_socket_message-read r = (refl, refl)

-- class WsPortalMessage.
pub record WsPortalMessage : Type 0 where
  pub event : String
  pub reason : String
  pub name : String
  pub id : String
  pub payload : JsonObject
  pub continuous : Bool
  pub connection_id : String
  pub ws_portal_id : String

unfoldable pub ws_portal_message : JsonObject → WsPortalMessage
ws_portal_message o = record {
  event = to_string (value "event" o);
  reason = to_string (value "reason" o);
  name = to_string (value "name" o);
  id = to_string (value "id" o);
  payload = to_object (value "payload" o);
  continuous = to_bool (value "continuous" o);
  connection_id = to_string (value "connection_id" o);
  ws_portal_id = to_string (value "ws_portal_id" o);
}

unfoldable pub ws_portal_message_object : WsPortalMessage → JsonObject
ws_portal_message_object r = set_all (
    ("event", str r.event)
    ∷ ("reason", str r.reason)
    ∷ ("name", str r.name)
    ∷ ("id", str r.id)
    ∷ ("payload", obj r.payload)
    ∷ ("continuous", truth r.continuous)
    ∷ ("connection_id", str r.connection_id)
    ∷ ("ws_portal_id", str r.ws_portal_id)
    ∷ [])

unfoldable pub ws_portal_message_valid : JsonObject → Bool
ws_portal_message_valid o =
    web_socket_message_valid o
    && is_string (value "connection_id" o)
    && is_string (value "ws_portal_id" o)

pub ws_portal_message-read :
    (r : WsPortalMessage)
    → (ws_portal_message (ws_portal_message_object r) ≡ r)
      × (ws_portal_message_valid (ws_portal_message_object r) ≡ true)
unfolding ws_portal_message ws_portal_message_object ws_portal_message_valid value set_all
    web_socket_message_valid
ws_portal_message-read r = (refl, refl)
