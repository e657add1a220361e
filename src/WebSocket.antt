-- ===== src/WebSocket.antt =====
-- src/api-websocket.cpp: class SRCLinkWebSocketClient, the connection on which the server pushes changes.
use src_link.Prelude.{
  none, ltb, some, ◌||◌, str_eq, suc, false, true, ◌&&◌, List, Option, not, ℕ, String,
  if◌then◌else◌, Bool, ◌∷◌,
}
pub mod Sessions
use src_link.Schema.Json.{JsonObject}
use src_link.Schema.Messages.{WebSocketMessage}

-- The calls of the QWebSocket, and the signals.
pub data SocketOutput : Type 0 where
  open_socket close_socket ping : SocketOutput
  send_text : String → String → JsonObject → SocketOutput
  send_binary : String → String → String → SocketOutput
  connected disconnected reconnecting : SocketOutput
  ready : Bool → SocketOutput
  aborted error : String → SocketOutput
  added changed removed : WebSocketMessage → SocketOutput
  subscribed unsubscribed invoked : String → JsonObject → SocketOutput
  subscribe_failed unsubscribe_failed invoke_failed : String → JsonObject → SocketOutput

-- `outputs` are the calls and signals so far, the latest first.
pub record Socket : Type 0 where
  pub started : Bool
  pub reconnect_count : ℕ
  pub outputs : List SocketOutput

abbrev pub put : SocketOutput → Socket → Socket
put o s = record s { outputs = o ∷ s.outputs }

-- `valid` is what `QWebSocket::isValid` answers.
unfoldable pub open_client : Bool → Socket → Socket
open_client valid s = if valid then s else put open_socket s

unfoldable pub start_client : Bool → Socket → Socket
unfolding open_client
start_client valid s =
    let opened = open_client valid (record s { started = true; reconnect_count = 0 }) in
    if s.started then s else opened

unfoldable pub stop_client : Socket → Socket
stop_client s = if s.started then put close_socket (record s { started = false }) else s

unfoldable pub on_disconnected : Bool → Socket → Socket
unfolding open_client
on_disconnected valid s =
    if s.started
    then put reconnecting (open_client valid (record s { reconnect_count = suc s.reconnect_count }))
    else put disconnected s

-- The timer that pings.
unfoldable pub on_interval : Bool → Socket → Socket
on_interval valid s = if s.started && valid then put ping s else s

-- The signal for a message, if its event is known.
unfoldable pub signal_of : ℕ → WebSocketMessage → Option SocketOutput
signal_of reconnects m =
    if str_eq m.event "ready"
    then some (ready (ltb 0 reconnects))
    else if str_eq m.event "aborted"
    then some (aborted m.reason)
    else if str_eq m.event "added"
    then some (added m)
    else if str_eq m.event "changed"
    then some (changed m)
    else if str_eq m.event "removed"
    then some (removed m)
    else if str_eq m.event "subscribed"
    then some (subscribed m.name m.payload)
    else if str_eq m.event "unsubscribed"
    then some (unsubscribed m.name m.payload)
    else if str_eq m.event "invoked"
    then some (invoked m.name m.payload)
    else if str_eq m.event "subscribe_failed"
    then some (subscribe_failed m.name m.payload)
    else if str_eq m.event "unsubscribe_failed"
    then some (unsubscribe_failed m.name m.payload)
    else if str_eq m.event "invoke_failed"
    then some (invoke_failed m.name m.payload)
    else if str_eq m.event "error"
    then some (error m.reason)
    else none

abbrev pub emit_signal : Option SocketOutput → Socket → Socket
emit_signal none s = s
emit_signal (some o) s = put o s

unfoldable pub on_text_message_received : WebSocketMessage → Socket → Socket
unfolding signal_of
on_text_message_received m s = emit_signal (signal_of s.reconnect_count m) s

-- A message is sent only on a started and valid connection.
abbrev when_open : Bool → SocketOutput → Socket → Socket
when_open valid o s = if not s.started || not valid then s else put o s

unfoldable pub subscribe : Bool → String → JsonObject → Socket → Socket
subscribe valid name payload s = when_open valid (send_text "subscribe" name payload) s

unfoldable pub unsubscribe : Bool → String → JsonObject → Socket → Socket
unsubscribe valid name payload s = when_open valid (send_text "unsubscribe" name payload) s

unfoldable pub invoke_bin : Bool → String → String → Socket → Socket
invoke_bin valid name payload s = when_open valid (send_binary "invoke" name payload) s

unfoldable pub invoke_text : Bool → String → JsonObject → Socket → Socket
invoke_text valid name payload s = when_open valid (send_text "invoke" name payload) s

-- What can happen, with the answer of `isValid` where it is asked.
pub data SocketEvent : Type 0 where
  starts drops ticks : Bool → SocketEvent
  stops connects : SocketEvent
  receives : WebSocketMessage → SocketEvent
  subscribes unsubscribes invokes_text : Bool → String → JsonObject → SocketEvent
  invokes_bin : Bool → String → String → SocketEvent

unfoldable pub handle_socket : SocketEvent → Socket → Socket
unfolding start_client stop_client on_disconnected on_interval on_text_message_received subscribe
    unsubscribe invoke_bin invoke_text
handle_socket (starts valid) s = start_client valid s
handle_socket (drops valid) s = on_disconnected valid s
handle_socket (ticks valid) s = on_interval valid s
handle_socket stops s = stop_client s
handle_socket connects s = put connected s
handle_socket (receives m) s = on_text_message_received m s
handle_socket (subscribes valid name payload) s = subscribe valid name payload s
handle_socket (unsubscribes valid name payload) s = unsubscribe valid name payload s
handle_socket (invokes_bin valid name payload) s = invoke_bin valid name payload s
handle_socket (invokes_text valid name payload) s = invoke_text valid name payload s
