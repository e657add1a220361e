-- ===== src/WebSocket/Sessions.antt =====
-- The sessions of SRCLinkWebSocketClient (src/api-websocket.cpp), from a start to a stop.
use src_link.Prelude.{
  sym, subst, not, none, some, refl, none, ap, some, ◌∙◌, [], ◌&&◌, suc, ℕ, if◌then◌else◌, ◌∷◌,
  arith, true, false, Bool, List, ◌≡◌, ◌≤◌, Option,
}
use src_link.WebSocket.{
  emit_signal, signal_of, WebSocketMessage, Socket, SocketEvent, starts, drops, ticks, stops,
  connects, receives, subscribes, unsubscribes, invokes_bin, invokes_text, handle_socket,
  start_client, stop_client, on_disconnected, on_interval, on_text_message_received, subscribe,
  unsubscribe, invoke_bin, invoke_text, open_client, ping, send_text, send_binary, SocketOutput,
}

-- A session, by how often its connection dropped; `none` between sessions.
abbrev pub session_after : SocketEvent → Option ℕ → Option ℕ
session_after (starts valid) none = some 0
session_after (starts valid) (some n) = some n
session_after stops p = none
session_after (drops valid) none = none
session_after (drops valid) (some n) = some (suc n)
session_after _ p = p

abbrev pub session_after_all : List SocketEvent → Option ℕ → Option ℕ
session_after_all [] p = p
session_after_all (e ∷ es) p = session_after_all es (session_after e p)

unfoldable pub handle_all : List SocketEvent → Socket → Socket
handle_all [] s = s
handle_all (e ∷ es) s = handle_all es (handle_socket e s)

abbrev pub session : Socket → Option ℕ
session s = if s.started then some s.reconnect_count else none

emit_signal-session : (r : Option SocketOutput) (s : Socket) → session (emit_signal r s) ≡ session s
emit_signal-session none s = refl
emit_signal-session (some o) s = refl

handle_socket-session :
    (e : SocketEvent) (s : Socket) → session (handle_socket e s) ≡ session_after e (session s)
unfolding handle_socket start_client stop_client on_disconnected on_interval
    on_text_message_received subscribe unsubscribe invoke_bin invoke_text open_client
handle_socket-session (starts valid) s = ground arith
handle_socket-session (drops valid) s = ground arith
handle_socket-session (ticks valid) s = ground arith
handle_socket-session stops s = ground arith
handle_socket-session connects s = refl
handle_socket-session (receives m) s = emit_signal-session (signal_of s.reconnect_count m) s
handle_socket-session (subscribes valid name payload) s = ground arith
handle_socket-session (unsubscribes valid name payload) s = ground arith
handle_socket-session (invokes_bin valid name payload) s = ground arith
handle_socket-session (invokes_text valid name payload) s = ground arith

-- After any events, the client is started, and counts reconnections, just as the events alone tell: a
-- session begins at a start outside a session, with no reconnection, ends at the next stop, and
-- counts each drop in between; nothing else bears on it.
pub handle_all-session :
    (es : List SocketEvent) (s : Socket)
    → session (handle_all es s) ≡ session_after_all es (session s)
unfolding handle_all
handle_all-session [] s = refl
handle_all-session (e ∷ es) s =
    handle_all-session es (handle_socket e s)
    ∙ ap (session_after_all es) (handle_socket-session e s)

-- The messages and pings that went to the server.
abbrev pub is_sent : SocketOutput → Bool
is_sent ping = true
is_sent (send_text event name payload) = true
is_sent (send_binary event name payload) = true
is_sent _ = false

abbrev pub sent : List SocketOutput → ℕ
sent [] = 0
sent (o ∷ os) = if is_sent o then suc (sent os) else sent os

-- What the event was told of the socket.
abbrev pub is_valid : SocketEvent → Bool
is_valid (ticks valid) = valid
is_valid (subscribes valid name payload) = valid
is_valid (unsubscribes valid name payload) = valid
is_valid (invokes_bin valid name payload) = valid
is_valid (invokes_text valid name payload) = valid
is_valid _ = false

abbrev is_quiet : Option SocketOutput → Bool
is_quiet none = true
is_quiet (some o) = not (is_sent o)

is_quiet-signal_of : (n : ℕ) (m : WebSocketMessage) → is_quiet (signal_of n m) ≡ true
unfolding signal_of
is_quiet-signal_of n m = ground arith

emit_signal-sent :
    (r : Option SocketOutput) (s : Socket)
    → is_quiet r ≡ true
    → sent (emit_signal r s).outputs ≡ sent s.outputs
emit_signal-sent none s h = refl
emit_signal-sent (some o) s h = ground arith

-- Nothing goes to the server outside a session or on a socket that is not valid, and no event sends
-- more than one message.
pub handle_socket-sent :
    (e : SocketEvent) (s : Socket)
    → sent (handle_socket e s).outputs
      ≤ (if s.started && is_valid e then suc (sent s.outputs) else sent s.outputs)
unfolding handle_socket start_client stop_client on_disconnected on_interval
    on_text_message_received subscribe unsubscribe invoke_bin invoke_text open_client
handle_socket-sent (starts valid) s = ground arith
handle_socket-sent (drops valid) s = ground arith
handle_socket-sent (ticks valid) s = ground arith
handle_socket-sent stops s = ground arith
handle_socket-sent connects s = ground arith
handle_socket-sent (receives m) s =
    let same =
      emit_signal-sent (signal_of s.reconnect_count m) s (is_quiet-signal_of s.reconnect_count m) in
    let more : sent s.outputs
        ≤ (if s.started && false then suc (sent s.outputs) else sent s.outputs) =
      ground arith in
    subst (λ k. k ≤ (if s.started && false then suc (sent s.outputs) else sent s.outputs))
      (sym same) more
handle_socket-sent (subscribes valid name payload) s = ground arith
handle_socket-sent (unsubscribes valid name payload) s = ground arith
handle_socket-sent (invokes_bin valid name payload) s = ground arith
handle_socket-sent (invokes_text valid name payload) s = ground arith
