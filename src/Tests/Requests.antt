-- ===== src/Tests/Requests.antt =====
-- The theorems on the queue of requests and on the web socket at concrete inputs.
use src_link.Schema.Json.{end}
use src_link.Schema.Messages.{WebSocketMessage}
use src_link.WebSocket.{receives, drops, connects, starts, SocketEvent, Socket}
use src_link.WebSocket.Sessions.{handle_all-session, session_after_all, handle_all, session}
use src_link.Sequencer.Fifo.{started, requested, refreshed, finished, Trace-Fifo, Trace, Fifo}
use src_link.Sequencer.Drain.{Trace-drain, drain}
use src_link.Sequencer.{
  invoke_all, unlinked, empty, linked, remove_one, request, queue, finish_all,
  on_requestor_finished, on_o2_refresh_finished, refresh, Sequencer,
}
use src_link.Prelude.{◌≤◌, arith, true, false, List, length, refl, ◌≡◌, [], ◌∷◌}

-- Two requests and a refresh, where the first has finished.
abbrev after_three : Sequencer
after_three = on_requestor_finished 1 (refresh 3 (request 2 (request 1 empty)))

three_flight : (refresh 3 (request 2 (request 1 empty))).in_flight ≡ 1 ∷ []
unfolding refresh queue
three_flight = refl

three-Trace : Trace (1 ∷ 2 ∷ 3 ∷ []) after_three
three-Trace =
    finished 1 three_flight (refreshed 3 refl (requested 2 refl (requested 1 refl started)))

Trace-Fifo_example : Fifo (1 ∷ 2 ∷ 3 ∷ []) after_three
Trace-Fifo_example = Trace-Fifo (1 ∷ 2 ∷ 3 ∷ []) after_three three-Trace

one_listens : length after_three.listening ≤ 1
unfolding on_requestor_finished refresh queue remove_one linked unlinked invoke_all
one_listens = ground arith

Trace-drain_example :
    ((drain (length after_three.request_queue) after_three).request_queue ≡ [])
    × ((drain (length after_three.request_queue) after_three).invoked ≡ 1 ∷ 2 ∷ 3 ∷ [])
Trace-drain_example = Trace-drain (1 ∷ 2 ∷ 3 ∷ []) after_three three-Trace one_listens

-- The answer to a refresh reaches a refresh that waits behind a request, too.
early_refresh : (on_o2_refresh_finished (refresh 2 (request 1 empty))).request_queue ≡ 1 ∷ []
unfolding on_o2_refresh_finished finish_all on_requestor_finished refresh queue remove_one linked
    unlinked invoke_all
early_refresh = refl

-- A connection that drops once and receives its first message.
abbrev idle_socket : Socket
idle_socket = record { started = false; reconnect_count = 0; outputs = [] }

abbrev ready_message : WebSocketMessage
ready_message = record {
  event = "ready";
  name = "";
  reason = "";
  id = "";
  payload = end;
  continuous = false;
}

abbrev one_drop : List SocketEvent
one_drop = starts false ∷ connects ∷ drops false ∷ starts true ∷ receives ready_message ∷ []

handle_all-session_example :
    session (handle_all one_drop idle_socket) ≡ session_after_all one_drop (session idle_socket)
handle_all-session_example = handle_all-session one_drop idle_socket

abbrev started_socket : Socket
started_socket = record idle_socket { started = true }
