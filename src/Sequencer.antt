-- ===== src/Sequencer.antt =====
-- src/request-invoker.cpp: RequestSequencer and RequestInvoker, which send one request at a time.
pub mod Waiting
pub mod Fifo
pub mod Drain
use src_link.Prelude.{ℕ, Bool, true, false, List, [], ◌∷◌, ◌++◌, ◌==◌, ◌&&◌, if◌then◌else◌}

-- `links` has the connections that `queue` makes, from an invoker's `finished` to the next
-- invocation. `listening` are the invokers that are connected to `refreshFinished` of the OAuth
-- client, in the order of connection. `in_flight` were invoked and are not finished. `invoked` is
-- the order of the invocations.
pub record Sequencer : Type 0 where
  pub request_queue : List ℕ
  pub links : List (ℕ × ℕ)
  pub listening : List ℕ
  pub in_flight : List ℕ
  pub invoked : List ℕ

abbrev pub empty : Sequencer
empty = record { request_queue = []; links = []; listening = []; in_flight = []; invoked = [] }

-- QList::removeOne
unfoldable pub remove_one : ℕ → List ℕ → List ℕ
remove_one id [] = []
remove_one id (x ∷ xs) = if x == id then xs else x ∷ remove_one id xs

abbrev pub last_of : ℕ → List ℕ → ℕ
last_of x [] = x
last_of x (y ∷ ys) = last_of y ys

abbrev pub invoke : ℕ → Sequencer → Sequencer
invoke id s = record s { in_flight = s.in_flight ++ id ∷ []; invoked = s.invoked ++ id ∷ [] }

-- RequestInvoker::queue on the requests that are there: invoke now, or after the last one.
abbrev pub enqueue : ℕ → List ℕ → Sequencer → Sequencer
enqueue id [] s = invoke id (record s { request_queue = id ∷ [] })
enqueue id (x ∷ xs) s = record s {
  links = s.links ++ (last_of x xs, id) ∷ [];
  request_queue = (x ∷ xs) ++ id ∷ [];
}

unfoldable pub queue : ℕ → Sequencer → Sequencer
queue id s = enqueue id s.request_queue s

-- `get`, `post`, `put`, `deleteResource`, `head` and `customRequest` only queue.
abbrev pub request : ℕ → Sequencer → Sequencer
request id s = queue id s

unfoldable pub refresh : ℕ → Sequencer → Sequencer
refresh id s = queue id (record s { listening = s.listening ++ id ∷ [] })

-- The invocations that are connected to the invoker's `finished`, and the other connections.
unfoldable pub linked : ℕ → List (ℕ × ℕ) → List ℕ
linked id [] = []
linked id ((a, b) ∷ ls) = if a == id then b ∷ linked id ls else linked id ls

unfoldable pub unlinked : ℕ → List (ℕ × ℕ) → List (ℕ × ℕ)
unlinked id [] = []
unlinked id ((a, b) ∷ ls) = if a == id then unlinked id ls else (a, b) ∷ unlinked id ls

unfoldable pub invoke_all : List ℕ → Sequencer → Sequencer
invoke_all [] s = s
invoke_all (id ∷ ids) s = invoke_all ids (invoke id s)

-- RequestInvoker::onRequestorFinished: `emit finished` runs the invocations that are connected,
-- and the invoker is deleted with its connections. What a caller does in its own slot is another event.
unfoldable pub on_requestor_finished : ℕ → Sequencer → Sequencer
unfolding remove_one linked unlinked invoke_all
on_requestor_finished id s = invoke_all (linked id s.links) (record s {
  request_queue = remove_one id s.request_queue;
  links = unlinked id s.links;
  listening = remove_one id s.listening;
  in_flight = remove_one id s.in_flight;
})

-- RequestInvoker::onO2RefreshFinished does the same to each invoker that listens, whether or not
-- its own turn has come.
unfoldable pub finish_all : List ℕ → Sequencer → Sequencer
unfolding on_requestor_finished
finish_all [] s = s
finish_all (id ∷ ids) s = finish_all ids (on_requestor_finished id s)

unfoldable pub on_o2_refresh_finished : Sequencer → Sequencer
unfolding finish_all
on_o2_refresh_finished s = finish_all s.listening s
