-- ===== src/Sequencer/Drain.antt =====
-- The end of the queue of RequestSequencer (src/request-invoker.cpp).
use src_link.Sequencer.Waiting.{first_only, rest_of, append_nil, remove_one-head}
use src_link.Sequencer.Fifo.{finish-Fifo, Trace-Fifo, Fifo, Trace}
use src_link.Sequencer.{
  finish_all, on_o2_refresh_finished, unlinked, linked, invoke, remove_one, Sequencer,
  on_requestor_finished, invoke_all,
}
use src_link.Prelude.{
  ◌||◌, if◌then◌else◌, ◌==◌, ◌≤◌, Bool, true, false, arith, ◌++◌, ap, ◌∙◌, refl, sym, ◌∷◌, [], ◌≡◌,
  List, ℕ, zero, suc, length,
}

abbrev is_in : ℕ → List ℕ → Bool
is_in id [] = false
is_in id (x ∷ xs) = x == id || is_in id xs

-- The answer to what is in flight, if something is: to a refresh it reaches all that listen.
unfoldable pub answer : List ℕ → Sequencer → Sequencer
unfolding on_requestor_finished on_o2_refresh_finished
answer [] s = s
answer (id ∷ rest) s =
    if is_in id s.listening then on_o2_refresh_finished s else on_requestor_finished id s

-- That, `n` times.
unfoldable pub drain : ℕ → Sequencer → Sequencer
unfolding answer
drain zero s = s
drain (suc n) s = drain n (answer s.in_flight s)

invoke_all-queue :
    (ids : List ℕ) (s : Sequencer) → (invoke_all ids s).request_queue ≡ s.request_queue
unfolding invoke_all
invoke_all-queue [] s = refl
invoke_all-queue (id ∷ ids) s = invoke_all-queue ids (invoke id s)

invoke_all-listening : (ids : List ℕ) (s : Sequencer) → (invoke_all ids s).listening ≡ s.listening
unfolding invoke_all
invoke_all-listening [] s = refl
invoke_all-listening (id ∷ ids) s = invoke_all-listening ids (invoke id s)

finish-queue :
    (id : ℕ) (s : Sequencer)
    → (on_requestor_finished id s).request_queue ≡ remove_one id s.request_queue
unfolding on_requestor_finished
finish-queue id s = invoke_all-queue (linked id s.links) (record s {
  request_queue = remove_one id s.request_queue;
  links = unlinked id s.links;
  listening = remove_one id s.listening;
  in_flight = remove_one id s.in_flight;
})

finish-listening :
    (id : ℕ) (s : Sequencer) → (on_requestor_finished id s).listening ≡ remove_one id s.listening
unfolding on_requestor_finished
finish-listening id s = invoke_all-listening (linked id s.links) (record s {
  request_queue = remove_one id s.request_queue;
  links = unlinked id s.links;
  listening = remove_one id s.listening;
  in_flight = remove_one id s.in_flight;
})

length-remove_one : (id : ℕ) (xs : List ℕ) → length (remove_one id xs) ≤ length xs
unfolding remove_one
length-remove_one id [] = omega arith
length-remove_one id (x ∷ xs) = ground (arith, length-remove_one id xs)

either_way : (b : Bool) (u v w : Sequencer) → (b ≡ true → u ≡ w) → v ≡ w → (if b then u else v) ≡ w
either_way true u v w h k = h refl
either_way false u v w h k = k

finish_listening :
    (id : ℕ) (l : List ℕ) (s : Sequencer)
    → length l ≤ 1
    → (if is_in id l then finish_all l s else on_requestor_finished id s)
      ≡ on_requestor_finished id s
unfolding finish_all
finish_listening id [] s few = refl
finish_listening id (x ∷ []) s few =
    either_way (x == id || false) (on_requestor_finished x s) (on_requestor_finished id s) _
      (λ same. let own : x ≡ id = ground arith in ap (λ (i : ℕ). on_requestor_finished i s) own)
      refl
finish_listening id (x ∷ y ∷ l) s few = absurd (omega arith)

-- While at most one refresh is queued, the answer to it finishes that one.
answer-finishes :
    (id : ℕ) (s : Sequencer)
    → length s.listening ≤ 1
    → answer (id ∷ []) s ≡ on_requestor_finished id s
unfolding answer on_o2_refresh_finished
answer-finishes id s few = finish_listening id s.listening s few

-- The answer to what is in flight is its own end.
answer_lem :
    (f : List ℕ) (x : ℕ) (s : Sequencer)
    → f ≡ x ∷ []
    → length s.listening ≤ 1
    → answer f s ≡ on_requestor_finished x s
answer_lem f x s e few = ap (λ (l : List ℕ). answer l s) e ∙ answer-finishes x s few

drain_lem :
    (n : ℕ) (ids : List ℕ) (q : List ℕ) (s : Sequencer)
    → s.request_queue ≡ q
    → length q ≡ n
    → length s.listening ≤ 1
    → Fifo ids s
    → ((drain n s).request_queue ≡ []) × ((drain n s).invoked ≡ ids)
unfolding drain
drain_lem zero ids [] s q e few h =
    (q, sym (append_nil s.invoked) ∙ ap (λ l. s.invoked ++ rest_of l) (sym q) ∙ h.order)
drain_lem (suc n) ids (x ∷ xs) s q e few h =
    let one = answer_lem s.in_flight x s (h.in_flight ∙ ap first_only q) few in
    rw (one, drain)
      (drain_lem n ids xs (on_requestor_finished x s)
        (finish-queue x s ∙ ap (remove_one x) q ∙ remove_one-head x xs) (ground arith)
        (omega (arith, few, ap length (finish-listening x s), length-remove_one x s.listening))
        (finish-Fifo ids x xs s q h))
drain_lem zero ids (x ∷ xs) s q e few h = ground arith
drain_lem (suc n) ids [] s q e few h = ground arith

-- From any state that such a run reaches (different invokers, requests that finish once they are
-- in flight, refreshes that finish while no other is queued) and in which at most one refresh is
-- queued, as many answers as there are requests in the queue, each to the request that is in
-- flight then, where the answer to a refresh reaches every refresh that is queued, empty the
-- queue, and all requests have been invoked by then, in the order in which they were made.
pub Trace-drain :
    (ids : List ℕ) (s : Sequencer)
    → Trace ids s
    → length s.listening ≤ 1
    → ((drain (length s.request_queue) s).request_queue ≡ [])
      × ((drain (length s.request_queue) s).invoked ≡ ids)
Trace-drain ids s r few = drain_lem _ ids _ s refl refl few (Trace-Fifo ids s r)
