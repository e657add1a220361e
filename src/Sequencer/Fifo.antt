-- ===== src/Sequencer/Fifo.antt =====
-- The order in which RequestSequencer (src/request-invoker.cpp) lets its requests go.
use src_link.Sequencer.Waiting.{
  fresh-left, fresh-snoc, distinct-snoc, pairs_from-snoc, unlinked-head, remove_one-head,
  fresh-right, append_assoc, linked-head, rest_of, append_nil, first_only, fresh, pairs, distinct,
}
use src_link.Prelude.{sym, ◌∙◌, ap, ◌++◌, refl, arith, true, [], ◌≡◌, ◌∷◌, List, ℕ}
use src_link.Sequencer.{
  finish_all, queue, invoke_all, enqueue, remove_one, on_o2_refresh_finished, on_requestor_finished,
  refresh, request, last_of, empty, Sequencer, unlinked, linked,
}

-- A queue with the requests submitted so far, in their order.
pub record Fifo (submitted : List ℕ) (s : Sequencer) : Type 0 where
  pub links : s.links ≡ pairs s.request_queue
  pub in_flight : s.in_flight ≡ first_only s.request_queue
  pub order : s.invoked ++ rest_of s.request_queue ≡ submitted
  pub apart : distinct s.request_queue ≡ true
  pub known : (id : ℕ) → fresh id submitted ≡ true → fresh id s.request_queue ≡ true

-- The runs of a sequencer whose invokers are all different, where a request finishes only once it is
-- in flight, and a refresh finishes only while no other refresh is queued.
pub data Trace : List ℕ → Sequencer → Type 0 where
  started : Trace [] empty
  requested :
      {ids : List ℕ} {s : Sequencer}
      → (id : ℕ) → fresh id ids ≡ true
      → Trace ids s
      → Trace (ids ++ id ∷ []) (request id s)
  refreshed :
      {ids : List ℕ} {s : Sequencer}
      → (id : ℕ) → fresh id ids ≡ true
      → Trace ids s
      → Trace (ids ++ id ∷ []) (refresh id s)
  finished :
      {ids : List ℕ} {s : Sequencer}
      → (id : ℕ) → s.in_flight ≡ id ∷ []
      → Trace ids s
      → Trace ids (on_requestor_finished id s)
  refresh_finished :
      {ids : List ℕ} {s : Sequencer}
      → (id : ℕ) → s.in_flight ≡ id ∷ []
      → s.listening ≡ id ∷ []
      → Trace ids s
      → Trace ids (on_o2_refresh_finished s)

enqueue-Fifo :
    (ids : List ℕ) (id : ℕ) (q : List ℕ) (s : Sequencer)
    → q ≡ s.request_queue
    → fresh id ids ≡ true
    → Fifo ids s
    → Fifo (ids ++ id ∷ []) (enqueue id q s)
enqueue-Fifo ids id [] s e n h = record {
  links = h.links ∙ ap pairs (sym e);
  in_flight = ap (λ l. l ++ id ∷ []) (h.in_flight ∙ ap first_only (sym e));
  order =
      append_nil _
      ∙ ap (λ l. l ++ id ∷ []) (sym (append_nil _) ∙ ap (λ l. s.invoked ++ rest_of l) e ∙ h.order);
  apart = refl;
  known = λ other k. fresh-right other ids (id ∷ []) k;
}
enqueue-Fifo ids id (x ∷ xs) s e n h = record {
  links =
      ap (λ l. l ++ (last_of x xs, id) ∷ []) (h.links ∙ ap pairs (sym e))
      ∙ sym (pairs_from-snoc x id xs);
  in_flight = h.in_flight ∙ ap first_only (sym e);
  order =
      sym (append_assoc s.invoked xs (id ∷ []))
      ∙ ap (λ l. l ++ id ∷ []) (ap (λ l. s.invoked ++ rest_of l) e ∙ h.order);
  apart = distinct-snoc id (x ∷ xs) (ap (fresh id) e ∙ h.known id n) (ap distinct e ∙ h.apart);
  known = λ other k.
      fresh-snoc other id (x ∷ xs)
        (ap (fresh other) e ∙ h.known other (fresh-left other ids (id ∷ []) k))
        (let r = fresh-right other ids (id ∷ []) k in ground arith);
}

queue-Fifo :
    (ids : List ℕ) (id : ℕ) (s : Sequencer)
    → fresh id ids ≡ true
    → Fifo ids s
    → Fifo (ids ++ id ∷ []) (queue id s)
unfolding queue
queue-Fifo ids id s n h = enqueue-Fifo ids id s.request_queue s refl n h

refresh-Fifo :
    (ids : List ℕ) (id : ℕ) (s : Sequencer)
    → fresh id ids ≡ true
    → Fifo ids s
    → Fifo (ids ++ id ∷ []) (refresh id s)
unfolding refresh
refresh-Fifo ids id s n h = queue-Fifo ids id _ n (record {
  links = h.links;
  in_flight = h.in_flight;
  order = h.order;
  apart = h.apart;
  known = h.known;
})

-- After the first of the queue has gone, the next one is invoked.
advance-Fifo :
    (ids : List ℕ) (xs : List ℕ) (s : Sequencer)
    → s.request_queue ≡ xs
    → s.links ≡ pairs xs
    → s.in_flight ≡ []
    → s.invoked ++ xs ≡ ids
    → distinct xs ≡ true
    → ((id : ℕ) → fresh id ids ≡ true → fresh id xs ≡ true)
    → Fifo ids (invoke_all (first_only xs) s)
unfolding invoke_all
advance-Fifo ids [] s q l f o d k = record {
  links = l ∙ ap pairs (sym q);
  in_flight = f ∙ ap first_only (sym q);
  order = ap (λ q. s.invoked ++ rest_of q) q ∙ o;
  apart = ap distinct q;
  known = λ id n. ap (fresh id) q;
}
advance-Fifo ids (x ∷ xs) s q l f o d k = record {
  links = l ∙ ap pairs (sym q);
  in_flight = ap (λ l. l ++ x ∷ []) f ∙ ap first_only (sym q);
  order = ap (λ q. (s.invoked ++ x ∷ []) ++ rest_of q) q ∙ append_assoc s.invoked (x ∷ []) xs ∙ o;
  apart = ap distinct q ∙ d;
  known = λ id n. ap (fresh id) q ∙ k id n;
}

pub finish-Fifo :
    (ids : List ℕ) (x : ℕ) (xs : List ℕ) (s : Sequencer)
    → s.request_queue ≡ x ∷ xs
    → Fifo ids s
    → Fifo ids (on_requestor_finished x s)
unfolding on_requestor_finished
finish-Fifo ids x xs s q h =
    let apart = ap distinct (sym q) ∙ h.apart in
    let away : fresh x xs ≡ true = ground arith in
    let next : linked x s.links ≡ first_only xs =
      ap (linked x) (h.links ∙ ap pairs q) ∙ linked-head x xs away in
    rw next (
      advance-Fifo ids xs _ (ap (remove_one x) q ∙ remove_one-head x xs)
        (ap (unlinked x) (h.links ∙ ap pairs q) ∙ unlinked-head x xs away)
        (ap (remove_one x) (h.in_flight ∙ ap first_only q) ∙ remove_one-head x [])
        (ap (λ l. s.invoked ++ rest_of l) (sym q) ∙ h.order) (ground arith)
        λ id n. let all = ap (fresh id) (sym q) ∙ h.known id n in ground arith)

-- The one in flight is the first of the queue.
queue_of_flight : (q : List ℕ) (id : ℕ) → id ∷ [] ≡ first_only q → q ≡ id ∷ rest_of q
queue_of_flight [] id e = ground (arith, e)
queue_of_flight (x ∷ xs) id e = ground (arith, e)

flight-Fifo :
    (ids : List ℕ) (id : ℕ) (s : Sequencer)
    → s.in_flight ≡ id ∷ []
    → Fifo ids s
    → Fifo ids (on_requestor_finished id s)
flight-Fifo ids id s e h =
    finish-Fifo ids id _ s (queue_of_flight s.request_queue id (sym e ∙ h.in_flight)) h

finish_all-Fifo :
    (ids : List ℕ) (id : ℕ) (l : List ℕ) (s : Sequencer)
    → l ≡ id ∷ []
    → s.in_flight ≡ id ∷ []
    → Fifo ids s
    → Fifo ids (finish_all l s)
unfolding finish_all
finish_all-Fifo ids id l s e f h = rw e (flight-Fifo ids id s f h)

-- In every run of different invokers, where a request finishes only once it is in flight and a
-- refresh only while no other refresh is queued, the request in flight is the first of the queue
-- and no other, the requests were invoked in the order in which they were made, and each request
-- that waits is linked to the one before it in the queue and to no other.
pub Trace-Fifo : (ids : List ℕ) (s : Sequencer) → Trace ids s → Fifo ids s
unfolding on_o2_refresh_finished
Trace-Fifo ids s started = record {
  links = refl;
  in_flight = refl;
  order = refl;
  apart = refl;
  known = λ id n. refl;
}
Trace-Fifo ids s (requested id n r) = queue-Fifo _ id _ n (Trace-Fifo _ _ r)
Trace-Fifo ids s (refreshed id n r) = refresh-Fifo _ id _ n (Trace-Fifo _ _ r)
Trace-Fifo ids s (finished id e r) = flight-Fifo _ id _ e (Trace-Fifo _ _ r)
Trace-Fifo ids s (refresh_finished id e l r) = finish_all-Fifo _ id _ _ l e (Trace-Fifo _ _ r)
