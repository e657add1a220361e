-- ===== src/ApiClient/Reconnected.antt =====
-- What the client asks for when the web socket is ready.
use src_link.ApiClient.Downlinks.{about}
use src_link.ApiClient.Calls.{sync_uplink_status, ask}
use src_link.Schema.Json.{value, to_string, JsonObject}
use src_link.ApiClient.State.{
  ready, fire, nothing, perform, put_downlink_status, socket_subscribe, Client, send, ApiEffect,
}
use src_link.Prelude.{
  ap, refl, arith, ◌∙◌, false, ◌++◌, str_eq, true, ◌≡◌, if◌then◌else◌, [], ◌∷◌, String, Bool, List,
}
use src_link.ApiClient.Events.{subscribe_all, on_web_socket_ready, resubscribe}
use mathlib.Core.List.{reverse, reverse_aux, reverse_aux-eq}

abbrev pub keys : List (String × JsonObject) → List String
keys [] = []
keys ((k, d) ∷ m) = k ∷ keys m

-- The downlinks that were subscribed to, and those whose status was put, the latest first.
abbrev pub watched : List ApiEffect → List String
watched [] = []
watched (socket_subscribe name payload ∷ es) =
    if str_eq name "downlink" then to_string (value "uuid" payload) ∷ watched es else watched es
watched (_ ∷ es) = watched es

abbrev pub statuses : List ApiEffect → List String
statuses [] = []
statuses (send (put_downlink_status uuid) k ∷ es) = uuid ∷ statuses es
statuses (_ ∷ es) = statuses es

resubscribe-watched :
    (b : Bool) (m : List (String × JsonObject)) (c : Client)
    → watched (resubscribe b m c).effects ≡ reverse_aux (keys m) (watched c.effects)
unfolding resubscribe value
resubscribe-watched b [] c = refl
resubscribe-watched b ((k, d) ∷ m) c =
    let told = perform (socket_subscribe "downlink" (about k)) c in
    let next = if b then ask (put_downlink_status k) nothing told else told in
    let one : watched next.effects ≡ k ∷ watched c.effects = ground arith in
    resubscribe-watched b m next ∙ ap (reverse_aux (keys m)) one

resubscribe-statuses :
    (m : List (String × JsonObject)) (c : Client)
    → c.has_token ≡ true
    → statuses (resubscribe true m c).effects ≡ reverse_aux (keys m) (statuses c.effects)
unfolding resubscribe
resubscribe-statuses [] c h = refl
resubscribe-statuses ((k, d) ∷ m) c h =
    let next =
      ask (put_downlink_status k) nothing (perform (socket_subscribe "downlink" (about k)) c) in
    let one : statuses next.effects ≡ k ∷ statuses c.effects = ground arith in
    resubscribe-statuses m next (ground arith) ∙ ap (reverse_aux (keys m)) one

resubscribe-first :
    (m : List (String × JsonObject)) (c : Client)
    → statuses (resubscribe false m c).effects ≡ statuses c.effects
unfolding resubscribe
resubscribe-first [] c = refl
resubscribe-first ((k, d) ∷ m) c =
    resubscribe-first m (perform (socket_subscribe "downlink" (about k)) c)

-- What follows the loop asks for no downlink.
closing :
    (b : Bool) (c : Client)
    → let c' = fire (ready b) (if b then sync_uplink_status true c else c) in
      (watched c'.effects ≡ watched c.effects) × (statuses c'.effects ≡ statuses c.effects)
unfolding sync_uplink_status
closing b c = (ground arith, ground arith)

-- When the web socket of a client with a token is ready, each downlink that it holds is subscribed
-- to once, in the order of the map of downlinks; and after a reconnection, and only then, the
-- status of each is put once, in the same order.
pub on_web_socket_ready-asks :
    (b : Bool) (c : Client)
    → c.has_token ≡ true
    → (watched (on_web_socket_ready b c).effects ≡ reverse (keys c.downlinks) ++ watched c.effects)
      × (statuses (on_web_socket_ready b c).effects
          ≡ (if b then reverse (keys c.downlinks) else []) ++ statuses c.effects)
unfolding on_web_socket_ready
on_web_socket_ready-asks true c h =
    let c' = subscribe_all true c in
    let (w, s) = closing true (resubscribe true c.downlinks c') in
    (
      w
          ∙ resubscribe-watched true c.downlinks c'
          ∙ reverse_aux-eq (keys c.downlinks) (watched c.effects),
      s
          ∙ resubscribe-statuses c.downlinks c' h
          ∙ reverse_aux-eq (keys c.downlinks) (statuses c.effects),
    )
on_web_socket_ready-asks false c h =
    let c' = subscribe_all false c in
    let (w, s) = closing false (resubscribe false c.downlinks c') in
    (
      w
          ∙ resubscribe-watched false c.downlinks c'
          ∙ reverse_aux-eq (keys c.downlinks) (watched c.effects),
      s ∙ resubscribe-first c.downlinks c',
    )
