-- ===== src/Portal.antt =====
-- src/ws-portal/ws-portal-client.cpp: class WsPortalClient, which lets a portal on the server drive
-- obs-websocket.
pub mod Subscriptions
pub mod Batches
use src_link.Schema.Array.{find}
use src_link.Prelude.{
  ◌==◌, ◌||◌, none, str_eq, [], true, ◌++◌, suc, ◌&&◌, not, false, some, List, ℕ, String, Bool,
  if◌then◌else◌, Option, ◌∷◌,
}
use Prim.Native.Nat.{bit_and}

-- A key of a JSON object that should be a number.
pub data Key : Type 0 where
  undefined null : Key
  number : ℕ → Key

-- class WsPortal (src/schema.hpp). `misspelt` says whether the object has the key
-- "event_subscription", without the last letter.
pub record WsPortal : Type 0 where
  pub id : String
  pub event_subscriptions : Key
  pub misspelt : Bool

abbrev pub to_int : Key → ℕ
to_int (number n) = n
to_int _ = 0

abbrev pub get_event_subscriptions : WsPortal → ℕ
get_event_subscriptions p = to_int p.event_subscriptions

-- The calls of the socket and of the event handler, and the signals. A message is sent with the
-- intent of its event.
pub data PortalCall : Type 0 where
  open_portal : String → PortalCall
  close_portal portal_ping portal_disconnected portal_reconnecting : PortalCall
  subscribe_events unsubscribe_events send_event_message : ℕ → PortalCall

pub record PortalClient : Type 0 where
  pub active : Bool
  pub has_client : Bool
  pub portal : Option WsPortal
  pub portal_reconnects : ℕ
  pub portal_calls : List PortalCall

abbrev pub note : PortalCall → PortalClient → PortalClient
note c s = record s { portal_calls = c ∷ s.portal_calls }

-- `valid` is what `isValid` answers of the socket that is there. A portal has a facility.
unfoldable pub open_socket_of : Bool → String → PortalClient → PortalClient
open_socket_of valid id s =
    let closed = if s.has_client then note close_portal s else s in
    if s.has_client && valid then s else note (open_portal id) (record closed { has_client = true })

abbrev pub is_portal_id : String → Bool
is_portal_id id = not (str_eq id "") && not (str_eq id "none")

abbrev begin_portal : Bool → String → WsPortal → PortalClient → PortalClient
begin_portal valid id p s =
    note (subscribe_events (get_event_subscriptions p))
      (open_socket_of valid id (record s { portal = some p; active = true; portal_reconnects = 0 }))

abbrev begin_found : Bool → String → Option WsPortal → PortalClient → PortalClient
begin_found valid id none s = record s { portal = none }
begin_found valid id (some p) s = begin_portal valid id p s

-- `id` is the portal of the settings, `portals` those of the API client.
unfoldable pub start_portal : Bool → String → List WsPortal → PortalClient → PortalClient
unfolding open_socket_of find
start_portal valid id portals s =
    if s.active || not (is_portal_id id)
    then s
    else begin_found valid id (find (λ p. str_eq p.id id) portals) s

abbrev leave_portal : Option WsPortal → PortalClient → PortalClient
leave_portal none s = s
leave_portal (some p) s = record (note (unsubscribe_events (get_event_subscriptions p)) s) {
  portal = none;
}

unfoldable pub stop_portal : PortalClient → PortalClient
stop_portal s =
    let closed = if s.has_client then record (note close_portal s) { has_client = false } else s in
    if s.active
    then note portal_disconnected (leave_portal s.portal (record closed { active = false }))
    else s

abbrev pub is_some_portal : Option WsPortal → Bool
is_some_portal none = false
is_some_portal (some p) = true

unfoldable pub on_ws_portals_ready : Bool → String → List WsPortal → PortalClient → PortalClient
unfolding start_portal find
on_ws_portals_ready valid id portals s =
    let found = find (λ p. str_eq p.id id) portals in
    let s' = record s { portal = found } in
    if is_some_portal found && not s.active then start_portal valid id portals s' else s'

unfoldable pub on_portal_disconnected : Bool → String → PortalClient → PortalClient
unfolding open_socket_of
on_portal_disconnected valid id s =
    let s' = record s { portal_reconnects = suc s.portal_reconnects } in
    if s.active && is_portal_id id then note portal_reconnecting (open_socket_of valid id s') else s

-- The mask of the events that a portal gets.
unfoldable pub event_mask : Option WsPortal → ℕ
event_mask none = 2047
event_mask (some p) =
    if not p.misspelt
    then 2047
    else elim p.event_subscriptions [ null ↦ 2047 | _ ↦ get_event_subscriptions p ]

unfoldable pub send_event : ℕ → PortalClient → PortalClient
unfolding event_mask
send_event intent s =
    if not s.active || (bit_and intent (event_mask s.portal) == 0)
    then s
    else note (send_event_message intent) s

-- A batch of requests. `process` is obs-websocket: `none` is an empty response, else whether the
-- request succeeded.
module _ {Request Response : Type 0} (process : Request → Option (Bool × Response)) where
  abbrev pub halts : Bool → Option (Bool × Response) → Bool
  halts halt none = halt
  halts halt (some (result, response)) = halt && not result

  abbrev pub push_back : Option (Bool × Response) → List Response → List Response
  push_back none rs = rs
  push_back (some (result, response)) rs = rs ++ response ∷ []

  -- The loop, with the responses so far.
  unfoldable pub process_batch : Bool → List Request → List Response → List Response
  process_batch halt [] responses = responses
  process_batch halt (r ∷ rs) responses =
      let rest = process_batch halt rs (push_back (process r) responses) in
      if halts halt (process r) then responses else rest
