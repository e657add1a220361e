-- ===== src/Portal/Subscriptions.antt =====
-- The events that a portal gets of obs-websocket (src/ws-portal/ws-portal-client.cpp).
use src_link.Prelude.{
  [], ◌∷◌, none, some, arith, ◌==◌, ◌+◌, if◌then◌else◌, String, Bool, ◌≡◌, List, Option, ℕ,
}
use src_link.Portal.{
  get_event_subscriptions, PortalCall, WsPortal, open_socket_of, on_portal_disconnected,
  PortalClient, send_event, stop_portal, start_portal, subscribe_events, unsubscribe_events,
}

abbrev pub subscribed_to : ℕ → List PortalCall → ℕ
subscribed_to n [] = 0
subscribed_to n (subscribe_events m ∷ cs) = (if m == n then 1 else 0) + subscribed_to n cs
subscribed_to n (_ ∷ cs) = subscribed_to n cs

abbrev pub unsubscribed_from : ℕ → List PortalCall → ℕ
unsubscribed_from n [] = 0
unsubscribed_from n (unsubscribe_events m ∷ cs) = (if m == n then 1 else 0) + unsubscribed_from n cs
unsubscribed_from n (_ ∷ cs) = unsubscribed_from n cs

abbrev pub takes : ℕ → Option WsPortal → ℕ
takes n none = 0
takes n (some p) = if get_event_subscriptions p == n then 1 else 0

-- The event handler has the subscription of an active client, and none of an inactive one.
pub record Balanced (n : ℕ) (s : PortalClient) : Type 0 where
  pub balance :
      subscribed_to n s.portal_calls
      ≡ unsubscribed_from n s.portal_calls + (if s.active then takes n s.portal else 0)

start_portal-Balanced :
    (n : ℕ) (valid : Bool) (id : String) (portals : List WsPortal) (s : PortalClient)
    → Balanced n s
    → Balanced n (start_portal valid id portals s)
unfolding start_portal open_socket_of
start_portal-Balanced n valid id portals s h = ground arith

-- A start, a stop, a drop and an event of obs-websocket keep the subscriptions balanced: each that
-- was made has been undone, but for that of the portal of an active client.
pub step-Balanced :
    (n : ℕ) (valid : Bool) (id : String) (portals : List WsPortal) (intent : ℕ) (s : PortalClient)
    → Balanced n s
    → Balanced n (start_portal valid id portals s)
      × Balanced n (stop_portal s)
      × Balanced n (on_portal_disconnected valid id s)
      × Balanced n (send_event intent s)
unfolding stop_portal on_portal_disconnected send_event open_socket_of
step-Balanced n valid id portals intent s h =
    (start_portal-Balanced n valid id portals s h, ground arith, ground arith, ground arith)
