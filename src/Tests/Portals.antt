-- ===== src/Tests/Portals.antt =====
-- The theorems on the portal client at concrete inputs.
use src_link.Portal.Batches.{process_batch-answers, while_successful, answers}
use src_link.Portal.Subscriptions.{step-Balanced, Balanced}
use src_link.Portal.{
  open_portal, on_portal_disconnected, stop_portal, subscribe_events, number, start_portal,
  send_event, WsPortal, PortalClient, process_batch,
}
use src_link.Prelude.{◌++◌, false, Bool, true, Option, refl, ◌≡◌, ℕ, [], ◌∷◌, some, ◌%◌, ◌==◌}

abbrev portal : WsPortal
portal = record { id = "p1"; event_subscriptions = number 4; misspelt = false }

abbrev driven : PortalClient
driven = record {
  active = true;
  has_client = true;
  portal = some portal;
  portal_reconnects = 0;
  portal_calls = subscribe_events 4 ∷ open_portal "p1" ∷ [];
}

driven-Balanced : Balanced 4 driven
driven-Balanced = record { balance = refl }

step-Balanced_example :
    Balanced 4 (start_portal true "p1" (portal ∷ []) driven)
    × Balanced 4 (stop_portal driven)
    × Balanced 4 (on_portal_disconnected true "p1" driven)
    × Balanced 4 (send_event 4 driven)
step-Balanced_example = step-Balanced 4 true "p1" (portal ∷ []) 4 driven driven-Balanced

-- Requests are numbers: an even one succeeds.
abbrev answer_even : ℕ → Option (Bool × ℕ)
answer_even n = some (n % 2 == 0, n)

process_batch-answers_example :
    process_batch answer_even true (2 ∷ 4 ∷ 5 ∷ 6 ∷ []) []
    ≡ [] ++ answers answer_even (while_successful answer_even (2 ∷ 4 ∷ 5 ∷ 6 ∷ []))
process_batch-answers_example = process_batch-answers answer_even true (2 ∷ 4 ∷ 5 ∷ 6 ∷ []) []
