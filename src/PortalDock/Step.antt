-- ===== src/PortalDock/Step.antt =====
-- src/UI/ws-portal-dock.cpp: the constructor of class WsPortalDock, and one step function of all that can
-- happen to it.
use src_link.Dock.State.{empty_box}
use src_link.PortalDock.Slots.{
  on_login_button_clicked, on_portal_retrying, on_portal_unlinked, plain_picture,
  set_portal_client_active, select_portal, show_state, on_portals_ready, on_portal_linked,
  set_portal_picture, on_portal_account_ready,
}
use src_link.PortalDock.{
  open_panel_page, open_portals_page, do_call, PortalView, PortalDock, Address, PortalTexts,
}
use src_link.Schema.Json.{JsonObject, is_empty}
use src_link.Prelude.{some, if◌then◌else◌, ℕ, Bool, String, List, [], ◌∷◌, true, false, none}

abbrev no_address : Address
no_address = record { host_text = ""; port_text = ""; url_text = "" }

-- The dock before its constructor asks the client; `setting` is the portal of the settings.
abbrev pub new_portal_dock : String → PortalDock
new_portal_dock setting = record {
  login_button = "";
  name_label = "";
  portal_shown = true;
  sign_up_shown = true;
  hint_shown = true;
  hint = "";
  hint_theme = "";
  portal_status = "";
  portal_theme = "";
  portal_box = empty_box;
  owner_picture = plain_picture;
  portal_picture = plain_picture;
  info_shown = false;
  tabs_shown = true;
  info_checked = false;
  tls_tab_shown = false;
  plain_tab_shown = false;
  tls_address = no_address;
  plain_address = no_address;
  ws_portal_id = setting;
  portal_effects = [];
}

abbrev pub known_owner : PortalTexts → PortalView → PortalDock → PortalDock
known_owner t v d = if is_empty v.known_info then d else on_portal_account_ready t v v.known_info d

abbrev pub listed_portals : PortalTexts → PortalView → List JsonObject → PortalDock → PortalDock
listed_portals t v [] d = d
listed_portals t v (p ∷ ps) d = on_portals_ready t v (p ∷ ps) d

unfoldable pub created_portal_dock : PortalTexts → PortalView → String → PortalDock
unfolding on_portal_account_ready
created_portal_dock t v setting = show_state "Unlinked" "text-danger" (
    listed_portals t v v.known_portals
      (known_owner t v (set_portal_client_active t v v.is_logged_in (new_portal_dock setting))))

pub data PortalDockEvent : Type 0 where
  owner_came : JsonObject → PortalDockEvent
  portals_came : List JsonObject → PortalDockEvent
  portal_selected : ℕ → PortalDockEvent
  portal_picture_came portal_picture_missing : String → PortalDockEvent
  portal_logged_out linked_event unlinked_event retrying_event : PortalDockEvent
  info_toggled login_clicked : Bool → PortalDockEvent
  portals_page_clicked panel_page_clicked : PortalDockEvent

abbrev pub toggle_info : Bool → PortalDock → PortalDock
toggle_info b d = record d { info_checked = b; tabs_shown = b }

unfoldable pub portal_dock_step :
    PortalTexts → PortalView → PortalDockEvent → PortalDock → PortalDock
unfolding set_portal_picture on_portal_linked
portal_dock_step t v (owner_came o) d = on_portal_account_ready t v o d
portal_dock_step t v (portals_came ps) d = on_portals_ready t v ps d
portal_dock_step t v (portal_selected i) d = select_portal t v i d
portal_dock_step t v (portal_picture_came id) d = set_portal_picture id (some id) d
portal_dock_step t v (portal_picture_missing id) d = set_portal_picture id none d
portal_dock_step t v portal_logged_out d = set_portal_client_active t v false d
portal_dock_step t v linked_event d = on_portal_linked d
portal_dock_step t v unlinked_event d = on_portal_unlinked d
portal_dock_step t v retrying_event d = on_portal_retrying d
portal_dock_step t v (info_toggled b) d = toggle_info b d
portal_dock_step t v (login_clicked sure) d = on_login_button_clicked v sure d
portal_dock_step t v portals_page_clicked d = do_call open_portals_page d
portal_dock_step t v panel_page_clicked d = do_call open_panel_page d

unfoldable pub run_portal_dock :
    PortalTexts → List (PortalView × PortalDockEvent) → PortalDock → PortalDock
unfolding portal_dock_step
run_portal_dock t [] d = d
run_portal_dock t ((v, e) ∷ es) d = run_portal_dock t es (portal_dock_step t v e d)
