-- ===== src/Dock/Step.antt =====
-- src/UI/egress-link-dock.cpp: the constructor of class EgressLinkDock, and one step function of all that
-- can happen to it.
use src_link.Dock.Selection.{select_participant, default_picture, on_participants_ready}
use src_link.Prelude.{[], ◌∷◌, Bool, true, if◌then◌else◌, ℕ, String, List}
use src_link.Dock.State.{
  redeem, open_signup, open_memberships, open_control_panel, ask_for, empty_box, find_data, Dock,
  Item, ApiView, ComboBox, Texts,
}
use src_link.Dock.Slots.{
  on_connection_button_clicked, on_put_uplink_failed, on_uplink_failed, on_picture_failed,
  on_picture_ready, select_interlock, on_logout_succeeded, set_client_active, on_uplink_ready,
  on_account_info_ready, set_picture,
}
use src_link.Egress.Monitor.{value as setting_value}
use src_link.Schema.Json.{JsonObject, is_empty}
use src_link.ApiClient.State.{NetworkError}

abbrev interlock_items : List Item
interlock_items =
    record { label = "Streaming"; data_of = "streaming" }
    ∷ record { label = "Recording"; data_of = "recording" }
    ∷ record { label = "StreamingOrRecording"; data_of = "streaming_recording" }
    ∷ record { label = "VirtualCam"; data_of = "virtual_cam" }
    ∷ record { label = "AlwaysON"; data_of = "always_on" }
    ∷ []

-- setCurrentIndex(findData(..)): nothing that is found is the index -1.
abbrev pub interlock_box_of : String → ComboBox
interlock_box_of s = record { items = interlock_items; index = find_data s interlock_items }

-- The dock before its constructor asks the client; `setting` and `interlock` are the settings.
abbrev pub new_dock : String → String → Dock
new_dock setting interlock = record {
  connection_button = "";
  account_name = "";
  uplink_visible = true;
  signup_visible = true;
  guidance_visible = true;
  redeem_visible = true;
  participant_box = empty_box;
  interlock_box = interlock_box_of (setting_value interlock "virtual_cam");
  connection_widgets = [];
  next_address = 0;
  error_text = "";
  guidance = "";
  guidance_theme = "";
  seat_name = "";
  seat_theme = "";
  allocation_status = "";
  status_theme = "";
  account_picture = default_picture;
  participant_picture = default_picture;
  participant_id = setting;
  interlock_setting = interlock;
  effects = [];
}

abbrev pub known_account : Texts → ApiView → Dock → Dock
known_account t v d = if is_empty v.account then d else on_account_info_ready t v v.account d

abbrev pub known_participants : Texts → ApiView → List JsonObject → Dock → Dock
known_participants t v [] d = d
known_participants t v (p ∷ ps) d = on_participants_ready t v (p ∷ ps) d

unfoldable pub created_dock : Texts → ApiView → String → String → Dock
unfolding on_account_info_ready
created_dock t v setting interlock =
    known_participants t v v.participants
      (known_account t v (set_client_active t v v.logged_in (new_dock setting interlock)))

pub data DockEvent : Type 0 where
  account_info_came uplink_came : JsonObject → DockEvent
  participants_came : List JsonObject → DockEvent
  participant_selected interlock_selected : ℕ → DockEvent
  picture_came picture_missing : String → DockEvent
  uplink_failed_came logged_out : DockEvent
  put_uplink_failed_came : NetworkError → DockEvent
  connection_clicked : Bool → DockEvent
  control_panel_clicked memberships_clicked signup_clicked : DockEvent
  invite_code_given : String → DockEvent

-- One event, with what the client answers meanwhile.
unfoldable pub dock_step : Texts → ApiView → DockEvent → Dock → Dock
unfolding set_picture on_uplink_ready on_logout_succeeded
dock_step t v (account_info_came o) d = on_account_info_ready t v o d
dock_step t v (uplink_came o) d = on_uplink_ready t v o d
dock_step t v (participants_came ps) d = on_participants_ready t v ps d
dock_step t v (participant_selected i) d = select_participant v i d
dock_step t v (interlock_selected i) d = select_interlock t v i d
dock_step t v (picture_came id) d = on_picture_ready id d
dock_step t v (picture_missing id) d = on_picture_failed id d
dock_step t v uplink_failed_came d = on_uplink_failed t v d
dock_step t v logged_out d = on_logout_succeeded t v d
dock_step t v (put_uplink_failed_came e) d = on_put_uplink_failed t v e d
dock_step t v (connection_clicked sure) d = on_connection_button_clicked v sure d
dock_step t v control_panel_clicked d = ask_for open_control_panel d
dock_step t v memberships_clicked d = ask_for open_memberships d
dock_step t v signup_clicked d = ask_for open_signup d
dock_step t v (invite_code_given code) d = ask_for (redeem code) d

unfoldable pub run_dock : Texts → List (ApiView × DockEvent) → Dock → Dock
unfolding dock_step
run_dock t [] d = d
run_dock t ((v, e) ∷ es) d = run_dock t es (dock_step t v e d)
