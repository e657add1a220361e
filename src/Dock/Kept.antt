-- ===== src/Dock/Kept.antt =====
-- src/UI/egress-link-dock.cpp: what holds of the dock whatever happens to it.
use src_link.Schema.Connections.{uplink_resource}
use src_link.Schema.Accounts.{account_info}
use src_link.Dock.Step.{
  signup_clicked, known_account, memberships_clicked, known_participants, new_dock,
  control_panel_clicked, logged_out, uplink_failed_came, invite_code_given, connection_clicked,
  put_uplink_failed_came, picture_missing, picture_came, interlock_selected, participant_selected,
  participants_came, uplink_came, account_info_came, dock_step, created_dock, run_dock, DockEvent,
}
use src_link.Dock.Selected.{Pictured}
use src_link.Dock.Shown.{Arranged}
use src_link.Prelude.{◌∷◌, [], some, false, refl, inl, inr, none, arith, List, String}
use src_link.Dock.Slots.{
  on_connection_button_clicked, put_error_text, select_interlock, update_guidance,
  on_logout_succeeded, show_account, show_allocation, delete_all, on_put_uplink_failed,
  on_account_info_ready, on_uplink_ready, on_uplink_failed, set_client_active,
}
use src_link.Dock.Widgets.{update_connections}
use src_link.Dock.State.{Texts, Dock, ApiView}
use src_link.Schema.Json.{is_empty, JsonObject}
use src_link.Prelude.{true, false}
use src_link.Dock.Frame.{
  on_connection_button_clicked-core, select_interlock-core, show_allocation-core, show_account-core,
  delete_all-core, update_guidance-core, Good-core, InStep, if-Good, Good,
}
use src_link.Dock.Carry.{
  participants-Good, select-Good, update_connections-Good, set_client_active-Good, set_picture-Good,
}

on_uplink_ready-Good :
    (t : Texts) (v : ApiView) (o : JsonObject) (d : Dock) → Good d → Good (on_uplink_ready t v o d)
unfolding on_uplink_ready
on_uplink_ready-Good t v o d good =
    let updated = update_connections (uplink_resource o).stage.sources d in
    let shown : Dock = show_allocation o updated in
    let cleared : Dock = record shown { error_text = "" } in
    Good-core cleared (update_guidance t v cleared) (update_guidance-core t v cleared) (
      Good-core updated shown (show_allocation-core o updated)
        (update_connections-Good (uplink_resource o).stage.sources d good))

on_uplink_failed-Good :
    (t : Texts) (v : ApiView) (d : Dock) → Good d → Good (on_uplink_failed t v d)
unfolding on_uplink_failed
on_uplink_failed-Good t v d good =
    let failed : Dock = record d {
      seat_name = "";
      allocation_status = "Error";
      status_theme = "text-danger";
    } in
    let deleted = delete_all d.connection_widgets failed in
    let emptied : Dock = record deleted { connection_widgets = [] } in
    let same = delete_all-core d.connection_widgets failed in
    let (r, step, shown) = Good-core failed deleted same good in
    Good-core emptied (update_guidance t v emptied) (update_guidance-core t v emptied)
      (omega arith, step, shown)

on_account_info_ready-Good :
    (t : Texts) (v : ApiView) (o : JsonObject) (d : Dock)
    → Good d
    → Good (on_account_info_ready t v o d)
unfolding on_account_info_ready
on_account_info_ready-Good t v o d good =
    let a = (account_info o).account in
    let active = set_client_active t v true d in
    Good-core active (show_account a.display_name a.picture_id active)
      (show_account-core a.display_name a.picture_id active)
      (set_client_active-Good t v true d good)

pub dock_step-Good :
    (t : Texts) (v : ApiView) (e : DockEvent) (d : Dock) → Good d → Good (dock_step t v e d)
unfolding dock_step on_put_uplink_failed on_logout_succeeded
dock_step-Good t v (account_info_came o) d good = on_account_info_ready-Good t v o d good
dock_step-Good t v (uplink_came o) d good = on_uplink_ready-Good t v o d good
dock_step-Good t v (participants_came ps) d good = participants-Good t v ps d good
dock_step-Good t v (participant_selected i) d good = select-Good v i d good
dock_step-Good t v (interlock_selected i) d good =
    Good-core d (select_interlock t v i d) (select_interlock-core t v i d) good
dock_step-Good t v (picture_came id) d good = set_picture-Good id (some id) d (inr refl) good
dock_step-Good t v (picture_missing id) d good = set_picture-Good id none d (inl refl) good
dock_step-Good t v uplink_failed_came d good = on_uplink_failed-Good t v d good
dock_step-Good t v logged_out d good = set_client_active-Good t v false d good
dock_step-Good t v (put_uplink_failed_came e) d good =
    let told : Dock = record d { error_text = put_error_text e } in
    Good-core told (update_guidance t v told) (update_guidance-core t v told) good
dock_step-Good t v (connection_clicked sure) d good =
    Good-core d (on_connection_button_clicked v sure d) (on_connection_button_clicked-core v sure d)
      good
dock_step-Good t v control_panel_clicked d good = good
dock_step-Good t v memberships_clicked d good = good
dock_step-Good t v signup_clicked d good = good
dock_step-Good t v (invite_code_given code) d good = good

run_dock-Good :
    (t : Texts) (es : List (ApiView × DockEvent)) (d : Dock) → Good d → Good (run_dock t es d)
unfolding run_dock
run_dock-Good t [] d good = good
run_dock-Good t ((v, e) ∷ es) d good =
    run_dock-Good t es (dock_step t v e d) (dock_step-Good t v e d good)

known_participants-Good :
    (t : Texts) (v : ApiView) (ps : List JsonObject) (d : Dock)
    → Good d
    → Good (known_participants t v ps d)
known_participants-Good t v [] d good = good
known_participants-Good t v (p ∷ ps) d good = participants-Good t v (p ∷ ps) d good

start-Good :
    (t : Texts) (v : ApiView) (setting interlock : String)
    → Good (set_client_active t v v.logged_in (new_dock setting interlock))
start-Good t v setting interlock =
    set_client_active-Good t v v.logged_in (new_dock setting interlock)
      (omega arith, inl refl, inl refl)

created_dock-Good :
    (t : Texts) (v : ApiView) (setting interlock : String)
    → Good (created_dock t v setting interlock)
unfolding created_dock
created_dock-Good t v setting interlock =
    let start = set_client_active t v v.logged_in (new_dock setting interlock) in
    let known = known_account t v start in
    known_participants-Good t v v.participants known (
      if-Good (is_empty v.account) start (on_account_info_ready t v v.account start)
        (λ e. start-Good t v setting interlock)
        λ e. on_account_info_ready-Good t v v.account start (start-Good t v setting interlock))

-- From its construction on, whatever happens to the dock and whatever the client answers, as long
-- as only the dock writes the setting: its widgets have addresses of their own; a participant that
-- is selected is the one that the settings name; and the stage's label shows the default picture
-- or the one of its picture id.
pub run_dock-Kept :
    (t : Texts) (v : ApiView) (setting interlock : String) (es : List (ApiView × DockEvent))
    → let d = run_dock t es (created_dock t v setting interlock) in
      Arranged d × InStep d × Pictured d
run_dock-Kept t v setting interlock es =
    run_dock-Good t es (created_dock t v setting interlock)
      (created_dock-Good t v setting interlock)
