-- ===== src/Dock/Slots.antt =====
-- src/UI/egress-link-dock.cpp: the other slots of class EgressLinkDock.
use src_link.Schema.Accounts.{account_info}
use src_link.Schema.Connections.{uplink_resource}
use src_link.Prelude.{
  true, not, str_eq, ◌∷◌, Option, [], Bool, none, false, ℕ, some, if◌then◌else◌, List, String,
}
use src_link.Dock.Selection.{clear_participants}
use src_link.Dock.Widgets.{clear_connections, update_connections}
use src_link.Dock.State.{
  logout, login, delete_widget, same_index, get_picture, ask_logout, ask_for, with_index,
  ConnectionWidget, current_data, Texts, ComboBox, ApiView, Dock,
}
use src_link.Schema.Json.{JsonObject, is_empty, to_object, value}
use src_link.ApiClient.State.{NetworkError, content_conflict}

abbrev pub part : String → JsonObject → JsonObject
part key o = to_object (value key o)

abbrev pub say_guidance : String → Bool → String → Dock → Dock
say_guidance text redeem_shown theme d = record d {
  guidance = text;
  redeem_visible = redeem_shown;
  guidance_theme = theme;
}

unfoldable pub update_guidance : Texts → ApiView → Dock → Dock
update_guidance t v d =
    if not (str_eq d.error_text "")
    then say_guidance d.error_text false "text-danger" d
    else if is_empty (part "stage" v.uplink)
    then say_guidance "Guidance.SelectReceiver" true "" d
    else say_guidance (t.guidance_for (current_data d.interlock_box)) false "" d

abbrev pub show_login : Dock → Dock
show_login d = record d {
  connection_button = "Login";
  account_name = "NotLoggedInYet";
  uplink_visible = false;
  signup_visible = true;
  guidance_visible = false;
}

abbrev pub show_logout : Dock → Dock
show_logout d = record d {
  connection_button = "Logout";
  uplink_visible = true;
  signup_visible = false;
  guidance_visible = true;
}

abbrev pub hide_redeem : Dock → Dock
hide_redeem d = record d { redeem_visible = false }

unfoldable pub set_client_active : Texts → ApiView → Bool → Dock → Dock
unfolding update_guidance clear_participants clear_connections
set_client_active t v false d =
    clear_connections (hide_redeem (clear_participants v (show_login d)))
set_client_active t v true d = update_guidance t v (show_logout d)

abbrev pub show_account : String → String → Dock → Dock
show_account name id d =
    let named = record d {
      account_name = name;
      account_picture = record d.account_picture { picture_id = id };
    } in
    if str_eq id ""
    then record named { account_picture = record { picture_id = id; shown = none } }
    else ask_for (get_picture id) named

unfoldable pub on_account_info_ready : Texts → ApiView → JsonObject → Dock → Dock
unfolding set_client_active
on_account_info_ready t v o d =
    let a = (account_info o).account in
    show_account a.display_name a.picture_id (set_client_active t v true d)

-- A picture has come (`some`), or could not be had.
unfoldable pub set_picture : String → Option String → Dock → Dock
set_picture id picture d =
    if str_eq id d.participant_picture.picture_id
    then record d { participant_picture = record d.participant_picture { shown = picture } }
    else if str_eq id d.account_picture.picture_id
    then record d { account_picture = record d.account_picture { shown = picture } }
    else d

abbrev pub on_picture_ready : String → Dock → Dock
on_picture_ready id d = set_picture id (some id) d

abbrev pub on_picture_failed : String → Dock → Dock
on_picture_failed id d = set_picture id none d

abbrev pub show_allocation : JsonObject → Dock → Dock
show_allocation o d =
    if not (is_empty (part "allocation" o))
    then record d {
      seat_name = (uplink_resource o).allocation.seat_name;
      allocation_status = "Ready";
      seat_theme = "text-success";
      status_theme = "text-success";
    }
    else if not (is_empty (part "stage" o))
    then record d {
      seat_name = "NoSlot";
      allocation_status = "Ready";
      seat_theme = "text-danger";
      status_theme = "text-success";
    }
    else record d { seat_name = ""; allocation_status = "NotReady"; status_theme = "text-danger" }

unfoldable pub on_uplink_ready : Texts → ApiView → JsonObject → Dock → Dock
unfolding update_guidance update_connections
on_uplink_ready t v o d =
    update_guidance t v
      (record (show_allocation o (update_connections (uplink_resource o).stage.sources d)) {
        error_text = "";
      })

-- `qDeleteAll`.
abbrev pub delete_all : List ConnectionWidget → Dock → Dock
delete_all [] d = d
delete_all (w ∷ ws) d = delete_all ws (ask_for (delete_widget w.address) d)

unfoldable pub on_uplink_failed : Texts → ApiView → Dock → Dock
unfolding update_guidance
on_uplink_failed t v d =
    update_guidance t v
      (record (delete_all d.connection_widgets
        (record d { seat_name = ""; allocation_status = "Error"; status_theme = "text-danger" })) {
          connection_widgets = [];
        })

abbrev pub put_error_text : NetworkError → String
put_error_text content_conflict = "UuidConflictErrorDueToSecurity"
put_error_text _ = "PutUplinkFailed"

unfoldable pub on_put_uplink_failed : Texts → ApiView → NetworkError → Dock → Dock
unfolding update_guidance
on_put_uplink_failed t v e d = update_guidance t v (record d { error_text = put_error_text e })

abbrev pub set_interlock : ComboBox → Dock → Dock
set_interlock box d = record d { interlock_box = box; interlock_setting = current_data box }

unfoldable pub select_interlock : Texts → ApiView → ℕ → Dock → Dock
unfolding update_guidance
select_interlock t v i d =
    let box = with_index d.interlock_box.items i in
    if same_index d.interlock_box.index box.index
    then d
    else update_guidance t v (set_interlock box d)

-- `sure` is the answer to the question whether to log out.
unfoldable pub on_connection_button_clicked : ApiView → Bool → Dock → Dock
on_connection_button_clicked v sure d =
    let asked = ask_for ask_logout d in
    if not v.logged_in then ask_for login d else if sure then ask_for logout asked else asked

unfoldable pub on_logout_succeeded : Texts → ApiView → Dock → Dock
unfolding set_client_active
on_logout_succeeded t v d = record (set_client_active t v false d) { error_text = "" }
