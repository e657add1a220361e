-- ===== src/PortalDock/Slots.antt =====
-- src/UI/ws-portal-dock.cpp: the choice of a portal, and the slots.
use src_link.Schema.Accounts.{account_info}
use src_link.Schema.Portals.{ws_portal}
use src_link.Dock.State.{
  find_data, same_index, ComboBox, with_index, current_data, Item, empty_box, PictureLabel,
}
use src_link.PortalDock.{
  log_out, ask_login, ask_logout_first, restart_portal, fetch_picture, portal_key, do_call, str_eq,
  update_connection_info, PortalTexts, PortalView, update_portal_guidance, get_active_ws_portal,
  PortalDock,
}
use src_link.Prelude.{
  not, ◌||◌, map, Bool, if◌then◌else◌, ℕ, List, String, Option, none, some, true, false, [], ◌∷◌,
}
use src_link.Schema.Json.{JsonObject, is_empty, to_object, value}

abbrev pub plain_picture : PictureLabel
plain_picture = record { picture_id = ""; shown = none }

abbrev pub show_portal_picture : JsonObject → PortalDock → PortalDock
show_portal_picture o d =
    let id = (ws_portal o).picture_id in
    let plain : PortalDock = record d { portal_picture = plain_picture } in
    if is_empty o || str_eq id ""
    then plain
    else do_call (fetch_picture id)
        (record plain { portal_picture = record { picture_id = id; shown = none } })

abbrev pub set_portal : String → PortalDock → PortalDock
set_portal id d =
    if str_eq d.ws_portal_id id then d else do_call restart_portal (record d { ws_portal_id = id })

unfoldable pub on_active_ws_portal_changed : PortalTexts → PortalView → PortalDock → PortalDock
unfolding get_active_ws_portal update_connection_info update_portal_guidance
on_active_ws_portal_changed t v d =
    let o = get_active_ws_portal v d in
    update_portal_guidance
      (update_connection_info t v (set_portal (portal_key o) (show_portal_picture o d)))

abbrev portal_item : PortalTexts → JsonObject → Item
portal_item t o =
    let p = ws_portal o in
    let owned = t.args "%1 (%2)" p.name p.owner_account_view.display_name in
    record {
      label = if is_empty (to_object (value "owner_account_view" o)) then p.name else owned;
      data_of = portal_key o;
    }

abbrev pub portal_items : PortalTexts → List JsonObject → List Item
portal_items t [] = []
portal_items t (o ∷ os) = record { label = ""; data_of = "none" } ∷ map (portal_item t) (o ∷ os)

abbrev first_if_none : Option ℕ → ℕ
first_if_none none = 0
first_if_none (some i) = i

-- The selection is restored, or that of the settings is taken.
abbrev pub wished : String → String → String
wished prev setting = if str_eq prev "" then setting else prev

abbrev pub restored_box : String → List Item → ComboBox
restored_box s items =
    let found = with_index items (first_if_none (find_data s items)) in
    if str_eq s "" then with_index items 0 else found

abbrev pub no_portal_picture : List JsonObject → PortalDock → PortalDock
no_portal_picture [] d = record d { portal_picture = plain_picture }
no_portal_picture (o ∷ os) d = d

abbrev pub fill_portals : PortalTexts → List JsonObject → PortalDock → PortalDock
fill_portals t portals d = no_portal_picture portals (record d {
  portal_box =
      restored_box (wished (current_data d.portal_box) d.ws_portal_id) (portal_items t portals);
})

unfoldable pub on_portals_ready :
    PortalTexts → PortalView → List JsonObject → PortalDock → PortalDock
unfolding on_active_ws_portal_changed
on_portals_ready t v portals d =
    let filled = fill_portals t portals d in
    if str_eq (current_data d.portal_box) (current_data filled.portal_box)
    then filled
    else on_active_ws_portal_changed t v filled

unfoldable pub select_portal : PortalTexts → PortalView → ℕ → PortalDock → PortalDock
unfolding on_active_ws_portal_changed
select_portal t v i d =
    let box = with_index d.portal_box.items i in
    if same_index d.portal_box.index box.index
    then d
    else on_active_ws_portal_changed t v (record d { portal_box = box })

unfoldable pub clear_portals : PortalTexts → PortalView → PortalDock → PortalDock
unfolding on_active_ws_portal_changed
clear_portals t v d =
    let cleared = record d { portal_box = empty_box } in
    if same_index d.portal_box.index none then cleared else on_active_ws_portal_changed t v cleared

abbrev pub show_portal_login : PortalDock → PortalDock
show_portal_login d = record d {
  login_button = "Login";
  name_label = "NotLoggedInYet";
  portal_shown = false;
  sign_up_shown = true;
}

abbrev pub show_portal_logout : PortalDock → PortalDock
show_portal_logout d = record d {
  login_button = "Logout";
  portal_shown = true;
  sign_up_shown = false;
  hint_shown = true;
}

unfoldable pub set_portal_client_active : PortalTexts → PortalView → Bool → PortalDock → PortalDock
unfolding clear_portals update_portal_guidance
set_portal_client_active t v false d = record (clear_portals t v (show_portal_login d)) {
  hint_shown = false;
}
set_portal_client_active t v true d = update_portal_guidance (show_portal_logout d)

abbrev pub show_owner : String → String → PortalDock → PortalDock
show_owner name id d =
    let named = record d {
      name_label = name;
      owner_picture = record d.owner_picture { picture_id = id };
    } in
    if str_eq id ""
    then record named { owner_picture = plain_picture }
    else do_call (fetch_picture id) named

unfoldable pub on_portal_account_ready :
    PortalTexts → PortalView → JsonObject → PortalDock → PortalDock
unfolding set_portal_client_active
on_portal_account_ready t v o d =
    let a = (account_info o).account in
    show_owner a.display_name a.picture_id (set_portal_client_active t v true d)

-- A picture has come (`some`), or could not be had.
unfoldable pub set_portal_picture : String → Option String → PortalDock → PortalDock
set_portal_picture id picture d =
    if str_eq id d.portal_picture.picture_id
    then record d { portal_picture = record d.portal_picture { shown = picture } }
    else if str_eq id d.owner_picture.picture_id
    then record d { owner_picture = record d.owner_picture { shown = picture } }
    else d

abbrev pub show_state : String → String → PortalDock → PortalDock
show_state text theme d = record d { portal_status = text; portal_theme = theme }

unfoldable pub on_portal_linked : PortalDock → PortalDock
unfolding update_portal_guidance
on_portal_linked d = update_portal_guidance (show_state "Linked" "text-success" d)

unfoldable pub on_portal_unlinked : PortalDock → PortalDock
unfolding update_portal_guidance
on_portal_unlinked d = update_portal_guidance (show_state "Unlinked" "text-danger" d)

unfoldable pub on_portal_retrying : PortalDock → PortalDock
on_portal_retrying d = record (show_state "Retrying" "text-warning" d) {
  hint = "Guidance.ReconnectingPortal";
  hint_theme = "text-danger";
}

unfoldable pub on_login_button_clicked : PortalView → Bool → PortalDock → PortalDock
on_login_button_clicked v sure d =
    let asked = do_call ask_logout_first d in
    if not v.is_logged_in
    then do_call ask_login d
    else if sure
    then do_call log_out asked
    else asked
