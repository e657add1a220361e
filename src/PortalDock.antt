-- ===== src/PortalDock.antt =====
-- src/UI/ws-portal-dock.cpp: class WsPortalDock, the dock that chooses the portal of obs-websocket.
pub mod Slots
pub mod Fancy
pub mod Step
pub mod Frame
pub mod Kept
use src_link.Prelude.Int.{pos, ℤ}
use Prim.Native.Char.{Char, code}
use Prim.Native.String.{◌++◌}
use mathlib.Core.List.{◌++◌ as append}
use src_link.Prelude.{
  length, ltb, some, ℕ, suc, ◌==◌, [], ◌&&◌, ◌||◌, List, if◌then◌else◌, Option, Bool, not, str_eq,
  String, ◌∷◌, zero, none, true, false,
}
use src_link.Schema.Array.{find}
use src_link.Schema.Json.{JsonObject, is_empty, to_object, value}
use src_link.Schema.Portals.{WsPortalFacilityView, ws_portal}
use src_link.Dock.State.{
  Item, ComboBox, current_data, find_data, with_index, same_index, empty_box, PictureLabel,
}

-- The calls of the API client and of the portal client.
pub data PortalDockEffect : Type 0 where
  fetch_picture : String → PortalDockEffect
  restart_portal ask_login ask_logout_first log_out open_portals_page open_panel_page :
      PortalDockEffect

-- What the API client answers while a slot runs.
pub record PortalView : Type 0 where
  pub is_logged_in : Bool
  pub known_info : JsonObject
  pub known_portals : List JsonObject

-- `args format a b` is `QString(format).arg(a).arg(b)`, and `number` the text of a number.
pub record PortalTexts : Type 0 where
  pub args : String → String → String → String
  pub number : ℤ → String

-- The three fields of a tab.
pub record Address : Type 0 where
  pub host_text : String
  pub port_text : String
  pub url_text : String

pub record PortalDock : Type 0 where
  pub login_button : String
  pub name_label : String
  pub portal_shown : Bool
  pub sign_up_shown : Bool
  pub hint_shown : Bool
  pub hint : String
  pub hint_theme : String
  pub portal_status : String
  pub portal_theme : String
  pub portal_box : ComboBox
  pub owner_picture : PictureLabel
  pub portal_picture : PictureLabel
  pub info_shown : Bool
  pub tabs_shown : Bool
  pub info_checked : Bool
  pub tls_tab_shown : Bool
  pub plain_tab_shown : Bool
  pub tls_address : Address
  pub plain_address : Address
  pub ws_portal_id : String
  pub portal_effects : List PortalDockEffect

abbrev pub is_zero : ℤ → Bool
is_zero (pos zero) = true
is_zero _ = false

abbrev pub do_call : PortalDockEffect → PortalDock → PortalDock
do_call e d = record d { portal_effects = e ∷ d.portal_effects }

abbrev pub portal_key : JsonObject → String
portal_key o = (ws_portal o).id

-- `find` answers an empty object, whose texts are empty, if there is none.
abbrev pub or_empty : Option JsonObject → JsonObject
or_empty none = JsonObject.end
or_empty (some o) = o

unfoldable pub get_active_ws_portal : PortalView → PortalDock → JsonObject
unfolding find
get_active_ws_portal v d =
    or_empty (find (λ o. str_eq (portal_key o) (current_data d.portal_box)) v.known_portals)

abbrev say_portal_guidance : String → PortalDock → PortalDock
say_portal_guidance text d = record d { hint = text; hint_theme = "" }

unfoldable pub update_portal_guidance : PortalDock → PortalDock
update_portal_guidance d =
    let id = current_data d.portal_box in
    if ltb 1 (length d.portal_box.items)
    then if str_eq id "" || str_eq id "none"
      then say_portal_guidance "Guidance.SelectPortal" d
      else say_portal_guidance "Guidance.ConnectPortal" d
    else say_portal_guidance "Guidance.CreatePortal" d

-- src/utils.hpp: splitBy4 and fancyId. The pattern takes one to four characters, none of them a line
-- break: `p` is what the match has taken, and `room` the characters that it can still take.
abbrev pub is_line_break : Char → Bool
is_line_break c = code c == 10

abbrev pub flush : String → List String
flush String.[] = []
flush (String.◌∷◌ c p) = String.◌∷◌ c p ∷ []

abbrev pub add_to_piece : Char → String → ℕ → List String × String × ℕ
add_to_piece c p zero = (p ∷ [], String.◌∷◌ c String.[], 3)
add_to_piece c p (suc room) = ([], p ++ String.◌∷◌ c String.[], room)

abbrev pub place : Char → String → ℕ → List String × String × ℕ
place c p room = if is_line_break c then (flush p, String.[], 4) else add_to_piece c p room

abbrev pub split_from : String → ℕ → String → List String
split_from p room String.[] = flush p
split_from p room (String.◌∷◌ c s) =
    let placed = place c p room in append placed.0 (split_from placed.1 placed.2 s)

unfoldable pub split_by_4 : String → List String
split_by_4 raw = split_from String.[] 4 raw

abbrev pub join_dashes : List String → String
join_dashes [] = ""
join_dashes (s ∷ []) = s
join_dashes (s ∷ t ∷ ss) = s ++ ("-" ++ join_dashes (t ∷ ss))

unfoldable pub fancy_id : String → String
unfolding split_by_4
fancy_id raw = join_dashes (split_by_4 raw)

-- src/schema.hpp: class WsPortalFacilityView.
unfoldable pub get_host : PortalTexts → String → WsPortalFacilityView → String
get_host t id f = t.args "%1.%2" id f.address

unfoldable pub get_tls_url : PortalTexts → String → WsPortalFacilityView → String
unfolding get_host
get_tls_url t id f =
    if is_zero f.tls_port then "" else t.args "wss://%1:%2" (get_host t id f) (t.number f.tls_port)

unfoldable pub get_non_tls_url : PortalTexts → String → WsPortalFacilityView → String
unfolding get_host
get_non_tls_url t id f = t.args "ws://%1:%2" (get_host t id f) (t.number f.port)

-- The check box hides the tabs when it changes.
abbrev hide_info : PortalDock → PortalDock
hide_info d = record d {
  info_shown = false;
  info_checked = false;
  tabs_shown = not d.info_checked && d.tabs_shown;
}

abbrev show_tls : PortalTexts → String → WsPortalFacilityView → PortalDock → PortalDock
show_tls t id f d = if is_zero f.tls_port then d else record d {
  tls_tab_shown = true;
  tls_address = record {
    host_text = get_host t id f;
    port_text = t.number f.tls_port;
    url_text = get_tls_url t id f;
  };
}

abbrev show_plain : PortalTexts → String → WsPortalFacilityView → PortalDock → PortalDock
show_plain t id f d = record d {
  plain_tab_shown = true;
  plain_address = record {
    host_text = get_host t id f;
    port_text = t.number f.port;
    url_text = get_non_tls_url t id f;
  };
  tabs_shown = d.info_checked;
  info_shown = true;
}

unfoldable pub update_connection_info : PortalTexts → PortalView → PortalDock → PortalDock
unfolding get_active_ws_portal fancy_id get_tls_url get_non_tls_url
update_connection_info t v d =
    let o = get_active_ws_portal v d in
    let f = (ws_portal o).facility_view in
    let id = fancy_id (portal_key o) in
    if is_empty o || is_empty (to_object (value "facility_view" o))
    then hide_info d
    else show_plain t id f (show_tls t id f d)
