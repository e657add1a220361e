-- ===== src/PortalDock/Kept.antt =====
-- src/UI/ws-portal-dock.cpp: what holds of the dock of the portals whatever happens to it.
use src_link.Schema.Accounts.{account_info}
use src_link.PortalDock.{update_portal_guidance, str_eq, PortalView, PortalTexts, PortalDock}
use src_link.PortalDock.Slots.{
  show_state, portal_items, on_login_button_clicked, show_portal_logout, show_owner, wished,
  on_portal_retrying, on_active_ws_portal_changed, show_portal_login, restored_box,
  on_portal_unlinked, fill_portals, no_portal_picture, on_portal_linked, on_portals_ready,
  set_portal_client_active, select_portal, on_portal_account_ready, set_portal_picture,
  clear_portals,
}
use src_link.Schema.Json.{JsonObject, is_empty}
use src_link.Prelude.{
  ap, str_eq_iff, arith, inr, if◌then◌else◌, ◌∙◌, refl, sym, ◌⊎◌, Bool, Option, ℕ, inl, ◌≡◌, String,
  List, [], ◌∷◌, true, false, none, some,
}
use src_link.Dock.State.{current_data, empty_box, with_index, same_index}
use src_link.PortalDock.Step.{
  portals_page_clicked, retrying_event, unlinked_event, linked_event, portal_logged_out,
  login_clicked, info_toggled, portal_picture_missing, portal_picture_came, portal_selected,
  portals_came, owner_came, known_owner, new_portal_dock, PortalDockEvent, listed_portals,
  created_portal_dock, run_portal_dock, portal_dock_step, panel_page_clicked,
}
use src_link.PortalDock.Frame.{
  portal_guidance-parts, active-Sound, Sound-parts, if-Sound, Sound, PortalInStep, PortalPictured,
}

same_selection :
    (d d' : PortalDock)
    → current_data d.portal_box ≡ current_data d'.portal_box
    → d'.ws_portal_id ≡ d.ws_portal_id
    → PortalInStep d
    → PortalInStep d'
same_selection d d' e f (inl nothing) = inl (sym e ∙ nothing)
same_selection d d' e f (inr (inl unset)) = inr (inl (f ∙ unset))
same_selection d d' e f (inr (inr same)) = inr (inr (f ∙ same ∙ e))

no_picture-keeps :
    (ps : List JsonObject) (d : PortalDock)
    → ((no_portal_picture ps d).portal_box ≡ d.portal_box)
      × ((no_portal_picture ps d).ws_portal_id ≡ d.ws_portal_id)
      × (PortalPictured d → PortalPictured (no_portal_picture ps d))
no_picture-keeps [] d = (refl, refl, λ h. inl refl)
no_picture-keeps (p ∷ ps) d = (refl, refl, λ h. h)

portals-Sound :
    (t : PortalTexts) (v : PortalView) (ps : List JsonObject) (d : PortalDock)
    → Sound d
    → Sound (on_portals_ready t v ps d)
unfolding on_portals_ready
portals-Sound t v ps d (step, shown) =
    let filled = fill_portals t ps d in
    let prev = current_data d.portal_box in
    let boxed : PortalDock = record d {
      portal_box = restored_box (wished prev d.ws_portal_id) (portal_items t ps);
    } in
    let (box, setting, pictured) = no_picture-keeps ps boxed in
    if-Sound (str_eq prev (current_data filled.portal_box)) filled
      (on_active_ws_portal_changed t v filled)
      (λ same. (
        same_selection d filled ((str_eq_iff prev (current_data filled.portal_box)).0 same) setting
            step,
        pictured shown,
      ))
      λ new. active-Sound t v filled

select-Sound :
    (t : PortalTexts) (v : PortalView) (i : ℕ) (d : PortalDock)
    → Sound d
    → Sound (select_portal t v i d)
unfolding select_portal
select-Sound t v i d sound =
    let box = with_index d.portal_box.items i in
    let chosen : PortalDock = record d { portal_box = box } in
    if-Sound (same_index d.portal_box.index box.index) d (on_active_ws_portal_changed t v chosen)
      (λ same. sound) λ new. active-Sound t v chosen

clear-Sound :
    (t : PortalTexts) (v : PortalView) (d : PortalDock) → Sound d → Sound (clear_portals t v d)
unfolding clear_portals
clear-Sound t v d sound =
    let cleared : PortalDock = record d { portal_box = empty_box } in
    if-Sound (same_index d.portal_box.index none) cleared (on_active_ws_portal_changed t v cleared)
      (λ same. (inl refl, sound.1)) λ new. active-Sound t v cleared

client-Sound :
    (t : PortalTexts) (v : PortalView) (active : Bool) (d : PortalDock)
    → Sound d
    → Sound (set_portal_client_active t v active d)
unfolding set_portal_client_active
client-Sound t v false d sound = clear-Sound t v (show_portal_login d) sound
client-Sound t v true d sound =
    Sound-parts (show_portal_logout d) (update_portal_guidance (show_portal_logout d))
      (portal_guidance-parts (show_portal_logout d)) sound

owner-Sound :
    (t : PortalTexts) (v : PortalView) (o : JsonObject) (d : PortalDock)
    → Sound d
    → Sound (on_portal_account_ready t v o d)
unfolding on_portal_account_ready
owner-Sound t v o d sound =
    let a = (account_info o).account in
    let active = set_portal_client_active t v true d in
    Sound-parts active (show_owner a.display_name a.picture_id active) (ground arith)
      (client-Sound t v true d sound)

matching :
    (d : PortalDock) (id : String) (picture : Option String)
    → (picture ≡ none) ⊎ (picture ≡ some id)
    → str_eq id d.portal_picture.picture_id ≡ true
    → PortalPictured (record d { portal_picture = record d.portal_picture { shown = picture } })
matching d id picture (inl e) same = inl e
matching d id picture (inr e) same =
    inr (e ∙ ap some ((str_eq_iff id d.portal_picture.picture_id).0 same))

picture-Sound :
    (id : String) (picture : Option String) (d : PortalDock)
    → (picture ≡ none) ⊎ (picture ≡ some id)
    → Sound d
    → Sound (set_portal_picture id picture d)
unfolding set_portal_picture
picture-Sound id picture d right sound =
    let staged : PortalDock = record d {
      portal_picture = record d.portal_picture { shown = picture };
    } in
    let owner : PortalDock = record d {
      owner_picture = record d.owner_picture { shown = picture };
    } in
    let other = str_eq id d.owner_picture.picture_id in
    if-Sound (str_eq id d.portal_picture.picture_id) staged (if other then owner else d)
      (λ same. (sound.0, matching d id picture right same))
      λ differs. if-Sound other owner d (λ e. sound) λ e. sound

step-Sound :
    (t : PortalTexts) (v : PortalView) (e : PortalDockEvent) (d : PortalDock)
    → Sound d
    → Sound (portal_dock_step t v e d)
unfolding portal_dock_step on_portal_linked on_portal_unlinked on_portal_retrying
    on_login_button_clicked
step-Sound t v (owner_came o) d s = owner-Sound t v o d s
step-Sound t v (portals_came ps) d s = portals-Sound t v ps d s
step-Sound t v (portal_selected i) d s = select-Sound t v i d s
step-Sound t v (portal_picture_came id) d s = picture-Sound id (some id) d (inr refl) s
step-Sound t v (portal_picture_missing id) d s = picture-Sound id none d (inl refl) s
step-Sound t v portal_logged_out d s = client-Sound t v false d s
step-Sound t v linked_event d s =
    let told = show_state "Linked" "text-success" d in
    Sound-parts told (update_portal_guidance told) (portal_guidance-parts told) s
step-Sound t v unlinked_event d s =
    let told = show_state "Unlinked" "text-danger" d in
    Sound-parts told (update_portal_guidance told) (portal_guidance-parts told) s
step-Sound t v retrying_event d s = s
step-Sound t v (info_toggled b) d s = s
step-Sound t v (login_clicked sure) d s =
    Sound-parts d (on_login_button_clicked v sure d) (ground arith) s
step-Sound t v portals_page_clicked d s = s
step-Sound t v panel_page_clicked d s = s

run-Sound :
    (t : PortalTexts) (es : List (PortalView × PortalDockEvent)) (d : PortalDock)
    → Sound d
    → Sound (run_portal_dock t es d)
unfolding run_portal_dock
run-Sound t [] d s = s
run-Sound t ((v, e) ∷ es) d s = run-Sound t es (portal_dock_step t v e d) (step-Sound t v e d s)

listed-Sound :
    (t : PortalTexts) (v : PortalView) (ps : List JsonObject) (d : PortalDock)
    → Sound d
    → Sound (listed_portals t v ps d)
listed-Sound t v [] d s = s
listed-Sound t v (p ∷ ps) d s = portals-Sound t v (p ∷ ps) d s

created-Sound :
    (t : PortalTexts) (v : PortalView) (setting : String) → Sound (created_portal_dock t v setting)
unfolding created_portal_dock
created-Sound t v setting =
    let start = set_portal_client_active t v v.is_logged_in (new_portal_dock setting) in
    let sound = client-Sound t v v.is_logged_in (new_portal_dock setting) (inl refl, inl refl) in
    listed-Sound t v v.known_portals (known_owner t v start) (
      if-Sound (is_empty v.known_info) start (on_portal_account_ready t v v.known_info start)
        (λ e. sound) λ e. owner-Sound t v v.known_info start sound)

-- From the dock's construction on, whatever happens and whatever the client answers, as long as
-- only the dock writes the setting: where an item with data is selected, the portal of the
-- settings is that item's, or none; and the portal's label shows the default picture or the one of
-- its picture id.
pub run_portal_dock-Kept :
    (t : PortalTexts) (v : PortalView) (setting : String) (es : List (PortalView × PortalDockEvent))
    → let d = run_portal_dock t es (created_portal_dock t v setting) in
      PortalInStep d × PortalPictured d
run_portal_dock-Kept t v setting es =
    run-Sound t es (created_portal_dock t v setting) (created-Sound t v setting)
