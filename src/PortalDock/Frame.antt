-- ===== src/PortalDock/Frame.antt =====
-- src/UI/ws-portal-dock.cpp: the parts of the dock of the portals that its slots keep, and a
-- change of the selection.
use src_link.PortalDock.Slots.{show_portal_picture, set_portal, on_active_ws_portal_changed}
use src_link.Schema.Portals.{ws_portal}
use src_link.PortalDock.{
  or_empty, str_eq, portal_key, PortalTexts, PortalView, update_portal_guidance,
  update_connection_info, PortalDock, get_active_ws_portal,
}
use src_link.Schema.Json.{value, JsonObject, is_empty}
use src_link.Prelude.{
  ◌||◌, str_eq_iff, inr, ◌∙◌, inl, refl, sym, Bool-cases, Option, if◌then◌else◌, ◌⊎◌, List, arith,
  subst, String, Bool, ◌≡◌, [], ◌∷◌, true, false, none, some,
}
use src_link.Schema.Array.{find, first, find-eq-first}
use src_link.Dock.State.{ComboBox, PictureLabel, current_data}

-- The portal of the settings is the one that is selected, or none.
abbrev pub PortalInStep : PortalDock → Type 0
PortalInStep d =
    (current_data d.portal_box ≡ "")
    ⊎ ((d.ws_portal_id ≡ "") ⊎ (d.ws_portal_id ≡ current_data d.portal_box))

abbrev pub PortalPictured : PortalDock → Type 0
PortalPictured d =
    (d.portal_picture.shown ≡ none) ⊎ (d.portal_picture.shown ≡ some d.portal_picture.picture_id)

abbrev pub Sound : PortalDock → Type 0
Sound d = PortalInStep d × PortalPictured d

abbrev pub Parts : Type 0
Parts = ComboBox × String × PictureLabel

abbrev pub parts : PortalDock → Parts
parts d = (d.portal_box, d.ws_portal_id, d.portal_picture)

abbrev pub SoundParts : Parts → Type 0
SoundParts (box, id, picture) =
    ((current_data box ≡ "") ⊎ ((id ≡ "") ⊎ (id ≡ current_data box)))
    × ((picture.shown ≡ none) ⊎ (picture.shown ≡ some picture.picture_id))

pub Sound-parts : (d d' : PortalDock) → parts d' ≡ parts d → Sound d → Sound d'
Sound-parts d d' e sound = subst (λ (c : Parts). SoundParts c) (sym e) sound

pub if-Sound :
    (b : Bool) (x y : PortalDock)
    → (b ≡ true → Sound x)
    → (b ≡ false → Sound y)
    → Sound (if b then x else y)
if-Sound true x y g h = g refl
if-Sound false x y g h = h refl

first-passes :
    (p : JsonObject → Bool) (xs : List JsonObject) (o : JsonObject)
    → first p xs ≡ some o
    → p o ≡ true
unfolding first
first-passes p [] o h = cc
first-passes p (x ∷ xs) o h = elim (Bool-cases (p x)) [
  | inl e ↦ ground (arith, first-passes p xs o)
  | inr e ↦ first-passes p xs o (ground arith)
]

found_key :
    (id : String) (r : Option JsonObject)
    → ((o : JsonObject) → r ≡ some o → str_eq (portal_key o) id ≡ true)
    → (portal_key (or_empty r) ≡ "") ⊎ (portal_key (or_empty r) ≡ id)
unfolding ws_portal value
found_key id none h = inl refl
found_key id (some o) h = inr ((str_eq_iff (portal_key o) id).0 (h o refl))

active-key :
    (v : PortalView) (d : PortalDock)
    → (portal_key (get_active_ws_portal v d) ≡ "")
      ⊎ (portal_key (get_active_ws_portal v d) ≡ current_data d.portal_box)
unfolding get_active_ws_portal
active-key v d =
    let id = current_data d.portal_box in
    let is_it : JsonObject → Bool = λ o. str_eq (portal_key o) id in
    found_key id (find is_it v.known_portals)
      λ o e. first-passes is_it v.known_portals o (sym (find-eq-first is_it v.known_portals) ∙ e)

pub portal_guidance-parts : (d : PortalDock) → parts (update_portal_guidance d) ≡ parts d
unfolding update_portal_guidance
portal_guidance-parts d = ground arith

connection_info-parts :
    (t : PortalTexts) (v : PortalView) (d : PortalDock)
    → parts (update_connection_info t v d) ≡ parts d
unfolding update_connection_info
connection_info-parts t v d = ground arith

-- The parts after a portal was put into the settings.
settled :
    (id : String) (d : PortalDock)
    → (id ≡ "") ⊎ (id ≡ current_data d.portal_box)
    → PortalPictured d
    → Sound (set_portal id d)
settled id d e shown = elim (Bool-cases (str_eq d.ws_portal_id id)) [
  | inl same ↦
      let agrees = (str_eq_iff d.ws_portal_id id).0 same in
      rw (same, set_portal)
        (
          inr (subst (λ (s : String). (s ≡ "") ⊎ (s ≡ current_data d.portal_box)) (sym agrees) e),
          shown,
        )
  | inr new ↦ rw (new, set_portal) (inr e, shown)
]

picture-parts :
    (o : JsonObject) (d : PortalDock)
    → ((show_portal_picture o d).portal_box ≡ d.portal_box)
      × PortalPictured (show_portal_picture o d)
picture-parts o d = elim (Bool-cases (is_empty o || str_eq (ws_portal o).picture_id "")) [
  | inl without ↦ rw (without, show_portal_picture) (refl, inl refl)
  | inr present ↦ rw (present, show_portal_picture) (refl, inl refl)
]

pub active-Sound :
    (t : PortalTexts) (v : PortalView) (d : PortalDock) → Sound (on_active_ws_portal_changed t v d)
unfolding on_active_ws_portal_changed
active-Sound t v d =
    let o = get_active_ws_portal v d in
    let shown = show_portal_picture o d in
    let (box, pictured) = picture-parts o d in
    let put = set_portal (portal_key o) shown in
    let told = update_connection_info t v put in
    let key =
      subst (λ (b : ComboBox). (portal_key o ≡ "") ⊎ (portal_key o ≡ current_data b)) (sym box)
        (active-key v d) in
    Sound-parts put (update_portal_guidance told)
      (portal_guidance-parts told ∙ connection_info-parts t v put)
      (settled (portal_key o) shown key pictured)
