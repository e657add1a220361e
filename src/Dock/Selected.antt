-- ===== src/Dock/Selected.antt =====
-- src/UI/egress-link-dock.cpp: which participant is selected, and which one the settings name.
use src_link.Schema.Participants.{party_event_participant}
use src_link.Schema.Json.{is_empty, JsonObject}
use src_link.Dock.Selection.{
  fill_box, reset_picture, default_picture, wanted, put_participant, show_stage_picture,
  on_active_participant_changed, participant_items, participant_key, selected_box,
}
use src_link.Dock.State.{PictureLabel, ApiView, Dock, current_data, Texts}
use src_link.Prelude.{
  ◌⊎◌, str_eq_iff, ◌∙◌, ap, Option, refl, inr, inl, Bool-cases, none, map, [], some, ◌||◌, ◌≡◌,
  str_eq, ◌∷◌, List, String,
}
use src_link.Schema.Array.{find}
use src_link.Dock.Choice.{choice, selected_box-choice}

-- The slot of a new selection leaves the items and the widgets alone.
abbrev pub SameParts : Dock → Dock → Type 0
SameParts d d' =
    (d'.participant_box ≡ d.participant_box)
    × (d'.connection_widgets ≡ d.connection_widgets)
    × (d'.next_address ≡ d.next_address)

SameParts-trans : (d e f : Dock) → SameParts d e → SameParts e f → SameParts d f
SameParts-trans d e f s t = (t.0 ∙ s.0, t.1 ∙ s.1, t.2 ∙ s.2)

-- The label shows the default picture or the one of its property.
abbrev pub Pictured : Dock → Type 0
Pictured d =
    (d.participant_picture.shown ≡ none)
    ⊎ (d.participant_picture.shown ≡ some d.participant_picture.picture_id)

show_stage_picture-keeps :
    (o : Option JsonObject) (d : Dock)
    → SameParts d (show_stage_picture o d)
      × ((show_stage_picture o d).participant_picture.shown ≡ d.participant_picture.shown)
show_stage_picture-keeps none d = ((refl, refl, refl), refl)
show_stage_picture-keeps (some o) d =
    elim (Bool-cases (is_empty o || str_eq (party_event_participant o).stage_view.picture_id "")) [
      | inl without ↦ rw without ((refl, refl, refl), refl)
      | inr present ↦ rw present ((refl, refl, refl), refl)
    ]

put_participant-keeps :
    (id : String) (d : Dock)
    → SameParts d (put_participant id d)
      × ((put_participant id d).participant_id ≡ id)
      × ((put_participant id d).participant_picture ≡ d.participant_picture)
put_participant-keeps id d = elim (Bool-cases (str_eq d.participant_id id)) [
  | inl e ↦ rw e ((refl, refl, refl), (str_eq_iff d.participant_id id).0 e, refl)
  | inr e ↦ rw e ((refl, refl, refl), refl, refl)
]

pub on_active_participant_changed-keeps :
    (v : ApiView) (d : Dock)
    → let d' = on_active_participant_changed v d in
      SameParts d d' × (d'.participant_id ≡ current_data d.participant_box) × Pictured d'
unfolding on_active_participant_changed
on_active_participant_changed-keeps v d =
    let plain : Dock = record d { participant_picture = default_picture } in
    let id = current_data d.participant_box in
    let o = find (λ (o : JsonObject). str_eq (participant_key o) id) v.participants in
    let (shows, picture) = show_stage_picture-keeps o plain in
    let (puts, setting, same) = put_participant-keeps id (show_stage_picture o plain) in
    (
      (puts.0 ∙ shows.0, puts.1 ∙ shows.1, puts.2 ∙ shows.2),
      setting,
      inl (ap (λ (l : PictureLabel). l.shown) same ∙ picture),
    )

reset_picture-keeps :
    (ps : List JsonObject) (d : Dock)
    → SameParts d (reset_picture ps d)
      × ((reset_picture ps d).participant_id ≡ d.participant_id)
      × (Pictured d → Pictured (reset_picture ps d))
reset_picture-keeps [] d = ((refl, refl, refl), refl, λ h. inl refl)
reset_picture-keeps (p ∷ ps) d = ((refl, refl, refl), refl, λ h. h)

abbrev pub now : List JsonObject → Dock → String
now ps d =
    choice (map participant_key ps) (wanted (current_data d.participant_box) d.participant_id)

pub fill_box-keeps :
    (t : Texts) (ps : List JsonObject) (d : Dock)
    → let d' = fill_box t ps d in
      (current_data d'.participant_box ≡ now ps d)
      × (d'.participant_id ≡ d.participant_id)
      × (d'.connection_widgets ≡ d.connection_widgets)
      × (d'.next_address ≡ d.next_address)
      × (Pictured d → Pictured d')
fill_box-keeps t ps d =
    let want = wanted (current_data d.participant_box) d.participant_id in
    let filled : Dock = record d { participant_box = selected_box want (participant_items t ps) } in
    let (same, setting, pictured) = reset_picture-keeps ps filled in
    (ap current_data same.0 ∙ selected_box-choice t want ps, setting, same.1, same.2, pictured)
