-- ===== src/Dock/Selection.antt =====
-- src/UI/egress-link-dock.cpp: onParticipantsReady and onActiveParticipantChanged.
use src_link.Schema.Participants.{party_event_participant}
use src_link.Prelude.{
  [], ◌||◌, map, str_eq, ◌∷◌, some, ℕ, none, Bool, if◌then◌else◌, List, Option, String,
}
use src_link.Dock.State.{
  put_uplink, get_picture, same_index, find_data, ask_for, current_data, ComboBox, with_index,
  empty_box, Item, Dock, ApiView, PictureLabel, Texts,
}
use src_link.Schema.Array.{find}
use src_link.Schema.Json.{JsonObject, is_empty, to_object, value}

abbrev pub none_id : String
none_id = "none"

abbrev pub participant_key : JsonObject → String
participant_key o = (party_event_participant o).id

abbrev pub owner_name : Texts → JsonObject → String
owner_name t o =
    let p = party_event_participant o in
    if is_empty (to_object (value "owner_account_view" o))
    then p.stage_view.name
    else t.labelled p.stage_view.name p.owner_account_view.display_name

abbrev pub participant_item : Texts → JsonObject → Item
participant_item t o = record { label = owner_name t o; data_of = participant_key o }

-- No selection has an item of its own, if there is any participant.
abbrev pub participant_items : Texts → List JsonObject → List Item
participant_items t [] = []
participant_items t (o ∷ os) =
    record { label = ""; data_of = none_id } ∷ map (participant_item t) (o ∷ os)

abbrev pub unselected : String → Bool
unselected s = str_eq s "" || str_eq s none_id

abbrev pub or_first : Option ℕ → ℕ
or_first none = 0
or_first (some i) = i

-- The selection is restored, or that of the settings is taken.
abbrev pub wanted : String → String → String
wanted prev setting = if unselected prev then setting else prev

abbrev pub selected_box : String → List Item → ComboBox
selected_box s items =
    let found = with_index items (or_first (find_data s items)) in
    if unselected s then with_index items 0 else found

abbrev pub default_picture : PictureLabel
default_picture = record { picture_id = ""; shown = none }

abbrev pub show_stage_picture : Option JsonObject → Dock → Dock
show_stage_picture none d = d
show_stage_picture (some o) d =
    let id = (party_event_participant o).stage_view.picture_id in
    if is_empty o || str_eq id ""
    then d
    else ask_for (get_picture id)
        (record d { participant_picture = record d.participant_picture { picture_id = id } })

abbrev pub put_participant : String → Dock → Dock
put_participant id d =
    if str_eq d.participant_id id then d else ask_for put_uplink (record d { participant_id = id })

unfoldable pub on_active_participant_changed : ApiView → Dock → Dock
unfolding find
on_active_participant_changed v d =
    let id = current_data d.participant_box in
    put_participant id (
      show_stage_picture (find (λ o. str_eq (participant_key o) id) v.participants)
        (record d { participant_picture = default_picture }))

abbrev pub reset_picture : List JsonObject → Dock → Dock
reset_picture [] d = record d { participant_picture = default_picture }
reset_picture (o ∷ os) d = d

-- The signals of the combo box are blocked while it is filled.
abbrev pub fill_box : Texts → List JsonObject → Dock → Dock
fill_box t participants d = reset_picture participants (record d {
  participant_box =
      selected_box (wanted (current_data d.participant_box) d.participant_id)
        (participant_items t participants);
})

unfoldable pub on_participants_ready : Texts → ApiView → List JsonObject → Dock → Dock
unfolding on_active_participant_changed
on_participants_ready t v participants d =
    let filled = fill_box t participants d in
    if str_eq (current_data d.participant_box) (current_data filled.participant_box)
    then filled
    else on_active_participant_changed v filled

-- The user takes an item; a change of the index is signalled.
unfoldable pub select_participant : ApiView → ℕ → Dock → Dock
unfolding on_active_participant_changed
select_participant v i d =
    let box = with_index d.participant_box.items i in
    let chosen = record d { participant_box = box } in
    if same_index d.participant_box.index box.index
    then d
    else on_active_participant_changed v chosen

-- `clear` takes the index to -1, with the signal if it was not.
unfoldable pub clear_participants : ApiView → Dock → Dock
unfolding on_active_participant_changed
clear_participants v d =
    let cleared = record d { participant_box = empty_box } in
    if same_index d.participant_box.index none
    then cleared
    else on_active_participant_changed v cleared
