-- ===== src/OutputWidget/Chosen.antt =====
-- src/UI/egress-link-connection-widget.cpp: the source that the combo box shows is the output's.
use src_link.Schema.Stages.{StageSource}
use src_link.Dock.Choice.{with_index-data}
use src_link.Schema.Array.{find_index-some}
use src_link.Egress.State.{Status, Obs, Output}
use src_link.Egress.Monitor.{update, set_visible, set_source_uuid}
use src_link.Dock.State.{
  ComboBox, item_at, data_at, same_index, Item, find_data, with_index, current_data,
}
use src_link.OutputWidget.{
  on_accept, settings_accepted, listed_scene, listed_source, listed_items, blank_widget,
  created_widget, scripting_ends, sources_changed, source_told, visibility_clicked, recording_told,
  status_told, source_selected, on_recording_status_changed, show_label, source_items, WidgetEvent,
  on_visibility_changed, Listing, set_source, run_widget, widget_step, select_source,
  update_source_list, on_output_status_changed, str_eq, on_video_source_changed, OutputWidget,
  select_listed, first_selection,
}
use src_link.Prelude.{
  ◌++◌, if◌then◌else◌, ap, Bool, ◌∷◌, [], refl, inr, ◌∙◌, str_eq_iff, inl, Bool-cases, sym, List, ℕ,
  String, ◌≡◌, Option, true, false, none, some,
}

abbrev pub Agrees : OutputWidget → Type 0
Agrees u = current_data u.video_source_box ≡ u.output.settings.source_uuid

abbrev pub Named : OutputWidget → Type 0
Named u = u.output.name ≡ u.shown_source.name

set_source_uuid-value :
    (s : String) (o : Output)
    → ((set_source_uuid s o).settings.source_uuid ≡ s) × ((set_source_uuid s o).name ≡ o.name)
unfolding set_source_uuid
set_source_uuid-value s o = elim (Bool-cases (str_eq s o.settings.source_uuid)) [
  | inl same ↦ rw (same, set_source_uuid) (sym ((str_eq_iff s o.settings.source_uuid).0 same), refl)
  | inr new ↦ rw (new, set_source_uuid) (refl, refl)
]

on_video_source_changed-Agrees :
    (u : OutputWidget)
    → Agrees (on_video_source_changed u) × ((on_video_source_changed u).output.name ≡ u.output.name)
unfolding on_video_source_changed
on_video_source_changed-Agrees u =
    let (value, name) = set_source_uuid-value (current_data u.video_source_box) u.output in
    (sym value, name)

found_item :
    (s : String) (items : List Item) (i : ℕ)
    → find_data s items ≡ some i
    → current_data (with_index items i) ≡ s
found_item s items i f =
    let (v, at, same) = find_index-some (λ (x : Item). str_eq x.data_of s) items i f in
    with_index-data items i v at ∙ (str_eq_iff v.data_of s).0 same

select_listed-Agrees :
    (r : Option ℕ) (items : List Item) (u : OutputWidget)
    → find_data u.output.settings.source_uuid items ≡ r
    → Agrees (select_listed r items u) × ((select_listed r items u).output.name ≡ u.output.name)
select_listed-Agrees none items u f =
    on_video_source_changed-Agrees (record u { video_source_box = with_index items 0 })
select_listed-Agrees (some i) items u f = (found_item u.output.settings.source_uuid items i f, refl)

select_listed-source :
    (r : Option ℕ) (items : List Item) (u : OutputWidget)
    → (select_listed r items u).shown_source ≡ u.shown_source
unfolding on_video_source_changed
select_listed-source none items u = refl
select_listed-source (some i) items u = refl

abbrev pub Fits : OutputWidget → Type 0
Fits u = Agrees u × Named u

update_source_list-Fits :
    (w : Obs) (l : Listing) (u : OutputWidget) → Named u → Fits (update_source_list w l u)
unfolding update_source_list
update_source_list-Fits w l u named =
    let items = source_items w l in
    let r = find_data u.output.settings.source_uuid items in
    let (agrees, name) = select_listed-Agrees r items u refl in
    (agrees, name ∙ named ∙ sym (ap (λ (s : StageSource). s.name) (select_listed-source r items u)))

select_source-Fits : (i : ℕ) (u : OutputWidget) → Fits u → Fits (select_source i u)
unfolding select_source
select_source-Fits i u (agrees, named) =
    let box = with_index u.video_source_box.items i in
    let chosen : OutputWidget = record u { video_source_box = box } in
    elim (Bool-cases (same_index u.video_source_box.index box.index)) [
      | inl same ↦ rw (same, select_source) (agrees, named)
      | inr new ↦
          let (right, name) = on_video_source_changed-Agrees chosen in
          rw (new, select_source) (right, name ∙ named)
    ]

status-Fits :
    (w : Obs) (l : Listing) (s : Status) (u : OutputWidget)
    → Fits u
    → Fits (on_output_status_changed w l s u)
unfolding on_output_status_changed
status-Fits w l Status.activating u f = f
status-Fits w l Status.active u f = f
status-Fits w l Status.stand_by u f = f
status-Fits w l Status.error u f =
    update_source_list-Fits w l (show_label "Error" "text-danger" false false u) f.1
status-Fits w l Status.inactive u f = f
status-Fits w l Status.disabled u f = f
status-Fits w l Status.reconnecting u f = f
status-Fits w l Status.changing u f = f

-- The settings that are accepted have the source that the output has then.
abbrev pub Returns : WidgetEvent → OutputWidget → Type 0
Returns (settings_accepted applied) u = applied.source_uuid ≡ u.output.settings.source_uuid
Returns (source_selected i) u = Unit
Returns (status_told s) u = Unit
Returns (recording_told s) u = Unit
Returns sources_changed u = Unit
Returns scripting_ends u = Unit
Returns (visibility_clicked b) u = Unit
Returns (source_told s) u = Unit

abbrev pub AllReturn : List (Obs × Listing × WidgetEvent) → OutputWidget → Type 0
AllReturn [] u = Unit
AllReturn ((w, l, e) ∷ es) u = Returns e u × AllReturn es (widget_step w l e u)

if-Fits : (b : Bool) (u v : OutputWidget) → Fits u → Fits v → Fits (if b then u else v)
if-Fits true u v f g = f
if-Fits false u v f g = g

widget_step-Fits :
    (w : Obs) (l : Listing) (e : WidgetEvent) (u : OutputWidget)
    → Returns e u
    → Fits u
    → Fits (widget_step w l e u)
unfolding widget_step set_source on_visibility_changed set_visible on_recording_status_changed
    on_accept update
widget_step-Fits w l (source_selected i) u k f = select_source-Fits i u f
widget_step-Fits w l (status_told s) u k f = status-Fits w l s u f
widget_step-Fits w l (recording_told s) u k f = f
widget_step-Fits w l sources_changed u k f =
    if-Fits u.connected (update_source_list w l u) u (update_source_list-Fits w l u f.1) f
widget_step-Fits w l scripting_ends u k f = f
widget_step-Fits w l (visibility_clicked b) u k f = f
widget_step-Fits w l (source_told s) u k f = (f.0, refl)
widget_step-Fits w l (settings_accepted applied) u k f = (f.0 ∙ sym k, f.1)

run_on-Fits :
    (es : List (Obs × Listing × WidgetEvent)) (u : OutputWidget)
    → AllReturn es u
    → Fits u
    → Fits (run_widget es u)
unfolding run_widget
run_on-Fits [] u k f = f
run_on-Fits ((w, l, e) ∷ es) u k f =
    run_on-Fits es (widget_step w l e u) k.1 (widget_step-Fits w l e u k.0 f)

found_at :
    (s : String) (items : List Item) (i : ℕ)
    → find_data s items ≡ some i
    → current_data (record { items = items; index = find_data s items }) ≡ s
found_at s items i f =
    let (v, at, same) = find_index-some (λ (x : Item). str_eq x.data_of s) items i f in
    ap (λ (r : Option ℕ). data_at (item_at items r)) f
    ∙ ap data_at at
    ∙ (str_eq_iff v.data_of s).0 same

abbrev no_source : String → Item
no_source label = record { label = label; data_of = "" }

-- The selection of the constructor.
abbrev picked : String → List Item → ComboBox
picked s items =
    if str_eq s "" then with_index items 0 else record { items = items; index = find_data s items }

abbrev selected_if : String → List Item → Bool → ComboBox
selected_if s items b =
    if b then with_index items 0 else record { items = items; index = find_data s items }

empty_data :
    (label s : String) (rest : List Item)
    → str_eq s "" ≡ true
    → current_data (picked s (no_source label ∷ rest)) ≡ s
empty_data label s rest empty =
    ap (λ (b : Bool). current_data (selected_if s (no_source label ∷ rest) b)) empty
    ∙ with_index-data (no_source label ∷ rest) 0 (no_source label) refl
    ∙ sym ((str_eq_iff s "").0 empty)

listed_data :
    (label s : String) (rest : List Item) (i : ℕ)
    → find_data s (no_source label ∷ rest) ≡ some i
    → current_data (picked s (no_source label ∷ rest)) ≡ s
listed_data label s rest i f = elim (Bool-cases (str_eq s "")) [
  | inl empty ↦ empty_data label s rest empty
  | inr full ↦
      ap (λ (b : Bool). current_data (selected_if s (no_source label ∷ rest) b)) full
      ∙ found_at s (no_source label ∷ rest) i f
]

first_selection-Agrees :
    (r : Option ℕ) (label : String) (rest : List Item) (u : OutputWidget)
    → find_data u.output.settings.source_uuid (no_source label ∷ rest) ≡ r
    → Agrees (first_selection (select_listed r (no_source label ∷ rest) u))
unfolding on_video_source_changed
first_selection-Agrees none label rest u f =
    let box = with_index (no_source label ∷ rest) 0 in
    let s = (set_source_uuid (current_data box) u.output).settings.source_uuid in
    let value : s ≡ "" =
      (set_source_uuid-value (current_data box) u.output).0
      ∙ with_index-data (no_source label ∷ rest) 0 (no_source label) refl in
    empty_data label s rest ((str_eq_iff s "").1 value)
first_selection-Agrees (some i) label rest u f =
    listed_data label u.output.settings.source_uuid rest i f

created_widget-Fits :
    (w : Obs) (l : Listing) (s : StageSource) (o : Output) → Fits (created_widget w l s o)
unfolding created_widget on_output_status_changed set_source update_source_list source_items
created_widget-Fits w l s o =
    let u : OutputWidget = show_label "Inactive" "" false false (set_source s (blank_widget s o)) in
    let rest : List Item =
      record { label = "ProgramOut"; data_of = "program" }
        ∷ listed_items (listed_source w) l.sources
      ++ listed_items (listed_scene w) l.scene_sources in
    let items = no_source "None" ∷ rest in
    let r = find_data u.output.settings.source_uuid items in
    (
      first_selection-Agrees r "None" rest u refl,
      (select_listed-Agrees r items u refl).1
          ∙ sym (ap (λ (s : StageSource). s.name) (select_listed-source r items u)),
    )

-- From the construction of the widget on, whatever happens to it, the source that its combo box
-- shows is the one of the output's settings, and the output has the name of the stage's source;
-- provided that each time the settings dialog is accepted, the settings that it gives have the
-- source that the output has then.
pub run_widget-Fits :
    (w : Obs) (l : Listing) (s : StageSource) (o : Output) (es : List (Obs × Listing × WidgetEvent))
    → AllReturn es (created_widget w l s o)
    → let u = run_widget es (created_widget w l s o) in
      (current_data u.video_source_box ≡ u.output.settings.source_uuid)
      × (u.output.name ≡ u.shown_source.name)
run_widget-Fits w l s o es k =
    run_on-Fits es (created_widget w l s o) k (created_widget-Fits w l s o)
