-- ===== src/OutputWidget.antt =====
-- src/UI/egress-link-connection-widget.cpp: class EgressLinkConnectionWidget, which shows one output and
-- chooses its source.
pub mod Chosen
use src_link.Egress.Link.{Settings}
use src_link.Egress.Monitor.{update, set_visible, set_source_uuid}
use src_link.Schema.Stages.{StageSource}
use src_link.Prelude.{
  false, [], ◌++◌, true, str_eq, ◌&&◌, not, some, ◌∷◌, List, Bool, String, Option, ℕ, if◌then◌else◌,
}
use src_link.Egress.State.{is_recording, RecordingStatus, Status, Output, Obs, SourceInfo}
use src_link.Prelude.{none, some}
use src_link.Egress.Pipeline.{is_source_available}
use src_link.Dock.State.{Item, ComboBox, current_data, find_data, with_index, same_index, empty_box}

-- A source that `obs_enum_sources` or `obs_enum_scenes` reports.
pub record ListedSource : Type 0 where
  pub uuid : String
  pub info : SourceInfo
  pub has_video : Bool
  pub is_input : Bool
  pub type_scene : Bool

-- What OBS lists while a slot runs.
pub record Listing : Type 0 where
  pub sources : List ListedSource
  pub scene_sources : List ListedSource

-- A label's text is the key of its translation. `connected` is whether the two signals of OBS reach it.
pub record OutputWidget : Type 0 where
  pub output : Output
  pub shown_source : StageSource
  pub window_title : String
  pub header_label : String
  pub description_label : String
  pub description_shown : Bool
  pub visibility_checked : Bool
  pub status_label : String
  pub label_theme : String
  pub status_icon_shown : Bool
  pub statistics_shown : Bool
  pub recording_icon_shown : Bool
  pub video_source_box : ComboBox
  pub connected : Bool

abbrev pub source_item : ListedSource → Item
source_item s = record { label = s.info.name; data_of = s.uuid }

abbrev pub listed_source : Obs → ListedSource → Bool
listed_source w s = s.has_video && s.is_input && is_source_available w s.uuid s.info

abbrev pub listed_scene : Obs → ListedSource → Bool
listed_scene w s = s.type_scene && is_source_available w s.uuid s.info

abbrev pub listed_items : (ListedSource → Bool) → List ListedSource → List Item
listed_items p [] = []
listed_items p (s ∷ ss) = let rest = listed_items p ss in if p s then source_item s ∷ rest else rest

unfoldable pub source_items : Obs → Listing → List Item
unfolding is_source_available
source_items w l =
    record { label = "None"; data_of = "" }
      ∷ record { label = "ProgramOut"; data_of = "program" }
      ∷ listed_items (listed_source w) l.sources
    ++ listed_items (listed_scene w) l.scene_sources

unfoldable pub on_video_source_changed : OutputWidget → OutputWidget
on_video_source_changed u = record u {
  output = set_source_uuid (current_data u.video_source_box) u.output;
}

abbrev pub select_listed : Option ℕ → List Item → OutputWidget → OutputWidget
select_listed (some i) items u = record u { video_source_box = with_index items i }
select_listed none items u =
    on_video_source_changed (record u { video_source_box = with_index items 0 })

-- The signals of the combo box are blocked while it is filled.
unfoldable pub update_source_list : Obs → Listing → OutputWidget → OutputWidget
unfolding source_items on_video_source_changed
update_source_list w l u =
    let items = source_items w l in
    select_listed (find_data u.output.settings.source_uuid items) items u

abbrev pub show_label : String → String → Bool → Bool → OutputWidget → OutputWidget
show_label text theme icon statistics u = record u {
  status_label = text;
  label_theme = theme;
  status_icon_shown = icon;
  statistics_shown = statistics;
}

unfoldable pub on_output_status_changed : Obs → Listing → Status → OutputWidget → OutputWidget
unfolding update_source_list
on_output_status_changed w l Status.activating u =
    show_label "Activating" "text-success" true false u
on_output_status_changed w l Status.active u = show_label "Active" "text-success" true true u
on_output_status_changed w l Status.stand_by u = show_label "StandBy" "text-success" false false u
on_output_status_changed w l Status.error u =
    update_source_list w l (show_label "Error" "text-danger" false false u)
on_output_status_changed w l Status.inactive u = show_label "Inactive" "" false false u
on_output_status_changed w l Status.disabled u = show_label "Disabled" "" false false u
on_output_status_changed w l Status.reconnecting u =
    show_label "Reconnecting" "text-danger" false false u
on_output_status_changed w l Status.changing u =
    show_label "Reconnecting" "text-danger" false false u

unfoldable pub on_recording_status_changed : RecordingStatus → OutputWidget → OutputWidget
on_recording_status_changed s u = record u {
  recording_icon_shown = is_recording s RecordingStatus.active;
}

unfoldable pub set_source : StageSource → OutputWidget → OutputWidget
set_source s u = record u {
  shown_source = s;
  header_label = s.display_name;
  description_label = s.description;
  description_shown = not (str_eq s.description "");
  window_title = s.display_name;
  output = record u.output { name = s.name };
}

unfoldable pub on_visibility_changed : Bool → OutputWidget → OutputWidget
on_visibility_changed b u = record u { output = set_visible b u.output }

-- The user takes an item.
unfoldable pub select_source : ℕ → OutputWidget → OutputWidget
unfolding on_video_source_changed
select_source i u =
    let box = with_index u.video_source_box.items i in
    if same_index u.video_source_box.index box.index
    then u
    else on_video_source_changed (record u { video_source_box = box })

abbrev pub blank_widget : StageSource → Output → OutputWidget
blank_widget s o = record {
  output = o;
  shown_source = s;
  window_title = "";
  header_label = "";
  description_label = "";
  description_shown = true;
  visibility_checked = o.settings.visible;
  status_label = "";
  label_theme = "";
  status_icon_shown = false;
  statistics_shown = true;
  recording_icon_shown = false;
  video_source_box = empty_box;
  connected = true;
}

-- The selection that the constructor makes when the list is there.
abbrev pub first_selection : OutputWidget → OutputWidget
first_selection u =
    let items = u.video_source_box.items in
    let found = find_data u.output.settings.source_uuid items in
    let picked =
      if str_eq u.output.settings.source_uuid ""
      then with_index items 0
      else record { items = items; index = found } in
    record u { video_source_box = picked }

-- `o` is the output that the constructor makes for the name of the source.
unfoldable pub created_widget : Obs → Listing → StageSource → Output → OutputWidget
unfolding on_output_status_changed set_source
created_widget w l s o = first_selection (
    update_source_list w l
      (on_output_status_changed w l Status.inactive (set_source s (blank_widget s o))))

-- src/UI/output-dialog.cpp: OutputDialog::onAccept, with the settings that the dialog has had
-- since it was shown and that the user has changed. The combo box is left alone.
unfoldable pub on_accept : Settings → OutputWidget → OutputWidget
on_accept applied u = record u { output = update applied u.output }

pub data WidgetEvent : Type 0 where
  source_selected : ℕ → WidgetEvent
  status_told : Status → WidgetEvent
  recording_told : RecordingStatus → WidgetEvent
  sources_changed scripting_ends : WidgetEvent
  visibility_clicked : Bool → WidgetEvent
  source_told : StageSource → WidgetEvent
  settings_accepted : Settings → WidgetEvent

unfoldable pub widget_step : Obs → Listing → WidgetEvent → OutputWidget → OutputWidget
unfolding on_output_status_changed on_recording_status_changed set_source on_visibility_changed
    select_source
widget_step w l (source_selected i) u = select_source i u
widget_step w l (status_told s) u = on_output_status_changed w l s u
widget_step w l (recording_told s) u = on_recording_status_changed s u
widget_step w l sources_changed u = if u.connected then update_source_list w l u else u
widget_step w l scripting_ends u = record u { connected = false }
widget_step w l (visibility_clicked b) u = on_visibility_changed b u
widget_step w l (source_told s) u = set_source s u
widget_step w l (settings_accepted applied) u = on_accept applied u

unfoldable pub run_widget : List (Obs × Listing × WidgetEvent) → OutputWidget → OutputWidget
unfolding widget_step
run_widget [] u = u
run_widget ((w, l, e) ∷ es) u = run_widget es (widget_step w l e u)
