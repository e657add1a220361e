-- ===== src/Tests/Docks.antt =====
-- The theorems on the dock at concrete inputs.
use src_link.Egress.Link.{Settings}
use src_link.PortalDock.Kept.{run_portal_dock-Kept}
use src_link.PortalDock.Frame.{PortalPictured, PortalInStep}
use src_link.PortalDock.Step.{
  portal_logged_out, portals_came, portal_picture_came, portal_selected, created_portal_dock,
  PortalDockEvent, run_portal_dock,
}
use src_link.PortalDock.{PortalTexts, PortalView, fancy_id}
use src_link.PortalDock.Fancy.{fancy_id-dashed, without_dashes, dashed}
use src_link.OutputWidget.Chosen.{AllReturn, run_widget-Fits}
use src_link.Tests.{camera, obs}
use src_link.OutputWidget.{
  settings_accepted, on_output_status_changed, set_source, update_source_list, source_items,
  on_video_source_changed, sources_changed, source_told, status_told, source_selected,
  created_widget, WidgetEvent, run_widget, Listing, ListedSource,
}
use src_link.Egress.State.{Status, Obs}
use src_link.Dock.Names.{update_connections-names}
use src_link.Dock.Kept.{run_dock-Kept}
use src_link.Dock.Selected.{Pictured}
use src_link.Dock.Frame.{InStep}
use src_link.Dock.Shown.{kept, Arranged}
use src_link.Dock.Widgets.{has_source_named, update_connections, has_widget}
use src_link.Schema.Stages.{StageSource}
use src_link.Dock.Step.{
  logged_out, uplink_failed_came, participant_selected, picture_came, participants_came, DockEvent,
  created_dock, new_dock, run_dock,
}
use src_link.Prelude.{refl, false, arith, ◌++◌, ◌≡◌, [], ◌∷◌, true, String, List}
use src_link.Dock.State.{ConnectionWidget, ApiView, Dock, current_data, Texts}
use src_link.Schema.Json.{set_all, str, obj, JsonObject}

abbrev stage_object_of : String → JsonObject
stage_object_of picture = set_all (("name", str "Hall") ∷ ("picture_id", str picture) ∷ [])

abbrev participant_of : String → String → JsonObject
participant_of id picture =
    set_all (("_id", str id) ∷ ("stage_view", obj (stage_object_of picture)) ∷ [])

abbrev receivers : List JsonObject
receivers = participant_of "p1" "a" ∷ participant_of "p2" "b" ∷ []

abbrev texts : Texts
texts = record { labelled = λ a b. a; guidance_for = λ t. t }

abbrev answers : ApiView
answers = record {
  logged_in = true;
  account = set_all [];
  participants = receivers;
  uplink = set_all [];
}

abbrev source_of : String → StageSource
source_of name = record { name = name; display_name = name; description = "" }

abbrev two_sources : List StageSource
two_sources = source_of "main" ∷ source_of "slides" ∷ []

abbrev one_source : List StageSource
one_source = source_of "slides" ∷ source_of "camera" ∷ []

abbrev dock : Dock
dock = new_dock "p2" "streaming"

abbrev with_two : Dock
with_two = record dock {
  connection_widgets =
      record { address = 3; source = source_of "main" }
      ∷ record { address = 7; source = source_of "slides" }
      ∷ [];
  next_address = 8;
}

update_connections-names_example :
    ((n : String)
      → has_widget n (update_connections one_source with_two).connection_widgets
        ≡ has_source_named n one_source)
    × (added : List ConnectionWidget) × ((update_connections one_source with_two).connection_widgets
        ≡ kept one_source with_two.connection_widgets ++ added)
update_connections-names_example =
    update_connections-names one_source with_two (ground arith, (ground arith, ground arith))

abbrev evening : List (ApiView × DockEvent)
evening =
    (answers, participants_came receivers)
    ∷ (answers, picture_came "b")
    ∷ (answers, participant_selected 1)
    ∷ (answers, uplink_failed_came)
    ∷ (answers, logged_out)
    ∷ []

run_dock-Kept_example :
    let d = run_dock texts evening (created_dock texts answers "p2" "streaming") in
    Arranged d × InStep d × Pictured d
run_dock-Kept_example = run_dock-Kept texts answers "p2" "streaming" evening

abbrev webcam : ListedSource
webcam = record {
  uuid = "s1";
  info = record { is_scene = false; name = "Webcam" };
  has_video = true;
  is_input = true;
  type_scene = false;
}

abbrev listing : Listing
listing = record { sources = webcam ∷ []; scene_sources = [] }

abbrev accepted_settings : Settings
accepted_settings = record camera.settings { visible = false }

abbrev changes : List (Obs × Listing × WidgetEvent)
changes =
    (obs 500, listing, settings_accepted accepted_settings)
    ∷ (obs 1000, listing, source_selected 1)
    ∷ (obs 2000, listing, status_told Status.error)
    ∷ (obs 3000, listing, source_told (source_of "slides"))
    ∷ (obs 4000, listing, sources_changed)
    ∷ []

changes-AllReturn : AllReturn changes (created_widget (obs 0) listing (source_of "main") camera)
unfolding created_widget on_output_status_changed set_source update_source_list source_items
    on_video_source_changed src_link.Schema.Array.find_index src_link.Egress.Life.created
changes-AllReturn = (refl, (tt, (tt, (tt, (tt, tt)))))

run_widget-Fits_example :
    let u = run_widget changes (created_widget (obs 0) listing (source_of "main") camera) in
    (current_data u.video_source_box ≡ u.output.settings.source_uuid)
    × (u.output.name ≡ u.shown_source.name)
run_widget-Fits_example =
    run_widget-Fits (obs 0) listing (source_of "main") camera changes changes-AllReturn

fancy_id-dashed_example :
    (fancy_id "65a1b2c3d4" ≡ dashed 4 "65a1b2c3d4")
    × (without_dashes (fancy_id "65a1b2c3d4") ≡ without_dashes "65a1b2c3d4")
fancy_id-dashed_example = fancy_id-dashed "65a1b2c3d4" (ground arith)

abbrev portal_of : String → JsonObject
portal_of id = set_all (("_id", str id) ∷ ("name", str "Studio") ∷ ("picture_id", str "c") ∷ [])

abbrev portal_texts : PortalTexts
portal_texts = record { args = λ format a b. format; number = λ n. "443" }

abbrev portal_answers : PortalView
portal_answers = record {
  is_logged_in = true;
  known_info = set_all [];
  known_portals = portal_of "w1" ∷ portal_of "w2" ∷ [];
}

abbrev portal_evening : List (PortalView × PortalDockEvent)
portal_evening =
    (portal_answers, portal_selected 2)
    ∷ (portal_answers, portal_picture_came "c")
    ∷ (portal_answers, portals_came (portal_of "w1" ∷ []))
    ∷ (portal_answers, portal_logged_out)
    ∷ []

run_portal_dock-Kept_example :
    let d =
      run_portal_dock portal_texts portal_evening
        (created_portal_dock portal_texts portal_answers "w1") in
    PortalInStep d × PortalPictured d
run_portal_dock-Kept_example = run_portal_dock-Kept portal_texts portal_answers "w1" portal_evening
