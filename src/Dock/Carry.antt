-- ===== src/Dock/Carry.antt =====
-- src/UI/egress-link-dock.cpp: what the selection, the widgets and the pictures keep.
use src_link.Dock.Selected.{Pictured, on_active_participant_changed-keeps, fill_box-keeps}
use src_link.Schema.Stages.{StageSource}
use src_link.Dock.Names.{clear_connections-none}
use src_link.Dock.Shown.{update_connections-Arranged, Arranged}
use src_link.Prelude.{
  if◌then◌else◌, sym, str_eq_iff, some, ◌∙◌, false, refl, ◌⊎◌, inl, ap, str_eq, inr, none, Option,
  Bool, ◌≡◌, arith, List, String, ℕ,
}
use src_link.Dock.Slots.{
  show_logout, hide_redeem, show_login, update_guidance, set_picture, set_client_active,
}
use src_link.Dock.Widgets.{drop_gone, clear_connections, update_connections}
use src_link.Dock.Selection.{
  fill_box, on_active_participant_changed, select_participant, on_participants_ready,
  clear_participants,
}
use src_link.Dock.State.{
  PictureLabel, ComboBox, same_index, with_index, empty_box, current_data, Texts, Dock, ApiView,
}
use src_link.Schema.Json.{JsonObject}
use src_link.Prelude.{true, false}
use src_link.Dock.Frame.{
  drop_gone-choices, update_guidance-core, add_new-choices, Good-core, drop_all-choices, InStep,
  if-Good, Good, choices,
}

pub active-Good : (v : ApiView) (d : Dock) → Arranged d → Good (on_active_participant_changed v d)
active-Good v d r =
    let (kept, written, shown) = on_active_participant_changed-keeps v d in
    (rw (kept.1, kept.2) r, inr (written ∙ sym (ap current_data kept.0)), shown)

agreement_carried :
    (d d' : Dock)
    → current_data d.participant_box ≡ current_data d'.participant_box
    → d'.participant_id ≡ d.participant_id
    → InStep d
    → InStep d'
agreement_carried d d' e f (inl nothing) = inl (sym e ∙ nothing)
agreement_carried d d' e f (inr same) = inr (f ∙ same ∙ e)

pub participants-Good :
    (t : Texts) (v : ApiView) (ps : List JsonObject) (d : Dock)
    → Good d
    → Good (on_participants_ready t v ps d)
unfolding on_participants_ready
participants-Good t v ps d (r, step, shown) =
    let filled = fill_box t ps d in
    let prev = current_data d.participant_box in
    let (chosen, setting, ws, next, pictured) = fill_box-keeps t ps d in
    let arranged : Arranged filled = rw (ws, next) r in
    if-Good (str_eq prev (current_data filled.participant_box)) filled
      (on_active_participant_changed v filled)
      (λ same. (
        arranged,
        agreement_carried d filled ((str_eq_iff prev (current_data filled.participant_box)).0 same)
            setting step,
        pictured shown,
      ))
      λ new. active-Good v filled arranged

pub select-Good : (v : ApiView) (i : ℕ) (d : Dock) → Good d → Good (select_participant v i d)
unfolding select_participant
select-Good v i d good =
    let box = with_index d.participant_box.items i in
    let chosen : Dock = record d { participant_box = box } in
    if-Good (same_index d.participant_box.index box.index) d
      (on_active_participant_changed v chosen) (λ same. good) λ new. active-Good v chosen good.0

pub clear_participants-Good : (v : ApiView) (d : Dock) → Good d → Good (clear_participants v d)
unfolding clear_participants
clear_participants-Good v d (r, step, shown) =
    let cleared : Dock = record d { participant_box = empty_box } in
    if-Good (same_index d.participant_box.index none) cleared
      (on_active_participant_changed v cleared) (λ same. (r, inl refl, shown))
      λ new. active-Good v cleared r

-- Other widgets for the same selection.
pub with_widgets-Good : (d d' : Dock) → Arranged d' → choices d' ≡ choices d → Good d → Good d'
with_widgets-Good d d' r e good =
    Good-core
      (record d { connection_widgets = d'.connection_widgets; next_address = d'.next_address }) d'
      (ap (λ (c : ComboBox × String × PictureLabel). (c, (d'.connection_widgets, d'.next_address)))
        e)
      (r, good.1, good.2)

pub clear_connections-Good : (d : Dock) → Good d → Good (clear_connections d)
unfolding clear_connections
clear_connections-Good d good =
    let (gone, next) = clear_connections-none d in
    with_widgets-Good d (clear_connections d) (rw (gone, next) (omega arith))
      (drop_all-choices d.connection_widgets d) good

pub update_connections-Good :
    (sources : List StageSource) (d : Dock) → Good d → Good (update_connections sources d)
unfolding update_connections
update_connections-Good sources d good =
    with_widgets-Good d (update_connections sources d)
      (update_connections-Arranged sources d good.0)
      (add_new-choices sources (drop_gone sources d.connection_widgets d)
        ∙ drop_gone-choices sources d.connection_widgets d)
      good

pub set_client_active-Good :
    (t : Texts) (v : ApiView) (active : Bool) (d : Dock)
    → Good d
    → Good (set_client_active t v active d)
unfolding set_client_active
set_client_active-Good t v false d good =
    let cleared = clear_participants v (show_login d) in
    clear_connections-Good (hide_redeem cleared) (clear_participants-Good v (show_login d) good)
set_client_active-Good t v true d good =
    Good-core (show_logout d) (update_guidance t v (show_logout d))
      (update_guidance-core t v (show_logout d)) good

-- A picture that comes for the property of the stage's label.
matching :
    (d : Dock) (id : String) (picture : Option String)
    → (picture ≡ none) ⊎ (picture ≡ some id)
    → str_eq id d.participant_picture.picture_id ≡ true
    → Pictured (record d { participant_picture = record d.participant_picture { shown = picture } })
matching d id picture (inl e) same = inl e
matching d id picture (inr e) same =
    inr (e ∙ ap some ((str_eq_iff id d.participant_picture.picture_id).0 same))

pub set_picture-Good :
    (id : String) (picture : Option String) (d : Dock)
    → (picture ≡ none) ⊎ (picture ≡ some id)
    → Good d
    → Good (set_picture id picture d)
unfolding set_picture
set_picture-Good id picture d right good =
    let staged : Dock = record d {
      participant_picture = record d.participant_picture { shown = picture };
    } in
    let account : Dock = record d {
      account_picture = record d.account_picture { shown = picture };
    } in
    let other = str_eq id d.account_picture.picture_id in
    if-Good (str_eq id d.participant_picture.picture_id) staged (if other then account else d)
      (λ same. (good.0, good.1, matching d id picture right same))
      λ differs. if-Good other account d (λ e. good) λ e. good
