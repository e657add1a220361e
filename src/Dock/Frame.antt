-- ===== src/Dock/Frame.antt =====
-- src/UI/egress-link-dock.cpp: the members of the dock that most slots leave alone.
use src_link.Schema.Stages.{StageSource}
use src_link.Dock.Widgets.{drop_widget, drop_all, drop_gone, add_new}
use src_link.Dock.Selected.{Pictured}
use src_link.Dock.Shown.{Rising, Arranged}
use src_link.Prelude.{
  [], refl, false, some, ◌∙◌, none, if◌then◌else◌, ◌∷◌, true, sym, subst, Bool, ℕ, List, ◌⊎◌, arith,
  ◌≡◌, String,
}
use src_link.Dock.State.{
  delete_widget, with_index, ask_for, ConnectionWidget, ApiView, PictureLabel, current_data, Texts,
  ComboBox, Dock,
}
use src_link.Dock.Slots.{
  set_interlock, delete_all, on_connection_button_clicked, select_interlock, show_account,
  show_allocation, update_guidance,
}
use src_link.Schema.Json.{JsonObject}

-- The members that the invariant reads.
abbrev pub Core : Type 0
Core = (ComboBox × String × PictureLabel) × (List ConnectionWidget × ℕ)

abbrev pub core : Dock → Core
core d = (
  (d.participant_box, d.participant_id, d.participant_picture),
  (d.connection_widgets, d.next_address),
)

-- A participant that is selected is the one of the settings.
abbrev pub InStep : Dock → Type 0
InStep d =
    (current_data d.participant_box ≡ "") ⊎ (d.participant_id ≡ current_data d.participant_box)

abbrev pub GoodCore : Core → Type 0
GoodCore ((box, id, picture), (ws, next)) =
    Rising 0 next ws
    × ((current_data box ≡ "") ⊎ (id ≡ current_data box))
    × ((picture.shown ≡ none) ⊎ (picture.shown ≡ some picture.picture_id))

abbrev pub Good : Dock → Type 0
Good d = Arranged d × InStep d × Pictured d

pub Good-core : (d d' : Dock) → core d' ≡ core d → Good d → Good d'
Good-core d d' e good = subst (λ (c : Core). GoodCore c) (sym e) good

-- Either branch under what the test has answered.
pub if-Good :
    (b : Bool) (x y : Dock) → (b ≡ true → Good x) → (b ≡ false → Good y) → Good (if b then x else y)
if-Good true x y g h = g refl
if-Good false x y g h = h refl

pub update_guidance-core :
    (t : Texts) (v : ApiView) (d : Dock) → core (update_guidance t v d) ≡ core d
unfolding update_guidance
update_guidance-core t v d = ground arith

pub show_allocation-core : (o : JsonObject) (d : Dock) → core (show_allocation o d) ≡ core d
show_allocation-core o d = ground arith

pub show_account-core : (name id : String) (d : Dock) → core (show_account name id d) ≡ core d
show_account-core name id d = ground arith

pub select_interlock-core :
    (t : Texts) (v : ApiView) (i : ℕ) (d : Dock) → core (select_interlock t v i d) ≡ core d
unfolding select_interlock
select_interlock-core t v i d =
    ground (arith, update_guidance-core t v (set_interlock (with_index d.interlock_box.items i) d))

pub on_connection_button_clicked-core :
    (v : ApiView) (sure : Bool) (d : Dock) → core (on_connection_button_clicked v sure d) ≡ core d
unfolding on_connection_button_clicked
on_connection_button_clicked-core v sure d = ground arith

-- What has nothing to do with the widgets.
abbrev pub choices : Dock → ComboBox × String × PictureLabel
choices d = (d.participant_box, d.participant_id, d.participant_picture)

pub drop_gone-choices :
    (sources : List StageSource) (ws : List ConnectionWidget) (d : Dock)
    → choices (drop_gone sources ws d) ≡ choices d
unfolding drop_gone
drop_gone-choices sources [] d = refl
drop_gone-choices sources (w ∷ ws) d = drop_gone-choices sources ws _ ∙ ground (arith, drop_gone)

pub add_new-choices :
    (sources : List StageSource) (d : Dock) → choices (add_new sources d) ≡ choices d
unfolding add_new
add_new-choices [] d = refl
add_new-choices (s ∷ ss) d = add_new-choices ss _ ∙ ground (arith, add_new)

pub drop_all-choices : (ws : List ConnectionWidget) (d : Dock) → choices (drop_all ws d) ≡ choices d
unfolding drop_all
drop_all-choices [] d = refl
drop_all-choices (w ∷ ws) d = drop_all-choices ws (drop_widget w d)

pub delete_all-core : (ws : List ConnectionWidget) (d : Dock) → core (delete_all ws d) ≡ core d
delete_all-core [] d = refl
delete_all-core (w ∷ ws) d = delete_all-core ws (ask_for (delete_widget w.address) d)
