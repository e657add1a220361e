-- ===== src/Dock/State.antt =====
-- src/UI/egress-link-dock.hpp: the members of class EgressLinkDock, what its widgets show, and the
-- calls that it makes; with what QComboBox does.
use src_link.Prelude.{
  false, ◌==◌, true, length, ltb, get_elem?, if◌then◌else◌, none, str_eq, some, Bool, ◌∷◌, [], List,
  Option, ℕ, String,
}
use src_link.Schema.Array.{find_index}
use src_link.Schema.Json.{JsonObject}
use src_link.Schema.Stages.{StageSource}

-- An item of a combo box: its text and its data.
pub record Item : Type 0 where
  pub label : String
  pub data_of : String

-- `none` is the index -1.
pub record ComboBox : Type 0 where
  pub items : List Item
  pub index : Option ℕ

abbrev pub data_at : Option Item → String
data_at none = ""
data_at (some i) = i.data_of

abbrev pub item_at : List Item → Option ℕ → Option Item
item_at items none = none
item_at items (some i) = get_elem? items i

abbrev pub current_data : ComboBox → String
current_data b = data_at (item_at b.items b.index)

abbrev pub find_data : String → List Item → Option ℕ
find_data s items = find_index (λ i. str_eq i.data_of s) items

-- setCurrentIndex: an index outside of the items is -1.
abbrev pub with_index : List Item → ℕ → ComboBox
with_index items i = record { items = items; index = if ltb i (length items) then some i else none }

abbrev pub empty_box : ComboBox
empty_box = record { items = []; index = none }

-- A label with a picture: its property `pictureId`, and the picture that it shows, `none` for the
-- default one.
pub record PictureLabel : Type 0 where
  pub picture_id : String
  pub shown : Option String

-- A connection widget at its address, with the output of its source.
pub record ConnectionWidget : Type 0 where
  pub address : ℕ
  pub source : StageSource

pub data DockEffect : Type 0 where
  get_picture : String → DockEffect
  put_uplink login logout ask_logout : DockEffect
  open_control_panel open_memberships open_signup : DockEffect
  redeem : String → DockEffect
  create_widget : StageSource → DockEffect
  delete_widget : ℕ → DockEffect

-- What the API client answers while a slot runs.
pub record ApiView : Type 0 where
  pub logged_in : Bool
  pub account : JsonObject
  pub participants : List JsonObject
  pub uplink : JsonObject

-- `labelled` is `QString("%1 (%2)").arg(..).arg(..)`, and `guidance_for` the key with the interlock type.
pub record Texts : Type 0 where
  pub labelled : String → String → String
  pub guidance_for : String → String

-- A label's text is the key of its translation, and a theme what `setThemeID` was told.
-- `participant_id` and `interlock_setting` stand in the settings. The effects are those so far,
-- the latest first, and `next_address` is where the next widget is made.
pub record Dock : Type 0 where
  pub connection_button : String
  pub account_name : String
  pub uplink_visible : Bool
  pub signup_visible : Bool
  pub guidance_visible : Bool
  pub redeem_visible : Bool
  pub participant_box : ComboBox
  pub interlock_box : ComboBox
  pub connection_widgets : List ConnectionWidget
  pub next_address : ℕ
  pub error_text : String
  pub guidance : String
  pub guidance_theme : String
  pub seat_name : String
  pub seat_theme : String
  pub allocation_status : String
  pub status_theme : String
  pub account_picture : PictureLabel
  pub participant_picture : PictureLabel
  pub participant_id : String
  pub interlock_setting : String
  pub effects : List DockEffect

abbrev pub ask_for : DockEffect → Dock → Dock
ask_for e d = record d { effects = e ∷ d.effects }

abbrev pub same_index : Option ℕ → Option ℕ → Bool
same_index none none = true
same_index (some i) (some j) = i == j
same_index _ _ = false
