-- ===== src/Dock/Widgets.antt =====
-- src/UI/egress-link-dock.cpp: updateConnections and clearConnections.
use src_link.Dock.State.{create_widget, delete_widget, ask_for, Dock, ConnectionWidget}
use src_link.Prelude.{
  ◌||◌, ◌+◌, ◌++◌, ◌==◌, str_eq, if◌then◌else◌, false, [], ◌∷◌, Bool, String, ℕ, List,
}
use src_link.Schema.Stages.{StageSource}

abbrev pub has_source_named : String → List StageSource → Bool
has_source_named n [] = false
has_source_named n (s ∷ ss) = str_eq n s.name || has_source_named n ss

abbrev pub has_widget : String → List ConnectionWidget → Bool
has_widget n [] = false
has_widget n (w ∷ ws) = str_eq w.source.name n || has_widget n ws

-- `removeOne`: the first with the pointer.
unfoldable pub remove_widget : ℕ → List ConnectionWidget → List ConnectionWidget
remove_widget a [] = []
remove_widget a (w ∷ ws) = let rest = remove_widget a ws in if w.address == a then ws else w ∷ rest

-- Taken out of the layout, deleted, and taken out of the list.
abbrev pub drop_widget : ConnectionWidget → Dock → Dock
drop_widget w d =
    ask_for (delete_widget w.address)
      (record d { connection_widgets = remove_widget w.address d.connection_widgets })

-- The first loop, over a copy of the list.
unfoldable pub drop_gone : List StageSource → List ConnectionWidget → Dock → Dock
unfolding remove_widget
drop_gone sources [] d = d
drop_gone sources (w ∷ ws) d =
    drop_gone sources ws (if has_source_named w.source.name sources then d else drop_widget w d)

abbrev pub add_widget : StageSource → Dock → Dock
add_widget s d = ask_for (create_widget s) (record d {
  connection_widgets = d.connection_widgets ++ record { address = d.next_address; source = s } ∷ [];
  next_address = d.next_address + 1;
})

-- The second loop.
unfoldable pub add_new : List StageSource → Dock → Dock
add_new [] d = d
add_new (s ∷ ss) d =
    add_new ss (if has_widget s.name d.connection_widgets then d else add_widget s d)

unfoldable pub update_connections : List StageSource → Dock → Dock
unfolding drop_gone add_new
update_connections sources d = add_new sources (drop_gone sources d.connection_widgets d)

unfoldable pub drop_all : List ConnectionWidget → Dock → Dock
unfolding remove_widget
drop_all [] d = d
drop_all (w ∷ ws) d = drop_all ws (drop_widget w d)

unfoldable pub clear_connections : Dock → Dock
unfolding drop_all
clear_connections d = drop_all d.connection_widgets d
