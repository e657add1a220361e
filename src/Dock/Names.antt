-- ===== src/Dock/Names.antt =====
-- src/UI/egress-link-dock.cpp: which sources have a widget after updateConnections.
use src_link.Dock.Shown.{drop_gone-kept, Arranged, kept}
use src_link.Schema.Stages.{StageSource}
use src_link.Dock.State.{Dock, ConnectionWidget}
use src_link.Dock.Widgets.{
  drop_gone, remove_widget, drop_widget, drop_all, clear_connections, update_connections,
  add_widget, has_source_named, has_widget, add_new,
}
use src_link.Prelude.{
  sym, inr, ◌∙◌, refl, inl, Bool-cases, [], str_eq_iff, ap, arith, ◌∷◌, ◌||◌, ◌&&◌, true, ◌≡◌, ◌++◌,
  str_eq, List, String,
}
use mathlib.Core.List.{append-nil, append_assoc}

has_source_named-same :
    (m n : String) (sources : List StageSource)
    → str_eq m n ≡ true
    → has_source_named m sources ≡ has_source_named n sources
has_source_named-same m n sources e = ap (λ k. has_source_named k sources) ((str_eq_iff m n).0 e)

kept-names :
    (n : String) (sources : List StageSource) (ws : List ConnectionWidget)
    → has_widget n (kept sources ws) ≡ has_widget n ws && has_source_named n sources
kept-names n sources [] = refl
kept-names n sources (w ∷ ws) =
    ground (arith, has_source_named-same w.source.name n sources, kept-names n sources ws)

has_widget-append :
    (n : String) (xs ys : List ConnectionWidget)
    → has_widget n (xs ++ ys) ≡ has_widget n xs || has_widget n ys
has_widget-append n [] ys = refl
has_widget-append n (x ∷ xs) ys = ground (arith, has_widget-append n xs ys)

has_widget-same :
    (m n : String) (ws : List ConnectionWidget)
    → str_eq n m ≡ true
    → has_widget n ws ≡ has_widget m ws
has_widget-same m n ws e = ap (λ k. has_widget k ws) ((str_eq_iff n m).0 e)

str_eq_comm : (m n : String) → str_eq m n ≡ str_eq n m
str_eq_comm m n = ground (arith, str_eq_iff m n, str_eq_iff n m)

add_new-names :
    (n : String) (sources : List StageSource) (d : Dock)
    → has_widget n (add_new sources d).connection_widgets
      ≡ has_widget n d.connection_widgets || has_source_named n sources
unfolding add_new
add_new-names n [] d = ground arith
add_new-names n (s ∷ ss) d = elim (Bool-cases (has_widget s.name d.connection_widgets)) [
  | inl there ↦
      rw (there, add_new)
        (add_new-names n ss d
          ∙ ground (arith, there, has_widget-same s.name n d.connection_widgets))
  | inr new ↦
      let one : ConnectionWidget = record { address = d.next_address; source = s } in
      rw (new, add_new)
        (add_new-names n ss (add_widget s d)
          ∙ ground
              (arith, has_widget-append n d.connection_widgets (one ∷ []), str_eq_comm n s.name))
]

-- The second loop only adds at the end.
add_new-added :
    (sources : List StageSource) (d : Dock)
    → (added : List ConnectionWidget) × ((add_new sources d).connection_widgets
        ≡ d.connection_widgets ++ added)
unfolding add_new
add_new-added [] d = ([], sym (append-nil d.connection_widgets))
add_new-added (s ∷ ss) d = elim (Bool-cases (has_widget s.name d.connection_widgets)) [
  | inl there ↦ rw (there, add_new) (add_new-added ss d)
  | inr new ↦
      let one : ConnectionWidget = record { address = d.next_address; source = s } in
      let (added, e) = add_new-added ss (add_widget s d) in
      rw (new, add_new) (one ∷ added, e ∙ append_assoc d.connection_widgets (one ∷ []) added)
]

-- Where the widgets have addresses of their own, a name has a widget after updateConnections exactly if
-- the stage has a source of that name. The widgets whose source is still there are the same objects in
-- the same order, before the new ones.
pub update_connections-names :
    (sources : List StageSource) (d : Dock)
    → Arranged d
    → ((n : String)
        → has_widget n (update_connections sources d).connection_widgets
          ≡ has_source_named n sources)
      × (added : List ConnectionWidget) × ((update_connections sources d).connection_widgets
          ≡ kept sources d.connection_widgets ++ added)
unfolding update_connections
update_connections-names sources d r =
    let d' = drop_gone sources d.connection_widgets d in
    let left : d'.connection_widgets ≡ kept sources d.connection_widgets =
      drop_gone-kept sources [] d.connection_widgets 0 0 d.next_address d refl (omega arith) r in
    let (added, grown) = add_new-added sources d' in
    (
      λ n.
          add_new-names n sources d'
          ∙ ap (λ ws. has_widget n ws || has_source_named n sources) left
          ∙ ground (arith, kept-names n sources d.connection_widgets),
      added,
      grown ∙ ap (λ ws. ws ++ added) left,
    )

drop_all-none :
    (ws : List ConnectionWidget) (d : Dock)
    → d.connection_widgets ≡ ws
    → ((drop_all ws d).connection_widgets ≡ []) × ((drop_all ws d).next_address ≡ d.next_address)
unfolding drop_all
drop_all-none [] d e = (e, refl)
drop_all-none (w ∷ ws) d e =
    drop_all-none ws (drop_widget w d)
      (ap (remove_widget w.address) e ∙ ground (arith, remove_widget))

pub clear_connections-none :
    (d : Dock)
    → ((clear_connections d).connection_widgets ≡ [])
      × ((clear_connections d).next_address ≡ d.next_address)
unfolding clear_connections
clear_connections-none d = drop_all-none d.connection_widgets d refl
