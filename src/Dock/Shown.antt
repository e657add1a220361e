-- ===== src/Dock/Shown.antt =====
-- src/UI/egress-link-dock.cpp: the widgets of the dock and their addresses, over updateConnections.
use src_link.Dock.State.{Dock, ConnectionWidget}
use src_link.Schema.Stages.{StageSource}
use src_link.Prelude.{
  ap, sym, ◌∙◌, inr, inl, Bool-cases, refl, [], ◌≡◌, arith, ◌<◌, ◌+◌, if◌then◌else◌, ◌≤◌, ◌∷◌, ◌++◌,
  List, ℕ,
}
use src_link.Dock.Widgets.{
  drop_widget, add_widget, has_widget, remove_widget, update_connections, add_new, has_source_named,
  drop_gone,
}
use mathlib.Core.List.{append_assoc}

-- The addresses rise, from `lo` on and below `hi`.
abbrev pub Rising : ℕ → ℕ → List ConnectionWidget → Type 0
Rising lo hi [] = lo ≤ hi
Rising lo hi (w ∷ ws) = (lo ≤ w.address) × Rising (w.address + 1) hi ws

-- The widgets whose source has a place in the stage.
abbrev pub kept : List StageSource → List ConnectionWidget → List ConnectionWidget
kept sources [] = []
kept sources (w ∷ ws) =
    let rest = kept sources ws in if has_source_named w.source.name sources then w ∷ rest else rest

Rising-wider :
    (lo lo' hi : ℕ) (ws : List ConnectionWidget) → lo' ≤ lo → Rising lo hi ws → Rising lo' hi ws
Rising-wider lo lo' hi [] l r = omega arith
Rising-wider lo lo' hi (w ∷ ws) l r = (omega (arith, r.0), r.1)

Rising-add :
    (lo mid hi : ℕ) (xs : List ConnectionWidget) (w : ConnectionWidget)
    → Rising lo mid xs
    → mid ≤ w.address
    → w.address < hi
    → Rising lo hi (xs ++ w ∷ [])
Rising-add lo mid hi [] w r m h = (omega arith, omega arith)
Rising-add lo mid hi (x ∷ xs) w r m h = (r.0, Rising-add (x.address + 1) mid hi xs w r.1 m h)

Rising-bounds : (lo hi : ℕ) (ws : List ConnectionWidget) → Rising lo hi ws → lo ≤ hi
Rising-bounds lo hi [] r = r
Rising-bounds lo hi (w ∷ ws) r = omega (arith, r.0, Rising-bounds (w.address + 1) hi ws r.1)

remove_widget-after :
    (lo : ℕ) (xs ws : List ConnectionWidget) (w : ConnectionWidget)
    → Rising lo w.address xs
    → remove_widget w.address (xs ++ w ∷ ws) ≡ xs ++ ws
unfolding remove_widget
remove_widget-after lo [] ws w r = ground arith
remove_widget-after lo (x ∷ xs) ws w r =
    let differs = Rising-bounds (x.address + 1) w.address xs r.1 in
    ground (arith, differs, remove_widget-after (x.address + 1) xs ws w r.1)

Rising-higher :
    (lo mid hi : ℕ) (ws : List ConnectionWidget) → Rising lo mid ws → mid ≤ hi → Rising lo hi ws
Rising-higher lo mid hi [] r l = omega arith
Rising-higher lo mid hi (w ∷ ws) r l = (r.0, Rising-higher (w.address + 1) mid hi ws r.1 l)

-- The first loop, when it has kept `xs` and has come to `ws`.
pub drop_gone-kept :
    (sources : List StageSource) (xs ws : List ConnectionWidget) (lo mid hi : ℕ) (d : Dock)
    → d.connection_widgets ≡ xs ++ ws
    → Rising lo mid xs
    → Rising mid hi ws
    → (drop_gone sources ws d).connection_widgets ≡ xs ++ kept sources ws
unfolding drop_gone
drop_gone-kept sources xs [] lo mid hi d e before after = e
drop_gone-kept sources xs (w ∷ ws) lo mid hi d e before after =
    elim (Bool-cases (has_source_named w.source.name sources)) [
      | inl stays ↦
          rw (stays, drop_gone)
            (drop_gone-kept sources (xs ++ w ∷ []) ws lo (w.address + 1) hi d
                (e ∙ sym (append_assoc xs (w ∷ []) ws))
                (Rising-add lo mid (w.address + 1) xs w before after.0 (omega arith)) after.1
              ∙ append_assoc xs (w ∷ []) (kept sources ws))
      | inr gone ↦
          rw (gone, drop_gone)
            (drop_gone-kept sources xs ws lo mid hi (drop_widget w d)
              (ap (remove_widget w.address) e
                ∙ remove_widget-after lo xs ws w (Rising-higher lo mid w.address xs before after.0))
              before (Rising-wider (w.address + 1) mid hi ws (omega (arith, after.0)) after.1))
    ]

drop_gone-next :
    (sources : List StageSource) (ws : List ConnectionWidget) (d : Dock)
    → (drop_gone sources ws d).next_address ≡ d.next_address
unfolding drop_gone
drop_gone-next sources [] d = refl
drop_gone-next sources (w ∷ ws) d = elim (Bool-cases (has_source_named w.source.name sources)) [
  | inl stays ↦ rw (stays, drop_gone) (drop_gone-next sources ws d)
  | inr gone ↦ rw (gone, drop_gone) (drop_gone-next sources ws (drop_widget w d))
]

-- The widgets of a dock have addresses of their own, below that of the next.
abbrev pub Arranged : Dock → Type 0
Arranged d = Rising 0 d.next_address d.connection_widgets

kept-Rising :
    (sources : List StageSource) (lo hi : ℕ) (ws : List ConnectionWidget)
    → Rising lo hi ws
    → Rising lo hi (kept sources ws)
kept-Rising sources lo hi [] r = r
kept-Rising sources lo hi (w ∷ ws) r =
    let rest = kept-Rising sources (w.address + 1) hi ws r.1 in
    elim (Bool-cases (has_source_named w.source.name sources)) [
      | inl stays ↦ rw stays (r.0, rest)
      | inr gone ↦
          rw gone (Rising-wider (w.address + 1) lo hi (kept sources ws) (omega (arith, r.0)) rest)
    ]

add_new-Arranged :
    (sources : List StageSource) (d : Dock) → Arranged d → Arranged (add_new sources d)
unfolding add_new
add_new-Arranged [] d r = r
add_new-Arranged (s ∷ ss) d r = elim (Bool-cases (has_widget s.name d.connection_widgets)) [
  | inl there ↦ rw (there, add_new) (add_new-Arranged ss d r)
  | inr new ↦
      rw (new, add_new)
        (add_new-Arranged ss (add_widget s d) (
          Rising-add 0 d.next_address (d.next_address + 1) d.connection_widgets
            (record { address = d.next_address; source = s }) r (omega arith) (omega arith)))
]

drop_gone-Arranged :
    (sources : List StageSource) (d : Dock)
    → Arranged d
    → Arranged (drop_gone sources d.connection_widgets d)
drop_gone-Arranged sources d r =
    let left =
      drop_gone-kept sources [] d.connection_widgets 0 0 d.next_address d refl (omega arith) r in
    rw (left, drop_gone-next sources d.connection_widgets d)
      (kept-Rising sources 0 d.next_address d.connection_widgets r)

pub update_connections-Arranged :
    (sources : List StageSource) (d : Dock) → Arranged d → Arranged (update_connections sources d)
unfolding update_connections
update_connections-Arranged sources d r =
    add_new-Arranged sources (drop_gone sources d.connection_widgets d)
      (drop_gone-Arranged sources d r)
