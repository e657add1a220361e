-- ===== src/Dock/Choice.antt =====
-- src/UI/egress-link-dock.cpp: which item the combo box of the participants selects.
use src_link.Schema.Json.{JsonObject}
use src_link.Dock.Selection.{
  or_first, participant_items, participant_key, participant_item, selected_box, none_id, unselected,
}
use src_link.Dock.State.{data_at, find_data, with_index, current_data, Item, Texts}
use src_link.Prelude.{
  not, sym, str_eq_iff, ◌∙◌, ap, Option, refl, inr, inl, Bool-cases, none, map, zero, suc, arith,
  true, length, ltb, [], some, ◌||◌, ◌≡◌, get_elem?, str_eq, if◌then◌else◌, false, ℕ, ◌∷◌, Bool,
  List, String,
}
use src_link.Schema.Array.{find_index-none, find_index-some, first}

abbrev pub member : String → List String → Bool
member s [] = false
member s (x ∷ xs) = str_eq x s || member s xs

-- A selection that is wanted is made if there is such a participant; else no selection has the
-- data `none`, and nothing at all is selected if there is no participant.
abbrev pub choice : List String → String → String
choice [] s = ""
choice (i ∷ is) s = if unselected s then none_id else if member s (i ∷ is) then s else none_id

get_elem?-within :
    (xs : List Item) (i : ℕ) (v : Item) → get_elem? xs i ≡ some v → ltb i (length xs) ≡ true
get_elem?-within [] i v h = cc
get_elem?-within (x ∷ xs) zero v h = ground arith
get_elem?-within (x ∷ xs) (suc i) v h = ground (arith, get_elem?-within xs i v h)

first-member :
    (t : Texts) (s : String) (ps : List JsonObject)
    → first (λ (i : Item). str_eq i.data_of s) (map (participant_item t) ps) ≡ none
    → member s (map participant_key ps) ≡ false
unfolding first
first-member t s [] h = refl
first-member t s (p ∷ ps) h = elim (Bool-cases (str_eq (participant_key p) s)) [
  | inl e ↦ absurd (ground arith)
  | inr e ↦ rw e (first-member t s ps (ground arith))
]

elem-member :
    (t : Texts) (s : String) (ps : List JsonObject) (i : ℕ) (v : Item)
    → get_elem? (map (participant_item t) ps) i ≡ some v
    → str_eq v.data_of s ≡ true
    → member s (map participant_key ps) ≡ true
elem-member t s [] i v h e = cc
elem-member t s (p ∷ ps) zero v h e = ground arith
elem-member t s (p ∷ ps) (suc i) v h e = ground (arith, elem-member t s ps i v h e)

pub with_index-data :
    (items : List Item) (i : ℕ) (v : Item)
    → get_elem? items i ≡ some v
    → current_data (with_index items i) ≡ v.data_of
with_index-data items i v h = rw (get_elem?-within items i v h) (ap data_at h)

nothing_at : (i : ℕ) → current_data (with_index [] i) ≡ ""
nothing_at i = ground arith

no_item :
    (t : Texts) (p : JsonObject) (ps : List JsonObject)
    → current_data (with_index (participant_items t (p ∷ ps)) 0) ≡ none_id
no_item t p ps =
    with_index-data (participant_items t (p ∷ ps)) 0 (record { label = ""; data_of = none_id }) refl

choice-none :
    (i s : String) (is : List String)
    → unselected s || not (member s (i ∷ is)) ≡ true
    → choice (i ∷ is) s ≡ none_id
choice-none i s is h = ground arith

choice-there :
    (i s : String) (is : List String)
    → unselected s ≡ false
    → member s (i ∷ is) ≡ true
    → choice (i ∷ is) s ≡ s
choice-there i s is h m = ground arith

found-choice :
    (t : Texts) (s : String) (p : JsonObject) (ps : List JsonObject)
    → unselected s ≡ false
    → (r : Option ℕ) → find_data s (participant_items t (p ∷ ps)) ≡ r
    → current_data (with_index (participant_items t (p ∷ ps)) (or_first r))
      ≡ choice (map participant_key (p ∷ ps)) s
unfolding first
found-choice t s p ps h none n =
    let absent : first (λ (i : Item). str_eq i.data_of s) (map (participant_item t) (p ∷ ps))
        ≡ none =
      ground (
        arith,
        find_index-none (λ (i : Item). str_eq i.data_of s) (participant_items t (p ∷ ps)) n,
      ) in
    no_item t p ps
    ∙ sym (
        choice-none (participant_key p) s (map participant_key ps)
          (ground (arith, first-member t s (p ∷ ps) absent)))
found-choice t s p ps h (some zero) f =
    let (v, at, same) =
      find_index-some (λ (i : Item). str_eq i.data_of s) (participant_items t (p ∷ ps)) 0 f in
    absurd (ground (arith, str_eq_iff v.data_of s, str_eq_iff s none_id))
found-choice t s p ps h (some (suc i)) f =
    let (v, at, same) =
      find_index-some (λ (x : Item). str_eq x.data_of s) (participant_items t (p ∷ ps)) (suc i) f in
    with_index-data (participant_items t (p ∷ ps)) (suc i) v at
    ∙ (str_eq_iff v.data_of s).0 same
    ∙ sym (
        choice-there (participant_key p) s (map participant_key ps) h
          (elem-member t s (p ∷ ps) i v at same))

pub selected_box-choice :
    (t : Texts) (s : String) (ps : List JsonObject)
    → current_data (selected_box s (participant_items t ps)) ≡ choice (map participant_key ps) s
selected_box-choice t s [] = ground (arith, nothing_at 0, nothing_at (or_first (find_data s [])))
selected_box-choice t s (p ∷ ps) =
    let items = participant_items t (p ∷ ps) in
    let pick = λ (b : Bool).
      current_data
        (if b then with_index items 0 else with_index items (or_first (find_data s items))) in
    elim (Bool-cases (unselected s)) [
      | inl nothing ↦
          ap pick nothing
          ∙ no_item t p ps
          ∙ sym (choice-none (participant_key p) s (map participant_key ps) (rw nothing refl))
      | inr something ↦ ap pick something ∙ found-choice t s p ps something (find_data s items) refl
    ]
