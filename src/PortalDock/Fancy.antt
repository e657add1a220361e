-- ===== src/PortalDock/Fancy.antt =====
-- src/utils.hpp: fancyId, which puts a dash after each four characters of an id.
use Prim.Native.String.append
use Prim.Native.String.{◌++◌}
use Prim.Native.Char.{code, Char}
use text.Mathlib.TextLemmas.{append-nil, append_assoc}
use src_link.Prelude.{
  inr, inl, refl, Bool-cases, ◌==◌, ap, sym, ◌∙◌, ◌≡◌, if◌then◌else◌, String, ◌∷◌, ℕ, zero, suc,
  false,
}
use src_link.PortalDock.{split_by_4, fancy_id, join_dashes, split_from, is_line_break}

-- The characters with a dash before each one for which the piece before has no room.
abbrev pub dashed : ℕ → String → String
dashed room String.[] = String.[]
dashed zero (String.◌∷◌ c s) = "-" ++ String.◌∷◌ c (dashed 3 s)
dashed (suc room) (String.◌∷◌ c s) = String.◌∷◌ c (dashed room s)

abbrev pub without_dashes : String → String
without_dashes String.[] = String.[]
without_dashes (String.◌∷◌ c s) =
    let rest = without_dashes s in if code c == b'-' then rest else String.◌∷◌ c rest

abbrev pub OneLine : String → Type 0
OneLine String.[] = Unit
OneLine (String.◌∷◌ c s) = (is_line_break c ≡ false) × OneLine s

without_dashes-append :
    (s t : String) → without_dashes (s ++ t) ≡ without_dashes s ++ without_dashes t
without_dashes-append String.[] t =
    ap without_dashes (append.nil t) ∙ sym (append.nil (without_dashes t))
without_dashes-append (String.◌∷◌ c s) t =
    ap without_dashes (append.cons c s t) ∙ elim (Bool-cases (code c == b'-')) [
      | inl dash ↦ rw dash (without_dashes-append s t)
      | inr other ↦ rw other (
          ap (String.◌∷◌ c) (without_dashes-append s t)
          ∙ sym (append.cons c (without_dashes s) (without_dashes t)))
    ]

without_dashes-dashed : (room : ℕ) (s : String) → without_dashes (dashed room s) ≡ without_dashes s
without_dashes-dashed room String.[] = refl
without_dashes-dashed zero (String.◌∷◌ c s) =
    let rest = String.◌∷◌ c (dashed 3 s) in
    without_dashes-append "-" rest
    ∙ append.nil (without_dashes rest)
    ∙ ap (λ t. if code c == b'-' then t else String.◌∷◌ c t) (without_dashes-dashed 3 s)
without_dashes-dashed (suc room) (String.◌∷◌ c s) =
    ap (λ t. if code c == b'-' then t else String.◌∷◌ c t) (without_dashes-dashed room s)

-- A piece that is begun is followed by a dash and by what the rest makes of its own first piece.
next_piece :
    (a : Char) (p : String) (room : ℕ) (s q : String)
    → OneLine s
    → join_dashes (q ∷ split_from (String.◌∷◌ a p) room s)
      ≡ q ++ ("-" ++ join_dashes (split_from (String.◌∷◌ a p) room s))
next_piece a p room String.[] q o = refl
next_piece a p zero (String.◌∷◌ c s) q o = rw o.0 refl
next_piece a p (suc room) (String.◌∷◌ c s) q o = rw o.0 (
    rw (append.cons a p (String.◌∷◌ c String.[]))
      (next_piece a (p ++ String.◌∷◌ c String.[]) room s q o.1))

after_char : (c : Char) (t : String) → String.◌∷◌ c String.[] ++ t ≡ String.◌∷◌ c t
after_char c t = append.cons c String.[] t ∙ ap (String.◌∷◌ c) (append.nil t)

split_from-dashed :
    (a : Char) (p : String) (room : ℕ) (s : String)
    → OneLine s
    → join_dashes (split_from (String.◌∷◌ a p) room s) ≡ String.◌∷◌ a p ++ dashed room s
split_from-dashed a p room String.[] o = sym (append-nil (String.◌∷◌ a p))
split_from-dashed a p zero (String.◌∷◌ c s) o = rw o.0 (
    next_piece c String.[] 3 s (String.◌∷◌ a p) o.1
    ∙ ap (λ t. String.◌∷◌ a p ++ ("-" ++ t))
        (split_from-dashed c String.[] 3 s o.1 ∙ after_char c (dashed 3 s)))
split_from-dashed a p (suc room) (String.◌∷◌ c s) o = rw o.0 (
    rw (append.cons a p (String.◌∷◌ c String.[])) (
      split_from-dashed a (p ++ String.◌∷◌ c String.[]) room s o.1
      ∙ ap (λ t. t ++ dashed room s) (sym (append.cons a p (String.◌∷◌ c String.[])))
      ∙ append_assoc (String.◌∷◌ a p) (String.◌∷◌ c String.[]) (dashed room s)
      ∙ ap (λ t. String.◌∷◌ a p ++ t) (after_char c (dashed room s))))

fancy_dashed : (raw : String) → OneLine raw → fancy_id raw ≡ dashed 4 raw
unfolding fancy_id split_by_4
fancy_dashed String.[] o = refl
fancy_dashed (String.◌∷◌ c s) o = rw o.0 (
    rw (append.nil (String.◌∷◌ c String.[]))
      (split_from-dashed c String.[] 3 s o.1 ∙ after_char c (dashed 3 s)))

-- A fancy id is the id with a dash before its fifth character and before each fourth one after
-- that, for an id without line breaks, and it is that id again, but for dashes.
pub fancy_id-dashed :
    (raw : String)
    → OneLine raw
    → (fancy_id raw ≡ dashed 4 raw) × (without_dashes (fancy_id raw) ≡ without_dashes raw)
fancy_id-dashed raw o =
    (fancy_dashed raw o, ap without_dashes (fancy_dashed raw o) ∙ without_dashes-dashed 4 raw)
