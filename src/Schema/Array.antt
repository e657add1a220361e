-- ===== src/Schema/Array.antt =====
-- src/schema.hpp: class TypedJsonArray.
use mathlib.Core.Option
use src_link.Prelude.{
  true, sym, Option-cases, ap, ℕ, suc, ◌+◌, ◌≡◌, refl, inl, inr, Bool, Option, none, some, List, [],
  ◌∷◌, arith, get_elem?, Bool-cases, if◌then◌else◌,
}

module _ {ℓ} {A : Type ℓ} where
  -- The loop of `findIndex`, at index `i`; -1 is `none`.
  find_index_from : (A → Bool) → ℕ → List A → Option ℕ
  find_index_from p i [] = none
  find_index_from p i (x ∷ xs) =
      let rest = find_index_from p (i + 1) xs in if p x then some i else rest

  unfoldable pub find_index : (A → Bool) → List A → Option ℕ
  unfolding find_index_from
  find_index p xs = find_index_from p 0 xs

  abbrev at_found : List A → Option ℕ → Option A
  at_found xs none = none
  at_found xs (some i) = get_elem? xs i

  -- `none` is the empty object.
  unfoldable pub find : (A → Bool) → List A → Option A
  unfolding find_index
  find p xs = at_found xs (find_index p xs)

  -- The first element that passes, by recursion on the list.
  unfoldable pub first : (A → Bool) → List A → Option A
  first p [] = none
  first p (x ∷ xs) = if p x then some x else first p xs

  find_index_from-shift :
      (p : A → Bool) (i : ℕ) (ys xs : List A)
      → ((j : ℕ) → get_elem? ys (j + i) ≡ get_elem? xs j)
      → at_found ys (find_index_from p i xs) ≡ first p xs
  unfolding find_index_from first
  find_index_from-shift p i ys [] h = refl
  find_index_from-shift p i ys (x ∷ xs) h = elim (Bool-cases (p x)) [
    | inl e ↦ rw e (let e0 : 0 + i ≡ i = omega arith in rw e0 at (h 0))
    | inr e ↦ rw e (
        find_index_from-shift p (i + 1) ys xs
          λ j. let q : j + (i + 1) ≡ suc j + i = omega arith in rw q (h (suc j)))
  ]

  -- The search by index finds the first element that passes, and the empty object if none does.
  pub find-eq-first : (p : A → Bool) (xs : List A) → find p xs ≡ first p xs
  unfolding find
  find-eq-first p xs =
      find_index_from-shift p 0 xs xs λ j. let q : j + 0 ≡ j = omega arith in rw q refl

  find_index_from-suc :
      (p : A → Bool) (i : ℕ) (xs : List A)
      → find_index_from p (i + 1) xs ≡ Option.map suc (find_index_from p i xs)
  unfolding find_index_from
  find_index_from-suc p i [] = refl
  find_index_from-suc p i (x ∷ xs) = elim (Bool-cases (p x)) [
    | inl e ↦ rw e (ap some (omega arith))
    | inr e ↦ rw e (find_index_from-suc p (i + 1) xs)
  ]

  -- The search by cases on the first element.
  pub find_index-cons :
      (p : A → Bool) (x : A) (xs : List A)
      → find_index p (x ∷ xs) ≡ (if p x then some 0 else Option.map suc (find_index p xs))
  unfolding find_index find_index_from
  find_index-cons p x xs = elim (Bool-cases (p x)) [
    | inl e ↦ rw e
    | inr e ↦ rw e (find_index_from-suc p 0 xs)
  ]

  nothing_found : (p : A → Bool) (i : ℕ) → find_index p [] ≡ some i → ⊥
  unfolding find_index find_index_from
  nothing_found p i h = cc

  -- What the index that is found stands for.
  pub find_index-some :
      (p : A → Bool) (xs : List A) (i : ℕ)
      → find_index p xs ≡ some i
      → (v : A) × (get_elem? xs i ≡ some v) × (p v ≡ true)
  find_index-some p [] i h = absurd (nothing_found p i h)
  find_index-some p (x ∷ xs) i h = elim (Bool-cases (p x)) [
    | inl e ↦
        let at : ◌≡◌ {A = Option ℕ} (some 0) (some i) = ground (arith, find_index-cons p x xs) in
        let zero_i : 0 ≡ i = ground arith in (x, rw (sym zero_i) refl, e)
    | inr e ↦ elim (Option-cases (find_index p xs)) [
      | inl n ↦ absurd (ground (arith, find_index-cons p x xs))
      | inr (j, s) ↦
          let at : suc j ≡ i = ground (arith, find_index-cons p x xs) in
          let (v, found, passes) = find_index-some p xs j s in (v, rw (sym at) found, passes)
    ]
  ]

  pub find_index-none : (p : A → Bool) (xs : List A) → find_index p xs ≡ none → first p xs ≡ none
  unfolding first
  find_index-none p [] h = refl
  find_index-none p (x ∷ xs) h = elim (Bool-cases (p x)) [
    | inl e ↦ absurd (ground (arith, find_index-cons p x xs))
    | inr e ↦ elim (Option-cases (find_index p xs)) [
      | inl n ↦ rw e (find_index-none p xs n)
      | inr (j, s) ↦ absurd (ground (arith, find_index-cons p x xs))
    ]
  ]
