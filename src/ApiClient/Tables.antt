-- ===== src/ApiClient/Tables.antt =====
-- An array of resources as a table from ids to resources.
use src_link.ApiClient.Removals.{is_in}
use src_link.Schema.Json.{obj, every, Value, JsonObject}
use src_link.Prelude.{
  some, str_eq_iff, Option-cases, inr, str_eq, arith, none, true, if◌then◌else◌, inl, false, refl,
  ◌≡◌, Option, Bool-cases, ◌∷◌, [], String, Bool, List,
}
use src_link.Schema.Array.{find_index, first, find_index-cons}
use src_link.ApiClient.Resources.{upsert, remove_first, has_id, id_of}

module _ {ℓ} {A : Type ℓ} (p : A → Bool) where
  pub upsert-cons :
      (v x : A) (xs : List A) → upsert p v (x ∷ xs) ≡ (if p x then v ∷ xs else x ∷ upsert p v xs)
  unfolding upsert
  upsert-cons v x xs = elim (Bool-cases (p x)) [
    | inl e ↦ rw (find_index-cons p x xs, e)
    | inr e ↦ elim (Option-cases (find_index p xs)) [
      | inl n ↦ rw (find_index-cons p x xs, e, n)
      | inr (i, s) ↦ rw (find_index-cons p x xs, e, s)
    ]
  ]

  pub remove_first-cons :
      (x : A) (xs : List A) → remove_first p (x ∷ xs) ≡ (if p x then xs else x ∷ remove_first p xs)
  unfolding remove_first
  remove_first-cons x xs = elim (Bool-cases (p x)) [
    | inl e ↦ rw (find_index-cons p x xs, e)
    | inr e ↦ elim (Option-cases (find_index p xs)) [
      | inl n ↦ rw (find_index-cons p x xs, e, n)
      | inr (i, s) ↦ rw (find_index-cons p x xs, e, s)
    ]
  ]

  pub upsert-nil : (v : A) → upsert p v [] ≡ v ∷ []
  unfolding upsert find_index
  upsert-nil v = refl

  pub remove_first-nil : remove_first p [] ≡ []
  unfolding remove_first find_index
  remove_first-nil = refl

-- The resource of an id, if there is one.
abbrev pub entry_of : List Value → String → Option Value
entry_of vs id = first (has_id id) vs

-- No id stands twice.
abbrev pub Distinct : List Value → Type 0
Distinct [] = Unit
Distinct (v ∷ vs) = (entry_of vs (id_of v) ≡ none) × Distinct vs

pub entry_of-upsert :
    (id j : String) (v : Value) (vs : List Value)
    → id_of v ≡ id
    → entry_of (upsert (has_id id) v vs) j ≡ (if str_eq id j then some v else entry_of vs j)
unfolding first
entry_of-upsert id j v [] h = rw (upsert-nil (has_id id) v, h)
entry_of-upsert id j v (w ∷ vs) h = ground (
  arith,
  upsert-cons (has_id id) v w vs,
  entry_of-upsert id j v vs h,
  str_eq_iff id j,
  str_eq_iff (id_of w) id,
  str_eq_iff (id_of w) j,
)

pub upsert-Distinct :
    (id : String) (v : Value) (vs : List Value)
    → id_of v ≡ id
    → Distinct vs
    → Distinct (upsert (has_id id) v vs)
unfolding first
upsert-Distinct id v [] h d = rw (upsert-nil (has_id id) v) (refl, tt)
upsert-Distinct id v (w ∷ vs) h d =
    rw (upsert-cons (has_id id) v w vs) (elim (Bool-cases (has_id id w)) [
      | inl e ↦ rw e (ground (arith, str_eq_iff (id_of w) id), d.1)
      | inr e ↦ rw e (
        ground (
          arith,
          entry_of-upsert id (id_of w) v vs h,
          str_eq_iff id (id_of w),
          str_eq_iff (id_of w) id,
        ),
        upsert-Distinct id v vs h d.1,
      )
    ])

pub entry_of-remove_first :
    (id j : String) (vs : List Value)
    → Distinct vs
    → entry_of (remove_first (has_id id) vs) j ≡ (if str_eq id j then none else entry_of vs j)
unfolding first
entry_of-remove_first id j [] d = rw (remove_first-nil (has_id id)) (ground arith)
entry_of-remove_first id j (w ∷ vs) d = ground (
  arith,
  remove_first-cons (has_id id) w vs,
  entry_of-remove_first id j vs d.1,
  d.0,
  str_eq_iff id j,
  str_eq_iff (id_of w) id,
  str_eq_iff (id_of w) j,
)

pub remove_first-Distinct :
    (id : String) (vs : List Value) → Distinct vs → Distinct (remove_first (has_id id) vs)
unfolding first
remove_first-Distinct id [] d = rw (remove_first-nil (has_id id)) tt
remove_first-Distinct id (w ∷ vs) d =
    rw (remove_first-cons (has_id id) w vs) (elim (Bool-cases (has_id id w)) [
      | inl e ↦ rw e d.1
      | inr e ↦ rw e (
        ground (arith, entry_of-remove_first id (id_of w) vs d.1),
        remove_first-Distinct id vs d.1,
      )
    ])

-- Where nothing has the id, nothing is removed.
pub remove_first-missing :
    (id : String) (vs : List Value) → is_in id vs ≡ false → remove_first (has_id id) vs ≡ vs
unfolding remove_first
remove_first-missing id vs h = ground (arith, Option-cases (find_index (has_id id) vs))

-- What holds of each resource.
pub every-upsert :
    (p : JsonObject → Bool) (q : Value → Bool) (o : JsonObject) (vs : List Value)
    → p o ≡ true
    → every p vs ≡ true
    → every p (upsert q (obj o) vs) ≡ true
every-upsert p q o [] h k = rw (upsert-nil q (obj o), h)
every-upsert p q o (w ∷ vs) h k =
    ground (arith, upsert-cons q (obj o) w vs, every-upsert p q o vs h)

pub every-remove_first :
    (p : JsonObject → Bool) (q : Value → Bool) (vs : List Value)
    → every p vs ≡ true
    → every p (remove_first q vs) ≡ true
every-remove_first p q [] k = rw (remove_first-nil q)
every-remove_first p q (w ∷ vs) k =
    ground (arith, remove_first-cons q w vs, every-remove_first p q vs)
