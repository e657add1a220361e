-- ===== src/ApiClient/Resources.antt =====
-- src/api-client.cpp: how a changed or removed resource is put into an array, or taken out of it.
use src_link.Schema.Json.{to_object, value, to_string, Value}
use src_link.Prelude.{zero, none, [], ◌++◌, suc, some, ◌∷◌, Option, str_eq, ℕ, Bool, String, List}
use src_link.Schema.Array.{find_index}

module _ {ℓ} {A : Type ℓ} where
  -- `replace` and `removeAt` at an index within the array.
  abbrev pub replace : ℕ → A → List A → List A
  replace i v [] = []
  replace zero v (x ∷ xs) = v ∷ xs
  replace (suc i) v (x ∷ xs) = x ∷ replace i v xs

  abbrev pub remove_at : ℕ → List A → List A
  remove_at i [] = []
  remove_at zero (x ∷ xs) = xs
  remove_at (suc i) (x ∷ xs) = x ∷ remove_at i xs

  abbrev pub replace_found : A → List A → Option ℕ → List A
  replace_found v xs none = xs ++ v ∷ []
  replace_found v xs (some i) = replace i v xs

  -- The element that is found is replaced; without one the new element is appended.
  unfoldable pub upsert : (A → Bool) → A → List A → List A
  unfolding find_index
  upsert p v xs = replace_found v xs (find_index p xs)

  abbrev pub remove_found : List A → Option ℕ → List A
  remove_found xs none = xs
  remove_found xs (some i) = remove_at i xs

  unfoldable pub remove_first : (A → Bool) → List A → List A
  unfolding find_index
  remove_first p xs = remove_found xs (find_index p xs)

-- The getter `getId` of an element, and the predicate of the searches.
abbrev pub id_of : Value → String
id_of v = to_string (value "_id" (to_object (some v)))

abbrev pub has_id : String → Value → Bool
has_id id v = str_eq (id_of v) id
