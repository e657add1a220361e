-- ===== src/Schema/Json.antt =====
-- The JSON values of Qt as src/schema.hpp uses them: QJsonValue, QJsonObject, and the `every` of its
-- TypedJsonArray. A number is an integer that fits an `int`, or any other number by its text.
use src_link.Prelude.{
  String, Bool, true, false, ◌&&◌, Option, none, some, List, [], ◌∷◌, map, if◌then◌else◌, str_eq,
  str_eq_iff, ◌≡◌, refl, arith,
}
use src_link.Prelude.Int.{ℤ, pos}

mutual
  pub data Value : Type 0 where
    null : Value
    truth : Bool → Value
    num : ℤ → Value
    real : String → Value
    str : String → Value
    arr : Items → Value
    obj : JsonObject → Value

  pub data Items : Type 0 where
    nil : Items
    cons : Value → Items → Items

  pub data JsonObject : Type 0 where
    end : JsonObject
    entry : String → Value → JsonObject → JsonObject

-- `value` and `operator[]` of an object; `none` is the undefined value.
unfoldable pub value : String → JsonObject → Option Value
value k end = none
value k (entry j v o) = if str_eq j k then some v else value k o

unfoldable pub insert : String → Value → JsonObject → JsonObject
insert k v end = entry k v end
insert k v (entry j w o) = if str_eq j k then entry j v o else entry j w (insert k v o)

unfoldable pub remove : String → JsonObject → JsonObject
remove k end = end
remove k (entry j w o) = let rest = remove k o in if str_eq j k then rest else entry j w rest

abbrev pub is_empty : JsonObject → Bool
is_empty end = true
is_empty (entry k v o) = false

-- Setters called one after another, the last one first, on an empty object.
unfoldable pub set_all : List (String × Value) → JsonObject
unfolding insert
set_all [] = end
set_all ((k, v) ∷ kvs) = insert k v (set_all kvs)

-- A conversion of a value of another type is the default.
abbrev pub to_string : Option Value → String
to_string (some (str s)) = s
to_string _ = ""

abbrev pub to_bool : Option Value → Bool
to_bool (some (truth b)) = b
to_bool _ = false

abbrev pub to_int : Option Value → ℤ
to_int (some (num z)) = z
to_int _ = pos 0

abbrev pub to_object : Option Value → JsonObject
to_object (some (obj o)) = o
to_object _ = end

abbrev pub elements : Items → List Value
elements nil = []
elements (cons v vs) = v ∷ elements vs

abbrev pub items : List Value → Items
items [] = nil
items (v ∷ vs) = cons v (items vs)

abbrev pub to_array : Option Value → List Value
to_array (some (arr vs)) = elements vs
to_array _ = []

abbrev pub is_string : Option Value → Bool
is_string (some (str s)) = true
is_string _ = false

abbrev pub is_bool : Option Value → Bool
is_bool (some (truth b)) = true
is_bool _ = false

abbrev pub is_double : Option Value → Bool
is_double (some (num z)) = true
is_double (some (real s)) = true
is_double _ = false

abbrev pub is_object : Option Value → Bool
is_object (some (obj o)) = true
is_object _ = false

abbrev pub is_array : Option Value → Bool
is_array (some (arr vs)) = true
is_array _ = false

-- An optional value may be missing or null.
abbrev pub maybe : Option Value → Bool → Bool
maybe none result = true
maybe (some null) result = true
maybe (some v) result = result

-- The elements of a TypedJsonArray, each one as an object.
abbrev pub objects : List Value → List JsonObject
objects vs = map (λ v. to_object (some v)) vs

abbrev pub every : (JsonObject → Bool) → List Value → Bool
every p [] = true
every p (v ∷ vs) = p (to_object (some v)) && every p vs

-- An array of objects.
abbrev pub array_of {ℓ} : {A : Type ℓ} → (A → JsonObject) → List A → Items
array_of f [] = nil
array_of f (x ∷ xs) = cons (obj (f x)) (array_of f xs)

-- Where each object is read as what it was written from and is valid, so is each array of them.
pub array_of-read :
    {A : Type 0} (read : JsonObject → A) (write : A → JsonObject) (valid : JsonObject → Bool)
    → ((x : A) → (read (write x) ≡ x) × (valid (write x) ≡ true))
    → (xs : List A)
    → (map read (objects (elements (array_of write xs))) ≡ xs)
      × (every valid (elements (array_of write xs)) ≡ true)
array_of-read read write valid h [] = (refl, refl)
array_of-read read write valid h (x ∷ xs) =
    let rest = array_of-read read write valid h xs in
    (ground (arith, h x, rest), ground (arith, h x, rest))

pub value-insert :
    (k j : String) (v : Value) (o : JsonObject)
    → value j (insert k v o) ≡ (if str_eq k j then some v else value j o)
unfolding value insert
value-insert k j v end = refl
value-insert k j v (entry i w o) =
    ground (arith, str_eq_iff k j, str_eq_iff i k, str_eq_iff i j, value-insert k j v o)

pub value-remove :
    (k j : String) (o : JsonObject)
    → value j (remove k o) ≡ (if str_eq k j then none else value j o)
unfolding value remove
value-remove k j end = ground arith
value-remove k j (entry i w o) =
    ground (arith, str_eq_iff k j, str_eq_iff i k, str_eq_iff i j, value-remove k j o)
