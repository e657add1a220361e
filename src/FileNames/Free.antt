-- ===== src/FileNames/Free.antt =====
-- src/utils.cpp: findBestFilename ends with a name that no file has.
use src_link.FileNames.{str_eq}
use src_link.Prelude.{◌||◌, [], false, if◌then◌else◌, ◌≡◌, Bool, ◌∷◌, String, List, ℕ}

abbrev pub contains : List String → String → Bool
contains [] s = false
contains (x ∷ xs) s = str_eq x s || contains xs s

abbrev without : String → List String → List String
without x [] = []
without x (y ∷ ys) = let rest = without x ys in if str_eq y x then rest else y ∷ rest

abbrev Injective : (ℕ → String) → Type 0
Injective f = (m n : ℕ) → f m ≡ f n → m ≡ n
