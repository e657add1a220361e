-- ===== src/FileNames.antt =====
-- src/utils.cpp: the name of the file that an output records into (getOutputFilename), and the search
-- for one that is free (findBestFilename).
use src_link.Prelude.{
  zero, ◌+◌, suc, ◌||◌, some, ◌==◌, str_eq, none, false, not, if◌then◌else◌, Option, Bool, ℕ,
  String,
}
use mathlib.Core.Option
use Prim.Native.String.{◌++◌}
use Prim.Native.Char.{Char, code}
pub mod Free

unfoldable pub get_format_ext : String → String
get_format_ext container =
    let ext = if str_eq container "fragmented_mp4" then "mp4" else container in
    if str_eq ext "hybrid_mp4"
    then "mp4"
    else if str_eq ext "fragmented_mov"
    then "mov"
    else if str_eq ext "hls"
    then "m3u8"
    else if str_eq ext "mpegts"
    then "ts"
    else ext

-- The text before the last place of a character (`lastIndexOf`), and from there on.
unfoldable pub split_last : ℕ → String → Option (String × String)
split_last k String.[] = none
split_last k (String.◌∷◌ c s) = elim (split_last k s) [
  | some (a, b) ↦ some (String.◌∷◌ c a, b)
  | none ↦ if code c == k then some (String.[], String.◌∷◌ c s) else none
]

-- The number that is put before the extension; `number` is how QString writes one.
unfoldable pub numbered : (ℕ → String) → Bool → ℕ → String
numbered number no_space n = if no_space then "_" ++ number n else " (" ++ (number n ++ ")")

-- Without a dot the index is -1, and an insertion at -1 does nothing.
unfoldable pub test_path : (ℕ → String) → Bool → String → ℕ → String
unfolding numbered split_last
test_path number no_space path n = elim (split_last b'.' path) [
  | some (a, b) ↦ a ++ (numbered number no_space n ++ b)
  | none ↦ path
]

-- The endless loop, on fuel, over what `os_file_exists` answers.
unfoldable pub next_free : (String → Bool) → (ℕ → String) → ℕ → ℕ → Option String
next_free exists test zero n = none
next_free exists test (suc fuel) n =
    let rest = next_free exists test fuel (n + 1) in if exists (test n) then rest else some (test n)

unfoldable pub find_best_filename :
    (String → Bool) → (ℕ → String) → Bool → ℕ → String → Option String
unfolding next_free
find_best_filename exists number no_space fuel path =
    let found = next_free exists (test_path number no_space path) fuel 2 in
    if exists path then found else some path

-- What the operating system answers: whether a folder opens, whether a file exists; the text of a
-- number; and the formatted name for an extension (`os_generate_formatted_filename`).
pub record FileSystem : Type 0 where
  pub opens : String → Bool
  pub exists : String → Bool
  pub number : ℕ → String
  pub formatted : String → Bool → String

abbrev slashes : String → String
slashes String.[] = String.[]
slashes (String.◌∷◌ c s) = String.◌∷◌ (if code c == b'\\' then "/" else c) (slashes s)

-- The folder that ensureDirectoryExists makes, if the path has one.
unfoldable pub directory_of : String → Option String
unfolding split_last
directory_of path = elim (split_last b'/' (slashes path)) [ some (a, b) ↦ some a | none ↦ none ]

abbrev ends_in_slash : String → Bool
ends_in_slash String.[] = false
ends_in_slash (String.◌∷◌ c String.[]) = code c == b'/' || code c == b'\\'
ends_in_slash (String.◌∷◌ c s) = ends_in_slash s

-- The folder that is made and the name, or no name where the path does not open.
unfoldable pub get_output_filename :
    FileSystem → ℕ → String → String → Bool → Bool → Option (Option String × String)
unfolding get_format_ext directory_of find_best_filename
get_output_filename w fuel path container no_space overwrite =
    let folder = if ends_in_slash path then path else path ++ "/" in
    let whole = folder ++ w.formatted (get_format_ext container) (not no_space) in
    let best = find_best_filename w.exists w.number no_space fuel whole in
    if str_eq path "" || not (w.opens path)
    then some (none, "")
    else if overwrite
    then some (directory_of whole, whole)
    else Option.map (λ name. (directory_of whole, name)) best
