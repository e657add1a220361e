-- ===== src/Tests/Names.antt =====
-- Concrete file names (src/utils.cpp) and private addresses (src/api-client.cpp).
use src_link.Prelude.Int.{pos}
use src_link.FileNames.Free.{contains}
use src_link.ApiClient.PrivateIp.{
  retrieve_private_ip-settled, retrieve_private_ip, HostAddress, private_texts, Settled,
}
use src_link.FileNames.{test_path, find_best_filename}
use src_link.Prelude.{[], refl, some, zero, ◌∷◌, true, ◌≡◌, suc, String, List, ℕ}

-- A text for each number: as many strokes.
abbrev strokes : ℕ → String
strokes zero = ""
strokes (suc n) = String.◌∷◌ "I" (strokes n)

abbrev recordings : List String
recordings = "cam.mkv" ∷ "cam_II.mkv" ∷ "notes" ∷ []

second_try : find_best_filename (contains recordings) strokes true 4 "cam.mkv" ≡ some "cam_III.mkv"
unfolding find_best_filename test_path
second_try = refl

abbrev hosts : List HostAddress
hosts =
    record { is_ipv4 = true; number = 0x08080808; text = "8.8.8.8" }
    ∷ record { is_ipv4 = true; number = 0xC0A80001; text = "192.168.0.1" }
    ∷ []

retrieve_private_ip-settled_example :
    Settled
      (private_texts hosts)
      "10.0.0.1"
      (retrieve_private_ip hosts (record { index = pos 3; value = "10.0.0.1" }))
retrieve_private_ip-settled_example = retrieve_private_ip-settled hosts 3 "10.0.0.1"
