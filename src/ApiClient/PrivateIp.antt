-- ===== src/ApiClient/PrivateIp.antt =====
-- src/api-client.cpp: retrievePrivateIp, with isPrivateIPv4 and getPrivateIPv4Addresses of src/utils.hpp.
use src_link.Prelude.{
  sym, ◌∙◌, ap, str_eq_iff, inr, zero, Bool-cases, inl, suc, ◌<◌, Option-cases, refl, ltb, ◌⊎◌, ◌*◌,
  get_elem?, if◌then◌else◌, [], length, some, ◌^◌, ◌||◌, ◌∷◌, arith, str_eq, none, ◌&&◌, leb, ◌≡◌,
  Option, String, ◌==◌, ◌/◌, Bool, List, ℕ,
}
use src_link.Schema.Array.{find_index-some, find_index-none, first, find_index}
use src_link.Prelude.Int.{negsuc, pos, sub_ℕ, ℤ}

-- A mask of high bits, `ip & (0xFFFFFFFF << k)` on 32 bits.
abbrev mask : ℕ → ℕ → ℕ
mask k ip = ip / 2 ^ k * 2 ^ k

unfoldable pub is_private_ipv4 : ℕ → Bool
is_private_ipv4 ip =
    mask 24 ip == 0x0A000000 || mask 20 ip == 0xAC100000 || mask 16 ip == 0xC0A80000

-- What QHostAddress answers: whether it is an IPv4 address, its number, and its text.
pub record HostAddress : Type 0 where
  pub is_ipv4 : Bool
  pub number : ℕ
  pub text : String

unfoldable pub get_private_ipv4_addresses : List HostAddress → List String
unfolding is_private_ipv4
get_private_ipv4_addresses [] = []
get_private_ipv4_addresses (a ∷ others) =
    let rest = get_private_ipv4_addresses others in
    if a.is_ipv4 && is_private_ipv4 a.number then a.text ∷ rest else rest

-- The two settings of the private address.
pub record PrivateIp : Type 0 where
  pub index : ℤ
  pub value : String

abbrev last_index : List String → ℤ
last_index xs = sub_ℕ (length xs) 1

abbrev min_ℤ : ℤ → ℤ → ℤ
min_ℤ (pos a) (pos b) = if ltb b a then pos b else pos a
min_ℤ (pos a) (negsuc b) = negsuc b
min_ℤ (negsuc a) (pos b) = negsuc a
min_ℤ (negsuc a) (negsuc b) = if ltb a b then negsuc b else negsuc a

-- `none` is a read outside of the list.
abbrev at_index : List String → ℤ → Option String
at_index xs (pos i) = get_elem? xs i
at_index xs (negsuc i) = none

-- The address of the settings was not found.
abbrev fall_back : ℤ → Option String → Option (String × PrivateIp)
fall_back index none = none
fall_back index (some a) = some (a, record { index = index; value = a })

abbrev chosen : List String → PrivateIp → Option ℕ → Option (String × PrivateIp)
chosen addresses s (some i) = some (s.value, record { index = pos i; value = s.value })
chosen addresses s none =
    let index = min_ℤ s.index (last_index addresses) in fall_back index (at_index addresses index)

unfoldable pub retrieve_from : List String → PrivateIp → Option (String × PrivateIp)
unfolding find_index
retrieve_from addresses s = chosen addresses s (find_index (λ a. str_eq a s.value) addresses)

unfoldable pub retrieve_private_ip : List HostAddress → PrivateIp → Option (String × PrivateIp)
unfolding retrieve_from get_private_ipv4_addresses
retrieve_private_ip hosts s = retrieve_from (get_private_ipv4_addresses hosts) s

-- 10.0.0.0 to 10.255.255.255, 172.16.0.0 to 172.31.255.255, and 192.168.0.0 to 192.168.255.255.
abbrev pub in_private_range : ℕ → Bool
in_private_range ip =
    leb 0x0A000000 ip && leb ip 0x0AFFFFFF
    || (leb 0xAC100000 ip && leb ip 0xAC1FFFFF)
    || (leb 0xC0A80000 ip && leb ip 0xC0A8FFFF)

is_private_ipv4-ranges : (ip : ℕ) → is_private_ipv4 ip ≡ in_private_range ip
unfolding is_private_ipv4
is_private_ipv4-ranges ip = ground arith

-- The texts of the IPv4 addresses in the private ranges.
abbrev pub private_texts : List HostAddress → List String
private_texts [] = []
private_texts (a ∷ others) =
    let rest = private_texts others in
    if a.is_ipv4 && in_private_range a.number then a.text ∷ rest else rest

addresses-private_texts :
    (hosts : List HostAddress) → get_private_ipv4_addresses hosts ≡ private_texts hosts
unfolding get_private_ipv4_addresses
addresses-private_texts [] = refl
addresses-private_texts (a ∷ others) =
    ground (arith, is_private_ipv4-ranges a.number, addresses-private_texts others)

-- What becomes of the setting over some addresses: one of them is chosen with its place, and a setting
-- that is among them stays. Over none the read goes wrong.
abbrev pub Settled : List String → String → Option (String × PrivateIp) → Type 0
Settled [] value r = r ≡ none
Settled (a ∷ others) value r =
    (v : String) × (k : ℕ) × (r ≡ some (v, record { index = pos k; value = v }))
    × (get_elem? (a ∷ others) k ≡ some v)
    × ((v ≡ value) ⊎ (first (λ x. str_eq x value) (a ∷ others) ≡ none))

-- The fallback index lies within addresses that are there.
fallback_within :
    (a : String) (others : List String) (i : ℕ)
    → (k : ℕ) × (min_ℤ (pos i) (last_index (a ∷ others)) ≡ pos k) × (k < length (a ∷ others))
fallback_within a others i = elim (Bool-cases (ltb (length others) i)) [
  | inl far ↦ (length others, ground arith, omega arith)
  | inr near ↦ (i, ground arith, ground arith)
]

within_found : (xs : List String) (k : ℕ) → k < length xs → (v : String) × (get_elem? xs k ≡ some v)
within_found [] k h = absurd (omega arith)
within_found (x ∷ xs) zero h = (x, refl)
within_found (x ∷ xs) (suc k) h = within_found xs k (omega arith)

settle :
    (xs : List String) (i : ℕ) (value : String)
    → Settled xs value (retrieve_from xs (record { index = pos i; value = value }))
unfolding retrieve_from find_index
settle [] i value = ground arith
settle (a ∷ others) i value = elim (Option-cases (find_index (λ x. str_eq x value) (a ∷ others))) [
  | inl n ↦
      let (k, least, within) = fallback_within a others i in
      let (v, found) = within_found (a ∷ others) k within in
      (
        v,
        k,
        ap (chosen (a ∷ others) (record { index = pos i; value = value })) n
            ∙ ap (λ z. fall_back z (at_index (a ∷ others) z)) least
            ∙ ap (fall_back (pos k)) found,
        found,
        inr (find_index-none (λ x. str_eq x value) (a ∷ others) n),
      )
  | inr (j, s) ↦
      let (v, found, same) = find_index-some (λ x. str_eq x value) (a ∷ others) j s in
      let v≡value = (str_eq_iff v value).0 same in
      (
        v,
        j,
        ap (chosen (a ∷ others) (record { index = pos i; value = value })) s
            ∙ ap (λ w. some (w, record { index = pos j; value = w })) (sym v≡value),
        found,
        inl v≡value,
      )
]

-- With an index that is not negative, the client chooses one of the IPv4 addresses in the private
-- ranges and keeps it with its place; it is the address of the settings if that is among them. On
-- a host without such an address the list is read outside of its bounds.
pub retrieve_private_ip-settled :
    (hosts : List HostAddress) (i : ℕ) (value : String)
    → Settled
        (private_texts hosts)
        value
        (retrieve_private_ip hosts (record { index = pos i; value = value }))
unfolding retrieve_private_ip
retrieve_private_ip-settled hosts i value =
    rw (addresses-private_texts hosts) (settle (private_texts hosts) i value)
