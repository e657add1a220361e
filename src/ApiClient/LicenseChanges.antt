-- ===== src/ApiClient/LicenseChanges.antt =====
-- When a license has become valid or invalid.
use src_link.ApiClient.State.{put_uplink_info, license_changed, send, signal, Client, ApiEffect}
use src_link.Prelude.{
  [], true, suc, ◌&&◌, arith, ◌+◌, false, if◌then◌else◌, ◌∷◌, ◌≡◌, ℕ, List, Bool,
}
use src_link.Schema.Json.{JsonObject, value, to_bool, to_object, end, entry}
use src_link.Prelude.{not}
use src_link.ApiClient.Messages.{license_differs}

-- How often licenseChanged was emitted, and how often the uplink was put.
abbrev pub license_changes : List ApiEffect → ℕ
license_changes [] = 0
license_changes (signal (license_changed l) ∷ es) = suc (license_changes es)
license_changes (_ ∷ es) = license_changes es

abbrev pub uplink_puts : List ApiEffect → ℕ
uplink_puts [] = 0
uplink_puts (send (put_uplink_info p s) k ∷ es) = suc (uplink_puts es)
uplink_puts (_ ∷ es) = uplink_puts es

abbrev pub one_if : Bool → ℕ
one_if b = if b then 1 else 0

abbrev differ : Bool → Bool → Bool
differ true b = not b
differ false b = b

-- Whether the account that is known has a license of another validity; no account, no news.
abbrev pub is_news : JsonObject → Client → Bool
is_news license c = elim c.account_info [
  | end ↦ false
  | entry key v o ↦
      differ (to_bool (value "valid" (to_object (value "subscription_license" (entry key v o)))))
        (to_bool (value "valid" license))
]

-- What a new license does to the two counts, from a client to the next.
abbrev pub Announces : JsonObject → Client → Client → Type 0
Announces license c c' =
    (license_changes c'.effects ≡ license_changes c.effects + one_if (is_news license c))
    × (uplink_puts c'.effects
        ≡ uplink_puts c.effects
          + one_if (is_news license c && to_bool (value "valid" license) && c.has_token))

differs-is_news :
    (license : JsonObject) (c : Client) → license_differs license c ≡ is_news license c
differs-is_news license c = ground arith
