-- ===== src/ApiClient/Uplink.antt =====
-- src/api-client.cpp: the counters of active outputs and the status of the uplink.
use src_link.Prelude.{
  ◌&&◌, ℕ, ◌≡◌, Bool, false, ◌||◌, not, Option, none, some, List, ◌∷◌, arith, if◌then◌else◌, ◌==◌,
}
use src_link.Prelude.Int.{ℤ, pos, negsuc, ◌+ℤ◌, ◌-ℤ◌}
use src_link.Schema.{UplinkInfo}

-- UPLINK_STATUS_* of src/api-client.hpp.
pub data UplinkStatus : Type 0 where
  inactive standby active : UplinkStatus

abbrev pub uplink_number : UplinkStatus → ℕ
uplink_number UplinkStatus.inactive = 0
uplink_number UplinkStatus.standby = 1
uplink_number UplinkStatus.active = 2

-- The fields of class SRCLinkApiClient that the outputs read or write. `puts` has the statuses that
-- `putUplinkStatus` sent, the latest first.
pub record Uplink : Type 0 where
  pub active_outputs : ℤ
  pub stand_by_outputs : ℤ
  pub uplink_status : UplinkStatus
  pub uplink : Option UplinkInfo
  pub has_token : Bool
  pub puts : List UplinkStatus

abbrev pub increment_active_outputs : Uplink → Uplink
increment_active_outputs a = record a { active_outputs = a.active_outputs +ℤ pos 1 }

abbrev pub decrement_active_outputs : Uplink → Uplink
decrement_active_outputs a = record a { active_outputs = a.active_outputs -ℤ pos 1 }

abbrev pub increment_stand_by_outputs : Uplink → Uplink
increment_stand_by_outputs a = record a { stand_by_outputs = a.stand_by_outputs +ℤ pos 1 }

abbrev pub decrement_stand_by_outputs : Uplink → Uplink
decrement_stand_by_outputs a = record a { stand_by_outputs = a.stand_by_outputs -ℤ pos 1 }

-- `n > 0` on a signed integer.
abbrev pub is_positive : ℤ → Bool
is_positive (pos n) = not (n == 0)
is_positive (negsuc n) = false

abbrev pub next_uplink_status : Uplink → UplinkStatus
next_uplink_status a =
    if is_positive a.active_outputs
    then UplinkStatus.active
    else if is_positive a.stand_by_outputs
    then UplinkStatus.standby
    else UplinkStatus.inactive

-- CHECK_CLIENT_TOKEN: nothing is sent without a refresh token.
unfoldable pub put_uplink_status : Uplink → Uplink
put_uplink_status a = if a.has_token then record a { puts = a.uplink_status ∷ a.puts } else a

abbrev sync_nonempty : Bool → Uplink → Uplink
unfolding put_uplink_status
sync_nonempty force a =
    let next = next_uplink_status a in
    if force || not (uplink_number next == uplink_number a.uplink_status)
    then put_uplink_status (record a { uplink_status = next })
    else a

unfoldable pub sync_uplink_status : Bool → Uplink → Uplink
unfolding sync_nonempty
sync_uplink_status force a = elim a.uplink [ none ↦ a | some u ↦ sync_nonempty force a ]

-- What the server has been told, if it is told a status that is forced or new and there is a token.
abbrev pub told : Bool → Uplink → List UplinkStatus
told force a =
    let next = next_uplink_status a in
    if a.has_token && (force || not (uplink_number next == uplink_number a.uplink_status))
    then next ∷ a.puts
    else a.puts

-- After a sync of an API client that has an uplink, the status says whether an output is active, else
-- whether one stands by, whatever it was before; and the server is told that status if there is a
-- token and the status is forced or new, and else nothing.
pub sync_uplink_status-agrees :
    (force : Bool) (a : Uplink) (u : UplinkInfo)
    → a.uplink ≡ some u
    → ((sync_uplink_status force a).uplink_status ≡ next_uplink_status a)
      × ((sync_uplink_status force a).puts ≡ told force a)
unfolding sync_uplink_status
sync_uplink_status-agrees force a u h = ground arith
