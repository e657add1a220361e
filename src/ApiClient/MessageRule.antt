-- ===== src/ApiClient/MessageRule.antt =====
-- Rules for onWebSocketDataChanged and onWebSocketDataRemoved (src/api-client.cpp): what each handler
-- keeps, the message keeps.
use src_link.ApiClient.Calls.{logout}
use src_link.ApiClient.Removals.{
  remove_ws_portals, remove_participants, remove_stages, remove_downlink, removed,
  remove_connection, on_web_socket_data_removed, remove_uplink_key,
}
use src_link.Schema.Portals.{ws_portal_valid}
use src_link.Schema.Licenses.{account_resource_usage_valid, subscription_license_valid}
use src_link.Schema.Accounts.{account_valid}
use src_link.Schema.Participants.{party_event_participant_valid}
use src_link.Schema.Connections.{stage_connection_valid}
use src_link.Schema.Stages.{stage_valid}
use src_link.Schema.Allocations.{stage_seat_allocation_valid}
use src_link.Schema.Json.{JsonObject}
use src_link.Prelude.{◌||◌, branch, false, refl, str_eq, if◌then◌else◌, true, ◌≡◌, String, Bool}
use src_link.ApiClient.Messages.{
  change_ws_portals, change_account_license, set_account, change_participants, change_stages,
  change_downlink, change_connection, change_stage, when_valid, change_allocation, changed,
  on_web_socket_data_changed,
}
use src_link.ApiClient.State.{Client}

-- Both conditionals take the same branch.
branches {ℓ κ} :
    {A : Type ℓ} (R : A → A → Type κ) (b : Bool) (x y x' y' : A)
    → (b ≡ true → R x x')
    → R y y'
    → R (if b then x else y) (if b then x' else y')
branches R true x y x' y' h k = h refl
branches R false x y x' y' h k = k

-- What the handler of each kind of message has to keep, for a payload that is valid.
pub record Keeps (R : Client → Client → Type 0) (id : String) (payload : JsonObject) (c c' : Client)
    : Type 0 where
  pub same : R c c'
  pub allocation :
      stage_seat_allocation_valid payload ≡ true
      → R (change_allocation payload c) (change_allocation payload c')
  pub stage : stage_valid payload ≡ true → R (change_stage payload c) (change_stage payload c')
  pub connection :
      stage_connection_valid payload ≡ true
      → R (change_connection id payload c) (change_connection id payload c')
  pub downlink :
      stage_connection_valid payload ≡ true
      → R (change_downlink id payload c) (change_downlink id payload c')
  pub stages :
      stage_valid payload ≡ true → R (change_stages id payload c) (change_stages id payload c')
  pub participants :
      party_event_participant_valid payload ≡ true
      → R (change_participants id payload c) (change_participants id payload c')
  pub account :
      account_valid payload ≡ true
      → R (set_account "account" payload c) (set_account "account" payload c')
  pub license :
      subscription_license_valid payload ≡ true
      → R (change_account_license payload c) (change_account_license payload c')
  pub usage :
      account_resource_usage_valid payload ≡ true
      → R (set_account "resource_usage" payload c) (set_account "resource_usage" payload c')
  pub portals :
      ws_portal_valid payload ≡ true
      → R (change_ws_portals id payload c) (change_ws_portals id payload c')

-- A kind of message: by its name it goes to its handler, if the payload is valid, or to the next kind.
kind_rule :
    (R : Client → Client → Type 0) (b : Bool) (valid : JsonObject → Bool)
    (h : JsonObject → Client → Client) (payload : JsonObject) (c c' y y' : Client)
    → R c c'
    → (valid payload ≡ true → R (h payload c) (h payload c'))
    → R y y'
    → R
        (if b then when_valid valid h payload c else y)
        (if b then when_valid valid h payload c' else y')
kind_rule R b valid h payload c c' y y' same k rest =
    branches R b _ _ _ _ (λ e. branches R (valid payload) _ _ _ _ k same) rest

pub changed-rule :
    (R : Client → Client → Type 0) (name id : String) (payload : JsonObject) (c c' : Client)
    → Keeps R id payload c c'
    → R (changed name id payload c) (changed name id payload c')
unfolding on_web_socket_data_changed
changed-rule R name id payload c c' k =
    kind_rule R (str_eq name "uplink.allocations") stage_seat_allocation_valid change_allocation
      payload c c' _ _ k.same k.allocation
      (kind_rule R (str_eq name "uplink.stages") stage_valid change_stage payload c c' _ _ k.same
        k.stage
        (kind_rule R (str_eq name "uplink.connections") stage_connection_valid
          (change_connection id) payload c c' _ _ k.same k.connection
          (kind_rule R (str_eq name "downlink.connections") stage_connection_valid
            (change_downlink id) payload c c' _ _ k.same k.downlink
            (kind_rule R (str_eq name "stages") stage_valid (change_stages id) payload c c' _ _
              k.same k.stages
              (kind_rule R (str_eq name "participants") party_event_participant_valid
                (change_participants id) payload c c' _ _ k.same k.participants
                (kind_rule R (str_eq name "accounts") account_valid (set_account "account") payload
                  c c' _ _ k.same k.account
                  (kind_rule R (str_eq name "accounts.licenses") subscription_license_valid
                    change_account_license payload c c' _ _ k.same k.license
                    (kind_rule R (str_eq name "accounts.resourceUsage") account_resource_usage_valid
                      (set_account "resource_usage") payload c c' _ _ k.same k.usage
                      (kind_rule R (str_eq name "ws-portals") ws_portal_valid (change_ws_portals id)
                        payload c c' _ _ k.same k.portals (k.same))))))))))

-- What each handler of a removal has to reach.
pub record Reaches (P : Client → Type 0) (id : String) (c : Client) : Type 0 where
  pub same : P c
  pub allocation : P (remove_uplink_key "allocation" id c)
  pub stage : P (remove_uplink_key "stage" id c)
  pub connection : P (remove_connection id c)
  pub downlink : P (remove_downlink id c)
  pub stages : P (remove_stages id c)
  pub participants : P (remove_participants id c)
  pub account : P (logout c)
  pub portals : P (remove_ws_portals id c)

either : (P : Client → Type 0) (b : Bool) (x y : Client) → P x → P y → P (if b then x else y)
either P b x y h k = branch P b x y (λ e. h) λ e. k

pub removed-rule :
    (P : Client → Type 0) (name id : String) (c : Client) → Reaches P id c → P (removed name id c)
unfolding on_web_socket_data_removed
removed-rule P name id c r = either P (str_eq name "uplink.allocations") _ _ r.allocation (
    either P (str_eq name "uplink.stages") _ _ r.stage (
      either P (str_eq name "uplink.connections") _ _ r.connection (
        either P (str_eq name "downlink.connections") _ _ r.downlink (
          either P (str_eq name "stages") _ _ r.stages (
            either P (str_eq name "participants") _ _ r.participants (
              either P (str_eq name "accounts.licenses" || str_eq name "accounts.resourceUsage") _ _
                r.same
                (either P (str_eq name "accounts") _ _ r.account
                  (either P (str_eq name "ws-portals") _ _ r.portals (r.same)))))))))
