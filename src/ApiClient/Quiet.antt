-- ===== src/ApiClient/Quiet.antt =====
-- Messages that others follow: what they change, and that they are not announced.
use src_link.ApiClient.MessageRule.{changed-rule, Keeps}
use src_link.ApiClient.Calls.{put_uplink, change_license}
use src_link.Schema.Messages.{WebSocketMessage}
use src_link.Prelude.{refl, arith, false, Bool, true, String, ◌≡◌, List}
use src_link.Schema.Json.{Value, JsonObject}
use src_link.ApiClient.State.{Client}
use src_link.ApiClient.Messages.{
  changed, change_ws_portals, change_participants, change_stages, change_downlink,
  change_connection, change_stage, change_allocation, change_account_license,
  on_web_socket_data_changed,
}

-- What the client holds of the server's resources.
pub record Holdings : Type 0 where
  pub account_info : JsonObject
  pub parties : List Value
  pub party_events : List Value
  pub participants : List Value
  pub stages : List Value
  pub uplink : JsonObject
  pub downlinks : List (String × JsonObject)
  pub ws_portals : List Value

abbrev pub holdings : Client → Holdings
holdings c = record {
  account_info = c.account_info;
  parties = c.parties;
  party_events = c.party_events;
  participants = c.participants;
  stages = c.stages;
  uplink = c.uplink;
  downlinks = c.downlinks;
  ws_portals = c.ws_portals;
}

abbrev Same : Client → Client → Type 0
Same c c' = holdings c ≡ holdings c'

changed-blocked :
    (b b' : Bool) (id : String) (payload : JsonObject) (c : Client)
    → Keeps Same id payload (record c { signals_blocked = b }) (record c { signals_blocked = b' })
unfolding change_allocation change_stage change_connection change_downlink change_stages
    change_participants change_ws_portals change_account_license change_license put_uplink
changed-blocked b b' id payload c = record {
  same = refl;
  allocation = λ v. ground arith;
  stage = λ v. ground arith;
  connection = λ v. ground arith;
  downlink = λ v. ground arith;
  stages = λ v. ground arith;
  participants = λ v. ground arith;
  account = λ v. ground arith;
  license = λ v. ground arith;
  usage = λ v. ground arith;
  portals = λ v. ground arith;
}

-- With the signals blocked, a handler leaves the effects as they were.
changed-quiet :
    (name id : String) (payload : JsonObject) (c : Client)
    → c.signals_blocked ≡ true
    → (changed name id payload c).effects ≡ c.effects
unfolding change_allocation change_stage change_connection change_downlink change_stages
    change_participants change_ws_portals change_account_license change_license
changed-quiet name id payload c h =
    changed-rule (λ d d'. d.effects ≡ c.effects) name id payload c c
      (record {
        same = refl;
        allocation = λ v. ground arith;
        stage = λ v. ground arith;
        connection = λ v. ground arith;
        downlink = λ v. ground arith;
        stages = λ v. ground arith;
        participants = λ v. ground arith;
        account = λ v. ground arith;
        license = λ v. ground arith;
        usage = λ v. ground arith;
        portals = λ v. ground arith;
      })

-- A message that others follow changes what the client holds just as it would alone, but the client
-- announces nothing and sends nothing; and after any message the signals are free again.
pub continuous-quiet :
    (m : WebSocketMessage) (c : Client)
    → m.continuous ≡ true
    → (holdings (on_web_socket_data_changed m c)
        ≡ holdings (on_web_socket_data_changed (record m { continuous = false }) c))
      × ((on_web_socket_data_changed m c).effects ≡ c.effects)
      × ((on_web_socket_data_changed m c).signals_blocked ≡ false)
unfolding on_web_socket_data_changed
continuous-quiet m c h = (
  changed-rule Same m.name m.id m.payload _ _ (changed-blocked m.continuous false m.id m.payload c),
  changed-quiet m.name m.id m.payload (record c { signals_blocked = m.continuous }) h,
  refl,
)
