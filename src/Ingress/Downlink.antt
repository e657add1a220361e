-- ===== src/Ingress/Downlink.antt =====
-- src/sources/ingress-link-source.cpp: the slots of IngressLinkSource and its destructor.
use src_link.Schema.{get_revision, get_id, StageConnection}
use src_link.Ingress.{
  delete_downlink, update_decoder, SourceSettings, Ingress, Request, ClientSettings,
}
use src_link.ApiClient.Ports.{release_port, Ports}
use src_link.Ingress.Capture.{
  is_populated, same_flag, is_selected, capture_settings, call, create_decoder_settings,
  put_connection,
}
use src_link.Egress.Link.{Qt}
use src_link.Prelude.{
  ltb, ◌&&◌, true, ◌||◌, ◌==◌, not, none, if◌then◌else◌, str_eq, false, some, Bool, List, Option,
  String,
}
use src_link.Schema.Array.{find}

unfoldable pub reset_decoder : Qt → Option StageConnection → Ingress → Ingress
unfolding create_decoder_settings
reset_decoder qt connection s =
    let s' = record s { connection = connection } in
    let d = create_decoder_settings qt s' in call (update_decoder d) (record s' { decoder = d })

unfoldable pub on_put_downlink_failed : Qt → String → Ingress → Ingress
on_put_downlink_failed qt id s = if str_eq id s.uuid then reset_decoder qt none s else s

unfoldable pub on_delete_downlink_succeeded : Qt → String → Ingress → Ingress
on_delete_downlink_succeeded qt id s = if str_eq id s.uuid then reset_decoder qt none s else s

abbrev pub get_passphrase : Option StageConnection → String
get_passphrase none = ""
get_passphrase (some c) = c.passphrase

abbrev pub reconnection_needed : Option StageConnection → Ingress → Bool
reconnection_needed incoming s =
    not (same_flag (is_populated s.connection) (is_populated incoming))
    || ltb s.revision (get_revision incoming)
    || not (str_eq (get_passphrase s.connection) (get_passphrase incoming))

-- The connection of the downlink, which may be the empty object.
unfoldable pub on_downlink_ready : Qt → Option StageConnection → Ingress → Ingress
unfolding reset_decoder
on_downlink_ready qt incoming s =
    if str_eq (get_id incoming) s.uuid
    then (if reconnection_needed incoming s
        then reset_decoder qt incoming (record s { revision = get_revision incoming })
        else record s { connection = incoming })
    else s

-- class Stage: its id and the names of its seats and its sources.
pub record Stage : Type 0 where
  pub id : String
  pub seats : List String
  pub sources : List String

abbrev pub is_found : Option String → Bool
is_found none = false
is_found (some name) = true

unfoldable pub offers : Request → Stage → Bool
unfolding find
offers r stage =
    str_eq stage.id r.stage_id
    && is_found (find (λ n. str_eq n r.seat_name) stage.seats)
    && is_found (find (λ n. str_eq n r.source_name) stage.sources)

abbrev pub has_stage : Option Stage → Bool
has_stage none = false
has_stage (some stage) = true

abbrev pub has_connection : Option StageConnection → Bool
has_connection none = false
has_connection (some c) = true

unfoldable pub on_stages_ready : List Stage → Ingress → Ingress
unfolding offers put_connection find
on_stages_ready stages s =
    if has_connection s.connection || not (is_selected s.request)
    then s
    else if has_stage (find (offers s.request) stages)
    then put_connection s
    else s

unfoldable pub on_login_succeeded : Ingress → Ingress
unfolding put_connection
on_login_succeeded s = if has_connection s.connection then s else put_connection s

unfoldable pub on_logout_succeeded : Qt → Ingress → Ingress
on_logout_succeeded qt s = reset_decoder qt none s

-- The settings are captured and the connection is put again; the reply only saves the settings.
unfoldable pub on_settings_update :
    Qt → ClientSettings → SourceSettings → String → Ports → Ingress → Ports × Ingress
unfolding put_connection
on_settings_update qt client settings stream_id used s =
    let (used', s') = capture_settings qt client settings stream_id used s in
    (used', put_connection s')

-- The destructor gives the port back.
unfoldable pub destroy : Ports → Ingress → Ports × Ingress
destroy used s = (
  if s.request.port == 0 then used else release_port s.request.port used,
  call (delete_downlink true) s,
)

-- What can happen to a source. `reactivate` is an update with the settings as they are.
pub data SourceEvent : Type 0 where
  put_failed delete_succeeded : String → SourceEvent
  downlink_ready : Option StageConnection → SourceEvent
  stages_ready : List Stage → SourceEvent
  login_succeeded logout_succeeded : SourceEvent
  settings_updated : ClientSettings → SourceSettings → String → SourceEvent

unfoldable pub handle : Qt → SourceEvent → Ports → Ingress → Ports × Ingress
unfolding on_put_downlink_failed on_delete_downlink_succeeded on_downlink_ready on_stages_ready
    on_login_succeeded on_logout_succeeded on_settings_update
handle qt (put_failed id) used s = (used, on_put_downlink_failed qt id s)
handle qt (delete_succeeded id) used s = (used, on_delete_downlink_succeeded qt id s)
handle qt (downlink_ready c) used s = (used, on_downlink_ready qt c s)
handle qt (stages_ready stages) used s = (used, on_stages_ready stages s)
handle qt login_succeeded used s = (used, on_login_succeeded s)
handle qt logout_succeeded used s = (used, on_logout_succeeded qt s)
handle qt (settings_updated client settings id) used s =
    on_settings_update qt client settings id used s
