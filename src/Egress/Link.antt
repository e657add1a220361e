-- ===== src/Egress/Link.antt =====
-- src/outputs/egress-link-output.cpp: EgressLinkOutput::createEgressSettings, which turns a
-- connection into the settings of the streaming service.
use Prim.Native.String.{◌++◌}
use src_link.Prelude.{
  ℕ, ◌*◌, String, Bool, false, ◌&&◌, ◌||◌, not, Option, none, some, List, [], ◌∷◌, str_eq, ltb,
  ◌==◌, if◌then◌else◌,
}
use src_link.Prelude.{◌++◌ as append}
use src_link.Schema.{StageConnection, UplinkInfo}

-- The keys of the settings (an `obs_data_t`) that an output reads. A key that is not set reads "",
-- 0 or false.
pub record Settings : Type 0 where
  pub source_uuid : String
  pub visible : Bool
  pub recording : Bool
  pub audio_source : String
  pub audio_track : ℕ
  pub video_encoder : String
  pub audio_encoder : String
  pub bitrate : ℕ
  pub audio_bitrate : ℕ
  pub rec_format : String
  pub path : String

-- What Qt does with text: `QString::number`, the items of `QUrlQuery(text)`, `QUrl(text).host()`.
pub record Qt : Type 0 where
  pub number : ℕ → String
  pub parse_query : String → List (String × String)
  pub url_host : String → String

pub record Url : Type 0 where
  pub scheme : String
  pub host : String
  pub port : ℕ
  pub query : List (String × String)

pub data Server : Type 0 where
  no_server : Server
  srt : Url → Server
  rtmp : String → Server

pub data Auth : Type 0 where
  no_auth : Auth
  login : String → String → Auth

-- The output's settings with the keys that the connection sets.
pub record EgressSettings : Type 0 where
  pub common : Settings
  pub server : Server
  pub key : String
  pub auth : Auth

abbrev is_empty : String → Bool
is_empty s = str_eq s ""

-- `QUrlQuery::removeQueryItem` removes the first item of that name, `addQueryItem` appends one.
unfoldable pub remove_query_item : String → List (String × String) → List (String × String)
remove_query_item k [] = []
remove_query_item k ((j, v) ∷ q) = if str_eq j k then q else (j, v) ∷ remove_query_item k q

abbrev pub add_query_item : String → String → List (String × String) → List (String × String)
add_query_item k v q = append q ((k, v) ∷ [])

-- The uplink may be the empty object.
abbrev pub public_address : Option UplinkInfo → String
public_address none = ""
public_address (some u) = u.public_address

abbrev pub allocation_lan : Option UplinkInfo → Bool
allocation_lan none = false
allocation_lan (some u) = u.lan

-- The participant's latency, in microseconds, overrides the one in the parameters.
unfoldable pub override_latency : Qt → ℕ → List (String × String) → List (String × String)
unfolding remove_query_item
override_latency qt latency q =
    if latency == 0
    then q
    else add_query_item "latency" (qt.number (latency * 1000)) (remove_query_item "latency" q)

abbrev add_unless_empty : String → String → List (String × String) → List (String × String)
add_unless_empty k v q = if is_empty v then q else add_query_item k v q

unfoldable pub stream_query : StageConnection → List (String × String) → List (String × String)
stream_query c q =
    if c.relay
    then add_query_item "streamid"
        (if str_eq c.relay_app "mediamtx"
          then "publish:" ++ c.stream_id ++ ":" ++ c.id ++ ":" ++ c.passphrase
          else "publish/" ++ c.stream_id ++ "/" ++ c.passphrase)
        (add_query_item "mode" "caller" q)
    else add_unless_empty "passphrase" c.passphrase
        (add_unless_empty "streamid" c.stream_id (add_query_item "mode" "caller" q))

-- A guest on the same network is sent to the LAN server.
unfoldable pub srt_address : Option UplinkInfo → StageConnection → String
srt_address uplink c =
    if str_eq c.server (public_address uplink) || allocation_lan uplink
    then c.lan_server
    else c.server

unfoldable pub srt_url : Qt → Option UplinkInfo → StageConnection → Url
unfolding override_latency stream_query srt_address
srt_url qt uplink c = record {
  scheme = "srt";
  host = srt_address uplink c;
  port = c.port;
  query = stream_query c (override_latency qt c.latency (qt.parse_query c.parameters));
}

unfoldable pub rtmp_url : Qt → Option UplinkInfo → StageConnection → String
rtmp_url qt uplink c =
    if str_eq (qt.url_host c.server) (public_address uplink) || allocation_lan uplink
    then c.lan_server
    else c.server

unfoldable pub limit_bitrate : StageConnection → ℕ → ℕ
limit_bitrate c bitrate =
    if ltb c.max_bitrate bitrate
    then c.max_bitrate
    else if ltb bitrate c.min_bitrate
    then c.min_bitrate
    else bitrate

abbrev pub limited : StageConnection → Settings → Settings
limited c s = record s { bitrate = limit_bitrate c s.bitrate }

unfoldable pub create_egress_settings :
    Qt → Option UplinkInfo → Settings → StageConnection → Option EgressSettings
unfolding srt_url rtmp_url limit_bitrate
create_egress_settings qt uplink settings c =
    if str_eq c.protocol "srt"
    then some (record {
      common = limited c settings;
      server = srt (srt_url qt uplink c);
      key = "";
      auth = no_auth;
    })
    else if str_eq c.protocol "rtmp"
    then some (record {
      common = limited c settings;
      server = rtmp (rtmp_url qt uplink c);
      key = c.stream_id;
      auth =
          if not (is_empty c.auth_username) && not (is_empty c.passphrase)
          then login c.auth_username c.passphrase
          else no_auth;
    })
    else none
