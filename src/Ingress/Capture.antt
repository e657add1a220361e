-- ===== src/Ingress/Capture.antt =====
-- src/sources/ingress-link-source.cpp: IngressLinkSource::captureSettings, ::compositeParameters,
-- ::createDecoderSettings and ::putConnection.
use src_link.ApiClient.Ports.{get_free_port, release_port, Ports}
use src_link.Schema.{StageConnection}
use src_link.Prelude.{
  none, ◌||◌, some, ◌==◌, suc, ◌*◌, false, true, String, ◌&&◌, ltb, List, if◌then◌else◌, ℕ, not,
  str_eq, ◌∷◌, Option, Bool,
}
use src_link.Egress.Link.{override_latency, add_query_item, Url, Qt}
use src_link.Ingress.{
  delete_downlink, put_downlink, SourceSettings, Decoder, Request, ClientSettings, Ingress, Call,
}
use Prim.Native.String.{◌++◌}

unfoldable pub composite_parameters : Qt → ClientSettings → SourceSettings → Request → String
composite_parameters qt client settings req =
    let latency = if settings.advanced_settings then settings.srt_latency else client.srt_latency in
    if str_eq req.protocol "srt"
    then (if req.relay
        then "latency=" ++ qt.number (latency * 1000)
        else "latency="
          ++ qt.number (latency * 1000)
          ++ "&pbkeylen="
          ++ qt.number client.srt_pbkeylen)
    else ""

-- `newRequest` before its parameters, its stream id and its revision are set.
abbrev filled_request : ClientSettings → SourceSettings → Request → Request
filled_request client settings req = record req {
  protocol = client.ingress_protocol;
  lan_server = client.private_ip;
  stage_id = settings.stage_id;
  seat_name = settings.seat_name;
  source_name = settings.source_name;
  max_bitrate = settings.max_bitrate;
  min_bitrate = settings.min_bitrate;
  width = settings.width;
  height = settings.height;
  relay = settings.relay;
}

abbrev pub same_flag : Bool → Bool → Bool
same_flag true b = b
same_flag false b = not b

-- `operator==` on the two objects.
unfoldable pub same_request : Request → Request → Bool
same_request a b =
    str_eq a.protocol b.protocol
    && str_eq a.lan_server b.lan_server
    && str_eq a.stage_id b.stage_id
    && str_eq a.seat_name b.seat_name
    && str_eq a.source_name b.source_name
    && (a.max_bitrate == b.max_bitrate)
    && (a.min_bitrate == b.min_bitrate)
    && (a.width == b.width)
    && (a.height == b.height)
    && same_flag a.relay b.relay
    && str_eq a.stream_id b.stream_id
    && str_eq a.parameters b.parameters
    && (a.revision == b.revision)
    && (a.port == b.port)

unfoldable pub new_request : Qt → ClientSettings → SourceSettings → String → Request → Request
unfolding composite_parameters
new_request qt client settings stream_id req =
    let filled = filled_request client settings req in
    record filled {
      stream_id = stream_id;
      parameters = composite_parameters qt client settings filled;
    }

-- "Re-allocate port".
unfoldable pub reallocate_port : ClientSettings → Bool → ℕ → Ports → ℕ × Ports
reallocate_port client relay port used =
    let used' = if port == 0 then used else release_port port used in
    if relay then (0, used') else get_free_port client.port_min client.port_max used'

-- `stream_id` is the random one that is generated.
unfoldable pub capture_settings :
    Qt → ClientSettings → SourceSettings → String → Ports → Ingress → Ports × Ingress
unfolding new_request same_request reallocate_port
capture_settings qt client settings stream_id used s =
    let req = new_request qt client settings stream_id s.request in
    let rev = if same_request req s.request then s.revision else suc s.revision in
    let (port, used') = reallocate_port client req.relay s.request.port used in
    (
      used',
      record s {
        hw_decode = settings.hw_decode;
        clear_on_media_end = settings.clear_on_media_end;
        reconnect_delay_sec =
            if settings.advanced_settings
            then settings.reconnect_delay_sec
            else client.reconnect_delay_time;
        buffering_mb =
            if settings.advanced_settings
            then settings.buffering_mb
            else client.network_buffer_size;
        revision = rev;
        request = record req { revision = rev; port = port };
      },
    )

-- `!connection.getAllocationId().isEmpty()`
abbrev pub is_populated : Option StageConnection → Bool
is_populated none = false
is_populated (some c) = not (str_eq c.allocation_id "")

abbrev decoder_query : Qt → StageConnection → List (String × String) → List (String × String)
decoder_query qt c q =
    if c.relay
    then add_query_item "streamid"
        (if str_eq c.relay_app "mediamtx"
          then "read:" ++ c.stream_id ++ ":" ++ c.id ++ ":" ++ c.passphrase
          else "play/" ++ c.stream_id ++ "/" ++ c.passphrase)
        (add_query_item "mode" "caller" q)
    else add_query_item "passphrase" c.passphrase (
        add_query_item "streamid" c.stream_id
          (add_query_item "mode" "listener" (override_latency qt c.latency q)))

unfoldable pub decoder_url : Qt → StageConnection → Url
decoder_url qt c = record {
  scheme = "srt";
  host = if c.relay then c.server else "0.0.0.0";
  port = c.port;
  query = decoder_query qt c (qt.parse_query c.parameters);
}

abbrev decoder_input : Qt → Option StageConnection → Option Url
decoder_input qt none = none
decoder_input qt (some c) =
    if not (str_eq c.allocation_id "") && str_eq c.protocol "srt"
    then some (decoder_url qt c)
    else none

unfoldable pub create_decoder_settings : Qt → Ingress → Decoder
unfolding decoder_url
create_decoder_settings qt s = record {
  input = decoder_input qt s.connection;
  reconnect_delay_sec = s.reconnect_delay_sec;
  buffering_mb = s.buffering_mb;
  hw_decode = s.hw_decode;
  clear_on_media_end = s.clear_on_media_end;
}

abbrev pub call : Call → Ingress → Ingress
call c s = record s { calls = c ∷ s.calls }

-- The stage, the seat and the source are chosen.
abbrev pub is_selected : Request → Bool
is_selected r =
    not (str_eq r.stage_id "") && not (str_eq r.seat_name "") && not (str_eq r.source_name "")

unfoldable pub put_connection : Ingress → Ingress
put_connection s =
    if (ltb 0 s.request.port || s.request.relay) && is_selected s.request
    then call (put_downlink s.request) s
    else call (delete_downlink false) s
