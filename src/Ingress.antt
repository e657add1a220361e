-- ===== src/Ingress.antt =====
-- src/sources/ingress-link-source.cpp: class IngressLinkSource, a source that receives the stream of a
-- guest. Its state and its settings; the children have its operations.
use src_link.Egress.Link.{Url}
use src_link.Schema.{StageConnection}
use src_link.Prelude.{List, ℕ, String, Bool, Option}
pub mod Capture
pub mod Downlink
pub mod Allocated
pub mod Listening
pub mod Decoding
pub mod AudioThread

-- class DownlinkRequestBody: what the source asks of the server.
pub record Request : Type 0 where
  pub protocol : String
  pub lan_server : String
  pub stage_id : String
  pub seat_name : String
  pub source_name : String
  pub max_bitrate : ℕ
  pub min_bitrate : ℕ
  pub width : ℕ
  pub height : ℕ
  pub relay : Bool
  pub stream_id : String
  pub parameters : String
  pub revision : ℕ
  pub port : ℕ

-- The keys of the source's settings.
pub record SourceSettings : Type 0 where
  pub stage_id : String
  pub seat_name : String
  pub source_name : String
  pub max_bitrate : ℕ
  pub min_bitrate : ℕ
  pub width : ℕ
  pub height : ℕ
  pub hw_decode : Bool
  pub clear_on_media_end : Bool
  pub relay : Bool
  pub advanced_settings : Bool
  pub reconnect_delay_sec : ℕ
  pub buffering_mb : ℕ
  pub srt_latency : ℕ

-- What the settings of the API client answer, and `retrievePrivateIp`.
pub record ClientSettings : Type 0 where
  pub ingress_protocol : String
  pub private_ip : String
  pub reconnect_delay_time : ℕ
  pub network_buffer_size : ℕ
  pub srt_latency : ℕ
  pub srt_pbkeylen : ℕ
  pub port_min : ℕ
  pub port_max : ℕ

-- The settings of the private source that decodes. `none` is the empty input.
pub record Decoder : Type 0 where
  pub input : Option Url
  pub reconnect_delay_sec : ℕ
  pub buffering_mb : ℕ
  pub hw_decode : Bool
  pub clear_on_media_end : Bool

-- The calls of the API client, and of the decoder.
pub data Call : Type 0 where
  put_downlink : Request → Call
  delete_downlink : Bool → Call
  update_decoder : Decoder → Call

-- The members. `decoder` has the settings that the decoder was last given, `calls` the calls so far,
-- the latest first.
pub record Ingress : Type 0 where
  pub uuid : String
  pub connection : Option StageConnection
  pub request : Request
  pub revision : ℕ
  pub reconnect_delay_sec : ℕ
  pub buffering_mb : ℕ
  pub hw_decode : Bool
  pub clear_on_media_end : Bool
  pub decoder : Decoder
  pub calls : List Call
