-- ===== src/Schema.antt =====
-- src/schema.hpp: the JSON objects that the server sends, as records of what their getters return.
-- A getter of a missing key returns "", 0 or false, so an object that lacks a key is a record with
-- that value. The empty object, which `isEmpty` tests for, is `none` of an `Option`.
pub mod Json
pub mod Licenses
pub mod Accounts
pub mod Stages
pub mod Parties
pub mod Events
pub mod Participants
pub mod Connections
pub mod Requests
pub mod Allocations
pub mod Portals
pub mod Messages
pub mod Array
use src_link.Prelude.{ℕ, String, Bool, Option, none, some, List}

-- class StageConnection, with the one flag of its advices.
pub record StageConnection : Type 0 where
  pub id : String
  pub stage_id : String
  pub seat_name : String
  pub source_name : String
  pub protocol : String
  pub server : String
  pub port : ℕ
  pub stream_id : String
  pub passphrase : String
  pub parameters : String
  pub relay : Bool
  pub max_bitrate : ℕ
  pub min_bitrate : ℕ
  pub width : ℕ
  pub height : ℕ
  pub revision : ℕ
  pub disabled : Bool
  pub allocation_id : String
  pub unreachable : Bool
  pub lan_server : String
  pub latency : ℕ
  pub owner_user_id : String
  pub auth_username : String
  pub relay_app : String

-- class UplinkInfo, with the `lan` flag of its allocation.
pub record UplinkInfo : Type 0 where
  pub lan : Bool
  pub connections : List StageConnection
  pub public_address : String

-- The getters of a connection that may be empty.
abbrev pub get_id : Option StageConnection → String
get_id none = ""
get_id (some c) = c.id

abbrev pub get_revision : Option StageConnection → ℕ
get_revision none = 0
get_revision (some c) = c.revision
