-- ===== src/Tests/Clients.antt =====
-- Concrete messages, replies and runs of the API client (src/api-client.cpp), and objects of
-- src/schema.hpp.
use src_link.Tests.{guest}
use src_link.Prelude.Int.{negsuc, pos}
use src_link.Schema.Allocations.{StageSeatAllocation}
use src_link.Schema.Connections.{
  uplink_resource-read, uplink_resource_valid, uplink_resource_object, UplinkResource,
  uplink_resource,
}
use src_link.Prelude.{◌≡◌, false, true, [], ◌∷◌}
use src_link.Schema.Accounts.{AccountView, AccountInfo}
use src_link.Schema.Licenses.{AccountResourceUsage, SubscriptionLicense, SubscriptionFeatures}
use src_link.Schema.Stages.{Stage}

abbrev host : AccountView
host = record { display_name = "Host"; picture_id = "" }

abbrev pub studio : Stage
studio = record {
  id = "st1";
  name = "Studio";
  description = "";
  picture_id = "";
  sources = record { name = "cam"; display_name = "Camera"; description = "" } ∷ [];
  seats = record { name = "seat"; display_name = "Seat" } ∷ [];
  relay_servers = record { address = "192.0.2.9"; port = pos 20000; app = "srtrelay" } ∷ [];
  owner_account_view = host;
  owner_user_id = "u1";
}

abbrev allocation : StageSeatAllocation
allocation = record {
  id = "a1";
  party_id = "p1";
  party_event_id = "e1";
  stage_id = "st1";
  seat_name = "seat";
  member_id = "m1";
  participant_id = "pp1";
  account_id = "ac1";
  disabled = false;
  lan = true;
  latency = negsuc 0;
  owner_user_id = "u1";
}

abbrev pub resource : UplinkResource
resource = record {
  allocation = allocation;
  stage = studio;
  connections = guest ∷ [];
  public_address = "198.51.100.7";
}

uplink_resource-read_example :
    (uplink_resource (uplink_resource_object resource) ≡ resource)
    × (uplink_resource_valid (uplink_resource_object resource) ≡ true)
uplink_resource-read_example = uplink_resource-read resource

abbrev features : SubscriptionFeatures
features = record {
  host_ability = true;
  guest_ability = true;
  max_stages = pos 3;
  max_parties = pos 2;
  max_concurrent_party_events = pos 1;
  max_sources_per_stage_seat = pos 4;
  max_seats_per_stage = pos 8;
  max_srtrelay_servers_per_stage = pos 1;
  max_members_per_party = pos 50;
  max_participants_per_party_event = pos 50;
  max_uplink_duration = negsuc 0;
  ui_type = "standard";
  byol_ability = false;
}

abbrev pub license : SubscriptionLicense
license = record {
  saved_plan = record {
    name = "Pro";
    description = "";
    features = features;
    period_months = pos 12;
  };
  start_date = "2024-01-01T00:00:00Z";
  license_valid = true;
}

abbrev usage : AccountResourceUsage
usage = record {
  stages = pos 1;
  parties = pos 1;
  party_events = pos 0;
  concurrent_party_events = pos 0;
  max_stage_sources = pos 1;
  max_stage_seats = pos 1;
  max_srtrelay_servers = pos 0;
  max_party_members = pos 1;
  max_party_event_participants = pos 1;
}

abbrev pub info : AccountInfo
info = record {
  account = record {
    id = "ac1";
    display_name = "Guest";
    picture_id = "";
    access_code_view = record {
      id = "x1";
      value = "code";
      expiry_date = "";
      description = "";
      created_at = "2024-01-01T00:00:00Z";
    };
  };
  subscription_license = license;
  resource_usage = usage;
}
