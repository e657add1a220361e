-- ===== src/Schema/Licenses.antt =====
-- src/schema.hpp: the license of an account and what it allows. Of each class: what its getters
-- return, as a record that they read from the JSON, the object that its setters write, and
-- `isValid`. A date is kept as its text. class SubscriptionFeatures.
use src_link.Prelude.{arith, [], refl, true, ◌∷◌, ◌&&◌, ◌≡◌, String, Bool}
use src_link.Prelude.Int.{ℤ}
use src_link.Schema.Json.{
  maybe, to_int, is_bool, to_object, is_string, to_string, truth, is_double, str, obj, to_bool, num,
  set_all, JsonObject, value,
}

pub record SubscriptionFeatures : Type 0 where
  pub host_ability : Bool
  pub guest_ability : Bool
  pub max_stages : ℤ
  pub max_parties : ℤ
  pub max_concurrent_party_events : ℤ
  pub max_sources_per_stage_seat : ℤ
  pub max_seats_per_stage : ℤ
  pub max_srtrelay_servers_per_stage : ℤ
  pub max_members_per_party : ℤ
  pub max_participants_per_party_event : ℤ
  pub max_uplink_duration : ℤ
  pub ui_type : String
  pub byol_ability : Bool

unfoldable pub subscription_features : JsonObject → SubscriptionFeatures
subscription_features o = record {
  host_ability = to_bool (value "host_ability" o);
  guest_ability = to_bool (value "guest_ability" o);
  max_stages = to_int (value "max_stages" o);
  max_parties = to_int (value "max_parties" o);
  max_concurrent_party_events = to_int (value "max_concurrent_party_events" o);
  max_sources_per_stage_seat = to_int (value "max_sources_per_stage_seat" o);
  max_seats_per_stage = to_int (value "max_seats_per_stage" o);
  max_srtrelay_servers_per_stage = to_int (value "max_srtrelay_servers_per_stage" o);
  max_members_per_party = to_int (value "max_members_per_party" o);
  max_participants_per_party_event = to_int (value "max_participants_per_party_event" o);
  max_uplink_duration = to_int (value "max_uplink_duration" o);
  ui_type = to_string (value "ui_type" o);
  byol_ability = to_bool (value "byol_ability" o);
}

unfoldable pub subscription_features_object : SubscriptionFeatures → JsonObject
subscription_features_object r = set_all (
    ("host_ability", truth r.host_ability)
    ∷ ("guest_ability", truth r.guest_ability)
    ∷ ("max_stages", num r.max_stages)
    ∷ ("max_parties", num r.max_parties)
    ∷ ("max_concurrent_party_events", num r.max_concurrent_party_events)
    ∷ ("max_sources_per_stage_seat", num r.max_sources_per_stage_seat)
    ∷ ("max_seats_per_stage", num r.max_seats_per_stage)
    ∷ ("max_srtrelay_servers_per_stage", num r.max_srtrelay_servers_per_stage)
    ∷ ("max_members_per_party", num r.max_members_per_party)
    ∷ ("max_participants_per_party_event", num r.max_participants_per_party_event)
    ∷ ("max_uplink_duration", num r.max_uplink_duration)
    ∷ ("ui_type", str r.ui_type)
    ∷ ("byol_ability", truth r.byol_ability)
    ∷ [])

unfoldable pub subscription_features_valid : JsonObject → Bool
subscription_features_valid o =
    is_bool (value "host_ability" o)
    && is_bool (value "guest_ability" o)
    && is_double (value "max_stages" o)
    && is_double (value "max_parties" o)
    && is_double (value "max_concurrent_party_events" o)
    && is_double (value "max_sources_per_stage_seat" o)
    && is_double (value "max_seats_per_stage" o)
    && is_double (value "max_srtrelay_servers_per_stage" o)
    && is_double (value "max_members_per_party" o)
    && is_double (value "max_participants_per_party_event" o)
    && is_double (value "max_uplink_duration" o)
    && is_string (value "ui_type" o)
    && is_bool (value "byol_ability" o)

pub subscription_features-read :
    (r : SubscriptionFeatures)
    → (subscription_features (subscription_features_object r) ≡ r)
      × (subscription_features_valid (subscription_features_object r) ≡ true)
unfolding subscription_features subscription_features_object subscription_features_valid value
    set_all
subscription_features-read r = (refl, refl)

-- class SavedSubscriptionPlan.
pub record SavedSubscriptionPlan : Type 0 where
  pub name : String
  pub description : String
  pub features : SubscriptionFeatures
  pub period_months : ℤ

unfoldable pub saved_subscription_plan : JsonObject → SavedSubscriptionPlan
saved_subscription_plan o = record {
  name = to_string (value "name" o);
  description = to_string (value "description" o);
  features = subscription_features (to_object (value "features" o));
  period_months = to_int (value "period_months" o);
}

unfoldable pub saved_subscription_plan_object : SavedSubscriptionPlan → JsonObject
saved_subscription_plan_object r = set_all (
    ("name", str r.name)
    ∷ ("description", str r.description)
    ∷ ("features", obj (subscription_features_object r.features))
    ∷ ("period_months", num r.period_months)
    ∷ [])

unfoldable pub saved_subscription_plan_valid : JsonObject → Bool
saved_subscription_plan_valid o =
    is_string (value "name" o)
    && maybe (value "description" o) (is_string (value "description" o))
    && subscription_features_valid (to_object (value "features" o))
    && is_double (value "period_months" o)

pub saved_subscription_plan-read :
    (r : SavedSubscriptionPlan)
    → (saved_subscription_plan (saved_subscription_plan_object r) ≡ r)
      × (saved_subscription_plan_valid (saved_subscription_plan_object r) ≡ true)
unfolding saved_subscription_plan saved_subscription_plan_object saved_subscription_plan_valid value
    set_all
saved_subscription_plan-read r =
    let features = subscription_features-read r.features in (ground arith, ground arith)

-- class SubscriptionLicense.
pub record SubscriptionLicense : Type 0 where
  pub saved_plan : SavedSubscriptionPlan
  pub start_date : String
  pub license_valid : Bool

unfoldable pub subscription_license : JsonObject → SubscriptionLicense
subscription_license o = record {
  saved_plan = saved_subscription_plan (to_object (value "saved_plan" o));
  start_date = to_string (value "start_date" o);
  license_valid = to_bool (value "valid" o);
}

unfoldable pub subscription_license_object : SubscriptionLicense → JsonObject
subscription_license_object r = set_all (
    ("saved_plan", obj (saved_subscription_plan_object r.saved_plan))
    ∷ ("start_date", str r.start_date)
    ∷ ("valid", truth r.license_valid)
    ∷ [])

unfoldable pub subscription_license_valid : JsonObject → Bool
subscription_license_valid o =
    saved_subscription_plan_valid (to_object (value "saved_plan" o))
    && is_string (value "start_date" o)
    && is_bool (value "valid" o)

pub subscription_license-read :
    (r : SubscriptionLicense)
    → (subscription_license (subscription_license_object r) ≡ r)
      × (subscription_license_valid (subscription_license_object r) ≡ true)
unfolding subscription_license subscription_license_object subscription_license_valid value set_all
subscription_license-read r =
    let saved_plan = saved_subscription_plan-read r.saved_plan in (ground arith, ground arith)

-- class AccountResourceUsage.
pub record AccountResourceUsage : Type 0 where
  pub stages : ℤ
  pub parties : ℤ
  pub party_events : ℤ
  pub concurrent_party_events : ℤ
  pub max_stage_sources : ℤ
  pub max_stage_seats : ℤ
  pub max_srtrelay_servers : ℤ
  pub max_party_members : ℤ
  pub max_party_event_participants : ℤ

unfoldable pub account_resource_usage : JsonObject → AccountResourceUsage
account_resource_usage o = record {
  stages = to_int (value "stages" o);
  parties = to_int (value "parties" o);
  party_events = to_int (value "party_events" o);
  concurrent_party_events = to_int (value "concurrent_party_events" o);
  max_stage_sources = to_int (value "max_stage_sources" o);
  max_stage_seats = to_int (value "max_stage_seats" o);
  max_srtrelay_servers = to_int (value "max_srtrelay_servers" o);
  max_party_members = to_int (value "max_party_members" o);
  max_party_event_participants = to_int (value "max_party_event_participants" o);
}

unfoldable pub account_resource_usage_object : AccountResourceUsage → JsonObject
account_resource_usage_object r = set_all (
    ("stages", num r.stages)
    ∷ ("parties", num r.parties)
    ∷ ("party_events", num r.party_events)
    ∷ ("concurrent_party_events", num r.concurrent_party_events)
    ∷ ("max_stage_sources", num r.max_stage_sources)
    ∷ ("max_stage_seats", num r.max_stage_seats)
    ∷ ("max_srtrelay_servers", num r.max_srtrelay_servers)
    ∷ ("max_party_members", num r.max_party_members)
    ∷ ("max_party_event_participants", num r.max_party_event_participants)
    ∷ [])

unfoldable pub account_resource_usage_valid : JsonObject → Bool
account_resource_usage_valid o =
    is_double (value "stages" o)
    && is_double (value "parties" o)
    && is_double (value "party_events" o)
    && is_double (value "concurrent_party_events" o)
    && is_double (value "max_stage_sources" o)
    && is_double (value "max_stage_seats" o)
    && is_double (value "max_srtrelay_servers" o)
    && is_double (value "max_party_members" o)
    && is_double (value "max_party_event_participants" o)

pub account_resource_usage-read :
    (r : AccountResourceUsage)
    → (account_resource_usage (account_resource_usage_object r) ≡ r)
      × (account_resource_usage_valid (account_resource_usage_object r) ≡ true)
unfolding account_resource_usage account_resource_usage_object account_resource_usage_valid value
    set_all
account_resource_usage-read r = (refl, refl)
