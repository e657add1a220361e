-- ===== src/Schema/Portals.antt =====
-- src/schema.hpp: the portals of web sockets. Of each class: what its getters return, as a record
-- that they read from the JSON, the object that its setters write, and `isValid`. A date is kept
-- as its text. class WsPortalFacilityView.
use src_link.Prelude.Int.{ℤ}
use src_link.Schema.Accounts.{
  account_view_valid, account_view_object, account_view-read, account_view, AccountView,
}
use src_link.Prelude.{[], arith, refl, ◌∷◌, true, ◌&&◌, ◌≡◌, Bool, String}
use src_link.Schema.Json.{
  num, is_double, maybe, obj, to_object, str, is_string, to_int, set_all, to_string, JsonObject,
  value,
}

pub record WsPortalFacilityView : Type 0 where
  pub address : String
  pub port : ℤ
  pub tls_port : ℤ

unfoldable pub ws_portal_facility_view : JsonObject → WsPortalFacilityView
ws_portal_facility_view o = record {
  address = to_string (value "address" o);
  port = to_int (value "port" o);
  tls_port = to_int (value "tls_port" o);
}

unfoldable pub ws_portal_facility_view_object : WsPortalFacilityView → JsonObject
ws_portal_facility_view_object r =
    set_all (("address", str r.address) ∷ ("port", num r.port) ∷ ("tls_port", num r.tls_port) ∷ [])

unfoldable pub ws_portal_facility_view_valid : JsonObject → Bool
ws_portal_facility_view_valid o =
    is_string (value "address" o)
    && is_double (value "port" o)
    && maybe (value "tls_port" o) (is_double (value "tls_port" o))

pub ws_portal_facility_view-read :
    (r : WsPortalFacilityView)
    → (ws_portal_facility_view (ws_portal_facility_view_object r) ≡ r)
      × (ws_portal_facility_view_valid (ws_portal_facility_view_object r) ≡ true)
unfolding ws_portal_facility_view ws_portal_facility_view_object ws_portal_facility_view_valid value
    set_all
ws_portal_facility_view-read r = (refl, refl)

-- class WsPortal.
pub record WsPortal : Type 0 where
  pub id : String
  pub name : String
  pub description : String
  pub picture_id : String
  pub owner_account_view : AccountView
  pub owner_user_id : String
  pub event_subscriptions : ℤ
  pub facility_id : String
  pub facility_view : WsPortalFacilityView

unfoldable pub ws_portal : JsonObject → WsPortal
ws_portal o = record {
  id = to_string (value "_id" o);
  name = to_string (value "name" o);
  description = to_string (value "description" o);
  picture_id = to_string (value "picture_id" o);
  owner_account_view = account_view (to_object (value "owner_account_view" o));
  owner_user_id = to_string (value "owner_user_id" o);
  event_subscriptions = to_int (value "event_subscriptions" o);
  facility_id = to_string (value "facility_id" o);
  facility_view = ws_portal_facility_view (to_object (value "facility_view" o));
}

unfoldable pub ws_portal_object : WsPortal → JsonObject
ws_portal_object r = set_all (
    ("_id", str r.id)
    ∷ ("name", str r.name)
    ∷ ("description", str r.description)
    ∷ ("picture_id", str r.picture_id)
    ∷ ("owner_account_view", obj (account_view_object r.owner_account_view))
    ∷ ("owner_user_id", str r.owner_user_id)
    ∷ ("event_subscriptions", num r.event_subscriptions)
    ∷ ("facility_id", str r.facility_id)
    ∷ ("facility_view", obj (ws_portal_facility_view_object r.facility_view))
    ∷ [])

unfoldable pub ws_portal_valid : JsonObject → Bool
ws_portal_valid o =
    is_string (value "_id" o)
    && is_string (value "name" o)
    && maybe (value "description" o) (is_string (value "description" o))
    && maybe (value "picture_id" o) (is_string (value "picture_id" o))
    && maybe (value "event_subscriptions" o) (is_double (value "event_subscriptions" o))
    && account_view_valid (to_object (value "owner_account_view" o))
    && is_string (value "owner_user_id" o)
    && is_string (value "facility_id" o)
    && maybe (value "facility_view" o)
        (ws_portal_facility_view_valid (to_object (value "facility_view" o)))

pub ws_portal-read :
    (r : WsPortal)
    → (ws_portal (ws_portal_object r) ≡ r) × (ws_portal_valid (ws_portal_object r) ≡ true)
unfolding ws_portal ws_portal_object ws_portal_valid value set_all
ws_portal-read r =
    let owner_account_view = account_view-read r.owner_account_view in
    let facility_view = ws_portal_facility_view-read r.facility_view in (ground arith, ground arith)
