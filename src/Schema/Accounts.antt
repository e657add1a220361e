-- ===== src/Schema/Accounts.antt =====
-- src/schema.hpp: accounts and what others see of them. Of each class: what its getters return, as
-- a record that they read from the JSON, the object that its setters write, and `isValid`. A date
-- is kept as its text. class AccountAccessCodeView.
use src_link.Schema.Licenses.{
  account_resource_usage_valid, account_resource_usage-read, account_resource_usage_object,
  subscription_license-read, subscription_license_object, account_resource_usage,
  subscription_license_valid, subscription_license, AccountResourceUsage, SubscriptionLicense,
}
use src_link.Prelude.{refl, [], arith, ◌&&◌, true, ◌∷◌, ◌≡◌, Bool, String}
use src_link.Schema.Json.{
  maybe, is_string, to_object, str, to_string, obj, JsonObject, set_all, value,
}

pub record AccountAccessCodeView : Type 0 where
  pub id : String
  pub value : String
  pub expiry_date : String
  pub description : String
  pub created_at : String

unfoldable pub account_access_code_view : JsonObject → AccountAccessCodeView
account_access_code_view o = record {
  id = to_string (value "_id" o);
  value = to_string (value "value" o);
  expiry_date = to_string (value "expiry_date" o);
  description = to_string (value "description" o);
  created_at = to_string (value "created_at" o);
}

unfoldable pub account_access_code_view_object : AccountAccessCodeView → JsonObject
account_access_code_view_object r = set_all (
    ("_id", str r.id)
    ∷ ("value", str r.value)
    ∷ ("expiry_date", str r.expiry_date)
    ∷ ("description", str r.description)
    ∷ ("created_at", str r.created_at)
    ∷ [])

unfoldable pub account_access_code_view_valid : JsonObject → Bool
account_access_code_view_valid o =
    is_string (value "_id" o)
    && is_string (value "value" o)
    && maybe (value "expiry_date" o) (is_string (value "expiry_date" o))
    && maybe (value "description" o) (is_string (value "description" o))
    && is_string (value "created_at" o)

pub account_access_code_view-read :
    (r : AccountAccessCodeView)
    → (account_access_code_view (account_access_code_view_object r) ≡ r)
      × (account_access_code_view_valid (account_access_code_view_object r) ≡ true)
unfolding account_access_code_view account_access_code_view_object account_access_code_view_valid
    value set_all
account_access_code_view-read r = (refl, refl)

-- class AccountView.
pub record AccountView : Type 0 where
  pub display_name : String
  pub picture_id : String

unfoldable pub account_view : JsonObject → AccountView
account_view o = record {
  display_name = to_string (value "display_name" o);
  picture_id = to_string (value "picture_id" o);
}

unfoldable pub account_view_object : AccountView → JsonObject
account_view_object r =
    set_all (("display_name", str r.display_name) ∷ ("picture_id", str r.picture_id) ∷ [])

unfoldable pub account_view_valid : JsonObject → Bool
account_view_valid o =
    is_string (value "display_name" o)
    && maybe (value "picture_id" o) (is_string (value "picture_id" o))

pub account_view-read :
    (r : AccountView)
    → (account_view (account_view_object r) ≡ r)
      × (account_view_valid (account_view_object r) ≡ true)
unfolding account_view account_view_object account_view_valid value set_all
account_view-read r = (refl, refl)

-- class Account.
pub record Account : Type 0 where
  pub id : String
  pub display_name : String
  pub picture_id : String
  pub access_code_view : AccountAccessCodeView

unfoldable pub account : JsonObject → Account
account o = record {
  id = to_string (value "_id" o);
  display_name = to_string (value "display_name" o);
  picture_id = to_string (value "picture_id" o);
  access_code_view = account_access_code_view (to_object (value "access_code_view" o));
}

unfoldable pub account_object : Account → JsonObject
account_object r = set_all (
    ("_id", str r.id)
    ∷ ("display_name", str r.display_name)
    ∷ ("picture_id", str r.picture_id)
    ∷ ("access_code_view", obj (account_access_code_view_object r.access_code_view))
    ∷ [])

unfoldable pub account_valid : JsonObject → Bool
account_valid o =
    is_string (value "_id" o)
    && is_string (value "display_name" o)
    && maybe (value "picture_id" o) (is_string (value "picture_id" o))
    && maybe (value "access_code_view" o)
        (account_access_code_view_valid (to_object (value "access_code_view" o)))

pub account-read :
    (r : Account) → (account (account_object r) ≡ r) × (account_valid (account_object r) ≡ true)
unfolding account account_object account_valid value set_all
account-read r =
    let access_code_view = account_access_code_view-read r.access_code_view in
    (ground arith, ground arith)

-- class AccountInfo.
pub record AccountInfo : Type 0 where
  pub account : Account
  pub subscription_license : SubscriptionLicense
  pub resource_usage : AccountResourceUsage

unfoldable pub account_info : JsonObject → AccountInfo
account_info o = record {
  account = account (to_object (value "account" o));
  subscription_license = subscription_license (to_object (value "subscription_license" o));
  resource_usage = account_resource_usage (to_object (value "resource_usage" o));
}

unfoldable pub account_info_object : AccountInfo → JsonObject
account_info_object r = set_all (
    ("account", obj (account_object r.account))
    ∷ ("subscription_license", obj (subscription_license_object r.subscription_license))
    ∷ ("resource_usage", obj (account_resource_usage_object r.resource_usage))
    ∷ [])

unfoldable pub account_info_valid : JsonObject → Bool
account_info_valid o =
    account_valid (to_object (value "account" o))
    && subscription_license_valid (to_object (value "subscription_license" o))
    && account_resource_usage_valid (to_object (value "resource_usage" o))

-- An account that the setters write, with its license, plan, features and usage of resources, is valid,
-- and the getters return what was set.
pub account_info-read :
    (r : AccountInfo)
    → (account_info (account_info_object r) ≡ r)
      × (account_info_valid (account_info_object r) ≡ true)
unfolding account_info account_info_object account_info_valid value set_all
account_info-read r =
    let account = account-read r.account in
    let subscription_license = subscription_license-read r.subscription_license in
    let resource_usage = account_resource_usage-read r.resource_usage in
    (ground arith, ground arith)
