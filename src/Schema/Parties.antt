-- ===== src/Schema/Parties.antt =====
-- src/schema.hpp: parties and their members. Of each class: what its getters return, as a record
-- that they read from the JSON, the object that its setters write, and `isValid`. A date is kept
-- as its text. class Party.
use src_link.Prelude.Int.{ℤ}
use src_link.Schema.Accounts.{
  account_view_valid, account_view_object, account_view-read, account_view, AccountView,
}
use src_link.Prelude.{arith, refl, [], true, ◌&&◌, ◌∷◌, ◌≡◌, Bool, String}
use src_link.Schema.Json.{
  truth, is_bool, is_double, num, maybe, obj, to_bool, to_object, is_string, str, to_int, set_all,
  to_string, JsonObject, value,
}

pub record Party : Type 0 where
  pub id : String
  pub name : String
  pub description : String
  pub picture_id : String
  pub capacity : ℤ
  pub owner_account_view : AccountView
  pub owner_user_id : String

unfoldable pub party : JsonObject → Party
party o = record {
  id = to_string (value "_id" o);
  name = to_string (value "name" o);
  description = to_string (value "description" o);
  picture_id = to_string (value "picture_id" o);
  capacity = to_int (value "capacity" o);
  owner_account_view = account_view (to_object (value "owner_account_view" o));
  owner_user_id = to_string (value "owner_user_id" o);
}

unfoldable pub party_object : Party → JsonObject
party_object r = set_all (
    ("_id", str r.id)
    ∷ ("name", str r.name)
    ∷ ("description", str r.description)
    ∷ ("picture_id", str r.picture_id)
    ∷ ("capacity", num r.capacity)
    ∷ ("owner_account_view", obj (account_view_object r.owner_account_view))
    ∷ ("owner_user_id", str r.owner_user_id)
    ∷ [])

unfoldable pub party_valid : JsonObject → Bool
party_valid o =
    is_string (value "_id" o)
    && is_string (value "name" o)
    && maybe (value "description" o) (is_string (value "description" o))
    && maybe (value "picture_id" o) (is_string (value "picture_id" o))
    && maybe (value "capacity" o) (is_double (value "capacity" o))
    && account_view_valid (to_object (value "owner_account_view" o))
    && is_string (value "owner_user_id" o)

pub party-read : (r : Party) → (party (party_object r) ≡ r) × (party_valid (party_object r) ≡ true)
unfolding party party_object party_valid value set_all
party-read r =
    let owner_account_view = account_view-read r.owner_account_view in (ground arith, ground arith)

-- class PartyView.
pub record PartyView : Type 0 where
  pub name : String
  pub picture_id : String

unfoldable pub party_view : JsonObject → PartyView
party_view o = record {
  name = to_string (value "name" o);
  picture_id = to_string (value "picture_id" o);
}

unfoldable pub party_view_object : PartyView → JsonObject
party_view_object r = set_all (("name", str r.name) ∷ ("picture_id", str r.picture_id) ∷ [])

unfoldable pub party_view_valid : JsonObject → Bool
party_view_valid o =
    is_string (value "name" o) && maybe (value "picture_id" o) (is_string (value "picture_id" o))

pub party_view-read :
    (r : PartyView)
    → (party_view (party_view_object r) ≡ r) × (party_view_valid (party_view_object r) ≡ true)
unfolding party_view party_view_object party_view_valid value set_all
party_view-read r = (refl, refl)

-- class PartyMember.
pub record PartyMember : Type 0 where
  pub party_id : String
  pub invite_code : String
  pub display_name : String
  pub account_id : String
  pub membership_date : String
  pub party_view : PartyView
  pub account_view : AccountView
  pub byol : Bool

unfoldable pub party_member : JsonObject → PartyMember
party_member o = record {
  party_id = to_string (value "party_id" o);
  invite_code = to_string (value "invite_code" o);
  display_name = to_string (value "display_name" o);
  account_id = to_string (value "account_id" o);
  membership_date = to_string (value "membership_date" o);
  party_view = party_view (to_object (value "party_view" o));
  account_view = account_view (to_object (value "account_view" o));
  byol = to_bool (value "byol" o);
}

unfoldable pub party_member_object : PartyMember → JsonObject
party_member_object r = set_all (
    ("party_id", str r.party_id)
    ∷ ("invite_code", str r.invite_code)
    ∷ ("display_name", str r.display_name)
    ∷ ("account_id", str r.account_id)
    ∷ ("membership_date", str r.membership_date)
    ∷ ("party_view", obj (party_view_object r.party_view))
    ∷ ("account_view", obj (account_view_object r.account_view))
    ∷ ("byol", truth r.byol)
    ∷ [])

unfoldable pub party_member_valid : JsonObject → Bool
party_member_valid o =
    is_string (value "party_id" o)
    && maybe (value "invite_code" o) (is_string (value "invite_code" o))
    && is_string (value "display_name" o)
    && maybe (value "account_id" o) (is_string (value "account_id" o))
    && maybe (value "membership_date" o) (is_string (value "membership_date" o))
    && party_view_valid (to_object (value "party_view" o))
    && maybe (value "account_view" o) (account_view_valid (to_object (value "account_view" o)))
    && maybe (value "byol" o) (is_bool (value "byol" o))

pub party_member-read :
    (r : PartyMember)
    → (party_member (party_member_object r) ≡ r)
      × (party_member_valid (party_member_object r) ≡ true)
unfolding party_member party_member_object party_member_valid value set_all
party_member-read r =
    let party_view = party_view-read r.party_view in
    let account_view = account_view-read r.account_view in (ground arith, ground arith)
