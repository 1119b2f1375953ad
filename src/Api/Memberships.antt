-- ===== src/Api/Memberships.antt =====
-- note-store-memberships.ts: the membership domain. `hash` is SHA-256 in hex, of node:crypto.
pub mod Guests
use dnd_notes.Common.{
  ℕ, ◌+◌, String, Bool, true, false, ◌&&◌, ◌||◌, not, Option, none, some, List, [], ◌∷◌, ◌++◌, ◌==◌,
  text_lt, if◌then◌else◌, keep, find, count, update_where, is_some,
}
use dnd_notes.Common.Sort.{order_by}
use dnd_notes.Api.Store.{Role, owner, guest, is_owner, same_role, Membership, Note, Store, equals}

unfoldable pub insert_membership : Membership → Store → Store
insert_membership m s = record s { memberships = s.memberships ++ m ∷ [] }

unfoldable pub count_owner_memberships : String → Store → ℕ
count_owner_memberships campaign_id s =
    count (λ m. m.campaign_id == campaign_id && is_owner m.role) s.memberships

-- ORDER BY CASE WHEN role = 'owner' THEN 0 ELSE 1 END, created_at ASC.
abbrev pub listed_before : Membership → Membership → Bool
listed_before a b =
    if is_owner a.role
    then (not (is_owner b.role) || text_lt a.created_at b.created_at)
    else (not (is_owner b.role) && text_lt a.created_at b.created_at)

-- What `requireCampaign` lets through is an argument: `exists` is false where it throws.
unfoldable pub list_campaign_memberships : Bool → String → Store → Option (List Membership)
list_campaign_memberships exists campaign_id s =
    if exists
    then some (order_by listed_before (keep (λ m. m.campaign_id == campaign_id) s.memberships))
    else none

abbrev pub of_user : String → String → Membership → Bool
of_user campaign_id user_id m = m.campaign_id == campaign_id && equals m.user_id user_id

unfoldable pub get_user_membership_for_campaign : String → String → Store → Option Membership
get_user_membership_for_campaign user_id campaign_id s =
    find (of_user campaign_id user_id) s.memberships

unfoldable pub get_owner_membership_for_campaign : String → String → Store → Option Membership
get_owner_membership_for_campaign user_id campaign_id s =
    find (λ m. of_user campaign_id user_id m && is_owner m.role) s.memberships

unfoldable pub user_has_campaign_access : String → String → Store → Bool
user_has_campaign_access user_id campaign_id s =
    is_some (get_user_membership_for_campaign user_id campaign_id s)

unfoldable pub owns_campaign : String → String → Store → Bool
owns_campaign campaign_id user_id s =
    is_some (get_owner_membership_for_campaign user_id campaign_id s)

abbrev pub find_membership : String → List Membership → Option Membership
find_membership id = find (λ m. m.id == id)

pub record Attribution : Type 0 where
  pub membership_id : String
  pub display_name : String
  pub role : Role

abbrev pub attribution_of : Option Membership → Option Attribution
attribution_of none = none
attribution_of (some m) =
    some (record { membership_id = m.id; display_name = m.display_name; role = m.role })

unfoldable pub find_membership_attribution : String → Store → Option Attribution
find_membership_attribution id s = attribution_of (find_membership id s.memberships)

abbrev pub is_guest_token : (hash : String → String) → String → Membership → Bool
is_guest_token hash token m = equals m.guest_token_id (hash token) && not (is_owner m.role)

unfoldable pub get_guest_membership_by_token :
    (hash : String → String) → String → Store → Option Membership
get_guest_membership_by_token hash token s = find (is_guest_token hash token) s.memberships

-- `none` is the error that the campaign was not found; the result holds the plain token.
unfoldable pub create_guest_membership :
    (hash : String → String)
    → (active : Bool) → String
    → String
    → (id token now : String) → Store
    → Option (Membership × String) × Store
create_guest_membership hash active campaign_id display_name id token now s =
    let membership : Membership = record {
      id = id;
      campaign_id = campaign_id;
      role = guest;
      display_name = display_name;
      user_id = none;
      guest_token_id = some (hash token);
      created_at = now;
      updated_at = now;
    } in
    if active then (some (membership, token), insert_membership membership s) else (none, s)

pub data ClaimResult : Type 0 where
  claimed : Membership → String → ClaimResult
  already_linked : Membership → ClaimResult
  account_already_member : Membership → ClaimResult
  not_found : ClaimResult

abbrev pub claimed_by :
    (hash : String → String) → String → (token now : String) → Membership → Membership
claimed_by hash user_id token now m = record m {
  user_id = some user_id;
  guest_token_id = some (hash token);
  updated_at = now;
}

unfoldable pub claim_free :
    (hash : String → String)
    → String
    → (token now : String) → Membership
    → Option Membership
    → Store
    → ClaimResult × Store
claim_free hash user_id token now m (some existing) s = (account_already_member existing, s)
claim_free hash user_id token now m none s = (
  claimed (claimed_by hash user_id token now m) token,
  record s {
    memberships =
        update_where (λ r. r.id == m.id && not (is_owner r.role))
          (claimed_by hash user_id token now) s.memberships;
  },
)

unfoldable pub claim_found :
    (hash : String → String)
    → String
    → (token now : String) → Option Membership
    → Store
    → ClaimResult × Store
claim_found hash user_id token now none s = (not_found, s)
claim_found hash user_id token now (some m) s =
    if is_owner m.role
    then (not_found, s)
    else if is_some m.user_id
    then (already_linked m, s)
    else claim_free hash user_id token now m
        (get_user_membership_for_campaign user_id m.campaign_id s) s

unfoldable pub claim_guest_membership :
    (hash : String → String) → String → String → (token now : String) → Store → ClaimResult × Store
claim_guest_membership hash membership_id user_id token now s =
    claim_found hash user_id token now (find_membership membership_id s.memberships) s
