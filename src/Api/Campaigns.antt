-- ===== src/Api/Campaigns.antt =====
-- note-store-campaigns.ts: the campaign domain.
pub mod Laws
use dnd_notes.Common.{
  String, Bool, true, ◌&&◌, ◌||◌, not, Option, none, some, List, [], ◌∷◌, ◌++◌, ◌==◌, given, ◌=ℕ◌,
  text_lt, if◌then◌else◌, keep, find, any, update_where, is_some,
}
use dnd_notes.Common.Sort.{order_by}
use dnd_notes.Api.Store.{owner, is_owner, Campaign, Membership, Store, equals}
use dnd_notes.Api.Memberships.{owns_campaign, count_owner_memberships, insert_membership}

abbrev pub default_campaign_id : String
default_campaign_id = "moonshae-ledger"

pub record CampaignInput : Type 0 where
  pub name : String
  pub tagline : String
  pub system : String
  pub setting : String
  pub next_session : Option String

pub record OwnerAccount : Type 0 where
  pub id : String
  pub display_name : String

-- defaultCampaign.
abbrev pub default_input : CampaignInput
default_input = record {
  name = "Moonshae Ledger";
  tagline = "Capture the clues, fallout, and character beats that matter between sessions.";
  system = "Dungeons & Dragons 5e";
  setting = "Moonshae Isles";
  next_session = some "2026-04-18T19:00:00.000Z";
}

abbrev pub is_active : Campaign → Bool
is_active c = not (is_some c.archived_at)

-- ORDER BY CASE WHEN id = default THEN 0 ELSE 1 END, created_at ASC.
abbrev pub listed_before : Campaign → Campaign → Bool
listed_before a b =
    if a.id == default_campaign_id
    then (not (b.id == default_campaign_id) || text_lt a.created_at b.created_at)
    else (not (b.id == default_campaign_id) && text_lt a.created_at b.created_at)

unfoldable pub get_campaign : String → Store → Option Campaign
get_campaign campaign_id s = find (λ c. c.id == campaign_id) s.campaigns

unfoldable pub list_campaigns : Store → List Campaign
list_campaigns s = order_by listed_before (keep is_active s.campaigns)

abbrev copies : Campaign → List Membership → List Campaign
copies c [] = []
copies c (m ∷ ms) = c ∷ copies c ms

-- INNER JOIN campaign_memberships: a campaign comes once for each membership that fits.
abbrev pub joined : (Membership → Bool) → List Membership → List Campaign → List Campaign
joined p ms [] = []
joined p ms (c ∷ cs) = copies c (keep (λ m. m.campaign_id == c.id && p m) ms) ++ joined p ms cs

unfoldable pub list_user_campaigns : String → Store → List Campaign
list_user_campaigns user_id s =
    order_by listed_before
      (joined (λ m. equals m.user_id user_id) s.memberships (keep is_active s.campaigns))

unfoldable pub list_owned_campaigns : String → Store → List Campaign
list_owned_campaigns user_id s = order_by listed_before (
    joined (λ m. equals m.user_id user_id && is_owner m.role) s.memberships
      (keep is_active s.campaigns))

abbrev pub first : List Campaign → Option Campaign
first [] = none
first (c ∷ cs) = some c

-- `none` is a thrown error: no owned, no active, or no available campaign.
unfoldable pub get_primary_campaign : Option String → Store → Option Campaign
get_primary_campaign user s = elim (given user) [
  | none ↦ first (list_campaigns s)
  | some user_id ↦ first (list_owned_campaigns user_id s)
]

unfoldable pub get_primary_campaign_for_user : String → Store → Option Campaign
get_primary_campaign_for_user user_id s = first (list_user_campaigns user_id s)

abbrev pub unless_archived : Option Campaign → Option Campaign
unless_archived none = none
unless_archived (some c) = if is_active c then some c else none

-- `none` is the thrown error.
unfoldable pub require_campaign : Option String → Store → Option Campaign
require_campaign campaign s = elim (given campaign) [
  | none ↦ get_primary_campaign none s
  | some campaign_id ↦ unless_archived (get_campaign campaign_id s)
]

unfoldable pub is_campaign_active : String → Store → Bool
is_campaign_active campaign_id s = is_some (unless_archived (get_campaign campaign_id s))

unfoldable pub insert_campaign : Campaign → Store → Store
insert_campaign c s = record s { campaigns = s.campaigns ++ c ∷ [] }

unfoldable pub create_campaign :
    CampaignInput → OwnerAccount → (id membership_id now : String) → Store → Campaign × Store
create_campaign input account id membership_id now s =
    let campaign : Campaign = record {
      id = id;
      name = input.name;
      tagline = input.tagline;
      system = input.system;
      setting = input.setting;
      next_session = input.next_session;
      archived_at = none;
      created_at = now;
      updated_at = now;
    } in
    (
      campaign,
      insert_membership
          (record {
            id = membership_id;
            campaign_id = id;
            role = owner;
            display_name = account.display_name;
            user_id = some account.id;
            guest_token_id = none;
            created_at = now;
            updated_at = now;
          })
          (insert_campaign campaign s),
    )

abbrev pub rewrite : CampaignInput → String → Campaign → Campaign
rewrite input now c = record c {
  name = input.name;
  tagline = input.tagline;
  system = input.system;
  setting = input.setting;
  next_session = input.next_session;
  updated_at = now;
}

-- `ownerUserId && !(await ownsCampaign(...))`, negated.
abbrev pub may_update : String → Option String → Store → Bool
may_update campaign_id none s = true
may_update campaign_id (some user_id) s = owns_campaign campaign_id user_id s

abbrev pub update_found :
    String
    → CampaignInput
    → Option String
    → String
    → Store
    → Option Campaign
    → Option Campaign × Store
update_found campaign_id input user now s none = (none, s)
update_found campaign_id input user now s (some existing) =
    if is_active existing && may_update campaign_id user s
    then (
      some (rewrite input now existing),
      record s {
        campaigns = update_where (λ c. c.id == existing.id) (rewrite input now) s.campaigns;
      },
    )
    else (none, s)

unfoldable pub update_campaign :
    String → CampaignInput → Option String → (now : String) → Store → Option Campaign × Store
update_campaign campaign_id input user now s =
    update_found campaign_id input (given user) now s (get_campaign campaign_id s)

abbrev pub default_campaign : (now : String) → Campaign
default_campaign now = record {
  id = default_campaign_id;
  name = default_input.name;
  tagline = default_input.tagline;
  system = default_input.system;
  setting = default_input.setting;
  next_session = default_input.next_session;
  archived_at = none;
  created_at = now;
  updated_at = now;
}

-- INSERT ... ON CONFLICT (id) DO NOTHING.
unfoldable pub insert_default_campaign_if_missing : (now : String) → Store → Store
insert_default_campaign_if_missing now s =
    if any (λ c. c.id == default_campaign_id) s.campaigns
    then s
    else insert_campaign (default_campaign now) s

abbrev pub default_owner : (membership_id later : String) → Membership
default_owner membership_id later = record {
  id = membership_id;
  campaign_id = default_campaign_id;
  role = owner;
  display_name = "Campaign owner";
  user_id = none;
  guest_token_id = none;
  created_at = later;
  updated_at = later;
}

unfoldable pub ensure_default_campaign : (membership_id now later : String) → Store → Store
ensure_default_campaign membership_id now later s =
    let t = insert_default_campaign_if_missing now s in
    if count_owner_memberships default_campaign_id t =ℕ 0
    then insert_membership (default_owner membership_id later) t
    else t
