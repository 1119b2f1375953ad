-- ===== src/Api/ShareLinks.antt =====
-- note-store-share-links.ts: the share-link domain. `hash` is SHA-256 in hex, of node:crypto; the
-- answers of isCampaignActive, ownsCampaign and requireCampaign are arguments.
pub mod Laws
use dnd_notes.Common.{
  ℕ, String, Bool, true, false, ◌&&◌, ◌||◌, not, Option, none, some, List, [], ◌∷◌, ◌++◌, ◌==◌,
  text_lt, if◌then◌else◌, keep, find, any, update_where, is_some,
}
use dnd_notes.Common.Sort.{order_by}
use dnd_notes.Api.Store.{AccessLevel, ShareLink, Store}

pub record ShareLinkInput : Type 0 where
  pub label : Option String
  pub access_level : AccessLevel
  pub frame_ancestors : Option String
  pub expires_at : Option String

-- expires_at IS NULL OR expires_at > now, on the texts.
abbrev pub unexpired : Option String → String → Bool
unexpired none now = true
unexpired (some until) now = text_lt now until

-- revoked_at IS NULL AND (expires_at IS NULL OR expires_at > now).
abbrev pub is_live : String → ShareLink → Bool
is_live now l = not (is_some l.revoked_at) && unexpired l.expires_at now

abbrev pub new_link :
    (hash : String → String) → String → ShareLinkInput → (id token now : String) → ShareLink
new_link hash campaign_id input id token now = record {
  id = id;
  campaign_id = campaign_id;
  token_hash = hash token;
  token_plaintext = some token;
  label = input.label;
  access_level = input.access_level;
  frame_ancestors = input.frame_ancestors;
  expires_at = input.expires_at;
  revoked_at = none;
  created_at = now;
  updated_at = now;
}

unfoldable pub create_campaign_share_link :
    (hash : String → String)
    → (active owns : Bool) → String
    → ShareLinkInput
    → (id token now : String) → Store
    → Option (ShareLink × String) × Store
create_campaign_share_link hash active owns campaign_id input id token now s =
    let link = new_link hash campaign_id input id token now in
    if not active
    then (none, s)
    else if not owns
    then (none, s)
    else (some (link, token), record s { share_links = s.share_links ++ link ∷ [] })

-- ORDER BY created_at DESC. `none` is the error of requireCampaign.
unfoldable pub list_campaign_share_links :
    (exists : Bool) → String → String → Store → Option (List ShareLink)
list_campaign_share_links exists campaign_id now s =
    if exists
    then some (
        order_by (λ a b. text_lt b.created_at a.created_at)
          (keep (λ l. l.campaign_id == campaign_id && is_live now l) s.share_links))
    else none

abbrev pub is_target : String → String → ShareLink → Bool
is_target campaign_id id l = l.id == id && l.campaign_id == campaign_id

abbrev pub revoked : String → String → ShareLink → ShareLink
revoked now later l = record l { revoked_at = some now; updated_at = later }

-- The answer is whether a row was changed.
unfoldable pub revoke_campaign_share_link :
    (owns : Bool) → String → String → (now later : String) → Store → Bool × Store
revoke_campaign_share_link owns campaign_id id now later s = if not owns then (false, s) else (
  any (is_target campaign_id id) s.share_links,
  record s {
    share_links = update_where (is_target campaign_id id) (revoked now later) s.share_links;
  },
)

pub data RevealResult : Type 0 where
  available : String → RevealResult
  legacy_unavailable : RevealResult

-- `!row.token_plaintext` holds of NULL and of the empty text.
abbrev pub reveal_token : Option String → RevealResult
reveal_token none = legacy_unavailable
reveal_token (some token) = if token == "" then legacy_unavailable else available token

abbrev pub reveal_row : Option ShareLink → Option RevealResult
reveal_row none = none
reveal_row (some l) = some (reveal_token l.token_plaintext)

unfoldable pub get_campaign_share_link_reveal :
    (owns : Bool) → String → String → String → Store → Option RevealResult
get_campaign_share_link_reveal owns campaign_id id now s =
    if not owns
    then none
    else reveal_row (find (λ l. is_target campaign_id id l && is_live now l) s.share_links)

unfoldable pub get_campaign_share_link_by_token :
    (hash : String → String) → String → String → Store → Option ShareLink
get_campaign_share_link_by_token hash token now s =
    find (λ l. l.token_hash == hash token && is_live now l) s.share_links
