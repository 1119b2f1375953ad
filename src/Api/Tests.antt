-- ===== src/Api/Tests.antt =====
-- A campaign of an owner and a guest, and the theorems on the note store at work on it.
use Prim.Native.String.{◌++◌ as ◌+++◌}
use dnd_notes.Common.{codes, String, ◌≡◌, refl, ◌≢◌, ◌⊎◌, true, Option, none, some, [], ◌∷◌}
use dnd_notes.Api.Store.{Role, AccessLevel, Membership, Note, draft, ShareLink, Store}
use dnd_notes.Api.Memberships.{
  claimed, claimed_by, claim_found, claim_free, claim_guest_membership,
  get_guest_membership_by_token, get_user_membership_for_campaign, owns_campaign,
}
use dnd_notes.Api.Consolidation.{
  Consolidation, ready, preview_membership_consolidation, consolidate_memberships,
}
use dnd_notes.Api.Consolidation.Laws.{Moved, consolidate_memberships-Moved}
use dnd_notes.Api.Campaigns.{OwnerAccount, get_campaign}
use dnd_notes.Api.ShareLinks.{
  ShareLinkInput, new_link, create_campaign_share_link, revoke_campaign_share_link, available,
  get_campaign_share_link_reveal, get_campaign_share_link_by_token,
}
use dnd_notes.Api.ShareLinks.Laws.{create-by_token, revoke-by_token}

-- Any function that tells the tokens apart will do for the hash.
abbrev hash : String → String
hash token = "sha256:" +++ token

abbrev member : String → Role → Option String → Option String → Membership
member id role user token = record {
  id = id;
  campaign_id = "c1";
  role = role;
  display_name = id;
  user_id = user;
  guest_token_id = token;
  created_at = "2026-01-01";
  updated_at = "2026-01-01";
}

abbrev guest_row : Membership
guest_row = member "m2" Role.guest none (some "sha256:old")

abbrev link : String → ShareLink
link token = record {
  id = "l1";
  campaign_id = "c1";
  token_hash = hash token;
  token_plaintext = some token;
  label = none;
  access_level = AccessLevel.viewer;
  frame_ancestors = none;
  expires_at = none;
  revoked_at = none;
  created_at = "2026-01-01";
  updated_at = "2026-01-01";
}

abbrev note : (id campaign_id : String) → (created_by last_edited_by : Option String) → Note
note id campaign_id created_by last_edited_by = record {
  id = codes id;
  campaign_id = campaign_id;
  title = "A note";
  body = [];
  status = draft;
  tags = [];
  linked_notes = [];
  session_name = none;
  created_by = created_by;
  last_edited_by = last_edited_by;
  created_at = 0;
  updated_at = 0;
}

abbrev store : Store
store = record {
  campaigns = [];
  memberships =
      member "m1" Role.owner (some "ada") none
      ∷ guest_row
      ∷ member "m3" Role.guest none (some "sha256:kept")
      ∷ [];
  notes = note "n1" "c1" (some "m2") (some "m1") ∷ note "n2" "c2" (some "m2") none ∷ [];
  references = [];
  share_links = link "open" ∷ [];
}

abbrev terms : ShareLinkInput
terms = record {
  label = none;
  access_level = AccessLevel.editor;
  frame_ancestors = none;
  expires_at = some "2026-03-01";
}

claim_wins :
    (claim_guest_membership hash "m2" "bea" "new" "2026-02-01" store).0
    ≡ claimed (claimed_by hash "bea" "new" "2026-02-01" guest_row) "new"
unfolding claim_guest_membership claim_found claim_free get_user_membership_for_campaign
claim_wins = refl

kept_opens :
    get_guest_membership_by_token hash "kept"
      (claim_guest_membership hash "m2" "bea" "new" "2026-02-01" store).1
    ≡ some (member "m3" Role.guest none (some "sha256:kept"))
unfolding claim_guest_membership claim_found claim_free get_user_membership_for_campaign
    get_guest_membership_by_token
kept_opens = refl

consolidate_memberships-Moved_example :
    let (r, t) = consolidate_memberships true "c1" "m2" "m1" "ada" store in
    (r ≡ preview_membership_consolidation true "c1" "m2" "m1" "ada" store)
    × ((((c : Consolidation) → r ≢ ready c) × (t ≡ store))
        ⊎ (((c : Consolidation) × (r ≡ ready c))
            × (owns_campaign "c1" "ada" store ≡ true)
            × Moved "c1" "m2" "m1" store t))
consolidate_memberships-Moved_example =
    consolidate_memberships-Moved true "c1" "m2" "m1" "ada" store

link_opens : get_campaign_share_link_by_token hash "open" "2026-02-01" store ≡ some (link "open")
unfolding get_campaign_share_link_by_token
link_opens = refl

create-by_token_example :
    let (r, t) =
      create_campaign_share_link hash true true "c1" terms "l2" "fresh" "2026-01-05" store in
    let l = new_link hash "c1" terms "l2" "fresh" "2026-01-05" in
    (r ≡ some (l, "fresh"))
    × (get_campaign_share_link_by_token hash "fresh" "2026-02-01" t ≡ some l)
    × (get_campaign_share_link_reveal true "c1" "l2" "2026-02-01" t ≡ some (available "fresh"))
create-by_token_example =
    create-by_token hash "c1" terms "l2" "fresh" "2026-01-05" "2026-02-01" store refl refl (λ e. cc)
      refl

still_opens :
    get_campaign_share_link_by_token hash "open" "2026-02-01"
      (revoke_campaign_share_link true "c1" "l9" "2026-01-09" "2026-01-09" store).1
    ≡ some (link "open")
unfolding get_campaign_share_link_by_token revoke_campaign_share_link
still_opens = refl

revoke-by_token_example : ¬ (◌≡◌ {A = String} "l1" "l9" × ◌≡◌ {A = String} "c1" "c1")
revoke-by_token_example =
    revoke-by_token hash "c1" "l9" "open" "2026-01-09" "2026-01-09" "2026-02-01" store (link "open")
      still_opens

abbrev account : OwnerAccount
account = record { id = "ada"; display_name = "Ada" }

-- The campaign that the memberships belong to is there.
abbrev opened : Store
opened = record store {
  campaigns =
      record {
        id = "c1";
        name = "Barovia";
        tagline = "";
        system = "5e";
        setting = "Ravenloft";
        next_session = none;
        archived_at = none;
        created_at = "2026-01-01";
        updated_at = "2026-01-01";
      }
      ∷ [];
}

missing : get_campaign "c9" opened ≡ none
unfolding get_campaign
missing = refl
