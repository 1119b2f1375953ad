-- ===== src/Api/Consolidation.antt =====
-- note-store-memberships.ts: moving note attribution from one membership to another.
pub mod Laws
use dnd_notes.Common.{
  ℕ, String, Bool, true, false, ◌&&◌, ◌||◌, not, Option, none, some, List, [], ◌∷◌, ◌++◌, ◌==◌,
  if◌then◌else◌, keep, find, count, update_where,
}
use dnd_notes.Api.Store.{Role, same_role, Membership, Note, Store, equals}
use dnd_notes.Api.Memberships.{owns_campaign}

-- buildMembershipConsolidationWarnings: the texts are fixed, what varies is which are given.
pub data Warning : Type 0 where
  attribution_only : Warning
  shown_name : (target source : String) → Warning
  shown_role : (target source : Role) → Warning

unfoldable pub consolidation_warnings : Membership → Membership → List Warning
consolidation_warnings source target =
    let roles =
      if same_role source.role target.role then [] else shown_role target.role source.role ∷ [] in
    let names =
      if source.display_name == target.display_name
      then []
      else shown_name target.display_name source.display_name ∷ [] in
    attribution_only ∷ names ++ roles

pub record NoteChanges : Type 0 where
  pub authored : ℕ
  pub edited : ℕ
  pub authored_and_edited : ℕ
  pub affected : ℕ

abbrev pub authored_by : String → Note → Bool
authored_by id n = equals n.created_by id

abbrev pub edited_by : String → Note → Bool
edited_by id n = equals n.last_edited_by id

-- selectMembershipConsolidationCounts.
unfoldable pub consolidation_counts : String → String → Store → NoteChanges
consolidation_counts campaign_id source s =
    let notes = keep (λ n. n.campaign_id == campaign_id) s.notes in
    record {
      authored = count (authored_by source) notes;
      edited = count (edited_by source) notes;
      authored_and_edited = count (λ n. authored_by source n && edited_by source n) notes;
      affected = count (λ n. authored_by source n || edited_by source n) notes;
    }

pub record Consolidation : Type 0 where
  pub source : Membership
  pub target : Membership
  pub note_changes : NoteChanges
  pub warnings : List Warning
  pub requires_role_mismatch_confirmation : Bool

pub data ConsolidationResult : Type 0 where
  ready : Consolidation → ConsolidationResult
  source_not_found target_not_found same_membership forbidden campaign_not_found :
      ConsolidationResult

abbrev pub find_in_campaign : String → String → List Membership → Option Membership
find_in_campaign campaign_id id = find (λ m. m.campaign_id == campaign_id && m.id == id)

abbrev pub preview_found :
    String → Option Membership → Option Membership → Store → ConsolidationResult
preview_found campaign_id none target s = source_not_found
preview_found campaign_id (some source) none s = target_not_found
preview_found campaign_id (some source) (some target) s = ready (record {
  source = source;
  target = target;
  note_changes = consolidation_counts campaign_id source.id s;
  warnings = consolidation_warnings source target;
  requires_role_mismatch_confirmation = not (same_role source.role target.role);
})

-- `exists` is whether requireCampaign lets the campaign through.
unfoldable pub preview_membership_consolidation :
    (exists : Bool)
    → String
    → (source target : String) → (user_id : String) → Store
    → ConsolidationResult
preview_membership_consolidation exists campaign_id source target user_id s =
    if not exists
    then campaign_not_found
    else if not (owns_campaign campaign_id user_id s)
    then forbidden
    else if source == target
    then same_membership
    else preview_found campaign_id (find_in_campaign campaign_id source s.memberships)
        (find_in_campaign campaign_id target s.memberships) s

abbrev pub moved : String → String → Option String → Option String
moved source target author = if equals author source then some target else author

-- reassignMembershipAttributionStatement.
unfoldable pub reassign_attribution : String → String → String → Store → Store
reassign_attribution campaign_id source target s = record s {
  notes =
      update_where
        (λ n. n.campaign_id == campaign_id && (authored_by source n || edited_by source n))
        (λ n. record n {
          created_by = moved source target n.created_by;
          last_edited_by = moved source target n.last_edited_by;
        })
        s.notes;
}

abbrev pub apply_if_ready :
    String → String → String → ConsolidationResult → Store → ConsolidationResult × Store
apply_if_ready campaign_id source target (ready c) s =
    (ready c, reassign_attribution campaign_id source target s)
apply_if_ready campaign_id source target refusal s = (refusal, s)

unfoldable pub consolidate_memberships :
    (exists : Bool)
    → String
    → (source target : String) → (user_id : String) → Store
    → ConsolidationResult × Store
consolidate_memberships exists campaign_id source target user_id s =
    apply_if_ready campaign_id source target
      (preview_membership_consolidation exists campaign_id source target user_id s) s
