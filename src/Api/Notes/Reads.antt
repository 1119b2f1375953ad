-- ===== src/Api/Notes/Reads.antt =====
-- The operations that read notes, apps/api/src/note-store.ts.
use dnd_notes.Common.{
  ℕ, zero, suc, String, Bool, true, false, ◌&&◌, Option, none, some, List, [], ◌∷◌, map, keep,
  length, map_some, ◌==◌, ltb, ◌+◌, is_some, if◌then◌else◌,
}
use dnd_notes.Common.Sort.{order_by}
use dnd_notes.Api.Store.{Campaign, Note, NoteStatus, draft, active, archived, Store, equals}
use dnd_notes.Api.Campaigns.{require_campaign}
use dnd_notes.Api.Notes.{has}
use dnd_notes.Api.Notes.Sync.{find_note}
use dnd_notes.Api.Notes.Rows.{
  map_note_row, NoteView, compose_note, Scan, references_of_note, grouped_references,
}

-- ORDER BY updated_at DESC.
abbrev pub newer : Note → Note → Bool
newer a b = ltb b.updated_at a.updated_at

abbrev pub listed : Scan → Store → (campaign_id : String) → Note → NoteView
listed scan s campaign_id row =
    compose_note (map_note_row s row) (grouped_references scan campaign_id row.id s)

unfoldable pub list_notes_of : Scan → Store → Campaign → List NoteView
list_notes_of scan s c =
    map (listed scan s c.id) (order_by newer (keep (λ n. n.campaign_id == c.id) s.notes))

-- none is the error that the campaign was not found, here and below.
unfoldable pub list_notes : Scan → Option String → Store → Option (List NoteView)
list_notes scan campaign_id s = elim (require_campaign campaign_id s) [
  | none ↦ none
  | some c ↦ some (list_notes_of scan s c)
]

pub record SessionSummary : Type 0 where
  pub session_name : String
  pub note_count : ℕ
  pub latest_activity : ℕ

-- One turn of the loop that fills the map, by session name in the order of first entry.
unfoldable pub count_session :
    (name : String) → (updated_at : ℕ) → List SessionSummary → List SessionSummary
count_session name updated_at [] =
    record { session_name = name; note_count = 1; latest_activity = updated_at } ∷ []
count_session name updated_at (e ∷ es) =
    let rest = count_session name updated_at es in
    if e.session_name == name
    then (record e {
      note_count = e.note_count + 1;
      latest_activity = if ltb e.latest_activity updated_at then updated_at else e.latest_activity;
    }
        ∷ es)
    else e ∷ rest

abbrev pub count_note : Option String → ℕ → List SessionSummary → List SessionSummary
count_note none updated_at es = es
count_note (some name) updated_at es = count_session name updated_at es

unfoldable pub count_sessions : List NoteView → List SessionSummary → List SessionSummary
count_sessions [] es = es
count_sessions (n ∷ notes) es = count_sessions notes (count_note n.session_name n.updated_at es)

abbrev pub more_recent : SessionSummary → SessionSummary → Bool
more_recent a b = ltb b.latest_activity a.latest_activity

unfoldable pub list_session_names : Scan → Option String → Store → Option (List SessionSummary)
list_session_names scan campaign_id s =
    map_some (λ notes. order_by more_recent (count_sessions notes []))
      (list_notes scan campaign_id s)

-- slice(0, limit), where the limit is not negative.
abbrev pub slice {ℓ} : {A : Type ℓ} → ℕ → List A → List A
slice zero xs = []
slice (suc n) [] = []
slice (suc n) (x ∷ xs) = x ∷ slice n xs

unfoldable pub list_recent_notes :
    Scan → (limit : ℕ) → Option String → Store → Option (List NoteView)
list_recent_notes scan limit campaign_id s = map_some (slice limit) (list_notes scan campaign_id s)

-- ORDER BY created_at ASC.
abbrev pub older : Note → Note → Bool
older a b = ltb a.created_at b.created_at

unfoldable pub get_session_notes :
    Scan → (campaign_id session_name : String) → Store → List NoteView
get_session_notes scan campaign_id session_name s = map (listed scan s campaign_id) (
    order_by older
      (keep (λ n. n.campaign_id == campaign_id && equals n.session_name session_name) s.notes))

unfoldable pub get_note : Scan → List ℕ → Store → Option NoteView
get_note scan id s =
    map_some (λ row. compose_note (map_note_row s row) (references_of_note scan id s))
      (find_note id s.notes)

unfoldable pub get_backlinks : Scan → List ℕ → Store → Option (List NoteView)
get_backlinks scan id s = elim (get_note scan id s) [
  | none ↦ some []
  | some target ↦
      map_some (keep (λ (n : NoteView). has n.linked_note_ids id))
        (list_notes scan (some target.campaign_id) s)
]

abbrev pub is_draft : NoteStatus → Bool
is_draft draft = true
is_draft _ = false

abbrev pub is_active_note : NoteStatus → Bool
is_active_note active = true
is_active_note _ = false

abbrev pub is_archived : NoteStatus → Bool
is_archived archived = true
is_archived _ = false

pub record NoteStats : Type 0 where
  pub total_notes : ℕ
  pub draft_notes : ℕ
  pub active_notes : ℕ
  pub archived_notes : ℕ
  pub session_linked_notes : ℕ

abbrev pub stats_of : List NoteView → NoteStats
stats_of notes = record {
  total_notes = length notes;
  draft_notes = length (keep (λ (n : NoteView). is_draft n.status) notes);
  active_notes = length (keep (λ (n : NoteView). is_active_note n.status) notes);
  archived_notes = length (keep (λ (n : NoteView). is_archived n.status) notes);
  session_linked_notes = length (keep (λ (n : NoteView). is_some n.session_name) notes);
}

unfoldable pub get_stats : Scan → Option String → Store → Option NoteStats
get_stats scan campaign_id s = map_some stats_of (list_notes scan campaign_id s)
