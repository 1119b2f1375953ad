-- ===== src/Api/Notes/Scenario.antt =====
-- A campaign with a note on an inn, a note on a map that links to it, and the theorems at work on them.
use dnd_notes.Common.{
  subst, sym, append-nil, ℕ, String, false, codes, ◌≡◌, refl, none, some, List, [], ◌∷◌, ◌++◌, keep,
  any, arith,
}
use mathlib.Core.List.{Perm, perm_middle}
use mathlib.Core.List.Perm
use dnd_notes.Common.Sort.{order_by, place}
use dnd_notes.Api.Store.{
  owner, Campaign, Membership, Note, draft, active, NoteReference, linked, inline, Store,
}
use dnd_notes.Api.References.{
  strip_prefix, break_at, trim_start, trim_end, split, parse_from, round,
  parse_inline_note_references, read_raw,
}
use dnd_notes.Api.Campaigns.{get_campaign, require_campaign}
use dnd_notes.Api.Memberships.{find_membership_attribution}
use dnd_notes.Api.Notes.{add_explicit, add_references, build_compatible_linked_note_ids}
use dnd_notes.Api.Notes.Sync.{
  done, failed, not_found, validate_reference_target, linked_references, inline_references,
  build_pending_references, persist, replace_note_references, sync_note_references,
}
use dnd_notes.Api.Notes.Rows.{map_note_row, NoteView, Scan, references_of_note}
use dnd_notes.Api.Notes.Writes.{
  NoteInput, insert_note, create_note, update_row, update_note, delete_note,
}
use dnd_notes.Api.Notes.Reads.{list_notes_of, get_note, get_backlinks}
use dnd_notes.Api.Notes.Links.{AreLinked}
use dnd_notes.Api.Notes.Invariant.{created, deleted, stay, followed, Steps-AreLinked}
use dnd_notes.Api.Notes.SameNote.{IsRead, AreRead}
use dnd_notes.Api.Notes.ReadBack.{create_note-get_note, update_note-get_note}
use dnd_notes.Api.Notes.Rebuilt.{all_named, sync_note_references-rebuilt}
use dnd_notes.Api.Notes.Backlinks.{links, get_backlinks-links}

abbrev ledger : Campaign
ledger = record {
  id = "c1";
  name = "Ledger";
  tagline = "";
  system = "";
  setting = "";
  next_session = none;
  archived_at = none;
  created_at = "1";
  updated_at = "1";
}

abbrev alice : Membership
alice = record {
  id = "m1";
  campaign_id = "c1";
  role = owner;
  display_name = "Alice";
  user_id = some "u1";
  guest_token_id = none;
  created_at = "1";
  updated_at = "1";
}

abbrev inn_row : Note
inn_row = record {
  id = codes "inn";
  campaign_id = "c1";
  title = "Inn";
  body = codes "A warm place";
  status = active;
  tags = [];
  linked_notes = [];
  session_name = none;
  created_by = none;
  last_edited_by = none;
  created_at = 3;
  updated_at = 3;
}

abbrev start : Store
start = record {
  campaigns = ledger ∷ [];
  memberships = alice ∷ [];
  notes = inn_row ∷ [];
  references = [];
  share_links = [];
}

abbrev map_input : NoteInput
map_input = record {
  campaign_id = some "c1";
  title = "Map";
  body = codes "To ![[inn]]";
  tags = "place" ∷ [];
  status = draft;
  session_name = none;
  linked_note_ids = some (codes " inn " ∷ codes "inn" ∷ []);
}

abbrev fresh : ℕ → String
fresh _ = "r"

abbrev to_inn : NoteReference
to_inn = record {
  id = "r";
  source_note_id = codes "map";
  target_note_id = codes "inn";
  campaign_id = "c1";
  reference_type = linked;
  label = none;
  qualifier = none;
  position_in_body = none;
  created_at = 5;
  updated_at = 5;
}

abbrev references : List NoteReference
references = to_inn ∷ record to_inn { reference_type = inline; position_in_body = some 3 } ∷ []

abbrev map_row : Note
map_row = record {
  id = codes "map";
  campaign_id = "c1";
  title = "Map";
  body = codes "To ![[inn]]";
  status = draft;
  tags = "place" ∷ [];
  linked_notes = codes " inn " ∷ codes "inn" ∷ [];
  session_name = none;
  created_by = some "m1";
  last_edited_by = some "m1";
  created_at = 5;
  updated_at = 5;
}

abbrev with_map : Store
with_map = record start { notes = inn_row ∷ map_row ∷ []; references = references }

abbrev map_note : NoteView
map_note = record {
  id = codes "map";
  campaign_id = "c1";
  title = "Map";
  body = codes "To ![[inn]]";
  status = draft;
  tags = "place" ∷ [];
  linked_note_ids = codes "inn" ∷ [];
  references = references;
  session_name = none;
  created_by = some (record { membership_id = "m1"; display_name = "Alice"; role = owner });
  last_edited_by = some (record { membership_id = "m1"; display_name = "Alice"; role = owner });
  created_at = 5;
  updated_at = 5;
}

map_created :
    create_note (codes "map") fresh 5 map_input (some "m1") start ≡ done (map_note, with_map)
unfolding create_note require_campaign get_campaign find_membership_attribution insert_note
    replace_note_references build_pending_references parse_inline_note_references parse_from round
    break_at strip_prefix split read_raw trim_start trim_end linked_references inline_references
    validate_reference_target persist build_compatible_linked_note_ids add_explicit add_references
map_created = refl

Steps-AreLinked_example : AreLinked (delete_note (codes "inn") with_map).1
Steps-AreLinked_example = Steps-AreLinked start (delete_note (codes "inn") with_map).1 refl (
    followed (followed stay (created (codes "map") fresh 5 map_input (some "m1") map_created))
      (deleted (codes "inn")))

-- The database comes upon the newest rows first.
abbrev backwards : Scan
backwards [] = []
backwards (r ∷ rs) = backwards rs ++ r ∷ []

backwards-Perm : (rs : List NoteReference) → Perm (backwards rs) rs
backwards-Perm [] = Perm.refl []
backwards-Perm (r ∷ rs) =
    Perm.trans (perm_middle (backwards rs) [])
      (Perm.cons r (subst (λ l. Perm l rs) (sym (append-nil (backwards rs))) (backwards-Perm rs)))

create_note-get_note_example : IsRead map_note (get_note backwards (codes "map") with_map)
create_note-get_note_example =
    create_note-get_note backwards backwards-Perm (codes "map") fresh 5 map_input (some "m1") start
      with_map map_note refl ((refl, refl), tt) map_created

get_backlinks-links_example :
    get_backlinks backwards (codes "inn") with_map
    ≡ some (
        keep
          (λ (n : NoteView). any (links "c1" n.id (codes "inn")) with_map.references)
          (list_notes_of backwards with_map ledger))
unfolding get_note map_note_row references_of_note order_by place require_campaign get_campaign
    build_compatible_linked_note_ids add_explicit add_references
get_backlinks-links_example =
    get_backlinks-links backwards (codes "inn") with_map _ ledger backwards-Perm refl refl

-- The text of the map changes, its explicit links stay, and the clock stands at the last edit.
abbrev new_input : NoteInput
new_input = record map_input { title = "Old map"; body = codes "Burnt"; linked_note_ids = none }

abbrev old_map : NoteView
old_map = record map_note {
  title = "Old map";
  body = codes "Burnt";
  references = record to_inn { created_at = 6; updated_at = 6 } ∷ [];
  updated_at = 6;
}

abbrev with_old_map : Store
with_old_map = record with_map {
  notes = inn_row ∷ record map_row { title = "Old map"; body = codes "Burnt"; updated_at = 6 } ∷ [];
  references = record to_inn { created_at = 6; updated_at = 6 } ∷ [];
}

map_updated :
    update_note (codes "map") fresh 5 new_input none with_map ≡ done (some old_map, with_old_map)
unfolding update_note map_note_row update_row replace_note_references build_pending_references
    parse_inline_note_references parse_from round break_at strip_prefix split read_raw trim_start
    trim_end linked_references inline_references validate_reference_target persist
    build_compatible_linked_note_ids add_explicit add_references
map_updated = refl

update_note-get_note_example :
    AreRead (some old_map) (get_note backwards (codes "map") with_old_map)
update_note-get_note_example =
    update_note-get_note backwards backwards-Perm (codes "map") fresh 5 new_input none with_map
      with_old_map (some old_map) ((refl, refl), tt) map_updated

missing_refused :
    build_pending_references false (codes "To ![[inn]]") (codes "gone" ∷ []) "c1" start
    ≡ failed (not_found (codes "gone"))
unfolding build_pending_references parse_inline_note_references parse_from round break_at
    strip_prefix split read_raw trim_start trim_end linked_references validate_reference_target
missing_refused = refl

-- References that the notes do not name are gone after the start, also one of another campaign to a
-- note that does not exist.
abbrev drifted : Store
drifted = record with_map {
  references =
      record to_inn { label = some (codes "x") }
      ∷ record to_inn { campaign_id = "c9"; target_note_id = codes "gone" }
      ∷ references;
}

sync_note_references-rebuilt_example :
    sync_note_references (λ id. fresh) drifted
    ≡ done (record drifted { references = all_named (λ id. fresh) drifted drifted.notes })
sync_note_references-rebuilt_example =
    sync_note_references-rebuilt (λ id. fresh) drifted (((λ e. ground (arith, e)), tt), (tt, tt))
      (refl, (refl, (refl, (refl, tt))))
