-- ===== src/Api/Store.antt =====
-- The tables of the note store, as apps/api/migrations/0001_baseline.sql declares them and the
-- rows of note-store-campaigns.ts, note-store-memberships.ts, note-store-notes.ts and
-- note-store-share-links.ts name them. Each operation runs in one transaction, so it is a function of the store. Identifiers,
-- tokens and the time are arguments: node:crypto and the clock supply them. Timestamps are the
-- texts that the columns hold.
use dnd_notes.Common.{ℕ, String, Bool, true, false, Option, none, some, List, ◌==◌}

pub data Role : Type 0 where
  owner guest : Role

abbrev pub is_owner : Role → Bool
is_owner owner = true
is_owner guest = false

abbrev pub same_role : Role → Role → Bool
same_role owner owner = true
same_role guest guest = true
same_role _ _ = false

pub record Campaign : Type 0 where
  pub id : String
  pub name : String
  pub tagline : String
  pub system : String
  pub setting : String
  pub next_session : Option String
  pub archived_at : Option String
  pub created_at : String
  pub updated_at : String

pub record Membership : Type 0 where
  pub id : String
  pub campaign_id : String
  pub role : Role
  pub display_name : String
  pub user_id : Option String
  pub guest_token_id : Option String
  pub created_at : String
  pub updated_at : String

pub data NoteStatus : Type 0 where
  draft active archived : NoteStatus

-- A row of notes. Identifiers and bodies are code units; the JSON columns are lists. The times of
-- notes are milliseconds: their texts, from toISOString, compare as these numbers do.
pub record Note : Type 0 where
  pub id : List ℕ
  pub campaign_id : String
  pub title : String
  pub body : List ℕ
  pub status : NoteStatus
  pub tags : List String
  pub linked_notes : List (List ℕ)
  pub session_name : Option String
  pub created_by : Option String
  pub last_edited_by : Option String
  pub created_at : ℕ
  pub updated_at : ℕ

pub data ReferenceType : Type 0 where
  linked inline : ReferenceType

pub record NoteReference : Type 0 where
  pub id : String
  pub source_note_id : List ℕ
  pub target_note_id : List ℕ
  pub campaign_id : String
  pub reference_type : ReferenceType
  pub label : Option (List ℕ)
  pub qualifier : Option (List ℕ)
  pub position_in_body : Option ℕ
  pub created_at : ℕ
  pub updated_at : ℕ

pub data AccessLevel : Type 0 where
  viewer editor : AccessLevel

pub record ShareLink : Type 0 where
  pub id : String
  pub campaign_id : String
  pub token_hash : String
  pub token_plaintext : Option String
  pub label : Option String
  pub access_level : AccessLevel
  pub frame_ancestors : Option String
  pub expires_at : Option String
  pub revoked_at : Option String
  pub created_at : String
  pub updated_at : String

pub record Store : Type 0 where
  pub campaigns : List Campaign
  pub memberships : List Membership
  pub notes : List Note
  pub references : List NoteReference
  pub share_links : List ShareLink

-- `column = ?`, which a NULL never satisfies.
abbrev pub equals : Option String → String → Bool
equals none v = false
equals (some u) v = u == v
