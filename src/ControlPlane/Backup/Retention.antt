-- ===== src/ControlPlane/Backup/Retention.antt =====
-- runRetentionSweep.
pub mod Newest
pub mod Sweep
pub mod Thorough
use dnd_notes.Common.{
  ℕ, ◌+◌, ◌-◌, ◌*◌, String, Bool, true, false, ◌&&◌, ◌||◌, not, Option, none, some, List, [], ◌∷◌,
  ◌==◌, ◌=ℕ◌, ltb, leb, if◌then◌else◌, any, codes, same_codes,
}
use dnd_notes.Common.Prog.{Result, ok, err, Prog}
use dnd_notes.ControlPlane.Backup.World.{Blob, State}
use dnd_notes.ControlPlane.Backup.Catalog.{
  list_blobs_older_than, delete_blob, mark_backup_catalog_location_deleted_for_blob,
}

abbrev before_slash : List ℕ → List ℕ
before_slash [] = []
before_slash (c ∷ text) = let rest = c ∷ before_slash text in if c =ℕ b'/' then [] else rest

-- blob.name.split('/')[0].
unfoldable pub prefix_of : Blob → List ℕ
prefix_of b = before_slash (codes b.name)

-- A Map from prefixes, the entry that was set last in front.
abbrev pub lookup_newest : List ℕ → List (List ℕ × Blob) → Option Blob
lookup_newest prefix [] = none
lookup_newest prefix ((key, b) ∷ rest) =
    if same_codes key prefix then some b else lookup_newest prefix rest

abbrev pub is_newer : Blob → Option Blob → Bool
is_newer b none = true
is_newer b (some existing) = ltb existing.last_modified b.last_modified

abbrev pub offer : Blob → List (List ℕ × Blob) → List (List ℕ × Blob)
offer b newest =
    if is_newer b (lookup_newest (prefix_of b) newest) then (prefix_of b, b) ∷ newest else newest

-- The newest of the stale blobs for each prefix, after those in `newest`.
unfoldable pub newest_by_prefix : List Blob → List (List ℕ × Blob) → List (List ℕ × Blob)
newest_by_prefix [] newest = newest
newest_by_prefix (b ∷ rest) newest = newest_by_prefix rest (offer b newest)

abbrev pub is_fresh : List (List ℕ) → List ℕ → Bool
is_fresh fresh prefix = any (λ p. same_codes p prefix) fresh

abbrev names : Option Blob → String → Bool
names none name = false
names (some n) name = n.name == name

-- Whether a stale blob is kept: it is the newest of its prefix, which has no fresh backup.
unfoldable pub is_retained : List (List ℕ) → List (List ℕ × Blob) → Blob → Bool
is_retained fresh newest b =
    names (lookup_newest (prefix_of b) newest) b.name && not (is_fresh fresh (prefix_of b))

-- The catalog is told of a deletion; its error is only logged, like the deletion's.
abbrev after_delete : String → Result (Unit {0}) × State → State
after_delete name (ok a, s) = (mark_backup_catalog_location_deleted_for_blob name s).1
after_delete name (err message, s) = s

unfoldable pub remove_blob : Blob → State → State
remove_blob b s = after_delete b.name (delete_blob b.name s)

unfoldable pub sweep_one : List (List ℕ) → List (List ℕ × Blob) → Blob → State → State
sweep_one fresh newest b s = if is_retained fresh newest b then s else remove_blob b s

unfoldable pub sweep_each : List (List ℕ) → List (List ℕ × Blob) → List Blob → State → State
sweep_each fresh newest [] s = s
sweep_each fresh newest (b ∷ rest) s =
    if s.stopped then s else sweep_each fresh newest rest (sweep_one fresh newest b s)

abbrev sweep_listed : List (List ℕ) → Result (List Blob) × State → State
sweep_listed fresh (ok stale, s) = sweep_each fresh (newest_by_prefix stale []) stale s
sweep_listed fresh (err message, s) = s

abbrev pub cutoff : (retention_days now : ℕ) → ℕ
cutoff retention_days now = now - retention_days * 86_400_000

-- `fresh` holds the prefixes whose backup succeeded in this tick.
unfoldable pub run_retention_sweep : (fresh : List (List ℕ)) → (retention_days : ℕ) → State → State
run_retention_sweep fresh retention_days s =
    sweep_listed fresh (list_blobs_older_than (cutoff retention_days s.clock) s)
