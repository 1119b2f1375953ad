-- ===== src/Activator/Resolver/Tests.antt =====
-- A host with a port and one with capitals, and the theorems at work on them.
use dnd_notes.Common.{ℕ, true, ◌≡◌, refl, ◌↔◌, some, none, List, ◌∷◌, ◌++◌, map, codes}
use dnd_notes.Activator.Resolver.{
  TenantCoordinates, to_lower, before_mark, strip_suffix, coordinates, is_label, resolve,
}
use dnd_notes.Activator.Resolver.Laws.{resolve_iff}

abbrev base : List ℕ
base = codes "Notes.example"

abbrev port : List ℕ
port = codes "3000"

abbrev shouted : List ℕ
shouted = codes "ADA.notes.example"

abbrev found : TenantCoordinates
found = coordinates port (codes "ada")

resolve-nested : resolve base port (some (codes "a.b.notes.example")) ≡ none
unfolding resolve before_mark strip_suffix
resolve-nested = refl

resolve-shouted : resolve base port (some shouted) ≡ some found
unfolding resolve before_mark strip_suffix
resolve-shouted = refl

resolve-ported : resolve base port (some (codes "ada.notes.example:8080")) ≡ some found
unfolding resolve before_mark strip_suffix
resolve-ported = refl

resolve_iff_example : (resolve base port (some shouted) ≡ some (coordinates port (codes "ada"))) ↔ (
    (map to_lower (before_mark b':' shouted) ≡ codes "ada" ++ b'.' ∷ map to_lower base)
    × (is_label (codes "ada") ≡ true))
resolve_iff_example = resolve_iff base port shouted (codes "ada")
