-- ===== src/ControlPlane/Subdomain/Tests.antt =====
-- A subdomain that is admitted and two that are not; the theorem at work on the first.
use dnd_notes.Common.{ℕ, ◌≤◌, ◌≡◌, refl, none, some, List, ◌∷◌, ◌++◌, length, codes}
use dnd_notes.ControlPlane.Subdomain.{
  matches_rest, is_valid_tenant_subdomain, assert_tenant_subdomain,
}
use dnd_notes.ControlPlane.Subdomain.Routing.{assert_tenant_subdomain-resolve}
use dnd_notes.Activator.Resolver.{coordinates, resolve}

abbrev base : List ℕ
base = codes "Notes.example"

abbrev ada : List ℕ
ada = codes "ada-1"

assert-admitted : assert_tenant_subdomain ada ≡ some ada
unfolding assert_tenant_subdomain is_valid_tenant_subdomain matches_rest
assert-admitted = refl

assert-dashed : assert_tenant_subdomain (codes "ada-") ≡ none
unfolding assert_tenant_subdomain is_valid_tenant_subdomain matches_rest
assert-dashed = refl

assert-capital : assert_tenant_subdomain (codes "Ada") ≡ none
unfolding assert_tenant_subdomain is_valid_tenant_subdomain matches_rest
assert-capital = refl

assert_tenant_subdomain-resolve_example :
    (resolve base (codes "3000") (some (ada ++ b'.' ∷ base))
      ≡ some (coordinates (codes "3000") ada))
    × (length (coordinates (codes "3000") ada).namespace ≤ 63)
assert_tenant_subdomain-resolve_example =
    assert_tenant_subdomain-resolve base (codes "3000") ada ada refl assert-admitted
