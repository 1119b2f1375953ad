-- ===== src/ControlPlane/Subdomain.antt =====
-- Tenant subdomains, apps/control-plane/src/tenant-subdomain.ts, on code points.
pub mod Routing
mod Tests
use dnd_notes.Common.{
  ℕ, ◌-◌, String, Bool, true, false, ◌&&◌, ◌||◌, Option, none, some, List, [], ◌∷◌, length, ◌=ℕ◌,
  leb, if◌then◌else◌, codes,
}

abbrev pub max_kubernetes_object_name_length : ℕ
max_kubernetes_object_name_length = 63

abbrev pub tenant_pvc_name_prefix : List ℕ
tenant_pvc_name_prefix = codes "dnd-notes-data-"

abbrev pub max_tenant_subdomain_length : ℕ
max_tenant_subdomain_length = max_kubernetes_object_name_length - length tenant_pvc_name_prefix

abbrev pub is_alphanumeric : ℕ → Bool
is_alphanumeric c = leb b'a' c && leb c b'z' || leb b'0' c && leb c b'9'

-- (?:[a-z0-9-]*[a-z0-9])?$
unfoldable pub matches_rest : List ℕ → Bool
matches_rest [] = true
matches_rest (c ∷ []) = is_alphanumeric c
matches_rest (c ∷ d ∷ text) = (is_alphanumeric c || c =ℕ b'-') && matches_rest (d ∷ text)

abbrev pub matches_pattern : List ℕ → Bool
matches_pattern [] = false
matches_pattern (c ∷ text) = is_alphanumeric c && matches_rest text

unfoldable pub is_valid_tenant_subdomain : List ℕ → Bool
is_valid_tenant_subdomain subdomain =
    leb (length subdomain) max_tenant_subdomain_length && matches_pattern subdomain

-- none is the exception; the two assertions differ in its message.
unfoldable pub assert_tenant_subdomain : List ℕ → Option (List ℕ)
assert_tenant_subdomain subdomain =
    if is_valid_tenant_subdomain subdomain then some subdomain else none
