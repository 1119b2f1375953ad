-- ===== src/Activator/Resolver.antt =====
-- createTenantResolver, apps/activator/src/tenant-resolver.ts, on the characters of the Host header.
-- Letters are lower-cased as in Latin-1.
pub mod Laws
mod Tests
use dnd_notes.Common.{
  ℕ, ◌+◌, String, Bool, true, false, not, ◌&&◌, ◌||◌, Option, none, some, List, [], ◌∷◌, ◌++◌, map,
  any, ◌=ℕ◌, leb, if◌then◌else◌, codes, same_codes, or_else,
}

pub record TenantCoordinates : Type 0 where
  pub subdomain : List ℕ
  pub namespace : List ℕ
  pub deployment_name : List ℕ
  pub service_name : List ℕ
  pub upstream_url : List ℕ

-- String.toLowerCase on Latin-1, which is all that a header has, and the base domain in use: A to Z, and
-- the letters from À to Þ.
abbrev pub to_lower : ℕ → ℕ
to_lower c =
    if (leb b'A' c && leb c b'Z') || (leb 192 c && leb c 222 && not (c =ℕ 215)) then c + 32 else c

-- split(mark)[0].
unfoldable pub before_mark : ℕ → List ℕ → List ℕ
before_mark mark [] = []
before_mark mark (c ∷ text) = let rest = c ∷ before_mark mark text in if c =ℕ mark then [] else rest

abbrev pub cons_some : ℕ → Option (List ℕ) → Option (List ℕ)
cons_some c none = none
cons_some c (some text) = some (c ∷ text)

-- What stands before the suffix, where endsWith(suffix) holds.
unfoldable pub strip_suffix : List ℕ → List ℕ → Option (List ℕ)
strip_suffix suffix [] = if same_codes [] suffix then some [] else none
strip_suffix suffix (c ∷ text) =
    let rest = cons_some c (strip_suffix suffix text) in
    if same_codes (c ∷ text) suffix then some [] else rest

abbrev pub coordinates : (port : List ℕ) → List ℕ → TenantCoordinates
coordinates port subdomain =
    let namespace = codes "tenant-" ++ subdomain in
    record {
      subdomain = subdomain;
      namespace = namespace;
      deployment_name = codes "dnd-notes";
      service_name = codes "dnd-notes";
      upstream_url =
          codes "http://dnd-notes." ++ (namespace ++ (codes ".svc.cluster.local:" ++ port));
    }

abbrev pub is_label : List ℕ → Bool
is_label [] = false
is_label (c ∷ text) = if any (λ d. d =ℕ b'.') (c ∷ text) then false else true

abbrev pub of_subdomain : (port : List ℕ) → Option (List ℕ) → Option TenantCoordinates
of_subdomain port none = none
of_subdomain port (some subdomain) =
    if is_label subdomain then some (coordinates port subdomain) else none

abbrev pub of_hostname : (base_domain port : List ℕ) → List ℕ → Option TenantCoordinates
of_hostname base_domain port [] = none
of_hostname base_domain port (c ∷ hostname) =
    of_subdomain port (strip_suffix (b'.' ∷ map to_lower base_domain) (c ∷ hostname))

-- `host` is the header, if there is one; the empty one counts as missing. `port` is printed.
unfoldable pub resolve : (base_domain port : List ℕ) → Option (List ℕ) → Option TenantCoordinates
resolve base_domain port none = none
resolve base_domain port (some host) =
    of_hostname base_domain port (map to_lower (before_mark b':' host))
