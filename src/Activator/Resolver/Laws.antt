-- ===== src/Activator/Resolver/Laws.antt =====
-- Which hosts name a tenant.
use dnd_notes.Common.{
  none-ne, some_unique, ℕ, true, ◌≡◌, refl, sym, ◌∙◌, ap, subst, ◌⊎◌, inl, inr, ◌↔◌, Option, none,
  some, List, [], ◌∷◌, ◌++◌, map, codes, same_codes, same_codes_iff, arith, length, length-append,
  Bool-cases, Option-cases,
}
use dnd_notes.Activator.Resolver.{
  TenantCoordinates, to_lower, before_mark, strip_suffix, coordinates, is_label, of_subdomain,
  of_hostname, resolve,
}

strip_suffix-append :
    (suffix text p : List ℕ) → strip_suffix suffix text ≡ some p → text ≡ p ++ suffix
unfolding strip_suffix
strip_suffix-append suffix [] p e = ground (arith, same_codes_iff [] suffix)
strip_suffix-append suffix (c ∷ text) p e = elim (Bool-cases (same_codes (c ∷ text) suffix)) [
  | inl same ↦ ground (arith, same, e, same_codes_iff (c ∷ text) suffix)
  | inr longer ↦ elim (Option-cases (strip_suffix suffix text)) [
    | inl no_suffix ↦ absurd (ground (arith, longer, no_suffix, e))
    | inr (q, found) ↦ ground (arith, longer, found, e, strip_suffix-append suffix text q found)
  ]
]

append-strip_suffix : (suffix p : List ℕ) → strip_suffix suffix (p ++ suffix) ≡ some p
unfolding strip_suffix
append-strip_suffix [] [] = refl
append-strip_suffix (c ∷ suffix) [] = ground (arith, same_codes_iff (c ∷ suffix) (c ∷ suffix))
append-strip_suffix suffix (c ∷ p) = ground (
  arith,
  append-strip_suffix suffix p,
  same_codes_iff (c ∷ p ++ suffix) suffix,
  λ (e : c ∷ p ++ suffix ≡ suffix). ap length e,
  length-append p suffix,
)

strip_suffix_iff :
    (suffix text p : List ℕ) → (strip_suffix suffix text ≡ some p) ↔ (text ≡ p ++ suffix)
strip_suffix_iff suffix text p = (
  strip_suffix-append suffix text p,
  λ e. subst (λ t. strip_suffix suffix t ≡ some p) (sym e) (append-strip_suffix suffix p),
)

tenant-cancel : (a b : List ℕ) → codes "tenant-" ++ a ≡ codes "tenant-" ++ b → a ≡ b
tenant-cancel a b e = grind arith

coordinates_unique :
    (port a b : List ℕ) → some (coordinates port a) ≡ some (coordinates port b) → a ≡ b
coordinates_unique port a b e = ap (λ c. c.subdomain) (some_unique e)

of_subdomain_iff :
    (port sub : List ℕ) (found : Option (List ℕ))
    → (of_subdomain port found ≡ some (coordinates port sub))
      ↔ ((found ≡ some sub) × (is_label sub ≡ true))
of_subdomain_iff port sub none = ground (arith)
of_subdomain_iff port sub (some name) = elim (Bool-cases (is_label name)) [
  | inl label ↦ (
    λ e. (
      ap some (coordinates_unique port name sub (ground (arith, label, e))),
      subst (λ s. is_label s ≡ true) (coordinates_unique port name sub (ground (arith, label, e)))
          label,
    ),
    λ (e, is_name).
        subst (λ s. of_subdomain port (some s) ≡ some (coordinates port sub)) (sym (some_unique e))
          (ground (arith, is_name)),
  )
  | inr no_label ↦ (
    λ e. absurd (none-ne (coordinates port sub) (ground (arith, no_label, e))),
    λ (e, is_name).
        subst (λ s. of_subdomain port (some s) ≡ some (coordinates port sub)) (sym (some_unique e))
          (ground (arith, is_name)),
  )
]

of_hostname-strip :
    (base_domain port hostname : List ℕ)
    → of_hostname base_domain port hostname
      ≡ of_subdomain port (strip_suffix (b'.' ∷ map to_lower base_domain) hostname)
unfolding strip_suffix
of_hostname-strip base_domain port [] = refl
of_hostname-strip base_domain port (c ∷ hostname) = refl

-- A Host header resolves to the coordinates of a subdomain just when its part before the first
-- colon, lower-cased, is the subdomain, a dot and the lower-cased base domain, and the subdomain is
-- one nonempty label.
pub resolve_iff :
    (base_domain port host sub : List ℕ)
    → (resolve base_domain port (some host) ≡ some (coordinates port sub)) ↔ (
        (map to_lower (before_mark b':' host) ≡ sub ++ b'.' ∷ map to_lower base_domain)
        × (is_label sub ≡ true))
unfolding resolve
resolve_iff base_domain port host sub =
    let suffix = b'.' ∷ map to_lower base_domain in
    let hostname = map to_lower (before_mark b':' host) in
    let strip = strip_suffix_iff suffix hostname sub in
    let find = of_subdomain_iff port sub (strip_suffix suffix hostname) in
    let steps = of_hostname-strip base_domain port hostname in
    (
      λ e. let (found, label) = find.0 (sym steps ∙ e) in (strip.0 found, label),
      λ (e, label). steps ∙ find.1 (strip.1 e, label),
    )

-- Where a host resolves to: to nothing, or to the coordinates of some subdomain.
of_subdomain-shape :
    (port : List ℕ) (found : Option (List ℕ))
    → (of_subdomain port found ≡ none)
      ⊎ ((sub : List ℕ) × (of_subdomain port found ≡ some (coordinates port sub)))
of_subdomain-shape port none = inl refl
of_subdomain-shape port (some sub) = elim (Bool-cases (is_label sub)) [
  | inl label ↦ inr (sub, ground (arith, label))
  | inr no_label ↦ inl (ground (arith, no_label))
]

resolve-shape :
    (base_domain port : List ℕ) (host : Option (List ℕ)) (found : TenantCoordinates)
    → resolve base_domain port host ≡ some found
    → (sub : List ℕ) × (found ≡ coordinates port sub)
unfolding resolve
resolve-shape base_domain port none found e = absurd (none-ne found e)
resolve-shape base_domain port (some host) found e =
    let hostname = map to_lower (before_mark b':' host) in
    let steps = of_hostname-strip base_domain port hostname in
    elim (of_subdomain-shape port (strip_suffix (b'.' ∷ map to_lower base_domain) hostname)) [
      | inl nothing ↦ absurd (none-ne found (sym nothing ∙ sym steps ∙ e))
      | inr (sub, is) ↦ (sub, some_unique (sym e ∙ steps ∙ is))
    ]

-- Two requests that are sent to the same namespace are sent to the same deployment, service and
-- upstream: the coordinates depend on the namespace alone.
pub resolve-by_namespace :
    (base_domain port : List ℕ) (host host' : Option (List ℕ)) (found found' : TenantCoordinates)
    → resolve base_domain port host ≡ some found
    → resolve base_domain port host' ≡ some found'
    → found.namespace ≡ found'.namespace
    → found ≡ found'
resolve-by_namespace base_domain port host host' found found' e e' same =
    let (sub, is) = resolve-shape base_domain port host found e in
    let (sub', is') = resolve-shape base_domain port host' found' e' in
    is
    ∙ ap (coordinates port)
        (tenant-cancel sub sub' (sym (ap (λ c. c.namespace) is) ∙ same ∙ ap (λ c. c.namespace) is'))
    ∙ sym is'
