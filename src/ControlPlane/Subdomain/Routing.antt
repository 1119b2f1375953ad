-- ===== src/ControlPlane/Subdomain/Routing.antt =====
-- The activator routes to every subdomain that the control plane admits.
use dnd_notes.Common.{
  none-ne, some_unique, ℕ, ◌≤◌, Bool, true, false, ◌&&◌, ◌||◌, ◌≡◌, refl, ap, ◌∙◌, subst, some,
  List, [], ◌∷◌, ◌++◌, map, any, length, ◌=ℕ◌, =ℕ_iff, leb→le, arith, Bool-cases, inl, inr,
}
use dnd_notes.ControlPlane.Subdomain.{
  is_alphanumeric, matches_rest, matches_pattern, is_valid_tenant_subdomain,
  assert_tenant_subdomain,
}
use dnd_notes.Activator.Resolver.{to_lower, before_mark, coordinates, is_label, resolve}
use dnd_notes.Activator.Resolver.Laws.{resolve_iff}

-- Neither a capital nor a dot nor a colon.
abbrev is_safe : ℕ → Bool
is_safe c = is_alphanumeric c || c =ℕ b'-'

abbrev all_safe : List ℕ → Bool
all_safe [] = true
all_safe (c ∷ text) = is_safe c && all_safe text

matches_rest-safe : (text : List ℕ) → matches_rest text ≡ true → all_safe text ≡ true
unfolding matches_rest
matches_rest-safe [] e = refl
matches_rest-safe (c ∷ []) e = ground (arith, e)
matches_rest-safe (c ∷ d ∷ text) e = ground (arith, e, matches_rest-safe (d ∷ text))

pattern-safe : (text : List ℕ) → matches_pattern text ≡ true → all_safe text ≡ true
pattern-safe [] e = refl
pattern-safe (c ∷ text) e = ground (arith, e, matches_rest-safe text)

safe-lower : (c : ℕ) → is_safe c ≡ true → to_lower c ≡ c
safe-lower c e = ground (arith, e)

all_safe-lower : (text : List ℕ) → all_safe text ≡ true → map to_lower text ≡ text
all_safe-lower [] e = refl
all_safe-lower (c ∷ text) e =
    ground (arith, safe-lower c (ground (arith, e)), all_safe-lower text (ground (arith, e)))

safe-other : (mark c : ℕ) → is_safe mark ≡ false → is_safe c ≡ true → (c =ℕ mark) ≡ false
safe-other mark c m e = elim (Bool-cases (c =ℕ mark)) [
  | inl same ↦ absurd (ground (arith, e, m, ap is_safe ((=ℕ_iff c mark).0 same)))
  | inr other ↦ other
]

all_safe-none :
    (mark : ℕ) (text : List ℕ)
    → is_safe mark ≡ false
    → all_safe text ≡ true
    → any (λ c. c =ℕ mark) text ≡ false
all_safe-none mark [] m e = refl
all_safe-none mark (c ∷ text) m e =
    ground (
      arith,
      safe-other mark c m (ground (arith, e)),
      all_safe-none mark text m (ground (arith, e)),
    )

any-append :
    (p : ℕ → Bool) (xs ys : List ℕ) → any p xs ≡ false → any p ys ≡ false → any p (xs ++ ys) ≡ false
any-append p [] ys e f = f
any-append p (x ∷ xs) ys e f = ground (arith, e, any-append p xs ys (ground (arith, e)) f)

before_mark-none :
    (mark : ℕ) (text : List ℕ) → any (λ c. c =ℕ mark) text ≡ false → before_mark mark text ≡ text
unfolding before_mark
before_mark-none mark [] e = refl
before_mark-none mark (c ∷ text) e =
    ground (arith, e, before_mark-none mark text (ground (arith, e)))

map-append : (f : ℕ → ℕ) (xs ys : List ℕ) → map f (xs ++ ys) ≡ map f xs ++ map f ys
map-append f [] ys = refl
map-append f (x ∷ xs) ys = ap (λ l. f x ∷ l) (map-append f xs ys)

pattern-label : (text : List ℕ) → matches_pattern text ≡ true → is_label text ≡ true
pattern-label [] e = e
pattern-label (c ∷ text) e =
    ground (arith, all_safe-none b'.' (c ∷ text) refl (pattern-safe (c ∷ text) e))

valid-resolve :
    (base_domain port subdomain : List ℕ)
    → any (λ c. c =ℕ b':') base_domain ≡ false
    → matches_pattern subdomain ≡ true
    → resolve base_domain port (some (subdomain ++ b'.' ∷ base_domain))
      ≡ some (coordinates port subdomain)
valid-resolve base_domain port subdomain plain valid =
    let host = subdomain ++ b'.' ∷ base_domain in
    let safe = pattern-safe subdomain valid in
    let whole = before_mark-none b':' host (
      any-append (λ c. c =ℕ b':') subdomain (b'.' ∷ base_domain)
        (all_safe-none b':' subdomain refl safe) plain) in
    (resolve_iff base_domain port host subdomain).1 (
      ap (map to_lower) whole
          ∙ map-append to_lower subdomain (b'.' ∷ base_domain)
          ∙ ap (λ l. l ++ b'.' ∷ map to_lower base_domain) (all_safe-lower subdomain safe),
      pattern-label subdomain valid,
    )

assert-valid :
    (subdomain admitted : List ℕ)
    → assert_tenant_subdomain subdomain ≡ some admitted
    → (is_valid_tenant_subdomain admitted ≡ true) × (subdomain ≡ admitted)
unfolding assert_tenant_subdomain
assert-valid subdomain admitted e = elim (Bool-cases (is_valid_tenant_subdomain subdomain)) [
  | inl valid ↦
      let same = some_unique (ground (arith, e, valid)) in
      (subst (λ t. is_valid_tenant_subdomain t ≡ true) same valid, same)
  | inr invalid ↦ absurd (none-ne admitted (ground (arith, e, invalid)))
]

-- For a base domain without a colon, the host that is made of a subdomain which the control plane
-- admits, a dot and the base domain is routed by the activator to that tenant, and the name of its
-- namespace is within the 63 characters that Kubernetes allows.
pub assert_tenant_subdomain-resolve :
    (base_domain port subdomain admitted : List ℕ)
    → any (λ c. c =ℕ b':') base_domain ≡ false
    → assert_tenant_subdomain subdomain ≡ some admitted
    → (resolve base_domain port (some (admitted ++ b'.' ∷ base_domain))
        ≡ some (coordinates port admitted))
      × (length (coordinates port admitted).namespace ≤ 63)
unfolding is_valid_tenant_subdomain
assert_tenant_subdomain-resolve base_domain port subdomain admitted plain e =
    let (valid, _) = assert-valid subdomain admitted e in
    let short : length admitted ≤ 48 = leb→le (length admitted) 48 (ground (arith, valid)) in
    (valid-resolve base_domain port admitted plain (ground (arith, valid)), omega (arith, short))
