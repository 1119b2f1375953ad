-- ===== src/ControlPlane/Backup/Retention/Newest.antt =====
-- The newest of the stale blobs for each prefix.
use dnd_notes.Common.{
  none-ne, ℕ, ◌≤◌, Bool, true, false, ◌≡◌, refl, sym, ◌∙◌, ap, subst, inl, inr, some, List, [], ◌∷◌,
  arith, ltb, if◌then◌else◌, All, In, same_codes, same_codes_iff, Bool-cases, Option-cases,
}
use dnd_notes.ControlPlane.Backup.World.{Blob}
use dnd_notes.ControlPlane.Backup.Retention.{
  prefix_of, lookup_newest, is_newer, offer, newest_by_prefix,
}

pub same_self : (k : List ℕ) → same_codes k k ≡ true
same_self k = ground (arith, same_codes_iff k k)

module _ (stale : List Blob) where
  -- Each entry of the map is a stale blob of its prefix.
  abbrev pub IsSound : List (List ℕ × Blob) → Type 0
  IsSound = All (λ (e : List ℕ × Blob). (prefix_of e.1 ≡ e.0) × In stale e.1)

  -- The entry of a blob's prefix is at least as new.
  abbrev pub IsCovered : List (List ℕ × Blob) → Blob → Type 0
  IsCovered newest b =
      (n : Blob) × (lookup_newest (prefix_of b) newest ≡ some n)
      × (b.last_modified ≤ n.last_modified)

  pub lookup-IsSound :
      (newest : List (List ℕ × Blob)) (k : List ℕ) (n : Blob)
      → IsSound newest
      → lookup_newest k newest ≡ some n
      → (prefix_of n ≡ k) × In stale n
  lookup-IsSound [] k n h e = absurd (none-ne n e)
  lookup-IsSound ((key, b) ∷ rest) k n h e = elim (Bool-cases (same_codes key k)) [
    | inl same ↦
        let found : b ≡ n = ground (arith, same, e) in
        (
          ap prefix_of (sym found) ∙ h.0.0 ∙ (same_codes_iff key k).0 same,
          subst (In stale) found h.0.1,
        )
    | inr other ↦ lookup-IsSound rest k n h.1 (ground (arith, other, e))
  ]

  offer-IsSound :
      (newest : List (List ℕ × Blob)) (b : Blob)
      → In stale b
      → IsSound newest
      → IsSound (offer b newest)
  offer-IsSound newest b here h = by_test (is_newer b (lookup_newest (prefix_of b) newest))
    where
      by_test : (t : Bool) → IsSound (if t then (prefix_of b, b) ∷ newest else newest)
      by_test true = ((refl, here), h)
      by_test false = h

  offer-IsCovered_self : (newest : List (List ℕ × Blob)) (b : Blob) → IsCovered (offer b newest) b
  offer-IsCovered_self newest b = elim (Option-cases (lookup_newest (prefix_of b) newest)) [
    | inl e ↦ (b, ground (arith, e, same_self (prefix_of b)), omega arith)
    | inr (n, e) ↦ elim (Bool-cases (ltb n.last_modified b.last_modified)) [
      | inl newer ↦ (b, ground (arith, e, newer, same_self (prefix_of b)), omega arith)
      | inr older ↦ (n, ground (arith, e, older), ground arith)
    ]
  ]

  offer-IsCovered :
      (newest : List (List ℕ × Blob)) (b c : Blob)
      → IsCovered newest c
      → IsCovered (offer b newest) c
  offer-IsCovered newest b c (n, e, le) =
      elim (Bool-cases (is_newer b (lookup_newest (prefix_of b) newest))) [
        | inr older ↦ (n, ground (arith, older, e), le)
        | inl newer ↦ elim (Bool-cases (same_codes (prefix_of b) (prefix_of c))) [
          | inr other ↦ (n, ground (arith, newer, other, e), le)
          | inl same ↦
              let eq : prefix_of b ≡ prefix_of c =
                (same_codes_iff (prefix_of b) (prefix_of c)).0 same in
              let later : is_newer b (some n) ≡ true =
                subst (λ o. is_newer b o ≡ true) (ap (λ k. lookup_newest k newest) eq ∙ e) newer in
              (b, ground (arith, newer, same), ground (arith, later))
        ]
      ]

  pub newest_by_prefix-IsSound :
      (bs : List Blob) (newest : List (List ℕ × Blob))
      → All (In stale) bs
      → IsSound newest
      → IsSound (newest_by_prefix bs newest)
  unfolding newest_by_prefix
  newest_by_prefix-IsSound [] newest hs h = h
  newest_by_prefix-IsSound (b ∷ bs) newest hs h =
      newest_by_prefix-IsSound bs (offer b newest) hs.1 (offer-IsSound newest b hs.0 h)

  newest_by_prefix-IsCovered_old :
      (bs : List Blob) (newest : List (List ℕ × Blob)) (c : Blob)
      → IsCovered newest c
      → IsCovered (newest_by_prefix bs newest) c
  unfolding newest_by_prefix
  newest_by_prefix-IsCovered_old [] newest c h = h
  newest_by_prefix-IsCovered_old (b ∷ bs) newest c h =
      newest_by_prefix-IsCovered_old bs (offer b newest) c (offer-IsCovered newest b c h)

  pub newest_by_prefix-IsCovered :
      (bs : List Blob) (newest : List (List ℕ × Blob))
      → All (IsCovered (newest_by_prefix bs newest)) bs
  unfolding newest_by_prefix
  newest_by_prefix-IsCovered [] newest = tt
  newest_by_prefix-IsCovered (b ∷ bs) newest = (
    newest_by_prefix-IsCovered_old bs (offer b newest) b (offer-IsCovered_self newest b),
    newest_by_prefix-IsCovered bs (offer b newest),
  )
