-- ===== src/ControlPlane/Backup/Retention/Thorough.antt =====
-- That the retention sweep deletes all that it may.
use dnd_notes.Common.{
  String, Bool, true, false, not, ◌≡◌, refl, subst, ap, Option, ◌≢◌, ◌⊎◌, inl, inr, List, [], ◌∷◌,
  none, arith, ◌==◌, eq_iff, if◌then◌else◌, keep, All, All-In, All-intro, Distinct, Distinct-unique,
  map, ◌&&◌, ◌≤◌, some, some_unique, sym, ◌∙◌, same_codes, same_codes_iff, Option-cases, In,
  In-keep, In-of_keep, Bool-cases, ℕ,
}
use dnd_notes.ControlPlane.Backup.World.{Blob, State, turn, take_turn, deliver, await}
use dnd_notes.ControlPlane.Backup.Catalog.{
  list_blobs_older_than, delete_blob, mark_backup_catalog_location_deleted_for_blob,
}
use dnd_notes.ControlPlane.Backup.Retention.{
  prefix_of, lookup_newest, is_fresh, newest_by_prefix, is_retained, remove_blob, sweep_one,
  sweep_each, sweep_listed, run_retention_sweep,
}
use dnd_notes.ControlPlane.Backup.Retention.Newest.{
  IsCovered, lookup-IsSound, newest_by_prefix-IsSound, newest_by_prefix-IsCovered,
}
use dnd_notes.ControlPlane.Backup.Retention.Sweep.{without, is_stale}

-- Nothing fails and nobody stops.
abbrev pub IsQuiet : State → Type 0
IsQuiet s = (s.turns ≡ []) × (s.stopped ≡ false)

mark-IsQuiet :
    (name : String) (s : State)
    → IsQuiet s
    → IsQuiet (mark_backup_catalog_location_deleted_for_blob name s).1
      × ((mark_backup_catalog_location_deleted_for_blob name s).1.blobs ≡ s.blobs)
unfolding mark_backup_catalog_location_deleted_for_blob await turn
mark-IsQuiet name s h = ground (arith, h)

remove_blob-IsQuiet :
    (b : Blob) (s : State)
    → IsQuiet s
    → IsQuiet (remove_blob b s) × ((remove_blob b s).blobs ≡ without b.name s.blobs)
unfolding remove_blob delete_blob await turn
remove_blob-IsQuiet b s h =
    ground (arith, h, mark-IsQuiet b.name (record s { blobs = without b.name s.blobs }) h)

module _ (fresh : List (List ℕ)) (newest : List (List ℕ × Blob)) where
  -- A blob under this name is one that the sweep retains.
  abbrev Clears : Blob → Blob → Type 0
  Clears x b = (x.name ≢ b.name) ⊎ (is_retained fresh newest b ≡ true)

  sweep_one-Clears :
      (x b : Blob) (s : State)
      → IsQuiet s
      → IsQuiet (sweep_one fresh newest b s)
        × ((y : Blob) → In (sweep_one fresh newest b s).blobs y → In s.blobs y × Clears y b)
  unfolding sweep_one
  sweep_one-Clears x b s h = by_test (is_retained fresh newest b) refl
    where
      by_test :
          (t : Bool)
          → is_retained fresh newest b ≡ t
          → IsQuiet (if t then s else remove_blob b s)
            × ((y : Blob)
                → In (if t then s else remove_blob b s).blobs y
                → In s.blobs y × Clears y b)
      by_test true kept = (h, λ y here. (here, inr kept))
      by_test false goes =
          let k = remove_blob-IsQuiet b s h in
          (
            k.0,
            λ y here.
                let old =
                  In-of_keep (λ z. not (z.name == b.name)) s.blobs y
                    (subst (λ l. In l y) k.1 here) in
                (old.0, inl (λ e. ground (arith, old.1, eq_iff y.name b.name, e))),
          )

  sweep_each-Clears :
      (x : Blob) (bs : List Blob) (s : State)
      → IsQuiet s
      → In (sweep_each fresh newest bs s).blobs x
      → In s.blobs x × All (Clears x) bs
  unfolding sweep_each
  sweep_each-Clears x [] s h here = (here, tt)
  sweep_each-Clears x (b ∷ bs) s h here =
      let one = sweep_one-Clears x b s h in
      let all = sweep_each-Clears x bs (sweep_one fresh newest b s) one.0 (
        subst
          (λ t.
            In (if t then s else sweep_each fresh newest bs (sweep_one fresh newest b s)).blobs x)
          h.1 here) in
      let first = one.1 x all.0 in (first.0, (first.1, all.1))

turn-quiet : (s : State) → s.turns ≡ [] → turn s ≡ (none, s)
unfolding turn
turn-quiet s calm = ap (λ ts. take_turn ts s) calm

-- The stale blobs of a blob's prefix.
abbrev pub rivals : (retention_days now : ℕ) → Blob → List Blob → List Blob
rivals days now x = keep (λ b. is_stale days now b && same_codes (prefix_of b) (prefix_of x))

-- What is retained is the newest of its prefix, where names are distinct.
is_retained-newest :
    (fresh : List (List ℕ)) (days now : ℕ) (blobs : List Blob) (x : Blob)
    → Distinct (map (λ (b : Blob). b.name) blobs)
    → In blobs x
    → is_retained fresh (newest_by_prefix (keep (is_stale days now) blobs) []) x ≡ true
    → (is_fresh fresh (prefix_of x) ≡ false)
      × All (λ b. b.last_modified ≤ x.last_modified) (rivals days now x blobs)
unfolding is_retained
is_retained-newest fresh days now blobs x distinct here kept =
    elim (Option-cases (lookup_newest (prefix_of x) newest)) [
      | inl e ↦ absurd (ground (arith, e, kept))
      | inr (n, e) ↦
          let named : n.name ≡ x.name = (eq_iff n.name x.name).0 (ground (arith, e, kept)) in
          (ground (arith, kept), All-intro _ (rivals days now x blobs) (older n e named))
    ]
  where
    stale : List Blob
    stale = keep (is_stale days now) blobs

    newest : List (List ℕ × Blob)
    newest = newest_by_prefix stale []

    found : (n : Blob) → lookup_newest (prefix_of x) newest ≡ some n → n.name ≡ x.name → n ≡ x
    found n e named =
        let sound =
          newest_by_prefix-IsSound stale stale [] (All-intro (In stale) stale (λ b h. h)) tt in
        let n_stale = (lookup-IsSound stale newest (prefix_of x) n sound e).1 in
        Distinct-unique (λ (y : Blob). y.name) blobs n x distinct
          (In-of_keep (is_stale days now) blobs n n_stale).0 here named

    older :
        (n : Blob)
        → lookup_newest (prefix_of x) newest ≡ some n
        → n.name ≡ x.name
        → (b : Blob) → In (rivals days now x blobs) b
        → b.last_modified ≤ x.last_modified
    older n e named b rival =
        let k =
          In-of_keep (λ b. is_stale days now b && same_codes (prefix_of b) (prefix_of x)) blobs b
            rival in
        let old = In-keep (is_stale days now) blobs b k.0 (ground (arith, k.1)) in
        let same : prefix_of b ≡ prefix_of x =
          (same_codes_iff (prefix_of b) (prefix_of x)).0 (ground (arith, k.1)) in
        let (m, covers, le) =
          All-In (IsCovered stale newest) stale b (newest_by_prefix-IsCovered stale stale []) old in
        let is_n : m ≡ n = some_unique (sym covers ∙ ap (λ p. lookup_newest p newest) same ∙ e) in
        subst (λ y. b.last_modified ≤ y.last_modified) (is_n ∙ found n e named) le

-- Where no call fails, nobody stops the scheduler and the blobs' names are distinct, each blob that the
-- sweep leaves was there before, and is either no older than the cutoff, or such that no backup of
-- its prefix succeeded in this tick and no stale blob of its prefix was newer.
pub run_retention_sweep-Clears :
    (fresh : List (List ℕ)) (retention_days : ℕ) (s : State) (x : Blob)
    → s.turns ≡ []
    → s.stopped ≡ false
    → Distinct (map (λ (b : Blob). b.name) s.blobs)
    → In (run_retention_sweep fresh retention_days s).blobs x
    → In s.blobs x
      × ((is_stale retention_days s.clock x ≡ false)
          ⊎ ((is_fresh fresh (prefix_of x) ≡ false)
              × All
                  (λ b. b.last_modified ≤ x.last_modified)
                  (rivals retention_days s.clock x s.blobs)))
unfolding run_retention_sweep list_blobs_older_than await
run_retention_sweep-Clears fresh days s x calm going distinct here =
    let stale = keep (is_stale days s.clock) s.blobs in
    let k =
      sweep_each-Clears fresh (newest_by_prefix stale []) x stale s (calm, going)
        (subst
          (λ (r : Option String × State).
            In
              (sweep_listed fresh
                (deliver r (λ u. (keep (is_stale days s.clock) u.blobs, u)))).blobs
              x)
          (turn-quiet s calm) here) in
    (
      k.0,
      elim (Bool-cases (is_stale days s.clock x)) [
        | inr recent ↦ inl recent
        | inl old ↦
            elim (All-In (Clears fresh (newest_by_prefix stale []) x) stale x k.1
              (In-keep (is_stale days s.clock) s.blobs x k.0 old)) [
                | inl other ↦ absurd (other refl)
                | inr kept ↦ inr (is_retained-newest fresh days s.clock s.blobs x distinct k.0 kept)
              ]
      ],
    )
