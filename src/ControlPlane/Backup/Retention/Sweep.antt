-- ===== src/ControlPlane/Backup/Retention/Sweep.antt =====
-- What the retention sweep leaves of the blobs.
use dnd_notes.Common.{
  ℕ, ◌≤◌, String, Bool, true, false, not, ◌≡◌, refl, sym, ◌∙◌, ap, subst, ◌≢◌, ◌⊎◌, inl, inr,
  Option, none, some, List, [], ◌∷◌, map, arith, ◌==◌, eq_iff, eq_refl, ltb, if◌then◌else◌, keep,
  All, All-In, All-intro, Distinct, Distinct-unique, In, In-keep, In-of_keep, Bool-cases,
  Option-cases,
}
use dnd_notes.Common.Prog.{ok}
use dnd_notes.ControlPlane.Backup.World.{Blob, State, turn, turn-same, await, deliver}
use dnd_notes.ControlPlane.Backup.Catalog.{
  list_blobs_older_than, delete_blob, mark_backup_catalog_location_deleted_for_blob,
}
use dnd_notes.ControlPlane.Backup.Retention.{
  prefix_of, lookup_newest, newest_by_prefix, is_fresh, is_retained, remove_blob, sweep_one,
  sweep_each, sweep_listed, cutoff, run_retention_sweep,
}
use dnd_notes.ControlPlane.Backup.Retention.Newest.{
  IsCovered, lookup-IsSound, newest_by_prefix-IsSound, newest_by_prefix-IsCovered,
}

abbrev pub without : String → List Blob → List Blob
without name = keep (λ x. not (x.name == name))

turn-blobs : (s : State) → (turn s).1.blobs ≡ s.blobs
turn-blobs = turn-same (λ x. x.blobs) (λ s b ts. refl)

mark-blobs :
    (name : String) (s : State)
    → (mark_backup_catalog_location_deleted_for_blob name s).1.blobs ≡ s.blobs
unfolding mark_backup_catalog_location_deleted_for_blob await
mark-blobs name s = ground (arith, turn-blobs s)

remove_blob-blobs :
    (b : Blob) (s : State)
    → ((remove_blob b s).blobs ≡ s.blobs) ⊎ ((remove_blob b s).blobs ≡ without b.name s.blobs)
unfolding remove_blob delete_blob await
remove_blob-blobs b s = elim (Option-cases (turn s).0) [
  | inl e ↦ inr (
      ground (
        arith,
        e,
        turn-blobs s,
        mark-blobs b.name (record (turn s).1 { blobs = without b.name (turn s).1.blobs }),
      ))
  | inr (m, e) ↦ inl (ground (arith, e, turn-blobs s))
]

module _ (fresh : List (List ℕ)) (newest : List (List ℕ × Blob)) where
  -- A stale blob that the sweep may meet without harm to `x`.
  abbrev Spares : Blob → Blob → Type 0
  Spares x b = (x.name ≢ b.name) ⊎ (is_retained fresh newest b ≡ true)

  sweep_one-In :
      (x b : Blob) (s : State) → Spares x b → In s.blobs x → In (sweep_one fresh newest b s).blobs x
  unfolding sweep_one
  sweep_one-In x b s (inr kept) here = rw kept here
  sweep_one-In x b s (inl other) here = elim (Bool-cases (is_retained fresh newest b)) [
    | inl kept ↦ rw kept here
    | inr goes ↦ rw goes (elim (remove_blob-blobs b s) [
      | inl same ↦ subst (λ l. In l x) (sym same) here
      | inr gone ↦
          subst (λ l. In l x) (sym gone)
            (In-keep (λ y. not (y.name == b.name)) s.blobs x here
              (ground (arith, eq_iff x.name b.name, other)))
    ])
  ]

  sweep_each-In :
      (x : Blob) (bs : List Blob) (s : State)
      → All (Spares x) bs
      → In s.blobs x
      → In (sweep_each fresh newest bs s).blobs x
  unfolding sweep_each
  sweep_each-In x [] s h here = here
  sweep_each-In x (b ∷ bs) s h here =
      by_test s.stopped
        (sweep_each-In x bs (sweep_one fresh newest b s) h.1 (sweep_one-In x b s h.0 here))
    where
      by_test :
          (t : Bool)
          → In (sweep_each fresh newest bs (sweep_one fresh newest b s)).blobs x
          → In (if t then s else sweep_each fresh newest bs (sweep_one fresh newest b s)).blobs x
      by_test true k = here
      by_test false k = k

abbrev pub is_stale : (retention_days now : ℕ) → Blob → Bool
is_stale retention_days now b = ltb b.last_modified (cutoff retention_days now)

-- A copy of the same prefix that is at least as new.
abbrev pub HasCopy : List Blob → Blob → Type 0
HasCopy blobs x =
    (y : Blob) × In blobs y × (prefix_of y ≡ prefix_of x) × (x.last_modified ≤ y.last_modified)

module _ (fresh : List (List ℕ)) (days now : ℕ) (blobs : List Blob) (s : State) (x : Blob)
    (distinct : Distinct (map (λ (b : Blob). b.name) blobs)) (here : In blobs x)
    (same : s.blobs ≡ blobs) where
  abbrev stale : List Blob
  stale = keep (is_stale days now) blobs

  abbrev newest : List (List ℕ × Blob)
  newest = newest_by_prefix stale []

  swept-recent : is_stale days now x ≡ false → HasCopy (sweep_each fresh newest stale s).blobs x
  swept-recent recent = (
    x,
    sweep_each-In fresh newest x stale s
        (All-intro (Spares fresh newest x) stale (λ b old.
          let k = In-of_keep (is_stale days now) blobs b old in
          inl (λ e.
            let one = Distinct-unique (λ (y : Blob). y.name) blobs x b distinct here k.0 e in
            ground (arith, ap (is_stale days now) one, k.1, recent))))
        (subst (λ l. In l x) (sym same) here),
    refl,
    omega arith,
  )

  swept-stale :
      is_stale days now x ≡ true
      → is_fresh fresh (prefix_of x) ≡ false
      → HasCopy (sweep_each fresh newest stale s).blobs x
  unfolding is_retained
  swept-stale old lost =
      let in_stale = In-keep (is_stale days now) blobs x here old in
      let (n, found, newer) =
        All-In (IsCovered stale newest) stale x (newest_by_prefix-IsCovered stale stale [])
          in_stale in
      let sound =
        newest_by_prefix-IsSound stale stale [] (All-intro (In stale) stale (λ b h. h)) tt in
      let (prefix, n_stale) = lookup-IsSound stale newest (prefix_of x) n sound found in
      let n_here = In-of_keep (is_stale days now) blobs n n_stale in
      let own : lookup_newest (prefix_of n) newest ≡ some n =
        ap (λ k. lookup_newest k newest) prefix ∙ found in
      let kept : is_retained fresh newest n ≡ true =
        ground (arith, own, ap (is_fresh fresh) prefix, lost, eq_refl n.name) in
      (
        n,
        sweep_each-In fresh newest n stale s
            (All-intro (Spares fresh newest n) stale
              (λ b b_stale. spared n b n_here.0 b_stale kept))
            (subst (λ l. In l n) (sym same) n_here.0),
        prefix,
        newer,
      )
    where
      spared :
          (n b : Blob)
          → In blobs n
          → In stale b
          → is_retained fresh newest n ≡ true
          → Spares fresh newest n b
      spared n b n_here b_stale kept = elim (Bool-cases (n.name == b.name)) [
        | inr other ↦ inl (λ e. ground (arith, eq_iff n.name b.name, other))
        | inl equal ↦
            let k = In-of_keep (is_stale days now) blobs b b_stale in
            let one =
              Distinct-unique (λ (y : Blob). y.name) blobs n b distinct n_here k.0
                ((eq_iff n.name b.name).0 equal) in
            inr (subst (λ y. is_retained fresh newest y ≡ true) one kept)
      ]

swept :
    (fresh : List (List ℕ)) (days now : ℕ) (blobs : List Blob) (s : State) (x : Blob)
    → Distinct (map (λ (b : Blob). b.name) blobs)
    → In blobs x
    → s.blobs ≡ blobs
    → is_fresh fresh (prefix_of x) ≡ false
    → HasCopy (sweep_listed fresh (ok (keep (is_stale days now) blobs), s)).blobs x
swept fresh days now blobs s x distinct here same lost = elim (Bool-cases (is_stale days now x)) [
  | inl old ↦ swept-stale fresh days now blobs s x distinct here same old lost
  | inr recent ↦ swept-recent fresh days now blobs s x distinct here same recent
]

listed-HasCopy :
    (fresh : List (List ℕ)) (days now : ℕ) (x : Blob) (r : Option String × State)
    → Distinct (map (λ (b : Blob). b.name) r.1.blobs)
    → In r.1.blobs x
    → is_fresh fresh (prefix_of x) ≡ false
    → HasCopy (sweep_listed fresh (deliver r (λ u. (keep (is_stale days now) u.blobs, u)))).blobs x
listed-HasCopy fresh days now x (some m, u) distinct here lost = (x, here, refl, omega arith)
listed-HasCopy fresh days now x (none, u) distinct here lost =
    swept fresh days now u.blobs u x distinct here refl lost

-- Whatever calls fail, and whenever stop() is called: where the blobs' names are distinct, the sweep
-- leaves each prefix a copy at least as new as any it had, unless a backup of that prefix succeeded
-- in this tick.
pub run_retention_sweep-HasCopy :
    (fresh : List (List ℕ)) (retention_days : ℕ) (s : State) (x : Blob)
    → Distinct (map (λ (b : Blob). b.name) s.blobs)
    → In s.blobs x
    → (is_fresh fresh (prefix_of x) ≡ true)
      ⊎ HasCopy (run_retention_sweep fresh retention_days s).blobs x
unfolding run_retention_sweep list_blobs_older_than await
run_retention_sweep-HasCopy fresh days s x distinct here =
    elim (Bool-cases (is_fresh fresh (prefix_of x))) [
      | inl renewed ↦ inl renewed
      | inr lost ↦
          let same = sym (turn-blobs s) in
          inr (
            listed-HasCopy fresh days s.clock x (turn s)
              (subst (λ l. Distinct (map (λ (b : Blob). b.name) l)) same distinct)
              (subst (λ l. In l x) same here) lost)
    ]
