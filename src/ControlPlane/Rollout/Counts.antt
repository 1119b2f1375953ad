-- ===== src/ControlPlane/Rollout/Counts.antt =====
-- What the readers of a rollout report: the counts, the abort request, and the restart sweep.
use dnd_notes.Common.{
  ℕ, ◌+◌, ◌*◌, ◌≤◌, String, true, false, ◌&&◌, ◌≡◌, refl, sym, subst, ◌⊎◌, inl, inr, Option, none,
  some, List, [], ◌∷◌, arith, ◌==◌, if◌then◌else◌, or_else, All, count, find-true,
  find-update_where, update_where, ltb, Bool-cases,
}
use dnd_notes.Common.Prog.{Result, ok, follow}
use dnd_notes.ControlPlane.Rollout.Tables.{
  TenantStatus, RolloutRow, TenantRow, State, await, settle, is_running, find_rollout,
}
use dnd_notes.ControlPlane.Rollout.Rows.{await-quiet}
use dnd_notes.ControlPlane.Rollout.Reads.{
  has_status, count_rows, newest_running, AbortOutcome, requested, not_found, already_ended,
  abort_found, abort_fleet_rollout, is_orphan, fail_orphan, mark_orphan_running_rollouts_failed,
}

one_status :
    (st : TenantStatus)
    → (if has_status st TenantStatus.succeeded then 1 else 0)
        + (if has_status st TenantStatus.failed then 1 else 0)
        + (if has_status st TenantStatus.skipped then 1 else 0)
        + (if has_status st TenantStatus.pending then 1 else 0)
      ≡ 1
one_status TenantStatus.pending = refl
one_status TenantStatus.succeeded = refl
one_status TenantStatus.failed = refl
one_status TenantStatus.skipped = refl

-- Every row of a rollout is counted under exactly one status: the four counts add up to the total.
pub count_rows-total :
    (rows : List TenantRow)
    → let c = count_rows rows in c.completed + c.failed + c.skipped + c.pending ≡ c.total
unfolding count_rows
count_rows-total [] = refl
count_rows-total (r ∷ rows) = omega (arith, one_status r.status, count_rows-total rows)

-- The row that getCurrentFleetRollout picks.
All-map :
    {P Q : RolloutRow → Type 0}
    → ((r : RolloutRow) → P r → Q r)
    → (rows : List RolloutRow) → All P rows
    → All Q rows
All-map f [] h = tt
All-map f (r ∷ rows) h = (f r h.0, All-map f rows h.1)

abbrev pub IsNewest : List RolloutRow → RolloutRow → Type 0
IsNewest rows best =
    (is_running best.status ≡ true)
    × All (λ r. (is_running r.status ≡ false) ⊎ (r.started_at ≤ best.started_at)) rows

later_bound :
    (row best : RolloutRow)
    → ltb row.started_at best.started_at ≡ false
    → (r : RolloutRow) → (is_running r.status ≡ false) ⊎ (r.started_at ≤ best.started_at)
    → (is_running r.status ≡ false) ⊎ (r.started_at ≤ row.started_at)
later_bound row best ge r (inl off) = inl off
later_bound row best ge r (inr le) = inr (ground arith)

-- The rollout that is reported as current is running, and no running rollout started later; none
-- is reported only where none is running.
pub newest_running-IsNewest :
    (rows : List RolloutRow)
    → ((newest_running rows ≡ none) × All (λ r. is_running r.status ≡ false) rows)
      ⊎ ((best : RolloutRow) × (newest_running rows ≡ some best) × IsNewest rows best)
unfolding newest_running
newest_running-IsNewest [] = inl (refl, tt)
newest_running-IsNewest (row ∷ rows) = elim (newest_running-IsNewest rows) [
  | inl (e, all) ↦ elim (Bool-cases (is_running row.status)) [
    | inl on ↦
        inr (row, ground (arith, e), (on, (inr (omega arith), All-map (λ r h. inl h) rows all)))
    | inr off ↦ inl (ground (arith, e), (off, all))
  ]
  | inr (best, e, (on, all)) ↦ elim (Bool-cases (is_running row.status)) [
    | inl run ↦ elim (Bool-cases (ltb row.started_at best.started_at)) [
      | inl lt ↦ inr (best, ground (arith, e), (on, (inr (ground arith), all)))
      | inr ge ↦ inr (
        row,
        ground (arith, e),
        (run, (inr (omega arith), All-map (later_bound row best ge) rows all)),
      )
    ]
    | inr off ↦ inr (best, ground (arith, e), (on, (inl off, all)))
  ]
]

-- The three answers to an abort request: an unknown rollout and an ended one are refused, and
-- nothing is written; a running one has its flag set, to the reason or the default.
abbrev pub Answered :
    String → Option String → State → Option RolloutRow → Result AbortOutcome × State → Type 0
Answered i reason s none (o, t) = (o ≡ ok not_found) × (t.rollouts ≡ s.rollouts)
Answered i reason s (some r) (o, t) =
    ((is_running r.status ≡ false) × (o ≡ ok already_ended) × (t.rollouts ≡ s.rollouts))
    ⊎ ((is_running r.status ≡ true)
        × (o ≡ ok requested)
        × (find_rollout i t.rollouts
            ≡ some (record r { abort_reason = some (or_else reason "Aborted by operator") })))

abort_found-Answered :
    (i : String) (reason : Option String) (s : State) (row : Option RolloutRow)
    → s.schedule ≡ []
    → find_rollout i s.rollouts ≡ row
    → Answered i reason s row (abort_found i reason row s)
unfolding abort_found await settle
abort_found-Answered i reason s none quiet found = (refl, refl)
abort_found-Answered i reason s (some r) quiet found = elim (Bool-cases (is_running r.status)) [
  | inr off ↦ inl (off, ground arith, ground arith)
  | inl on ↦ inr (
    on,
    ground arith,
    ground (
      arith,
      find-true (λ x. x.id == i) s.rollouts r found,
      find-update_where (λ x. x.id == i) (λ x. x.id == i && is_running x.status)
          (λ x. record x { abort_reason = some (or_else reason "Aborted by operator") }) s.rollouts
          (λ x. refl),
    ),
  )
]

-- With no failing query and no other operator at work, an abort request gets exactly the answer
-- that the rollout's row asks for: not found, already ended, or requested with the flag set.
pub abort_fleet_rollout-Answered :
    (i : String) (reason : Option String) (s : State)
    → s.schedule ≡ []
    → Answered i reason s (find_rollout i s.rollouts) (abort_fleet_rollout i reason s)
unfolding abort_fleet_rollout
abort_fleet_rollout-Answered i reason s quiet =
    let row = find_rollout i s.rollouts in
    let q =
      λ (x : State). let a : Option RolloutRow × State = (find_rollout i x.rollouts, x) in a in
    subst
      (λ (x : Result (Option RolloutRow) × State).
        Answered i reason s row (follow x (abort_found i reason)))
      (sym (await-quiet q s quiet)) (abort_found-Answered i reason s row quiet refl)

abbrev pub IsSwept : ℕ → ℕ → RolloutRow → Type 0
IsSwept now grace_seconds r =
    (is_running r.status ≡ false) ⊎ (now ≤ r.started_at + grace_seconds * 1000)

sweep-IsSwept :
    (now grace_seconds : ℕ) (rows : List RolloutRow)
    → All
        (IsSwept now grace_seconds)
        (update_where (is_orphan now grace_seconds) (fail_orphan now) rows)
unfolding is_orphan
sweep-IsSwept now grace_seconds [] = tt
sweep-IsSwept now grace_seconds (r ∷ rows) = (ground arith, sweep-IsSwept now grace_seconds rows)

-- With no failing query: after the sweep at startup no running rollout is older than the grace period, which is sixty
-- seconds by default, and the sweep reports how many it failed.
pub orphans_failed :
    (grace : Option ℕ) (s : State)
    → s.schedule ≡ []
    → let (n, t) = mark_orphan_running_rollouts_failed grace s in
      (n ≡ ok (count (is_orphan s.clock (or_else grace 60)) s.rollouts))
      × All (IsSwept s.clock (or_else grace 60)) t.rollouts
unfolding mark_orphan_running_rollouts_failed
orphans_failed grace s quiet =
    let grace_seconds = or_else grace 60 in
    let q = λ (x : State).
      let orphan = is_orphan x.clock grace_seconds in
      let a : ℕ × State = (
        count orphan x.rollouts,
        record x { rollouts = update_where orphan (fail_orphan x.clock) x.rollouts },
      ) in
      a in
    subst
      (λ (x : Result ℕ × State).
        (x.0 ≡ ok (count (is_orphan s.clock grace_seconds) s.rollouts))
        × All (IsSwept s.clock grace_seconds) x.1.rollouts)
      (sym (await-quiet q s quiet)) (refl, sweep-IsSwept s.clock grace_seconds s.rollouts)
