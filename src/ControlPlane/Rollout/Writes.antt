-- ===== src/ControlPlane/Rollout/Writes.antt =====
-- What each update of runRollout does to the rows, in a schedule where no query fails.
use dnd_notes.Common.{
  ℕ, String, Bool, true, ◌≡◌, refl, sym, subst, ◌≢◌, Option, some, List, arith, ◌==◌, eq_iff,
  update_where, coalesce, find-true, find-update_where,
}
use dnd_notes.Common.Prog.{Result, ok, Prog}
use dnd_notes.ControlPlane.Rollout.Tables.{
  RolloutStatus, RolloutRow, TenantRow, TenantStatus, ProvisionCall, State, await, await_update,
  settle, is_tenant_row, find_rollout,
}
use dnd_notes.ControlPlane.Rollout.Run.{
  Params, finalize_rollout, skip_one, mark_started, mark_failed, mark_succeeded,
}
use dnd_notes.ControlPlane.Rollout.Rows.{
  Has, KeepsIds, Has-update_self, Has-update_other, HasRow, IsCalm, settle-Settled,
}

-- The rollout's row has ended with this status.
abbrev pub IsEnded : String → RolloutStatus → State → Type 0
IsEnded i status s =
    (r : RolloutRow) × (find_rollout i s.rollouts ≡ some r)
    × (r.status ≡ status)
    × ((now : ℕ) × (r.ended_at ≡ some now))

-- An update has run: it answered, the schedule is still calm and the rollout's row still there,
-- and these are the tenant rows and the provisioning calls.
abbrev pub Updated :
    String → Result (Unit {0}) × State → List TenantRow → List ProvisionCall → Type 0
Updated i r rows calls =
    (r.0 ≡ ok tt)
    × IsCalm r.1
    × HasRow i r.1.rollouts
    × (r.1.rollout_tenants ≡ rows)
    × (r.1.calls ≡ calls)

abbrev write_rows : (ℕ → List TenantRow → List TenantRow) → Prog State (Unit {0})
write_rows f = await_update (λ s. record s { rollout_tenants = f s.clock s.rollout_tenants })

write_rows-Updated :
    (i : String) (f : ℕ → List TenantRow → List TenantRow) (s : State)
    → IsCalm s
    → HasRow i s.rollouts
    → (now : ℕ) × Updated i (write_rows f s) (f now s.rollout_tenants) s.calls
unfolding await
write_rows-Updated i f s calm there =
    let r = settle-Settled i s calm there in
    (
      (settle s).1.clock,
      (
        ground (arith, r.0),
        ground (arith, r.0, r.1),
        (r.2.0, ground (arith, r.0, r.2.1)),
        ground (arith, r.0, r.3),
        ground (arith, r.0, r.4),
      ),
    )

pub finalize-IsEnded :
    (i : String) (st : RolloutStatus) (t e : Option String) (s : State)
    → IsCalm s
    → HasRow i s.rollouts
    → let r = finalize_rollout i st t e s in
      (r.0 ≡ ok tt)
      × IsEnded i st r.1
      × (r.1.rollout_tenants ≡ s.rollout_tenants)
      × (r.1.calls ≡ s.calls)
unfolding finalize_rollout await
finalize-IsEnded i st t e s calm there =
    let r = settle-Settled i s calm there in
    let u = (settle s).1 in
    let close = λ (x : RolloutRow). record x {
      status = st;
      ended_at = some u.clock;
      failed_tenant = coalesce t x.failed_tenant;
      failed_error = coalesce e x.failed_error;
    } in
    (
      ground (arith, r.0),
      (
        close r.2.0,
        ground (
          arith,
          r.0,
          r.2.1,
          find-true (λ x. x.id == i) u.rollouts r.2.0 r.2.1,
          find-update_where (λ x. x.id == i) (λ x. x.id == i) close u.rollouts (λ x. refl),
        ),
        refl,
        (u.clock, refl),
      ),
      ground (arith, r.0, r.3),
      ground (arith, r.0, r.4),
    )

-- A write to the row of `t`: its status goes from `old` to `new`, all other rows keep theirs.
abbrev pub Writes :
    String → String → TenantStatus → TenantStatus → State → Result (Unit {0}) × State → Type 0
Writes i t old new s r =
    (r.0 ≡ ok tt)
    × IsCalm r.1
    × HasRow i r.1.rollouts
    × (Has i s.rollout_tenants old t → Has i r.1.rollout_tenants new t)
    × ((st : TenantStatus) (u : String)
        → u ≢ t
        → Has i s.rollout_tenants st u
        → Has i r.1.rollout_tenants st u)
    × (r.1.calls ≡ s.calls)

write_row-Writes :
    (i t : String) (old new : TenantStatus) (q : TenantRow → Bool) (f : ℕ → TenantRow → TenantRow)
    (s : State)
    → ((now : ℕ) → KeepsIds (f now))
    → ((r : TenantRow) → is_tenant_row i t r ≡ true → r.status ≡ old → q r ≡ true)
    → ((now : ℕ) (r : TenantRow) → r.status ≡ old → (f now r).status ≡ new)
    → ((r : TenantRow) → q r ≡ true → r.tenant_id ≡ t)
    → IsCalm s
    → HasRow i s.rollouts
    → Writes i t old new s (write_rows (λ now. update_where q (f now)) s)
write_row-Writes i t old new q f s ids picks writes only calm there =
    let (now, (e, c, k, rows, calls)) =
      write_rows-Updated i (λ now. update_where q (f now)) s calm there in
    (
      e,
      c,
      k,
      (λ h.
          subst (λ x. Has i x new t) (sym rows)
            (Has-update_self i (f now) (ids now) t s.rollout_tenants old new q picks (writes now)
              h)),
      (λ st u ne h.
          subst (λ x. Has i x st u) (sym rows)
            (Has-update_other i (f now) (ids now) t u s.rollout_tenants st q only ne h)),
      calls,
    )

is_row_tenant : (i t : String) (r : TenantRow) → is_tenant_row i t r ≡ true → r.tenant_id ≡ t
is_row_tenant i t r e = ground (arith, eq_iff r.tenant_id t)

module _ (s : State) (calm : IsCalm s) where
  pub skip_one-Writes :
      (i reason t : String)
      → HasRow i s.rollouts
      → Writes i t TenantStatus.pending TenantStatus.skipped s (skip_one i reason t s)
  unfolding skip_one
  skip_one-Writes i reason t =
      write_row-Writes i t TenantStatus.pending TenantStatus.skipped _ _ s (λ now r. (refl, refl))
        (λ r e p. ground arith) (λ now r p. refl) (λ r e. ground (arith, is_row_tenant i t r)) calm

  pub mark_started-Writes :
      (p : Params) (t : String)
      → HasRow p.rollout_id s.rollouts
      → Writes p.rollout_id t TenantStatus.pending TenantStatus.pending s (mark_started p t s)
  unfolding mark_started
  mark_started-Writes p t =
      write_row-Writes p.rollout_id t TenantStatus.pending TenantStatus.pending _ _ s
        (λ now r. (refl, refl)) (λ r e h. e) (λ now r h. h) (is_row_tenant p.rollout_id t) calm

  pub mark_failed-Writes :
      (p : Params) (t m : String)
      → HasRow p.rollout_id s.rollouts
      → Writes p.rollout_id t TenantStatus.pending TenantStatus.failed s (mark_failed p t m s)
  unfolding mark_failed
  mark_failed-Writes p t m =
      write_row-Writes p.rollout_id t TenantStatus.pending TenantStatus.failed _ _ s
        (λ now r. (refl, refl)) (λ r e h. e) (λ now r h. refl) (is_row_tenant p.rollout_id t) calm

  pub mark_succeeded-Writes :
      (p : Params) (t : String)
      → HasRow p.rollout_id s.rollouts
      → Writes p.rollout_id t TenantStatus.pending TenantStatus.succeeded s (mark_succeeded p t s)
  unfolding mark_succeeded
  mark_succeeded-Writes p t =
      write_row-Writes p.rollout_id t TenantStatus.pending TenantStatus.succeeded _ _ s
        (λ now r. (refl, refl)) (λ r e h. e) (λ now r h. refl) (is_row_tenant p.rollout_id t) calm
