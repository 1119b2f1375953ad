-- ===== src/ControlPlane/Rollout/Release.antt =====
-- The `finally` of runRollout: what becomes of the advisory lock and of the connection.
use dnd_notes.Common.{
  ℕ, ◌-◌, String, ◌≡◌, refl, sym, ap, ◌∙◌, subst, ◌⊎◌, inl, inr, Option-cases, Option, none, some,
  List, [], ◌∷◌, arith,
}
use dnd_notes.Common.Prog.{ok, Prog, ◌>>=◌, try_catch-ok, follow-ok, Result, pure}
use dnd_notes.ControlPlane.Rollout.Tables.{State, RolloutRow, RolloutStatus, await, settle, unlock}
use dnd_notes.ControlPlane.Rollout.Run.{
  Params, finalize_rollout, skip_one, skip_each, slice_from, mark_remaining_tenants_skipped,
  mark_started, mark_failed, mark_succeeded, provision_tenant, select_rollout, stop_aborted,
  stop_failed, after_provision, provision_one, after_flag, after_check, run_tenants,
  on_unexpected_error, guarded_run, release_client, run_rollout,
}
use dnd_notes.ControlPlane.Rollout.Frame.{
  IsApart, Keeps, settle-keeps, await-Keeps, bind-Keeps, try_catch-Keeps,
}

-- The lock and the connections that are checked out.
abbrev held : State → List ℕ × ℕ
held s = (s.lock_holds, s.checked_out)

held-IsApart : IsApart held
held-IsApart s c ts rs = refl

finalize-Keeps :
    (i : String) (st : RolloutStatus) (t e : Option String) → Keeps held (finalize_rollout i st t e)
unfolding finalize_rollout
finalize-Keeps i st t e = await-Keeps held _ held-IsApart (λ s. refl)

mark_started-Keeps : (p : Params) (t : String) → Keeps held (mark_started p t)
unfolding mark_started
mark_started-Keeps p t = await-Keeps held _ held-IsApart (λ s. refl)

mark_failed-Keeps : (p : Params) (t m : String) → Keeps held (mark_failed p t m)
unfolding mark_failed
mark_failed-Keeps p t m = await-Keeps held _ held-IsApart (λ s. refl)

mark_succeeded-Keeps : (p : Params) (t : String) → Keeps held (mark_succeeded p t)
unfolding mark_succeeded
mark_succeeded-Keeps p t = await-Keeps held _ held-IsApart (λ s. refl)

select_rollout-Keeps : (i : String) → Keeps held (select_rollout i)
unfolding select_rollout
select_rollout-Keeps i = await-Keeps held _ held-IsApart (λ s. refl)

provision_tenant-Keeps : (p : Params) (t : String) → Keeps held (provision_tenant p t)
unfolding provision_tenant
provision_tenant-Keeps p t s = refl

skip_one-Keeps : (i r t : String) → Keeps held (skip_one i r t)
unfolding skip_one
skip_one-Keeps i r t = await-Keeps held _ held-IsApart (λ s. refl)

skip_each-Keeps : (i r : String) (ts : List String) → Keeps held (skip_each i r ts)
unfolding skip_each
skip_each-Keeps i r [] = λ s. refl
skip_each-Keeps i r (t ∷ ts) =
    bind-Keeps held _ _ (skip_one-Keeps i r t) (λ _. skip_each-Keeps i r ts)

stop_aborted-Keeps : (p : Params) (t : String) → Keeps held (stop_aborted p t)
unfolding stop_aborted mark_remaining_tenants_skipped
stop_aborted-Keeps p t =
    bind-Keeps held _ _ (skip_each-Keeps p.rollout_id "aborted" (slice_from t p.tenant_ids))
      (λ _. finalize-Keeps p.rollout_id _ none none)

stop_failed-Keeps : (p : Params) (t m : String) → Keeps held (stop_failed p t m)
unfolding stop_failed
stop_failed-Keeps p t m s =
    bind-Keeps held (mark_failed p t m) _ (mark_failed-Keeps p t m)
      (λ _. bind-Keeps held _ _ (finalize-Keeps p.rollout_id _ (some t) (some m)) (λ _ s. refl)) s

module _ (p : Params) (t : String) (loop : Prog State (Unit {0})) (h : Keeps held loop) where
  after_provision-Keeps : (o : Option String) → Keeps held (after_provision p t loop o)
  unfolding after_provision
  after_provision-Keeps (some m) = stop_failed-Keeps p t m
  after_provision-Keeps none = bind-Keeps held _ _ (mark_succeeded-Keeps p t) (λ _ s. h _)

  provision_one-Keeps : Keeps held (provision_one p t loop)
  unfolding provision_one
  provision_one-Keeps =
      bind-Keeps held (mark_started p t) (λ _. provision_tenant p t >>= after_provision p t loop)
        (mark_started-Keeps p t)
        (λ _.
          bind-Keeps held (provision_tenant p t) (after_provision p t loop)
            (provision_tenant-Keeps p t) after_provision-Keeps)

  after_flag-Keeps : (flag : Option String) → Keeps held (after_flag p t loop flag)
  unfolding after_flag
  after_flag-Keeps (some r) = stop_aborted-Keeps p t
  after_flag-Keeps none = λ s. provision_one-Keeps (record s { current_tenant_id = some t })

  after_check-Keeps : (row : Option RolloutRow) → Keeps held (after_check p t loop row)
  unfolding after_check
  after_check-Keeps none = λ s. refl
  after_check-Keeps (some row) = after_flag-Keeps row.abort_reason

run_tenants-Keeps : (p : Params) (ts : List String) → Keeps held (run_tenants p ts)
unfolding run_tenants
run_tenants-Keeps p [] = finalize-Keeps p.rollout_id _ none none
run_tenants-Keeps p (t ∷ ts) =
    bind-Keeps held _ _ (select_rollout-Keeps p.rollout_id)
      (after_check-Keeps p t (run_tenants p ts) (run_tenants-Keeps p ts))

on_unexpected_error-Keeps : (p : Params) (m : String) → Keeps held (on_unexpected_error p m)
unfolding on_unexpected_error
on_unexpected_error-Keeps p m =
    try_catch-Keeps held _ _ (λ s. finalize-Keeps p.rollout_id _ s.current_tenant_id (some m) s)
      (λ _ s. refl)

guarded_run-Keeps : (p : Params) → Keeps held (guarded_run p)
unfolding guarded_run
guarded_run-Keeps p =
    try_catch-Keeps held _ _ (run_tenants-Keeps p p.tenant_ids) (on_unexpected_error-Keeps p)

on_unexpected_error-ok :
    (p : Params) (m : String) (s : State) → (on_unexpected_error p m s).0 ≡ ok tt
unfolding on_unexpected_error
on_unexpected_error-ok p m s =
    try_catch-ok
      (λ t. finalize_rollout p.rollout_id RolloutStatus.failed t.current_tenant_id (some m) t)
      (λ _. pure tt) (λ e t. refl) s

pub guarded_run-ok : (p : Params) (s : State) → (guarded_run p s).0 ≡ ok tt
unfolding guarded_run
guarded_run-ok p s =
    try_catch-ok (run_tenants p p.tenant_ids) (on_unexpected_error p) (on_unexpected_error-ok p) s

-- The lock after the `finally`: given back if its query went through, and as it was if it failed.
abbrev pub IsReleased : ℕ → List ℕ → Option String → State → Type 0
IsReleased session holds outcome s =
    ((outcome ≡ none) × (s.lock_holds ≡ unlock session holds))
    ⊎ ((message : String) × (outcome ≡ some message) × (s.lock_holds ≡ holds))

release_client-IsReleased :
    (p : Params) (s : State)
    → let (r, t) = release_client p s in
      (r ≡ ok tt)
      × (t.checked_out ≡ s.checked_out - 1)
      × IsReleased p.session s.lock_holds (settle s).0 t
unfolding release_client await
release_client-IsReleased p s =
    let k = settle-keeps held held-IsApart s in
    elim (Option-cases (settle s).0) [
      | inl e ↦ (ground (arith, e), ground (arith, e, k), inl (e, ground (arith, e, k)))
      | inr (m, e) ↦ (ground (arith, e), ground (arith, e, k), inr (m, e, ground (arith, e, k)))
    ]

-- Whatever the queries do, however provisioning ends and whenever an abort is requested: the task
-- never throws and gives its connection back exactly once; it gives the lock back, unless the
-- unlocking query itself fails, which leaves the lock as it was.
pub run_rollout-IsReleased :
    (p : Params) (s : State)
    → let (r, t) = run_rollout p s in
      let g = (guarded_run p (record s { current_tenant_id = none })).1 in
      (r ≡ ok tt)
      × (t.checked_out ≡ s.checked_out - 1)
      × IsReleased p.session s.lock_holds (settle g).0 t
unfolding run_rollout
run_rollout-IsReleased p s =
    let u : State = record s { current_tenant_id = none } in
    let g = guarded_run p u in
    let (done, out, lock) = release_client-IsReleased p g.1 in
    let kept = guarded_run-Keeps p u in
    subst
      (λ (x : Result (Unit {0}) × State).
        (x.0 ≡ ok tt)
        × (x.1.checked_out ≡ s.checked_out - 1)
        × IsReleased p.session s.lock_holds (settle g.1).0 x.1)
      (sym (follow-ok g (λ _. release_client p) tt (guarded_run-ok p u)))
      (
        done,
        out ∙ ap (λ (h : List ℕ × ℕ). h.1 - 1) kept,
        subst (λ h. IsReleased p.session h (settle g.1).0 (release_client p g.1).1)
            (ap (λ (h : List ℕ × ℕ). h.0) kept) lock,
      )
