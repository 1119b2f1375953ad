-- ===== src/ControlPlane/Rollout/Outcome.antt =====
-- Where a rollout ends: which tenants were provisioned, and the rows that are left behind.
use dnd_notes.Common.{
  String, ◌≡◌, refl, sym, ◌∙◌, ap, subst, Option, none, some, List, [], ◌∷◌, ◌++◌, append-nil,
  Distinct,
}
use dnd_notes.Common.Prog.{Result, ok, follow-ok, recover-ok}
use dnd_notes.ControlPlane.Rollout.Tables.{
  RolloutRow, TenantStatus, ProvisionCall, State, await, settle, find_rollout,
}
use dnd_notes.ControlPlane.Rollout.Run.{
  Params, mark_started, mark_succeeded, provision_call, provision_tenant, select_rollout,
  after_provision, provision_one, after_flag, after_check, run_tenants, on_unexpected_error,
  guarded_run, release_client, run_rollout,
}
use dnd_notes.ControlPlane.Rollout.Rows.{HasRow, IsCalm, settle-Settled, deliver-none}
use dnd_notes.ControlPlane.Rollout.Ending.{RowsAre, Ends, AtHead, UnderWay, Finishes}
use dnd_notes.ControlPlane.Rollout.Stops.{complete, abort, fail, advance, start}
use dnd_notes.ControlPlane.Rollout.Aftermath.{Ends-same, release-same}
use dnd_notes.ControlPlane.Rollout.Release.{guarded_run-ok}

select-AtHead :
    (p : Params) (before : List ProvisionCall) (done rest : List String) (s : State)
    → AtHead p before s done rest
    → let r = select_rollout p.rollout_id s in
      ((row : RolloutRow) × (r.0 ≡ ok (some row))) × AtHead p before r.1 done rest
unfolding select_rollout await
select-AtHead p before done rest s h =
    let i = p.rollout_id in
    let k = settle-Settled i s h.calm h.there in
    let u = (settle s).1 in
    subst
      (λ (r : Result (Option RolloutRow) × State).
        ((row : RolloutRow) × (r.0 ≡ ok (some row))) × AtHead p before r.1 done rest)
      (sym (deliver-none (settle s) (λ x. (find_rollout i x.rollouts, x)) k.0))
      (
        (k.2.0, ap ok k.2.1),
        record {
          split = h.split;
          calm = k.1;
          there = k.2;
          provisioned = h.provisioned;
          succeeded = subst (λ x. RowsAre i x TenantStatus.succeeded done) (sym k.3) h.succeeded;
          pending = subst (λ x. RowsAre i x TenantStatus.pending rest) (sym k.3) h.pending;
          calls = k.4 ∙ h.calls;
        },
      )

module _ (p : Params) (before : List ProvisionCall) (distinct : Distinct p.tenant_ids)
    (done : List String) (t : String) (left : List String)
    (ih : (s : State)
      → AtHead p before s (done ++ t ∷ []) left
      → Finishes p before (run_tenants p left s)) where
  provision-Finishes :
      (o : Option String) (s : State)
      → UnderWay p before s done t left
      → p.provision t ≡ o
      → Finishes p before (after_provision p t (run_tenants p left) o s)
  unfolding after_provision
  provision-Finishes (some message) s h e = fail p before distinct done t left s message h e
  provision-Finishes none s h e =
      let next = advance p before distinct done t left s h e in
      let tail =
        λ (_ : Unit {0}) (x : State). run_tenants p left (record x { current_tenant_id = none }) in
      subst (Finishes p before) (sym (follow-ok (mark_succeeded p t s) tail tt next.0))
        (ih _ next.1)

  flag-Finishes :
      (flag : Option String) (s : State)
      → AtHead p before s done (t ∷ left)
      → Finishes p before (after_flag p t (run_tenants p left) flag s)
  unfolding after_flag provision_one provision_tenant
  flag-Finishes (some r) s h = abort p before distinct done t left s h
  flag-Finishes none s h =
      let first = start p before distinct done t left s h in
      let u : State = record s { current_tenant_id = some t } in
      let tail = λ (_ : Unit {0}) (x : State).
        after_provision p t (run_tenants p left) (p.provision t)
          (record x { calls = x.calls ++ provision_call p t ∷ [] }) in
      subst (Finishes p before) (sym (follow-ok (mark_started p t u) tail tt first.0))
        (provision-Finishes (p.provision t) _ first.1 refl)

run_tenants-Finishes :
    (p : Params) (before : List ProvisionCall)
    → Distinct p.tenant_ids
    → (done rest : List String) (s : State) → AtHead p before s done rest
    → Finishes p before (run_tenants p rest s)
unfolding run_tenants after_check
run_tenants-Finishes p before d done [] s h = complete p before done s h
run_tenants-Finishes p before d done (t ∷ left) s h =
    let ih = run_tenants-Finishes p before d (done ++ t ∷ []) left in
    let sel = select-AtHead p before done (t ∷ left) s h in
    let row = sel.0.0 in
    subst (Finishes p before)
      (sym (
        follow-ok (select_rollout p.rollout_id s) (after_check p t (run_tenants p left)) (some row)
          sel.0.1))
      (flag-Finishes p before d done t left ih row.abort_reason _ sel.1)

-- What a rollout starts from.
pub record IsReady (p : Params) (s : State) : Type 0 where
  pub distinct : Distinct p.tenant_ids
  pub calm : IsCalm s
  pub there : HasRow p.rollout_id s.rollouts
  pub pending : RowsAre p.rollout_id s.rollout_tenants TenantStatus.pending p.tenant_ids

guarded_run-Ends : (p : Params) (s : State) → IsReady p s → Ends p s.calls (guarded_run p s).1
unfolding guarded_run
guarded_run-Ends p s h =
    let r = run_tenants p p.tenant_ids s in
    let e = run_tenants-Finishes p s.calls h.distinct [] p.tenant_ids s (record {
      split = refl;
      calm = h.calm;
      there = h.there;
      provisioned = tt;
      succeeded = tt;
      pending = h.pending;
      calls = sym (append-nil s.calls);
    }) in
    subst (λ (x : Result (Unit {0}) × State). Ends p s.calls x.1)
      (sym (recover-ok r (on_unexpected_error p) tt e.0)) e.1

-- From pending rows of distinct tenants, in a schedule where no query fails, a rollout ends in one
-- of three ways whenever an abort is requested and whatever provisioning answers. Completed: all
-- tenants were provisioned in order and succeeded. Failed: provisioning failed at one tenant; those
-- before it succeeded, its row is failed, those after it are pending and were not provisioned.
-- Aborted: the tenants before the stop succeeded, all others are skipped and were not provisioned.
-- The rollout's row has the status that belongs to the case, and an end time.
pub run_rollout-Ends : (p : Params) (s : State) → IsReady p s → Ends p s.calls (run_rollout p s).1
unfolding run_rollout
run_rollout-Ends p s h =
    let u : State = record s { current_tenant_id = none } in
    let g = guarded_run p u in
    let (rows, calls, ended) = release-same p g.1 in
    subst (λ (x : Result (Unit {0}) × State). Ends p s.calls x.1)
      (sym (follow-ok g (λ _. release_client p) tt (guarded_run-ok p u)))
      (Ends-same p s.calls g.1 _ rows calls ended (
        guarded_run-Ends p u
          (record { distinct = h.distinct; calm = h.calm; there = h.there; pending = h.pending })))
