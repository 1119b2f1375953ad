-- ===== src/ControlPlane/Rollout/Stops.antt =====
-- The steps of the loop of runRollout, each from the state that the one before it leaves.
use mathlib.Core.List.{map-append}
use dnd_notes.Common.{
  String, ◌≡◌, refl, sym, ◌∙◌, ap, subst, ◌≢◌, inl, inr, none, some, List, [], ◌∷◌, ◌++◌, map,
  append_assoc, append-nil, All, All-zip, All-append, Distinct, Distinct-middle, Distinct-append,
}
use dnd_notes.Common.Prog.{ok, follow, follow-ok}
use dnd_notes.ControlPlane.Rollout.Tables.{RolloutStatus, TenantStatus, ProvisionCall, State}
use dnd_notes.ControlPlane.Rollout.Run.{
  Params, finalize_rollout, slice_from, skip_each, mark_remaining_tenants_skipped, mark_started,
  mark_failed, mark_succeeded, set_current, provision_call, provision_tenant, stop_aborted,
  stop_failed,
}
use dnd_notes.ControlPlane.Rollout.Rows.{Has}
use dnd_notes.ControlPlane.Rollout.Writes.{
  finalize-IsEnded, mark_started-Writes, mark_failed-Writes, mark_succeeded-Writes,
}
use dnd_notes.ControlPlane.Rollout.Skips.{skip_each-Skipped, slice_from-append}
use dnd_notes.ControlPlane.Rollout.Ending.{RowsAre, Provisioned, AtHead, UnderWay, Finishes}

pub complete :
    (p : Params) (before : List ProvisionCall) (done : List String) (s : State)
    → AtHead p before s done []
    → Finishes p before (finalize_rollout p.rollout_id RolloutStatus.completed none none s)
complete p before done s h =
    let (e, ended, rows, calls) =
      finalize-IsEnded p.rollout_id RolloutStatus.completed none none s h.calm h.there in
    let all = h.split ∙ append-nil done in
    (
      e,
      inl (record {
        provisioned = subst (Provisioned p before s) (sym all) h.provisioned;
        succeeded = subst (RowsAre p.rollout_id _ TenantStatus.succeeded) (sym all) (
            subst (λ x. RowsAre p.rollout_id x TenantStatus.succeeded done) (sym rows) h.succeeded);
        ended = ended;
        calls = calls ∙ h.calls ∙ ap (λ ts. before ++ map (provision_call p) ts) (sym all);
      }),
    )

module _ (p : Params) (before : List ProvisionCall) (distinct : Distinct p.tenant_ids)
    (done : List String) (t : String) (left : List String) (s : State) where
  -- What the distinct identifiers give at the head of the loop.
  apart :
      p.tenant_ids ≡ done ++ t ∷ left
      → All (λ u. u ≢ t) done
        × All (λ u. u ≢ t) left
        × Distinct (t ∷ left)
        × All (λ u. All (λ v. v ≢ u) (t ∷ left)) done
  apart split =
      let d = subst Distinct split distinct in
      let (before_t, after_t) = Distinct-middle done t left d in
      let (tail_distinct, frame) = Distinct-append done (t ∷ left) d in
      (before_t, after_t, tail_distinct, frame)

  pub abort : AtHead p before s done (t ∷ left) → Finishes p before (stop_aborted p t s)
  unfolding stop_aborted mark_remaining_tenants_skipped
  abort h =
      let i = p.rollout_id in
      let (before_t, after_t, tail_distinct, frame) = apart h.split in
      let slice = ap (slice_from t) h.split ∙ slice_from-append t done left before_t in
      let skips =
        skip_each-Skipped i "aborted" (t ∷ left) s h.calm h.there tail_distinct h.pending in
      let u = (skip_each i "aborted" (t ∷ left) s).1 in
      let (e, ended, rows, calls) =
        finalize-IsEnded i RolloutStatus.aborted none none u skips.1 skips.2 in
      let keeps =
        λ (status : TenantStatus) (ts : List String) (k : RowsAre i u.rollout_tenants status ts).
          subst (λ x. RowsAre i x status ts) (sym rows) k in
      let finish : Finishes p before (finalize_rollout i RolloutStatus.aborted none none u) = (
        e,
        inr (
            inr (record {
              done = done;
              at = t;
              left = left;
              split = h.split;
              provisioned = h.provisioned;
              succeeded =
                  keeps TenantStatus.succeeded done (
                    All-zip (λ v n k. skips.4 TenantStatus.succeeded v n k) done frame h.succeeded);
              skipped = keeps TenantStatus.skipped (t ∷ left) skips.3;
              ended = ended;
              calls = calls ∙ skips.5 ∙ h.calls;
            })),
      ) in
      subst
        (λ ts. Finishes p before (
          follow (skip_each i "aborted" ts s)
            (λ _. finalize_rollout i RolloutStatus.aborted none none)))
        (sym slice)
        (subst (Finishes p before)
          (sym (
            follow-ok (skip_each i "aborted" (t ∷ left) s)
              (λ _. finalize_rollout i RolloutStatus.aborted none none) tt skips.0))
          finish)

  pub fail :
      (message : String)
      → UnderWay p before s done t left
      → p.provision t ≡ some message
      → Finishes p before (stop_failed p t message s)
  unfolding stop_failed
  fail message h refused =
      let i = p.rollout_id in
      let (before_t, after_t, _, _) = apart h.split in
      let mark = mark_failed-Writes s h.calm p t message h.there in
      let u = (mark_failed p t message s).1 in
      let (e, ended, rows, calls) =
        finalize-IsEnded i RolloutStatus.failed (some t) (some message) u mark.1 mark.2 in
      let keeps =
        λ (status : TenantStatus) (ts : List String) (n : All (λ v. v ≢ t) ts)
            (k : RowsAre i s.rollout_tenants status ts).
          subst (λ x. RowsAre i x status ts) (sym rows)
            (All-zip (λ v ne j. mark.4 status v ne j) ts n k) in
      let tail = λ (_ : Unit {0}) (x : State).
        follow (finalize_rollout i RolloutStatus.failed (some t) (some message) x)
          (λ _. set_current none) in
      subst (Finishes p before)
        (sym (
          follow-ok (mark_failed p t message s) tail tt mark.0
          ∙ follow-ok (finalize_rollout i RolloutStatus.failed (some t) (some message) u)
              (λ _. set_current none) tt e))
        (
          refl,
          inr (
              inl (record {
                done = done;
                at = t;
                left = left;
                message = message;
                split = h.split;
                provisioned = h.provisioned;
                refused = refused;
                succeeded = keeps TenantStatus.succeeded done before_t h.succeeded;
                failed = subst (λ x. Has i x TenantStatus.failed t) (sym rows) (mark.3 h.pending.0);
                pending = keeps TenantStatus.pending left after_t h.pending.1;
                ended = ended;
                calls = calls ∙ mark.5 ∙ h.calls;
              })),
        )

  -- A success leads to the head of the loop with one more tenant done.
  pub advance :
      UnderWay p before s done t left
      → p.provision t ≡ none
      → let r = mark_succeeded p t s in
        (r.0 ≡ ok tt)
        × AtHead p before (record r.1 { current_tenant_id = none }) (done ++ t ∷ []) left
  advance h passed =
      let i = p.rollout_id in
      let (before_t, after_t, _, _) = apart h.split in
      let mark = mark_succeeded-Writes s h.calm p t h.there in
      let keeps =
        λ (status : TenantStatus) (ts : List String) (n : All (λ v. v ≢ t) ts)
            (k : RowsAre i s.rollout_tenants status ts).
          All-zip (λ v ne j. mark.4 status v ne j) ts n k in
      (
        mark.0,
        record {
          split = h.split ∙ sym (append_assoc done (t ∷ []) left);
          calm = mark.1;
          there = mark.2;
          provisioned =
              All-append (λ v. p.provision v ≡ none) done (t ∷ []) h.provisioned (passed, tt);
          succeeded =
              All-append (Has i _ TenantStatus.succeeded) done (t ∷ [])
                (keeps TenantStatus.succeeded done before_t h.succeeded) (mark.3 h.pending.0, tt);
          pending = keeps TenantStatus.pending left after_t h.pending.1;
          calls = mark.5 ∙ h.calls;
        },
      )

  -- The start of a tenant, and its call.
  pub start :
      AtHead p before s done (t ∷ left)
      → let r = mark_started p t (record s { current_tenant_id = some t }) in
        (r.0 ≡ ok tt) × UnderWay p before (provision_tenant p t r.1).1 done t left
  unfolding provision_tenant
  start h =
      let i = p.rollout_id in
      let (before_t, after_t, _, _) = apart h.split in
      let mark = mark_started-Writes (record s { current_tenant_id = some t }) h.calm p t h.there in
      let keeps =
        λ (status : TenantStatus) (ts : List String) (n : All (λ v. v ≢ t) ts)
            (k : RowsAre i s.rollout_tenants status ts).
          All-zip (λ v ne j. mark.4 status v ne j) ts n k in
      (
        mark.0,
        record {
          split = h.split;
          calm = mark.1;
          there = mark.2;
          provisioned = h.provisioned;
          succeeded = keeps TenantStatus.succeeded done before_t h.succeeded;
          pending = (mark.3 h.pending.0, keeps TenantStatus.pending left after_t h.pending.1);
          calls =
              ap (λ cs. cs ++ provision_call p t ∷ []) (mark.5 ∙ h.calls)
              ∙ append_assoc before _ _
              ∙ ap (λ cs. before ++ cs) (sym (map-append (provision_call p) done (t ∷ [])));
        },
      )
