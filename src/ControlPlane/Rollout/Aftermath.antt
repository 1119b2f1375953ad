-- ===== src/ControlPlane/Rollout/Aftermath.antt =====
-- What the catch and the finally of a rollout leave as the loop left it.
use dnd_notes.Common.{
  ℕ, Bool, true, false, ◌&&◌, ◌==◌, if◌then◌else◌, find-update_where, map_some, String, ◌≡◌, refl,
  sym, ◌∙◌, ap, subst, inl, inr, some, List, [], ◌∷◌, arith,
}
use dnd_notes.ControlPlane.Rollout.Tables.{
  RolloutStatus, RolloutRow, TenantRow, TenantStatus, ProvisionCall, State, Turn, Event, quiet,
  fault, abort_request, meet, settle_from, await, settle, is_running,
}
use dnd_notes.ControlPlane.Rollout.Run.{Params, release_client}
use dnd_notes.ControlPlane.Rollout.Rows.{Has}
use dnd_notes.ControlPlane.Rollout.Writes.{IsEnded}
use dnd_notes.ControlPlane.Rollout.Ending.{RowsAre, Ends}
use dnd_notes.ControlPlane.Rollout.Frame.{settle-keeps}

-- What follows the loop changes neither the tenants' rows nor the calls, and no ended rollout.
pub Ends-same :
    (p : Params) (before : List ProvisionCall) (s u : State)
    → u.rollout_tenants ≡ s.rollout_tenants
    → u.calls ≡ s.calls
    → ((st : RolloutStatus) → IsEnded p.rollout_id st s → IsEnded p.rollout_id st u)
    → Ends p before s
    → Ends p before u
Ends-same p before s u rows calls ended (inl c) = inl (record {
  provisioned = c.provisioned;
  succeeded =
      subst (λ x. RowsAre p.rollout_id x TenantStatus.succeeded p.tenant_ids) (sym rows)
        c.succeeded;
  ended = ended _ c.ended;
  calls = calls ∙ c.calls;
})
Ends-same p before s u rows calls ended (inr (inl f)) = inr (
    inl (record {
      done = f.done;
      at = f.at;
      left = f.left;
      message = f.message;
      split = f.split;
      provisioned = f.provisioned;
      refused = f.refused;
      succeeded =
          subst (λ x. RowsAre p.rollout_id x TenantStatus.succeeded f.done) (sym rows) f.succeeded;
      failed = subst (λ x. Has p.rollout_id x TenantStatus.failed f.at) (sym rows) f.failed;
      pending =
          subst (λ x. RowsAre p.rollout_id x TenantStatus.pending f.left) (sym rows) f.pending;
      ended = ended _ f.ended;
      calls = calls ∙ f.calls;
    }))
Ends-same p before s u rows calls ended (inr (inr a)) = inr (
    inr (record {
      done = a.done;
      at = a.at;
      left = a.left;
      split = a.split;
      provisioned = a.provisioned;
      succeeded =
          subst (λ x. RowsAre p.rollout_id x TenantStatus.succeeded a.done) (sym rows) a.succeeded;
      skipped =
          subst (λ x. RowsAre p.rollout_id x TenantStatus.skipped (a.at ∷ a.left)) (sym rows)
            a.skipped;
      ended = ended _ a.ended;
      calls = calls ∙ a.calls;
    }))

meet-IsEnded :
    (i : String) (st : RolloutStatus) (e : Event) (s : State)
    → IsEnded i st s
    → IsEnded i st (meet e s).1
meet-IsEnded i st quiet s h = h
meet-IsEnded i st (fault m) s h = h
meet-IsEnded i st (abort_request j m) s (r, found, status, ended) =
    let q = λ (x : RolloutRow). x.id == j && is_running x.status in
    let f = λ (x : RolloutRow). record x { abort_reason = some m } in
    (
      (if q r then f r else r),
      find-update_where (λ x. x.id == i) q f s.rollouts (λ x. refl)
          ∙ ap (map_some (λ x. if q x then f x else x)) found,
      (by_test (q r)).0,
      (by_test (q r)).1,
    )
  where
    by_test :
        (b : Bool)
        → ((if b then record r { abort_reason = some m } else r).status ≡ st)
          × ((now : ℕ) × ((if b then record r { abort_reason = some m } else r).ended_at
                ≡ some now))
    by_test true = (status, ended)
    by_test false = (status, ended)

settle-IsEnded :
    (i : String) (st : RolloutStatus) (s : State) → IsEnded i st s → IsEnded i st (settle s).1
unfolding settle
settle-IsEnded i st s h = by_schedule s.schedule
  where
    by_schedule : (ts : List Turn) → IsEnded i st (settle_from ts s).1
    by_schedule [] = h
    by_schedule (t ∷ ts) = meet-IsEnded i st t.event _ h

abbrev tenant_side : State → List TenantRow × List ProvisionCall
tenant_side s = (s.rollout_tenants, s.calls)

pub release-same :
    (p : Params) (s : State)
    → let u = (release_client p s).1 in
      (u.rollout_tenants ≡ s.rollout_tenants)
      × (u.calls ≡ s.calls)
      × ((st : RolloutStatus) → IsEnded p.rollout_id st s → IsEnded p.rollout_id st u)
unfolding release_client await
release-same p s =
    let kept = settle-keeps tenant_side (λ x c ts rs. refl) s in
    (
      ground (arith, kept),
      ground (arith, kept),
      (λ st h. let k = settle-IsEnded p.rollout_id st s h in (k.0, ground (arith, k.1), k.2, k.3)),
    )
