-- ===== src/ControlPlane/Rollout/Skips.antt =====
-- markRemainingTenantsSkipped, in a schedule where no query fails.
use dnd_notes.Common.{
  String, ◌≡◌, refl, sym, ◌∙◌, subst, ◌≢◌, List, [], ◌∷◌, ◌++◌, arith, eq_iff, eq_refl, All,
  All-zip, Distinct,
}
use dnd_notes.Common.Prog.{Result, ok, follow-ok}
use dnd_notes.ControlPlane.Rollout.Tables.{TenantStatus, State}
use dnd_notes.ControlPlane.Rollout.Run.{slice_from, skip_one, skip_each}
use dnd_notes.ControlPlane.Rollout.Rows.{Has, HasRow, IsCalm}
use dnd_notes.ControlPlane.Rollout.Writes.{skip_one-Writes}

-- A run of skips: each tenant's row is skipped, and the rows of all others are as they were.
abbrev pub Skipped : String → List String → State → Result (Unit {0}) × State → Type 0
Skipped i ts s r =
    (r.0 ≡ ok tt)
    × IsCalm r.1
    × HasRow i r.1.rollouts
    × All (Has i r.1.rollout_tenants TenantStatus.skipped) ts
    × ((st : TenantStatus) (u : String)
        → All (λ v. v ≢ u) ts
        → Has i s.rollout_tenants st u
        → Has i r.1.rollout_tenants st u)
    × (r.1.calls ≡ s.calls)

pub skip_each-Skipped :
    (i reason : String) (ts : List String) (s : State)
    → IsCalm s
    → HasRow i s.rollouts
    → Distinct ts
    → All (Has i s.rollout_tenants TenantStatus.pending) ts
    → Skipped i ts s (skip_each i reason ts s)
unfolding skip_each
skip_each-Skipped i reason [] s calm there d h = (refl, calm, there, tt, (λ st u n k. k), refl)
skip_each-Skipped i reason (t ∷ ts) s calm there d h =
    let first = skip_one-Writes s calm i reason t there in
    let u = (skip_one i reason t s).1 in
    let left = All-zip (λ v ne k. first.4 TenantStatus.pending v ne k) ts d.0 h.1 in
    let rest = skip_each-Skipped i reason ts u first.1 first.2 d.1 left in
    let e = follow-ok (skip_one i reason t s) (λ _. skip_each i reason ts) tt first.0 in
    subst (Skipped i (t ∷ ts) s) (sym e) (
      rest.0,
      rest.1,
      rest.2,
      (rest.4 TenantStatus.skipped t d.0 (first.3 h.0), rest.3),
      (λ st v n k. rest.4 st v n.1 (first.4 st v (λ q. n.0 (sym q)) k)),
      rest.5 ∙ first.5,
    )

-- The slice from a tenant on, where the tenants before it are others.
pub slice_from-append :
    (t : String) (done rest : List String)
    → All (λ u. u ≢ t) done
    → slice_from t (done ++ t ∷ rest) ≡ t ∷ rest
unfolding slice_from
slice_from-append t [] rest n = ground (arith, eq_refl t)
slice_from-append t (u ∷ done) rest n =
    ground (arith, eq_iff u t, slice_from-append t done rest n.1)
