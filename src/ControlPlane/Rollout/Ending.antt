-- ===== src/ControlPlane/Rollout/Ending.antt =====
-- The three ways in which a rollout ends, and the states of its loop.
use dnd_notes.Common.{String, ◌≡◌, ◌⊎◌, none, some, List, [], ◌∷◌, ◌++◌, map, All}
use dnd_notes.Common.Prog.{Result, ok}
use dnd_notes.ControlPlane.Rollout.Tables.{
  RolloutStatus, TenantRow, TenantStatus, ProvisionCall, State,
}
use dnd_notes.ControlPlane.Rollout.Run.{Params, provision_call}
use dnd_notes.ControlPlane.Rollout.Rows.{Has, HasRow, IsCalm}
use dnd_notes.ControlPlane.Rollout.Writes.{IsEnded}

abbrev pub RowsAre : String → List TenantRow → TenantStatus → List String → Type 0
RowsAre i rows status = All (Has i rows status)

-- `before` are the provisioning calls made before the rollout, `s` is the state it leaves.
module _ (p : Params) (before : List ProvisionCall) (s : State) where
  abbrev pub Rows : TenantStatus → List String → Type 0
  Rows status = RowsAre p.rollout_id s.rollout_tenants status

  abbrev pub Provisioned : List String → Type 0
  Provisioned = All (λ t. p.provision t ≡ none)

  -- Every tenant was provisioned, in order.
  pub record Completed : Type 0 where
    pub provisioned : Provisioned p.tenant_ids
    pub succeeded : Rows TenantStatus.succeeded p.tenant_ids
    pub ended : IsEnded p.rollout_id RolloutStatus.completed s
    pub calls : s.calls ≡ before ++ map (provision_call p) p.tenant_ids

  -- Provisioning `at` failed: the rollout stopped there, and the tenants after it are pending.
  pub record Failed : Type 0 where
    pub done : List String
    pub at : String
    pub left : List String
    pub message : String
    pub split : p.tenant_ids ≡ done ++ at ∷ left
    pub provisioned : Provisioned done
    pub refused : p.provision at ≡ some message
    pub succeeded : Rows TenantStatus.succeeded done
    pub failed : Has p.rollout_id s.rollout_tenants TenantStatus.failed at
    pub pending : Rows TenantStatus.pending left
    pub ended : IsEnded p.rollout_id RolloutStatus.failed s
    pub calls : s.calls ≡ before ++ map (provision_call p) (done ++ at ∷ [])

  -- An abort was read before `at`: it and all tenants after it are skipped.
  pub record Aborted : Type 0 where
    pub done : List String
    pub at : String
    pub left : List String
    pub split : p.tenant_ids ≡ done ++ at ∷ left
    pub provisioned : Provisioned done
    pub succeeded : Rows TenantStatus.succeeded done
    pub skipped : Rows TenantStatus.skipped (at ∷ left)
    pub ended : IsEnded p.rollout_id RolloutStatus.aborted s
    pub calls : s.calls ≡ before ++ map (provision_call p) done

  abbrev pub Ends : Type 0
  Ends = Completed ⊎ Failed ⊎ Aborted

  -- The state at the head of the loop, with `done` behind it and `rest` to come.
  pub record AtHead (done rest : List String) : Type 0 where
    pub split : p.tenant_ids ≡ done ++ rest
    pub calm : IsCalm s
    pub there : HasRow p.rollout_id s.rollouts
    pub provisioned : Provisioned done
    pub succeeded : Rows TenantStatus.succeeded done
    pub pending : Rows TenantStatus.pending rest
    pub calls : s.calls ≡ before ++ map (provision_call p) done

  -- The state while `t` is provisioned: its call is on record.
  pub record UnderWay (done : List String) (t : String) (left : List String) : Type 0 where
    pub split : p.tenant_ids ≡ done ++ t ∷ left
    pub calm : IsCalm s
    pub there : HasRow p.rollout_id s.rollouts
    pub provisioned : Provisioned done
    pub succeeded : Rows TenantStatus.succeeded done
    pub pending : Rows TenantStatus.pending (t ∷ left)
    pub calls : s.calls ≡ before ++ map (provision_call p) (done ++ t ∷ [])

abbrev pub Finishes : Params → List ProvisionCall → Result (Unit {0}) × State → Type 0
Finishes p before r = (r.0 ≡ ok tt) × Ends p before r.1
