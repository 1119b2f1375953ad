-- ===== src/ControlPlane/Rollout/Rows.antt =====
-- The status of a tenant's row and the presence of the rollout's row, through the updates.
use dnd_notes.Common.{
  String, Bool, true, ◌≡◌, refl, ap, ◌≢◌, Option, none, some, List, [], ◌∷◌, arith, ◌==◌, eq_iff,
  if◌then◌else◌, All, find-true, find-update_where, update_where, map_some,
}
use dnd_notes.Common.Prog.{ok}
use dnd_notes.ControlPlane.Rollout.Tables.{
  RolloutRow, TenantRow, TenantStatus, State, Turn, Event, quiet, fault, abort_request, meet,
  settle_from, settle, deliver, await, is_tenant_row, find_tenant_row, find_rollout,
}

-- The row of a tenant in a rollout has this status.
abbrev pub Has : String → List TenantRow → TenantStatus → String → Type 0
Has rollout_id rows status t =
    (r : TenantRow) × (find_tenant_row rollout_id t rows ≡ some r) × (r.status ≡ status)

abbrev pub KeepsIds : (TenantRow → TenantRow) → Type 0
KeepsIds f = (r : TenantRow) → ((f r).rollout_id ≡ r.rollout_id) × ((f r).tenant_id ≡ r.tenant_id)

module _ (i : String) (f : TenantRow → TenantRow) (ids : KeepsIds f) where
  find-update_row :
      (q : TenantRow → Bool) (u : String) (rows : List TenantRow)
      → find_tenant_row i u (update_where q f rows)
        ≡ map_some (λ x. if q x then f x else x) (find_tenant_row i u rows)
  find-update_row q u rows =
      find-update_where (is_tenant_row i u) q f rows (λ x. ground (arith, ids x))

  -- The row that an update picks takes the status that it writes.
  pub Has-update_self :
      (t : String) (rows : List TenantRow) (st new : TenantStatus) (q : TenantRow → Bool)
      → ((r : TenantRow) → is_tenant_row i t r ≡ true → r.status ≡ st → q r ≡ true)
      → ((r : TenantRow) → r.status ≡ st → (f r).status ≡ new)
      → Has i rows st t
      → Has i (update_where q f rows) new t
  Has-update_self t rows st new q picks writes (r, e, status) = (
    f r,
    ground
        (arith, find-update_row q t rows, picks r (find-true (is_tenant_row i t) rows r e) status),
    writes r status,
  )

  -- The row of another tenant keeps its status.
  pub Has-update_other :
      (t u : String) (rows : List TenantRow) (st : TenantStatus) (q : TenantRow → Bool)
      → ((r : TenantRow) → q r ≡ true → r.tenant_id ≡ t)
      → u ≢ t
      → Has i rows st u
      → Has i (update_where q f rows) st u
  Has-update_other t u rows st q only ne (r, e, status) = (
    r,
    ground (
      arith,
      find-update_row q u rows,
      find-true (is_tenant_row i u) rows r e,
      eq_iff r.tenant_id u,
      only r,
    ),
    status,
  )

abbrev pub HasRow : String → List RolloutRow → Type 0
HasRow i rollouts = (r : RolloutRow) × (find_rollout i rollouts ≡ some r)

pub HasRow-update :
    (i : String) (q : RolloutRow → Bool) (f : RolloutRow → RolloutRow) (rows : List RolloutRow)
    → ((r : RolloutRow) → (f r).id ≡ r.id)
    → HasRow i rows
    → HasRow i (update_where q f rows)
HasRow-update i q f rows ids (r, e) = (
  (if q r then f r else r),
  ground (arith, find-update_where (λ x. x.id == i) q f rows (λ x. ground (arith, ids x))),
)

-- No query of the schedule fails.
abbrev pub NoFault : Event → Type 0
NoFault (fault message) = ⊥
NoFault _ = Unit {0}

abbrev pub IsCalm : State → Type 0
IsCalm s = All (λ t. NoFault t.event) s.schedule

-- What awaiting a query in a calm schedule gives.
abbrev pub Settled : String → State → Option String × State → Type 0
Settled i s (o, t) =
    (o ≡ none)
    × IsCalm t
    × HasRow i t.rollouts
    × (t.rollout_tenants ≡ s.rollout_tenants)
    × (t.calls ≡ s.calls)

meet-Settled :
    (i : String) (e : Event) (s : State)
    → NoFault e
    → IsCalm s
    → HasRow i s.rollouts
    → Settled i s (meet e s)
meet-Settled i quiet s n c h = (refl, c, h, refl, refl)
meet-Settled i (fault m) s n c h = absurd n
meet-Settled i (abort_request j r) s n c h =
    (refl, c, HasRow-update i _ _ s.rollouts (λ x. refl) h, refl, refl)

pub settle-Settled :
    (i : String) (s : State) → IsCalm s → HasRow i s.rollouts → Settled i s (settle s)
unfolding settle
settle-Settled i s c h = by_schedule s.schedule c
  where
    by_schedule :
        (ts : List Turn)
        → All (λ t. NoFault t.event) ts
        → Settled i s (settle_from ts (record s { schedule = ts }))
    by_schedule [] k = (refl, k, h, refl, refl)
    by_schedule (t ∷ ts) (n, k) = meet-Settled i t.event _ n k h

abbrev pub Answers : {A : Type 0} → String → State → (State → A × State) → Type 0
Answers {A} i s q = (t : State) × (await q s ≡ (ok (q t).0, (q t).1)) × Settled i s (none, t)

-- An awaited query answers from a state that differs by time and abort requests alone.
pub await-Answers :
    {A : Type 0} (i : String) (q : State → A × State) (s : State)
    → IsCalm s
    → HasRow i s.rollouts
    → Answers i s q
unfolding await
await-Answers i q s c h =
    let r = settle-Settled i s c h in
    ((settle s).1, ground (arith, r.0), (refl, r.1, r.2, r.3, r.4))

pub deliver-none :
    {A : Type 0} (r : Option String × State) (q : State → A × State)
    → r.0 ≡ none
    → deliver r q ≡ (ok (q r.1).0, (q r.1).1)
deliver-none (none, s) q e = refl
deliver-none (some m, s) q e = cc

-- With an empty schedule a query just answers.
pub await-quiet :
    {A : Type 0} (q : State → A × State) (s : State)
    → s.schedule ≡ []
    → await q s ≡ (ok (q s).0, (q s).1)
unfolding await settle
await-quiet q s e = ap (λ ts. deliver (settle_from ts s) q) e
