-- ===== src/Activator/Activity/Laws.antt =====
-- What waking a tenant may change in the registry.
use dnd_notes.Common.{
  String, true, ◌≡◌, refl, ◌≢◌, ◌⊎◌, inl, inr, Option, none, some, List, [], ◌∷◌, ◌++◌, arith, ◌==◌,
  find, find-update_where, any, Bool-cases,
}
use dnd_notes.Common.Prog.{ok}
use dnd_notes.Activator.Activity.{
  Tenant, Activity, Transition, State, query, cached, look_up, resolve_tenant_id, can_wake, woken,
  wake_transition, record_wake, wake_tenant, mark_resolved, mark_ready,
}

abbrev pub find_tenant : String → List Tenant → Option Tenant
find_tenant id = find (λ t. t.id == id)

-- The registry's rows.
abbrev rows : State → List Tenant × List Transition × List Activity
rows s = (s.tenants, s.transitions, s.activities)

-- The same row, or one that was asleep and not meant to go away, awake.
abbrev pub MayWake : Option Tenant → Option Tenant → Type 0
MayWake before after =
    (after ≡ before)
    ⊎ ((r : Tenant) × (before ≡ some r)
        × (r.current_state ≡ "sleeping")
        × (r.desired_state ≢ "deprovisioned")
        × (r.desired_state ≢ "failed")
        × (after ≡ some (woken r)))

-- What waking may do to the rows; `other` names the tenant that is looked at.
abbrev Wakes :
    String
    → List Tenant × List Transition × List Activity
    → List Tenant × List Transition × List Activity
    → Type 0
Wakes other (tenants, transitions, activities) (tenants', transitions', activities') =
    MayWake (find_tenant other tenants) (find_tenant other tenants')
    × ((transitions' ≡ transitions)
        ⊎ ((id : String) × (any (can_wake id) tenants ≡ true)
            × (transitions' ≡ transitions ++ wake_transition id ∷ [])))
    × (activities' ≡ activities)

any-find :
    (id : String) (ts : List Tenant) (r : Tenant)
    → find_tenant id ts ≡ some r
    → can_wake id r ≡ true
    → any (can_wake id) ts ≡ true
any-find id [] r e h = cc
any-find id (t ∷ ts) r e h = elim (Bool-cases (t.id == id)) [
  | inl same ↦ ground (arith, same, e, h)
  | inr other ↦ ground (arith, other, any-find id ts r (ground (arith, other, e)) h)
]

wake-found :
    (r : Tenant) (s : State)
    → s.faults ≡ []
    → find_tenant r.id s.tenants ≡ some r
    → can_wake r.id r ≡ true
    → let (o, t) = mark_resolved (some r.id) s in
      (o ≡ ok tt)
      × (find_tenant r.id t.tenants ≡ some (woken r))
      × (t.transitions ≡ s.transitions ++ wake_transition r.id ∷ [])
unfolding mark_resolved wake_tenant record_wake query
wake-found r s calm found wakes =
    let there = any-find r.id s.tenants r found wakes in
    let u = find-update_where (λ t. t.id == r.id) (can_wake r.id) woken s.tenants (λ t. refl) in
    (
      ground (arith, calm, there),
      ground (arith, calm, there, u, found, wakes),
      ground (arith, calm, there),
    )

-- Where no query fails and the subdomain is not cached yet, marking a tenant that is asleep and meant
-- to run as ready does it: its row is ready, and the transition is recorded.
pub mark_ready-wakes :
    (subdomain : String) (r : Tenant) (s : State)
    → s.faults ≡ []
    → cached subdomain s.cache ≡ none
    → find (λ t. t.subdomain == subdomain) s.tenants ≡ some r
    → find (λ t. t.id == r.id) s.tenants ≡ some r
    → can_wake r.id r ≡ true
    → let (o, t) = mark_ready subdomain s in
      (o ≡ ok tt)
      × (find (λ t. t.id == r.id) t.tenants ≡ some (woken r))
      × (t.transitions ≡ s.transitions ++ wake_transition r.id ∷ [])
unfolding mark_ready resolve_tenant_id look_up query
mark_ready-wakes subdomain r s calm uncached named found wakes =
    let k = wake-found r (record s { cache = (subdomain, r.id) ∷ s.cache }) calm found wakes in
    (
      ground (arith, calm, uncached, named, k),
      ground (arith, calm, uncached, named, k),
      ground (arith, calm, uncached, named, k),
    )
