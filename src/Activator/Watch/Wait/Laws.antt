-- ===== src/Activator/Watch/Wait/Laws.antt =====
-- The wait ends, and what it answers.
use dnd_notes.Common.{
  zero, either, either_by, ℕ, suc, ◌+◌, ◌*◌, ◌≤◌, Bool, true, false, ◌&&◌, ◌≡◌, refl, ap, ◌∙◌,
  subst, ◌⊎◌, inl, inr, Option, none, some, List, any, ◌=ℕ◌, =ℕ_iff, ltb, leb, ltb→lt, lt→ltb,
  same_codes_iff, arith, Bool-cases,
}
use dnd_notes.Activator.Watch.{State, get, set, resource_key, ready_count}
use dnd_notes.Activator.Watch.Wait.{
  Pod, Round, Options, Waiting, is_pending, inspect, check_pods, is_ready, read_endpoints, check,
  rest_of_round, poll_until, wait_for_ready_endpoint,
}

check_pods-elapsed :
    (o : Options) (deployment : List ℕ) (r : Round) (w : Waiting)
    → (check_pods o deployment r w).elapsed ≡ w.elapsed
unfolding check_pods
check_pods-elapsed o deployment r w =
    either (λ (v : Waiting). v.elapsed ≡ w.elapsed)
      (w.emitted =ℕ 0 && ltb o.pod_schedule_budget w.elapsed) _ _ refl refl

read_endpoints-elapsed :
    (key : List ℕ) (answer : Option (List (Option ℕ))) (w : Waiting)
    → (read_endpoints key answer w).1.elapsed ≡ w.elapsed
read_endpoints-elapsed key none w = refl
read_endpoints-elapsed key (some subsets) w = refl

check-elapsed :
    (o : Options) (key deployment : List ℕ) (r : Round) (w : Waiting)
    → (check o key deployment r w).1.elapsed ≡ w.elapsed
unfolding check
check-elapsed o key deployment r w =
    either (λ (v : Bool × Waiting). v.1.elapsed ≡ w.elapsed) _ _ _
      (check_pods-elapsed o deployment r w)
      (read_endpoints-elapsed key r.endpoints _ ∙ check_pods-elapsed o deployment r w)

Ends : Option (Bool × Waiting) → Type 0
Ends answer = (end : Bool × Waiting) × (answer ≡ some end)

poll_until-Ends :
    (fuel : ℕ) (o : Options) (key deployment : List ℕ) (i : ℕ) (outside : ℕ → Round) (w : Waiting)
    → o.timeout ≤ w.elapsed + fuel * o.poll_interval
    → Ends (poll_until (suc fuel) o key deployment i outside w)
unfolding poll_until Ends rest_of_round
poll_until-Ends zero o key deployment i outside w h =
    either_by Ends (ltb w.elapsed o.timeout) _ _
      (λ early. absurd (omega (arith, ltb→lt w.elapsed o.timeout early)))
      (λ late. ((false, w), refl))
poll_until-Ends (suc fuel) o key deployment i outside w h =
    let checked = check o key deployment (outside i) w in
    either Ends (ltb w.elapsed o.timeout) _ _
      (either Ends checked.0 _ _ ((true, checked.1), refl)
        (poll_until-Ends fuel o key deployment (suc i) outside
          (rest_of_round o (outside i) checked.1)
          (omega (arith, check-elapsed o key deployment (outside i) w, h))))
      ((false, w), refl)

-- The wait comes to an end, whatever happens outside: when the poll interval is not 0, one round
-- more than the timeout has poll intervals is enough.
pub wait_for_ready_endpoint-Ends :
    (k : ℕ) (o : Options) (namespace service deployment : List ℕ) (outside : ℕ → Round)
    (caches : State)
    → o.timeout ≤ k * o.poll_interval
    → (end : Bool × Waiting) × (wait_for_ready_endpoint
          (suc k)
          o
          namespace
          service
          deployment
          outside
          caches
        ≡ some end)
unfolding wait_for_ready_endpoint Ends
wait_for_ready_endpoint-Ends k o namespace service deployment outside caches h =
    poll_until-Ends k o (resource_key namespace service) deployment 0 outside
      (record { caches = caches; elapsed = 0; emitted = 0 }) (omega (arith, h))

get-set : (key : List ℕ) (v : ℕ) (cache : List (List ℕ × ℕ)) → get key (set key v cache) ≡ some v
unfolding get set
get-set key v cache = ground (arith, same_codes_iff key key)

HasEndpoint : (key : List ℕ) → Bool × Waiting → Type 0
HasEndpoint key (found, w) =
    (found ≡ false) ⊎ (is_ready (get key w.caches.ready_address_cache) ≡ true)

read_endpoints-HasEndpoint :
    (key : List ℕ) (answer : Option (List (Option ℕ))) (w : Waiting)
    → HasEndpoint key (read_endpoints key answer w)
unfolding HasEndpoint
read_endpoints-HasEndpoint key none w = inl refl
read_endpoints-HasEndpoint key (some subsets) w = elim (Bool-cases (leb 1 (ready_count subsets))) [
  | inl up ↦ inr (ap is_ready (get-set key (ready_count subsets) w.caches.ready_address_cache) ∙ up)
  | inr down ↦ inl down
]

check-HasEndpoint :
    (o : Options) (key deployment : List ℕ) (r : Round) (w : Waiting)
    → HasEndpoint key (check o key deployment r w)
unfolding check HasEndpoint
check-HasEndpoint o key deployment r w =
    either_by (HasEndpoint key) _ _ _ (λ cached. inr cached)
      (λ _. read_endpoints-HasEndpoint key r.endpoints _)

inspect-le :
    (deployment : List ℕ) (pods : Option (List Pod)) (n : ℕ) → inspect deployment pods n ≤ suc n
inspect-le deployment none n = omega arith
inspect-le deployment (some pods) n =
    either (λ m. m ≤ suc n) (any (is_pending deployment) pods) _ _ (omega arith) (omega arith)

check_pods-emitted :
    (o : Options) (deployment : List ℕ) (r : Round) (w : Waiting)
    → w.emitted ≤ 1
    → (check_pods o deployment r w).emitted ≤ 1
unfolding check_pods
check_pods-emitted o deployment r w h =
    either_by (λ (v : Waiting). v.emitted ≤ 1)
      (w.emitted =ℕ 0 && ltb o.pod_schedule_budget w.elapsed) _ _
      (λ due. ground (arith, due, =ℕ_iff w.emitted 0, inspect-le deployment r.pods w.emitted))
      (λ _. h)

read_endpoints-emitted :
    (key : List ℕ) (answer : Option (List (Option ℕ))) (w : Waiting)
    → w.emitted ≤ 1
    → (read_endpoints key answer w).1.emitted ≤ 1
read_endpoints-emitted key none w h = h
read_endpoints-emitted key (some subsets) w h = h

check-emitted :
    (o : Options) (key deployment : List ℕ) (r : Round) (w : Waiting)
    → w.emitted ≤ 1
    → (check o key deployment r w).1.emitted ≤ 1
unfolding check
check-emitted o key deployment r w h =
    either (λ (v : Bool × Waiting). v.1.emitted ≤ 1) _ _ _ (check_pods-emitted o deployment r w h)
      (read_endpoints-emitted key r.endpoints
        (record (check_pods o deployment r w) {
          caches = r.while_reading (check_pods o deployment r w).caches;
        })
        (check_pods-emitted o deployment r w h))

-- What an answer stands for.
Tells : Options → (key : List ℕ) → Option (Bool × Waiting) → Type 0
Tells o key none = Unit
Tells o key (some (found, w)) =
    (((found ≡ true) × (is_ready (get key w.caches.ready_address_cache) ≡ true))
      ⊎ ((found ≡ false) × (o.timeout ≤ w.elapsed)))
    × (w.emitted ≤ 1)

poll_until-Tells :
    (fuel : ℕ) (o : Options) (key deployment : List ℕ) (i : ℕ) (outside : ℕ → Round) (w : Waiting)
    → w.emitted ≤ 1
    → Tells o key (poll_until fuel o key deployment i outside w)
unfolding poll_until Tells rest_of_round HasEndpoint
poll_until-Tells zero o key deployment i outside w h = tt
poll_until-Tells (suc fuel) o key deployment i outside w h =
    let checked = check o key deployment (outside i) w in
    let once = check-emitted o key deployment (outside i) w h in
    either_by (Tells o key) (ltb w.elapsed o.timeout) _ _
      (λ early.
        either_by (Tells o key) checked.0 _ _
          (λ found. elim (check-HasEndpoint o key deployment (outside i) w) [
            | inl not_found ↦ absurd (ground (arith, found, not_found))
            | inr has ↦ (inl (refl, has), once)
          ])
          (λ _.
            poll_until-Tells fuel o key deployment (suc i) outside
              (rest_of_round o (outside i) checked.1) once))
      (λ late. (inr (refl, ground (arith, late, lt→ltb w.elapsed o.timeout)), h))

-- An answer true leaves a ready address in the cache for the service; an answer false comes only when
-- the timeout has passed; and the scheduling callback has run at most once.
pub wait_for_ready_endpoint-tells :
    (fuel : ℕ) (o : Options) (namespace service deployment : List ℕ) (outside : ℕ → Round)
    (caches : State) (found : Bool) (w : Waiting)
    → wait_for_ready_endpoint fuel o namespace service deployment outside caches ≡ some (found, w)
    → (((found ≡ true)
          × (is_ready (get (resource_key namespace service) w.caches.ready_address_cache) ≡ true))
        ⊎ ((found ≡ false) × (o.timeout ≤ w.elapsed)))
      × (w.emitted ≤ 1)
unfolding wait_for_ready_endpoint Tells
wait_for_ready_endpoint-tells fuel o namespace service deployment outside caches found w e =
    subst (Tells o (resource_key namespace service)) e (
      poll_until-Tells fuel o (resource_key namespace service) deployment 0 outside
        (record { caches = caches; elapsed = 0; emitted = 0 }) (omega arith))
