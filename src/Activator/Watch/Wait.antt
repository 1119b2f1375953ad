-- ===== src/Activator/Watch/Wait.antt =====
-- waitForReadyEndpoint, apps/activator/src/deployment-watch.ts. `outside` says for each round what
-- the API server answers, what the watch and other calls do to the caches at each await, and how
-- long the round's calls take. delay() sleeps for the poll interval; a longer sleep counts as time of
-- the calls. The two reads of the clock at the start of a round have no await between them, and see
-- one time. Fuel bounds the rounds.
pub mod Laws
use dnd_notes.Common.{
  zero, ℕ, suc, ◌+◌, ◌-◌, ◌*◌, ◌/◌, ◌≤◌, ◌<◌, String, Bool, true, false, ◌&&◌, ◌||◌, not, ◌≡◌, refl,
  sym, ap, ◌∙◌, subst, ◌⊎◌, inl, inr, Option, none, some, List, [], ◌∷◌, any, ◌==◌, ◌=ℕ◌, ltb, leb,
  leb→le, ltb→lt, if◌then◌else◌, codes, same_codes, or_else, is_some, arith, tests, Bool-cases,
}
use dnd_notes.Activator.Watch.{State, get, set, resource_key, ready_count}

pub record Pod : Type 0 where
  pub phase : Option String
  pub instance_label : Option (List ℕ)
  pub app_label : Option (List ℕ)
  pub tenant_id_label : Option (List ℕ)

pub record Round : Type 0 where
  pub pods : Option (List Pod)
  pub endpoints : Option (List (Option ℕ))
  pub while_listing : State → State
  pub while_reading : State → State
  pub while_asleep : State → State
  pub took : ℕ

pub record Options : Type 0 where
  pub poll_interval : ℕ
  pub pod_schedule_budget : ℕ
  pub timeout : ℕ

-- The caches, the time since the call, and the calls of onScheduleDeadlineExceeded.
pub record Waiting : Type 0 where
  pub caches : State
  pub elapsed : ℕ
  pub emitted : ℕ

abbrev pub is_label : Option (List ℕ) → List ℕ → Bool
is_label none text = false
is_label (some label) text = same_codes label text

abbrev pub is_pending : (deployment : List ℕ) → Pod → Bool
is_pending deployment pod =
    or_else pod.phase "" == "Pending"
    && (is_label pod.instance_label deployment
        || is_label pod.app_label deployment
        || is_some pod.tenant_id_label)

abbrev pub inspect : (deployment : List ℕ) → Option (List Pod) → ℕ → ℕ
inspect deployment none emitted = emitted
inspect deployment (some pods) emitted =
    if any (is_pending deployment) pods then suc emitted else emitted

-- scheduleDeadlineEmitted holds once the callback has run.
unfoldable pub check_pods : Options → (deployment : List ℕ) → Round → Waiting → Waiting
check_pods o deployment r w =
    if w.emitted =ℕ 0 && ltb o.pod_schedule_budget w.elapsed
    then record w {
      emitted = inspect deployment r.pods w.emitted;
      caches = r.while_listing w.caches;
    }
    else w

abbrev pub is_ready : Option ℕ → Bool
is_ready none = false
is_ready (some count) = leb 1 count

abbrev pub read_endpoints : (key : List ℕ) → Option (List (Option ℕ)) → Waiting → Bool × Waiting
read_endpoints key none w = (false, w)
read_endpoints key (some subsets) w = (
  leb 1 (ready_count subsets),
  record w {
    caches = record w.caches {
      ready_address_cache = set key (ready_count subsets) w.caches.ready_address_cache;
    };
  },
)

-- A round up to its delay: whether it returns true.
unfoldable pub check : Options → (key deployment : List ℕ) → Round → Waiting → Bool × Waiting
check o key deployment r w =
    let checked = check_pods o deployment r w in
    if is_ready (get key checked.caches.ready_address_cache)
    then (true, checked)
    else read_endpoints key r.endpoints (record checked { caches = r.while_reading checked.caches })

unfoldable pub rest_of_round : Options → Round → Waiting → Waiting
rest_of_round o r w = record w {
  caches = r.while_asleep w.caches;
  elapsed = w.elapsed + r.took + o.poll_interval;
}

unfoldable pub poll_until :
    (fuel : ℕ)
    → Options
    → (key deployment : List ℕ) → (round : ℕ) → (outside : ℕ → Round) → Waiting
    → Option (Bool × Waiting)
poll_until zero o key deployment i outside w = none
poll_until (suc fuel) o key deployment i outside w =
    let (found, checked) = check o key deployment (outside i) w in
    let rest =
      poll_until fuel o key deployment (suc i) outside (rest_of_round o (outside i) checked) in
    if ltb w.elapsed o.timeout
    then if found then some (true, checked) else rest
    else some (false, w)

unfoldable pub wait_for_ready_endpoint :
    (fuel : ℕ)
    → Options
    → (namespace service deployment : List ℕ) → (outside : ℕ → Round) → State
    → Option (Bool × Waiting)
wait_for_ready_endpoint fuel o namespace service deployment outside caches =
    poll_until fuel o (resource_key namespace service) deployment 0 outside
      (record { caches = caches; elapsed = 0; emitted = 0 })
