-- ===== src/Activator/Watch.antt =====
-- The caches of Deployments and Endpoints, apps/activator/src/deployment-watch.ts: the handlers of
-- watch events, and the calls that read and fill the caches. What the API server answers is an
-- argument of the call; none is an exception. readyListeners is left out, since nothing registers a
-- listener.
pub mod Cache
pub mod Wait
pub mod Reconnect
mod Tests
use dnd_notes.Common.{
  ℕ, ◌+◌, String, Bool, true, false, ◌&&◌, ◌||◌, Option, none, some, List, [], ◌∷◌, ◌++◌, ◌==◌,
  if◌then◌else◌, same_codes, or_else,
}

-- The keys are texts: their code points.
pub record State : Type 0 where
  pub replica_cache : List (List ℕ × ℕ)
  pub ready_address_cache : List (List ℕ × ℕ)

unfoldable pub get : List ℕ → List (List ℕ × ℕ) → Option ℕ
get key [] = none
get key ((k, v) ∷ cache) = let rest = get key cache in if same_codes k key then some v else rest

unfoldable pub delete : List ℕ → List (List ℕ × ℕ) → List (List ℕ × ℕ)
delete key [] = []
delete key ((k, v) ∷ cache) =
    let rest = delete key cache in if same_codes k key then rest else (k, v) ∷ rest

-- Map.set: the order of a map is not used.
unfoldable pub set : List ℕ → ℕ → List (List ℕ × ℕ) → List (List ℕ × ℕ)
set key v cache = (key, v) ∷ delete key cache

abbrev pub resource_key : (namespace name : List ℕ) → List ℕ
resource_key namespace name = namespace ++ b'/' ∷ name

-- A missing name and the empty one are passed over.
abbrev pub key_of : (namespace name : List ℕ) → Option (List ℕ)
key_of [] name = none
key_of (c ∷ namespace) [] = none
key_of (c ∷ namespace) (d ∷ name) = some (resource_key (c ∷ namespace) (d ∷ name))

-- An event with what the object says: for a Deployment spec.replicas, for an Endpoints the number of
-- addresses of each subset. A missing name is the empty text.
pub record Event (A : Type 0) : Type 0 where
  pub type : String
  pub namespace : List ℕ
  pub name : List ℕ
  pub object : A

abbrev pub write : String → ℕ → Option (List ℕ) → List (List ℕ × ℕ) → List (List ℕ × ℕ)
write type v none cache = cache
write type v (some key) cache = if type == "DELETED" then delete key cache else set key v cache

unfoldable pub handle_deployment_event : Event (Option ℕ) → State → State
handle_deployment_event e s = record s {
  replica_cache = write e.type (or_else e.object 0) (key_of e.namespace e.name) s.replica_cache;
}

abbrev pub ready_count : List (Option ℕ) → ℕ
ready_count [] = 0
ready_count (addresses ∷ subsets) = or_else addresses 0 + ready_count subsets

unfoldable pub handle_endpoint_event : Event (List (Option ℕ)) → State → State
handle_endpoint_event e s = record s {
  ready_address_cache =
      write e.type (ready_count e.object) (key_of e.namespace e.name) s.ready_address_cache;
}

-- A read of a cache: the value, and whether the API server was asked. none is an exception.
abbrev pub Read : Type 0
Read = Option ℕ × Bool × State

abbrev pub replicas_of : List ℕ → Option (Option ℕ) → State → Read
replicas_of key none s = (none, true, s)
replicas_of key (some spec_replicas) s =
    let replicas = or_else spec_replicas 0 in
    (some replicas, true, record s { replica_cache = set key replicas s.replica_cache })

abbrev pub by_replica_cache : List ℕ → Option ℕ → Option (Option ℕ) → State → Read
by_replica_cache key (some cached) answer s = (some cached, false, s)
by_replica_cache key none answer s = replicas_of key answer s

unfoldable pub get_replicas : (namespace name : List ℕ) → Option (Option ℕ) → State → Read
get_replicas namespace name answer s =
    let key = resource_key namespace name in by_replica_cache key (get key s.replica_cache) answer s

abbrev pub addresses_of : List ℕ → Option (List (Option ℕ)) → State → Read
addresses_of key none s = (some 0, true, s)
addresses_of key (some subsets) s =
    let count = ready_count subsets in
    (some count, true, record s { ready_address_cache = set key count s.ready_address_cache })

abbrev pub by_address_cache : List ℕ → Option ℕ → Option (List (Option ℕ)) → State → Read
by_address_cache key (some cached) answer s = (some cached, false, s)
by_address_cache key none answer s = addresses_of key answer s

unfoldable pub get_ready_addresses :
    (namespace name : List ℕ) → Option (List (Option ℕ)) → State → Read
get_ready_addresses namespace name answer s =
    let key = resource_key namespace name in
    by_address_cache key (get key s.ready_address_cache) answer s

-- Whether the API server took the patch.
unfoldable pub patch_replicas :
    (namespace name : List ℕ) → ℕ → (is_taken : Bool) → State → Bool × State
patch_replicas namespace name replicas is_taken s =
    let key = resource_key namespace name in
    if is_taken
    then (true, record s { replica_cache = set key replicas s.replica_cache })
    else (false, s)
