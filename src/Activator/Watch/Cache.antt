-- ===== src/Activator/Watch/Cache.antt =====
-- The caches hold what the latest events say.
use dnd_notes.Common.{
  ℕ, String, Bool, true, false, ◌&&◌, ◌≡◌, refl, ap, ◌∙◌, inl, inr, Option, none, some, List, [],
  ◌∷◌, ◌==◌, ◌=ℕ◌, =ℕ_iff, if◌then◌else◌, same_codes, same_codes_iff, or_else, arith, Bool-cases,
  All,
}
use dnd_notes.Activator.Watch.{
  State, get, delete, set, resource_key, key_of, Event, write, handle_deployment_event, ready_count,
  handle_endpoint_event,
}

-- A text without a slash.
abbrev pub is_plain : List ℕ → Bool
is_plain [] = true
is_plain (c ∷ text) = if c =ℕ b'/' then false else is_plain text

resource_key_unique :
    (namespace name namespace' name' : List ℕ)
    → is_plain namespace ≡ true
    → is_plain namespace' ≡ true
    → resource_key namespace name ≡ resource_key namespace' name'
    → (namespace ≡ namespace') × (name ≡ name')
resource_key_unique [] name [] name' p p' e = ground (arith, e)
resource_key_unique [] name (d ∷ namespace') name' p p' e =
    absurd (ground (arith, e, p', =ℕ_iff d b'/'))
resource_key_unique (c ∷ namespace) name [] name' p p' e =
    absurd (ground (arith, e, p, =ℕ_iff c b'/'))
resource_key_unique (c ∷ namespace) name (d ∷ namespace') name' p p' e =
    let (same, rest) =
      resource_key_unique namespace name namespace' name' (ground (arith, p)) (ground (arith, p'))
        (ground (arith, e)) in
    ground (arith, e, same, rest)

same-resource_key :
    (namespace name namespace' name' : List ℕ)
    → is_plain namespace ≡ true
    → is_plain namespace' ≡ true
    → same_codes (resource_key namespace name) (resource_key namespace' name')
      ≡ (same_codes namespace namespace' && same_codes name name')
same-resource_key [] name [] name' p p' = ground (arith, =ℕ_iff b'/' b'/')
same-resource_key [] name (d ∷ namespace') name' p p' =
    ground (arith, p', =ℕ_iff d b'/', =ℕ_iff b'/' d)
same-resource_key (c ∷ namespace) name [] name' p p' = ground (arith, p, =ℕ_iff c b'/')
same-resource_key (c ∷ namespace) name (d ∷ namespace') name' p p' = ground (
  arith,
  p,
  p',
  same-resource_key namespace name namespace' name' (ground (arith, p)) (ground (arith, p')),
)

get-delete :
    (key other : List ℕ) (cache : List (List ℕ × ℕ))
    → get key (delete other cache) ≡ (if same_codes other key then none else get key cache)
unfolding get delete
get-delete key other [] = ground (arith)
get-delete key other ((k, v) ∷ cache) = elim (Bool-cases (same_codes k other)) [
  | inl gone ↦
      let is : k ≡ other = (same_codes_iff k other).0 gone in
      ground (arith, gone, get-delete key other cache, ap (λ l. same_codes l key) is)
  | inr stays ↦ elim (Bool-cases (same_codes k key)) [
    | inl found ↦ ground (
      arith,
      stays,
      found,
      same_codes_iff other key,
      same_codes_iff k key,
      same_codes_iff k other,
    )
    | inr passed ↦ ground (arith, stays, passed, get-delete key other cache)
  ]
]

get-write :
    (type : String) (v : ℕ) (key k : List ℕ) (cache : List (List ℕ × ℕ))
    → get key (write type v (some k) cache)
      ≡ (if same_codes k key then if type == "DELETED" then none else some v else get key cache)
unfolding get set
get-write type v key k cache = elim (Bool-cases (type == "DELETED")) [
  | inl deleted ↦ ground (arith, deleted, get-delete key k cache)
  | inr kept ↦ ground (arith, kept, get-delete key k cache)
]

-- What the latest event of an object says; the list has the latest event first.
abbrev pub latest : {A : Type 0} → (A → ℕ) → (namespace name : List ℕ) → List (Event A) → Option ℕ
latest value namespace name [] = none
latest value namespace name (e ∷ earlier) =
    let before = latest value namespace name earlier in
    if same_codes e.namespace namespace && same_codes e.name name
    then if e.type == "DELETED" then none else some (value e.object)
    else before

abbrev pub fold_events : {A : Type 0} → (Event A → State → State) → List (Event A) → State → State
fold_events handle [] s = s
fold_events handle (e ∷ earlier) s = handle e (fold_events handle earlier s)

-- A write under the key of one object, seen by a read under the key of another.
get-key_of :
    (type : String) (v c d : ℕ) (namespace name of_namespace of_name : List ℕ)
    (cache : List (List ℕ × ℕ))
    → is_plain (c ∷ namespace) ≡ true
    → is_plain of_namespace ≡ true
    → get
        (resource_key (c ∷ namespace) (d ∷ name))
        (write type v (key_of of_namespace of_name) cache)
      ≡ (if same_codes of_namespace (c ∷ namespace) && same_codes of_name (d ∷ name)
          then if type == "DELETED" then none else some v
          else get (resource_key (c ∷ namespace) (d ∷ name)) cache)
get-key_of type v c d namespace name [] of_name cache p q = refl
get-key_of type v c d namespace name (a ∷ of_namespace) [] cache p q =
    elim (Bool-cases (same_codes (a ∷ of_namespace) (c ∷ namespace))) [
      | inl same ↦ ground (arith, same)
      | inr other ↦ ground (arith, other)
    ]
get-key_of type v c d namespace name (a ∷ of_namespace) (b ∷ of_name) cache p q =
    get-write type v (resource_key (c ∷ namespace) (d ∷ name))
      (resource_key (a ∷ of_namespace) (b ∷ of_name)) cache
    ∙ ap
        (λ same.
          if same
          then if type == "DELETED" then none else some v
          else get (resource_key (c ∷ namespace) (d ∷ name)) cache)
        (same-resource_key (a ∷ of_namespace) (b ∷ of_name) (c ∷ namespace) (d ∷ name) q p)

abbrev IsPlain : {A : Type 0} → Event A → Type 0
IsPlain e = is_plain e.namespace ≡ true

fold_deployments-latest :
    (c d : ℕ) (namespace name : List ℕ) (events : List (Event (Option ℕ)))
    (addresses : List (List ℕ × ℕ))
    → is_plain (c ∷ namespace) ≡ true
    → All IsPlain events
    → get
        (resource_key (c ∷ namespace) (d ∷ name))
        (fold_events handle_deployment_event events
          (record { replica_cache = []; ready_address_cache = addresses })).replica_cache
      ≡ latest (λ o. or_else o 0) (c ∷ namespace) (d ∷ name) events
unfolding handle_deployment_event get
fold_deployments-latest c d namespace name [] addresses p q = refl
fold_deployments-latest c d namespace name (e ∷ events) addresses p (here, earlier) =
    get-key_of e.type (or_else e.object 0) c d namespace name e.namespace e.name _ p here
    ∙ ap
        (λ before.
          if same_codes e.namespace (c ∷ namespace) && same_codes e.name (d ∷ name)
          then if e.type == "DELETED" then none else some (or_else e.object 0)
          else before)
        (fold_deployments-latest c d namespace name events addresses p earlier)

fold_endpoints-latest :
    (c d : ℕ) (namespace name : List ℕ) (events : List (Event (List (Option ℕ))))
    (replicas : List (List ℕ × ℕ))
    → is_plain (c ∷ namespace) ≡ true
    → All IsPlain events
    → get
        (resource_key (c ∷ namespace) (d ∷ name))
        (fold_events handle_endpoint_event events
          (record { replica_cache = replicas; ready_address_cache = [] })).ready_address_cache
      ≡ latest ready_count (c ∷ namespace) (d ∷ name) events
unfolding handle_endpoint_event get
fold_endpoints-latest c d namespace name [] replicas p q = refl
fold_endpoints-latest c d namespace name (e ∷ events) replicas p (here, earlier) =
    get-key_of e.type (ready_count e.object) c d namespace name e.namespace e.name _ p here
    ∙ ap
        (λ before.
          if same_codes e.namespace (c ∷ namespace) && same_codes e.name (d ∷ name)
          then if e.type == "DELETED" then none else some (ready_count e.object)
          else before)
        (fold_endpoints-latest c d namespace name events replicas p earlier)

-- The caches refine the history of the two watches: after any events whose namespaces have no slash,
-- from empty caches, the entry of an object is what its latest event says. It has none when there
-- was no event or the latest was a deletion; else a Deployment has its spec.replicas or 0, and an
-- Endpoints the number of addresses in its subsets.
pub caches-latest :
    (c d : ℕ) (namespace name : List ℕ) (deployments : List (Event (Option ℕ)))
    (endpoints : List (Event (List (Option ℕ))))
    → is_plain (c ∷ namespace) ≡ true
    → All IsPlain deployments
    → All IsPlain endpoints
    → let empty : State = record { replica_cache = []; ready_address_cache = [] } in
      let key = resource_key (c ∷ namespace) (d ∷ name) in
      (get key (fold_events handle_deployment_event deployments empty).replica_cache
        ≡ latest (λ o. or_else o 0) (c ∷ namespace) (d ∷ name) deployments)
      × (get key (fold_events handle_endpoint_event endpoints empty).ready_address_cache
          ≡ latest ready_count (c ∷ namespace) (d ∷ name) endpoints)
caches-latest c d namespace name deployments endpoints p q q' = (
  fold_deployments-latest c d namespace name deployments [] p q,
  fold_endpoints-latest c d namespace name endpoints [] p q',
)
