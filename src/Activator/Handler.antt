-- ===== src/Activator/Handler.antt =====
-- The wake-on-request handler, apps/activator/src/request-handler.ts. A request arrives, and is
-- answered or held; a held request resumes by its wake or by the grace timer; a wake goes on in the
-- background. What the cluster, the registry and the proxy answer comes with each step. `calls` has
-- the calls to them and the metrics, the newest first. Log lines and the histogram of
-- cold starts are left out.
pub mod Flow
mod Cases
pub mod OneAnswer
mod Coalescing
pub mod OneWake
mod Evidence
pub mod Warrant
mod Tests
use dnd_notes.Common.{
  ℕ, ◌+◌, ◌-◌, String, Bool, true, false, ◌&&◌, ◌||◌, Option, none, some, List, [], ◌∷◌, ◌++◌, map,
  any, ◌==◌, leb, if◌then◌else◌, codes, same_codes,
}
use dnd_notes.Activator.Resolver.{TenantCoordinates, resolve}
use dnd_notes.Activator.RequestKind.{Request, includes, is_navigation_request}

pub record Config : Type 0 where
  pub base_domain : List ℕ
  pub tenant_port : List ℕ
  pub warming_retry_after : String
  pub metrics_content_type : String
  pub has_font : Bool

pub record HttpRequest : Type 0 where
  pub url : Option String
  pub host : Option (List ℕ)
  pub kind : Request

pub data Body : Type 0 where
  text : String → Body
  metrics : Body
  font : Body
  empty : Body
  wake_status : (is_ready : Bool) → Body
  interstitial : Body
  problem : (error : String) → Body

pub record Response : Type 0 where
  pub status : ℕ
  pub headers : List (String × String)
  pub body : Body

-- What a client gets: a response of the handler, the tenant's, or the part of the tenant's that was
-- sent when the proxy threw.
pub data Answer : Type 0 where
  responded : Response → Answer
  proxied : (namespace : List ℕ) → Answer
  cut_off : (namespace : List ℕ) → Answer

pub data Call : Type 0 where
  saw_replicas : (namespace : List ℕ) → (replicas : ℕ) → Call
  patch_replicas : (namespace : List ℕ) → Call
  wait_for_endpoint : (namespace : List ℕ) → Call
  saw_endpoint : (namespace : List ℕ) → Call
  record_activity : (subdomain : List ℕ) → Call
  mark_ready : (subdomain : List ℕ) → Call
  proxy_request : (namespace url : List ℕ) → Call
  counted : (metric : String) → (subdomain : List ℕ) → Call
  counted_error : (reason : String) → (subdomain : List ℕ) → Call

-- A wake of wakeInProgress, by its key, and what it awaits.
pub data Phase : Type 0 where
  patching : Phase
  waiting : Phase

pub record Wake : Type 0 where
  pub namespace : List ℕ
  pub subdomain : List ℕ
  pub phase : Phase

-- What the promise of a wake came to.
pub data Verdict : Type 0 where
  is_ready : Verdict
  timed_out : Verdict
  threw : Verdict

-- A request in the grace window, with what the wake that it shares has come to.
pub record Held : Type 0 where
  pub request : HttpRequest
  pub tenant : TenantCoordinates
  pub verdict : Option Verdict

-- `observers` has one entry for each request that has attached a handler to the wake of its tenant.
pub record State : Type 0 where
  pub wakes : List Wake
  pub held : List Held
  pub observers : List TenantCoordinates
  pub held_connections : ℕ
  pub calls : List Call
  pub answers : List Answer

pub data Replicas : Type 0 where
  found : ℕ → Replicas
  unreadable : (message : List ℕ) → Replicas

pub data ProxyEnd : Type 0 where
  finished : ProxyEnd
  broken : (message : List ℕ) → (headers_sent : Bool) → ProxyEnd

-- What the world answers to one run of the handler.
pub record Seen : Type 0 where
  pub ready_addresses : ℕ
  pub replicas : Replicas
  pub proxy : ProxyEnd

abbrev pub call : Call → State → State
call c s = record s { calls = c ∷ s.calls }

abbrev pub respond : Answer → State → State
respond a s = record s { answers = a ∷ s.answers }

abbrev pub send : ℕ → List (String × String) → Body → State → State
send status headers body s =
    respond (responded (record { status = status; headers = headers; body = body })) s

abbrev pub has_wake : List ℕ → List Wake → Bool
has_wake ns wakes = any (λ w. same_codes w.namespace ns) wakes

unfoldable pub ensure_wake : TenantCoordinates → State → State
ensure_wake t s =
    if has_wake t.namespace s.wakes
    then s
    else call (patch_replicas t.namespace) (
        call (record_activity t.subdomain) (record s {
          wakes =
              record { namespace = t.namespace; subdomain = t.subdomain; phase = patching }
              ∷ s.wakes;
        }))

abbrev pub reason_of : (message : List ℕ) → String
reason_of message =
    if includes (codes "ECONNREFUSED") message then "upstream_refused" else "internal_error"

-- The catch block, for a connection that is not held any more.
unfoldable pub on_error :
    (message : List ℕ) → (headers_sent : Bool) → TenantCoordinates → State → State
on_error message headers_sent t s =
    let counts = call (counted_error (reason_of message) t.subdomain) s in
    if headers_sent
    then respond (cut_off t.namespace) counts
    else send 502 (("Content-Type", "application/json") ∷ []) (problem "gateway_error") counts

abbrev pub after_proxy : ProxyEnd → TenantCoordinates → State → State
after_proxy finished t s = respond (proxied t.namespace) s
after_proxy (broken message headers_sent) t s = on_error message headers_sent t s

unfoldable pub serve : ProxyEnd → TenantCoordinates → State → State
serve proxy t s =
    after_proxy proxy t
      (call (proxy_request t.namespace t.upstream_url) (call (record_activity t.subdomain) s))

unfoldable pub send_warming_503 : Config → TenantCoordinates → State → State
send_warming_503 c t s =
    send 503
      (("Content-Type", "application/json")
        ∷ ("Retry-After", c.warming_retry_after)
        ∷ ("X-Activator-Wake", "warming")
        ∷ ("Cache-Control", "no-store")
        ∷ [])
      (problem "tenant_waking") (call (counted "warming_responses" t.subdomain) s)

unfoldable pub not_ready : Config → HttpRequest → TenantCoordinates → State → State
not_ready c req t s =
    if is_navigation_request req.kind
    then send 200
        (("Content-Type", "text/html; charset=utf-8") ∷ ("Cache-Control", "no-store") ∷ [])
        interstitial (call (counted "interstitial_responses" t.subdomain) s)
    else send_warming_503 c t s
