-- ===== src/Activator/Handler/Evidence.antt =====
-- What the calls so far say of the tenants, and which of them the proxy and the verdicts rest on.
use dnd_notes.Common.{
  either, ℕ, Bool, true, false, ◌&&◌, ◌≡◌, refl, Option, none, some, List, [], ◌∷◌, any, arith, All,
  All-weaken, leb, same_codes,
}
use dnd_notes.Activator.Resolver.{TenantCoordinates}
use dnd_notes.Activator.RequestKind.{is_navigation_request}
use dnd_notes.Activator.Handler.{
  Config, HttpRequest, Call, saw_replicas, patch_replicas, saw_endpoint, record_activity,
  proxy_request, counted, counted_error, Verdict, is_ready, timed_out, threw, Held, State, ProxyEnd,
  finished, broken, call, has_wake, ensure_wake, on_error, reason_of, serve, after_proxy, not_ready,
  send_warming_503,
}
use dnd_notes.Activator.Handler.Flow.{hold}

-- The call has seen that the namespace serves: a replica is asked for, or an endpoint is ready.
abbrev pub serves : List ℕ → Call → Bool
serves ns (saw_replicas m n) = same_codes m ns && leb 1 n
serves ns (saw_endpoint m) = same_codes m ns
serves ns _ = false

abbrev pub is_warranted : Call → List Call → Bool
is_warranted (proxy_request ns url) earlier = any (serves ns) earlier
is_warranted _ earlier = true

-- Each call to the proxy has an earlier call that has seen its namespace serve.
abbrev pub Warranted : List Call → Type 0
Warranted [] = Unit
Warranted (c ∷ earlier) = (is_warranted c earlier ≡ true) × Warranted earlier

abbrev pub evidence : List Call → List ℕ → Verdict → Bool
evidence calls ns is_ready = any (serves ns) calls
evidence calls ns timed_out = true
evidence calls ns threw = true

abbrev pub evidence_of : List Call → List ℕ → Option Verdict → Bool
evidence_of calls ns none = true
evidence_of calls ns (some v) = evidence calls ns v

abbrev pub HasEvidence : List Call → Held → Type 0
HasEvidence calls h = evidence_of calls h.tenant.namespace h.verdict ≡ true

unfoldable pub IsFounded : State → Type 0
IsFounded s = Warranted s.calls × All (HasEvidence s.calls) s.held

evidence_of-more :
    (c : Call) (calls : List Call) (ns : List ℕ) (v : Option Verdict)
    → evidence_of calls ns v ≡ true
    → evidence_of (c ∷ calls) ns v ≡ true
evidence_of-more c calls ns none e = refl
evidence_of-more c calls ns (some is_ready) e = ground (arith, e)
evidence_of-more c calls ns (some timed_out) e = refl
evidence_of-more c calls ns (some threw) e = refl

pub call-IsFounded :
    (c : Call) (s : State) → is_warranted c s.calls ≡ true → IsFounded s → IsFounded (call c s)
unfolding IsFounded
call-IsFounded c s warrant (calls, held) = (
  (warrant, calls),
  All-weaken (HasEvidence s.calls) (HasEvidence (c ∷ s.calls)) s.held
      (λ h. evidence_of-more c s.calls h.tenant.namespace h.verdict) held,
)

pub on_error-IsFounded :
    (message : List ℕ) (b : Bool) (t : TenantCoordinates) (s : State)
    → IsFounded s
    → IsFounded (on_error message b t s)
unfolding on_error IsFounded
on_error-IsFounded message true t s ok =
    call-IsFounded (counted_error (reason_of message) t.subdomain) s refl ok
on_error-IsFounded message false t s ok =
    call-IsFounded (counted_error (reason_of message) t.subdomain) s refl ok

pub serve-IsFounded :
    (proxy : ProxyEnd) (t : TenantCoordinates) (s : State)
    → any (serves t.namespace) s.calls ≡ true
    → IsFounded s
    → IsFounded (serve proxy t s)
unfolding serve IsFounded
serve-IsFounded proxy t s up ok = by_end proxy
  where
    proxying : State
    proxying =
        call (proxy_request t.namespace t.upstream_url) (call (record_activity t.subdomain) s)

    now : IsFounded proxying
    now =
        call-IsFounded (proxy_request t.namespace t.upstream_url)
          (call (record_activity t.subdomain) s) up
          (call-IsFounded (record_activity t.subdomain) s refl ok)

    by_end : (proxy : ProxyEnd) → IsFounded (after_proxy proxy t proxying)
    by_end finished = now
    by_end (broken message b) = on_error-IsFounded message b t proxying now

pub not_ready-IsFounded :
    (c : Config) (req : HttpRequest) (t : TenantCoordinates) (s : State)
    → IsFounded s
    → IsFounded (not_ready c req t s)
unfolding not_ready send_warming_503 IsFounded
not_ready-IsFounded c req t s ok =
    either IsFounded (is_navigation_request req.kind) _ _
      (call-IsFounded (counted "interstitial_responses" t.subdomain) s refl ok)
      (call-IsFounded (counted "warming_responses" t.subdomain) s refl ok)

pub ensure_wake-IsFounded :
    (t : TenantCoordinates) (s : State) → IsFounded s → IsFounded (ensure_wake t s)
unfolding ensure_wake IsFounded
ensure_wake-IsFounded t s ok = either IsFounded (has_wake t.namespace s.wakes) _ _ ok (
    call-IsFounded (patch_replicas t.namespace) (call (record_activity t.subdomain) s) refl
      (call-IsFounded (record_activity t.subdomain) s refl ok))

pub hold-IsFounded :
    (req : HttpRequest) (t : TenantCoordinates) (s : State) → IsFounded s → IsFounded (hold req t s)
unfolding hold IsFounded
hold-IsFounded req t s ok =
    let (calls, held) =
      ensure_wake-IsFounded t _ (call-IsFounded (counted "wake" t.subdomain) s refl ok) in
    (calls, (refl, held))
