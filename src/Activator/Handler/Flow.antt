-- ===== src/Activator/Handler/Flow.antt =====
-- What happens to the handler: handleRequest up to the race and after it, the background part of
-- ensureWake, and the steps that these make, apps/activator/src/request-handler.ts.
use dnd_notes.Common.{
  ℕ, suc, ◌+◌, ◌-◌, String, Bool, true, false, ◌&&◌, not, ◌≡◌, Option, none, some, List, [], ◌∷◌,
  ◌++◌, map, any, keep, ◌==◌, leb, if◌then◌else◌, same_codes, or_else,
}
use dnd_notes.Activator.Resolver.{TenantCoordinates, resolve}
use dnd_notes.Activator.Handler.{
  Config, HttpRequest, text, metrics, font, empty, wake_status, problem, saw_replicas,
  wait_for_endpoint, saw_endpoint, mark_ready, counted, counted_error, Phase, patching, waiting,
  Wake, Verdict, is_ready, timed_out, threw, Held, State, Replicas, found, unreadable, ProxyEnd,
  Seen, call, send, ensure_wake, on_error, serve, not_ready,
}

-- The request joins the race. The wake counter, the gauge and ensureWake come in this order.
unfoldable pub hold : HttpRequest → TenantCoordinates → State → State
hold req t s =
    let woken = ensure_wake t (
      let counts = call (counted "wake" t.subdomain) s in
      record counts { held_connections = counts.held_connections + 1 }) in
    record woken {
      held = record { request = req; tenant = t; verdict = none } ∷ woken.held;
      observers = t ∷ woken.observers;
    }

abbrev pub by_replicas : ProxyEnd → Replicas → HttpRequest → TenantCoordinates → State → State
by_replicas proxy (unreadable message) req t s = on_error message false t s
by_replicas proxy (found n) req t s =
    let seen = call (saw_replicas t.namespace n) s in
    if leb 1 n then serve proxy t seen else hold req t seen

abbrev pub poll : ℕ → TenantCoordinates → State → State
poll addresses t s =
    let serving = leb 1 addresses in
    send 200 (("Content-Type", "application/json") ∷ ("Cache-Control", "no-store") ∷ [])
      (wake_status serving) (if serving then s else ensure_wake t s)

abbrev pub is_at : String → HttpRequest → Bool
is_at path req = or_else req.url "" == path

abbrev pub is_get : String → HttpRequest → Bool
is_get path req = or_else req.kind.method "" == "GET" && is_at path req

abbrev pub route : Seen → Option TenantCoordinates → HttpRequest → State → State
route seen none req s =
    send 400 (("Content-Type", "application/json") ∷ []) (problem "unroutable_host") s
route seen (some t) req s =
    if is_at "/__dnd-notes-activator__/wake-status" req
    then poll seen.ready_addresses t s
    else by_replicas seen.proxy seen.replicas req t s

abbrev pub plain : State → State
plain s = send 200 (("Content-Type", "text/plain") ∷ []) (text "ok") s

abbrev pub send_font : Bool → State → State
send_font false s = send 404 [] empty s
send_font true s =
    send 200
      (("Content-Type", "font/woff2") ∷ ("Cache-Control", "public, max-age=604800, immutable") ∷ [])
      font s

-- handleRequest up to its answer, or up to the race.
unfoldable pub arrive : Config → Seen → HttpRequest → State → State
arrive c seen req s =
    if is_get "/healthz" req
    then plain s
    else if is_get "/readyz" req
    then plain s
    else if is_get "/metrics" req
    then send 200 (("Content-Type", c.metrics_content_type) ∷ []) metrics s
    else if is_get "/__dnd-notes-activator__/geist.woff2" req
    then send_font c.has_font s
    else route seen (resolve c.base_domain c.tenant_port req.host) req s

-- Who wins the race: the wake, the grace timer, or an exception of the race itself.
pub data Race : Type 0 where
  wake_won : Verdict → Race
  grace : Race
  race_threw : (message : List ℕ) → Race

abbrev pub release : State → State
release s = record s { held_connections = s.held_connections - 1 }

abbrev pub after_race : Config → Seen → Race → Held → State → State
after_race c seen (wake_won is_ready) h s = serve seen.proxy h.tenant (release s)
after_race c seen (wake_won timed_out) h s = not_ready c h.request h.tenant (release s)
after_race c seen (wake_won threw) h s = not_ready c h.request h.tenant (release s)
after_race c seen grace h s = not_ready c h.request h.tenant (release s)
after_race c seen (race_threw message) h s = on_error message false h.tenant (release s)

-- The part of handleRequest after the race.
unfoldable pub resume : Config → Seen → Race → Held → (others : List Held) → State → State
resume c seen race h others s = after_race c seen race h (record s { held = others })

abbrev pub in_phase : Phase → Phase → Bool
in_phase patching patching = true
in_phase waiting waiting = true
in_phase _ _ = false

abbrev pub is_in : List ℕ → Phase → Wake → Bool
is_in ns phase w = same_codes w.namespace ns && in_phase w.phase phase

abbrev pub begin_wait : List ℕ → Wake → Wake
begin_wait ns w = record w { phase = if same_codes w.namespace ns then waiting else w.phase }

-- patchReplicas has returned.
unfoldable pub patched : List ℕ → State → State
patched ns s = call (wait_for_endpoint ns) (record s { wakes = map (begin_wait ns) s.wakes })

abbrev pub told : (is_his : Bool) → Verdict → Option Verdict → Option Verdict
told is_his v none = if is_his then some v else none
told is_his v (some old) = some old

abbrev pub tell : List ℕ → Verdict → Held → Held
tell ns v h = record h { verdict = told (same_codes h.tenant.namespace ns) v h.verdict }

-- The finally block, with which the promise settles.
unfoldable pub settle : List ℕ → Verdict → State → State
settle ns v s = record s {
  wakes = keep (λ w. not (same_codes w.namespace ns)) s.wakes;
  held = map (tell ns v) s.held;
  observers = keep (λ t. not (same_codes t.namespace ns)) s.observers;
}

-- Every handler that is attached to the promise counts its rejection, also after the race.
unfoldable pub count_failures : List ℕ → List TenantCoordinates → State → State
count_failures ns [] s = s
count_failures ns (t ∷ observers) s =
    let rest = count_failures ns observers s in
    if same_codes t.namespace ns then call (counted_error "wake_error" t.subdomain) rest else rest

unfoldable pub fail : List ℕ → State → State
fail ns s = settle ns threw (count_failures ns s.observers s)

unfoldable pub end_ready : Wake → State → State
end_ready w s =
    settle w.namespace is_ready (call (mark_ready w.subdomain) (call (saw_endpoint w.namespace) s))

-- One step. `n` counts the requests that have arrived.
pub data Step (c : Config) : ℕ → State → ℕ → State → Type 0 where
  arrives :
      (n : ℕ) (seen : Seen) (req : HttpRequest) (s : State)
      → Step c n s (suc n) (arrive c seen req s)
  patch_returns :
      (n : ℕ) (ns : List ℕ) (s : State)
      → any (is_in ns patching) s.wakes ≡ true
      → Step c n s n (patched ns s)
  patch_throws :
      (n : ℕ) (ns : List ℕ) (s : State)
      → any (is_in ns patching) s.wakes ≡ true
      → Step c n s n (fail ns s)
  endpoint_appears :
      (n : ℕ) (w : Wake) (s : State)
      → any (is_in w.namespace waiting) s.wakes ≡ true
      → Step c n s n (end_ready w s)
  endpoint_times_out :
      (n : ℕ) (ns : List ℕ) (s : State)
      → any (is_in ns waiting) s.wakes ≡ true
      → Step c n s n (settle ns timed_out s)
  wait_throws :
      (n : ℕ) (ns : List ℕ) (s : State)
      → any (is_in ns waiting) s.wakes ≡ true
      → Step c n s n (fail ns s)
  deadline_passes :
      (n : ℕ) (w : Wake) (s : State)
      → any (is_in w.namespace waiting) s.wakes ≡ true
      → Step c n s n (call (counted "pod_schedule_deadline_exceeded" w.subdomain) s)
  wake_wins :
      (n : ℕ) (seen : Seen) (before : List Held) (h : Held) (after : List Held) (v : Verdict)
      (s : State)
      → s.held ≡ before ++ h ∷ after
      → h.verdict ≡ some v
      → Step c n s n (resume c seen (wake_won v) h (before ++ after) s)
  grace_wins :
      (n : ℕ) (seen : Seen) (before : List Held) (h : Held) (after : List Held) (s : State)
      → s.held ≡ before ++ h ∷ after
      → Step c n s n (resume c seen grace h (before ++ after) s)
  race_throws :
      (n : ℕ) (seen : Seen) (message : List ℕ) (before : List Held) (h : Held) (after : List Held)
      (s : State)
      → s.held ≡ before ++ h ∷ after
      → Step c n s n (resume c seen (race_threw message) h (before ++ after) s)

abbrev pub idle : State
idle = record {
  wakes = [];
  held = [];
  observers = [];
  held_connections = 0;
  calls = [];
  answers = [];
}

pub data Reachable (c : Config) : ℕ → State → Type 0 where
  started : Reachable c 0 idle
  moved :
      (n : ℕ) (s : State) (m : ℕ) (t : State) → Reachable c n s → Step c n s m t → Reachable c m t
