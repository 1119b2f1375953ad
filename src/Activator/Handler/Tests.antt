-- ===== src/Activator/Handler/Tests.antt =====
-- A request wakes a tenant, another shares the wake, and the first is served in time.
use dnd_notes.Common.{
  ◌+◌, ◌≤◌, true, ◌≡◌, refl, inl, none, some, [], length, count, In, codes, same_codes,
}
use dnd_notes.Activator.Resolver.{
  before_mark, strip_suffix, coordinates, TenantCoordinates, resolve,
}
use dnd_notes.Activator.RequestKind.{missing, one}
use dnd_notes.Activator.Handler.{
  Config, HttpRequest, is_ready, Held, State, found, finished, Seen, Wake, patching, has_wake,
  ensure_wake,
}
use dnd_notes.Activator.Handler.Flow.{
  hold, arrive, Reachable, started, moved, arrives, patch_returns, endpoint_appears, wake_wins,
  idle, patched, settle, end_ready, resume, wake_won,
}
use dnd_notes.Activator.Handler.OneAnswer.{Reachable-counts}
use dnd_notes.Activator.Handler.OneWake.{Reachable-one_wake, Reachable-is_awaited}
use dnd_notes.Activator.Handler.Evidence.{Warranted}
use dnd_notes.Activator.Handler.Warrant.{Reachable-Warranted}

abbrev config : Config
config = record {
  base_domain = codes "notes.example";
  tenant_port = codes "3000";
  warming_retry_after = "2";
  metrics_content_type = "text/plain";
  has_font = true;
}

abbrev page : HttpRequest
page = record {
  url = some "/";
  host = some (codes "ada.notes.example");
  kind = record {
    method = some "GET";
    sec_fetch_mode = one "navigate";
    x_requested_with = missing;
    accept = missing;
  };
}

abbrev asleep : Seen
asleep = record { ready_addresses = 0; replicas = found 0; proxy = finished }

abbrev ada : TenantCoordinates
ada = coordinates (codes "3000") (codes "ada")

abbrev joined : Held
joined = record { request = page; tenant = ada; verdict = none }

abbrev one_held : State
one_held = arrive config asleep page idle

abbrev two_held : State
two_held = arrive config asleep page one_held

one_held-Reachable : Reachable config 1 one_held
one_held-Reachable = moved 0 idle 1 one_held started (arrives 0 asleep page idle)

two_held-Reachable : Reachable config 2 two_held
two_held-Reachable = moved 1 one_held 2 two_held one_held-Reachable (arrives 1 asleep page one_held)

arrive-shares : length two_held.wakes ≡ 1
unfolding arrive resolve before_mark strip_suffix hold ensure_wake
arrive-shares = refl

arrive-holds : two_held.held_connections ≡ 2
unfolding arrive resolve before_mark strip_suffix hold ensure_wake
arrive-holds = refl

abbrev waiting_state : State
waiting_state = patched ada.namespace one_held

abbrev his_wake : Wake
his_wake = record { namespace = ada.namespace; subdomain = ada.subdomain; phase = patching }

abbrev woken : State
woken = end_ready his_wake waiting_state

abbrev told_held : Held
told_held = record { request = page; tenant = ada; verdict = some is_ready }

abbrev served : State
served = resume config asleep (wake_won is_ready) told_held [] woken

served-Reachable : Reachable config 1 served
unfolding arrive resolve before_mark strip_suffix hold ensure_wake patched end_ready settle
served-Reachable =
    moved 1 woken 1 served
      (moved 1 waiting_state 1 woken
        (moved 1 one_held 1 waiting_state one_held-Reachable
          (patch_returns 1 ada.namespace one_held refl))
        (endpoint_appears 1 his_wake waiting_state refl))
      (wake_wins 1 asleep [] told_held [] is_ready woken refl refl)

Reachable-counts_example :
    (two_held.held_connections ≡ length two_held.held)
    × (length two_held.answers + length two_held.held ≡ 2)
Reachable-counts_example = Reachable-counts config 2 two_held two_held-Reachable

Reachable-one_wake_example : count (λ w. same_codes w.namespace ada.namespace) two_held.wakes ≤ 1
Reachable-one_wake_example = Reachable-one_wake config 2 two_held two_held-Reachable ada.namespace

joined-held : In one_held.held joined
unfolding arrive resolve before_mark strip_suffix hold ensure_wake
joined-held = inl refl

Reachable-is_awaited_example : has_wake ada.namespace one_held.wakes ≡ true
Reachable-is_awaited_example =
    Reachable-is_awaited config 1 one_held one_held-Reachable joined joined-held refl

Reachable-Warranted_example : Warranted served.calls
Reachable-Warranted_example = Reachable-Warranted config 1 served served-Reachable
