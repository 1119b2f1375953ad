-- ===== src/Activator/Handler/Cases.antt =====
-- What one run of the handler comes to, as a principle that the invariants share.
use dnd_notes.Common.{
  either, either_by, ℕ, String, Bool, true, false, ◌≡◌, refl, Option, none, some, List, [], ◌∷◌,
  leb, if◌then◌else◌,
}
use dnd_notes.Activator.Resolver.{TenantCoordinates, resolve}
use dnd_notes.Activator.Handler.{
  Config, HttpRequest, Body, saw_replicas, wake_status, is_ready, timed_out, threw, Held, State,
  Replicas, found, unreadable, Seen, call, send, ensure_wake, on_error, serve, not_ready,
}
use dnd_notes.Activator.Handler.Flow.{
  hold, by_replicas, poll, is_at, is_get, route, send_font, arrive, Race, wake_won, grace,
  race_threw, release, after_race,
}

module _ (P : State → Type 0) (c : Config) (seen : Seen) (req : HttpRequest) (s : State)
    (sends : (status : ℕ) (headers : List (String × String)) (body : Body)
      → P (send status headers body s))
    (fails : (message : List ℕ) (t : TenantCoordinates) → P (on_error message false t s))
    (serves : (t : TenantCoordinates) (n : ℕ)
      → leb 1 n ≡ true
      → P (serve seen.proxy t (call (saw_replicas t.namespace n) s)))
    (holds : (t : TenantCoordinates) (n : ℕ) → P (hold req t (call (saw_replicas t.namespace n) s)))
    (polls : (t : TenantCoordinates) (status : ℕ) (headers : List (String × String)) (body : Body)
      → P (send status headers body (ensure_wake t s))) where
  by_replicas-cases :
      (replicas : Replicas) (t : TenantCoordinates) → P (by_replicas seen.proxy replicas req t s)
  by_replicas-cases (unreadable message) t = fails message t
  by_replicas-cases (found n) t = either_by P (leb 1 n) _ _ (serves t n) (λ _. holds t n)

  poll-cases : (addresses : ℕ) (t : TenantCoordinates) → P (poll addresses t s)
  poll-cases addresses t =
      elim (leb 1 addresses)
        as (λ b. P (
          send 200 (("Content-Type", "application/json") ∷ ("Cache-Control", "no-store") ∷ [])
            (wake_status b) (if b then s else ensure_wake t s))) [
              | true ↦ sends _ _ _
              | false ↦ polls t _ _ _
            ]

  route-cases : (tenant : Option TenantCoordinates) → P (route seen tenant req s)
  route-cases none = sends _ _ _
  route-cases (some t) =
      either P (is_at "/__dnd-notes-activator__/wake-status" req) _ _
        (poll-cases seen.ready_addresses t) (by_replicas-cases seen.replicas t)

  send_font-cases : (has_font : Bool) → P (send_font has_font s)
  send_font-cases true = sends _ _ _
  send_font-cases false = sends _ _ _

  pub arrive-cases : P (arrive c seen req s)
  unfolding arrive
  arrive-cases = either P (is_get "/healthz" req) _ _ (sends _ _ _) (
      either P (is_get "/readyz" req) _ _ (sends _ _ _) (
        either P (is_get "/metrics" req) _ _ (sends _ _ _) (
          either P (is_get "/__dnd-notes-activator__/geist.woff2" req) _ _
            (send_font-cases c.has_font)
            (route-cases (resolve c.base_domain c.tenant_port req.host)))))

module _ (P : State → Type 0) (c : Config) (seen : Seen) (h : Held) (s : State)
    (fails : (message : List ℕ) → P (on_error message false h.tenant (release s)))
    (waits : P (not_ready c h.request h.tenant (release s))) where
  pub after_race-cases :
      (race : Race)
      → (race ≡ wake_won is_ready → P (serve seen.proxy h.tenant (release s)))
      → P (after_race c seen race h s)
  after_race-cases (wake_won is_ready) serves = serves refl
  after_race-cases (wake_won timed_out) serves = waits
  after_race-cases (wake_won threw) serves = waits
  after_race-cases grace serves = waits
  after_race-cases (race_threw message) serves = fails message
