-- ===== src/Activator/Handler/OneWake.antt =====
-- A namespace has one wake at a time, and a request that waits has a wake to wait for.
use dnd_notes.Common.{
  either, ℕ, ◌≤◌, Bool, true, false, ◌≡◌, ◌∙◌, subst, none, List, [], ◌∷◌, ◌++◌, map, count, arith,
  All, In, All-In, All-weaken, All-drop, same_codes,
}
use dnd_notes.Activator.Resolver.{TenantCoordinates}
use dnd_notes.Activator.RequestKind.{is_navigation_request}
use dnd_notes.Activator.Handler.{
  Config, HttpRequest, Held, State, ProxyEnd, finished, broken, Seen, has_wake, on_error, serve,
  not_ready, send_warming_503,
}
use dnd_notes.Activator.Handler.Flow.{
  arrive, Race, release, resume, begin_wait, patched, count_failures, fail, end_ready, Step,
  arrives, patch_returns, patch_throws, endpoint_appears, endpoint_times_out, wait_throws,
  deadline_passes, wake_wins, grace_wins, race_throws, Reachable, started, moved, wake_won,
  race_threw, grace,
}
use dnd_notes.Activator.Handler.Cases.{arrive-cases, after_race-cases}
use dnd_notes.Activator.Handler.Coalescing.{
  awaited, IsAwaited, IsAwaited-weaken, count-begin_wait, has_wake-begin_wait,
  ensure_wake-Coalesced, hold-Coalesced, settle-Coalesced, Coalesced,
}

abbrev StateCoalesced : State → Type 0
StateCoalesced s = Coalesced s.wakes s.held

on_error-Coalesced :
    (message : List ℕ) (b : Bool) (t : TenantCoordinates) (s : State)
    → StateCoalesced s
    → StateCoalesced (on_error message b t s)
unfolding on_error
on_error-Coalesced message true t s ok = ok
on_error-Coalesced message false t s ok = ok

serve-Coalesced :
    (proxy : ProxyEnd) (t : TenantCoordinates) (s : State)
    → StateCoalesced s
    → StateCoalesced (serve proxy t s)
unfolding serve
serve-Coalesced finished t s ok = ok
serve-Coalesced (broken message b) t s ok = on_error-Coalesced message b t _ ok

not_ready-Coalesced :
    (c : Config) (req : HttpRequest) (t : TenantCoordinates) (s : State)
    → StateCoalesced s
    → StateCoalesced (not_ready c req t s)
unfolding not_ready send_warming_503
not_ready-Coalesced c req t s ok = either StateCoalesced (is_navigation_request req.kind) _ _ ok ok

arrive-Coalesced :
    (c : Config) (seen : Seen) (req : HttpRequest) (s : State)
    → StateCoalesced s
    → StateCoalesced (arrive c seen req s)
arrive-Coalesced c seen req s ok =
    arrive-cases StateCoalesced c seen req s (λ _ _ _. ok)
      (λ message t. on_error-Coalesced message false t s ok)
      (λ t k _. serve-Coalesced seen.proxy t _ ok) (λ t k. hold-Coalesced req t _ ok)
      (λ t _ _ _. ensure_wake-Coalesced t s ok)

resume-Coalesced :
    (c : Config) (seen : Seen) (race : Race) (before : List Held) (h : Held) (after : List Held)
    (s : State)
    → s.held ≡ before ++ h ∷ after
    → StateCoalesced s
    → StateCoalesced (resume c seen race h (before ++ after) s)
unfolding resume Coalesced
resume-Coalesced c seen race before h after s e (one, waits) =
    let now = record s { held = before ++ after } in
    let freed : StateCoalesced (release now) = (
      one,
      (All-drop (IsAwaited s.wakes) before h after (subst (All (IsAwaited s.wakes)) e waits)).1,
    ) in
    after_race-cases StateCoalesced c seen h now
      (λ message. on_error-Coalesced message false h.tenant _ freed)
      (not_ready-Coalesced c h.request h.tenant _ freed) race
      (λ _. serve-Coalesced seen.proxy h.tenant _ freed)

patched-Coalesced : (ns : List ℕ) (s : State) → StateCoalesced s → StateCoalesced (patched ns s)
unfolding patched Coalesced
patched-Coalesced ns s (one, waits) = (
  λ ms. omega (arith, one ms, count-begin_wait ns ms s.wakes),
  All-weaken (IsAwaited s.wakes) (IsAwaited (map (begin_wait ns) s.wakes)) s.held
      (λ h.
        IsAwaited-weaken s.wakes _ h (λ e. has_wake-begin_wait ns h.tenant.namespace s.wakes ∙ e))
      waits,
)

count_failures-Coalesced :
    (ns : List ℕ) (observers : List TenantCoordinates) (s : State)
    → StateCoalesced s
    → StateCoalesced (count_failures ns observers s)
unfolding count_failures
count_failures-Coalesced ns [] s ok = ok
count_failures-Coalesced ns (t ∷ observers) s ok =
    let rest = count_failures-Coalesced ns observers s ok in either StateCoalesced _ _ _ rest rest

fail-Coalesced : (ns : List ℕ) (s : State) → StateCoalesced s → StateCoalesced (fail ns s)
unfolding fail
fail-Coalesced ns s ok = settle-Coalesced ns _ _ (count_failures-Coalesced ns s.observers s ok)

Step-Coalesced :
    (c : Config) (n : ℕ) (s : State) (m : ℕ) (t : State)
    → Step c n s m t
    → StateCoalesced s
    → StateCoalesced t
unfolding end_ready
Step-Coalesced c _ _ _ _ (arrives n seen req s) ok = arrive-Coalesced c seen req s ok
Step-Coalesced c _ _ _ _ (patch_returns n ns s _) ok = patched-Coalesced ns s ok
Step-Coalesced c _ _ _ _ (patch_throws n ns s _) ok = fail-Coalesced ns s ok
Step-Coalesced c _ _ _ _ (endpoint_appears n w s _) ok = settle-Coalesced w.namespace _ _ ok
Step-Coalesced c _ _ _ _ (endpoint_times_out n ns s _) ok = settle-Coalesced ns _ s ok
Step-Coalesced c _ _ _ _ (wait_throws n ns s _) ok = fail-Coalesced ns s ok
Step-Coalesced c _ _ _ _ (deadline_passes n w s _) ok = ok
Step-Coalesced c _ _ _ _ (wake_wins n seen before x after v s e _) ok =
    resume-Coalesced c seen (wake_won v) before x after s e ok
Step-Coalesced c _ _ _ _ (grace_wins n seen before x after s e) ok =
    resume-Coalesced c seen grace before x after s e ok
Step-Coalesced c _ _ _ _ (race_throws n seen message before x after s e) ok =
    resume-Coalesced c seen (race_threw message) before x after s e ok

Reachable-Coalesced : (c : Config) (n : ℕ) (s : State) → Reachable c n s → StateCoalesced s
unfolding Coalesced
Reachable-Coalesced c _ _ started = ((λ ns. omega arith), tt)
Reachable-Coalesced c _ _ (moved k u n s r step) =
    Step-Coalesced c k u n s step (Reachable-Coalesced c k u r)

-- In every state that the handler can reach, a namespace has at most one wake in progress.
pub Reachable-one_wake :
    (c : Config) (n : ℕ) (s : State)
    → Reachable c n s
    → (ns : List ℕ) → count (λ w. same_codes w.namespace ns) s.wakes ≤ 1
unfolding Coalesced
Reachable-one_wake c n s r ns = (Reachable-Coalesced c n s r).0 ns

-- In every state that the handler can reach, a held request to which no wake has given its verdict
-- has a wake in progress for its namespace, so it does not wait for a promise that nobody settles.
pub Reachable-is_awaited :
    (c : Config) (n : ℕ) (s : State)
    → Reachable c n s
    → (h : Held) → In s.held h
    → h.verdict ≡ none
    → has_wake h.tenant.namespace s.wakes ≡ true
unfolding Coalesced
Reachable-is_awaited c n s r h here open_verdict =
    subst (λ v. awaited s.wakes h.tenant v ≡ true) open_verdict
      (All-In (IsAwaited s.wakes) s.held h (Reachable-Coalesced c n s r).1 here)
