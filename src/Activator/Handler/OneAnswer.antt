-- ===== src/Activator/Handler/OneAnswer.antt =====
-- Every request is answered once, and the gauge of held connections counts those that wait.
use dnd_notes.Common.{
  either, ℕ, suc, ◌+◌, String, Bool, true, false, ◌≡◌, refl, ap, ◌∙◌, none, List, [], ◌∷◌, ◌++◌,
  map, arith, length, length-append,
}
use dnd_notes.Activator.Resolver.{TenantCoordinates}
use dnd_notes.Activator.RequestKind.{is_navigation_request}
use dnd_notes.Activator.Handler.{
  Config, HttpRequest, Body, Verdict, Held, State, ProxyEnd, finished, broken, Seen, send, has_wake,
  ensure_wake, on_error, serve, not_ready, send_warming_503,
}
use dnd_notes.Activator.Handler.Flow.{
  hold, arrive, Race, release, resume, patched, tell, settle, count_failures, fail, end_ready, Step,
  arrives, patch_returns, patch_throws, endpoint_appears, endpoint_times_out, wait_throws,
  deadline_passes, wake_wins, grace_wins, race_throws, Reachable, started, moved, wake_won,
  race_threw, grace,
}
use dnd_notes.Activator.Handler.Cases.{arrive-cases, after_race-cases}

-- `n` requests have come, and `p` of them are being handled just now.
Counts : (n p : ℕ) → State → Type 0
Counts n p s = (s.held_connections ≡ length s.held) × (length s.answers + length s.held + p ≡ n)

module _ (n p : ℕ) where
  send-Counts :
      (status : ℕ) (headers : List (String × String)) (body : Body) (s : State)
      → Counts n (suc p) s
      → Counts n p (send status headers body s)
  unfolding Counts
  send-Counts status headers body s (gauge, total) = (gauge, omega arith)

  on_error-Counts :
      (message : List ℕ) (b : Bool) (t : TenantCoordinates) (s : State)
      → Counts n (suc p) s
      → Counts n p (on_error message b t s)
  unfolding Counts on_error
  on_error-Counts message true t s (gauge, total) = (gauge, omega arith)
  on_error-Counts message false t s (gauge, total) = (gauge, omega arith)

  serve-Counts :
      (proxy : ProxyEnd) (t : TenantCoordinates) (s : State)
      → Counts n (suc p) s
      → Counts n p (serve proxy t s)
  unfolding Counts serve
  serve-Counts finished t s (gauge, total) = (gauge, omega arith)
  serve-Counts (broken message b) t s (gauge, total) = on_error-Counts message b t _ (gauge, total)

  not_ready-Counts :
      (c : Config) (req : HttpRequest) (t : TenantCoordinates) (s : State)
      → Counts n (suc p) s
      → Counts n p (not_ready c req t s)
  unfolding Counts not_ready send_warming_503
  not_ready-Counts c req t s (gauge, total) =
      either (Counts n p) (is_navigation_request req.kind) _ _ (gauge, omega arith)
        (gauge, omega arith)

  ensure_wake-Counts :
      (t : TenantCoordinates) (s : State) → Counts n p s → Counts n p (ensure_wake t s)
  unfolding Counts ensure_wake
  ensure_wake-Counts t s h = either (Counts n p) (has_wake t.namespace s.wakes) _ _ h h

  hold-Counts :
      (req : HttpRequest) (t : TenantCoordinates) (s : State)
      → Counts n (suc p) s
      → Counts n p (hold req t s)
  unfolding Counts hold ensure_wake
  hold-Counts req t s (gauge, total) =
      let joined : Held = record { request = req; tenant = t; verdict = none } in
      either (λ w. Counts n p (record w { held = joined ∷ w.held; observers = t ∷ w.observers }))
        (has_wake t.namespace s.wakes) _ _ (omega arith, omega arith) (omega arith, omega arith)

module _ (c : Config) (n : ℕ) where
  arrive-Counts :
      (seen : Seen) (req : HttpRequest) (s : State)
      → Counts n 0 s
      → Counts (suc n) 0 (arrive c seen req s)
  unfolding Counts
  arrive-Counts seen req s (gauge, total) =
      let here : Counts (suc n) 1 s = (gauge, omega arith) in
      arrive-cases (Counts (suc n) 0) c seen req s
        (λ status headers body. send-Counts (suc n) 0 status headers body s here)
        (λ message t. on_error-Counts (suc n) 0 message false t s here)
        (λ t k _. serve-Counts (suc n) 0 seen.proxy t _ here)
        (λ t k. hold-Counts (suc n) 0 req t _ here)
        (λ t status headers body.
          send-Counts (suc n) 0 status headers body (ensure_wake t s)
            (ensure_wake-Counts (suc n) 1 t s here))

  resume-Counts :
      (seen : Seen) (race : Race) (before : List Held) (h : Held) (after : List Held) (s : State)
      → s.held ≡ before ++ h ∷ after
      → Counts n 0 s
      → Counts n 0 (resume c seen race h (before ++ after) s)
  unfolding Counts resume
  resume-Counts seen race before h after s e (gauge, total) =
      let lengths : length s.held ≡ suc (length (before ++ after)) =
        ap length e
        ∙ (omega (arith, length-append before (h ∷ after), length-append before after)) in
      let now = record s { held = before ++ after } in
      let freed : Counts n 1 (release now) = (omega (arith, lengths), omega (arith, lengths)) in
      after_race-cases (Counts n 0) c seen h now
        (λ message. on_error-Counts n 0 message false h.tenant _ freed)
        (not_ready-Counts n 0 c h.request h.tenant _ freed) race
        (λ _. serve-Counts n 0 seen.proxy h.tenant _ freed)

  length-map : {A B : Type 0} (f : A → B) (xs : List A) → length (map f xs) ≡ length xs
  length-map f [] = refl
  length-map f (x ∷ xs) = ap suc (length-map f xs)

  settle-Counts :
      (ns : List ℕ) (v : Verdict) (s : State) → Counts n 0 s → Counts n 0 (settle ns v s)
  unfolding Counts settle
  settle-Counts ns v s (gauge, total) =
      (omega (arith, length-map (tell ns v) s.held), omega (arith, length-map (tell ns v) s.held))

  count_failures-Counts :
      (ns : List ℕ) (observers : List TenantCoordinates) (s : State)
      → Counts n 0 s
      → Counts n 0 (count_failures ns observers s)
  unfolding Counts count_failures
  count_failures-Counts ns [] s h = h
  count_failures-Counts ns (t ∷ observers) s h =
      let rest = count_failures-Counts ns observers s h in either (Counts n 0) _ _ _ rest rest

  fail-Counts : (ns : List ℕ) (s : State) → Counts n 0 s → Counts n 0 (fail ns s)
  unfolding fail
  fail-Counts ns s h = settle-Counts ns _ _ (count_failures-Counts ns s.observers s h)

step-Counts :
    (c : Config) (n : ℕ) (s : State) (m : ℕ) (t : State)
    → Step c n s m t
    → Counts n 0 s
    → Counts m 0 t
unfolding Counts patched end_ready
step-Counts c _ _ _ _ (arrives n seen req s) h = arrive-Counts c n seen req s h
step-Counts c _ _ _ _ (patch_returns n ns s _) h = h
step-Counts c _ _ _ _ (patch_throws n ns s _) h = fail-Counts c n ns s h
step-Counts c _ _ _ _ (endpoint_appears n w s _) h = settle-Counts c n w.namespace _ _ h
step-Counts c _ _ _ _ (endpoint_times_out n ns s _) h = settle-Counts c n ns _ s h
step-Counts c _ _ _ _ (wait_throws n ns s _) h = fail-Counts c n ns s h
step-Counts c _ _ _ _ (deadline_passes n w s _) h = h
step-Counts c _ _ _ _ (wake_wins n seen before x after v s e _) h =
    resume-Counts c n seen (wake_won v) before x after s e h
step-Counts c _ _ _ _ (grace_wins n seen before x after s e) h =
    resume-Counts c n seen grace before x after s e h
step-Counts c _ _ _ _ (race_throws n seen message before x after s e) h =
    resume-Counts c n seen (race_threw message) before x after s e h

Reachable-Counts : (c : Config) (n : ℕ) (s : State) → Reachable c n s → Counts n 0 s
unfolding Counts
Reachable-Counts c _ _ started = (refl, refl)
Reachable-Counts c _ _ (moved k u n s r step) =
    step-Counts c k u n s step (Reachable-Counts c k u r)

-- In every state that the handler can reach after `n` requests, the gauge of held connections is
-- the number of requests that wait, and the answers and these requests make up `n`: no request is
-- answered twice or lost.
pub Reachable-counts :
    (c : Config) (n : ℕ) (s : State)
    → Reachable c n s
    → (s.held_connections ≡ length s.held) × (length s.answers + length s.held ≡ n)
unfolding Counts
Reachable-counts c n s r = let (gauge, total) = Reachable-Counts c n s r in (gauge, omega arith)
