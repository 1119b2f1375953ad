-- ===== src/Activator/Handler/Warrant.antt =====
-- A request is proxied only to a tenant that serves.
use dnd_notes.Common.{
  either, either_by, ℕ, true, false, ◌≡◌, refl, sym, ap, ◌∙◌, subst, Option, none, some, List, [],
  ◌∷◌, ◌++◌, arith, All, All-map-over, All-drop, same_codes, same_codes_iff,
}
use dnd_notes.Activator.Resolver.{TenantCoordinates}
use dnd_notes.Activator.Handler.{
  Config, HttpRequest, saw_replicas, wait_for_endpoint, saw_endpoint, mark_ready, counted,
  counted_error, Verdict, is_ready, timed_out, threw, Held, State, Seen, Wake,
}
use dnd_notes.Activator.Handler.Flow.{
  arrive, Race, release, resume, patched, told, tell, settle, count_failures, fail, end_ready, Step,
  arrives, patch_returns, patch_throws, endpoint_appears, endpoint_times_out, wait_throws,
  deadline_passes, wake_wins, grace_wins, race_throws, Reachable, started, moved, wake_won,
  race_threw, grace,
}
use dnd_notes.Activator.Handler.Cases.{arrive-cases, after_race-cases}
use dnd_notes.Activator.Handler.Evidence.{
  Warranted, evidence, evidence_of, HasEvidence, call-IsFounded, on_error-IsFounded,
  serve-IsFounded, not_ready-IsFounded, ensure_wake-IsFounded, hold-IsFounded, IsFounded,
}

arrive-IsFounded :
    (c : Config) (seen : Seen) (req : HttpRequest) (s : State)
    → IsFounded s
    → IsFounded (arrive c seen req s)
unfolding IsFounded
arrive-IsFounded c seen req s ok =
    let seen_replicas =
      λ (t : TenantCoordinates) (n : ℕ). call-IsFounded (saw_replicas t.namespace n) s refl ok in
    arrive-cases IsFounded c seen req s (λ _ _ _. ok)
      (λ message t. on_error-IsFounded message false t s ok)
      (λ t n up.
        serve-IsFounded seen.proxy t _ (ground (arith, up, same_codes_iff t.namespace t.namespace))
          (seen_replicas t n))
      (λ t n. hold-IsFounded req t _ (seen_replicas t n)) (λ t _ _ _. ensure_wake-IsFounded t s ok)

resume-IsFounded :
    (c : Config) (seen : Seen) (race : Race) (before : List Held) (h : Held) (after : List Held)
    (s : State)
    → s.held ≡ before ++ h ∷ after
    → (race ≡ wake_won is_ready → h.verdict ≡ some is_ready)
    → IsFounded s
    → IsFounded (resume c seen race h (before ++ after) s)
unfolding resume IsFounded
resume-IsFounded c seen race before h after s e told_so (calls, held) =
    let now = record s { held = before ++ after } in
    let (this, rest) =
      All-drop (HasEvidence s.calls) before h after (subst (All (HasEvidence s.calls)) e held) in
    let freed : IsFounded (release now) = (calls, rest) in
    after_race-cases IsFounded c seen h now
      (λ message. on_error-IsFounded message false h.tenant _ freed)
      (not_ready-IsFounded c h.request h.tenant _ freed) race
      (λ won.
        serve-IsFounded seen.proxy h.tenant _
          (subst (λ v. evidence_of s.calls h.tenant.namespace v ≡ true) (told_so won) this) freed)

settle-IsFounded :
    (ns : List ℕ) (v : Verdict) (s : State)
    → evidence s.calls ns v ≡ true
    → IsFounded s
    → IsFounded (settle ns v s)
unfolding settle IsFounded
settle-IsFounded ns v s known (calls, held) = (
  calls,
  All-map-over (HasEvidence s.calls) (HasEvidence s.calls) (tell ns v) s.held
      (λ h. told-evidence h h.verdict) held,
)
  where
    told-evidence :
        (h : Held) (old : Option Verdict)
        → evidence_of s.calls h.tenant.namespace old ≡ true
        → evidence_of s.calls h.tenant.namespace (told (same_codes h.tenant.namespace ns) v old)
          ≡ true
    told-evidence h (some old) e = e
    told-evidence h none e =
        either_by (λ o. evidence_of s.calls h.tenant.namespace o ≡ true)
          (same_codes h.tenant.namespace ns) (some v) none
          (λ same.
            subst (λ m. evidence s.calls m v ≡ true)
              (sym ((same_codes_iff h.tenant.namespace ns).0 same)) known)
          (λ _. refl)

count_failures-IsFounded :
    (ns : List ℕ) (observers : List TenantCoordinates) (s : State)
    → IsFounded s
    → IsFounded (count_failures ns observers s)
unfolding count_failures
count_failures-IsFounded ns [] s ok = ok
count_failures-IsFounded ns (t ∷ observers) s ok =
    let rest = count_failures-IsFounded ns observers s ok in
    either IsFounded _ _ _ (call-IsFounded (counted_error "wake_error" t.subdomain) _ refl rest)
      rest

fail-IsFounded : (ns : List ℕ) (s : State) → IsFounded s → IsFounded (fail ns s)
unfolding fail
fail-IsFounded ns s ok =
    settle-IsFounded ns threw _ refl (count_failures-IsFounded ns s.observers s ok)

end_ready-IsFounded : (w : Wake) (s : State) → IsFounded s → IsFounded (end_ready w s)
unfolding end_ready
end_ready-IsFounded w s ok =
    settle-IsFounded w.namespace is_ready _ (ground (arith, same_codes_iff w.namespace w.namespace))
      (call-IsFounded (mark_ready w.subdomain) _ refl
        (call-IsFounded (saw_endpoint w.namespace) s refl ok))

wake_won_unique : (v w : Verdict) → wake_won v ≡ wake_won w → v ≡ w
wake_won_unique v w e = cc

grace-ne : (v : Verdict) → grace ≡ wake_won v → ⊥
grace-ne v e = cc

threw-ne : (message : List ℕ) (v : Verdict) → race_threw message ≡ wake_won v → ⊥
threw-ne message v e = cc

patched-IsFounded : (ns : List ℕ) (s : State) → IsFounded s → IsFounded (patched ns s)
unfolding patched IsFounded
patched-IsFounded ns s ok = call-IsFounded (wait_for_endpoint ns) s refl ok

Step-IsFounded :
    (c : Config) (n : ℕ) (s : State) (m : ℕ) (t : State)
    → Step c n s m t
    → IsFounded s
    → IsFounded t
Step-IsFounded c _ _ _ _ (arrives n seen req s) ok = arrive-IsFounded c seen req s ok
Step-IsFounded c _ _ _ _ (patch_returns n ns s _) ok = patched-IsFounded ns s ok
Step-IsFounded c _ _ _ _ (patch_throws n ns s _) ok = fail-IsFounded ns s ok
Step-IsFounded c _ _ _ _ (endpoint_appears n w s _) ok = end_ready-IsFounded w s ok
Step-IsFounded c _ _ _ _ (endpoint_times_out n ns s _) ok = settle-IsFounded ns timed_out s refl ok
Step-IsFounded c _ _ _ _ (wait_throws n ns s _) ok = fail-IsFounded ns s ok
Step-IsFounded c _ _ _ _ (deadline_passes n w s _) ok =
    call-IsFounded (counted _ w.subdomain) s refl ok
Step-IsFounded c _ _ _ _ (wake_wins n seen before x after v s e verdict) ok =
    resume-IsFounded c seen (wake_won v) before x after s e
      (λ won. verdict ∙ ap some (wake_won_unique v is_ready won)) ok
Step-IsFounded c _ _ _ _ (grace_wins n seen before x after s e) ok =
    resume-IsFounded c seen grace before x after s e (λ won. absurd (grace-ne is_ready won)) ok
Step-IsFounded c _ _ _ _ (race_throws n seen message before x after s e) ok =
    resume-IsFounded c seen (race_threw message) before x after s e
      (λ won. absurd (threw-ne message is_ready won)) ok

Reachable-IsFounded : (c : Config) (n : ℕ) (s : State) → Reachable c n s → IsFounded s
unfolding IsFounded
Reachable-IsFounded c _ _ started = (tt, tt)
Reachable-IsFounded c _ _ (moved k u n s r step) =
    Step-IsFounded c k u n s step (Reachable-IsFounded c k u r)

-- In every state that the handler can reach, each call to the proxy comes after a call for the same
-- namespace that saw a replica asked for or a ready endpoint: no request goes to a tenant that the
-- handler knows only as asleep.
pub Reachable-Warranted : (c : Config) (n : ℕ) (s : State) → Reachable c n s → Warranted s.calls
unfolding IsFounded
Reachable-Warranted c n s r = (Reachable-IsFounded c n s r).0
