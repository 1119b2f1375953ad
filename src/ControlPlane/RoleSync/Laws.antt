-- ===== src/ControlPlane/RoleSync/Laws.antt =====
-- The retry loop keeps its intervals and never falls silent, and marks only accounts in sync.
use dnd_notes.Common.{
  ℕ, ◌≤◌, String, Bool, true, false, ◌||◌, ◌≡◌, refl, ◌⊎◌, inl, inr, Option, none, some, List, [],
  ◌∷◌, arith, if◌then◌else◌, given, is_some, subst, sym,
}
use dnd_notes.ControlPlane.RoleSync.{
  Account, Answers, Intervals, State, pause, pause_from, assign_tenants, mark_complete,
  finish_account, sync_tenants, sync_as, sync_account, next_account, sync_accounts, schedule_next,
  schedule_if_done, tick_found, tick, fire, TimerEvent, time_passes, stop_called, on_event,
  run_events, stop, start_loop,
}

-- Within a tick no timer is set and the interval stays.
abbrev IsTicking : ℕ → State → Type 0
IsTicking n s = (s.interval ≡ n) × (s.timer ≡ none)

-- A part of a tick is broken off only by stop().
abbrev Ticks : ℕ → Option Bool × State → Type 0
Ticks n (r, s) = IsTicking n s × ((is_some r ≡ true) ⊎ (s.stopped ≡ true))

pause-IsTicking : (n : ℕ) (s : State) → IsTicking n s → IsTicking n (pause s)
unfolding pause
pause-IsTicking n s h = by_stops s.stops
  where
    by_stops : (bs : List Bool) → IsTicking n (pause_from bs s)
    by_stops [] = h
    by_stops (true ∷ bs) = (h.0, refl)
    by_stops (false ∷ bs) = h

if-Ticks :
    (n : ℕ) (b : Bool) (x y : Option Bool × State)
    → (b ≡ true → Ticks n x)
    → (b ≡ false → Ticks n y)
    → Ticks n (if b then x else y)
if-Ticks n true x y hx hy = hx refl
if-Ticks n false x y hx hy = hy refl

assign_tenants-Ticks :
    (w : Answers) (sub : String) (ts : List String) (all : Bool) (n : ℕ) (s : State)
    → IsTicking n s
    → Ticks n (assign_tenants w sub ts all s)
unfolding assign_tenants
assign_tenants-Ticks w sub [] all n s h = (h, inl refl)
assign_tenants-Ticks w sub (t ∷ ts) all n s h =
    if-Ticks n s.stopped _ _ (λ e. (h, inr e))
      (λ e. assign_tenants-Ticks w sub ts _ n (pause s) (pause-IsTicking n s h))

mark_complete-IsTicking :
    (w : Answers) (id : String) (n : ℕ) (s : State)
    → IsTicking n s
    → IsTicking n (mark_complete w id s)
unfolding mark_complete
mark_complete-IsTicking w id n s h = ground (arith, pause-IsTicking n s h)

finish_account-Ticks :
    (w : Answers) (id : String) (n : ℕ) (r : Option Bool × State)
    → Ticks n r
    → Ticks n (finish_account w id r)
finish_account-Ticks w id n (none, s) h = h
finish_account-Ticks w id n (some false, s) h = h
finish_account-Ticks w id n (some true, s) h = (mark_complete-IsTicking w id n s h.0, inl refl)

sync_account-Ticks :
    (w : Answers) (a : Account) (n : ℕ) (s : State) → IsTicking n s → Ticks n (sync_account w a s)
unfolding sync_account
sync_account-Ticks w a n s h = by_sub (given a.keycloak_sub)
  where
    by_tenants :
        (sub : String) (o : Option (List String)) → Ticks n (sync_tenants w a.id sub o (pause s))
    by_tenants sub none = (pause-IsTicking n s h, inl refl)
    by_tenants sub (some ts) =
        finish_account-Ticks w a.id n _
          (assign_tenants-Ticks w sub ts true n (pause s) (pause-IsTicking n s h))

    by_sub : (o : Option String) → Ticks n (sync_as w a.id o s)
    by_sub none = (h, inl refl)
    by_sub (some sub) = by_tenants sub (w.tenants_of a.id)

next_account-Ticks :
    (loop : Bool → State → Option Bool × State) (any : Bool) (n : ℕ)
    → ((b : Bool) (s : State) → IsTicking n s → Ticks n (loop b s))
    → (r : Option Bool × State) → Ticks n r
    → Ticks n (next_account loop any r)
next_account-Ticks loop any n h (none, t) k = k
next_account-Ticks loop any n h (some b, t) k = h (any || b) t k.0

sync_accounts-Ticks :
    (w : Answers) (accounts : List Account) (any : Bool) (n : ℕ) (s : State)
    → IsTicking n s
    → Ticks n (sync_accounts w accounts any s)
unfolding sync_accounts
sync_accounts-Ticks w [] any n s h = (h, inl refl)
sync_accounts-Ticks w (a ∷ rest) any n s h =
    if-Ticks n s.stopped _ _ (λ e. (h, inr e))
      (λ e.
        next_account-Ticks (sync_accounts w rest) any n
          (λ b t k. sync_accounts-Ticks w rest b n t k) (sync_account w a s)
          (sync_account-Ticks w a n s h))

-- Between ticks: the interval is in bounds, and the next tick is scheduled unless stop() was called.
pub record IsAlive (i : Intervals) (s : State) : Type 0 where
  pub above : i.base ≤ s.interval
  pub below : s.interval ≤ i.maximum
  pub scheduled :
      ((s.stopped ≡ true) × (s.timer ≡ none)) ⊎ ((s.stopped ≡ false) × (s.timer ≡ some s.interval))

schedule_next-IsAlive :
    (i : Intervals) (any : Bool) (n : ℕ) (s : State)
    → i.base ≤ n
    → n ≤ i.maximum
    → IsTicking n s
    → IsAlive i (schedule_next i any s)
unfolding schedule_next
schedule_next-IsAlive i any n s lo hi h = record {
  above = ground (arith, h);
  below = ground (arith, h);
  scheduled = ground (arith, h);
}

schedule_if_done-IsAlive :
    (i : Intervals) (n : ℕ) (r : Option Bool × State)
    → i.base ≤ n
    → n ≤ i.maximum
    → Ticks n r
    → IsAlive i (schedule_if_done i r)
schedule_if_done-IsAlive i n (none, s) lo hi h = record {
  above = ground (arith, h);
  below = ground (arith, h);
  scheduled = ground (arith, h);
}
schedule_if_done-IsAlive i n (some any, s) lo hi h = schedule_next-IsAlive i any n s lo hi h.0

tick-IsAlive :
    (i : Intervals) (w : Answers) (n : ℕ) (s : State)
    → i.base ≤ n
    → n ≤ i.maximum
    → s.stopped ≡ false
    → IsTicking n s
    → IsAlive i (tick i w s)
unfolding tick
tick-IsAlive i w n s lo hi going h =
    subst (λ b. IsAlive i (if b then s else tick_found i w w.pending_accounts (pause s)))
      (sym going) (by_answer w.pending_accounts)
  where
    by_answer : (o : Option (List Account)) → IsAlive i (tick_found i w o (pause s))
    by_answer none = schedule_next-IsAlive i false n _ lo hi (pause-IsTicking n s h)
    by_answer (some []) = schedule_next-IsAlive i true n _ lo hi (pause-IsTicking n s h)
    by_answer (some (a ∷ rest)) =
        schedule_if_done-IsAlive i n _ lo hi
          (sync_accounts-Ticks w (a ∷ rest) false n _ (pause-IsTicking n s h))

fire-IsAlive :
    (i : Intervals) (w : Answers) (s : State) → IsAlive i s → IsAlive i (fire i w s.timer s)
fire-IsAlive i w s h = elim h.scheduled [
  | inl (e, off) ↦ subst (λ o. IsAlive i (fire i w o s)) (sym off) h
  | inr (going, on) ↦
      subst (λ o. IsAlive i (fire i w o s)) (sym on)
        (tick-IsAlive i w s.interval _ h.above h.below going (refl, refl))
]

stop-IsAlive : (i : Intervals) (s : State) → IsAlive i s → IsAlive i (stop s)
stop-IsAlive i s h = record { above = h.above; below = h.below; scheduled = inl (refl, refl) }

on_event-IsAlive :
    (i : Intervals) (e : TimerEvent) (s : State) → IsAlive i s → IsAlive i (on_event i e s)
on_event-IsAlive i (time_passes w) s h = fire-IsAlive i w s h
on_event-IsAlive i stop_called s h = stop-IsAlive i s h

run_events-IsAlive :
    (i : Intervals) (es : List TimerEvent) (s : State) → IsAlive i s → IsAlive i (run_events i es s)
unfolding run_events
run_events-IsAlive i [] s h = h
run_events-IsAlive i (e ∷ rest) s h =
    run_events-IsAlive i rest (on_event i e s) (on_event-IsAlive i e s h)

-- A loop that was started stays alive through any number of ticks, whatever the registry and
-- Keycloak answer, and whenever stop() is called, within a tick and between two: its interval lies
-- between the base and the maximum, and either it was stopped and no tick is scheduled, or the next
-- one is, after the interval.
pub start_loop-IsAlive :
    (i : Intervals) (stops : List Bool) (es : List TimerEvent) (s : State)
    → start_loop i stops ≡ some s
    → IsAlive i (run_events i es s)
unfolding start_loop
start_loop-IsAlive i stops es s started = run_events-IsAlive i es s (record {
  above = ground (arith, started);
  below = ground (arith, started);
  scheduled = ground (arith, started);
})
