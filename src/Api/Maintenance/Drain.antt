-- ===== src/Api/Maintenance/Drain.antt =====
-- The wait for the writes that are in progress.
use dnd_notes.Common.{
  ℕ, zero, suc, ◌+◌, ◌≤◌, ◌<◌, Bool, ◌≡◌, refl, sym, ap, Option, some, ltb, leb, ◌=ℕ◌, arith, inl,
  inr, Bool-cases, ◌⊎◌,
}
use dnd_notes.Api.Maintenance.{wait_turns, wait_for_inflight_write_drain}

-- The wait answers at some turn: whether no write was in progress then, and where one was, not before
-- the deadline.
abbrev pub Drained : (inflight clock : ℕ → ℕ) → (deadline : ℕ) → Option Bool → Type 0
Drained inflight clock deadline answer =
    (turn : ℕ) × (answer ≡ some (inflight turn =ℕ 0))
    × ((inflight turn ≡ 0) ⊎ (deadline ≤ clock turn))

wait_turns-Drained :
    (inflight clock : ℕ → ℕ) (deadline fuel turn : ℕ)
    → ((n : ℕ) → clock n < clock (suc n))
    → 0 < fuel
    → deadline < clock turn + fuel
    → Drained inflight clock deadline (wait_turns inflight clock deadline fuel turn)
unfolding wait_turns
wait_turns-Drained inflight clock deadline zero turn ticks some_fuel h =
    absurd (omega (arith, some_fuel))
wait_turns-Drained inflight clock deadline (suc fuel) turn ticks some_fuel h =
    elim (Bool-cases (ltb 0 (inflight turn))) [
      | inl busy ↦ elim (Bool-cases (leb deadline (clock turn))) [
        | inl late ↦ rw (busy, late) (turn, ground (arith, busy), inr (ground (arith, late)))
        | inr early ↦
            let before : clock turn < deadline = ground (arith, early) in
            rw (busy, early)
              (wait_turns-Drained inflight clock deadline fuel (suc turn) ticks
                (omega (arith, before, h)) (omega (arith, before, h, ticks turn)))
      ]
      | inr idle ↦
          let none_left : inflight turn ≡ 0 = ground (arith, idle) in
          rw idle (turn, ap (λ n. some (n =ℕ 0)) (sym none_left), inl none_left)
    ]

-- Where the clock goes on between two turns, the wait ends after at most one turn for each millisecond of
-- the grace, and one more. It says that the tenant is drained exactly where no write is in progress at
-- that moment, and says that it is not only at the deadline or later.
pub wait_for_inflight_write_drain-Drained :
    (inflight clock : ℕ → ℕ) (timeout_ms : ℕ)
    → ((n : ℕ) → clock n < clock (suc n))
    → Drained inflight clock
        (clock 0 + timeout_ms)
        (wait_for_inflight_write_drain inflight clock (timeout_ms + 1) timeout_ms)
unfolding wait_for_inflight_write_drain
wait_for_inflight_write_drain-Drained inflight clock timeout_ms ticks =
    elim (Bool-cases (timeout_ms =ℕ 0)) [
      | inl e ↦
          let now : timeout_ms ≡ 0 = ground (arith, e) in rw e (0, refl, inr (omega (arith, now)))
      | inr e ↦ rw e (
          wait_turns-Drained inflight clock (clock 0 + timeout_ms) (timeout_ms + 1) 0 ticks
            (omega arith) (omega arith))
    ]
