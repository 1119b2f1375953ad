-- ===== src/Activator/Watch/Reconnect/Laws.antt =====
-- How long the loop waits between two connections.
use dnd_notes.Common.{
  zero, ℕ, suc, ◌+◌, ◌-◌, ◌*◌, ◌^◌, ◌≤◌, ◌<◌, min, List, [], ◌∷◌, arith, All, either,
}
use native.Mathlib.Nat.{mul-add, mul_left_comm, mul-le-mul_left}
use dnd_notes.Activator.Watch.Reconnect.{
  Backoff, draws, capped, compute_reconnect_delay, Turn, next_failures, run_watch_loop,
}

-- The delay is the capped one, changed by a fifth at most and rounded.
delay-bounds :
    (failures : ℕ) (b : Backoff) (draw : ℕ)
    → draw < draws
    → (10 * compute_reconnect_delay failures b draw ≤ 12 * capped failures b + 5)
      × (8 * capped failures b ≤ 10 * compute_reconnect_delay failures b draw + 5)
unfolding compute_reconnect_delay
delay-bounds failures b draw h =
    let c = capped failures b in
    let spread = mul-add c (4 * draws) (2 * draw) in
    let doubled = mul_left_comm c 2 draw in
    let small : draw ≤ draws = omega (arith, h) in
    let jitter = mul-le-mul_left c small in
    (omega (arith, spread, doubled, jitter), omega (arith, spread, doubled, jitter))

capped-le : (failures : ℕ) (b : Backoff) → capped failures b ≤ b.cap_ms
unfolding capped
capped-le failures b = omega arith

one-le_pow : (n : ℕ) → 1 ≤ 2 ^ n
one-le_pow zero = omega arith
one-le_pow (suc n) = omega (arith, one-le_pow n)

le-capped : (failures : ℕ) (b : Backoff) → min b.base_ms b.cap_ms ≤ capped failures b
unfolding capped
le-capped failures b =
    let grown = mul-le-mul_left b.base_ms (one-le_pow (failures - 1)) in omega (arith, grown)

-- Whatever the connections do, each delay that the loop sleeps before it reconnects lies, in exact
-- arithmetic, between four fifths of the base delay or of the cap, if that is less, and six fifths of
-- the cap, each rounded.
pub run_watch_loop-bounds :
    (b : Backoff) (failures : ℕ) (turns : List Turn)
    → All (λ t. t.draw < draws) turns
    → All
        (λ d. (10 * d ≤ 12 * b.cap_ms + 5) × (8 * min b.base_ms b.cap_ms ≤ 10 * d + 5))
        (run_watch_loop b failures turns)
unfolding run_watch_loop
run_watch_loop-bounds b failures [] h = tt
run_watch_loop-bounds b failures (t ∷ turns) (here, later) =
    let next = next_failures t.has_failed failures in
    let (upper, lower) = delay-bounds next b t.draw here in
    either
      (All (λ (d : ℕ). (10 * d ≤ 12 * b.cap_ms + 5) × (8 * min b.base_ms b.cap_ms ≤ 10 * d + 5)))
      t.is_stopped _ _ tt
      (
        (omega (arith, upper, capped-le next b), omega (arith, lower, le-capped next b)),
        run_watch_loop-bounds b next turns later,
      )
