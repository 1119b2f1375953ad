-- ===== src/Activator/Watch/Reconnect.antt =====
-- computeReconnectDelay and runWatchLoop, apps/activator/src/deployment-watch.ts. Math.random gives
-- draw / 2 ^ 53; the delay is the one of exact arithmetic, where the source computes in doubles.
pub mod Laws
use dnd_notes.Common.{
  ℕ, ◌+◌, ◌-◌, ◌*◌, ◌/◌, ◌^◌, min, Bool, true, false, ◌||◌, List, [], ◌∷◌, if◌then◌else◌,
}

pub record Backoff : Type 0 where
  pub base_ms : ℕ
  pub cap_ms : ℕ

abbrev pub draws : ℕ
draws = 2 ^ 53

unfoldable pub capped : (consecutive_failures : ℕ) → Backoff → ℕ
capped consecutive_failures b = min (b.base_ms * 2 ^ (consecutive_failures - 1)) b.cap_ms

-- Math.round(x) is the floor of x + 1/2, and the jitter is 1 + (2 * draw / draws - 1) / 5.
unfoldable pub compute_reconnect_delay : (consecutive_failures : ℕ) → Backoff → (draw : ℕ) → ℕ
compute_reconnect_delay consecutive_failures b draw =
    (2 * (capped consecutive_failures b * (4 * draws + 2 * draw)) + 5 * draws) / (10 * draws)

-- One turn of the loop: how the connection ended, whether stop() was called before that, and the draw.
pub record Turn : Type 0 where
  pub has_failed : Bool
  pub is_stopped : Bool
  pub draw : ℕ

abbrev pub next_failures : Bool → ℕ → ℕ
next_failures true n = n + 1
next_failures false n = 0

-- The delays that the loop sleeps, up to the turn in which it is stopped.
unfoldable pub run_watch_loop : Backoff → (consecutive_failures : ℕ) → List Turn → List ℕ
run_watch_loop b n [] = []
run_watch_loop b n (t ∷ turns) =
    let failures = next_failures t.has_failed n in
    let rest = run_watch_loop b failures turns in
    if t.is_stopped then [] else compute_reconnect_delay failures b t.draw ∷ rest
