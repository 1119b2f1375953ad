-- ===== src/Api/Maintenance/Tests.antt =====
-- Writes before, during and after a maintenance window; the theorems at work on them.
use dnd_notes.Common.{
  ℕ, ◌+◌, ◌-◌, ◌*◌, false, not, codes, ◌≡◌, ◌↔◌, refl, some, List, count, same_codes,
  same_codes_iff, arith,
}
use dnd_notes.Api.References.{strip_prefix, trim, is_empty}
use dnd_notes.Api.Maintenance.{
  Request, Tenant, new_tenant, create_control_state, arrive, passes_gate, should_track_write,
  settle, on_finish, on_close, text, missing, read_maintenance, post_maintenance,
  wait_for_inflight_write_drain, authorize, authorized,
}
use dnd_notes.Api.Maintenance.Inflight.{
  Steps, stay, followed, arrived, finished, closed, posted, stays, holds, SameWrites,
  inflight_writes-unsettled, Held-SameWrites,
}
use dnd_notes.Api.Maintenance.Drain.{Drained, wait_for_inflight_write_drain-Drained}
use dnd_notes.Api.Maintenance.Auth.{authorize-authorized}

abbrev post_note : Request
post_note = record { method = "POST"; path = codes "/api/notes" }

-- Two writes arrive, maintenance begins, a third is refused, and the first finishes and closes.
abbrev busy : Tenant
busy = on_close 0 (
    on_finish 0 201 7 (
      arrive post_note (
        post_maintenance (text (codes "enable")) missing 6
          (arrive post_note (arrive post_note new_tenant)))))

abbrev busy_steps : Steps new_tenant busy
busy_steps =
    followed
      (followed
        (followed
          (followed (followed (followed stay (arrived post_note)) (arrived post_note))
            (posted (text (codes "enable")) missing 6))
          (arrived post_note))
        (finished 0 201 7))
      (closed 0)

one_left : busy.control.inflight_writes ≡ 1
unfolding create_control_state arrive passes_gate should_track_write strip_prefix post_maintenance
    read_maintenance on_finish on_close settle
one_left = refl

inflight_writes-unsettled_example : busy.control.inflight_writes ≡ count not busy.settled
inflight_writes-unsettled_example = inflight_writes-unsettled busy busy_steps

abbrev drained : Tenant
drained = on_close 1 busy

Held-SameWrites_example : SameWrites drained (on_finish 1 200 9 (arrive post_note drained))
unfolding create_control_state arrive passes_gate should_track_write strip_prefix post_maintenance
    read_maintenance on_finish on_close settle
Held-SameWrites_example =
    Held-SameWrites drained (on_finish 1 200 9 (arrive post_note drained))
      (followed busy_steps (closed 1)) refl refl
      (holds (holds stays (arrived post_note) refl) (finished 1 200 9) refl)

-- Three writes are in progress, and one of them ends in each turn.
wait_for_inflight_write_drain-Drained_example :
    Drained
      (λ n. 3 - n)
      (λ n. 25 * n)
      (25 * 0 + 100)
      (wait_for_inflight_write_drain (λ n. 3 - n) (λ n. 25 * n) (100 + 1) 100)
wait_for_inflight_write_drain-Drained_example =
    wait_for_inflight_write_drain-Drained (λ n. 3 - n) (λ n. 25 * n) 100 (λ n. omega arith)

authorize-authorized_example :
    (authorize (λ t. t) same_codes (some (codes "key ")) (some (codes "Bearer key")) ≡ authorized)
    ↔ ((is_empty (trim (codes "key ")) ≡ false)
        × (provided : List ℕ) × (strip_prefix (codes "Bearer ") (codes "Bearer key")
            ≡ some provided)
        × (trim (codes "key ") ≡ trim provided))
authorize-authorized_example =
    authorize-authorized (λ t. t) same_codes (λ a b e. same_codes_iff a b) (codes "key ")
      (codes "Bearer key")
