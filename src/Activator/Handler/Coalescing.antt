-- ===== src/Activator/Handler/Coalescing.antt =====
-- The wakes in progress and the requests that wait for them, through ensureWake and the settling of a
-- wake.
use dnd_notes.Common.{
  either_by, ℕ, ◌+◌, ◌≤◌, Bool, true, false, ◌||◌, not, ◌≡◌, refl, sym, ap, subst, inl, inr, Option,
  none, some, List, [], ◌∷◌, map, any, count, keep, arith, All, All-map-over, All-weaken,
  if◌then◌else◌, same_codes, same_codes_iff, Bool-cases,
}
use dnd_notes.Activator.Resolver.{TenantCoordinates}
use dnd_notes.Activator.Handler.{HttpRequest, Verdict, Held, State, Wake, has_wake, ensure_wake}
use dnd_notes.Activator.Handler.Flow.{hold, begin_wait, told, tell, settle}

abbrev pub is_of : List ℕ → Wake → Bool
is_of ns w = same_codes w.namespace ns

abbrev pub awaited : List Wake → TenantCoordinates → Option Verdict → Bool
awaited wakes t none = has_wake t.namespace wakes
awaited wakes t (some v) = true

abbrev pub IsAwaited : List Wake → Held → Type 0
IsAwaited wakes h = awaited wakes h.tenant h.verdict ≡ true

unfoldable pub Coalesced : List Wake → List Held → Type 0
Coalesced wakes held = ((ns : List ℕ) → count (is_of ns) wakes ≤ 1) × All (IsAwaited wakes) held

none-count : {A : Type 0} (p : A → Bool) (xs : List A) → any p xs ≡ false → count p xs ≡ 0
none-count p [] e = refl
none-count p (x ∷ xs) e = ground (arith, none-count p xs)

count-keep-le : {A : Type 0} (p q : A → Bool) (xs : List A) → count p (keep q xs) ≤ count p xs
count-keep-le p q [] = omega arith
count-keep-le p q (x ∷ xs) = ground (arith, count-keep-le p q xs)

any-keep :
    {A : Type 0} (p q : A → Bool) (xs : List A)
    → ((x : A) → p x ≡ true → q x ≡ true)
    → any p xs ≡ true
    → any p (keep q xs) ≡ true
any-keep p q [] f e = e
any-keep p q (x ∷ xs) f e = ground (arith, any-keep p q xs f, f x)

-- A change of the wakes that loses none keeps the requests awaited.
pub IsAwaited-weaken :
    (wakes wakes' : List Wake) (h : Held)
    → (has_wake h.tenant.namespace wakes ≡ true → has_wake h.tenant.namespace wakes' ≡ true)
    → IsAwaited wakes h
    → IsAwaited wakes' h
IsAwaited-weaken wakes wakes' h more = by_verdict h.verdict
  where
    by_verdict :
        (v : Option Verdict) → awaited wakes h.tenant v ≡ true → awaited wakes' h.tenant v ≡ true
    by_verdict none e = more e
    by_verdict (some v) e = refl

pub count-begin_wait :
    (ns ms : List ℕ) (wakes : List Wake)
    → count (is_of ms) (map (begin_wait ns) wakes) ≡ count (is_of ms) wakes
count-begin_wait ns ms [] = refl
count-begin_wait ns ms (w ∷ wakes) =
    ap (λ k. (if is_of ms w then 1 else 0) + k) (count-begin_wait ns ms wakes)

pub has_wake-begin_wait :
    (ns ms : List ℕ) (wakes : List Wake)
    → has_wake ms (map (begin_wait ns) wakes) ≡ has_wake ms wakes
has_wake-begin_wait ns ms [] = refl
has_wake-begin_wait ns ms (w ∷ wakes) =
    ap (λ b. same_codes w.namespace ms || b) (has_wake-begin_wait ns ms wakes)

ensure_wake-has :
    (t : TenantCoordinates) (s : State) → has_wake t.namespace (ensure_wake t s).wakes ≡ true
unfolding ensure_wake
ensure_wake-has t s =
    either_by (λ (r : State). has_wake t.namespace r.wakes ≡ true) (has_wake t.namespace s.wakes) _
      _ (λ waking. waking) (λ _. ground (arith, same_codes_iff t.namespace t.namespace))

add-Coalesced :
    (w : Wake) (wakes : List Wake) (held : List Held)
    → has_wake w.namespace wakes ≡ false
    → Coalesced wakes held
    → Coalesced (w ∷ wakes) held
unfolding Coalesced
add-Coalesced w wakes held asleep (one, waits) = (
  λ ns. elim (Bool-cases (is_of ns w)) [
    | inl same ↦
        let is : w.namespace ≡ ns = (same_codes_iff w.namespace ns).0 same in
        ground (
          arith,
          same,
          none-count (is_of ns) wakes (subst (λ m. has_wake m wakes ≡ false) is asleep),
        )
    | inr other ↦ ground (arith, other, one ns)
  ],
  All-weaken (IsAwaited wakes) (IsAwaited (w ∷ wakes)) held
      (λ h. IsAwaited-weaken wakes (w ∷ wakes) h (λ e. ground (arith, e))) waits,
)

pub ensure_wake-Coalesced :
    (t : TenantCoordinates) (s : State)
    → Coalesced s.wakes s.held
    → Coalesced (ensure_wake t s).wakes (ensure_wake t s).held
unfolding ensure_wake
ensure_wake-Coalesced t s ok =
    either_by (λ (r : State). Coalesced r.wakes r.held) (has_wake t.namespace s.wakes) _ _ (λ _. ok)
      (λ asleep. add-Coalesced _ s.wakes s.held asleep ok)

pub hold-Coalesced :
    (req : HttpRequest) (t : TenantCoordinates) (s : State)
    → Coalesced s.wakes s.held
    → Coalesced (hold req t s).wakes (hold req t s).held
unfolding hold Coalesced
hold-Coalesced req t s ok =
    let (one, waits) = ensure_wake-Coalesced t _ ok in (one, (ensure_wake-has t _, waits))

pub settle-Coalesced :
    (ns : List ℕ) (v : Verdict) (s : State)
    → Coalesced s.wakes s.held
    → Coalesced (settle ns v s).wakes (settle ns v s).held
unfolding settle Coalesced
settle-Coalesced ns v s (one, waits) =
    let left = keep (λ (w : Wake). not (same_codes w.namespace ns)) s.wakes in
    (
      λ ms.
          omega (
            arith,
            one ms,
            count-keep-le (is_of ms) (λ w. not (same_codes w.namespace ns)) s.wakes,
          ),
      All-map-over (IsAwaited s.wakes) (IsAwaited left) (tell ns v) s.held
          (λ h. told-awaited h h.verdict) waits,
    )
  where
    told-awaited :
        (h : Held) (old : Option Verdict)
        → awaited s.wakes h.tenant old ≡ true
        → awaited
            (keep (λ (w : Wake). not (same_codes w.namespace ns)) s.wakes)
            h.tenant
            (told (same_codes h.tenant.namespace ns) v old)
          ≡ true
    told-awaited h (some old) e = refl
    told-awaited h none e =
        either_by
          (λ o.
            awaited (keep (λ (w : Wake). not (same_codes w.namespace ns)) s.wakes) h.tenant o
            ≡ true)
          (same_codes h.tenant.namespace ns) (some v) none (λ _. refl)
          (λ other.
            any-keep (is_of h.tenant.namespace) (λ w. not (same_codes w.namespace ns)) s.wakes
              (λ w same. ap not (
                subst (λ m. same_codes m ns ≡ false)
                  (sym ((same_codes_iff w.namespace h.tenant.namespace).0 same)) other))
              e)
