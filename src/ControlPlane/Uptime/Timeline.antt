-- ===== src/ControlPlane/Uptime/Timeline.antt =====
-- The state at each millisecond, and how long it has a name.
use dnd_notes.Common.{
  ℕ, zero, suc, ◌+◌, ◌-◌, ◌≤◌, ◌<◌, String, true, false, ◌≡◌, refl, ap, ◌∙◌, List, [], ◌∷◌, ◌==◌,
  leb, if◌then◌else◌, arith, inl, inr, Bool-cases,
}
use dnd_notes.ControlPlane.Uptime.{StateTransition}

-- The state at a time: what the last transition until then led to, and the first state before them all.
unfoldable pub state_at : String → List StateTransition → ℕ → String
state_at state [] time = state
state_at state (x ∷ xs) time =
    let rest = state_at x.to_state xs time in if leb x.created_at time then rest else state

-- The milliseconds from `start` on, so many of them, at which the state has this name.
unfoldable pub time_in : (name : String) → (ℕ → String) → (start length : ℕ) → ℕ
time_in name state start zero = 0
time_in name state start (suc length) =
    (if state start == name then 1 else 0) + time_in name state (start + 1) length

-- In the order of time, none before `low`, all before `high`.
abbrev pub Ordered : (low high : ℕ) → List StateTransition → Type 0
Ordered low high [] = low ≤ high
Ordered low high (x ∷ xs) = (low ≤ x.created_at) × Ordered x.created_at high xs

pub time_in-split :
    (name : String) (state : ℕ → String) (start a b : ℕ)
    → time_in name state start (a + b)
      ≡ time_in name state start a + time_in name state (start + a) b
unfolding time_in
time_in-split name state start zero b = omega (
  arith,
  ap (time_in name state start) (zero_add b),
  ap (λ n. time_in name state n b) (add_zero start),
)
  where
    zero_add : (n : ℕ) → 0 + n ≡ n
    zero_add n = omega arith

    add_zero : (n : ℕ) → n + 0 ≡ n
    add_zero n = omega arith
time_in-split name state start (suc a) b =
    ap (time_in name state start) (suc_add a)
    ∙ omega (
      arith,
      time_in-split name state (start + 1) a b,
      ap (λ n. time_in name state n b) (add_suc start a),
    )
  where
    suc_add : (m : ℕ) → suc m + b ≡ suc (m + b)
    suc_add m = omega arith

    add_suc : (m n : ℕ) → m + 1 + n ≡ m + suc n
    add_suc m n = omega arith

pub time_in-same :
    (name : String) (f g : ℕ → String) (start length : ℕ)
    → ((t : ℕ) → start ≤ t → t < start + length → f t ≡ g t)
    → time_in name f start length ≡ time_in name g start length
unfolding time_in
time_in-same name f g start zero h = refl
time_in-same name f g start (suc length) h =
    let rest =
      time_in-same name f g (start + 1) length
        (λ t a b. h t (omega (arith, a)) (omega (arith, b))) in
    rw (h start (omega arith) (omega arith)) (omega (arith, rest))

pub time_in-constant :
    (name state : String) (start length : ℕ)
    → time_in name (λ _. state) start length ≡ (if state == name then length else 0)
unfolding time_in
time_in-constant name state start zero = elim (Bool-cases (state == name)) [
  | inl e ↦ rw e refl
  | inr e ↦ rw e refl
]
time_in-constant name state start (suc length) =
    let rest = time_in-constant name state (start + 1) length in
    elim (Bool-cases (state == name)) [
      | inl e ↦ rw e (let r = rw e at rest in omega (arith, r))
      | inr e ↦ rw e (let r = rw e at rest in omega (arith, r))
    ]

-- Up to the first transition the state is the first one, and from then on it goes its way.
pub timeline :
    (name state : String) (x : StateTransition) (xs : List StateTransition) (start now : ℕ)
    → start ≤ x.created_at
    → x.created_at ≤ now
    → time_in name (state_at state (x ∷ xs)) start (now - start)
      ≡ (if state == name then x.created_at - start else 0)
        + time_in name (state_at x.to_state xs) x.created_at (now - x.created_at)
unfolding state_at
timeline name state x xs start now a b =
    let at = x.created_at in
    let whole : now - start ≡ (at - start) + (now - at) = omega (arith, a, b) in
    let second : start + (at - start) ≡ at = omega (arith, a) in
    ap (time_in name (state_at state (x ∷ xs)) start) whole
    ∙ time_in-split name (state_at state (x ∷ xs)) start (at - start) (now - at)
    ∙ ap
        (λ n.
          time_in name (state_at state (x ∷ xs)) start (at - start)
          + time_in name (state_at state (x ∷ xs)) n (now - at))
        second
    ∙ ap (λ n. n + time_in name (state_at state (x ∷ xs)) at (now - at))
        (time_in-same name (state_at state (x ∷ xs)) (λ _. state) start (at - start)
            (λ t h k. before t (omega (arith, h, k, second)))
          ∙ time_in-constant name state start (at - start))
    ∙ ap (λ n. (if state == name then at - start else 0) + n)
        (time_in-same name (state_at state (x ∷ xs)) (state_at x.to_state xs) at (now - at)
          (λ t h k. after t h))
  where
    before : (t : ℕ) → t < x.created_at → state_at state (x ∷ xs) t ≡ state
    before t h = let e : leb x.created_at t ≡ false = ground (arith, h) in rw e refl

    after : (t : ℕ) → x.created_at ≤ t → state_at state (x ∷ xs) t ≡ state_at x.to_state xs t
    after t h = let e : leb x.created_at t ≡ true = ground (arith, h) in rw e refl
