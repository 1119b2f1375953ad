-- ===== src/Common/Lists.antt =====
-- Lists measured by native numbers, and searched and filtered by Boolean tests.
use Prim.Native.Nat.{ℕ, suc, ◌+◌, ◌≤◌}
use mathlib.Core.Path.{◌≡◌, refl, sym, ap, ◌∙◌, subst}
use mathlib.Core.Logic.{◌≢◌, ◌⊎◌, inl, inr}
use mathlib.Core.Bool.{Bool, true, false, ◌||◌}
use mathlib.Core.List.{List, [], ◌∷◌, ◌++◌, map}
use mathlib.Core.Option.{Option, none, some}
use native.Mathlib.Omega.{arith}
use dnd_notes.Common.Tests.{if◌then◌else◌, Bool-cases}

module _ {ℓ} {A : Type ℓ} where
  abbrev pub length : List A → ℕ
  length [] = 0
  length (x ∷ xs) = suc (length xs)

  -- Array.filter, and a WHERE clause.
  abbrev pub keep : (A → Bool) → List A → List A
  keep p [] = []
  keep p (x ∷ xs) = if p x then x ∷ keep p xs else keep p xs

  -- Array.find, and the first row of a SELECT.
  abbrev pub find : (A → Bool) → List A → Option A
  find p [] = none
  find p (x ∷ xs) = if p x then some x else find p xs

  abbrev pub any : (A → Bool) → List A → Bool
  any p [] = false
  any p (x ∷ xs) = p x || any p xs

  -- COUNT(*) over a WHERE clause.
  abbrev pub count : (A → Bool) → List A → ℕ
  count p [] = 0
  count p (x ∷ xs) = (if p x then 1 else 0) + count p xs

  abbrev pub All {κ} : (A → Type κ) → List A → Type κ
  All P [] = Unit
  All P (x ∷ xs) = P x × All P xs

  -- An UPDATE: the rows that the test picks are rewritten in place.
  abbrev pub update_where : (A → Bool) → (A → A) → List A → List A
  update_where p f [] = []
  update_where p f (x ∷ xs) = (if p x then f x else x) ∷ update_where p f xs

  pub length-append : (xs ys : List A) → length (xs ++ ys) ≡ length xs + length ys
  length-append [] ys = omega arith
  length-append (x ∷ xs) ys = omega (arith, length-append xs ys)

  pub length-keep-le : (p : A → Bool) (xs : List A) → length (keep p xs) ≤ length xs
  length-keep-le p [] = omega arith
  length-keep-le p (x ∷ xs) = ground (arith, length-keep-le p xs)

  pub All-append {κ} : (P : A → Type κ) (xs ys : List A) → All P xs → All P ys → All P (xs ++ ys)
  All-append P [] ys hx hy = hy
  All-append P (x ∷ xs) ys hx hy = (hx.0, All-append P xs ys hx.1 hy)

  -- What the test lets through satisfies it.
  pub All-keep : (p : A → Bool) (xs : List A) → All (λ x. p x ≡ true) (keep p xs)
  All-keep p [] = tt
  All-keep p (x ∷ xs) = ground (arith, All-keep p xs)

  pub All-zip {κ μ ν} :
      {P : A → Type κ} {Q : A → Type μ} {R : A → Type ν}
      → ((x : A) → P x → Q x → R x)
      → (xs : List A) → All P xs
      → All Q xs
      → All R xs
  All-zip f [] hp hq = tt
  All-zip f (x ∷ xs) hp hq = (f x hp.0 hq.0, All-zip f xs hp.1 hq.1)

  abbrev pub map_some {κ} : {B : Type κ} → (A → B) → Option A → Option B
  map_some f none = none
  map_some f (some a) = some (f a)

  pub find-true : (p : A → Bool) (xs : List A) (x : A) → find p xs ≡ some x → p x ≡ true
  find-true p [] x e = ground arith
  find-true p (y ∷ ys) x e = ground (arith, find-true p ys x)

  -- An update that keeps what the search tests is seen by the search.
  pub find-update_where :
      (p q : A → Bool) (f : A → A) (xs : List A)
      → ((x : A) → p (f x) ≡ p x)
      → find p (update_where q f xs) ≡ map_some (λ x. if q x then f x else x) (find p xs)
  find-update_where p q f [] h = refl
  find-update_where p q f (x ∷ xs) h = ground (arith, h x, find-update_where p q f xs h)

  pub length-update_where :
      (q : A → Bool) (f : A → A) (xs : List A) → length (update_where q f xs) ≡ length xs
  length-update_where q f [] = refl
  length-update_where q f (x ∷ xs) = omega (arith, length-update_where q f xs)

  -- The elements differ pairwise.
  abbrev pub Distinct : List A → Type ℓ
  Distinct [] = Unit
  Distinct (x ∷ xs) = All (λ y. y ≢ x) xs × Distinct xs

  pub All-append_parts {κ} :
      (P : A → Type κ) (xs ys : List A) → All P (xs ++ ys) → All P xs × All P ys
  All-append_parts P [] ys h = (tt, h)
  All-append_parts P (x ∷ xs) ys h = let (hx, hy) = All-append_parts P xs ys h.1 in ((h.0, hx), hy)

  pub Distinct-middle :
      (xs : List A) (t : A) (ys : List A)
      → Distinct (xs ++ t ∷ ys)
      → All (λ u. u ≢ t) xs × All (λ u. u ≢ t) ys
  Distinct-middle [] t ys h = (tt, h.0)
  Distinct-middle (x ∷ xs) t ys h =
      let (hx, hy) = Distinct-middle xs t ys h.1 in
      let (before, after) = All-append_parts (λ y. y ≢ x) xs (t ∷ ys) h.0 in
      (((λ e. after.0 (sym e)), hx), hy)

  pub Distinct-append :
      (xs ys : List A) → Distinct (xs ++ ys) → Distinct ys × All (λ u. All (λ v. v ≢ u) ys) xs
  Distinct-append [] ys h = (h, tt)
  Distinct-append (x ∷ xs) ys h =
      let (ds, apart) = Distinct-append xs ys h.1 in
      (ds, ((All-append_parts (λ y. y ≢ x) xs ys h.0).1, apart))

  pub find-All {κ} :
      (P : A → Type κ) (p : A → Bool) (xs : List A) (x : A) → All P xs → find p xs ≡ some x → P x
  find-All P p [] x h e = cc
  find-All P p (y ∷ ys) x h e = elim (Bool-cases (p y)) [
    | inl t ↦ subst P (ground (arith, t, e)) h.0
    | inr f ↦ find-All P p ys x h.1 (ground (arith, f, e))
  ]

module _ {A : Type 0} where
  abbrev pub In : List A → A → Type 0
  In [] a = ⊥
  In (x ∷ xs) a = (a ≡ x) ⊎ In xs a

  pub In-keep : (p : A → Bool) (xs : List A) (a : A) → In xs a → p a ≡ true → In (keep p xs) a
  In-keep p [] a h e = elim h [ ]
  In-keep p (x ∷ xs) a (inl same) h = rw (ap p (sym same) ∙ h) (inl same)
  In-keep p (x ∷ xs) a (inr later) h = elim (Bool-cases (p x)) [
    | inl e ↦ rw e (inr (In-keep p xs a later h))
    | inr e ↦ rw e (In-keep p xs a later h)
  ]

  pub In-of_keep : (p : A → Bool) (xs : List A) (a : A) → In (keep p xs) a → In xs a × (p a ≡ true)
  In-of_keep p [] a h = elim h [ ]
  In-of_keep p (x ∷ xs) a h = elim (Bool-cases (p x)) [
    | inl e ↦ elim (rw e at h) [
      | inl same ↦ (inl same, ap p same ∙ e)
      | inr later ↦ let k = In-of_keep p xs a later in (inr k.0, k.1)
    ]
    | inr e ↦ let k = In-of_keep p xs a (rw e at h) in (inr k.0, k.1)
  ]

  pub All-In {κ} : (P : A → Type κ) (xs : List A) (a : A) → All P xs → In xs a → P a
  All-In P [] a h e = elim e [ ]
  All-In P (x ∷ xs) a h (inl same) = subst P (sym same) h.0
  All-In P (x ∷ xs) a h (inr later) = All-In P xs a h.1 later

  pub In-map {κ ν} :
      {B : Type κ} (P : B → Type ν) (f : A → B) (xs : List A) (a : A)
      → All P (map f xs)
      → In xs a
      → P (f a)
  In-map P f [] a h e = elim e [ ]
  In-map P f (x ∷ xs) a h (inl same) = subst P (ap f (sym same)) h.0
  In-map P f (x ∷ xs) a h (inr later) = In-map P f xs a h.1 later

  -- In a list with distinct keys, two entries with one key are one entry.
  pub Distinct-unique {κ} :
      {B : Type κ} (f : A → B) (xs : List A) (a b : A)
      → Distinct (map f xs)
      → In xs a
      → In xs b
      → f a ≡ f b
      → a ≡ b
  Distinct-unique f [] a b d p q e = elim p [ ]
  Distinct-unique f (x ∷ xs) a b d (inl p) (inl q) e = p ∙ sym q
  Distinct-unique f (x ∷ xs) a b d (inl p) (inr q) e =
      absurd (In-map (λ y. y ≢ f x) f xs b d.0 q (sym e ∙ ap f p))
  Distinct-unique f (x ∷ xs) a b d (inr p) (inl q) e =
      absurd (In-map (λ y. y ≢ f x) f xs a d.0 p (e ∙ ap f q))
  Distinct-unique f (x ∷ xs) a b d (inr p) (inr q) e = Distinct-unique f xs a b d.1 p q e

  pub All-intro {κ} : (P : A → Type κ) (xs : List A) → ((a : A) → In xs a → P a) → All P xs
  All-intro P [] h = tt
  All-intro P (x ∷ xs) h = (h x (inl refl), All-intro P xs (λ a later. h a (inr later)))

module _ {ℓ} {A : Type ℓ} where
  pub All-map-over {κ ν} :
      (P : A → Type κ) (Q : A → Type ν) (f : A → A) (xs : List A)
      → ((x : A) → P x → Q (f x))
      → All P xs
      → All Q (map f xs)
  All-map-over P Q f [] g all = tt
  All-map-over P Q f (x ∷ xs) g (h, all) = (g x h, All-map-over P Q f xs g all)

  pub All-weaken {κ ν} :
      (P : A → Type κ) (Q : A → Type ν) (xs : List A) → ((x : A) → P x → Q x) → All P xs → All Q xs
  All-weaken P Q [] g all = tt
  All-weaken P Q (x ∷ xs) g (h, all) = (g x h, All-weaken P Q xs g all)

  pub All-drop {κ} :
      (P : A → Type κ) (before : List A) (x : A) (after : List A)
      → All P (before ++ x ∷ after)
      → P x × All P (before ++ after)
  All-drop P [] x after all = all
  All-drop P (y ∷ before) x after (h, all) =
      let (this, rest) = All-drop P before x after all in (this, (h, rest))
