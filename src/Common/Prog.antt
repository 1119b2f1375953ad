-- ===== src/Common/Prog.antt =====
-- Asynchronous code with exceptions: an action takes the state that it shares with the rest of
-- the process, and gives a value or a thrown message together with the state that it leaves.
use Prim.Native.String.{String}
use mathlib.Core.Path.{◌≡◌, refl}
use mathlib.Core.Logic.{◌⊎◌, inl, inr}
use native.Mathlib.Omega.{arith}

pub data Result {ℓ} (A : Type ℓ) : Type ℓ where
  ok : A → Result A
  err : String → Result A

abbrev pub Prog : Type 0 → Type 0 → Type 0
Prog S A = S → Result A × S

module _ {S : Type 0} where
  abbrev pub follow : {A B : Type 0} → Result A × S → (A → Prog S B) → Result B × S
  follow (ok a, s) f = f a s
  follow (err e, s) f = (err e, s)

  infixl 5 ◌>>=◌ ◌>>◌
  abbrev pub ◌>>=◌ : {A B : Type 0} → Prog S A → (A → Prog S B) → Prog S B
  ◌>>=◌ m f s = follow (m s) f

  abbrev pub ◌>>◌ : {B : Type 0} → Prog S (Unit {0}) → Prog S B → Prog S B
  m >> k = m >>= λ _. k

  abbrev pub pure : {A : Type 0} → A → Prog S A
  pure a s = (ok a, s)

  abbrev pub throw : {A : Type 0} → String → Prog S A
  throw e s = (err e, s)

  abbrev pub recover : {A : Type 0} → Result A × S → (String → Prog S A) → Result A × S
  recover (ok a, s) h = (ok a, s)
  recover (err e, s) h = h e s

  -- try { m } catch (error) { h(error) }
  abbrev pub try_catch : {A : Type 0} → Prog S A → (String → Prog S A) → Prog S A
  try_catch m h s = recover (m s) h

  abbrev pub modify : (S → S) → Prog S (Unit {0})
  modify f s = (ok tt, f s)

pub Result-cases {ℓ} :
    {A : Type ℓ} (r : Result A) → ((a : A) × (r ≡ ok a)) ⊎ ((e : String) × (r ≡ err e))
Result-cases (ok a) = inl (a, refl)
Result-cases (err e) = inr (e, refl)

module _ {S : Type 0} where
  -- A handler that does not throw makes a guarded action that does not throw.
  pub try_catch-ok :
      (m : Prog S (Unit {0})) (h : String → Prog S (Unit {0}))
      → ((e : String) (s : S) → (h e s).0 ≡ ok tt)
      → (s : S) → (try_catch m h s).0 ≡ ok tt
  try_catch-ok m h k s = by_result (m s)
    where
      by_result : (r : Result (Unit {0}) × S) → (recover r h).0 ≡ ok tt
      by_result (ok a, t) = refl
      by_result (err e, t) = k e t

  pub follow-ok :
      {A B : Type 0} (r : Result A × S) (f : A → Prog S B) (a : A)
      → r.0 ≡ ok a
      → follow r f ≡ f a r.1
  follow-ok (ok b, t) f a e = ground arith
  follow-ok (err x, t) f a e = cc

  pub recover-ok :
      {A : Type 0} (r : Result A × S) (h : String → Prog S A) (a : A) → r.0 ≡ ok a → recover r h ≡ r
  recover-ok (ok b, t) h a e = refl
  recover-ok (err x, t) h a e = cc
