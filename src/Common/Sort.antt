-- ===== src/Common/Sort.antt =====
-- ORDER BY: a stable insertion sort by a Boolean test of two rows.
use dnd_notes.Common.{
  Bool, true, false, ◌||◌, ◌≡◌, refl, sym, ap, ◌∙◌, arith, any, List, [], ◌∷◌, if◌then◌else◌,
}
use mathlib.Core.List.{Perm, foldr}
use mathlib.Core.Bool.{Bool-set}
use mathlib.Core.List.Perm

module _ {ℓ} {A : Type ℓ} (before : A → A → Bool) where
  -- Put a row in front of the first one that it precedes.
  unfoldable pub place : A → List A → List A
  place x [] = x ∷ []
  place x (y ∷ ys) = let rest = place x ys in if before y x then y ∷ rest else x ∷ y ∷ ys

  unfoldable pub order_by : List A → List A
  order_by [] = []
  order_by (x ∷ xs) = place x (order_by xs)

  place-perm : (x : A) (ys : List A) → Perm (place x ys) (x ∷ ys)
  unfolding place
  place-perm x [] = Perm.refl _
  place-perm x (y ∷ ys) = by_test (before y x) (place-perm x ys)
    where
      by_test :
          (b : Bool)
          → Perm (place x ys) (x ∷ ys)
          → Perm (if b then y ∷ place x ys else x ∷ y ∷ ys) (x ∷ y ∷ ys)
      by_test true h = Perm.trans (Perm.cons y h) (Perm.swap x y ys)
      by_test false h = Perm.refl _

  -- Nothing is lost or made up.
  pub order_by-perm : (xs : List A) → Perm (order_by xs) xs
  unfolding order_by
  order_by-perm [] = Perm.refl _
  order_by-perm (x ∷ xs) = Perm.trans (place-perm x (order_by xs)) (Perm.cons x (order_by-perm xs))

module _ {ℓ} {A : Type ℓ} (q : A → Bool) where
  any-foldr : (xs : List A) → any q xs ≡ foldr (λ x b. q x || b) false xs
  any-foldr [] = refl
  any-foldr (x ∷ xs) = ap (λ b. q x || b) (any-foldr xs)

  -- A test of the rows does not depend on their order.
  pub any-Perm : {xs ys : List A} → Perm xs ys → any q xs ≡ any q ys
  any-Perm {xs} {ys} p =
      any-foldr xs
      ∙ Perm.foldr-eq Bool-set (λ x b. q x || b) (λ x y b. exchange (q x) (q y) b) p false
      ∙ sym (any-foldr ys)
    where
      exchange : (x y z : Bool) → (x || (y || z)) ≡ (y || (x || z))
      exchange x y z = ground arith
