-- ===== src/Base/Sub.antt =====
-- Lists that are another list with some entries left out.
use mathlib.Core.List.{List, [], ◌∷◌, ◌++◌}

-- The left list is the right one with some entries left out.
pub data Sub {ℓ} {A : Type ℓ} : List A → List A → Type ℓ where
  none_left : Sub [] []
  keeps : (m : A) {xs ys : List A} → Sub xs ys → Sub (m ∷ xs) (m ∷ ys)
  skips : (m : A) {xs ys : List A} → Sub xs ys → Sub xs (m ∷ ys)

module _ {ℓ} {A : Type ℓ} where
  pub Sub-snoc : {xs ys : List A} (m : A) → Sub xs ys → Sub (xs ++ (m ∷ [])) (ys ++ (m ∷ []))
  Sub-snoc m none_left = keeps m none_left
  Sub-snoc m (keeps n s) = keeps n (Sub-snoc m s)
  Sub-snoc m (skips n s) = skips n (Sub-snoc m s)

  pub Sub-refl : (xs : List A) → Sub xs xs
  Sub-refl [] = none_left
  Sub-refl (x ∷ xs) = keeps x (Sub-refl xs)

  Sub-within : {ys zs : List A} → Sub ys zs → {xs : List A} → Sub xs ys → Sub xs zs
  Sub-within none_left s = s
  Sub-within (keeps n t) (keeps m s) = keeps m (Sub-within t s)
  Sub-within (keeps n t) (skips m s) = skips n (Sub-within t s)
  Sub-within (skips n t) s = skips n (Sub-within t s)

  pub Sub-trans : {xs ys zs : List A} → Sub xs ys → Sub ys zs → Sub xs zs
  Sub-trans s t = Sub-within t s

  pub Sub-drop : (xs gone kept : List A) → Sub (xs ++ kept) (xs ++ (gone ++ kept))
  Sub-drop (x ∷ xs) gone kept = keeps x (Sub-drop xs gone kept)
  Sub-drop [] [] kept = Sub-refl kept
  Sub-drop [] (g ∷ gone) kept = skips g (Sub-drop [] gone kept)

  pub Sub-append : {xs xs' ys ys' : List A} → Sub xs xs' → Sub ys ys' → Sub (xs ++ ys) (xs' ++ ys')
  Sub-append none_left t = t
  Sub-append (keeps m s) t = keeps m (Sub-append s t)
  Sub-append (skips m s) t = skips m (Sub-append s t)

  pub Sub-none : (ys : List A) → Sub [] ys
  Sub-none [] = none_left
  Sub-none (y ∷ ys) = skips y (Sub-none ys)
