-- ===== src/Base/Lists.antt =====
-- Lists measured by native numbers, under the library's names.
use mathlib.Core.Bool.{Bool, true, false}
use Prim.Native.Nat.{ℕ, zero, suc, ◌+◌, ◌-◌, ◌≤◌, ◌<◌, min}
use mathlib.Core.Path.{◌≡◌, refl, ap, sym, ◌∙◌}
use mathlib.Core.List.{List, [], ◌∷◌, ◌++◌, append_assoc}
use native.Mathlib.Omega.{arith}

module _ {ℓ} {A : Type ℓ} where
  abbrev pub length : List A → ℕ
  length [] = 0
  length (x ∷ xs) = suc (length xs)

  abbrev pub take : ℕ → List A → List A
  take zero xs = []
  take (suc n) [] = []
  take (suc n) (x ∷ xs) = x ∷ take n xs

  abbrev pub replicate : ℕ → A → List A
  replicate zero a = []
  replicate (suc n) a = a ∷ replicate n a

  abbrev pub drop : ℕ → List A → List A
  drop zero xs = xs
  drop (suc n) [] = []
  drop (suc n) (x ∷ xs) = drop n xs

  -- All the parts one after the other.
  abbrev pub flatten : List (List A) → List A
  flatten [] = []
  flatten (x ∷ xs) = x ++ flatten xs

module _ {ℓ} {A : Type ℓ} where
  pub length-append : (xs ys : List A) → length (xs ++ ys) ≡ length xs + length ys
  length-append [] ys = omega arith
  length-append (x ∷ xs) ys = omega (arith, length-append xs ys)

  pub take-append-drop : (n : ℕ) (xs : List A) → take n xs ++ drop n xs ≡ xs
  take-append-drop zero xs = refl
  take-append-drop (suc n) [] = refl
  take-append-drop (suc n) (x ∷ xs) = ap (◌∷◌ x) (take-append-drop n xs)

  pub length-take : (n : ℕ) (xs : List A) → length (take n xs) ≡ min n (length xs)
  length-take zero xs = omega arith
  length-take (suc n) [] = omega arith
  length-take (suc n) (x ∷ xs) = omega (arith, length-take n xs)

  pub length-drop : (n : ℕ) (xs : List A) → length (drop n xs) ≡ length xs - n
  length-drop zero xs = omega arith
  length-drop (suc n) [] = omega arith
  length-drop (suc n) (x ∷ xs) = omega (arith, length-drop n xs)

  pub drop-le-append :
      (n : ℕ) (xs ys : List A) → n ≤ length xs → drop n (xs ++ ys) ≡ drop n xs ++ ys
  drop-le-append zero xs ys h = refl
  drop-le-append (suc n) [] ys h = elim h [ ]
  drop-le-append (suc n) (x ∷ xs) ys h = drop-le-append n xs ys (omega arith)

  pub flatten-append : (xs ys : List (List A)) → flatten (xs ++ ys) ≡ flatten xs ++ flatten ys
  flatten-append [] ys = refl
  flatten-append (x ∷ xs) ys = ap (◌++◌ x) (flatten-append xs ys) ∙ sym (append_assoc x _ _)

module _ {ℓ} {A : Type ℓ} where
  pub length-drop-lt :
      (n : ℕ) (xs : List A) → 0 < n → 0 < length xs → length (drop n xs) < length xs
  length-drop-lt n xs h k = omega (arith, length-drop n xs)

  -- Equal lists that are cut at the same place have equal parts.
  pub append-cancel :
      (xs ys us vs : List A) → length xs ≡ length ys → xs ++ us ≡ ys ++ vs → (xs ≡ ys) × (us ≡ vs)
  append-cancel [] [] us vs n e = (refl, e)
  append-cancel [] (y ∷ ys) us vs n e = absurd (omega arith)
  append-cancel (x ∷ xs) [] us vs n e = absurd (omega arith)
  append-cancel (x ∷ xs) (y ∷ ys) us vs n e =
      ground (arith, append-cancel xs ys us vs (omega arith))

  pub take_all : (xs : List A) → take (length xs) xs ≡ xs
  take_all [] = refl
  take_all (x ∷ xs) = ap (◌∷◌ x) (take_all xs)

abbrev pub is_empty {ℓ} : {A : Type ℓ} → List A → Bool
is_empty [] = true
is_empty (x ∷ xs) = false

-- No part is empty.
abbrev pub NonEmpty {ℓ} : {A : Type ℓ} → List (List A) → Type ℓ
NonEmpty [] = Unit
NonEmpty (x ∷ xs) = (0 < length x) × NonEmpty xs

pub NonEmpty-snoc {ℓ} :
    {A : Type ℓ} (xs : List (List A)) (x : List A)
    → NonEmpty xs
    → 0 < length x
    → NonEmpty (xs ++ (x ∷ []))
NonEmpty-snoc [] x full some' = (some', tt)
NonEmpty-snoc (y ∷ xs) x full some' = (full.0, NonEmpty-snoc xs x full.1 some')
