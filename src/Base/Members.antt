-- ===== src/Base/Members.antt =====
-- Lists of numbers as sets: a Boolean membership test, and lists without repetitions; and maps from
-- numbers.
use Prim.Native.Nat.{ℕ, suc, ◌+◌}
use mathlib.Core.Path.{◌≡◌, refl, subst}
use mathlib.Core.Logic.{inl, inr}
use mathlib.Core.Bool.{Bool, false, ◌||◌}
use mathlib.Core.List.{List, [], ◌∷◌, ◌++◌}
use native.Mathlib.Omega.{arith}
use tcp_simple_chat.Base.Tests.{◌==◌, if◌then◌else◌, Bool-cases}

-- A map from numbers with the value at `p` replaced.
abbrev pub update {ℓ} : {A : Type ℓ} → (ℕ → A) → ℕ → A → ℕ → A
update f p a q = if q == p then a else f q

abbrev pub contains : List ℕ → ℕ → Bool
contains [] a = false
contains (x ∷ xs) a = a == x || contains xs a

abbrev pub Distinct : List ℕ → Type 0
Distinct [] = Unit
Distinct (x ∷ xs) = (contains xs x ≡ false) × Distinct xs

pub contains-append :
    (xs ys : List ℕ) (a : ℕ) → contains (xs ++ ys) a ≡ (contains xs a || contains ys a)
contains-append [] ys a = refl
contains-append (x ∷ xs) ys a = ground (arith, contains-append xs ys a)

pub Distinct-snoc :
    (xs : List ℕ) (a : ℕ) → Distinct xs → contains xs a ≡ false → Distinct (xs ++ (a ∷ []))
Distinct-snoc [] a d out = (refl, tt)
Distinct-snoc (x ∷ xs) a d out =
    (ground (arith, d.0, contains-append xs (a ∷ []) x), Distinct-snoc xs a d.1 (ground arith))

abbrev pub count : List ℕ → ℕ → ℕ
count [] a = 0
count (x ∷ xs) a = if a == x then suc (count xs a) else count xs a

pub count-append : (xs ys : List ℕ) (a : ℕ) → count (xs ++ ys) a ≡ count xs a + count ys a
count-append [] ys a = omega arith
count-append (x ∷ xs) ys a = ground (arith, count-append xs ys a)

pub count-Distinct :
    (xs : List ℕ) (a : ℕ) → Distinct xs → count xs a ≡ (if contains xs a then 1 else 0)
count-Distinct [] a d = refl
count-Distinct (x ∷ xs) a d = elim (Bool-cases (a == x)) [
  | inl e ↦
      let e' : x ≡ a = ground arith in
      let out : contains xs a ≡ false = subst (λ i. contains xs i ≡ false) e' d.0 in
      ground (arith, count-Distinct xs a d.1, out)
  | inr e ↦ ground (arith, count-Distinct xs a d.1)
]
