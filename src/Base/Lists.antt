-- ===== src/Base/Lists.antt =====
-- Lists measured by native numbers, and lists of references with Python's `in` and `remove`.
use Prim.Native.Nat.{ℕ, suc}
use mathlib.Core.Path.{◌≡◌, refl}
use mathlib.Core.Logic.{ite}
use mathlib.Core.Bool.{Bool, true, false, ◌||◌, ◌&&◌}
use mathlib.Core.List.{List, [], ◌∷◌, ◌++◌}
use native.Mathlib.Omega.{arith}
use native.Mathlib.Decide.{ℕ_discrete}
use linux_debug_mcp.Base.Tests.{if◌then◌else◌, holds}

module _ {ℓ} {A : Type ℓ} where
  abbrev pub length : List A → ℕ
  length [] = 0
  length (x ∷ xs) = suc (length xs)

  -- `x in xs`.
  unfoldable pub elem : Discrete A → A → List A → Bool
  elem same a [] = false
  elem same a (x ∷ xs) = holds (same x a) || elem same a xs

  -- `set(xs) <= set(ys)`.
  unfoldable pub subset : Discrete A → List A → List A → Bool
  subset same [] ys = true
  subset same (x ∷ xs) ys = elem same x ys && subset same xs ys

  -- `[x for x in xs if test(x)]`.
  unfoldable pub keep_if : (A → Bool) → List A → List A
  keep_if test [] = []
  keep_if test (x ∷ xs) = let rest = keep_if test xs in if test x then x ∷ rest else rest

module _ {ℓ} {A : Type ℓ} (same : Discrete A) where
  pub elem-append :
      (a : A) (xs ys : List A) → elem same a (xs ++ ys) ≡ (elem same a xs || elem same a ys)
  unfolding elem
  elem-append a [] ys = refl
  elem-append a (x ∷ xs) ys = ground (arith, elem-append a xs ys)

-- `xs.remove(r)`: the first occurrence goes.
unfoldable pub remove : ℕ → List ℕ → List ℕ
remove r [] = []
remove r (x ∷ xs) = ite (ℕ_discrete x r) xs (x ∷ remove r xs)

-- No reference stands twice.
abbrev pub Distinct : List ℕ → Type 0
Distinct [] = Unit {0}
Distinct (x ∷ xs) = (elem ℕ_discrete x xs ≡ false) × Distinct xs

pub elem-snoc :
    (q r : ℕ) (xs : List ℕ)
    → elem ℕ_discrete q (xs ++ r ∷ []) ≡ (elem ℕ_discrete q xs || holds (ℕ_discrete r q))
unfolding elem
elem-snoc q r [] = ground arith
elem-snoc q r (x ∷ xs) = ground (arith, elem-snoc q r xs)

pub Distinct-snoc :
    (r : ℕ) (xs : List ℕ) → elem ℕ_discrete r xs ≡ false → Distinct xs → Distinct (xs ++ r ∷ [])
unfolding elem
Distinct-snoc r [] h d = (refl, tt)
Distinct-snoc r (x ∷ xs) h d = ground (arith, elem-snoc x r xs, Distinct-snoc r xs)

-- In a list without repetition `remove` takes out just the one reference.
pub elem-remove :
    (q r : ℕ) (xs : List ℕ)
    → Distinct xs
    → elem ℕ_discrete q (remove r xs) ≡ ite (ℕ_discrete r q) false (elem ℕ_discrete q xs)
unfolding elem remove
elem-remove q r [] d = ground arith
elem-remove q r (x ∷ xs) d = ground (arith, elem-remove q r xs d.1)

pub Distinct-remove : (r : ℕ) (xs : List ℕ) → Distinct xs → Distinct (remove r xs)
unfolding remove
Distinct-remove r [] d = tt
Distinct-remove r (x ∷ xs) d = ground (arith, elem-remove x r xs d.1, Distinct-remove r xs d.1)

pub elem-keep_if :
    (q : ℕ) (test : ℕ → Bool) (xs : List ℕ)
    → elem ℕ_discrete q (keep_if test xs) ≡ (test q && elem ℕ_discrete q xs)
unfolding elem keep_if
elem-keep_if q test [] = ground arith
elem-keep_if q test (x ∷ xs) = ground (arith, elem-keep_if q test xs)
