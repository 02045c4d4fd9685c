-- ===== src/Prelude/Counting.antt =====
-- How many elements of a list pass a test.
use Prim.Native.Nat.{ℕ, zero, suc, ◌+◌, ◌<◌}
use mathlib.Core.Path.{◌≡◌, refl}
use mathlib.Core.Bool.{Bool, true, false}
use mathlib.Core.List.{List, [], ◌∷◌}
use mathlib.Core.Option.{some}
use native.Mathlib.Omega.{arith}
use reactor_kv.Prelude.Tests.{Bool-cases}
use mathlib.Core.Logic.{inl, inr}
use reactor_kv.Prelude.Options.{some_injective}
use reactor_kv.Prelude.Lists.{get_elem?, set, replicate}

abbrev pub one_if : Bool → ℕ
one_if true = 1
one_if false = 0

module _ {ℓ} {A : Type ℓ} where
  pub count : (A → Bool) → List A → ℕ
  count f [] = 0
  count f (x ∷ xs) = one_if (f x) + count f xs

  pub count-set :
      (f : A → Bool) (xs : List A) (i : ℕ) (x y : A)
      → get_elem? xs i ≡ some x
      → count f (set xs i y) + one_if (f x) ≡ count f xs + one_if (f y)
  unfolding count
  count-set f [] i x y e = cc
  count-set f (z ∷ xs) zero x y e = rw (some_injective z x e) (omega arith)
  count-set f (z ∷ xs) (suc i) x y e = let h = count-set f xs i x y e in omega arith

  -- Where one is counted, one is there.
  pub count-found :
      (f : A → Bool) (xs : List A)
      → 0 < count f xs
      → (i : ℕ) × (x : A) × (get_elem? xs i ≡ some x) × (f x ≡ true)
  unfolding count
  count-found f [] h = absurd (omega arith)
  count-found f (x ∷ xs) h = elim (Bool-cases (f x)) [
    | inl e ↦ (0, x, refl, e)
    | inr e ↦
        let k = rw e at h in let (i, y, p, q) = count-found f xs (omega arith) in (suc i, y, p, q)
  ]

  pub count-found_one :
      (f : A → Bool) (xs : List A) (i : ℕ) (x : A)
      → get_elem? xs i ≡ some x
      → f x ≡ true
      → 0 < count f xs
  unfolding count
  count-found_one f [] i x e t = cc
  count-found_one f (z ∷ xs) zero x e t = rw (some_injective z x e, t) (omega arith)
  count-found_one f (z ∷ xs) (suc i) x e t = let h = count-found_one f xs i x e t in omega arith

  pub count-replicate : (f : A → Bool) (n : ℕ) (x : A) → f x ≡ false → count f (replicate n x) ≡ 0
  unfolding count
  count-replicate f zero x e = refl
  count-replicate f (suc n) x e = let h = count-replicate f n x e in rw e (omega arith)
