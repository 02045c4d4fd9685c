-- ===== src/SortedMap.antt =====
-- What a client of storage/skiplist.h relies on: a map, here as its pairs in key order.
pub mod Laws
use reactor_kv.Prelude.{
  ℕ, Bool, true, false, Option, none, some, List, [], ◌∷◌, if◌then◌else◌, All, ◌≡◌, refl,
}
use reactor_kv.KeyOrder.{KeyOrder}

module _ {K V : Type 0} ⦃o : KeyOrder K⦄ where
  unfoldable pub lookup : K → List (K × V) → Option V
  lookup k [] = none
  lookup k ((j, v) ∷ m) = if o.equal j k then some v else lookup k m

  unfoldable pub insert : K → V → List (K × V) → List (K × V)
  insert k v [] = (k, v) ∷ []
  insert k v ((j, w) ∷ m) =
      let rest = insert k v m in
      if o.less j k then (j, w) ∷ rest else if o.equal j k then (k, v) ∷ m else (k, v) ∷ (j, w) ∷ m

  unfoldable pub erase : K → List (K × V) → List (K × V)
  erase k [] = []
  erase k ((j, w) ∷ m) = let rest = erase k m in if o.equal j k then m else (j, w) ∷ rest

  -- Keys rise strictly.
  abbrev pub IsOrdered : List (K × V) → Type 0
  IsOrdered [] = Unit
  IsOrdered ((j, w) ∷ m) = All (λ p. o.less j p.0 ≡ true) m × IsOrdered m

abbrev pub is_some {ℓ} : {A : Type ℓ} → Option A → Bool
is_some none = false
is_some (some a) = true

pub is_some-elim {ℓ} :
    {A : Type ℓ} (o : Option A)
    → ◌≡◌ {A = Option Bool} (some (elim o [ none ↦ false | some v ↦ true ])) (some (is_some o))
is_some-elim none = refl
is_some-elim (some a) = refl
