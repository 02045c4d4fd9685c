-- ===== src/SortedMap/Laws.antt =====
-- The laws of the map that storage/skiplist.h implements.
use reactor_kv.Prelude.{
  ◌≤◌, suc, length, true, false, none, some, List, [], ◌∷◌, if◌then◌else◌, All, ◌≡◌, refl, arith,
  Bool-cases, inl, inr, ◌++◌,
}
use reactor_kv.KeyOrder.{KeyOrder}
use reactor_kv.SortedMap.{lookup, insert, erase, IsOrdered}

module _ {K : Type 0} ⦃o : KeyOrder K⦄ where
  pub equal_refl : (a : K) → o.equal a a ≡ true
  equal_refl a = (o.equal_iff a a).1 refl

  pub equal-false_of_less : (a b : K) → o.less a b ≡ true → o.equal a b ≡ false
  equal-false_of_less a b h = elim (Bool-cases (o.equal a b)) [
    | inl p ↦ cc (rw ((o.equal_iff a b).0 p, o.less_irrefl b) at h)
    | inr p ↦ p
  ]

  pub equal-sym_false : (a b : K) → o.equal a b ≡ false → o.equal b a ≡ false
  equal-sym_false a b h = elim (Bool-cases (o.equal b a)) [
    | inl p ↦ cc (rw ((o.equal_iff b a).0 p, equal_refl a) at h)
    | inr p ↦ p
  ]

module _ {K V : Type 0} ⦃o : KeyOrder K⦄ where
  -- A key below all keys of the map is not in it.
  pub lookup-least :
      (k : K) (m : List (K × V)) → All (λ p. o.less k p.0 ≡ true) m → lookup k m ≡ none
  unfolding lookup
  lookup-least k [] a = refl
  lookup-least k ((j, w) ∷ m) a =
      rw (equal-sym_false k j (equal-false_of_less k j a.0)) (lookup-least k m a.1)

  pub lookup-insert :
      (k i : K) (v : V) (m : List (K × V))
      → lookup i (insert k v m) ≡ (if o.equal k i then some v else lookup i m)
  unfolding lookup insert
  lookup-insert k i v [] = refl
  lookup-insert k i v ((j, w) ∷ m) = ground (
    arith,
    lookup-insert k i v m,
    equal-false_of_less j k,
    o.equal_iff j k,
    o.equal_iff k i,
    o.equal_iff j i,
  )

  pub lookup-erase :
      (k i : K) (m : List (K × V))
      → IsOrdered m
      → lookup i (erase k m) ≡ (if o.equal k i then none else lookup i m)
  unfolding lookup erase
  lookup-erase k i [] s = ground arith
  lookup-erase k i ((j, w) ∷ m) s = ground (
    arith,
    lookup-erase k i m s.1,
    lookup-least j m s.0,
    o.equal_iff j k,
    o.equal_iff k i,
    o.equal_iff j i,
  )

  -- Without the key there is nothing to erase.
  pub erase-none : (k : K) (m : List (K × V)) → lookup k m ≡ none → erase k m ≡ m
  unfolding erase lookup
  erase-none k [] e = refl
  erase-none k ((j, w) ∷ m) e = ground (arith, erase-none k m)

  pub All-insert :
      (P : K × V → Type 0) (k : K) (v : V) (m : List (K × V))
      → P (k, v)
      → All P m
      → All P (insert k v m)
  unfolding insert
  All-insert P k v [] p a = (p, tt)
  All-insert P k v ((j, w) ∷ m) p a = elim (Bool-cases (o.less j k)) [
    | inl t ↦ rw t (a.0, All-insert P k v m p a.1)
    | inr t ↦ elim (Bool-cases (o.equal j k)) [
      | inl q ↦ rw (t, q) (p, a.1)
      | inr q ↦ rw (t, q) (p, a)
    ]
  ]

  pub All-erase : (P : K × V → Type 0) (k : K) (m : List (K × V)) → All P m → All P (erase k m)
  unfolding erase
  All-erase P k [] a = tt
  All-erase P k ((j, w) ∷ m) a = elim (Bool-cases (o.equal j k)) [
    | inl q ↦ rw q a.1
    | inr q ↦ rw q (a.0, All-erase P k m a.1)
  ]

  pub length-insert : (k : K) (v : V) (m : List (K × V)) → length (insert k v m) ≤ suc (length m)
  unfolding insert
  length-insert k v [] = omega arith
  length-insert k v ((j, w) ∷ m) =
      let h = length-insert k v m in
      elim (Bool-cases (o.less j k)) [
        | inl t ↦ rw t (omega arith)
        | inr t ↦ elim (Bool-cases (o.equal j k)) [
          | inl q ↦ rw (t, q) (omega arith)
          | inr q ↦ rw (t, q) (omega arith)
        ]
      ]

  pub length-erase : (k : K) (m : List (K × V)) → length (erase k m) ≤ length m
  unfolding erase
  length-erase k [] = omega arith
  length-erase k ((j, w) ∷ m) =
      let h = length-erase k m in
      elim (Bool-cases (o.equal j k)) [ inl q ↦ rw q (omega arith) | inr q ↦ rw q (omega arith) ]

  -- Keys that rise are kept in order by an insertion behind them all.
  pub insert-last :
      (k : K) (v : V) (m : List (K × V))
      → All (λ p. o.less p.0 k ≡ true) m
      → insert k v m ≡ m ++ (k, v) ∷ []
  unfolding insert
  insert-last k v [] a = refl
  insert-last k v ((j, w) ∷ m) a = rw (a.0, insert-last k v m a.1)
