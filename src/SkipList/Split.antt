-- ===== src/SkipList/Split.antt =====
-- How a key splits a sorted list of entries, for the proofs about storage/skiplist.h.
use reactor_kv.Prelude.{
  ◌≤◌, ◌≡◌, refl, true, false, List, [], ◌∷◌, ◌++◌, arith, All, length, Bool-cases, inl, inr, ap,
  All-mono, All-insert,
}
use reactor_kv.KeyOrder.{KeyOrder}
use reactor_kv.SkipList.Entry.{Entry, below, from, IsSorted, contents}
use reactor_kv.SortedMap.{lookup, insert, erase}
use reactor_kv.SortedMap.Laws.{equal-false_of_less}

module _ {K : Type 0} ⦃o : KeyOrder K⦄ where
  less-false_of_less : (k a b : K) → o.less a b ≡ true → o.less a k ≡ false → o.less b k ≡ false
  less-false_of_less k a b h n = elim (Bool-cases (o.less b k)) [
    | inl p ↦ cc (o.less_trans a b k h p)
    | inr p ↦ p
  ]

module _ {K V : Type 0} ⦃o : KeyOrder K⦄ (k : K) where
  pub below-append-from : (xs : List (Entry K V)) → below k xs ++ from k xs ≡ xs
  unfolding below from
  below-append-from [] = refl
  below-append-from (e ∷ xs) = ground (arith, below-append-from xs)

  pub below-less : (xs : List (Entry K V)) → All (λ e. o.less e.key k ≡ true) (below k xs)
  unfolding below
  below-less [] = tt
  below-less (e ∷ xs) = elim (Bool-cases (o.less e.key k)) [
    | inl p ↦ rw p (p, below-less xs)
    | inr p ↦ rw p tt
  ]

  pub from-not-less :
      (xs : List (Entry K V)) → IsSorted xs → All (λ e. o.less e.key k ≡ false) (from k xs)
  unfolding from
  from-not-less [] s = tt
  from-not-less (e ∷ xs) s = elim (Bool-cases (o.less e.key k)) [
    | inl p ↦ rw p (from-not-less xs s.1)
    | inr p ↦ rw p (p, All-mono _ _ xs (λ x h. less-false_of_less k e.key x.key h p) s.0)
  ]

  pub length-below : (xs : List (Entry K V)) → length (below k xs) ≤ length xs
  unfolding below
  length-below [] = omega arith
  length-below (e ∷ xs) = ground (arith, length-below xs)

  -- Looking a key up passes over the smaller ones.
  pub lookup-below :
      (xs : List (Entry K V)) → lookup k (contents xs) ≡ lookup k (contents (from k xs))
  unfolding lookup from
  lookup-below [] = refl
  lookup-below (e ∷ xs) = ground (arith, lookup-below xs, equal-false_of_less e.key k)

  pub insert-below :
      (v : V) (xs : List (Entry K V))
      → insert k v (contents xs) ≡ contents (below k xs) ++ insert k v (contents (from k xs))
  unfolding insert below from
  insert-below v [] = refl
  insert-below v (e ∷ xs) = elim (Bool-cases (o.less e.key k)) [
    | inl p ↦ rw p (ap (λ m. (e.key, e.value) ∷ m) (insert-below v xs))
    | inr p ↦ rw p (rw p)
  ]

  pub erase-below :
      (xs : List (Entry K V))
      → erase k (contents xs) ≡ contents (below k xs) ++ erase k (contents (from k xs))
  unfolding erase below from
  erase-below [] = refl
  erase-below (e ∷ xs) = elim (Bool-cases (o.less e.key k)) [
    | inl p ↦
        rw (p, equal-false_of_less e.key k p) (ap (λ m. (e.key, e.value) ∷ m) (erase-below xs))
    | inr p ↦ rw p
  ]

  pub contents-append :
      (xs ys : List (Entry K V)) → contents (xs ++ ys) ≡ contents xs ++ contents ys
  contents-append [] ys = refl
  contents-append (e ∷ xs) ys = ap (λ m. (e.key, e.value) ∷ m) (contents-append xs ys)

  pub from-IsSorted : (xs : List (Entry K V)) → IsSorted xs → IsSorted (from k xs)
  unfolding from
  from-IsSorted [] s = tt
  from-IsSorted (e ∷ xs) s = elim (Bool-cases (o.less e.key k)) [
    | inl p ↦ rw p (from-IsSorted xs s.1)
    | inr p ↦ rw p s
  ]

  pub IsSorted-insert :
      (e : Entry K V) (xs ys : List (Entry K V))
      → IsSorted (xs ++ ys)
      → All (λ x. o.less x.key e.key ≡ true) xs
      → All (λ y. o.less e.key y.key ≡ true) ys
      → IsSorted (xs ++ e ∷ ys)
  IsSorted-insert e [] ys s a b = (b, s)
  IsSorted-insert e (x ∷ xs) ys s a b = (
    All-insert (λ y. o.less x.key y.key ≡ true) e xs ys s.0 a.0,
    IsSorted-insert e xs ys s.1 a.1 b,
  )
