-- ===== src/SkipList/Lower.antt =====
-- remove of storage/skiplist.h: the lowering of the current level.
use reactor_kv.Prelude.{
  ℕ, zero, suc, ◌≤◌, ◌<◌, ◌≡◌, refl, none, some, List, [], ◌∷◌, arith, Bool-cases, inl, inr, ap,
  sym, leb, le-suc_cases,
}
use reactor_kv.SkipList.{Heap, Ptr, forward_at, lower_level}
use reactor_kv.SkipList.Entry.{Entry, next_at, top}

module _ {K V : Type 0} where
  pub next_at-above_top : (i : ℕ) (xs : List (Entry K V)) → top xs < i → next_at i xs ≡ none
  unfolding next_at top
  next_at-above_top i [] h = refl
  next_at-above_top i (x ∷ xs) h = ground (arith, next_at-above_top i xs)

  next_at-top :
      (i : ℕ) (xs : List (Entry K V)) → 0 < i → i ≤ top xs → (q : ℕ) × (next_at i xs ≡ some q)
  unfolding next_at top
  next_at-top i [] p h = absurd (omega arith)
  next_at-top i (x ∷ xs) p h = elim (Bool-cases (leb i x.level)) [
    | inl v ↦ rw v (x.addr, refl)
    | inr v ↦ rw v (next_at-top i xs p (ground arith))
  ]

  -- The level is lowered to the highest one that still links an entry.
  pub lower_level_lem :
      (h : Heap K V) (header : Ptr) (level : ℕ) (xs : List (Entry K V))
      → ((i : ℕ) → i ≤ level → forward_at h header i ≡ some (next_at i xs))
      → top xs ≤ level
      → lower_level h header level ≡ some (top xs)
  unfolding lower_level
  lower_level_lem h header zero xs f t = ap some (omega arith)
  lower_level_lem h header (suc level) xs f t = elim (le-suc_cases (top xs) level t) [
    | inl c ↦
        rw (f (suc level) (omega arith), next_at-above_top (suc level) xs (omega arith))
          (lower_level_lem h header level xs (λ i g. f i (omega arith)) c)
    | inr c ↦
        rw (f (suc level) (omega arith), (next_at-top (suc level) xs (omega arith) (omega arith)).1)
          (ap some (sym c))
  ]
