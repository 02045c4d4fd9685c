-- ===== src/SkipList/Layout.antt =====
-- How the nodes of storage/skiplist.h lie in the store: what each entry's node holds, and what
-- forward[i] of each leads to.
use reactor_kv.Prelude.{
  ℕ, suc, ◌≤◌, ◌≡◌, refl, true, Option, some, List, [], ◌∷◌, ◌++◌, arith, leb, if◌then◌else◌, All,
  length, Bool-cases, inl, inr, All-append_right, All-insert, All-remove, ◌≢◌, sym,
}
use reactor_kv.SkipList.{Ptr, Heap, forward_at}
use reactor_kv.SkipList.Entry.{Entry, Distinct, next_at, last_at, rest_at}

module _ {K V : Type 0} where
  -- The node of an entry, with a forward pointer for each level up to its own.
  pub record Holds (h : Heap K V) (e : Entry K V) : Type 0 where
    pub forward : List (Option Ptr)
    pub here :
        h e.addr
        ≡ some (record { key = e.key; value = e.value; node_level = e.level; forward = forward })
    pub size : length forward ≡ suc e.level

  -- Level `i` links the entries that reach it, in order.
  abbrev pub LinkedAt : Heap K V → ℕ → List (Entry K V) → Type 0
  LinkedAt h i [] = Unit
  LinkedAt h i (e ∷ xs) =
      (i ≤ e.level → forward_at h e.addr i ≡ some (next_at i xs)) × LinkedAt h i xs

  pub record Layout (h : Heap K V) (xs : List (Entry K V)) : Type 0 where
    pub holds : All (Holds h) xs
    pub linked : (i : ℕ) → LinkedAt h i xs

  pub data Suffix (xs : List (Entry K V)) : List (Entry K V) → Type 0 where
    whole : Suffix xs xs
    tail : {e : Entry K V} {ys : List (Entry K V)} → Suffix xs (e ∷ ys) → Suffix xs ys

  pub All-suffix :
      (P : Entry K V → Type 0) {xs ys : List (Entry K V)} → Suffix xs ys → All P xs → All P ys
  All-suffix P whole a = a
  All-suffix P (tail s) a = (All-suffix P s a).1

  pub LinkedAt-suffix :
      (h : Heap K V) (i : ℕ) {xs ys : List (Entry K V)}
      → Suffix xs ys
      → LinkedAt h i xs
      → LinkedAt h i ys
  LinkedAt-suffix h i whole a = a
  LinkedAt-suffix h i (tail s) a = (LinkedAt-suffix h i s a).1

  pub Layout-suffix :
      {h : Heap K V} {xs ys : List (Entry K V)} → Suffix xs ys → Layout h xs → Layout h ys
  Layout-suffix {h} s l = record {
    holds = All-suffix (Holds h) s l.holds;
    linked = λ i. LinkedAt-suffix h i s (l.linked i);
  }

  Suffix-append :
      {xs ys : List (Entry K V)} (zs : List (Entry K V))
      → Suffix xs ys
      → Suffix (xs ++ zs) (ys ++ zs)
  Suffix-append zs whole = whole
  Suffix-append zs (tail s) = tail (Suffix-append zs s)

  -- Where a walk stops, the rest of the list is a suffix.
  Suffix-last_at :
      (i : ℕ) (c : Entry K V) (rest mid : List (Entry K V)) {xs : List (Entry K V)}
      → Suffix xs (c ∷ rest)
      → Suffix xs mid
      → Suffix xs (last_at i c mid ∷ rest_at i rest mid)
  unfolding last_at rest_at
  Suffix-last_at i c rest [] s t = s
  Suffix-last_at i c rest (e ∷ mid) s t = elim (Bool-cases (leb i e.level)) [
    | inl p ↦ rw p (Suffix-last_at i e mid mid t (tail t))
    | inr p ↦ rw p (Suffix-last_at i c rest mid s (tail t))
  ]

  pub Suffix-rest_at :
      (i : ℕ) (rest mid : List (Entry K V)) {xs : List (Entry K V)}
      → Suffix xs rest
      → Suffix xs mid
      → Suffix xs (rest_at i rest mid)
  unfolding rest_at
  Suffix-rest_at i rest [] s t = s
  Suffix-rest_at i rest (e ∷ mid) s t = elim (Bool-cases (leb i e.level)) [
    | inl p ↦ rw p (Suffix-rest_at i mid mid (tail t) (tail t))
    | inr p ↦ rw p (Suffix-rest_at i rest mid s (tail t))
  ]

  pub Suffix-seek :
      (i : ℕ) (c : Entry K V) (mid after : List (Entry K V))
      → Suffix (c ∷ mid ++ after) (last_at i c mid ∷ rest_at i mid mid ++ after)
  Suffix-seek i c mid after = Suffix-append after (Suffix-last_at i c mid mid whole (tail whole))

  -- A walk at a lower level that starts where the one above stopped ends where it would have ended
  -- from the beginning.
  last_at-rest_at :
      (i j : ℕ) (c d : Entry K V) (rest mid : List (Entry K V))
      → j ≤ i
      → last_at j c rest ≡ last_at j d mid
      → last_at j (last_at i c mid) (rest_at i rest mid) ≡ last_at j d mid
  unfolding last_at rest_at
  last_at-rest_at i j c d rest [] h e = e
  last_at-rest_at i j c d rest (x ∷ mid) h e = elim (Bool-cases (leb i x.level)) [
    | inl p ↦
        let q : leb j x.level ≡ true = ground arith in
        rw (p, q) (last_at-rest_at i j x x mid mid h refl)
    | inr p ↦ rw p (last_at-rest_at i j c (if leb j x.level then x else d) rest mid h e)
  ]

  pub last_at-seek :
      (i j : ℕ) (c : Entry K V) (mid : List (Entry K V))
      → j ≤ i
      → last_at j (last_at i c mid) (rest_at i mid mid) ≡ last_at j c mid
  last_at-seek i j c mid h = last_at-rest_at i j c c mid mid h refl

  pub rest_at-zero : (mid : List (Entry K V)) → rest_at 0 mid mid ≡ []
  unfolding rest_at
  rest_at-zero [] = refl
  rest_at-zero (e ∷ mid) = let p : leb 0 e.level ≡ true = ground arith in rw p (rest_at-zero mid)

  pub le-last_at :
      (i : ℕ) (c : Entry K V) (mid : List (Entry K V)) → i ≤ c.level → i ≤ (last_at i c mid).level
  unfolding last_at
  le-last_at i c [] h = h
  le-last_at i c (e ∷ mid) h = le-last_at i (if leb i e.level then e else c) mid (ground arith)

  pub length-rest_at :
      (i : ℕ) (rest mid : List (Entry K V)) (n : ℕ)
      → length rest ≤ n
      → length mid ≤ n
      → length (rest_at i rest mid) ≤ n
  unfolding rest_at
  length-rest_at i rest [] n h k = h
  length-rest_at i rest (e ∷ mid) n h k =
      length-rest_at i (if leb i e.level then mid else rest) mid n (ground arith) (omega arith)

  pub Distinct-insert :
      (e : Entry K V) (xs ys : List (Entry K V))
      → Distinct (xs ++ ys)
      → All (λ x. x.addr ≢ e.addr) (xs ++ ys)
      → Distinct (xs ++ e ∷ ys)
  Distinct-insert e [] ys d a = (a, d)
  Distinct-insert e (x ∷ xs) ys d a = (
    All-insert (λ y. y.addr ≢ x.addr) e xs ys d.0 (λ z. a.0 (sym z)),
    Distinct-insert e xs ys d.1 a.1,
  )

  pub Distinct-remove :
      (e : Entry K V) (xs ys : List (Entry K V)) → Distinct (xs ++ e ∷ ys) → Distinct (xs ++ ys)
  Distinct-remove e [] ys d = d.1
  Distinct-remove e (x ∷ xs) ys d =
      (All-remove (λ y. y.addr ≢ x.addr) e xs ys d.0, Distinct-remove e xs ys d.1)

  -- An entry's address is that of no other entry.
  pub Distinct-away :
      (e : Entry K V) (xs ys : List (Entry K V))
      → Distinct (xs ++ e ∷ ys)
      → All (λ x. x.addr ≢ e.addr) (xs ++ ys)
  Distinct-away e [] ys d = d.0
  Distinct-away e (x ∷ xs) ys d = (
    λ z. (All-append_right (λ y. y.addr ≢ x.addr) xs (e ∷ ys) d.0).0 (sym z),
    Distinct-away e xs ys d.1,
  )
