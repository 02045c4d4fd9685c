-- ===== src/SkipList/Entry.antt =====
-- The entries of a skip list in key order, and what a level of storage/skiplist.h links of them.
use reactor_kv.Prelude.{
  ℕ, max, ◌≡◌, ◌≢◌, true, false, Option, none, some, List, [], ◌∷◌, leb, if◌then◌else◌, All,
}
use reactor_kv.KeyOrder.{KeyOrder}

-- A node of the list: its address, what it stores, and its level.
pub record Entry (K V : Type 0) : Type 0 where
  pub addr : ℕ
  pub key : K
  pub value : V
  pub level : ℕ

module _ {K V : Type 0} where
  -- The first entry that level `i` links.
  unfoldable pub next_at : ℕ → List (Entry K V) → Option ℕ
  next_at i [] = none
  next_at i (e ∷ xs) = if leb i e.level then some e.addr else next_at i xs

  -- The last entry that level `i` links, `c` if there is none.
  unfoldable pub last_at : ℕ → Entry K V → List (Entry K V) → Entry K V
  last_at i c [] = c
  last_at i c (e ∷ xs) = last_at i (if leb i e.level then e else c) xs

  -- The entries behind the last one that level `i` links.
  unfoldable pub rest_at : ℕ → List (Entry K V) → List (Entry K V) → List (Entry K V)
  rest_at i rest [] = rest
  rest_at i rest (e ∷ xs) = rest_at i (if leb i e.level then xs else rest) xs

  -- The highest level of an entry.
  unfoldable pub top : List (Entry K V) → ℕ
  top [] = 0
  top (e ∷ xs) = max e.level (top xs)

  abbrev pub Distinct : List (Entry K V) → Type 0
  Distinct [] = Unit
  Distinct (e ∷ xs) = All (λ x. x.addr ≢ e.addr) xs × Distinct xs

  -- The key and value of each entry, in order.
  abbrev pub contents : List (Entry K V) → List (K × V)
  contents [] = []
  contents (e ∷ xs) = (e.key, e.value) ∷ contents xs

module _ {K V : Type 0} ⦃o : KeyOrder K⦄ where
  abbrev pub IsSorted : List (Entry K V) → Type 0
  IsSorted [] = Unit
  IsSorted (e ∷ xs) = All (λ x. o.less e.key x.key ≡ true) xs × IsSorted xs

  -- The entries before and from a key on.
  unfoldable pub below : K → List (Entry K V) → List (Entry K V)
  below k [] = []
  below k (e ∷ xs) = let rest = below k xs in if o.less e.key k then e ∷ rest else []

  unfoldable pub from : K → List (Entry K V) → List (Entry K V)
  from k [] = []
  from k (e ∷ xs) = let rest = from k xs in if o.less e.key k then rest else e ∷ xs

-- One step of `next_at` and `last_at`, at an entry that the level reaches and at one it passes by.
module _ {K V : Type 0} (i : ℕ) (c x : Entry K V) (xs : List (Entry K V)) where
  pub next_at-reached : leb i x.level ≡ true → next_at i (x ∷ xs) ≡ some x.addr
  unfolding next_at
  next_at-reached v = rw v

  pub next_at-passed : leb i x.level ≡ false → next_at i (x ∷ xs) ≡ next_at i xs
  unfolding next_at
  next_at-passed v = rw v

  pub last_at-reached : leb i x.level ≡ true → last_at i c (x ∷ xs) ≡ last_at i x xs
  unfolding last_at
  last_at-reached v = rw v

  pub last_at-passed : leb i x.level ≡ false → last_at i c (x ∷ xs) ≡ last_at i c xs
  unfolding last_at
  last_at-passed v = rw v
