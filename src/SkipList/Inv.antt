-- ===== src/SkipList/Inv.antt =====
-- The representation invariant of storage/skiplist.h: a skip list `s` with header entry `hd`
-- stores the entries `xs`.
use reactor_kv.Prelude.{◌≤◌, ◌<◌, ◌≡◌, List, ◌∷◌, All, length}
use reactor_kv.KeyOrder.{KeyOrder}
use reactor_kv.SkipList.{SkipList}
use reactor_kv.SkipList.Entry.{Entry, top, Distinct, IsSorted, contents}
use reactor_kv.SkipList.Layout.{Layout}

pub record IsSkipList {K V : Type 0} ⦃o : KeyOrder K⦄ (s : SkipList K V) (hd : Entry K V)
    (xs : List (Entry K V)) : Type 0 where
  pub head : hd.addr ≡ s.header
  pub height : hd.level ≡ s.max_level
  pub layout : Layout s.heap (hd ∷ xs)
  pub distinct : Distinct (hd ∷ xs)
  pub old : All (λ e. e.addr < s.fresh) (hd ∷ xs)
  pub sorted : IsSorted xs
  pub level_top : s.current_level ≡ top xs
  pub level_le : s.current_level ≤ s.max_level
  pub count : s.element_count ≡ length xs
  pub room : length xs < s.fresh

-- The skip list stands for the sorted list of pairs `m`.
pub record Represents {K V : Type 0} ⦃o : KeyOrder K⦄ (s : SkipList K V) (m : List (K × V))
    : Type 0 where
  pub hd : Entry K V
  pub entries : List (Entry K V)
  pub inv : IsSkipList s hd entries
  pub same : contents entries ≡ m
