-- ===== src/SkipList/Insert.antt =====
-- insert of storage/skiplist.h against the map that the list stands for.
use reactor_kv.Prelude.{
  ℕ, ◌+◌, ◌-◌, ◌≤◌, ◌<◌, max, ◌≡◌, ◌≢◌, refl, true, Option, none, some, List, [], ◌∷◌, ◌++◌, arith,
  All, Bool-cases, inl, inr, ap, sym, ◌∙◌, leb, ltb, All-mono, All-insert, All-both, length,
  get_elem?, replicate, length-replicate, length-append, if◌then◌else◌,
}
use reactor_kv.KeyOrder.{KeyOrder}
use reactor_kv.SkipList.{
  SkipList, Heap, Ptr, Draws, forward_at, write, create_node, link_levels, raise_update,
  random_level, insert, insert_node, match_next,
}
use reactor_kv.SkipList.Entry.{Entry, last_at, Distinct, top, below, from, last_at-passed}
use reactor_kv.SkipList.Layout.{Holds, Layout, Distinct-insert}
use reactor_kv.SkipList.Link.{write_self, write-other, forward_at-same, LinkedAt-put, LinkedAt-same}
use reactor_kv.SkipList.Linking.{
  random_level-le, Raised, raise_update_lem, Linking, Step, link_levels_lem,
}
use reactor_kv.SkipList.Inv.{IsSkipList}
use reactor_kv.SkipList.Split.{below-append-from, below-less, IsSorted-insert}
use reactor_kv.SkipList.Search.{descended, split-Layout}

module _ {K V : Type 0} where
  -- Above the highest level of the entries a walk stays at its start.
  pub last_at-above_top :
      (i : ℕ) (c : Entry K V) (xs : List (Entry K V)) → top xs < i → last_at i c xs ≡ c
  unfolding last_at top
  last_at-above_top i c [] h = refl
  last_at-above_top i c (x ∷ xs) h =
      last_at-passed i c x xs (ground arith) ∙ last_at-above_top i c xs (omega arith)

  pub top-append : (xs ys : List (Entry K V)) → top (xs ++ ys) ≡ max (top xs) (top ys)
  unfolding top
  top-append [] ys = omega arith
  top-append (x ∷ xs) ys = omega (arith, top-append xs ys)

-- A new entry `e` between `before` and `after`.
module _ {K V : Type 0} (hd : Entry K V) (before after : List (Entry K V)) (e : Entry K V)
    (update : List (Option Ptr)) (h g : Heap K V) where
  -- Once every level up to its own has been linked, the store holds the list with the new entry.
  pub Layout-linked :
      Linking hd before after e (e.level + 1) g → Layout g (hd ∷ before ++ e ∷ after)
  Layout-linked l = record {
    holds = All-insert (Holds g) e (hd ∷ before) after l.holds l.entry;
    linked = λ i. elim (Bool-cases (leb i e.level)) [
      | inl v ↦ l.done i (ground arith)
      | inr v ↦ LinkedAt-put g i e (hd ∷ before) after v (l.todo i (ground arith))
    ];
  }

-- The store after make_shared: the new node has null pointers and nothing leads to it.
module _ {K V : Type 0} (h : Heap K V) (hd : Entry K V) (before after : List (Entry K V))
    (e : Entry K V) where
  abbrev pub allocated : Heap K V
  allocated = write h e.addr (create_node e.key e.value e.level)

  pub Linking-start :
      Layout h (hd ∷ before ++ after)
      → All (λ x. x.addr ≢ e.addr) (hd ∷ before ++ after)
      → Linking hd before after e 0 allocated
  Linking-start l away = record {
    holds =
        All-both (λ x. x.addr ≢ e.addr) (Holds h) (Holds allocated) (hd ∷ before ++ after)
          (λ x ne c. record {
            forward = c.forward;
            here = write-other h e.addr x.addr (create_node e.key e.value e.level) ne ∙ c.here;
            size = c.size;
          })
          away l.holds;
    entry = record {
      forward = replicate (e.level + 1) none;
      here = write_self h e.addr (create_node e.key e.value e.level);
      size = length-replicate (e.level + 1) none ∙ omega arith;
    };
    done = λ j c. absurd (omega arith);
    todo = λ j c.
        LinkedAt-same h allocated j (hd ∷ before ++ after)
          (All-mono (λ x. x.addr ≢ e.addr)
            (λ x. forward_at allocated x.addr j ≡ forward_at h x.addr j) (hd ∷ before ++ after)
            (λ x ne. forward_at-same h allocated x.addr j (write-other h e.addr x.addr _ ne)) away)
          (l.linked j);
  }

module _ {K V : Type 0} ⦃o : KeyOrder K⦄ {s : SkipList K V} {hd : Entry K V} {xs : List (Entry K V)}
    (draws : Draws) (k : K) (value : V) (v : IsSkipList s hd xs) where
  abbrev level : ℕ
  level = random_level draws s.max_level

  abbrev pub added : Entry K V
  added = record { addr = s.fresh; key = k; value = value; level = random_level draws s.max_level }

  level-le : level ≤ s.max_level
  level-le = omega (arith, random_level-le draws s.max_level)

  all_away : All (λ x. x.addr ≢ s.fresh) (hd ∷ below k xs ++ from k xs)
  all_away = rw (below-append-from k xs) (
      All-mono (λ e. e.addr < s.fresh) (λ x. x.addr ≢ s.fresh) (hd ∷ xs) (λ x h. omega arith) v.old)

  split-Distinct : Distinct (hd ∷ below k xs ++ from k xs)
  split-Distinct = rw (below-append-from k xs) v.distinct

  top-split : top (below k xs ++ from k xs) ≡ s.current_level
  top-split = rw (below-append-from k xs) (sym v.level_top)

  length-split : length (below k xs ++ from k xs) ≡ length xs
  length-split = rw (below-append-from k xs)

  top-below : top (below k xs) ≤ s.current_level
  top-below = omega (arith, top-split, top-append (below k xs) (from k xs))

  top-added :
      top (below k xs ++ added ∷ from k xs)
      ≡ (if ltb s.current_level level then level else s.current_level)
  unfolding top
  top-added = ground (
    arith,
    top-split,
    top-append (below k xs) (from k xs),
    top-append (below k xs) (added ∷ from k xs),
  )

  length-added : length (below k xs ++ added ∷ from k xs) ≡ length xs + 1
  length-added = omega (
    arith,
    length-split,
    length-append (below k xs) (from k xs),
    length-append (below k xs) (added ∷ from k xs),
  )

  raised :
      Raised (level - s.current_level) (s.current_level + 1) s.header (descended k v).result (
        raise_update
          (level - s.current_level)
          (s.current_level + 1)
          s.header
          (descended k v).result)
  raised =
      raise_update_lem (level - s.current_level) (s.current_level + 1) s.header
        (descended k v).result
        (rw (descended k v).size
          (rw length-replicate (let a = level-le in let b = v.level_le in omega arith)))

  raised_stops :
      (j : ℕ) → j ≤ level → get_elem? raised.result j ≡ some (some (last_at j hd (below k xs)).addr)
  raised_stops j h = elim (Bool-cases (leb j s.current_level)) [
    | inl c ↦ raised.old j (ground arith) ∙ (descended k v).low j (ground arith)
    | inr c ↦
        raised.new j (ground arith) (ground arith)
        ∙ ap (λ p. some (some p))
            (sym v.head
              ∙ ap (λ (e : Entry K V). e.addr)
                  (sym (last_at-above_top j hd (below k xs) (let t = top-below in ground arith))))
  ]

  linked : Step hd (below k xs) (from k xs) added (level + 1) (
      link_levels
        (level + 1)
        0
        s.fresh
        raised.result
        (write s.heap s.fresh (create_node k value level)))
  linked =
      link_levels_lem hd (below k xs) (from k xs) added raised.result split-Distinct all_away
        (let a = level-le in let b = v.height in omega arith) raised_stops (level + 1) 0 (level + 1)
        (write s.heap s.fresh (create_node k value level)) (omega arith) (omega arith)
        (Linking-start s.heap hd (below k xs) (from k xs) added (split-Layout k v) all_away)

  abbrev with_added : SkipList K V
  with_added = record s {
    heap = linked.heap;
    fresh = s.fresh + 1;
    current_level = if ltb s.current_level level then level else s.current_level;
    element_count = s.element_count + 1;
  }

  insert_node_lem : insert_node draws k value (descended k v).result s ≡ some with_added
  unfolding insert_node
  insert_node_lem = rw (raised.done, linked.runs)

  IsSkipList-added :
      All (λ e. o.less k e.key ≡ true) (from k xs)
      → IsSkipList with_added hd (below k xs ++ added ∷ from k xs)
  IsSkipList-added above = record {
    head = v.head;
    height = v.height;
    layout =
        Layout-linked hd (below k xs) (from k xs) added raised.result s.heap linked.heap
          linked.linking;
    distinct = Distinct-insert added (hd ∷ below k xs) (from k xs) split-Distinct all_away;
    old =
        All-insert (λ e. e.addr < s.fresh + 1) added (hd ∷ below k xs) (from k xs)
          (rw (below-append-from k xs) (
            All-mono (λ e. e.addr < s.fresh) (λ e. e.addr < s.fresh + 1) (hd ∷ xs)
              (λ x h. omega arith) v.old))
          (omega arith);
    sorted =
        IsSorted-insert k added (below k xs) (from k xs) (rw (below-append-from k xs) v.sorted)
          (below-less k xs) above;
    level_top = sym top-added;
    level_le = (let a = level-le in let b = v.level_le in ground arith);
    count = (let a = v.count in omega (arith, length-added));
    room = (let a = v.room in omega (arith, length-added));
  }

  -- insert of a key that the list does not hold.
  pub insert-new :
      match_next s.heap k (last_at 0 hd (below k xs)).addr ≡ some none
      → All (λ e. o.less k e.key ≡ true) (from k xs)
      → (s' : SkipList K V) × (insert draws k value s ≡ some (true, s'))
        × IsSkipList s' hd (below k xs ++ added ∷ from k xs)
  unfolding insert
  insert-new miss above =
      (with_added, rw ((descended k v).stops, miss, insert_node_lem), IsSkipList-added above)
