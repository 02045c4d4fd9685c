-- ===== src/SkipList/Search.antt =====
-- search, contains and size of storage/skiplist.h against the map that the list stands for.
use reactor_kv.Prelude.{
  suc, ◌+◌, ◌≡◌, refl, true, false, none, some, List, [], ◌∷◌, ◌++◌, arith, All, length, Bool-cases,
  inl, inr, ap, sym, ◌∙◌, ◌>>=◌, replicate, length-replicate, All-append_right,
}
use reactor_kv.KeyOrder.{KeyOrder}
use reactor_kv.SkipList.{
  SkipList, Ptr, Heap, forward_at, descend_update, match_next, search, contains, size, value_of,
}
use reactor_kv.SkipList.Entry.{
  Entry, next_at, last_at, rest_at, below, from, contents, next_at-reached, IsSorted,
}
use reactor_kv.SkipList.Layout.{Holds, Layout, Layout-suffix, Suffix-seek, rest_at-zero}
use reactor_kv.SkipList.Walk.{Descended, descend_update_lem, descend-of-update, NotLess}
use reactor_kv.SkipList.Split.{
  below-append-from, below-less, from-not-less, length-below, lookup-below, from-IsSorted,
}
use reactor_kv.SkipList.Inv.{IsSkipList, Represents}
use reactor_kv.SortedMap.{lookup, is_some, is_some-elim}
use reactor_kv.SortedMap.Laws.{lookup-least}

module _ {K V : Type 0} ⦃o : KeyOrder K⦄ {s : SkipList K V} {hd : Entry K V} {xs : List (Entry K V)}
    (k : K) (v : IsSkipList s hd xs) where
  abbrev pub before : List (Entry K V)
  before = below k xs

  abbrev pub after : List (Entry K V)
  after = from k xs

  pub split-Layout : Layout s.heap (hd ∷ before ++ after)
  split-Layout = rw (below-append-from k xs) v.layout

  -- The descent of insert and remove.
  pub descended :
      Descended s.heap k s.current_level hd before (replicate (s.max_level + 1) none) (
        descend_update s.fresh s.heap k s.current_level s.header (replicate (s.max_level + 1) none))
  descended = rw (← v.head) (
      descend_update_lem s.heap k s.fresh s.current_level hd before after
        (replicate (s.max_level + 1) none) split-Layout
        (let a = v.height in let b = v.level_le in omega arith) (below-less k xs)
        (from-not-less k xs v.sorted) (let a = v.room in let b = length-below k xs in omega arith)
        (rw length-replicate (let b = v.level_le in omega arith)))

  -- The node where it stops leads, at level 0, to the first entry that is not smaller.
  pub stop_link : forward_at s.heap (last_at 0 hd before).addr 0 ≡ some (next_at 0 after)
  stop_link =
      let l = Layout-suffix (Suffix-seek 0 hd before after) split-Layout in
      let d : forward_at s.heap (last_at 0 hd before).addr 0
          ≡ some (next_at 0 (rest_at 0 before before ++ after)) =
        (l.linked 0).0 (omega arith) in
      rw rest_at-zero at d

  pub after-Holds : All (Holds s.heap) after
  after-Holds = All-append_right (Holds s.heap) before after split-Layout.holds.1

-- What match_next finds where level 0 leads to `ys`.
module _ {K V : Type 0} ⦃o : KeyOrder K⦄ (h : Heap K V) (k : K) (p : Ptr) where
  pub match_next-hit :
      (e : Entry K V) (ys : List (Entry K V))
      → forward_at h p 0 ≡ some (next_at 0 (e ∷ ys))
      → (c : Holds h e) → o.equal e.key k ≡ true
      → match_next h k p
        ≡ some (
            some (
              e.addr,
              record { key = e.key; value = e.value; node_level = e.level; forward = c.forward },
            ))
  unfolding match_next
  match_next-hit e ys l c q =
      let l' : forward_at h p 0 ≡ some (some e.addr) =
        l ∙ ap some (next_at-reached 0 e e ys (ground arith)) in
      rw (l', c.here, q)

  pub match_next-miss :
      (e : Entry K V) (ys : List (Entry K V))
      → forward_at h p 0 ≡ some (next_at 0 (e ∷ ys))
      → Holds h e
      → o.equal e.key k ≡ false
      → match_next h k p ≡ some none
  unfolding match_next
  match_next-miss e ys l c q =
      let l' : forward_at h p 0 ≡ some (some e.addr) =
        l ∙ ap some (next_at-reached 0 e e ys (ground arith)) in
      rw (l', c.here, q)

  pub match_next-end : forward_at h p 0 ≡ some none → match_next h k p ≡ some none
  unfolding match_next
  match_next-end l = rw l

module _ {K V : Type 0} ⦃o : KeyOrder K⦄ (k : K) where
  All-contents :
      (j : K) (ys : List (Entry K V))
      → o.less k j ≡ true
      → All (λ x. o.less j x.key ≡ true) ys
      → All (λ p. o.less k p.0 ≡ true) (contents ys)
  All-contents j [] h a = tt
  All-contents j (e ∷ ys) h a = (o.less_trans k j e.key h a.0, All-contents j ys h a.1)

  -- The entries from the key on hold it at their head or nowhere.
  pub lookup-from_miss :
      (e : Entry K V) (ys : List (Entry K V))
      → IsSorted (e ∷ ys)
      → o.less e.key k ≡ false
      → o.equal e.key k ≡ false
      → lookup k (contents (e ∷ ys)) ≡ none
  lookup-from_miss e ys s n q =
      let g = o.less_total e.key k n q in
      lookup-least k (contents (e ∷ ys)) (g, All-contents e.key ys g s.0)

  match_next-lookup :
      (h : Heap K V) (p : Ptr) (ys : List (Entry K V))
      → forward_at h p 0 ≡ some (next_at 0 ys)
      → All (Holds h) ys
      → IsSorted ys
      → All (NotLess h k) ys
      → (match_next h k p >>= λ found. some (value_of found)) ≡ some (lookup k (contents ys))
  unfolding next_at lookup
  match_next-lookup h p [] l a s n = rw (match_next-end h k p l)
  match_next-lookup h p (e ∷ ys) l a s n = elim (Bool-cases (o.equal e.key k)) [
    | inl q ↦ rw (match_next-hit h k p e ys l a.0 q, q)
    | inr q ↦ rw (match_next-miss h k p e ys l a.0 q, lookup-from_miss e ys s n.0 q)
  ]

  search-entries :
      {s : SkipList K V} {hd : Entry K V} {xs : List (Entry K V)}
      → IsSkipList s hd xs
      → search k s ≡ some (lookup k (contents xs))
  unfolding search
  search-entries {s} {hd} {xs} v =
      let d = descend-of-update s.heap k s.fresh s.current_level s.header _ (descended k v).stops in
      rw (d, lookup-below k xs)
        (match_next-lookup s.heap (last_at 0 hd (before k v)).addr (after k v) (stop_link k v)
          (after-Holds k v) (from-IsSorted k xs v.sorted) (from-not-less k xs v.sorted))

  -- search finds exactly the value that the map has at the key.
  pub search-lookup :
      {s : SkipList K V} {m : List (K × V)} → Represents s m → search k s ≡ some (lookup k m)
  search-lookup r = rw (← r.same) (search-entries r.inv)

  -- contains says whether the map has the key.
  pub contains-lookup :
      {s : SkipList K V} {m : List (K × V)}
      → Represents s m
      → contains k s ≡ some (is_some (lookup k m))
  unfolding contains
  contains-lookup {m} r = rw (search-lookup r) (is_some-elim (lookup k m))

module _ {K V : Type 0} ⦃o : KeyOrder K⦄ where
  length-contents : (xs : List (Entry K V)) → length (contents xs) ≡ length xs
  length-contents [] = refl
  length-contents (x ∷ xs) = ap suc (length-contents xs)

  -- size is the number of keys of the map.
  pub size-length : {s : SkipList K V} {m : List (K × V)} → Represents s m → size s ≡ length m
  unfolding size
  size-length r = r.inv.count ∙ sym (length-contents r.entries) ∙ ap length r.same
