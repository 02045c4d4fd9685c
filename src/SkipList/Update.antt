-- ===== src/SkipList/Update.antt =====
-- insert of storage/skiplist.h on a key that the list already holds: only its value changes.
use reactor_kv.Prelude.{
  ℕ, suc, ◌<◌, max, ◌≡◌, ◌≢◌, refl, true, false, some, List, [], ◌∷◌, ◌++◌, arith, All, Bool-cases,
  inl, inr, ap, sym, subst, ◌∙◌, leb, All-insert, All-both, All-remove, length, if◌then◌else◌, ◌==◌,
  ==_iff,
}
use reactor_kv.KeyOrder.{KeyOrder}
use reactor_kv.SkipList.{SkipList, Heap, Ptr, Node, Draws, forward_at, write, insert}
use reactor_kv.SkipList.Entry.{Entry, next_at, last_at, Distinct, top, below, from, IsSorted}
use reactor_kv.SkipList.Layout.{Holds, LinkedAt, Layout, Distinct-away}
use reactor_kv.SkipList.Link.{write_self, write-other}
use reactor_kv.SkipList.Inv.{IsSkipList}
use reactor_kv.SkipList.Split.{below-append-from}
use reactor_kv.SkipList.Search.{descended, stop_link, after-Holds, match_next-hit}

module _ {K V : Type 0} (e : Entry K V) (value : V) where
  abbrev pub revalued : Entry K V
  revalued = record e { value = value }

  next_at-revalued :
      (i : ℕ) (mid ys : List (Entry K V))
      → next_at i (mid ++ revalued ∷ ys) ≡ next_at i (mid ++ e ∷ ys)
  unfolding next_at
  next_at-revalued i [] ys = refl
  next_at-revalued i (x ∷ mid) ys =
      ap (λ r. if leb i x.level then some x.addr else r) (next_at-revalued i mid ys)

  top-revalued : (mid ys : List (Entry K V)) → top (mid ++ revalued ∷ ys) ≡ top (mid ++ e ∷ ys)
  unfolding top
  top-revalued [] ys = refl
  top-revalued (x ∷ mid) ys = ap (max x.level) (top-revalued mid ys)

  length-revalued :
      (mid ys : List (Entry K V)) → length (mid ++ revalued ∷ ys) ≡ length (mid ++ e ∷ ys)
  length-revalued [] ys = refl
  length-revalued (x ∷ mid) ys = ap suc (length-revalued mid ys)

  -- A property that does not depend on the value.
  All-revalued :
      (P : Entry K V → Type 0) (mid ys : List (Entry K V))
      → (P e → P revalued)
      → All P (mid ++ e ∷ ys)
      → All P (mid ++ revalued ∷ ys)
  All-revalued P [] ys f a = (f a.0, a.1)
  All-revalued P (x ∷ mid) ys f a = (a.0, All-revalued P mid ys f a.1)

  Distinct-revalued :
      (mid ys : List (Entry K V)) → Distinct (mid ++ e ∷ ys) → Distinct (mid ++ revalued ∷ ys)
  Distinct-revalued [] ys d = d
  Distinct-revalued (x ∷ mid) ys d =
      (All-revalued (λ y. y.addr ≢ x.addr) mid ys (λ n. n) d.0, Distinct-revalued mid ys d.1)

  LinkedAt-revalued :
      (h g : Heap K V) (i : ℕ) (mid ys : List (Entry K V))
      → ((p : Ptr) → forward_at g p i ≡ forward_at h p i)
      → LinkedAt h i (mid ++ e ∷ ys)
      → LinkedAt g i (mid ++ revalued ∷ ys)
  LinkedAt-revalued h g i [] ys f l = (λ r. f e.addr ∙ l.0 r, rest ys l.1)
    where
      rest : (zs : List (Entry K V)) → LinkedAt h i zs → LinkedAt g i zs
      rest [] q = tt
      rest (z ∷ zs) q = (λ r. f z.addr ∙ q.0 r, rest zs q.1)
  LinkedAt-revalued h g i (x ∷ mid) ys f l = (
    λ r. f x.addr ∙ l.0 r ∙ ap some (sym (next_at-revalued i mid ys)),
    LinkedAt-revalued h g i mid ys f l.1,
  )

  module _ (h : Heap K V) (c : Holds h e) where
    abbrev pub node_of : Node K V
    node_of = record { key = e.key; value = e.value; node_level = e.level; forward = c.forward }

    abbrev pub new_node : Node K V
    new_node = record { key = e.key; value = value; node_level = e.level; forward = c.forward }

    forward_at-revalued :
        (i : ℕ) (p : Ptr) → forward_at (write h e.addr new_node) p i ≡ forward_at h p i
    unfolding forward_at
    forward_at-revalued i p = elim (Bool-cases (p == e.addr)) [
      | inl t ↦ let at : p ≡ e.addr = (==_iff p e.addr).0 t in rw (at, write_self, c.here)
      | inr t ↦ rw (write-other h e.addr p new_node (ground arith))
    ]

    pub Layout-revalued :
        (mid ys : List (Entry K V))
        → Distinct (mid ++ e ∷ ys)
        → Layout h (mid ++ e ∷ ys)
        → Layout (write h e.addr new_node) (mid ++ revalued ∷ ys)
    Layout-revalued mid ys d l = record {
      holds =
          All-insert (Holds (write h e.addr new_node)) revalued mid ys
            (All-both (λ x. x.addr ≢ e.addr) (Holds h) (Holds (write h e.addr new_node)) (mid ++ ys)
              (λ x ne r. record {
                forward = r.forward;
                here = write-other h e.addr x.addr new_node ne ∙ r.here;
                size = r.size;
              })
              (Distinct-away e mid ys d) (All-remove (Holds h) e mid ys l.holds))
            (record { forward = c.forward; here = write_self h e.addr new_node; size = c.size });
      linked = λ i.
          LinkedAt-revalued h (write h e.addr new_node) i mid ys (forward_at-revalued i)
            (l.linked i);
    }

module _ {K V : Type 0} ⦃o : KeyOrder K⦄ where
  IsSorted-revalued :
      (e : Entry K V) (value : V) (mid ys : List (Entry K V))
      → IsSorted (mid ++ e ∷ ys)
      → IsSorted (mid ++ revalued e value ∷ ys)
  IsSorted-revalued e value [] ys s = s
  IsSorted-revalued e value (x ∷ mid) ys s = (
    All-revalued e value (λ y. o.less x.key y.key ≡ true) mid ys (λ n. n) s.0,
    IsSorted-revalued e value mid ys s.1,
  )

  pub insert-update :
      {s : SkipList K V} {hd : Entry K V} {xs : List (Entry K V)} (draws : Draws) (k : K)
      (value : V) (e : Entry K V) (ys : List (Entry K V)) (v : IsSkipList s hd xs)
      → from k xs ≡ e ∷ ys
      → o.equal e.key k ≡ true
      → (s' : SkipList K V) × (insert draws k value s ≡ some (false, s'))
        × IsSkipList s' hd (below k xs ++ revalued e value ∷ ys)
  unfolding insert
  insert-update {s} {hd} {xs} draws k value e ys v q t =
      let c : Holds s.heap e = (rw q at (after-Holds k v)).0 in
      let same : xs ≡ below k xs ++ e ∷ ys = rw (← q) (rw below-append-from) in
      let hit =
        match_next-hit s.heap k (last_at 0 hd (below k xs)).addr e ys (rw q at (stop_link k v)) c
          t in
      let cut : (P : List (Entry K V) → Type 0) → P xs → P (below k xs ++ e ∷ ys) =
        λ P p. subst P same p in
      (
        record s { heap = write s.heap e.addr (new_node e value s.heap c) },
        rw ((descended k v).stops, hit),
        record {
          head = v.head;
          height = v.height;
          layout =
              Layout-revalued e value s.heap c (hd ∷ below k xs) ys
                (cut (λ z. Distinct (hd ∷ z)) v.distinct)
                (cut (λ z. Layout s.heap (hd ∷ z)) v.layout);
          distinct =
              Distinct-revalued e value (hd ∷ below k xs) ys
                (cut (λ z. Distinct (hd ∷ z)) v.distinct);
          old =
              All-revalued e value (λ x. x.addr < s.fresh) (hd ∷ below k xs) ys (λ n. n)
                (cut (λ z. All (λ x. x.addr < s.fresh) (hd ∷ z)) v.old);
          sorted = IsSorted-revalued e value (below k xs) ys (cut IsSorted v.sorted);
          level_top =
              cut (λ z. s.current_level ≡ top z) v.level_top
              ∙ sym (top-revalued e value (below k xs) ys);
          level_le = v.level_le;
          count =
              cut (λ z. s.element_count ≡ length z) v.count
              ∙ sym (length-revalued e value (below k xs) ys);
          room = rw length-revalued (cut (λ z. length z < s.fresh) v.room);
        },
      )
