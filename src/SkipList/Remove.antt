-- ===== src/SkipList/Remove.antt =====
-- remove of storage/skiplist.h on a list that holds the key.
use reactor_kv.Prelude.{
  ◌+◌, ◌-◌, ◌<◌, ◌≡◌, refl, true, some, List, [], ◌∷◌, ◌++◌, arith, All, ap, sym, subst, ◌∙◌,
  All-remove, length, length-append,
}
use reactor_kv.KeyOrder.{KeyOrder}
use reactor_kv.SkipList.{SkipList, forward_at, unlink_levels, remove}
use reactor_kv.SkipList.Entry.{Entry, last_at, Distinct, top, below, from, IsSorted}
use reactor_kv.SkipList.Layout.{Holds, Layout, Distinct-remove}
use reactor_kv.SkipList.Insert.{top-append}
use reactor_kv.SkipList.Inv.{IsSkipList}
use reactor_kv.SkipList.Split.{below-append-from}
use reactor_kv.SkipList.Search.{descended, stop_link, after-Holds, match_next-hit}
use reactor_kv.SkipList.Lower.{lower_level_lem}
use reactor_kv.SkipList.Unlink.{Outcome, unlink_levels_lem}

module _ {K V : Type 0} ⦃o : KeyOrder K⦄ where
  IsSorted-remove :
      (e : Entry K V) (xs ys : List (Entry K V)) → IsSorted (xs ++ e ∷ ys) → IsSorted (xs ++ ys)
  IsSorted-remove e [] ys s = s.1
  IsSorted-remove e (x ∷ xs) ys s =
      (All-remove (λ y. o.less x.key y.key ≡ true) e xs ys s.0, IsSorted-remove e xs ys s.1)

  -- remove of a key that the list holds.
  pub remove-found :
      {s : SkipList K V} {hd : Entry K V} {xs : List (Entry K V)} (k : K) (e : Entry K V)
      (ys : List (Entry K V)) (v : IsSkipList s hd xs)
      → from k xs ≡ e ∷ ys
      → o.equal e.key k ≡ true
      → (s' : SkipList K V) × (remove k s ≡ some (true, s')) × IsSkipList s' hd (below k xs ++ ys)
  unfolding remove top
  remove-found {s} {hd} {xs} k e ys v q t =
      let c : Holds s.heap e = (rw q at (after-Holds k v)).0 in
      let same : xs ≡ below k xs ++ e ∷ ys = rw (← q) (rw below-append-from) in
      let hit =
        match_next-hit s.heap k (last_at 0 hd (below k xs)).addr e ys (rw q at (stop_link k v)) c
          t in
      let cut : (P : List (Entry K V) → Type 0) → P xs → P (below k xs ++ e ∷ ys) =
        λ P p. subst P same p in
      let distinct = cut (λ z. Distinct (hd ∷ z)) v.distinct in
      let layout = cut (λ z. Layout s.heap (hd ∷ z)) v.layout in
      let level_top =
        cut (λ z. s.current_level ≡ top z) v.level_top ∙ top-append (below k xs) (e ∷ ys) in
      let tops = top-append (below k xs) ys in
      let length = cut (λ z. length z ≡ length xs) refl in
      let length' = length-append (below k xs) (e ∷ ys) in
      let length'' = length-append (below k xs) ys in
      let low = v.level_le in
      let height = v.height in
      let count = v.count in
      let room = v.room in
      let u : Outcome hd (below k xs) ys e
          (unlink_levels (s.current_level + 1) 0 e.addr (descended k v).result s.heap) =
        unlink_levels_lem hd (below k xs) ys e (descended k v).result s.current_level distinct
          (omega arith) (omega arith) (descended k v).low (s.current_level + 1) 0 s.heap
          (omega arith)
          (record {
            holds = layout.holds;
            done = λ j h. absurd (omega arith);
            todo = λ j h. layout.linked j;
          }) in
      let level =
        lower_level_lem u.heap s.header s.current_level (below k xs ++ ys)
          (λ i g.
            ap (λ p. forward_at u.heap p i) (sym v.head) ∙ (u.layout.linked i).0 (omega arith))
          (omega arith) in
      (
        record s {
          heap = u.heap;
          current_level = top (below k xs ++ ys);
          element_count = s.element_count - 1;
        },
        rw ((descended k v).stops, hit, u.runs, level),
        record {
          head = v.head;
          height = v.height;
          layout = u.layout;
          distinct = Distinct-remove e (hd ∷ below k xs) ys distinct;
          old =
              All-remove (λ x. x.addr < s.fresh) e (hd ∷ below k xs) ys
                (cut (λ z. All (λ x. x.addr < s.fresh) (hd ∷ z)) v.old);
          sorted = IsSorted-remove e (below k xs) ys (cut IsSorted v.sorted);
          level_top = refl;
          level_le = omega arith;
          count = omega arith;
          room = omega arith;
        },
      )
