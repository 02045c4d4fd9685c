-- ===== src/SkipList/Walk.antt =====
-- Where the descents of storage/skiplist.h stop: at the last entry of each level whose key is
-- smaller than the one looked for. Each walk ends within its fuel and meets no null pointer.
use reactor_kv.Prelude.{
  ℕ, zero, suc, ◌≤◌, ◌<◌, ◌≡◌, true, false, Option, some, List, [], ◌∷◌, ◌++◌, arith, leb, All,
  length, Bool-cases, inl, inr, get_elem?, set, get_elem?-lt, le-suc_cases, get_elem?-set_self,
  get_elem?-set_ne, length-set, leb→le, Option-cases, ◌∙◌, ap,
}
use reactor_kv.KeyOrder.{KeyOrder}
use reactor_kv.SkipList.{Ptr, Heap, forward_at, walk, descend, descend_update, set_update}
use reactor_kv.SkipList.Entry.{Entry, next_at, last_at, rest_at, last_at-reached, last_at-passed}
use reactor_kv.SkipList.Layout.{
  Holds, LinkedAt, Layout, Layout-suffix, All-suffix, whole, Suffix-seek, Suffix-rest_at,
  last_at-seek, le-last_at, length-rest_at,
}

module _ {K V : Type 0} ⦃o : KeyOrder K⦄ (h : Heap K V) (k : K) where
  abbrev pub Less : Entry K V → Type 0
  Less e = o.less e.key k ≡ true

  abbrev pub NotLess : Entry K V → Type 0
  NotLess e = o.less e.key k ≡ false

  -- A walk stays where the next entry of its level is not smaller than the key.
  walk_stop :
      (f i : ℕ) (p : Ptr) (after : List (Entry K V))
      → forward_at h p i ≡ some (next_at i after)
      → All (Holds h) after
      → All NotLess after
      → walk (suc f) h k i p ≡ some p
  unfolding walk next_at
  walk_stop f i p [] e hs ns = rw e
  walk_stop f i p (x ∷ after) e hs ns = elim (Bool-cases (leb i x.level)) [
    | inl v ↦ let e' : forward_at h p i ≡ some (some x.addr) = rw v at e in rw (e', hs.0.here, ns.0)
    | inr v ↦ walk_stop f i p after (rw v at e) hs.1 ns.1
  ]

  -- A walk goes on to the next entry of its level if that is smaller than the key.
  walk_step :
      (f i : ℕ) (c x : Entry K V) (rest : List (Entry K V))
      → forward_at h c.addr i ≡ some (next_at i (x ∷ rest))
      → leb i x.level ≡ true
      → Holds h x
      → Less x
      → walk (suc f) h k i c.addr ≡ walk f h k i x.addr
  unfolding walk next_at
  walk_step f i c x rest e v hs ls =
      let e' : forward_at h c.addr i ≡ some (some x.addr) = rw v at e in rw (e', hs.here, ls)

  -- A walk stops at the last entry of its level that is smaller than the key.
  walk_lem :
      (f i : ℕ) (c : Entry K V) (mid after : List (Entry K V))
      → forward_at h c.addr i ≡ some (next_at i (mid ++ after))
      → LinkedAt h i (mid ++ after)
      → All (Holds h) (mid ++ after)
      → All Less mid
      → All NotLess after
      → length mid < f
      → walk f h k i c.addr ≡ some (last_at i c mid).addr
  unfolding next_at last_at
  walk_lem zero i c mid after e l hs ls ns fuel = absurd (omega arith)
  walk_lem (suc f) i c [] after e l hs ls ns fuel = walk_stop f i c.addr after e hs ns
  walk_lem (suc f) i c (x ∷ mid) after e l hs ls ns fuel = elim (Bool-cases (leb i x.level)) [
    | inl v ↦ rw (last_at-reached i c x mid v) (
        walk_step f i c x (mid ++ after) e v hs.0 ls.0
        ∙ walk_lem f i x mid after (l.0 (leb→le i x.level v)) l.1 hs.1 ls.1 ns (omega arith))
    | inr v ↦
        rw (last_at-passed i c x mid v)
          (walk_lem (suc f) i c mid after (rw v at e) l.1 hs.1 ls.1 ns (omega arith))
  ]

  -- What a descent from level `i` leaves: the end of each level's walk in `update`, and the levels
  -- above as they were.
  pub record Descended (i : ℕ) (c : Entry K V) (mid : List (Entry K V)) (update : List (Option Ptr))
      (out : Option (Ptr × List (Option Ptr))) : Type 0 where
    pub result : List (Option Ptr)
    pub stops : out ≡ some ((last_at 0 c mid).addr, result)
    pub size : length result ≡ length update
    pub low : (j : ℕ) → j ≤ i → get_elem? result j ≡ some (some (last_at j c mid).addr)
    pub high : (j : ℕ) → i < j → get_elem? result j ≡ get_elem? update j

  pub descend_update_lem :
      (f i : ℕ) (c : Entry K V) (mid after : List (Entry K V)) (update : List (Option Ptr))
      → Layout h (c ∷ mid ++ after)
      → i ≤ c.level
      → All Less mid
      → All NotLess after
      → length mid < f
      → i < length update
      → Descended i c mid update (descend_update f h k i c.addr update)
  unfolding descend_update set_update
  descend_update_lem f zero c mid after update l ic ls ns fuel room =
      let w = walk_lem f 0 c mid after ((l.linked 0).0 ic) (l.linked 0).1 l.holds.1 ls ns fuel in
      record {
        result = set update 0 (some (last_at 0 c mid).addr);
        stops = rw (w, (get_elem?-lt update 0 room).1);
        size = length-set update 0 (some (last_at 0 c mid).addr);
        low = λ j g. let z : j ≡ 0 = omega arith in rw z (get_elem?-set_self update 0 _ room);
        high = λ j g. get_elem?-set_ne update _ (omega arith);
      }
  descend_update_lem f (suc i) c mid after update l ic ls ns fuel room =
      let w =
        walk_lem f (suc i) c mid after ((l.linked (suc i)).0 ic) (l.linked (suc i)).1 l.holds.1 ls
          ns fuel in
      let c' = last_at (suc i) c mid in
      let rest = rest_at (suc i) mid mid in
      let update' = set update (suc i) (some c'.addr) in
      let d : Descended i c' rest update' (descend_update f h k i c'.addr update') =
        descend_update_lem f i c' rest after update'
          (Layout-suffix (Suffix-seek (suc i) c mid after) l)
          (let m = le-last_at (suc i) c mid ic in omega arith)
          (All-suffix Less (Suffix-rest_at (suc i) mid mid whole whole) ls) ns
          (let m = length-rest_at (suc i) mid mid (length mid) (omega arith) (omega arith) in
            omega arith)
          (rw length-set (omega arith)) in
      record {
        result = d.result;
        stops =
            rw (w, (get_elem?-lt update (suc i) room).1)
              (d.stops
                ∙ ap (λ (e : Entry K V). some (e.addr, d.result))
                    (last_at-seek (suc i) 0 c mid (omega arith)));
        size = d.size ∙ length-set update (suc i) (some c'.addr);
        low = λ j g. elim (le-suc_cases j i g) [
          | inl g' ↦
              d.low j g'
              ∙ ap (λ (e : Entry K V). some (some e.addr))
                  (last_at-seek (suc i) j c mid (omega arith))
          | inr z ↦ rw z (d.high (suc i) (omega arith) ∙ get_elem?-set_self update (suc i) _ room)
        ];
        high = λ j g. d.high j (omega arith) ∙ get_elem?-set_ne update _ (omega arith);
      }

  -- The descent of search visits the same nodes as that of insert and remove.
  pub descend-of-update :
      (f i : ℕ) (p : Ptr) (update : List (Option Ptr)) {q : Ptr} {result : List (Option Ptr)}
      → descend_update f h k i p update ≡ some (q, result)
      → descend f h k i p ≡ some q
  unfolding descend descend_update
  descend-of-update f zero p update e = elim (Option-cases (walk f h k zero p)) [
    | inl w ↦ cc (rw w at e)
    | inr (c, w) ↦ rw w (ground (arith, rw w at e))
  ]
  descend-of-update f (suc i) p update e = elim (Option-cases (walk f h k (suc i) p)) [
    | inl w ↦ cc (rw w at e)
    | inr (c, w) ↦ elim (Option-cases (set_update update (suc i) c)) [
      | inl n ↦ cc (rw (w, n) at e)
      | inr (u, n) ↦ rw w (descend-of-update f i c u (rw (w, n) at e))
    ]
  ]
