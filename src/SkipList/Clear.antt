-- ===== src/SkipList/Clear.antt =====
-- The constructor and clear of storage/skiplist.h. clear resets only the levels up to
-- currentLevel_; the ones above lead nowhere already.
use reactor_kv.Prelude.{
  ℕ, zero, suc, ◌+◌, ◌≤◌, ◌<◌, ◌≡◌, refl, none, some, List, [], arith, Bool-cases, inl, inr, ap,
  ◌∙◌, leb, replicate, length-replicate, get_elem?-replicate, lt-suc_cases,
}
use reactor_kv.KeyOrder.{KeyOrder}
use reactor_kv.SkipList.{
  SkipList, Heap, create_node, forward_at, set_forward, clear_levels, clear, new,
}
use reactor_kv.SkipList.Entry.{Entry, next_at, top}
use reactor_kv.SkipList.Layout.{Holds}
use reactor_kv.SkipList.Link.{Written, set_forward_lem, write_self, forward_at-node}
use reactor_kv.SkipList.Lower.{next_at-above_top}
use reactor_kv.SkipList.Inv.{IsSkipList, Represents}

module _ {K V : Type 0} (hd : Entry K V) where
  -- The header's pointers below level `n` are null, the others are those of `h`.
  record Cleared (h : Heap K V) (n : ℕ) (g : Heap K V) : Type 0 where
    holds : Holds g hd
    low : (j : ℕ) → j < n → forward_at g hd.addr j ≡ some none
    high : (j : ℕ) → n ≤ j → forward_at g hd.addr j ≡ forward_at h hd.addr j

  clear_levels_lem :
      (h : Heap K V) (rounds n m : ℕ) (g : Heap K V)
      → n + rounds ≡ m
      → m ≤ hd.level + 1
      → Cleared h n g
      → (g' : Heap K V) × (clear_levels rounds n hd.addr g ≡ some g') × Cleared h m g'
  unfolding clear_levels
  clear_levels_lem h zero n m g e b c = let z : n ≡ m = omega arith in (g, refl, rw (← z) c)
  clear_levels_lem h (suc rounds) n m g e b c =
      let w : Written g hd n none (set_forward g hd.addr n none) =
        set_forward_lem g hd n none c.holds (omega arith) in
      let c' : Cleared h (n + 1) w.heap = record {
        holds = w.keeps hd c.holds;
        low = λ j l. elim (lt-suc_cases j n (omega arith)) [
          | inl l' ↦ w.level hd.addr j (omega arith) ∙ c.low j l'
          | inr z ↦ rw z w.same
        ];
        high = λ j l. w.level hd.addr j (omega arith) ∙ c.high j (omega arith);
      } in
      let (g', r, d) = clear_levels_lem h rounds (n + 1) m w.heap (omega arith) b c' in
      (g', rw w.done r, d)

module _ {K V : Type 0} ⦃o : KeyOrder K⦄ where
  -- A header whose pointers are all null is an empty list.
  IsSkipList-empty :
      (s : SkipList K V) (hd : Entry K V)
      → hd.addr ≡ s.header
      → hd.level ≡ s.max_level
      → Holds s.heap hd
      → ((j : ℕ) → j ≤ hd.level → forward_at s.heap hd.addr j ≡ some none)
      → hd.addr < s.fresh
      → s.current_level ≡ 0
      → s.element_count ≡ 0
      → IsSkipList s hd []
  unfolding next_at top
  IsSkipList-empty s hd a b c f l z n = record {
    head = a;
    height = b;
    layout = record { holds = (c, tt); linked = λ i. (f i, tt) };
    distinct = (tt, tt);
    old = (l, tt);
    sorted = tt;
    level_top = z;
    level_le = omega arith;
    count = n;
    room = omega arith;
  }

  -- The constructor makes an empty list.
  pub new-Represents : (k : K) (v : V) (max_level : ℕ) → Represents (new k v max_level) []
  unfolding new forward_at
  new-Represents k v max_level =
      let hd : Entry K V = record { addr = 0; key = k; value = v; level = max_level } in
      let n = create_node k v max_level in
      let self = write_self (λ _. none) 0 n in
      record {
        hd = hd;
        entries = [];
        inv =
            IsSkipList-empty (new k v max_level) hd refl refl
              (record {
                forward = replicate (max_level + 1) none;
                here = self;
                size = length-replicate (max_level + 1) none ∙ omega arith;
              })
              (λ j h.
                forward_at-node (new k v max_level).heap 0 n j self
                ∙ get_elem?-replicate (max_level + 1) j none (omega arith))
              (omega arith) refl refl;
        same = refl;
      }

  clear-entries :
      {s : SkipList K V} {hd : Entry K V} {xs : List (Entry K V)}
      → IsSkipList s hd xs
      → (s' : SkipList K V) × (clear s ≡ some s') × IsSkipList s' hd []
  unfolding clear
  clear-entries {s} {hd} {xs} v =
      let a = v.height in
      let b = v.level_le in
      let t = v.level_top in
      let (g, r, c) =
        clear_levels_lem hd s.heap (s.current_level + 1) 0 (s.current_level + 1) s.heap
          (omega arith) (omega arith)
          (record {
            holds = v.layout.holds.0;
            low = λ j l. absurd (omega arith);
            high = λ j l. refl;
          }) in
      let s' : SkipList K V = record s { heap = g; current_level = 0; element_count = 0 } in
      (
        s',
        rw (← v.head) (rw r),
        IsSkipList-empty s' hd v.head v.height c.holds
            (λ j h. elim (Bool-cases (leb j s.current_level)) [
              | inl q ↦ c.low j (ground arith)
              | inr q ↦
                  c.high j (ground arith)
                  ∙ (v.layout.linked j).0 h
                  ∙ ap some (next_at-above_top j xs (ground arith))
            ])
            v.old.0 refl refl,
      )

  -- clear leaves a list that stands for the empty map.
  pub clear_refines :
      {s : SkipList K V} {m : List (K × V)}
      → Represents s m
      → (s' : SkipList K V) × (clear s ≡ some s') × Represents s' []
  clear_refines r =
      let (s', e, i) = clear-entries r.inv in
      (s', e, record { hd = r.hd; entries = []; inv = i; same = refl })
