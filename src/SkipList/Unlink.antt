-- ===== src/SkipList/Unlink.antt =====
-- remove of storage/skiplist.h: the unlinking loop and its break.
use reactor_kv.Prelude.{
  ℕ, zero, suc, ◌+◌, ◌≤◌, ◌<◌, ◌≡◌, ◌≢◌, ◌⊎◌, refl, Option, none, some, List, [], ◌∷◌, ◌++◌, arith,
  All, Bool-cases, inl, inr, ap, sym, subst, ◌∙◌, leb, leb→le, All-remove, All-append_left,
  All-append_right, get_elem?, lt-suc_cases,
}
use reactor_kv.SkipList.{Heap, Ptr, forward_at, set_forward, update_at, unlink_levels}
use reactor_kv.SkipList.Entry.{Entry, next_at, last_at, Distinct, next_at-reached, next_at-passed}
use reactor_kv.SkipList.Layout.{Holds, LinkedAt, Layout, le-last_at, Distinct-away}
use reactor_kv.SkipList.Link.{All-last_at, Written, set_forward_lem, LinkedAt-drop}
use reactor_kv.SkipList.Splice.{last-link, LinkedAt-unlink}
use reactor_kv.SkipList.Linking.{LinkedAt-level, All-keeps}

module _ {K V : Type 0} where
  -- The node that a level leads to is one of the entries.
  next_at-away :
      (i a : ℕ) (ys : List (Entry K V))
      → All (λ y. y.addr ≢ a) ys
      → (next_at i ys ≡ none) ⊎ ((q : ℕ) × (next_at i ys ≡ some q) × (q ≢ a))
  unfolding next_at
  next_at-away i a [] n = inl refl
  next_at-away i a (y ∷ ys) n = elim (Bool-cases (leb i y.level)) [
    | inl v ↦ rw v (inr (y.addr, refl, n.0))
    | inr v ↦ rw v (next_at-away i a ys n.1)
  ]

-- One round of the unlinking loop, and the round that breaks out of it.
module _ {K V : Type 0} (rounds n : ℕ) (p : Ptr) (update : List (Option Ptr)) (g : Heap K V)
    (u : Ptr) where
  unlink_round :
      {g' : Heap K V} (after : Option Ptr)
      → get_elem? update n ≡ some (some u)
      → forward_at g u n ≡ some (some p)
      → forward_at g p n ≡ some after
      → set_forward g u n after ≡ some g'
      → unlink_levels (suc rounds) n p update g ≡ unlink_levels rounds (n + 1) p update g'
  unfolding unlink_levels update_at
  unlink_round after a b c d = ground arith

  unlink_break :
      (q : Ptr)
      → get_elem? update n ≡ some (some u)
      → forward_at g u n ≡ some (some q)
      → q ≢ p
      → unlink_levels (suc rounds) n p update g ≡ some g
  unfolding unlink_levels update_at
  unlink_break q a b c = ground arith

-- Unlinking the entry `e` between `before` and `after`.
module _ {K V : Type 0} (hd : Entry K V) (before after : List (Entry K V)) (e : Entry K V) where
  pub record Unlinking (n : ℕ) (g : Heap K V) : Type 0 where
    pub holds : All (Holds g) (hd ∷ before ++ e ∷ after)
    pub done : (j : ℕ) → j < n → LinkedAt g j (hd ∷ before ++ after)
    pub todo : (j : ℕ) → n ≤ j → LinkedAt g j (hd ∷ before ++ e ∷ after)

  pub record Outcome (out : Option (Heap K V)) : Type 0 where
    pub heap : Heap K V
    pub runs : out ≡ some heap
    pub layout : Layout heap (hd ∷ before ++ after)

  -- Once the levels of the node are unlinked, the others do not reach it.
  unlinked : (n : ℕ) (g : Heap K V) → e.level < n → Unlinking n g → Layout g (hd ∷ before ++ after)
  unlinked n g h l = record {
    holds = All-remove (Holds g) e (hd ∷ before) after l.holds;
    linked = λ j. elim (Bool-cases (leb n j)) [
      | inl v ↦ LinkedAt-drop g j e (hd ∷ before) after (ground arith) (l.todo j (ground arith))
      | inr v ↦ l.done j (ground arith)
    ];
  }

  LinkedAt-middle :
      (g : Heap K V) (i : ℕ) (xs : List (Entry K V))
      → LinkedAt g i (xs ++ e ∷ after)
      → LinkedAt g i (e ∷ after)
  LinkedAt-middle g i [] l = l
  LinkedAt-middle g i (x ∷ xs) l = LinkedAt-middle g i xs l.1

  module _ (update : List (Option Ptr)) (cur : ℕ) (distinct : Distinct (hd ∷ before ++ e ∷ after))
      (low : cur ≤ hd.level) (reach : e.level ≤ cur)
      (stops : (j : ℕ)
        → j ≤ cur
        → get_elem? update j ≡ some (some (last_at j hd before).addr)) where
    -- One round: the level is relinked round the node.
    record Step (n : ℕ) (g : Heap K V) : Type 0 where
      heap : Heap K V
      writes : set_forward g (last_at n hd before).addr n (next_at n after) ≡ some heap
      next : Unlinking (n + 1) heap

    unlink-Step : (n : ℕ) (g : Heap K V) → n ≤ e.level → Unlinking n g → Step n g
    unlink-Step n g r l =
        let u = last_at n hd before in
        let hu : Holds g u =
          All-last_at (Holds g) n hd before l.holds.0
            (All-append_left (Holds g) before (e ∷ after) l.holds.1) in
        let w : Written g u n (next_at n after) (set_forward g u.addr n (next_at n after)) =
          set_forward_lem g u n (next_at n after) hu (le-last_at n hd before (omega arith)) in
        record {
          heap = w.heap;
          writes = w.done;
          next = record {
            holds = All-keeps g w.heap (hd ∷ before ++ e ∷ after) w.keeps l.holds;
            done = λ j c. elim (lt-suc_cases j n (omega arith)) [
              | inl c' ↦
                  LinkedAt-level g w.heap j (hd ∷ before ++ after) (λ p. w.level p j (omega arith))
                    (l.done j c')
              | inr z ↦
                  subst (λ t. LinkedAt w.heap t (hd ∷ before ++ after)) (sym z)
                    (LinkedAt-unlink g w.heap n e hd before after
                      (record { link = w.same; other = λ p d. w.other p n d }) distinct
                      (l.todo n (omega arith)) (ground arith))
            ];
            todo = λ j c.
                LinkedAt-level g w.heap j (hd ∷ before ++ e ∷ after)
                  (λ p. w.level p j (omega arith)) (l.todo j (omega arith));
          };
        }

    pub unlink_levels_lem :
        (rounds n : ℕ) (g : Heap K V)
        → n + rounds ≡ cur + 1
        → Unlinking n g
        → Outcome (unlink_levels rounds n e.addr update g)
    unfolding unlink_levels update_at
    unlink_levels_lem zero n g c l = record {
      heap = g;
      runs = refl;
      layout = unlinked n g (omega arith) l;
    }
    unlink_levels_lem (suc rounds) n g c l =
        let next = last-link g n hd before (e ∷ after) (omega arith) (l.todo n (omega arith)) in
        elim (Bool-cases (leb n e.level)) [
          | inl v ↦
              let s : Step n g = unlink-Step n g (leb→le n e.level v) l in
              let t : Outcome (unlink_levels rounds (n + 1) e.addr update s.heap) =
                unlink_levels_lem rounds (n + 1) s.heap (omega arith) s.next in
              let after_link : forward_at g e.addr n ≡ some (next_at n after) =
                (LinkedAt-middle g n (hd ∷ before) (l.todo n (omega arith))).0
                  (leb→le n e.level v) in
              record {
                heap = t.heap;
                runs =
                    unlink_round rounds n e.addr update g (last_at n hd before).addr
                      (next_at n after) (stops n (omega arith))
                      (next ∙ ap some (next_at-reached n e e after v)) after_link s.writes
                    ∙ t.runs;
                layout = t.layout;
              }
          | inr v ↦
              let away =
                All-append_right (λ x. x.addr ≢ e.addr) (hd ∷ before) after
                  (Distinct-away e (hd ∷ before) after distinct) in
              record {
                heap = g;
                runs = elim (next_at-away n e.addr after away) [
                  | inl z ↦
                      rw (stops n (omega arith), next ∙ ap some (next_at-passed n e e after v ∙ z))
                  | inr (q, z, ne) ↦
                      unlink_break rounds n e.addr update g (last_at n hd before).addr q
                        (stops n (omega arith)) (next ∙ ap some (next_at-passed n e e after v ∙ z))
                        ne
                ];
                layout = unlinked n g (ground arith) l;
              }
        ]
