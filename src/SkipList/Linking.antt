-- ===== src/SkipList/Linking.antt =====
-- The linking loop of insert in storage/skiplist.h, level by level, with what feeds it: the random
-- level and the update vector.
use reactor_kv.Prelude.{
  ℕ, zero, suc, ◌+◌, ◌-◌, ◌≤◌, ◌<◌, ◌≡◌, ◌≢◌, refl, Option, some, List, [], ◌∷◌, ◌++◌, arith, All,
  inl, inr, sym, subst, ◌∙◌, All-append_left, length, get_elem?, set, get_elem?-lt,
  get_elem?-set_self, get_elem?-set_ne, length-set, lt-suc_cases,
}
use reactor_kv.SkipList.{
  Heap, Ptr, forward_at, set_forward, link_level, link_levels, update_at, set_update, raise_update,
  Draws, level_loop, random_level,
}
use reactor_kv.SkipList.Entry.{Entry, next_at, last_at, Distinct}
use reactor_kv.SkipList.Layout.{Holds, LinkedAt, le-last_at}
use reactor_kv.SkipList.Link.{All-last_at, Written, set_forward_lem}
use reactor_kv.SkipList.Splice.{last-link, Linked, LinkedAt-link}

level_loop-le : (draws : Draws) (rounds level : ℕ) → level_loop draws rounds level ≤ level + rounds
unfolding level_loop
level_loop-le draws zero level = omega arith
level_loop-le draws (suc rounds) level = ground (arith, level_loop-le draws rounds (level + 1))

-- The random level never exceeds maxLevel_ - 1.
pub random_level-le : (draws : Draws) (max_level : ℕ) → random_level draws max_level ≤ max_level - 1
unfolding random_level
random_level-le draws max_level = omega (arith, level_loop-le draws (max_level - 1) 0)

-- The update vector after the new levels have been pointed at the header.
pub record Raised (rounds i : ℕ) (header : Ptr) (update : List (Option Ptr))
    (out : Option (List (Option Ptr))) : Type 0 where
  pub result : List (Option Ptr)
  pub done : out ≡ some result
  pub new : (j : ℕ) → i ≤ j → j < i + rounds → get_elem? result j ≡ some (some header)
  pub old : (j : ℕ) → j < i → get_elem? result j ≡ get_elem? update j

pub raise_update_lem :
    (rounds i : ℕ) (header : Ptr) (update : List (Option Ptr))
    → i + rounds ≤ length update
    → Raised rounds i header update (raise_update rounds i header update)
unfolding raise_update set_update
raise_update_lem zero i header update h = record {
  result = update;
  done = refl;
  new = λ j a b. absurd (omega arith);
  old = λ j a. refl;
}
raise_update_lem (suc rounds) i header update h =
    let update' = set update i (some header) in
    let r : Raised rounds (i + 1) header update' (raise_update rounds (i + 1) header update') =
      raise_update_lem rounds (i + 1) header update' (rw length-set (omega arith)) in
    record {
      result = r.result;
      done = rw (get_elem?-lt update i (omega arith)).1 r.done;
      new = λ j a b. elim (lt-suc_cases i j (omega arith)) [
        | inl c ↦ r.new j (omega arith) (omega arith)
        | inr c ↦ rw (← c) (r.old i (omega arith) ∙ get_elem?-set_self update i _ (omega arith))
      ];
      old = λ j a. r.old j (omega arith) ∙ get_elem?-set_ne update _ (omega arith);
    }

module _ {K V : Type 0} where
  pub LinkedAt-level :
      (h g : Heap K V) (i : ℕ) (xs : List (Entry K V))
      → ((p : Ptr) → forward_at g p i ≡ forward_at h p i)
      → LinkedAt h i xs
      → LinkedAt g i xs
  LinkedAt-level h g i [] f l = tt
  LinkedAt-level h g i (x ∷ xs) f l = (λ r. f x.addr ∙ l.0 r, LinkedAt-level h g i xs f l.1)

  pub All-keeps :
      (h g : Heap K V) (xs : List (Entry K V))
      → ((x : Entry K V) → Holds h x → Holds g x)
      → All (Holds h) xs
      → All (Holds g) xs
  All-keeps h g [] f a = tt
  All-keeps h g (x ∷ xs) f a = (f x a.0, All-keeps h g xs f a.1)

-- Linking the entry `e` between `before` and `after`.
module _ {K V : Type 0} (hd : Entry K V) (before after : List (Entry K V)) (e : Entry K V) where
  -- The levels below `n` have the new entry, the others do not yet.
  pub record Linking (n : ℕ) (g : Heap K V) : Type 0 where
    pub holds : All (Holds g) (hd ∷ before ++ after)
    pub entry : Holds g e
    pub done : (j : ℕ) → j < n → LinkedAt g j (hd ∷ before ++ e ∷ after)
    pub todo : (j : ℕ) → n ≤ j → LinkedAt g j (hd ∷ before ++ after)

  pub record Step (n : ℕ) (out : Option (Heap K V)) : Type 0 where
    pub heap : Heap K V
    pub runs : out ≡ some heap
    pub linking : Linking n heap

  module _ (update : List (Option Ptr)) (distinct : Distinct (hd ∷ before ++ after))
      (away : All (λ x. x.addr ≢ e.addr) (hd ∷ before ++ after)) (low : e.level ≤ hd.level)
      (stops : (j : ℕ)
        → j ≤ e.level
        → get_elem? update j ≡ some (some (last_at j hd before).addr)) where
    link_level_lem :
        (n : ℕ) (g : Heap K V)
        → n ≤ e.level
        → Linking n g
        → Step (n + 1) (link_level n e.addr update g)
    unfolding link_level update_at
    link_level_lem n g r l =
        let u = last_at n hd before in
        let hu : Holds g u =
          All-last_at (Holds g) n hd before l.holds.0 (All-append_left _ before after l.holds.1) in
        let ne : u.addr ≢ e.addr =
          All-last_at (λ x. x.addr ≢ e.addr) n hd before away.0
            (All-append_left _ before after away.1) in
        let next = last-link g n hd before after (omega arith) (l.todo n (omega arith)) in
        let w1 : Written g e n (next_at n after) (set_forward g e.addr n (next_at n after)) =
          set_forward_lem g e n (next_at n after) l.entry r in
        let w2 : Written w1.heap u n (some e.addr) (set_forward w1.heap u.addr n (some e.addr)) =
          set_forward_lem w1.heap u n (some e.addr) (w1.keeps u hu)
            (le-last_at n hd before (omega arith)) in
        let level : (j : ℕ) → j ≢ n → (p : Ptr) → forward_at w2.heap p j ≡ forward_at g p j =
          λ j d p. w2.level p j d ∙ w1.level p j d in
        let linked : Linked g w2.heap n e u after = record {
          entry = w2.other e.addr n (λ z. ne (sym z)) ∙ w1.same;
          link = w2.same;
          other = λ p d d'. w2.other p n d' ∙ w1.other p n d;
        } in
        record {
          heap = w2.heap;
          runs = rw (stops n r, next, w1.done, w2.done);
          linking = record {
            holds =
                All-keeps g w2.heap (hd ∷ before ++ after) (λ x c. w2.keeps x (w1.keeps x c))
                  l.holds;
            entry = w2.keeps e (w1.keeps e l.entry);
            done = λ j c. elim (lt-suc_cases j n (omega arith)) [
              | inl c' ↦
                  LinkedAt-level g w2.heap j (hd ∷ before ++ e ∷ after) (level j (omega arith))
                    (l.done j c')
              | inr z ↦
                  subst (λ t. LinkedAt w2.heap t (hd ∷ before ++ e ∷ after)) (sym z)
                    (LinkedAt-link g w2.heap n e hd before after (ground arith) linked distinct away
                      (l.todo n (omega arith)))
            ];
            todo = λ j c.
                LinkedAt-level g w2.heap j (hd ∷ before ++ after) (level j (omega arith))
                  (l.todo j (omega arith));
          };
        }

    pub link_levels_lem :
        (rounds n m : ℕ) (g : Heap K V)
        → n + rounds ≡ m
        → m ≤ e.level + 1
        → Linking n g
        → Step m (link_levels rounds n e.addr update g)
    unfolding link_levels
    link_levels_lem zero n m g c r l = record {
      heap = g;
      runs = refl;
      linking = rw (← (let z : n ≡ m = omega arith in z)) l;
    }
    link_levels_lem (suc rounds) n m g c r l =
        let s : Step (n + 1) (link_level n e.addr update g) = link_level_lem n g (omega arith) l in
        let t : Step m (link_levels rounds (n + 1) e.addr update s.heap) =
          link_levels_lem rounds (n + 1) m s.heap (omega arith) r s.linking in
        record { heap = t.heap; runs = rw s.runs t.runs; linking = t.linking }
