-- ===== src/SkipList/Link.antt =====
-- Rewiring one level of storage/skiplist.h: writes to forward[i], a node linked in, a node
-- unlinked.
use reactor_kv.Prelude.{
  ℕ, ◌≤◌, ◌<◌, ◌≡◌, ◌≢◌, refl, false, Option, some, List, [], ◌∷◌, ◌++◌, arith, All, length,
  Bool-cases, inl, inr, ap, sym, ◌∙◌, leb, ◌==◌, get_elem?, set, get_elem?-lt, get_elem?-set_self,
  get_elem?-set_ne, length-set, ==_iff,
}
use reactor_kv.SkipList.{Heap, Ptr, Node, forward_at, set_forward, write}
use reactor_kv.SkipList.Entry.{Entry, next_at, last_at, rest_at}
use reactor_kv.SkipList.Layout.{Holds, LinkedAt}

module _ {K V : Type 0} where
  pub write_self : (h : Heap K V) (p : Ptr) (n : Node K V) → write h p n p ≡ some n
  unfolding write
  write_self h p n = ground arith

  pub write-other : (h : Heap K V) (p a : Ptr) (n : Node K V) → a ≢ p → write h p n a ≡ h a
  unfolding write
  write-other h p a n ne = ground arith

  pub forward_at-node :
      (h : Heap K V) (p : Ptr) (n : Node K V) (j : ℕ)
      → h p ≡ some n
      → forward_at h p j ≡ get_elem? n.forward j
  unfolding forward_at
  forward_at-node h p n j e = rw e

  pub forward_at-same :
      (h g : Heap K V) (p : Ptr) (j : ℕ) → g p ≡ h p → forward_at g p j ≡ forward_at h p j
  unfolding forward_at
  forward_at-same h g p j e = rw e

  -- The node of an entry with one pointer changed.
  abbrev relinked : {h : Heap K V} (e : Entry K V) → Holds h e → ℕ → Option Ptr → Node K V
  relinked e c i q = record {
    key = e.key;
    value = e.value;
    node_level = e.level;
    forward = set c.forward i q;
  }

  Holds-write :
      (h : Heap K V) (e x : Entry K V) (c : Holds h e) (i : ℕ) (q : Option Ptr)
      → Holds h x
      → Holds (write h e.addr (relinked e c i q)) x
  Holds-write h e x c i q d = elim (Bool-cases (x.addr == e.addr)) [
    | inl p ↦
        let at : x.addr ≡ e.addr = (==_iff x.addr e.addr).0 p in
        let same = sym c.here ∙ ap h (sym at) ∙ d.here in
        record {
          forward = set c.forward i q;
          here = rw at (rw write_self (cc same));
          size = length-set c.forward i q ∙ c.size ∙ cc same;
        }
    | inr p ↦ record {
      forward = d.forward;
      here = write-other h e.addr x.addr _ (ground arith) ∙ d.here;
      size = d.size;
    }
  ]

  level-write :
      (h : Heap K V) (e : Entry K V) (c : Holds h e) (i : ℕ) (q : Option Ptr) (p : Ptr) (j : ℕ)
      → j ≢ i
      → forward_at (write h e.addr (relinked e c i q)) p j ≡ forward_at h p j
  level-write h e c i q p j ne = elim (Bool-cases (p == e.addr)) [
    | inl t ↦
        let at : p ≡ e.addr = (==_iff p e.addr).0 t in
        rw at (
          forward_at-node _ e.addr _ j (write_self h e.addr _)
          ∙ get_elem?-set_ne c.forward q (λ z. ne (sym z))
          ∙ sym (forward_at-node h e.addr _ j c.here))
    | inr t ↦ forward_at-same h _ p j (write-other h e.addr p _ (ground arith))
  ]

  -- What a write of `q` to forward[i] of an entry's node leaves.
  pub record Written (h : Heap K V) (e : Entry K V) (i : ℕ) (q : Option Ptr)
      (out : Option (Heap K V)) : Type 0 where
    pub heap : Heap K V
    pub done : out ≡ some heap
    pub same : forward_at heap e.addr i ≡ some q
    pub level : (p : Ptr) (j : ℕ) → j ≢ i → forward_at heap p j ≡ forward_at h p j
    pub other : (p : Ptr) (j : ℕ) → p ≢ e.addr → forward_at heap p j ≡ forward_at h p j
    pub keeps : (x : Entry K V) → Holds h x → Holds heap x

  pub set_forward_lem :
      (h : Heap K V) (e : Entry K V) (i : ℕ) (q : Option Ptr)
      → Holds h e
      → i ≤ e.level
      → Written h e i q (set_forward h e.addr i q)
  unfolding set_forward forward_at write
  set_forward_lem h e i q c g =
      let r : i < length c.forward = (let z = c.size in omega arith) in
      record {
        heap = write h e.addr (relinked e c i q);
        done = rw (c.here, (get_elem?-lt c.forward i r).1);
        same =
            forward_at-node (write h e.addr (relinked e c i q)) e.addr (relinked e c i q) i
              (write_self h e.addr (relinked e c i q))
            ∙ get_elem?-set_self c.forward i q r;
        level = level-write h e c i q;
        other = λ p j ne.
            forward_at-same h (write h e.addr (relinked e c i q)) p j
              (write-other h e.addr p (relinked e c i q) ne);
        keeps = λ x d. Holds-write h e x c i q d;
      }

  pub LinkedAt-same :
      (h g : Heap K V) (i : ℕ) (xs : List (Entry K V))
      → All (λ x. forward_at g x.addr i ≡ forward_at h x.addr i) xs
      → LinkedAt h i xs
      → LinkedAt g i xs
  LinkedAt-same h g i [] a l = tt
  LinkedAt-same h g i (x ∷ xs) a l = (λ r. a.0 ∙ l.0 r, LinkedAt-same h g i xs a.1 l.1)

  pub All-last_at :
      (P : Entry K V → Type 0) (i : ℕ) (c : Entry K V) (mid : List (Entry K V))
      → P c
      → All P mid
      → P (last_at i c mid)
  unfolding last_at
  All-last_at P i c [] pc a = pc
  All-last_at P i c (x ∷ mid) pc a = elim (Bool-cases (leb i x.level)) [
    | inl v ↦ rw v (All-last_at P i x mid a.0 a.1)
    | inr v ↦ rw v (All-last_at P i c mid pc a.1)
  ]

  -- Behind the last entry that level `i` links, the level goes on with what follows.
  pub next_at-rest_at :
      (i : ℕ) (rest mid after : List (Entry K V))
      → next_at i (rest ++ after) ≡ next_at i (mid ++ after)
      → next_at i (rest_at i rest mid ++ after) ≡ next_at i after
  unfolding rest_at next_at
  next_at-rest_at i rest [] after e = e
  next_at-rest_at i rest (x ∷ mid) after e = elim (Bool-cases (leb i x.level)) [
    | inl v ↦ rw v (next_at-rest_at i mid mid after refl)
    | inr v ↦ rw v (next_at-rest_at i rest mid after (rw v at e))
  ]

  pub next_at-skip :
      (i : ℕ) (e : Entry K V) (mid after : List (Entry K V))
      → leb i e.level ≡ false
      → next_at i (mid ++ e ∷ after) ≡ next_at i (mid ++ after)
  unfolding next_at
  next_at-skip i e [] after v = rw v
  next_at-skip i e (x ∷ mid) after v = ground (arith, next_at-skip i e mid after v)

  -- A node that a level does not reach may be dropped from its list, or put there.
  pub LinkedAt-drop :
      (h : Heap K V) (i : ℕ) (e : Entry K V) (mid after : List (Entry K V))
      → leb i e.level ≡ false
      → LinkedAt h i (mid ++ e ∷ after)
      → LinkedAt h i (mid ++ after)
  LinkedAt-drop h i e [] after v l = l.1
  LinkedAt-drop h i e (x ∷ mid) after v l =
      (λ r. l.0 r ∙ ap some (next_at-skip i e mid after v), LinkedAt-drop h i e mid after v l.1)

  pub LinkedAt-put :
      (h : Heap K V) (i : ℕ) (e : Entry K V) (mid after : List (Entry K V))
      → leb i e.level ≡ false
      → LinkedAt h i (mid ++ after)
      → LinkedAt h i (mid ++ e ∷ after)
  LinkedAt-put h i e [] after v l = (λ r. ground arith, l)
  LinkedAt-put h i e (x ∷ mid) after v l = (
    λ r. l.0 r ∙ ap some (sym (next_at-skip i e mid after v)),
    LinkedAt-put h i e mid after v l.1,
  )
