-- ===== src/SkipList/Splice.antt =====
-- One round of the loops of insert and remove in storage/skiplist.h: what relinking one level does
-- to the list of that level.
use reactor_kv.Prelude.{
  ℕ, ◌≤◌, ◌≡◌, ◌≢◌, refl, true, some, List, [], ◌∷◌, ◌++◌, arith, All, Bool-cases, inl, inr, ap,
  sym, ◌∙◌, leb, All-append_left, All-mono,
}
use reactor_kv.SkipList.{Heap, Ptr, forward_at}
use reactor_kv.SkipList.Entry.{
  Entry, next_at, last_at, Distinct, next_at-reached, next_at-passed, last_at-reached,
  last_at-passed,
}
use reactor_kv.SkipList.Layout.{LinkedAt, Suffix-seek, LinkedAt-suffix, le-last_at}
use reactor_kv.SkipList.Link.{LinkedAt-same, All-last_at, next_at-rest_at}

module _ {K V : Type 0} (h : Heap K V) (i : ℕ) where
  -- The last node of a level before a position leads to the first one behind it.
  pub last-link :
      (c : Entry K V) (mid after : List (Entry K V))
      → i ≤ c.level
      → LinkedAt h i (c ∷ mid ++ after)
      → forward_at h (last_at i c mid).addr i ≡ some (next_at i after)
  last-link c mid after r l =
      (LinkedAt-suffix h i (Suffix-seek i c mid after) l).0 (le-last_at i c mid r)
      ∙ ap some (next_at-rest_at i mid mid after refl)

module _ {K V : Type 0} (h g : Heap K V) (i : ℕ) (e : Entry K V) where
  -- Level `i` of `g` is that of `h` with `e` linked in behind `u`.
  pub record Linked (u : Entry K V) (after : List (Entry K V)) : Type 0 where
    pub entry : forward_at g e.addr i ≡ some (next_at i after)
    pub link : forward_at g u.addr i ≡ some (some e.addr)
    pub other : (p : Ptr) → p ≢ e.addr → p ≢ u.addr → forward_at g p i ≡ forward_at h p i

  frame :
      (u : Entry K V) (after xs : List (Entry K V))
      → Linked u after
      → All (λ x. x.addr ≢ u.addr) xs
      → All (λ x. x.addr ≢ e.addr) xs
      → All (λ x. forward_at g x.addr i ≡ forward_at h x.addr i) xs
  frame u after [] n a b = tt
  frame u after (x ∷ xs) n a b = (n.other x.addr b.0 a.0, frame u after xs n a.1 b.1)

  pub LinkedAt-link :
      (c : Entry K V) (mid after : List (Entry K V))
      → leb i e.level ≡ true
      → Linked (last_at i c mid) after
      → Distinct (c ∷ mid ++ after)
      → All (λ x. x.addr ≢ e.addr) (c ∷ mid ++ after)
      → LinkedAt h i (c ∷ mid ++ after)
      → LinkedAt g i (c ∷ mid ++ e ∷ after)
  unfolding last_at next_at
  LinkedAt-link c [] after v n d a l = (
    λ r. n.link ∙ ap some (sym (next_at-reached i e e after v)),
    (λ r. n.entry, LinkedAt-same h g i after (frame c after after n d.0 a.1) l.1),
  )
  LinkedAt-link c (x ∷ mid) after v n d a l = elim (Bool-cases (leb i x.level)) [
    | inl w ↦
        let n' : Linked (last_at i x mid) after = rw (last_at-reached i c x mid w) at n in
        let far : c.addr ≢ (last_at i x mid).addr =
          All-last_at (λ y. c.addr ≢ y.addr) i x mid (λ z. d.0.0 (sym z))
            (All-mono _ _ mid (λ y f z. f (sym z)) (All-append_left _ mid after d.0.1)) in
        (
          λ r.
              n'.other c.addr a.0 far
              ∙ l.0 r
              ∙ ap some (
                  next_at-reached i c x (mid ++ after) w
                  ∙ sym (next_at-reached i c x (mid ++ e ∷ after) w)),
          LinkedAt-link x mid after v n' d.1 a.1 l.1,
        )
    | inr w ↦
        let n' : Linked (last_at i c mid) after = rw (last_at-passed i c x mid w) at n in
        let r =
          LinkedAt-link c mid after v n' (d.0.1, d.1.1) (a.0, a.1.1)
            (λ r. l.0 r ∙ ap some (next_at-passed i c x (mid ++ after) w), l.1.1) in
        (
          λ q. r.0 q ∙ ap some (sym (next_at-passed i c x (mid ++ e ∷ after) w)),
          (λ q. absurd (ground arith), r.1),
        )
  ]

module _ {K V : Type 0} (h g : Heap K V) (i : ℕ) (e : Entry K V) where
  -- Level `i` of `g` is that of `h` with what follows `u` left out.
  pub record Unlinked (u : Entry K V) (after : List (Entry K V)) : Type 0 where
    pub link : forward_at g u.addr i ≡ some (next_at i after)
    pub other : (p : Ptr) → p ≢ u.addr → forward_at g p i ≡ forward_at h p i

  frame-Unlinked :
      (u : Entry K V) (after xs : List (Entry K V))
      → Unlinked u after
      → All (λ x. x.addr ≢ u.addr) xs
      → All (λ x. forward_at g x.addr i ≡ forward_at h x.addr i) xs
  frame-Unlinked u after [] n a = tt
  frame-Unlinked u after (x ∷ xs) n a = (n.other x.addr a.0, frame-Unlinked u after xs n a.1)

  pub LinkedAt-unlink :
      (c : Entry K V) (mid after : List (Entry K V))
      → Unlinked (last_at i c mid) after
      → Distinct (c ∷ mid ++ e ∷ after)
      → LinkedAt h i (c ∷ mid ++ e ∷ after)
      → leb i e.level ≡ true
      → LinkedAt g i (c ∷ mid ++ after)
  unfolding last_at next_at
  LinkedAt-unlink c [] after n d l v =
      (λ r. n.link, LinkedAt-same h g i after (frame-Unlinked c after after n d.0.1) l.1.1)
  LinkedAt-unlink c (x ∷ mid) after n d l v = elim (Bool-cases (leb i x.level)) [
    | inl w ↦
        let n' : Unlinked (last_at i x mid) after = rw (last_at-reached i c x mid w) at n in
        let far : c.addr ≢ (last_at i x mid).addr =
          All-last_at (λ y. c.addr ≢ y.addr) i x mid (λ z. d.0.0 (sym z))
            (All-mono _ _ mid (λ y f z. f (sym z)) (All-append_left _ mid (e ∷ after) d.0.1)) in
        (
          λ r.
              n'.other c.addr far
              ∙ l.0 r
              ∙ ap some (
                  next_at-reached i c x (mid ++ e ∷ after) w
                  ∙ sym (next_at-reached i c x (mid ++ after) w)),
          LinkedAt-unlink x mid after n' d.1 l.1 v,
        )
    | inr w ↦
        let n' : Unlinked (last_at i c mid) after = rw (last_at-passed i c x mid w) at n in
        let r =
          LinkedAt-unlink c mid after n' (d.0.1, d.1.1)
            (λ r. l.0 r ∙ ap some (next_at-passed i c x (mid ++ e ∷ after) w), l.1.1) v in
        (
          λ q. r.0 q ∙ ap some (sym (next_at-passed i c x (mid ++ after) w)),
          (λ q. absurd (ground arith), r.1),
        )
  ]
