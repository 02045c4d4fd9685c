-- ===== src/SkipList/Refine.antt =====
-- insert and remove of storage/skiplist.h refine the operations of a map.
use reactor_kv.Prelude.{
  ◌≡◌, refl, true, false, not, none, some, List, [], ◌∷◌, ◌++◌, All, Bool-cases, inl, inr, ap, sym,
  subst,
}
use reactor_kv.KeyOrder.{KeyOrder}
use reactor_kv.SkipList.{SkipList, Draws, insert, remove, match_next}
use reactor_kv.SkipList.Entry.{Entry, next_at, last_at, contents, below, from}
use reactor_kv.SkipList.Inv.{IsSkipList, Represents}
use reactor_kv.SkipList.Split.{
  from-not-less, from-IsSorted, contents-append, insert-below, lookup-below, erase-below,
}
use reactor_kv.SkipList.Search.{
  descended, stop_link, after-Holds, match_next-miss, match_next-end, lookup-from_miss,
}
use reactor_kv.SkipList.Insert.{insert-new, added}
use reactor_kv.SkipList.Update.{insert-update, revalued}
use reactor_kv.SkipList.Remove.{remove-found}
use reactor_kv.SortedMap
use reactor_kv.SortedMap.{lookup, is_some}
use reactor_kv.SortedMap.Laws.{erase-none}

module _ {K V : Type 0} ⦃o : KeyOrder K⦄ (k : K) where
  -- What stands from the key on: nothing, an entry of the key, or larger keys only.
  data Rest (ys : List (Entry K V)) : Type 0 where
    empty : ys ≡ [] → Rest ys
    hit : (e : Entry K V) (zs : List (Entry K V)) → ys ≡ e ∷ zs → o.equal e.key k ≡ true → Rest ys
    larger :
        (e : Entry K V) (zs : List (Entry K V)) → ys ≡ e ∷ zs → o.equal e.key k ≡ false → Rest ys

  Rest-cases : (ys : List (Entry K V)) → Rest ys
  Rest-cases [] = empty refl
  Rest-cases (e ∷ zs) = elim (Bool-cases (o.equal e.key k)) [
    | inl t ↦ hit e zs refl t
    | inr t ↦ larger e zs refl t
  ]

  All-less :
      (e : Entry K V) (zs : List (Entry K V))
      → o.less k e.key ≡ true
      → All (λ x. o.less e.key x.key ≡ true) zs
      → All (λ x. o.less k x.key ≡ true) zs
  All-less e [] h a = tt
  All-less e (z ∷ zs) h a = (o.less_trans k e.key z.key h a.0, All-less e zs h a.1)

  module _ {s : SkipList K V} {hd : Entry K V} {xs : List (Entry K V)}
      (v : IsSkipList s hd xs) where
    larger-less :
        (e : Entry K V) (zs : List (Entry K V))
        → from k xs ≡ e ∷ zs
        → o.equal e.key k ≡ false
        → o.less k e.key ≡ true
    larger-less e zs q t = o.less_total e.key k (rw q at (from-not-less k xs v.sorted)).0 t

    -- A key that the list does not hold: where the descent stops, there is no match.
    miss-empty : from k xs ≡ [] → match_next s.heap k (last_at 0 hd (below k xs)).addr ≡ some none
    unfolding next_at
    miss-empty q = match_next-end s.heap k _ (rw q at (stop_link k v))

    miss-larger :
        (e : Entry K V) (zs : List (Entry K V))
        → from k xs ≡ e ∷ zs
        → o.equal e.key k ≡ false
        → match_next s.heap k (last_at 0 hd (below k xs)).addr ≡ some none
    miss-larger e zs q t =
        match_next-miss s.heap k _ e zs (rw q at (stop_link k v)) (rw q at (after-Holds k v)).0 t

    lookup-larger :
        (e : Entry K V) (zs : List (Entry K V))
        → from k xs ≡ e ∷ zs
        → o.equal e.key k ≡ false
        → lookup k (contents (e ∷ zs)) ≡ none
    lookup-larger e zs q t =
        lookup-from_miss k e zs (rw q at (from-IsSorted k xs v.sorted))
          (rw q at (from-not-less k xs v.sorted)).0 t

    -- remove of a key that the list does not hold changes nothing.
    remove-miss :
        match_next s.heap k (last_at 0 hd (below k xs)).addr ≡ some none
        → remove k s ≡ some (false, s)
    unfolding remove
    remove-miss m = rw ((descended k v).stops, m)

    insert-entries :
        (draws : Draws) (value : V)
        → (s' : SkipList K V) × (insert draws k value s
            ≡ some (not (is_some (lookup k (contents xs))), s'))
          × Represents s' (SortedMap.insert k value (contents xs))
    unfolding lookup SortedMap.insert
    insert-entries draws value = elim (Rest-cases (from k xs)) [
      | empty q ↦
          let (s', r, i) = insert-new draws k value v (miss-empty q) (rw q tt) in
          (
            s',
            rw (lookup-below, q) r,
            record {
              hd = hd;
              entries = below k xs ++ added draws k value v ∷ from k xs;
              inv = i;
              same = rw (contents-append, insert-below, q);
            },
          )
      | hit e zs q t ↦
          let (s', r, i) = insert-update draws k value e zs v q t in
          let less = (rw q at (from-not-less k xs v.sorted)).0 in
          (
            s',
            rw (lookup-below, q, t) r,
            record {
              hd = hd;
              entries = below k xs ++ revalued e value ∷ zs;
              inv = i;
              same =
                  rw (contents-append, insert-below, q, less, t)
                    (ap (λ j. contents (below k xs) ++ (j, value) ∷ contents zs)
                      ((o.equal_iff e.key k).0 t));
            },
          )
      | larger e zs q t ↦
          let g = larger-less e zs q t in
          let above : All (λ x. o.less k x.key ≡ true) (from k xs) =
            rw q (g, All-less e zs g (rw q at (from-IsSorted k xs v.sorted)).0) in
          let less = (rw q at (from-not-less k xs v.sorted)).0 in
          let (s', r, i) = insert-new draws k value v (miss-larger e zs q t) above in
          (
            s',
            rw (lookup-below, q, lookup-larger e zs q t) r,
            record {
              hd = hd;
              entries = below k xs ++ added draws k value v ∷ from k xs;
              inv = i;
              same = rw (contents-append, insert-below, q, less, t);
            },
          )
    ]

    remove-entries :
        (s' : SkipList K V) × (remove k s ≡ some (is_some (lookup k (contents xs)), s'))
        × Represents s' (SortedMap.erase k (contents xs))
    unfolding lookup SortedMap.erase
    remove-entries = elim (Rest-cases (from k xs)) [
      | empty q ↦ (
        s,
        rw (lookup-below, q) (remove-miss (miss-empty q)),
        record {
          hd = hd;
          entries = xs;
          inv = v;
          same = sym (erase-none k (contents xs) (rw (lookup-below, q)));
        },
      )
      | hit e zs q t ↦
          let (s', r, i) = remove-found k e zs v q t in
          (
            s',
            rw (lookup-below, q, t) r,
            record {
              hd = hd;
              entries = below k xs ++ zs;
              inv = i;
              same = rw (contents-append, erase-below, q, t);
            },
          )
      | larger e zs q t ↦ (
        s,
        rw (lookup-below, q, lookup-larger e zs q t) (remove-miss (miss-larger e zs q t)),
        record {
          hd = hd;
          entries = xs;
          inv = v;
          same = sym (erase-none k (contents xs) (rw (lookup-below, q, lookup-larger e zs q t)));
        },
      )
    ]

module _ {K V : Type 0} ⦃o : KeyOrder K⦄ where
  -- On a list that stands for `m`, insert faults nowhere, says whether the key was new, and leaves
  -- a list that stands for `m` with the key bound to the value, whatever level is drawn.
  pub insert_refines :
      (draws : Draws) (k : K) (value : V) {s : SkipList K V} {m : List (K × V)}
      → Represents s m
      → (s' : SkipList K V) × (insert draws k value s ≡ some (not (is_some (lookup k m)), s'))
        × Represents s' (SortedMap.insert k value m)
  insert_refines draws k value {s} r =
      subst
        (λ m.
          (s' : SkipList K V) × (insert draws k value s ≡ some (not (is_some (lookup k m)), s'))
          × Represents s' (SortedMap.insert k value m))
        r.same (insert-entries k r.inv draws value)

  -- On a list that stands for `m`, remove faults nowhere, says whether the key was there, and leaves
  -- a list that stands for `m` without the key.
  pub remove_refines :
      (k : K) {s : SkipList K V} {m : List (K × V)}
      → Represents s m
      → (s' : SkipList K V) × (remove k s ≡ some (is_some (lookup k m), s'))
        × Represents s' (SortedMap.erase k m)
  remove_refines k {s} r =
      subst
        (λ m.
          (s' : SkipList K V) × (remove k s ≡ some (is_some (lookup k m), s'))
          × Represents s' (SortedMap.erase k m))
        r.same (remove-entries k r.inv)
