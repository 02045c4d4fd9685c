-- ===== src/BlockingQueue/Threads/Exclusive.antt =====
-- Steps of BoundedBlockingQueue keep its mutex exclusive, its tests true and its elements in order.
use reactor_kv.Prelude.{
  ℕ, zero, suc, ◌≡◌, ◌≢◌, ◌⊎◌, refl, sym, ap, ◌∙◌, true, false, Bool-cases, inl, inr, Option, some,
  List, [], ◌∷◌, get_elem?, set, arith, some_injective,
}
use reactor_kv.BlockingQueue.{BoundedQueue}
use reactor_kv.BlockingQueue.Threads.{
  Condition, Pc, idle, put_lock, put_test, put_wait, put_woken, put_push, put_notify, put_unlock,
  take_lock, take_test, take_wait, take_woken, take_pop, take_notify, take_unlock, Shared, Move,
  System,
}
use reactor_kv.BlockingQueue.Threads.Inv.{critical, ready, Solid}
use reactor_kv.BlockingQueue.Threads.Moves.{
  Move-held, Move-holds, Move-holder, Move-sure, Move-queue,
}

module _ {ℓ} {A : Type ℓ} where
  -- A thread outside the mutex relies on no test.
  ready-outside : (q : BoundedQueue A) (p : Pc A) → critical p ≡ false → ready q p ≡ true
  ready-outside q idle e = refl
  ready-outside q (put_lock x) e = refl
  ready-outside q (put_test x) e = refl
  ready-outside q (put_wait x) e = refl
  ready-outside q (put_woken x) e = refl
  ready-outside q (put_push x) e = cc
  ready-outside q put_notify e = refl
  ready-outside q put_unlock e = refl
  ready-outside q take_lock e = refl
  ready-outside q take_test e = refl
  ready-outside q take_wait e = refl
  ready-outside q take_woken e = refl
  ready-outside q take_pop e = cc
  ready-outside q (take_notify x) e = refl
  ready-outside q (take_unlock x) e = refl

  -- What is at a place after one place has changed: the new element there, and elsewhere the old one.
  set-cases :
      (ts : List (Pc A)) (i j : ℕ) (p p' r : Pc A)
      → get_elem? ts i ≡ some p
      → get_elem? (set ts i p') j ≡ some r
      → ((j ≡ i) × (r ≡ p')) ⊎ ((j ≢ i) × (get_elem? ts j ≡ some r))
  set-cases [] i j p p' r e h = cc
  set-cases (t ∷ ts) zero zero p p' r e h = inl (refl, sym (some_injective p' r h))
  set-cases (t ∷ ts) zero (suc j) p p' r e h = inr ((λ q. absurd (omega arith)), h)
  set-cases (t ∷ ts) (suc i) zero p p' r e h = inr ((λ q. absurd (omega arith)), h)
  set-cases (t ∷ ts) (suc i) (suc j) p p' r e h = elim (set-cases ts i j p p' r e h) [
    | inl (a, b) ↦ inl (ap suc a, b)
    | inr (a, b) ↦ inr ((λ q. a (let z : j ≡ i = omega arith in z)), b)
  ]

  -- While one thread moves, no other is between its lock and its unlock.
  others-outside :
      {y : System A} {i j : ℕ} {p p' r : Pc A} {s : Shared A} {n : Option Condition}
      → Solid y
      → get_elem? y.threads i ≡ some p
      → Move (suc i) y.shared p p' s n
      → j ≢ i
      → get_elem? y.threads j ≡ some r
      → critical r ≡ false
  others-outside {y} {i} {j} {p} {r} v e mv d h = elim (Bool-cases (critical r)) [
    | inr c ↦ c
    | inl c ↦
        let o = v.owner j r h c in
        elim (Move-held mv) [
          | inl k ↦ let z = v.owner i p e k in absurd (d (let q : j ≡ i = omega arith in q))
          | inr k ↦ absurd (omega arith)
        ]
  ]

  pub Move-Solid :
      {y : System A} {i : ℕ} {p p' : Pc A} {s : Shared A} {n : Option Condition}
      → Solid y
      → get_elem? y.threads i ≡ some p
      → Move (suc i) y.shared p p' s n
      → Solid (record { threads = set y.threads i p'; shared = s })
  Move-Solid {y} {i} {p} {p'} {s} v e mv =
      let (o, b) = Move-queue mv v.order v.bound in
      record {
        holder = Move-holder mv v.holder;
        owner = λ j r h c. elim (set-cases y.threads i j p p' r e h) [
          | inl (a, d) ↦ Move-holds mv (v.owner i p e) (ap critical (sym d) ∙ c) ∙ ap suc (sym a)
          | inr (a, d) ↦ cc (others-outside v e mv a d, c)
        ];
        sure = λ j r h. elim (set-cases y.threads i j p p' r e h) [
          | inl (a, d) ↦ ap (ready s.bounded) d ∙ Move-sure mv
          | inr (a, d) ↦ ready-outside s.bounded r (others-outside v e mv a d)
        ];
        order = o;
        bound = b;
      }

  -- A thread that goes from one place outside the mutex to another.
  pub set-Solid :
      {y : System A} (i : ℕ) {p : Pc A} (p' : Pc A)
      → Solid y
      → get_elem? y.threads i ≡ some p
      → critical p' ≡ false
      → Solid (record y { threads = set y.threads i p' })
  set-Solid {y} i {p} p' v e f = record {
    holder = v.holder;
    owner = λ j r h c. elim (set-cases y.threads i j p p' r e h) [
      | inl (a, d) ↦ cc (ap critical d, f, c)
      | inr (a, d) ↦ v.owner j r d c
    ];
    sure = λ j r h. elim (set-cases y.threads i j p p' r e h) [
      | inl (a, d) ↦ ready-outside y.shared.bounded r (ap critical d ∙ f)
      | inr (a, d) ↦ v.sure j r d
    ];
    order = v.order;
    bound = v.bound;
  }
