-- ===== src/BlockingQueue/Threads/Owed.antt =====
-- No step of BoundedBlockingQueue loses a wake-up: what can pass a condition is on its way.
use reactor_kv.Prelude.{
  ℕ, suc, ◌+◌, ◌<◌, ◌≤◌, ◌≡◌, refl, ap, ◌∙◌, Bool, true, false, Bool-cases, inl, inr, Option, some,
  List, get_elem?, set, count, one_if, count-set, arith,
}
use reactor_kv.BlockingQueue.{BoundedQueue}
use reactor_kv.BlockingQueue.Threads.{
  Condition, not_empty, not_full, Pc, idle, put_wait, put_woken, take_wait, take_woken, Shared,
  Move, Wakes, wakes_put, wakes_take, waits, System,
}
use reactor_kv.BlockingQueue.Threads.Inv.{active, tells, level, Told, Inv}
use reactor_kv.BlockingQueue.Threads.Moves.{same, notified, Move-passing}

one_if-le : (b : Bool) → one_if b ≤ 1
one_if-le true = omega arith
one_if-le false = omega arith

module _ {ℓ} {A : Type ℓ} where
  -- While a thread waits, all that can pass are on their way, about to be woken, or woken by this
  -- step.
  unfoldable pub Owed : Condition → Option Condition → List (Pc A) → BoundedQueue A → Type 0
  Owed c n ts q =
      0 < count (waits c) ts
      → level c q ≤ count (active c) ts + count (tells c) ts + one_if (notified c n)

  pub Move-Owed :
      {y : System A} {i : ℕ} {p p' : Pc A} {s : Shared A} {n : Option Condition}
      → Inv y
      → get_elem? y.threads i ≡ some p
      → Move (suc i) y.shared p p' s n
      → (c : Condition) → Owed c n (set y.threads i p') s.bounded
  unfolding Owed Told
  Move-Owed {y} {i} {p} {p'} v e mv c w =
      let told = v.told c in
      let a = count-set (waits c) y.threads i p p' e in
      let b = count-set (active c) y.threads i p p' e in
      let d = count-set (tells c) y.threads i p p' e in
      elim (Move-passing mv c v.solid.bound) [
        | inl z ↦ omega arith
        | inr (k, z) ↦
            let o : one_if (waits c p') ≡ 0 = ap one_if k in
            let t = told (omega arith) in omega arith
      ]

  -- Waking one thread pays what is owed.
  pub wake-Told :
      (ts : List (Pc A)) (q : BoundedQueue A) (j : ℕ) {r r' : Pc A} {d : Condition}
      (n : Option Condition)
      → ((c : Condition) → Owed c n ts q)
      → ((c : Condition) → same c d ≡ false → notified c n ≡ false)
      → get_elem? ts j ≡ some r
      → Wakes d r r'
      → (c : Condition) → Told c (set ts j r') q
  unfolding Owed Told
  wake-Told ts q j n o f e (wakes_put {x}) not_full w =
      let a = count-set (waits not_full) ts j (put_wait x) (put_woken x) e in
      let b = count-set (active not_full) ts j (put_wait x) (put_woken x) e in
      let d = count-set (tells not_full) ts j (put_wait x) (put_woken x) e in
      let t = o not_full (omega arith) in let h = one_if-le (notified not_full n) in omega arith
  wake-Told ts q j n o f e (wakes_put {x}) not_empty w =
      let a = count-set (waits not_empty) ts j (put_wait x) (put_woken x) e in
      let b = count-set (active not_empty) ts j (put_wait x) (put_woken x) e in
      let d = count-set (tells not_empty) ts j (put_wait x) (put_woken x) e in
      let t = o not_empty (omega arith) in let h = ap one_if (f not_empty refl) in omega arith
  wake-Told ts q j n o f e wakes_take not_empty w =
      let a = count-set (waits not_empty) ts j take_wait take_woken e in
      let b = count-set (active not_empty) ts j take_wait take_woken e in
      let d = count-set (tells not_empty) ts j take_wait take_woken e in
      let t = o not_empty (omega arith) in let h = one_if-le (notified not_empty n) in omega arith
  wake-Told ts q j n o f e wakes_take not_full w =
      let a = count-set (waits not_full) ts j take_wait take_woken e in
      let b = count-set (active not_full) ts j take_wait take_woken e in
      let d = count-set (tells not_full) ts j take_wait take_woken e in
      let t = o not_full (omega arith) in let h = ap one_if (f not_full refl) in omega arith

  -- Nothing is owed where no thread waits.
  pub none-Told :
      {y : System A} (i : ℕ) {p p' : Pc A} {s : Shared A} (d : Condition)
      → Inv y
      → get_elem? y.threads i ≡ some p
      → Move (suc i) y.shared p p' s (some d)
      → count (waits d) y.threads ≡ 0
      → (c : Condition) → Told c (set y.threads i p') s.bounded
  unfolding Owed Told
  none-Told {y} i {p} {p'} {s} d v e mv z c w =
      let o = Move-Owed v e mv c w in
      let a = count-set (waits c) y.threads i p p' e in
      elim (Bool-cases (same c d)) [
        | inr f ↦ let h = ap one_if f in omega arith
        | inl f ↦
            let q = same-eq c d f in
            elim (Move-passing mv c v.solid.bound) [
              | inl k ↦ omega arith
              | inr (k, l) ↦
                  let h = ap one_if k in
                  let u : count (waits c) y.threads ≡ 0 =
                    ap (λ t. count (waits t) y.threads) q ∙ z in
                  absurd (omega arith)
            ]
      ]
    where
      same-eq : (c d : Condition) → same c d ≡ true → c ≡ d
      same-eq not_empty not_empty f = refl
      same-eq not_empty not_full f = cc
      same-eq not_full not_empty f = cc
      same-eq not_full not_full f = refl

  -- A call of put or take changes no count.
  pub call-Told :
      (y : System A) (i : ℕ) (p' : Pc A)
      → Inv y
      → get_elem? y.threads i ≡ some idle
      → ((c : Condition) → (waits c p' ≡ false) × (active c p' ≡ false) × (tells c p' ≡ false))
      → (c : Condition) → Told c (set y.threads i p') y.shared.bounded
  unfolding Told
  call-Told y i p' v e f c w =
      let a = count-set (waits c) y.threads i idle p' e in
      let b = count-set (active c) y.threads i idle p' e in
      let d = count-set (tells c) y.threads i idle p' e in
      let (k, l, m) = f c in
      let h = ap one_if k in
      let g = ap one_if l in
      let u = ap one_if m in
      let t = v.told c in let (x, y, z) = idle-quiet c in let r = t (omega arith) in omega arith
    where
      idle-quiet :
          (c : Condition)
          → (one_if (waits {A = A} c idle) ≡ 0)
            × (one_if (active {A = A} c idle) ≡ 0)
            × (one_if (tells {A = A} c idle) ≡ 0)
      idle-quiet not_empty = (refl, refl, refl)
      idle-quiet not_full = (refl, refl, refl)
