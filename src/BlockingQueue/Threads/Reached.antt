-- ===== src/BlockingQueue/Threads/Reached.antt =====
-- What holds of BoundedBlockingQueue in every state that its threads can reach.
use reactor_kv.Prelude.{
  ℕ, zero, suc, ◌<◌, ◌≤◌, ◌≡◌, ◌⊎◌, refl, sym, ap, ◌∙◌, true, false, Bool-cases, inl, inr, Option,
  none, some, [], ◌++◌, length, get_elem?, set, replicate, count, count-replicate, count-found,
  count-found_one, arith, ltb, ltb→lt, List-cases, some_injective,
}
use reactor_kv.BlockingQueue.{full, put-room, take-front}
use reactor_kv.BlockingQueue.Threads.{
  Condition, not_empty, not_full, Pc, idle, put_lock, put_test, put_wait, put_woken, put_push,
  put_notify, put_unlock, take_lock, take_test, take_wait, take_woken, take_pop, take_notify,
  take_unlock, Shared, Move, put_waits, put_passes, pushes, put_notifies, put_returns, take_waits,
  take_passes, pops, take_notifies, take_returns, Wakes, wakes_put, wakes_take, waits, System, Step,
  calls_put, calls_take, moves, notifies, notifies_none, wakes, begin, Reach, start, later,
}
use reactor_kv.BlockingQueue.Threads.Inv.{critical, active, tells, level, ready, Told, Inv}
use reactor_kv.BlockingQueue.Threads.Moves.{Move-capacity}
use reactor_kv.BlockingQueue.Threads.Exclusive.{Move-Solid, set-Solid}
use reactor_kv.BlockingQueue.Threads.Owed.{Owed, Move-Owed, wake-Told, none-Told, call-Told}

module _ {ℓ} {A : Type ℓ} where
  get_elem?-idle : (n i : ℕ) (p : Pc A) → get_elem? (replicate n idle) i ≡ some p → p ≡ idle
  get_elem?-idle zero i p e = cc
  get_elem?-idle (suc n) zero p e = sym (some_injective idle p e)
  get_elem?-idle (suc n) (suc i) p e = get_elem?-idle n i p e

  begin-Inv : (n max_size : ℕ) → Inv {A = A} (begin n max_size)
  unfolding Told
  begin-Inv n max_size = record {
    solid = record {
      holder = refl;
      owner = λ i p e c. cc (get_elem?-idle n i p e, c);
      sure =
          λ i p e. ap (ready (record { queue = []; max_size = max_size })) (get_elem?-idle n i p e);
      order = refl;
      bound = omega arith;
    };
    told = λ c w. absurd (nobody c w);
  }
    where
      nobody : (c : Condition) → 0 < count (waits {A = A} c) (replicate n idle) → ⊥
      nobody not_empty w =
          let h = count-replicate (waits {A = A} not_empty) n idle refl in omega arith
      nobody not_full w =
          let h = count-replicate (waits {A = A} not_full) n idle refl in omega arith

  Wakes-outside : {c : Condition} {q q' : Pc A} → Wakes c q q' → critical q' ≡ false
  Wakes-outside wakes_put = refl
  Wakes-outside wakes_take = refl

  Step-Inv : {y z : System A} → Inv y → Step y z → Inv z
  unfolding Told Owed
  Step-Inv {y} v (calls_put i x e) = record {
    solid = set-Solid i (put_lock x) v.solid e refl;
    told = call-Told y i (put_lock x) v e quiet;
  }
    where
      quiet :
          (c : Condition)
          → (waits c (put_lock x) ≡ false)
            × (active c (put_lock x) ≡ false)
            × (tells c (put_lock x) ≡ false)
      quiet not_empty = (refl, refl, refl)
      quiet not_full = (refl, refl, refl)
  Step-Inv {y} v (calls_take i e) = record {
    solid = set-Solid i take_lock v.solid e refl;
    told = call-Told y i take_lock v e quiet;
  }
    where
      quiet :
          (c : Condition)
          → (waits {A = A} c take_lock ≡ false)
            × (active {A = A} c take_lock ≡ false)
            × (tells {A = A} c take_lock ≡ false)
      quiet not_empty = (refl, refl, refl)
      quiet not_full = (refl, refl, refl)
  Step-Inv {y} v (moves i {p} {p'} {s} e mv) = record {
    solid = Move-Solid v.solid e mv;
    told = paid;
  }
    where
      paid : (c : Condition) → Told c (set y.threads i p') s.bounded
      paid c w = let t = Move-Owed v e mv c w in omega arith
  Step-Inv {y} v (notifies i j {p' = p'} {s = s} {c = d} e mv f wk) = record {
    solid = set-Solid j _ (Move-Solid v.solid e mv) f (Wakes-outside wk);
    told = wake-Told (set y.threads i p') s.bounded j (some d) (Move-Owed v e mv) (λ c h. h) f wk;
  }
  Step-Inv v (notifies_none i {c = d} e mv z) = record {
    solid = Move-Solid v.solid e mv;
    told = none-Told i d v e mv z;
  }
  Step-Inv {y} v (wakes j f wk) = record {
    solid = set-Solid j _ v.solid f (Wakes-outside wk);
    told = wake-Told y.threads y.shared.bounded j none owed (λ c h. refl) f wk;
  }
    where
      owed : (c : Condition) → Owed c none y.threads y.shared.bounded
      owed c w = let t = v.told c w in omega arith

  pub Reach-Inv : {n max_size : ℕ} {y : System A} → Reach n max_size y → Inv y
  Reach-Inv {n} {max_size} start = begin-Inv n max_size
  Reach-Inv (later r s) = Step-Inv (Reach-Inv r) s

  -- Whatever the threads do, no two of them are between their lock and their unlock at once.
  pub mutual_exclusion :
      {n max_size : ℕ} {y : System A} (i j : ℕ) (p q : Pc A)
      → Reach n max_size y
      → get_elem? y.threads i ≡ some p
      → get_elem? y.threads j ≡ some q
      → critical p ≡ true
      → critical q ≡ true
      → i ≡ j
  mutual_exclusion i j p q r e f c d =
      let v = (Reach-Inv r).solid in
      let a = v.owner i p e c in let b = v.owner j q f d in omega arith

  Reach-capacity :
      {n max_size : ℕ} {y : System A} → Reach n max_size y → y.shared.bounded.max_size ≡ max_size
  Reach-capacity start = refl
  Reach-capacity (later r s) = step s ∙ Reach-capacity r
    where
      step : {y z : System A} → Step y z → z.shared.bounded.max_size ≡ y.shared.bounded.max_size
      step (calls_put i x e) = refl
      step (calls_take i e) = refl
      step (moves i e mv) = Move-capacity mv
      step (notifies i j e mv f w) = Move-capacity mv
      step (notifies_none i e mv z) = Move-capacity mv
      step (wakes j f w) = refl

  -- Whatever the threads do, what was taken and then what the queue holds are what was put, in its
  -- order, and the queue is never longer than its capacity.
  pub Reach-fifo :
      {n max_size : ℕ} {y : System A}
      → Reach n max_size y
      → (y.shared.takes ++ y.shared.bounded.queue ≡ y.shared.puts)
        × (length y.shared.bounded.queue ≤ max_size)
  Reach-fifo r =
      let v = (Reach-Inv r).solid in
      let b = v.bound in let c = Reach-capacity r in (v.order, omega arith)

  -- No wake-up is lost: where a thread waits for an element while the queue has one, or for room while
  -- there is room, another thread is on its way to that condition or about to notify it.
  pub no_lost_wakeup :
      {n max_size : ℕ} {y : System A} (c : Condition) (i : ℕ) (p : Pc A)
      → Reach n max_size y
      → get_elem? y.threads i ≡ some p
      → waits c p ≡ true
      → 0 < level c y.shared.bounded
      → (j : ℕ) × (q : Pc A) × (get_elem? y.threads j ≡ some q)
        × ((active c q ≡ true) ⊎ (tells c q ≡ true))
  unfolding Told
  no_lost_wakeup {y} c i p r e w l =
      let t = (Reach-Inv r).told c (count-found_one (waits c) y.threads i p e w) in
      elim (Bool-cases (ltb 0 (count (active c) y.threads))) [
        | inl a ↦
            let (j, q, f, g) = count-found (active c) y.threads (ltb→lt _ _ a) in (j, q, f, inl g)
        | inr a ↦
            let z : 0 < count (tells c) y.threads = ground arith in
            let (j, q, f, g) = count-found (tells c) y.threads z in (j, q, f, inr g)
      ]

  -- What a thread that holds the mutex does next.
  goes :
      (tid : ℕ) (s : Shared A) (p : Pc A)
      → critical p ≡ true
      → ready s.bounded p ≡ true
      → (p' : Pc A) × (s' : Shared A) × (c : Option Condition) × Move tid s p p' s' c
  goes tid s idle f r = cc
  goes tid s (put_lock x) f r = cc
  goes tid s (put_wait x) f r = cc
  goes tid s (put_woken x) f r = cc
  goes tid s take_lock f r = cc
  goes tid s take_wait f r = cc
  goes tid s take_woken f r = cc
  goes tid s (put_test x) f r = elim (Bool-cases (full s.bounded)) [
    | inl e ↦ (_, _, none, put_waits e)
    | inr e ↦ (_, _, none, put_passes e)
  ]
  goes tid s (put_push x) f r = (_, _, none, pushes (put-room x s.bounded (ltb→lt _ _ r)))
  goes tid s put_notify f r = (_, _, some not_empty, put_notifies)
  goes tid s put_unlock f r = (_, _, none, put_returns)
  goes tid s take_test f r = elim (List-cases s.bounded.queue) [
    | inl e ↦ (_, _, none, take_waits e)
    | inr (x, xs, e) ↦ (_, _, none, take_passes e)
  ]
  goes tid s take_pop f r = elim (List-cases s.bounded.queue) [
    | inl e ↦ let l = ap length e in let h = ltb→lt _ _ r in absurd (omega arith)
    | inr (x, xs, e) ↦ (_, _, none, pops (take-front x xs s.bounded e))
  ]
  goes tid s (take_notify x) f r = (_, _, some not_full, take_notifies)
  goes tid s (take_unlock x) f r = (_, _, none, take_returns)

  -- A thread between its lock and its unlock can always go on, so that neither assertion fails.
  pub critical-moves :
      {n max_size : ℕ} {y : System A} (i : ℕ) (p : Pc A)
      → Reach n max_size y
      → get_elem? y.threads i ≡ some p
      → critical p ≡ true
      → (p' : Pc A) × (s : Shared A) × (c : Option Condition) × Move (suc i) y.shared p p' s c
  critical-moves {y} i p r e f = goes (suc i) y.shared p f ((Reach-Inv r).solid.sure i p e)
