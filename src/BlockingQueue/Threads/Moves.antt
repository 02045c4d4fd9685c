-- ===== src/BlockingQueue/Threads/Moves.antt =====
-- What one step of a thread does to the mutex, the queue and the conditions of
-- BoundedBlockingQueue.
use reactor_kv.Prelude.{
  ℕ, ◌+◌, ◌<◌, ◌≤◌, ◌≡◌, ◌⊎◌, refl, sym, ap, ◌∙◌, Bool, true, false, Bool-cases, inl, inr, Option,
  none, some, [], ◌∷◌, ◌++◌, length, one_if, arith, append_assoc, length-append, List-cases,
  some_injective,
}
use reactor_kv.Mutex.{unlock, begin_wait, end_wait, lock_lem}
use reactor_kv.BlockingQueue.{BoundedQueue, full, put, take, push_back, pop_front}
use reactor_kv.BlockingQueue.Threads.{
  Condition, not_empty, not_full, Pc, Shared, Move, put_locks, put_waits, put_resumes, put_passes,
  pushes, put_notifies, put_returns, take_locks, take_waits, take_resumes, take_passes, pops,
  take_notifies, take_returns, waits,
}
use reactor_kv.BlockingQueue.Threads.Inv.{critical, active, tells, level, ready}

-- Whether the condition is the one notified.
abbrev pub same : Condition → Condition → Bool
same not_empty not_empty = true
same not_full not_full = true
same _ _ = false

abbrev pub notified : Condition → Option Condition → Bool
notified c none = false
notified c (some d) = same c d

module _ {ℓ} {A : Type ℓ} where
  -- A push that succeeds has room, and puts its element last.
  put_inv :
      (x : A) (q q' : BoundedQueue A)
      → put x q ≡ some q'
      → (length q.queue < q.max_size) × (q'.queue ≡ q.queue ++ x ∷ []) × (q'.max_size ≡ q.max_size)
  unfolding put push_back
  put_inv x q q' e = elim (Bool-cases (full q)) [
    | inl f ↦ cc (rw f at e)
    | inr f ↦
        let h = some_injective _ _ (rw f at e) in
        (ground arith, ap (λ t. t.queue) (sym h), ap (λ t. t.max_size) (sym h))
  ]

  take_inv :
      (x : A) (q q' : BoundedQueue A)
      → take q ≡ some (x, q')
      → (q.queue ≡ x ∷ q'.queue) × (q'.max_size ≡ q.max_size)
  unfolding take pop_front
  take_inv x q q' e = elim (List-cases q.queue) [
    | inl f ↦ cc (rw f at e)
    | inr (z, zs, f) ↦
        let h = some_injective _ _ (rw f at e) in
        (f ∙ ap (λ t. t.0 ∷ t.1.queue) h, ap (λ t. t.1.max_size) (sym h))
  ]

  -- A step that leaves its thread on its way does not let more pass than are on their way, or about to
  -- be woken.
  pub Move-passing :
      {tid : ℕ} {s s' : Shared A} {p p' : Pc A} {n : Option Condition}
      → Move tid s p p' s' n
      → (c : Condition) → length s.bounded.queue ≤ s.bounded.max_size
      → (level c s'.bounded ≡ 0)
        ⊎ ((waits c p' ≡ false)
            × (level c s'.bounded + one_if (active c p) + one_if (tells c p)
                ≤ level c s.bounded
                  + one_if (active c p')
                  + one_if (tells c p')
                  + one_if (notified c n)))
  Move-passing (put_locks e) not_empty h = inr (refl, omega arith)
  Move-passing (put_locks e) not_full h = inr (refl, omega arith)
  Move-passing (put_waits f) not_empty h = inr (refl, omega arith)
  Move-passing (put_waits f) not_full h = inl (ground arith)
  Move-passing (put_resumes e) not_empty h = inr (refl, omega arith)
  Move-passing (put_resumes e) not_full h = inr (refl, omega arith)
  Move-passing (put_passes f) not_empty h = inr (refl, omega arith)
  Move-passing (put_passes f) not_full h = inr (refl, omega arith)
  Move-passing {s} (pushes {x} {q} e) not_empty h =
      let (r, a, m) = put_inv x s.bounded q e in
      let l = ap length a ∙ length-append s.bounded.queue (x ∷ []) in inr (refl, omega arith)
  Move-passing {s} (pushes {x} {q} e) not_full h =
      let (r, a, m) = put_inv x s.bounded q e in
      let l = ap length a ∙ length-append s.bounded.queue (x ∷ []) in inr (refl, omega arith)
  Move-passing put_notifies not_empty h = inr (refl, omega arith)
  Move-passing put_notifies not_full h = inr (refl, omega arith)
  Move-passing put_returns not_empty h = inr (refl, omega arith)
  Move-passing put_returns not_full h = inr (refl, omega arith)
  Move-passing (take_locks e) not_empty h = inr (refl, omega arith)
  Move-passing (take_locks e) not_full h = inr (refl, omega arith)
  Move-passing (take_waits e) not_empty h = inl (ap length e)
  Move-passing (take_waits e) not_full h = inr (refl, omega arith)
  Move-passing (take_resumes e) not_empty h = inr (refl, omega arith)
  Move-passing (take_resumes e) not_full h = inr (refl, omega arith)
  Move-passing (take_passes e) not_empty h = inr (refl, omega arith)
  Move-passing (take_passes e) not_full h = inr (refl, omega arith)
  Move-passing {s} (pops {x} {q} e) not_empty h =
      let (a, m) = take_inv x s.bounded q e in let l = ap length a in inr (refl, omega arith)
  Move-passing {s} (pops {x} {q} e) not_full h =
      let (a, m) = take_inv x s.bounded q e in let l = ap length a in inr (refl, omega arith)
  Move-passing take_notifies not_empty h = inr (refl, omega arith)
  Move-passing take_notifies not_full h = inr (refl, omega arith)
  Move-passing take_returns not_empty h = inr (refl, omega arith)
  Move-passing take_returns not_full h = inr (refl, omega arith)

  -- The mover holds the mutex, or the mutex is free.
  pub Move-held :
      {tid : ℕ} {s s' : Shared A} {p p' : Pc A} {n : Option Condition}
      → Move tid s p p' s' n
      → (critical p ≡ true) ⊎ (s.mutex.owner ≡ 0)
  unfolding end_wait
  Move-held {tid} {s} (put_locks {m} e) = inr (lock_lem tid s.mutex m e).0
  Move-held {tid} {s} (put_resumes {m} e) = inr (lock_lem tid s.mutex m e).0
  Move-held {tid} {s} (take_locks {m} e) = inr (lock_lem tid s.mutex m e).0
  Move-held {tid} {s} (take_resumes {m} e) = inr (lock_lem tid s.mutex m e).0
  Move-held (put_waits f) = inl refl
  Move-held (put_passes f) = inl refl
  Move-held (pushes e) = inl refl
  Move-held put_notifies = inl refl
  Move-held put_returns = inl refl
  Move-held (take_waits f) = inl refl
  Move-held (take_passes f) = inl refl
  Move-held (pops e) = inl refl
  Move-held take_notifies = inl refl
  Move-held take_returns = inl refl

  -- It holds the mutex after the step where it is still between lock and unlock.
  pub Move-holds :
      {tid : ℕ} {s s' : Shared A} {p p' : Pc A} {n : Option Condition}
      → Move tid s p p' s' n
      → (critical p ≡ true → s.mutex.owner ≡ tid)
      → critical p' ≡ true
      → s'.mutex.owner ≡ tid
  unfolding end_wait
  Move-holds {tid} {s} (put_locks {m} e) h c = (lock_lem tid s.mutex m e).1
  Move-holds {tid} {s} (put_resumes {m} e) h c = (lock_lem tid s.mutex m e).1
  Move-holds {tid} {s} (take_locks {m} e) h c = (lock_lem tid s.mutex m e).1
  Move-holds {tid} {s} (take_resumes {m} e) h c = (lock_lem tid s.mutex m e).1
  Move-holds (put_waits f) h c = cc
  Move-holds (put_passes f) h c = h refl
  Move-holds (pushes e) h c = h refl
  Move-holds put_notifies h c = h refl
  Move-holds put_returns h c = cc
  Move-holds (take_waits f) h c = cc
  Move-holds (take_passes f) h c = h refl
  Move-holds (pops e) h c = h refl
  Move-holds take_notifies h c = h refl
  Move-holds take_returns h c = cc

  -- holder_ is the thread that has the mutex.
  pub Move-holder :
      {tid : ℕ} {s s' : Shared A} {p p' : Pc A} {n : Option Condition}
      → Move tid s p p' s' n
      → s.mutex.holder ≡ s.mutex.owner
      → s'.mutex.holder ≡ s'.mutex.owner
  unfolding end_wait begin_wait unlock
  Move-holder {tid} {s} (put_locks {m} e) h = let (a, b, c) = lock_lem tid s.mutex m e in c ∙ sym b
  Move-holder {tid} {s} (put_resumes {m} e) h =
      let (a, b, c) = lock_lem tid s.mutex m e in c ∙ sym b
  Move-holder {tid} {s} (take_locks {m} e) h = let (a, b, c) = lock_lem tid s.mutex m e in c ∙ sym b
  Move-holder {tid} {s} (take_resumes {m} e) h =
      let (a, b, c) = lock_lem tid s.mutex m e in c ∙ sym b
  Move-holder (put_waits f) h = refl
  Move-holder (put_passes f) h = h
  Move-holder (pushes e) h = h
  Move-holder put_notifies h = h
  Move-holder put_returns h = refl
  Move-holder (take_waits f) h = refl
  Move-holder (take_passes f) h = h
  Move-holder (pops e) h = h
  Move-holder take_notifies h = h
  Move-holder take_returns h = refl

  -- What the mover's test has shown.
  pub Move-sure :
      {tid : ℕ} {s s' : Shared A} {p p' : Pc A} {n : Option Condition}
      → Move tid s p p' s' n
      → ready s'.bounded p' ≡ true
  Move-sure (put_passes f) = ground arith
  Move-sure (take_passes e) = let l = ap length e in ground arith
  Move-sure (put_locks e) = refl
  Move-sure (put_resumes e) = refl
  Move-sure (take_locks e) = refl
  Move-sure (take_resumes e) = refl
  Move-sure (put_waits f) = refl
  Move-sure (pushes e) = refl
  Move-sure put_notifies = refl
  Move-sure put_returns = refl
  Move-sure (take_waits f) = refl
  Move-sure (pops e) = refl
  Move-sure take_notifies = refl
  Move-sure take_returns = refl

  -- The queue, as the mover leaves it: as it was, or one longer, or one shorter.
  pub Move-queue :
      {tid : ℕ} {s s' : Shared A} {p p' : Pc A} {n : Option Condition}
      → Move tid s p p' s' n
      → (s.takes ++ s.bounded.queue ≡ s.puts)
      → length s.bounded.queue ≤ s.bounded.max_size
      → (s'.takes ++ s'.bounded.queue ≡ s'.puts) × (length s'.bounded.queue ≤ s'.bounded.max_size)
  Move-queue {s} (pushes {x} {q} e) o b =
      let (r, a, m) = put_inv x s.bounded q e in
      let l = ap length a ∙ length-append s.bounded.queue (x ∷ []) in
      (
        ap (λ t. s.takes ++ t) a
            ∙ sym (append_assoc s.takes s.bounded.queue (x ∷ []))
            ∙ ap (λ t. t ++ x ∷ []) o,
        omega arith,
      )
  Move-queue {s} (pops {x} {q} e) o b =
      let (a, m) = take_inv x s.bounded q e in
      let l = ap length a in
      (append_assoc s.takes (x ∷ []) q.queue ∙ ap (λ t. s.takes ++ t) (sym a) ∙ o, omega arith)
  Move-queue (put_locks e) o b = (o, b)
  Move-queue (put_resumes e) o b = (o, b)
  Move-queue (take_locks e) o b = (o, b)
  Move-queue (take_resumes e) o b = (o, b)
  Move-queue (put_waits f) o b = (o, b)
  Move-queue (put_passes f) o b = (o, b)
  Move-queue put_notifies o b = (o, b)
  Move-queue put_returns o b = (o, b)
  Move-queue (take_waits f) o b = (o, b)
  Move-queue (take_passes f) o b = (o, b)
  Move-queue take_notifies o b = (o, b)
  Move-queue take_returns o b = (o, b)

  -- The capacity is constant.
  pub Move-capacity :
      {tid : ℕ} {s s' : Shared A} {p p' : Pc A} {n : Option Condition}
      → Move tid s p p' s' n
      → s'.bounded.max_size ≡ s.bounded.max_size
  Move-capacity {s} (pushes {x} {q} e) = (put_inv x s.bounded q e).2
  Move-capacity {s} (pops {x} {q} e) = (take_inv x s.bounded q e).1
  Move-capacity (put_locks e) = refl
  Move-capacity (put_resumes e) = refl
  Move-capacity (take_locks e) = refl
  Move-capacity (take_resumes e) = refl
  Move-capacity (put_waits f) = refl
  Move-capacity (put_passes f) = refl
  Move-capacity put_notifies = refl
  Move-capacity put_returns = refl
  Move-capacity (take_waits f) = refl
  Move-capacity (take_passes f) = refl
  Move-capacity take_notifies = refl
  Move-capacity take_returns = refl
