-- ===== src/BlockingQueue.antt =====
-- base/blocking_queue.h: the two queues between threads. The mutex makes each call one step; a call
-- that would wait on a condition has no result (none) and is tried again later.
pub mod Threads
use reactor_kv.Prelude.{
  ℕ, ◌≤◌, ◌<◌, ◌≡◌, ◌≢◌, refl, sym, ap, ◌∙◌, Bool, true, false, Bool-cases, inl, inr, leb,
  if◌then◌else◌, Option, none, some, List, [], ◌∷◌, ◌++◌, arith, length, length-append, append-nil,
  append_assoc, List-cases, subst, ◌>>=◌,
}

-- BlockingQueue: put and take
unfoldable pub push_back {ℓ} : {A : Type ℓ} → A → List A → List A
push_back x queue = queue ++ x ∷ []

unfoldable pub pop_front {ℓ} : {A : Type ℓ} → List A → Option (A × List A)
pop_front [] = none
pop_front (x ∷ queue) = some (x, queue)

-- BoundedBlockingQueue
pub record BoundedQueue {ℓ} (A : Type ℓ) : Type ℓ where
  pub queue : List A
  pub max_size : ℕ

abbrev pub full {ℓ} : {A : Type ℓ} → BoundedQueue A → Bool
full q = leb q.max_size (length q.queue)

unfoldable pub put {ℓ} : {A : Type ℓ} → A → BoundedQueue A → Option (BoundedQueue A)
unfolding push_back
put x q = if full q then none else some (record q { queue = push_back x q.queue })

unfoldable pub take {ℓ} : {A : Type ℓ} → BoundedQueue A → Option (A × BoundedQueue A)
unfolding pop_front
take q = do (x, queue) ← pop_front q.queue; some (x, record q { queue = queue })

-- What the threads try, in the order in which they get the mutex.
pub data Try {ℓ} (A : Type ℓ) : Type ℓ where
  try_put : A → Try A
  try_take : Try A

-- What was put, what was taken, and the queue.
pub record Trace {ℓ} (A : Type ℓ) : Type ℓ where
  pub puts : List A
  pub takes : List A
  pub left : BoundedQueue A

pub run {ℓ} : {A : Type ℓ} → List (Try A) → BoundedQueue A → Trace A
run [] q = record { puts = []; takes = []; left = q }
run (try_put x ∷ ts) q = elim (put x q) [
  | none ↦ run ts q
  | some q' ↦ let r = run ts q' in record r { puts = x ∷ r.puts }
]
run (try_take ∷ ts) q = elim (take q) [
  | none ↦ run ts q
  | some (x, q') ↦ let r = run ts q' in record r { takes = x ∷ r.takes }
]

-- First in, first out, within the capacity.
pub record IsFifo {ℓ} {A : Type ℓ} (q : BoundedQueue A) (r : Trace A) : Type ℓ where
  pub order : r.takes ++ r.left.queue ≡ q.queue ++ r.puts
  pub capacity : r.left.max_size ≡ q.max_size
  pub bound : length r.left.queue ≤ q.max_size

module _ {ℓ} {A : Type ℓ} where
  pub put-room :
      (x : A) (q : BoundedQueue A)
      → length q.queue < q.max_size
      → put x q ≡ some (record q { queue = q.queue ++ x ∷ [] })
  unfolding put push_back
  put-room x q h = let f : full q ≡ false = ground arith in rw f

  pub take-front :
      (x : A) (xs : List A) (q : BoundedQueue A)
      → q.queue ≡ x ∷ xs
      → take q ≡ some (x, record q { queue = xs })
  unfolding take pop_front
  take-front x xs q e = rw (take, e)

  put-full : (x : A) (q : BoundedQueue A) → full q ≡ true → put x q ≡ none
  unfolding put
  put-full x q f = rw f

  run-put_waits :
      (x : A) (ts : List (Try A)) (q : BoundedQueue A)
      → put x q ≡ none
      → run (try_put x ∷ ts) q ≡ run ts q
  unfolding run
  run-put_waits x ts q e = rw (run, e)

  run-put :
      (x : A) (ts : List (Try A)) (q q' : BoundedQueue A)
      → put x q ≡ some q'
      → run (try_put x ∷ ts) q ≡ record (run ts q') { puts = x ∷ (run ts q').puts }
  unfolding run
  run-put x ts q q' e = rw (run, e)

  run-take :
      (x : A) (ts : List (Try A)) (q q' : BoundedQueue A)
      → take q ≡ some (x, q')
      → run (try_take ∷ ts) q ≡ record (run ts q') { takes = x ∷ (run ts q').takes }
  unfolding run
  run-take x ts q q' e = rw (run, e)

  run-take_waits :
      (ts : List (Try A)) (q : BoundedQueue A) → take q ≡ none → run (try_take ∷ ts) q ≡ run ts q
  unfolding run
  run-take_waits ts q e = rw (run, e)

  -- In whatever order the threads get the mutex, what was taken and then what is left are what the
  -- queue held at the start and then what was put, in its order; and the queue is never longer than
  -- its capacity.
  pub run-IsFifo :
      (ts : List (Try A)) (q : BoundedQueue A) → length q.queue ≤ q.max_size → IsFifo q (run ts q)
  unfolding run take pop_front
  run-IsFifo [] q h = record { order = sym (append-nil q.queue); capacity = refl; bound = h }
  run-IsFifo (try_put x ∷ ts) q h = elim (Bool-cases (full q)) [
    | inl f ↦ subst (IsFifo q) (sym (run-put_waits x ts q (put-full x q f))) (run-IsFifo ts q h)
    | inr f ↦
        let q' = record q { queue = q.queue ++ x ∷ [] } in
        let l = length-append q.queue (x ∷ []) in
        let g = run-IsFifo ts q' (ground arith) in
        subst (IsFifo q) (sym (run-put x ts q q' (put-room x q (ground arith)))) (record {
          order = g.order ∙ append_assoc q.queue (x ∷ []) (run ts q').puts;
          capacity = g.capacity;
          bound = g.bound;
        })
  ]
  run-IsFifo (try_take ∷ ts) q h = elim (List-cases q.queue) [
    | inl e ↦ subst (IsFifo q) (sym (run-take_waits ts q (rw (take, e)))) (run-IsFifo ts q h)
    | inr (x, xs, e) ↦
        let q' = record q { queue = xs } in
        let l = ap length e in
        let g = run-IsFifo ts q' (omega arith) in
        subst (IsFifo q) (sym (run-take x ts q q' (rw (take, e)))) (record {
          order = ap (λ t. x ∷ t) g.order ∙ ap (λ t. t ++ (run ts q').puts) (sym e);
          capacity = g.capacity;
          bound = g.bound;
        })
  ]

  -- With room for one element at least, a put and a take never wait for each other.
  pub never-both_wait :
      (x : A) (q : BoundedQueue A) → 0 < q.max_size → put x q ≡ none → take q ≢ none
  unfolding take pop_front
  never-both_wait x q h p t = elim (Bool-cases (full q)) [
    | inl f ↦ elim (List-cases q.queue) [
      | inl e ↦ let l = ap length e in absurd (ground arith)
      | inr (x, xs, e) ↦ cc (rw e at t)
    ]
    | inr f ↦ cc (put-room x q (ground arith), p)
  ]
