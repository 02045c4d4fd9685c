-- ===== src/ThreadPool.antt =====
-- base/threadpool.cpp: the queue of tasks between the callers of run and the workers. The mutex makes
-- each call one step; a call that would wait on a condition is the outcome `waits`.
use reactor_kv.Prelude.{
  ℕ, ◌≤◌, ◌<◌, ◌≡◌, ◌≢◌, ◌⊎◌, refl, sym, ap, ◌∙◌, Bool, true, false, ◌&&◌, Bool-cases, inl, inr,
  ltb, leb, if◌then◌else◌, List, [], ◌∷◌, ◌++◌, arith, length, length-append, append-nil,
  append_assoc, List-cases,
}

-- `threads` is the number of workers. A task is its identity.
pub record Pool {ℓ} (T : Type ℓ) : Type ℓ where
  pub threads : ℕ
  pub queue : List T
  pub max_queue_size : ℕ
  pub running : Bool

-- ThreadPool() with setMaxQueueSize, and start.
unfoldable pub create {ℓ} : (T : Type ℓ) → ℕ → Pool T
create T size = record { threads = 0; queue = []; max_queue_size = size; running = false }

unfoldable pub start {ℓ} : {T : Type ℓ} → ℕ → Pool T → Pool T
start n p = record p { threads = n; running = true }

-- The part of stop under the mutex. It wakes every thread that waits.
unfoldable pub stop {ℓ} : {T : Type ℓ} → Pool T → Pool T
stop p = record p { running = false }

abbrev pub is_full {ℓ} : {T : Type ℓ} → Pool T → Bool
is_full p = ltb 0 p.max_queue_size && leb p.max_queue_size (length p.queue)

-- What run comes to: it waits, has run the task itself, gives up because the pool has stopped, or has
-- queued the task.
pub data Ran {ℓ} (T : Type ℓ) : Type ℓ where
  waits : Ran T
  ran_here : Ran T
  refused : Ran T
  queued : Pool T → Ran T

unfoldable pub run {ℓ} : {T : Type ℓ} → T → Pool T → Ran T
run task p =
    if leb p.threads 0
    then ran_here
    else if is_full p && p.running
    then waits
    else if p.running
    then queued (record p { queue = p.queue ++ task ∷ [] })
    else refused

-- What take comes to: it waits, has a task, or returns the empty task.
pub data Took {ℓ} (T : Type ℓ) : Type ℓ where
  waits : Took T
  took : T → Pool T → Took T
  nothing : Took T

abbrev take_from {ℓ} : {T : Type ℓ} → List T → Pool T → Took T
take_from [] p = if p.running then Took.waits else nothing
take_from (t ∷ ts) p = took t (record p { queue = ts })

unfoldable pub take {ℓ} : {T : Type ℓ} → Pool T → Took T
take p = take_from p.queue p

-- What the threads do, in the order in which they get the mutex.
pub data Call {ℓ} (T : Type ℓ) : Type ℓ where
  call_run : T → Call T
  call_take : Call T
  call_stop : Call T

-- The tasks that callers ran themselves, those queued, those that workers took, and the pool.
pub record Trace {ℓ} (T : Type ℓ) : Type ℓ where
  pub here : List T
  pub accepted : List T
  pub taken : List T
  pub left : Pool T

unfoldable pub run_all {ℓ} : {T : Type ℓ} → List (Call T) → Pool T → Trace T
unfolding run take stop
run_all [] p = record { here = []; accepted = []; taken = []; left = p }
run_all (call_run t ∷ cs) p = elim (run t p) [
  | waits ↦ run_all cs p
  | ran_here ↦ let r = run_all cs p in record r { here = t ∷ r.here }
  | refused ↦ run_all cs p
  | queued q ↦ let r = run_all cs q in record r { accepted = t ∷ r.accepted }
]
run_all (call_take ∷ cs) p = elim (take p) [
  | waits ↦ run_all cs p
  | took t q ↦ let r = run_all cs q in record r { taken = t ∷ r.taken }
  | nothing ↦ run_all cs p
]
run_all (call_stop ∷ cs) p = run_all cs (stop p)

-- The bound on the queue, if there is one.
unfoldable pub Within {ℓ} : {T : Type ℓ} → Pool T → Type 0
Within p = 0 < p.max_queue_size → length p.queue ≤ p.max_queue_size

pub record IsFair {ℓ} {T : Type ℓ} (p : Pool T) (r : Trace T) : Type ℓ where
  pub order : r.taken ++ r.left.queue ≡ p.queue ++ r.accepted
  pub bound : Within r.left

module _ {ℓ} {T : Type ℓ} where
  -- The cases of run.
  run-cases :
      (t : T) (p : Pool T)
      → (run t p ≡ Ran.waits)
        ⊎ (run t p ≡ ran_here)
        ⊎ (run t p ≡ refused)
        ⊎ ((is_full p ≡ false) × (run t p ≡ queued (record p { queue = p.queue ++ t ∷ [] })))
  unfolding run
  run-cases t p = elim (Bool-cases (leb p.threads 0)) [
    | inl e ↦ inr (inl (rw e))
    | inr e ↦ elim (Bool-cases (is_full p)) [
      | inl f ↦ elim (Bool-cases p.running) [
        | inl r ↦ inl (rw (e, f, r))
        | inr r ↦ inr (inr (inl (rw (e, f, r))))
      ]
      | inr f ↦ elim (Bool-cases p.running) [
        | inl r ↦ inr (inr (inr (f, rw (e, f, r))))
        | inr r ↦ inr (inr (inl (rw (e, f, r))))
      ]
    ]
  ]

  take-empty : (p : Pool T) → p.queue ≡ [] → (take p ≡ Took.waits) ⊎ (take p ≡ nothing)
  unfolding take
  take-empty p e = elim (Bool-cases p.running) [
    | inl r ↦ inl (rw (take, e, r))
    | inr r ↦ inr (rw (take, e, r))
  ]

  take-first :
      (t : T) (ts : List T) (p : Pool T)
      → p.queue ≡ t ∷ ts
      → take p ≡ took t (record p { queue = ts })
  unfolding take
  take-first t ts p e = rw (take, e)

  -- In whatever order callers, workers and stop get the mutex, the tasks that the workers took and
  -- then those still queued are those queued at the start and then those accepted, in their order;
  -- and a bounded queue keeps its bound.
  pub run_all-IsFair : (cs : List (Call T)) (p : Pool T) → Within p → IsFair p (run_all cs p)
  unfolding run_all stop take Within
  run_all-IsFair [] p w = record { order = sym (append-nil p.queue); bound = w }
  run_all-IsFair (call_run t ∷ cs) p w = elim (run-cases t p) [
    | inl e ↦ rw (run_all, e) (run_all-IsFair cs p w)
    | inr (inl e) ↦
        rw (run_all, e)
          (let g = run_all-IsFair cs p w in record { order = g.order; bound = g.bound })
    | inr (inr (inl e)) ↦ rw (run_all, e) (run_all-IsFair cs p w)
    | inr (inr (inr (f, e))) ↦
        rw (run_all, e)
          (let q = record p { queue = p.queue ++ t ∷ [] } in
            let l = length-append p.queue (t ∷ []) in
            let g = run_all-IsFair cs q (λ h. ground arith) in
            record {
              order = g.order ∙ append_assoc p.queue (t ∷ []) (run_all cs q).accepted;
              bound = g.bound;
            })
  ]
  run_all-IsFair (call_take ∷ cs) p w = elim (List-cases p.queue) [
    | inl e ↦ elim (take-empty p e) [
      | inl h ↦ rw (run_all, h) (run_all-IsFair cs p w)
      | inr h ↦ rw (run_all, h) (run_all-IsFair cs p w)
    ]
    | inr (t, ts, e) ↦
        let q = record p { queue = ts } in
        let l = ap length e in
        let g = run_all-IsFair cs q (λ h. let k = w h in omega arith) in
        rw (run_all, take-first t ts p e)
          (record {
            order = ap (λ x. t ∷ x) g.order ∙ ap (λ x. x ++ (run_all cs q).accepted) (sym e);
            bound = g.bound;
          })
  ]
  run_all-IsFair (call_stop ∷ cs) p w =
      let g = run_all-IsFair cs (stop p) w in record { order = g.order; bound = g.bound }

  -- A take that finds the pool stopped does not wait.
  take_from-stopped : (ts : List T) (p : Pool T) → p.running ≡ false → take_from ts p ≢ Took.waits
  take_from-stopped [] p r e = cc (rw r at e)
  take_from-stopped (t ∷ ts) p r e = cc

  -- Once the pool has stopped, neither run nor take waits.
  pub stop-wakes :
      (t : T) (p : Pool T) → (run t (stop p) ≢ Ran.waits) × (take (stop p) ≢ Took.waits)
  unfolding stop take run
  stop-wakes t p = (
    λ e. elim (Bool-cases (leb p.threads 0)) [
      | inl h ↦ cc (rw h at e)
      | inr h ↦ elim (Bool-cases (is_full p)) [
        | inl f ↦ cc (rw (h, f) at e)
        | inr f ↦ cc (rw (h, f) at e)
      ]
    ],
    take_from-stopped p.queue (stop p) refl,
  )
