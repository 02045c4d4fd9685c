-- ===== src/BlockingQueue/Threads/Inv.antt =====
-- What holds of BoundedBlockingQueue between any two steps of its threads.
use reactor_kv.Prelude.{
  ℕ, suc, ◌+◌, ◌-◌, ◌<◌, ◌≤◌, ◌≡◌, Bool, true, false, some, List, ◌++◌, length, get_elem?, count,
  ltb,
}
use reactor_kv.BlockingQueue.{BoundedQueue}
use reactor_kv.BlockingQueue.Threads.{
  Condition, not_empty, not_full, Pc, put_test, put_woken, put_push, put_notify, put_unlock,
  take_test, take_woken, take_pop, take_notify, take_unlock, waits, System,
}

-- Between the lock and the unlock, and not in a wait.
abbrev pub critical {ℓ} : {A : Type ℓ} → Pc A → Bool
critical (put_test x) = true
critical (put_push x) = true
critical put_notify = true
critical put_unlock = true
critical take_test = true
critical take_pop = true
critical (take_notify x) = true
critical (take_unlock x) = true
critical _ = false

-- A thread that will test the queue, or has, and does not wait.
abbrev pub active {ℓ} : {A : Type ℓ} → Condition → Pc A → Bool
active not_full (put_woken x) = true
active not_full (put_test x) = true
active not_full (put_push x) = true
active not_empty take_woken = true
active not_empty take_test = true
active not_empty take_pop = true
active _ _ = false

-- A thread that is about to notify the condition.
abbrev pub tells {ℓ} : {A : Type ℓ} → Condition → Pc A → Bool
tells not_empty put_notify = true
tells not_full (take_notify x) = true
tells _ _ = false

-- How many can pass the condition: the elements, and the free places.
abbrev pub level {ℓ} : {A : Type ℓ} → Condition → BoundedQueue A → ℕ
level not_empty q = length q.queue
level not_full q = q.max_size - length q.queue

-- What a thread knows after its test.
abbrev pub ready {ℓ} : {A : Type ℓ} → BoundedQueue A → Pc A → Bool
ready q (put_push x) = ltb (length q.queue) q.max_size
ready q take_pop = ltb 0 (length q.queue)
ready q _ = true

module _ {ℓ} {A : Type ℓ} where
  -- While a thread waits on a condition, as many threads as can pass it are on their way or about to
  -- be woken.
  unfoldable pub Told : Condition → List (Pc A) → BoundedQueue A → Type 0
  Told c ts q = 0 < count (waits c) ts → level c q ≤ count (active c) ts + count (tells c) ts

  -- The mutex, the threads' tests, and the queue.
  pub record Solid (y : System A) : Type ℓ where
    pub holder : y.shared.mutex.holder ≡ y.shared.mutex.owner
    pub owner :
        (i : ℕ) (p : Pc A)
        → get_elem? y.threads i ≡ some p
        → critical p ≡ true
        → y.shared.mutex.owner ≡ suc i
    pub sure : (i : ℕ) (p : Pc A) → get_elem? y.threads i ≡ some p → ready y.shared.bounded p ≡ true
    pub order : y.shared.takes ++ y.shared.bounded.queue ≡ y.shared.puts
    pub bound : length y.shared.bounded.queue ≤ y.shared.bounded.max_size

  pub record Inv (y : System A) : Type ℓ where
    pub solid : Solid y
    pub told : (c : Condition) → Told c y.threads y.shared.bounded
