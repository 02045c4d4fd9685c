-- ===== src/BlockingQueue/Threads.antt =====
-- BoundedBlockingQueue of base/blocking_queue.h, called by any number of threads at once: every lock,
-- test, push, pop, notification and unlock is a step of its own. A notification wakes one thread that
-- waits, if there is one, and a thread can also wake without one.
pub mod Inv
pub mod Moves
pub mod Exclusive
pub mod Owed
pub mod Reached
use reactor_kv.Prelude.{
  ℕ, suc, Bool, true, false, Option, none, some, List, [], ◌∷◌, ◌++◌, length, get_elem?, set,
  replicate, count, ◌≡◌, leb,
}
use reactor_kv.Mutex.{Mutex, new_mutex, lock, unlock, begin_wait, end_wait}
use reactor_kv.BlockingQueue.{BoundedQueue, full, put, take}

-- notEmpty_ and notFull_
pub data Condition : Type 0 where
  not_empty not_full : Condition

-- Where a thread is in put or take.
pub data Pc {ℓ} (A : Type ℓ) : Type ℓ where
  idle : Pc A
  put_lock put_test put_wait put_woken put_push : A → Pc A
  put_notify put_unlock : Pc A
  take_lock take_test take_wait take_woken take_pop : Pc A
  take_notify take_unlock : A → Pc A

-- What the threads share, with all that was put and taken so far.
pub record Shared {ℓ} (A : Type ℓ) : Type ℓ where
  pub mutex : Mutex
  pub bounded : BoundedQueue A
  pub puts : List A
  pub takes : List A

abbrev pub with_mutex {ℓ} : {A : Type ℓ} → Mutex → Shared A → Shared A
with_mutex m s = record s { mutex = m }

abbrev pub pushed {ℓ} : {A : Type ℓ} → A → BoundedQueue A → Shared A → Shared A
pushed x q s = record s { bounded = q; puts = s.puts ++ x ∷ [] }

abbrev pub popped {ℓ} : {A : Type ℓ} → A → BoundedQueue A → Shared A → Shared A
popped x q s = record s { bounded = q; takes = s.takes ++ x ∷ [] }

-- A step of one thread, with the condition that it notifies. The guard of a push is the assertion that
-- there is room, and that of a pop that there is an element.
pub data Move {ℓ} {A : Type ℓ} (tid : ℕ) (s : Shared A)
    : Pc A → Pc A → Shared A → Option Condition → Type ℓ where
  put_locks :
      {x : A} {m : Mutex}
      → lock tid s.mutex ≡ some m
      → Move tid s (put_lock x) (put_test x) (with_mutex m s) none
  put_waits :
      {x : A}
      → full s.bounded ≡ true
      → Move tid s (put_test x) (put_wait x) (with_mutex (begin_wait s.mutex) s) none
  put_resumes :
      {x : A} {m : Mutex}
      → end_wait tid s.mutex ≡ some m
      → Move tid s (put_woken x) (put_test x) (with_mutex m s) none
  put_passes : {x : A} → full s.bounded ≡ false → Move tid s (put_test x) (put_push x) s none
  pushes :
      {x : A} {q : BoundedQueue A}
      → put x s.bounded ≡ some q
      → Move tid s (put_push x) put_notify (pushed x q s) none
  put_notifies : Move tid s put_notify put_unlock s (some not_empty)
  put_returns : Move tid s put_unlock idle (with_mutex (unlock s.mutex) s) none
  take_locks :
      {m : Mutex} → lock tid s.mutex ≡ some m → Move tid s take_lock take_test (with_mutex m s) none
  take_waits :
      s.bounded.queue ≡ [] → Move tid s take_test take_wait (with_mutex (begin_wait s.mutex) s) none
  take_resumes :
      {m : Mutex}
      → end_wait tid s.mutex ≡ some m
      → Move tid s take_woken take_test (with_mutex m s) none
  take_passes :
      {x : A} {xs : List A} → s.bounded.queue ≡ x ∷ xs → Move tid s take_test take_pop s none
  pops :
      {x : A} {q : BoundedQueue A}
      → take s.bounded ≡ some (x, q)
      → Move tid s take_pop (take_notify x) (popped x q s) none
  take_notifies : {x : A} → Move tid s (take_notify x) (take_unlock x) s (some not_full)
  take_returns : {x : A} → Move tid s (take_unlock x) idle (with_mutex (unlock s.mutex) s) none

-- A thread that waits on the condition is woken.
pub data Wakes {ℓ} {A : Type ℓ} : Condition → Pc A → Pc A → Type ℓ where
  wakes_put : {x : A} → Wakes not_full (put_wait x) (put_woken x)
  wakes_take : Wakes not_empty take_wait take_woken

abbrev pub waits {ℓ} : {A : Type ℓ} → Condition → Pc A → Bool
waits not_full (put_wait x) = true
waits not_empty take_wait = true
waits _ _ = false

pub record System {ℓ} (A : Type ℓ) : Type ℓ where
  pub threads : List (Pc A)
  pub shared : Shared A

-- The thread at place i has the id i + 1.
pub data Step {ℓ} {A : Type ℓ} (y : System A) : System A → Type ℓ where
  calls_put :
      (i : ℕ) (x : A)
      → get_elem? y.threads i ≡ some idle
      → Step y (record y { threads = set y.threads i (put_lock x) })
  calls_take :
      (i : ℕ)
      → get_elem? y.threads i ≡ some idle
      → Step y (record y { threads = set y.threads i take_lock })
  moves :
      (i : ℕ) {p p' : Pc A} {s : Shared A}
      → get_elem? y.threads i ≡ some p
      → Move (suc i) y.shared p p' s none
      → Step y (record { threads = set y.threads i p'; shared = s })
  notifies :
      (i j : ℕ) {p p' q q' : Pc A} {s : Shared A} {c : Condition}
      → get_elem? y.threads i ≡ some p
      → Move (suc i) y.shared p p' s (some c)
      → get_elem? (set y.threads i p') j ≡ some q
      → Wakes c q q'
      → Step y (record { threads = set (set y.threads i p') j q'; shared = s })
  notifies_none :
      (i : ℕ) {p p' : Pc A} {s : Shared A} {c : Condition}
      → get_elem? y.threads i ≡ some p
      → Move (suc i) y.shared p p' s (some c)
      → count (waits c) y.threads ≡ 0
      → Step y (record { threads = set y.threads i p'; shared = s })
  wakes :
      (j : ℕ) {q q' : Pc A} {c : Condition}
      → get_elem? y.threads j ≡ some q
      → Wakes c q q'
      → Step y (record y { threads = set y.threads j q' })

-- n threads and a new queue.
abbrev pub begin {ℓ} : {A : Type ℓ} → ℕ → ℕ → System A
begin n max_size = record {
  threads = replicate n idle;
  shared = record {
    mutex = new_mutex;
    bounded = record { queue = []; max_size = max_size };
    puts = [];
    takes = [];
  };
}

pub data Reach {ℓ} {A : Type ℓ} (n max_size : ℕ) : System A → Type ℓ where
  start : Reach n max_size (begin n max_size)
  later : {y z : System A} → Reach n max_size y → Step y z → Reach n max_size z
