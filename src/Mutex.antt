-- ===== src/Mutex.antt =====
-- base/mutex.h: who holds a mutex, and the time at which a wait ends. A thread is its id, which is not
-- 0; the pthread mutex is the id of the thread that has locked it. A lock and the note of its holder
-- are one step.
use reactor_kv.Prelude.{
  ℕ, ◌+◌, ◌-◌, ◌*◌, ◌/◌, ◌%◌, ◌<◌, ◌≡◌, Bool, Bool-cases, inl, inr, ◌==◌, leb, if◌then◌else◌,
  Option, none, some, arith,
}

-- MutexLock
pub record Mutex : Type 0 where
  pub owner : ℕ
  pub holder : ℕ

abbrev pub new_mutex : Mutex
new_mutex = record { owner = 0; holder = 0 }

abbrev pub is_locked_by_this_thread : ℕ → Mutex → Bool
is_locked_by_this_thread tid m = m.holder == tid

abbrev assign_holder : ℕ → Mutex → Mutex
assign_holder tid m = record m { holder = tid }

abbrev unassign_holder : Mutex → Mutex
unassign_holder m = record m { holder = 0 }

-- none where the call waits
unfoldable pub lock : ℕ → Mutex → Option Mutex
lock tid m = if m.owner == 0 then some (assign_holder tid (record m { owner = tid })) else none

unfoldable pub unlock : Mutex → Mutex
unlock m = record (unassign_holder m) { owner = 0 }

-- Condition::wait: UnassignGuard and the release in pthread_cond_wait, and later what pthread_cond_wait
-- and the guard's end do.
unfoldable pub begin_wait : Mutex → Mutex
begin_wait m = record (unassign_holder m) { owner = 0 }

unfoldable pub end_wait : ℕ → Mutex → Option Mutex
unfolding lock
end_wait tid m = lock tid m

-- A timespec.
pub record Time : Type 0 where
  pub sec : ℕ
  pub nsec : ℕ

abbrev pub second : ℕ
second = 1000000000

-- waitForSeconds: when the wait ends, from the clock and the wait in nanoseconds.
unfoldable pub deadline : Time → ℕ → Time
deadline now nanoseconds =
    let t : Time = record {
      sec = now.sec + nanoseconds / second;
      nsec = now.nsec + nanoseconds % second;
    } in
    if leb second t.nsec then record { sec = t.sec + 1; nsec = t.nsec - second } else t

-- The wait ends after the nanoseconds, at a time whose nanoseconds are below one second.
pub deadline_lem :
    (now : Time) (n : ℕ)
    → now.nsec < second
    → ((deadline now n).nsec < second)
      × ((deadline now n).sec * second + (deadline now n).nsec ≡ now.sec * second + now.nsec + n)
unfolding deadline
deadline_lem now n h = elim (Bool-cases (leb second (now.nsec + n % second))) [
  | inl e ↦ rw e (ground arith, ground arith)
  | inr e ↦ rw e (ground arith, ground arith)
]

-- A lock succeeds where the mutex is free.
pub lock_lem :
    (tid : ℕ) (m m' : Mutex)
    → lock tid m ≡ some m'
    → (m.owner ≡ 0) × (m'.owner ≡ tid) × (m'.holder ≡ tid)
unfolding lock
lock_lem tid m m' e = elim (Bool-cases (m.owner == 0)) [
  | inl f ↦ let z = rw f at e in (ground arith, cc, cc)
  | inr f ↦ cc (rw f at e)
]
