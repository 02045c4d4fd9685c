-- ===== src/Tests/Threads.antt =====
-- The queues, mutexes, latches, times and log lines of base/ at concrete inputs.
use reactor_kv.Prelude.{
  ℕ, ◌+◌, ◌*◌, ◌<◌, ◌≤◌, ◌≡◌, ◌⊎◌, refl, true, Option, some, List, [], ◌∷◌, ◌++◌, length, get_elem?,
  arith, All, ltb,
}
use reactor_kv.Bytes.{Bytes, bytes, Without, split_at}
use reactor_kv.Client.{read_digits}
use reactor_kv.Timestamp.{text_of, micro_seconds_per_second, text_of_lem}
use reactor_kv.Logger.{slash, base_name, base_name_lem}
use reactor_kv.Mutex.{lock, begin_wait, second, deadline, deadline_lem}
use reactor_kv.Latch.{
  Event, calls_wait, calls_count_down, wakes, downs, placed_by, new_latch, run, run-opens,
}
use reactor_kv.BlockingQueue
use reactor_kv.BlockingQueue.{push_back}
use reactor_kv.BlockingQueue.Threads.{
  Condition, not_empty, Pc, idle, put_notify, take_wait, Shared, Move, put_locks, put_passes,
  pushes, take_locks, take_waits, System, calls_put, calls_take, moves, Reach, start, later,
}
use reactor_kv.BlockingQueue.Threads.Inv.{active, tells}
use reactor_kv.BlockingQueue.Threads.Reached.{
  mutual_exclusion, Reach-fifo, no_lost_wakeup, critical-moves,
}

-- A thread waits for one countDown, which comes, and goes on.
abbrev events : List Event
events = calls_wait 0 ∷ calls_count_down ∷ wakes 0 ∷ []

deadline_lem_example :
    ((deadline (record { sec = 7; nsec = 900000000 }) 1500000000).nsec < second)
    × ((deadline (record { sec = 7; nsec = 900000000 }) 1500000000).sec * second
          + (deadline (record { sec = 7; nsec = 900000000 }) 1500000000).nsec
        ≡ 7 * second + 900000000 + 1500000000)
deadline_lem_example = deadline_lem (record { sec = 7; nsec = 900000000 }) 1500000000 (omega arith)

-- Two threads and a queue of one place: thread 1 waits for an element, and thread 0 has pushed one.
abbrev taker_waits : System ℕ
taker_waits = record {
  threads = idle ∷ take_wait ∷ [];
  shared = record {
    mutex = record { owner = 0; holder = 0 };
    bounded = record { queue = []; max_size = 1 };
    puts = [];
    takes = [];
  };
}

taker_waits-Reach : Reach 2 1 taker_waits
unfolding lock begin_wait
taker_waits-Reach =
    later (later (later start (calls_take 1 refl)) (moves 1 refl (take_locks refl)))
      (moves 1 refl (take_waits refl))

abbrev putter_tells : System ℕ
putter_tells = record {
  threads = put_notify ∷ take_wait ∷ [];
  shared = record {
    mutex = record { owner = 1; holder = 1 };
    bounded = record { queue = 7 ∷ []; max_size = 1 };
    puts = 7 ∷ [];
    takes = [];
  };
}

putter_tells-Reach : Reach 2 1 putter_tells
unfolding lock BlockingQueue.put push_back
putter_tells-Reach =
    later
      (later (later (later taker_waits-Reach (calls_put 0 7 refl)) (moves 0 refl (put_locks refl)))
        (moves 0 refl (put_passes refl)))
      (moves 0 refl (pushes refl))

mutual_exclusion_example : ◌≡◌ {A = ℕ} 0 0
mutual_exclusion_example =
    mutual_exclusion 0 0 put_notify put_notify putter_tells-Reach refl refl refl refl

Reach-fifo_example :
    (putter_tells.shared.takes ++ putter_tells.shared.bounded.queue ≡ putter_tells.shared.puts)
    × (length putter_tells.shared.bounded.queue ≤ 1)
Reach-fifo_example = Reach-fifo putter_tells-Reach

no_lost_wakeup_example :
    (j : ℕ) × (q : Pc ℕ) × (get_elem? putter_tells.threads j ≡ some q)
    × ((active not_empty q ≡ true) ⊎ (tells not_empty q ≡ true))
no_lost_wakeup_example =
    no_lost_wakeup not_empty 1 take_wait putter_tells-Reach refl refl (omega arith)

critical-moves_example :
    (p : Pc ℕ) × (s : Shared ℕ) × (c : Option Condition) × Move 1 putter_tells.shared put_notify p s
      c
critical-moves_example = critical-moves 0 put_notify putter_tells-Reach refl refl

run-opens_example :
    All (λ w. placed_by (ltb (downs events) 1) w ≡ true) (run events (new_latch 1 2)).threads
run-opens_example = run-opens events 1 2

text_of_lem_example :
    (s : Bytes) × (f : Bytes) × (split_at b'.' (text_of 1700000000000042) ≡ some (s, f))
    × (length f ≡ 6)
    × (read_digits 0 s * micro_seconds_per_second + read_digits 0 f ≡ 1700000000000042)
text_of_lem_example = text_of_lem 1700000000000042

base_name_lem_example :
    Without slash (base_name (bytes "src/base/logger.cpp"))
    × ((base_name (bytes "src/base/logger.cpp") ≡ bytes "src/base/logger.cpp")
        ⊎ ((d : Bytes) × (bytes "src/base/logger.cpp"
              ≡ d ++ slash ∷ base_name (bytes "src/base/logger.cpp"))))
base_name_lem_example = base_name_lem (bytes "src/base/logger.cpp")
