-- ===== src/LoopThread.antt =====
-- net/eventloop_thread.cpp: a thread that runs a loop, and the caller that starts it, waits for its
-- loop, and destroys it. Every lock, test, wait, assignment and notification is a step.
pub mod Explored
pub mod Handshake
use reactor_kv.Prelude.{◌≡◌, Bool, true, false, Option, none, some, if◌then◌else◌}

-- Where the caller stands: before startLoop; at the lock, the test of loop_ and the wait in it; behind
-- a wake-up, at the lock again; behind startLoop; in the destructor's join; and behind it.
pub data Caller : Type 0 where
  before entering testing waiting waking returned joining destroyed : Caller

-- Where the thread stands in threadFunc. At unlocked it is about to call loop().
pub data Worker : Type 0 where
  idle starting locking setting notifying unlocking unlocked looping relocking clearing ended :
      Worker

pub data Owner : Type 0 where
  nobody by_caller by_worker : Owner

-- `loop` says whether loop_ is set, and `quit` is the loop's quit_.
pub record State : Type 0 where
  pub caller : Caller
  pub worker : Worker
  pub mutex : Owner
  pub loop : Bool
  pub quit : Bool

unfoldable pub initial : State
initial = record { caller = before; worker = idle; mutex = nobody; loop = false; quit = false }

-- What a thread does that wants the mutex.
abbrev pub once_free : State → State → Option State
once_free s t = elim s.mutex [ nobody ↦ some t | by_caller ↦ none | by_worker ↦ none ]

abbrev pub woken : Caller → Caller
woken waiting = waking
woken c = c

-- The caller's next step, if it has one. A wait may end without a notification.
unfoldable pub caller_step : State → Option State
caller_step s = elim s.caller [
  | before ↦ some (record s { caller = entering; worker = starting })
  | entering ↦ once_free s (record s { caller = testing; mutex = by_caller })
  | testing ↦ some (
      if s.loop
      then record s { caller = returned; mutex = nobody }
      else record s { caller = waiting; mutex = nobody })
  | waiting ↦ some (record s { caller = waking })
  | waking ↦ once_free s (record s { caller = testing; mutex = by_caller })
  | returned ↦ some (
      if s.loop
      then record s { caller = joining; quit = true }
      else record s { caller = destroyed })
  | joining ↦ elim s.worker [ ended ↦ some (record s { caller = destroyed }) | _ ↦ none ]
  | destroyed ↦ none
]

-- The thread's next step, if it has one. loop() begins with quit_ = false and ends once quit_ is set.
unfoldable pub worker_step : State → Option State
worker_step s = elim s.worker [
  | idle ↦ none
  | starting ↦ some (record s { worker = locking })
  | locking ↦ once_free s (record s { worker = setting; mutex = by_worker })
  | setting ↦ some (record s { worker = notifying; loop = true })
  | notifying ↦ some (record s { caller = woken s.caller; worker = unlocking })
  | unlocking ↦ some (record s { worker = unlocked; mutex = nobody })
  | unlocked ↦ some (record s { worker = looping; quit = false })
  | looping ↦ if s.quit then some (record s { worker = relocking }) else none
  | relocking ↦ once_free s (record s { worker = clearing; mutex = by_worker })
  | clearing ↦ some (record s { worker = ended; mutex = nobody; loop = false })
  | ended ↦ none
]

-- The states that the two come to, in whatever order they step.
pub data Reach : State → Type 0 where
  begin : Reach initial
  by_caller_step : {s t : State} → Reach s → caller_step s ≡ some t → Reach t
  by_worker_step : {s t : State} → Reach s → worker_step s ≡ some t → Reach t
