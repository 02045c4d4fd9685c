-- ===== src/Tests/LoopThreads.antt =====
-- A thread of net/eventloop_thread.cpp that is started and destroyed before its loop() begins.
use reactor_kv.Prelude.{◌≡◌, ◌≢◌, ◌⊎◌, refl, true, false, some}
use reactor_kv.LoopThread.{
  returned, joining, waiting, destroyed, unlocked, looping, ended, nobody, State, initial,
  caller_step, worker_step, Reach, begin, by_caller_step, by_worker_step,
}
use reactor_kv.LoopThread.Handshake.{start_loop-runs, Reach-moves}

abbrev at_returned : State
at_returned = record {
  caller = returned;
  worker = unlocked;
  mutex = nobody;
  loop = true;
  quit = false;
}

-- quit comes before loop(), which unsets it.
abbrev at_lost : State
at_lost = record { caller = joining; worker = looping; mutex = nobody; loop = true; quit = false }

returned-Reach : Reach at_returned
unfolding initial caller_step worker_step
returned-Reach =
    let r1 = by_caller_step begin refl in
    let r2 = by_worker_step r1 refl in
    let r3 = by_worker_step r2 refl in
    let r4 = by_worker_step r3 refl in
    let r5 = by_worker_step r4 refl in
    let r6 = by_worker_step r5 refl in let r7 = by_caller_step r6 refl in by_caller_step r7 refl

lost-Reach : Reach at_lost
unfolding caller_step worker_step
lost-Reach = let r = by_caller_step returned-Reach refl in by_worker_step r refl

start_loop-runs_example :
    (at_returned.loop ≡ true) × ((at_returned.worker ≡ unlocked) ⊎ (at_returned.worker ≡ looping))
start_loop-runs_example = start_loop-runs returned-Reach refl

Reach-moves_example :
    ((t : State) × (worker_step at_lost ≡ some t))
    ⊎ ((at_lost.caller ≢ waiting) × ((t : State) × (caller_step at_lost ≡ some t)))
    ⊎ ((at_lost.caller ≡ destroyed) × (at_lost.worker ≡ ended))
    ⊎ ((at_lost.caller ≡ joining) × (at_lost.worker ≡ looping) × (at_lost.quit ≡ false))
Reach-moves_example = Reach-moves lost-Reach
