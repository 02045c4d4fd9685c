-- ===== src/LoopThread/Handshake.antt =====
-- net/eventloop_thread.cpp: what startLoop returns, and how far the two threads always come.
use reactor_kv.Prelude.{
  ◌≡◌, ◌≢◌, ◌⊎◌, refl, Bool, true, false, not, ◌&&◌, ◌==◌, ==_iff, inl, inr, if◌then◌else◌, Option,
  none, some, arith,
}
use reactor_kv.LoopThread.{
  Caller, waiting, returned, joining, destroyed, Worker, notifying, unlocked, looping, ended, State,
  initial, caller_step, worker_step, Reach,
}
use reactor_kv.LoopThread.Explored.{
  every, states, explore, known, steps, of_step, caller_at, worker_at, owner_at, flag_at, and_split,
  placed, callers, workers, caller_lem, worker_lem, every-Reach,
}

abbrev stands : State → Caller → Bool
stands s c = caller_at s.caller == caller_at c

abbrev runs : State → Worker → Bool
runs s w = worker_at s.worker == worker_at w

stands_lem : (s : State) (c : Caller) → stands s c ≡ true → s.caller ≡ c
stands_lem s c e = placed callers caller_at caller_lem s.caller c e

runs_lem : (s : State) (w : Worker) → runs s w ≡ true → s.worker ≡ w
runs_lem s w e = placed workers worker_at worker_lem s.worker w e

stands_refl : (s : State) (c : Caller) → s.caller ≡ c → stands s c ≡ true
stands_refl s c e = rw e ((==_iff (caller_at c) (caller_at c)).1 refl)

either : {a b : Bool} → (if a then true else b) ≡ true → (a ≡ true) ⊎ (b ≡ true)
either {a = true} h = inl refl
either {a = false} h = inr h

is_moving : Option State → Bool
is_moving none = false
is_moving (some t) = true

moving_lem : (o : Option State) → is_moving o ≡ true → (t : State) × (o ≡ some t)
unfolding is_moving
moving_lem none h = cc
moving_lem (some t) h = (t, refl)

abbrev returned_test : State → Bool
returned_test s =
    if stands s returned then s.loop && (if runs s unlocked then true else runs s looping) else true

abbrev waiting_test : State → Bool
waiting_test s = if stands s waiting && s.loop then runs s notifying else true

abbrev moves_test : State → Bool
moves_test s =
    if is_moving (worker_step s)
    then true
    else if not (stands s waiting) && is_moving (caller_step s)
    then true
    else if stands s destroyed && runs s ended
    then true
    else stands s joining && runs s looping && not s.quit

returned-checked : every returned_test states ≡ true
unfolding states explore known steps initial caller_step worker_step caller_at worker_at owner_at
    flag_at every of_step
returned-checked = refl

waiting-checked : every waiting_test states ≡ true
unfolding states explore known steps initial caller_step worker_step caller_at worker_at owner_at
    flag_at every of_step
waiting-checked = refl

moves-checked : every moves_test states ≡ true
unfolding states explore known steps initial caller_step worker_step caller_at worker_at owner_at
    flag_at every of_step is_moving
moves-checked = refl

-- When startLoop has returned, it has returned the loop of a thread that is in loop() or just about to
-- call it, until the destructor is called.
pub start_loop-runs :
    {s : State}
    → Reach s
    → s.caller ≡ returned
    → (s.loop ≡ true) × ((s.worker ≡ unlocked) ⊎ (s.worker ≡ looping))
start_loop-runs {s} r e =
    let q = every-Reach returned_test returned-checked r in
    let (l, w) = and_split s.loop _ (rw (stands_refl s returned e) at q) in
    (
      l,
      elim (either w) [ inl h ↦ inl (runs_lem s unlocked h) | inr h ↦ inr (runs_lem s looping h) ],
    )

-- No wake-up is lost: where startLoop waits and the loop is set, its notification is due.
pub waiting-notified :
    {s : State} → Reach s → s.caller ≡ waiting → s.loop ≡ true → s.worker ≡ notifying
waiting-notified {s} r e l =
    let q = every-Reach waiting_test waiting-checked r in
    runs_lem s notifying (rw (stands_refl s waiting e, l) at q)

-- Without a wait that ends by itself, one of the two threads can always go on, unless both are
-- through, or the destructor waits for a thread that stays in loop() with quit_ unset.
pub Reach-moves :
    {s : State}
    → Reach s
    → ((t : State) × (worker_step s ≡ some t))
      ⊎ ((s.caller ≢ waiting) × ((t : State) × (caller_step s ≡ some t)))
      ⊎ ((s.caller ≡ destroyed) × (s.worker ≡ ended))
      ⊎ ((s.caller ≡ joining) × (s.worker ≡ looping) × (s.quit ≡ false))
Reach-moves {s} r = elim (either (every-Reach moves_test moves-checked r)) [
  | inl h ↦ inl (moving_lem (worker_step s) h)
  | inr h ↦ elim (either h) [
    | inl g ↦
        let (w, c) = and_split (not (stands s waiting)) (is_moving (caller_step s)) g in
        inr (inl (λ e. cc (rw (stands_refl s waiting e) at w), moving_lem (caller_step s) c))
    | inr g ↦ elim (either g) [
      | inl d ↦
          let (c, w) = and_split (stands s destroyed) (runs s ended) d in
          inr (inr (inl (stands_lem s destroyed c, runs_lem s ended w)))
      | inr d ↦
          let (cw, q) = and_split (stands s joining && runs s looping) (not s.quit) d in
          let (c, w) = and_split (stands s joining) (runs s looping) cw in
          inr (inr (inr (stands_lem s joining c, runs_lem s looping w, ground arith)))
    ]
  ]
]
