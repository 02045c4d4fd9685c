-- ===== src/EventLoop.antt =====
-- net/eventloop.cpp: the functors that wait for the loop's thread, and the wake-ups that bring it out
-- of poll; net/eventloop_thread_pool.cpp: the choice of a loop for a connection. `F` is the type of
-- functors, and `calls f` are those that `f` hands to queueInLoop while it runs.
pub mod Turns
use native.Mathlib.Nat.{mod-lt, mod-eq_of_lt, mod-add-mod}
use reactor_kv.Prelude.{
  ◌⊎◌, inl, inr, ℕ, zero, suc, ◌+◌, ◌-◌, ◌%◌, ◌<◌, ◌≡◌, refl, sym, ap, ◌∙◌, Bool, true, false, not,
  ◌||◌, if◌then◌else◌, Option, none, some, List, [], ◌∷◌, ◌++◌, arith, length, get_elem?,
  get_elem?-lt, length-append, subst, append-nil, append_assoc, ◌>>=◌,
}

-- pendingFunctors_, callingPendingFunctors_, quit_, and the number that a read of wakeupFd_ returns.
pub record Loop {ℓ} (F : Type ℓ) : Type ℓ where
  pub pending : List F
  pub calling : Bool
  pub quit : Bool
  pub wakeups : ℕ

unfoldable pub wakeup {ℓ} : {F : Type ℓ} → Loop F → Loop F
wakeup l = record l { wakeups = l.wakeups + 1 }

-- handleRead of the wake-up channel
unfoldable pub handle_read {ℓ} : {F : Type ℓ} → Loop F → Loop F
handle_read l = record l { wakeups = 0 }

unfoldable pub queue_in_loop {ℓ} : {F : Type ℓ} → Bool → F → Loop F → Loop F
unfolding wakeup
queue_in_loop in_thread f l =
    let m = record l { pending = l.pending ++ f ∷ [] } in
    if not in_thread || l.calling then wakeup m else m

-- runInLoop: the functor that runs at once, if it does.
unfoldable pub run_in_loop {ℓ} : {F : Type ℓ} → Bool → F → Loop F → Option F × Loop F
unfolding queue_in_loop
run_in_loop in_thread f l = if in_thread then (some f, l) else (none, queue_in_loop false f l)

-- quit, from the loop's thread or another.
unfoldable pub quit {ℓ} : {F : Type ℓ} → Bool → Loop F → Loop F
unfolding wakeup
quit in_thread l = let m = record l { quit = true } in if in_thread then m else wakeup m

module _ {ℓ} {F : Type ℓ} (calls : F → List F) where
  -- One functor queues what it calls.
  unfoldable pub queue_all : List F → Loop F → Loop F
  unfolding queue_in_loop
  queue_all [] l = l
  queue_all (f ∷ fs) l = queue_all fs (queue_in_loop true f l)

  -- for (const Functor& functor : functors) functor();
  unfoldable pub run_batch : List F → Loop F → List F × Loop F
  unfolding queue_all
  run_batch [] l = ([], l)
  run_batch (f ∷ fs) l = let r = run_batch fs (queue_all (calls f) l) in (f ∷ r.0, r.1)

  -- doPendingFunctors: the functors run, in order, and the loop after it.
  unfoldable pub do_pending_functors : Loop F → List F × Loop F
  unfolding run_batch
  do_pending_functors l =
      let r = run_batch l.pending (record l { pending = []; calling = true }) in
      (r.0, record r.1 { calling = false })

  -- What the functors of a batch queue.
  pub queued : List F → List F
  queued [] = []
  queued (f ∷ fs) = calls f ++ queued fs

  -- The functors queued so far are behind those that waited, with a wake-up for each.
  record Grown (fs : List F) (l m : Loop F) : Type ℓ where
    pending : m.pending ≡ l.pending ++ fs
    wakeups : m.wakeups ≡ l.wakeups + length fs
    calling : m.calling ≡ true
    quit : m.quit ≡ l.quit

  queue_all_lem : (fs : List F) (l : Loop F) → l.calling ≡ true → Grown fs l (queue_all fs l)
  unfolding queue_all queue_in_loop wakeup
  queue_all_lem [] l c = record {
    pending = sym (append-nil l.pending);
    wakeups = omega arith;
    calling = c;
    quit = refl;
  }
  queue_all_lem (f ∷ fs) l c =
      let m = record l { pending = l.pending ++ f ∷ []; wakeups = l.wakeups + 1 } in
      let g = queue_all_lem fs m c in
      let e : queue_in_loop true f l ≡ m = rw (queue_in_loop, c) in
      subst (λ x. Grown (f ∷ fs) l (queue_all fs x)) (sym e)
        (record {
          pending = g.pending ∙ append_assoc l.pending (f ∷ []) fs;
          wakeups = let w = g.wakeups in omega arith;
          calling = g.calling;
          quit = g.quit;
        })

  run_batch_lem :
      (fs : List F) (l : Loop F)
      → l.calling ≡ true
      → ((run_batch fs l).0 ≡ fs) × Grown (queued fs) l (run_batch fs l).1
  unfolding run_batch queued
  run_batch_lem [] l c = (
    refl,
    record {
      pending = sym (append-nil l.pending);
      wakeups = omega arith;
      calling = c;
      quit = refl;
    },
  )
  run_batch_lem (f ∷ fs) l c =
      let g = queue_all_lem (calls f) l c in
      let (e, h) = run_batch_lem fs (queue_all (calls f) l) g.calling in
      let n = length-append (calls f) (queued fs) in
      (
        ap (λ t. f ∷ t) e,
        record {
          pending =
              h.pending
              ∙ ap (λ t. t ++ queued fs) g.pending
              ∙ append_assoc l.pending (calls f) (queued fs);
          wakeups = h.wakeups ∙ (let w = g.wakeups in omega arith);
          calling = h.calling;
          quit = h.quit ∙ g.quit;
        },
      )

  -- Where no other thread queues meanwhile, doPendingFunctors ends: it runs exactly the functors that
  -- waited, in their order; those that they queue wait for the next round, each with a wake-up, so
  -- that poll does not sleep on them.
  pub do_pending_functors_lem :
      (l : Loop F)
      → let r = do_pending_functors l in
        (r.0 ≡ l.pending)
        × (r.1.pending ≡ queued l.pending)
        × (r.1.wakeups ≡ l.wakeups + length (queued l.pending))
  unfolding do_pending_functors
  do_pending_functors_lem l =
      let (e, g) = run_batch_lem l.pending (record l { pending = []; calling = true }) refl in
      (e, g.pending, g.wakeups)

-- EventLoopThreadPool after start: the loops of its threads, and next_.
pub record LoopPool {ℓ} (L : Type ℓ) : Type ℓ where
  pub base : L
  pub loops : List L
  pub next : ℕ

-- getNextLoop, by whether loops_ is empty; none is an access out of range.
abbrev pub next_from {ℓ} : {L : Type ℓ} → List L → LoopPool L → Option (L × LoopPool L)
next_from [] p = some (p.base, p)
next_from (_ ∷ _) p = elim (get_elem? p.loops p.next) [
  | none ↦ none
  | some l ↦ some (l, record p { next = (p.next + 1) % length p.loops })
]

unfoldable pub get_next_loop {ℓ} : {L : Type ℓ} → LoopPool L → Option (L × LoopPool L)
get_next_loop p = next_from p.loops p

-- getAllLoops
unfoldable pub get_all_loops {ℓ} : {L : Type ℓ} → LoopPool L → List L
get_all_loops p = elim p.loops [ [] ↦ p.base ∷ [] | _ ∷ _ ↦ p.loops ]

next_from-some {ℓ} :
    {L : Type ℓ} (ls : List L) (p : LoopPool L) (l : L)
    → 0 < length ls
    → get_elem? p.loops p.next ≡ some l
    → next_from ls p ≡ some (l, record p { next = (p.next + 1) % length p.loops })
next_from-some [] p l h e = absurd (omega arith)
next_from-some (x ∷ xs) p l h e = rw (next_from, e)

-- The choice never leaves the table, and the next one is in range again.
pub get_next_loop_lem {ℓ} :
    {L : Type ℓ} (p : LoopPool L)
    → p.next < length p.loops
    → (l : L) × (get_next_loop p ≡ some (l, record p { next = (p.next + 1) % length p.loops }))
      × (get_elem? p.loops p.next ≡ some l)
      × ((p.next + 1) % length p.loops < length p.loops)
unfolding get_next_loop
get_next_loop_lem p h =
    let (l, e) = get_elem?-lt p.loops p.next h in
    (l, next_from-some p.loops p l (omega arith) e, e, mod-lt (p.next + 1) (omega arith))

-- next_ is in range, or there are no threads and every connection runs on the base loop.
unfoldable pub IsPool {ℓ} : {L : Type ℓ} → LoopPool L → Type ℓ
IsPool p = (p.loops ≡ []) ⊎ (p.next < length p.loops)

pub get_next_loop-IsPool {ℓ} :
    {L : Type ℓ} (p : LoopPool L)
    → IsPool p
    → (l : L) × (q : LoopPool L) × (get_next_loop p ≡ some (l, q)) × IsPool q
unfolding IsPool get_next_loop
get_next_loop-IsPool p (inl e) = (p.base, p, rw e refl, inl e)
get_next_loop-IsPool p (inr h) =
    let (l, e, g, n) = get_next_loop_lem p h in
    (l, record p { next = (p.next + 1) % length p.loops }, e, inr n)

-- The loops that so many connections get.
pub choices {ℓ} : {L : Type ℓ} → ℕ → LoopPool L → Option (List L)
choices zero p = some []
choices (suc k) p = do (l, q) ← get_next_loop p; ls ← choices k q; some (l ∷ ls)

-- The i-th of a choice and those behind it.
place {ℓ} :
    {L : Type ℓ} (p : LoopPool L)
    → p.next < length p.loops
    → (l : L) (ls : List L) (i : ℕ) {k : ℕ} → get_elem? p.loops p.next ≡ some l
    → (i - 1 < k
        → get_elem? ls (i - 1)
          ≡ get_elem? p.loops (((p.next + 1) % length p.loops + (i - 1)) % length p.loops))
    → i < suc k
    → get_elem? (l ∷ ls) i ≡ get_elem? p.loops ((p.next + i) % length p.loops)
place p h l ls zero g c j =
    let e : (p.next + 0) % length p.loops ≡ p.next =
      ap (λ t. t % length p.loops) (omega arith) ∙ mod-eq_of_lt h in
    rw e (sym g)
place p h l ls (suc i) g c j =
    let e : suc i - 1 ≡ i = omega arith in
    let d = rw e at c in
    let m : ((p.next + 1) % length p.loops + i) % length p.loops
        ≡ (p.next + suc i) % length p.loops =
      mod-add-mod (p.next + 1) (length p.loops) i ∙ ap (λ t. t % length p.loops) (omega arith) in
    d (omega arith) ∙ ap (get_elem? p.loops) m

-- Connections go round the loops: the i-th from now gets the loop i places behind next_, modulo the
-- number of loops.
pub choices_lem {ℓ} :
    {L : Type ℓ} (k : ℕ) (p : LoopPool L)
    → p.next < length p.loops
    → (ls : List L) × (choices k p ≡ some ls)
      × ((i : ℕ) → i < k → get_elem? ls i ≡ get_elem? p.loops ((p.next + i) % length p.loops))
unfolding choices
choices_lem zero p h = ([], refl, λ i l. absurd (omega arith))
choices_lem (suc k) p h =
    let (l, e, g, n) = get_next_loop_lem p h in
    let (ls, r, c) = choices_lem k (record p { next = (p.next + 1) % length p.loops }) n in
    (l ∷ ls, rw (e, r), λ i j. place p h l ls i g (c (i - 1)) j)
