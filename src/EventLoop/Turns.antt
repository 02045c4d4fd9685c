-- ===== src/EventLoop/Turns.antt =====
-- loop of net/eventloop.cpp with other threads that call queueInLoop and quit meanwhile. A push and
-- the wake-up behind it are two steps, as are the test of quit_, poll, each event, the swap of the
-- functors and each functor.
use reactor_kv.Prelude.{
  ℕ, suc, ◌+◌, ◌<◌, ◌≡◌, ◌⊎◌, inl, inr, refl, sym, ap, ◌∙◌, Bool, true, false, Bool-cases, List, [],
  ◌∷◌, ◌++◌, length, arith, append_assoc, ltb→lt, append-nil, ltb, length-append,
}
use reactor_kv.EventLoop.{Loop, wakeup, handle_read, queue_in_loop, queue_all, queue_all_lem, quit}

-- Where the loop's thread is: before loop(), before the test of quit_, in poll, with the events that poll returned,
-- with functors still to run, or behind the loop.
pub data Place {ℓ} (F : Type ℓ) : Type ℓ where
  entering test polling handling ended : Place F
  running : List F → Place F

-- The loop, the other threads between their push, or their change of quit_, and their wake-up, whether
-- another thread has called quit since loop() began, and the functors queued and run so far.
pub record Turn {ℓ} (F : Type ℓ) : Type ℓ where
  pub place : Place F
  pub loop : Loop F
  pub wakers : ℕ
  pub asked : Bool
  pub pushed : List F
  pub done : List F

abbrev pub begin_loop {ℓ} : {F : Type ℓ} → Turn F
begin_loop = record {
  place = entering;
  loop = record { pending = []; calling = false; quit = false; wakeups = 0 };
  wakers = 0;
  asked = false;
  pushed = [];
  done = [];
}

-- loop() begins with quit_ = false, which undoes an earlier quit. The loop's own thread queues functors
-- from events and functors only; its quit, also in a signal's handler, wakes nobody.
pub data Step {ℓ} {F : Type ℓ} (t : Turn F) : Turn F → Type ℓ where
  enters :
      t.place ≡ entering
      → Step t (record t { place = test; loop = record t.loop { quit = false }; asked = false })
  self_quits : Step t (record t { loop = quit true t.loop })
  polls : t.place ≡ test → t.loop.quit ≡ false → Step t (record t { place = polling })
  ends : t.place ≡ test → t.loop.quit ≡ true → Step t (record t { place = ended })
  returns : t.place ≡ polling → Step t (record t { place = handling })
  reads_wakeups : t.place ≡ handling → Step t (record t { loop = handle_read t.loop })
  event_queues :
      (f : F)
      → t.place ≡ handling
      → Step t (record t { loop = queue_in_loop true f t.loop; pushed = t.pushed ++ f ∷ [] })
  swaps :
      t.place ≡ handling
      → Step t (record t {
        place = running t.loop.pending;
        loop = record t.loop { pending = []; calling = true };
      })
  runs :
      (f : F) (fs calls : List F)
      → t.place ≡ running (f ∷ fs)
      → Step t (record t {
        place = running fs;
        loop = queue_all (λ _. []) calls t.loop;
        pushed = t.pushed ++ calls;
        done = t.done ++ f ∷ [];
      })
  has_run :
      t.place ≡ running []
      → Step t (record t { place = test; loop = record t.loop { calling = false } })
  other_queues :
      (f : F)
      → Step t (record t {
        loop = record t.loop { pending = t.loop.pending ++ f ∷ [] };
        pushed = t.pushed ++ f ∷ [];
        wakers = t.wakers + 1;
      })
  other_quits : Step t (record t { loop = quit true t.loop; wakers = t.wakers + 1; asked = true })
  other_wakes : (n : ℕ) → t.wakers ≡ suc n → Step t (record t { loop = wakeup t.loop; wakers = n })

pub data Reach {ℓ} {F : Type ℓ} : Turn F → Type ℓ where
  start : Reach begin_loop
  later : {t u : Turn F} → Reach t → Step t u → Reach u

-- The functors of the batch still to run.
abbrev pub batch {ℓ} : {F : Type ℓ} → Place F → List F
batch (running fs) = fs
batch _ = []

-- Places from which poll may come before the waiting functors are taken.
abbrev pub before_poll {ℓ} : {F : Type ℓ} → Place F → Bool
before_poll handling = false
before_poll ended = false
before_poll _ = true

abbrev pub is_polling {ℓ} : {F : Type ℓ} → Place F → Bool
is_polling polling = true
is_polling _ = false

module _ {ℓ} {F : Type ℓ} where
  abbrev is_running : Place F → Bool
  is_running (running fs) = true
  is_running _ = false

  record Inv (t : Turn F) : Type ℓ where
    calls : t.loop.calling ≡ is_running t.place
    order : t.done ++ (batch t.place ++ t.loop.pending) ≡ t.pushed
    woken : before_poll t.place ≡ true → 0 < length t.loop.pending → 0 < t.loop.wakeups + t.wakers
    quits : is_polling t.place ≡ true → t.asked ≡ true → 0 < t.loop.wakeups + t.wakers
    kept : t.asked ≡ true → t.loop.quit ≡ true

  push-order : (d b p q cs : List F) → d ++ (b ++ p) ≡ q → d ++ (b ++ (p ++ cs)) ≡ q ++ cs
  push-order d b p q cs e =
      ap (λ t. d ++ t) (sym (append_assoc b p cs))
      ∙ sym (append_assoc d (b ++ p) cs)
      ∙ ap (λ t. t ++ cs) e

  Step-Inv : {t u : Turn F} → Inv t → Step t u → Inv u
  unfolding wakeup handle_read quit queue_in_loop
  Step-Inv {t} v (enters p) = record {
    calls = v.calls ∙ ap is_running p;
    order = ap (λ x. t.done ++ (batch x ++ t.loop.pending)) (sym p) ∙ v.order;
    woken = λ b h. v.woken (ap before_poll p) h;
    quits = λ b h. cc b;
    kept = λ h. cc h;
  }
  Step-Inv {t} v self_quits = record {
    calls = v.calls;
    order = v.order;
    woken = v.woken;
    quits = v.quits;
    kept = λ h. refl;
  }
  Step-Inv {t} v (polls p q) = record {
    calls = v.calls ∙ ap is_running p;
    order = ap (λ x. t.done ++ (batch x ++ t.loop.pending)) (sym p) ∙ v.order;
    woken = λ b h. v.woken (ap before_poll p) h;
    quits = λ b h. cc (q, v.kept h);
    kept = v.kept;
  }
  Step-Inv {t} v (ends p q) = record {
    calls = v.calls ∙ ap is_running p;
    order = ap (λ x. t.done ++ (batch x ++ t.loop.pending)) (sym p) ∙ v.order;
    woken = λ b h. cc b;
    quits = λ b h. cc b;
    kept = v.kept;
  }
  Step-Inv {t} v (returns p) = record {
    calls = v.calls ∙ ap is_running p;
    order = ap (λ x. t.done ++ (batch x ++ t.loop.pending)) (sym p) ∙ v.order;
    woken = λ b h. cc b;
    quits = λ b h. cc b;
    kept = v.kept;
  }
  Step-Inv {t} v (reads_wakeups p) = record {
    calls = v.calls;
    order = v.order;
    woken = λ b h. cc (ap before_poll p, b);
    quits = λ b h. cc (ap is_polling p, b);
    kept = v.kept;
  }
  Step-Inv {t} v (event_queues f p) =
      let c : t.loop.calling ≡ false = v.calls ∙ ap is_running p in
      let e : queue_in_loop true f t.loop ≡ record t.loop { pending = t.loop.pending ++ f ∷ [] } =
        rw (queue_in_loop, c) refl in
      record {
        calls = ap (λ l. l.calling) e ∙ v.calls;
        order =
            ap (λ l. t.done ++ (batch t.place ++ l.pending)) e
            ∙ push-order t.done (batch t.place) t.loop.pending t.pushed (f ∷ []) v.order;
        woken = λ b h. cc (ap before_poll p, b);
        quits = λ b h. cc (ap is_polling p, b);
        kept = λ h. ap (λ l. l.quit) e ∙ v.kept h;
      }
  Step-Inv {t} v (swaps p) = record {
    calls = refl;
    order =
        ap (λ x. t.done ++ x) (append-nil t.loop.pending)
        ∙ ap (λ x. t.done ++ (batch x ++ t.loop.pending)) (sym p)
        ∙ v.order;
    woken = λ b h. absurd (omega arith);
    quits = λ b h. cc b;
    kept = v.kept;
  }
  Step-Inv {t} v (runs f fs calls p) =
      let g = queue_all_lem (λ _. []) calls t.loop (v.calls ∙ ap is_running p) in
      let l = ap length g.pending ∙ length-append t.loop.pending calls in
      record {
        calls = g.calling;
        order =
            append_assoc t.done (f ∷ []) (fs ++ (queue_all (λ _. []) calls t.loop).pending)
            ∙ ap (λ x. t.done ++ (f ∷ fs ++ x)) g.pending
            ∙ push-order t.done (f ∷ fs) t.loop.pending t.pushed calls
                (ap (λ x. t.done ++ (batch x ++ t.loop.pending)) (sym p) ∙ v.order);
        woken = λ b h. elim (Bool-cases (ltb 0 (length calls))) [
          | inl n ↦ let w = g.wakeups in let k = ltb→lt _ _ n in omega arith
          | inr n ↦
              let w = g.wakeups in
              let z : length calls ≡ 0 = ground arith in
              let k = v.woken (ap before_poll p) (omega arith) in omega arith
        ];
        quits = λ b h. cc b;
        kept = λ h. g.quit ∙ v.kept h;
      }
  Step-Inv {t} v (has_run p) = record {
    calls = refl;
    order = ap (λ x. t.done ++ (batch x ++ t.loop.pending)) (sym p) ∙ v.order;
    woken = λ b h. v.woken (ap before_poll p) h;
    quits = λ b h. cc b;
    kept = v.kept;
  }
  Step-Inv {t} v (other_queues f) = record {
    calls = v.calls;
    order = push-order t.done (batch t.place) t.loop.pending t.pushed (f ∷ []) v.order;
    woken = λ b h. omega arith;
    quits = λ b h. omega arith;
    kept = v.kept;
  }
  Step-Inv {t} v other_quits = record {
    calls = v.calls;
    order = v.order;
    woken = λ b h. omega arith;
    quits = λ b h. omega arith;
    kept = λ h. refl;
  }
  Step-Inv {t} v (other_wakes n e) = record {
    calls = v.calls;
    order = v.order;
    woken = λ b h. omega arith;
    quits = λ b h. omega arith;
    kept = v.kept;
  }

  Reach-Inv : {t : Turn F} → Reach t → Inv t
  Reach-Inv start = record {
    calls = refl;
    order = refl;
    woken = λ b h. absurd (omega arith);
    quits = λ b h. cc h;
    kept = λ h. cc h;
  }
  Reach-Inv (later r s) = Step-Inv (Reach-Inv r) s

  -- The loop never sleeps on work: while it is in poll and a functor waits, or another thread has
  -- called quit since loop() began, its wake-up descriptor can be read, or another thread is about to
  -- write to it. The loop's own thread queues from events and functors only.
  pub polling-woken :
      (t : Turn F)
      → Reach t
      → t.place ≡ polling
      → (0 < length t.loop.pending) ⊎ (t.asked ≡ true)
      → 0 < t.loop.wakeups + t.wakers
  polling-woken t r p (inl h) = (Reach-Inv r).woken (ap before_poll p) h
  polling-woken t r p (inr q) = (Reach-Inv r).quits (ap is_polling p) q

  -- Functors run in the order in which they were queued, from whatever thread, and none is lost: those
  -- that have run, then those of the batch, then those that wait.
  pub Reach-order : (t : Turn F) → Reach t → t.done ++ (batch t.place ++ t.loop.pending) ≡ t.pushed
  Reach-order t r = (Reach-Inv r).order
