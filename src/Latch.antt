-- ===== src/Latch.antt =====
-- base/count_down_latch.h. A wait up to the point where it blocks, and a countDown with what it
-- wakes, are one step each under the mutex; a thread that is woken tests the count again, and one can
-- wake without a notification. The count is an int that no call takes below its least value.
use reactor_kv.Prelude.{
  ℤ, pos, negsuc, ℕ, zero, suc, ◌≡◌, refl, ap, ◌∙◌, Bool, true, false, Bool-cases, inl, inr,
  if◌then◌else◌, Option, some, List, [], ◌∷◌, get_elem?, set, map, All, arith, replicate, not, ltb,
  subst,
}

abbrev pub positive : ℤ → Bool
positive (pos zero) = false
positive (pos (suc n)) = true
positive (negsuc n) = false

abbrev pub is_zero : ℤ → Bool
is_zero (pos zero) = true
is_zero _ = false

-- --count_
unfoldable pub dec : ℤ → ℤ
dec (pos zero) = negsuc zero
dec (pos (suc n)) = pos n
dec (negsuc n) = negsuc (suc n)

-- Where a thread is with its wait.
pub data Waiter : Type 0 where
  idle waiting woken passed : Waiter

pub record Latch : Type 0 where
  pub count : ℤ
  pub threads : List Waiter

-- while (count_ > 0)
abbrev pub wait_test : ℤ → Waiter
wait_test count = if positive count then waiting else passed

abbrev pub wake : Waiter → Waiter
wake waiting = woken
wake w = w

unfoldable pub count_down : Latch → Latch
unfolding dec
count_down l =
    let count = dec l.count in
    record { count = count; threads = if is_zero count then map wake l.threads else l.threads }

unfoldable pub wait : ℕ → Latch → Latch
wait i l = record l { threads = set l.threads i (wait_test l.count) }

unfoldable pub get_count : Latch → ℤ
get_count l = l.count

-- What happens, in the order in which the threads get the mutex.
pub data Event : Type 0 where
  calls_wait : ℕ → Event
  calls_count_down : Event
  wakes : ℕ → Event

abbrev pub may_call : Option Waiter → Bool
may_call (some idle) = true
may_call _ = false

abbrev pub may_wake : Option Waiter → Bool
may_wake (some waiting) = true
may_wake (some woken) = true
may_wake _ = false

unfoldable pub step : Event → Latch → Latch
unfolding wait count_down
step (calls_wait i) l = if may_call (get_elem? l.threads i) then wait i l else l
step calls_count_down l = count_down l
step (wakes i) l = if may_wake (get_elem? l.threads i) then wait i l else l

unfoldable pub run : List Event → Latch → Latch
unfolding step
run [] l = l
run (e ∷ es) l = run es (step e l)

-- CountDownLatch(count), with threads that have not called it.
abbrev pub new_latch : ℕ → ℕ → Latch
new_latch n threads = record { count = pos n; threads = replicate threads idle }

-- How often countDown was called.
unfoldable pub downs : List Event → ℕ
downs [] = 0
downs (calls_count_down ∷ es) = suc (downs es)
downs (calls_wait i ∷ es) = downs es
downs (wakes i ∷ es) = downs es

-- A thread waits for a notification only while the latch is shut, and has passed it only when not.
abbrev pub placed_by : Bool → Waiter → Bool
placed_by shut waiting = shut
placed_by shut passed = not shut
placed_by shut _ = true

Placed : Latch → Type 0
Placed l = All (λ w. placed_by (positive l.count) w ≡ true) l.threads

All-set :
    (shut : Bool) (ws : List Waiter) (i : ℕ) (v : Waiter)
    → All (λ w. placed_by shut w ≡ true) ws
    → placed_by shut v ≡ true
    → All (λ w. placed_by shut w ≡ true) (set ws i v)
All-set shut [] i v a p = tt
All-set shut (w ∷ ws) zero v a p = (p, a.1)
All-set shut (w ∷ ws) (suc i) v a p = (a.0, All-set shut ws i v a.1 p)

wait_test-placed : (c : ℤ) → placed_by (positive c) (wait_test c) ≡ true
wait_test-placed (pos zero) = refl
wait_test-placed (pos (suc n)) = refl
wait_test-placed (negsuc n) = refl

wait-Placed : (i : ℕ) (l : Latch) → Placed l → Placed (wait i l)
unfolding wait Placed
wait-Placed i l p =
    All-set (positive l.count) l.threads i (wait_test l.count) p (wait_test-placed l.count)

-- Threads that the notification has woken may stand before an open latch.
map-wake-Placed :
    (shut : Bool) (ws : List Waiter)
    → All (λ w. placed_by shut w ≡ true) ws
    → All (λ w. placed_by false w ≡ true) (map wake ws)
map-wake-Placed shut [] a = tt
map-wake-Placed shut (idle ∷ ws) a = (refl, map-wake-Placed shut ws a.1)
map-wake-Placed shut (waiting ∷ ws) a = (refl, map-wake-Placed shut ws a.1)
map-wake-Placed shut (woken ∷ ws) a = (refl, map-wake-Placed shut ws a.1)
map-wake-Placed shut (passed ∷ ws) a = (refl, map-wake-Placed shut ws a.1)

count_down-Placed : (l : Latch) → Placed l → Placed (count_down l)
unfolding count_down Placed
count_down-Placed l p = by_count l.count p
  where
    by_count :
        (c : ℤ)
        → All (λ w. placed_by (positive c) w ≡ true) l.threads
        → All
            (λ w. placed_by (positive (dec c)) w ≡ true)
            (if is_zero (dec c) then map wake l.threads else l.threads)
    by_count (pos zero) p = p
    by_count (pos (suc zero)) p = map-wake-Placed true l.threads p
    by_count (pos (suc (suc n))) p = p
    by_count (negsuc n) p = p

step-Placed : (e : Event) (l : Latch) → Placed l → Placed (step e l)
unfolding step
step-Placed (calls_wait i) l p = elim (Bool-cases (may_call (get_elem? l.threads i))) [
  | inl e ↦ rw (step, e) (wait-Placed i l p)
  | inr e ↦ rw (step, e) p
]
step-Placed calls_count_down l p = count_down-Placed l p
step-Placed (wakes i) l p = elim (Bool-cases (may_wake (get_elem? l.threads i))) [
  | inl e ↦ rw (step, e) (wait-Placed i l p)
  | inr e ↦ rw (step, e) p
]

run-Placed : (es : List Event) (l : Latch) → Placed l → Placed (run es l)
unfolding run
run-Placed [] l p = p
run-Placed (e ∷ es) l p = run-Placed es (step e l) (step-Placed e l p)

decs : ℕ → ℤ → ℤ
decs zero c = c
decs (suc m) c = decs m (dec c)

step-count : (e : Event) (l : Latch) → (step e l).count ≡ decs (downs (e ∷ [])) l.count
unfolding step downs decs
step-count (calls_wait i) l = elim (Bool-cases (may_call (get_elem? l.threads i))) [
  | inl e ↦ rw (step, e) refl
  | inr e ↦ rw (step, e) refl
]
step-count calls_count_down l = refl
step-count (wakes i) l = elim (Bool-cases (may_wake (get_elem? l.threads i))) [
  | inl e ↦ rw (step, e) refl
  | inr e ↦ rw (step, e) refl
]

run-count : (es : List Event) (l : Latch) → (run es l).count ≡ decs (downs es) l.count
unfolding run downs decs
run-count [] l = refl
run-count (calls_wait i ∷ es) l =
    run-count es (step (calls_wait i) l) ∙ ap (decs (downs es)) (step-count (calls_wait i) l)
run-count (calls_count_down ∷ es) l =
    run-count es (step calls_count_down l) ∙ ap (decs (downs es)) (step-count calls_count_down l)
run-count (wakes i ∷ es) l =
    run-count es (step (wakes i) l) ∙ ap (decs (downs es)) (step-count (wakes i) l)

negative-decs : (m n : ℕ) → positive (decs m (negsuc n)) ≡ false
unfolding decs dec
negative-decs zero n = refl
negative-decs (suc m) n = negative-decs m (suc n)

positive-decs : (m n : ℕ) → positive (decs m (pos n)) ≡ ltb m n
unfolding decs dec
positive-decs zero zero = refl
positive-decs zero (suc n) = ground arith
positive-decs (suc m) zero = negative-decs m zero ∙ (ground arith)
positive-decs (suc m) (suc n) = positive-decs m n ∙ (ground arith)

-- Whatever the order of the calls, a thread has passed a latch only after as many calls of countDown
-- as its count, and only before them does one wait for a notification.
pub run-opens :
    (es : List Event) (n threads : ℕ)
    → All (λ w. placed_by (ltb (downs es) n) w ≡ true) (run es (new_latch n threads)).threads
unfolding Placed
run-opens es n threads =
    subst (λ b. All (λ w. placed_by b w ≡ true) (run es (new_latch n threads)).threads)
      (ap positive (run-count es (new_latch n threads)) ∙ positive-decs (downs es) n)
      (run-Placed es (new_latch n threads) (none_called threads))
  where
    none_called : (k : ℕ) → All (λ w. placed_by (positive (pos n)) w ≡ true) (replicate k idle)
    none_called zero = tt
    none_called (suc k) = (refl, none_called k)
