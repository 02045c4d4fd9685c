-- ===== src/LoopThread/Explored.antt =====
-- net/eventloop_thread.cpp: all the states that the caller and the thread come to.
use reactor_kv.Prelude.{
  ℕ, zero, suc, ◌≡◌, refl, sym, ap, ◌∙◌, subst, Bool, true, false, ◌&&◌, ◌==◌, ==_iff, Bool-cases,
  inl, inr, if◌then◌else◌, Option, none, some, List, [], ◌∷◌, ◌++◌, get_elem?, some_injective,
}
use reactor_kv.LoopThread.{
  Caller, before, entering, testing, waiting, waking, returned, joining, destroyed, Worker, idle,
  starting, locking, setting, notifying, unlocking, unlocked, looping, relocking, clearing, ended,
  Owner, nobody, by_caller, by_worker, State, initial, caller_step, worker_step, Reach, begin,
  by_caller_step, by_worker_step,
}

abbrev pub callers : List Caller
callers = before ∷ entering ∷ testing ∷ waiting ∷ waking ∷ returned ∷ joining ∷ destroyed ∷ []

abbrev pub workers : List Worker
workers =
    idle ∷ starting ∷ locking ∷ setting ∷ notifying ∷ unlocking ∷ unlocked ∷ looping ∷ relocking
    ∷ clearing ∷ ended ∷ []

abbrev owners : List Owner
owners = nobody ∷ by_caller ∷ by_worker ∷ []

unfoldable pub caller_at : Caller → ℕ
caller_at before = 0
caller_at entering = 1
caller_at testing = 2
caller_at waiting = 3
caller_at waking = 4
caller_at returned = 5
caller_at joining = 6
caller_at destroyed = 7

unfoldable pub worker_at : Worker → ℕ
worker_at idle = 0
worker_at starting = 1
worker_at locking = 2
worker_at setting = 3
worker_at notifying = 4
worker_at unlocking = 5
worker_at unlocked = 6
worker_at looping = 7
worker_at relocking = 8
worker_at clearing = 9
worker_at ended = 10

unfoldable pub owner_at : Owner → ℕ
owner_at nobody = 0
owner_at by_caller = 1
owner_at by_worker = 2

pub caller_lem : (c : Caller) → get_elem? callers (caller_at c) ≡ some c
unfolding caller_at
caller_lem before = refl
caller_lem entering = refl
caller_lem testing = refl
caller_lem waiting = refl
caller_lem waking = refl
caller_lem returned = refl
caller_lem joining = refl
caller_lem destroyed = refl

pub worker_lem : (w : Worker) → get_elem? workers (worker_at w) ≡ some w
unfolding worker_at
worker_lem idle = refl
worker_lem starting = refl
worker_lem locking = refl
worker_lem setting = refl
worker_lem notifying = refl
worker_lem unlocking = refl
worker_lem unlocked = refl
worker_lem looping = refl
worker_lem relocking = refl
worker_lem clearing = refl
worker_lem ended = refl

owner_lem : (o : Owner) → get_elem? owners (owner_at o) ≡ some o
unfolding owner_at
owner_lem nobody = refl
owner_lem by_caller = refl
owner_lem by_worker = refl

-- Equal places in a list of all values are equal values.
pub placed {ℓ} :
    {A : Type ℓ} (xs : List A) (at : A → ℕ) (f : (a : A) → get_elem? xs (at a) ≡ some a) (a b : A)
    → (at a == at b) ≡ true
    → a ≡ b
placed xs at f a b e =
    some_injective a b (sym (f a) ∙ ap (get_elem? xs) ((==_iff (at a) (at b)).0 e) ∙ f b)

unfoldable pub flag_at : Bool → ℕ
flag_at true = 1
flag_at false = 0

pub flag_lem : (b : Bool) → get_elem? (false ∷ true ∷ []) (flag_at b) ≡ some b
unfolding flag_at
flag_lem true = refl
flag_lem false = refl

abbrev pub same : State → State → Bool
same s t =
    (caller_at s.caller == caller_at t.caller)
    && (worker_at s.worker == worker_at t.worker)
    && (owner_at s.mutex == owner_at t.mutex)
    && (flag_at s.loop == flag_at t.loop)
    && (flag_at s.quit == flag_at t.quit)

pub and_split : (a b : Bool) → (a && b) ≡ true → (a ≡ true) × (b ≡ true)
and_split true b e = (refl, e)
and_split false b e = cc

and_parts :
    (a b c d e : Bool)
    → (a && b && c && d && e) ≡ true
    → (a ≡ true) × (b ≡ true) × (c ≡ true) × (d ≡ true) × (e ≡ true)
and_parts true true true true e h = (refl, refl, refl, refl, h)
and_parts false b c d e h = cc
and_parts true false c d e h = cc
and_parts true true false d e h = cc
and_parts true true true false e h = cc

same-equal : (s t : State) → same s t ≡ true → s ≡ t
same-equal s t e =
    let (c, w, o, l, q) =
      and_parts (caller_at s.caller == caller_at t.caller)
        (worker_at s.worker == worker_at t.worker) (owner_at s.mutex == owner_at t.mutex)
        (flag_at s.loop == flag_at t.loop) (flag_at s.quit == flag_at t.quit) e in
    let c' = placed callers caller_at caller_lem s.caller t.caller c in
    let w' = placed workers worker_at worker_lem s.worker t.worker w in
    let o' = placed owners owner_at owner_lem s.mutex t.mutex o in
    let l' = placed (false ∷ true ∷ []) flag_at flag_lem s.loop t.loop l in
    let q' = placed (false ∷ true ∷ []) flag_at flag_lem s.quit t.quit q in
    λ i. record { caller = c' i; worker = w' i; mutex = o' i; loop = l' i; quit = q' i }

unfoldable pub known : List State → State → Bool
known [] s = false
known (x ∷ xs) s = let later = known xs s in if same x s then true else later

unfoldable pub every : (State → Bool) → List State → Bool
every P [] = true
every P (x ∷ xs) = P x && every P xs

every-known :
    (P : State → Bool) (xs : List State) (s : State)
    → every P xs ≡ true
    → known xs s ≡ true
    → P s ≡ true
unfolding every known
every-known P [] s e k = cc
every-known P (x ∷ xs) s e k =
    let (p, e') = and_split (P x) (every P xs) e in
    elim (Bool-cases (same x s)) [
      | inl h ↦ subst (λ t. P t ≡ true) (same-equal x s h) p
      | inr h ↦ every-known P xs s e' (rw (known, h) at k)
    ]

unfoldable pub of_step : Option State → List State
of_step none = []
of_step (some t) = t ∷ []

-- The steps from a state.
unfoldable pub steps : State → List State
steps s = of_step (caller_step s) ++ of_step (worker_step s)

-- The states found and those still to look at.
unfoldable pub explore : ℕ → List State → List State → List State
unfolding known steps
explore zero todo found = found
explore (suc fuel) [] found = found
explore (suc fuel) (s ∷ todo) found =
    let old = known found s in
    explore fuel (if old then todo else steps s ++ todo) (if old then found else s ∷ found)

unfoldable pub states : List State
unfolding explore
states = explore 200 (initial ∷ []) []

initial-known : known states initial ≡ true
unfolding states explore known steps initial caller_step worker_step caller_at worker_at owner_at
    flag_at of_step
initial-known = refl

-- A step from a state found is to one.
states-closed : every (λ s. every (known states) (steps s)) states ≡ true
unfolding states explore known steps initial caller_step worker_step caller_at worker_at owner_at
    flag_at every of_step
states-closed = refl

every-append :
    (P : State → Bool) (xs ys : List State)
    → every P (xs ++ ys) ≡ true
    → (every P xs ≡ true) × (every P ys ≡ true)
unfolding every
every-append P [] ys e = (refl, e)
every-append P (x ∷ xs) ys e =
    let (p, e') = and_split (P x) (every P (xs ++ ys)) e in
    let (f, g) = every-append P xs ys e' in (rw (p, f) refl, g)

of_step-known :
    (o : Option State) (t : State)
    → o ≡ some t
    → every (known states) (of_step o) ≡ true
    → known states t ≡ true
unfolding of_step every
of_step-known o t e h =
    (and_split (known states t) true (subst (λ o. every (known states) (of_step o) ≡ true) e h)).0

-- Every state that the two come to is found.
reach-known : {s : State} → Reach s → known states s ≡ true
unfolding steps
reach-known begin = initial-known
reach-known (by_caller_step {s} {t} r e) =
    let c =
      every-known (λ s. every (known states) (steps s)) states s states-closed (reach-known r) in
    of_step-known (caller_step s) t e
      (every-append (known states) (of_step (caller_step s)) (of_step (worker_step s)) c).0
reach-known (by_worker_step {s} {t} r e) =
    let c =
      every-known (λ s. every (known states) (steps s)) states s states-closed (reach-known r) in
    of_step-known (worker_step s) t e
      (every-append (known states) (of_step (caller_step s)) (of_step (worker_step s)) c).1

-- What a test says of every state found, it says of every state that the two come to.
pub every-Reach : (P : State → Bool) → every P states ≡ true → {s : State} → Reach s → P s ≡ true
every-Reach P e {s} r = every-known P states s e (reach-known r)
