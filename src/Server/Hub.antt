-- ===== src/Server/Hub.antt =====
-- server/kv_server.cpp with any number of connections on any number of loops: each has its own input
-- buffer and at most one onMessage at work, and all work on one store. The rounds of their onMessage
-- come in any order, as the threads of the loops get the store's mutex.
pub mod Ends
use reactor_kv.Prelude.{
  ℕ, suc, ◌+◌, ◌<◌, ◌≤◌, ◌^◌, ◌≡◌, refl, sym, ap, ◌∙◌, subst, Bool, true, false, Bool-cases, inl,
  inr, if◌then◌else◌, ◌==◌, Option, some, List, [], ◌∷◌, ◌++◌, length, ◌>>=◌, arith,
}
use reactor_kv.Bytes.{Bytes}
use reactor_kv.Buffer.{Buffer, contents, append}
use reactor_kv.Buffer
use reactor_kv.Buffer.Laws.{IsBuffer, append_refines, append-room, new-IsBuffer}
use reactor_kv.SkipList.{Draws}
use reactor_kv.KvStore.{KvStore}
use reactor_kv.KvStore.Crud.{Map, IsStore}
use reactor_kv.Server.{Action, on_connection}
use reactor_kv.Server.Round.{round, round_refines}
use reactor_kv.Server.Round

-- What the loops' threads do: a connection is up, bytes have come on it and onMessage begins, its
-- onMessage makes a round, or it is down.
pub data Arrival : Type 0 where
  up down turn : ℕ → Arrival
  read : ℕ → Bytes → Arrival

-- `busy` says whether a connection's onMessage is at work.
pub record Hub : Type 0 where
  pub buffer : ℕ → Buffer
  pub busy : ℕ → Bool
  pub store : KvStore

-- Entry i changed.
unfoldable pub put_at {ℓ} : {A : Type ℓ} → ℕ → A → (ℕ → A) → ℕ → A
put_at i v f j = if j == i then v else f j

-- What is sent to the connection.
pub record Sent : Type 0 where
  pub to : ℕ
  pub actions : List Action

abbrev pub nothing_sent : ℕ → Sent
nothing_sent i = record { to = i; actions = [] }

-- A loop's thread is at one place at a time: while a connection's onMessage is at work, it reads no
-- bytes for it, and an idle one makes no round. Such an arrival changes nothing.
unfoldable pub arrive : Draws → Arrival → Hub → Option (Sent × Hub)
unfolding put_at on_connection round
arrive draws (up i) h = some (
  record { to = i; actions = on_connection true },
  record h {
    buffer = put_at i (Buffer.new Buffer.initial_size) h.buffer;
    busy = put_at i false h.busy;
  },
)
arrive draws (down i) h = some (record { to = i; actions = on_connection false }, h)
arrive draws (read i bs) h =
    let begun = record h {
      buffer = put_at i (append bs (h.buffer i)) h.buffer;
      busy = put_at i true h.busy;
    } in
    some (nothing_sent i, if h.busy i then h else begun)
arrive draws (turn i) h = elim (h.busy i) [
  | false ↦ some (nothing_sent i, h)
  | true ↦ do
    r ← round draws (h.buffer i) h.store
    some (
      record { to = i; actions = r.actions },
      record {
        buffer = put_at i r.buffer h.buffer;
        busy = put_at i r.again h.busy;
        store = r.store;
      },
    )
]

unfoldable pub arrive_all : (ℕ → Draws) → List Arrival → Hub → Option (List Sent × Hub)
unfolding arrive
arrive_all draws [] h = some ([], h)
arrive_all draws (a ∷ xs) h = do
  (sent, h') ← arrive (draws 0) a h
  (later, h'') ← arrive_all (λ i. draws (suc i)) xs h'
  some (sent ∷ later, h'')

-- The bytes that each connection still has to serve, whether it is at that, and the map.
pub record Desk : Type 0 where
  pub left : ℕ → Bytes
  pub busy : ℕ → Bool
  pub map : Map

-- A round answers the connection's next complete line from the map as it is then, if there is one.
unfoldable pub map_arrive : Arrival → Desk → Sent × Desk
unfolding put_at on_connection Round.turn
map_arrive (up i) d = (
  record { to = i; actions = on_connection true },
  record d { left = put_at i [] d.left; busy = put_at i false d.busy },
)
map_arrive (down i) d = (record { to = i; actions = on_connection false }, d)
map_arrive (read i bs) d =
    let begun = record d { left = put_at i (d.left i ++ bs) d.left; busy = put_at i true d.busy } in
    (nothing_sent i, if d.busy i then d else begun)
map_arrive (turn i) d =
    let o = Round.turn (d.left i) d.map in
    let done : Sent × Desk = (
      record { to = i; actions = o.actions },
      record { left = put_at i o.left d.left; busy = put_at i o.again d.busy; map = o.map },
    ) in
    if d.busy i then done else (nothing_sent i, d)

unfoldable pub map_arrive_all : List Arrival → Desk → List Sent × Desk
unfolding map_arrive
map_arrive_all [] d = ([], d)
map_arrive_all (a ∷ xs) d =
    let r = map_arrive a d in let later = map_arrive_all xs r.1 in (r.0 ∷ later.0, later.1)

-- Each buffer holds what waits, and has room for `n` bytes more; the store stands for the map.
pub record IsHub (n : ℕ) (h : Hub) (d : Desk) : Type 0 where
  pub valid : (i : ℕ) → IsBuffer (h.buffer i)
  pub held : (i : ℕ) → contents (h.buffer i) ≡ d.left i
  pub busy : (i : ℕ) → h.busy i ≡ d.busy i
  pub room : (i : ℕ) → length (h.buffer i).store + n < 2 ^ 63
  pub fits : length (Buffer.new Buffer.initial_size).store + n < 2 ^ 63
  pub stored : IsStore h.store d.map

-- The bytes that arrive.
unfoldable pub weight : Arrival → ℕ
weight (read i bs) = length bs
weight _ = 0

unfoldable pub weights : List Arrival → ℕ
unfolding weight
weights [] = 0
weights (a ∷ xs) = weight a + weights xs

put_at-case {ℓ κ} :
    {A : Type ℓ} (P : ℕ → A → Type κ) (i : ℕ) (v : A) (f : ℕ → A)
    → P i v
    → ((j : ℕ) → P j (f j))
    → (j : ℕ) → P j (put_at i v f j)
unfolding put_at
put_at-case P i v f p q j = elim (Bool-cases (j == i)) [
  | inl e ↦ let z : j ≡ i = ground arith in rw e (subst (λ t. P t v) (sym z) p)
  | inr e ↦ rw e (q j)
]

put_at-both {ℓ κ μ} :
    {A : Type ℓ} {B : Type κ} (P : A → B → Type μ) (i : ℕ) (v : A) (w : B) (f : ℕ → A) (g : ℕ → B)
    → P v w
    → ((j : ℕ) → P (f j) (g j))
    → (j : ℕ) → P (put_at i v f j) (put_at i w g j)
unfolding put_at
put_at-both P i v w f g p q j = elim (Bool-cases (j == i)) [ inl e ↦ rw e p | inr e ↦ rw e (q j) ]

-- One arrival, with what is sent and what is left.
record IsArrived (n : ℕ) (o : Option (Sent × Hub)) (r : Sent × Desk) : Type 0 where
  hub : Hub
  same : o ≡ some (r.0, hub)
  valid : IsHub n hub r.1

pub IsHub-less : {h : Hub} {d : Desk} {n : ℕ} (m : ℕ) → m ≤ n → IsHub n h d → IsHub m h d
IsHub-less m l v = record {
  valid = v.valid;
  held = v.held;
  busy = v.busy;
  room = λ j. let z = v.room j in omega arith;
  fits = (let z = v.fits in omega arith);
  stored = v.stored;
}

-- An arrival that changes nothing.
idle_lem :
    {h : Hub} {d : Desk} {n : ℕ} (m : ℕ) (r : Sent)
    → m ≤ n
    → IsHub n h d
    → IsArrived m (some (r, h)) (r, d)
idle_lem {h} {d} m r l v = record { hub = h; same = refl; valid = IsHub-less m l v }

-- Connection i changed, in the room that it had.
IsHub-put_at :
    {h : Hub} {d : Desk} {b : Buffer} {left : Bytes} {s : KvStore} {m : Map} (i n k : ℕ)
    (again again' : Bool)
    → IsHub (k + n) h d
    → IsBuffer b
    → contents b ≡ left
    → again ≡ again'
    → length b.store + n < 2 ^ 63
    → IsStore s m
    → IsHub n
        (record { buffer = put_at i b h.buffer; busy = put_at i again h.busy; store = s })
        (record { left = put_at i left d.left; busy = put_at i again' d.busy; map = m })
IsHub-put_at {h} {d} {b} {left} {s} i n k again again' v vb c a l st = record {
  valid = put_at-case (λ j b. IsBuffer b) i b h.buffer vb v.valid;
  held = put_at-both (λ b t. contents b ≡ t) i b left h.buffer d.left c v.held;
  busy = put_at-both (λ x y. x ≡ y) i again again' h.busy d.busy a v.busy;
  room =
      put_at-case (λ j b. length b.store + n < 2 ^ 63) i b h.buffer l
        (λ j. let z = v.room j in omega arith);
  fits = (let z = v.fits in omega arith);
  stored = st;
}

read_lem :
    (draws : Draws) (i : ℕ) (bs : Bytes) (n : ℕ) {h : Hub} {d : Desk}
    → IsHub (length bs + n) h d
    → IsArrived n (arrive draws (read i bs) h) (map_arrive (read i bs) d)
unfolding arrive map_arrive
read_lem draws i bs n {h} {d} v =
    let e = v.busy i in
    let small : length (h.buffer i).store + length bs < 2 ^ 63 =
      (let z = v.room i in omega arith) in
    let (b, c) = append_refines bs (v.valid i) small in
    let l = append-room bs (v.valid i) small in
    elim (Bool-cases (d.busy i)) [
      | inl f ↦ rw (e, f) (idle_lem n (nothing_sent i) (omega arith) v)
      | inr f ↦
          rw (e, f)
            (record {
              hub = record h {
                buffer = put_at i (append bs (h.buffer i)) h.buffer;
                busy = put_at i true h.busy;
              };
              same = refl;
              valid =
                  IsHub-put_at i n (length bs) true true v b (c ∙ ap (λ t. t ++ bs) (v.held i)) refl
                    (let z = v.room i in omega arith) v.stored;
            })
    ]

turn_lem :
    (draws : Draws) (i n : ℕ) {h : Hub} {d : Desk}
    → IsHub (0 + n) h d
    → IsArrived n (arrive draws (turn i) h) (map_arrive (turn i) d)
unfolding arrive map_arrive
turn_lem draws i n {h} {d} v =
    let e = v.busy i in
    let (r, g, s) = round_refines draws (v.valid i) v.stored in
    let q = ap (λ t. Round.turn t d.map) (v.held i) in
    elim (Bool-cases (d.busy i)) [
      | inr f ↦ rw (arrive, e, f) (idle_lem n (nothing_sent i) (omega arith) v)
      | inl f ↦
          let hub : Hub = record {
            buffer = put_at i r.buffer h.buffer;
            busy = put_at i r.again h.busy;
            store = r.store;
          } in
          rw (arrive, e, f, g)
            (record {
              hub = hub;
              same =
                  ap (λ t. some (record { to = i; actions = t }, hub))
                    (s.sent ∙ ap (λ o. o.actions) q);
              valid =
                  IsHub-put_at i n 0 r.again (Round.turn (d.left i) d.map).again v s.valid
                    (s.left ∙ ap (λ o. o.left) q) (s.again ∙ ap (λ o. o.again) q)
                    (let z = v.room i in let y = ap length s.room in omega arith)
                    (subst (IsStore r.store) (ap (λ o. o.map) q) s.stored);
            })
    ]

arrive_lem :
    (draws : Draws) (a : Arrival) (n : ℕ) {h : Hub} {d : Desk}
    → IsHub (weight a + n) h d
    → IsArrived n (arrive draws a h) (map_arrive a d)
unfolding arrive map_arrive weight
arrive_lem draws (down i) n v = idle_lem n _ (omega arith) v
arrive_lem draws (turn i) n v = turn_lem draws i n v
arrive_lem draws (read i bs) n v = read_lem draws i bs n v
arrive_lem draws (up i) n {h} {d} v =
    let (b, c) = new-IsBuffer Buffer.initial_size (omega arith) in
    record {
      hub = record h {
        buffer = put_at i (Buffer.new Buffer.initial_size) h.buffer;
        busy = put_at i false h.busy;
      };
      same = refl;
      valid = IsHub-put_at i n 0 false false v b c refl (let z = v.fits in omega arith) v.stored;
    }

-- With any number of connections on any number of threads, whose bytes are cut in any way and whose
-- requests come to the store in any order: the server faults nowhere, and each round of a connection's
-- onMessage sends the answer to that connection's next complete line, if there is one, from one map
-- that all the requests change in the order in which they come to the store.
pub arrive_all_refines :
    (draws : ℕ → Draws) (xs : List Arrival) (n : ℕ) {h : Hub} {d : Desk}
    → IsHub (weights xs + n) h d
    → (h' : Hub) × (arrive_all draws xs h ≡ some ((map_arrive_all xs d).0, h'))
      × IsHub n h' (map_arrive_all xs d).1
unfolding arrive_all map_arrive_all weights
arrive_all_refines draws [] n {h} {d} v = (h, refl, IsHub-less n (omega arith) v)
arrive_all_refines draws (a ∷ xs) n {h} {d} v =
    let k =
      arrive_lem (draws 0) a (weights xs + n)
        (IsHub-less (weight a + (weights xs + n)) (omega arith) v) in
    let (h', e, w) = arrive_all_refines (λ i. draws (suc i)) xs n k.valid in
    (h', rw (arrive_all, k.same, e) refl, w)
