-- ===== src/Server/Round.antt =====
-- One round of the loop of onMessage (server/kv_server.cpp). It makes at most one call of the store,
-- whose mutex makes that call one step; the buffer belongs to the connection's own loop. So the onMessage
-- of several loops' threads come to rounds in some order.
use reactor_kv.Prelude.{
  ℕ, suc, ◌+◌, ◌<◌, ◌≡◌, refl, sym, ap, ◌∙◌, subst, Bool, true, false, not, Bool-cases, inl, inr,
  Option, Option-cases, none, some, List, [], ◌∷◌, ◌++◌, ltb, if◌then◌else◌, length, length-append,
  arith, All, ◌>>=◌,
}
use reactor_kv.Bytes.{Bytes, Without}
use reactor_kv.Message.{no_request}
use reactor_kv.Buffer.{Buffer, contents, readable_bytes}
use reactor_kv.Buffer.Laws.{IsBuffer, readable_bytes-length}
use reactor_kv.Codec.{parse_request, encode_response}
use reactor_kv.Codec.Frame.{newline, parse_request-line, parse_request-none}
use reactor_kv.SkipList.{Draws}
use reactor_kv.KvStore.{KvStore}
use reactor_kv.KvStore.Crud.{Map, IsStore}
use reactor_kv.Server.{Action, send, shutdown, Served, handle_request, message_loop, is_quit}
use reactor_kv.Server.Requests.{map_handle, handle_request_refines}
use reactor_kv.Server.Stream.{cut_lines, cut_lines-IsCut, stream, request_of}
use reactor_kv.Server.Stream.Room.{parse_request-store}

-- What is sent, what is left, and whether the loop goes on.
pub record Round : Type 0 where
  pub actions : List Action
  pub buffer : Buffer
  pub store : KvStore
  pub again : Bool

abbrev stop : Buffer → KvStore → Round
stop b s = record { actions = []; buffer = b; store = s; again = false }

abbrev answered : Bool → Action → Buffer → KvStore → Round
answered quit sent b s =
    if quit
    then record { actions = sent ∷ shutdown ∷ []; buffer = b; store = s; again = false }
    else record { actions = sent ∷ []; buffer = b; store = s; again = true }

unfoldable pub round : Draws → Buffer → KvStore → Option Round
round draws b s = elim (ltb 0 (readable_bytes b)) [
  | false ↦ some (stop b s)
  | true ↦ elim (parse_request b no_request) [
    | none ↦ some (stop b s)
    | some (request, b') ↦ do
      (response, s') ← handle_request draws request s
      some (answered (is_quit request.command) (send (encode_response response)) b' s')
  ]
]

-- The rest of the loop behind a round.
unfoldable pub after_round : ℕ → (ℕ → Draws) → Round → Option Served
unfolding message_loop
after_round fuel draws r =
    let stopped : Served = record { actions = r.actions; buffer = r.buffer; store = r.store } in
    elim r.again [
      | false ↦ some stopped
      | true ↦ do
        rest ← message_loop fuel draws r.buffer r.store
        some (record rest { actions = r.actions ++ rest.actions })
    ]

-- onMessage is its rounds, one behind the other.
pub message_loop-round :
    (fuel : ℕ) (draws : ℕ → Draws) (b : Buffer) (s : KvStore)
    → message_loop (suc fuel) draws b s
      ≡ (do r ← round (draws 0) b s; after_round fuel (λ i. draws (i + 1)) r)
unfolding message_loop round after_round
message_loop-round fuel draws b s = elim (Bool-cases (ltb 0 (readable_bytes b))) [
  | inr t ↦ rw (message_loop, round, t) refl
  | inl t ↦ elim (Option-cases (parse_request b no_request)) [
    | inl p ↦ rw (message_loop, round, t, p) refl
    | inr ((q, b'), p) ↦ elim (Option-cases (handle_request (draws 0) q s)) [
      | inl h ↦ rw (message_loop, round, t, p, h) refl
      | inr ((a, s'), h) ↦ elim (Bool-cases (is_quit q.command)) [
        | inl z ↦ rw (message_loop, round, t, p, h, z) refl
        | inr z ↦ rw (message_loop, round, t, p, h, z) refl
      ]
    ]
  ]
]

-- The answer to the next complete line, if there is one, the bytes behind it, and the map.
pub record Turned : Type 0 where
  pub actions : List Action
  pub left : Bytes
  pub map : Map
  pub again : Bool

unfoldable pub turn_lines : List Bytes → Bytes → Map → Turned
turn_lines [] rest m = record { actions = []; left = rest; map = m; again = false }
turn_lines (l ∷ ls) rest m =
    let r = request_of l in
    let answer = map_handle r.command r.key r.value m in
    let sent = send (encode_response answer.0) in
    record {
      actions = if is_quit r.command then sent ∷ shutdown ∷ [] else sent ∷ [];
      left = stream ls rest;
      map = answer.1;
      again = not (is_quit r.command);
    }

unfoldable pub turn : Bytes → Map → Turned
turn bs m = turn_lines (cut_lines bs).0 (cut_lines bs).1 m

pub record IsRound (b : Buffer) (r : Round) (o : Turned) : Type 0 where
  pub sent : r.actions ≡ o.actions
  pub valid : IsBuffer r.buffer
  pub left : contents r.buffer ≡ o.left
  pub again : r.again ≡ o.again
  pub room : r.buffer.store ≡ b.store
  pub stored : IsStore r.store o.map

round_lem :
    (ls : List Bytes) (rest : Bytes) (draws : Draws) {b : Buffer} {s : KvStore} {m : Map}
    → All (Without newline) ls
    → Without newline rest
    → IsBuffer b
    → contents b ≡ stream ls rest
    → IsStore s m
    → (r : Round) × (round draws b s ≡ some r) × IsRound b r (turn_lines ls rest m)
unfolding round turn_lines stream
round_lem [] rest draws {b} {s} a w v c i = (
  stop b s,
  elim (Bool-cases (ltb 0 (readable_bytes b))) [
    | inl e ↦ rw (round, e, parse_request-none no_request b (subst (Without newline) (sym c) w))
    | inr e ↦ rw (round, e)
  ],
  record { sent = refl; valid = v; left = c; again = refl; room = refl; stored = i },
)
round_lem (l ∷ ls) rest draws {b} {s} {m} a w v c i =
    let (b', p, v', c') = parse_request-line l (stream ls rest) no_request v c a.0 in
    let (s', q, i') = handle_request_refines draws (request_of l) i in
    let n : length (contents b) ≡ length l + suc (length (stream ls rest)) =
      ap length c ∙ length-append l (newline ∷ stream ls rest) in
    let k = readable_bytes-length v in
    let e : ltb 0 (readable_bytes b) ≡ true = ground arith in
    let same = parse_request-store no_request b (request_of l, b') p in
    let answer = map_handle (request_of l).command (request_of l).key (request_of l).value m in
    let sent = send (encode_response answer.0) in
    elim (Bool-cases (is_quit (request_of l).command)) [
      | inl f ↦ (
        record { actions = sent ∷ shutdown ∷ []; buffer = b'; store = s'; again = false },
        rw (round, e, p, q, f),
        rw f
            (record { sent = refl; valid = v'; left = c'; again = refl; room = same; stored = i' }),
      )
      | inr f ↦ (
        record { actions = sent ∷ []; buffer = b'; store = s'; again = true },
        rw (round, e, p, q, f),
        rw f
            (record { sent = refl; valid = v'; left = c'; again = refl; room = same; stored = i' }),
      )
    ]

-- A round faults nowhere: it answers the next complete line from the map.
pub round_refines :
    (draws : Draws) {b : Buffer} {s : KvStore} {m : Map}
    → IsBuffer b
    → IsStore s m
    → (r : Round) × (round draws b s ≡ some r) × IsRound b r (turn (contents b) m)
unfolding turn
round_refines draws {b} v i =
    let k = cut_lines-IsCut (contents b) in
    let (ls, rest) = cut_lines (contents b) in
    round_lem ls rest draws k.lines k.rest v (sym k.whole) i

turn_lines-shorter :
    (ls : List Bytes) (rest : Bytes) (m : Map)
    → (turn_lines ls rest m).again ≡ true
    → length (turn_lines ls rest m).left < length (stream ls rest)
unfolding turn_lines stream
turn_lines-shorter [] rest m e = cc
turn_lines-shorter (l ∷ ls) rest m e =
    let n = length-append l (newline ∷ stream ls rest) in omega arith

-- A round behind which the loop goes on has taken bytes out of the buffer.
pub turn-shorter :
    (bs : Bytes) (m : Map) → (turn bs m).again ≡ true → length (turn bs m).left < length bs
unfolding turn
turn-shorter bs m e =
    let (ls, rest) = cut_lines bs in
    let k = cut_lines-IsCut bs in
    subst (λ t. length (turn_lines ls rest m).left < length t) k.whole
      (turn_lines-shorter ls rest m e)
