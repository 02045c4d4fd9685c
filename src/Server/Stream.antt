-- ===== src/Server/Stream.antt =====
-- onMessage of server/kv_server.cpp against the lines that have arrived: every complete line is one
-- request, and the bytes behind the last newline wait for the next read.
pub mod Chunks
pub mod Room
use reactor_kv.Prelude.{
  ℕ, zero, suc, ◌+◌, ◌≤◌, ◌<◌, ◌≡◌, ◌≢◌, refl, sym, ap, ◌∙◌, subst, Bool, true, false, Bool-cases,
  inl, inr, Option, none, some, List, [], ◌∷◌, ◌++◌, arith, ltb, ◌==◌, if◌then◌else◌, All, length,
  length-append, ◌>>=◌,
}
use mathlib.Core.Path.{ap₂}
use reactor_kv.Bytes.{Bytes, Without}
use reactor_kv.Message.{CommandType, Request, Response, no_request}
use reactor_kv.Buffer.{Buffer, contents, readable_bytes}
use reactor_kv.Buffer.Laws.{IsBuffer, readable_bytes-length}
use reactor_kv.Codec.{parse_line, parse_request, strip_cr, encode_response}
use reactor_kv.Codec.Frame.{newline, parse_request-line, parse_request-none}
use reactor_kv.SkipList.{Draws}
use reactor_kv.KvStore.{KvStore}
use reactor_kv.KvStore.Crud.{Map, IsStore}
use reactor_kv.Server.{
  Action, send, shutdown, Served, handle_request, message_loop, on_message, is_quit, add_action,
}
use reactor_kv.Server.Requests.{map_handle, handle_request_refines}

-- The complete lines, and the bytes behind the last newline.
unfoldable pub add_byte : ℕ → List Bytes → Bytes → List Bytes × Bytes
add_byte c [] rest = if c == newline then ([] ∷ [], rest) else ([], c ∷ rest)
add_byte c (l ∷ ls) rest = if c == newline then ([] ∷ l ∷ ls, rest) else ((c ∷ l) ∷ ls, rest)

unfoldable pub cut_lines : Bytes → List Bytes × Bytes
cut_lines [] = ([], [])
cut_lines (c ∷ cs) = let r = cut_lines cs in add_byte c r.0 r.1

-- Lines and the bytes behind them, as they arrive.
unfoldable pub stream : List Bytes → Bytes → Bytes
stream [] rest = rest
stream (l ∷ ls) rest = l ++ newline ∷ stream ls rest

-- The request on a line.
abbrev pub request_of : Bytes → Request
request_of l = parse_line (strip_cr (strip_cr l)) no_request

-- What is sent, the bytes that are left, and the map.
pub record Outcome : Type 0 where
  pub actions : List Action
  pub left : Bytes
  pub map : Map

-- One answer for each line up to the first QUIT, which is answered and ends the connection.
unfoldable pub serve_lines : List Bytes → Bytes → Map → Outcome
serve_lines [] rest m = record { actions = []; left = rest; map = m }
serve_lines (l ∷ ls) rest m =
    let r = request_of l in
    let answer = map_handle r.command r.key r.value m in
    let sent = send (encode_response answer.0) in
    let later = serve_lines ls rest answer.1 in
    if is_quit r.command
    then record { actions = sent ∷ shutdown ∷ []; left = stream ls rest; map = answer.1 }
    else record { actions = sent ∷ later.actions; left = later.left; map = later.map }

unfoldable pub serve : Bytes → Map → Outcome
serve bs m = serve_lines (cut_lines bs).0 (cut_lines bs).1 m

-- The loop's result is what the lines ask for.
pub record IsServed (r : Served) (o : Outcome) : Type 0 where
  pub sent : r.actions ≡ o.actions
  pub valid : IsBuffer r.buffer
  pub left : contents r.buffer ≡ o.left
  pub stored : IsStore r.store o.map

pub record IsCut (bs : Bytes) (c : List Bytes × Bytes) : Type 0 where
  pub whole : stream c.0 c.1 ≡ bs
  pub lines : All (Without newline) c.0
  pub rest : Without newline c.1

add_byte-IsCut :
    (c : ℕ) (bs : Bytes) (ls : List Bytes) (rest : Bytes)
    → IsCut bs (ls, rest)
    → IsCut (c ∷ bs) (add_byte c ls rest)
unfolding add_byte stream
add_byte-IsCut c bs [] rest k = elim (Bool-cases (c == newline)) [
  | inl e ↦
      let q : c ≡ newline = ground arith in
      rw e
        (record { whole = ap₂ (λ x xs. x ∷ xs) (sym q) k.whole; lines = (tt, tt); rest = k.rest })
  | inr e ↦
      let q : c ≢ newline = ground arith in
      rw e (record { whole = ap (λ xs. c ∷ xs) k.whole; lines = tt; rest = (q, k.rest) })
]
add_byte-IsCut c bs (l ∷ ls) rest k = elim (Bool-cases (c == newline)) [
  | inl e ↦
      let q : c ≡ newline = ground arith in
      rw e (record {
        whole = ap₂ (λ x xs. x ∷ xs) (sym q) k.whole;
        lines = (tt, k.lines);
        rest = k.rest;
      })
  | inr e ↦
      let q : c ≢ newline = ground arith in
      rw e (record {
        whole = ap (λ xs. c ∷ xs) k.whole;
        lines = ((q, k.lines.0), k.lines.1);
        rest = k.rest;
      })
]

pub cut_lines-IsCut : (bs : Bytes) → IsCut bs (cut_lines bs)
unfolding cut_lines stream
cut_lines-IsCut [] = record { whole = refl; lines = tt; rest = tt }
cut_lines-IsCut (c ∷ cs) =
    add_byte-IsCut c cs (cut_lines cs).0 (cut_lines cs).1 (cut_lines-IsCut cs)

length-stream : (ls : List Bytes) (rest : Bytes) → length ls ≤ length (stream ls rest)
unfolding stream
length-stream [] rest = omega arith
length-stream (l ∷ ls) rest =
    let h = length-stream ls rest in rw (length-append l (newline ∷ stream ls rest)) (omega arith)

message_loop_lem :
    (ls : List Bytes) (rest : Bytes) (fuel : ℕ) (draws : ℕ → Draws) {b : Buffer} {s : KvStore}
    {m : Map}
    → length ls < fuel
    → All (Without newline) ls
    → Without newline rest
    → IsBuffer b
    → contents b ≡ stream ls rest
    → IsStore s m
    → (r : Served) × (message_loop fuel draws b s ≡ some r) × IsServed r (serve_lines ls rest m)
unfolding message_loop serve_lines stream
message_loop_lem ls rest zero draws h a w v c i = absurd (omega arith)
message_loop_lem [] rest (suc fuel) draws {b} {s} {m} h a w v c i =
    let held : IsServed (record { actions = []; buffer = b; store = s }) (serve_lines [] rest m) =
      record { sent = refl; valid = v; left = c; stored = i } in
    (
      record { actions = []; buffer = b; store = s },
      elim (Bool-cases (ltb 0 (readable_bytes b))) [
        | inl e ↦
            rw
              (message_loop, e, parse_request-none no_request b (subst (Without newline) (sym c) w))
        | inr e ↦ rw (message_loop, e)
      ],
      held,
    )
message_loop_lem (l ∷ ls) rest (suc fuel) draws {b} {s} {m} h a w v c i =
    let (b', p, v', c') = parse_request-line l (stream ls rest) no_request v c a.0 in
    let (s', q, i') = handle_request_refines (draws 0) (request_of l) i in
    let n : length (contents b) ≡ length l + suc (length (stream ls rest)) =
      ap length c ∙ length-append l (newline ∷ stream ls rest) in
    let k = readable_bytes-length v in
    let e : ltb 0 (readable_bytes b) ≡ true = ground arith in
    let answer = map_handle (request_of l).command (request_of l).key (request_of l).value m in
    let sent = send (encode_response answer.0) in
    elim (Bool-cases (is_quit (request_of l).command)) [
      | inl f ↦ (
        record { actions = sent ∷ shutdown ∷ []; buffer = b'; store = s' },
        rw (message_loop, e, p, q, f),
        rw f (record { sent = refl; valid = v'; left = c'; stored = i' }),
      )
      | inr f ↦
          let (r, g, t) =
            message_loop_lem ls rest fuel (λ i. draws (i + 1)) (omega arith) a.1 w v' c' i' in
          (
            add_action sent r,
            rw (message_loop, e, p, q, f, g),
            rw f (record {
              sent = ap (λ xs. sent ∷ xs) t.sent;
              valid = t.valid;
              left = t.left;
              stored = t.stored;
            }),
          )
    ]

-- onMessage faults nowhere and ends: it sends one answer for each complete line that has arrived,
-- up to the first QUIT, and leaves the bytes behind them in the buffer.
pub on_message_refines :
    (draws : ℕ → Draws) {b : Buffer} {s : KvStore} {m : Map}
    → IsBuffer b
    → IsStore s m
    → (r : Served) × (on_message draws b s ≡ some r) × IsServed r (serve (contents b) m)
unfolding on_message serve
on_message_refines draws {b} v i =
    let k = cut_lines-IsCut (contents b) in
    let (ls, rest) = cut_lines (contents b) in
    let n = length-stream ls rest in
    let z : length (stream ls rest) ≡ length (contents b) = ap length k.whole in
    let y = readable_bytes-length v in
    message_loop_lem ls rest (readable_bytes b + 1) draws (omega arith) k.lines k.rest v
      (sym k.whole) i
