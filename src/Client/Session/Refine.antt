-- ===== src/Client/Session/Refine.antt =====
-- Any sequence of calls of client/kvclient.cpp on a connection to server/kv_server.cpp, against a map.
use reactor_kv.Prelude.{
  ℕ, suc, ◌+◌, ◌<◌, ◌≤◌, ◌^◌, ◌≡◌, refl, sym, ap, ◌∙◌, subst, true, false, some, List, [], ◌∷◌,
  ◌++◌, length, All, arith, append-nil,
}
use reactor_kv.Bytes.{bytes_order}
use reactor_kv.Message.{Response}
use reactor_kv.Buffer.{contents, append}
use reactor_kv.Buffer.Laws.{IsBuffer, append_refines, append-room}
use reactor_kv.Codec.{encode_response}
use reactor_kv.SkipList.{Draws}
use reactor_kv.KvStore.Crud.{Map, IsStore}
use reactor_kv.Server.{send, is_quit}
use reactor_kv.Server.Requests.{map_handle}
use reactor_kv.Server.Stream.{cut_lines, serve_lines, serve, on_message_refines}
use reactor_kv.Server.Stream.Chunks.{cut_lines-line}
use reactor_kv.Server.Stream.Room.{on_message-store}
use reactor_kv.Client.Commands.{
  Call, command, request, IsSendable, line, command-line, line-Without, request_of-line,
}
use reactor_kv.Client.Session.{call, map_call, answers, World, round, session, map_session}
use reactor_kv.Client.Session.Asked.{call-Answered}
use reactor_kv.Client.Session.Carried.{IsCarried, IsShort, call-values, call-length, call-map}

-- A connection in use: nothing waits in the buffer, and the store stands for the map.
pub record IsWorld (w : World) (m : Map) : Type 0 where
  pub connected : w.client.connected ≡ true
  pub valid : IsBuffer w.buffer
  pub idle : contents w.buffer ≡ []
  pub stored : IsStore w.store m
  pub values : All (λ p. IsCarried p.1) m

-- The protocol's answer to a call.
abbrev answer_to : Call → Map → Response
answer_to k m = (map_handle (request k).command (request k).key (request k).value m).0

-- What one command line is served with.
serve-line :
    (k : Call) (m : Map)
    → IsSendable k
    → serve (command k) m ≡ record {
      actions = send (encode_response (answer_to k m)) ∷ [];
      left = [];
      map = (map_call k m).1;
    }
unfolding serve serve_lines request cut_lines
serve-line k m s =
    ap (λ t. serve t m) (command-line k)
    ∙ ap (λ c. serve_lines c.0 c.1 m) (cut_lines-line (line k) [] (line-Without k s))
    ∙ rw (serve_lines, request_of-line k s, stays k, call-map k m) refl
  where
    stays : (k : Call) → is_quit (request k).command ≡ false
    stays (Call.put key value) = refl
    stays (Call.get key) = refl
    stays (Call.del key) = refl
    stays (Call.exists key) = refl
    stays Call.size = refl
    stays Call.clear = refl
    stays Call.ping = refl

-- One call on a connection in use.
pub round_lem :
    (draws : ℕ → Draws) (k : Call) {w : World} {m : Map}
    → IsWorld w m
    → IsSendable k
    → IsShort k
    → length m < 2 ^ 31
    → length w.buffer.store + length (command k) < 2 ^ 63
    → (w' : World) × (round draws k w ≡ some ((map_call k m).0, w'))
      × IsWorld w' (map_call k m).1
      × (length w'.buffer.store ≤ length w.buffer.store + length (command k))
unfolding round answers
round_lem draws k {w} {m} i s h few small =
    let (v, c) = append_refines (command k) i.valid small in
    let b = append (command k) w.buffer in
    let (r, e, served) = on_message_refines draws v i.stored in
    let q = ap (λ t. serve t m) (c ∙ ap (λ t. t ++ command k) i.idle) ∙ serve-line k m s in
    let a : answers r.actions ≡ encode_response (answer_to k m) =
      ap answers (served.sent ∙ ap (λ o. o.actions) q)
      ∙ append-nil (encode_response (answer_to k m)) in
    let (client, up, z) =
      call-Answered k w.client m i.connected s (record { values = i.values; few = few }) in
    let y : call k
          (record { sent = some (length (command k)); received = some (answers r.actions) })
          w.client
        ≡ ((map_call k m).0, client) =
      ap (λ t. call k (record { sent = some (length (command k)); received = some t }) w.client) a
      ∙ z in
    (
      record { client = client; buffer = r.buffer; store = r.store },
      rw e (ap (λ o. some (o.0, record { client = o.1; buffer = r.buffer; store = r.store })) y),
      record {
        connected = up;
        valid = served.valid;
        idle = served.left ∙ ap (λ o. o.left) q;
        stored = subst (IsStore r.store) (ap (λ o. o.map) q) served.stored;
        values = call-values k m s h i.values;
      },
      subst (λ t. length t ≤ length w.buffer.store + length (command k))
          (sym (on_message-store draws b w.store r e)) (append-room (command k) i.valid small),
    )

-- The bytes of the commands.
unfoldable pub total : List Call → ℕ
total [] = 0
total (k ∷ ks) = length (command k) + total ks

-- Any sequence of client calls on a connection in use, whose arguments a command line can carry and
-- whose values fit one answer, succeeds: the server faults nowhere, every call returns what the map
-- says, and the store ends as the map does. The keys must fit an int and the commands the server's
-- memory.
pub session_refines :
    (draws : ℕ → ℕ → Draws) (ks : List Call) {w : World} {m : Map}
    → IsWorld w m
    → All IsSendable ks
    → All IsShort ks
    → length m + length ks < 2 ^ 31
    → length w.buffer.store + total ks < 2 ^ 63
    → (w' : World) × (session draws ks w ≡ some ((map_session ks m).0, w'))
      × IsWorld w' (map_session ks m).1
unfolding session map_session total
session_refines draws [] {w} i s h few small = (w, refl, i)
session_refines draws (k ∷ ks) {w} {m} i s h few small =
    let (w', e, i', l) = round_lem (draws 0) k i s.0 h.0 (omega arith) (omega arith) in
    let n = call-length k m in
    let (w'', e', i'') =
      session_refines (λ j. draws (suc j)) ks i' s.1 h.1 (omega arith) (omega arith) in
    (w'', rw (session, e, e') refl, i'')
