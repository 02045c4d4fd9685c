-- ===== src/Client/Session.antt =====
-- A client of client/kvclient.cpp and the server of server/kv_server.cpp, joined by a network that
-- delivers every answer whole and whose first line, the welcome, has been read.
pub mod Asked
pub mod Delivered
pub mod Carried
pub mod Refine
use reactor_kv.Prelude.{
  ℤ, pos, ℕ, suc, ◌+◌, ◌<◌, ◌≤◌, ◌^◌, ◌≡◌, refl, Bool, true, false, Option, none, some, List, [],
  ◌∷◌, ◌++◌, length, All, ◌>>=◌, arith,
}
use reactor_kv.Bytes.{Bytes, bytes_order}
use reactor_kv.Buffer.{Buffer, append}
use reactor_kv.SkipList.{Draws}
use reactor_kv.SortedMap.{lookup, is_some}
use reactor_kv.KvStore.{KvStore}
use reactor_kv.KvStore.Crud.{Map, map_put, map_del}
use reactor_kv.Server.{Action, send, shutdown, on_message}
use reactor_kv.Client
use reactor_kv.Client.{Client, Exchange}
use reactor_kv.Client.Commands.{Call, command}

-- What a call returns.
pub data Reply : Type 0 where
  flag : Bool → Reply
  text : Bool → Bytes → Reply
  number : Bool → ℤ → Reply

-- A call, with what the socket does.
unfoldable pub call : Call → Exchange → Client → Reply × Client
unfolding Client.put Client.get Client.del Client.exists Client.size Client.clear Client.ping
call (Call.put key value) x c = let r = Client.put key value x c in (flag r.0, r.1)
call (Call.get key) x c = let r = Client.get key x c in (text r.0.0 r.0.1, r.1)
call (Call.del key) x c = let r = Client.del key x c in (flag r.0, r.1)
call (Call.exists key) x c = let r = Client.exists key x c in (flag r.0, r.1)
call Call.size x c = let r = Client.size x c in (number r.0.0 r.0.1, r.1)
call Call.clear x c = let r = Client.clear x c in (flag r.0, r.1)
call Call.ping x c = let r = Client.ping x c in (flag r.0, r.1)

-- What the calls promise of a map.
unfoldable pub map_call : Call → Map → Reply × Map
map_call (Call.put key value) m = (flag true, (map_put key value m).1)
map_call (Call.get key) m = (elim (lookup key m) [ none ↦ text false [] | some v ↦ text true v ], m)
map_call (Call.del key) m = (flag (is_some (lookup key m)), (map_del key m).1)
map_call (Call.exists key) m = (flag (is_some (lookup key m)), m)
map_call Call.size m = (number true (pos (length m)), m)
map_call Call.clear m = (flag true, [])
map_call Call.ping m = (flag true, m)

-- The bytes of the answers.
unfoldable pub answers : List Action → Bytes
answers [] = []
answers (send bs ∷ actions) = bs ++ answers actions
answers (shutdown ∷ actions) = answers actions

-- The client, and the server's input buffer and store.
pub record World : Type 0 where
  pub client : Client
  pub buffer : Buffer
  pub store : KvStore

-- A call: the server reads the command and the client the answers.
unfoldable pub round : (ℕ → Draws) → Call → World → Option (Reply × World)
round draws c w = do
  r ← on_message draws (append (command c) w.buffer) w.store
  let x : Exchange = record {
    sent = some (length (command c));
    received = some (answers r.actions);
  }
  let (reply, client) = call c x w.client
  some (reply, record { client = client; buffer = r.buffer; store = r.store })

unfoldable pub session : (ℕ → ℕ → Draws) → List Call → World → Option (List Reply × World)
unfolding round
session draws [] w = some ([], w)
session draws (c ∷ cs) w = do
  (reply, w') ← round (draws 0) c w
  (replies, w'') ← session (λ i. draws (suc i)) cs w'
  some (reply ∷ replies, w'')

unfoldable pub map_session : List Call → Map → List Reply × Map
unfolding map_call
map_session [] m = ([], m)
map_session (c ∷ cs) m =
    let r = map_call c m in let later = map_session cs r.1 in (r.0 ∷ later.0, later.1)
