-- ===== src/Server.antt =====
-- server/kv_server.cpp: requests against the store, and the loop over the requests that a read has
-- brought. A call of conn->send or conn->shutdown is an action of the result.
pub mod Requests
pub mod Stream
pub mod Round
pub mod Hub
pub mod Socket
use reactor_kv.Prelude.{
  ℕ, zero, suc, ◌+◌, ◌/◌, ◌%◌, Bool, true, false, Option, none, some, List, [], ◌∷◌, ◌++◌, ltb,
  ◌==◌, if◌then◌else◌, ◌>>=◌,
}
use reactor_kv.Bytes.{Bytes, bytes, is_empty}
use reactor_kv.Message.{
  CommandType, Request, Response, no_request, ok_response, not_found_response, error_response,
  pong_response, bye_response,
}
use reactor_kv.Buffer.{Buffer, readable_bytes}
use reactor_kv.Codec.{parse_request, encode_response}
use reactor_kv.SkipList.{Draws}
use reactor_kv.KvStore
use reactor_kv.KvStore.{KvStore, Disk}

-- std::to_string of a size: at most `fuel` digits.
unfoldable pub digits : ℕ → ℕ → Bytes
digits zero n = []
digits (suc fuel) n =
    let rest = digits fuel (n / 10) in
    if ltb n 10 then (48 + n) ∷ [] else rest ++ (48 + n % 10) ∷ []

unfoldable pub to_string : ℕ → Bytes
unfolding digits
to_string n = digits (suc n) n

-- handleRequest: the response and the store after it.
unfoldable pub handle : CommandType → Draws → Bytes → Bytes → KvStore → Option (Response × KvStore)
handle CommandType.put draws key value s =
    if is_empty key then some (error_response (bytes "Key cannot be empty"), s) else do
      (is_new, s') ← KvStore.put draws key value s
      some (ok_response (if is_new then bytes "CREATED" else bytes "UPDATED"), s')
handle CommandType.get draws key value s = do
  found ← KvStore.get key s
  some (elim found [ none ↦ not_found_response | some v ↦ ok_response v ], s)
handle CommandType.del draws key value s = do
  (removed, s') ← KvStore.del key s
  some (if removed then ok_response (bytes "DELETED") else not_found_response, s')
handle CommandType.exists draws key value s = do
  there ← KvStore.exists key s
  some (if there then ok_response (bytes "1") else ok_response (bytes "0"), s)
handle CommandType.size draws key value s = some (ok_response (to_string (KvStore.size s)), s)
handle CommandType.clear draws key value s = do
  s' ← KvStore.clear s
  some (ok_response (bytes "CLEARED"), s')
handle CommandType.ping draws key value s = some (pong_response, s)
handle CommandType.quit draws key value s = some (bye_response, s)
handle CommandType.unknown draws key value s = some (error_response (bytes "Unknown command"), s)

unfoldable pub handle_request : Draws → Request → KvStore → Option (Response × KvStore)
unfolding handle
handle_request draws r s = handle r.command draws r.key r.value s

-- What the handler asks of the connection.
pub data Action : Type 0 where
  send : Bytes → Action
  shutdown : Action

abbrev pub is_quit : CommandType → Bool
is_quit CommandType.quit = true
is_quit _ = false

pub record Served : Type 0 where
  pub actions : List Action
  pub buffer : Buffer
  pub store : KvStore

abbrev add_action : Action → Served → Served
add_action a r = record r { actions = a ∷ r.actions }

-- onMessage: while (buf->readableBytes() > 0). `draws i` serves the i-th request.
unfoldable pub message_loop : ℕ → (ℕ → Draws) → Buffer → KvStore → Option Served
message_loop zero draws b s = none
message_loop (suc fuel) draws b s = elim (ltb 0 (readable_bytes b)) [
  | false ↦ some (record { actions = []; buffer = b; store = s })
  | true ↦ elim (parse_request b no_request) [
    | none ↦ some (record { actions = []; buffer = b; store = s })
    | some (request, b') ↦ do
      (response, s') ← handle_request (draws 0) request s
      let sent = send (encode_response response)
      elim (is_quit request.command) [
        | true ↦ some (record { actions = sent ∷ shutdown ∷ []; buffer = b'; store = s' })
        | false ↦ do
          rest ← message_loop fuel (λ i. draws (i + 1)) b' s'
          some (add_action sent rest)
      ]
  ]
]

-- Every request takes a byte at least.
unfoldable pub on_message : (ℕ → Draws) → Buffer → KvStore → Option Served
unfolding message_loop
on_message draws b s = message_loop (readable_bytes b + 1) draws b s

-- onConnection, by whether the connection is up.
unfoldable pub on_connection : Bool → List Action
on_connection true = send (bytes "+WELCOME ReactorKV Server" ++ (b'\r' ∷ b'\n' ∷ [])) ∷ []
on_connection false = []

-- The store and the file that the destructor saves it to.
pub record Server : Type 0 where
  pub store : KvStore
  pub data_file : Bytes

unfoldable pub load_data : (ℕ → Draws) → Bytes → Server → Disk → Option (Bool × Server)
load_data draws path v d = do
  (done, s) ← KvStore.load draws path v.store d
  some (done, record { store = s; data_file = path })

unfoldable pub save_data : Bytes → Server → Disk → Option (Bool × Server × Disk)
save_data path v d = do
  (done, d') ← KvStore.save path v.store d
  some (done, record v { data_file = path }, d')

-- ~KVServer
unfoldable pub destroy : Server → Disk → Option Disk
destroy v d =
    if is_empty v.data_file
    then some d
    else do (done, d') ← KvStore.save v.data_file v.store d; some d'
