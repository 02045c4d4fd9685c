-- ===== src/TcpServer.antt =====
-- net/tcp_server.cpp: the connections of the server, by name, and the loops that they run on. A loop
-- is its address.
pub mod Names
use reactor_kv.Prelude.{
  ℕ, ◌+◌, ◌%◌, ◌<◌, ◌≡◌, refl, ap, ◌∙◌, Bool-cases, inl, inr, true, ltb, lt→ltb, ◌^◌, take,
  if◌then◌else◌, Option, none, some, List, [], ◌∷◌, ◌++◌, length, get_elem?, ◌>>=◌,
}
use reactor_kv.Bytes.{Bytes, bytes, bytes_order, equal, less}
use reactor_kv.SortedMap
use reactor_kv.SortedMap.{lookup}
use reactor_kv.SortedMap.Laws.{equal_refl, lookup-insert}
use reactor_kv.Server.{to_string}
use reactor_kv.EventLoop.{LoopPool, get_next_loop, get_next_loop_lem}

-- What the server keeps of a TcpConnection: its descriptor and its loop.
pub record Conn : Type 0 where
  pub fd : ℕ
  pub loop : ℕ

-- What the server asks of a connection's loop.
pub data Effect : Type 0 where
  run_established : ℕ → Bytes → Effect
  queue_destroyed : ℕ → Bytes → Effect
  run_destroyed : ℕ → Bytes → Effect

pub record TcpServer : Type 0 where
  pub ip_port : Bytes
  pub name : Bytes
  pub pool : LoopPool ℕ
  pub next_conn_id : ℕ
  pub connections : List (Bytes × Conn)

-- What snprintf leaves in buf[64] for that id, which is not negative.
abbrev pub suffix : TcpServer → ℕ → Bytes
suffix s i = bytes "-" ++ s.ip_port ++ bytes "#" ++ to_string i

abbrev pub conn_name : TcpServer → Bytes
conn_name s = s.name ++ take 63 (suffix s s.next_conn_id)

-- newConnection. nextConnId_ is an int: behind the largest one, ++ has no defined result.
unfoldable pub new_connection : ℕ → TcpServer → Option (Effect × TcpServer)
unfolding get_next_loop
new_connection fd s = do
  (loop, pool) ← get_next_loop s.pool
  next_conn_id ← (if ltb (s.next_conn_id + 1) (2 ^ 31) then some (s.next_conn_id + 1) else none)
  some (
    run_established loop (conn_name s),
    record s {
      pool = pool;
      next_conn_id = next_conn_id;
      connections = SortedMap.insert (conn_name s) (record { fd = fd; loop = loop }) s.connections;
    },
  )

-- removeConnectionInLoop, for the connection of that name and loop.
unfoldable pub remove_connection_in_loop : Bytes → Conn → TcpServer → Effect × TcpServer
remove_connection_in_loop name c s =
    (queue_destroyed c.loop name, record s { connections = SortedMap.erase name s.connections })

-- ~TcpServer: every connection is destroyed on its loop.
unfoldable pub destroy : List (Bytes × Conn) → List Effect
destroy [] = []
destroy ((name, c) ∷ cs) = run_destroyed c.loop name ∷ destroy cs

erase-insert :
    (k : Bytes) (v : Conn) (m : List (Bytes × Conn))
    → lookup k m ≡ none
    → SortedMap.erase k (SortedMap.insert k v m) ≡ m
unfolding SortedMap.erase SortedMap.insert lookup
erase-insert k v [] e = let r = equal_refl k in rw r
erase-insert k v ((j, w) ∷ m) e = elim (Bool-cases (equal j k)) [
  | inl q ↦ cc (rw q at e)
  | inr q ↦ elim (Bool-cases (less j k)) [
    | inl l ↦ rw (l, q) (ap (λ t. (j, w) ∷ t) (erase-insert k v m (rw q at e)))
    | inr l ↦ let r = equal_refl k in rw (l, q, r)
  ]
]

-- A connection whose name is not taken, and whose id is not the last one of an int, is found under its
-- name, on the loop that the pool chose and
-- that its connectEstablished runs on; when it is removed, connectDestroyed is queued on that loop,
-- and the connections are those from before.
pub remove_connection_in_loop-new_connection :
    (fd : ℕ) (s : TcpServer)
    → s.pool.next < length s.pool.loops
    → s.next_conn_id + 1 < 2 ^ 31
    → lookup (conn_name s) s.connections ≡ none
    → (loop : ℕ) × (t : TcpServer) × (new_connection fd s
        ≡ some (run_established loop (conn_name s), t))
      × (get_elem? s.pool.loops s.pool.next ≡ some loop)
      × (t.pool.next < length t.pool.loops)
      × (lookup (conn_name s) t.connections ≡ some (record { fd = fd; loop = loop }))
      × (let r = remove_connection_in_loop (conn_name s) (record { fd = fd; loop = loop }) t in
          (r.0 ≡ queue_destroyed loop (conn_name s)) × (r.1.connections ≡ s.connections))
unfolding new_connection remove_connection_in_loop
remove_connection_in_loop-new_connection fd s h small n =
    let (loop, e, g, b) = get_next_loop_lem s.pool h in
    let c : Conn = record { fd = fd; loop = loop } in
    let self = equal_refl (conn_name s) in
    let t : ltb (s.next_conn_id + 1) (2 ^ 31) ≡ true = lt→ltb _ _ small in
    (
      loop,
      record s {
        pool = record (s.pool) { next = (s.pool.next + 1) % length s.pool.loops };
        next_conn_id = s.next_conn_id + 1;
        connections = SortedMap.insert (conn_name s) c s.connections;
      },
      rw (new_connection, e, t),
      g,
      b,
      lookup-insert (conn_name s) (conn_name s) c s.connections ∙ rw self,
      (refl, erase-insert (conn_name s) c s.connections n),
    )
