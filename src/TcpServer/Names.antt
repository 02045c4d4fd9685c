-- ===== src/TcpServer/Names.antt =====
-- net/tcp_server.cpp: the names of a server's connections as they come and go.
use reactor_kv.Prelude.{
  ℕ, ◌+◌, ◌^◌, ◌≤◌, ◌<◌, true, ltb, lt→ltb, take, take-all, length-append, ◌≡◌, refl, sym, ap, ◌∙◌,
  Bool-cases, inl, inr, Option, none, some, List, [], ◌∷◌, ◌++◌, length, ◌>>=◌, All, All-mono,
  arith, drop, drop-append,
}
use reactor_kv.Bytes.{Bytes, bytes, bytes_order, equal}
use reactor_kv.SortedMap
use reactor_kv.SortedMap.{lookup}
use reactor_kv.SortedMap.Laws.{All-insert, All-erase}
use reactor_kv.Server.{to_string}
use reactor_kv.Client.Numbers.{to_string_injective, length-to_string}
use reactor_kv.EventLoop.{IsPool, get_next_loop-IsPool}
use reactor_kv.TcpServer.{
  TcpServer, Conn, suffix, conn_name, new_connection, remove_connection_in_loop,
}

-- What the server is asked for: a new connection on a descriptor, or the end of one.
pub data Ask : Type 0 where
  connects : ℕ → Ask
  removes : Bytes → Conn → Ask

unfoldable pub ask : Ask → TcpServer → Option TcpServer
unfolding new_connection remove_connection_in_loop
ask (connects fd) s = do (e, t) ← new_connection fd s; some t
ask (removes name c) s = some (remove_connection_in_loop name c s).1

unfoldable pub ask_all : List Ask → TcpServer → Option TcpServer
unfolding ask
ask_all [] s = some s
ask_all (a ∷ xs) s = do t ← ask a s; ask_all xs t

-- The name of the connection with that id.
abbrev pub numbered : TcpServer → ℕ → Bytes
numbered s i = s.name ++ take 63 (suffix s i)

append-injective : (xs ys zs : Bytes) → xs ++ ys ≡ xs ++ zs → ys ≡ zs
append-injective xs ys zs e = sym (drop-append xs ys) ∙ ap (drop (length xs)) e ∙ drop-append xs zs

-- The longest address and port have 21 bytes, so that nothing is cut off.
suffix-take :
    (s : TcpServer) (i : ℕ) → length s.ip_port ≤ 51 → i < 2 ^ 31 → take 63 (suffix s i) ≡ suffix s i
suffix-take s i h l =
    let a = length-append (bytes "-" ++ s.ip_port ++ bytes "#") (to_string i) in
    let b = length-append (bytes "-" ++ s.ip_port) (bytes "#") in
    let c = length-append (bytes "-") s.ip_port in
    let d = length-to_string i l in take-all 63 (suffix s i) (omega arith)

numbered_injective :
    (s : TcpServer) (i j : ℕ)
    → length s.ip_port ≤ 51
    → i < 2 ^ 31
    → j < 2 ^ 31
    → numbered s i ≡ numbered s j
    → i ≡ j
numbered_injective s i j h l m e =
    let f = append-injective s.name (take 63 (suffix s i)) (take 63 (suffix s j)) e in
    let g = sym (suffix-take s i h l) ∙ f ∙ suffix-take s j h m in
    to_string_injective i j
      (append-injective (bytes "-" ++ s.ip_port ++ bytes "#") (to_string i) (to_string j) g)

-- Every connection has the name of an id that was given out.
abbrev Given : TcpServer → Bytes × Conn → Type 0
Given s p = (i : ℕ) × (i < s.next_conn_id) × (p.0 ≡ numbered s i)

-- The ids of `n` more connections fit an int.
pub record IsNamed (n : ℕ) (s : TcpServer) : Type 0 where
  pub pool : IsPool s.pool
  pub names : All (Given s) s.connections
  pub address : length s.ip_port ≤ 51
  pub ids : s.next_conn_id + n < 2 ^ 31

unfoldable pub connections_of : List Ask → ℕ
connections_of [] = 0
connections_of (connects fd ∷ xs) = 1 + connections_of xs
connections_of (removes name c ∷ xs) = connections_of xs

fresh-none :
    (s : TcpServer) (m : List (Bytes × Conn))
    → length s.ip_port ≤ 51
    → s.next_conn_id < 2 ^ 31
    → All (Given s) m
    → lookup (conn_name s) m ≡ none
unfolding lookup
fresh-none s [] h n a = refl
fresh-none s ((j, w) ∷ m) h n a = elim (Bool-cases (equal j (conn_name s))) [
  | inl q ↦
      let (i, l, e) = a.0 in
      let z =
        numbered_injective s i s.next_conn_id h (omega arith) n
          (sym e ∙ (bytes_order.equal_iff j (conn_name s)).0 q) in
      absurd (omega arith)
  | inr q ↦ rw q (fresh-none s m h n a.1)
]

connects-IsNamed :
    (fd n : ℕ) {s : TcpServer}
    → IsNamed (1 + n) s
    → (t : TcpServer) × (ask (connects fd) s ≡ some t) × IsNamed n t
unfolding ask new_connection
connects-IsNamed fd n {s} v =
    let (loop, pool, e, b) = get_next_loop-IsPool s.pool v.pool in
    let c : Conn = record { fd = fd; loop = loop } in
    let t : TcpServer = record s {
      pool = pool;
      next_conn_id = s.next_conn_id + 1;
      connections = SortedMap.insert (conn_name s) c s.connections;
    } in
    let ids = v.ids in
    let fits : ltb (s.next_conn_id + 1) (2 ^ 31) ≡ true = lt→ltb _ _ (omega arith) in
    (
      t,
      rw (ask, new_connection, e, fits) refl,
      record {
        pool = b;
        names =
            All-insert (Given t) (conn_name s) c s.connections (s.next_conn_id, omega arith, refl)
              (All-mono (Given s) (Given t) s.connections
                (λ x q. (q.0, (let z = q.1 in omega arith), q.2)) v.names);
        address = v.address;
        ids = omega arith;
      },
    )

-- Whatever connections come and go, with threads or without, as long as their ids fit an int and the
-- address has 51 bytes at most: the server goes on, and the name of the next connection is that of none
-- that it has, so that no connection takes another one's place in the map.
pub ask_all-fresh :
    (xs : List Ask) (n : ℕ) {s : TcpServer}
    → IsNamed (connections_of xs + n) s
    → (t : TcpServer) × (ask_all xs s ≡ some t)
      × IsNamed n t
      × (lookup (conn_name t) t.connections ≡ none)
unfolding ask_all ask connections_of remove_connection_in_loop
ask_all-fresh [] n {s} v =
    let ids = v.ids in
    (
      s,
      refl,
      record { pool = v.pool; names = v.names; address = v.address; ids = omega arith },
      fresh-none s s.connections v.address (omega arith) v.names,
    )
ask_all-fresh (connects fd ∷ xs) n {s} v =
    let w : IsNamed (1 + (connections_of xs + n)) s = record {
      pool = v.pool;
      names = v.names;
      address = v.address;
      ids = (let z = v.ids in omega arith);
    } in
    let (t, e, w') = connects-IsNamed fd (connections_of xs + n) w in
    let (u, f, z, k) = ask_all-fresh xs n w' in (u, rw (ask_all, e, f) refl, z, k)
ask_all-fresh (removes name c ∷ xs) n {s} v = ask_all-fresh xs n (record {
  pool = v.pool;
  names = All-erase (Given s) name s.connections v.names;
  address = v.address;
  ids = v.ids;
})
