-- ===== src/Server/Socket.antt =====
-- server/kv_server.cpp on a connection of net/tcp_connection.cpp: the connection's handlers call the
-- server's callbacks, and these send on the connection.
pub mod Acted
pub mod Refine
use reactor_kv.Prelude.{
  ℕ, suc, Bool, true, false, ◌&&◌, if◌then◌else◌, Option, none, some, List, [], ◌∷◌, ◌++◌, ◌>>=◌,
}
use reactor_kv.Bytes.{Bytes}
use reactor_kv.Buffer.{contents}
use reactor_kv.SkipList.{Draws}
use reactor_kv.KvStore.{KvStore}
use reactor_kv.KvStore.Crud.{Map}
use reactor_kv.Connection
use reactor_kv.Connection.{
  Connection, Effect, message_callback, connection_callback, Wrote, connect_established,
  handle_read, handle_write,
}
use reactor_kv.Server.{Action, send, shutdown, on_message, on_connection}
use reactor_kv.Server.Stream.{serve}

-- What ::write returns for the bytes that it is given.
abbrev pub Socket : Type 0
Socket = Bytes → Wrote

-- conn->send and conn->shutdown on the loop's thread.
unfoldable pub act : Socket → Action → Connection → List Effect × Connection
act w (send bs) c = Connection.send true (w bs) bs c
act w shutdown c = Connection.shutdown true c

-- `ws i` is the i-th write.
unfoldable pub act_all : (ℕ → Socket) → List Action → Connection → List Effect × Connection
unfolding act
act_all ws [] c = ([], c)
act_all ws (a ∷ xs) c =
    let r = act (ws 0) a c in
    let later = act_all (λ i. ws (suc i)) xs r.1 in (r.0 ++ later.0, later.1)

pub record Peer : Type 0 where
  pub connection : Connection
  pub store : KvStore

-- An effect of a handler, which the server serves where it is a call of one of its callbacks.
unfoldable pub call_back : (ℕ → Draws) → (ℕ → Socket) → Effect → Peer → Option (List Effect × Peer)
unfolding act_all
call_back draws ws (connection_callback there) p =
    let r = act_all ws (on_connection there) p.connection in
    some (r.0, record p { connection = r.1 })
call_back draws ws message_callback p = do
  r ← on_message draws p.connection.input p.store
  let c = p.connection
  let d = act_all ws r.actions (record c { input = r.buffer })
  some (d.0, record { connection = d.1; store = r.store })
call_back draws ws e p = some (e ∷ [], p)

-- A handler calls no more than one of the server's callbacks.
unfoldable pub call_back_all :
    (ℕ → Draws) → (ℕ → Socket) → List Effect → Peer → Option (List Effect × Peer)
unfolding call_back
call_back_all draws ws [] p = some ([], p)
call_back_all draws ws (e ∷ es) p = do
  (now, p') ← call_back draws ws e p
  (later, p'') ← call_back_all draws ws es p'
  some (now ++ later, p'')

-- What the loop runs of a connection. readable has what readv returns, as in handle_read.
pub data Event : Type 0 where
  established writable : Event
  readable : Option Bytes → Event

-- handleWrite queues its callbacks and calls none.
unfoldable pub occur : (ℕ → Draws) → (ℕ → Socket) → Event → Peer → Option (List Effect × Peer)
unfolding call_back_all
occur draws ws established p =
    let r = connect_established p.connection in
    call_back_all draws ws r.0 (record p { connection = r.1 })
occur draws ws (readable got) p =
    let r = handle_read got p.connection in
    call_back_all draws ws r.0 (record p { connection = r.1 })
occur draws ws writable p =
    let r = handle_write (ws 0 (contents p.connection.output)) p.connection in
    some (r.0, record p { connection = r.1 })

unfoldable pub occur_all :
    (ℕ → ℕ → Draws) → (ℕ → ℕ → Socket) → List Event → Peer → Option (List Effect × Peer)
unfolding occur
occur_all draws ws [] p = some ([], p)
occur_all draws ws (e ∷ es) p = do
  (now, p') ← occur (draws 0) (ws 0) e p
  (later, p'') ← occur_all (λ i. draws (suc i)) (λ i. ws (suc i)) es p'
  some (now ++ later, p'')

-- The bytes behind the last newline, the map, and whether answers still go out.
pub record Talk : Type 0 where
  pub left : Bytes
  pub map : Map
  pub going : Bool

-- What goes out up to a shutdown, and whether there is none.
unfoldable pub spoken : List Action → Bytes
spoken [] = []
spoken (send bs ∷ xs) = bs ++ spoken xs
spoken (shutdown ∷ xs) = []

unfoldable pub stays : List Action → Bool
stays [] = true
stays (send bs ∷ xs) = stays xs
stays (shutdown ∷ xs) = false

unfoldable pub said : Bool → List Action → Bytes
unfolding spoken
said going xs = if going then spoken xs else []

unfoldable pub map_occur : Event → Talk → Bytes × Talk
unfolding said stays serve
map_occur established t = (spoken (on_connection true), record t { going = true })
map_occur (readable none) t = ([], t)
map_occur (readable (some bs)) t =
    let o = serve (t.left ++ bs) t.map in
    (
      said t.going o.actions,
      record { left = o.left; map = o.map; going = t.going && stays o.actions },
    )
map_occur writable t = ([], t)

unfoldable pub map_occur_all : List Event → Talk → Bytes × Talk
unfolding map_occur
map_occur_all [] t = ([], t)
map_occur_all (e ∷ es) t =
    let r = map_occur e t in let later = map_occur_all es r.1 in (r.0 ++ later.0, later.1)
