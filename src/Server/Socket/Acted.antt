-- ===== src/Server/Socket/Acted.antt =====
-- What a callback of server/kv_server.cpp sends on its connection, a call of send or shutdown at a
-- time.
use reactor_kv.Prelude.{
  ℕ, suc, ◌+◌, ◌^◌, ◌≤◌, ◌<◌, ◌≡◌, refl, ap, ◌∙◌, Bool, true, false, ◌&&◌, List, [], ◌∷◌, ◌++◌,
  length, length-append, arith,
}
use reactor_kv.Bytes.{Bytes}
use reactor_kv.Connection
use reactor_kv.Connection.{
  is_connected, is_disconnected, disconnecting, Connection, Effect, send_in_loop, shutdown_in_loop,
}
use reactor_kv.Connection.Flow.{IsConnection, Accepts, Flows, unchanged, send_in_loop-Flows}
use reactor_kv.Connection.Sent.{shutdown-Flows, connected-open, Flows-trans}
use reactor_kv.Connection.Frame.{send_in_loop-IsFramed}
use reactor_kv.Server.{Action, send, shutdown}
use reactor_kv.Server.Socket.{Socket, act, act_all, spoken, stays, said}

-- The message has been handed to the connection, whose input and callbacks are as before.
pub record IsActed (c : Connection) (going : Bool) (message : Bytes) (r : List Effect × Connection)
    : Type 0 where
  pub flows : Flows c message r
  pub alive : is_disconnected r.1.state ≡ false
  pub going_lem : is_connected r.1.state ≡ going
  pub input : r.1.input ≡ c.input
  pub on_up : r.1.has_connection_callback ≡ c.has_connection_callback
  pub on_read : r.1.has_message_callback ≡ c.has_message_callback
  pub room : length r.1.output.store ≤ length c.output.store + length message

nothing-IsActed :
    (c : Connection) (going : Bool)
    → IsConnection c
    → is_disconnected c.state ≡ false
    → is_connected c.state ≡ going
    → IsActed c going [] ([], c)
nothing-IsActed c going k a o = record {
  flows = unchanged c k;
  alive = a;
  going_lem = o;
  input = refl;
  on_up = refl;
  on_read = refl;
  room = omega arith;
}

IsActed-trans :
    {c d e : Connection} {o o' : Bool} {m m' : Bytes} {es fs : List Effect}
    → IsActed c o m (es, d)
    → IsActed d o' m' (fs, e)
    → IsActed c o' (m ++ m') (es ++ fs, e)
IsActed-trans {m = m} {m' = m'} f g =
    let l = length-append m m' in
    record {
      flows = Flows-trans f.flows g.flows;
      alive = g.alive;
      going_lem = g.going_lem;
      input = g.input ∙ f.input;
      on_up = g.on_up ∙ f.on_up;
      on_read = g.on_read ∙ f.on_read;
      room = (let x = f.room in let y = g.room in omega arith);
    }

act-send :
    (w : Socket) (bs : Bytes) (c : Connection)
    → IsConnection c
    → is_connected c.state ≡ true
    → Accepts (w bs) bs
    → length c.output.store + length bs < 2 ^ 63
    → IsActed c true bs (act w (send bs) c)
unfolding act Connection.send
act-send w bs c k o h small =
    let a = connected-open c.state o in
    let f = send_in_loop-Flows (w bs) bs c k a h small in
    let g = send_in_loop-IsFramed (w bs) bs c k.valid small in
    rw o (record {
      flows = record { flow = f.flow; connection = f.connection };
      alive = ap is_disconnected g.state ∙ a;
      going_lem = ap is_connected g.state ∙ o;
      input = g.input;
      on_up = g.on_up;
      on_read = g.on_read;
      room = g.room;
    })

act-shutdown :
    (w : Socket) (c : Connection)
    → IsConnection c
    → is_connected c.state ≡ true
    → IsActed c false [] (act w shutdown c)
unfolding act Connection.shutdown shutdown_in_loop
act-shutdown w c k o =
    let f : Flows c [] (Connection.shutdown true c) = shutdown-Flows true c k in
    record {
      flows = record { flow = f.flow; connection = f.connection };
      alive = rw o refl;
      going_lem = rw o refl;
      input = rw o refl;
      on_up = rw o refl;
      on_read = rw o refl;
      room = rw o (omega arith);
    }

closed_lem :
    (ws : ℕ → Socket) (xs : List Action) (c : Connection)
    → IsConnection c
    → is_disconnected c.state ≡ false
    → is_connected c.state ≡ false
    → IsActed c false [] (act_all ws xs c)
unfolding act_all act Connection.send Connection.shutdown
closed_lem ws [] c k a o = nothing-IsActed c false k a o
closed_lem ws (send bs ∷ xs) c k a o = rw o (closed_lem (λ i. ws (suc i)) xs c k a o)
closed_lem ws (shutdown ∷ xs) c k a o = rw o (closed_lem (λ i. ws (suc i)) xs c k a o)

going_lem :
    (ws : ℕ → Socket) (xs : List Action) (c : Connection)
    → IsConnection c
    → is_connected c.state ≡ true
    → ((i : ℕ) (bs : Bytes) → Accepts (ws i bs) bs)
    → length c.output.store + length (spoken xs) < 2 ^ 63
    → IsActed c (stays xs) (spoken xs) (act_all ws xs c)
unfolding act_all spoken stays
going_lem ws [] c k o h small = nothing-IsActed c true k (connected-open c.state o) o
going_lem ws (send bs ∷ xs) c k o h small =
    let l = length-append bs (spoken xs) in
    let f = act-send (ws 0) bs c k o (h 0 bs) (omega arith) in
    let d = (act (ws 0) (send bs) c).1 in
    IsActed-trans f (
      going_lem (λ i. ws (suc i)) xs d f.flows.connection f.going_lem (λ i. h (suc i))
        (let z = f.room in omega arith))
going_lem ws (shutdown ∷ xs) c k o h small =
    let f = act-shutdown (ws 0) c k o in
    let d = (act (ws 0) shutdown c).1 in
    IsActed-trans f (closed_lem (λ i. ws (suc i)) xs d f.flows.connection f.alive f.going_lem)

-- A connection that sends takes what the actions say up to a shutdown, and one that is shutting down
-- takes nothing.
pub act_all-IsActed :
    (ws : ℕ → Socket) (xs : List Action) (c : Connection) (going : Bool)
    → IsConnection c
    → is_disconnected c.state ≡ false
    → is_connected c.state ≡ going
    → ((i : ℕ) (bs : Bytes) → Accepts (ws i bs) bs)
    → length c.output.store + length (said going xs) < 2 ^ 63
    → IsActed c (going && stays xs) (said going xs) (act_all ws xs c)
unfolding said
act_all-IsActed ws xs c true k a o h small = going_lem ws xs c k o h small
act_all-IsActed ws xs c false k a o h small = closed_lem ws xs c k a o
