-- ===== src/Tests/Net.antt =====
-- Connections, the poller and the queues between threads (net/tcp_connection.cpp,
-- net/epoll_poller.cpp, base/blocking_queue.h, base/threadpool.cpp) at concrete inputs.
use reactor_kv.Prelude.{
  inr, ◌==◌, if◌then◌else◌, ◌+◌, ◌%◌, ◌<◌, get_elem?, ℕ, ◌≡◌, refl, true, false, none, some, List,
  [], ◌∷◌, ◌++◌, arith, length,
}
use reactor_kv.Bytes.{bytes}
use reactor_kv.Buffer.{Buffer, contents}
use reactor_kv.Buffer.Slice.{slice}
use reactor_kv.Channel.{no_events, with_reading, with_writing}
use reactor_kv.Poller.{new, Channel, Poller}
use reactor_kv.Poller.Registration
use reactor_kv.Poller.Registration.{
  update, remove, kernel, interest, apply_all, apply_all-IsRegistered,
}
use reactor_kv.Connection.{
  disconnecting, connected, Connection, count, again, handle_write, shutdown, shutdown_in_loop,
}
use reactor_kv.Connection.Kept.{written}
use reactor_kv.Connection.Flow.{IsConnection, Accepts}
use reactor_kv.Connection.Sent.{
  Op, op_send, op_write, op_shutdown, Allowed, AllAllowed, apply, run, messages, message_of,
  run-Flows,
}
use reactor_kv.Connection.Closing.{shuts_down, shuts_down-written, handle_write-shuts_down}
use reactor_kv.BlockingQueue.{BoundedQueue}
use reactor_kv.EventLoop.{
  Loop, do_pending_functors, queued, do_pending_functors_lem, LoopPool, choices, choices_lem,
}
use reactor_kv.EventLoop.Turns
use reactor_kv.EventLoop.Turns.{
  Turn, polling, enters, polls, other_queues, other_quits, batch, polling-woken, Reach-order,
}
use reactor_kv.TcpServer.Names.{
  Ask, connects, removes, ask_all, IsNamed, connections_of, ask_all-fresh,
}
use reactor_kv.EventLoop.{IsPool}
use reactor_kv.TcpServer.{
  TcpServer, conn_name, new_connection, remove_connection_in_loop, run_established, queue_destroyed,
  remove_connection_in_loop-new_connection,
}
use reactor_kv.SortedMap.{lookup}
use reactor_kv.Bytes.{bytes_order}
use reactor_kv.ThreadPool.{
  Pool, call_run, call_take, call_stop, run_all, Within, IsFair, run_all-IsFair,
}

abbrev channel : Channel
channel = record { address = 1; fd = 5; events = no_events; index = new }

abbrev ops : List Registration.Op
ops =
    update (with_reading no_events)
    ∷ update (with_writing (with_reading no_events))
    ∷ update no_events
    ∷ update no_events
    ∷ remove
    ∷ []

abbrev poller : Poller
poller = record { channels = []; calls = [] }

apply_all-IsRegistered_example :
    kernel (apply_all ops channel poller).0.fd (apply_all ops channel poller).1.calls none
    ≡ some (interest (apply_all ops channel poller).0.index (apply_all ops channel poller).0.events)
unfolding kernel interest
apply_all-IsRegistered_example = apply_all-IsRegistered ops channel poller refl

abbrev empty_buffer : Buffer
empty_buffer = record { store = bytes "................"; reader = 8; writer = 8 }

abbrev connection : Connection
connection = record {
  state = connected;
  events = with_reading no_events;
  input = empty_buffer;
  output = empty_buffer;
  high_water_mark = 64;
  has_connection_callback = true;
  has_message_callback = true;
  has_close_callback = true;
  has_write_complete_callback = false;
  has_high_water_mark_callback = false;
}

connection-IsConnection : IsConnection connection
unfolding slice
connection-IsConnection = record {
  valid = record {
    start = omega arith;
    end = omega arith;
    spare = omega arith;
    small = omega arith;
  };
  idle = λ _ _. refl;
}

-- A connection that waits to write "OK".
abbrev waiting : Connection
waiting = record connection {
  state = disconnecting;
  events = with_writing (with_reading no_events);
  output = record { store = bytes "........OK......"; reader = 8; writer = 10 };
}

waiting-IsConnection : IsConnection waiting
waiting-IsConnection = record {
  valid = record {
    start = omega arith;
    end = omega arith;
    spare = omega arith;
    small = omega arith;
  };
  idle = λ _ e. cc;
}

handle_write-shuts_down_example :
    shuts_down (handle_write (count (length (contents waiting.output))) waiting).0 ≡ true
unfolding slice
handle_write-shuts_down_example =
    handle_write-shuts_down waiting waiting-IsConnection refl refl (omega arith)

-- A send that the socket does not take, then a write of the whole.
abbrev life : List Op
life = op_send (count 2) (bytes "+OK\r\n") ∷ op_write again ∷ op_shutdown true ∷ []

run-Flows_example :
    (written (run life connection).0 ++ contents (run life connection).1.output
      ≡ contents connection.output ++ messages life)
    × IsConnection (run life connection).1
unfolding AllAllowed Allowed Accepts apply
run-Flows_example =
    run-Flows life connection connection-IsConnection
      ((refl, omega arith, omega arith), (tt, (tt, tt)))

-- A message that the socket takes in two parts, with the shutdown in between.
abbrev parting : List Op
parting = op_send (count 2) (bytes "+OK\r\n") ∷ op_shutdown true ∷ []

shuts_down-written_example :
    written (run parting connection).0
      ++ written (apply (op_write (count 3)) (run parting connection).1).0
    ≡ contents connection.output ++ messages parting ++ message_of (op_write (count 3))
unfolding AllAllowed Allowed Accepts run apply shutdown shutdown_in_loop shuts_down
    reactor_kv.Connection.send_in_loop reactor_kv.Words.sub_size slice
    reactor_kv.Buffer.Slice.write_at reactor_kv.Words.add_size handle_write
shuts_down-written_example =
    shuts_down-written parting (op_write (count 3)) connection connection-IsConnection
      ((refl, omega arith, omega arith), (tt, tt)) refl (omega arith) refl

abbrev queue : BoundedQueue ℕ
queue = record { queue = 7 ∷ []; max_size = 2 }

-- A full queue.
abbrev full_queue : BoundedQueue ℕ
full_queue = record { queue = 7 ∷ []; max_size = 1 }

abbrev pool : Pool ℕ
pool = record { threads = 2; queue = []; max_queue_size = 1; running = true }

run_all-IsFair_example :
    IsFair pool (run_all (call_run 1 ∷ call_run 2 ∷ call_take ∷ call_stop ∷ call_take ∷ []) pool)
unfolding Within
run_all-IsFair_example =
    run_all-IsFair (call_run 1 ∷ call_run 2 ∷ call_take ∷ call_stop ∷ call_take ∷ []) pool
      (λ _. omega arith)

-- Functor 1 queues 2 and 3 while it runs.
abbrev calls : ℕ → List ℕ
calls f = if f == 1 then 2 ∷ 3 ∷ [] else []

abbrev event_loop : Loop ℕ
event_loop = record { pending = 1 ∷ 4 ∷ []; calling = false; quit = false; wakeups = 0 }

do_pending_functors_lem_example :
    ((do_pending_functors calls event_loop).0 ≡ event_loop.pending)
    × ((do_pending_functors calls event_loop).1.pending ≡ queued calls event_loop.pending)
    × ((do_pending_functors calls event_loop).1.wakeups
        ≡ event_loop.wakeups + length (queued calls event_loop.pending))
do_pending_functors_lem_example = do_pending_functors_lem calls event_loop

abbrev loops : LoopPool ℕ
loops = record { base = 0; loops = 1 ∷ 2 ∷ 3 ∷ []; next = 2 }

choices_lem_example :
    (ls : List ℕ) × (choices 5 loops ≡ some ls)
    × ((i : ℕ)
        → i < 5
        → get_elem? ls i ≡ get_elem? loops.loops ((loops.next + i) % length loops.loops))
choices_lem_example = choices_lem 5 loops (omega arith)

abbrev server : TcpServer
server = record {
  ip_port = bytes "0.0.0.0:6379";
  name = bytes "KVServer";
  pool = loops;
  next_conn_id = 1;
  connections = [];
}

remove_connection_in_loop-new_connection_example :
    (loop : ℕ) × (t : TcpServer) × (new_connection 9 server
      ≡ some (run_established loop (conn_name server), t))
    × (get_elem? loops.loops loops.next ≡ some loop)
    × (t.pool.next < length t.pool.loops)
    × (lookup (conn_name server) t.connections ≡ some (record { fd = 9; loop = loop }))
    × (let r = remove_connection_in_loop (conn_name server) (record { fd = 9; loop = loop }) t in
        (r.0 ≡ queue_destroyed loop (conn_name server)) × (r.1.connections ≡ server.connections))
unfolding lookup
remove_connection_in_loop-new_connection_example =
    remove_connection_in_loop-new_connection 9 server (omega arith) (omega arith) refl

-- Two connections come, and the first goes.
abbrev asks : List Ask
asks = connects 9 ∷ connects 10 ∷ removes (conn_name server) (record { fd = 9; loop = 0 }) ∷ []

ask_all-fresh_example :
    (t : TcpServer) × (ask_all asks server ≡ some t)
    × IsNamed 0 t
    × (lookup (conn_name t) t.connections ≡ none)
unfolding IsPool connections_of
ask_all-fresh_example =
    ask_all-fresh asks 0 {s = server}
      (record { pool = inr (omega arith); names = tt; address = omega arith; ids = omega arith })

-- The loop is in poll, and other threads have queued a functor and called quit, and not yet woken
-- the loop.
abbrev asleep : Turn ℕ
asleep = record {
  place = polling;
  loop = record { pending = 5 ∷ []; calling = false; quit = true; wakeups = 0 };
  wakers = 2;
  asked = true;
  pushed = 5 ∷ [];
  done = [];
}

asleep-Reach : Turns.Reach asleep
unfolding reactor_kv.EventLoop.quit
asleep-Reach =
    let entered = Turns.later Turns.start (enters refl) in
    Turns.later (Turns.later (Turns.later entered (polls refl refl)) (other_queues 5)) other_quits

polling-woken_example : 0 < asleep.loop.wakeups + asleep.wakers
polling-woken_example = polling-woken asleep asleep-Reach refl (inr refl)

Reach-order_example : asleep.done ++ (batch asleep.place ++ asleep.loop.pending) ≡ asleep.pushed
Reach-order_example = Reach-order asleep asleep-Reach
