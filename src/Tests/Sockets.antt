-- ===== src/Tests/Sockets.antt =====
-- A connection of the server at concrete inputs: its bytes come in pieces, and the socket takes
-- three bytes at a time.
use reactor_kv.Prelude.{
  ℕ, ◌<◌, ◌^◌, ◌≡◌, ◌==◌, refl, true, false, none, some, List, [], ◌∷◌, ◌++◌, length, take,
  length-take, arith,
}
use reactor_kv.Bytes.{bytes}
use reactor_kv.Buffer.{contents}
use reactor_kv.Buffer.Laws.{new-IsBuffer, length-new}
use reactor_kv.SkipList.{Draws}
use reactor_kv.KvStore
use reactor_kv.KvStore.Crud.{new-IsStore}
use reactor_kv.Codec.{parse_line, strip_cr, is_prefix, encode_response, body}
use reactor_kv.Connection
use reactor_kv.Connection.{Effect, count}
use reactor_kv.Connection.Kept.{written}
use reactor_kv.Connection.Flow.{Accepts}
use reactor_kv.Server.{on_connection}
use reactor_kv.Server.Requests.{map_handle}
use reactor_kv.Server.Stream.{serve, cut_lines, serve_lines, add_byte}
use reactor_kv.Server.Socket.{
  Socket, Peer, Event, established, writable, readable, occur_all, Talk, spoken, stays, said,
  map_occur, map_occur_all,
}
use reactor_kv.Server.Socket.Refine.{
  IsPeer, IsSound, AreOngoing, IsOngoing, arrived, arrived_all, occur_all_refines,
}

abbrev draws : ℕ → ℕ → Draws
draws _ _ i = i == 0

-- Three bytes at most.
abbrev sockets : ℕ → ℕ → Socket
sockets _ _ bs = count (length (take 3 bs))

sockets-IsSound : (i : ℕ) → IsSound (sockets i)
unfolding Accepts
sockets-IsSound i j bs = let h = length-take 3 bs in omega arith

abbrev events : List Event
events =
    established
    ∷ readable (some (bytes "PI"))
    ∷ writable
    ∷ readable none
    ∷ readable (some (bytes "NG\nQUIT\nPING\n"))
    ∷ writable
    ∷ []

abbrev peer : Peer
peer = record {
  connection = record Connection.create {
    has_connection_callback = true;
    has_message_callback = true;
    has_close_callback = true;
  };
  store = KvStore.new 16;
}

abbrev talk : Talk
talk = record { left = []; map = []; going = false }

events-arrived : arrived_all events < 2 ^ 62
unfolding arrived_all arrived
events-arrived = omega arith

events-said : (map_occur_all events talk).0 ≡ bytes "+WELCOME ReactorKV Server\r\n+PONG\r\n+BYE\r\n"
unfolding map_occur_all map_occur spoken stays said serve cut_lines serve_lines add_byte map_handle
    parse_line strip_cr is_prefix encode_response on_connection body
events-said = refl

peer-IsPeer : IsPeer (arrived_all events) (length (map_occur_all events talk).0) peer talk
unfolding Connection.create
peer-IsPeer =
    let b = new-IsBuffer 1024 (omega arith) in
    let l = length-new 1024 in
    let a = events-arrived in
    let s : length (map_occur_all events talk).0 < 2 ^ 62 = rw events-said (omega arith) in
    record {
      order = record { valid = b.0; idle = λ _ _. b.1 };
      alive = refl;
      same = refl;
      on_up = refl;
      on_read = refl;
      valid = b.0;
      held = b.1;
      reads = omega arith;
      sends = omega arith;
      stored = new-IsStore 16;
    }

occur_all_refines_example :
    (fs : List Effect) × (p : Peer) × (occur_all draws sockets events peer ≡ some (fs, p))
    × (written fs ++ contents p.connection.output
        ≡ contents peer.connection.output ++ (map_occur_all events talk).0)
    × IsPeer 0 0 p (map_occur_all events talk).1
unfolding AreOngoing IsOngoing
occur_all_refines_example =
    occur_all_refines draws sockets events sockets-IsSound (tt, (tt, (tt, (tt, (tt, (tt, tt))))))
      peer-IsPeer
