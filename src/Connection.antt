-- ===== src/Connection.antt =====
-- net/tcp_connection.cpp: one connection on its loop's thread. What a handler asks of the socket, of
-- the loop and of the callbacks is the list of its effects, in order.
pub mod Kept
pub mod Flow
pub mod Frame
pub mod Sent
pub mod Closing
use reactor_kv.Prelude.{
  ℕ, zero, ◌+◌, ◌*◌, Bool, true, false, ◌&&◌, not, ltb, leb, ◌==◌, if◌then◌else◌, Option, none,
  some, List, [], ◌∷◌, ◌++◌, length, take, drop,
}
use reactor_kv.Bytes.{Bytes}
use reactor_kv.Words.{add_size, sub_size}
use reactor_kv.Buffer
use reactor_kv.Buffer.{Buffer, readable_bytes, contents, append, retrieve, retrieve_all, read_fd}
use reactor_kv.Channel.{
  Events, no_events, is_writing, with_reading, with_writing, without_writing, Callback, Callbacks,
  handle_event,
}

-- StateE
pub data State : Type 0 where
  connecting connected disconnecting disconnected : State

abbrev pub is_connected : State → Bool
is_connected connected = true
is_connected _ = false

abbrev pub is_disconnecting : State → Bool
is_disconnecting disconnecting = true
is_disconnecting _ = false

abbrev pub is_disconnected : State → Bool
is_disconnected disconnected = true
is_disconnected _ = false

abbrev pub is_live : State → Bool
is_live connected = true
is_live disconnecting = true
is_live _ = false

pub data Effect : Type 0 where
  -- ::write has taken these bytes.
  wrote : Bytes → Effect
  -- Channel::update with these events, and Channel::remove.
  update_channel : Events → Effect
  remove_channel : Effect
  shutdown_write : Effect
  -- The callbacks, called or queued. connection_callback says whether the connection is up.
  connection_callback : Bool → Effect
  message_callback : Effect
  close_callback : Effect
  queue_write_complete : Effect
  queue_high_water_mark : ℕ → Effect
  -- Functors of this connection that the loop runs later.
  queue_send : Bytes → Effect
  queue_shutdown : Effect
  queue_force_close : Effect

pub record Connection : Type 0 where
  pub state : State
  pub events : Events
  pub input : Buffer
  pub output : Buffer
  pub high_water_mark : ℕ
  pub has_connection_callback : Bool
  pub has_message_callback : Bool
  pub has_close_callback : Bool
  pub has_write_complete_callback : Bool
  pub has_high_water_mark_callback : Bool

-- The constructor. The server sets the callbacks after it.
unfoldable pub create : Connection
unfolding Buffer.new
create = record {
  state = connecting;
  events = no_events;
  input = Buffer.new Buffer.initial_size;
  output = Buffer.new Buffer.initial_size;
  high_water_mark = 64 * 1024 * 1024;
  has_connection_callback = false;
  has_message_callback = false;
  has_close_callback = false;
  has_write_complete_callback = false;
  has_high_water_mark_callback = false;
}

abbrev pub effect_if : Bool → Effect → List Effect
effect_if asked e = if asked then e ∷ [] else []

abbrev pub set_events : Events → Connection → List Effect × Connection
set_events e c = (update_channel e ∷ [], record c { events = e })

-- What ::write returns: the bytes taken, EWOULDBLOCK, EPIPE or ECONNRESET, or another error.
pub data Wrote : Type 0 where
  count : ℕ → Wrote
  again broken failed : Wrote

-- nwrote, remaining and faultError of sendInLoop after the direct write.
pub record Attempt : Type 0 where
  pub nwrote : ℕ
  pub remaining : ℕ
  pub fault : Bool
  pub effects : List Effect

-- nwrote, remaining and faultError before the direct write.
abbrev pub unwritten : Bytes → Attempt
unwritten message = record { nwrote = 0; remaining = length message; fault = false; effects = [] }

unfoldable pub try_write : Bool → Wrote → Bytes → Attempt
try_write has_callback (count n) message =
    let remaining = sub_size (length message) n in
    record {
      nwrote = n;
      remaining = remaining;
      fault = false;
      effects =
          wrote (take n message) ∷ effect_if (remaining == 0 && has_callback) queue_write_complete;
    }
try_write has_callback again message = unwritten message
try_write has_callback broken message = record {
  nwrote = 0;
  remaining = length message;
  fault = true;
  effects = [];
}
try_write has_callback failed message = unwritten message

-- The part of sendInLoop that keeps what was not written.
unfoldable pub keep_rest : Attempt → Bytes → Connection → List Effect × Connection
unfolding readable_bytes append
keep_rest a message c =
    let old = readable_bytes c.output in
    let total = add_size old a.remaining in
    let rest = take a.remaining (drop a.nwrote message) in
    let high =
      leb c.high_water_mark total && ltb old c.high_water_mark && c.has_high_water_mark_callback in
    let kept = record c { output = append rest c.output } in
    if not a.fault && ltb 0 a.remaining
    then (if is_writing c.events then (effect_if high (queue_high_water_mark total), kept) else (
      effect_if high (queue_high_water_mark total) ++ update_channel (with_writing c.events) ∷ [],
      record kept { events = with_writing c.events },
    ))
    else ([], c)

-- sendInLoop. `w` is what the direct write returns, if there is one.
unfoldable pub send_in_loop : Wrote → Bytes → Connection → List Effect × Connection
unfolding readable_bytes try_write keep_rest
send_in_loop w message c =
    if is_disconnected c.state
    then ([], c)
    else (let a =
          if not (is_writing c.events) && readable_bytes c.output == 0
          then try_write c.has_write_complete_callback w message
          else unwritten message in
        let r = keep_rest a message c in (a.effects ++ r.0, r.1))

-- send of a string, on the loop's thread or on another.
unfoldable pub send : Bool → Wrote → Bytes → Connection → List Effect × Connection
unfolding send_in_loop
send in_loop w message c =
    if is_connected c.state
    then (if in_loop then send_in_loop w message c else (queue_send message ∷ [], c))
    else ([], c)

-- send of a buffer, which it empties.
unfoldable pub send_buffer : Bool → Wrote → Buffer → Connection → List Effect × Buffer × Connection
unfolding send_in_loop retrieve_all
send_buffer in_loop w buf c =
    let now = send_in_loop w (contents buf) c in
    let later = Buffer.retrieve_all_as_string buf in
    if is_connected c.state
    then (if in_loop
        then (now.0, retrieve_all buf, now.1)
        else (queue_send later.0 ∷ [], later.1, c))
    else ([], buf, c)

unfoldable pub shutdown_in_loop : Connection → List Effect × Connection
shutdown_in_loop c = (effect_if (not (is_writing c.events)) shutdown_write, c)

unfoldable pub shutdown : Bool → Connection → List Effect × Connection
unfolding shutdown_in_loop
shutdown in_loop c =
    let c' = record c { state = disconnecting } in
    if is_connected c.state
    then (if in_loop then shutdown_in_loop c' else (queue_shutdown ∷ [], c'))
    else ([], c)

unfoldable pub force_close : Connection → List Effect × Connection
force_close c =
    if is_live c.state
    then (queue_force_close ∷ [], record c { state = disconnecting })
    else ([], c)

unfoldable pub handle_close : Connection → List Effect × Connection
handle_close c = (
  update_channel no_events ∷ effect_if c.has_connection_callback (connection_callback false)
      ++ effect_if c.has_close_callback close_callback,
  record c { state = disconnected; events = no_events },
)

unfoldable pub force_close_in_loop : Connection → List Effect × Connection
unfolding handle_close
force_close_in_loop c = if is_live c.state then handle_close c else ([], c)

unfoldable pub connect_established : Connection → List Effect × Connection
connect_established c =
    let e = with_reading c.events in
    (
      update_channel e ∷ effect_if c.has_connection_callback (connection_callback true),
      record c { state = connected; events = e },
    )

unfoldable pub connect_destroyed : Connection → List Effect × Connection
connect_destroyed c =
    if is_connected c.state
    then (
      update_channel no_events ∷ effect_if c.has_connection_callback (connection_callback false)
          ++ remove_channel ∷ [],
      record c { state = disconnected; events = no_events },
    )
    else (remove_channel ∷ [], c)

-- handleRead. none is a failure of readv, the empty string is the end of the stream.
unfoldable pub handle_read : Option Bytes → Connection → List Effect × Connection
unfolding handle_close read_fd
handle_read none c = ([], c)
handle_read (some []) c = handle_close (record c { input = read_fd (some []) c.input })
handle_read (some (b ∷ bs)) c = (
  effect_if c.has_message_callback message_callback,
  record c { input = read_fd (some (b ∷ bs)) c.input },
)

-- The end of handleWrite, where the output buffer has run empty.
unfoldable pub write_complete : Connection → List Effect × Connection
unfolding shutdown_in_loop
write_complete c =
    let d = record c { events = without_writing c.events } in
    (
      update_channel d.events ∷ effect_if c.has_write_complete_callback queue_write_complete
          ++ (if is_disconnecting c.state then (shutdown_in_loop d).0 else []),
      d,
    )

-- handleWrite
unfoldable pub handle_write : Wrote → Connection → List Effect × Connection
unfolding readable_bytes retrieve write_complete
handle_write (count n) c =
    let d = record c { output = retrieve n c.output } in
    let r = write_complete d in
    let sent = wrote (take n (contents c.output)) in
    if is_writing c.events && ltb 0 n
    then (if readable_bytes d.output == 0 then (sent ∷ r.0, r.1) else (sent ∷ [], d))
    else ([], c)
handle_write _ c = ([], c)
