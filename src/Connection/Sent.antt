-- ===== src/Connection/Sent.antt =====
-- net/tcp_connection.cpp: a connection's life as a sequence of calls on its loop's thread, and when
-- it shuts its writing side down.
use reactor_kv.Prelude.{
  ◌+◌, ◌^◌, ◌<◌, ◌≡◌, refl, sym, ap, ◌∙◌, Bool, true, false, not, Bool-cases, inl, inr, Option,
  none, some, List, [], ◌∷◌, ◌++◌, length, append-nil, append_assoc,
}
use reactor_kv.Bytes.{Bytes}
use reactor_kv.Buffer.{contents}
use reactor_kv.Channel.{is_writing}
use reactor_kv.Connection.{
  State, connecting, connected, disconnecting, disconnected, is_disconnected, is_live, is_connected,
  Effect, shutdown_write, connection_callback, message_callback, queue_shutdown, queue_force_close,
  Connection, Wrote, send_in_loop, handle_write, handle_read, shutdown, shutdown_in_loop,
  force_close, connect_established,
}
use reactor_kv.Connection.Kept.{written, written-append, written-effect_if}
use reactor_kv.Connection.Flow.{
  IsConnection, Accepts, Flows, unchanged, send_in_loop-Flows, handle_write-Flows,
}

-- The calls of a connection. After the first one that closes it, nothing is sent.
pub data Op : Type 0 where
  op_send : Wrote → Bytes → Op
  op_write : Wrote → Op
  op_read : Option Bytes → Op
  op_shutdown : Bool → Op
  op_shutdown_in_loop : Op
  op_force_close : Op
  op_established : Op

unfoldable pub apply : Op → Connection → List Effect × Connection
apply (op_send w message) c = send_in_loop w message c
apply (op_write w) c = handle_write w c
apply (op_read got) c = handle_read got c
apply (op_shutdown in_loop) c = shutdown in_loop c
apply op_shutdown_in_loop c = shutdown_in_loop c
apply op_force_close c = force_close c
apply op_established c = connect_established c

-- The message that the call hands over.
unfoldable pub message_of : Op → Bytes
message_of (op_send w message) = message
message_of _ = []

-- The call comes before the connection closes, the socket is not broken and not at its end, and the
-- buffer has room.
unfoldable pub Allowed : Op → Connection → Type 0
Allowed (op_send w message) c =
    (is_disconnected c.state ≡ false)
    × Accepts w message
    × (length c.output.store + length message < 2 ^ 63)
Allowed (op_write w) c = Accepts w (contents c.output)
Allowed (op_read none) c = Unit
Allowed (op_read (some [])) c = ⊥
Allowed (op_read (some (b ∷ bs))) c = Unit
Allowed (op_shutdown in_loop) c = Unit
Allowed op_shutdown_in_loop c = Unit
Allowed op_force_close c = Unit
Allowed op_established c = is_disconnected c.state ≡ false

unfoldable pub run : List Op → Connection → List Effect × Connection
run [] c = ([], c)
run (o ∷ os) c = let r = apply o c in let s = run os r.1 in (r.0 ++ s.0, s.1)

unfoldable pub AllAllowed : List Op → Connection → Type 0
AllAllowed [] c = Unit
AllAllowed (o ∷ os) c = Allowed o c × AllAllowed os (apply o c).1

pub messages : List Op → Bytes
messages [] = []
messages (o ∷ os) = message_of o ++ messages os

-- A call that writes nothing and leaves the output buffer.
silent :
    (es : List Effect) (c d : Connection)
    → IsConnection d
    → d.output ≡ c.output
    → written es ≡ []
    → Flows c [] (es, d)
silent es c d k e w = record {
  flow = ap (λ t. t ++ contents d.output) w ∙ ap contents e ∙ sym (append-nil (contents c.output));
  connection = k;
}

pub live-open : (s : State) → is_live s ≡ true → is_disconnected s ≡ false
live-open connecting h = cc
live-open connected h = refl
live-open disconnecting h = refl
live-open disconnected h = cc

pub connected-open : (s : State) → is_connected s ≡ true → is_disconnected s ≡ false
connected-open connecting h = cc
connected-open connected h = refl
connected-open disconnecting h = cc
connected-open disconnected h = cc

shutdown_in_loop-Flows : (c : Connection) → IsConnection c → Flows c [] (shutdown_in_loop c)
unfolding shutdown_in_loop written
shutdown_in_loop-Flows c k =
    silent (shutdown_in_loop c).0 c c k refl
      (written-effect_if (not (is_writing c.events)) shutdown_write refl)

pub shutdown-Flows :
    (in_loop : Bool) (c : Connection) → IsConnection c → Flows c [] (shutdown in_loop c)
unfolding shutdown written
shutdown-Flows in_loop c k =
    let d = record c { state = disconnecting } in
    elim (Bool-cases (is_connected c.state)) [
      | inl e ↦
          let kd : IsConnection d = record {
            valid = k.valid;
            idle = λ _. k.idle (connected-open c.state e);
          } in
          elim (Bool-cases in_loop) [
            | inl l ↦
                rw (e, l)
                  (let f = shutdown_in_loop-Flows d kd in
                    record { flow = f.flow; connection = f.connection })
            | inr l ↦ rw (e, l) (silent (queue_shutdown ∷ []) c d kd refl refl)
          ]
      | inr e ↦ rw e (unchanged c k)
    ]

pub apply-Flows :
    (o : Op) (c : Connection) → IsConnection c → Allowed o c → Flows c (message_of o) (apply o c)
unfolding apply message_of Allowed handle_read force_close connect_established written
apply-Flows (op_send w message) c k a = send_in_loop-Flows w message c k a.0 a.1 a.2
apply-Flows (op_write w) c k a = handle_write-Flows w c k a
apply-Flows (op_read none) c k a = unchanged c k
apply-Flows (op_read (some [])) c k a = absurd a
apply-Flows (op_read (some (b ∷ bs))) c k a =
    silent (handle_read (some (b ∷ bs)) c).0 c (handle_read (some (b ∷ bs)) c).1
      (record { valid = k.valid; idle = k.idle }) refl
      (written-effect_if c.has_message_callback message_callback refl)
apply-Flows (op_shutdown in_loop) c k a = shutdown-Flows in_loop c k
apply-Flows op_shutdown_in_loop c k a = shutdown_in_loop-Flows c k
apply-Flows op_force_close c k a = elim (Bool-cases (is_live c.state)) [
  | inl e ↦ rw e (
      silent (queue_force_close ∷ []) c (record c { state = disconnecting })
        (record { valid = k.valid; idle = λ _. k.idle (live-open c.state e) }) refl refl)
  | inr e ↦ rw e (unchanged c k)
]
apply-Flows op_established c k a =
    silent (connect_established c).0 c (connect_established c).1
      (record { valid = k.valid; idle = λ _. k.idle a }) refl
      (written-effect_if c.has_connection_callback (connection_callback true) refl)

-- One call and then another.
pub Flows-trans :
    {c d e : Connection} {m m' : Bytes} {es fs : List Effect}
    → Flows c m (es, d)
    → Flows d m' (fs, e)
    → Flows c (m ++ m') (es ++ fs, e)
Flows-trans {c} {d} {e} {m} {m'} {es} {fs} f g = record {
  flow =
      ap (λ t. t ++ contents e.output) (written-append es fs)
      ∙ append_assoc (written es) (written fs) (contents e.output)
      ∙ ap (λ t. written es ++ t) g.flow
      ∙ sym (append_assoc (written es) (contents d.output) m')
      ∙ ap (λ t. t ++ m') f.flow
      ∙ append_assoc (contents c.output) m m';
  connection = g.connection;
}

-- Over any sequence of calls, the bytes written to the socket and then those in the output buffer
-- are those that waited at the start and then the messages, in their order: none is lost, doubled
-- or moved, however little each write takes. The connection stays in order.
pub run-Flows :
    (os : List Op) (c : Connection)
    → IsConnection c
    → AllAllowed os c
    → (written (run os c).0 ++ contents (run os c).1.output ≡ contents c.output ++ messages os)
      × IsConnection (run os c).1
unfolding run AllAllowed messages
run-Flows [] c k a = let u = unchanged c k in (u.flow, k)
run-Flows (o ∷ os) c k a =
    let f = apply-Flows o c k a.0 in
    let (g, k') = run-Flows os (apply o c).1 f.connection a.1 in
    let s = Flows-trans f (record { flow = g; connection = k' }) in (s.flow, k')
