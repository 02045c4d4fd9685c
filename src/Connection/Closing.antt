-- ===== src/Connection/Closing.antt =====
-- net/tcp_connection.cpp: the writing side of a connection is shut down behind its last byte.
use reactor_kv.Prelude.{
  ◌<◌, ◌≡◌, refl, sym, ap, ◌∙◌, Bool, true, false, ◌&&◌, ◌||◌, not, Bool-cases, inl, inr, none,
  some, List, [], ◌∷◌, ◌++◌, arith, length, append-nil, append_assoc, ◌==◌, ltb, leb, drop-all,
}
use reactor_kv.Bytes.{Bytes}
use reactor_kv.Words.{add_size}
use reactor_kv.Buffer.{contents, readable_bytes, retrieve}
use reactor_kv.Buffer.Laws.{retrieve_refines, readable_bytes-length}
use reactor_kv.Channel.{is_writing, with_writing}
use reactor_kv.Connection.{
  disconnecting, is_disconnected, is_disconnecting, is_live, is_connected, Effect, wrote,
  update_channel, remove_channel, shutdown_write, connection_callback, message_callback,
  close_callback, queue_write_complete, queue_high_water_mark, queue_send, queue_shutdown,
  queue_force_close, Connection, effect_if, Wrote, count, again, broken, failed, Attempt, unwritten,
  try_write, keep_rest, send_in_loop, write_complete, handle_write, handle_read, shutdown,
  shutdown_in_loop, force_close, connect_established,
}
use reactor_kv.Connection.Kept.{written}
use reactor_kv.Connection.Flow.{IsConnection}
use reactor_kv.Connection.Sent.{
  Op, op_send, op_write, op_read, op_shutdown, op_shutdown_in_loop, op_force_close, op_established,
  apply, message_of, Allowed, AllAllowed, run, messages, run-Flows, apply-Flows,
}

-- Whether the writing side is shut down.
unfoldable pub shuts_down : List Effect → Bool
shuts_down [] = false
shuts_down (shutdown_write ∷ es) = true
shuts_down (_ ∷ es) = shuts_down es

shuts_down-append : (es fs : List Effect) → shuts_down (es ++ fs) ≡ (shuts_down es || shuts_down fs)
unfolding shuts_down
shuts_down-append [] fs = refl
shuts_down-append (shutdown_write ∷ es) fs = refl
shuts_down-append (wrote _ ∷ es) fs = shuts_down-append es fs
shuts_down-append (update_channel _ ∷ es) fs = shuts_down-append es fs
shuts_down-append (remove_channel ∷ es) fs = shuts_down-append es fs
shuts_down-append (connection_callback _ ∷ es) fs = shuts_down-append es fs
shuts_down-append (message_callback ∷ es) fs = shuts_down-append es fs
shuts_down-append (close_callback ∷ es) fs = shuts_down-append es fs
shuts_down-append (queue_write_complete ∷ es) fs = shuts_down-append es fs
shuts_down-append (queue_high_water_mark _ ∷ es) fs = shuts_down-append es fs
shuts_down-append (queue_send _ ∷ es) fs = shuts_down-append es fs
shuts_down-append (queue_shutdown ∷ es) fs = shuts_down-append es fs
shuts_down-append (queue_force_close ∷ es) fs = shuts_down-append es fs

quiet : (b : Bool) (e : Effect) → shuts_down (e ∷ []) ≡ false → shuts_down (effect_if b e) ≡ false
unfolding shuts_down
quiet true e h = h
quiet false e h = refl

keep_rest-quiet :
    (a : Attempt) (message : Bytes) (c : Connection) → shuts_down (keep_rest a message c).0 ≡ false
unfolding keep_rest shuts_down
keep_rest-quiet a message c =
    let total = add_size (readable_bytes c.output) a.remaining in
    let high =
      leb c.high_water_mark total
      && ltb (readable_bytes c.output) c.high_water_mark
      && c.has_high_water_mark_callback in
    let q = quiet high (queue_high_water_mark total) refl in
    elim (Bool-cases (not a.fault && ltb 0 a.remaining)) [
      | inl p ↦ elim (Bool-cases (is_writing c.events)) [
        | inl w ↦ rw (p, w) q
        | inr w ↦
            rw (p, w)
              (shuts_down-append (effect_if high (queue_high_water_mark total))
                  (update_channel (with_writing c.events) ∷ [])
                ∙ ap (λ t. t || false) q)
      ]
      | inr p ↦ rw p
    ]

try_write-quiet :
    (has : Bool) (w : Wrote) (message : Bytes)
    → shuts_down (try_write has w message).effects ≡ false
unfolding try_write shuts_down
try_write-quiet has (count n) message = quiet _ queue_write_complete refl
try_write-quiet has again message = refl
try_write-quiet has broken message = refl
try_write-quiet has failed message = refl

send_in_loop-quiet :
    (w : Wrote) (message : Bytes) (c : Connection) → shuts_down (send_in_loop w message c).0 ≡ false
unfolding send_in_loop shuts_down
send_in_loop-quiet w message c = elim (Bool-cases (is_disconnected c.state)) [
  | inl s ↦ rw s
  | inr s ↦ elim (Bool-cases (not (is_writing c.events) && readable_bytes c.output == 0)) [
    | inl e ↦
        let a = try_write c.has_write_complete_callback w message in
        rw (s, e)
          (shuts_down-append a.effects (keep_rest a message c).0
            ∙ ap (λ t. t || shuts_down (keep_rest a message c).0)
                (try_write-quiet c.has_write_complete_callback w message)
            ∙ keep_rest-quiet a message c)
    | inr e ↦ rw (s, e) (keep_rest-quiet (unwritten message) message c)
  ]
]

in_loop_lem :
    (c : Connection)
    → is_disconnected c.state ≡ false
    → shuts_down (shutdown_in_loop c).0 ≡ true
    → (is_writing c.events ≡ false) × (is_disconnected c.state ≡ false)
unfolding shutdown_in_loop shuts_down
in_loop_lem c s h = elim (Bool-cases (is_writing c.events)) [
  | inl e ↦ cc (rw e at h)
  | inr e ↦ (e, s)
]

-- A call shuts down only where the channel does not wait to write.
apply-shuts_down :
    (o : Op) (c : Connection)
    → is_disconnected c.state ≡ false
    → Allowed o c
    → shuts_down (apply o c).0 ≡ true
    → (is_writing (apply o c).1.events ≡ false) × (is_disconnected (apply o c).1.state ≡ false)
unfolding apply Allowed shuts_down handle_read shutdown shutdown_in_loop force_close
    connect_established handle_write write_complete
apply-shuts_down (op_send w message) c s a h = absurd (cc (send_in_loop-quiet w message c, h))
apply-shuts_down (op_write (count n)) c s a h = elim (Bool-cases (is_writing c.events && ltb 0 n)) [
  | inl e ↦ elim (Bool-cases (readable_bytes (retrieve n c.output) == 0)) [
    | inl z ↦ rw (e, z) (refl, s)
    | inr z ↦ cc (rw (e, z) at h)
  ]
  | inr e ↦ cc (rw e at h)
]
apply-shuts_down (op_write again) c s a h = cc
apply-shuts_down (op_write broken) c s a h = cc
apply-shuts_down (op_write failed) c s a h = cc
apply-shuts_down (op_read none) c s a h = cc
apply-shuts_down (op_read (some [])) c s a h = absurd a
apply-shuts_down (op_read (some (b ∷ bs))) c s a h =
    absurd (cc (quiet c.has_message_callback message_callback refl, h))
apply-shuts_down (op_shutdown in_loop) c s a h = elim (Bool-cases (is_connected c.state)) [
  | inl e ↦ elim (Bool-cases in_loop) [
    | inl l ↦ rw (e, l) (in_loop_lem (record c { state = disconnecting }) refl (rw (e, l) at h))
    | inr l ↦ cc (rw (e, l) at h)
  ]
  | inr e ↦ cc (rw e at h)
]
apply-shuts_down op_shutdown_in_loop c s a h = in_loop_lem c s h
apply-shuts_down op_force_close c s a h = elim (Bool-cases (is_live c.state)) [
  | inl e ↦ cc (rw e at h)
  | inr e ↦ cc (rw e at h)
]
apply-shuts_down op_established c s a h =
    absurd (cc (quiet c.has_connection_callback (connection_callback true) refl, h))

-- On a socket that is not broken, and before the connection closes: where a call shuts the writing side
-- down, every byte of every
-- message so far has been written to the socket.
pub shuts_down-written :
    (os : List Op) (o : Op) (c : Connection)
    → IsConnection c
    → AllAllowed os c
    → is_disconnected (run os c).1.state ≡ false
    → Allowed o (run os c).1
    → shuts_down (apply o (run os c).1).0 ≡ true
    → written (run os c).0 ++ written (apply o (run os c).1).0
      ≡ contents c.output ++ messages os ++ message_of o
shuts_down-written os o c k a s b h =
    let d = (run os c).1 in
    let r = apply o d in
    let (flow, k') = run-Flows os c k a in
    let f = apply-Flows o d k' b in
    let (w, open_r) = apply-shuts_down o d s b h in
    let e : contents r.1.output ≡ [] = f.connection.idle open_r w in
    let g : written r.0 ≡ contents d.output ++ message_of o =
      sym (append-nil (written r.0)) ∙ ap (λ t. written r.0 ++ t) (sym e) ∙ f.flow in
    ap (λ t. written (run os c).0 ++ t) g
    ∙ sym (append_assoc (written (run os c).0) (contents d.output) (message_of o))
    ∙ ap (λ t. t ++ message_of o) flow

-- After shutdown, the write that empties the output buffer shuts the writing side down.
pub handle_write-shuts_down :
    (c : Connection)
    → IsConnection c
    → is_disconnecting c.state ≡ true
    → is_writing c.events ≡ true
    → 0 < length (contents c.output)
    → shuts_down (handle_write (count (length (contents c.output))) c).0 ≡ true
unfolding handle_write write_complete shutdown_in_loop shuts_down
handle_write-shuts_down c k d w p =
    let n = length (contents c.output) in
    let (v, held) = retrieve_refines n k.valid in
    let e : contents (retrieve n c.output) ≡ [] =
      held ∙ drop-all n (contents c.output) (omega arith) in
    let l : length (contents (retrieve n c.output)) ≡ 0 = ap length e in
    let y = readable_bytes-length v in
    let z : (readable_bytes (retrieve n c.output) == 0) ≡ true = ground arith in
    let g : ltb 0 n ≡ true = ground arith in
    rw (w, g, z, d)
      (shuts_down-append (effect_if c.has_write_complete_callback queue_write_complete)
          (shutdown_write ∷ [])
        ∙ ap (λ t. t || true) (quiet c.has_write_complete_callback queue_write_complete refl))
