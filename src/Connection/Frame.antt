-- ===== src/Connection/Frame.antt =====
-- net/tcp_connection.cpp: what sendInLoop and handleWrite leave as it is, and the room that they make.
use reactor_kv.Prelude.{
  ℕ, ◌+◌, ◌^◌, ◌≤◌, ◌<◌, ◌≡◌, refl, Bool-cases, inl, inr, ◌&&◌, not, ltb, ◌==◌, if◌then◌else◌,
  length, take, drop, arith, length-take, length-drop,
}
use reactor_kv.Bytes.{Bytes}
use reactor_kv.Buffer.{readable_bytes, retrieve}
use reactor_kv.Buffer.Laws.{IsBuffer, append-room, retrieve-store}
use reactor_kv.Channel.{is_writing}
use reactor_kv.Connection.{
  is_disconnected, Connection, Wrote, count, again, broken, failed, Attempt, unwritten, try_write,
  keep_rest, send_in_loop, write_complete, handle_write,
}

-- The output buffer has grown by `n` at most, and the rest is as it was.
pub record IsFramed (c : Connection) (n : ℕ) (d : Connection) : Type 0 where
  pub state : d.state ≡ c.state
  pub input : d.input ≡ c.input
  pub on_up : d.has_connection_callback ≡ c.has_connection_callback
  pub on_read : d.has_message_callback ≡ c.has_message_callback
  pub room : length d.output.store ≤ length c.output.store + n

pub framed : (c : Connection) (n : ℕ) → IsFramed c n c
framed c n = record { state = refl; input = refl; on_up = refl; on_read = refl; room = omega arith }

keep_rest-IsFramed :
    (a : Attempt) (message : Bytes) (c : Connection)
    → IsBuffer c.output
    → length c.output.store + length message < 2 ^ 63
    → IsFramed c (length message) (keep_rest a message c).1
unfolding keep_rest
keep_rest-IsFramed a message c v h =
    let rest = take a.remaining (drop a.nwrote message) in
    let l = length-take a.remaining (drop a.nwrote message) in
    let d = length-drop a.nwrote message in
    let room = append-room rest v (omega arith) in
    elim (Bool-cases (not a.fault && ltb 0 a.remaining)) [
      | inl p ↦ elim (Bool-cases (is_writing c.events)) [
        | inl w ↦
            rw (p, w)
              (record {
                state = refl;
                input = refl;
                on_up = refl;
                on_read = refl;
                room = omega arith;
              })
        | inr w ↦
            rw (p, w)
              (record {
                state = refl;
                input = refl;
                on_up = refl;
                on_read = refl;
                room = omega arith;
              })
      ]
      | inr p ↦ rw p (framed c (length message))
    ]

pub send_in_loop-IsFramed :
    (w : Wrote) (message : Bytes) (c : Connection)
    → IsBuffer c.output
    → length c.output.store + length message < 2 ^ 63
    → IsFramed c (length message) (send_in_loop w message c).1
unfolding send_in_loop
send_in_loop-IsFramed w message c v h = elim (Bool-cases (is_disconnected c.state)) [
  | inl s ↦ rw s (framed c (length message))
  | inr s ↦
      let a =
        if not (is_writing c.events) && readable_bytes c.output == 0
        then try_write c.has_write_complete_callback w message
        else unwritten message in
      rw s (keep_rest-IsFramed a message c v h)
]

pub handle_write-IsFramed : (w : Wrote) (c : Connection) → IsFramed c 0 (handle_write w c).1
unfolding handle_write write_complete
handle_write-IsFramed (count n) c =
    let z = retrieve-store n c.output in
    elim (Bool-cases (is_writing c.events && ltb 0 n)) [
      | inl e ↦ elim (Bool-cases (readable_bytes (retrieve n c.output) == 0)) [
        | inl r ↦
            rw (e, r)
              (record {
                state = refl;
                input = refl;
                on_up = refl;
                on_read = refl;
                room = rw z (omega arith);
              })
        | inr r ↦
            rw (e, r)
              (record {
                state = refl;
                input = refl;
                on_up = refl;
                on_read = refl;
                room = rw z (omega arith);
              })
      ]
      | inr e ↦ rw e (framed c 0)
    ]
handle_write-IsFramed again c = framed c 0
handle_write-IsFramed failed c = framed c 0
handle_write-IsFramed broken c = framed c 0
