-- ===== src/Connection/Flow.antt =====
-- net/tcp_connection.cpp: no byte that the connection accepts is lost, doubled or moved.
use reactor_kv.Prelude.{
  ◌+◌, ◌-◌, ◌^◌, ◌≤◌, ◌<◌, ◌≡◌, refl, sym, ap, ◌∙◌, Bool, false, ◌&&◌, not, Bool-cases, inl, inr,
  ◌==◌, ltb, List, [], ◌++◌, arith, length, take, drop, append-nil, take-append-drop, drop-all,
}
use mathlib.Core.Path.{ap₂}
use reactor_kv.Bytes.{Bytes}
use reactor_kv.Words.{sub_size, sub_size-sub}
use reactor_kv.Buffer.{Buffer, readable_bytes, contents, retrieve}
use reactor_kv.Buffer.Laws.{IsBuffer, readable_bytes-length, retrieve_refines}
use reactor_kv.Channel.{is_writing}
use reactor_kv.Connection.{
  is_disconnected, is_disconnecting, Effect, shutdown_write, queue_write_complete, Connection,
  effect_if, Wrote, count, again, broken, failed, Attempt, unwritten, try_write, keep_rest,
  send_in_loop, write_complete, handle_write, shutdown_in_loop,
}
use reactor_kv.Connection.Kept.{written, written-append, written-effect_if, keep_rest_lem}

-- The output buffer is empty unless the channel waits to write.
pub record IsConnection (c : Connection) : Type 0 where
  pub valid : IsBuffer c.output
  pub idle : is_disconnected c.state ≡ false → is_writing c.events ≡ false → contents c.output ≡ []

-- ::write takes at most what it is given, and the connection is not broken.
unfoldable pub Accepts : Wrote → Bytes → Type 0
Accepts (count n) message = n ≤ length message
Accepts again message = Unit
Accepts failed message = Unit
Accepts broken message = ⊥

-- What was written and what waits, against what waited and what came.
pub record Flows (c : Connection) (message : Bytes) (r : List Effect × Connection) : Type 0 where
  pub flow : written r.0 ++ contents r.1.output ≡ contents c.output ++ message
  pub connection : IsConnection r.1

-- What sendInLoop does where nothing waits, with what the direct write has left.
direct_lem :
    (a : Attempt) (message : Bytes) (c : Connection)
    → IsConnection c
    → contents c.output ≡ []
    → a.fault ≡ false
    → a.nwrote ≤ length message
    → a.remaining ≡ length message - a.nwrote
    → written a.effects ≡ take a.nwrote message
    → length c.output.store + length message < 2 ^ 63
    → let r = keep_rest a message c in Flows c message (a.effects ++ r.0, r.1)
direct_lem a message c k z f n e w small =
    let r = keep_rest a message c in
    let g = keep_rest_lem a message c k.valid f n e small in
    let held : contents r.1.output ≡ drop a.nwrote message =
      g.held ∙ ap (λ t. t ++ drop a.nwrote message) z in
    record {
      flow =
          ap (λ t. t ++ contents r.1.output)
            (written-append a.effects r.0
              ∙ ap (λ t. written a.effects ++ t) g.sent
              ∙ append-nil (written a.effects)
              ∙ w)
          ∙ ap (λ t. take a.nwrote message ++ t) held
          ∙ take-append-drop a.nwrote message
          ∙ sym (ap (λ t. t ++ message) z);
      connection = record { valid = g.valid; idle = λ _ i. held ∙ g.idle i };
    }

-- The queued case of sendInLoop: everything waits.
queued_lem :
    (message : Bytes) (c : Connection)
    → IsConnection c
    → is_disconnected c.state ≡ false
    → length c.output.store + length message < 2 ^ 63
    → Flows c message (keep_rest (unwritten message) message c)
queued_lem message c k s small =
    let a = unwritten message in
    let r = keep_rest a message c in
    let g = keep_rest_lem a message c k.valid refl (omega arith) (omega arith) small in
    record {
      flow = ap (λ t. t ++ contents r.1.output) g.sent ∙ g.held;
      connection = record {
        valid = g.valid;
        idle = λ _ i.
            g.held
            ∙ ap (λ t. contents c.output ++ t) (g.idle i)
            ∙ append-nil (contents c.output)
            ∙ k.idle s (g.same i);
      };
    }

pub readable-empty : (b : Buffer) → IsBuffer b → readable_bytes b ≡ 0 → contents b ≡ []
readable-empty b v e = drop-all 0 (contents b) (let l = readable_bytes-length v in omega arith)

try_write_lem :
    (has : Bool) (w : Wrote) (message : Bytes)
    → Accepts w message
    → length message < 2 ^ 63
    → let a = try_write has w message in
      (a.fault ≡ false)
      × (a.nwrote ≤ length message)
      × (a.remaining ≡ length message - a.nwrote)
      × (written a.effects ≡ take a.nwrote message)
unfolding try_write Accepts written
try_write_lem has (count n) message h small = (
  refl,
  h,
  sub_size-sub (length message) n h (omega arith),
  ap (λ t. take n message ++ t)
        (written-effect_if (sub_size (length message) n == 0 && has) queue_write_complete refl)
      ∙ append-nil (take n message),
)
try_write_lem has again message h small = (refl, omega arith, omega arith, refl)
try_write_lem has failed message h small = (refl, omega arith, omega arith, refl)
try_write_lem has broken message h small = absurd h

-- Where the connection is not yet closed and the socket not broken, what sendInLoop writes at once
-- and what then waits in the output buffer are what waited before and the message behind it; and
-- the channel waits to write wherever bytes wait.
pub send_in_loop-Flows :
    (w : Wrote) (message : Bytes) (c : Connection)
    → IsConnection c
    → is_disconnected c.state ≡ false
    → Accepts w message
    → length c.output.store + length message < 2 ^ 63
    → Flows c message (send_in_loop w message c)
unfolding send_in_loop
send_in_loop-Flows w message c k s h small =
    elim (Bool-cases (not (is_writing c.events) && readable_bytes c.output == 0)) [
      | inl e ↦
          let b : readable_bytes c.output ≡ 0 = ground arith in
          let (f, n, r, t) =
            try_write_lem c.has_write_complete_callback w message h (omega arith) in
          rw (s, e)
            (direct_lem (try_write c.has_write_complete_callback w message) message c k
              (readable-empty c.output k.valid b) f n r t small)
      | inr e ↦ rw (s, e) (queued_lem message c k s small)
    ]

pub unchanged : (c : Connection) → IsConnection c → Flows c [] ([], c)
unfolding written
unchanged c k = record { flow = sym (append-nil (contents c.output)); connection = k }

-- Where the socket is not broken, what handleWrite writes and what then waits are what waited
-- before; and the channel waits to write wherever bytes wait.
pub handle_write-Flows :
    (w : Wrote) (c : Connection)
    → IsConnection c
    → Accepts w (contents c.output)
    → Flows c [] (handle_write w c)
unfolding handle_write write_complete shutdown_in_loop written Accepts
handle_write-Flows (count n) c k h =
    let (v, held) = retrieve_refines n k.valid in
    let moved : take n (contents c.output) ++ contents (retrieve n c.output)
        ≡ contents c.output ++ [] =
      ap (λ t. take n (contents c.output) ++ t) held
      ∙ take-append-drop n (contents c.output)
      ∙ sym (append-nil (contents c.output)) in
    elim (Bool-cases (is_writing c.events && ltb 0 n)) [
      | inl e ↦ elim (Bool-cases (readable_bytes (retrieve n c.output) == 0)) [
        | inl z ↦
            rw (e, z)
              (record {
                flow =
                    ap (λ t. (take n (contents c.output) ++ t) ++ contents (retrieve n c.output))
                      (written-append (effect_if c.has_write_complete_callback queue_write_complete)
                          (effect_if (is_disconnecting c.state) shutdown_write)
                        ∙ ap₂ (λ x y. x ++ y)
                            (written-effect_if c.has_write_complete_callback queue_write_complete
                              refl)
                            (written-effect_if (is_disconnecting c.state) shutdown_write refl))
                    ∙ ap (λ t. t ++ contents (retrieve n c.output))
                        (append-nil (take n (contents c.output)))
                    ∙ moved;
                connection = record {
                  valid = v;
                  idle = λ _ _. readable-empty (retrieve n c.output) v (ground arith);
                };
              })
        | inr z ↦
            rw (e, z)
              (record {
                flow =
                    ap (λ t. t ++ contents (retrieve n c.output))
                      (append-nil (take n (contents c.output)))
                    ∙ moved;
                connection = record { valid = v; idle = λ _ i. absurd (ground arith) };
              })
      ]
      | inr e ↦ rw e (unchanged c k)
    ]
handle_write-Flows again c k h = unchanged c k
handle_write-Flows failed c k h = unchanged c k
handle_write-Flows broken c k h = absurd h
