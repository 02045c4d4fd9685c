-- ===== src/Connection/Kept.antt =====
-- net/tcp_connection.cpp: the bytes that a list of effects writes, and what sendInLoop keeps of a
-- message behind its direct write.
use reactor_kv.Prelude.{
  ◌+◌, ◌-◌, ◌^◌, ◌≤◌, ◌<◌, ◌≡◌, refl, sym, ap, ◌∙◌, Bool, true, false, ◌&&◌, Bool-cases, inl, inr,
  ltb, leb, List, [], ◌∷◌, ◌++◌, arith, length, take, drop, append-nil, append_assoc, take-all,
  drop-all, length-drop,
}
use reactor_kv.Bytes.{Bytes}
use reactor_kv.Words.{add_size}
use reactor_kv.Buffer.{readable_bytes, contents, append}
use reactor_kv.Buffer.Laws.{IsBuffer, append_refines}
use reactor_kv.Channel.{is_writing, with_writing}
use reactor_kv.Connection.{
  Effect, wrote, update_channel, remove_channel, shutdown_write, connection_callback,
  message_callback, close_callback, queue_write_complete, queue_high_water_mark, queue_send,
  queue_shutdown, queue_force_close, Connection, effect_if, Attempt, keep_rest,
}

-- The bytes that ::write has taken.
unfoldable pub written : List Effect → Bytes
written [] = []
written (wrote bs ∷ es) = bs ++ written es
written (_ ∷ es) = written es

pub written-append : (es fs : List Effect) → written (es ++ fs) ≡ written es ++ written fs
unfolding written
written-append [] fs = refl
written-append (wrote bs ∷ es) fs =
    ap (λ t. bs ++ t) (written-append es fs) ∙ sym (append_assoc bs (written es) (written fs))
written-append (update_channel _ ∷ es) fs = written-append es fs
written-append (remove_channel ∷ es) fs = written-append es fs
written-append (shutdown_write ∷ es) fs = written-append es fs
written-append (connection_callback _ ∷ es) fs = written-append es fs
written-append (message_callback ∷ es) fs = written-append es fs
written-append (close_callback ∷ es) fs = written-append es fs
written-append (queue_write_complete ∷ es) fs = written-append es fs
written-append (queue_high_water_mark _ ∷ es) fs = written-append es fs
written-append (queue_send _ ∷ es) fs = written-append es fs
written-append (queue_shutdown ∷ es) fs = written-append es fs
written-append (queue_force_close ∷ es) fs = written-append es fs

pub written-effect_if :
    (b : Bool) (e : Effect) → written (e ∷ []) ≡ [] → written (effect_if b e) ≡ []
unfolding written
written-effect_if true e h = h
written-effect_if false e h = refl

-- What the part of sendInLoop behind the direct write keeps.
pub record Kept (c : Connection) (rest : Bytes) (r : List Effect × Connection) : Type 0 where
  pub sent : written r.0 ≡ []
  pub held : contents r.1.output ≡ contents c.output ++ rest
  pub valid : IsBuffer r.1.output
  pub idle : is_writing r.1.events ≡ false → rest ≡ []
  pub same : is_writing r.1.events ≡ false → is_writing c.events ≡ false
  pub state : r.1.state ≡ c.state

pub keep_rest_lem :
    (a : Attempt) (message : Bytes) (c : Connection)
    → IsBuffer c.output
    → a.fault ≡ false
    → a.nwrote ≤ length message
    → a.remaining ≡ length message - a.nwrote
    → length c.output.store + length message < 2 ^ 63
    → Kept c (drop a.nwrote message) (keep_rest a message c)
unfolding keep_rest written
keep_rest_lem a message c v f n e small =
    let rest = drop a.nwrote message in
    let l = length-drop a.nwrote message in
    let t : take a.remaining rest ≡ rest = take-all a.remaining rest (omega arith) in
    let g : IsBuffer (append (take a.remaining rest) c.output)
        × (contents (append (take a.remaining rest) c.output) ≡ contents c.output ++ rest) =
      rw t (append_refines rest v (omega arith)) in
    let total = add_size (readable_bytes c.output) a.remaining in
    let high =
      leb c.high_water_mark total
      && ltb (readable_bytes c.output) c.high_water_mark
      && c.has_high_water_mark_callback in
    let q = written-effect_if high (queue_high_water_mark total) refl in
    elim (Bool-cases (ltb 0 a.remaining)) [
      | inl p ↦ elim (Bool-cases (is_writing c.events)) [
        | inl w ↦
            rw (f, p, w)
              (record {
                sent = q;
                held = g.1;
                valid = g.0;
                idle = λ x. cc;
                same = λ x. cc;
                state = refl;
              })
        | inr w ↦
            rw (f, p, w)
              (record {
                sent =
                    written-append (effect_if high (queue_high_water_mark total))
                      (update_channel (with_writing c.events) ∷ [])
                    ∙ ap (λ t. t ++ []) q;
                held = g.1;
                valid = g.0;
                idle = λ x. cc;
                same = λ x. cc;
                state = refl;
              })
      ]
      | inr p ↦
          let z : drop a.nwrote message ≡ [] = drop-all a.nwrote message (ground arith) in
          rw (f, p)
            (record {
              sent = refl;
              held = sym (ap (λ t. contents c.output ++ t) z ∙ append-nil (contents c.output));
              valid = v;
              idle = λ x. z;
              same = λ x. x;
              state = refl;
            })
    ]
