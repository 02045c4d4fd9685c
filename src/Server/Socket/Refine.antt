-- ===== src/Server/Socket/Refine.antt =====
-- A connection of the server from its start on, whatever the pieces in which the bytes come and the
-- socket takes the answers (net/tcp_connection.cpp, server/kv_server.cpp).
use reactor_kv.Prelude.{
  ℕ, suc, ◌+◌, ◌^◌, ◌≤◌, ◌<◌, ◌≡◌, refl, sym, ap, ◌∙◌, subst, Bool, true, false, ◌&&◌, Option, none,
  some, List, [], ◌∷◌, ◌++◌, length, length-append, append-nil, append_assoc, arith,
}
use reactor_kv.Bytes.{Bytes}
use reactor_kv.Buffer.{contents}
use reactor_kv.Buffer.Laws.{IsBuffer}
use reactor_kv.Buffer.Io.{read_fd_refines, read_fd-room}
use reactor_kv.Buffer.{read_fd}
use reactor_kv.SkipList.{Draws}
use reactor_kv.KvStore.{KvStore}
use reactor_kv.KvStore.Crud.{IsStore}
use reactor_kv.Channel.{with_reading}
use reactor_kv.Connection.{
  connected, is_connected, is_disconnected, Connection, Effect, update_channel, connect_established,
  handle_read, handle_write,
}
use reactor_kv.Connection.Kept.{written, written-append}
use reactor_kv.Connection.Flow.{IsConnection, Accepts, handle_write-Flows}
use reactor_kv.Connection.Frame.{handle_write-IsFramed}
use reactor_kv.Server.{on_connection}
use reactor_kv.Server.Stream.{serve, on_message_refines}
use reactor_kv.Server.Stream.Room.{on_message-store}
use reactor_kv.Server.Socket.{
  Socket, act_all, Peer, call_back, call_back_all, Event, established, writable, readable, occur,
  occur_all, Talk, spoken, stays, said, map_occur, map_occur_all,
}
use reactor_kv.Server.Socket.Acted.{IsActed, act_all-IsActed}

-- The connection is in order and not closed, its callbacks are the server's, its input buffer holds
-- what waits and has room for `n` bytes more, its output buffer for `m`, and the store stands for
-- the map.
pub record IsPeer (n m : ℕ) (p : Peer) (t : Talk) : Type 0 where
  pub order : IsConnection p.connection
  pub alive : is_disconnected p.connection.state ≡ false
  pub same : is_connected p.connection.state ≡ t.going
  pub on_up : p.connection.has_connection_callback ≡ true
  pub on_read : p.connection.has_message_callback ≡ true
  pub valid : IsBuffer p.connection.input
  pub held : contents p.connection.input ≡ t.left
  pub reads : length p.connection.input.store + n < 2 ^ 63
  pub sends : length p.connection.output.store + m < 2 ^ 63
  pub stored : IsStore p.store t.map

-- The peer does not close its side.
unfoldable pub IsOngoing : Event → Type 0
IsOngoing (readable (some [])) = ⊥
IsOngoing _ = Unit

unfoldable pub AreOngoing : List Event → Type 0
AreOngoing [] = Unit
AreOngoing (e ∷ es) = IsOngoing e × AreOngoing es

unfoldable pub arrived : Event → ℕ
arrived (readable (some bs)) = length bs
arrived _ = 0

unfoldable pub arrived_all : List Event → ℕ
unfolding arrived
arrived_all [] = 0
arrived_all (e ∷ es) = arrived e + arrived_all es

-- The socket takes at most what it is given, and is not broken.
abbrev pub IsSound : (ℕ → Socket) → Type 0
IsSound ws = (i : ℕ) (bs : Bytes) → Accepts (ws i bs) bs

-- What is written and what waits, against what waited and what is said.
record IsOccurred (n m : ℕ) (p : Peer) (o : Option (List Effect × Peer)) (r : Bytes × Talk)
    : Type 0 where
  effects : List Effect
  peer : Peer
  same : o ≡ some (effects, peer)
  flow : written effects ++ contents peer.connection.output ≡ contents p.connection.output ++ r.0
  valid : IsPeer n m peer r.1

IsPeer-less :
    {n m n' m' : ℕ} {p : Peer} {t : Talk} → n' ≤ n → m' ≤ m → IsPeer n m p t → IsPeer n' m' p t
IsPeer-less a b v = record {
  order = v.order;
  alive = v.alive;
  same = v.same;
  on_up = v.on_up;
  on_read = v.on_read;
  valid = v.valid;
  held = v.held;
  stored = v.stored;
  reads = (let x = v.reads in omega arith);
  sends = (let x = v.sends in omega arith);
}

-- A connection on which a callback has acted.
acted_lem :
    {n m : ℕ} {c d : Connection} {es : List Effect} {going : Bool} {message : Bytes} {s : KvStore}
    (t : Talk)
    → IsActed c going message (es, d)
    → going ≡ t.going
    → c.has_connection_callback ≡ true
    → c.has_message_callback ≡ true
    → IsBuffer c.input
    → contents c.input ≡ t.left
    → length c.input.store + n < 2 ^ 63
    → length c.output.store + (length message + m) < 2 ^ 63
    → IsStore s t.map
    → IsPeer n m (record { connection = d; store = s }) t
acted_lem {n = n} t a g u r b h x y s = record {
  order = a.flows.connection;
  alive = a.alive;
  same = a.going_lem ∙ g;
  on_up = a.on_up ∙ u;
  on_read = a.on_read ∙ r;
  valid = subst IsBuffer (sym a.input) b;
  held = ap contents a.input ∙ h;
  reads = subst (λ i. length i.store + n < 2 ^ 63) (sym a.input) x;
  sends = (let z = a.room in omega arith);
  stored = s;
}

established_lem :
    (draws : ℕ → Draws) (ws : ℕ → Socket) {n m : ℕ} {p : Peer} {t : Talk}
    → IsSound ws
    → IsPeer n (length (spoken (on_connection true)) + m) p t
    → IsOccurred n m p (occur draws ws established p) (map_occur established t)
unfolding occur call_back_all call_back map_occur connect_established written said on_connection
    stays
established_lem draws ws {n} {m} {p} {t} h v =
    let c = p.connection in
    let d : Connection = record c { state = connected; events = with_reading c.events } in
    let k : IsConnection d = record { valid = v.order.valid; idle = λ _. v.order.idle v.alive } in
    let a : IsActed d (stays (on_connection true)) (spoken (on_connection true))
        (act_all ws (on_connection true) d) =
      act_all-IsActed ws (on_connection true) d true k refl refl h
        (let z = v.sends in omega arith) in
    let r = act_all ws (on_connection true) d in
    record {
      effects = update_channel d.events ∷ r.0 ++ [];
      peer = record p { connection = r.1 };
      same = rw v.on_up refl;
      flow = ap (λ x. written x ++ contents r.1.output) (append-nil r.0) ∙ a.flows.flow;
      valid =
          acted_lem (record t { going = true }) a refl v.on_up v.on_read v.valid v.held v.reads
            v.sends v.stored;
    }

readable_lem :
    (draws : ℕ → Draws) (ws : ℕ → Socket) (got : Bytes) {n m : ℕ} {p : Peer} {t : Talk}
    → IsSound ws
    → IsOngoing (readable (some got))
    → IsPeer (length got + n) (length (map_occur (readable (some got)) t).0 + m) p t
    → IsOccurred n m p (occur draws ws (readable (some got)) p) (map_occur (readable (some got)) t)
unfolding occur call_back_all call_back map_occur handle_read written IsOngoing
readable_lem draws ws [] h g v = absurd g
readable_lem draws ws (b ∷ bs) {n} {m} {p} {t} h g v =
    let c = p.connection in
    let got = b ∷ bs in
    let small : length c.input.store + length got < 2 ^ 63 = (let z = v.reads in omega arith) in
    let (valid, held) = read_fd_refines got v.valid small in
    let input = read_fd (some got) c.input in
    let (r, e, s) = on_message_refines draws valid v.stored in
    let q : serve (contents input) t.map ≡ serve (t.left ++ got) t.map =
      ap (λ x. serve x t.map) (held ∙ ap (λ x. x ++ got) v.held) in
    let o = serve (t.left ++ got) t.map in
    let acts : r.actions ≡ o.actions = s.sent ∙ ap (λ x. x.actions) q in
    let d : Connection = record c { input = r.buffer } in
    let k : IsConnection d = record { valid = v.order.valid; idle = v.order.idle } in
    let f = act_all ws r.actions d in
    let a : IsActed d (t.going && stays o.actions) (said t.going o.actions) f =
      subst (λ x. IsActed d (t.going && stays x) (said t.going x) f) acts
        (act_all-IsActed ws r.actions d t.going k v.alive v.same h
          (rw acts (let z = v.sends in omega arith))) in
    let room : length r.buffer.store ≤ length c.input.store + length got =
      subst (λ x. length x ≤ length c.input.store + length got)
        (sym (on_message-store draws input p.store r e)) (read_fd-room got v.valid small) in
    record {
      effects = f.0 ++ [];
      peer = record { connection = f.1; store = r.store };
      same = rw (v.on_read, e) refl;
      flow = ap (λ x. written x ++ contents f.1.output) (append-nil f.0) ∙ a.flows.flow;
      valid =
          acted_lem (record { left = o.left; map = o.map; going = t.going && stays o.actions }) a
            refl v.on_up v.on_read s.valid (s.left ∙ ap (λ x. x.left) q)
            (let z = v.reads in omega arith) v.sends
            (subst (IsStore r.store) (ap (λ x. x.map) q) s.stored);
    }

failed_lem :
    (draws : ℕ → Draws) (ws : ℕ → Socket) {n m : ℕ} {p : Peer} {t : Talk}
    → IsPeer n m p t
    → IsOccurred n m p (occur draws ws (readable none) p) (map_occur (readable none) t)
unfolding occur call_back_all map_occur handle_read written
failed_lem draws ws {p = p} v = record {
  effects = [];
  peer = p;
  same = refl;
  flow = sym (append-nil (contents p.connection.output));
  valid = IsPeer-less (omega arith) (omega arith) v;
}

writable_lem :
    (draws : ℕ → Draws) (ws : ℕ → Socket) {n m : ℕ} {p : Peer} {t : Talk}
    → IsSound ws
    → IsPeer n m p t
    → IsOccurred n m p (occur draws ws writable p) (map_occur writable t)
unfolding occur map_occur
writable_lem draws ws {n} {m} {p} {t} h v =
    let c = p.connection in
    let w = ws 0 (contents c.output) in
    let f = handle_write-Flows w c v.order (h 0 (contents c.output)) in
    let g = handle_write-IsFramed w c in
    record {
      effects = (handle_write w c).0;
      peer = record p { connection = (handle_write w c).1 };
      same = refl;
      flow = f.flow;
      valid = record {
        order = f.connection;
        alive = ap is_disconnected g.state ∙ v.alive;
        same = ap is_connected g.state ∙ v.same;
        on_up = g.on_up ∙ v.on_up;
        on_read = g.on_read ∙ v.on_read;
        valid = subst IsBuffer (sym g.input) v.valid;
        held = ap contents g.input ∙ v.held;
        reads = subst (λ i. length i.store + n < 2 ^ 63) (sym g.input) v.reads;
        sends = (let x = g.room in let y = v.sends in omega arith);
        stored = v.stored;
      };
    }

occur_lem :
    (draws : ℕ → Draws) (ws : ℕ → Socket) (e : Event) {n m : ℕ} {p : Peer} {t : Talk}
    → IsSound ws
    → IsOngoing e
    → IsPeer (arrived e + n) (length (map_occur e t).0 + m) p t
    → IsOccurred n m p (occur draws ws e p) (map_occur e t)
unfolding arrived map_occur
occur_lem draws ws established {n} {m} h g v =
    established_lem draws ws h (IsPeer-less (omega arith) (omega arith) v)
occur_lem draws ws (readable (some got)) h g v = readable_lem draws ws got h g v
occur_lem draws ws (readable none) h g v =
    failed_lem draws ws (IsPeer-less (omega arith) (omega arith) v)
occur_lem draws ws writable h g v =
    writable_lem draws ws h (IsPeer-less (omega arith) (omega arith) v)

-- From the start of a connection on, whatever the pieces in which its bytes come, and however little
-- each write takes: the server faults nowhere, and what has been written and then what the output
-- buffer holds are what waited and then the welcome line and the answers to the complete lines, up
-- to the first QUIT.
pub occur_all_refines :
    (draws : ℕ → ℕ → Draws) (ws : ℕ → ℕ → Socket) (es : List Event) {p : Peer} {t : Talk}
    → ((i : ℕ) → IsSound (ws i))
    → AreOngoing es
    → IsPeer (arrived_all es) (length (map_occur_all es t).0) p t
    → (fs : List Effect) × (p' : Peer) × (occur_all draws ws es p ≡ some (fs, p'))
      × (written fs ++ contents p'.connection.output
          ≡ contents p.connection.output ++ (map_occur_all es t).0)
      × IsPeer 0 0 p' (map_occur_all es t).1
unfolding occur_all map_occur_all AreOngoing arrived_all written
occur_all_refines draws ws [] {p} h g v =
    ([], p, refl, sym (append-nil (contents p.connection.output)), v)
occur_all_refines draws ws (e ∷ es) {p} {t} h g v =
    let r = map_occur e t in
    let later = map_occur_all es r.1 in
    let l = length-append r.0 later.0 in
    let k : IsOccurred (arrived_all es) (length later.0) p (occur (draws 0) (ws 0) e p) r =
      occur_lem (draws 0) (ws 0) e (h 0) g.0 (IsPeer-less (omega arith) (omega arith) v) in
    let (fs, p', q, f, w) =
      occur_all_refines (λ i. draws (suc i)) (λ i. ws (suc i)) es (λ i. h (suc i)) g.1 k.valid in
    let out = contents k.peer.connection.output in
    (
      k.effects ++ fs,
      p',
      rw (occur_all, k.same, q) refl,
      ap (λ x. x ++ contents p'.connection.output) (written-append k.effects fs)
          ∙ append_assoc (written k.effects) (written fs) (contents p'.connection.output)
          ∙ ap (λ x. written k.effects ++ x) f
          ∙ sym (append_assoc (written k.effects) out later.0)
          ∙ ap (λ x. x ++ later.0) k.flow
          ∙ append_assoc (contents p.connection.output) r.0 later.0,
      w,
    )
