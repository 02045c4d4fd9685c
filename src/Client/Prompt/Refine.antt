-- ===== src/Client/Prompt/Refine.antt =====
-- Lines typed at the prompt of client/main.cpp, on a connection to server/kv_server.cpp, against a
-- map.
use reactor_kv.Prelude.{
  ℕ, suc, ◌+◌, ◌<◌, ◌^◌, ◌≤◌, ◌≡◌, refl, sym, ap, true, false, Bool-cases, inl, inr, Option, none,
  some, List, [], ◌∷◌, ◌++◌, length, All, arith, ◌>>=◌,
}
use reactor_kv.Bytes.{Bytes, bytes, bytes_order}
use reactor_kv.SortedMap.{lookup}
use reactor_kv.SkipList.{Draws}
use reactor_kv.KvStore.Crud.{Map}
use reactor_kv.Client.Commands.{Call, command}
use reactor_kv.Client.Session.{Reply, text, World, round, map_call}
use reactor_kv.Client.Session.Carried.{call-length}
use reactor_kv.Client.Session.Refine.{IsWorld, round_lem}
use reactor_kv.Client.Prompt.Typed.{AsksWord, IsTyped, typed-IsSendable, read_entry-AsksWord}
use reactor_kv.Client.Prompt.{
  Entry, read_entry, print_reply, print_entry, is_quit, enter, prompt_loop,
}

-- The two sides, and the levels that later inserts draw.
pub record Turn : Type 0 where
  pub draws : ℕ → ℕ → Draws
  pub world : World

-- A call of the client, and lastError() behind it.
abbrev pub ask_server : Call → Turn → Option (Reply × Bytes × Turn)
ask_server k t = do
  (reply, w) ← round (t.draws 0) k t.world
  some (reply, w.client.last_error, record { draws = λ i. t.draws (suc i); world = w })

-- A call of a map, which never fails.
abbrev pub ask_map : Call → Map → Option (Reply × Bytes × Map)
ask_map k m = let r = map_call k m in some (r.0, [], r.1)

-- What is printed of a map's answer does not depend on lastError().
print_reply-map :
    (k : Call) (m : Map) (e : Bytes)
    → print_reply k (map_call k m).0 e ≡ print_reply k (map_call k m).0 []
unfolding print_reply map_call
print_reply-map (Call.put key value) m e = refl
print_reply-map (Call.get key) m e = by_found (lookup key m)
  where
    by_found :
        (f : Option Bytes)
        → print_reply (Call.get key) (elim f [ none ↦ text false [] | some v ↦ text true v ]) e
          ≡ print_reply (Call.get key) (elim f [ none ↦ text false [] | some v ↦ text true v ]) []
    by_found none = refl
    by_found (some v) = refl
print_reply-map (Call.del key) m e = refl
print_reply-map (Call.exists key) m e = refl
print_reply-map Call.size m e = refl
print_reply-map Call.clear m e = refl
print_reply-map Call.ping m e = refl

-- The bytes that a line makes the client send.
unfoldable pub cost_of : Entry → ℕ
cost_of (Entry.run k) = length (command k)
cost_of _ = 0

unfoldable pub cost : List Bytes → ℕ
unfolding cost_of
cost [] = 0
cost (line ∷ lines) = cost_of (read_entry line) + cost lines

-- One line prints the same on both sides.
record IsEntered (e : Entry) (t : Turn) (m : Map) : Type 0 where
  out : Bytes
  next : Turn
  map : Map
  served : enter ask_server e t ≡ some (out, next)
  asked : enter ask_map e m ≡ some (out, map)
  valid : IsWorld next.world map
  keys : length map ≤ suc (length m)
  room : length next.world.buffer.store ≤ length t.world.buffer.store + cost_of e

still :
    (e : Entry) (t : Turn) {m : Map}
    → IsWorld t.world m
    → enter ask_server e t ≡ some (print_entry e, t)
    → enter ask_map e m ≡ some (print_entry e, m)
    → IsEntered e t m
still e t {m} i a b = record {
  out = print_entry e;
  next = t;
  map = m;
  served = a;
  asked = b;
  valid = i;
  keys = omega arith;
  room = omega arith;
}

enter_lem :
    (e : Entry) (t : Turn) {m : Map}
    → IsWorld t.world m
    → AsksWord e
    → IsTyped e
    → length m < 2 ^ 31
    → length t.world.buffer.store + cost_of e < 2 ^ 63
    → IsEntered e t m
unfolding enter cost_of
enter_lem (Entry.run k) t {m} i a y few small =
    let s = typed-IsSendable k a y in
    let (w, r, j, l) = round_lem (t.draws 0) k i s.0 s.1 few small in
    record {
      out = print_reply k (map_call k m).0 w.client.last_error ++ bytes "reactorkv> ";
      next = record { draws = λ i. t.draws (suc i); world = w };
      map = (map_call k m).1;
      served = rw r refl;
      asked =
          ap (λ t. some (t ++ bytes "reactorkv> ", (map_call k m).1))
            (sym (print_reply-map k m w.client.last_error));
      valid = j;
      keys = call-length k m;
      room = l;
    }
enter_lem Entry.blank t i a y few small = still Entry.blank t i refl refl
enter_lem Entry.quit t i a y few small = still Entry.quit t i refl refl
enter_lem Entry.help t i a y few small = still Entry.help t i refl refl
enter_lem (Entry.usage u) t i a y few small = still (Entry.usage u) t i refl refl
enter_lem (Entry.unknown c) t i a y few small = still (Entry.unknown c) t i refl refl

-- Whatever lines are typed at the prompt, a client on a connection in use prints for each of them,
-- up to the first QUIT, what it would print if a map answered its calls, and the store ends as the
-- map does. Only a PUT has a condition: its key's first byte is not in "PUT", and its value is short,
-- starts with no space and holds no line end at its end.
pub prompt_loop_refines :
    (lines : List Bytes) (t : Turn) {m : Map}
    → IsWorld t.world m
    → All (λ l. IsTyped (read_entry l)) lines
    → length m + length lines < 2 ^ 31
    → length t.world.buffer.store + cost lines < 2 ^ 63
    → (outs : List Bytes) × (t' : Turn) × (n : Map) × (prompt_loop ask_server lines t
        ≡ some (outs, t'))
      × (prompt_loop ask_map lines m ≡ some (outs, n))
      × IsWorld t'.world n
unfolding prompt_loop cost
prompt_loop_refines [] t {m} i y few small = ([], t, m, refl, refl, i)
prompt_loop_refines (line ∷ lines) t {m} i y few small =
    let e = read_entry line in
    let k = enter_lem e t i (read_entry-AsksWord line) y.0 (omega arith) (omega arith) in
    let l = k.room in
    let n = k.keys in
    elim (Bool-cases (is_quit e)) [
      | inl q ↦ (
        k.out ∷ [],
        k.next,
        k.map,
        rw (prompt_loop, k.served, q) refl,
        rw (prompt_loop, k.asked, q) refl,
        k.valid,
      )
      | inr q ↦
          let (outs, t', o, a, b, v) =
            prompt_loop_refines lines k.next k.valid y.1 (omega arith) (omega arith) in
          (
            k.out ∷ outs,
            t',
            o,
            rw (prompt_loop, k.served, q, a) refl,
            rw (prompt_loop, k.asked, q, b) refl,
            v,
          )
    ]
