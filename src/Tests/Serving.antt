-- ===== src/Tests/Serving.antt =====
-- The server (server/kv_server.cpp) at concrete inputs.
use reactor_kv.Prelude.{ℕ, ◌≡◌, ◌==◌, refl, some, [], ◌∷◌, ◌++◌, arith}
use reactor_kv.Bytes.{bytes}
use reactor_kv.Message.{CommandType, Request}
use reactor_kv.Buffer.{Buffer, contents, append, readable_bytes, search_crlf, retrieve}
use reactor_kv.Words.{sub_size}
use reactor_kv.Codec.{parse_request, find_lf, bytes_to_skip, strip_cr, parse_line}
use reactor_kv.Buffer.Slice.{slice}
use reactor_kv.Buffer.Laws.{IsBuffer}
use reactor_kv.SkipList.{Draws}
use reactor_kv.KvStore
use reactor_kv.KvStore.{KvStore}
use reactor_kv.KvStore.Crud.{Map, IsStore, new-IsStore}
use reactor_kv.Client.{Parsed, parse_response, trim_end}
use reactor_kv.Client.Answers.{answer, IsReadable, parse_response-encode_response}
use reactor_kv.Codec.{encode_response}
use reactor_kv.SortedMap
use reactor_kv.SortedMap.{lookup}
use reactor_kv.Message.{ok_response}
use reactor_kv.Bytes.{bytes_order, Bytes}
use reactor_kv.Prelude.{All, false}
use reactor_kv.Server.{send, Served, handle_request, on_message}
use reactor_kv.Server.Requests.{map_handle, handle_request_refines}
use reactor_kv.Server.Stream.{serve, IsServed, on_message_refines}
use reactor_kv.Server.Stream.Chunks.{stays_open, on_message-chunks}

abbrev draws : ℕ → Draws
draws _ i = i == 0

abbrev put_a : Request
put_a = record { command = CommandType.put; key = bytes "a"; value = bytes "1" }

-- Two requests and the start of a third have arrived.
abbrev arrived : Buffer
arrived = record { store = bytes "........PUT a 1\r\nGET a\nGE"; reader = 8; writer = 25 }

arrived-IsBuffer : IsBuffer arrived
arrived-IsBuffer = record {
  start = omega arith;
  end = omega arith;
  spare = omega arith;
  small = omega arith;
}

on_message_refines_example :
    (r : Served) × (on_message draws arrived (KvStore.new 4) ≡ some r)
    × IsServed r (serve (contents arrived) [])
on_message_refines_example = on_message_refines draws arrived-IsBuffer (new-IsStore 4)

-- One whole request has arrived, and the start of another.
abbrev begun : Buffer
begun = record { store = bytes "........PING\nGE"; reader = 8; writer = 15 }

begun-IsBuffer : IsBuffer begun
begun-IsBuffer = record {
  start = omega arith;
  end = omega arith;
  spare = omega arith;
  small = omega arith;
}

abbrev waiting : Served
waiting = record {
  actions = send (bytes "+PONG\r\n") ∷ [];
  buffer = record begun { reader = 13 };
  store = KvStore.new 4;
}

begun-waits : on_message draws begun (KvStore.new 4) ≡ some waiting
unfolding on_message slice readable_bytes sub_size parse_request search_crlf find_lf retrieve
    bytes_to_skip strip_cr parse_line handle_request encode_response reactor_kv.Words.add_size
begun-waits = refl

on_message-chunks_example :
    (p : Served) × (q : Served) × (n : Map) × (on_message draws
        (append (bytes "T a\r\nS") waiting.buffer)
        (KvStore.new 4)
      ≡ some p)
    × (on_message draws (append (bytes "T a\r\nS") begun) (KvStore.new 4) ≡ some q)
    × (q.actions ≡ waiting.actions ++ p.actions)
    × (contents q.buffer ≡ contents p.buffer)
    × IsStore p.store n
    × IsStore q.store n
unfolding stays_open
on_message-chunks_example =
    on_message-chunks draws draws draws (bytes "T a\r\nS") {r = waiting} begun-IsBuffer
      (new-IsStore 4) begun-waits refl (omega arith) (omega arith)

abbrev before : Parsed
before = record { success = false; value = []; last_error = [] }

parse_response-encode_response_example :
    parse_response (encode_response (ok_response (bytes "a b"))) before
    ≡ answer (ok_response (bytes "a b")) before
unfolding IsReadable trim_end
parse_response-encode_response_example =
    parse_response-encode_response (ok_response (bytes "a b")) before refl

-- The store after a put of ("a", "1").
abbrev stored :
    (s : KvStore) × (handle_request (draws 0) put_a (KvStore.new 4)
      ≡ some ((map_handle CommandType.put (bytes "a") (bytes "1") []).0, s))
    × IsStore s (map_handle CommandType.put (bytes "a") (bytes "1") []).1
stored = handle_request_refines (draws 0) put_a (new-IsStore 4)

stored-trimmed :
    All
      (λ (e : Bytes × Bytes). trim_end e.1 ≡ e.1)
      (map_handle CommandType.put (bytes "a") (bytes "1") []).1
unfolding map_handle SortedMap.insert trim_end
stored-trimmed = (refl, tt)
