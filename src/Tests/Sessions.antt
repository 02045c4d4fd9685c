-- ===== src/Tests/Sessions.antt =====
-- The client (client/kvclient.cpp, client/main.cpp) and the server together, at concrete inputs.
use reactor_kv.Prelude.{ℕ, ◌≡◌, ◌==◌, refl, true, some, List, [], ◌∷◌, arith}
use reactor_kv.Bytes.{Bytes, bytes}
use reactor_kv.Buffer.Slice.{slice}
use reactor_kv.SkipList.{Draws}
use reactor_kv.KvStore
use reactor_kv.KvStore.Crud.{new-IsStore}
use reactor_kv.Client
use reactor_kv.Client.{Client}
use reactor_kv.Client.Commands.{
  Call, command, IsSendable, IsSafeKey, IsPlainValue, misses, misses-Without,
}
use reactor_kv.Client.Session.{World, session, map_session}
use reactor_kv.Client.Session.Carried.{IsShort}
use reactor_kv.Client.Session.Refine.{IsWorld, total, session_refines}
use reactor_kv.Client.Prompt.{read_entry, prompt_loop}
use reactor_kv.Client.Prompt.Typed.{IsTyped}
use reactor_kv.Client.Prompt.Refine.{Turn, ask_server, ask_map, cost, prompt_loop_refines}
use reactor_kv.KvStore.Crud.{Map}
use reactor_kv.Prelude.{All}
use reactor_kv.Codec.Frame.{newline}
use reactor_kv.Codec.Lines.{IsWord}

abbrev draws : ℕ → ℕ → Draws
draws _ _ i = i == 0

abbrev client : Client
client = record { connected = true; last_error = [] }

-- A client and a new server.
abbrev fresh : World
fresh = record {
  client = client;
  buffer = record { store = bytes "........"; reader = 8; writer = 8 };
  store = KvStore.new 4;
}

fresh-IsWorld : IsWorld fresh []
unfolding slice
fresh-IsWorld = record {
  connected = refl;
  valid = record {
    start = omega arith;
    end = omega arith;
    spare = omega arith;
    small = omega arith;
  };
  idle = refl;
  stored = new-IsStore 4;
  values = tt;
}

a-IsWord : IsWord (bytes "a")
a-IsWord = record { some_byte = refl; solid = (refl, tt) }

a-IsSafeKey : IsSafeKey (bytes "a")
unfolding IsSafeKey misses
a-IsSafeKey = (a-IsWord, misses-Without b'a' (bytes "PUT") refl)

value-IsPlainValue : IsPlainValue (bytes "1 2")
unfolding IsPlainValue misses
value-IsPlainValue = (refl, misses-Without newline (bytes "1 2") refl, refl)

abbrev calls : List Call
calls =
    Call.put (bytes "a") (bytes "1 2")
    ∷ Call.get (bytes "a")
    ∷ Call.size
    ∷ Call.del (bytes "a")
    ∷ []

session_refines_example :
    (w : World) × (session draws calls fresh ≡ some ((map_session calls []).0, w))
    × IsWorld w (map_session calls []).1
unfolding IsSendable IsShort total command Client.put_command Client.get_command Client.del_command
session_refines_example =
    session_refines draws calls fresh-IsWorld
      ((a-IsSafeKey, value-IsPlainValue), (a-IsWord, (tt, (a-IsWord, tt))))
      (omega arith, (tt, (tt, (tt, tt)))) (omega arith) (omega arith)

-- What is typed: a put in small letters, a get, and the end.
abbrev typed : List Bytes
typed = bytes "put a 1 2" ∷ bytes "GET a" ∷ bytes "quit" ∷ []

abbrev begun : Turn
begun = record { draws = draws; world = fresh }

typed-IsTyped : All (λ l. IsTyped (read_entry l)) typed
unfolding IsTyped read_entry
typed-IsTyped = ((a-IsSafeKey, value-IsPlainValue, omega arith), (tt, (tt, tt)))

prompt_loop_refines_example :
    (outs : List Bytes) × (t : Turn) × (n : Map) × (prompt_loop ask_server typed begun
      ≡ some (outs, t))
    × (prompt_loop ask_map typed [] ≡ some (outs, n))
    × IsWorld t.world n
unfolding cost read_entry command Client.put_command Client.get_command
prompt_loop_refines_example =
    prompt_loop_refines typed begun fresh-IsWorld typed-IsTyped (omega arith) (omega arith)
