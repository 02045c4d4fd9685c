-- ===== src/Program.antt =====
-- server/main.cpp: the options, and the life of the server: load, serve until the loop quits, save,
-- save again where the server is destroyed, and destroy the store. The threads of the loops serve on
-- meanwhile. What is printed is left out but for the notice of the save.
pub mod Restart
use reactor_kv.Prelude.{
  ℕ, zero, suc, ◌*◌, ◌+◌, ◌-◌, ◌==◌, leb, ◌&&◌, ℤ, pos, neg, negsuc, to_unsigned, Bool, true, false,
  if◌then◌else◌, Option, none, some, List, [], ◌∷◌, ◌++◌, not, ◌>>=◌,
}
use reactor_kv.Bytes.{Bytes, bytes, is_empty}
use reactor_kv.Message.{CommandType, Request, no_request}
use reactor_kv.Codec.{skip_spaces, parse_request}
use reactor_kv.Buffer
use reactor_kv.SkipList.{Draws}
use reactor_kv.KvStore
use reactor_kv.KvStore.{KvStore, Disk}
use reactor_kv.Client.{read_digits}
use reactor_kv.Server.{Server, load_data, save_data, destroy}
use reactor_kv.Server.Hub.{Arrival, Sent, Hub, arrive, arrive_all}

-- atoi, of a number that fits an int
unfoldable pub atoi : Bytes → ℤ
unfolding skip_spaces read_digits
atoi text = signed (skip_spaces text)
  where
    signed : Bytes → ℤ
    signed [] = pos 0
    signed (c ∷ cs) =
        if c == b'-'
        then neg (read_digits 0 cs)
        else if c == b'+'
        then pos (read_digits 0 cs)
        else pos (read_digits 0 (c ∷ cs))

-- What getopt_long returns, with optarg.
pub data Opt : Type 0 where
  port threads data_file : Bytes → Opt
  help : Opt

pub record Options : Type 0 where
  pub port : ℤ
  pub threads : ℤ
  pub data_file : Bytes

abbrev pub default_options : Options
default_options = record { port = pos 6379; threads = pos 4; data_file = bytes "data.db" }

-- The loop over the options: none where the usage is printed.
unfoldable pub parse_options : List Opt → Options → Option Options
unfolding atoi
parse_options [] o = some o
parse_options (Opt.port arg ∷ rest) o = parse_options rest (record o { port = atoi arg })
parse_options (Opt.threads arg ∷ rest) o = parse_options rest (record o { threads = atoi arg })
parse_options (Opt.data_file arg ∷ rest) o = parse_options rest (record o { data_file = arg })
parse_options (Opt.help ∷ rest) o = none

-- static_cast<uint16_t>(port)
abbrev pub server_port : Options → ℕ
server_port o = to_unsigned 16 o.port

-- KVServer::KVServer, whose store has 16 levels
abbrev pub new_server : Server
new_server = record { store = KvStore.new 16; data_file = [] }

-- Whether EventLoopThreadPool starts threads, so that the connections run on loops of their own.
unfoldable pub has_io : ℤ → Bool
has_io (pos zero) = false
has_io (pos (suc n)) = true
has_io (negsuc n) = false

-- What the threads of the loops do: up to the save behind loop(), between it and the destructor's, and
-- behind that one, where the store is destroyed and TcpServer has not yet joined them.
pub record Phases : Type 0 where
  pub serving : List Arrival
  pub saving : List Arrival
  pub late : List Arrival

-- What comes behind loop(), which the threads of the loops alone serve.
abbrev pub on_threads : Options → List Arrival → List Arrival
on_threads o xs = if has_io o.threads then xs else []

-- What was sent, the files, and whether the save before the end succeeded.
pub record Ended : Type 0 where
  pub sent : List Sent
  pub disk : Disk
  pub saved : Bool

-- Before the loop.
unfoldable pub begin : (ℕ → Draws) → Bytes → Disk → Option Server
begin draws path d =
    if is_empty path
    then some new_server
    else do (loaded, v) ← load_data draws path new_server d; some v

-- The save behind loop().
unfoldable pub save : Bytes → Server → Disk → Option (Bool × Server × Disk)
save path v d = if is_empty path then some (false, v, d) else save_data path v d

abbrev pub uses_store : Request → Bool
uses_store r = elim r.command [
  | CommandType.put ↦ not (is_empty r.key)
  | CommandType.ping ↦ false
  | CommandType.quit ↦ false
  | CommandType.unknown ↦ false
  | _ ↦ true
]

-- Whether a round calls the store.
unfoldable pub touches : Arrival → Hub → Bool
touches (Arrival.turn i) h = h.busy i && (elim (parse_request (h.buffer i) no_request) [
  | none ↦ false
  | some (request, b) ↦ uses_store request
])
touches _ h = false

-- Behind ~KVServer: a call of the destroyed store is a fault.
unfoldable pub arrive_late : (ℕ → Draws) → List Arrival → Hub → Option (List Sent)
unfolding touches
arrive_late draws [] h = some []
arrive_late draws (a ∷ xs) h = elim (touches a h) [
  | true ↦ none
  | false ↦ do
    (sent, h') ← arrive (draws 0) a h
    later ← arrive_late (λ i. draws (suc i)) xs h'
    some (sent ∷ later)
]

-- The levels that the load draws, and those of the requests of each phase.
pub record Luck : Type 0 where
  pub loading : ℕ → Draws
  pub serving : ℕ → Draws
  pub saving : ℕ → Draws
  pub late : ℕ → Draws

unfoldable pub main : Luck → Options → Phases → Disk → Option Ended
unfolding begin save arrive_late
main luck o xs d = do
  v ← begin luck.loading o.data_file d
  (sent, h) ←
      arrive_all luck.serving xs.serving (record {
        buffer = λ _. Buffer.new Buffer.initial_size;
        busy = λ _. false;
        store = v.store;
      })
  (saved, w, d') ← save o.data_file (record v { store = h.store }) d
  (sent', h') ← arrive_all luck.saving (on_threads o xs.saving) h
  d'' ← destroy (record w { store = h'.store }) d'
  sent'' ← arrive_late luck.late (on_threads o xs.late) h'
  some (record { sent = sent ++ sent' ++ sent''; disk = d''; saved = saved })
