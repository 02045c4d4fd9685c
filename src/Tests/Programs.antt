-- ===== src/Tests/Programs.antt =====
-- The server's life (server/main.cpp) and its connections (server/kv_server.cpp) at concrete inputs.
use reactor_kv.Prelude.{
  ℕ, ◌<◌, ◌+◌, ◌^◌, ◌≡◌, ◌==◌, refl, false, true, none, some, List, [], ◌∷◌, ◌++◌, All, arith,
}
use reactor_kv.Bytes.{bytes, less}
use reactor_kv.Buffer
use reactor_kv.Buffer.{Buffer}
use reactor_kv.Buffer.Slice.{slice}
use reactor_kv.Server.Hub.Ends.{all_spare, all_rounds, arrive_all-ends}
use reactor_kv.Buffer.Laws.{new-IsBuffer, length-new}
use reactor_kv.SkipList.{Draws}
use reactor_kv.SortedMap
use reactor_kv.KvStore
use reactor_kv.KvStore.{Disk}
use reactor_kv.KvStore.Crud.{new-IsStore}
use reactor_kv.KvStore.Text.{IsPlain}
use reactor_kv.KvStore.Saved.{map_save}
use reactor_kv.Codec.{parse_line, strip_cr, is_prefix}
use reactor_kv.Server.Requests.{map_handle}
use reactor_kv.Server.Round
use reactor_kv.Server.Stream.{cut_lines, add_byte, stream}
use reactor_kv.Server.Hub.{
  Arrival, up, read, turn, Sent, Hub, arrive_all, Desk, map_arrive, map_arrive_all, put_at, IsHub,
  weights, arrive_all_refines,
}
use reactor_kv.Program.{default_options, Phases, on_threads, has_io, Ended, Luck, main}
use reactor_kv.Program.Restart.{
  waiting, served, served_on, left_disk, load_of, main_refines, main-main,
}

abbrev draws : ℕ → Draws
draws _ i = i == 0

-- Two connections on two threads, whose requests for one key come to the store in turn.
abbrev arrivals : List Arrival
arrivals =
    up 0
    ∷ up 1
    ∷ read 0 (bytes "PUT a 1\nGET a\n")
    ∷ read 1 (bytes "PUT a 2\n")
    ∷ turn 0
    ∷ turn 1
    ∷ turn 0
    ∷ []

abbrev hub : Hub
hub = record { buffer = λ _. Buffer.new 1024; busy = λ _. false; store = KvStore.new 16 }

abbrev nothing : Desk
nothing = record { left = λ _. []; busy = λ _. false; map = [] }

hub-IsHub : IsHub (weights arrivals + 0) hub nothing
unfolding weights
hub-IsHub =
    let b = new-IsBuffer 1024 (omega arith) in
    let l = length-new 1024 in
    record {
      valid = λ _. b.0;
      held = λ _. b.1;
      busy = λ _. refl;
      room = λ _. omega arith;
      fits = omega arith;
      stored = new-IsStore 16;
    }

arrive_all_refines_example :
    (h : Hub) × (arrive_all draws arrivals hub ≡ some ((map_arrive_all arrivals nothing).0, h))
    × IsHub 0 h (map_arrive_all arrivals nothing).1
arrive_all_refines_example = arrive_all_refines draws arrivals 0 hub-IsHub

-- Two bytes wait on every connection, each an empty line, and all of them are served at once.
abbrev two_lines : Buffer
two_lines = record { store = bytes "........\n\n"; reader = 8; writer = 10 }

abbrev working : Hub
working = record { buffer = λ _. two_lines; busy = λ _. true; store = KvStore.new 16 }

abbrev work : Desk
work = record { left = λ _. bytes "\n\n"; busy = λ _. true; map = [] }

abbrev in_turn : List Arrival
in_turn = turn 0 ∷ turn 1 ∷ turn 0 ∷ read 2 (bytes "PING\n") ∷ turn 1 ∷ turn 0 ∷ []

working-IsHub : IsHub (weights in_turn + 0) working work
unfolding weights slice
working-IsHub = record {
  valid = λ _. record {
    start = omega arith;
    end = omega arith;
    spare = omega arith;
    small = omega arith;
  };
  held = λ _. refl;
  busy = λ _. refl;
  room = λ _. omega arith;
  fits = (let l = length-new 1024 in omega arith);
  stored = new-IsStore 16;
}

arrive_all-ends_example :
    (s : List Sent) × (h : Hub) × (arrive_all draws in_turn working ≡ some (s, h))
    × (h.busy 0 ≡ false)
unfolding all_spare all_rounds
arrive_all-ends_example = arrive_all-ends draws 0 in_turn working-IsHub refl (omega arith)

abbrev luck : Luck
luck = record { loading = draws; serving = draws; saving = draws; late = draws }

abbrev disk : Disk
disk = record { file = λ _. none; writable = λ _. true }

-- A request that comes behind the save of main.
abbrev phases : Phases
phases = record {
  serving = arrivals;
  saving = turn 1 ∷ read 1 (bytes "PUT b 3\n") ∷ turn 1 ∷ [];
  late = [];
}

phases-load : load_of default_options phases < 2 ^ 62
unfolding weights has_io
phases-load = omega arith

phases-late : on_threads default_options phases.late ≡ []
unfolding has_io
phases-late = refl

main_refines_example :
    (r : Ended) × (main luck default_options phases disk ≡ some r)
    × (r.sent ≡ (served default_options phases disk).0 ++ (served_on default_options phases disk).0)
    × (r.saved ≡ (map_save (bytes "data.db") (served default_options phases disk).1.map disk).0)
    × (r.disk ≡ left_disk default_options phases disk)
main_refines_example = main_refines luck default_options phases disk phases-load phases-late

left-IsPlain : All IsPlain (served_on default_options phases disk).1.map
unfolding map_arrive_all map_arrive put_at Round.turn Round.turn_lines cut_lines add_byte stream
    map_handle parse_line strip_cr SortedMap.insert is_prefix less has_io
left-IsPlain = (
  record {
    named = refl;
    undelimited = (omega arith, tt);
    key_line = (omega arith, tt);
    value_line = (omega arith, tt);
  },
  (
    record {
      named = refl;
      undelimited = (omega arith, tt);
      key_line = (omega arith, tt);
      value_line = (omega arith, tt);
    },
    tt,
  ),
)

main-main_example :
    (r : Ended) × (r' : Ended) × (main luck default_options phases disk ≡ some r)
    × (main luck default_options phases r.disk ≡ some r')
    × (r'.sent
        ≡ (map_arrive_all arrivals (waiting (served_on default_options phases disk).1.map)).0
          ++ (map_arrive_all
              (on_threads default_options phases.saving)
              (map_arrive_all arrivals
                (waiting (served_on default_options phases disk).1.map)).1).0)
main-main_example =
    main-main luck luck default_options phases phases disk phases-load phases-load phases-late
      phases-late refl refl left-IsPlain
