-- ===== src/Program/Restart.antt =====
-- What a run of server/main.cpp leaves for the next.
use reactor_kv.Prelude.{
  ℕ, ◌+◌, ◌<◌, ◌^◌, ◌≡◌, refl, ap, ◌∙◌, Bool, true, false, Bool-cases, inl, inr, some, List, [],
  ◌∷◌, ◌++◌, append-nil, arith, length, All,
}
use reactor_kv.Bytes.{Bytes, bytes_order, is_empty}
use reactor_kv.Buffer
use reactor_kv.Buffer.{Buffer}
use reactor_kv.Buffer.Laws.{new-IsBuffer, length-new}
use reactor_kv.SkipList.{Draws}
use reactor_kv.KvStore
use reactor_kv.KvStore.{KvStore, Disk}
use reactor_kv.KvStore.Crud.{Map, IsStore, new-IsStore}
use reactor_kv.KvStore.Text.{IsPlain, records-render}
use reactor_kv.KvStore.Saved.{
  map_load, map_save, load_refines, save_refines, map_load-saved, Represents-IsOrdered,
}
use reactor_kv.SortedMap.{IsOrdered}
use reactor_kv.Server.{Server, load_data, save_data, destroy}
use reactor_kv.Server.Hub.{
  Sent, Desk, map_arrive_all, IsHub, IsHub-less, weights, arrive_all_refines,
}
use reactor_kv.Program.{
  Options, Phases, on_threads, arrive_late, new_server, Ended, begin, save, Luck, main,
}

begin_refines :
    (draws : ℕ → Draws) (path : Bytes) (d : Disk)
    → (v : Server) × (begin draws path d ≡ some v)
      × IsStore v.store (map_load path d []).1
      × (v.data_file ≡ path)
unfolding begin load_data
begin_refines draws path d =
    let (s, r, i) = load_refines draws path d (new-IsStore 16) in
    elim (Bool-cases (is_empty path)) [
      | inl e ↦ (new_server, rw e refl, rw e (new-IsStore 16), empty_path path e)
      | inr e ↦ (record { store = s; data_file = path }, rw (e, r) refl, i, refl)
    ]
  where
    empty_path : (p : Bytes) → is_empty p ≡ true → [] ≡ p
    empty_path [] e = refl
    empty_path (c ∷ p) e = cc

map_save-empty :
    (path : Bytes) (m : Map) (d : Disk) → is_empty path ≡ true → map_save path m d ≡ (false, d)
map_save-empty path m d f = rw f refl

save-saved :
    (path : Bytes) (v : Server) (d : Disk) (q : Bool × Disk)
    → is_empty path ≡ false
    → KvStore.save path v.store d ≡ some q
    → save path v d ≡ some (q.0, record v { data_file = path }, q.1)
unfolding save save_data
save-saved path v d q f a = rw (save, f, a) refl

-- The save behind loop().
save_lem :
    (path : Bytes) (v : Server) (d : Disk) {m : Map}
    → IsStore v.store m
    → v.data_file ≡ path
    → (w : Server) × (save path v d ≡ some ((map_save path m d).0, w, (map_save path m d).1))
      × (w.data_file ≡ path)
unfolding save save_data
save_lem path v d {m} i e = elim (Bool-cases (is_empty path)) [
  | inl f ↦ (v, rw f refl, e)
  | inr f ↦
      let w : Server = record v { data_file = path } in
      (w, save-saved path v d (map_save path m d) f (save_refines path d i), refl)
]

-- The save of the destructor.
destroy_lem :
    (path : Bytes) (v : Server) (d : Disk) {m : Map}
    → IsStore v.store m
    → v.data_file ≡ path
    → destroy v d ≡ some (map_save path m d).1
unfolding destroy
destroy_lem path v d {m} i e = elim (Bool-cases (is_empty path)) [
  | inl f ↦
      let g = map_save-empty path m d f in
      let h : is_empty v.data_file ≡ true = ap is_empty e ∙ f in rw (h, g) refl
  | inr f ↦
      let h : is_empty v.data_file ≡ false = ap is_empty e ∙ f in
      let g : KvStore.save v.data_file v.store d ≡ some (map_save path m d) =
        ap (λ t. KvStore.save t v.store d) e ∙ save_refines path d i in
      rw (h, g) refl
]

-- No connection has sent anything.
abbrev pub waiting : Map → Desk
waiting m = record { left = λ _. []; busy = λ _. false; map = m }

-- And the map is what the file holds.
abbrev pub loaded : Bytes → Disk → Desk
loaded path d = waiting (map_load path d []).1

-- What the connections are answered up to the save behind loop(), and between the saves.
abbrev pub served : Options → Phases → Disk → List Sent × Desk
served o xs d = map_arrive_all xs.serving (loaded o.data_file d)

abbrev pub served_on : Options → Phases → Disk → List Sent × Desk
served_on o xs d = map_arrive_all (on_threads o xs.saving) (served o xs d).1

-- The files behind both saves.
abbrev pub left_disk : Options → Phases → Disk → Disk
left_disk o xs d =
    (map_save o.data_file (served_on o xs d).1.map
      (map_save o.data_file (served o xs d).1.map d).1).1

-- The bytes that arrive.
abbrev pub load_of : Options → Phases → ℕ
load_of o xs = weights xs.serving + weights (on_threads o xs.saving)

-- Before the loop.
begun-IsHub :
    (path : Bytes) (d : Disk) (v : Server) (n : ℕ)
    → IsStore v.store (map_load path d []).1
    → n < 2 ^ 62
    → IsHub n
        (record {
          buffer = λ _. Buffer.new Buffer.initial_size;
          busy = λ _. false;
          store = v.store;
        })
        (loaded path d)
begun-IsHub path d v n i h =
    let (b, c) = new-IsBuffer Buffer.initial_size (omega arith) in
    let l = length-new Buffer.initial_size in
    let room : length (Buffer.new Buffer.initial_size).store + n < 2 ^ 63 = omega arith in
    record {
      valid = λ _. b;
      held = λ _. c;
      busy = λ _. refl;
      room = λ _. room;
      fits = room;
      stored = i;
    }

-- The map that is left is in order.
left-IsOrdered :
    (luck : Luck) (o : Options) (xs : Phases) (d : Disk)
    → load_of o xs < 2 ^ 62
    → IsOrdered (served_on o xs d).1.map
left-IsOrdered luck o xs d h =
    let (v, e, i, f) = begin_refines luck.loading o.data_file d in
    let k = weights (on_threads o xs.saving) in
    let (h', g, w) =
      arrive_all_refines luck.serving xs.serving k
        (begun-IsHub o.data_file d v (weights xs.serving + k) i h) in
    let (h'', g', w') =
      arrive_all_refines luck.saving (on_threads o xs.saving) 0
        (IsHub-less (k + 0) (omega arith) w) in
    Represents-IsOrdered w'.stored.list

-- Where no thread of a loop serves on behind the destructor's save, a run of the server faults nowhere:
-- the connections are answered from the map that the data file holds, the map as it is behind loop()
-- is saved to that file, and then the map as it is when the destructor begins.
pub main_refines :
    (luck : Luck) (o : Options) (xs : Phases) (d : Disk)
    → load_of o xs < 2 ^ 62
    → on_threads o xs.late ≡ []
    → (r : Ended) × (main luck o xs d ≡ some r)
      × (r.sent ≡ (served o xs d).0 ++ (served_on o xs d).0)
      × (r.saved ≡ (map_save o.data_file (served o xs d).1.map d).0)
      × (r.disk ≡ left_disk o xs d)
unfolding main arrive_late
main_refines luck o xs d h quiet =
    let path = o.data_file in
    let (v, e, i, f) = begin_refines luck.loading path d in
    let k = weights (on_threads o xs.saving) in
    let (h', g, w) =
      arrive_all_refines luck.serving xs.serving k
        (begun-IsHub path d v (weights xs.serving + k) i h) in
    let (u, s, t) = save_lem path (record v { store = h'.store }) d w.stored f in
    let (h'', g', w') =
      arrive_all_refines luck.saving (on_threads o xs.saving) 0
        (IsHub-less (k + 0) (omega arith) w) in
    let z =
      destroy_lem path (record u { store = h''.store }) (map_save path (served o xs d).1.map d).1
        w'.stored t in
    (
      record {
        sent = (served o xs d).0 ++ (served_on o xs d).0 ++ [];
        disk = left_disk o xs d;
        saved = (map_save path (served o xs d).1.map d).0;
      },
      rw (main, e, g, s, g', z, quiet) refl,
      append-nil ((served o xs d).0 ++ (served_on o xs d).0),
      refl,
      refl,
    )

map_save-writable :
    (path : Bytes) (m : Map) (d : Disk)
    → is_empty path ≡ false
    → d.writable path ≡ true
    → (q : Disk) × (map_save path m d ≡ (true, q)) × (q.writable path ≡ true)
map_save-writable path m d f w = rw (f, w) (_, refl, w)

-- A second run of the server, on the files that the first has left, answers its connections from the
-- map as it was when the destructor of the first began, where the data file can be written, every pair
-- of that map is plain, and no thread of a loop serves on behind the destructor's save.
pub main-main :
    (luck luck' : Luck) (o : Options) (xs ys : Phases) (d : Disk)
    → load_of o xs < 2 ^ 62
    → load_of o ys < 2 ^ 62
    → on_threads o xs.late ≡ []
    → on_threads o ys.late ≡ []
    → is_empty o.data_file ≡ false
    → d.writable o.data_file ≡ true
    → All IsPlain (served_on o xs d).1.map
    → (r : Ended) × (r' : Ended) × (main luck o xs d ≡ some r)
      × (main luck' o ys r.disk ≡ some r')
      × (let first = map_arrive_all ys.serving (waiting (served_on o xs d).1.map) in
          r'.sent ≡ first.0 ++ (map_arrive_all (on_threads o ys.saving) first.1).0)
main-main luck luck' o xs ys d h h' c c' f w p =
    let path = o.data_file in
    let m = (served o xs d).1.map in
    let m' = (served_on o xs d).1.map in
    let (r, e, a, s, k) = main_refines luck o xs d h c in
    let (r', e', a', s', k') = main_refines luck' o ys r.disk h' c' in
    let (q, x, u) = map_save-writable path m d f w in
    let (q', x', u') = map_save-writable path m' q f u in
    let disk : r.disk ≡ q' = k ∙ ap (λ t. (map_save path m' t.1).1) x ∙ ap (λ t. t.1) x' in
    let back : map_load path r.disk [] ≡ (true, m') =
      ap (λ t. map_load path t []) disk
      ∙ map_load-saved path q q' m' [] x' (records-render m' p ∙ refl)
          (left-IsOrdered luck o xs d h) in
    (
      r,
      r',
      e,
      e',
      a'
          ∙ ap
              (λ t.
                let first = map_arrive_all ys.serving (waiting t.1) in
                first.0 ++ (map_arrive_all (on_threads o ys.saving) first.1).0)
              back,
    )
