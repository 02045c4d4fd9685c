-- ===== src/KvStore/Saved.antt =====
-- save and load of storage/kvstore.cpp: what is written, what is read, and when the second undoes the
-- first.
use reactor_kv.Prelude.{
  ℕ, ◌+◌, ◌≡◌, refl, Bool, true, false, Option, none, some, List, [], ◌∷◌, ◌++◌, arith,
  if◌then◌else◌, All, Bool-cases, inl, inr, ap, ◌∙◌, sym, Option-cases, append_assoc, subst,
  append-nil,
}
use reactor_kv.Bytes.{Bytes, bytes_order, is_empty, equal, equal_refl, less}
use reactor_kv.SkipList.{Draws}
use reactor_kv.SkipList.Entry.{Entry, contents, IsSorted}
use reactor_kv.SkipList.Inv.{Represents}
use reactor_kv.SkipList.Refine.{insert_refines}
use reactor_kv.SkipList.File
use reactor_kv.SkipList.File.{
  line_of, dump, dump_loop, lines, parse_string, records, insert_all, newline, delimiter,
}
use reactor_kv.SortedMap
use reactor_kv.SortedMap.{IsOrdered}
use reactor_kv.SortedMap.Laws.{insert-last, All-insert}
use reactor_kv.KvStore.{KvStore, Disk, save, load, dump_file, load_file, write_file}
use reactor_kv.KvStore.Crud.{Map, IsStore, clear-IsStore}
use reactor_kv.KvStore.Text.{
  render, dump-render, IsPlain, records-some, records-none, records-render,
}

-- The map after an insertion of each pair in turn.
unfoldable pub insert_records : Map → Map → Map
insert_records [] m = m
insert_records ((k, v) ∷ kvs) m = insert_records kvs (SortedMap.insert k v m)

IsOrdered-tail_less :
    (k v : Bytes) (acc kvs : Map)
    → IsOrdered (acc ++ (k, v) ∷ kvs)
    → All (λ p. less p.0 k ≡ true) acc
IsOrdered-tail_less k v [] kvs o = tt
IsOrdered-tail_less k v ((j, w) ∷ acc) kvs o = (middle acc o.0, IsOrdered-tail_less k v acc kvs o.1)
  where
    middle :
        (xs : Map)
        → All (λ (p : Bytes × Bytes). less j p.0 ≡ true) (xs ++ (k, v) ∷ kvs)
        → less j k ≡ true
    middle [] a = a.0
    middle (x ∷ xs) a = middle xs a.1

insert_records-ordered :
    (kvs acc : Map) → IsOrdered (acc ++ kvs) → insert_records kvs acc ≡ acc ++ kvs
unfolding insert_records
insert_records-ordered [] acc o = sym (append-nil acc)
insert_records-ordered ((k, v) ∷ kvs) acc o =
    let last : SortedMap.insert k v acc ≡ acc ++ (k, v) ∷ [] =
      insert-last k v acc (IsOrdered-tail_less k v acc kvs o) in
    let regroup : (acc ++ (k, v) ∷ []) ++ kvs ≡ acc ++ (k, v) ∷ kvs =
      append_assoc acc ((k, v) ∷ []) kvs in
    rw last (insert_records-ordered kvs (acc ++ (k, v) ∷ []) (rw regroup o) ∙ regroup)

contents-IsOrdered : (xs : List (Entry Bytes Bytes)) → IsSorted xs → IsOrdered (contents xs)
contents-IsOrdered [] s = tt
contents-IsOrdered (x ∷ xs) s = (keys xs s.0, contents-IsOrdered xs s.1)
  where
    keys :
        (ys : List (Entry Bytes Bytes))
        → All (λ y. less x.key y.key ≡ true) ys
        → All (λ p. less x.key p.0 ≡ true) (contents ys)
    keys [] a = tt
    keys (y ∷ ys) a = (a.0, keys ys a.1)

pub Represents-IsOrdered : {s : KvStore} {m : Map} → Represents s m → IsOrdered m
Represents-IsOrdered r = subst IsOrdered r.same (contents-IsOrdered r.entries r.inv.sorted)

parse_string-keyed :
    (l : Bytes) (kv : Bytes × Bytes) → parse_string l ≡ some kv → is_empty kv.0 ≡ false
unfolding parse_string
parse_string-keyed l kv e = ground arith

-- Every pair that loadFile collects has a key.
records-keyed : (ls : List Bytes) → All (λ p. is_empty p.0 ≡ false) (records ls)
unfolding records
records-keyed [] = tt
records-keyed (l ∷ ls) = elim (Option-cases (parse_string l)) [
  | inl e ↦ subst (All (λ p. is_empty p.0 ≡ false)) (sym (records-none l ls e)) (records-keyed ls)
  | inr (kv, e) ↦
      subst (All (λ p. is_empty p.0 ≡ false)) (sym (records-some l kv ls e))
        (parse_string-keyed l kv e, records-keyed ls)
]

insert_all_lem :
    (draws : ℕ → Draws) (kvs : Map) {s : KvStore} {m : Map}
    → All (λ p. is_empty p.0 ≡ false) kvs
    → IsStore s m
    → (s' : KvStore) × (insert_all draws kvs s ≡ some s') × IsStore s' (insert_records kvs m)
unfolding insert_all insert_records
insert_all_lem draws [] {s} a v = (s, refl, v)
insert_all_lem draws ((k, w) ∷ kvs) {s} {m} a v =
    let (s', r, i) = insert_refines (draws 0) k w v.list in
    let v' : IsStore s' (SortedMap.insert k w m) = record {
      list = i;
      keyed = All-insert (λ p. is_empty p.0 ≡ false) k w m a.0 v.keyed;
    } in
    let (t, r', i') = insert_all_lem (λ i. draws (i + 1)) kvs a.1 v' in (t, rw (r, r'), i')

-- What load does to the map: nothing at the empty path; otherwise the pairs of the file, or nothing
-- at all where the file cannot be opened.
abbrev pub map_load : Bytes → Disk → Map → Bool × Map
map_load path d m = if is_empty path then (false, m) else elim (d.file path) [
  | none ↦ (false, [])
  | some text ↦ (true, insert_records (records (lines text)) [])
]

load_file-none :
    (draws : ℕ → Draws) (path : Bytes) (s : KvStore) (d : Disk)
    → d.file path ≡ none
    → load_file draws path s d ≡ some (false, s)
unfolding load_file
load_file-none draws path s d f = ground arith

load_file-some :
    (draws : ℕ → Draws) (path : Bytes) (s : KvStore) (d : Disk) {text : Bytes} {s' : KvStore}
    → d.file path ≡ some text
    → insert_all draws (records (lines text)) s ≡ some s'
    → load_file draws path s d ≡ some (true, s')
unfolding load_file File.load
load_file-some draws path s d f r = ground arith

-- load faults nowhere, and leaves the map of the file's lines on every branch.
pub load_refines :
    (draws : ℕ → Draws) (path : Bytes) (d : Disk) {s : KvStore} {m : Map}
    → IsStore s m
    → (s' : KvStore) × (load draws path s d ≡ some ((map_load path d m).0, s'))
      × IsStore s' (map_load path d m).1
unfolding load
load_refines draws path d {s} v = elim (Bool-cases (is_empty path)) [
  | inl e ↦ rw e (s, refl, v)
  | inr e ↦
      let (c, r, i) = clear-IsStore v in
      elim (Option-cases (d.file path)) [
        | inl f ↦ rw (e, f) (c, rw r (load_file-none draws path c d f), i)
        | inr (text, f) ↦
            let (t, r', i') =
              insert_all_lem draws (records (lines text)) (records-keyed (lines text)) i in
            rw (e, f) (t, rw r (load_file-some draws path c d f r'), i')
      ]
]

-- What save does to the files.
abbrev pub map_save : Bytes → Map → Disk → Bool × Disk
map_save path m d =
    if is_empty path
    then (false, d)
    else if d.writable path
    then (true, record d { file = λ p. if equal p path then some (render m) else d.file p })
    else (false, d)

-- save faults nowhere: it writes the lines of the map to the path, or fails and leaves every file as
-- it was.
pub save_refines :
    (path : Bytes) (d : Disk) {s : KvStore} {m : Map}
    → IsStore s m
    → save path s d ≡ some (map_save path m d)
unfolding save dump_file write_file
save_refines path d v = ground (arith, dump-render v.list)

pub map_save-file :
    (path : Bytes) (d d' : Disk) (m : Map)
    → map_save path m d ≡ (true, d')
    → (is_empty path ≡ false) × (d'.file path ≡ some (render m))
map_save-file path d d' m h = ground (arith, equal_refl path)

pub map_load-saved :
    (path : Bytes) (d d' : Disk) (m n : Map)
    → map_save path m d ≡ (true, d')
    → records (lines (render m)) ≡ m
    → IsOrdered m
    → map_load path d' n ≡ (true, m)
map_load-saved path d d' m n h r o =
    let (e, f) = map_save-file path d d' m h in rw (e, f, r, insert_records-ordered m [] o)

-- What save wrote, load reads back into any store: the same map, if every pair is plain.
pub load-save :
    (draws : ℕ → Draws) (path : Bytes) (d d' : Disk) {s t : KvStore} {m n : Map}
    → IsStore s m
    → IsStore t n
    → All IsPlain m
    → save path s d ≡ some (true, d')
    → (t' : KvStore) × (load draws path t d' ≡ some (true, t')) × IsStore t' m
load-save draws path d d' {s} {t} {m} {n} v w p e =
    let (t', r, i) = load_refines draws path d' w in
    let back : map_load path d' n ≡ (true, m) =
      map_load-saved path d d' m n (saved (sym (save_refines path d v) ∙ e))
        (records-render m p ∙ refl) (Represents-IsOrdered v.list) in
    (
      t',
      r ∙ ap (λ (q : Bool × Map). some (q.0, t')) back,
      subst (λ (q : Bool × Map). IsStore t' q.1) back i,
    )
  where
    saved : {a b : Bool × Disk} → ◌≡◌ {A = Option (Bool × Disk)} (some a) (some b) → a ≡ b
    saved h = cc
