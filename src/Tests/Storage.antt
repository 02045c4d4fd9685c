-- ===== src/Tests/Storage.antt =====
-- The skip list and the store (storage/skiplist.h, storage/kvstore.cpp) at concrete inputs.
use reactor_kv.Prelude.{
  ◌≡◌, refl, true, false, not, none, some, List, [], ◌∷◌, ◌++◌, if◌then◌else◌, All, arith,
}
use reactor_kv.Bytes.{Bytes, bytes, bytes_order, equal}
use reactor_kv.SortedMap
use reactor_kv.SortedMap.{lookup, is_some}
use reactor_kv.SkipList
use reactor_kv.SkipList.{SkipList, Draws, new, random_level}
use reactor_kv.SkipList.Inv.{Represents}
use reactor_kv.SkipList.Refine.{insert_refines, remove_refines}
use reactor_kv.SkipList.Clear.{new-Represents}
use reactor_kv.SkipList.Session.{Call, run, map_run, run_refines}
use reactor_kv.SkipList.File.{parse_string, delimiter}
use reactor_kv.KvStore
use reactor_kv.KvStore.{KvStore, Disk}
use reactor_kv.KvStore.Crud.{IsStore, new-IsStore, map_put, put_refines}
use reactor_kv.KvStore.Text.{IsPlain, parse_string-first}
use reactor_kv.KvStore.Saved.{save_refines, load-save, map_save}

abbrev tall : Draws
tall _ = true

abbrev flat : Draws
flat _ = false

abbrev key_a : Bytes
key_a = bytes "a"

abbrev key_b : Bytes
key_b = bytes "b"

abbrev one : Bytes
one = bytes "1"

-- A list that holds ("a", "1").
abbrev made :
    (s : SkipList Bytes Bytes) × (SkipList.insert tall key_a one (new [] [] 4)
      ≡ some (not (is_some (lookup {V = Bytes} key_a [])), s))
    × Represents s (SortedMap.insert key_a one [])
made = insert_refines tall key_a one (new-Represents [] [] 4)

abbrev map_a : List (Bytes × Bytes)
map_a = SortedMap.insert key_a one []

abbrev calls : List (Call Bytes Bytes)
calls =
    Call.insert tall key_b one
    ∷ Call.insert flat key_a key_b
    ∷ Call.search key_b
    ∷ Call.remove key_b
    ∷ Call.contains key_b
    ∷ Call.size
    ∷ Call.clear
    ∷ []

run_refines_example : run calls (new [] [] 4) ≡ some (map_run calls [])
run_refines_example = run_refines calls [] [] 4

insert_refines_example :
    (s : SkipList Bytes Bytes) × (SkipList.insert flat key_b one made.0
      ≡ some (not (is_some (lookup key_b map_a)), s))
    × Represents s (SortedMap.insert key_b one map_a)
insert_refines_example = insert_refines flat key_b one made.2

remove_refines_example :
    (s : SkipList Bytes Bytes) × (SkipList.remove key_a made.0
      ≡ some (is_some (lookup key_a map_a), s))
    × Represents s (SortedMap.erase key_a map_a)
remove_refines_example = remove_refines key_a made.2

-- The store after a put of ("a", "1").
abbrev stored :
    (s : KvStore) × (KvStore.put tall key_a one (KvStore.new 4)
      ≡ some ((map_put key_a one []).0, s))
    × IsStore s (map_put key_a one []).1
stored = put_refines tall key_a one (new-IsStore 4)

put_refines_example :
    (s : KvStore) × (KvStore.put flat key_b key_a stored.0
      ≡ some ((map_put key_b key_a map_a).0, s))
    × IsStore s (map_put key_b key_a map_a).1
put_refines_example = put_refines flat key_b key_a stored.2

-- A disk where every path can be written, with one file "f".
abbrev disk : Disk
disk = record {
  file = λ p. if equal p (bytes "f") then some (bytes "b:2\n:x\na:1\n") else none;
  writable = λ _. true;
}

parse_string-first_example :
    parse_string (key_a ++ delimiter ∷ bytes "1:2") ≡ some (key_a, bytes "1:2")
parse_string-first_example = parse_string-first key_a (bytes "1:2") refl (omega arith, tt)

abbrev saved_disk : Disk
saved_disk = (map_save (bytes "g") map_a disk).1

map_a-IsPlain : All IsPlain map_a
unfolding SortedMap.insert
map_a-IsPlain = (
  record {
    named = refl;
    undelimited = (omega arith, tt);
    key_line = (omega arith, tt);
    value_line = (omega arith, tt);
  },
  tt,
)

load-save_example :
    (t : KvStore) × (KvStore.load (λ _. flat) (bytes "g") (KvStore.new 4) saved_disk
      ≡ some (true, t))
    × IsStore t map_a
load-save_example =
    load-save (λ _. flat) (bytes "g") disk saved_disk stored.2 (new-IsStore 4) map_a-IsPlain
      (save_refines (bytes "g") disk stored.2)
