-- ===== src/KvStore.antt =====
-- storage/kvstore.cpp: the store of strings over a skip list, and the files that it is saved to.
-- Logging is left out.
pub mod Crud
pub mod Text
pub mod Saved
use reactor_kv.Prelude.{
  ℕ, Bool, true, false, Option, none, some, List, [], ◌∷◌, ◌>>=◌, if◌then◌else◌, ◌&&◌,
}
use reactor_kv.Bytes.{Bytes, bytes_order, is_empty, equal}
use reactor_kv.SkipList
use reactor_kv.SkipList.{SkipList, Draws}
use reactor_kv.SkipList.File

-- The files, and which paths can be opened for writing.
pub record Disk : Type 0 where
  pub file : Bytes → Option Bytes
  pub writable : Bytes → Bool

abbrev pub KvStore : Type 0
KvStore = SkipList Bytes Bytes

-- KVStore(maxLevel): the header's key and value are empty strings.
unfoldable pub new : ℕ → KvStore
new max_level = SkipList.new [] [] max_level

unfoldable pub put : Draws → Bytes → Bytes → KvStore → Option (Bool × KvStore)
put draws key value s = if is_empty key then some (false, s) else SkipList.insert draws key value s

-- The out parameter is set where the result is `some`.
unfoldable pub get : Bytes → KvStore → Option (Option Bytes)
get key s = if is_empty key then some none else SkipList.search key s

unfoldable pub del : Bytes → KvStore → Option (Bool × KvStore)
del key s = if is_empty key then some (false, s) else SkipList.remove key s

unfoldable pub exists : Bytes → KvStore → Option Bool
exists key s = if is_empty key then some false else SkipList.contains key s

unfoldable pub size : KvStore → ℕ
size s = SkipList.size s

unfoldable pub clear : KvStore → Option KvStore
clear s = SkipList.clear s

-- std::ofstream truncates the file that it opens.
write_file : Bytes → Bytes → Disk → Disk
write_file path text d = record d { file = λ p. if equal p path then some text else d.file p }

-- dumpFile
dump_file : Bytes → KvStore → Disk → Option (Bool × Disk)
unfolding write_file
dump_file path s d =
    if d.writable path
    then (do text ← File.dump s; some (true, write_file path text d))
    else some (false, d)

pub save : Bytes → KvStore → Disk → Option (Bool × Disk)
unfolding dump_file
save path s d = if is_empty path then some (false, d) else dump_file path s d

-- loadFile
load_file : (ℕ → Draws) → Bytes → KvStore → Disk → Option (Bool × KvStore)
load_file draws path s d = elim (d.file path) [
  | none ↦ some (false, s)
  | some text ↦ do s' ← File.load draws text s; some (true, s')
]

-- The store is cleared before the file is opened.
pub load : (ℕ → Draws) → Bytes → KvStore → Disk → Option (Bool × KvStore)
unfolding load_file
load draws path s d =
    if is_empty path then some (false, s) else do s' ← clear s; load_file draws path s' d
