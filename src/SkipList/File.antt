-- ===== src/SkipList/File.antt =====
-- dumpFile, loadFile and parseString of storage/skiplist.h, at strings, over the bytes of a file.
-- A stream that opens takes and gives all its bytes.
use reactor_kv.Prelude.{
  ℕ, zero, suc, ◌+◌, Option, none, some, List, [], ◌∷◌, ◌++◌, ◌>>=◌, if◌then◌else◌, ◌==◌,
}
use reactor_kv.Bytes.{Bytes, bytes_order, split_at, is_empty}
use reactor_kv.SkipList.{SkipList, Heap, Ptr, Draws, forward_at, insert}

abbrev pub newline : ℕ
newline = b'\n'

abbrev pub delimiter : ℕ
delimiter = b':'

-- current->key << kDelimiter << current->value << "\n"
abbrev pub line_of : Bytes → Bytes → Bytes
line_of key value = key ++ (delimiter ∷ (value ++ (newline ∷ [])))

-- while (current != nullptr) { … current = current->forward[0]; }
unfoldable pub dump_loop : ℕ → Heap Bytes Bytes → Option Ptr → Option Bytes
dump_loop zero h current = none
dump_loop (suc fuel) h none = some []
dump_loop (suc fuel) h (some p) = do
  n ← h p
  next ← forward_at h p 0
  rest ← dump_loop fuel h next
  some (line_of n.key n.value ++ rest)

-- What dumpFile writes.
unfoldable pub dump : SkipList Bytes Bytes → Option Bytes
dump s = do first ← forward_at s.heap s.header 0; dump_loop s.fresh s.heap first

-- The lines that std::getline yields: a last line without a newline counts, an empty rest does not.
unfoldable pub lines : Bytes → List Bytes
lines [] = []
lines (c ∷ cs) =
    if c == newline
    then [] ∷ lines cs
    else elim (lines cs) [ [] ↦ (c ∷ []) ∷ [] | l ∷ ls ↦ (c ∷ l) ∷ ls ]

-- parseString: `none` for a line that is skipped.
unfoldable pub parse_string : Bytes → Option (Bytes × Bytes)
parse_string line = if is_empty line then none else elim (split_at delimiter line) [
  | none ↦ none
  | some (key, value) ↦ if is_empty key then none else some (key, value)
]

-- The pairs that loadFile collects before it inserts any.
unfoldable pub records : List Bytes → List (Bytes × Bytes)
records [] = []
records (l ∷ ls) =
    let rest = records ls in elim (parse_string l) [ none ↦ rest | some kv ↦ kv ∷ rest ]

-- for (const auto& kv : data) insert(kv.first, kv.second): `draws i` serves the i-th call.
unfoldable pub insert_all :
    (ℕ → Draws) → List (Bytes × Bytes) → SkipList Bytes Bytes → Option (SkipList Bytes Bytes)
insert_all draws [] s = some s
insert_all draws ((k, v) ∷ kvs) s = do
  (is_new, s') ← insert (draws 0) k v s
  insert_all (λ i. draws (i + 1)) kvs s'

unfoldable pub load : (ℕ → Draws) → Bytes → SkipList Bytes Bytes → Option (SkipList Bytes Bytes)
load draws text s = insert_all draws (records (lines text)) s
