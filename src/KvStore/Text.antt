-- ===== src/KvStore/Text.antt =====
-- dumpFile and loadFile of storage/skiplist.h: the text of a map, and the pairs that are read from it.
use reactor_kv.Prelude.{
  ℕ, zero, suc, ◌<◌, ◌≡◌, ◌≢◌, refl, true, false, none, some, List, [], ◌∷◌, ◌++◌, arith, All, ap,
  ◌∙◌, All-append, length, append_assoc, leb,
}
use reactor_kv.Bytes.{Bytes, bytes_order, is_empty, split_at-first, Without}
use reactor_kv.SkipList.{Heap}
use reactor_kv.SkipList.Entry.{Entry, next_at, contents}
use reactor_kv.SkipList.Layout.{Holds, LinkedAt}
use reactor_kv.SkipList.Inv.{Represents}
use reactor_kv.SkipList.File.{
  line_of, dump, dump_loop, lines, parse_string, records, newline, delimiter,
}
use reactor_kv.KvStore.{KvStore}
use reactor_kv.KvStore.Crud.{Map}

-- The text of a map: a line for each pair.
abbrev pub render : Map → Bytes
render [] = []
render ((k, v) ∷ m) = line_of k v ++ render m

-- The walk along level 0 writes the entries in order and ends within its fuel.
dump_loop_lem :
    (fuel : ℕ) (h : Heap Bytes Bytes) (xs : List (Entry Bytes Bytes))
    → LinkedAt h 0 xs
    → All (Holds h) xs
    → length xs < fuel
    → dump_loop fuel h (next_at 0 xs) ≡ some (render (contents xs))
unfolding dump_loop next_at
dump_loop_lem zero h xs l a f = absurd (omega arith)
dump_loop_lem (suc fuel) h [] l a f = refl
dump_loop_lem (suc fuel) h (x ∷ xs) l a f =
    let v : leb 0 x.level ≡ true = ground arith in
    rw (v, a.0.here, l.0 (omega arith), dump_loop_lem fuel h xs l.1 a.1 (omega arith))

-- dumpFile writes each pair of the map as a line, in key order.
pub dump-render : {s : KvStore} {m : Map} → Represents s m → dump s ≡ some (render m)
unfolding dump
dump-render {s} {m} r =
    let v = r.inv in
    let first = (v.layout.linked 0).0 (omega arith) in
    rw (← v.head) (
      rw (
        first,
        dump_loop_lem s.fresh s.heap r.entries (v.layout.linked 0).1 v.layout.holds.1 v.room,
        r.same,
      ))

-- A line ends at the first newline.
lines-line : (l rest : Bytes) → Without newline l → lines (l ++ newline ∷ rest) ≡ l ∷ lines rest
unfolding lines
lines-line [] rest w = refl
lines-line (c ∷ l) rest w = ground (arith, lines-line l rest w.1)

-- parseString splits a line at its first delimiter, whatever follows.
pub parse_string-first :
    (key value : Bytes)
    → is_empty key ≡ false
    → Without delimiter key
    → parse_string (key ++ delimiter ∷ value) ≡ some (key, value)
unfolding parse_string
parse_string-first [] value e w = cc
parse_string-first (c ∷ key) value e w = rw (split_at-first delimiter (c ∷ key) value w)

-- A pair that a saved file gives back: the key is not empty and has no delimiter, and neither it nor
-- the value has a newline.
pub record IsPlain (p : Bytes × Bytes) : Type 0 where
  pub named : is_empty p.0 ≡ false
  pub undelimited : Without delimiter p.0
  pub key_line : Without newline p.0
  pub value_line : Without newline p.1

pub records-some :
    (l : Bytes) (kv : Bytes × Bytes) (ls : List Bytes)
    → parse_string l ≡ some kv
    → records (l ∷ ls) ≡ kv ∷ records ls
unfolding records
records-some l kv ls e = ground arith

pub records-none :
    (l : Bytes) (ls : List Bytes) → parse_string l ≡ none → records (l ∷ ls) ≡ records ls
unfolding records
records-none l ls e = ground arith

line_of-append : (k v rest : Bytes) → line_of k v ++ rest ≡ (k ++ delimiter ∷ v) ++ newline ∷ rest
line_of-append k v rest = simp append_assoc

-- loadFile reads the pairs that dumpFile wrote.
pub records-render : (m : Map) → All IsPlain m → records (lines (render m)) ≡ m
unfolding records lines
records-render [] a = refl
records-render ((k, v) ∷ m) a =
    let p = a.0 in
    let one : Without newline (k ++ delimiter ∷ v) =
      All-append (λ b. b ≢ newline) k (delimiter ∷ v) p.key_line (omega arith, p.value_line) in
    ap (λ t. records (lines t)) (line_of-append k v (render m))
    ∙ ap records (lines-line (k ++ delimiter ∷ v) (render m) one)
    ∙ records-some (k ++ delimiter ∷ v) (k, v) (lines (render m))
        (parse_string-first k v p.named p.undelimited)
    ∙ ap (λ t. (k, v) ∷ t) (records-render m a.1)
