-- ===== src/SkipList/Session.antt =====
-- A client's calls on a skip list of storage/skiplist.h, one after the other, against the same calls
-- on a map.
use reactor_kv.Prelude.{ℕ, ◌≡◌, refl, Bool, not, Option, some, List, [], ◌∷◌, ◌>>=◌, ap, length}
use reactor_kv.KeyOrder.{KeyOrder}
use reactor_kv.SkipList
use reactor_kv.SkipList.{SkipList, Draws, new}
use reactor_kv.SkipList.Inv.{Represents}
use reactor_kv.SkipList.Search.{search-lookup, contains-lookup, size-length}
use reactor_kv.SkipList.Refine.{insert_refines, remove_refines}
use reactor_kv.SkipList.Clear.{clear_refines, new-Represents}
use reactor_kv.SortedMap
use reactor_kv.SortedMap.{lookup, is_some}

-- The public methods; insert comes with the draws that its level is made of.
pub data Call (K V : Type 0) : Type 0 where
  insert : Draws → K → V → Call K V
  remove search contains : K → Call K V
  clear size : Call K V

pub data Reply (V : Type 0) : Type 0 where
  flag : Bool → Reply V
  found : Option V → Reply V
  count : ℕ → Reply V
  done : Reply V

module _ {K V : Type 0} ⦃o : KeyOrder K⦄ where
  pub call : Call K V → SkipList K V → Option (Reply V × SkipList K V)
  call (Call.insert draws k v) s = do (b, s') ← SkipList.insert draws k v s; some (flag b, s')
  call (Call.remove k) s = do (b, s') ← SkipList.remove k s; some (flag b, s')
  call (Call.search k) s = do f ← SkipList.search k s; some (found f, s)
  call (Call.contains k) s = do b ← SkipList.contains k s; some (flag b, s)
  call Call.clear s = do s' ← SkipList.clear s; some (done, s')
  call Call.size s = some (count (SkipList.size s), s)

  pub run : List (Call K V) → SkipList K V → Option (List (Reply V))
  run [] s = some []
  run (c ∷ cs) s = do (r, s') ← call c s; rs ← run cs s'; some (r ∷ rs)

  -- The same calls on the map.
  unfoldable pub map_call : Call K V → List (K × V) → Reply V × List (K × V)
  map_call (Call.insert draws k v) m = (flag (not (is_some (lookup k m))), SortedMap.insert k v m)
  map_call (Call.remove k) m = (flag (is_some (lookup k m)), SortedMap.erase k m)
  map_call (Call.search k) m = (found (lookup k m), m)
  map_call (Call.contains k) m = (flag (is_some (lookup k m)), m)
  map_call Call.clear m = (done, [])
  map_call Call.size m = (count (length m), m)

  unfoldable pub map_run : List (Call K V) → List (K × V) → List (Reply V)
  map_run [] m = []
  map_run (c ∷ cs) m = let (r, m') = map_call c m in r ∷ map_run cs m'

  call_refines :
      (c : Call K V) {s : SkipList K V} {m : List (K × V)}
      → Represents s m
      → (s' : SkipList K V) × (call c s ≡ some ((map_call c m).0, s'))
        × Represents s' (map_call c m).1
  unfolding call map_call
  call_refines (Call.insert draws k v) r =
      let (s', e, r') = insert_refines draws k v r in (s', rw e, r')
  call_refines (Call.remove k) r = let (s', e, r') = remove_refines k r in (s', rw e, r')
  call_refines (Call.search k) {s} r = (s, rw (search-lookup k r), r)
  call_refines (Call.contains k) {s} r = (s, rw (contains-lookup k r), r)
  call_refines Call.clear r = let (s', e, r') = clear_refines r in (s', rw e, r')
  call_refines Call.size {s} r = (s, ap (λ n. some (count n, s)) (size-length r), r)

  run-from :
      (cs : List (Call K V)) {s : SkipList K V} {m : List (K × V)}
      → Represents s m
      → run cs s ≡ some (map_run cs m)
  unfolding run map_run
  run-from [] r = refl
  run-from (c ∷ cs) r = let (s', e, r') = call_refines c r in rw (e, run-from cs r')

  -- No sequence of calls on a new skip list faults, and none tells it from a map.
  pub run_refines :
      (cs : List (Call K V)) (k : K) (v : V) (max_level : ℕ)
      → run cs (new k v max_level) ≡ some (map_run cs [])
  run_refines cs k v max_level = run-from cs (new-Represents k v max_level)
