-- ===== src/KvStore/Crud.antt =====
-- put, get, del and exists of storage/kvstore.cpp against the map of its keys: the guard on the
-- empty key, and what one call leaves for the next.
use reactor_kv.Prelude.{
  ℕ, ◌≡◌, refl, Bool, true, false, not, none, some, List, [], ◌∷◌, ◌>>=◌, if◌then◌else◌, All,
  Bool-cases, inl, inr, ap,
}
use reactor_kv.Bytes.{Bytes, bytes_order, is_empty, equal}
use reactor_kv.SkipList.{Draws}
use reactor_kv.SkipList.Inv.{Represents}
use reactor_kv.SkipList.Search.{search-lookup, contains-lookup}
use reactor_kv.SkipList.Refine.{insert_refines, remove_refines}
use reactor_kv.SkipList.Clear.{clear_refines, new-Represents}
use reactor_kv.SortedMap
use reactor_kv.SortedMap.{lookup, is_some}
use reactor_kv.SortedMap.Laws.{lookup-insert, erase-none, All-insert, All-erase}
use reactor_kv.KvStore
use reactor_kv.KvStore.{KvStore, put, get, del, exists}

abbrev pub Map : Type 0
Map = List (Bytes × Bytes)

-- The store stands for the map, whose keys are not empty.
pub record IsStore (s : KvStore) (m : Map) : Type 0 where
  pub list : Represents s m
  pub keyed : All (λ p. is_empty p.0 ≡ false) m

-- What put, del and get do to the map.
abbrev pub map_put : Bytes → Bytes → Map → Bool × Map
map_put key value m =
    if is_empty key
    then (false, m)
    else (not (is_some (lookup key m)), SortedMap.insert key value m)

abbrev pub map_del : Bytes → Map → Bool × Map
map_del key m = (is_some (lookup key m), SortedMap.erase key m)

-- The empty key is never found.
lookup-empty :
    (key : Bytes) (m : Map)
    → is_empty key ≡ true
    → All (λ p. is_empty p.0 ≡ false) m
    → lookup key m ≡ none
unfolding lookup
lookup-empty key [] e a = refl
lookup-empty key ((j, w) ∷ m) e a = elim (Bool-cases (equal j key)) [
  | inl q ↦ let f : j ≡ key = (bytes_order.equal_iff j key).0 q in cc (rw f at a.0)
  | inr q ↦ rw q (lookup-empty key m e a.1)
]

-- A new store is empty.
pub new-IsStore : (max_level : ℕ) → IsStore (KvStore.new max_level) []
unfolding KvStore.new
new-IsStore max_level = record { list = new-Represents [] [] max_level; keyed = tt }

-- put faults nowhere. It refuses the empty key with false; otherwise it says whether the key is new
-- and binds it to the value.
pub put_refines :
    (draws : Draws) (key value : Bytes) {s : KvStore} {m : Map}
    → IsStore s m
    → (s' : KvStore) × (put draws key value s ≡ some ((map_put key value m).0, s'))
      × IsStore s' (map_put key value m).1
unfolding put
put_refines draws key value {s} {m} v = elim (Bool-cases (is_empty key)) [
  | inl e ↦ rw e (s, refl, v)
  | inr e ↦
      let (s', r, i) = insert_refines draws key value v.list in
      rw e (
        s',
        r,
        record { list = i; keyed = All-insert (λ p. is_empty p.0 ≡ false) key value m e v.keyed },
      )
]

-- del faults nowhere, says whether the key was there, and removes it.
pub del_refines :
    (key : Bytes) {s : KvStore} {m : Map}
    → IsStore s m
    → (s' : KvStore) × (del key s ≡ some ((map_del key m).0, s')) × IsStore s' (map_del key m).1
unfolding del
del_refines key {s} {m} v = elim (Bool-cases (is_empty key)) [
  | inl e ↦ let n = lookup-empty key m e v.keyed in (s, rw (e, n), rw (erase-none key m n) v)
  | inr e ↦
      let (s', r, i) = remove_refines key v.list in
      (s', rw e r, record { list = i; keyed = All-erase (λ p. is_empty p.0 ≡ false) key m v.keyed })
]

-- get finds the value of the key.
pub get_refines :
    (key : Bytes) {s : KvStore} {m : Map} → IsStore s m → get key s ≡ some (lookup key m)
unfolding get
get_refines key {m} v = elim (Bool-cases (is_empty key)) [
  | inl e ↦ rw (e, lookup-empty key m e v.keyed)
  | inr e ↦ rw e (search-lookup key v.list)
]

-- exists says whether the key is there.
pub exists_refines :
    (key : Bytes) {s : KvStore} {m : Map}
    → IsStore s m
    → exists key s ≡ some (is_some (lookup key m))
unfolding exists
exists_refines key {m} v = elim (Bool-cases (is_empty key)) [
  | inl e ↦ rw (e, lookup-empty key m e v.keyed)
  | inr e ↦ rw e (contains-lookup key v.list)
]

-- clear leaves the empty store.
pub clear-IsStore :
    {s : KvStore} {m : Map}
    → IsStore s m
    → (s' : KvStore) × (KvStore.clear s ≡ some s') × IsStore s' []
unfolding KvStore.clear
clear-IsStore v = let (s', r, i) = clear_refines v.list in (s', r, record { list = i; keyed = tt })

-- After a put of a key that is not empty, get finds the new value at that key and what it found
-- before at every other.
pub get-put :
    (draws : Draws) (key value j : Bytes) {s : KvStore} {m : Map}
    → IsStore s m
    → is_empty key ≡ false
    → (put draws key value s >>= λ r. get j r.1)
      ≡ some (if equal key j then some value else lookup j m)
get-put draws key value j {m} v e =
    let (s', r, i) = put_refines draws key value v in
    rw (r, get_refines j i, e) (ap some (lookup-insert key j value m))
