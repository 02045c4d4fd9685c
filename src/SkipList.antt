-- ===== src/SkipList.antt =====
-- storage/skiplist.h: the skip list over an explicit store of nodes.
-- A shared_ptr is an address; make_shared takes the next unused one, and a node that nothing
-- points to stays in the store. The mutex makes each method one step. A method returns `none`
-- where the source dereferences nullptr or indexes a vector out of range, or where a walk runs out
-- of fuel.
pub mod Entry
pub mod Layout
pub mod Walk
pub mod Split
pub mod Inv
pub mod Search
pub mod Link
pub mod Splice
pub mod Linking
pub mod Insert
pub mod Update
pub mod Lower
pub mod Unlink
pub mod Remove
pub mod Refine
pub mod Clear
pub mod Session
pub mod File
use reactor_kv.Prelude.{
  ℕ, zero, suc, ◌+◌, ◌-◌, Bool, true, false, not, Option, none, some, List, [], ◌∷◌, length,
  get_elem?, set, replicate, ◌>>=◌, if◌then◌else◌, ltb, ◌==◌,
}
use reactor_kv.KeyOrder.{KeyOrder}

abbrev pub Ptr : Type 0
Ptr = ℕ

-- struct Node
pub record Node (K V : Type 0) : Type 0 where
  pub key : K
  pub value : V
  pub node_level : ℕ
  pub forward : List (Option Ptr)

abbrev pub Heap : (K V : Type 0) → Type 0
Heap K V = Ptr → Option (Node K V)

-- The members of the class; `fresh` is the next unused address.
pub record SkipList (K V : Type 0) : Type 0 where
  pub max_level : ℕ
  pub current_level : ℕ
  pub element_count : ℕ
  pub header : Ptr
  pub heap : Heap K V
  pub fresh : Ptr

-- Whether the n-th number that the generator yields in a call lies below kProbability.
abbrev pub Draws : Type 0
Draws = ℕ → Bool

module _ {K V : Type 0} where
  unfoldable pub write : Heap K V → Ptr → Node K V → Heap K V
  write h p n a = if a == p then some n else h a

  -- Node(k, v, level): forward holds level + 1 null pointers.
  abbrev pub create_node : K → V → ℕ → Node K V
  create_node k v level = record {
    key = k;
    value = v;
    node_level = level;
    forward = replicate (level + 1) none;
  }

  -- p->forward[i]
  unfoldable pub forward_at : Heap K V → Ptr → ℕ → Option (Option Ptr)
  forward_at h p i = do n ← h p; get_elem? n.forward i

  -- p->forward[i] = q
  unfoldable pub set_forward : Heap K V → Ptr → ℕ → Option Ptr → Option (Heap K V)
  set_forward h p i q = do
    n ← h p
    old ← get_elem? n.forward i
    some (write h p (record n { forward = set n.forward i q }))

  -- The constructor: `k` and `v` are the values of K() and V() in the header node.
  pub new : K → V → ℕ → SkipList K V
  unfolding write
  new k v max_level = record {
    max_level = max_level;
    current_level = 0;
    element_count = 0;
    header = 0;
    heap = write (λ _. none) 0 (create_node k v max_level);
    fresh = 1;
  }

-- while (dis(gen) < kProbability && level < maxLevel_ - 1) level++;
-- The rounds left bound the levels that can still be added.
level_loop : Draws → ℕ → ℕ → ℕ
level_loop draws zero level = level
level_loop draws (suc rounds) level =
    let next = level_loop draws rounds (level + 1) in if draws level then next else level

-- getRandomLevel
pub random_level : Draws → ℕ → ℕ
unfolding level_loop
random_level draws max_level = level_loop draws (max_level - 1) 0

-- update[i], dereferenced by what follows
pub update_at : List (Option Ptr) → ℕ → Option Ptr
update_at update i = do p ← get_elem? update i; p

-- update[i] = p
pub set_update : List (Option Ptr) → ℕ → Ptr → Option (List (Option Ptr))
set_update update i p = do old ← get_elem? update i; some (set update i (some p))

-- for (int i = currentLevel_ + 1; i <= randomLevel; i++) update[i] = header_;
pub raise_update : ℕ → ℕ → Ptr → List (Option Ptr) → Option (List (Option Ptr))
raise_update zero i header update = some update
raise_update (suc rounds) i header update = do
  update' ← set_update update i header
  raise_update rounds (i + 1) header update'

module _ {K V : Type 0} ⦃o : KeyOrder K⦄ where
  -- while (current->forward[i] != nullptr && current->forward[i]->key < key)
  --     current = current->forward[i];
  pub walk : ℕ → Heap K V → K → ℕ → Ptr → Option Ptr
  walk zero h key i current = none
  walk (suc fuel) h key i current = do
    next ← forward_at h current i
    elim next [
      | none ↦ some current
      | some q ↦ do
        n ← h q
        let rest = walk fuel h key i q
        if o.less n.key key then rest else some current
    ]

  -- The descent of search: for (int i = currentLevel_; i >= 0; i--)
  pub descend : ℕ → Heap K V → K → ℕ → Ptr → Option Ptr
  descend fuel h key zero current = walk fuel h key zero current
  descend fuel h key (suc i) current = do
    c ← walk fuel h key (suc i) current
    descend fuel h key i c

  -- The descent of insert and remove, which also records update[i].
  pub descend_update :
      ℕ → Heap K V → K → ℕ → Ptr → List (Option Ptr) → Option (Ptr × List (Option Ptr))
  descend_update fuel h key zero current update = do
    c ← walk fuel h key zero current
    update' ← set_update update zero c
    some (c, update')
  descend_update fuel h key (suc i) current update = do
    c ← walk fuel h key (suc i) current
    update' ← set_update update (suc i) c
    descend_update fuel h key i c update'

  -- current = current->forward[0]; if (current != nullptr && current->key == key)
  pub match_next : Heap K V → K → Ptr → Option (Option (Ptr × Node K V))
  match_next h key current = do
    next ← forward_at h current 0
    elim next [
      | none ↦ some none
      | some q ↦ do n ← h q; some (if o.equal n.key key then some (q, n) else none)
    ]

  abbrev pub value_of : Option (Ptr × Node K V) → Option V
  value_of none = none
  value_of (some (q, n)) = some n.value

  pub search : K → SkipList K V → Option (Option V)
  unfolding descend walk match_next
  search key s = do
    current ← descend s.fresh s.heap key s.current_level s.header
    found ← match_next s.heap key current
    some (value_of found)

  pub contains : K → SkipList K V → Option Bool
  unfolding search
  contains key s = do found ← search key s; some (elim found [ none ↦ false | some v ↦ true ])

module _ {K V : Type 0} where
  -- One round: newNode->forward[i] = update[i]->forward[i]; update[i]->forward[i] = newNode;
  pub link_level : ℕ → Ptr → List (Option Ptr) → Heap K V → Option (Heap K V)
  unfolding update_at forward_at set_forward
  link_level i node update h = do
    u ← update_at update i
    next ← forward_at h u i
    h' ← set_forward h node i next
    set_forward h' u i (some node)

  -- for (int i = 0; i <= randomLevel; i++)
  pub link_levels : ℕ → ℕ → Ptr → List (Option Ptr) → Heap K V → Option (Heap K V)
  link_levels zero i node update h = some h
  link_levels (suc rounds) i node update h = do
    h' ← link_level i node update h
    link_levels rounds (i + 1) node update h'

  -- for (int i = 0; i <= currentLevel_; i++), left by break where update[i] does not lead to the
  -- node.
  pub unlink_levels : ℕ → ℕ → Ptr → List (Option Ptr) → Heap K V → Option (Heap K V)
  unfolding update_at forward_at set_forward
  unlink_levels zero i node update h = some h
  unlink_levels (suc rounds) i node update h = do
    u ← update_at update i
    next ← forward_at h u i
    elim next [
      | none ↦ some h
      | some q ↦ elim (q == node) [
        | false ↦ some h
        | true ↦ do
          after ← forward_at h node i
          h' ← set_forward h u i after
          unlink_levels rounds (i + 1) node update h'
      ]
    ]

  -- while (currentLevel_ > 0 && header_->forward[currentLevel_] == nullptr) currentLevel_--;
  pub lower_level : Heap K V → Ptr → ℕ → Option ℕ
  lower_level h header zero = some zero
  lower_level h header (suc level) = do
    next ← forward_at h header (suc level)
    elim next [ none ↦ lower_level h header level | some q ↦ some (suc level) ]

  -- for (int i = 0; i <= currentLevel_; i++) header_->forward[i] = nullptr;
  pub clear_levels : ℕ → ℕ → Ptr → Heap K V → Option (Heap K V)
  clear_levels zero i header h = some h
  clear_levels (suc rounds) i header h = do
    h' ← set_forward h header i none
    clear_levels rounds (i + 1) header h'

  pub clear : SkipList K V → Option (SkipList K V)
  unfolding clear_levels set_forward
  clear s = do
    h ← clear_levels (s.current_level + 1) 0 s.header s.heap
    some (record s { heap = h; current_level = 0; element_count = 0 })

  pub size : SkipList K V → ℕ
  size s = s.element_count

  -- The part of insert that runs when the key is new.
  pub insert_node : Draws → K → V → List (Option Ptr) → SkipList K V → Option (SkipList K V)
  unfolding random_level raise_update link_levels link_level set_forward forward_at write
  insert_node draws key value update s = do
    let level = random_level draws s.max_level
    update' ← raise_update (level - s.current_level) (s.current_level + 1) s.header update
    let h = write s.heap s.fresh (create_node key value level)
    h' ← link_levels (level + 1) 0 s.fresh update' h
    some (record s {
      heap = h';
      fresh = s.fresh + 1;
      current_level = if ltb s.current_level level then level else s.current_level;
      element_count = s.element_count + 1;
    })

module _ {K V : Type 0} ⦃o : KeyOrder K⦄ where
  -- The flag is true where the key is new.
  pub insert : Draws → K → V → SkipList K V → Option (Bool × SkipList K V)
  unfolding descend_update walk match_next insert_node write
  insert draws key value s = do
    (current, update) ←
        descend_update s.fresh s.heap key s.current_level s.header
          (replicate (s.max_level + 1) none)
    found ← match_next s.heap key current
    elim found [
      | some (q, n) ↦ some (false, record s { heap = write s.heap q (record n { value = value }) })
      | none ↦ do s' ← insert_node draws key value update s; some (true, s')
    ]

  pub remove : K → SkipList K V → Option (Bool × SkipList K V)
  unfolding descend_update walk match_next unlink_levels lower_level set_forward
  remove key s = do
    (current, update) ←
        descend_update s.fresh s.heap key s.current_level s.header
          (replicate (s.max_level + 1) none)
    found ← match_next s.heap key current
    elim found [
      | none ↦ some (false, s)
      | some (q, n) ↦ do
        h ← unlink_levels (s.current_level + 1) 0 q update s.heap
        level ← lower_level h s.header s.current_level
        some (
          true,
          record s { heap = h; current_level = level; element_count = s.element_count - 1 },
        )
    ]
