-- ===== src/Server/Requests.antt =====
-- handleRequest of server/kv_server.cpp against the map that the store stands for.
use reactor_kv.Prelude.{[], ◌≡◌, refl, Bool-cases, inl, inr, none, some, length, if◌then◌else◌, ap}
use reactor_kv.Bytes.{Bytes, bytes, bytes_order, is_empty}
use reactor_kv.Message.{
  CommandType, Request, Response, ok_response, not_found_response, error_response, pong_response,
  bye_response,
}
use reactor_kv.SkipList.{Draws}
use reactor_kv.SkipList.Search.{size-length}
use reactor_kv.SortedMap.{lookup, is_some}
use reactor_kv.KvStore
use reactor_kv.KvStore.{KvStore}
use reactor_kv.KvStore.Crud.{
  Map, IsStore, map_put, map_del, put_refines, del_refines, get_refines, exists_refines,
  clear-IsStore,
}
use reactor_kv.Server.{to_string, handle, handle_request}

-- The protocol: what each command answers, and the map after it.
unfoldable pub map_handle : CommandType → Bytes → Bytes → Map → Response × Map
map_handle CommandType.put key value m = (
  if is_empty key
      then error_response (bytes "Key cannot be empty")
      else ok_response (if is_some (lookup key m) then bytes "UPDATED" else bytes "CREATED"),
  (map_put key value m).1,
)
map_handle CommandType.get key value m =
    (elim (lookup key m) [ none ↦ not_found_response | some v ↦ ok_response v ], m)
map_handle CommandType.del key value m = (
  if is_some (lookup key m) then ok_response (bytes "DELETED") else not_found_response,
  (map_del key m).1,
)
map_handle CommandType.exists key value m =
    (ok_response (if is_some (lookup key m) then bytes "1" else bytes "0"), m)
map_handle CommandType.size key value m = (ok_response (to_string (length m)), m)
map_handle CommandType.clear key value m = (ok_response (bytes "CLEARED"), [])
map_handle CommandType.ping key value m = (pong_response, m)
map_handle CommandType.quit key value m = (bye_response, m)
map_handle CommandType.unknown key value m = (error_response (bytes "Unknown command"), m)

handle_refines :
    (c : CommandType) (draws : Draws) (key value : Bytes) {s : KvStore} {m : Map}
    → IsStore s m
    → (s' : KvStore) × (handle c draws key value s ≡ some ((map_handle c key value m).0, s'))
      × IsStore s' (map_handle c key value m).1
unfolding handle map_handle KvStore.size
handle_refines CommandType.put draws key value {s} {m} v = elim (Bool-cases (is_empty key)) [
  | inl e ↦ (s, rw e, rw e v)
  | inr e ↦
      let (s', r, i) = put_refines draws key value v in
      (
        s',
        elim (Bool-cases (is_some (lookup key m))) [
          | inl f ↦ rw (e, r, e, f)
          | inr f ↦ rw (e, r, e, f)
        ],
        i,
      )
]
handle_refines CommandType.get draws key value {s} v = (s, rw (get_refines key v), v)
handle_refines CommandType.del draws key value v =
    let (s', r, i) = del_refines key v in (s', rw r, i)
handle_refines CommandType.exists draws key value {s} {m} v = (
  s,
  elim (Bool-cases (is_some (lookup key m))) [
    | inl f ↦ rw (exists_refines key v, f)
    | inr f ↦ rw (exists_refines key v, f)
  ],
  v,
)
handle_refines CommandType.size draws key value {s} v =
    (s, ap (λ n. some (ok_response (to_string n), s)) (size-length v.list), v)
handle_refines CommandType.clear draws key value v =
    let (s', r, i) = clear-IsStore v in (s', rw r, i)
handle_refines CommandType.ping draws key value {s} v = (s, refl, v)
handle_refines CommandType.quit draws key value {s} v = (s, refl, v)
handle_refines CommandType.unknown draws key value {s} v = (s, refl, v)

-- handleRequest faults nowhere: on every command, it answers what the protocol says of the map,
-- and leaves a store of the map that the protocol says.
pub handle_request_refines :
    (draws : Draws) (r : Request) {s : KvStore} {m : Map}
    → IsStore s m
    → (s' : KvStore) × (handle_request draws r s
        ≡ some ((map_handle r.command r.key r.value m).0, s'))
      × IsStore s' (map_handle r.command r.key r.value m).1
unfolding handle_request
handle_request_refines draws r v = handle_refines r.command draws r.key r.value v
