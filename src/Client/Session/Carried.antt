-- ===== src/Client/Session/Carried.antt =====
-- Maps whose values client/kvclient.cpp reads back whole, and that its calls keep so.
use reactor_kv.Prelude.{
  suc, ◌<◌, ◌≤◌, ◌^◌, ◌≡◌, refl, false, Bool-cases, inl, inr, [], ◌∷◌, length, All, arith,
}
use reactor_kv.Bytes.{Bytes, bytes_order, is_empty, Without}
use reactor_kv.Codec.Frame.{newline, ends_in_cr}
use reactor_kv.SortedMap.Laws.{All-insert, All-erase, length-insert, length-erase}
use reactor_kv.KvStore.Crud.{Map}
use reactor_kv.Server.Requests.{map_handle}
use reactor_kv.Client.{trim_end, ends_line}
use reactor_kv.Client.Commands.{Call, request, IsSendable, IsPlainValue}
use reactor_kv.Client.Session.{map_call}

-- A value that one answer can carry whole and that the client does not trim.
pub record IsCarried (v : Bytes) : Type 0 where
  pub trimmed : trim_end v ≡ v
  pub short : length v ≤ 4089

-- A map of such values, no more than an int counts.
pub record IsReadableMap (m : Map) : Type 0 where
  pub values : All (λ p. IsCarried p.1) m
  pub few : length m < 2 ^ 31

-- Where a line does not end in a carriage return, the client's trimming leaves it.
trim_end-plain : (v : Bytes) → Without newline v → ends_in_cr v ≡ false → trim_end v ≡ v
unfolding trim_end
trim_end-plain [] w e = refl
trim_end-plain (c ∷ []) w e = let p = w.0 in let h : ends_line c ≡ false = ground arith in rw h
trim_end-plain (c ∷ d ∷ v) w e = rw (trim_end-plain (d ∷ v) w.1 e)

-- Where the values of a put are short, their answers fit the client's buffer.
unfoldable pub IsShort : Call → Type 0
IsShort (Call.put key value) = length value ≤ 4089
IsShort _ = Unit

plain-IsCarried : (v : Bytes) → IsPlainValue v → length v ≤ 4089 → IsCarried v
unfolding IsPlainValue
plain-IsCarried [] p h = absurd p
plain-IsCarried (c ∷ v) p h = record { trimmed = trim_end-plain (c ∷ v) p.1 p.2; short = h }

-- A call leaves values that the client can read.
pub call-values :
    (k : Call) (m : Map)
    → IsSendable k
    → IsShort k
    → All (λ p. IsCarried p.1) m
    → All (λ p. IsCarried p.1) (map_call k m).1
unfolding map_call IsSendable IsShort
call-values (Call.put key value) m s h a = elim (Bool-cases (is_empty key)) [
  | inl e ↦ rw e a
  | inr e ↦ rw e (All-insert (λ p. IsCarried p.1) key value m (plain-IsCarried value s.1 h) a)
]
call-values (Call.get key) m s h a = a
call-values (Call.del key) m s h a = All-erase (λ p. IsCarried p.1) key m a
call-values (Call.exists key) m s h a = a
call-values Call.size m s h a = a
call-values Call.clear m s h a = tt
call-values Call.ping m s h a = a

-- A call adds one key at most.
pub call-length : (k : Call) (m : Map) → length (map_call k m).1 ≤ suc (length m)
unfolding map_call
call-length (Call.put key value) m = elim (Bool-cases (is_empty key)) [
  | inl e ↦ rw e (omega arith)
  | inr e ↦ rw e (length-insert key value m)
]
call-length (Call.get key) m = omega arith
call-length (Call.del key) m = let h = length-erase key m in omega arith
call-length (Call.exists key) m = omega arith
call-length Call.size m = omega arith
call-length Call.clear m = omega arith
call-length Call.ping m = omega arith

-- The protocol leaves the map that the call promises.
pub call-map :
    (k : Call) (m : Map)
    → (map_handle (request k).command (request k).key (request k).value m).1 ≡ (map_call k m).1
unfolding map_call map_handle request
call-map (Call.put key value) m = refl
call-map (Call.get key) m = refl
call-map (Call.del key) m = refl
call-map (Call.exists key) m = refl
call-map Call.size m = refl
call-map Call.clear m = refl
call-map Call.ping m = refl
