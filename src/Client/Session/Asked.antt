-- ===== src/Client/Session/Asked.antt =====
-- One call of client/kvclient.cpp: what it makes of the answer that the protocol gives.
use reactor_kv.Prelude.{
  ℤ, pos, ℕ, ◌<◌, ◌≤◌, ◌^◌, ◌≡◌, refl, ap, ◌∙◌, subst, Bool, true, false, Bool-cases, inl, inr,
  Option, none, some, [], ◌∷◌, length, All, arith, if◌then◌else◌,
}
use reactor_kv.Bytes.{Bytes, bytes, bytes_order, is_empty, equal}
use reactor_kv.Message.{ok_response, error_response, not_found_response, pong_response}
use reactor_kv.Codec.{encode_response, body, find, is_prefix}
use reactor_kv.SortedMap.{lookup, is_some}
use reactor_kv.KvStore.Crud.{Map}
use reactor_kv.Server.{to_string}
use reactor_kv.Server.Requests.{map_handle}
use reactor_kv.Client
use reactor_kv.Client.{
  Client, Exchange, Parsed, reply_size, send_command, ask, parse_response, trim_end, read_exists,
  stoi, ends_line,
}
use reactor_kv.Client.Numbers.{stoi-to_string, trim_end-to_string, length-to_string}
use reactor_kv.Client.Commands.{Call, command, request, IsSendable, IsSafeKey}
use reactor_kv.Client.Session.Carried.{IsCarried, IsReadableMap}
use reactor_kv.Client.Session.{call, map_call, Reply, flag, text, number}
use reactor_kv.Client.Session.Delivered.{
  delivered, with_error, send_command-delivered, ask-ok, ask-not_found,
}

-- A text known at check time.
known : (v : Bytes) → trim_end v ≡ v → length v ≤ 4089 → IsCarried v
known v e h = record { trimmed = e; short = h }

-- The reply of a call, and a client that stays connected.
abbrev pub Answered : Reply → Reply × Client → Type 0
Answered r o = (c : Client) × (c.connected ≡ true) × (o ≡ (r, c))

-- A call whose reply is made of the parsed answer.
answered :
    {r : Reply} {o : Reply × Client} (f : Parsed → Reply) {q : Parsed × Client} (p : Parsed)
    (c : Client) (error : Bytes)
    → q ≡ (p, with_error c error)
    → o ≡ (f q.0, q.1)
    → f p ≡ r
    → Answered r o
answered f p c error e d g =
    (with_error c error, refl, d ∙ ap (λ q. (f q.0, q.1)) e ∙ ap (λ r. (r, with_error c error)) g)

put-Answered :
    (key value v : Bytes) (c : Client)
    → c.connected ≡ true
    → IsCarried v
    → Answered
        (flag true)
        (call (Call.put key value) (delivered (command (Call.put key value)) (ok_response v)) c)
unfolding call Client.put command
put-Answered key value v c e h =
    answered (λ p. flag p.success) _ c _ (ask-ok (Client.put_command key value) v c e h) refl refl

stored-Answered :
    (key value : Bytes) (there : Bool) (c : Client)
    → c.connected ≡ true
    → IsSafeKey key
    → Answered (flag true) (
        call
          (Call.put key value)
          (delivered (command (Call.put key value)) (
            if is_empty key
            then error_response (bytes "Key cannot be empty")
            else ok_response (if there then bytes "UPDATED" else bytes "CREATED")))
          c)
unfolding IsSafeKey trim_end
stored-Answered [] value there c e s = absurd s
stored-Answered (k ∷ key) value true c e s =
    put-Answered (k ∷ key) value (bytes "UPDATED") c e (known _ refl (omega arith))
stored-Answered (k ∷ key) value false c e s =
    put-Answered (k ∷ key) value (bytes "CREATED") c e (known _ refl (omega arith))

found-IsCarried :
    (key : Bytes) (m : Map)
    → All (λ p. IsCarried p.1) m
    → (v : Bytes) → lookup key m ≡ some v
    → IsCarried v
unfolding lookup
found-IsCarried key [] a v e = cc
found-IsCarried key ((j, w) ∷ m) a v e = elim (Bool-cases (equal j key)) [
  | inl q ↦ let h = rw q at e in subst IsCarried (inj h) a.0
  | inr q ↦ found-IsCarried key m a.1 v (rw q at e)
]
  where
    inj : {x y : Bytes} → ◌≡◌ {A = Option Bytes} (some x) (some y) → x ≡ y
    inj h = cc

get-Answered :
    (key : Bytes) (f : Option Bytes) (c : Client)
    → c.connected ≡ true
    → ((v : Bytes) → f ≡ some v → IsCarried v)
    → Answered
        (elim f [ none ↦ text false [] | some v ↦ text true v ])
        (call
          (Call.get key)
          (delivered
            (command (Call.get key))
            (elim f [ none ↦ not_found_response | some v ↦ ok_response v ]))
          c)
unfolding call Client.get command
get-Answered key none c e h =
    answered (λ p. text p.success p.value) _ c _ (ask-not_found (Client.get_command key) c e) refl
      refl
get-Answered key (some v) c e h =
    answered (λ p. text p.success p.value) _ c _ (ask-ok (Client.get_command key) v c e (h v refl))
      refl refl

del-Answered :
    (key : Bytes) (there : Bool) (c : Client)
    → c.connected ≡ true
    → Answered (flag there) (
        call
          (Call.del key)
          (delivered
            (command (Call.del key))
            (if there then ok_response (bytes "DELETED") else not_found_response))
          c)
unfolding call Client.del command trim_end
del-Answered key true c e =
    answered (λ p. flag p.success) _ c _
      (ask-ok (Client.del_command key) (bytes "DELETED") c e (known _ refl (omega arith))) refl refl
del-Answered key false c e =
    answered (λ p. flag p.success) _ c _ (ask-not_found (Client.del_command key) c e) refl refl

exists-Answered :
    (key : Bytes) (there : Bool) (c : Client)
    → c.connected ≡ true
    → Answered (flag there) (
        call
          (Call.exists key)
          (delivered
            (command (Call.exists key))
            (ok_response (if there then bytes "1" else bytes "0")))
          c)
unfolding call Client.exists command read_exists equal trim_end
exists-Answered key true c e =
    answered (λ p. flag (read_exists p)) _ c _
      (ask-ok (Client.exists_command key) (bytes "1") c e (known _ refl (omega arith))) refl refl
exists-Answered key false c e =
    answered (λ p. flag (read_exists p)) _ c _
      (ask-ok (Client.exists_command key) (bytes "0") c e (known _ refl (omega arith))) refl refl

clear-Answered :
    (c : Client)
    → c.connected ≡ true
    → Answered
        (flag true)
        (call Call.clear (delivered (command Call.clear) (ok_response (bytes "CLEARED"))) c)
unfolding call Client.clear command trim_end
clear-Answered c e =
    answered (λ p. flag p.success) _ c _
      (ask-ok Client.clear_command (bytes "CLEARED") c e (known _ refl (omega arith))) refl refl

ping-Answered :
    (c : Client)
    → c.connected ≡ true
    → Answered (flag true) (call Call.ping (delivered (command Call.ping) pong_response) c)
unfolding call Client.ping command reply_size encode_response body find is_prefix
ping-Answered c e = (
  c,
  e,
  ap (λ r. (flag (pong r.0), r.1))
      (send_command-delivered Client.ping_command pong_response c e (omega arith)),
)
  where
    pong : Bytes → Bool
    pong bs = elim (find (bytes "PONG") bs) [ none ↦ false | some i ↦ true ]

size-Answered :
    (n : ℕ) (c : Client)
    → c.connected ≡ true
    → n < 2 ^ 31
    → Answered
        (number true (pos n))
        (call Call.size (delivered (command Call.size) (ok_response (to_string n))) c)
unfolding call Client.size command
size-Answered n c e h =
    let l = length-to_string n h in
    let carried = known (to_string n) (trim_end-to_string n) (omega arith) in
    answered (λ p. counted (read p)) _ c _ (ask-ok Client.size_command (to_string n) c e carried)
      refl (ap counted (ap read_count (stoi-to_string n h)))
  where
    read_count : Option ℤ → Bool × ℤ
    read_count o = elim o [ none ↦ (false, pos 0) | some n ↦ (true, n) ]

    read : Parsed → Bool × ℤ
    read p = if p.success then read_count (stoi p.value) else (false, pos 0)

    counted : Bool × ℤ → Reply
    counted r = number r.0 r.1

-- Every call returns what the map says, and the client stays connected.
pub call-Answered :
    (k : Call) (c : Client) (m : Map)
    → c.connected ≡ true
    → IsSendable k
    → IsReadableMap m
    → Answered (map_call k m).0 (
        call k
          (delivered
            (command k)
            (map_handle (request k).command (request k).key (request k).value m).0)
          c)
unfolding map_call request map_handle IsSendable
call-Answered (Call.put key value) c m e s h =
    stored-Answered key value (is_some (lookup key m)) c e s.0
call-Answered (Call.get key) c m e s h =
    get-Answered key (lookup key m) c e (found-IsCarried key m h.values)
call-Answered (Call.del key) c m e s h = del-Answered key (is_some (lookup key m)) c e
call-Answered (Call.exists key) c m e s h = exists-Answered key (is_some (lookup key m)) c e
call-Answered Call.size c m e s h = size-Answered (length m) c e h.few
call-Answered Call.clear c m e s h = clear-Answered c e
call-Answered Call.ping c m e s h = ping-Answered c e
