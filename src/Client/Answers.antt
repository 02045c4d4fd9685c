-- ===== src/Client/Answers.antt =====
-- client/kvclient.cpp against protocol/codec.h: what the server encodes, the client reads back.
use reactor_kv.Prelude.{
  ℕ, ◌≡◌, refl, ap, ◌∙◌, subst, true, false, Bool-cases, inl, inr, ltb, if◌then◌else◌, Option, none,
  some, [], ◌∷◌, ◌++◌, arith, length, drop, All, ◌>>=◌,
}
use mathlib.Core.Path.{ap₂}
use reactor_kv.Bytes.{Bytes, bytes, bytes_order, equal, is_empty}
use reactor_kv.Message.{
  StatusCode, CommandType, Response, ok_response, error_response, not_found_response,
}
use reactor_kv.SortedMap.{lookup}
use reactor_kv.SkipList.{Draws}
use reactor_kv.KvStore.{KvStore}
use reactor_kv.KvStore.Crud.{Map, IsStore, get_refines}
use reactor_kv.Server.{handle}
use reactor_kv.Codec.{body, encode_response, find, is_prefix}
use reactor_kv.Client.{line_break, trim_end, Parsed, value_start, error_of, parse_response}

trim_end-line_break : (xs : Bytes) → trim_end (xs ++ line_break) ≡ trim_end xs
unfolding trim_end
trim_end-line_break [] = refl
trim_end-line_break (c ∷ xs) = rw (trim_end-line_break xs)

-- Trimming passes over what stands in front of bytes that stay.
trim_end-append :
    (xs ys : Bytes) → is_empty ys ≡ false → trim_end ys ≡ ys → trim_end (xs ++ ys) ≡ xs ++ ys
unfolding trim_end
trim_end-append [] ys n e = e
trim_end-append (c ∷ xs) ys n e =
    let h : is_empty (xs ++ ys) ≡ false = keeps xs in rw (trim_end-append xs ys n e, h)
  where
    keeps : (xs : Bytes) → is_empty (xs ++ ys) ≡ false
    keeps [] = n
    keeps (x ∷ xs) = refl

-- What the client makes of each response.
unfoldable pub answer : Response → Parsed → Parsed
answer r p = elim (r.status) [
  | StatusCode.ok ↦ record p { success = true; value = r.message }
  | StatusCode.not_found ↦ record p { success = false; last_error = bytes "Key not found" }
  | StatusCode.error ↦ record p {
    success = false;
    last_error = if is_empty r.message then bytes "ERROR" else bytes "ERROR " ++ r.message;
  }
  | StatusCode.pong ↦ record p { success = true; value = bytes "+PONG" }
  | StatusCode.bye ↦ record p { success = true; value = bytes "+BYE" }
]

plus_lem :
    (cs : Bytes) (p : Parsed) (v : Bytes)
    → drop (value_start (b'+' ∷ cs)) (trim_end (b'+' ∷ cs)) ≡ v
    → parse_response (b'+' ∷ cs) p ≡ record p { success = true; value = v }
unfolding parse_response
plus_lem cs p v e = ap (λ x. record p { success = true; value = x }) e

minus_lem :
    (cs : Bytes) (p : Parsed) (e : Bytes)
    → error_of (b'-' ∷ cs) ≡ e
    → parse_response (b'-' ∷ cs) p ≡ record p { success = false; last_error = e }
unfolding parse_response
minus_lem cs p e h = ap (λ x. record p { success = false; last_error = x }) h

value_start-ok : (cs : Bytes) → value_start (bytes "+OK " ++ cs) ≡ 4
unfolding value_start is_prefix
value_start-ok cs = let h : ltb 3 (length (bytes "+OK " ++ cs)) ≡ true = ground arith in rw h

ok_lem :
    (m : Bytes) (p : Parsed)
    → trim_end m ≡ m
    → parse_response (encode_response (ok_response m)) p ≡ record p { success = true; value = m }
unfolding encode_response body
ok_lem [] p e = unfold parse_response trim_end value_start is_prefix in refl
ok_lem (c ∷ m) p e =
    let t = trim_end-line_break (bytes "+OK " ++ c ∷ m) in
    let u = trim_end-append (bytes "+OK ") (c ∷ m) refl e in
    let v = value_start-ok (c ∷ m ++ line_break) in
    plus_lem (bytes "OK " ++ c ∷ m ++ line_break) p (c ∷ m) (ap₂ (λ n t. drop n t) v (t ∙ u))

error_lem :
    (m : Bytes) (p : Parsed)
    → trim_end m ≡ m
    → find (bytes "NOT_FOUND") (encode_response (error_response m)) ≡ none
    → parse_response (encode_response (error_response m)) p ≡ record p {
      success = false;
      last_error = if is_empty m then bytes "ERROR" else bytes "ERROR " ++ m;
    }
unfolding encode_response body is_prefix
error_lem [] p e f = unfold parse_response error_of find is_prefix trim_end in refl
error_lem (c ∷ m) p e f =
    let t = trim_end-line_break (bytes "ERROR " ++ c ∷ m) in
    let u = trim_end-append (bytes "ERROR ") (c ∷ m) refl e in
    minus_lem (bytes "ERROR " ++ c ∷ m ++ line_break) p (bytes "ERROR " ++ c ∷ m) (
      error_of-plain (bytes "ERROR " ++ c ∷ m ++ line_break) (bytes "RROR " ++ c ∷ m) b'E' f
        (t ∙ u))
  where
    error_of-plain :
        (cs d : Bytes) (x : ℕ)
        → find (bytes "NOT_FOUND") (b'-' ∷ cs) ≡ none
        → trim_end cs ≡ x ∷ d
        → error_of (b'-' ∷ cs) ≡ x ∷ d
    error_of-plain cs d x f t = unfold error_of in rw (f, t)

not_found_lem :
    (m : Bytes) (p : Parsed)
    → parse_response (encode_response (record { status = StatusCode.not_found; message = m })) p
      ≡ record p { success = false; last_error = bytes "Key not found" }
unfolding encode_response body parse_response error_of find is_prefix trim_end
not_found_lem m p = refl

pong_lem :
    (m : Bytes) (p : Parsed)
    → parse_response (encode_response (record { status = StatusCode.pong; message = m })) p
      ≡ record p { success = true; value = bytes "+PONG" }
unfolding encode_response body parse_response value_start is_prefix trim_end
pong_lem m p = refl

bye_lem :
    (m : Bytes) (p : Parsed)
    → parse_response (encode_response (record { status = StatusCode.bye; message = m })) p
      ≡ record p { success = true; value = bytes "+BYE" }
unfolding encode_response body parse_response value_start is_prefix trim_end
bye_lem m p = refl

-- What the client reads can be told from the response: the text of a success, the error's text, and
-- "Key not found".
unfoldable pub IsReadable : Response → Type 0
IsReadable r = elim (r.status) [
  | StatusCode.ok ↦ trim_end r.message ≡ r.message
  | StatusCode.error ↦
      (trim_end r.message ≡ r.message) × (find (bytes "NOT_FOUND") (encode_response r) ≡ none)
  | _ ↦ Unit
]

-- Whatever the server encodes, the client reads back, where the text does not end in a line break
-- and an error does not mention NOT_FOUND.
pub parse_response-encode_response :
    (r : Response) (p : Parsed) → IsReadable r → parse_response (encode_response r) p ≡ answer r p
unfolding IsReadable answer
parse_response-encode_response r p h = by_status r.status r.message h
  where
    by_status :
        (s : StatusCode) (m : Bytes)
        → IsReadable (record { status = s; message = m })
        → parse_response (encode_response (record { status = s; message = m })) p
          ≡ answer (record { status = s; message = m }) p
    by_status StatusCode.ok m h = ok_lem m p h
    by_status StatusCode.error m h = error_lem m p h.0 h.1
    by_status StatusCode.not_found m h = not_found_lem m p
    by_status StatusCode.pong m h = pong_lem m p
    by_status StatusCode.bye m h = bye_lem m p

found :
    (key : Bytes) (m : Map)
    → All (λ (e : Bytes × Bytes). trim_end e.1 ≡ e.1) m
    → (v : Bytes) → lookup key m ≡ some v
    → trim_end v ≡ v
unfolding lookup
found key [] a v e = cc
found key ((j, w) ∷ m) a v e = elim (Bool-cases (equal j key)) [
  | inl q ↦ let h = rw q at e in subst (λ x. trim_end x ≡ x) (inj h) a.0
  | inr q ↦ found key m a.1 v (rw q at e)
]
  where
    inj : {x y : Bytes} → ◌≡◌ {A = Option Bytes} (some x) (some y) → x ≡ y
    inj h = cc

-- get of the client: against a store of the map, it has the value of the key where the map has one,
-- and fails with "Key not found" where it has none.
pub parse_response-get :
    (draws : Draws) (key value : Bytes) (p : Parsed) {s : KvStore} {m : Map}
    → IsStore s m
    → All (λ (e : Bytes × Bytes). trim_end e.1 ≡ e.1) m
    → (handle CommandType.get draws key value s >>= λ r.
        some (parse_response (encode_response r.0) p))
      ≡ some (elim (lookup key m) [
        | none ↦ record p { success = false; last_error = bytes "Key not found" }
        | some v ↦ record p { success = true; value = v }
      ])
unfolding handle
parse_response-get draws key value p {s} {m} i a =
    rw (get_refines key i) (by_found (lookup key m) (found key m a))
  where
    by_found :
        (f : Option Bytes)
        → ((v : Bytes) → f ≡ some v → trim_end v ≡ v)
        → some (
            parse_response
              (encode_response (elim f [ none ↦ not_found_response | some v ↦ ok_response v ]))
              p)
          ≡ some (elim f [
            | none ↦ record p { success = false; last_error = bytes "Key not found" }
            | some v ↦ record p { success = true; value = v }
          ])
    by_found none t = ap some (not_found_lem [] p)
    by_found (some v) t = ap some (ok_lem v p (t v refl))
