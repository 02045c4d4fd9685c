-- ===== src/Client/Session/Delivered.antt =====
-- One exchange of client/kvclient.cpp in which the command is sent whole and the answer arrives whole.
use reactor_kv.Prelude.{
  ℕ, ◌≤◌, ◌≡◌, refl, sym, ap, ◌∙◌, subst, true, false, some, [], ◌∷◌, ◌++◌, length, arith,
  length-append, take-all, ◌==◌, ==_iff,
}
use reactor_kv.Bytes.{Bytes, bytes, bytes_order}
use reactor_kv.Message.{Response, ok_response, not_found_response}
use reactor_kv.Codec.{encode_response, body}
use reactor_kv.Client.{Client, Exchange, Parsed, reply_size, send_command, ask}
use reactor_kv.Client.Answers.{answer, IsReadable, parse_response-encode_response}
use reactor_kv.Client.Session.Carried.{IsCarried}

-- What the socket does where the command is sent whole and the response arrives whole.
abbrev pub delivered : Bytes → Response → Exchange
delivered cmd r = record { sent = some (length cmd); received = some (encode_response r) }

send_command_lem :
    (cmd : Bytes) (b : ℕ) (bs : Bytes) (c : Client)
    → c.connected ≡ true
    → length (b ∷ bs) ≤ reply_size
    → send_command cmd (record { sent = some (length cmd); received = some (b ∷ bs) }) c
      ≡ (b ∷ bs, c)
unfolding send_command
send_command_lem cmd b bs c e h =
    let s : (length cmd == length cmd) ≡ true = (==_iff (length cmd) (length cmd)).1 refl in
    let t = take-all reply_size (b ∷ bs) h in simp (e, s, t)

-- A response has a first byte.
encode_response-begins : (r : Response) → (b : ℕ) × (bs : Bytes) × (encode_response r ≡ b ∷ bs)
unfolding encode_response
encode_response-begins r = begins (body r)
  where
    begins : (xs : Bytes) → (b : ℕ) × (bs : Bytes) × (xs ++ (b'\r' ∷ b'\n' ∷ []) ≡ b ∷ bs)
    begins [] = (b'\r', b'\n' ∷ [], refl)
    begins (x ∷ xs) = (x, xs ++ (b'\r' ∷ b'\n' ∷ []), refl)

pub send_command-delivered :
    (cmd : Bytes) (r : Response) (c : Client)
    → c.connected ≡ true
    → length (encode_response r) ≤ reply_size
    → send_command cmd (delivered cmd r) c ≡ (encode_response r, c)
send_command-delivered cmd r c e h =
    let (b, bs, q) = encode_response-begins r in
    subst
      (λ t. send_command cmd (record { sent = some (length cmd); received = some t }) c ≡ (t, c))
      (sym q) (send_command_lem cmd b bs c e (subst (λ t. length t ≤ reply_size) q h))

-- What is parsed before the answer.
abbrev pub unread : Client → Parsed
unread c = record { success = false; value = []; last_error = c.last_error }

-- The response is read, and the connection stays.
pub ask-delivered :
    (cmd : Bytes) (r : Response) (c : Client)
    → c.connected ≡ true
    → length (encode_response r) ≤ reply_size
    → IsReadable r
    → ask cmd (delivered cmd r) c
      ≡ (answer r (unread c), record c { last_error = (answer r (unread c)).last_error })
unfolding ask
ask-delivered cmd r c e h i =
    rw (send_command-delivered cmd r c e h, parse_response-encode_response r (unread c) i) refl

pub encode_response-length :
    (v : Bytes) → length v ≤ 4089 → length (encode_response (ok_response v)) ≤ reply_size
unfolding encode_response body reply_size
encode_response-length [] h = omega arith
encode_response-length (c ∷ v) h = let l = length-append (c ∷ v) (b'\r' ∷ b'\n' ∷ []) in omega arith

-- The client with another error text.
abbrev pub with_error : Client → Bytes → Client
with_error c e = record { connected = true; last_error = e }

pub ask-ok :
    (cmd v : Bytes) (c : Client)
    → c.connected ≡ true
    → IsCarried v
    → ask cmd (delivered cmd (ok_response v)) c
      ≡ (record { success = true; value = v; last_error = c.last_error }, with_error c c.last_error)
unfolding IsReadable answer
ask-ok cmd v c e h =
    ask-delivered cmd (ok_response v) c e (encode_response-length v h.short) h.trimmed
    ∙ ap
        (λ b. (
          record { success = true; value = v; last_error = c.last_error },
          record { connected = b; last_error = c.last_error },
        ))
        e

pub ask-not_found :
    (cmd : Bytes) (c : Client)
    → c.connected ≡ true
    → ask cmd (delivered cmd not_found_response) c ≡ (
      record { success = false; value = []; last_error = bytes "Key not found" },
      with_error c (bytes "Key not found"),
    )
unfolding IsReadable answer reply_size encode_response body
ask-not_found cmd c e =
    ask-delivered cmd not_found_response c e (omega arith) tt
    ∙ ap
        (λ b. (
          record { success = false; value = []; last_error = bytes "Key not found" },
          record { connected = b; last_error = bytes "Key not found" },
        ))
        e
