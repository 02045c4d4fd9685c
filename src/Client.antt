-- ===== src/Client.antt =====
-- client/kvclient.cpp: what the client sends, and how it reads the answer.
pub mod Answers
pub mod Commands
pub mod Numbers
pub mod Prompt
pub mod Session
use reactor_kv.Prelude.{
  ℕ, ℤ, pos, neg, zero, suc, ◌+◌, Bool, true, false, ◌&&◌, ◌||◌, ltb, ◌==◌, if◌then◌else◌, Option,
  none, some, List, [], ◌∷◌, ◌++◌, length, drop, get_elem?, take, not, leb, ◌*◌, ◌-◌, ◌^◌, ◌<◌,
}
use reactor_kv.Bytes.{Bytes, bytes, equal, is_empty}
use reactor_kv.Codec.{find, is_prefix, skip_spaces}

abbrev pub line_break : Bytes
line_break = b'\r' ∷ b'\n' ∷ []

abbrev pub is_digit : ℕ → Bool
is_digit c = leb 48 c && leb c 57

abbrev pub ends_line : ℕ → Bool
ends_line c = c == b'\r' || c == b'\n'

-- What find_last_not_of("\r\n") leaves.
unfoldable pub trim_end : Bytes → Bytes
trim_end [] = []
trim_end (c ∷ cs) = let rest = trim_end cs in if is_empty rest && ends_line c then [] else c ∷ rest

-- The result, what is stored through `value`, and lastError_.
pub record Parsed : Type 0 where
  pub success : Bool
  pub value : Bytes
  pub last_error : Bytes

-- Where the value starts, behind "+OK " or "+OK".
unfoldable pub value_start : Bytes → ℕ
unfolding is_prefix
value_start response =
    if ltb 3 (length response) && is_prefix (bytes "+OK") response
    then (if is_space (get_elem? response 3) then 4 else 3)
    else 0
  where
    is_space : Option ℕ → Bool
    is_space none = false
    is_space (some c) = c == 32

-- lastError_ after an answer that starts with '-'.
unfoldable pub error_of : Bytes → Bytes
unfolding find trim_end
error_of response = elim (find (bytes "NOT_FOUND") response) [
  | some i ↦ bytes "Key not found"
  | none ↦ let rest = drop 1 response in if is_empty (trim_end rest) then rest else trim_end rest
]

-- parseResponse, with `value` and lastError_ as they were.
unfoldable pub parse_response : Bytes → Parsed → Parsed
unfolding trim_end value_start error_of
parse_response [] p = record p { success = false }
parse_response (c ∷ cs) p =
    let response = c ∷ cs in
    if c == b'+'
    then record p { success = true; value = drop (value_start response) (trim_end response) }
    else if c == b'-'
    then record p { success = false; last_error = error_of response }
    else record p { success = false; last_error = bytes "Unknown response format" }

-- What put, get, del, exists, size, clear and ping send.
unfoldable pub put_command : Bytes → Bytes → Bytes
put_command key value = bytes "PUT " ++ key ++ bytes " " ++ value ++ line_break

unfoldable pub get_command : Bytes → Bytes
get_command key = bytes "GET " ++ key ++ line_break

unfoldable pub del_command : Bytes → Bytes
del_command key = bytes "DEL " ++ key ++ line_break

unfoldable pub exists_command : Bytes → Bytes
exists_command key = bytes "EXISTS " ++ key ++ line_break

abbrev pub size_command : Bytes
size_command = bytes "SIZE" ++ line_break

abbrev pub clear_command : Bytes
clear_command = bytes "CLEAR" ++ line_break

abbrev pub ping_command : Bytes
ping_command = bytes "PING" ++ line_break

-- What ::send and ::recv return: none is a failure.
pub record Exchange : Type 0 where
  pub sent : Option ℕ
  pub received : Option Bytes

-- Whether sockfd_ is open, and lastError_.
pub record Client : Type 0 where
  pub connected : Bool
  pub last_error : Bytes

-- recv into buffer[4096], which leaves room for a final zero.
unfoldable pub reply_size : ℕ
reply_size = 4095

-- What the calls of the operating system give: a socket, an address out of the host's text or out of
-- the name service, a connection, and strerror(errno).
pub record Dial : Type 0 where
  pub socket : Bool
  pub numeric : Bool
  pub resolved : Bool
  pub accepted : Bool
  pub error : Bytes

-- connect
unfoldable pub connect : Bytes → Dial → Client → Bool × Client
connect host d c =
    if c.connected
    then (true, c)
    else if not d.socket
    then (false, record c { last_error = bytes "Failed to create socket: " ++ d.error })
    else if not d.numeric && not d.resolved
    then (
      false,
      record { connected = false; last_error = bytes "Failed to resolve host: " ++ host },
    )
    else if not d.accepted
    then (false, record { connected = false; last_error = bytes "Failed to connect: " ++ d.error })
    else (true, record c { connected = true })

abbrev all_sent : Bytes → Option ℕ → Bool
all_sent command none = false
all_sent command (some n) = n == length command

abbrev failed : Bytes → Client → Bytes × Client
failed message c = ([], record c { last_error = message })

-- sendCommand
unfoldable pub send_command : Bytes → Exchange → Client → Bytes × Client
send_command command x c =
    if not c.connected
    then failed (bytes "Not connected") c
    else if not (all_sent command x.sent)
    then failed (bytes "Failed to send command") c
    else elim (x.received) [
      | none ↦ failed (bytes "Failed to receive response") c
      | some [] ↦ failed (bytes "Failed to receive response") c
      | some (b ∷ bs) ↦ (take reply_size (b ∷ bs), c)
    ]

-- A command, its response parsed, and the client after it.
unfoldable pub ask : Bytes → Exchange → Client → Parsed × Client
unfolding send_command parse_response
ask command x c =
    let r = send_command command x c in
    let p =
      parse_response r.0 (record { success = false; value = []; last_error = r.1.last_error }) in
    (p, record r.1 { last_error = p.last_error })

unfoldable pub put : Bytes → Bytes → Exchange → Client → Bool × Client
unfolding ask put_command
put key value x c = let r = ask (put_command key value) x c in (r.0.success, r.1)

unfoldable pub get : Bytes → Exchange → Client → (Bool × Bytes) × Client
unfolding ask get_command
get key x c = let r = ask (get_command key) x c in ((r.0.success, r.0.value), r.1)

unfoldable pub del : Bytes → Exchange → Client → Bool × Client
unfolding ask del_command
del key x c = let r = ask (del_command key) x c in (r.0.success, r.1)

-- exists: the key is there where the value says so.
unfoldable pub read_exists : Parsed → Bool
read_exists p = p.success && (equal p.value (bytes "1") || equal p.value (bytes "true"))

unfoldable pub exists : Bytes → Exchange → Client → Bool × Client
unfolding ask exists_command read_exists
exists key x c = let r = ask (exists_command key) x c in (read_exists r.0, r.1)

-- Digits up to the first other character, and the rest.
unfoldable pub read_digits : ℕ → Bytes → ℕ
read_digits acc [] = acc
read_digits acc (c ∷ cs) =
    let rest = read_digits (acc * 10 + (c - 48)) cs in if is_digit c then rest else acc

-- The digits of a number, with its sign and the size that an int of that sign stays below.
unfoldable pub stoi_digits : (ℕ → ℤ) → ℕ → Bytes → Option ℤ
unfolding read_digits
stoi_digits sign limit [] = none
stoi_digits sign limit (c ∷ cs) =
    let n = read_digits 0 (c ∷ cs) in if is_digit c && ltb n limit then some (sign n) else none

unfoldable pub stoi_signed : Bytes → Option ℤ
unfolding stoi_digits
stoi_signed [] = none
stoi_signed (c ∷ cs) =
    if c == b'-'
    then stoi_digits neg (2 ^ 31 + 1) cs
    else if c == b'+'
    then stoi_digits pos (2 ^ 31) cs
    else stoi_digits pos (2 ^ 31) (c ∷ cs)

-- std::stoi: none where it throws.
unfoldable pub stoi : Bytes → Option ℤ
unfolding skip_spaces stoi_signed
stoi text = stoi_signed (skip_spaces text)

unfoldable pub size : Exchange → Client → (Bool × ℤ) × Client
unfolding ask stoi
size x c =
    let r = ask size_command x c in
    let n : Bool × ℤ = elim (stoi r.0.value) [ none ↦ (false, pos 0) | some n ↦ (true, n) ] in
    (if r.0.success then n else (false, pos 0), r.1)

unfoldable pub clear : Exchange → Client → Bool × Client
unfolding ask
clear x c = let r = ask clear_command x c in (r.0.success, r.1)

-- ping looks for PONG anywhere in the response.
unfoldable pub ping : Exchange → Client → Bool × Client
unfolding send_command find
ping x c =
    let r = send_command ping_command x c in
    (elim (find (bytes "PONG") r.0) [ none ↦ false | some i ↦ true ], r.1)

-- disconnect, which sends QUIT first
unfoldable pub disconnect : Exchange → Client → Client
unfolding send_command
disconnect x c =
    if c.connected
    then record (send_command (bytes "QUIT" ++ line_break) x c).1 { connected = false }
    else c
