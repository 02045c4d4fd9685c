-- ===== src/Codec.antt =====
-- protocol/codec.h: requests out of a buffer, and responses as text. Characters are bytes, in the C
-- locale.
pub mod Frame
pub mod Lines
use reactor_kv.Prelude.{
  ℕ, zero, suc, ◌+◌, ◌-◌, Bool, true, false, not, Option, none, some, List, [], ◌∷◌, ◌++◌, ltb, leb,
  ◌==◌, ◌&&◌, ◌||◌, if◌then◌else◌, length, get_elem?, take, drop, map, ◌>>=◌,
}
use reactor_kv.Bytes.{Bytes, bytes, equal, is_empty}
use reactor_kv.Message.{CommandType, StatusCode, Request, Response}
use reactor_kv.Buffer.{Buffer, contents, find_crlf, readable_bytes, retrieve}

-- std::isspace
abbrev pub is_space : ℕ → Bool
is_space c = c == 32 || leb 9 c && leb c 13

-- ::toupper
abbrev pub upper : ℕ → ℕ
upper c = if leb b'a' c && leb c b'z' then c - 32 else c

unfoldable pub to_upper : Bytes → Bytes
to_upper [] = []
to_upper (c ∷ cs) = upper c ∷ to_upper cs

-- while (iss >> token): the runs of characters that are no space. `token` is the run read so far.
unfoldable pub split_loop : Bytes → Bytes → List Bytes
split_loop token [] = if is_empty token then [] else token ∷ []
split_loop token (c ∷ cs) =
    let rest = split_loop [] cs in
    let more = split_loop (token ++ c ∷ []) cs in
    if is_space c then (if is_empty token then rest else token ∷ rest) else more

unfoldable pub split : Bytes → List Bytes
unfolding split_loop
split line = split_loop [] line

unfoldable pub is_prefix : Bytes → Bytes → Bool
is_prefix [] bs = true
is_prefix (a ∷ xs) [] = false
is_prefix (a ∷ xs) (b ∷ bs) = a == b && is_prefix xs bs

-- line.find(key): the index of its first occurrence.
unfoldable pub find : Bytes → Bytes → Option ℕ
find key [] = if is_empty key then some 0 else none
find key (b ∷ bs) =
    let rest = find key bs in
    if is_prefix key (b ∷ bs) then some 0 else elim rest [ none ↦ none | some i ↦ some (suc i) ]

-- while (valueStart < line.size() && std::isspace(line[valueStart])) valueStart++;
unfoldable pub skip_spaces : Bytes → Bytes
skip_spaces [] = []
skip_spaces (c ∷ cs) = let rest = skip_spaces cs in if is_space c then rest else c ∷ cs

-- The rest of the line behind the first occurrence of the key; parts[1] always occurs.
unfoldable pub value_of : Bytes → Bytes → Bytes
unfolding find is_prefix skip_spaces
value_of key line = elim (find key line) [
  | none ↦ []
  | some i ↦ skip_spaces (drop (i + length key) line)
]

-- The command word, after toUpper.
unfoldable pub command_of : Bytes → CommandType
unfolding equal
command_of cmd =
    if equal cmd (bytes "PUT") || equal cmd (bytes "SET")
    then CommandType.put
    else if equal cmd (bytes "GET")
    then CommandType.get
    else if equal cmd (bytes "DEL") || equal cmd (bytes "DELETE")
    then CommandType.del
    else if equal cmd (bytes "EXISTS")
    then CommandType.exists
    else if equal cmd (bytes "SIZE") || equal cmd (bytes "DBSIZE")
    then CommandType.size
    else if equal cmd (bytes "CLEAR") || equal cmd (bytes "FLUSHDB")
    then CommandType.clear
    else if equal cmd (bytes "PING")
    then CommandType.ping
    else if equal cmd (bytes "QUIT") || equal cmd (bytes "EXIT")
    then CommandType.quit
    else CommandType.unknown

-- The branches of parseLine on the command, with the words behind it.
unfoldable pub fill : CommandType → List Bytes → Bytes → Request → Request
fill CommandType.put (key ∷ v ∷ vs) line r = record {
  command = CommandType.put;
  key = key;
  value = value_of key line;
}
fill CommandType.put _ line r = record r { command = CommandType.unknown }
fill CommandType.get (key ∷ ws) line r = record r { command = CommandType.get; key = key }
fill CommandType.get [] line r = record r { command = CommandType.unknown }
fill CommandType.del (key ∷ ws) line r = record r { command = CommandType.del; key = key }
fill CommandType.del [] line r = record r { command = CommandType.unknown }
fill CommandType.exists (key ∷ ws) line r = record r { command = CommandType.exists; key = key }
fill CommandType.exists [] line r = record r { command = CommandType.unknown }
fill CommandType.size ws line r = record r { command = CommandType.size }
fill CommandType.clear ws line r = record r { command = CommandType.clear }
fill CommandType.ping ws line r = record r { command = CommandType.ping }
fill CommandType.quit ws line r = record r { command = CommandType.quit }
fill CommandType.unknown ws line r = record r { command = CommandType.unknown }

-- parseLine, which always returns true. An empty line has no words.
unfoldable pub parse_line : Bytes → Request → Request
unfolding split fill command_of to_upper value_of
parse_line line r = elim (split line) [
  | [] ↦ record r { command = CommandType.unknown }
  | w ∷ ws ↦ fill (command_of (to_upper w)) ws line r
]

-- memchr(peek, '\n', readableBytes)
unfoldable pub find_lf : Bytes → Option ℕ
find_lf [] = none
find_lf (c ∷ cs) =
    let rest = find_lf cs in
    if c == b'\n' then some 0 else elim rest [ none ↦ none | some i ↦ some (suc i) ]

-- The earlier of the two line ends.
abbrev pub line_end : Option ℕ → Option ℕ → Option ℕ
line_end (some crlf) (some lf) = some (if ltb crlf lf then crlf else lf)
line_end (some crlf) none = some crlf
line_end none lf = lf

-- if (!line.empty() && line.back() == '\r') line.pop_back();
unfoldable pub strip_cr : Bytes → Bytes
strip_cr [] = []
strip_cr (c ∷ []) = if c == b'\r' then [] else c ∷ []
strip_cr (c ∷ d ∷ cs) = c ∷ strip_cr (d ∷ cs)

abbrev pub is_char : Option ℕ → ℕ → Bool
is_char none c = false
is_char (some b) c = b == c

-- What parseRequest passes over: the line, its end, and the '\n' behind a '\r'.
unfoldable pub bytes_to_skip : Bytes → ℕ → ℕ
bytes_to_skip held end =
    if is_char (get_elem? held end) b'\r' && is_char (get_elem? held (end + 1)) b'\n'
    then end + 2
    else end + 1

-- parseRequest: `none` where no whole line has arrived.
unfoldable pub parse_request : Buffer → Request → Option (Request × Buffer)
unfolding find_crlf
parse_request b r =
    let held = contents b in
    elim (line_end (find_crlf b) (find_lf held)) [
      | none ↦ none
      | some end ↦
          some (parse_line (strip_cr (take end held)) r, retrieve (bytes_to_skip held end) b)
    ]

-- The text of a response before its end.
unfoldable pub body : Response → Bytes
body r = elim (r.status) [
  | StatusCode.ok ↦ if is_empty r.message then bytes "+OK" else bytes "+OK " ++ r.message
  | StatusCode.not_found ↦ bytes "-NOT_FOUND"
  | StatusCode.error ↦ if is_empty r.message then bytes "-ERROR" else bytes "-ERROR " ++ r.message
  | StatusCode.pong ↦ bytes "+PONG"
  | StatusCode.bye ↦ bytes "+BYE"
]

unfoldable pub encode_response : Response → Bytes
unfolding body
encode_response r = body r ++ (b'\r' ∷ b'\n' ∷ [])
