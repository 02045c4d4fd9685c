-- ===== src/Client/Commands.antt =====
-- The commands that client/kvclient.cpp sends, as parseRequest of protocol/codec.h reads them.
use reactor_kv.Prelude.{
  ℕ, ◌≡◌, ◌≢◌, refl, sym, ap, ◌∙◌, Bool, true, false, inl, inr, [], ◌∷◌, ◌++◌, All, arith,
  append-nil, append_assoc, All-append, All-mono, not, ◌==◌, ◌&&◌, Bool-cases,
}
use reactor_kv.Bytes.{Bytes, bytes, equal, is_empty, Without}
use reactor_kv.Message.{CommandType, Request, no_request}
use reactor_kv.Codec.{is_space, strip_cr, parse_line, fill, command_of, to_upper, split_loop}
use reactor_kv.Codec.Frame.{newline, return, ends_in_cr, strip_cr-same}
use reactor_kv.Codec.Lines.{
  IsWord, put_line, parse_line-words, parse_line-keyed, parse_line-put, split_loop-word,
  split_loop-end,
}
use reactor_kv.Server.Stream.{request_of}
use reactor_kv.Client.{
  put_command, get_command, del_command, exists_command, size_command, clear_command, ping_command,
}

-- The calls of a client that send a command and read its answer.
pub data Call : Type 0 where
  put : Bytes → Bytes → Call
  get del exists : Bytes → Call
  size clear ping : Call

unfoldable pub command : Call → Bytes
command (Call.put key value) = put_command key value
command (Call.get key) = get_command key
command (Call.del key) = del_command key
command (Call.exists key) = exists_command key
command Call.size = size_command
command Call.clear = clear_command
command Call.ping = ping_command

-- What the server is asked for.
unfoldable pub request : Call → Request
request (Call.put key value) = record { command = CommandType.put; key = key; value = value }
request (Call.get key) = record { command = CommandType.get; key = key; value = [] }
request (Call.del key) = record { command = CommandType.del; key = key; value = [] }
request (Call.exists key) = record { command = CommandType.exists; key = key; value = [] }
request Call.size = record { command = CommandType.size; key = []; value = [] }
request Call.clear = record { command = CommandType.clear; key = []; value = [] }
request Call.ping = record { command = CommandType.ping; key = []; value = [] }

-- The text of a command before its "\r\n".
abbrev text : Call → Bytes
text (Call.put key value) = put_line (bytes "PUT") key value
text (Call.get key) = bytes "GET" ++ 32 ∷ key
text (Call.del key) = bytes "DEL" ++ 32 ∷ key
text (Call.exists key) = bytes "EXISTS" ++ 32 ∷ key
text Call.size = bytes "SIZE"
text Call.clear = bytes "CLEAR"
text Call.ping = bytes "PING"

-- A word whose first byte does not occur in "PUT", so that the server finds it behind the command.
unfoldable pub IsSafeKey : Bytes → Type 0
IsSafeKey [] = ⊥
IsSafeKey (k ∷ key) = IsWord (k ∷ key) × Without k (bytes "PUT")

-- A line of text that starts with no space and does not end in a carriage return.
unfoldable pub IsPlainValue : Bytes → Type 0
IsPlainValue [] = ⊥
IsPlainValue (c ∷ v) = (is_space c ≡ false) × Without newline (c ∷ v) × (ends_in_cr (c ∷ v) ≡ false)

-- The arguments that a command line can carry.
unfoldable pub IsSendable : Call → Type 0
IsSendable (Call.put key value) = IsSafeKey key × IsPlainValue value
IsSendable (Call.get key) = IsWord key
IsSendable (Call.del key) = IsWord key
IsSendable (Call.exists key) = IsWord key
IsSendable Call.size = Unit
IsSendable Call.clear = Unit
IsSendable Call.ping = Unit

pub command-text : (c : Call) → command c ≡ text c ++ return ∷ newline ∷ []
unfolding command put_command get_command del_command exists_command
command-text (Call.put key value) = simp append_assoc
command-text (Call.get key) = refl
command-text (Call.del key) = refl
command-text (Call.exists key) = refl
command-text Call.size = refl
command-text Call.clear = refl
command-text Call.ping = refl

strip_cr-return : (l : Bytes) → strip_cr (l ++ return ∷ []) ≡ l
unfolding strip_cr
strip_cr-return [] = refl
strip_cr-return (c ∷ []) = refl
strip_cr-return (c ∷ d ∷ l) = ap (λ t. c ∷ t) (strip_cr-return (d ∷ l))

ends_in_cr-append :
    (xs : Bytes) (c : ℕ) (cs : Bytes) → ends_in_cr (xs ++ c ∷ cs) ≡ ends_in_cr (c ∷ cs)
ends_in_cr-append [] c cs = refl
ends_in_cr-append (x ∷ []) c cs = refl
ends_in_cr-append (x ∷ y ∷ xs) c cs = ends_in_cr-append (y ∷ xs) c cs

-- Bytes that are no space are no line end either.
solid-newline : (w : Bytes) → All (λ c. is_space c ≡ false) w → Without newline w
solid-newline w a = All-mono (λ c. is_space c ≡ false) (λ b. b ≢ newline) w (λ c h. ground arith) a

solid-cr : (w : Bytes) → All (λ c. is_space c ≡ false) w → ends_in_cr w ≡ false
solid-cr [] a = refl
solid-cr (c ∷ []) a = let h = a.0 in ground arith
solid-cr (c ∷ d ∷ w) a = solid-cr (d ∷ w) a.1

word-cr : (xs w : Bytes) → IsWord w → ends_in_cr (xs ++ 32 ∷ w) ≡ false
word-cr xs [] v = cc v.some_byte
word-cr xs (c ∷ w) v = ends_in_cr-append xs 32 (c ∷ w) ∙ solid-cr (c ∷ w) v.solid

value-cr : (xs v : Bytes) → IsPlainValue v → ends_in_cr (xs ++ 32 ∷ v) ≡ false
unfolding IsPlainValue
value-cr xs [] p = absurd p
value-cr xs (c ∷ v) p = ends_in_cr-append xs 32 (c ∷ v) ∙ p.2

text-cr : (c : Call) → IsSendable c → ends_in_cr (text c) ≡ false
unfolding IsSendable
text-cr (Call.put key value) h = value-cr (bytes "PUT " ++ key) value h.1
text-cr (Call.get key) h = word-cr (bytes "GET") key h
text-cr (Call.del key) h = word-cr (bytes "DEL") key h
text-cr (Call.exists key) h = word-cr (bytes "EXISTS") key h
text-cr Call.size h = refl
text-cr Call.clear h = refl
text-cr Call.ping h = refl

-- A test for the absence of a byte.
unfoldable pub misses : ℕ → Bytes → Bool
misses c [] = true
misses c (b ∷ bs) = not (b == c) && misses c bs

pub misses-Without : (c : ℕ) (bs : Bytes) → misses c bs ≡ true → Without c bs
unfolding misses
misses-Without c [] h = tt
misses-Without c (b ∷ bs) h = (ground arith, misses-Without c bs (ground arith))

key-Without : (key : Bytes) → IsSafeKey key → Without newline key
unfolding IsSafeKey
key-Without [] p = absurd p
key-Without (k ∷ key) p = solid-newline (k ∷ key) p.0.solid

value-Without : (v : Bytes) → IsPlainValue v → Without newline v
unfolding IsPlainValue
value-Without [] p = absurd p
value-Without (c ∷ v) p = p.1

behind-Without :
    (xs w : Bytes) → misses newline xs ≡ true → Without newline w → Without newline (xs ++ 32 ∷ w)
behind-Without xs w e a =
    All-append (λ b. b ≢ newline) xs (32 ∷ w) (misses-Without newline xs e)
      ((λ e. absurd (omega arith)), a)

text-Without : (c : Call) → IsSendable c → Without newline (text c)
unfolding IsSendable misses
text-Without (Call.put key value) h = behind-Without (bytes "PUT") (key ++ 32 ∷ value) refl (
    All-append (λ b. b ≢ newline) key (32 ∷ value) (key-Without key h.0)
      ((λ e. absurd (omega arith)), value-Without value h.1))
text-Without (Call.get key) h = behind-Without (bytes "GET") key refl (solid-newline key h.solid)
text-Without (Call.del key) h = behind-Without (bytes "DEL") key refl (solid-newline key h.solid)
text-Without (Call.exists key) h =
    behind-Without (bytes "EXISTS") key refl (solid-newline key h.solid)
text-Without Call.size h = misses-Without newline (bytes "SIZE") refl
text-Without Call.clear h = misses-Without newline (bytes "CLEAR") refl
text-Without Call.ping h = misses-Without newline (bytes "PING") refl

-- The first word of a line that is one word.
alone : (w : Bytes) → IsWord w → split_loop [] w ≡ w ∷ []
alone w v =
    ap (split_loop []) (sym (append-nil w))
    ∙ split_loop-word [] w [] v.solid
    ∙ split_loop-end w v.some_byte

-- A word known at check time.
spaceless : Bytes → Bool
spaceless [] = true
spaceless (c ∷ cs) = not (is_space c) && spaceless cs

spaceless-IsWord : (w : Bytes) → is_empty w ≡ false → spaceless w ≡ true → IsWord w
unfolding spaceless
spaceless-IsWord w e h = record { some_byte = e; solid = solid w h }
  where
    solid : (w : Bytes) → spaceless w ≡ true → All (λ c. is_space c ≡ false) w
    solid [] h = tt
    solid (c ∷ cs) h = elim (Bool-cases (is_space c)) [
      | inl e ↦ cc (rw e at h)
      | inr e ↦ (e, solid cs (rw e at h))
    ]

-- `WORD` alone.
parse_line-alone :
    (w : Bytes) (r : Request) → IsWord w → parse_line w r ≡ fill (command_of (to_upper w)) [] w r
parse_line-alone w r v = parse_line-words w w [] r (alone w v)

parse_line-put_text :
    (key value : Bytes)
    → IsSafeKey key
    → IsPlainValue value
    → parse_line (put_line (bytes "PUT") key value) no_request
      ≡ record { command = CommandType.put; key = key; value = value }
unfolding IsSafeKey IsPlainValue spaceless to_upper command_of equal
parse_line-put_text [] value s p = absurd s
parse_line-put_text (k ∷ key) [] s p = absurd p
parse_line-put_text (k ∷ key) (c ∷ v) s p =
    parse_line-put (bytes "PUT") key v k c no_request (spaceless-IsWord (bytes "PUT") refl refl) s.0
      s.1 p.0 refl

parse_line-text : (c : Call) → IsSendable c → parse_line (text c) no_request ≡ request c
unfolding IsSendable request spaceless to_upper command_of equal fill
parse_line-text (Call.put key value) h = parse_line-put_text key value h.0 h.1
parse_line-text (Call.get key) h =
    parse_line-keyed (bytes "GET") key no_request (spaceless-IsWord (bytes "GET") refl refl) h
      (inl refl)
parse_line-text (Call.del key) h =
    parse_line-keyed (bytes "DEL") key no_request (spaceless-IsWord (bytes "DEL") refl refl) h
      (inr (inl refl))
parse_line-text (Call.exists key) h =
    parse_line-keyed (bytes "EXISTS") key no_request (spaceless-IsWord (bytes "EXISTS") refl refl) h
      (inr (inr refl))
parse_line-text Call.size h =
    parse_line-alone (bytes "SIZE") no_request (spaceless-IsWord (bytes "SIZE") refl refl)
parse_line-text Call.clear h =
    parse_line-alone (bytes "CLEAR") no_request (spaceless-IsWord (bytes "CLEAR") refl refl)
parse_line-text Call.ping h =
    parse_line-alone (bytes "PING") no_request (spaceless-IsWord (bytes "PING") refl refl)

-- The line that the server cuts out of a command.
abbrev pub line : Call → Bytes
line c = text c ++ return ∷ []

pub command-line : (c : Call) → command c ≡ line c ++ newline ∷ []
command-line c = command-text c ∙ sym (append_assoc (text c) (return ∷ []) (newline ∷ []))

pub line-Without : (c : Call) → IsSendable c → Without newline (line c)
line-Without c h =
    All-append (λ b. b ≢ newline) (text c) (return ∷ []) (text-Without c h) (ground arith, tt)

-- The server reads a command of the client as the request that the client was called with.
pub request_of-line : (c : Call) → IsSendable c → request_of (line c) ≡ request c
request_of-line c h =
    ap (λ t. parse_line (strip_cr t) no_request) (strip_cr-return (text c))
    ∙ ap (λ t. parse_line t no_request) (strip_cr-same (text c) (text-cr c h))
    ∙ parse_line-text c h
