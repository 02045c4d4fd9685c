-- ===== src/Buffer.antt =====
-- net/buffer.h and net/buffer.cpp: the byte buffer between a socket and the protocol.
-- A pointer into the vector is an index, a byte is a number below 256, and an operation that changes
-- the buffer returns the new one.
pub mod Slice
pub mod Laws
pub mod Io
use reactor_kv.Prelude.{
  ℕ, zero, suc, ◌+◌, ◌-◌, ◌*◌, ◌/◌, ◌%◌, ◌^◌, Bool, true, false, Option, none, some, List, [], ◌∷◌,
  ◌++◌, ltb, leb, if◌then◌else◌, length, replicate, take, drop, ◌==◌, ◌&&◌,
}
use reactor_kv.Bytes.{Bytes}
use reactor_kv.Words.{add_size, sub_size}
use Slice.{slice, write_at}

pub record Buffer : Type 0 where
  pub store : Bytes
  pub reader : ℕ
  pub writer : ℕ

abbrev pub cheap_prepend : ℕ
cheap_prepend = 8

abbrev pub initial_size : ℕ
initial_size = 1024

abbrev pub extra_size : ℕ
extra_size = 65536

unfoldable pub new : ℕ → Buffer
new size = record {
  store = replicate (cheap_prepend + size) 0;
  reader = cheap_prepend;
  writer = cheap_prepend;
}

unfoldable pub readable_bytes : Buffer → ℕ
readable_bytes b = sub_size b.writer b.reader

unfoldable pub writable_bytes : Buffer → ℕ
writable_bytes b = sub_size (length b.store) b.writer

unfoldable pub prependable_bytes : Buffer → ℕ
prependable_bytes b = b.reader

-- The bytes from peek() to beginWrite().
abbrev pub contents : Buffer → Bytes
contents b = slice b.reader b.writer b.store

-- std::search for "\r\n": the offset of the first match.
unfoldable pub search_crlf : Bytes → Option ℕ
search_crlf [] = none
search_crlf (c ∷ []) = none
search_crlf (c ∷ d ∷ cs) =
    let rest = search_crlf (d ∷ cs) in
    if c == b'\r' && d == b'\n' then some 0 else elim rest [ none ↦ none | some i ↦ some (suc i) ]

-- findCRLF, as an offset from peek().
unfoldable pub find_crlf : Buffer → Option ℕ
find_crlf b = search_crlf (contents b)

unfoldable pub retrieve_all : Buffer → Buffer
retrieve_all b = record b { reader = cheap_prepend; writer = cheap_prepend }

unfoldable pub retrieve : ℕ → Buffer → Buffer
unfolding readable_bytes retrieve_all
retrieve len b =
    if ltb len (readable_bytes b)
    then record b { reader = add_size b.reader len }
    else retrieve_all b

-- std::string(peek(), len), which the caller keeps within the vector.
unfoldable pub retrieve_as_string : ℕ → Buffer → Bytes × Buffer
unfolding retrieve
retrieve_as_string len b = (slice b.reader (add_size b.reader len) b.store, retrieve len b)

unfoldable pub retrieve_all_as_string : Buffer → Bytes × Buffer
unfolding retrieve_as_string
retrieve_all_as_string b = retrieve_as_string (readable_bytes b) b

-- buffer_.resize(n) for an n that is not smaller.
abbrev resize : ℕ → Bytes → Bytes
resize n store = store ++ replicate (n - length store) 0

unfoldable pub make_space : ℕ → Buffer → Buffer
unfolding readable_bytes writable_bytes prependable_bytes
make_space len b =
    if ltb (add_size (writable_bytes b) (prependable_bytes b)) (add_size len cheap_prepend)
    then record b { store = resize (add_size b.writer len) b.store }
    else let readable = readable_bytes b in
      record {
        store = write_at cheap_prepend (slice b.reader b.writer b.store) b.store;
        reader = cheap_prepend;
        writer = add_size cheap_prepend readable;
      }

unfoldable pub ensure_writable_bytes : ℕ → Buffer → Buffer
unfolding make_space writable_bytes
ensure_writable_bytes len b = if ltb (writable_bytes b) len then make_space len b else b

unfoldable pub has_written : ℕ → Buffer → Buffer
has_written len b = record b { writer = add_size b.writer len }

unfoldable pub unwrite : ℕ → Buffer → Buffer
unwrite len b = record b { writer = sub_size b.writer len }

-- std::copy to beginWrite().
copy_in : Bytes → Buffer → Buffer
copy_in bs b = record b { store = write_at b.writer bs b.store }

unfoldable pub append : Bytes → Buffer → Buffer
unfolding ensure_writable_bytes copy_in has_written
append bs b = has_written (length bs) (copy_in bs (ensure_writable_bytes (length bs) b))

unfoldable pub prepend : Bytes → Buffer → Buffer
prepend bs b =
    let r = sub_size b.reader (length bs) in record b { store = write_at r bs b.store; reader = r }

-- readFd: `none` is a failed readv; otherwise `got` are the bytes that it read. They fill the writable
-- space first, then the 64 KB on the stack.
unfoldable pub read_fd : Option Bytes → Buffer → Buffer
unfolding writable_bytes append copy_in
read_fd none b = b
read_fd (some got) b =
    let writable = writable_bytes b in
    let filled = copy_in (take writable got) b in
    if leb (length got) writable
    then record filled { writer = add_size b.writer (length got) }
    else append (drop writable got) (record filled { writer = length b.store })

-- How many bytes the two blocks of readv can take: the second one serves if the first is smaller.
unfoldable pub read_room : Buffer → ℕ
unfolding writable_bytes
read_room b =
    let writable = writable_bytes b in
    if ltb writable extra_size then writable + extra_size else writable

-- htobe32: the four bytes of a 32-bit pattern, highest first.
unfoldable pub be_bytes : ℕ → Bytes
be_bytes x = (x / 2 ^ 24 % 256) ∷ (x / 2 ^ 16 % 256) ∷ (x / 2 ^ 8 % 256) ∷ (x % 256) ∷ []

-- be32toh of the first four bytes.
unfoldable pub be_value : Bytes → ℕ
be_value (a ∷ b ∷ c ∷ d ∷ bs) = a * 2 ^ 24 + b * 2 ^ 16 + c * 2 ^ 8 + d
be_value _ = 0

-- An int32_t is its bit pattern, below 2 ^ 32.
unfoldable pub append_int32 : ℕ → Buffer → Buffer
unfolding append be_bytes
append_int32 x b = append (be_bytes x) b

unfoldable pub peek_int32 : Buffer → ℕ
unfolding be_value
peek_int32 b = be_value (slice b.reader (add_size b.reader 4) b.store)

unfoldable pub read_int32 : Buffer → ℕ × Buffer
unfolding peek_int32 retrieve
read_int32 b = (peek_int32 b, retrieve 4 b)

unfoldable pub prepend_int32 : ℕ → Buffer → Buffer
unfolding prepend be_bytes
prepend_int32 x b = prepend (be_bytes x) b
