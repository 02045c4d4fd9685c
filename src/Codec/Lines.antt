-- ===== src/Codec/Lines.antt =====
-- What parseLine of protocol/codec.h makes of a request line.
use reactor_kv.Prelude.{
  ℕ, ◌+◌, ◌≡◌, ◌≢◌, ◌⊎◌, refl, true, false, some, List, [], ◌∷◌, ◌++◌, arith, length, drop, All, ap,
  ◌∙◌, sym, subst, Bool-cases, inl, inr, append-nil, append_assoc, drop-append, All-append,
  length-append,
}
use reactor_kv.Bytes.{Bytes, is_empty, Without}
use reactor_kv.Message.{CommandType, Request}
use reactor_kv.Codec.{
  is_space, split, split_loop, parse_line, fill, command_of, to_upper, value_of, find, is_prefix,
  skip_spaces,
}

-- A run of characters that are no space, with at least one.
pub record IsWord (w : Bytes) : Type 0 where
  pub some_byte : is_empty w ≡ false
  pub solid : All (λ c. is_space c ≡ false) w

pub split_loop-word :
    (token w rest : Bytes)
    → All (λ c. is_space c ≡ false) w
    → split_loop token (w ++ rest) ≡ split_loop (token ++ w) rest
unfolding split_loop
split_loop-word token [] rest a = ap (λ t. split_loop t rest) (sym (append-nil token))
split_loop-word token (c ∷ w) rest a = rw a.0 (
    split_loop-word (token ++ c ∷ []) w rest a.1
    ∙ ap (λ t. split_loop t rest) (append_assoc token (c ∷ []) w))

split_loop-space :
    (token rest : Bytes)
    → is_empty token ≡ false
    → split_loop token (32 ∷ rest) ≡ token ∷ split_loop [] rest
unfolding split_loop
split_loop-space token rest e = rw e

pub split_loop-end : (token : Bytes) → is_empty token ≡ false → split_loop token [] ≡ token ∷ []
unfolding split_loop
split_loop-end token e = rw e

is_empty-append : (xs ys : Bytes) → is_empty xs ≡ false → is_empty (xs ++ ys) ≡ false
is_empty-append [] ys e = cc
is_empty-append (x ∷ xs) ys e = refl

-- A run that has begun is a word.
split_loop-begun :
    (token rest : Bytes)
    → is_empty token ≡ false
    → (x : Bytes) × (xs : List Bytes) × (split_loop token rest ≡ x ∷ xs)
unfolding split_loop
split_loop-begun token [] e = (token, [], rw e)
split_loop-begun token (c ∷ cs) e = elim (Bool-cases (is_space c)) [
  | inl s ↦ (token, split_loop [] cs, rw (s, e))
  | inr s ↦ rw s (split_loop-begun (token ++ c ∷ []) cs (is_empty-append token (c ∷ []) e))
]

split-word : (w rest : Bytes) → IsWord w → split_loop [] (w ++ 32 ∷ rest) ≡ w ∷ split_loop [] rest
split-word w rest v = split_loop-word [] w (32 ∷ rest) v.solid ∙ split_loop-space w rest v.some_byte

pub parse_line-words :
    (line w : Bytes) (ws : List Bytes) (r : Request)
    → split_loop [] line ≡ w ∷ ws
    → parse_line line r ≡ fill (command_of (to_upper w)) ws line r
unfolding parse_line split
parse_line-words line w ws r e = rw (parse_line, e)

-- The commands that take one key.
abbrev pub IsKeyed : CommandType → Type 0
IsKeyed c = (c ≡ CommandType.get) ⊎ (c ≡ CommandType.del) ⊎ (c ≡ CommandType.exists)

-- `WORD key`: the key is what stands behind the space.
pub parse_line-keyed :
    (w key : Bytes) (r : Request)
    → IsWord w
    → IsWord key
    → IsKeyed (command_of (to_upper w))
    → parse_line (w ++ 32 ∷ key) r ≡ record r { command = command_of (to_upper w); key = key }
parse_line-keyed w key r a b c =
    parse_line-words (w ++ 32 ∷ key) w (key ∷ []) r words ∙ fill-keyed (command_of (to_upper w)) c
  where
    words : split_loop [] (w ++ 32 ∷ key) ≡ w ∷ key ∷ []
    words =
        split-word w key a
        ∙ ap (λ t. w ∷ t)
            (ap (split_loop []) (sym (append-nil key))
              ∙ split_loop-word [] key [] b.solid
              ∙ split_loop-end key b.some_byte)

    fill-keyed :
        (c : CommandType)
        → IsKeyed c
        → fill c (key ∷ []) (w ++ 32 ∷ key) r ≡ record r { command = c; key = key }
    fill-keyed c (inl e) = unfold fill in rw e
    fill-keyed c (inr (inl e)) = unfold fill in rw e
    fill-keyed c (inr (inr e)) = unfold fill in rw e

drop-spaces : (v : Bytes) → is_empty v ≡ false → All (λ c. is_space c ≡ false) v → skip_spaces v ≡ v
unfolding skip_spaces
drop-spaces [] e a = refl
drop-spaces (c ∷ v) e a = rw a.0

-- A put whose value starts behind the key's first occurrence in the line.
fill-put :
    (line key x : Bytes) (xs : List Bytes) (r : Request)
    → fill CommandType.put (key ∷ x ∷ xs) line r
      ≡ record { command = CommandType.put; key = key; value = value_of key line }
unfolding fill
fill-put line key x xs r = refl

value_of-found :
    (key line : Bytes) (i : ℕ)
    → find key line ≡ some i
    → value_of key line ≡ skip_spaces (drop (i + length key) line)
unfolding value_of
value_of-found key line i e = rw (value_of, e)

-- `WORD key value`, with a value that starts with no space.
abbrev pub put_line : Bytes → Bytes → Bytes → Bytes
put_line w key v = w ++ 32 ∷ (key ++ 32 ∷ v)

parse_line-put_line :
    (w key v : Bytes) (c : ℕ) (r : Request)
    → IsWord w
    → IsWord key
    → is_space c ≡ false
    → command_of (to_upper w) ≡ CommandType.put
    → parse_line (put_line w key (c ∷ v)) r ≡ record {
      command = CommandType.put;
      key = key;
      value = value_of key (put_line w key (c ∷ v));
    }
unfolding split_loop
parse_line-put_line w key v c r a b n p =
    let (x, xs, e) = split_loop-begun (c ∷ []) v refl in
    let begun : split_loop [] (c ∷ v) ≡ x ∷ xs = rw n e in
    let line = put_line w key (c ∷ v) in
    parse_line-words line w (key ∷ x ∷ xs) r (
      split-word w (key ++ 32 ∷ c ∷ v) a
      ∙ ap (λ t. w ∷ t) (split-word key (c ∷ v) b ∙ ap (λ t. key ∷ t) begun))
    ∙ ap (λ k. fill k (key ∷ x ∷ xs) line r) p
    ∙ fill-put line key x xs r

is_prefix-append : (xs ys : Bytes) → is_prefix xs (xs ++ ys) ≡ true
unfolding is_prefix
is_prefix-append [] ys = refl
is_prefix-append (x ∷ xs) ys = ground (arith, is_prefix-append xs ys)

-- A text whose first byte does not occur before is found where it stands.
find-behind :
    (k : ℕ) (key before rest : Bytes)
    → Without k before
    → find (k ∷ key) (before ++ (k ∷ key ++ rest)) ≡ some (length before)
unfolding find is_prefix
find-behind k key [] rest w = rw (is_prefix-append (k ∷ key) rest)
find-behind k key (b ∷ before) rest w = ground (arith, find-behind k key before rest w.1)

abbrev put_request : Bytes → Bytes → Request
put_request key value = record { command = CommandType.put; key = key; value = value }

skip_spaces-word : (c : ℕ) (v : Bytes) → is_space c ≡ false → skip_spaces (c ∷ v) ≡ c ∷ v
unfolding skip_spaces
skip_spaces-word c v n = rw n

skip_spaces-space : (v : Bytes) → skip_spaces (32 ∷ v) ≡ skip_spaces v
unfolding skip_spaces
skip_spaces-space v = refl

-- The value behind a first part of the line that ends with the key's first occurrence.
value_of-cut :
    (key front tail line : Bytes) (i : ℕ)
    → find key line ≡ some i
    → i + length key ≡ length front
    → line ≡ front ++ tail
    → value_of key line ≡ skip_spaces tail
value_of-cut key front tail line i f e s =
    value_of-found key line i f
    ∙ ap skip_spaces (ap (λ n. drop n line) e ∙ ap (drop (length front)) s ∙ drop-append front tail)

-- PUT keeps the whole value, spaces included, where the key's first byte does not occur in the
-- command word.
pub parse_line-put :
    (w key v : Bytes) (k c : ℕ) (r : Request)
    → IsWord w
    → IsWord (k ∷ key)
    → Without k w
    → is_space c ≡ false
    → command_of (to_upper w) ≡ CommandType.put
    → parse_line (put_line w (k ∷ key) (c ∷ v)) r
      ≡ record { command = CommandType.put; key = k ∷ key; value = c ∷ v }
parse_line-put w key v k c r a b o n p =
    let line = put_line w (k ∷ key) (c ∷ v) in
    let before = w ++ 32 ∷ [] in
    let k32 : 32 ≢ k = (λ e. blank (subst (λ x. is_space x ≡ false) (sym e) b.solid.0)) in
    let split_key : line ≡ before ++ (k ∷ key ++ 32 ∷ c ∷ v) = simp append_assoc in
    let found : find (k ∷ key) line ≡ some (length before) =
      ap (find (k ∷ key)) split_key
      ∙ find-behind k key before (32 ∷ c ∷ v) (All-append (λ x. x ≢ k) w (32 ∷ []) o (k32, tt)) in
    let l = length-append before (k ∷ key) in
    let value : value_of (k ∷ key) line ≡ c ∷ v =
      value_of-cut (k ∷ key) (before ++ k ∷ key) (32 ∷ c ∷ v) line (length before) found
        (omega arith) (split_key ∙ sym (append_assoc before (k ∷ key) (32 ∷ c ∷ v)))
      ∙ skip_spaces-space (c ∷ v)
      ∙ skip_spaces-word c v n in
    parse_line-put_line w (k ∷ key) v c r a b n p ∙ ap (put_request (k ∷ key)) value
  where
    blank : is_space 32 ≡ false → ⊥
    blank h = cc

-- Where the key also occurs in the command word, PUT stores another value: the rest of the line
-- behind that earlier occurrence.
pub parse_line-key_in_command :
    (a key b v : Bytes) (k c d : ℕ) (r : Request)
    → IsWord (a ++ (k ∷ key ++ d ∷ b))
    → IsWord (k ∷ key)
    → Without k a
    → is_space c ≡ false
    → is_space d ≡ false
    → command_of (to_upper (a ++ (k ∷ key ++ d ∷ b))) ≡ CommandType.put
    → parse_line (put_line (a ++ (k ∷ key ++ d ∷ b)) (k ∷ key) (c ∷ v)) r ≡ record {
      command = CommandType.put;
      key = k ∷ key;
      value = d ∷ b ++ 32 ∷ (k ∷ key ++ 32 ∷ c ∷ v);
    }
parse_line-key_in_command a key b v k c d r w h o n m p =
    let word = a ++ (k ∷ key ++ d ∷ b) in
    let line = put_line word (k ∷ key) (c ∷ v) in
    let tail = d ∷ b ++ 32 ∷ (k ∷ key ++ 32 ∷ c ∷ v) in
    let split_key : line ≡ a ++ (k ∷ key ++ tail) = simp append_assoc in
    let found : find (k ∷ key) line ≡ some (length a) =
      ap (find (k ∷ key)) split_key ∙ find-behind k key a tail o in
    let l = length-append a (k ∷ key) in
    let value : value_of (k ∷ key) line ≡ tail =
      value_of-cut (k ∷ key) (a ++ k ∷ key) tail line (length a) found (omega arith)
        (split_key ∙ sym (append_assoc a (k ∷ key) tail))
      ∙ skip_spaces-word d (b ++ 32 ∷ (k ∷ key ++ 32 ∷ c ∷ v)) m in
    parse_line-put_line word (k ∷ key) v c r w h n p ∙ ap (put_request (k ∷ key)) value
