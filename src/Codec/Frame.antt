-- ===== src/Codec/Frame.antt =====
-- How parseRequest of protocol/codec.h cuts a request line out of the buffer.
use reactor_kv.Prelude.{
  ℕ, suc, ◌+◌, ◌-◌, ◌<◌, ◌≡◌, ◌⊎◌, refl, Bool, true, false, none, some, [], ◌∷◌, ◌++◌, arith, ltb,
  ◌==◌, length, get_elem?, take, ap, ◌∙◌, sym, Bool-cases, inl, inr, Option-cases, take-append,
  drop-append_suc, get_elem?-append,
}
use reactor_kv.Bytes.{Bytes, Without}
use reactor_kv.Message.{Request}
use reactor_kv.Buffer.{Buffer, contents, find_crlf, search_crlf, retrieve}
use reactor_kv.Buffer.Laws.{IsBuffer, retrieve_refines}
use reactor_kv.Codec.{parse_line, parse_request, find_lf, line_end, strip_cr, bytes_to_skip}

abbrev pub newline : ℕ
newline = b'\n'

abbrev pub return : ℕ
return = b'\r'

-- Whether a line ends in '\r'.
abbrev pub ends_in_cr : Bytes → Bool
ends_in_cr [] = false
ends_in_cr (c ∷ []) = c == return
ends_in_cr (c ∷ d ∷ cs) = ends_in_cr (d ∷ cs)

find_lf-none : (bs : Bytes) → Without newline bs → find_lf bs ≡ none
unfolding find_lf
find_lf-none [] w = refl
find_lf-none (c ∷ cs) w = ground (arith, find_lf-none cs w.1)

search_crlf-none : (bs : Bytes) → Without newline bs → search_crlf bs ≡ none
unfolding search_crlf
search_crlf-none [] w = refl
search_crlf-none (c ∷ []) w = refl
search_crlf-none (c ∷ d ∷ cs) w = ground (arith, search_crlf-none (d ∷ cs) w.1)

find_lf-line :
    (l rest : Bytes) → Without newline l → find_lf (l ++ newline ∷ rest) ≡ some (length l)
unfolding find_lf
find_lf-line [] rest w = refl
find_lf-line (c ∷ l) rest w = ground (arith, find_lf-line l rest w.1)

-- Where a line that ends in '\r' stands before a newline, the first "\r\n" is there.
search_crlf-cr :
    (l rest : Bytes)
    → Without newline l
    → ends_in_cr l ≡ true
    → search_crlf (l ++ newline ∷ rest) ≡ some (length l - 1)
unfolding search_crlf
search_crlf-cr [] rest w e = cc
search_crlf-cr (c ∷ []) rest w e = ground arith
search_crlf-cr (c ∷ d ∷ l) rest w e = ground (arith, search_crlf-cr (d ∷ l) rest w.1 e)

-- Where it does not, the first "\r\n" comes behind the newline, if there is one.
search_crlf-later :
    (l rest : Bytes)
    → Without newline l
    → ends_in_cr l ≡ false
    → (search_crlf (l ++ newline ∷ rest) ≡ none)
      ⊎ ((i : ℕ) × (search_crlf (l ++ newline ∷ rest) ≡ some i) × (length l < i))
unfolding search_crlf
search_crlf-later [] [] w e = inl refl
search_crlf-later [] (d ∷ rest) w e = elim (Option-cases (search_crlf (d ∷ rest))) [
  | inl n ↦ inl (rw n)
  | inr (i, n) ↦ inr (suc i, rw n, omega arith)
]
search_crlf-later (c ∷ []) rest w e = elim (search_crlf-later [] rest tt refl) [
  | inl n ↦ inl (ground arith)
  | inr (i, n, g) ↦ inr (suc i, ground arith, omega arith)
]
search_crlf-later (c ∷ d ∷ l) rest w e = elim (search_crlf-later (d ∷ l) rest w.1 e) [
  | inl n ↦ inl (ground arith)
  | inr (i, n, g) ↦ inr (suc i, ground arith, omega arith)
]

-- The part of the line before its '\r'.
take-strip_cr :
    (l rest : Bytes) → ends_in_cr l ≡ true → take (length l - 1) (l ++ rest) ≡ strip_cr l
unfolding strip_cr
take-strip_cr [] rest e = refl
take-strip_cr (c ∷ []) rest e = rw e
take-strip_cr (c ∷ d ∷ l) rest e =
    ap (λ n. take n (c ∷ d ∷ l ++ rest))
      (let z : suc (suc (length l)) - 1 ≡ suc (suc (length l) - 1) = omega arith in z)
    ∙ ap (λ t. c ∷ t) (take-strip_cr (d ∷ l) rest e)

get_elem?-cr :
    (l rest : Bytes) → ends_in_cr l ≡ true → get_elem? (l ++ rest) (length l - 1) ≡ some return
get_elem?-cr [] rest e = cc
get_elem?-cr (c ∷ []) rest e = ap some (ground arith)
get_elem?-cr (c ∷ d ∷ l) rest e =
    ap (λ n. get_elem? (c ∷ d ∷ l ++ rest) n)
      (let z : suc (suc (length l)) - 1 ≡ suc (suc (length l) - 1) = omega arith in z)
    ∙ get_elem?-cr (d ∷ l) rest e

pub strip_cr-same : (l : Bytes) → ends_in_cr l ≡ false → strip_cr l ≡ l
unfolding strip_cr
strip_cr-same [] e = refl
strip_cr-same (c ∷ []) e = rw e
strip_cr-same (c ∷ d ∷ l) e = ap (λ t. c ∷ t) (strip_cr-same (d ∷ l) e)

length-cr : (l : Bytes) → ends_in_cr l ≡ true → 0 < length l
length-cr [] e = cc
length-cr (c ∷ l) e = omega arith

-- Where parseRequest ends the line, and how much it passes over.
record Cut (l rest : Bytes) : Type 0 where
  end : ℕ
  ends : line_end (search_crlf (l ++ newline ∷ rest)) (find_lf (l ++ newline ∷ rest)) ≡ some end
  line : strip_cr (take end (l ++ newline ∷ rest)) ≡ strip_cr (strip_cr l)
  skip : bytes_to_skip (l ++ newline ∷ rest) end ≡ length l + 1

cut : (l rest : Bytes) → Without newline l → Cut l rest
unfolding bytes_to_skip
cut l rest w = elim (Bool-cases (ends_in_cr l)) [
  | inl e ↦
      let p = length-cr l e in
      let b : ltb (length l - 1) (length l) ≡ true = ground arith in
      let n : length l - 1 + 1 ≡ length l = omega arith in
      record {
        end = length l - 1;
        ends = rw (search_crlf-cr l rest w e, find_lf-line l rest w, b);
        line = ap strip_cr (take-strip_cr l (newline ∷ rest) e);
        skip =
            rw (get_elem?-cr l (newline ∷ rest) e, n, get_elem?-append l newline rest)
              (omega arith);
      }
  | inr e ↦ record {
    end = length l;
    ends = elim (search_crlf-later l rest w e) [
      | inl n ↦ rw (n, find_lf-line l rest w)
      | inr (i, n, g) ↦
          let b : ltb i (length l) ≡ false = ground arith in rw (n, find_lf-line l rest w, b)
    ];
    line = ap strip_cr (take-append l (newline ∷ rest) ∙ sym (strip_cr-same l e));
    skip = rw (get_elem?-append l newline rest);
  }
]

-- Where a whole line has arrived, parseRequest parses it without its line end, and leaves exactly
-- what follows the newline.
pub parse_request-line :
    (l rest : Bytes) (r : Request) {b : Buffer}
    → IsBuffer b
    → contents b ≡ l ++ newline ∷ rest
    → Without newline l
    → (b' : Buffer) × (parse_request b r ≡ some (parse_line (strip_cr (strip_cr l)) r, b'))
      × IsBuffer b'
      × (contents b' ≡ rest)
unfolding parse_request find_crlf
parse_request-line l rest r {b} v h w =
    let c = cut l rest w in
    let (valid, held) = retrieve_refines (length l + 1) v in
    (
      retrieve (length l + 1) b,
      rw (parse_request, h, c.ends, h, c.line, c.skip),
      valid,
      held ∙ rw h (drop-append_suc l newline rest),
    )

-- Where no newline has arrived, parseRequest waits.
pub parse_request-none :
    (r : Request) (b : Buffer) → Without newline (contents b) → parse_request b r ≡ none
unfolding parse_request find_crlf
parse_request-none r b w =
    rw (parse_request, search_crlf-none (contents b) w, find_lf-none (contents b) w)
