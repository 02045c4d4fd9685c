-- ===== src/Buffer/Laws.antt =====
-- The operations of net/buffer.h and net/buffer.cpp on the bytes that a buffer holds.
use reactor_kv.Prelude.{
  ℕ, ◌+◌, ◌-◌, ◌^◌, ◌≤◌, ◌<◌, ◌≡◌, refl, [], ◌++◌, arith, ltb, length, length-append,
  length-replicate, drop, ap, ◌∙◌, sym, Bool-cases, inl, inr, ltb→lt, replicate, drop-all,
}
use reactor_kv.Bytes.{Bytes}
use reactor_kv.Words.{add_size, sub_size, add_size-add, sub_size-sub}
use reactor_kv.Buffer.{
  Buffer, new, contents, readable_bytes, writable_bytes, prependable_bytes, retrieve, make_space,
  ensure_writable_bytes, append, has_written, copy_in, cheap_prepend,
}
use reactor_kv.Buffer.Slice.{
  slice, write_at, length-write_at, length-slice, slice-empty, slice-write_at, slice-drop,
  slice-append,
}

-- The indices lie in order within the vector, which holds the space to prepend and is no larger than
-- a vector of bytes can be.
pub record IsBuffer (b : Buffer) : Type 0 where
  pub start : b.reader ≤ b.writer
  pub end : b.writer ≤ length b.store
  pub spare : cheap_prepend ≤ length b.store
  pub small : length b.store < 2 ^ 63

pub new-IsBuffer : (size : ℕ) → size < 2 ^ 62 → IsBuffer (new size) × (contents (new size) ≡ [])
unfolding new
new-IsBuffer size h =
    let l = length-replicate {A = ℕ} (cheap_prepend + size) 0 in
    (omega arith, slice-empty cheap_prepend (replicate (cheap_prepend + size) 0))

pub length-new : (size : ℕ) → length (new size).store ≡ cheap_prepend + size
unfolding new
length-new size = length-replicate {A = ℕ} (cheap_prepend + size) 0

pub readable_bytes-length : {b : Buffer} → IsBuffer b → readable_bytes b ≡ length (contents b)
unfolding readable_bytes
readable_bytes-length {b} v =
    sub_size-sub b.writer b.reader v.start (omega arith)
    ∙ sym (length-slice b.reader b.writer b.store v.start v.end)

writable_bytes-lem : {b : Buffer} → IsBuffer b → writable_bytes b ≡ length b.store - b.writer
unfolding writable_bytes
writable_bytes-lem {b} v = sub_size-sub (length b.store) b.writer v.end (omega arith)

-- retrieve drops the first bytes, all of them if there are no more.
pub retrieve_refines :
    (len : ℕ) {b : Buffer}
    → IsBuffer b
    → IsBuffer (retrieve len b) × (contents (retrieve len b) ≡ drop len (contents b))
unfolding retrieve
retrieve_refines len {b} v = elim (Bool-cases (ltb len (readable_bytes b))) [
  | inl h ↦
      let r =
        sub_size-sub b.writer b.reader v.start (let z = v.small in let y = v.end in omega arith) in
      let l : len < b.writer - b.reader = rw r at (ltb→lt len (readable_bytes b) h) in
      let e : add_size b.reader len ≡ b.reader + len =
        add_size-add b.reader len (let z = v.small in let y = v.end in omega arith) in
      rw (h, e)
        (
          record { start = omega arith; end = v.end; spare = v.spare; small = v.small },
          slice-drop len b.reader (b.reader + len) b.writer b.store refl (omega arith),
        )
  | inr h ↦
      let l : length (contents b) ≤ len = (let z = readable_bytes-length v in ground arith) in
      rw h (
        record { start = omega arith; end = v.spare; spare = v.spare; small = v.small },
        slice-empty cheap_prepend b.store ∙ sym (drop-all len (contents b) l),
      )
]

-- Enough space is made, and the bytes held stay what they are.
record Spacious (len : ℕ) (b b' : Buffer) : Type 0 where
  valid : IsBuffer b'
  same : contents b' ≡ contents b
  space : b'.writer + len ≤ length b'.store
  room : length b'.store ≤ length b.store + len

-- make_space grows the vector.
grown :
    (len : ℕ) {b : Buffer}
    → IsBuffer b
    → length b.store + len < 2 ^ 63
    → length b.store < b.writer + len
    → Spacious len b
        (record b { store = b.store ++ replicate (add_size b.writer len - length b.store) 0 })
grown len {b} v h n =
    let e : add_size b.writer len ≡ b.writer + len =
      add_size-add b.writer len (let z = v.end in omega arith) in
    let l = length-append b.store (replicate (b.writer + len - length b.store) 0) in
    let l' = length-replicate {A = ℕ} (b.writer + len - length b.store) 0 in
    rw e (record {
      valid = record {
        start = v.start;
        end = (let z = v.end in omega arith);
        spare = (let z = v.spare in omega arith);
        small = (let z = v.end in omega arith);
      };
      same = slice-append b.reader b.writer b.store _ v.start v.end;
      space = omega arith;
      room = (let z = v.end in omega arith);
    })

-- make_space moves the bytes to the front.
moved :
    (len : ℕ) {b : Buffer}
    → IsBuffer b
    → cheap_prepend + (b.writer - b.reader) + len ≤ length b.store
    → Spacious len b (record {
      store = write_at cheap_prepend (slice b.reader b.writer b.store) b.store;
      reader = cheap_prepend;
      writer = add_size cheap_prepend (sub_size b.writer b.reader);
    })
moved len {b} v h =
    let r =
      sub_size-sub b.writer b.reader v.start (let z = v.small in let y = v.end in omega arith) in
    let e : add_size cheap_prepend (b.writer - b.reader) ≡ cheap_prepend + (b.writer - b.reader) =
      add_size-add cheap_prepend (b.writer - b.reader) (let z = v.small in omega arith) in
    let held = slice b.reader b.writer b.store in
    let l = length-slice b.reader b.writer b.store v.start v.end in
    let l' = length-write_at cheap_prepend held b.store in
    rw (r, e)
      (record {
        valid = record {
          start = omega arith;
          end = omega arith;
          spare = (let z = v.spare in omega arith);
          small = (let z = v.small in omega arith);
        };
        same =
            slice-write_at cheap_prepend cheap_prepend (cheap_prepend + (b.writer - b.reader)) held
              b.store (omega arith) (omega arith) (omega arith)
            ∙ ap (λ t. t ++ held) (slice-empty cheap_prepend b.store);
        space = omega arith;
        room = omega arith;
      })

ensure_writable_lem :
    (len : ℕ) {b : Buffer}
    → IsBuffer b
    → length b.store + len < 2 ^ 63
    → Spacious len b (ensure_writable_bytes len b)
unfolding ensure_writable_bytes make_space prependable_bytes writable_bytes
ensure_writable_lem len {b} v h =
    let w : sub_size (length b.store) b.writer ≡ length b.store - b.writer =
      sub_size-sub (length b.store) b.writer v.end (let z = v.small in omega arith) in
    let s : add_size (length b.store - b.writer) b.reader ≡ length b.store - b.writer + b.reader =
      add_size-add (length b.store - b.writer) b.reader
        (let z = v.small in let y = v.start in let x = v.end in omega arith) in
    let p : add_size len cheap_prepend ≡ len + cheap_prepend =
      add_size-add len cheap_prepend (omega arith) in
    rw (w, s, p)
      (elim (Bool-cases (ltb (length b.store - b.writer) len)) [
        | inl t ↦
            elim (Bool-cases (ltb (length b.store - b.writer + b.reader) (len + cheap_prepend))) [
              | inl u ↦ rw (t, u) (grown len v h (let z = v.end in ground arith))
              | inr u ↦ rw (t, u) (moved len v (let z = v.end in let y = v.start in ground arith))
            ]
        | inr t ↦ rw t (record {
          valid = v;
          same = refl;
          space = (let z = v.end in ground arith);
          room = omega arith;
        })
      ])

-- append adds the bytes behind those held.
pub append_refines :
    (bs : Bytes) {b : Buffer}
    → IsBuffer b
    → length b.store + length bs < 2 ^ 63
    → IsBuffer (append bs b) × (contents (append bs b) ≡ contents b ++ bs)
unfolding append copy_in has_written
append_refines bs {b} v h =
    let s = ensure_writable_lem (length bs) v h in
    let b' = ensure_writable_bytes (length bs) b in
    let e : add_size b'.writer (length bs) ≡ b'.writer + length bs =
      add_size-add b'.writer (length bs)
        (let z = s.space in let y = s.valid.small in omega arith) in
    let l = length-write_at b'.writer bs b'.store in
    rw e (
      record {
        start = (let z = s.valid.start in omega arith);
        end = (let z = s.space in omega arith);
        spare = (let z = s.valid.spare in omega arith);
        small = (let z = s.valid.small in omega arith);
      },
      slice-write_at b'.reader b'.writer (b'.writer + length bs) bs b'.store s.valid.start refl
            s.space
          ∙ ap (λ t. t ++ bs) s.same,
    )

-- append makes no more room than the bytes take.
pub append-room :
    (bs : Bytes) {b : Buffer}
    → IsBuffer b
    → length b.store + length bs < 2 ^ 63
    → length (append bs b).store ≤ length b.store + length bs
unfolding append copy_in has_written
append-room bs {b} v h =
    let s = ensure_writable_lem (length bs) v h in
    let b' = ensure_writable_bytes (length bs) b in
    rw (length-write_at b'.writer bs b'.store) s.room

-- Reading bytes out leaves the vector as it is.
pub retrieve-store : (n : ℕ) (b : Buffer) → (retrieve n b).store ≡ b.store
unfolding retrieve
retrieve-store n b = elim (Bool-cases (ltb n (readable_bytes b))) [
  | inl e ↦ rw e refl
  | inr e ↦ rw e refl
]
