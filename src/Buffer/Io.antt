-- ===== src/Buffer/Io.antt =====
-- readFd of net/buffer.cpp, and prepend and the 32-bit integers of net/buffer.h.
use reactor_kv.Prelude.{
  ℕ, ◌+◌, ◌-◌, ◌^◌, ◌≤◌, ◌<◌, ◌≡◌, refl, some, [], ◌++◌, arith, leb, leb→le, length, take, drop, ap,
  ◌∙◌, sym, Bool-cases, inl, inr, append_assoc, append-nil, take-all, take-append-drop, length-take,
  length-drop,
}
use reactor_kv.Bytes.{Bytes}
use reactor_kv.Words.{add_size, sub_size, add_size-add, sub_size-sub}
use reactor_kv.Buffer.{
  Buffer, contents, writable_bytes, prepend, copy_in, read_fd, be_bytes, be_value, append_int32,
  read_int32, peek_int32, prepend_int32,
}
use reactor_kv.Buffer.Slice.{
  write_at, length-write_at, length-slice, slice-write_at, slice-write_at_before, slice-take,
}
use reactor_kv.Buffer.Laws.{IsBuffer, append_refines, append-room, retrieve_refines}

-- A failed read leaves the buffer as it is; otherwise the bytes read are added behind those held,
-- also where they overflow the writable space.
pub read_fd_refines :
    (got : Bytes) {b : Buffer}
    → IsBuffer b
    → length b.store + length got < 2 ^ 63
    → IsBuffer (read_fd (some got) b) × (contents (read_fd (some got) b) ≡ contents b ++ got)
unfolding read_fd copy_in writable_bytes
read_fd_refines got {b} v h =
    let w : sub_size (length b.store) b.writer ≡ length b.store - b.writer =
      sub_size-sub (length b.store) b.writer v.end (let z = v.small in omega arith) in
    let n = length b.store - b.writer in
    let l = length-write_at b.writer (take n got) b.store in
    let t = length-take n got in
    rw w (elim (Bool-cases (leb (length got) n)) [
      | inl q ↦
          let fit = leb→le (length got) n q in
          let e : add_size b.writer (length got) ≡ b.writer + length got =
            add_size-add b.writer (length got) (let z = v.end in omega arith) in
          let all = take-all n got fit in
          rw (q, e)
            (
              record {
                start = (let z = v.start in omega arith);
                end = (let z = v.end in omega arith);
                spare = (let z = v.spare in omega arith);
                small = (let z = v.small in omega arith);
              },
              slice-write_at b.reader b.writer (b.writer + length got) (take n got) b.store v.start
                    (omega (arith, ap length all)) (let z = v.end in omega arith)
                  ∙ ap (λ x. contents b ++ x) all,
            )
      | inr q ↦
          let filled : Buffer = record b {
            store = write_at b.writer (take n got) b.store;
            writer = length b.store;
          } in
          let v' : IsBuffer filled = record {
            start = (let z = v.start in let y = v.end in omega arith);
            end = omega arith;
            spare = (let z = v.spare in omega arith);
            small = (let z = v.small in omega arith);
          } in
          let d = length-drop n got in
          let (valid, held) = append_refines (drop n got) v' (omega arith) in
          let full : n ≤ length got = ground arith in
          let held' : contents filled ≡ contents b ++ take n got =
            slice-write_at b.reader b.writer (length b.store) (take n got) b.store v.start
              (let z = v.end in omega arith) (omega arith) in
          rw q (
            valid,
            held
                ∙ ap (λ x. x ++ drop n got) held'
                ∙ append_assoc (contents b) (take n got) (drop n got)
                ∙ ap (λ x. contents b ++ x) (take-append-drop n got),
          )
    ])

-- readFd makes no more room than the bytes take.
pub read_fd-room :
    (got : Bytes) {b : Buffer}
    → IsBuffer b
    → length b.store + length got < 2 ^ 63
    → length (read_fd (some got) b).store ≤ length b.store + length got
unfolding read_fd copy_in writable_bytes
read_fd-room got {b} v h =
    let w : sub_size (length b.store) b.writer ≡ length b.store - b.writer =
      sub_size-sub (length b.store) b.writer v.end (let z = v.small in omega arith) in
    let n = length b.store - b.writer in
    let l = length-write_at b.writer (take n got) b.store in
    rw w (elim (Bool-cases (leb (length got) n)) [
      | inl q ↦ rw q (omega arith)
      | inr q ↦
          let v' : IsBuffer (record b {
            store = write_at b.writer (take n got) b.store;
            writer = length b.store;
          }) =
            record {
              start = (let z = v.start in let y = v.end in omega arith);
              end = omega arith;
              spare = (let z = v.spare in omega arith);
              small = (let z = v.small in omega arith);
            } in
          let d = length-drop n got in
          let m = append-room (drop n got) v' (omega arith) in rw q (omega arith)
    ])

-- prepend puts the bytes in front of those held, if the space before them is enough.
pub prepend_refines :
    (bs : Bytes) {b : Buffer}
    → IsBuffer b
    → length bs ≤ b.reader
    → IsBuffer (prepend bs b) × (contents (prepend bs b) ≡ bs ++ contents b)
unfolding prepend
prepend_refines bs {b} v h =
    let r : sub_size b.reader (length bs) ≡ b.reader - length bs =
      sub_size-sub b.reader (length bs) h
        (let z = v.start in let y = v.end in let x = v.small in omega arith) in
    let l = length-write_at (b.reader - length bs) bs b.store in
    rw r (
      record {
        start = (let z = v.start in omega arith);
        end = (let z = v.end in omega arith);
        spare = (let z = v.spare in omega arith);
        small = (let z = v.small in omega arith);
      },
      slice-write_at_before (b.reader - length bs) b.reader b.writer bs b.store (omega arith)
          v.start v.end,
    )

-- The bytes of a 32-bit pattern give it back.
be_value-be_bytes : (x : ℕ) (rest : Bytes) → x < 2 ^ 32 → be_value (take 4 (be_bytes x ++ rest)) ≡ x
unfolding be_value be_bytes
be_value-be_bytes x rest h = omega arith

-- readInt32 takes the integer at the front, and leaves what follows it.
pub read_int32_refines :
    (x : ℕ) (rest : Bytes) {b : Buffer}
    → IsBuffer b
    → x < 2 ^ 32
    → contents b ≡ be_bytes x ++ rest
    → ((read_int32 b).0 ≡ x) × IsBuffer (read_int32 b).1 × (contents (read_int32 b).1 ≡ rest)
unfolding read_int32 peek_int32
read_int32_refines x rest {b} v h e =
    let n : 4 ≤ length (contents b) = rw e (four x rest) in
    let l = length-slice b.reader b.writer b.store v.start v.end in
    let a : add_size b.reader 4 ≡ b.reader + 4 =
      add_size-add b.reader 4 (let z = v.end in let y = v.small in omega arith) in
    let (valid, held) = retrieve_refines 4 v in
    (
      rw a (
          ap be_value (slice-take 4 b.reader (b.reader + 4) b.writer b.store refl (omega arith))
          ∙ rw e (be_value-be_bytes x rest h)),
      valid,
      held ∙ rw e (drop-be_bytes x rest),
    )
  where
    four : (x : ℕ) (rest : Bytes) → 4 ≤ length (be_bytes x ++ rest)
    four x rest = unfold be_bytes in omega arith

    drop-be_bytes : (x : ℕ) (rest : Bytes) → drop 4 (be_bytes x ++ rest) ≡ rest
    drop-be_bytes x rest = unfold be_bytes in refl

-- An integer appended to an empty buffer is read back, and nothing is left.
pub read_int32-append_int32 :
    (x : ℕ) {b : Buffer}
    → IsBuffer b
    → contents b ≡ []
    → length b.store < 2 ^ 62
    → x < 2 ^ 32
    → ((read_int32 (append_int32 x b)).0 ≡ x) × (contents (read_int32 (append_int32 x b)).1 ≡ [])
unfolding append_int32 be_bytes
read_int32-append_int32 x {b} v e l h =
    let (valid, held) = append_refines (be_bytes x) v (omega arith) in
    let (r, i, c) = read_int32_refines x [] valid h (held ∙ rw e (sym (append-nil (be_bytes x)))) in
    (r, c)

-- An integer put in front of the bytes held is read back, and they are left.
pub read_int32-prepend_int32 :
    (x : ℕ) {b : Buffer}
    → IsBuffer b
    → 4 ≤ b.reader
    → x < 2 ^ 32
    → ((read_int32 (prepend_int32 x b)).0 ≡ x)
      × (contents (read_int32 (prepend_int32 x b)).1 ≡ contents b)
unfolding prepend_int32 be_bytes
read_int32-prepend_int32 x {b} v l h =
    let (valid, held) = prepend_refines (be_bytes x) v l in
    let (r, i, c) = read_int32_refines x (contents b) valid h held in (r, c)
