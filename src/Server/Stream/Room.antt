-- ===== src/Server/Stream/Room.antt =====
-- onMessage of server/kv_server.cpp reads out of the buffer's vector and leaves it as it is.
use reactor_kv.Prelude.{
  ℕ, zero, suc, ◌+◌, ◌≡◌, refl, sym, ap, ◌∙◌, Bool-cases, inl, inr, Option-cases, some, ltb,
  bind_inv, some_injective,
}
use reactor_kv.Message.{Request, no_request}
use reactor_kv.Buffer.{Buffer, contents, find_crlf, readable_bytes}
use reactor_kv.Buffer.Laws.{retrieve-store}
use reactor_kv.Codec.{parse_request, line_end, find_lf}
use reactor_kv.SkipList.{Draws}
use reactor_kv.KvStore.{KvStore}
use reactor_kv.Server.{Served, on_message, message_loop, handle_request, is_quit}

pub parse_request-store :
    (r : Request) (b : Buffer) (q : Request × Buffer)
    → parse_request b r ≡ some q
    → q.1.store ≡ b.store
unfolding parse_request
parse_request-store r b q e = elim (Option-cases (line_end (find_crlf b) (find_lf (contents b)))) [
  | inl n ↦ cc (rw (parse_request, n) at e)
  | inr (i, n) ↦
      let h = some_injective _ _ (rw (parse_request, n) at e) in
      ap (λ t. t.1.store) (sym h) ∙ retrieve-store _ b
]

same_store :
    (b : Buffer) (x r : Served)
    → some x ≡ some r
    → x.buffer.store ≡ b.store
    → r.buffer.store ≡ b.store
same_store b x r e h = ap (λ y. y.buffer.store) (sym (some_injective x r e)) ∙ h

message_loop-store :
    (fuel : ℕ) (draws : ℕ → Draws) (b : Buffer) (s : KvStore) (r : Served)
    → message_loop fuel draws b s ≡ some r
    → r.buffer.store ≡ b.store
unfolding message_loop
message_loop-store zero draws b s r e = cc
message_loop-store (suc fuel) draws b s r e = elim (Bool-cases (ltb 0 (readable_bytes b))) [
  | inr t ↦ same_store b _ r (rw (message_loop, t) at e) refl
  | inl t ↦ elim (Option-cases (parse_request b no_request)) [
    | inl p ↦ same_store b _ r (rw (message_loop, t, p) at e) refl
    | inr ((q, b'), p) ↦
        let k = parse_request-store no_request b (q, b') p in
        let ((a, s'), h, g) =
          bind_inv (handle_request (draws 0) q s) _ r (rw (message_loop, t, p) at e) in
        elim (Bool-cases (is_quit q.command)) [
          | inl z ↦ same_store b _ r (rw z at g) k
          | inr z ↦
              let (rest, h', g') =
                bind_inv (message_loop fuel (λ i. draws (i + 1)) b' s') _ r (rw z at g) in
              same_store b _ r g' (message_loop-store fuel (λ i. draws (i + 1)) b' s' rest h' ∙ k)
        ]
  ]
]

pub on_message-store :
    (draws : ℕ → Draws) (b : Buffer) (s : KvStore) (r : Served)
    → on_message draws b s ≡ some r
    → r.buffer.store ≡ b.store
unfolding on_message
on_message-store draws b s r e = message_loop-store (readable_bytes b + 1) draws b s r e
