-- ===== src/Server/Stream/Chunks.antt =====
-- onMessage of server/kv_server.cpp does not depend on how the network cuts the bytes into reads.
use reactor_kv.Prelude.{
  ℕ, ◌+◌, ◌^◌, ◌<◌, ◌≡◌, refl, sym, ap, ◌∙◌, subst, Bool, true, false, Bool-cases, inl, inr, some,
  List, [], ◌∷◌, ◌++◌, arith, All, length, append_assoc,
}
use mathlib.Core.Path.{ap₂}
use reactor_kv.Bytes.{Bytes, Without}
use reactor_kv.Buffer.{Buffer, contents, append}
use reactor_kv.Buffer.Laws.{IsBuffer, append_refines}
use reactor_kv.Codec.Frame.{newline}
use reactor_kv.SkipList.{Draws}
use reactor_kv.KvStore.{KvStore}
use reactor_kv.KvStore.Crud.{Map, IsStore}
use reactor_kv.Server.{Action, send, shutdown, Served, on_message, is_quit}
use reactor_kv.Server.Stream.{
  add_byte, cut_lines, cut_lines-IsCut, stream, request_of, Outcome, serve_lines, serve,
  on_message_refines,
}

-- Whether the connection stays open.
unfoldable pub stays_open : List Action → Bool
stays_open [] = true
stays_open (send _ ∷ actions) = stays_open actions
stays_open (shutdown ∷ actions) = false

add_newline : (ls : List Bytes) (rest : Bytes) → add_byte newline ls rest ≡ ([] ∷ ls, rest)
unfolding add_byte
add_newline [] rest = refl
add_newline (l ∷ ls) rest = refl

pub cut_lines-line :
    (l bs : Bytes)
    → Without newline l
    → cut_lines (l ++ newline ∷ bs) ≡ (l ∷ (cut_lines bs).0, (cut_lines bs).1)
unfolding cut_lines add_byte
cut_lines-line [] bs w = add_newline (cut_lines bs).0 (cut_lines bs).1
cut_lines-line (c ∷ l) bs w = rw (cut_lines-line l bs w.1) (ground arith)

cut_lines-stream :
    (ls : List Bytes) (rest ys : Bytes)
    → All (Without newline) ls
    → cut_lines (stream ls rest ++ ys)
      ≡ (ls ++ (cut_lines (rest ++ ys)).0, (cut_lines (rest ++ ys)).1)
unfolding stream
cut_lines-stream [] rest ys a = refl
cut_lines-stream (l ∷ ls) rest ys a =
    ap cut_lines (append_assoc l (newline ∷ stream ls rest) ys)
    ∙ cut_lines-line l (stream ls rest ++ ys) a.0
    ∙ ap (λ t. (l ∷ t.0, t.1)) (cut_lines-stream ls rest ys a.1)

-- One outcome behind another.
abbrev followed_by : Outcome → Outcome → Outcome
followed_by o p = record { actions = o.actions ++ p.actions; left = p.left; map = p.map }

-- The outcome behind one action.
abbrev behind : Action → Outcome → Outcome
behind a o = record { actions = a ∷ o.actions; left = o.left; map = o.map }

serve_lines-append :
    (ls ls' : List Bytes) (rest rest' : Bytes) (m : Map)
    → stays_open (serve_lines ls rest m).actions ≡ true
    → serve_lines (ls ++ ls') rest' m
      ≡ followed_by (serve_lines ls rest m) (serve_lines ls' rest' (serve_lines ls rest m).map)
unfolding serve_lines stays_open
serve_lines-append [] ls' rest rest' m e = refl
serve_lines-append (l ∷ ls) ls' rest rest' m e =
    elim (Bool-cases (is_quit (request_of l).command)) [
      | inl f ↦ cc (rw f at e)
      | inr f ↦ rw f (ap (behind (send _)) (serve_lines-append ls ls' rest rest' _ (rw f at e)))
    ]

serve_lines-left :
    (ls : List Bytes) (rest : Bytes) (m : Map)
    → stays_open (serve_lines ls rest m).actions ≡ true
    → (serve_lines ls rest m).left ≡ rest
unfolding serve_lines stays_open
serve_lines-left [] rest m e = refl
serve_lines-left (l ∷ ls) rest m e = elim (Bool-cases (is_quit (request_of l).command)) [
  | inl f ↦ cc (rw f at e)
  | inr f ↦ rw f (serve_lines-left ls rest _ (rw f at e))
]

-- What has arrived later is served as if it had arrived at once.
serve-append :
    (xs ys : Bytes) (m : Map)
    → stays_open (serve xs m).actions ≡ true
    → serve (xs ++ ys) m
      ≡ followed_by (serve xs m) (serve ((serve xs m).left ++ ys) (serve xs m).map)
unfolding serve
serve-append xs ys m e =
    let k = cut_lines-IsCut xs in
    let (ls, rest) = cut_lines xs in
    let z = cut_lines-stream ls rest ys k.lines in
    let w : cut_lines (xs ++ ys) ≡ (ls ++ (cut_lines (rest ++ ys)).0, (cut_lines (rest ++ ys)).1) =
      ap (λ t. cut_lines (t ++ ys)) (sym k.whole) ∙ z in
    ap (λ c. serve_lines c.0 c.1 m) w
    ∙ serve_lines-append ls (cut_lines (rest ++ ys)).0 rest (cut_lines (rest ++ ys)).1 m e
    ∙ rw (serve_lines-left ls rest m e)

-- Where what has arrived holds no QUIT, so that the connection stays open, serving it, then the rest
-- behind what was left,
-- sends the same as serving all of it at once, leaves the same bytes in the buffer, and leaves
-- stores of one map.
pub on_message-chunks :
    (early late whole : ℕ → Draws) (bs : Bytes) {b : Buffer} {s : KvStore} {m : Map} {r : Served}
    → IsBuffer b
    → IsStore s m
    → on_message early b s ≡ some r
    → stays_open r.actions ≡ true
    → length b.store + length bs < 2 ^ 63
    → length r.buffer.store + length bs < 2 ^ 63
    → (p : Served) × (q : Served) × (n : Map) × (on_message late (append bs r.buffer) r.store
        ≡ some p)
      × (on_message whole (append bs b) s ≡ some q)
      × (q.actions ≡ r.actions ++ p.actions)
      × (contents q.buffer ≡ contents p.buffer)
      × IsStore p.store n
      × IsStore q.store n
on_message-chunks early late whole bs {b} {s} {m} {r} v i h e small small' =
    let (r', h', served) = on_message_refines early v i in
    let same : r' ≡ r = cc in
    let t = rw same at served in
    let o = serve (contents b) m in
    let open_o : stays_open o.actions ≡ true = ap stays_open (sym t.sent) ∙ e in
    let (pv, pc) = append_refines bs t.valid small' in
    let (qv, qc) = append_refines bs v small in
    let (p, ph, ps) = on_message_refines late pv t.stored in
    let (q, qh, qs) = on_message_refines whole qv i in
    let both : serve (contents (append bs b)) m
        ≡ followed_by o (serve (contents (append bs r.buffer)) o.map) =
      ap (λ c. serve c m) qc
      ∙ serve-append (contents b) bs m open_o
      ∙ ap (λ c. followed_by o (serve c o.map)) (ap (λ c. c ++ bs) (sym t.left) ∙ sym pc) in
    (
      p,
      q,
      (serve (contents (append bs r.buffer)) o.map).map,
      ph,
      qh,
      qs.sent ∙ ap (λ x. x.actions) both ∙ ap₂ (λ x y. x ++ y) (sym t.sent) (sym ps.sent),
      qs.left ∙ ap (λ x. x.left) both ∙ sym ps.left,
      ps.stored,
      subst (IsStore q.store) (ap (λ x. x.map) both) qs.stored,
    )
