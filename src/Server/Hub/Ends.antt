-- ===== src/Server/Hub/Ends.antt =====
-- onMessage of server/kv_server.cpp comes to an end, whatever the other threads do to the store.
use reactor_kv.Prelude.{
  ℕ, ◌+◌, ◌<◌, ◌≤◌, ◌≡◌, refl, ap, ◌∙◌, Bool, true, false, not, ◌&&◌, Bool-cases, inl, inr,
  if◌then◌else◌, ◌==◌, some, List, [], ◌∷◌, length, arith,
}
use reactor_kv.SkipList.{Draws}
use reactor_kv.Server.Round.{turn-shorter}
use reactor_kv.Server.Hub.{
  Arrival, up, down, read, turn, Sent, Hub, put_at, Desk, arrive_all, map_arrive, map_arrive_all,
  IsHub, weights, arrive_all_refines,
}

-- No bytes come on connection i, and it is not a new one.
unfoldable pub spares : ℕ → Arrival → Bool
spares i (up j) = not (i == j)
spares i (down j) = true
spares i (read j bs) = not (i == j)
spares i (turn j) = true

unfoldable pub all_spare : ℕ → List Arrival → Bool
unfolding spares
all_spare i [] = true
all_spare i (a ∷ xs) = spares i a && all_spare i xs

-- The rounds of connection i.
unfoldable pub rounds : ℕ → Arrival → ℕ
rounds i (turn j) = if i == j then 1 else 0
rounds i _ = 0

unfoldable pub all_rounds : ℕ → List Arrival → ℕ
unfolding rounds
all_rounds i [] = 0
all_rounds i (a ∷ xs) = rounds i a + all_rounds i xs

-- Every round of a loop that goes on has taken bytes.
abbrev Spent : ℕ → ℕ → Desk → Desk → Type 0
Spent i n d e = e.busy i ≡ true → (d.busy i ≡ true) × (n + length (e.left i) ≤ length (d.left i))

same_lem : (i n : ℕ) (d : Desk) → n ≡ 0 → Spent i n d d
same_lem i n d z b = (b, omega arith)

turn-Spent : (i j : ℕ) (d : Desk) → Spent i (rounds i (turn j)) d (map_arrive (turn j) d).1
unfolding map_arrive rounds put_at
turn-Spent i j d = elim (Bool-cases (d.busy j)) [
  | inl f ↦ elim (Bool-cases (i == j)) [
    | inl e ↦
        let z : i ≡ j = ground arith in
        rw (f, e)
          (λ b.
            let h = turn-shorter (d.left j) d.map b in
            let l : length (d.left i) ≡ length (d.left j) = ap (λ k. length (d.left k)) z in
            (ap d.busy z ∙ f, omega arith))
    | inr e ↦ rw (f, e) (λ b. (b, omega arith))
  ]
  | inr f ↦ elim (Bool-cases (i == j)) [
    | inl e ↦
        let z : i ≡ j = ground arith in let g : d.busy i ≡ false = ap d.busy z ∙ f in rw f (λ b. cc)
    | inr e ↦ rw (f, e) (λ b. (b, omega arith))
  ]
]

arrive-Spent :
    (i : ℕ) (a : Arrival) (d : Desk) → spares i a ≡ true → Spent i (rounds i a) d (map_arrive a d).1
unfolding map_arrive rounds spares put_at
arrive-Spent i (down j) d s = same_lem i 0 d refl
arrive-Spent i (turn j) d s = turn-Spent i j d
arrive-Spent i (up j) d s = let e : (i == j) ≡ false = ground arith in rw e (same_lem i 0 d refl)
arrive-Spent i (read j bs) d s =
    let e : (i == j) ≡ false = ground arith in
    elim (Bool-cases (d.busy j)) [
      | inl f ↦ rw f (same_lem i 0 d refl)
      | inr f ↦ rw (f, e) (same_lem i 0 d refl)
    ]

arrive_all-Spent :
    (i : ℕ) (xs : List Arrival) (d : Desk)
    → all_spare i xs ≡ true
    → Spent i (all_rounds i xs) d (map_arrive_all xs d).1
unfolding map_arrive_all all_rounds all_spare
arrive_all-Spent i [] d s = same_lem i 0 d refl
arrive_all-Spent i (a ∷ xs) d s = λ b.
    let e = (map_arrive a d).1 in
    let (p, q) = both (spares i a) (all_spare i xs) s in
    let (c, h) = arrive_all-Spent i xs e q b in
    let (c', h') = arrive-Spent i a d p c in (c', omega arith)
  where
    both : (x y : Bool) → (x && y) ≡ true → (x ≡ true) × (y ≡ true)
    both true y h = (refl, h)
    both false y h = cc

-- While no bytes come on a connection, its onMessage ends after no more rounds than it has bytes, and
-- one more, whatever the other connections do to the store between them.
pub arrive_all-ends :
    (draws : ℕ → Draws) (i : ℕ) (xs : List Arrival) {h : Hub} {d : Desk}
    → IsHub (weights xs + 0) h d
    → all_spare i xs ≡ true
    → length (d.left i) < all_rounds i xs
    → (s : List Sent) × (h' : Hub) × (arrive_all draws xs h ≡ some (s, h')) × (h'.busy i ≡ false)
arrive_all-ends draws i xs {h} {d} v s l =
    let (h', e, w) = arrive_all_refines draws xs 0 v in
    let f = (map_arrive_all xs d).1 in
    (
      (map_arrive_all xs d).0,
      h',
      e,
      elim (Bool-cases (f.busy i)) [
        | inl b ↦ let (c, g) = arrive_all-Spent i xs d s b in absurd (omega arith)
        | inr b ↦ w.busy i ∙ b
      ],
    )
