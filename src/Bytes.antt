-- ===== src/Bytes.antt =====
-- std::string as the list of its bytes, with the comparison that std::string uses: byte by byte, a
-- proper prefix first.
use Prim.Native.Char.{code}
use Prim.Native.String.{String}
use reactor_kv.Prelude.{
  ℕ, ◌≡◌, ◌↔◌, refl, Bool, true, false, List, [], ◌∷◌, ◌++◌, arith, if◌then◌else◌, ltb, ◌==◌, ◌&&◌,
  All, ◌≢◌, Option, none, some,
}
use reactor_kv.KeyOrder.{KeyOrder}

abbrev pub Bytes : Type 0
Bytes = List ℕ

-- The bytes of an ASCII literal.
abbrev pub bytes : String → Bytes
bytes String.[] = []
bytes (String.◌∷◌ c s) = code c ∷ bytes s

unfoldable pub less : Bytes → Bytes → Bool
less [] [] = false
less [] (b ∷ bs) = true
less (a ∷ xs) [] = false
less (a ∷ xs) (b ∷ bs) =
    let rest = less xs bs in if ltb a b then true else if ltb b a then false else rest

unfoldable pub equal : Bytes → Bytes → Bool
equal [] [] = true
equal [] (b ∷ bs) = false
equal (a ∷ xs) [] = false
equal (a ∷ xs) (b ∷ bs) = a == b && equal xs bs

abbrev pub is_empty : Bytes → Bool
is_empty [] = true
is_empty (b ∷ bs) = false

pub equal→eq : (a b : Bytes) → equal a b ≡ true → a ≡ b
unfolding equal
equal→eq [] [] h = refl
equal→eq [] (b ∷ bs) h = cc
equal→eq (a ∷ xs) [] h = cc
equal→eq (a ∷ xs) (b ∷ bs) h = ground (arith, equal→eq xs bs)

pub equal_refl : (a : Bytes) → equal a a ≡ true
unfolding equal
equal_refl [] = refl
equal_refl (a ∷ xs) = ground (arith, equal_refl xs)

pub equal_iff : (a b : Bytes) → (equal a b ≡ true) ↔ (a ≡ b)
equal_iff a b = (equal→eq a b, λ e. rw e (equal_refl b))

pub less_irrefl : (a : Bytes) → less a a ≡ false
unfolding less
less_irrefl [] = refl
less_irrefl (a ∷ xs) = ground (arith, less_irrefl xs)

pub less_trans : (a b c : Bytes) → less a b ≡ true → less b c ≡ true → less a c ≡ true
unfolding less
less_trans [] [] c h k = cc
less_trans [] (b ∷ bs) [] h k = cc
less_trans [] (b ∷ bs) (c ∷ cs) h k = refl
less_trans (a ∷ xs) [] c h k = cc
less_trans (a ∷ xs) (b ∷ bs) [] h k = cc
less_trans (a ∷ xs) (b ∷ bs) (c ∷ cs) h k = ground (arith, less_trans xs bs cs)

pub less_total : (a b : Bytes) → less a b ≡ false → equal a b ≡ false → less b a ≡ true
unfolding less equal
less_total [] [] h k = cc
less_total [] (b ∷ bs) h k = cc
less_total (a ∷ xs) [] h k = refl
less_total (a ∷ xs) (b ∷ bs) h k = ground (arith, less_total xs bs)

instance abbrev pub bytes_order : KeyOrder Bytes
bytes_order = record {
  less = less;
  equal = equal;
  equal_iff = equal_iff;
  less_irrefl = less_irrefl;
  less_trans = less_trans;
  less_total = less_total;
}

-- The text up to the first byte `c`, and what follows it.
unfoldable pub split_at : ℕ → Bytes → Option (Bytes × Bytes)
split_at c [] = none
split_at c (b ∷ bs) =
    let rest = split_at c bs in
    if b == c then some ([], bs) else elim rest [ none ↦ none | some (x, y) ↦ some (b ∷ x, y) ]

abbrev pub Without : ℕ → Bytes → Type 0
Without c bs = All (λ b. b ≢ c) bs

pub split_at-first :
    (c : ℕ) (xs ys : Bytes) → Without c xs → split_at c (xs ++ c ∷ ys) ≡ some (xs, ys)
unfolding split_at
split_at-first c [] ys w = ground arith
split_at-first c (x ∷ xs) ys w = ground (arith, split_at-first c xs ys w.1)
