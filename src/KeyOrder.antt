-- ===== src/KeyOrder.antt =====
-- The operators that storage/skiplist.h uses on its key type K: `<` and `==` (`!=` is its negation).
use reactor_kv.Prelude.{◌≡◌, ◌↔◌, Bool, true, false}

pub record KeyOrder (K : Type 0) : Type 0 where
  -- operator<
  pub less : K → K → Bool
  -- operator==
  pub equal : K → K → Bool
  pub equal_iff : (a b : K) → (equal a b ≡ true) ↔ (a ≡ b)
  pub less_irrefl : (a : K) → less a a ≡ false
  pub less_trans : (a b c : K) → less a b ≡ true → less b c ≡ true → less a c ≡ true
  pub less_total : (a b : K) → less a b ≡ false → equal a b ≡ false → less b a ≡ true
