-- ===== src/Client/Numbers.antt =====
-- What std::to_string of server/kv_server.cpp writes, and what client/kvclient.cpp reads from it.
use reactor_kv.Prelude.{
  pos, ◌==◌, ℕ, zero, suc, ◌+◌, ◌-◌, ◌*◌, ◌/◌, ◌%◌, ◌^◌, ◌<◌, ◌≤◌, ◌≡◌, refl, sym, ap, ◌∙◌, Bool,
  ◌&&◌, if◌then◌else◌, true, false, Bool-cases, inl, inr, some, [], ◌∷◌, ◌++◌, arith, ltb, ltb→lt,
  lt→ltb, All, All-append, length, length-append,
}
use reactor_kv.Bytes.{Bytes, is_empty}
use reactor_kv.Server.{digits, to_string}
use reactor_kv.Client.{is_digit, ends_line, read_digits, stoi, stoi_signed, stoi_digits, trim_end}
use reactor_kv.Codec.{is_space, skip_spaces}

abbrev pub AllDigits : Bytes → Type 0
AllDigits bs = All (λ c. is_digit c ≡ true) bs

read_digits-append :
    (acc : ℕ) (xs : Bytes) (c : ℕ)
    → AllDigits xs
    → is_digit c ≡ true
    → read_digits acc (xs ++ c ∷ []) ≡ read_digits acc xs * 10 + (c - 48)
unfolding read_digits
read_digits-append acc [] c a e = rw e refl
read_digits-append acc (x ∷ xs) c a e = rw a.0 (read_digits-append (acc * 10 + (x - 48)) xs c a.1 e)

is_digit-digit : (n : ℕ) → n < 10 → is_digit (48 + n) ≡ true
is_digit-digit n h = ground arith

digits-AllDigits : (fuel n : ℕ) → AllDigits (digits fuel n)
unfolding digits
digits-AllDigits zero n = tt
digits-AllDigits (suc fuel) n = elim (Bool-cases (ltb n 10)) [
  | inl e ↦ rw (digits, e) (is_digit-digit n (ltb→lt n 10 e), tt)
  | inr e ↦
      rw (digits, e)
        (All-append (λ c. is_digit c ≡ true) (digits fuel (n / 10)) ((48 + n % 10) ∷ [])
          (digits-AllDigits fuel (n / 10)) (is_digit-digit (n % 10) (omega arith), tt))
]

read_digits-digits : (fuel n : ℕ) → n < fuel → read_digits 0 (digits fuel n) ≡ n
unfolding digits
read_digits-digits zero n h = elim h [ ]
read_digits-digits (suc fuel) n h = elim (Bool-cases (ltb n 10)) [
  | inl e ↦
      let d = is_digit-digit n (ltb→lt n 10 e) in
      unfold read_digits in rw (digits, e, d) (omega arith)
  | inr e ↦
      let k : 10 ≤ n = ground arith in
      let r = read_digits-digits fuel (n / 10) (omega arith) in
      rw (digits, e)
        (read_digits-append 0 (digits fuel (n / 10)) (48 + n % 10) (digits-AllDigits fuel (n / 10))
            (is_digit-digit (n % 10) (omega arith))
          ∙ (rw r (omega arith)))
]

-- to_string is read back.
pub read_digits-to_string : (n : ℕ) → read_digits 0 (to_string n) ≡ n
unfolding to_string
read_digits-to_string n = read_digits-digits (suc n) n (omega arith)

-- Different numbers are written differently.
pub to_string_injective : (m n : ℕ) → to_string m ≡ to_string n → m ≡ n
to_string_injective m n e =
    sym (read_digits-to_string m) ∙ ap (read_digits 0) e ∙ read_digits-to_string n

digit-plain :
    (c : ℕ)
    → is_digit c ≡ true
    → (is_space c ≡ false) × ((c == b'-') ≡ false) × ((c == b'+') ≡ false)
digit-plain c e = (ground arith, ground arith, ground arith)

stoi-digits :
    (ds : Bytes)
    → is_empty ds ≡ false
    → AllDigits ds
    → read_digits 0 ds < 2 ^ 31
    → stoi ds ≡ some (pos (read_digits 0 ds))
unfolding stoi stoi_signed stoi_digits skip_spaces
stoi-digits [] e a h = cc
stoi-digits (c ∷ cs) e a h =
    let (s, m, p) = digit-plain c a.0 in
    let l : ltb (read_digits (0 * 10 + (c - 48)) cs) (2 ^ 31) ≡ true = lt→ltb _ _ (rw a.0 at h) in
    rw (stoi, s, m, p, a.0, l) refl

to_string-some_byte : (n : ℕ) → is_empty (to_string n) ≡ false
unfolding to_string digits
to_string-some_byte n = elim (Bool-cases (ltb n 10)) [
  | inl e ↦ rw (digits, e)
  | inr e ↦ rw (digits, e) (behind (digits n (n / 10)) (48 + n % 10))
]
  where
    behind : (xs : Bytes) (c : ℕ) → is_empty (xs ++ c ∷ []) ≡ false
    behind [] c = refl
    behind (x ∷ xs) c = refl

-- A number that an int can hold is read back.
pub stoi-to_string : (n : ℕ) → n < 2 ^ 31 → stoi (to_string n) ≡ some (pos n)
stoi-to_string n h =
    let r = read_digits-to_string n in
    stoi-digits (to_string n) (to_string-some_byte n)
      (unfold to_string in digits-AllDigits (suc n) n) (rw r h)
    ∙ ap (λ t. some (pos t)) r

trim_end-digits : (ds : Bytes) → AllDigits ds → trim_end ds ≡ ds
unfolding trim_end
trim_end-digits [] a = refl
trim_end-digits (c ∷ cs) a =
    let h : ends_line c ≡ false = plain c a.0 in rw (trim_end-digits cs a.1, h) (keep (is_empty cs))
  where
    plain : (c : ℕ) → is_digit c ≡ true → ends_line c ≡ false
    plain c h = ground arith

    keep : (b : Bool) → (if b && false then [] else c ∷ cs) ≡ c ∷ cs
    keep true = refl
    keep false = refl

pub trim_end-to_string : (n : ℕ) → trim_end (to_string n) ≡ to_string n
unfolding to_string
trim_end-to_string n = trim_end-digits (digits (suc n) n) (digits-AllDigits (suc n) n)

-- 10 ^ (k + 1)
unfoldable pub power : ℕ → ℕ
power zero = 10
power (suc k) = 10 * power k

length-digits : (k fuel n : ℕ) → n < power k → length (digits fuel n) ≤ suc k
unfolding power digits
length-digits k zero n h = omega arith
length-digits zero (suc fuel) n h =
    let e : ltb n 10 ≡ true = lt→ltb n 10 h in rw (digits, e) (omega arith)
length-digits (suc k) (suc fuel) n h = elim (Bool-cases (ltb n 10)) [
  | inl e ↦ rw (digits, e) (omega arith)
  | inr e ↦
      let l = length-append (digits fuel (n / 10)) ((48 + n % 10) ∷ []) in
      let i = length-digits k fuel (n / 10) (omega arith) in rw (digits, e) (omega arith)
]

pub to_string-AllDigits : (n : ℕ) → AllDigits (to_string n)
unfolding to_string
to_string-AllDigits n = digits-AllDigits (suc n) n

-- A number below 10 ^ (k + 1) has k + 1 digits at most.
pub length-to_string_lt : (k n : ℕ) → n < power k → length (to_string n) ≤ suc k
unfolding to_string
length-to_string_lt k n h = length-digits k (suc n) n h

-- An int has ten digits at most.
pub length-to_string : (n : ℕ) → n < 2 ^ 31 → length (to_string n) ≤ 10
unfolding to_string power
length-to_string n h = length-digits 9 (suc n) n (omega arith)
