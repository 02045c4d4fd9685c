-- ===== src/Timestamp.antt =====
-- base/timestamp.h and base/timestamp.cpp: points in time, in microseconds since 1970, and their text.
-- Times before 1970 are left out. What gmtime_r makes of a number of seconds is an argument.
use reactor_kv.Prelude.{
  ℕ, zero, suc, ◌+◌, ◌-◌, ◌*◌, ◌/◌, ◌%◌, ◌≡◌, ◌≢◌, refl, ◌∙◌, Bool, true, false, some, ◌∷◌, ◌++◌,
  length, replicate, length-append, length-replicate, All, All-mono, arith, ltb,
}
use reactor_kv.Bytes.{Bytes, bytes, Without, split_at, split_at-first}
use reactor_kv.Server.{to_string}
use reactor_kv.Client.{is_digit, read_digits}
use reactor_kv.Client.Numbers.{
  read_digits-to_string, to_string-AllDigits, length-to_string_lt, power,
}

abbrev pub micro_seconds_per_second : ℕ
micro_seconds_per_second = 1000000

-- microSecondsSinceEpoch_
abbrev pub Timestamp : Type 0
Timestamp = ℕ

-- What gettimeofday fills in.
pub record Timeval : Type 0 where
  pub sec : ℕ
  pub usec : ℕ

unfoldable pub now : Timeval → Timestamp
now tv = tv.sec * micro_seconds_per_second + tv.usec

unfoldable pub valid : Timestamp → Bool
valid t = ltb 0 t

unfoldable pub seconds_since_epoch : Timestamp → ℕ
seconds_since_epoch t = t / micro_seconds_per_second

unfoldable pub earlier : Timestamp → Timestamp → Bool
earlier s t = ltb s t

-- A number with `fill` in front of it up to that width, as snprintf writes it.
unfoldable pub padded : ℕ → ℕ → ℕ → Bytes
padded fill width n = let text = to_string n in replicate (width - length text) fill ++ text

-- toString
unfoldable pub text_of : Timestamp → Bytes
unfolding padded
text_of t =
    to_string (t / micro_seconds_per_second) ++ b'.' ∷ padded b'0' 6 (t % micro_seconds_per_second)

-- What gmtime_r fills in.
pub record Tm : Type 0 where
  pub year_since_1900 : ℕ
  pub month_from_0 : ℕ
  pub day : ℕ
  pub hour : ℕ
  pub minute : ℕ
  pub second : ℕ

-- toFormattedString
unfoldable pub to_formatted_string : (ℕ → Tm) → Bool → Timestamp → Bytes
unfolding padded
to_formatted_string gmtime show_microseconds t =
    let m = gmtime (t / micro_seconds_per_second) in
    let date =
      padded b' ' 4 (m.year_since_1900 + 1900)
      ++ bytes "-"
      ++ padded b'0' 2 (m.month_from_0 + 1)
      ++ bytes "-"
      ++ padded b'0' 2 m.day
      ++ bytes " "
      ++ padded b'0' 2 m.hour
      ++ bytes ":"
      ++ padded b'0' 2 m.minute
      ++ bytes ":"
      ++ padded b'0' 2 m.second in
    elim show_microseconds [
      | true ↦ date ++ bytes "." ++ padded b'0' 6 (t % micro_seconds_per_second)
      | false ↦ date
    ]

read_digits-zeros : (k : ℕ) (bs : Bytes) → read_digits 0 (replicate k b'0' ++ bs) ≡ read_digits 0 bs
unfolding read_digits
read_digits-zeros zero bs = refl
read_digits-zeros (suc k) bs = read_digits-zeros k bs

digits-Without : (bs : Bytes) → All (λ c. is_digit c ≡ true) bs → Without b'.' bs
digits-Without bs a = All-mono (λ c. is_digit c ≡ true) (λ c. c ≢ b'.') bs (λ c h. ground arith) a

-- toString writes the seconds, a point and six digits of microseconds, and the time is read back out
-- of them.
pub text_of_lem :
    (t : Timestamp)
    → (s : Bytes) × (f : Bytes) × (split_at b'.' (text_of t) ≡ some (s, f))
      × (length f ≡ 6)
      × (read_digits 0 s * micro_seconds_per_second + read_digits 0 f ≡ t)
unfolding text_of padded power
text_of_lem t =
    let s = t / micro_seconds_per_second in
    let u = t % micro_seconds_per_second in
    let l = length-to_string_lt 5 u (omega arith) in
    let n = length-append (replicate (6 - length (to_string u)) b'0') (to_string u) in
    let r = length-replicate {A = ℕ} (6 - length (to_string u)) b'0' in
    let a = read_digits-to_string s in
    let b = read_digits-zeros (6 - length (to_string u)) (to_string u) ∙ read_digits-to_string u in
    (
      to_string s,
      padded b'0' 6 u,
      split_at-first b'.' (to_string s) (padded b'0' 6 u)
          (digits-Without _ (to_string-AllDigits s)),
      omega arith,
      omega arith,
    )
