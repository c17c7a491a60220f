-- ===== src/Timestamp.antt =====
-- c/src/timestamp.c: TStorage's timestamps, in nanoseconds since 2001, and Unix time, in seconds
-- since 1970. An int64_t that overflows, which is undefined in C, is `none`; time_t is an int64_t.
pub mod RoundTrip
use tstorage_clients.Prelude.{
  Option, if◌then◌else◌, ltb, none, some, suc, zero, ℕ, ◌*◌, ◌+◌, ◌-◌, ◌/◌, ◌>>=◌, ◌^◌,
}

-- Signed integers over the native numbers.
pub data ℤ : Type 0 where
  pos : ℕ → ℤ
  negsuc : ℕ → ℤ

-- The number `-n`.
abbrev pub neg : ℕ → ℤ
neg zero = pos zero
neg (suc n) = negsuc n

-- The difference of two natural numbers.
abbrev pub minus : ℕ → ℕ → ℤ
minus a b = if ltb a b then neg (b - a) else pos (a - b)

abbrev pub add_nat : ℤ → ℕ → ℤ
add_nat (pos n) k = pos (n + k)
add_nat (negsuc n) k = minus k (suc n)

abbrev pub sub_nat : ℤ → ℕ → ℤ
sub_nat (pos n) k = minus n k
sub_nat (negsuc n) k = negsuc (n + k)

-- C's `/` by a positive number: it truncates towards zero.
abbrev pub div_nat : ℤ → ℕ → ℤ
div_nat (pos n) k = pos (n / k)
div_nat (negsuc n) k = neg (suc n / k)

abbrev pub mul_nat : ℤ → ℕ → ℤ
mul_nat (pos n) k = pos (n * k)
mul_nat (negsuc n) k = neg (suc n * k)

-- An int64_t of that value.
abbrev pub int64 : ℤ → Option ℤ
int64 (pos n) = if ltb n (2 ^ 63) then some (pos n) else none
int64 (negsuc n) = if ltb n (2 ^ 63) then some (negsuc n) else none

-- `EPOCH_DIFF`
abbrev pub epoch_diff : ℕ
epoch_diff = 978307200

-- `TEN_9`
abbrev pub ten_9 : ℕ
ten_9 = 1000000000

-- `TSCLIENT_timestampToUnix`
unfoldable pub timestamp_to_unix : ℤ → Option ℤ
timestamp_to_unix ts = int64 (add_nat (div_nat ts ten_9) epoch_diff)

-- `TSCLIENT_timestampFromUnix`
unfoldable pub timestamp_from_unix : ℤ → Option ℤ
timestamp_from_unix ts = do seconds ← int64 (sub_nat ts epoch_diff); int64 (mul_nat seconds ten_9)

-- `TSCLIENT_timestampNow`; `now` is what time(2) gives.
unfoldable pub timestamp_now : ℤ → Option ℤ
unfolding timestamp_from_unix
timestamp_now now = timestamp_from_unix now
