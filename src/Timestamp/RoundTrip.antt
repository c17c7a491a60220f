-- ===== src/Timestamp/RoundTrip.antt =====
-- Both conversions of c/src/timestamp.c, one behind the other.
use tstorage_clients.Prelude.{
  Bool-cases, ap, arith, false, inl, inr, ltb, ltb→le, ltb→lt, refl, some, suc, sym, true, zero, ℕ,
  ◌*◌, ◌+◌, ◌-◌, ◌/◌, ◌<◌, ◌>>=◌, ◌^◌, ◌∙◌, ◌≡◌, ◌≤◌,
}
use tstorage_clients.Timestamp.{
  add_nat, div_nat, epoch_diff, int64, minus, mul_nat, neg, negsuc, pos, sub_nat, ten_9,
  timestamp_from_unix, timestamp_to_unix, ℤ,
}
use mathlib.Core.Path.{subst}

neg_pos : (n : ℕ) → 0 < n → neg n ≡ negsuc (n - 1)
neg_pos zero h = absurd (omega arith)
neg_pos (suc n) h = ap negsuc (omega arith)

div_nat-mul_nat : (z : ℤ) → div_nat (mul_nat z ten_9) ten_9 ≡ z
div_nat-mul_nat (pos n) = ap pos (omega arith)
div_nat-mul_nat (negsuc n) =
    ap (λ z. div_nat z ten_9) (neg_pos (suc n * ten_9) (omega arith)) ∙ ap neg quotient
  where
    quotient : suc (suc n * ten_9 - 1) / ten_9 ≡ suc n
    quotient = omega arith

minus_lt : (a b : ℕ) → a < b → minus a b ≡ negsuc (b - a - 1)
minus_lt a b h =
    let tested : ltb a b ≡ true = ground (arith, h) in rw tested (neg_pos (b - a) (omega arith))

minus_le : (a b : ℕ) → b ≤ a → minus a b ≡ pos (a - b)
minus_le a b h = let tested : ltb a b ≡ false = ground (arith, h) in rw tested refl

add_nat-sub_nat : (z : ℤ) (k : ℕ) → add_nat (sub_nat z k) k ≡ z
add_nat-sub_nat (pos n) k = elim (Bool-cases (ltb n k)) [
  | inl below ↦
      let less = ltb→lt _ _ below in
      ap (λ z. add_nat z k) (minus_lt n k less)
      ∙ minus_le k (suc (k - n - 1)) (omega arith)
      ∙ ap pos (omega arith)
  | inr above ↦
      let least = ltb→le _ _ above in
      ap (λ z. add_nat z k) (minus_le n k least) ∙ ap pos (omega arith)
]
add_nat-sub_nat (negsuc n) k = minus_lt k (suc (n + k)) (omega arith) ∙ ap negsuc (omega arith)

-- The seconds whose nanoseconds are an int64_t.
abbrev max_seconds : ℕ
max_seconds = 9223372036

-- At most so many seconds from zero.
abbrev Near : ℤ → Type 0
Near (pos n) = n ≤ max_seconds
Near (negsuc n) = n < max_seconds

-- A Unix time of at most so many seconds before or after 2001.
abbrev pub NearEpoch : ℤ → Type 0
NearEpoch (pos n) = n ≤ epoch_diff + max_seconds
NearEpoch (negsuc n) = suc n + epoch_diff ≤ max_seconds

sub_nat-Near : (t : ℤ) → NearEpoch t → Near (sub_nat t epoch_diff)
sub_nat-Near (pos n) h = elim (Bool-cases (ltb n epoch_diff)) [
  | inl below ↦
      let less = ltb→lt _ _ below in subst Near (sym (minus_lt n epoch_diff less)) (omega arith)
  | inr above ↦
      let least = ltb→le _ _ above in subst Near (sym (minus_le n epoch_diff least)) (omega arith)
]
sub_nat-Near (negsuc n) h = omega arith

int64-Near : (z : ℤ) → Near z → int64 z ≡ some z
int64-Near (pos n) h = let fits : ltb n (2 ^ 63) ≡ true = ground (arith, h) in rw fits refl
int64-Near (negsuc n) h = let fits : ltb n (2 ^ 63) ≡ true = ground (arith, h) in rw fits refl

int64-mul_nat : (z : ℤ) → Near z → int64 (mul_nat z ten_9) ≡ some (mul_nat z ten_9)
int64-mul_nat (pos n) h =
    let fits : ltb (n * ten_9) (2 ^ 63) ≡ true = ground (arith, h) in rw fits refl
int64-mul_nat (negsuc n) h =
    let fits : ltb (suc n * ten_9 - 1) (2 ^ 63) ≡ true = ground (arith, h) in
    subst (λ (z : ℤ). int64 z ≡ some z) (sym (neg_pos (suc n * ten_9) (omega arith))) (rw fits refl)

int64-NearEpoch : (t : ℤ) → NearEpoch t → int64 t ≡ some t
int64-NearEpoch (pos n) h = let fits : ltb n (2 ^ 63) ≡ true = ground (arith, h) in rw fits refl
int64-NearEpoch (negsuc n) h = let fits : ltb n (2 ^ 63) ≡ true = ground (arith, h) in rw fits refl

-- For a Unix time of at most 9223372036 seconds before or after 2001, for times before either
-- epoch too, the conversion to a timestamp does not overflow, and the conversion back gives the
-- same time.
pub timestamp_to_unix-timestamp_from_unix :
    (t : ℤ) → NearEpoch t → (timestamp_from_unix t >>= timestamp_to_unix) ≡ some t
unfolding timestamp_to_unix timestamp_from_unix
timestamp_to_unix-timestamp_from_unix t h =
    let seconds = sub_nat t epoch_diff in
    let near = sub_nat-Near t h in
    let back : add_nat (div_nat (mul_nat seconds ten_9) ten_9) epoch_diff ≡ t =
      ap (λ z. add_nat z epoch_diff) (div_nat-mul_nat seconds) ∙ add_nat-sub_nat t epoch_diff in
    rw (int64-Near seconds near, int64-mul_nat seconds near) (ap int64 back ∙ int64-NearEpoch t h)
