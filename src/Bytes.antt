-- ===== src/Bytes.antt =====
-- The integers of the protocol in memory: memcpy of an int32_t, int64_t or uint64_t on a
-- little-endian host. An integer is its bit pattern, a number below 2 ^ 32 or 2 ^ 64.
use tstorage_clients.Prelude.{
  List, Option, [], ap, arith, if◌then◌else◌, length, ltb, refl, suc, zero, ℕ, ◌%◌, ◌*◌, ◌++◌, ◌+◌,
  ◌-◌, ◌/◌, ◌<◌, ◌>>=◌, ◌^◌, ◌∷◌, ◌≡◌,
}
use tstorage_clients.Memory.{store}
use tstorage_clients.Memory.Store.{store-bind}
use native.Mathlib.Nat.{pow-suc}
use mathlib.Core.Path.{fun_ext}

unfoldable pub le_bytes : ℕ → ℕ → List ℕ
le_bytes zero v = []
le_bytes (suc width) v = (v % 256) ∷ le_bytes width (v / 256)

unfoldable pub le_value : List ℕ → ℕ
le_value [] = 0
le_value (b ∷ bs) = b + 256 * le_value bs

pub length-le_bytes : (width v : ℕ) → length (le_bytes width v) ≡ width
unfolding le_bytes
length-le_bytes zero v = refl
length-le_bytes (suc width) v = ap suc (length-le_bytes width (v / 256))

pub le_value-le_bytes : (width v : ℕ) → v < 256 ^ width → le_value (le_bytes width v) ≡ v
unfolding le_bytes le_value
le_value-le_bytes zero v h = omega arith
le_value-le_bytes (suc width) v h =
    let fits : v / 256 < 256 ^ width = omega (arith, pow-suc 256 width) in
    omega (arith, le_value-le_bytes width (v / 256) fits)

-- `(size_t)` of an int32_t: a negative one wraps to the top of the range.
unfoldable pub size_of_int32 : ℕ → ℕ
size_of_int32 v = if ltb v (2 ^ 31) then v else v + (2 ^ 64 - 2 ^ 32)

-- Serializers that fill one field after another.
pub store-step :
    (mem : List ℕ) (at n : ℕ) (bs cs : List ℕ) (k : List ℕ → Option (List ℕ))
    → length bs ≡ n
    → ((m : List ℕ) → k m ≡ store m (at + n) cs)
    → (store mem at bs >>= k) ≡ store mem at (bs ++ cs)
store-step mem at n bs cs k e rest = rw (fun_ext rest, ← e) (store-bind mem at bs cs)
