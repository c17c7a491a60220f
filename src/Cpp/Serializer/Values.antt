-- ===== src/Cpp/Serializer/Values.antt =====
-- Integers in the bytes of the protocol, on a host of either byte order
-- (cpp/libtstorageclient++/src/Serializer.cpp).
use tstorage_clients.Prelude.{Bool, List, ap, false, refl, true, ℕ, ◌<◌, ◌^◌, ◌∙◌, ◌≡◌}
use tstorage_clients.Bytes.{le_bytes, le_value, le_value-le_bytes}
use tstorage_clients.Cpp.Serializer.{get_value, host_bytes, host_value, put_bytes}
use mathlib.Core.List.{reverse-reverse}

put_bytes-le_bytes : (is_be : Bool) (width v : ℕ) → put_bytes is_be width v ≡ le_bytes width v
unfolding put_bytes host_bytes
put_bytes-le_bytes true width v = reverse-reverse (le_bytes width v)
put_bytes-le_bytes false width v = refl

pub get_value-le_value : (is_be : Bool) (bs : List ℕ) → get_value is_be bs ≡ le_value bs
unfolding get_value host_value
get_value-le_value true bs = ap le_value (reverse-reverse bs)
get_value-le_value false bs = refl

-- On a host of either byte order, Serializer::put writes the same bytes, the least significant
-- first, and Serializer::get reads the value back from them if it fits the width.
pub put_bytes_lem :
    (is_be : Bool) (width v : ℕ)
    → (put_bytes is_be width v ≡ le_bytes width v)
      × (v < 256 ^ width → get_value is_be (put_bytes is_be width v) ≡ v)
put_bytes_lem is_be width v = (
  put_bytes-le_bytes is_be width v,
  λ h.
      get_value-le_value is_be (put_bytes is_be width v)
      ∙ ap le_value (put_bytes-le_bytes is_be width v)
      ∙ le_value-le_bytes width v h,
)
