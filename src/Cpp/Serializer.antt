-- ===== src/Cpp/Serializer.antt =====
-- cpp/libtstorageclient++/src/Serializer.h, Serializer.cpp and Headers.h: the fields of the protocol in a buffer. An
-- assertion that fails ends the run.
pub mod Values
pub mod Fields
pub mod Decode
use tstorage_clients.Prelude.{
  Bool, List, Option, assert, if◌then◌else◌, leb, ltb, none, some, ℕ, ◌>>=◌, ◌>>◌,
}
use tstorage_clients.Bytes.{le_bytes, le_value}
use tstorage_clients.Cpp.Buffer.{
  Buffer, bytes_available, bytes_free, read_advance, read_at, write_advance, write_at,
}
use tstorage_clients.Key.{Key}
use mathlib.Core.List.{reverse}

-- `enum CommandType`, by its values.
abbrev pub command_get : ℕ
command_get = 1

abbrev pub command_put : ℕ
command_put = 5

abbrev pub command_puta : ℕ
command_puta = 6

abbrev pub command_get_acq : ℕ
command_get_acq = 7

-- `struct Header`
pub record Header : Type 0 where
  pub id : ℕ
  pub data_size : ℕ

-- `struct HeaderKeyRange`
pub record HeaderKeyRange : Type 0 where
  pub range_id : ℕ
  pub range_data_size : ℕ
  pub min_key : Key
  pub max_key : Key

-- `struct HeaderAcq`
pub record HeaderAcq : Type 0 where
  pub acq_id : ℕ
  pub acq_data_size : ℕ
  pub header_acq : ℕ

-- The constants of class Serializer.
abbrev pub full_key_size : ℕ
full_key_size = 32

abbrev pub abbrev_key_size : ℕ
abbrev_key_size = 28

abbrev pub abbrev_key_size_without_acq : ℕ
abbrev_key_size_without_acq = 20

abbrev pub message_header_size : ℕ
message_header_size = 12

-- An integer in the memory of the host, which is big-endian or not.
unfoldable pub host_bytes : Bool → ℕ → ℕ → List ℕ
host_bytes big width v = if big then reverse (le_bytes width v) else le_bytes width v

unfoldable pub host_value : Bool → List ℕ → ℕ
host_value big bs = if big then le_value (reverse bs) else le_value bs

-- `put(value, addr)`: the bytes that it writes; swapBytes reverses them.
unfoldable pub put_bytes : Bool → ℕ → ℕ → List ℕ
put_bytes is_be width v =
    if is_be then reverse (host_bytes is_be width v) else host_bytes is_be width v

-- `get(oValue, addr)`: the value read from the bytes.
unfoldable pub get_value : Bool → List ℕ → ℕ
get_value is_be bs = if is_be then host_value is_be (reverse bs) else host_value is_be bs

module _ (is_be : Bool) where
  -- `put(value)`, for a value of the given width.
  unfoldable pub put : Buffer → ℕ → ℕ → Option Buffer
  put b width v = do
    assert (leb width (bytes_free b))
    b' ← write_at b b.write_offset (put_bytes is_be width v)
    some (write_advance b' width)

  -- `get(oValue)`
  unfoldable pub get_field : Buffer → ℕ → Option (ℕ × Buffer)
  get_field b width = do
    assert (leb width (bytes_available b))
    bs ← read_at b b.read_offset width
    some (get_value is_be bs, read_advance b width)

  -- `peekInt32`
  unfoldable pub peek_int32 : Buffer → Option ℕ
  peek_int32 b = do bs ← read_at b b.read_offset 4; some (get_value is_be bs)

  -- `confirmInt32`
  unfoldable pub confirm_int32 : Buffer → Buffer
  confirm_int32 b = read_advance b 4

  -- `getKey`
  unfoldable pub get_key : Buffer → Option (Key × Buffer)
  get_key b = do
    (cid, b₁) ← get_field b 4
    (mid, b₂) ← get_field b₁ 8
    (moid, b₃) ← get_field b₂ 4
    (cap, b₄) ← get_field b₃ 8
    (acq, b₅) ← get_field b₄ 8
    some (record { cid = cid; mid = mid; moid = moid; cap = cap; acq = acq }, b₅)

  -- `getHeader`
  unfoldable pub get_header : Buffer → Option (Header × Buffer)
  get_header b = do
    (id, b₁) ← get_field b 4
    (size, b₂) ← get_field b₁ 8
    some (record { id = id; data_size = size }, b₂)

  -- `getHeaderAcq`
  unfoldable pub get_header_acq : Buffer → Option (HeaderAcq × Buffer)
  get_header_acq b = do
    (id, b₁) ← get_field b 4
    (size, b₂) ← get_field b₁ 8
    (acq, b₃) ← get_field b₂ 8
    some (record { acq_id = id; acq_data_size = size; header_acq = acq }, b₃)

  -- `putKey`
  unfoldable pub put_key : Buffer → Key → Option Buffer
  put_key b k = do
    b₁ ← put b 4 k.cid
    b₂ ← put b₁ 8 k.mid
    b₃ ← put b₂ 4 k.moid
    b₄ ← put b₃ 8 k.cap
    put b₄ 8 k.acq

  -- `putAbbrevKey`
  unfoldable pub put_abbrev_key : Buffer → Key → Option Buffer
  put_abbrev_key b k = do
    b₁ ← put b 8 k.mid
    b₂ ← put b₁ 4 k.moid
    b₃ ← put b₂ 8 k.cap
    put b₃ 8 k.acq

  -- `putAbbrevKeyWithoutAcq`
  unfoldable pub put_abbrev_key_without_acq : Buffer → Key → Option Buffer
  put_abbrev_key_without_acq b k = do b₁ ← put b 8 k.mid; b₂ ← put b₁ 4 k.moid; put b₂ 8 k.cap

  -- `putHeader`
  unfoldable pub put_header : Buffer → Header → Option Buffer
  put_header b h = do b₁ ← put b 4 h.id; put b₁ 8 h.data_size

  -- `putHeaderKeyRange`
  unfoldable pub put_header_key_range : Buffer → HeaderKeyRange → Option Buffer
  put_header_key_range b h = do
    b₁ ← put b 4 h.range_id
    b₂ ← put b₁ 8 h.range_data_size
    b₃ ← put b₂ 4 h.min_key.cid
    b₄ ← put b₃ 8 h.min_key.mid
    b₅ ← put b₄ 4 h.min_key.moid
    b₆ ← put b₅ 8 h.min_key.cap
    b₇ ← put b₆ 8 h.min_key.acq
    b₈ ← put b₇ 4 h.max_key.cid
    b₉ ← put b₈ 8 h.max_key.mid
    b₁₀ ← put b₉ 4 h.max_key.moid
    b₁₁ ← put b₁₀ 8 h.max_key.cap
    put b₁₁ 8 h.max_key.acq

-- `getDataBuffer`: the offset of the data; the null pointer is `none`.
unfoldable pub get_data_buffer : Buffer → ℕ → Option ℕ × Buffer
get_data_buffer b size =
    if ltb (bytes_available b) size then (none, b) else (some b.read_offset, read_advance b size)

-- `confirmPayloadBuffer`
unfoldable pub confirm_payload_buffer : Buffer → ℕ → Buffer
confirm_payload_buffer b size = write_advance b size
