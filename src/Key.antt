-- ===== src/Key.antt =====
-- c/src/Key.h, Key.c, KeyRange.h and KeyRange.c: keys and ranges of keys, and how they are written.
pub mod Write
use tstorage_clients.Prelude.{List, Option, if◌then◌else◌, some, ℕ, ◌+◌, ◌<◌, ◌>>=◌, ◌^◌}
use tstorage_clients.Memory.{Allocator, store}
use tstorage_clients.ErrorCode.{ErrorCode, is_ok}
use tstorage_clients.BufferedOStream.{BufferedOStream, WriteFun, write_with}
use tstorage_clients.BufferedOStream.Flush.{output}
use tstorage_clients.Bytes.{le_bytes}

-- `struct TSCLIENT_Key` (c/include/tstorage-client/client.h).
pub record Key : Type 0 where
  pub cid : ℕ
  pub moid : ℕ
  pub mid : ℕ
  pub cap : ℕ
  pub acq : ℕ

-- The fields' bit patterns fit their types.
pub record IsKey (k : Key) : Type 0 where
  pub cid_fits : k.cid < 2 ^ 32
  pub moid_fits : k.moid < 2 ^ 32
  pub mid_fits : k.mid < 2 ^ 64
  pub cap_fits : k.cap < 2 ^ 64
  pub acq_fits : k.acq < 2 ^ 64

-- `struct KeyRange`
pub record KeyRange : Type 0 where
  pub lo : Key
  pub hi : Key

-- `Key_serializeSize`: the sizes of cid, mid, moid, cap and acq.
unfoldable pub key_size : Key → ℕ
key_size k = 4 + 8 + 4 + 8 + 8

-- `serialize` of Key.c
pub serialize_key : Key → List ℕ → ℕ → Option (List ℕ)
serialize_key k mem dest = do
  m₁ ← store mem dest (le_bytes 4 k.cid)
  m₂ ← store m₁ (dest + 4) (le_bytes 8 k.mid)
  m₃ ← store m₂ (dest + 4 + 8) (le_bytes 4 k.moid)
  m₄ ← store m₃ (dest + 4 + 8 + 4) (le_bytes 8 k.cap)
  store m₄ (dest + 4 + 8 + 4 + 8) (le_bytes 8 k.acq)

-- `KeyRange_serializeSize`
unfoldable pub range_size : KeyRange → ℕ
unfolding key_size
range_size r = key_size r.lo + key_size r.hi

module _ {S : Type 0} (mem : Allocator) (write : WriteFun S) where
  -- `Key_write`
  unfoldable pub key_write : Key → BufferedOStream S → Option (ErrorCode × BufferedOStream S)
  unfolding serialize_key key_size
  key_write k output = write_with mem write (serialize_key k) (key_size k) output

  -- `KeyRange_write`
  unfoldable pub range_write : KeyRange → BufferedOStream S → Option (ErrorCode × BufferedOStream S)
  range_write r output = do
    (res, output') ← key_write r.lo output
    if is_ok res then key_write r.hi output' else some (res, output')
