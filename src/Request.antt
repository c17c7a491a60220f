-- ===== src/Request.antt =====
-- c/src/MsgType.h, RequestHeader.h, RequestHeader.c, RequestGet.h and RequestGet.c: the requests
-- that ask for records, and how they are written.
pub mod Write
use tstorage_clients.Prelude.{List, Option, if◌then◌else◌, some, ℕ, ◌+◌, ◌>>=◌}
use tstorage_clients.Memory.{Allocator, store}
use tstorage_clients.ErrorCode.{ErrorCode, is_ok}
use tstorage_clients.BufferedOStream.{BufferedOStream, WriteFun, write_with}
use tstorage_clients.BufferedOStream.Flush.{output}
use tstorage_clients.Bytes.{le_bytes}
use tstorage_clients.Key.{Key, KeyRange, range_size, range_write}

-- `enum MsgType`
pub data MsgType : Type 0 where
  null get put_safe puta_safe get_acq : MsgType

-- The values of the enumeration.
unfoldable pub msg_code : MsgType → ℕ
msg_code null = 0
msg_code get = 1
msg_code put_safe = 5
msg_code puta_safe = 6
msg_code get_acq = 7

-- `struct RequestHeader`
pub record RequestHeader : Type 0 where
  pub cmd : ℕ
  pub size : ℕ

-- `serializeSize` of RequestHeader.c: the sizes of cmd and size.
unfoldable pub header_size : RequestHeader → ℕ
header_size h = 4 + 8

-- `serialize` of RequestHeader.c
pub serialize_header : RequestHeader → List ℕ → ℕ → Option (List ℕ)
serialize_header h mem dest = do
  m₁ ← store mem dest (le_bytes 4 h.cmd)
  store m₁ (dest + 4) (le_bytes 8 h.size)

-- `struct RequestGet`
pub record RequestGet : Type 0 where
  pub base : RequestHeader
  pub key_range : KeyRange

-- `serializeSize` of RequestGet.c
unfoldable pub get_size : KeyRange → ℕ
unfolding range_size
get_size r = range_size r

-- `RequestGet_initializeGet`. The size does not depend on the keys, which are set after it.
unfoldable pub initialize_get : Key → Key → RequestGet
unfolding get_size msg_code
initialize_get lo hi =
    let range : KeyRange = record { lo = lo; hi = hi } in
    record { base = record { cmd = msg_code get; size = get_size range }; key_range = range }

-- `RequestGet_initializeGetAcq`
unfoldable pub initialize_get_acq : Key → Key → RequestGet
unfolding get_size msg_code
initialize_get_acq lo hi =
    let range : KeyRange = record { lo = lo; hi = hi } in
    record { base = record { cmd = msg_code get_acq; size = get_size range }; key_range = range }

module _ {S : Type 0} (mem : Allocator) (write : WriteFun S) where
  -- `RequestHeader_write`
  unfoldable pub header_write :
      RequestHeader → BufferedOStream S → Option (ErrorCode × BufferedOStream S)
  unfolding serialize_header header_size
  header_write h output = write_with mem write (serialize_header h) (header_size h) output

  -- `RequestGet_write`
  unfoldable pub get_write : RequestGet → BufferedOStream S → Option (ErrorCode × BufferedOStream S)
  get_write r output = do
    (res, output') ← header_write r.base output
    if is_ok res then range_write mem write r.key_range output' else some (res, output')
