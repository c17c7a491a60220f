-- ===== src/RequestPut.antt =====
-- c/src/RequestPut.h and RequestPut.c, with RecordsSet_writePutSafe and RecordsSet_writePutASafe of
-- c/src/RecordsSet.c: the requests that store records.
pub mod Write
use tstorage_clients.Prelude.{Option, if◌then◌else◌, some, ℕ, ◌>>=◌}
use tstorage_clients.Memory.{Allocator}
use tstorage_clients.ErrorCode.{is_ok}
use tstorage_clients.BufferedOStream.{BufferedOStream, WriteFun}
use tstorage_clients.Put.{Progress, common_write, finished}
use tstorage_clients.Record.{serialize_put_safe, serialize_puta_safe}
use tstorage_clients.RecordsSet.{RecordsSet, set_elements}
use tstorage_clients.Request.{RequestHeader, header_write, msg_code, put_safe, puta_safe}

-- `struct RequestPut`
pub record RequestPut : Type 0 where
  pub base : RequestHeader
  pub records : RecordsSet

-- `RequestPut_initializePutSafe`
unfoldable pub initialize_put_safe : RecordsSet → RequestPut
unfolding msg_code
initialize_put_safe records = record {
  base = record { cmd = msg_code put_safe; size = 0 };
  records = records;
}

-- `RequestPut_initializePutASafe`
unfoldable pub initialize_puta_safe : RecordsSet → RequestPut
unfolding msg_code
initialize_puta_safe records = record {
  base = record { cmd = msg_code puta_safe; size = 0 };
  records = records;
}

-- `RecordsSet_write_fun`, for a number of rounds of its loop.
abbrev pub WriteSetFun : Type 0 → Type 0
WriteSetFun S = ℕ → RecordsSet → BufferedOStream S → Option (Progress S)

module _ {S : Type 0} (mem : Allocator) (write : WriteFun S) where
  -- `RecordsSet_writePutSafe`
  unfoldable pub write_put_safe : WriteSetFun S
  unfolding serialize_put_safe set_elements
  write_put_safe rounds s o =
      common_write mem (serialize_put_safe s.payload_type) write rounds o (set_elements s)

  -- `RecordsSet_writePutASafe`
  unfoldable pub write_puta_safe : WriteSetFun S
  unfolding serialize_puta_safe set_elements
  write_puta_safe rounds s o =
      common_write mem (serialize_puta_safe s.payload_type) write rounds o (set_elements s)

  -- `RequestPut_write`
  unfoldable pub put_write :
      RequestPut → WriteSetFun S → ℕ → BufferedOStream S → Option (Progress S)
  put_write r write_set rounds o = do
    (res, o') ← header_write mem write r.base o
    if is_ok res then write_set rounds r.records o' else some (finished res o')
