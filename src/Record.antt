-- ===== src/Record.antt =====
-- c/src/Record.h and Record.c, with TSCLIENT_Record and TSCLIENT_PayloadType of
-- c/include/tstorage-client/client.h: a record is a key and a payload, whose bytes in memory only
-- the user's functions read.
pub mod Serialize
pub mod Format
use tstorage_clients.Prelude.{
  Bool, List, Option, [], assert, false, if◌then◌else◌, leb, ltb, none, some, true, ℕ, ◌*◌, ◌+◌,
  ◌-◌, ◌>>=◌, ◌>>◌, ◌∷◌,
}
use tstorage_clients.Memory.{add_size, load, store}
use tstorage_clients.ErrorCode.{ErrorCode, invalid, ok, unexpected}
use tstorage_clients.Bytes.{le_bytes, le_value}
use tstorage_clients.Key.{Key}
use tstorage_clients.Request.{header_size}

pub record Record : Type 0 where
  pub key : Key
  pub payload : List ℕ

-- `struct TSCLIENT_PayloadType`. `to_bytes` is given the payload and the space there is; it returns
-- what it wrote there, and how many bytes the payload needs. `from_bytes` returns the payload, or
-- `none` for a result other than 0.
pub record PayloadType : Type 0 where
  pub size : ℕ
  pub offset : ℕ
  pub to_bytes : List ℕ → ℕ → List ℕ × ℕ
  pub from_bytes : List ℕ → Option (List ℕ)

abbrev pub int32_max : ℕ
int32_max = 2147483647

-- `TSCLIENT_PAYLOAD_SIZE_MAX`
abbrev pub payload_size_max : ℕ
payload_size_max = int32_max - 4 * 2 - 8 * 3

-- What the user's function writes at offset `at`; it may be given no space at all.
unfoldable pub put_payload : List ℕ → ℕ → List ℕ → Option (List ℕ)
put_payload mem at [] = some mem
put_payload mem at (b ∷ bs) = store mem at (b ∷ bs)

-- The header of a record: its size, mid, moid, cap and, in the PUTASAFE format, acq.
unfoldable pub serialize_record_header : Record → ℕ → Bool → List ℕ → ℕ → Option (List ℕ)
serialize_record_header this rec_size with_acq mem buffer = do
  m₁ ← store mem buffer (le_bytes 4 (rec_size - 4))
  m₂ ← store m₁ (buffer + 4) (le_bytes 8 this.key.mid)
  m₃ ← store m₂ (buffer + 4 + 8) (le_bytes 4 this.key.moid)
  m₄ ← store m₃ (buffer + 4 + 8 + 4) (le_bytes 8 this.key.cap)
  if with_acq then store m₄ (buffer + 4 + 8 + 4 + 8) (le_bytes 8 this.key.acq) else some m₄

abbrev pub record_header_size : Bool → ℕ
record_header_size with_acq = 4 + 8 + 4 + 8 + (if with_acq then 8 else 0)

module _ (type : PayloadType) where
  -- `serializePayload`: the size of the record, and the memory.
  unfoldable pub serialize_payload : Record → List ℕ → ℕ → ℕ → ℕ → Option (ℕ × List ℕ)
  unfolding put_payload
  serialize_payload this mem buffer size header_size = do
    let payload_max_size = if ltb size header_size then 0 else size - header_size
    let (written, payload_size) = type.to_bytes this.payload payload_max_size
    mem' ← put_payload mem (buffer + header_size) written
    assert (leb payload_size payload_size_max)
    let rec_size = add_size header_size payload_size
    assert (leb header_size rec_size)
    assert (leb rec_size int32_max)
    some (rec_size, mem')

  -- `commonSerializePutSafe`: the size that the record needs, and the memory, which holds the
  -- record if the size given is enough.
  unfoldable pub common_serialize : Bool → Record → List ℕ → ℕ → ℕ → Option (ℕ × List ℕ)
  common_serialize with_acq this mem buffer size = do
    (rec_size, mem') ← serialize_payload this mem buffer size (record_header_size with_acq)
    mem'' ←
        (if leb rec_size size
          then serialize_record_header this rec_size with_acq mem' buffer
          else some mem')
    assert (leb rec_size int32_max)
    some (rec_size, mem'')

  -- `Record_serializePutSafe`
  unfoldable pub serialize_put_safe : Record → List ℕ → ℕ → ℕ → Option (ℕ × List ℕ)
  unfolding common_serialize
  serialize_put_safe = common_serialize false

  -- `Record_serializePutASafe`
  unfoldable pub serialize_puta_safe : Record → List ℕ → ℕ → ℕ → Option (ℕ × List ℕ)
  unfolding common_serialize
  serialize_puta_safe = common_serialize true

  -- `Record_deserialize`: `this` is the record's memory before the call.
  unfoldable pub deserialize : Record → List ℕ → ℕ → ℕ → Option (ErrorCode × Record)
  deserialize this mem buffer size =
      if ltb size (4 + 8 + 4 + 8 + 8) then some (unexpected, this) else (do
        cid ← load mem buffer 4
        mid ← load mem (buffer + 4) 8
        moid ← load mem (buffer + 4 + 8) 4
        cap ← load mem (buffer + 4 + 8 + 4) 8
        acq ← load mem (buffer + 4 + 8 + 4 + 8) 8
        let key : Key = record {
          cid = le_value cid;
          moid = le_value moid;
          mid = le_value mid;
          cap = le_value cap;
          acq = le_value acq;
        }
        bytes ← load mem (buffer + 4 + 8 + 4 + 8 + 8) (size - (4 + 8 + 4 + 8 + 8))
        some (elim (type.from_bytes bytes) [
          | none ↦ (invalid, record { key = key; payload = this.payload })
          | some payload ↦ (ok, record { key = key; payload = payload })
        ]))
