-- ===== src/Cpp/Batch.antt =====
-- cpp/libtstorageclient++/src/BatchSerializer.h and BatchSerializer.cpp: the batches of records that a put request
-- carries, written into the buffer as the records come. The serializer's pointer to the buffer is an
-- argument.
pub mod Wire
pub mod Ending
pub mod Adding
pub mod Records
pub mod Sequence
use tstorage_clients.Prelude.{
  Bool, Option, if◌then◌else◌, ltb, none, some, ℕ, ◌%◌, ◌&&◌, ◌+◌, ◌-◌, ◌==◌, ◌>>=◌, ◌^◌, ◌||◌,
}
use tstorage_clients.Memory.{add_size}
use tstorage_clients.Cpp.Buffer.{Buffer, valid, write_at}
use tstorage_clients.Cpp.Serializer.{
  abbrev_key_size, abbrev_key_size_without_acq, confirm_payload_buffer, put, put_abbrev_key,
  put_abbrev_key_without_acq, put_bytes,
}
use tstorage_clients.Key.{Key}
use mathlib.Core.Bool.{not}

-- `enum ProtoT`
pub data ProtoT : Type 0 where
  put_proto puta_proto : ProtoT

-- `class BatchSerializer`; `size_field` is the offset of the size field, and `none` is a pointer that
-- is not into the buffer's present block.
pub record BatchSerializer : Type 0 where
  pub size_field : Option ℕ
  pub current_cid : ℕ
  pub current_size : ℕ

-- `cBatchHeaderSize` and `cBatchSizeOffset`
abbrev pub batch_head_size : ℕ
batch_head_size = 8

abbrev pub batch_size_offset : ℕ
batch_size_offset = 4

-- The address behind the next write location, where the buffer has a block.
unfoldable pub write_data : Buffer → ℕ → Option ℕ
write_data b offset = if valid b then some (add_size b.write_offset offset) else none

-- `BatchSerializer(Buffer&)`
unfoldable pub new_batch : Buffer → BatchSerializer
unfolding write_data
new_batch b = record {
  size_field = write_data b batch_size_offset;
  current_cid = 2 ^ 32 - 1;
  current_size = 0;
}

-- `empty`
unfoldable pub is_empty : BatchSerializer → Bool
is_empty s = s.current_size == 0

-- `getNextRecordOffset`
unfoldable pub next_record_offset : BatchSerializer → ℕ → ℕ
next_record_offset s cid = if is_empty s || not (cid == s.current_cid) then batch_head_size else 0

-- The key that a record has in a batch, and its size.
abbrev pub proto_key_size : ProtoT → ℕ
proto_key_size put_proto = abbrev_key_size_without_acq
proto_key_size puta_proto = abbrev_key_size

module _ (is_be : Bool) where
  abbrev pub put_proto_key : ProtoT → Buffer → Key → Option Buffer
  put_proto_key put_proto b k = put_abbrev_key_without_acq is_be b k
  put_proto_key puta_proto b k = put_abbrev_key is_be b k

  -- `endBatch`
  unfoldable pub end_batch : BatchSerializer → Buffer → Option (BatchSerializer × Buffer)
  unfolding write_data
  end_batch s b = do
    field ← s.size_field
    b' ← write_at b field (put_bytes is_be 4 s.current_size)
    some (record s { current_size = 0; size_field = write_data b' batch_size_offset }, b')

  -- The head of a batch: its cid, and 0 for its size.
  abbrev pub begin_batch : BatchSerializer → Buffer → ℕ → Option (BatchSerializer × Buffer)
  begin_batch s b cid = do
    b₁ ← put is_be b 4 cid
    b₂ ← put is_be b₁ 4 0
    some (record s { current_cid = cid }, b₂)

  -- `putRecord`, of a record whose payload is in its place.
  unfoldable pub put_record :
      ProtoT → BatchSerializer → Buffer → Key → ℕ → Option (BatchSerializer × Buffer)
  put_record proto s b key payload_size = do
    (s₁, b₁) ←
        (if not (key.cid == s.current_cid) && ltb s.current_cid (2 ^ 31)
          then end_batch s b
          else some (s, b))
    (s₂, b₂) ← (if is_empty s₁ then begin_batch s₁ b₁ key.cid else some (s₁, b₁))
    let rec_size = (proto_key_size proto + payload_size) % 2 ^ 32
    b₃ ← put is_be b₂ 4 rec_size
    b₄ ← put_proto_key proto b₃ key
    let b₅ = confirm_payload_buffer b₄ payload_size
    some (record s₂ { current_size = (s₂.current_size + (4 + rec_size)) % 2 ^ 32 }, b₅)
