-- ===== src/Cpp/Batch/Wire.antt =====
-- The bytes of the records and batches of a put request, on the wire
-- (cpp/libtstorageclient++/src/BatchSerializer.cpp, c/src/RecordsSet.c). A record is its key and the bytes of its payload.
use tstorage_clients.Prelude.{
  All, Bool, List, [], ap, append_assoc, arith, false, length, length-append, refl, sym, true, ℕ,
  ◌++◌, ◌+◌, ◌∙◌, ◌∷◌, ◌≡◌,
}
use tstorage_clients.Bytes.{le_bytes}
use tstorage_clients.Cpp.Batch.{ProtoT, proto_key_size, put_proto, puta_proto}
use tstorage_clients.Key.{Key}
use tstorage_clients.Record.{record_header_size}
use tstorage_clients.Record.Serialize.{length-record_header, record_header}

abbrev pub WireRecord : Type 0
WireRecord = Key × List ℕ

abbrev pub has_acq : ProtoT → Bool
has_acq put_proto = false
has_acq puta_proto = true

-- The size and the key of a record.
abbrev pub wire_head : ProtoT → Key → ℕ → List ℕ
wire_head proto key n =
    record_header (has_acq proto) (record { key = key; payload = [] })
      (record_header_size (has_acq proto) + n)

abbrev pub wire_record : ProtoT → WireRecord → List ℕ
wire_record proto r = wire_head proto r.0 (length r.1) ++ r.1

abbrev pub wire_records : ProtoT → List WireRecord → List ℕ
wire_records proto [] = []
wire_records proto (r ∷ rs) = wire_record proto r ++ wire_records proto rs

abbrev pub wire_batch : ProtoT → ℕ → List WireRecord → List ℕ
wire_batch proto cid rs =
    (le_bytes 4 cid ++ le_bytes 4 (length (wire_records proto rs))) ++ wire_records proto rs

-- All the records are of this cid.
abbrev pub OfCid : ℕ → List WireRecord → Type 0
OfCid cid = All (λ r. r.0.cid ≡ cid)

-- The records cut into batches, each of one cid and not empty, and the bytes of the batches.
pub data WireBatches (proto : ProtoT) : List WireRecord → List ℕ → Type 0 where
  no_batches : WireBatches proto [] []
  batches_and :
      (past : List WireRecord) (bytes : List ℕ) (cid : ℕ) (r : WireRecord) (rs : List WireRecord)
      → WireBatches proto past bytes
      → OfCid cid (r ∷ rs)
      → WireBatches proto (past ++ (r ∷ rs)) (bytes ++ wire_batch proto cid (r ∷ rs))

pub OfCid-append :
    (cid : ℕ) (rs ss : List WireRecord) → OfCid cid rs → OfCid cid ss → OfCid cid (rs ++ ss)
OfCid-append cid [] ss h k = k
OfCid-append cid (r ∷ rs) ss h k = (h.0, OfCid-append cid rs ss h.1 k)

pub length-wire_head :
    (proto : ProtoT) (key : Key) (n : ℕ) → length (wire_head proto key n) ≡ 4 + proto_key_size proto
length-wire_head put_proto key n =
    length-record_header false (record { key = key; payload = [] }) (24 + n)
length-wire_head puta_proto key n =
    length-record_header true (record { key = key; payload = [] }) (32 + n)

module _ (proto : ProtoT) where
  pub length-wire_record :
      (r : WireRecord) → length (wire_record proto r) ≡ 4 + proto_key_size proto + length r.1
  length-wire_record r = omega (
    arith,
    length-append (wire_head proto r.0 (length r.1)) r.1,
    length-wire_head proto r.0 (length r.1),
  )

  pub wire_records-append :
      (rs ss : List WireRecord)
      → wire_records proto (rs ++ ss) ≡ wire_records proto rs ++ wire_records proto ss
  wire_records-append [] ss = refl
  wire_records-append (r ∷ rs) ss =
      ap (λ t. wire_record proto r ++ t) (wire_records-append rs ss)
      ∙ sym (append_assoc (wire_record proto r) (wire_records proto rs) (wire_records proto ss))
