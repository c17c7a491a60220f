-- ===== src/Record/Format.antt =====
-- The interface between the records (c/src/Record.c) and the batches that carry them
-- (c/src/RecordsSet.c): `Record_serialize_fun` of c/src/Record.h with what its comment promises, and
-- the two functions of that type that the library has.
use tstorage_clients.Prelude.{
  Bool, List, Option, Returns, Returns-mono, arith, length, sym, take, ℕ, ◌++◌, ◌+◌, ◌<◌, ◌∙◌, ◌≡◌,
  ◌≤◌,
}
use tstorage_clients.Record.{PayloadType, Record, common_serialize, int32_max}
use tstorage_clients.Record.Serialize.{
  Encodes, Serialized, common_serialize_lem, length-record_bytes, record_bytes, record_size,
  record_size-le,
}

-- What a serialization of `bytes` into `size` bytes at `base` does: it returns the size needed, and
-- writes the bytes if there is room.
pub record Holds (bytes mem : List ℕ) (base size : ℕ) (t : ℕ × List ℕ) : Type 0 where
  pub sized : t.0 ≡ length bytes
  pub same_length : length t.1 ≡ length mem
  pub below : take base t.1 ≡ take base mem
  pub written : t.0 ≤ size → take (base + t.0) t.1 ≡ take base mem ++ bytes

pub record Format : Type 0 where
  pub serialize : Record → List ℕ → ℕ → ℕ → Option (ℕ × List ℕ)
  pub bytes_of : Record → List ℕ
  pub small : (r : Record) → length (bytes_of r) ≤ int32_max
  pub positive : (r : Record) → 0 < length (bytes_of r)
  pub serialize_lem :
      (r : Record) (mem : List ℕ) (base size : ℕ)
      → base + size ≤ length mem
      → Returns (Holds (bytes_of r) mem base size) (serialize r mem base size)

module _ (type : PayloadType) (codec : Encodes type) where
  pub record_format_lem :
      (with_acq : Bool) (r : Record) (mem : List ℕ) (base size : ℕ)
      → base + size ≤ length mem
      → Returns
          (Holds (record_bytes type codec with_acq r) mem base size)
          (common_serialize type with_acq r mem base size)
  record_format_lem with_acq r mem base size room =
      Returns-mono (Serialized type codec with_acq r mem base size)
        (Holds (record_bytes type codec with_acq r) mem base size) _
        (common_serialize_lem type codec with_acq r mem base size room)
        λ t p. record {
          sized = p.sized ∙ sym (length-record_bytes type codec with_acq r);
          same_length = p.same_length;
          below = p.below;
          written = p.written;
        }

  pub record_size-pos : (with_acq : Bool) (r : Record) → 0 < record_size type codec with_acq r
  record_size-pos with_acq r = ground arith

  -- The records of a PUTASAFE request, or of a PUTSAFE one.
  abbrev pub record_format : Bool → Format
  record_format with_acq = record {
    serialize = common_serialize type with_acq;
    bytes_of = record_bytes type codec with_acq;
    small = λ r.
        omega
          (arith, length-record_bytes type codec with_acq r, record_size-le type codec with_acq r);
    positive =
        λ r. omega (arith, length-record_bytes type codec with_acq r, record_size-pos with_acq r);
    serialize_lem = record_format_lem with_acq;
  }
