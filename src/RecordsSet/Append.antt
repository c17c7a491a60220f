-- ===== src/RecordsSet/Append.antt =====
-- What TSCLIENT_RecordsSet_append (c/src/RecordsSet.c) promises.
use tstorage_clients.Prelude.{List, [], length, take, ℕ, ◌++◌, ◌+◌, ◌∷◌, ◌≡◌, ◌≢◌, ◌⊎◌}
use tstorage_clients.Memory.{Allocator, Generous}
use tstorage_clients.ErrorCode.{ErrorCode, limit, ok, resource}
use tstorage_clients.DynamicArray.Emplace.{IsArray}
use tstorage_clients.Key.{Key}
use tstorage_clients.RecordsSet.{RecordsSet, set_elements, set_size_of}

-- A set whose array is valid and has the records' size, with as many elements as records.
pub record IsRecordsSet (s : RecordsSet) : Type 0 where
  pub is_array : IsArray s.array
  pub sized : s.array.elem_size ≡ s.payload_type.size
  pub counted : length s.elements ≡ s.array.size

module _ (mem : Allocator) (s : RecordsSet) (key : Key) (value : List ℕ) where
  -- What appending leaves.
  pub record Appended (r : ErrorCode × RecordsSet) : Type 0 where
    pub valid : IsRecordsSet r.1
    pub same_type : r.1.payload_type ≡ s.payload_type
    pub codes : (r.0 ≡ ok) ⊎ (r.0 ≡ limit) ⊎ (r.0 ≡ resource)
    pub appended :
        r.0 ≡ ok
        → (set_elements r.1 ≡ set_elements s ++ (record { key = key; payload = value } ∷ []))
          × (set_size_of r.1 ≡ set_size_of s + 1)
    pub unchanged :
        r.0 ≢ ok → (set_elements r.1 ≡ set_elements s) × (set_size_of r.1 ≡ set_size_of s)
    pub keeps : take s.array.buffer.size r.1.array.buffer.storage ≡ s.array.buffer.storage
    pub refused : r.0 ≡ resource → ¬ Generous mem
