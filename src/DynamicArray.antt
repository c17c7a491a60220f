-- ===== src/DynamicArray.antt =====
-- c/src/DynamicArray.h and DynamicArray.c: an array of elements of one size in a DynamicBuffer.
pub mod Emplace
use tstorage_clients.Prelude.{
  Option, assert, if◌then◌else◌, leb, ltb, some, ℕ, ◌+◌, ◌-◌, ◌/◌, ◌==◌, ◌>>=◌, ◌>>◌,
}
use tstorage_clients.Memory.{Allocator, mul_size, size_max}
use tstorage_clients.ErrorCode.{ErrorCode, is_ok, limit, ok}
use tstorage_clients.DynamicBuffer.{DynamicBuffer}
use tstorage_clients.DynamicBuffer

-- `struct DynamicArray`
pub record DynamicArray : Type 0 where
  pub buffer : DynamicBuffer
  pub elem_size : ℕ
  pub size : ℕ

-- `capacity`
unfoldable pub capacity : DynamicArray → ℕ
capacity a = a.buffer.size / a.elem_size

module _ (mem : Allocator) where
  -- `DynamicArray_initialize`; `b` is the buffer's memory before the call.
  unfoldable pub initialize_array : DynamicBuffer → ℕ → ℕ → ℕ → Option (ErrorCode × DynamicArray)
  initialize_array b elem_size max_capacity size = do
    assert (ltb 0 elem_size)
    assert (leb max_capacity (size_max / elem_size))
    (res, buffer) ←
        DynamicBuffer.initialize mem b (mul_size max_capacity elem_size) (mul_size size elem_size)
    some (res, record { buffer = buffer; elem_size = elem_size; size = size })

  -- `reserve` of DynamicArray.c
  unfoldable pub reserve_capacity : DynamicArray → ℕ → Option (ErrorCode × DynamicArray)
  reserve_capacity a n = if ltb (size_max / a.elem_size) n then some (limit, a) else (do
    (res, buffer) ← DynamicBuffer.resize mem a.buffer (mul_size n a.elem_size)
    some (res, record a { buffer = buffer }))

  -- `DynamicArray_emplaceBack`: the result, the offset of the new element, the array.
  unfoldable pub emplace_back : DynamicArray → ℕ → Option (ErrorCode × ℕ × DynamicArray)
  unfolding capacity
  emplace_back a elem = if a.size == size_max then some (limit, elem, a) else (do
    (res, a') ← reserve_capacity a (a.size + 1)
    if is_ok res
        then (do
          assert (leb a'.size (capacity a'))
          some (ok, mul_size a'.size a'.elem_size, record a' { size = a'.size + 1 }))
        else some (res, elem, a'))

-- `DynamicArray_removeLast`
unfoldable pub remove_last : DynamicArray → Option DynamicArray
remove_last a = do assert (ltb 0 a.size); some (record a { size = a.size - 1 })

-- `DynamicArray_empty`
unfoldable pub empty_array : DynamicArray → DynamicArray
empty_array a = record a { size = 0 }

-- `DynamicArray_finalize`
unfoldable pub finalize_array : DynamicArray → DynamicArray
finalize_array a = record a { buffer = DynamicBuffer.finalize a.buffer }
