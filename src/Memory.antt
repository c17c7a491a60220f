-- ===== src/Memory.antt =====
-- Bytes in memory: what memcpy and memmove do to a block of storage, the size_t arithmetic of a
-- 64-bit platform, and the allocator, which the program takes from the C library.
pub mod Store
use tstorage_clients.Prelude.{
  List, Option, drop, if◌then◌else◌, leb, length, none, some, take, ℕ, ◌%◌, ◌*◌, ◌++◌, ◌+◌, ◌-◌,
  ◌>>=◌, ◌^◌, ◌≡◌, ◌≢◌, ◌≤◌,
}

abbrev pub size_mod : ℕ
size_mod = 2 ^ 64

abbrev pub size_max : ℕ
size_max = 2 ^ 64 - 1

-- `size_t` arithmetic.
abbrev pub add_size : ℕ → ℕ → ℕ
add_size a b = (a + b) % size_mod

abbrev pub sub_size : ℕ → ℕ → ℕ
sub_size a b = (a + size_mod - b) % size_mod

abbrev pub mul_size : ℕ → ℕ → ℕ
mul_size a b = a * b % size_mod

-- memcpy of `bs` to offset `at` of a block; `none` past the block's end.
unfoldable pub store : List ℕ → ℕ → List ℕ → Option (List ℕ)
store mem at bs =
    if leb (at + length bs) (length mem)
    then some (take at mem ++ (bs ++ drop (at + length bs) mem))
    else none

-- memcpy of `n` bytes from offset `at` of a block; `none` past the block's end.
unfoldable pub load : List ℕ → ℕ → ℕ → Option (List ℕ)
load mem at n = if leb (at + n) (length mem) then some (take n (drop at mem)) else none

-- realloc(3): the answer to the k-th call, for a block with the given bytes and a new size.
-- A new block has the size asked for, and keeps what the old block held.
pub record Allocator : Type 0 where
  pub realloc : ℕ → List ℕ → ℕ → Option (List ℕ)
  pub realloc_length :
      (k : ℕ) (old : List ℕ) (n : ℕ) (new : List ℕ) → realloc k old n ≡ some new → length new ≡ n
  pub realloc_keeps :
      (k : ℕ) (old : List ℕ) (n : ℕ) (new : List ℕ)
      → realloc k old n ≡ some new
      → length old ≤ n
      → take (length old) new ≡ old

-- memmove within a block: `n` bytes from offset `from` to the block's start.
unfoldable pub move_down : List ℕ → ℕ → ℕ → Option (List ℕ)
unfolding load store
move_down mem from n = do bytes ← load mem from n; store mem 0 bytes

-- The allocator never runs out of memory.
abbrev pub Generous : Allocator → Type 0
Generous mem = (k : ℕ) (old : List ℕ) (n : ℕ) → mem.realloc k old n ≢ none
