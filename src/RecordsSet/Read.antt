-- ===== src/RecordsSet/Read.antt =====
-- The rounds of RecordsSet_read (c/src/RecordsSet.c), each of which reads the size of a record and
-- the record.
use tstorage_clients.Prelude.{
  Bool, Bool-cases, List, Returns, Returns-bind, [], arith, false, if◌then◌else◌, inl, inr, length,
  ltb, ltb→le, some, suc, take, true, zero, ℕ, ◌*◌, ◌++◌, ◌+◌, ◌-◌, ◌<◌, ◌==◌, ◌>>=◌, ◌∙◌, ◌∷◌, ◌≡◌,
  ◌≤◌,
}
use tstorage_clients.Memory.{Allocator, load}
use tstorage_clients.ErrorCode.{ErrorCode, is_ok, is_ok→eq, ok}
use tstorage_clients.BufferedIStream.{BufferedIStream, reserve_input}
use tstorage_clients.BufferedIStream.Fill.{IsIn, Received, Source, unread}
use tstorage_clients.BufferedIStream.Obtain.{reserve_input_lem}
use tstorage_clients.Bytes.{le_value, size_of_int32}
use tstorage_clients.DynamicArray.{DynamicArray, remove_last}
use tstorage_clients.DynamicArray.Emplace.{Emplaced, IsArray, emplace_back_lem}
use tstorage_clients.Memory.Store.{load_fits}
use tstorage_clients.Record.{PayloadType, Record, deserialize}
use tstorage_clients.RecordsSet.{
  Reading, RecordsSet, read_round, read_set, reading, receive_record, received,
}
use native.Mathlib.Nat.{mul-le-mul_right}

load-within :
    (mem : List ℕ) (at n : ℕ) (bytes : List ℕ) → load mem at n ≡ some bytes → at + n ≤ length mem
unfolding load
load-within mem at n bytes e = ground arith

deserialize_lem :
    (type : PayloadType) (slot : Record) (block : List ℕ) (buffer size : ℕ)
    → buffer + size ≤ length block
    → Returns (λ _. Unit) (deserialize type slot block buffer size)
unfolding deserialize
deserialize_lem type slot block buffer size h = elim (Bool-cases (ltb size 32)) [
  | inl short ↦ rw short tt
  | inr long ↦
      let enough : 32 ≤ size = ltb→le _ _ long in
      rw
        (
          long,
          load_fits block buffer 4 (omega arith),
          load_fits block (buffer + 4) 8 (omega arith),
          load_fits block (buffer + 4 + 8) 4 (omega arith),
          load_fits block (buffer + 4 + 8 + 4) 8 (omega arith),
          load_fits block (buffer + 4 + 8 + 4 + 8) 8 (omega arith),
          load_fits block (buffer + 4 + 8 + 4 + 8 + 8) (size - 32) (omega arith),
        )
        tt
]

-- The set behind an operation is a valid array.
abbrev pub KeepsArray : ErrorCode × RecordsSet → Type 0
KeepsArray r = IsArray (r.1.array)

module _ (mem : Allocator) (slot : Record) where
  -- The set stays valid.
  received_in :
      (s : RecordsSet) (block : List ℕ) (buffer size : ℕ)
      → IsArray s.array
      → buffer + size ≤ length block
      → (t : ErrorCode × ℕ × DynamicArray) → Emplaced mem s.array t
      → t.0 ≡ ok
      → Returns KeepsArray (
          deserialize s.payload_type slot block buffer size >>= λ d.
          if is_ok d.0
          then some (ok, record s { array = t.2; elements = s.elements ++ (d.1 ∷ []) })
          else (remove_last t.2 >>= λ a. some (d.0, record s { array = a })))
  unfolding remove_last
  received_in s block buffer size v h t p e =
      Returns-bind (λ _. Unit) KeepsArray _ _
        (deserialize_lem (s.payload_type) slot block buffer size h)
        (λ d _. elim (Bool-cases (is_ok d.0)) [
          | inl good ↦ rw good p.valid
          | inr bad ↦
              let some_left : ltb 0 (t.2.size) ≡ true = ground (arith, p.longer e) in
              rw (bad, some_left) (shorter (t.2) p.valid)
        ])
    where
      shorter : (a : DynamicArray) → IsArray a → IsArray (record a { size = a.size - 1 })
      shorter a w = record {
        buffered = w.buffered;
        has_size = w.has_size;
        in_buffer =
            let fewer : (a.size - 1) * a.elem_size ≤ a.size * a.elem_size =
              mul-le-mul_right a.elem_size (omega arith) in
            omega (arith, w.in_buffer);
      }

  receive_record_lem :
      (s : RecordsSet) (block : List ℕ) (buffer size : ℕ)
      → IsArray s.array
      → buffer + size ≤ length block
      → Returns KeepsArray (receive_record mem slot s block buffer size)
  unfolding receive_record
  receive_record_lem s block buffer size v h =
      Returns-bind (Emplaced mem s.array) KeepsArray _ _ (emplace_back_lem mem s.array 0 v) (λ t p.
        elim (Bool-cases (is_ok t.0)) [
          | inl e ↦ rw e (received_in s block buffer size v h t p (is_ok→eq t.0 e))
          | inr e ↦ rw e p.valid
        ])

module _ {S : Type 0} (source : Source S) (mem : Allocator) (slot : Record) where
  open source use {read, Ready}

  -- The set and the stream, before a round and behind it.
  abbrev pub ReadState : RecordsSet → BufferedIStream S → Type 0
  ReadState s i = IsArray s.array × IsIn i × Ready i.stream

  abbrev RoundRead : BufferedIStream S → Bool × ErrorCode × RecordsSet × BufferedIStream S → Type 0
  RoundRead i r =
      ReadState r.2 r.3
      × (r.3.buffer.max_size ≡ i.buffer.max_size)
      × (r.0 ≡ true → i.reserve_pos + 4 ≤ r.3.reserve_pos)

  -- The record itself, behind its size.
  second_half :
      (i j : BufferedIStream S) (s : RecordsSet) (size : ℕ)
      → IsArray s.array
      → i.reserve_pos + 4 ≤ j.reserve_pos
      → j.buffer.max_size ≡ i.buffer.max_size
      → (t : ErrorCode × ℕ × BufferedIStream S) → Received source mem j size t
      → Returns (RoundRead i) (
          if is_ok t.0
          then (receive_record mem slot s t.2.buffer.storage t.1 size >>= λ r.
              some (is_ok r.0, r.0, r.1, t.2))
          else some (false, t.0, s, t.2))
  second_half i j s size v far most t p = elim (Bool-cases (is_ok t.0)) [
    | inl e ↦
        let good = is_ok→eq t.0 e in
        rw e (
          Returns-bind KeepsArray (RoundRead i) _ _
            (receive_record_lem mem slot s t.2.buffer.storage t.1 size v
              (load-within t.2.buffer.storage t.1 size _ (p.chunk good)))
            (λ r w. (
              (w, p.valid, p.ready),
              p.same_limit ∙ most,
              λ _. omega (arith, (p.place good).1, far),
            )))
    | inr e ↦ rw e ((v, p.valid, p.ready), p.same_limit ∙ most, λ h. ground arith)
  ]

  -- A round neither aborts nor goes on without taking four bytes.
  read_round_lem :
      (s : RecordsSet) (i : BufferedIStream S)
      → ReadState s i
      → Returns (RoundRead i) (read_round mem read slot s i)
  unfolding read_round
  read_round_lem s i (v, w, w') =
      Returns-bind (Received source mem i 4) (RoundRead i) _ _
        (reserve_input_lem source mem i 0 4 w w')
        (λ t p. elim (Bool-cases (is_ok t.0)) [
          | inl e ↦
              let good = is_ok→eq t.0 e in
              let far : i.reserve_pos + 4 ≤ t.2.reserve_pos = omega (arith, (p.place good).1) in
              rw (e, p.chunk good)
                (sized t p far (size_of_int32 (le_value (take 4 (unread source i)))))
          | inr e ↦ rw e ((v, p.valid, p.ready), p.same_limit, λ h. ground arith)
        ])
    where
      sized :
          (t : ErrorCode × ℕ × BufferedIStream S)
          → Received source mem i 4 t
          → i.reserve_pos + 4 ≤ t.2.reserve_pos
          → (size : ℕ)
          → Returns (RoundRead i) (
              if size == 0
              then some (false, ok, s, t.2)
              else (reserve_input mem read t.2 t.1 size >>= λ u.
                  if is_ok u.0
                  then (receive_record mem slot s u.2.buffer.storage u.1 size >>= λ r.
                      some (is_ok r.0, r.0, r.1, u.2))
                  else some (false, u.0, s, u.2)))
      sized t p far size = elim (Bool-cases (size == 0)) [
        | inl last ↦ rw last ((v, p.valid, p.ready), p.same_limit, λ h. ground arith)
        | inr another ↦ rw another (
            Returns-bind (Received source mem t.2 size) (RoundRead i) _ _
              (reserve_input_lem source mem t.2 t.1 size p.valid p.ready)
              (second_half i t.2 s size v far p.same_limit))
      ]

  -- The loop has ended, and set and stream are valid.
  abbrev pub HasEnded : Reading (RecordsSet × BufferedIStream S) → Type 0
  HasEnded (received res (s, i)) = ReadState s i
  HasEnded reading = ⊥

  -- On a valid set and a valid stream that is ready, RecordsSet_read ends, whatever bytes arrive:
  -- four times the number of rounds need only reach from the reserved bytes past the maximal size
  -- of the buffer. It does not abort, and leaves a valid set and a valid stream that is ready.
  pub read_set_lem :
      (rounds : ℕ) (s : RecordsSet) (i : BufferedIStream S)
      → ReadState s i
      → i.buffer.max_size < i.reserve_pos + 4 * rounds
      → Returns HasEnded (read_set mem read slot rounds s i)
  unfolding read_set
  read_set_lem zero s i (v, w, w') h =
      absurd (omega (arith, w.in_read, w.in_buffer, w.buffered.within))
  read_set_lem (suc rounds) s i v h =
      Returns-bind (RoundRead i) HasEnded _ _ (read_round_lem s i v) (λ r p. elim (Bool-cases r.0) [
        | inl more ↦ rw more (read_set_lem rounds r.2 r.3 p.0 (omega (arith, h, p.1, p.2 more)))
        | inr last ↦ rw last p.0
      ])
