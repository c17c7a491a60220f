-- ===== src/Put/Rounds.antt =====
-- The body of the loop of writeCidBatch (c/src/RecordsSet.c), on every branch.
use tstorage_clients.Prelude.{
  ==_iff, Bool, Bool-cases, List, Returns, ap, arith, assert, false, if◌then◌else◌, inl, inr,
  length, length-take, le→leb, ltb, ltb→le, ltb→lt, refl, returned, some, sym, take, take-take,
  true, ℕ, ◌++◌, ◌+◌, ◌-◌, ◌<◌, ◌==◌, ◌>>=◌, ◌>>◌, ◌∙◌, ◌≡◌, ◌≢◌, ◌≤◌, ◌⊎◌,
}
use tstorage_clients.Memory.{Allocator, Generous, sub_size}
use tstorage_clients.ErrorCode.{ErrorCode, is_ok, is_ok→eq, is_ok→ne, ok}
use tstorage_clients.BufferedOStream.{BufferedOStream, buffer_size, flush, size_reserved}
use tstorage_clients.BufferedOStream.Reserve.{Reserved, reserve_lem, reserve_unset}
use tstorage_clients.Put.{Batch, counted, enlarge, next, place, stop, with_storage}
use tstorage_clients.Put.Place.{Filled, RoundEnd, extended, refilled, scribbled}
use tstorage_clients.Record.{Record, int32_max}
use tstorage_clients.Record.Format.{Format, Holds}

module _ {S : Type 0} (mem : Allocator) (format : Format) where
  open format use {serialize, bytes_of, small, serialize_lem}

  -- A batch that differs in its flags, and in nothing that the invariant names.
  reflagged :
      (o : BufferedOStream S) (c : List ℕ) (b : Batch S) (large flush : Bool)
      → Filled mem format o c b
      → Filled mem format o c (record b { rec_too_large = large; need_flush = flush })
  reflagged o c b large flush f =
      refilled mem format o c b f (record b { rec_too_large = large; need_flush = flush }) f.valid
        refl refl refl f.start_at refl refl (omega arith) refl

  module _ (o : BufferedOStream S) (c : List ℕ) (b : Batch S) (f : Filled mem format o c b) where
    -- After a call of BufferedOStream_reserve.
    reserved :
        (size : ℕ) (r : ErrorCode × ℕ × BufferedOStream S) (buffer : ℕ)
        → Reserved mem b.output size r
        → buffer ≡ o.reserve_pos
        → Filled mem format o c (record b { output = r.2; buffer = buffer })
    reserved size r buffer p at_start =
        refilled mem format o c b f (record b { output = r.2; buffer = buffer }) p.valid p.same_pos
          p.same_stream p.same_limit at_start refl refl grows same
      where
        reach : ℕ
        reach = o.reserve_pos + (8 + length c)

        kept_length : length (take b.output.buffer.size r.2.buffer.storage) ≡ b.output.buffer.size
        kept_length = ap length p.keeps ∙ f.valid.buffered.sized

        grows : b.output.buffer.size ≤ r.2.buffer.size
        grows = omega (
          arith,
          kept_length,
          length-take b.output.buffer.size r.2.buffer.storage,
          p.valid.buffered.sized,
        )

        same : take reach r.2.buffer.storage ≡ take reach b.output.buffer.storage
        same =
            sym (take-take reach b.output.buffer.size r.2.buffer.storage f.room)
            ∙ ap (take reach) p.keeps

    -- The record is serialized behind the batch, where there is room for it.
    appended :
        (r : Record) (t : ℕ × List ℕ) (size : ℕ)
        → Holds (bytes_of r) b.output.buffer.storage (o.reserve_pos + (8 + length c)) size t
        → length (bytes_of r) ≤ size
        → o.reserve_pos + (8 + length c) + size ≤ b.output.buffer.size
        → length c + length (bytes_of r) ≤ int32_max
        → Filled mem format o
            (c ++ bytes_of r)
            (counted b (with_storage b.output t.1) b.buffer (length (bytes_of r)))
    appended r t size p fits room few =
        extended mem format o c b f r t.1 p.same_length (omega arith) few written
      where
        reach : ℕ
        reach = o.reserve_pos + (8 + length c)

        written :
            take (reach + length (bytes_of r)) t.1
            ≡ take reach b.output.buffer.storage ++ bytes_of r
        written = ap (λ (k : ℕ). take (reach + k) t.1) (sym p.sized) ∙ p.written (rw p.sized fits)

  -- The call of the serializer after the buffer was enlarged.
  second_try :
      (o : BufferedOStream S) (c : List ℕ) (b : Batch S) (r : Record)
      → Filled mem format o c b
      → b.rec_too_large ≡ false
      → length c + length (bytes_of r) ≤ int32_max
      → o.reserve_pos + (8 + length c) + length (bytes_of r) ≤ b.output.buffer.size
      → Returns (RoundEnd mem format o c r) (
          serialize r b.output.buffer.storage (b.buffer + b.write_pos) (length (bytes_of r))
          >>= λ u.
              assert (u.0 == length (bytes_of r))
              >> some (next (counted b (with_storage b.output u.1) b.buffer (length (bytes_of r)))))
  second_try o c b r f clear few room =
      let n = length (bytes_of r) in
      let reach = o.reserve_pos + (8 + length c) in
      let place_eq : b.buffer + b.write_pos ≡ reach = omega (arith, f.start_at, f.end_at) in
      let (u, e, p) =
        returned (Holds (bytes_of r) b.output.buffer.storage reach n) _ (
          serialize_lem r b.output.buffer.storage reach n
            (omega (arith, f.valid.buffered.sized))) in
      rw (place_eq, e, (==_iff u.0 n).1 p.sized)
        (appended o c b f r u n p (omega arith) room few, clear)

  -- Why a reservation behind the batch fails.
  why :
      (o : BufferedOStream S) (c : List ℕ) (b : Batch S)
      → Filled mem format o c b
      → (r : Record) (t : ErrorCode × ℕ × BufferedOStream S)
      → Reserved mem b.output (b.write_pos + length (bytes_of r)) t
      → t.0 ≢ ok
      → 8 + length (bytes_of r) ≤ o.buffer.max_size
      → (8 + length (bytes_of r) ≤ o.buffer.max_size)
          × (o.buffer.max_size < o.reserve_pos + (8 + length c + length (bytes_of r)))
        ⊎ ¬ Generous mem
  why o c b f r t p h most = elim p.codes [
    | inl fine ↦ absurd (h fine)
    | inr (inl full) ↦
        inl (most, omega (arith, p.limit_only full, f.same_pos, f.same_limit, f.end_at))
    | inr (inr refused) ↦ inr (p.refused refused)
  ]

  enlarge_lem :
      (o : BufferedOStream S) (c : List ℕ) (b : Batch S) (r : Record)
      → Filled mem format o c b
      → b.rec_too_large ≡ false
      → length c + length (bytes_of r) ≤ int32_max
      → Returns (RoundEnd mem format o c r) (enlarge mem serialize b r (length (bytes_of r)))
  unfolding enlarge buffer_size
  enlarge_lem o c b r f clear few =
      elim (Bool-cases (ltb (sub_size b.output.buffer.max_size 8) n)) [
        | inl large ↦ rw large (
          reflagged o c b true b.need_flush f,
          inl (
            refl,
            omega (
              arith,
              ltb→lt _ _ large,
              f.same_limit,
              f.room,
              f.valid.buffered.within,
              f.valid.buffered.bounded,
            ),
          ),
        )
        | inr possible ↦
            let (t, e, p) =
              returned (Reserved mem b.output (b.write_pos + n)) _
                (reserve_lem mem b.output b.buffer (b.write_pos + n) f.valid) in
            let fits_alone : 8 + n ≤ o.buffer.max_size = omega (
              arith,
              ltb→le _ _ possible,
              f.same_limit,
              f.room,
              f.valid.buffered.within,
              f.valid.buffered.bounded,
            ) in
            rw (possible, e)
              (elim (Bool-cases (is_ok t.0)) [
                | inl fine ↦ rw fine (
                    second_try o c (record b { output = t.2; buffer = t.1 }) r
                      (reserved o c b f (b.write_pos + n) t t.1 p
                        (p.place (is_ok→eq t.0 fine) ∙ f.same_pos))
                      clear few (omega (arith, p.room (is_ok→eq t.0 fine), f.same_pos, f.end_at)))
                | inr failed ↦ rw failed (
                  reflagged o c (record b { output = t.2; buffer = t.1 }) b.rec_too_large true
                      (reserved o c b f (b.write_pos + n) t t.1 p (
                        reserve_unset mem b.output b.buffer (b.write_pos + n) t e
                          (is_ok→ne t.0 failed)
                        ∙ f.start_at)),
                  inr (clear, inr (why o c b f r t p (is_ok→ne t.0 failed) fits_alone)),
                )
              ])
      ]
    where
      n : ℕ
      n = length (bytes_of r)

  -- After the first call of the serializer, in the space that is free.
  after_try :
      (o : BufferedOStream S) (c : List ℕ) (b : Batch S) (r : Record)
      → Filled mem format o c b
      → b.rec_too_large ≡ false
      → (t : ℕ × List ℕ) (free : ℕ)
      → Holds (bytes_of r) b.output.buffer.storage (o.reserve_pos + (8 + length c)) free t
      → o.reserve_pos + (8 + length c) + free ≤ b.output.buffer.size
      → let b' : Batch S = record b { output = with_storage b.output t.1 } in
        Returns (RoundEnd mem format o c r) (
          if ltb (int32_max - length (bytes_of r)) b.batch_size
          then some (stop b')
          else (if ltb free (length (bytes_of r))
              then enlarge mem serialize b' r (length (bytes_of r))
              else some (next (counted b' b'.output b'.buffer (length (bytes_of r))))))
  after_try o c b r f clear t free p room =
      let n = length (bytes_of r) in
      let f' = scribbled mem format o c b f t.1 p.same_length p.below in
      elim (Bool-cases (ltb (int32_max - n) b.batch_size)) [
        | inl full ↦
            let over : int32_max < length c + n = omega (arith, ltb→lt _ _ full, f.count) in
            rw full (f', inr (clear, inl over))
        | inr fits ↦
            let few : length c + n ≤ int32_max = omega (arith, ltb→le _ _ fits, f.count, small r) in
            rw fits (elim (Bool-cases (ltb free n)) [
              | inl more ↦
                  rw more (
                    enlarge_lem o c (record b { output = with_storage b.output t.1 }) r f' clear
                      few)
              | inr enough ↦
                  rw enough (appended o c b f r t free p (ltb→le _ _ enough) room few, clear)
            ])
      ]

  -- A round puts the record behind the batch, or stops the batch there for a reason.
  pub place_lem :
      (o : BufferedOStream S) (c : List ℕ) (b : Batch S) (r : Record)
      → Filled mem format o c b
      → b.rec_too_large ≡ false
      → Returns (RoundEnd mem format o c r) (place mem serialize b r)
  unfolding place size_reserved
  place_lem o c b r f clear =
      let n = length (bytes_of r) in
      let reach = o.reserve_pos + (8 + length c) in
      let free = b.output.buffer.size - b.output.reserve_pos - b.write_pos in
      let place_eq : b.buffer + b.write_pos ≡ reach = omega (arith, f.start_at, f.end_at) in
      let first : b.output.reserve_pos ≤ b.output.buffer.size = f.valid.in_buffer in
      let second : b.write_pos ≤ b.output.buffer.size - b.output.reserve_pos =
        omega (arith, f.room, f.end_at, f.same_pos) in
      let space : reach + free ≡ b.output.buffer.size =
        omega (arith, f.room, f.end_at, f.same_pos) in
      let (t, e, p) = returned (Holds (bytes_of r) b.output.buffer.storage reach free) _ (
        serialize_lem r b.output.buffer.storage reach free
          (omega (arith, space, f.valid.buffered.sized))) in
      rw (le→leb _ _ first, le→leb _ _ second, place_eq, e, p.sized, le→leb _ _ (small r))
        (after_try o c b r f clear t free p (omega (arith, space)))
