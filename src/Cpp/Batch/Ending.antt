-- ===== src/Cpp/Batch/Ending.antt =====
-- How a batch is ended: endBatch of cpp/libtstorageclient++/src/BatchSerializer.cpp.
use tstorage_clients.Prelude.{
  Bool, List, Returns, ap, append_assoc, arith, drop, drop-add, drop-append_self, length,
  length-append, refl, some, sym, take, take-append_self, take-take, ℕ, ◌++◌, ◌+◌, ◌<◌, ◌^◌, ◌∙◌,
  ◌≡◌, ◌≤◌,
}
use tstorage_clients.Memory.{add_size, size_max, store}
use tstorage_clients.Bytes.{le_bytes, length-le_bytes}
use tstorage_clients.Cpp.Batch.{BatchSerializer, ProtoT, batch_size_offset, end_batch, write_data}
use tstorage_clients.Cpp.Batch.Wire.{OfCid, WireRecord, wire_batch, wire_records}
use tstorage_clients.Cpp.Buffer.{Buffer, write_at}
use tstorage_clients.Cpp.Buffer.Contents.{Sound, filled, length-filled, room, valid-Sound}
use tstorage_clients.Cpp.Serializer.Values.{put_bytes_lem}
use tstorage_clients.Memory.Store.{
  drop-store, length-store, store_fits, take-store_below, take-store_over,
}
use tstorage_clients.Record.{int32_max}
use mathlib.Core.Path.{ap₂, subst}

-- No record of a batch is in the buffer, behind the bytes `done`.
pub record Empty (s : BatchSerializer) (b : Buffer) (m done : List ℕ) : Type 0 where
  pub no_size : s.current_size ≡ 0
  pub at_field : s.size_field ≡ some (b.write_offset + batch_size_offset)
  pub contents : filled b m ≡ done

-- The records of the present batch are in the buffer, behind the bytes `done`.
pub record Open (proto : ProtoT) (s : BatchSerializer) (b : Buffer) (m done : List ℕ)
    (recs : List WireRecord) : Type 0 where
  pub sized : s.current_size ≡ length (wire_records proto recs)
  pub positive : 0 < s.current_size
  pub at_field : s.size_field ≡ some (length done + batch_size_offset)
  pub contents :
      filled b m ≡ done ++ ((le_bytes 4 s.current_cid ++ le_bytes 4 0) ++ wire_records proto recs)
  pub not_negative : s.current_cid < 2 ^ 31
  pub same_cid : OfCid s.current_cid recs

-- What endBatch leaves: an empty batch behind the bytes `done`, in a buffer with the same offsets.
pub record BatchEnded (s : BatchSerializer) (b : Buffer) (m done : List ℕ)
    (r : BatchSerializer × Buffer) : Type 0 where
  pub block' : List ℕ
  pub sound : Sound r.1 block'
  pub same_size : r.1.buffer_size ≡ b.buffer_size
  pub same_read : r.1.read_offset ≡ b.read_offset
  pub same_write : r.1.write_offset ≡ b.write_offset
  pub empty : Empty r.0 r.1 block' done
  pub same_cid : r.0.current_cid ≡ s.current_cid
  pub behind : 0 < s.current_size → drop b.write_offset block' ≡ drop b.write_offset m

module _ (b : Buffer) (m : List ℕ) (v : Sound b m) where
  pub write_data-Sound :
      (offset : ℕ)
      → b.write_offset + offset ≤ size_max
      → write_data b offset ≡ some (b.write_offset + offset)
  unfolding write_data
  write_data-Sound offset h = rw (valid-Sound b m v) (ap some no_wrap)
    where
      no_wrap : add_size b.write_offset offset ≡ b.write_offset + offset
      no_wrap = omega arith

-- Bytes in the middle are written over.
overwrite :
    (m new a old bs w : List ℕ)
    → take (length a + length bs + length w) m ≡ a ++ (old ++ w)
    → length old ≡ length bs
    → store m (length a) bs ≡ some new
    → take (length a + length bs + length w) new ≡ a ++ (bs ++ w)
overwrite m new a old bs w held same e =
    take-store_over m (length a) bs new (length w) e ∙ ap₂ (λ s t. s ++ (bs ++ t)) before after
  where
    before : take (length a) m ≡ a
    before =
        sym (take-take (length a) (length a + length bs + length w) m (omega arith))
        ∙ ap (take (length a)) held
        ∙ take-append_self a (old ++ w)

    reach : length a + length bs ≡ length (a ++ old)
    reach = omega (arith, same, length-append a old)

    after : drop (length a + length bs) (take (length a + length bs + length w) m) ≡ w
    after =
        ap (drop (length a + length bs)) (held ∙ sym (append_assoc a old w))
        ∙ ap (λ (k : ℕ). drop k ((a ++ old) ++ w)) reach
        ∙ drop-append_self (a ++ old) w

drop-store_past :
    (m : List ℕ) (at : ℕ) (bs new : List ℕ) (k : ℕ)
    → store m at bs ≡ some new
    → drop (at + length bs + k) new ≡ drop (at + length bs + k) m
drop-store_past m at bs new k e =
    drop-add (at + length bs) k new
    ∙ ap (drop k) (drop-store m at bs new e)
    ∙ sym (drop-add (at + length bs) k m)

pub write_offset-Open :
    (proto : ProtoT) (s : BatchSerializer) (b : Buffer) (m done : List ℕ) (recs : List WireRecord)
    → Sound b m
    → Open proto s b m done recs
    → b.write_offset ≡ length done + 8 + length (wire_records proto recs)
write_offset-Open proto s b m done recs v o = omega (
  arith,
  length-filled b m v,
  ap length o.contents,
  length-append done ((le_bytes 4 s.current_cid ++ le_bytes 4 0) ++ wire_records proto recs),
  length-append (le_bytes 4 s.current_cid ++ le_bytes 4 0) (wire_records proto recs),
  length-append (le_bytes 4 s.current_cid) (le_bytes 4 0),
  length-le_bytes 4 s.current_cid,
  length-le_bytes 4 0,
)

rewritten :
    (b : Buffer) (m : List ℕ) (at : ℕ) (new bs : List ℕ)
    → Sound b m
    → store m at bs ≡ some new
    → Sound (record b { block = some new }) new
rewritten b m at new bs v e = record {
  has_block = refl;
  whole = length-store m at bs new e ∙ v.whole;
  in_order = v.in_order;
  in_bounds = v.in_bounds;
  small = v.small;
}

module _ (is_be : Bool) where
  -- endBatch, when the size field lies inside the block.
  end_batch-at :
      (s : BatchSerializer) (b : Buffer) (m : List ℕ) (at : ℕ) (new : List ℕ)
      → Sound b m
      → s.size_field ≡ some at
      → store m at (le_bytes 4 s.current_size) ≡ some new
      → b.write_offset + 4 ≤ size_max
      → end_batch is_be s b
        ≡ some (
          record s { current_size = 0; size_field = some (b.write_offset + batch_size_offset) },
          record b { block = some new },
        )
  unfolding end_batch write_at
  end_batch-at s b m at new v f e h =
      rw (f, v.has_block, (put_bytes_lem is_be 4 s.current_size).0, e)
        (ap
          (λ w. some (record s { current_size = 0; size_field = w }, record b { block = some new }))
          (write_data-Sound (record b { block = some new }) new
            (rewritten b m at new (le_bytes 4 s.current_size) v e) 4 h))

  -- endBatch, when the size field is among the filled bytes.
  pub end_batch-over :
      (s : BatchSerializer) (b : Buffer) (m a old w : List ℕ)
      → Sound b m
      → b.buffer_size ≤ int32_max
      → s.size_field ≡ some (length a)
      → length old ≡ 4
      → filled b m ≡ a ++ (old ++ w)
      → Returns (BatchEnded s b m (a ++ (le_bytes 4 s.current_size ++ w))) (end_batch is_be s b)
  end_batch-over s b m a old w v most f n held =
      rw (end_batch-at s b m (length a) new v f e (omega (arith, v.in_bounds))) record {
        block' = new;
        sound = rewritten b m (length a) new size v e;
        same_size = refl;
        same_read = refl;
        same_write = refl;
        empty = record {
          no_size = refl;
          at_field = refl;
          contents =
              ap (λ (k : ℕ). take k new) (sym end)
              ∙ overwrite m new a old size w (ap (λ (k : ℕ). take k m) end ∙ held)
                  (omega (arith, n, n4)) e;
        };
        same_cid = refl;
        behind = λ _.
            ap (λ (k : ℕ). drop k new) (sym end)
            ∙ drop-store_past m (length a) size new (length w) e
            ∙ ap (λ (k : ℕ). drop k m) end;
      }
    where
      size : List ℕ
      size = le_bytes 4 s.current_size

      n4 : length size ≡ 4
      n4 = length-le_bytes 4 s.current_size

      end : length a + length size + length w ≡ b.write_offset
      end = omega (
        arith,
        length-filled b m v,
        ap length held,
        length-append a (old ++ w),
        length-append old w,
        n,
        n4,
      )

      new : List ℕ
      new = take (length a) m ++ (size ++ drop (length a + length size) m)

      e : store m (length a) size ≡ some new
      e = store_fits m (length a) size (omega (arith, end, v.in_bounds, v.whole))

  pub end_batch-Open :
      (proto : ProtoT) (s : BatchSerializer) (b : Buffer) (m done : List ℕ) (recs : List WireRecord)
      → Sound b m
      → b.buffer_size ≤ int32_max
      → Open proto s b m done recs
      → Returns
          (BatchEnded s b m (done ++ wire_batch proto s.current_cid recs))
          (end_batch is_be s b)
  end_batch-Open proto s b m done recs v most o =
      subst (λ t. Returns (BatchEnded s b m t) (end_batch is_be s b)) closed
        (end_batch-over s b m (done ++ cid) (le_bytes 4 0) w v most
          (o.at_field ∙ ap (λ (k : ℕ). some k) start) (length-le_bytes 4 0) held)
    where
      w : List ℕ
      w = wire_records proto recs

      cid : List ℕ
      cid = le_bytes 4 s.current_cid

      start : length done + 4 ≡ length (done ++ cid)
      start = omega (arith, length-append done cid, length-le_bytes 4 s.current_cid)

      held : filled b m ≡ (done ++ cid) ++ (le_bytes 4 0 ++ w)
      held =
          o.contents
          ∙ ap (λ t. done ++ t) (append_assoc cid (le_bytes 4 0) w)
          ∙ sym (append_assoc done cid (le_bytes 4 0 ++ w))

      closed :
          (done ++ cid) ++ (le_bytes 4 s.current_size ++ w)
          ≡ done ++ wire_batch proto s.current_cid recs
      closed =
          append_assoc done cid (le_bytes 4 s.current_size ++ w)
          ∙ ap (λ t. done ++ t) (sym (append_assoc cid (le_bytes 4 s.current_size) w))
          ∙ ap (λ (n : ℕ). done ++ ((cid ++ le_bytes 4 n) ++ w)) o.sized

  pub end_batch-Empty :
      (s : BatchSerializer) (b : Buffer) (m done : List ℕ)
      → Sound b m
      → b.buffer_size ≤ int32_max
      → 8 ≤ room b
      → Empty s b m done
      → Returns (BatchEnded s b m done) (end_batch is_be s b)
  end_batch-Empty s b m done v most h o =
      rw (end_batch-at s b m (b.write_offset + 4) new v o.at_field e (omega (arith, v.in_bounds)))
        record {
          block' = new;
          sound = rewritten b m (b.write_offset + 4) new size v e;
          same_size = refl;
          same_read = refl;
          same_write = refl;
          empty = record {
            no_size = refl;
            at_field = refl;
            contents =
                take-store_below m (b.write_offset + 4) size new b.write_offset e (omega arith)
                ∙ o.contents;
          };
          same_cid = refl;
          behind = λ k. absurd (omega (arith, k, o.no_size));
        }
    where
      size : List ℕ
      size = le_bytes 4 s.current_size

      new : List ℕ
      new = take (b.write_offset + 4) m ++ (size ++ drop (b.write_offset + 4 + length size) m)

      e : store m (b.write_offset + 4) size ≡ some new
      e =
          store_fits m (b.write_offset + 4) size
            (omega (arith, length-le_bytes 4 s.current_size, h, v.whole))
