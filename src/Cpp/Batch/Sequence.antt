-- ===== src/Cpp/Batch/Sequence.antt =====
-- The batches of a request in the buffer, record after record
-- (cpp/libtstorageclient++/src/BatchSerializer.cpp).
use tstorage_clients.Prelude.{
  ==_iff, Bool, Bool-cases, List, Option, Returns, Returns-bind, Returns-mono, [], ap, append-nil,
  append_assoc, arith, drop, drop-add, false, if◌then◌else◌, inl, inr, length, some, sym, take,
  true, ℕ, ◌++◌, ◌+◌, ◌<◌, ◌==◌, ◌>>=◌, ◌^◌, ◌∙◌, ◌∷◌, ◌≡◌, ◌≤◌, ◌⊎◌,
}
use tstorage_clients.Cpp.Batch.{
  BatchSerializer, ProtoT, begin_batch, is_empty, next_record_offset, proto_key_size, put_record,
}
use tstorage_clients.Cpp.Batch.Adding.{record_tail}
use tstorage_clients.Cpp.Batch.Ending.{BatchEnded, Empty, Open, end_batch-Open}
use tstorage_clients.Cpp.Batch.Records.{
  Added, first_of_batch, next_of_batch, put_record-empty, put_record-other, put_record-same,
}
use tstorage_clients.Cpp.Batch.Wire.{WireBatches, WireRecord, batches_and, wire_batch}
use tstorage_clients.Cpp.Buffer.{Buffer}
use tstorage_clients.Cpp.Buffer.Contents.{Sound, room}
use tstorage_clients.Key.{Key}
use tstorage_clients.Record.{int32_max}
use mathlib.Core.Path.{subst}

-- The records of a request so far, behind the bytes `start`: those of the batches that are ended,
-- and those of the present one. The bytes `sent` have left the buffer.
pub record InBatches (proto : ProtoT) (sent start : List ℕ) (all : List WireRecord)
    (s : BatchSerializer) (b : Buffer) (m : List ℕ) : Type 0 where
  pub past : List WireRecord
  pub past_bytes : List ℕ
  pub done : List ℕ
  pub recs : List WireRecord
  pub cut : WireBatches proto past past_bytes
  pub split : all ≡ past ++ recs
  pub placed : sent ++ done ≡ start ++ past_bytes
  pub holds :
      ((recs ≡ []) × Empty s b m done × (2 ^ 31 ≤ s.current_cid)) ⊎ Open proto s b m done recs

-- What putRecord leaves.
pub record Recorded (proto : ProtoT) (sent start : List ℕ) (all : List WireRecord) (b : Buffer)
    (grown : ℕ) (r : BatchSerializer × Buffer) : Type 0 where
  pub block' : List ℕ
  pub sound : Sound r.1 block'
  pub same_size : r.1.buffer_size ≡ b.buffer_size
  pub same_read : r.1.read_offset ≡ b.read_offset
  pub moved : r.1.write_offset ≡ b.write_offset + grown
  pub batches : InBatches proto sent start all r.0 r.1 block'
  pub not_empty : 0 < r.0.current_size

-- The present batch, once it is ended, is one more batch.
pub ended_WireBatches :
    (proto : ProtoT) (s : BatchSerializer) (b : Buffer) (m done : List ℕ)
    (recs past : List WireRecord) (bytes : List ℕ)
    → Open proto s b m done recs
    → WireBatches proto past bytes
    → WireBatches proto (past ++ recs) (bytes ++ wire_batch proto s.current_cid recs)
ended_WireBatches proto s b m done [] past bytes o w = absurd (omega (arith, o.positive, o.sized))
ended_WireBatches proto s b m done (r ∷ rs) past bytes o w =
    batches_and past bytes s.current_cid r rs w o.same_cid

module _ (proto : ProtoT) (sent start : List ℕ) where
  Added→Recorded :
      (all past recs : List WireRecord) (past_bytes done : List ℕ) (b : Buffer) (grown : ℕ)
      (r : BatchSerializer × Buffer)
      → WireBatches proto past past_bytes
      → all ≡ past ++ recs
      → sent ++ done ≡ start ++ past_bytes
      → Added proto b done recs grown r
      → Recorded proto sent start all b grown r
  Added→Recorded all past recs past_bytes done b grown r cut split placed a = record {
    block' = a.block';
    sound = a.sound;
    same_size = a.same_size;
    same_read = a.same_read;
    moved = a.moved;
    batches = record {
      past = past;
      past_bytes = past_bytes;
      done = done;
      recs = recs;
      cut = cut;
      split = split;
      placed = placed;
      holds = inr a.opened;
    };
    not_empty = a.opened.positive;
  }

module _ (is_be : Bool) (proto : ProtoT) (sent start : List ℕ) where
  -- The bytes after the sent ones when the open batch is closed.
  abbrev closed :
      (s : BatchSerializer) (b : Buffer) (m : List ℕ) (all : List WireRecord)
      → InBatches proto sent start all s b m
      → List ℕ
  closed s b m all i = i.done ++ wire_batch proto s.current_cid i.recs

  moved_Added :
      (b : Buffer) (done : List ℕ) (recs : List WireRecord) (grown : ℕ) (s : BatchSerializer)
      (m : List ℕ) (r t : BatchSerializer × Buffer)
      → BatchEnded s b m done r
      → Added proto r.1 done recs grown t
      → Added proto b done recs grown t
  moved_Added b done recs grown s m r t e a = record {
    block' = a.block';
    sound = a.sound;
    same_size = a.same_size ∙ e.same_size;
    same_read = a.same_read ∙ e.same_read;
    moved = omega (arith, a.moved, e.same_write);
    opened = a.opened;
  }

  -- Into a new batch behind the one that was ended.
  behind_batch :
      (s : BatchSerializer) (b : Buffer) (m : List ℕ) (all : List WireRecord) (key : Key)
      (payload : List ℕ) (i : InBatches proto sent start all s b m)
      (o : Open proto s b m i.done i.recs) (r : BatchSerializer × Buffer)
      (e : BatchEnded s b m (closed s b m all i) r)
      → b.buffer_size ≤ int32_max
      → key.cid < 2 ^ 31
      → take (length payload) (drop (b.write_offset + 8 + (4 + proto_key_size proto)) m) ≡ payload
      → 8 + (4 + proto_key_size proto + length payload) ≤ room b
      → Returns
          (Recorded proto sent start
            (all ++ ((key, payload) ∷ []))
            b
            (8 + (4 + proto_key_size proto + length payload)))
          ((if is_empty r.0 then begin_batch is_be r.0 r.1 key.cid else some (r.0, r.1)) >>= λ t.
            record_tail is_be proto t.0 t.1 key (length payload))
  unfolding is_empty
  behind_batch s b m all key payload i o r e most cid there' fits =
      let empty : (r.0.current_size == 0) ≡ true = ground (arith, e.empty.no_size) in
      let far : drop (r.1.write_offset + 8 + k) e.block' ≡ drop (b.write_offset + 8 + k) m =
        ap (λ (j : ℕ). drop j e.block') (omega (arith, e.same_write))
        ∙ drop-add b.write_offset (8 + k) e.block'
        ∙ ap (drop (8 + k)) (e.behind o.positive)
        ∙ sym (drop-add b.write_offset (8 + k) m)
        ∙ ap (λ (j : ℕ). drop j m) (omega arith) in
      rw empty (
        Returns-mono (Added proto r.1 ended_bytes new (8 + rest))
          (Recorded proto sent start (all ++ new) b (8 + rest)) _
          (first_of_batch is_be proto r.0 r.1 e.block' ended_bytes key payload e.sound
            (omega (arith, most, e.same_size)) e.empty cid
            (omega (arith, fits, e.same_size, e.same_write))
            (ap (take (length payload)) far ∙ there'))
          (λ t a.
            Added→Recorded proto sent start (all ++ new) (i.past ++ i.recs) new
              (i.past_bytes ++ wire_batch proto s.current_cid i.recs) ended_bytes b (8 + rest) t
              (ended_WireBatches proto s b m i.done i.recs i.past i.past_bytes o i.cut)
              (ap (λ t. t ++ new) i.split)
              (sym (append_assoc sent i.done (wire_batch proto s.current_cid i.recs))
                ∙ ap (λ t. t ++ wire_batch proto s.current_cid i.recs) i.placed
                ∙ append_assoc start i.past_bytes (wire_batch proto s.current_cid i.recs))
              (moved_Added b ended_bytes new (8 + rest) s m r t e a)))
    where
      k : ℕ
      k = 4 + proto_key_size proto

      rest : ℕ
      rest = k + length payload

      new : List WireRecord
      new = (key, payload) ∷ []

      ended_bytes : List ℕ
      ended_bytes = closed s b m all i

  -- For a buffer of no more than the greatest int32_t bytes that holds the batches of a request, a
  -- key whose cid is not negative, and a payload in its place, putRecord returns, and the buffer
  -- holds the batches of the request with this record behind the others: the present batch goes on
  -- or is ended with its size, by the record's cid. The write location moves by the offset that
  -- getNextRecordOffset gives and the record's size.
  pub put_record_lem :
      (s : BatchSerializer) (b : Buffer) (m : List ℕ) (all : List WireRecord) (key : Key)
      (payload : List ℕ)
      → Sound b m
      → b.buffer_size ≤ int32_max
      → InBatches proto sent start all s b m
      → key.cid < 2 ^ 31
      → next_record_offset s key.cid + (4 + proto_key_size proto + length payload) ≤ room b
      → take
          (length payload)
          (drop (b.write_offset + next_record_offset s key.cid + (4 + proto_key_size proto)) m)
        ≡ payload
      → Returns
          (Recorded proto sent start
            (all ++ ((key, payload) ∷ []))
            b
            (next_record_offset s key.cid + (4 + proto_key_size proto + length payload)))
          (put_record is_be proto s b key (length payload))
  unfolding is_empty
  put_record_lem s b m all key payload v most i cid h there = elim i.holds [
    | inl (none_yet, o, negative) ↦
        let (run, off) =
          put_record-empty is_be proto s b key n (ground (arith, o.no_size))
            (ground (arith, negative)) in
        into (put_record is_be proto s b key n) (8 + rest) (omega (arith, off)) (
          rw run (
            Returns-mono (Added proto b i.done new (8 + rest)) (Target (8 + rest)) _
              (first_of_batch is_be proto s b m i.done key payload v most o cid
                (omega (arith, h, off)) (payload_at (b.write_offset + 8 + k) (omega (arith, off))))
              (λ r a.
                Added→Recorded proto sent start all' i.past new i.past_bytes i.done b (8 + rest) r
                  i.cut
                  (ap (λ t. t ++ new)
                    (i.split ∙ ap (λ t. i.past ++ t) none_yet ∙ append-nil i.past))
                  i.placed a)))
    | inr o ↦ elim (Bool-cases (key.cid == s.current_cid)) [
      | inl same ↦
          let (run, off) = put_record-same is_be proto s b key n (some_there o) same in
          into (put_record is_be proto s b key n) rest (omega (arith, off)) (
            rw run (
              Returns-mono (Added proto b i.done (i.recs ++ new) rest) (Target rest) _
                (next_of_batch is_be proto s b m i.done i.recs key payload v most o
                  ((==_iff _ _).0 same) (omega (arith, h, off))
                  (payload_at (b.write_offset + k) (omega (arith, off))))
                (λ r a.
                  Added→Recorded proto sent start all' i.past (i.recs ++ new) i.past_bytes i.done b
                    rest r i.cut (ap (λ t. t ++ new) i.split ∙ append_assoc i.past i.recs new)
                    i.placed a)))
      | inr other_cid ↦
          let (run, off) =
            put_record-other is_be proto s b key n (some_there o) other_cid
              (ground (arith, o.not_negative)) in
          into (put_record is_be proto s b key n) (8 + rest) (omega (arith, off)) (
            rw run (
              Returns-bind (BatchEnded s b m (closed s b m all i)) (Target (8 + rest)) _ _
                (end_batch-Open is_be proto s b m i.done i.recs v most o)
                (λ r e.
                  behind_batch s b m all key payload i o r e most cid
                    (payload_at (b.write_offset + 8 + k) (omega (arith, off)))
                    (omega (arith, h, off)))))
    ]
  ]
    where
      n : ℕ
      n = length payload

      k : ℕ
      k = 4 + proto_key_size proto

      rest : ℕ
      rest = k + n

      new : List WireRecord
      new = (key, payload) ∷ []

      all' : List WireRecord
      all' = all ++ new

      Target : ℕ → BatchSerializer × Buffer → Type 0
      Target = Recorded proto sent start all' b

      some_there : Open proto s b m i.done i.recs → (s.current_size == 0) ≡ false
      some_there o = ground (arith, o.positive)

      payload_at :
          (at : ℕ)
          → b.write_offset + next_record_offset s key.cid + k ≡ at
          → take n (drop at m) ≡ payload
      payload_at at e = ap (λ (j : ℕ). take n (drop j m)) (sym e) ∙ there

      into :
          (run : Option (BatchSerializer × Buffer)) (grown : ℕ)
          → next_record_offset s key.cid + rest ≡ grown
          → Returns (Target grown) run
          → Returns (Target (next_record_offset s key.cid + rest)) run
      into run grown e r = subst (λ (j : ℕ). Returns (Target j) run) (sym e) r
