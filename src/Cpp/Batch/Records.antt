-- ===== src/Cpp/Batch/Records.antt =====
-- What putRecord of cpp/libtstorageclient++/src/BatchSerializer.cpp does to the batches in the buffer.
use tstorage_clients.Prelude.{
  Bool, List, Returns, Returns-bind, Returns-mono, [], ap, append-nil, append_assoc, arith, drop,
  drop-add, false, if◌then◌else◌, length, length-append, ltb, refl, some, sym, take, true, ℕ, ◌%◌,
  ◌&&◌, ◌++◌, ◌+◌, ◌<◌, ◌==◌, ◌>>=◌, ◌^◌, ◌∙◌, ◌∷◌, ◌≡◌, ◌≤◌,
}
use tstorage_clients.Bytes.{le_bytes, length-le_bytes}
use tstorage_clients.Cpp.Batch.{
  BatchSerializer, ProtoT, begin_batch, end_batch, is_empty, next_record_offset, proto_key_size,
  put_proto, put_record, puta_proto,
}
use tstorage_clients.Cpp.Batch.Adding.{begin_lem, counting, record_tail, record_tail_lem}
use tstorage_clients.Cpp.Batch.Ending.{Empty, Open, write_offset-Open}
use tstorage_clients.Cpp.Batch.Wire.{
  OfCid-append, WireRecord, length-wire_record, wire_record, wire_records, wire_records-append,
}
use tstorage_clients.Cpp.Buffer.{Buffer}
use tstorage_clients.Cpp.Buffer.Contents.{Put, Sound, length-filled, room}
use tstorage_clients.Key.{Key}
use tstorage_clients.Record.{int32_max}
use mathlib.Core.Path.{subst}
use mathlib.Core.Bool.{not}

-- What adding a record leaves.
pub record Added (proto : ProtoT) (b : Buffer) (done : List ℕ) (recs : List WireRecord) (grown : ℕ)
    (r : BatchSerializer × Buffer) : Type 0 where
  pub block' : List ℕ
  pub sound : Sound r.1 block'
  pub same_size : r.1.buffer_size ≡ b.buffer_size
  pub same_read : r.1.read_offset ≡ b.read_offset
  pub moved : r.1.write_offset ≡ b.write_offset + grown
  pub opened : Open proto r.0 r.1 block' done recs

pub proto_key_size-le : (proto : ProtoT) → proto_key_size proto ≤ 28
proto_key_size-le put_proto = omega arith
proto_key_size-le puta_proto = omega arith

module _ (is_be : Bool) (proto : ProtoT) where
  -- The first record of a batch, in a buffer that holds `done`.
  pub first_of_batch :
      (s : BatchSerializer) (b : Buffer) (m done : List ℕ) (key : Key) (payload : List ℕ)
      → Sound b m
      → b.buffer_size ≤ int32_max
      → Empty s b m done
      → key.cid < 2 ^ 31
      → 8 + (4 + proto_key_size proto + length payload) ≤ room b
      → take (length payload) (drop (b.write_offset + 8 + (4 + proto_key_size proto)) m) ≡ payload
      → Returns
          (Added proto b done
            ((key, payload) ∷ [])
            (8 + (4 + proto_key_size proto + length payload)))
          (begin_batch is_be s b key.cid >>= λ r.
            record_tail is_be proto r.0 r.1 key (length payload))
  first_of_batch s b m done key payload v most o cid h there =
      Returns-bind
        (λ (r : BatchSerializer × Buffer).
          (r.0 ≡ record s { current_cid = key.cid }) × Put b m head r.1)
        target _ _ (begin_lem is_be s b m key.cid v (omega arith))
        λ r p.
          Returns-mono
            (λ (r' : BatchSerializer × Buffer).
              (r'.0 ≡ counting proto r.0 (length payload)) × Put r.1 p.1.block' wire r'.1)
            target _
            (record_tail_lem is_be proto r.0 r.1 p.1.block' key payload p.1.sound
              (omega (arith, p.1.moved, p.1.same_size, eight)) (omega (arith, most))
              (there' r.1 p.1))
            λ r' q. record {
              block' = q.1.block';
              sound = q.1.sound;
              same_size = q.1.same_size ∙ p.1.same_size;
              same_read = q.1.same_read ∙ p.1.same_read;
              moved = omega (arith, q.1.moved, p.1.moved, one, eight);
              opened =
                  subst (λ (t : BatchSerializer). Open proto t r'.1 q.1.block' done recs)
                    (sym (q.0 ∙ ap (λ t. counting proto t (length payload)) p.0))
                    record {
                      sized = omega (arith, size, one, all);
                      positive = omega (arith, size, one, all);
                      at_field = o.at_field ∙ ap (λ (n : ℕ). some (n + 4)) start;
                      contents =
                          q.1.appended
                          ∙ ap (λ t. t ++ wire) (p.1.appended ∙ ap (λ t. t ++ head) o.contents)
                          ∙ append_assoc done head wire
                          ∙ ap (λ t. done ++ (head ++ t)) (sym (append-nil wire));
                      not_negative = cid;
                      same_cid = (refl, tt);
                    };
            }
    where
      target : BatchSerializer × Buffer → Type 0
      target =
          Added proto b done ((key, payload) ∷ []) (8 + (4 + proto_key_size proto + length payload))

      recs : List WireRecord
      recs = (key, payload) ∷ []

      head : List ℕ
      head = le_bytes 4 key.cid ++ le_bytes 4 0

      wire : List ℕ
      wire = wire_record proto (key, payload)

      one : length wire ≡ 4 + proto_key_size proto + length payload
      one = length-wire_record proto (key, payload)

      all : length (wire_records proto recs) ≡ length wire
      all = ap length (append-nil wire)

      eight : length head ≡ 8
      eight = omega (
        arith,
        length-append (le_bytes 4 key.cid) (le_bytes 4 0),
        length-le_bytes 4 key.cid,
        length-le_bytes 4 0,
      )

      start : b.write_offset ≡ length done
      start = omega (arith, length-filled b m v, ap length o.contents)

      there' :
          (b' : Buffer) (p : Put b m head b')
          → take (length payload) (drop (b'.write_offset + (4 + proto_key_size proto)) p.block')
            ≡ payload
      there' b' p =
          ap (take (length payload)) (
            drop-add b'.write_offset (4 + proto_key_size proto) p.block'
            ∙ ap (drop (4 + proto_key_size proto))
                (p.behind ∙ ap (λ (k : ℕ). drop (b.write_offset + k) m) eight)
            ∙ sym (drop-add (b.write_offset + 8) (4 + proto_key_size proto) m))
          ∙ there

      size :
          (s.current_size + (4 + (proto_key_size proto + length payload) % 2 ^ 32)) % 2 ^ 32
          ≡ 4 + proto_key_size proto + length payload
      size = omega (arith, o.no_size, most, h, proto_key_size-le proto)

  -- A record that goes to the batch that is there.
  pub next_of_batch :
      (s : BatchSerializer) (b : Buffer) (m done : List ℕ) (recs : List WireRecord) (key : Key)
      (payload : List ℕ)
      → Sound b m
      → b.buffer_size ≤ int32_max
      → Open proto s b m done recs
      → key.cid ≡ s.current_cid
      → 4 + proto_key_size proto + length payload ≤ room b
      → take (length payload) (drop (b.write_offset + (4 + proto_key_size proto)) m) ≡ payload
      → Returns
          (Added proto b done
            (recs ++ ((key, payload) ∷ []))
            (4 + proto_key_size proto + length payload))
          (record_tail is_be proto s b key (length payload))
  next_of_batch s b m done recs key payload v most o same h there =
      Returns-mono
        (λ (r : BatchSerializer × Buffer).
          (r.0 ≡ counting proto s (length payload)) × Put b m wire r.1)
        (Added proto b done (recs ++ ((key, payload) ∷ []))
          (4 + proto_key_size proto + length payload))
        _ (record_tail_lem is_be proto s b m key payload v h (omega (arith, most)) there)
        λ r p. record {
          block' = p.1.block';
          sound = p.1.sound;
          same_size = p.1.same_size;
          same_read = p.1.same_read;
          moved = omega (arith, p.1.moved, one);
          opened =
              subst
                (λ (t : BatchSerializer).
                  Open proto t r.1 p.1.block' done (recs ++ ((key, payload) ∷ [])))
                (sym p.0)
                record {
                  sized = omega (arith, size, o.sized, all, one);
                  positive = omega (arith, size, o.sized, all, one);
                  at_field = o.at_field;
                  contents =
                      p.1.appended
                      ∙ ap (λ t. t ++ wire) o.contents
                      ∙ append_assoc done (head ++ wire_records proto recs) wire
                      ∙ ap (λ t. done ++ t) (append_assoc head (wire_records proto recs) wire)
                      ∙ ap (λ t. done ++ (head ++ t)) (sym grown);
                  not_negative = o.not_negative;
                  same_cid =
                      OfCid-append s.current_cid recs ((key, payload) ∷ []) o.same_cid (same, tt);
                };
        }
    where
      wire : List ℕ
      wire = wire_record proto (key, payload)

      head : List ℕ
      head = le_bytes 4 s.current_cid ++ le_bytes 4 0

      grown : wire_records proto (recs ++ ((key, payload) ∷ [])) ≡ wire_records proto recs ++ wire
      grown =
          wire_records-append proto recs ((key, payload) ∷ [])
          ∙ ap (λ t. wire_records proto recs ++ t) (append-nil wire)

      one : length (wire_record proto (key, payload)) ≡ 4 + proto_key_size proto + length payload
      one = length-wire_record proto (key, payload)

      all :
          length (wire_records proto (recs ++ ((key, payload) ∷ [])))
          ≡ length (wire_records proto recs) + length (wire_record proto (key, payload))
      all = ap length grown ∙ length-append (wire_records proto recs) wire

      size :
          (s.current_size + (4 + (proto_key_size proto + length payload) % 2 ^ 32)) % 2 ^ 32
          ≡ s.current_size + (4 + proto_key_size proto + length payload)
      size = omega (
        arith,
        o.sized,
        write_offset-Open proto s b m done recs v o,
        v.in_bounds,
        most,
        proto_key_size-le proto,
      )

module _ (is_be : Bool) (proto : ProtoT) (s : BatchSerializer) (b : Buffer) (key : Key)
    (n : ℕ) where
  -- The three ways of putRecord: into an empty batch, into the present one, and behind it.
  pub put_record-empty :
      (s.current_size == 0) ≡ true
      → ltb s.current_cid (2 ^ 31) ≡ false
      → (put_record is_be proto s b key n
          ≡ (begin_batch is_be s b key.cid >>= λ r. record_tail is_be proto r.0 r.1 key n))
        × (next_record_offset s key.cid ≡ 8)
  unfolding put_record next_record_offset is_empty
  put_record-empty e low = (rw (skip_end, e) refl, rw e refl)
    where
      skip_end : (not (key.cid == s.current_cid) && ltb s.current_cid (2 ^ 31)) ≡ false
      skip_end = ground (arith, low)

  pub put_record-same :
      (s.current_size == 0) ≡ false
      → (key.cid == s.current_cid) ≡ true
      → (put_record is_be proto s b key n ≡ record_tail is_be proto s b key n)
        × (next_record_offset s key.cid ≡ 0)
  unfolding put_record next_record_offset is_empty
  put_record-same e same = (rw (same, e) refl, rw (e, same) refl)

  pub put_record-other :
      (s.current_size == 0) ≡ false
      → (key.cid == s.current_cid) ≡ false
      → ltb s.current_cid (2 ^ 31) ≡ true
      → (put_record is_be proto s b key n ≡ (
          end_batch is_be s b >>= λ r.
          (if is_empty r.0 then begin_batch is_be r.0 r.1 key.cid else some (r.0, r.1)) >>= λ t.
          record_tail is_be proto t.0 t.1 key n))
        × (next_record_offset s key.cid ≡ 8)
  unfolding put_record next_record_offset is_empty
  put_record-other e other_cid high = (rw (other_cid, high) refl, rw (e, other_cid) refl)
