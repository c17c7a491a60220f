-- ===== src/Put/Write.antt =====
-- What commonWrite (c/src/RecordsSet.c) does: all the records in batches, and the end mark.
use tstorage_clients.Prelude.{
  Bool-cases, List, Returns, Returns-bind, Returns-mono, [], ap, append_assoc, arith, if◌then◌else◌,
  inl, inr, length, length-append, ltb, refl, some, suc, sym, zero, ℕ, ◌*◌, ◌++◌, ◌+◌, ◌-◌, ◌<◌,
  ◌>>=◌, ◌^◌, ◌∙◌, ◌∷◌, ◌≡◌, ◌≢◌, ◌⊎◌,
}
use tstorage_clients.Memory.{Allocator, Generous, store}
use tstorage_clients.ErrorCode.{ErrorCode, is_ok, is_ok→eq, is_ok→ne, limit, ok, resource, send}
use tstorage_clients.BufferedOStream.{BufferedOStream}
use tstorage_clients.BufferedOStream.Emit.{Emitted, write_with_lem}
use tstorage_clients.BufferedOStream.Flush.{Sink, output}
use tstorage_clients.BufferedOStream.Reserve.{IsOut}
use tstorage_clients.Bytes.{le_bytes}
use tstorage_clients.Put.{Progress, common_write, finished, running, write_end_mark}
use tstorage_clients.Put.Batches.{BatchWritten, TooLarge, write_cid_batch_lem}
use tstorage_clients.Put.Finish.{batch_bytes}
use tstorage_clients.Put.Loop.{SameCid}
use tstorage_clients.Record.{Record}
use tstorage_clients.Record.Format.{Format}
use mathlib.Core.Path.{subst}

-- The records cut into batches, each of one cid, and the bytes of the batches.
pub data Batched (format : Format) : List Record → List ℕ → Type 0 where
  no_batch : Batched format [] []
  batch :
      (cid : ℕ) (done rest : List Record) (bytes : List ℕ)
      → SameCid cid done
      → Batched format rest bytes
      → Batched format (done ++ rest) (batch_bytes format cid done ++ bytes)

-- The mark behind the last batch: a cid of -1.
abbrev pub end_mark : List ℕ
end_mark = le_bytes 4 (2 ^ 32 - 1)

module _ {S : Type 0} (sink : Sink S) (mem : Allocator) (format : Format) where
  open sink use {write, Ready}

  -- What the whole write of the records leaves.
  pub record AllWritten (o : BufferedOStream S) (recs : List Record) (res : ErrorCode)
      (o' : BufferedOStream S) : Type 0 where
    pub valid : IsOut o'
    pub ready : Ready o'.stream
    pub same_limit : o'.buffer.max_size ≡ o.buffer.max_size
    pub codes : (res ≡ ok) ⊎ (res ≡ limit) ⊎ (res ≡ resource) ⊎ (res ≡ send)
    pub written :
        res ≡ ok
        → (bytes : List ℕ) × Batched format recs bytes
          × (output sink o' ≡ output sink o ++ (bytes ++ end_mark))
    pub limit_only :
        res ≡ limit
        → (o.buffer.max_size < 8)
          ⊎ ((before : List Record) × (rest : List Record) × (recs ≡ before ++ rest)
              × TooLarge sink mem format (o.buffer.max_size) rest)
    pub refused : res ≡ resource → ¬ Generous mem

  -- The rounds that are enough: one for a batch that ends, and one for a flush before it.
  abbrev pub needed : BufferedOStream S → List Record → ℕ
  needed o recs = 2 * length recs + (if ltb 0 o.reserve_pos then 1 else 0)

  abbrev pub CommonEnd : BufferedOStream S → List Record → ℕ → Progress S → Type 0
  CommonEnd o recs rounds (finished res o') = AllWritten o recs res o'
  CommonEnd o recs rounds running = Generous mem → rounds < needed o recs

  marked :
      (o : BufferedOStream S) (r : ErrorCode × BufferedOStream S)
      → Emitted sink mem o end_mark r
      → AllWritten o [] r.0 r.1
  unfolding le_bytes
  marked o r p = record {
    valid = p.valid;
    ready = p.ready;
    same_limit = p.same_limit;
    codes = p.codes;
    written = λ h. ([], no_batch, p.appended h);
    limit_only = λ h. inl (let less = p.limit_only h in omega arith);
    refused = p.refused;
  }

  failed_batch :
      (o : BufferedOStream S) (cid : ℕ) (recs : List Record)
      (r : ErrorCode × BufferedOStream S × List Record)
      → BatchWritten sink mem format o cid recs r
      → r.0 ≢ ok
      → AllWritten o recs r.0 r.1
  failed_batch o cid recs r p e = record {
    valid = p.valid;
    ready = p.ready;
    same_limit = p.same_limit;
    codes = p.codes;
    written = λ h. absurd (e h);
    limit_only = λ h. elim (p.limit_only h) [
      | inl small ↦ inl small
      | inr large ↦ inr (p.done, r.2, p.split, large)
    ];
    refused = p.refused;
  }

  module _ (o : BufferedOStream S) (cid : ℕ) (recs : List Record)
      (r : ErrorCode × BufferedOStream S × List Record)
      (p : BatchWritten sink mem format o cid recs r) (succeeded : r.0 ≡ ok) where
    all_written :
        (res : ErrorCode) (o' : BufferedOStream S)
        → AllWritten r.1 r.2 res o'
        → AllWritten o recs res o'
    all_written res o' q = record {
      valid = q.valid;
      ready = q.ready;
      same_limit = q.same_limit ∙ p.same_limit;
      codes = q.codes;
      written = λ h.
          let (bytes, cut, out) = q.written h in
          (
            batch_bytes format cid p.done ++ bytes,
            subst (λ xs. Batched format xs (batch_bytes format cid p.done ++ bytes)) (sym p.split)
                (batch cid p.done r.2 bytes p.same_cid cut),
            out
                ∙ ap (λ t. t ++ (bytes ++ end_mark)) (p.appended succeeded)
                ∙ append_assoc (output sink o) (batch_bytes format cid p.done) (bytes ++ end_mark)
                ∙ ap (λ t. output sink o ++ t)
                    (sym (append_assoc (batch_bytes format cid p.done) bytes end_mark)),
          );
      limit_only = λ h. elim (q.limit_only h) [
        | inl small ↦ inl (omega (arith, small, p.same_limit))
        | inr (before, rest, cut, large) ↦ inr (
          p.done ++ before,
          rest,
          p.split ∙ ap (λ xs. p.done ++ xs) cut ∙ sym (append_assoc p.done before rest),
          subst (λ most. TooLarge sink mem format most rest) p.same_limit large,
        )
      ];
      refused = q.refused;
    }

    -- A round makes progress: the records get fewer, or what was pending is flushed.
    fewer : Generous mem → needed r.1 r.2 < needed o recs
    fewer g = count p.done p.split (p.progress g succeeded)
      where
        count :
            (done : List Record)
            → recs ≡ done ++ r.2
            → (done ≡ [] → (0 < o.reserve_pos) × (r.1.reserve_pos ≡ 0))
            → needed r.1 r.2 < needed o recs
        count [] e h = let (before, after) = h refl in let same = ap length e in ground arith
        count (d ∷ done) e h = let same = ap length e ∙ length-append (d ∷ done) r.2 in ground arith

    next_round :
        (rounds : ℕ) (t : Progress S) → CommonEnd r.1 r.2 rounds t → CommonEnd o recs (suc rounds) t
    next_round rounds (finished res o') q = all_written res o' q
    next_round rounds running q = λ g. let less = fewer g in let short = q g in omega arith

  end_marked :
      (rounds : ℕ) (o : BufferedOStream S)
      → IsOut o
      → Ready o.stream
      → Returns
          (CommonEnd o [] rounds)
          (write_end_mark mem (format.serialize) write o >>= λ r. some (finished r.0 r.1))
  unfolding write_end_mark le_bytes
  end_marked rounds o v w =
      Returns-bind (Emitted sink mem o end_mark) (CommonEnd o [] rounds) _ _
        (write_with_lem sink mem (λ m at. store m at end_mark) end_mark o (λ _ _. refl) v w)
        (λ r p. marked o r p)

  -- For every allocator, sink, record format and number of rounds, commonWrite on a valid stream
  -- that is ready does not abort. If it ends with ERR_OK, the output has grown by batches of one
  -- cid each, whose records in order are exactly those given, and the end mark; ERR_LIMIT means a
  -- limit below 8 bytes or a record that does not fit into an empty buffer; ERR_RESOURCE means
  -- that realloc refused. If realloc never refuses, it ends within two rounds for each record, and
  -- one more if bytes are pending.
  pub common_write_lem :
      (rounds : ℕ) (o : BufferedOStream S) (recs : List Record)
      → IsOut o
      → Ready o.stream
      → Returns (CommonEnd o recs rounds) (common_write mem (format.serialize) write rounds o recs)
  unfolding common_write
  common_write_lem zero o [] v w = end_marked zero o v w
  common_write_lem (suc rounds) o [] v w = end_marked (suc rounds) o v w
  common_write_lem zero o (rec ∷ recs) v w = λ g. omega arith
  common_write_lem (suc rounds) o (rec ∷ recs) v w =
      Returns-bind (BatchWritten sink mem format o (rec.key.cid) (rec ∷ recs))
        (CommonEnd o (rec ∷ recs) (suc rounds)) _ _
        (write_cid_batch_lem sink mem format rec recs o v w)
        (λ r p. elim (Bool-cases (is_ok r.0)) [
          | inl e ↦ rw e (
              Returns-mono (CommonEnd r.1 r.2 rounds) (CommonEnd o (rec ∷ recs) (suc rounds)) _
                (common_write_lem rounds r.1 r.2 p.valid p.ready)
                (next_round o (rec.key.cid) (rec ∷ recs) r p (is_ok→eq r.0 e) rounds))
          | inr e ↦ rw e (failed_batch o (rec.key.cid) (rec ∷ recs) r p (is_ok→ne r.0 e))
        ])
