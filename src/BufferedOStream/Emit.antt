-- ===== src/BufferedOStream/Emit.antt =====
-- What a `_write` function promises that reserves, fills and confirms its bytes.
use tstorage_clients.Prelude.{
  Bool-cases, List, Option, Returns, Returns-bind, ap, append_assoc, arith, inl, inr, length, refl,
  some, sym, ℕ, ◌++◌, ◌+◌, ◌<◌, ◌>>=◌, ◌∙◌, ◌≡◌, ◌≢◌, ◌≤◌, ◌⊎◌,
}
use tstorage_clients.Memory.{Allocator, Generous, store}
use tstorage_clients.ErrorCode.{ErrorCode, is_ok, is_ok→eq, is_ok→ne, limit, ok, resource, send}
use tstorage_clients.BufferedOStream.{BufferedOStream, confirm, write_with}
use tstorage_clients.BufferedOStream.Flush.{Sink, output}
use tstorage_clients.BufferedOStream.Obtain.{Obtained, reserve_flushing_lem}
use tstorage_clients.BufferedOStream.Reserve.{IsOut, confirm_lem, pending}
use tstorage_clients.Memory.Store.{length-store, store_fits, take-store}

module _ {S : Type 0} (sink : Sink S) where
  open sink use {write, Ready, sent}

  -- What writing `bytes` through the stream does.
  pub record Emitted (mem : Allocator) (o : BufferedOStream S) (bytes : List ℕ)
      (r : ErrorCode × BufferedOStream S) : Type 0 where
    pub valid : IsOut r.1
    pub ready : Ready r.1.stream
    pub same_limit : r.1.buffer.max_size ≡ o.buffer.max_size
    pub codes : (r.0 ≡ ok) ⊎ (r.0 ≡ limit) ⊎ (r.0 ≡ resource) ⊎ (r.0 ≡ send)
    pub appended : r.0 ≡ ok → output sink r.1 ≡ output sink o ++ bytes
    pub conserves : r.0 ≢ ok → r.0 ≢ send → output sink r.1 ≡ output sink o
    pub limit_only : r.0 ≡ limit → o.buffer.max_size < length bytes
    pub limited : o.buffer.max_size < length bytes → (r.0 ≡ limit) ⊎ (r.0 ≡ send)
    pub refused : r.0 ≡ resource → ¬ Generous mem

  -- A serializer that fills exactly these bytes.
  abbrev pub Fills : (List ℕ → ℕ → Option (List ℕ)) → List ℕ → Type 0
  Fills serialize bytes = (mem : List ℕ) (at : ℕ) → serialize mem at ≡ store mem at bytes

  abbrev with_block : BufferedOStream S → List ℕ → BufferedOStream S
  with_block o storage = record o { buffer = record (o.buffer) { storage = storage } }

  -- The stream after `bytes` were put at the start of the reservation and confirmed.
  abbrev confirmed : BufferedOStream S → List ℕ → List ℕ → BufferedOStream S
  confirmed o bytes storage = record o {
    buffer = record (o.buffer) { storage = storage };
    reserve_pos = o.reserve_pos + length bytes;
  }

  module _ (o : BufferedOStream S) (bytes storage : List ℕ)
      (e : store o.buffer.storage o.reserve_pos bytes ≡ some storage) where
    confirmed-IsOut :
        IsOut o → o.reserve_pos + length bytes ≤ o.buffer.size → IsOut (confirmed o bytes storage)
    confirmed-IsOut v h = record {
      buffered = record {
        within = v.buffered.within;
        sized = length-store o.buffer.storage o.reserve_pos bytes storage e ∙ v.buffered.sized;
        bounded = v.buffered.bounded;
      };
      in_buffer = h;
    }

    confirmed-output : output sink (confirmed o bytes storage) ≡ output sink o ++ bytes
    confirmed-output =
        ap (λ t. sent o.stream ++ t) (take-store o.buffer.storage o.reserve_pos bytes storage e)
        ∙ sym (append_assoc (sent o.stream) (pending o) bytes)

  module _ (mem : Allocator) where
    -- Past the reservation.
    Obtained-Emitted :
        (serialize : List ℕ → ℕ → Option (List ℕ)) (bytes : List ℕ) (o : BufferedOStream S)
        → Fills serialize bytes
        → (r : ErrorCode × ℕ × BufferedOStream S) → Obtained sink mem o (length bytes) r
        → r.0 ≡ ok
        → Returns (Emitted mem o bytes) (
            serialize r.2.buffer.storage r.1 >>= λ storage.
            confirm
              (record r.2 { buffer = record (r.2.buffer) { storage = storage } })
              (length bytes)
            >>= λ o''. some (ok, o''))
    Obtained-Emitted serialize bytes o fills r p e =
        let fits : r.2.reserve_pos + length bytes ≤ length r.2.buffer.storage =
          omega (arith, p.room e, p.valid.buffered.sized) in
        let stored = store_fits r.2.buffer.storage r.2.reserve_pos bytes fits in
        rw
          (
            fills r.2.buffer.storage r.1,
            p.place e,
            stored,
            confirm_lem (with_block r.2 _) (length bytes) (p.room e),
          )
          (record {
            valid = confirmed-IsOut r.2 bytes _ stored p.valid (p.room e);
            ready = p.ready;
            same_limit = p.same_limit;
            codes = inl refl;
            appended = λ _.
                confirmed-output r.2 bytes _ stored
                ∙ ap (λ t. t ++ bytes) (p.conserves (λ h. ground (arith, e, h)));
            conserves = λ h. absurd (h refl);
            limit_only = λ h. absurd (ground (arith, h));
            limited = λ h. absurd (ground (arith, e, p.limited h));
            refused = λ h. cc;
          })

    failed-Emitted :
        (bytes : List ℕ) (o : BufferedOStream S) (r : ErrorCode × ℕ × BufferedOStream S)
        → Obtained sink mem o (length bytes) r
        → r.0 ≢ ok
        → Emitted mem o bytes (r.0, r.2)
    failed-Emitted bytes o r p e = record {
      valid = p.valid;
      ready = p.ready;
      same_limit = p.same_limit;
      codes = p.codes;
      appended = λ h. absurd (e h);
      conserves = λ _. p.conserves;
      limit_only = p.limit_only;
      limited = p.limited;
      refused = p.refused;
    }

    -- On a valid stream that is ready, reserving, filling and confirming bytes does not abort.
    -- With ERR_OK exactly these bytes are appended to the output; with ERR_LIMIT or ERR_RESOURCE
    -- the output is unchanged, and they have their reasons.
    pub write_with_lem :
        (serialize : List ℕ → ℕ → Option (List ℕ)) (bytes : List ℕ) (o : BufferedOStream S)
        → Fills serialize bytes
        → IsOut o
        → Ready o.stream
        → Returns (Emitted mem o bytes) (write_with mem write serialize (length bytes) o)
    unfolding write_with
    write_with_lem serialize bytes o fills v w =
        Returns-bind (Obtained sink mem o (length bytes)) (Emitted mem o bytes) _ _
          (reserve_flushing_lem sink mem o 0 (length bytes) v w)
          (λ r p. elim (Bool-cases (is_ok r.0)) [
            | inl e ↦ rw e (Obtained-Emitted serialize bytes o fills r p (is_ok→eq r.0 e))
            | inr e ↦ rw e (failed-Emitted bytes o r p (is_ok→ne r.0 e))
          ])
