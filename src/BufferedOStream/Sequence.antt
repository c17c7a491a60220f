-- ===== src/BufferedOStream/Sequence.antt =====
-- Writes that are made one after the other, as the requests are written.
use tstorage_clients.Prelude.{
  Bool-cases, List, Option, Returns, Returns-bind, Returns-mono, ap, arith, if◌then◌else◌, inl, inr,
  length, some, ℕ, ◌++◌, ◌<◌, ◌>>=◌, ◌∙◌, ◌≡◌, ◌≢◌, ◌≤◌, ◌⊎◌,
}
use tstorage_clients.Memory.{Allocator, Generous}
use tstorage_clients.ErrorCode.{ErrorCode, is_ok, is_ok→eq, is_ok→ne, limit, ok, resource, send}
use tstorage_clients.BufferedOStream.{BufferedOStream}
use tstorage_clients.BufferedOStream.Emit.{Emitted}
use tstorage_clients.BufferedOStream.Flush.{Sink, output}
use tstorage_clients.BufferedOStream.Reserve.{IsOut}
use mathlib.Core.List.{append_assoc}

module _ {S : Type 0} (sink : Sink S) where
  open sink use {Ready}

  -- What a sequence of writes does: on success the output has grown by `bytes`; ERR_LIMIT is
  -- returned only where the buffer is smaller than `most`.
  pub record Written (mem : Allocator) (o : BufferedOStream S) (most : ℕ) (bytes : List ℕ)
      (r : ErrorCode × BufferedOStream S) : Type 0 where
    pub valid : IsOut r.1
    pub ready : Ready r.1.stream
    pub same_limit : r.1.buffer.max_size ≡ o.buffer.max_size
    pub codes : (r.0 ≡ ok) ⊎ (r.0 ≡ limit) ⊎ (r.0 ≡ resource) ⊎ (r.0 ≡ send)
    pub appended : r.0 ≡ ok → output sink r.1 ≡ output sink o ++ bytes
    pub limit_only : r.0 ≡ limit → o.buffer.max_size < most
    pub refused : r.0 ≡ resource → ¬ Generous mem

  pub Emitted→Written :
      (mem : Allocator) (o : BufferedOStream S) (most : ℕ) (bytes : List ℕ)
      (r : ErrorCode × BufferedOStream S)
      → length bytes ≤ most
      → Emitted sink mem o bytes r
      → Written mem o most bytes r
  Emitted→Written mem o most bytes r h p = record {
    valid = p.valid;
    ready = p.ready;
    same_limit = p.same_limit;
    codes = p.codes;
    appended = p.appended;
    limit_only = λ e. let small = p.limit_only e in omega arith;
    refused = p.refused;
  }

  -- `if (res != ERR_OK) return res;` and then the next write.
  abbrev pub and_then :
      ErrorCode × BufferedOStream S
      → (BufferedOStream S → Option (ErrorCode × BufferedOStream S))
      → Option (ErrorCode × BufferedOStream S)
  and_then r next = if is_ok r.0 then next r.1 else some r

  both-Written :
      (mem : Allocator) (o : BufferedOStream S) (most : ℕ) (bs cs : List ℕ)
      (r t : ErrorCode × BufferedOStream S)
      → Written mem o most bs r
      → r.0 ≡ ok
      → Written mem r.1 most cs t
      → Written mem o most (bs ++ cs) t
  both-Written mem o most bs cs r t p e q = record {
    valid = q.valid;
    ready = q.ready;
    same_limit = q.same_limit ∙ p.same_limit;
    codes = q.codes;
    appended =
        λ h. q.appended h ∙ ap (λ s. s ++ cs) (p.appended e) ∙ append_assoc (output sink o) bs cs;
    limit_only = λ h. let small = q.limit_only h in omega (arith, p.same_limit);
    refused = q.refused;
  }

  first_failed :
      (mem : Allocator) (o : BufferedOStream S) (most : ℕ) (bs cs : List ℕ)
      (r : ErrorCode × BufferedOStream S)
      → Written mem o most bs r
      → r.0 ≢ ok
      → Written mem o most (bs ++ cs) r
  first_failed mem o most bs cs r p e = record {
    valid = p.valid;
    ready = p.ready;
    same_limit = p.same_limit;
    codes = p.codes;
    appended = λ h. absurd (e h);
    limit_only = p.limit_only;
    refused = p.refused;
  }

  pub then_Written :
      (mem : Allocator) (o : BufferedOStream S) (most : ℕ) (bs cs : List ℕ)
      (m : Option (ErrorCode × BufferedOStream S))
      (next : BufferedOStream S → Option (ErrorCode × BufferedOStream S))
      → Returns (Written mem o most bs) m
      → ((o' : BufferedOStream S)
          → IsOut o'
          → Ready o'.stream
          → o'.buffer.max_size ≡ o.buffer.max_size
          → Returns (Written mem o' most cs) (next o'))
      → Returns (Written mem o most (bs ++ cs)) (m >>= λ r. and_then r next)
  then_Written mem o most bs cs m next first rest =
      Returns-bind (Written mem o most bs) (Written mem o most (bs ++ cs)) m _ first λ r p.
        elim (Bool-cases (is_ok r.0)) [
          | inl e ↦ rw e (
              Returns-mono (Written mem r.1 most cs) (Written mem o most (bs ++ cs)) _
                (rest r.1 p.valid p.ready p.same_limit)
                (λ t. both-Written mem o most bs cs r t p (is_ok→eq r.0 e)))
          | inr e ↦ rw e (first_failed mem o most bs cs r p (is_ok→ne r.0 e))
        ]
