-- ===== src/Put/Loop.antt =====
-- The loop of writeCidBatch (c/src/RecordsSet.c): which records it puts into the batch, and why it
-- ends there.
use tstorage_clients.Prelude.{
  ==_iff, All, Bool-cases, List, Returns, Returns-bind, Returns-mono, [], ap, append-nil,
  append_assoc, arith, false, inl, inr, refl, some, true, ℕ, ◌++◌, ◌+◌, ◌==◌, ◌∷◌, ◌≡◌, ◌≢◌, ◌⊎◌,
}
use tstorage_clients.Memory.{Allocator}
use tstorage_clients.BufferedOStream.{BufferedOStream}
use tstorage_clients.Put.{Batch, Round, batch_loop, next, stop}
use tstorage_clients.Put.Place.{Filled, RoundEnd, Stops}
use tstorage_clients.Put.Rounds.{place_lem}
use tstorage_clients.Record.{Record}
use tstorage_clients.Record.Format.{Format}

-- The records' bytes, one behind the other.
abbrev pub records_bytes : Format → List Record → List ℕ
records_bytes format [] = []
records_bytes format (r ∷ rs) = format.bytes_of r ++ records_bytes format rs

-- All the records are of this cid.
abbrev pub SameCid : ℕ → List Record → Type 0
SameCid cid = All (λ r. r.key.cid ≡ cid)

module _ {S : Type 0} (mem : Allocator) (format : Format) where
  open format use {serialize, bytes_of}

  -- Why the loop ends behind the bytes `c`: the records are at their end, the next one is of another
  -- cid, or it could not be put there.
  abbrev pub Ends : BufferedOStream S → List ℕ → ℕ → Batch S → List Record → Type 0
  Ends o c cid b [] = b.rec_too_large ≡ false
  Ends o c cid b (r ∷ rest) =
      (b.rec_too_large ≡ false) × (r.key.cid ≢ cid) ⊎ (r.key.cid ≡ cid) × Stops mem format o c r b

  pub record LoopEnd (o : BufferedOStream S) (c : List ℕ) (cid : ℕ) (recs : List Record)
      (t : Batch S × List Record) : Type 0 where
    pub done : List Record
    pub split : recs ≡ done ++ t.1
    pub same_cid : SameCid cid done
    pub filled : Filled mem format o (c ++ records_bytes format done) t.0
    pub ends : Ends o (c ++ records_bytes format done) cid t.0 t.1

  -- The loop ends before the first record of those left.
  Ends-here :
      (o : BufferedOStream S) (c : List ℕ) (cid : ℕ) (b : Batch S) (recs : List Record)
      → Filled mem format o c b
      → Ends o c cid b recs
      → LoopEnd o c cid recs (b, recs)
  Ends-here o c cid b recs f e = record {
    done = [];
    split = refl;
    same_cid = tt;
    filled = rw append-nil f;
    ends = rw append-nil e;
  }

  one_more :
      (o : BufferedOStream S) (c : List ℕ) (cid : ℕ) (r : Record) (recs : List Record)
      (t : Batch S × List Record)
      → r.key.cid ≡ cid
      → LoopEnd o (c ++ bytes_of r) cid recs t
      → LoopEnd o c cid (r ∷ recs) t
  one_more o c cid r recs t same l = record {
    done = r ∷ l.done;
    split = ap (λ rs. r ∷ rs) l.split;
    same_cid = (same, l.same_cid);
    filled = rw (← append_assoc) l.filled;
    ends = rw (← append_assoc) l.ends;
  }

  -- After a round, by the result for the records behind.
  after_round :
      (o : BufferedOStream S) (c : List ℕ) (cid : ℕ) (r : Record) (recs : List Record)
      → r.key.cid ≡ cid
      → ((b : Batch S)
          → Filled mem format o (c ++ bytes_of r) b
          → b.rec_too_large ≡ false
          → Returns (LoopEnd o (c ++ bytes_of r) cid recs) (batch_loop mem serialize cid b recs))
      → (round : Round S) → RoundEnd mem format o c r round
      → Returns (LoopEnd o c cid (r ∷ recs)) (elim round [
        | next b ↦ batch_loop mem serialize cid b recs
        | stop b ↦ some (b, r ∷ recs)
      ])
  after_round o c cid r recs same ih (next b) e =
      Returns-mono (LoopEnd o (c ++ bytes_of r) cid recs) (LoopEnd o c cid (r ∷ recs)) _
        (ih b e.0 e.1) (λ t. one_more o c cid r recs t same)
  after_round o c cid r recs same ih (stop b) e =
      Ends-here o c cid b (r ∷ recs) e.0 (inr (same, e.1))

  -- The loop ends with the records of the cid, from the first on, up to one that is of another cid
  -- or cannot be placed; their bytes stand behind one another in the buffer.
  pub batch_loop_lem :
      (o : BufferedOStream S) (c : List ℕ) (cid : ℕ) (b : Batch S) (recs : List Record)
      → Filled mem format o c b
      → b.rec_too_large ≡ false
      → Returns (LoopEnd o c cid recs) (batch_loop mem serialize cid b recs)
  unfolding batch_loop
  batch_loop_lem o c cid b [] f clear = Ends-here o c cid b [] f clear
  batch_loop_lem o c cid b (r ∷ recs) f clear = rw counts (elim (Bool-cases (r.key.cid == cid)) [
    | inl same ↦ rw same (
        Returns-bind (RoundEnd mem format o c r) (LoopEnd o c cid (r ∷ recs)) _ _
          (place_lem mem format o c b r f clear)
          (after_round o c cid r recs ((==_iff _ _).0 same)
            (λ b'. batch_loop_lem o (c ++ bytes_of r) cid b' recs)))
    | inr other ↦ rw other (Ends-here o c cid b (r ∷ recs) f (inl (clear, ground (arith, other))))
  ])
    where
      counts : (b.batch_size + 8 == b.write_pos) ≡ true
      counts = ground (arith, f.count, f.end_at)
