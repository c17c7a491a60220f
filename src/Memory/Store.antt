-- ===== src/Memory/Store.antt =====
-- Laws of copies within a block of memory.
use tstorage_clients.Prelude.{
  List, Option-cases, ap, append_assoc, arith, drop, drop-add, drop-append_self, drop-take, inl,
  inr, length, length-append, length-drop, length-take, le→leb, none, some, sym, take,
  take-append-drop, take-append_of_le, take-append_self, take-take, ℕ, ◌++◌, ◌+◌, ◌>>=◌, ◌∙◌, ◌≡◌,
  ◌≤◌,
}
use tstorage_clients.Memory.{load, store}
use native.Mathlib.Nat.{add_assoc}
use mathlib.Core.Path.{ap₂}

module _ (mem : List ℕ) (at : ℕ) (bs : List ℕ) (fits : at + length bs ≤ length mem) where
  pub store_fits : store mem at bs ≡ some (take at mem ++ (bs ++ drop (at + length bs) mem))
  unfolding store
  store_fits = rw (le→leb _ _ fits)

module _ (mem : List ℕ) (at : ℕ) (bs new : List ℕ) (e : store mem at bs ≡ some new) where
  pub store-within : at + length bs ≤ length mem
  unfolding store
  store-within = ground arith

  pub store_eq : new ≡ take at mem ++ (bs ++ drop (at + length bs) mem)
  unfolding store
  store_eq = ground arith

  pub length-store : length new ≡ length mem
  length-store = rw store_eq (
      omega (
        arith,
        store-within,
        length-append (take at mem) (bs ++ drop (at + length bs) mem),
        length-append bs (drop (at + length bs) mem),
        length-take at mem,
        length-drop (at + length bs) mem,
      ))

  -- Up to the end of the bytes written, the block holds what it held before them, then them.
  pub take-store : take (at + length bs) new ≡ take at mem ++ bs
  take-store =
      rw (store_eq, ← append_assoc)
        (ap (λ (k : ℕ). take k ((take at mem ++ bs) ++ drop (at + length bs) mem)) reach
          ∙ take-append_self (take at mem ++ bs) _)
    where
      reach : at + length bs ≡ length (take at mem ++ bs)
      reach = omega (arith, store-within, length-append (take at mem) bs, length-take at mem)

  pub drop-store : drop (at + length bs) new ≡ drop (at + length bs) mem
  drop-store =
      rw (store_eq, ← append_assoc)
        (ap (λ (k : ℕ). drop k ((take at mem ++ bs) ++ drop (at + length bs) mem)) reach
          ∙ drop-append_self (take at mem ++ bs) _)
    where
      reach : at + length bs ≡ length (take at mem ++ bs)
      reach = omega (arith, store-within, length-append (take at mem) bs, length-take at mem)

-- Two copies one after the other are one copy of both.
pub store-store :
    (mem : List ℕ) (at : ℕ) (bs cs new : List ℕ)
    → store mem at bs ≡ some new
    → store new (at + length bs) cs ≡ store mem at (bs ++ cs)
store-store mem at bs cs new e =
    unfold store in
    rw (
      length-store mem at bs new e,
      take-store mem at bs new e,
      drop-add (at + length bs) (length cs) new,
      drop-store mem at bs new e,
      ← drop-add (at + length bs) (length cs) mem,
      length-append bs cs,
      add_assoc at (length bs) (length cs),
      append_assoc,
      append_assoc,
    )

pub store_past_end :
    (mem : List ℕ) (at : ℕ) (bs cs : List ℕ)
    → store mem at bs ≡ none
    → store mem at (bs ++ cs) ≡ none
unfolding store
store_past_end mem at bs cs e = ground (arith, length-append bs cs)

pub store-bind :
    (mem : List ℕ) (at : ℕ) (bs cs : List ℕ)
    → (store mem at bs >>= λ new. store new (at + length bs) cs) ≡ store mem at (bs ++ cs)
store-bind mem at bs cs = elim (Option-cases (store mem at bs)) [
  | inl e ↦ rw e (sym (store_past_end mem at bs cs e))
  | inr (new, e) ↦ rw e (store-store mem at bs cs new e)
]

pub load_fits :
    (mem : List ℕ) (at n : ℕ) → at + n ≤ length mem → load mem at n ≡ some (take n (drop at mem))
unfolding load
load_fits mem at n h = rw (le→leb _ _ h)

-- A copy leaves alone what lies below it.
pub take-store_below :
    (mem : List ℕ) (at : ℕ) (bs new : List ℕ) (base : ℕ)
    → store mem at bs ≡ some new
    → base ≤ at
    → take base new ≡ take base mem
take-store_below mem at bs new base e h =
    sym (take-take base (at + length bs) new (omega arith))
    ∙ ap (take base) (take-store mem at bs new e)
    ∙ take-append_of_le base (take at mem) bs
        (omega (arith, length-take at mem, store-within mem at bs new e))
    ∙ take-take base at mem h

pub drop-store_at :
    (mem : List ℕ) (at : ℕ) (bs new : List ℕ)
    → store mem at bs ≡ some new
    → drop at new ≡ bs ++ drop (at + length bs) mem
drop-store_at mem at bs new e =
    let start : at ≡ length (take at mem) =
      omega (arith, length-take at mem, store-within mem at bs new e) in
    ap (drop at) (store_eq mem at bs new e)
    ∙ ap (λ (k : ℕ). drop k (take at mem ++ (bs ++ drop (at + length bs) mem))) start
    ∙ drop-append_self (take at mem) (bs ++ drop (at + length bs) mem)

-- A copy to just before an earlier one.
pub store_before :
    (mem : List ℕ) (at : ℕ) (bs cs new : List ℕ)
    → store mem (at + length bs) cs ≡ some new
    → store new at bs ≡ store mem at (bs ++ cs)
store_before mem at bs cs new e =
    let end = store-within mem (at + length bs) cs new e in
    let first : at + length bs ≤ length new =
      omega (arith, length-store mem (at + length bs) cs new e) in
    let both : at + length (bs ++ cs) ≤ length mem = omega (arith, length-append bs cs) in
    rw (
      store_fits new at bs first,
      store_fits mem at (bs ++ cs) both,
      take-store_below mem (at + length bs) cs new at e (omega arith),
      drop-store_at mem (at + length bs) cs new e,
      length-append bs cs,
      add_assoc at (length bs) (length cs),
      append_assoc,
    )

-- A copy over the middle of a block, seen up to `at + length bs + n`.
pub take-store_over :
    (mem : List ℕ) (at : ℕ) (bs new : List ℕ) (n : ℕ)
    → store mem at bs ≡ some new
    → take (at + length bs + n) new
      ≡ take at mem ++ (bs ++ drop (at + length bs) (take (at + length bs + n) mem))
take-store_over mem at bs new n e =
    sym (take-append-drop (at + length bs) (take (at + length bs + n) new))
    ∙ ap₂ (λ s t. s ++ t)
        (take-take (at + length bs) (at + length bs + n) new (omega arith)
          ∙ take-store mem at bs new e)
        (drop-take (at + length bs) n new
          ∙ ap (take n) (drop-store mem at bs new e)
          ∙ sym (drop-take (at + length bs) n mem))
    ∙ append_assoc (take at mem) bs _
