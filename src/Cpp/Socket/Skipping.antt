-- ===== src/Cpp/Socket/Skipping.antt =====
-- What Socket::skipExactly (cpp/libtstorageclient++/src/Socket.cpp) leaves of the connection.
use tstorage_clients.Prelude.{
  Bool-cases, Option, Returns, Returns-bind, Returns-mono, [], ap, arith, inl, inr, length, ltb,
  ltb→le, min, none, refl, some, suc, sym, zero, ℕ, ◌+◌, ◌-◌, ◌∙◌, ◌≡◌, ◌≤◌,
}
use tstorage_clients.Cpp.DataTypes.{ResultT, is_result_ok, not_connected}
use tstorage_clients.Cpp.Socket.{
  Host, TcpSocket, recv_exactly, skip_buffer_size, skip_exactly, skip_rounds,
}
use mathlib.Core.Path.{subst}
use tstorage_clients.Cpp.Socket.Transfers.{Came, Platform, recv_at_least-Came}

module _ {W : Type 0} (host : Host W) (net : Platform host) where
  open net use {wire}

  -- What skipping leaves of the connection.
  abbrev pub Skipped : TcpSocket W → ℕ → ResultT × ℕ × TcpSocket W → Type 0
  Skipped s fd r = (r.2.fd ≡ s.fd) × (wire r.2.world fd ≡ wire s.world fd)

  skip_rounds_lem :
      (rounds : ℕ) (s : TcpSocket W) (fd missing skipped : ℕ)
      → s.fd ≡ some fd
      → missing ≤ rounds
      → Returns (Skipped s fd) (skip_rounds host rounds s missing skipped)
  unfolding skip_rounds recv_exactly
  skip_rounds_lem zero s fd zero skipped f h = (refl, refl)
  skip_rounds_lem (suc rounds) s fd zero skipped f h = (refl, refl)
  skip_rounds_lem zero s fd (suc missing) skipped f h = absurd (omega arith)
  skip_rounds_lem (suc rounds) s fd (suc missing) skipped f h =
      let amount = min skip_buffer_size (suc missing) in
      Returns-bind (Came host net s fd amount []) (Skipped s fd) _ _
        (recv_at_least-Came host net s fd amount amount f)
        λ r p. elim (Bool-cases (is_result_ok r.0)) [
          | inr bad ↦ rw bad (p.0, p.1)
          | inl good ↦ elim (Bool-cases (ltb (length r.1) amount)) [
            | inl short ↦ rw (good, short) (p.0, p.1)
            | inr whole ↦
                rw (good, whole)
                  (Returns-mono (Skipped r.2 fd) (Skipped s fd) _
                    (skip_rounds_lem rounds r.2 fd (suc missing - length r.1) (skipped + length r.1)
                      (p.0 ∙ f) (omega (arith, ltb→le _ _ whole)))
                    (λ t q. (q.0 ∙ p.0, q.1 ∙ p.1)))
          ]
        ]

  pub skip_exactly_lem :
      (s : TcpSocket W) (fd amount : ℕ)
      → s.fd ≡ some fd
      → Returns (Skipped s fd) (skip_exactly host s amount)
  unfolding skip_exactly
  skip_exactly_lem s fd amount f =
      subst (Returns (Skipped s fd)) (sym run)
        (skip_rounds_lem amount s fd amount 0 f (omega arith))
    where
      run : skip_exactly host s amount ≡ skip_rounds host amount s amount 0
      run =
          ap
            (λ (o : Option ℕ). elim o [
              | none ↦ some (not_connected, 0, s)
              | some _ ↦ skip_rounds host amount s amount 0
            ])
            f
