-- ===== src/Cpp/Socket/Transfers.antt =====
-- What Socket::send and Socket::recvAtLeast (cpp/libtstorageclient++/src/Socket.cpp) do in their loops, by what the
-- system calls promise of a connection.
use tstorage_clients.Prelude.{
  List, Option, Returns, Returns-mono, [], ap, append-nil, append_assoc, arith, drop, inl, inr,
  length, length-append, length-drop, none, refl, some, suc, sym, take, take-append-drop, zero, ℕ,
  ◌++◌, ◌+◌, ◌-◌, ◌<◌, ◌∙◌, ◌∷◌, ◌≡◌, ◌≢◌, ◌≤◌, ◌⊎◌,
}
use tstorage_clients.Cpp.DataTypes.{
  ResultT, conn_closed, conn_error, conn_timeout, interrupted, not_connected, result_ok,
}
use tstorage_clients.Cpp.Socket.{
  Answer, Errno, Host, TcpSocket, answered, eagain, econnrefused, econnreset, eintr, enotconn,
  eother, epipe, etimedout, failed, recv_at_least, recv_result, recv_rounds, recv_some, send_all,
  send_result, send_rounds,
}
use mathlib.Core.Path.{subst}

-- What the system promises: `wire` are the bytes that a connection took, and `coming` those that it
-- will give. send(2) takes one byte at least, and a new block has the size asked for.
pub record Platform {W : Type 0} (host : Host W) : Type 0 where
  pub wire : W → ℕ → List ℕ
  pub coming : W → ℕ → List ℕ
  pub send_fd_lem :
      (w : W) (fd : ℕ) (bytes : List ℕ) (n : ℕ)
      → 0 < length bytes
      → (host.send_fd w fd bytes).0 ≡ answered n
      → (0 < n)
        × (n ≤ length bytes)
        × (wire (host.send_fd w fd bytes).1 fd ≡ wire w fd ++ take n bytes)
  pub recv_fd_lem :
      (w : W) (fd most : ℕ) (bytes : List ℕ)
      → (host.recv_fd w fd most).0 ≡ answered bytes
      → (length bytes ≤ most) × (coming w fd ≡ bytes ++ coming (host.recv_fd w fd most).1 fd)
  pub recv_fd_wire : (w : W) (fd most : ℕ) → wire (host.recv_fd w fd most).1 fd ≡ wire w fd
  pub recv_fd_failed :
      (w : W) (fd most : ℕ) (e : Errno)
      → (host.recv_fd w fd most).0 ≡ failed e
      → coming (host.recv_fd w fd most).1 fd ≡ coming w fd
  pub new_block_length :
      (w : W) (n : ℕ) (block : List ℕ) → (host.new_block w n).0 ≡ some block → length block ≡ n

Answer-cases :
    {A : Type 0} (a : Answer A) → ((e : Errno) × (a ≡ failed e)) ⊎ ((x : A) × (a ≡ answered x))
Answer-cases (failed e) = inl (e, refl)
Answer-cases (answered x) = inr (x, refl)

send_result-ne : (e : Errno) → send_result e ≢ result_ok
send_result-ne eagain h = absurd (ground (arith, h))
send_result-ne enotconn h = absurd (ground (arith, h))
send_result-ne epipe h = absurd (ground (arith, h))
send_result-ne econnreset h = absurd (ground (arith, h))
send_result-ne eintr h = absurd (ground (arith, h))
send_result-ne etimedout h = absurd (ground (arith, h))
send_result-ne econnrefused h = absurd (ground (arith, h))
send_result-ne (eother n) h = absurd (ground (arith, h))

module _ {W : Type 0} (host : Host W) (net : Platform host) where
  open net use {wire, coming}

  -- What sending leaves: with OK all the bytes are on the wire.
  abbrev pub AllSent : TcpSocket W → ℕ → List ℕ → ResultT × TcpSocket W → Type 0
  AllSent s fd bytes r =
      (r.1.fd ≡ s.fd) × (r.0 ≡ result_ok → wire r.1.world fd ≡ wire s.world fd ++ bytes)

  pub send_rounds_lem :
      (rounds : ℕ) (s : TcpSocket W) (fd : ℕ) (bytes : List ℕ)
      → length bytes ≤ rounds
      → Returns (AllSent s fd bytes) (send_rounds host rounds s fd bytes)
  unfolding send_rounds
  send_rounds_lem zero s fd [] h = (refl, λ _. sym (append-nil (wire s.world fd)))
  send_rounds_lem (suc rounds) s fd [] h = (refl, λ _. sym (append-nil (wire s.world fd)))
  send_rounds_lem zero s fd (b ∷ bs) h = absurd (omega arith)
  send_rounds_lem (suc rounds) s fd (b ∷ bs) h =
      elim (Answer-cases (host.send_fd s.world fd (b ∷ bs)).0) [
        | inl (e, f) ↦ rw (Returns, f) (refl, λ k. absurd (send_result-ne e k))
        | inr (n, f) ↦
            let (positive, most, out) = net.send_fd_lem s.world fd (b ∷ bs) n (omega arith) f in
            let fewer = length-drop n (b ∷ bs) in
            let s' : TcpSocket W = record s { world = (host.send_fd s.world fd (b ∷ bs)).1 } in
            rw (Returns, f)
              (Returns-mono (AllSent s' fd (drop n (b ∷ bs))) (AllSent s fd (b ∷ bs)) _
                (send_rounds_lem rounds s' fd (drop n (b ∷ bs)) (omega arith))
                λ r p. (
                  p.0,
                  λ k.
                      p.1 k
                      ∙ ap (λ t. t ++ drop n (b ∷ bs)) out
                      ∙ append_assoc (wire s.world fd) (take n (b ∷ bs)) (drop n (b ∷ bs))
                      ∙ ap (λ t. wire s.world fd ++ t) (take-append-drop n (b ∷ bs)),
                ))
      ]

  -- On a socket with a descriptor, Socket::send ends, with a round for each byte. With OK all the
  -- bytes are on the wire, in order.
  pub send_all_lem :
      (s : TcpSocket W) (fd : ℕ) (bytes : List ℕ)
      → s.fd ≡ some fd
      → Returns (AllSent s fd bytes) (send_all host s bytes)
  unfolding send_all
  send_all_lem s fd bytes e =
      subst (Returns (AllSent s fd bytes)) (sym run)
        (send_rounds_lem (length bytes) s fd bytes (omega arith))
    where
      run : send_all host s bytes ≡ send_rounds host (length bytes) s fd bytes
      run =
          ap
            (λ (o : Option ℕ). elim o [
              | none ↦ some (not_connected, s)
              | some fd' ↦ send_rounds host (length bytes) s fd' bytes
            ])
            e

  -- The three ways in which a call of recv ends, on an open socket.
  data Arrival (s : TcpSocket W) (fd most : ℕ) : ResultT × List ℕ × TcpSocket W → Type 0 where
    no_arrival :
        (res : ResultT) (s' : TcpSocket W)
        → (res ≡ conn_timeout) ⊎ (res ≡ interrupted) ⊎ (res ≡ conn_error)
        → s'.fd ≡ s.fd
        → wire s'.world fd ≡ wire s.world fd
        → coming s.world fd ≡ coming s'.world fd
        → Arrival s fd most (res, [], s')
    at_end :
        (s' : TcpSocket W)
        → host.recv_fd s.world fd most ≡ (answered [], s'.world)
        → s'.fd ≡ s.fd
        → wire s'.world fd ≡ wire s.world fd
        → coming s.world fd ≡ coming s'.world fd
        → Arrival s fd most (conn_closed, [], s')
    arrived :
        (b : ℕ) (bs : List ℕ) (s' : TcpSocket W)
        → s'.fd ≡ s.fd
        → wire s'.world fd ≡ wire s.world fd
        → length (b ∷ bs) ≤ most
        → coming s.world fd ≡ (b ∷ bs) ++ coming s'.world fd
        → Arrival s fd most (result_ok, b ∷ bs, s')

  recv_result-cases :
      (e : Errno)
      → (recv_result e ≡ conn_timeout)
        ⊎ (recv_result e ≡ interrupted)
        ⊎ (recv_result e ≡ conn_error)
  recv_result-cases eagain = inl refl
  recv_result-cases eintr = inr (inl refl)
  recv_result-cases enotconn = inr (inr refl)
  recv_result-cases epipe = inr (inr refl)
  recv_result-cases econnreset = inr (inr refl)
  recv_result-cases etimedout = inr (inr refl)
  recv_result-cases econnrefused = inr (inr refl)
  recv_result-cases (eother n) = inr (inr refl)

  recv_some-Arrival :
      (s : TcpSocket W) (fd most : ℕ) → s.fd ≡ some fd → Arrival s fd most (recv_some host s most)
  unfolding recv_some
  recv_some-Arrival s fd most f =
      subst
        (λ (o : Option ℕ). Arrival s fd most (elim o [
          | none ↦ (not_connected, [], s)
          | some fd' ↦ elim (host.recv_fd s.world fd' most).0 [
            | failed e ↦ (
              recv_result e,
              [],
              record s { world = (host.recv_fd s.world fd' most).1; errno = some e },
            )
            | answered [] ↦
                (conn_closed, [], record s { world = (host.recv_fd s.world fd' most).1 })
            | answered (b ∷ bs) ↦
                (result_ok, b ∷ bs, record s { world = (host.recv_fd s.world fd' most).1 })
          ]
        ]))
        (sym f)
        (elim (Answer-cases (host.recv_fd s.world fd most).0) [
          | inl (e, g) ↦ rw g (
              no_arrival (recv_result e) _ (recv_result-cases e) refl
                (net.recv_fd_wire s.world fd most) (sym (net.recv_fd_failed s.world fd most e g)))
          | inr ([], g) ↦ rw g (
              at_end _ (ap (λ a. (a, (host.recv_fd s.world fd most).1)) g) refl
                (net.recv_fd_wire s.world fd most) (net.recv_fd_lem s.world fd most [] g).1)
          | inr (b ∷ bs, g) ↦
              let (few, came) = net.recv_fd_lem s.world fd most (b ∷ bs) g in
              rw g (arrived b bs _ refl (net.recv_fd_wire s.world fd most) few came)
        ])

  -- What receiving leaves, with the bytes `had` before it.
  abbrev pub Came : TcpSocket W → ℕ → ℕ → List ℕ → ResultT × List ℕ × TcpSocket W → Type 0
  Came s fd most had r =
      (r.2.fd ≡ s.fd)
      × (wire r.2.world fd ≡ wire s.world fd)
      × ((more : List ℕ) × (r.1 ≡ had ++ more)
          × (length more ≤ most)
          × (coming s.world fd ≡ more ++ coming r.2.world fd))

  Came-nothing :
      (s s' : TcpSocket W) (fd most : ℕ) (had : List ℕ) (res : ResultT)
      → s'.fd ≡ s.fd
      → wire s'.world fd ≡ wire s.world fd
      → coming s.world fd ≡ coming s'.world fd
      → Came s fd most had (res, had, s')
  Came-nothing s s' fd most had res same kept e =
      (same, kept, ([], sym (append-nil had), omega arith, e))

  -- With OK there are as many bytes as wanted behind `had`, or the connection was closed: recv(2)
  -- gave no byte for the space that was left.
  abbrev pub Sufficient : ℕ → ℕ → ℕ → List ℕ → ResultT × List ℕ × TcpSocket W → Type 0
  Sufficient fd most wanted had r =
      r.0 ≡ result_ok
      → (length had + wanted ≤ length r.1)
        ⊎ ((w : W) × (host.recv_fd w fd (length had + most - length r.1)
              ≡ (answered [], r.2.world)))

  abbrev pub Received : TcpSocket W → ℕ → ℕ → ℕ → List ℕ → ResultT × List ℕ × TcpSocket W → Type 0
  Received s fd most wanted had r = Came s fd most had r × Sufficient fd most wanted had r

  -- The bytes of a round, and those of the rounds behind it.
  Came-then :
      (s s' : TcpSocket W) (fd most : ℕ) (had bs : List ℕ) (t : ResultT × List ℕ × TcpSocket W)
      → s'.fd ≡ s.fd
      → wire s'.world fd ≡ wire s.world fd
      → length bs ≤ most
      → coming s.world fd ≡ bs ++ coming s'.world fd
      → Came s' fd (most - length bs) (had ++ bs) t
      → Came s fd most had t
  Came-then s s' fd most had bs t same kept few came p = (
    p.0 ∙ same,
    p.1 ∙ kept,
    (
      bs ++ p.2.0,
      p.2.1 ∙ append_assoc had bs p.2.0,
      omega (arith, length-append bs p.2.0, p.2.2, few),
      came ∙ ap (λ t. bs ++ t) p.2.3 ∙ sym (append_assoc bs p.2.0 (coming t.2.world fd)),
    ),
  )

  Sufficient-then :
      (fd most wanted : ℕ) (had bs : List ℕ) (t : ResultT × List ℕ × TcpSocket W)
      → length bs ≤ most
      → Sufficient fd (most - length bs) (wanted - length bs) (had ++ bs) t
      → Sufficient fd most wanted had t
  Sufficient-then fd most wanted had bs t few p k = elim (p k) [
    | inl enough ↦ inl (omega (arith, enough, length-append had bs))
    | inr (w, closed) ↦ inr (
      w,
      subst (λ (n : ℕ). host.recv_fd w fd n ≡ (answered [], t.2.world))
          (omega (arith, few, length-append had bs)) closed,
    )
  ]

  -- A round of the loop, by what came, when the rounds behind it keep their promise.
  recv_round :
      (rounds : ℕ) (s : TcpSocket W) (fd wanted most : ℕ) (had : List ℕ)
      (r : ResultT × List ℕ × TcpSocket W)
      → ((n : ℕ)
          → r.2.fd ≡ s.fd
          → n ≤ rounds
          → Returns
              (Received r.2 fd (most - length r.1) n (had ++ r.1))
              (recv_rounds host rounds r.2 n (most - length r.1) (had ++ r.1)))
      → wanted ≤ rounds
      → Arrival s fd most r
      → Returns (Received s fd most (suc wanted) had) (elim (r.0) [
        | conn_closed ↦ some (result_ok, had, r.2)
        | result_ok ↦
            recv_rounds host rounds r.2 (suc wanted - length r.1) (most - length r.1) (had ++ r.1)
        | err ↦ some (err, had, r.2)
      ])
  recv_round rounds s fd wanted most had r again h (no_arrival res s' (inl g) same kept e) =
      rw g (Came-nothing s s' fd most had conn_timeout same kept e, λ k. absurd (ground (arith, k)))
  recv_round rounds s fd wanted most had r again h (no_arrival res s' (inr (inl g)) same kept e) =
      rw g (Came-nothing s s' fd most had interrupted same kept e, λ k. absurd (ground (arith, k)))
  recv_round rounds s fd wanted most had r again h (no_arrival res s' (inr (inr g)) same kept e) =
      rw g (Came-nothing s s' fd most had conn_error same kept e, λ k. absurd (ground (arith, k)))
  recv_round rounds s fd wanted most had r again h (at_end s' closed same kept e) = (
    Came-nothing s s' fd most had result_ok same kept e,
    λ _. inr (
      s.world,
      subst (λ (n : ℕ). host.recv_fd s.world fd n ≡ (answered [], s'.world)) (omega arith) closed,
    ),
  )
  recv_round rounds s fd wanted most had r again h (arrived b bs s' same kept few came) =
      Returns-mono
        (Received s' fd (most - length (b ∷ bs)) (suc wanted - length (b ∷ bs)) (had ++ (b ∷ bs)))
        (Received s fd most (suc wanted) had) _
        (again (suc wanted - length (b ∷ bs)) same (omega arith))
        λ t p. (
          Came-then s s' fd most had (b ∷ bs) t same kept few came p.0,
          Sufficient-then fd most (suc wanted) had (b ∷ bs) t few p.1,
        )

  pub recv_rounds_lem :
      (rounds : ℕ) (s : TcpSocket W) (fd wanted most : ℕ) (had : List ℕ)
      → s.fd ≡ some fd
      → wanted ≤ rounds
      → Returns (Received s fd most wanted had) (recv_rounds host rounds s wanted most had)
  unfolding recv_rounds recv_some
  recv_rounds_lem zero s fd zero most had f h =
      (Came-nothing s s fd most had result_ok refl refl refl, λ _. inl (omega arith))
  recv_rounds_lem (suc rounds) s fd zero most had f h =
      (Came-nothing s s fd most had result_ok refl refl refl, λ _. inl (omega arith))
  recv_rounds_lem zero s fd (suc wanted) most had f h = absurd (omega arith)
  recv_rounds_lem (suc rounds) s fd (suc wanted) most had f h =
      let r = recv_some host s most in
      recv_round rounds s fd wanted most had r
        (λ n same k. recv_rounds_lem rounds r.2 fd n (most - length r.1) (had ++ r.1) (same ∙ f) k)
        (omega arith) (recv_some-Arrival s fd most f)

  -- On a socket with a descriptor, Socket::recvAtLeast ends, with a round for each byte asked for.
  -- With OK it has as many bytes as are asked for, or the connection was closed: recv(2) gave no
  -- byte for the space that was left. What it returns with any result are the next bytes of the
  -- connection, at most as many as there is space for; none is lost, and what was sent stays as it
  -- is.
  pub recv_at_least_lem :
      (s : TcpSocket W) (fd most wanted : ℕ)
      → s.fd ≡ some fd
      → Returns (Received s fd most wanted []) (recv_at_least host s most wanted)
  unfolding recv_at_least
  recv_at_least_lem s fd most wanted f =
      subst (Returns (Received s fd most wanted [])) (sym run)
        (recv_rounds_lem wanted s fd wanted most [] f (omega arith))
    where
      run : recv_at_least host s most wanted ≡ recv_rounds host wanted s wanted most []
      run =
          ap
            (λ (o : Option ℕ). elim o [
              | none ↦ some (not_connected, [], s)
              | some _ ↦ recv_rounds host wanted s wanted most []
            ])
            f

  pub recv_at_least-Came :
      (s : TcpSocket W) (fd most wanted : ℕ)
      → s.fd ≡ some fd
      → Returns (Came s fd most []) (recv_at_least host s most wanted)
  recv_at_least-Came s fd most wanted f =
      Returns-mono (Received s fd most wanted []) (Came s fd most []) _
        (recv_at_least_lem s fd most wanted f) λ r p. p.0
