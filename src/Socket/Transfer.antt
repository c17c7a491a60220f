-- ===== src/Socket/Transfer.antt =====
-- What Socket_send and Socket_receive (c/src/Socket.c) do in their loops, by what the
-- system calls promise of a connection.
use tstorage_clients.Prelude.{
  List, Option-cases, Returns, Returns-mono, [], ap, append-nil, append_assoc, arith, drop, inl,
  inr, length, length-append, length-drop, none, refl, some, suc, sym, take, take-append-drop, zero,
  ℕ, ◌++◌, ◌-◌, ◌<◌, ◌∙◌, ◌∷◌, ◌≡◌, ◌≤◌,
}
use tstorage_clients.ErrorCode.{ErrorCode, OkOr, ok, send}
use tstorage_clients.Socket.{System, receive_loop, send_loop}

-- What the system calls promise of a connection: `wire` are the bytes that it took, and `coming`
-- those that it will give. send(2) takes one byte at least.
pub record Network {W : Type 0} (sys : System W) : Type 0 where
  pub wire : W → ℕ → List ℕ
  pub coming : W → ℕ → List ℕ
  pub send_part_lem :
      (w : W) (fd : ℕ) (bytes : List ℕ) (n : ℕ)
      → 0 < length bytes
      → (sys.send_part w fd bytes).0 ≡ some n
      → (0 < n)
        × (n ≤ length bytes)
        × (wire (sys.send_part w fd bytes).1 fd ≡ wire w fd ++ take n bytes)
  pub recv_lem :
      (w : W) (fd most : ℕ) (bytes : List ℕ)
      → (sys.recv w fd most).0 ≡ some bytes
      → (length bytes ≤ most) × (coming w fd ≡ bytes ++ coming (sys.recv w fd most).1 fd)
  pub recv_failed :
      (w : W) (fd most : ℕ)
      → (sys.recv w fd most).0 ≡ none
      → coming (sys.recv w fd most).1 fd ≡ coming w fd

module _ {W : Type 0} (sys : System W) (net : Network sys) where
  open net use {wire, coming}

  -- What the loop of Socket_send does.
  abbrev pub Sent : W → ℕ → List ℕ → ErrorCode × W → Type 0
  Sent w fd bytes r = OkOr send r.0 × (r.0 ≡ ok → wire r.1 fd ≡ wire w fd ++ bytes)

  Sent-more :
      (w w' : W) (fd n : ℕ) (bytes : List ℕ) (r : ErrorCode × W)
      → wire w' fd ≡ wire w fd ++ take n bytes
      → Sent w' fd (drop n bytes) r
      → Sent w fd bytes r
  Sent-more w w' fd n bytes r e p = (
    p.0,
    λ h.
        p.1 h
        ∙ ap (λ t. t ++ drop n bytes) e
        ∙ append_assoc (wire w fd) (take n bytes) (drop n bytes)
        ∙ ap (λ t. wire w fd ++ t) (take-append-drop n bytes),
  )

  -- A round for each byte is enough.
  pub send_loop_lem :
      (rounds : ℕ) (w : W) (fd : ℕ) (bytes : List ℕ)
      → length bytes ≤ rounds
      → Returns (Sent w fd bytes) (send_loop sys rounds w fd bytes)
  unfolding send_loop
  send_loop_lem zero w fd [] h = (inl refl, λ _. sym (append-nil (wire w fd)))
  send_loop_lem (suc rounds) w fd [] h = (inl refl, λ _. sym (append-nil (wire w fd)))
  send_loop_lem zero w fd (b ∷ bs) h = absurd (omega arith)
  send_loop_lem (suc rounds) w fd (b ∷ bs) h = elim (Option-cases (sys.send_part w fd (b ∷ bs)).0) [
    | inl e ↦ rw (Returns, e) (inr refl, λ h'. absurd (ground (arith, h')))
    | inr (n, e) ↦
        let (positive, most, out) = net.send_part_lem w fd (b ∷ bs) n (omega arith) e in
        let fewer = length-drop n (b ∷ bs) in
        rw (Returns, e)
          (Returns-mono (Sent (sys.send_part w fd (b ∷ bs)).1 fd (drop n (b ∷ bs)))
            (Sent w fd (b ∷ bs)) _ (send_loop_lem rounds _ fd (drop n (b ∷ bs)) (omega arith))
            (λ r p. Sent-more w _ fd n (b ∷ bs) r out p))
  ]

  -- What the loop of Socket_receive adds to the bytes it has got.
  abbrev pub Got : W → ℕ → ℕ → List ℕ → List ℕ × W → Type 0
  Got w fd most got r =
      (more : List ℕ) × (r.0 ≡ got ++ more)
      × (length more ≤ most)
      × (coming w fd ≡ more ++ coming r.1 fd)

  Got-more :
      (w w' : W) (fd most : ℕ) (bytes got : List ℕ) (r : List ℕ × W)
      → length bytes ≤ most
      → coming w fd ≡ bytes ++ coming w' fd
      → Got w' fd (most - length bytes) (got ++ bytes) r
      → Got w fd most got r
  Got-more w w' fd most bytes got r h e (more, all, few, rest) = (
    bytes ++ more,
    all ∙ append_assoc got bytes more,
    omega (arith, length-append bytes more),
    e ∙ ap (λ t. bytes ++ t) rest ∙ sym (append_assoc bytes more (coming r.1 fd)),
  )

  Got-nothing :
      (w w' : W) (fd most : ℕ) (got : List ℕ)
      → coming w' fd ≡ coming w fd
      → Got w fd most got (got, w')
  Got-nothing w w' fd most got e = ([], sym (append-nil got), omega arith, sym e)

  -- The bytes received are the next ones of the connection, and no more than asked for.
  pub receive_loop_lem :
      (rounds : ℕ) (w : W) (fd wanted most : ℕ) (got : List ℕ)
      → wanted ≤ rounds
      → Returns (Got w fd most got) (receive_loop sys rounds w fd wanted most got)
  unfolding receive_loop
  receive_loop_lem zero w fd zero most got h = Got-nothing w w fd most got refl
  receive_loop_lem (suc rounds) w fd zero most got h = Got-nothing w w fd most got refl
  receive_loop_lem zero w fd (suc wanted) most got h = absurd (omega arith)
  receive_loop_lem (suc rounds) w fd (suc wanted) most got h =
      elim (Option-cases (sys.recv w fd most).0) [
        | inl e ↦ rw (Returns, e) (Got-nothing w _ fd most got (net.recv_failed w fd most e))
        | inr ([], e) ↦
            rw (Returns, e) (Got-nothing w _ fd most got (sym (net.recv_lem w fd most [] e).1))
        | inr (b ∷ bs, e) ↦
            let (few, came) = net.recv_lem w fd most (b ∷ bs) e in
            rw (Returns, e)
              (Returns-mono
                (Got (sys.recv w fd most).1 fd (most - length (b ∷ bs)) (got ++ (b ∷ bs)))
                (Got w fd most got) _
                (receive_loop_lem rounds _ fd (suc wanted - length (b ∷ bs))
                  (most - length (b ∷ bs)) (got ++ (b ∷ bs)) (omega arith))
                (λ r p. Got-more w _ fd most (b ∷ bs) got r few came p))
      ]
