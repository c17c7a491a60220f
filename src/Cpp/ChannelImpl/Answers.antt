-- ===== src/Cpp/ChannelImpl/Answers.antt =====
-- The answers that readResponse and readAcq of cpp/libtstorageclient++/src/ChannelImpl.cpp read.
use tstorage_clients.Prelude.{
  Bool, Bool-cases, List, Option, Returns, Returns-bind, Returns-mono, ap, arith, drop, inl, inr,
  length, length-drop, length-take, ltb, sym, take, take-append-drop, ℕ, ◌+◌, ◌-◌, ◌==◌, ◌>>=◌, ◌∙◌,
  ◌≡◌, ◌≤◌,
}
use tstorage_clients.Memory.{size_max}
use tstorage_clients.Cpp.Buffer.{Buffer}
use tstorage_clients.Bytes.{le_value}
use tstorage_clients.Cpp.Buffer.Contents.{Sound, to_read}
use tstorage_clients.Cpp.ChannelImpl.{ChannelImpl, skip}
use tstorage_clients.Cpp.ChannelImpl.Moving.{Asked, Live, Requested, request_data_lem, skip_lem}
use tstorage_clients.Cpp.ChannelImpl.Responses.{read_acq}
use tstorage_clients.Cpp.DataTypes.{ResultT, is_result_ok}
use tstorage_clients.Cpp.DataTypes.Results.{is_result_ok→eq}
use tstorage_clients.Cpp.Serializer.{HeaderAcq, get_field, get_header_acq}
use tstorage_clients.Cpp.Serializer.Decode.{Taken, get_field_lem}
use tstorage_clients.Cpp.Socket.{Host}
use tstorage_clients.Cpp.Socket.Transfers.{Platform}

module _ (is_be : Bool) where
  -- What reading bytes off leaves of the buffer.
  abbrev Read : {A : Type 0} → Buffer → List ℕ → ℕ → A × Buffer → Type 0
  Read b m width r = Sound r.1 m × (length (to_read r.1 m) + width ≡ length (to_read b m))

  get_field-Read :
      (b : Buffer) (m : List ℕ) (width : ℕ)
      → Sound b m
      → width ≤ length (to_read b m)
      → Returns (Read b m width) (get_field is_be b width)
  get_field-Read b m width v h =
      Returns-mono
        (Taken is_be b m (le_value (take width (to_read b m))) (drop width (to_read b m)))
        (Read b m width) _
        (get_field_lem is_be b m (take width (to_read b m)) (drop width (to_read b m)) width v
          (sym (take-append-drop width (to_read b m)))
          (omega (arith, length-take width (to_read b m), h)))
        λ r p. (p.sound, omega (arith, ap length p.left, length-drop width (to_read b m), h))

  get_header_acq-Read :
      (b : Buffer) (m : List ℕ)
      → Sound b m
      → 20 ≤ length (to_read b m)
      → Returns (Read b m 20) (get_header_acq is_be b)
  unfolding get_header_acq
  get_header_acq-Read b m v h =
      Returns-bind (Read b m 4) (Read b m 20) _ _ (get_field-Read b m 4 v (omega arith)) λ r p.
        Returns-bind (Read r.1 m 8) (Read b m 20) _ _
          (get_field-Read r.1 m 8 p.0 (omega (arith, p.1)))
          λ t q.
            Returns-bind (Read t.1 m 8) (Read b m 20) _ _
              (get_field-Read t.1 m 8 q.0 (omega (arith, p.1, q.1)))
              λ u o. (o.0, omega (arith, p.1, q.1, o.1))

module _ {W : Type 0} (is_be : Bool) (host : Host W) (net : Platform host) where
  then_Asked :
      (c : ChannelImpl W) (m : List ℕ) (fd size : ℕ) (r t : ResultT × ChannelImpl W)
      (a : Asked host net c m fd size r)
      → Asked host net r.1 a.block' fd size t
      → Asked host net c m fd size t
  then_Asked c m fd size r t a b = record {
    block' = b.block';
    live = b.live;
    same_wire = b.same_wire ∙ a.same_wire;
  }

  -- What readAcq leaves.
  abbrev pub AcqRead : ChannelImpl W → List ℕ → ℕ → ℕ → ResultT × ℕ × ChannelImpl W → Type 0
  AcqRead c m fd size r = Asked host net c m fd size (r.0, r.2)

  pub read_acq_lem :
      (c : ChannelImpl W) (m : List ℕ) (fd size : ℕ)
      → Live c m fd size
      → 20 ≤ size_max - size
      → Returns (AcqRead c m fd size) (read_acq is_be host c)
  unfolding read_acq
  read_acq_lem c m fd size l h =
      Returns-bind (Requested host net c m fd size 20) (AcqRead c m fd size) _ _
        (request_data_lem host net c m fd size 20 l h)
        λ r p. elim (Bool-cases (is_result_ok r.0)) [
          | inr bad ↦ rw bad p.asked
          | inl good ↦ rw good (
              Returns-bind (Read is_be r.1.buffer p.asked.block' 20) (AcqRead c m fd size) _ _
                (get_header_acq-Read is_be r.1.buffer p.asked.block' p.asked.live.sound
                  (p.enough (is_result_ok→eq r.0 good)))
                λ t q. elim (Bool-cases (t.0.acq_id == 0)) [
                  | inr refused ↦ rw refused (
                      skipped r p t q t.0.acq_data_size _ (λ u a. record {
                        block' = a.block';
                        live = a.live;
                        same_wire = a.same_wire;
                      }))
                  | inl fine ↦ elim (Bool-cases (ltb t.0.acq_data_size 8)) [
                    | inl short ↦ rw (fine, short) (headed r p t q)
                    | inr whole ↦
                        rw (fine, whole)
                          (skipped r p t q (t.0.acq_data_size - 8) _ (λ u a. record {
                            block' = a.block';
                            live = a.live;
                            same_wire = a.same_wire;
                          }))
                  ]
                ])
        ]
    where
      -- The header is read off.
      headed :
          {res : ResultT} (r : ResultT × ChannelImpl W) (p : Requested host net c m fd size 20 r)
          (t : HeaderAcq × Buffer)
          → Read is_be r.1.buffer p.asked.block' 20 t
          → Asked host net c m fd size (res, record (r.1) { buffer = t.1 })
      headed r p t q = record {
        block' = p.asked.block';
        live = record {
          sound = q.0;
          connected = p.asked.live.connected;
          sized = sym q.0.whole ∙ p.asked.live.sound.whole ∙ p.asked.live.sized;
        };
        same_wire = p.asked.same_wire;
      }

      skipped :
          (r : ResultT × ChannelImpl W) (p : Requested host net c m fd size 20 r)
          (t : HeaderAcq × Buffer)
          → Read is_be r.1.buffer p.asked.block' 20 t
          → (amount : ℕ) (answer : ResultT × ChannelImpl W → Option (ResultT × ℕ × ChannelImpl W))
          → ((u : ResultT × ChannelImpl W)
              → Asked host net c m fd size u
              → Returns (AcqRead c m fd size) (answer u))
          → Returns
              (AcqRead c m fd size)
              (skip host (record (r.1) { buffer = t.1 }) amount >>= answer)
      skipped r p t q amount answer more =
          let here = headed {res = r.0} r p t q in
          Returns-bind (Asked host net (record (r.1) { buffer = t.1 }) p.asked.block' fd size)
            (AcqRead c m fd size) _ answer
            (skip_lem host net (record (r.1) { buffer = t.1 }) p.asked.block' fd size amount
              here.live)
            λ u a. more u (then_Asked c m fd size (r.0, record (r.1) { buffer = t.1 }) u here a)
