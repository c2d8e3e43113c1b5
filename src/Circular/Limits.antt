-- ===== src/Circular/Limits.antt =====
-- lib/circular/circular_message_queue.hpp: where a circular queue goes wrong.
use message_queue_practical.Prelude.{
  ℕ, zero, suc, ◌≡◌, ◌<◌, refl, none, some, List, [], ◌∷◌, ok, faults, arith, get_elem?, set,
  inc_size, ◌%◌, inl, inr, Option-cases,
}
use message_queue_practical.Interface.Role.{ThreadAccessCategory}
use message_queue_practical.Circular.Sync.Ops.{SyncOps}
use message_queue_practical.Circular.Queue
use message_queue_practical.Circular.Queue.{Circular, Values}

-- What `n` moves out of a slot leave of a message.
abbrev pub moved : {V : Type 0} → Values V → ℕ → V → V
moved values zero v = v
moved values (suc n) v = moved values n (values.moved_from v)

-- A write to a slot that exists is read back.
get_elem?-set_present :
    {V : Type 0} (xs : List V) (i : ℕ) (v w : V)
    → get_elem? xs i ≡ some v
    → get_elem? (set xs i w) i ≡ some w
get_elem?-set_present [] i v w e = absurd (cc e)
get_elem?-set_present (x ∷ xs) zero v w e = refl
get_elem?-set_present (x ∷ xs) (suc i) v w e = get_elem?-set_present xs i v w e

module _ {Sync SendGuard ReadGuard V : Type 0} (ops : SyncOps Sync SendGuard ReadGuard)
    (category : ThreadAccessCategory) (values : Values V) where
  abbrev Self : Type 0
  Self = Circular Sync SendGuard ReadGuard V

  -- Without slots every store writes outside the buffer.
  no_slot :
      (spurious : ℕ) (v : V) (q : Self)
      → q.buffer ≡ []
      → Queue.store_message ops category values spurious v q ≡ faults
  unfolding Queue.store_message
  no_slot spurious v q e =
      elim (Option-cases (Queue.reserved_send ops category values spurious q.send_guard)) [
        | inl f ↦ ground arith
        | inr (i, f) ↦ ground arith
      ]

  closed_buffer :
      (spurious : ℕ) (q q1 : Self)
      → Queue.close ops category values spurious q ≡ ok tt q1
      → q1.buffer ≡ []
  unfolding Queue.close
  closed_buffer spurious q q1 closed = ground arith

  -- After `Close`, storing a message writes outside the buffer, whatever slot it was given.
  pub close-store_message :
      (spurious : ℕ) (v : V) (q q1 : Self)
      → Queue.close ops category values spurious q ≡ ok tt q1
      → Queue.store_message ops category values spurious v q1 ≡ faults
  close-store_message spurious v q q1 closed =
      no_slot spurious v q1 (closed_buffer spurious q q1 closed)

  abbrev taken : Self → V → Self
  taken q v = record q { buffer = set q.buffer q.head (values.moved_from v) }

  abbrev advanced : Self → Self
  advanced q = record q { head = inc_size q.head % q.capacity }

  -- A failed exchange takes the message again, from the slot that it has moved it out of.
  exchange-moved :
      (spurious n : ℕ) (m v : V) (q : Self)
      → 0 < q.capacity
      → get_elem? q.buffer q.head ≡ some v
      → (q1 : Self) × (Queue.exchange_head ops category values spurious (suc n) m q
          ≡ ok (moved values n v) q1)
  unfolding Queue.exchange_head
  exchange-moved spurious zero m v q p e = (advanced (taken q v), ground arith)
  exchange-moved spurious (suc n) m v q p e =
      let (q1, f) =
        exchange-moved spurious n v (values.moved_from v) (taken q v) p
          (get_elem?-set_present q.buffer q.head v (values.moved_from v) e) in
      (q1, ground arith)

  -- Where the weak compare-exchange of a read without a reserved slot fails `spurious` times with
  -- the head unchanged, on a queue of positive capacity with a message in the slot at its head,
  -- the read returns what that many moves out of the message leave.
  pub spurious-read_head :
      (spurious : ℕ) (v : V) (q : Self)
      → 0 < q.capacity
      → Queue.reserved_read ops category values spurious q.read_guard ≡ none
      → get_elem? q.buffer q.head ≡ some v
      → (q1 : Self) × (Queue.read_head ops category values spurious q
          ≡ ok (moved values spurious v) q1)
  unfolding Queue.read_head
  spurious-read_head zero v q p e f = (advanced (taken q v), ground arith)
  spurious-read_head (suc n) v q p e f =
      let (q1, g) =
        exchange-moved (suc n) n v (values.moved_from v) (taken q v) p
          (get_elem?-set_present q.buffer q.head v (values.moved_from v) f) in
      (q1, ground arith)
