-- ===== src/MichaelScott/Tries.antt =====
-- lib/michael_scott_queue.hpp: `TryEnqueue` and `TryDequeue`, which do not go through the interface.
use message_queue_practical.Prelude.{
  ◌≡◌, refl, ◌∙◌, ◌⊎◌, inl, inr, Bool, true, false, not, ◌&&◌, List, [], ◌∷◌, ◌++◌, Option, none,
  some, ok, ltb, arith, length, List-cases, Bool-cases, dec_lt, if◌then◌else◌, subst, ◌==◌, ==_iff,
  sym,
}
use message_queue_practical.Spec.Bounded.{Bounded}
use message_queue_practical.MichaelScott.Machine.{Shared}
use message_queue_practical.MichaelScott.Chain.{Linked}
use message_queue_practical.MichaelScott.Alone.Finish.{SameRest}
use message_queue_practical.MichaelScott.Queue.{try_enqueue, try_dequeue}
use message_queue_practical.MichaelScott.Solo.{
  Holds, try_store_internal_ends, pop_once_quiet, pop_once_lagging,
}
use message_queue_practical.MichaelScott.Meets.{Stands, grown, shrunk, Stands-grown, Stands-shrunk}

abbrev accepts : {V : Type 0} → Bounded V → Bool
accepts q = not q.closed && ltb (length q.items) q.capacity

-- `TryEnqueue` on the abstract queue.
abbrev offered : {V : Type 0} → V → Bounded V → Bool × Bounded V
offered v q = if accepts q then (true, record q { items = q.items ++ v ∷ [] }) else (false, q)

-- What a try to pop may give.
abbrev Takes : {V : Type 0} → Shared V → Bounded V → Option V → Shared V → Type 0
Takes m q none m' = Stands m' q × ((q.items ≡ []) ⊎ (m.tail ≡ m.head))
Takes m q (some v) m' =
    (rest : List _) × (q.items ≡ v ∷ rest) × Stands m' (record q { items = rest })

-- Both calls, from the queue `m` and the abstract queue `q`.
abbrev pub TriesMeet : {V : Type 0} → (V → V) → Shared V → Bounded V → V → Type 0
TriesMeet moved_from m q v =
    ((m' : Shared _) × (try_enqueue moved_from v m ≡ ok (offered v q).0 m')
      × Stands m' (offered v q).1
      × ((accepts q ≡ true) ⊎ (m' ≡ m)))
    × ((o : Option _) × (m' : Shared _) × (try_dequeue moved_from m ≡ ok o m') × Takes m q o m')

module _ {V : Type 0} (moved_from : V → V) (m : Shared V) (q : Bounded V) (h : Stands m q) where
  -- Only the counter of retries and the tail have changed.
  Stands-missed : (m' : Shared V) → SameRest m m' → Holds m' q.items → Stands m' q
  Stands-missed m' same holds = record {
    holds = holds;
    counted = omega (arith, same.size_same, h.counted);
    bounded_by = omega (arith, same.size_same, same.capacity_same, h.bounded_by);
    small = omega (arith, same.capacity_same, h.small);
    same_capacity = omega (arith, same.capacity_same, h.same_capacity);
    same_closed = cc (same.closed_same, h.same_closed);
    unlocked = same.lock_same ∙ h.unlocked;
  }

  enqueues :
      (v : V)
      → (m' : Shared V) × (try_enqueue moved_from v m ≡ ok (offered v q).0 m')
        × Stands m' (offered v q).1
        × ((accepts q ≡ true) ⊎ (m' ≡ m))
  unfolding try_enqueue
  enqueues v =
      let (c, l) = h.holds in
      let (m', goes, same, holds) = try_store_internal_ends moved_from v m c q.items l in
      elim (Bool-cases m.closed) [
        | inl e ↦
            let no : accepts q ≡ false = ground (arith, h.same_closed) in
            (m, rw no (ground arith), rw no h, inr refl)
        | inr e ↦ elim (dec_lt m.current_size m.capacity) [
          | no full ↦
              let no : accepts q ≡ false = ground (arith, h.counted, h.same_capacity) in
              (m, rw no (ground arith), rw no h, inr refl)
          | yes room ↦
              let fine : accepts q ≡ true =
                ground (arith, h.same_closed, h.counted, h.same_capacity) in
              (
                grown m',
                rw fine (ground (arith, goes)),
                rw fine (Stands-grown v m m' q h room same holds),
                inl fine,
              )
        ]
      ]

  dequeues :
      (o : Option V) × (m' : Shared V) × (try_dequeue moved_from m ≡ ok o m') × Takes m q o m'
  unfolding try_dequeue
  dequeues = elim (List-cases q.items) [
    | inl e ↦ (none, m, ground (arith, h.counted), (h, inl e))
    | inr (v, rest, e) ↦
        let (c, l) = h.holds in
        let l' : Linked m c (v ∷ rest) = subst (λ x. Linked m c x) e l in
        elim (Bool-cases (m.head == m.tail)) [
          | inr apart ↦
              let (m', goes, same, holds) =
                pop_once_quiet moved_from v m c rest l' apart h.unlocked in
              (
                some v,
                shrunk m',
                ground (arith, goes, h.counted),
                (rest, e, Stands-shrunk v rest m m' q h e same holds),
              )
          | inl same_end ↦
              let behind : m.tail ≡ m.head = sym ((==_iff m.head m.tail).0 same_end) in
              let (m', goes, same, holds, apart) =
                pop_once_lagging moved_from v m c rest l' behind in
              (
                none,
                m',
                ground (arith, goes, h.counted),
                (Stands-missed m' same (subst (λ x. Holds m' x) (sym e) holds), inr behind),
              )
        ]
  ]

-- On a queue that holds the items of an abstract queue `q` of a capacity below 2^64, wherever the
-- tail lags, and with no other thread at work and no spurious failure: `TryEnqueue` appends its
-- value and reports so exactly if the queue is open and not full, and otherwise changes nothing;
-- `TryDequeue`, also on a closed queue, removes and returns the first value, or returns nothing with
-- the contents kept, which it does only if the queue is empty or the tail stands at the head, one node
-- behind.
pub try_enqueue_dequeue :
    {V : Type 0} (moved_from : V → V) (m : Shared V) (q : Bounded V) (v : V)
    → Stands m q
    → TriesMeet moved_from m q v
try_enqueue_dequeue moved_from m q v h = (enqueues moved_from m q h v, dequeues moved_from m q h)
