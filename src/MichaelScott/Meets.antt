-- ===== src/MichaelScott/Meets.antt =====
-- lib/michael_scott_queue.hpp: each call of the queue, alone, against that of the abstract bounded queue.
use message_queue_practical.Prelude.{
  ℕ, suc, ◌^◌, ◌<◌, ◌≤◌, ◌≡◌, refl, sym, ◌∙◌, inl, inr, List-cases, false, true, List, [], ◌∷◌,
  ◌++◌, queue_error, arith, length, length-append, none, some, Bool, ap, subst, inc_size, dec_size,
  Bool-cases, dec_lt, if◌then◌else◌,
}
use message_queue_practical.Interface.Role.{DeadlockExceptionPolicy}
use message_queue_practical.Interface.History.{
  Request, send, try_send, read, try_read, size, empty, close, Reply, returned, waits, flag, value,
  option, raised,
}
use message_queue_practical.Interface.Simulation.{bare, Simulation}
use message_queue_practical.Spec.Bounded.{Bounded, bounded, append}
use message_queue_practical.MichaelScott.Machine.{Shared}
use message_queue_practical.MichaelScott.Chain.{Linked}
use message_queue_practical.MichaelScott.Queue
use message_queue_practical.MichaelScott.Queue.{hooks, construct}
use message_queue_practical.MichaelScott.Alone.Finish.{SameRest}
use message_queue_practical.MichaelScott.Solo.{Holds, store_internal_ends, pop_message_ends}

-- The nodes hold the items of the abstract queue, whose number is the size that is counted, and no
-- thread holds the mutex of the retired nodes.
pub record Stands {V : Type 0} (m : Shared V) (q : Bounded V) : Type 0 where
  pub holds : Holds m q.items
  pub counted : m.current_size ≡ length q.items
  pub bounded_by : m.current_size ≤ m.capacity
  pub small : m.capacity < 2 ^ 64
  pub same_capacity : m.capacity ≡ q.capacity
  pub same_closed : m.closed ≡ q.closed
  pub unlocked : m.retired_locked ≡ false

abbrev pub spec : {V : Type 0} → Bounded V → Request V → Reply V × Bounded V
spec = bounded append (queue_error "Closed") (queue_error "Empty and Closed")

module _ {V : Type 0} where
  -- The counters and the flag have no part in the chain.
  Holds-fields :
      (m : Shared V) (q : List V) (n k : ℕ) (b : Bool)
      → Holds m q
      → Holds (record m { current_size = n; successful_operations = k; closed = b }) q
  Holds-fields m q n k b (c, l) = (
    c,
    record {
      head_le_tail = l.head_le_tail;
      tail_le_end = l.tail_le_end;
      end_le_tail = l.end_le_tail;
      at_head = l.at_head;
      at_tail = l.at_tail;
      distinct = l.distinct;
      next_at = l.next_at;
      next_end = l.next_end;
      live = l.live;
      old = l.old;
      items = l.items;
    },
  )

  -- A message more, or one less.
  abbrev pub grown : Shared V → Shared V
  grown m = record m {
    current_size = inc_size m.current_size;
    successful_operations = inc_size m.successful_operations;
  }

  abbrev pub shrunk : Shared V → Shared V
  shrunk m = record m {
    current_size = dec_size m.current_size;
    successful_operations = inc_size m.successful_operations;
  }

  pub Stands-grown :
      (v : V) (m m' : Shared V) (q : Bounded V)
      → Stands m q
      → m.current_size < m.capacity
      → SameRest m m'
      → Holds m' (q.items ++ v ∷ [])
      → Stands (grown m') (record q { items = q.items ++ v ∷ [] })
  Stands-grown v m m' q h room same holds = record {
    holds =
        Holds-fields m' _ (inc_size m'.current_size) (inc_size m'.successful_operations) m'.closed
          holds;
    counted =
        ground (arith, h.counted, h.small, same.size_same, room, length-append q.items (v ∷ []));
    bounded_by = ground (arith, h.small, same.size_same, same.capacity_same, room);
    small = omega (arith, same.capacity_same, h.small);
    same_capacity = same.capacity_same ∙ h.same_capacity;
    same_closed = same.closed_same ∙ h.same_closed;
    unlocked = same.lock_same ∙ h.unlocked;
  }

  pub Stands-shrunk :
      (v : V) (rest : List V) (m m' : Shared V) (q : Bounded V)
      → Stands m q
      → q.items ≡ v ∷ rest
      → SameRest m m'
      → Holds m' rest
      → Stands (shrunk m') (record q { items = rest })
  Stands-shrunk v rest m m' q h e same holds = record {
    holds =
        Holds-fields m' _ (dec_size m'.current_size) (inc_size m'.successful_operations) m'.closed
          holds;
    counted = ground (arith, h.counted, h.small, h.bounded_by, same.size_same, e);
    bounded_by =
        ground (arith, h.counted, h.small, same.size_same, same.capacity_same, h.bounded_by, e);
    small = omega (arith, same.capacity_same, h.small);
    same_capacity = same.capacity_same ∙ h.same_capacity;
    same_closed = same.closed_same ∙ h.same_closed;
    unlocked = same.lock_same ∙ h.unlocked;
  }

module _ {V : Type 0} (policy : DeadlockExceptionPolicy) (moved_from : V → V) (tries : ℕ) where
  abbrev calls : Shared V → Request V → Reply V × Shared V
  calls = bare policy (hooks moved_from (suc (suc tries)))

  abbrev Meets : Shared V → Bounded V → Request V → Type 0
  Meets m q r = ((calls m r).0 ≡ (spec q r).0) × Stands (calls m r).1 (spec q r).1

  size-Meets : (m : Shared V) (q : Bounded V) → Stands m q → Meets m q size
  unfolding bare bounded Queue.size
  size-Meets m q h = ground arith

  empty-Meets : (m : Shared V) (q : Bounded V) → Stands m q → Meets m q empty
  unfolding bare bounded Queue.empty
  empty-Meets m q h = elim (List-cases q.items) [
    | inl e ↦ ground arith
    | inr (v, rest, e) ↦ ground arith
  ]

  -- Both sides give the same reply.
  Meets-from :
      (m m' : Shared V) (q q' : Bounded V) (r : Request V) (reply : Reply V)
      → calls m r ≡ (reply, m')
      → spec q r ≡ (reply, q')
      → Stands m' q'
      → Meets m q r
  Meets-from m m' q q' r reply e f h = (
    ap (λ x. x.0) e ∙ sym (ap (λ x. x.0) f),
    subst (λ x. Stands x (spec q r).1) (sym (ap (λ x. x.1) e))
        (subst (λ x. Stands m' x) (sym (ap (λ x. x.1) f)) h),
  )

  close-Meets : (m : Shared V) (q : Bounded V) → Stands m q → Meets m q close
  unfolding bare bounded Queue.close
  close-Meets m q h = (
    refl,
    record {
      holds = Holds-fields m q.items m.current_size m.successful_operations true h.holds;
      counted = h.counted;
      bounded_by = h.bounded_by;
      small = h.small;
      same_capacity = h.same_capacity;
      same_closed = refl;
      unlocked = h.unlocked;
    },
  )

  send-Meets : (v : V) (m : Shared V) (q : Bounded V) → Stands m q → Meets m q (send v)
  unfolding bare bounded Queue.sync_and_overflow_prework Queue.send_postwork
      Queue.check_send_deadlock_possibility Queue.wait
  send-Meets v m q h =
      let (c, l) = h.holds in
      let (m', goes, same, holds) = store_internal_ends moved_from v m c q.items l in
      elim (Bool-cases m.closed) [
        | inl e ↦
            Meets-from m m q q (send v) (raised (queue_error "Closed"))
              (ground (arith, h.same_closed)) (ground (arith, h.same_closed)) h
        | inr e ↦ elim (dec_lt m.current_size m.capacity) [
          | no full ↦
              Meets-from m m q q (send v) waits (ground arith)
                (ground (arith, h.same_closed, h.same_capacity, h.counted)) h
          | yes room ↦
              Meets-from m (grown m') q (record q { items = q.items ++ v ∷ [] }) (send v) returned
                (ground (arith, goes)) (ground (arith, h.same_closed, h.same_capacity, h.counted))
                (Stands-grown v m m' q h room same holds)
        ]
      ]

  try_send-Meets : (v : V) (m : Shared V) (q : Bounded V) → Stands m q → Meets m q (try_send v)
  unfolding bare bounded Queue.try_sync_and_overflow_prework Queue.send_postwork
      Queue.check_send_deadlock_possibility
  try_send-Meets v m q h =
      let (c, l) = h.holds in
      let (m', goes, same, holds) = store_internal_ends moved_from v m c q.items l in
      elim (Bool-cases m.closed) [
        | inl e ↦
            Meets-from m m q q (try_send v) (flag false) (ground (arith, h.same_closed))
              (ground (arith, h.same_closed)) h
        | inr e ↦ elim (dec_lt m.current_size m.capacity) [
          | no full ↦
              Meets-from m m q q (try_send v) (flag false) (ground arith)
                (ground (arith, h.same_closed, h.same_capacity, h.counted)) h
          | yes room ↦
              Meets-from m (grown m') q (record q { items = q.items ++ v ∷ [] }) (try_send v)
                (flag true) (ground (arith, goes))
                (ground (arith, h.same_closed, h.same_capacity, h.counted))
                (Stands-grown v m m' q h room same holds)
        ]
      ]

  read-Meets : (m : Shared V) (q : Bounded V) → Stands m q → Meets m q read
  unfolding bare bounded Queue.sync_and_underflow_prework Queue.read_postwork
      Queue.check_read_deadlock_possibility Queue.wait
  read-Meets m q h = elim (List-cases q.items) [
    | inl e ↦
        Meets-from m m q q read
          (if m.closed then raised (queue_error "Empty and Closed") else waits)
          (ground (arith, h.counted)) (ground (arith, h.same_closed)) h
    | inr (v, rest, e) ↦
        let (c, l) = h.holds in
        let (m', goes, same, holds) =
          pop_message_ends moved_from tries v m c rest (subst (λ x. Linked m c x) e l) h.unlocked in
        Meets-from m (shrunk m') q (record q { items = rest }) read (value v)
          (ground (arith, goes, h.counted)) (ground arith)
          (Stands-shrunk v rest m m' q h e same holds)
  ]

  try_read-Meets : (m : Shared V) (q : Bounded V) → Stands m q → Meets m q try_read
  unfolding bare bounded Queue.try_sync_and_underflow_prework Queue.read_postwork
      Queue.check_read_deadlock_possibility
  try_read-Meets m q h = elim (List-cases q.items) [
    | inl e ↦ Meets-from m m q q try_read (option none) (ground (arith, h.counted)) (ground arith) h
    | inr (v, rest, e) ↦
        let (c, l) = h.holds in
        let (m', goes, same, holds) =
          pop_message_ends moved_from tries v m c rest (subst (λ x. Linked m c x) e l) h.unlocked in
        Meets-from m (shrunk m') q (record q { items = rest }) try_read (option (some v))
          (ground (arith, goes, h.counted)) (ground arith)
          (Stands-shrunk v rest m m' q h e same holds)
  ]

  pub michael_scott_simulation :
      Simulation policy (hooks moved_from (suc (suc tries))) (λ _. Stands) spec (λ _. Unit {0})
  michael_scott_simulation = record {
    simulates = λ _ m q r _ h. elim r as (λ r. Meets m q r) [
      | send v ↦ send-Meets v m q h
      | try_send v ↦ try_send-Meets v m q h
      | read ↦ read-Meets m q h
      | try_read ↦ try_read-Meets m q h
      | size ↦ size-Meets m q h
      | empty ↦ empty-Meets m q h
      | close ↦ close-Meets m q h
    ];
  }
