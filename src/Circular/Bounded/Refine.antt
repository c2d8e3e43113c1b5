-- ===== src/Circular/Bounded/Refine.antt =====
-- lib/circular/circular_bounded_message_queue.hpp: the queue against the abstract bounded queue.
use message_queue_practical.Prelude.{
  ℕ, suc, ◌-◌, ◌^◌, ◌≤◌, ◌<◌, ◌≡◌, refl, sym, subst, ◌∙◌, inl, inr, Bool, true, false, none, some,
  List, [], ◌∷◌, ok, blocks, foreign, arith, length, List-cases, dec_lt,
}
use message_queue_practical.Interface.Role.{
  ThreadAccessCategory, DeadlockExceptionPolicy, ThreadRole, Roles,
}
use message_queue_practical.Interface.History.{
  Request, send, try_send, read, try_read, size, empty, close, Reply, run, returned, waits, flag,
  value, option,
}
use message_queue_practical.Interface.Simulation.{
  bare, Simulation, replies, Sticks, IsPlain, Follows, run_simulates,
}
use message_queue_practical.Spec.Bounded.{Bounded as BoundedQueue, bounded, append, push}
use message_queue_practical.Circular.Semaphore.{max_count}
use message_queue_practical.Circular.Sync.Ops.{SyncOps}
use message_queue_practical.Circular.Sync.Laws.{ReadLaws, BoundedLaws}
use message_queue_practical.Circular.Queue
use message_queue_practical.Circular.Queue.{Circular, Values, construct}
use message_queue_practical.Circular.Bounded.{hooks}
use message_queue_practical.Circular.Bounded
use message_queue_practical.Circular.Bounded.Sends.{send_parts}
use message_queue_practical.Circular.Contents.{Holds, refused-Holds, construct-Holds, read_parts}

-- A circular queue is never closed here, so the exceptions of a closed queue do not matter.
abbrev pub spec : {V : Type 0} → BoundedQueue V → Request V → Reply V × BoundedQueue V
spec = bounded append foreign foreign

-- The calls that the theorems below speak of: not `Close`, and a blocking `Read` only where one that
-- waits holds no mutex.
abbrev pub Allowed : {V : Type 0} → Bool → Request V → Type 0
Allowed patient close = ⊥
Allowed patient read = patient ≡ true
Allowed patient _ = Unit

module _ {Sync SendGuard ReadGuard V : Type 0} (policy : DeadlockExceptionPolicy)
    (ops : SyncOps Sync SendGuard ReadGuard) (category : ThreadAccessCategory) (values : Values V)
    (Ready : Sync → ℕ → ℕ → ℕ → ℕ → Type 0) (reserving patient : Bool) (cap : ℕ) where
  abbrev Self : Type 0
  Self = Circular Sync SendGuard ReadGuard V

  -- The state `s` stands for the abstract queue `q`, with room for `n` more calls.
  pub record Stands (n : ℕ) (s : Self) (q : BoundedQueue V) : Type 0 where
    pub same_capacity : s.capacity ≡ q.capacity
    pub is_cap : s.capacity ≡ cap
    pub still_open : q.closed ≡ false
    pub reads : ℕ
    pub writes : ℕ
    pub holds : Holds ops category values Ready reserving n s q.items reads writes

  abbrev answer : Self → Request V → Reply V × Self
  answer = bare policy (hooks ops category values 0)

  -- The call `r` replies as the abstract queue does, and keeps the two together.
  abbrev Meets : ℕ → Self → BoundedQueue V → Request V → Type 0
  Meets n s q r = ((answer s r).0 ≡ (spec q r).0) × Stands n (answer s r).1 (spec q r).1

  met :
      (n : ℕ) (s : Self) (q : BoundedQueue V) (r : Request V) (reply : Reply V)
      → {s1 : Self} → {q1 : BoundedQueue V} → answer s r ≡ (reply, s1)
      → spec q r ≡ (reply, q1)
      → Stands n s1 q1
      → Meets n s q r
  met n s q r reply a b c = rw (a, b) (refl, c)

  module _ (n : ℕ) (s : Self) (q : BoundedQueue V) (h : Stands (suc n) s q) where
    -- A call that changes nothing but the synchronisation object.
    stays :
        (s1 : Sync)
        → Ready s1 (s.capacity - length q.items) (length q.items) h.writes h.reads
        → Stands n (record s { sync = s1 }) q
    stays s1 ready = record {
      same_capacity = h.same_capacity;
      is_cap = h.is_cap;
      still_open = h.still_open;
      reads = h.reads;
      writes = h.writes;
      holds =
          refused-Holds ops category values Ready reserving n s q.items h.reads h.writes s1 h.holds
            ready;
    }

    pub size-Meets : Meets n s q size
    unfolding bare bounded Queue.size
    size-Meets = (ground (arith, h.holds.counted), stays s.sync h.holds.ready)

    pub empty-Meets : Meets n s q empty
    unfolding bare bounded Queue.empty
    empty-Meets = elim (List-cases q.items) [
      | inl e ↦ (ground (arith, h.holds.counted), stays s.sync h.holds.ready)
      | inr (v, rest, e) ↦ (ground (arith, h.holds.counted), stays s.sync h.holds.ready)
    ]

    module _ (laws : BoundedLaws ops Ready reserving cap) where
      -- On a full queue a blocking send waits, and TrySend reports false.
      full_refuses :
          (full : ¬ (length q.items < s.capacity))
          → (s1 : Sync) × (ops.acquire_send_bounded_block s.sync ≡ blocks s1)
            × (ops.try_acquire_send_bounded s.sync ≡ ok none s1)
            × Ready s1 (s.capacity - length q.items) (length q.items) h.writes h.reads
      full_refuses full =
          let none_free : s.capacity - length q.items ≡ 0 = omega arith in
          let (s1, blocked, refused, ready) =
            laws.refuses_send s.sync (length q.items) h.writes h.reads (
              subst (λ f. Ready s.sync f (length q.items) h.writes h.reads) none_free
                h.holds.ready) in
          (
            s1,
            blocked,
            refused,
            subst (λ f. Ready s1 f (length q.items) h.writes h.reads) (sym none_free) ready,
          )

      -- With room, the message goes behind the others.
      sent :
          (v : V)
          → length q.items < s.capacity
          → (s2 : Self) × (answer s (send v) ≡ (returned, s2))
            × (answer s (try_send v) ≡ (flag true, s2))
            × Stands n s2 (push append foreign foreign q v)
      unfolding bare Queue.check_deadlock
      sent v room =
          let (s1, s2, parts, same) =
            send_parts ops category values Ready reserving cap laws n s v q.items h.reads h.writes
              h.holds h.is_cap room in
          (
            s2,
            ground (arith, parts.acquires, parts.stored),
            ground (arith, parts.tries, parts.stored),
            record {
              same_capacity = same ∙ h.same_capacity;
              is_cap = same ∙ h.is_cap;
              still_open = h.still_open;
              reads = h.reads;
              writes = suc h.writes;
              holds = parts.holds;
            },
          )

      send-Meets : (v : V) → Meets n s q (send v)
      unfolding bare bounded Queue.check_deadlock Bounded.sync_and_overflow_prework
      send-Meets v = elim (dec_lt (length q.items) s.capacity) [
        | yes room ↦
            let (s2, e, _, stands) = sent v room in
            met n s q (send v) returned e (ground (arith, h.same_capacity, h.still_open)) stands
        | no full ↦
            let (s1, w, _, ready) = full_refuses full in
            met n s q (send v) waits (ground (arith, w))
              (ground (arith, h.same_capacity, h.still_open)) (stays s1 ready)
      ]

      try_send-Meets : (v : V) → Meets n s q (try_send v)
      unfolding bare bounded Queue.check_deadlock Bounded.try_sync_and_overflow_prework
      try_send-Meets v = elim (dec_lt (length q.items) s.capacity) [
        | yes room ↦
            let (s2, _, e, stands) = sent v room in
            met n s q (try_send v) (flag true) e (ground (arith, h.same_capacity, h.still_open))
              stands
        | no full ↦
            let (s1, _, refused, ready) = full_refuses full in
            met n s q (try_send v) (flag false) (ground (arith, refused))
              (ground (arith, h.same_capacity, h.still_open)) (stays s1 ready)
      ]

    module _ (laws : ReadLaws ops Ready reserving cap patient) where
      -- With a message, it is the first that comes out.
      taken :
          (v : V) (rest : List V)
          → q.items ≡ v ∷ rest
          → (s2 : Self) × (answer s read ≡ (value v, s2))
            × (answer s try_read ≡ (option (some v), s2))
            × Stands n s2 (record q { items = rest })
      unfolding bare Queue.check_deadlock Queue.sync_and_underflow_prework
      taken v rest e =
          let (s1, s2, parts, same) =
            read_parts ops category values Ready reserving cap laws n s v rest h.reads h.writes
              (subst (λ l. Holds ops category values Ready reserving (suc n) s l h.reads h.writes) e
                h.holds)
              h.is_cap in
          (
            s2,
            ground (arith, parts.acquires, parts.pops),
            ground (arith, parts.tries, parts.pops),
            record {
              same_capacity = same ∙ h.same_capacity;
              is_cap = same ∙ h.is_cap;
              still_open = h.still_open;
              reads = suc h.reads;
              writes = h.writes;
              holds = parts.holds;
            },
          )

      -- The object of an empty queue has no occupied slot, before and after a refused read.
      none_occupied : q.items ≡ [] → Ready s.sync (s.capacity - length q.items) 0 h.writes h.reads
      none_occupied e =
          subst (λ l. Ready s.sync (s.capacity - length q.items) (length l) h.writes h.reads) e
            h.holds.ready

      still_none :
          (s1 : Sync)
          → q.items ≡ []
          → Ready s1 (s.capacity - length q.items) 0 h.writes h.reads
          → Stands n (record s { sync = s1 }) q
      still_none s1 e ready = stays s1 (
          subst (λ l. Ready s1 (s.capacity - length q.items) (length l) h.writes h.reads) (sym e)
            ready)

      pub read-Meets : patient ≡ true → Meets n s q read
      unfolding bare bounded Queue.check_deadlock Queue.sync_and_underflow_prework
          Queue.acquire_read
      read-Meets p = elim (List-cases q.items) [
        | inl e ↦
            let (s1, blocked, ready) =
              laws.waits_read s.sync _ h.writes h.reads p (none_occupied e) in
            met n s q read waits (ground (arith, blocked)) (ground (arith, h.still_open))
              (still_none s1 e ready)
        | inr (v, rest, e) ↦
            let (s2, a, _, stands) = taken v rest e in
            met n s q read (value v) a (ground (arith, h.still_open)) stands
      ]

      pub try_read-Meets : Meets n s q try_read
      unfolding bare bounded Queue.check_deadlock Queue.try_sync_and_underflow_prework
          Queue.try_acquire_read
      try_read-Meets = elim (List-cases q.items) [
        | inl e ↦
            let (s1, refused, ready) =
              laws.refuses_read s.sync _ h.writes h.reads (none_occupied e) in
            met n s q try_read (option none) (ground (arith, refused)) (ground arith)
              (still_none s1 e ready)
        | inr (v, rest, e) ↦
            let (s2, _, a, stands) = taken v rest e in
            met n s q try_read (option (some v)) a (ground arith) stands
      ]

  pub bounded_simulation :
      BoundedLaws ops Ready reserving cap
      → ReadLaws ops Ready reserving cap patient
      → Simulation policy (hooks ops category values 0) Stands spec (Allowed patient)
  bounded_simulation sends takes = record {
    simulates = λ n s q r a h.
        elim r as (λ r. Allowed patient r → Meets n s q r) [
          | send v ↦ λ _. send-Meets n s q h sends v
          | try_send v ↦ λ _. try_send-Meets n s q h sends v
          | read ↦ λ p. read-Meets n s q h takes p
          | try_read ↦ λ _. try_read-Meets n s q h takes
          | size ↦ λ _. size-Meets n s q h
          | empty ↦ λ _. empty-Meets n s q h
          | close ↦ elim [ ]
        ]
          a;
  }

  -- For any history in which each thread keeps to sending or to reading and does not close, on a
  -- queue just made over a synchronisation object with these laws, the replies are those of the
  -- abstract bounded queue.
  pub refines :
      (this : ℕ) (sync : Sync) (role_of : ℕ → ThreadRole) (tables : ℕ → Roles)
      (cs : List (ℕ × Request V))
      → BoundedLaws ops Ready reserving cap
      → ReadLaws ops Ready reserving cap patient
      → Ready sync cap 0 0 0
      → 0 < cap
      → cap ≤ max_count
      → length cs < 2 ^ 64
      → ((t : ℕ) → IsPlain (role_of t))
      → ((t : ℕ) → Sticks this (role_of t) (tables t))
      → Follows role_of (Allowed patient) cs
      → run policy this
          (hooks ops category values 0)
          (record { tables = tables; queue = construct ops category values 0 sync cap })
          cs
        ≡ replies spec (record { capacity = cap; items = []; closed = false }) cs
  unfolding construct
  refines this sync role_of tables cs sends takes ready positive small short plain k f =
      run_simulates policy this (hooks ops category values 0) Stands spec (Allowed patient)
        (bounded_simulation sends takes) role_of plain cs _ _ f k
        (record {
          same_capacity = refl;
          is_cap = refl;
          still_open = refl;
          reads = 0;
          writes = 0;
          holds =
              construct-Holds ops category values Ready reserving (length cs) sync cap positive
                small short ready;
        })
