-- ===== src/Circular/Contents.antt =====
-- lib/circular/circular_message_queue.hpp: the messages that a circular queue holds, and what the
-- parts of a call do to them.
use native.Mathlib.Nat.{mod-lt, sub-zero}
use message_queue_practical.Prelude.{
  ℕ, suc, ◌+◌, ◌-◌, ◌%◌, ◌^◌, ◌≤◌, ◌<◌, ◌≡◌, refl, ◌∙◌, subst, Bool, true, false, none, some, List,
  [], ◌∷◌, ◌++◌, ok, arith, length, length-set, length-append, length-replicate, Bool-cases, inl,
  inr, if◌then◌else◌, get_elem?-some, set, inc_size,
}
use message_queue_practical.Interface.Role.{ThreadAccessCategory, has_single_producer}
use message_queue_practical.Circular.Semaphore.{max_count}
use message_queue_practical.Circular.Sync.Ops.{SyncOps}
use message_queue_practical.Circular.Sync.Laws.{slot, ReadLaws}
use message_queue_practical.Circular.Window.{Window, Window-set_before, Window-append, next_slot}
use message_queue_practical.Circular.Queue
use message_queue_practical.Circular.Queue.{Circular, Values}

module _ {Sync SendGuard ReadGuard V : Type 0} (ops : SyncOps Sync SendGuard ReadGuard)
    (category : ThreadAccessCategory) (values : Values V) (Ready : Sync → ℕ → ℕ → ℕ → ℕ → Type 0)
    (reserving : Bool) where
  abbrev Self : Type 0
  Self = Circular Sync SendGuard ReadGuard V

  -- The buffer and the counters of `q` hold the messages `items`: `reads` have been read or dropped,
  -- and `writes` sent. Without reserved slots the head and the tail are at these positions. The
  -- counters have room for `n` more calls.
  pub record Contains (n : ℕ) (q : Self) (items : List V) (reads writes : ℕ) : Type 0 where
    pub no_read : q.read_guard ≡ none
    pub positive : 0 < q.capacity
    pub small : q.capacity ≤ max_count
    pub sized : length q.buffer ≡ q.capacity
    pub counted : q.count ≡ length items
    pub fits : length items ≤ q.capacity
    pub window : Window q.buffer q.capacity reads items
    pub written : writes ≡ reads + length items
    pub room : writes + n < 2 ^ 64
    pub head_at : reserving ≡ false → q.head ≡ reads % q.capacity
    pub tail_at : reserving ≡ false → Queue.tail_index ops category values 0 q ≡ writes % q.capacity

  -- Between calls the thread has no guard, and the credits are those of the messages.
  pub record Holds (n : ℕ) (q : Self) (items : List V) (reads writes : ℕ) : Type 0 where
    pub ready : Ready q.sync (q.capacity - length items) (length items) writes reads
    pub no_send : q.send_guard ≡ none
    pub contains : Contains n q items reads writes
    pub open contains use *

  -- A new queue is empty.
  pub construct-Holds :
      (n : ℕ) (sync : Sync) (capacity : ℕ)
      → 0 < capacity
      → capacity ≤ max_count
      → n < 2 ^ 64
      → Ready sync capacity 0 0 0
      → Holds n (Queue.construct ops category values 0 sync capacity) [] 0 0
  unfolding Queue.construct
  construct-Holds n sync capacity p s h r = record {
    ready = rw sub-zero r;
    no_send = refl;
    contains = record {
      no_read = refl;
      positive = p;
      small = s;
      sized = length-replicate capacity values.default;
      counted = refl;
      fits = omega arith;
      window = tt;
      written = refl;
      room = omega arith;
      head_at = λ e. omega arith;
      tail_at = λ e. ground arith;
    };
  }

  -- A call that was refused changes at most the synchronisation object.
  pub refused-Holds :
      (n : ℕ) (q : Self) (items : List V) (reads writes : ℕ) (s1 : Sync)
      → Holds (suc n) q items reads writes
      → Ready s1 (q.capacity - length items) (length items) writes reads
      → Holds n (record q { sync = s1 }) items reads writes
  refused-Holds n q items reads writes s1 h ready = record {
    ready = ready;
    no_send = h.no_send;
    contains = record {
      no_read = h.no_read;
      positive = h.positive;
      small = h.small;
      sized = h.sized;
      counted = h.counted;
      fits = h.fits;
      window = h.window;
      written = h.written;
      room = omega (arith, h.room);
      head_at = h.head_at;
      tail_at = h.tail_at;
    };
  }

  module _ {waits : Bool} (cap : ℕ) (laws : ReadLaws ops Ready reserving cap waits) where
    -- The state in which a read has its guard, and the state after it.
    abbrev reading : Self → Sync → ReadGuard → Self
    reading q s1 g = record q { sync = s1; read_guard = some (ops.move_read g).0 }

    abbrev after_read : Self → Sync → V → List V → ℕ → Self
    after_read q s2 v rest reads = record q {
      sync = s2;
      read_guard = none;
      count = length rest;
      buffer = set q.buffer (reads % q.capacity) (values.moved_from v);
      head = if reserving then q.head else suc reads % q.capacity;
    }

    -- The parts of a read of a queue that holds a message.
    pub record Reads (n : ℕ) (q : Self) (v : V) (rest : List V) (reads writes : ℕ) (q1 q2 : Self)
        : Type 0 where
      pub acquires : Queue.acquire_read ops category values 0 q ≡ ok tt q1
      pub tries : Queue.try_sync_and_underflow_prework ops category values 0 q ≡ ok true q1
      pub pops : Queue.pop_message ops category values 0 q1 ≡ ok v q2
      pub holds : Holds n q2 rest (suc reads) writes

    module _ (n : ℕ) (q : Self) (v : V) (rest : List V) (reads writes : ℕ)
        (h : Holds (suc n) q (v ∷ rest) reads writes) (same : q.capacity ≡ cap) (s1 s2 : Sync)
        (g : ReadGuard) (try : ops.try_acquire_read_operation q.sync ≡ ok (some g) s1)
        (acquire : ops.acquire_read_operation q.sync ≡ ok g s1)
        (moved : ops.destroy_read (ops.move_read g).1 s1 ≡ ok tt s1)
        (index : ops.read_reserved_index (ops.move_read g).0 ≡ slot reserving cap reads)
        (destroyed : ops.destroy_read (ops.move_read g).0 s1 ≡ ok tt s2) where
      enters : Queue.acquire_read ops category values 0 q ≡ ok tt (reading q s1 g)
      unfolding Queue.acquire_read
      enters = ground (arith, h.no_read)

      enters_try :
          Queue.try_sync_and_underflow_prework ops category values 0 q ≡ ok true (reading q s1 g)
      unfolding Queue.try_sync_and_underflow_prework
      enters_try = ground (arith, h.no_read, h.counted)

      next : reserving ≡ false → inc_size q.head % q.capacity ≡ suc reads % q.capacity
      next e = rw (h.head_at e) (
          next_slot q.capacity reads
            (omega (arith, mod-lt reads {m = q.capacity} h.positive, h.small)))

      pops :
          Queue.pop_message ops category values 0 (reading q s1 g)
          ≡ ok v (after_read q s2 v rest reads)
      unfolding Queue.pop_message
      pops = elim (Bool-cases reserving) [
        | inl e ↦ ground (arith, h.window.0, h.counted)
        | inr e ↦ ground (arith, h.window.0, h.counted, h.head_at e, next e)
      ]

      after :
          Ready s2 (suc (q.capacity - length (v ∷ rest))) (length rest) writes (suc reads)
          → Holds n (after_read q s2 v rest reads) rest (suc reads) writes
      after ready = record {
        ready =
            subst (λ f. Ready s2 f (length rest) writes (suc reads)) (omega (arith, h.fits)) ready;
        no_send = h.no_send;
        contains = record {
          no_read = refl;
          positive = h.positive;
          small = h.small;
          sized = length-set q.buffer (reads % q.capacity) (values.moved_from v) ∙ h.sized;
          counted = refl;
          fits = omega (arith, h.fits);
          window =
              Window-set_before q.buffer q.capacity rest (suc reads) reads (values.moved_from v)
                (omega arith) (omega (arith, h.fits)) h.window.1;
          written = omega (arith, h.written);
          room = omega (arith, h.room);
          head_at = λ e. rw e;
          tail_at = h.tail_at;
        };
      }

    -- A read of a queue that holds a message takes the first one.
    pub read_parts :
        (n : ℕ) (q : Self) (v : V) (rest : List V) (reads writes : ℕ)
        → Holds (suc n) q (v ∷ rest) reads writes
        → q.capacity ≡ cap
        → (q1 : Self) × (q2 : Self) × Reads n q v rest reads writes q1 q2
          × (q2.capacity ≡ q.capacity)
    read_parts n q v rest reads writes h same =
        let (g, s1, s2, acquire, try, moved, index, destroyed, ready) =
          laws.grants_read q.sync (q.capacity - length (v ∷ rest)) (length rest) writes reads
            h.ready (omega (arith, h.fits, h.small)) (omega (arith, h.written, h.room)) in
        let given =
          enters n q v rest reads writes h same s1 s2 g try acquire moved index destroyed in
        (
          reading q s1 g,
          after_read q s2 v rest reads,
          record {
            acquires = given;
            tries =
                enters_try n q v rest reads writes h same s1 s2 g try acquire moved index destroyed;
            pops = pops n q v rest reads writes h same s1 s2 g try acquire moved index destroyed;
            holds =
                after n q v rest reads writes h same s1 s2 g try acquire moved index destroyed
                  ready;
          },
          refl,
        )

  -- The state after a message went to position `writes` under the guard that `q` has.
  abbrev pub after_send : Self → Sync → V → ℕ → Self
  after_send q s2 v writes = record q {
    sync = s2;
    send_guard = none;
    count = suc q.count;
    buffer = set q.buffer (writes % q.capacity) v;
    tail =
        if reserving
        then q.tail
        else if has_single_producer category
        then suc writes % q.capacity
        else q.tail;
    tail_atomic =
        if reserving
        then q.tail_atomic
        else if has_single_producer category
        then q.tail_atomic
        else suc writes % q.capacity;
  }

  pub stores :
      (q : Self) (v : V) (writes : ℕ) (g : SendGuard) (s2 : Sync)
      → q.send_guard ≡ some g
      → ops.send_reserved_index g ≡ slot reserving q.capacity writes
      → ops.destroy_send g q.sync ≡ ok tt s2
      → length q.buffer ≡ q.capacity
      → 0 < q.capacity
      → q.capacity ≤ max_count
      → q.count ≤ max_count
      → (reserving ≡ false → Queue.tail_index ops category values 0 q ≡ writes % q.capacity)
      → Queue.store_message ops category values 0 v q ≡ ok tt (after_send q s2 v writes)
  unfolding Queue.store_message
  stores q v writes g s2 guard index destroyed sized positive small few tail_at =
      let (old, there) = get_elem?-some q.buffer (writes % q.capacity) inside in
      elim (Bool-cases reserving) [
        | inl e ↦ ground arith
        | inr e ↦ ground (arith, tail_at e, next e)
      ]
    where
      inside : writes % q.capacity < length q.buffer
      inside = omega (arith, mod-lt writes {m = q.capacity} positive)

      next :
          reserving ≡ false
          → inc_size (Queue.tail_index ops category values 0 q) % q.capacity
            ≡ suc writes % q.capacity
      next e = rw (tail_at e) (next_slot q.capacity writes (omega arith))

  -- A message sent to a queue that is not full goes behind the others.
  pub after_send-Holds :
      (n : ℕ) (q : Self) (v : V) (items : List V) (reads writes : ℕ) (s2 : Sync)
      → Contains (suc n) q items reads writes
      → length items < q.capacity
      → Ready s2 (q.capacity - suc (length items)) (suc (length items)) (suc writes) reads
      → Holds n (after_send q s2 v writes) (items ++ v ∷ []) reads (suc writes)
  after_send-Holds n q v items reads writes s2 h room ready =
      let longer : length (items ++ v ∷ []) ≡ suc (length items) =
        omega (arith, length-append items (v ∷ [])) in
      record {
        ready = rw longer ready;
        no_send = refl;
        contains = record {
          no_read = h.no_read;
          positive = h.positive;
          small = h.small;
          sized = length-set q.buffer (writes % q.capacity) v ∙ h.sized;
          counted = omega (arith, h.counted);
          fits = omega arith;
          window =
              Window-append q.buffer q.capacity items reads writes v h.sized h.written room
                h.window;
          written = omega (arith, h.written);
          room = omega (arith, h.room);
          head_at = h.head_at;
          tail_at = λ e. elim (Bool-cases (has_single_producer category)) [
            | inl f ↦ rw (f, e)
            | inr f ↦ rw (f, e)
          ];
        };
      }
