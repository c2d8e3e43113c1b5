-- ===== src/Circular/Overwrite/Refine.antt =====
-- lib/circular/circular_overwrite_oldest_message_queue.hpp: the queue against the abstract queue that
-- keeps the latest messages.
use message_queue_practical.Prelude.{
  ℕ, suc, ◌-◌, ◌^◌, ◌≤◌, ◌<◌, ◌≡◌, refl, ap, subst, ◌∙◌, inl, inr, Bool, true, false, List, [], ◌∷◌,
  ◌++◌, arith, length, List-cases, dec_lt,
}
use message_queue_practical.Interface.Role.{
  ThreadAccessCategory, DeadlockExceptionPolicy, ThreadRole, Roles,
}
use message_queue_practical.Interface.History.{
  Request, send, try_send, read, try_read, size, empty, close, Reply, run, returned, flag,
}
use message_queue_practical.Interface.Simulation.{
  bare, Simulation, replies, Sticks, IsPlain, Follows, run_simulates,
}
use message_queue_practical.Spec.Bounded.{Bounded as BoundedQueue}
use message_queue_practical.Spec.Latest.{latest, push_latest}
use message_queue_practical.Circular.Semaphore.{max_count}
use message_queue_practical.Circular.Sync.Ops.{SyncOps}
use message_queue_practical.Circular.Sync.Laws.{ReadLaws, OverwriteLaws}
use message_queue_practical.Circular.Queue
use message_queue_practical.Circular.Queue.{Circular, Values, construct}
use message_queue_practical.Circular.Bounded.Refine.{
  Stands, Allowed, size-Meets, empty-Meets, read-Meets, try_read-Meets,
}
use message_queue_practical.Circular.Overwrite.{hooks}
use message_queue_practical.Circular.Overwrite.Sends.{Sends, free_send, full_send}
use message_queue_practical.Circular.Contents.{Holds, construct-Holds}

module _ {Sync SendGuard ReadGuard V : Type 0} (policy : DeadlockExceptionPolicy)
    (ops : SyncOps Sync SendGuard ReadGuard) (category : ThreadAccessCategory) (values : Values V)
    (Ready : Sync → ℕ → ℕ → ℕ → ℕ → Type 0) (patient : Bool) (cap : ℕ) where
  abbrev Self : Type 0
  Self = Circular Sync SendGuard ReadGuard V

  abbrev answer : Self → Request V → Reply V × Self
  answer = bare policy (hooks ops category values 0)

  abbrev Same : ℕ → Self → BoundedQueue V → Type 0
  Same = Stands policy ops category values Ready false patient cap

  -- The call `r` replies as the abstract queue does, and keeps the two together.
  abbrev Meets : ℕ → Self → BoundedQueue V → Request V → Type 0
  Meets n s q r = ((answer s r).0 ≡ (latest q r).0) × Same n (answer s r).1 (latest q r).1

  module _ (n : ℕ) (s : Self) (q : BoundedQueue V) (h : Same (suc n) s q)
      (laws : OverwriteLaws ops Ready false cap) where
    -- The abstract queue after a send, with room and without.
    behind : (v : V) → length q.items < s.capacity → q.items ++ v ∷ [] ≡ (push_latest q v).items
    behind v room = ground (arith, h.same_capacity)

    instead :
        (v x : V) (rest : List V)
        → q.items ≡ x ∷ rest
        → ¬ (length q.items < s.capacity)
        → rest ++ v ∷ [] ≡ (push_latest q v).items
    instead v x rest e full = ground (arith, h.same_capacity)

    abbrev Sent : V → Type 0
    Sent v =
        (s1 : Self) × (s2 : Self) × (reads : ℕ) × Sends ops category values Ready cap laws n s v
          (push_latest q v).items reads h.writes s1 s2

    Sent-free : (v : V) → length q.items < s.capacity → Sent v
    Sent-free v room =
        let left : s.capacity - length q.items ≡ suc (s.capacity - suc (length q.items)) =
          omega arith in
        let (g, s1, s2, acquire, try, moved, index, destroyed, ready) =
          laws.grants_free s.sync (s.capacity - suc (length q.items)) (length q.items) h.writes
            h.reads
            (subst (λ f. Ready s.sync f (length q.items) h.writes h.reads) left h.holds.ready)
            (omega (arith, h.holds.fits, h.holds.small)) in
        let (q1, q2, parts) =
          free_send ops category values Ready cap laws n s v q.items h.reads h.writes h.holds s1 s2
            g acquire try moved room index destroyed ready in
        (
          q1,
          q2,
          h.reads,
          subst (λ l. Sends ops category values Ready cap laws n s v l h.reads h.writes q1 q2)
              (behind v room) parts,
        )

    Sent-full :
        (v x : V) (rest : List V) → q.items ≡ x ∷ rest → ¬ (length q.items < s.capacity) → Sent v
    Sent-full v x rest e full =
        let holds =
          subst (λ l. Holds ops category values Ready false (suc n) s l h.reads h.writes) e
            h.holds in
        let same : length (x ∷ rest) ≡ s.capacity =
          omega (arith, holds.fits, ap (λ l. length l) e) in
        let (g, s1, s2, acquire, try, moved, index, destroyed, ready) =
          laws.grants_full s.sync (length (x ∷ rest)) h.writes h.reads
            (subst (λ f. Ready s.sync f (length (x ∷ rest)) h.writes h.reads) (omega (arith, same))
              holds.ready)
            (omega (arith, holds.fits, holds.small)) in
        let (q1, q2, parts) =
          full_send ops category values Ready cap laws n s v x rest h.reads h.writes holds s1 s2 g
            acquire try moved same index destroyed ready in
        (
          q1,
          q2,
          suc h.reads,
          subst (λ l. Sends ops category values Ready cap laws n s v l (suc h.reads) h.writes q1 q2)
              (instead v x rest e full) parts,
        )

    -- An overwriting send ends with its message behind the others, all or all but the first.
    sent : (v : V) → Sent v
    sent v = elim (dec_lt (length q.items) s.capacity) [
      | yes room ↦ Sent-free v room
      | no full ↦ elim (List-cases q.items) [
        | inl e ↦ absurd (full (omega (arith, ap (λ l. length l) e, h.holds.positive)))
        | inr (x, rest, e) ↦ Sent-full v x rest e full
      ]
    ]

    kept :
        (v : V)
        → (s2 : Self) × (answer s (send v) ≡ (returned, s2))
          × (answer s (try_send v) ≡ (flag true, s2))
          × Same n s2 (push_latest q v)
    unfolding bare Queue.check_deadlock
    kept v =
        let (s1, s2, reads, parts) = sent v in
        (
          s2,
          ground (arith, parts.acquires, parts.stored),
          ground (arith, parts.tries, parts.stored),
          record {
            same_capacity = parts.same ∙ h.same_capacity;
            is_cap = parts.same ∙ h.is_cap;
            still_open = h.still_open;
            reads = reads;
            writes = suc h.writes;
            holds = parts.holds;
          },
        )

    send-Meets : (v : V) → Meets n s q (send v)
    unfolding latest
    send-Meets v = let (s2, e, _, stands) = kept v in rw e (refl, stands)

    try_send-Meets : (v : V) → Meets n s q (try_send v)
    unfolding latest
    try_send-Meets v = let (s2, _, e, stands) = kept v in rw e (refl, stands)

  pub overwrite_simulation :
      OverwriteLaws ops Ready false cap
      → ReadLaws ops Ready false cap patient
      → Simulation policy (hooks ops category values 0) Same latest (Allowed patient)
  unfolding latest bare
  overwrite_simulation sends takes = record {
    simulates = λ n s q r a h.
        elim r as (λ r. Allowed patient r → Meets n s q r) [
          | send v ↦ λ _. send-Meets n s q h sends v
          | try_send v ↦ λ _. try_send-Meets n s q h sends v
          | read ↦
              λ p. read-Meets policy ops category values Ready false patient cap n s q h takes p
          | try_read ↦
              λ _. try_read-Meets policy ops category values Ready false patient cap n s q h takes
          | size ↦ λ _. size-Meets policy ops category values Ready false patient cap n s q h
          | empty ↦ λ _. empty-Meets policy ops category values Ready false patient cap n s q h
          | close ↦ elim [ ]
        ]
          a;
  }

  -- For any history in which each thread keeps to sending or to reading and does not close, on a
  -- queue just made over a synchronisation object with these laws, the replies are those of the
  -- abstract queue that keeps the latest messages.
  pub keeps_latest :
      (this : ℕ) (sync : Sync) (role_of : ℕ → ThreadRole) (tables : ℕ → Roles)
      (cs : List (ℕ × Request V))
      → OverwriteLaws ops Ready false cap
      → ReadLaws ops Ready false cap patient
      → Ready sync cap 0 0 0
      → 0 < cap
      → cap ≤ max_count
      → length cs < 2 ^ 64
      → ((t : ℕ) → IsPlain (role_of t))
      → ((t : ℕ) → Sticks this (role_of t) (tables t))
      → Follows role_of (Allowed patient) cs
      → run policy this
          (hooks ops category values 0)
          (record { tables = tables; queue = construct ops category values 0 sync cap })
          cs
        ≡ replies latest (record { capacity = cap; items = []; closed = false }) cs
  unfolding construct
  keeps_latest this sync role_of tables cs sends takes ready positive small short plain k f =
      run_simulates policy this (hooks ops category values 0) Same latest (Allowed patient)
        (overwrite_simulation sends takes) role_of plain cs _ _ f k
        (record {
          same_capacity = refl;
          is_cap = refl;
          still_open = refl;
          reads = 0;
          writes = 0;
          holds =
              construct-Holds ops category values Ready false (length cs) sync cap positive small
                short ready;
        })
