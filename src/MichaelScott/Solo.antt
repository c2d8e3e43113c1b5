-- ===== src/MichaelScott/Solo.antt =====
-- lib/michael_scott_queue.hpp: a store or a pop that runs alone, whatever calls the other threads have
-- stopped in.
use message_queue_practical.Prelude.{
  ℕ, zero, suc, ◌≡◌, refl, sym, ◌∙◌, ap, subst, true, false, none, some, List, [], ◌∷◌, ◌++◌, ok,
  blocks, arith, ◌==◌, ==_iff, ne→==-false, Bool-cases, inl, inr,
}
use message_queue_practical.MichaelScott.Machine.{
  Shared, Attempts, Pc, pop_load_head, pop_retire, store_allocate, store_load_tail, stored, popped,
  missed, step, allocated, taken,
}
use message_queue_practical.MichaelScott.Chain.{Chain, Linked}
use message_queue_practical.MichaelScott.Moves.{Linked-outside}
use message_queue_practical.MichaelScott.Alone.{
  alone, alone-step, alone-done, Turns, pop_up_to_lock, pop_section, pop_waits, pop_empty,
  pop_lagging,
}
use message_queue_practical.MichaelScott.Alone.Finish.{
  live_head, next_of, next_last, SameRest, stores_from, ends_at, Effect-has_put, Effect-has_taken,
  Effect-nothing,
}
use message_queue_practical.MichaelScott.Queue.{
  store_internal, try_store_internal, try_pop_once, pop_message,
}

-- The nodes are chained, and hold these values.
abbrev pub Holds : {V : Type 0} → Shared V → List V → Type 0
Holds m q = (c : Chain) × Linked m c q

module _ {V : Type 0} (moved_from : V → V) where
  store_alone :
      (k k' k'' : Attempts)
      → Turns moved_from k k'
      → Turns moved_from k' k''
      → (v : V) (m : Shared V) (c : Chain) (q : List V) → Linked m c q
      → (m' : Shared V) × (alone moved_from 11 (store_allocate v k) m ≡ ok (stored v true) m')
        × SameRest m m'
        × Holds m' (q ++ v ∷ [])
  unfolding step
  store_alone k k' k'' first second v m c q l =
      let m1 : Shared V = record (allocated m.fresh v m) { fresh = suc m.fresh } in
      let l1 : Linked m1 c q =
        Linked-outside m c q l m.fresh (record { value = v; next = none; live = true })
          (suc m.fresh) (omega arith) (λ i h e. omega (arith, l.old i h)) in
      let (m', goes, rest) = stores_from moved_from k k' k'' first second v m.fresh m1 c q l1 in
      let all : alone moved_from 11 (store_allocate v k) m ≡ ok (stored v true) m' =
        alone-step moved_from 10 (store_allocate v k) (store_load_tail v m.fresh k) m m1 refl refl
        ∙ goes in
      let (c', q', ph', l', h, e) =
        ends_at moved_from 11 (store_allocate v k) (stored v true) m m' c q l refl all in
      (
        m',
        all,
        record {
          size_same = rest.size_same;
          capacity_same = rest.capacity_same;
          closed_same = rest.closed_same;
          done_same = rest.done_same;
          lock_same = rest.lock_same;
        },
        (c', subst (λ x. Linked m' c' x) (Effect-has_put v e h) l'),
      )

  -- A store ends, reports success and has appended the value.
  pub store_internal_ends :
      (v : V) (m : Shared V) (c : Chain) (q : List V)
      → Linked m c q
      → (m' : Shared V) × (store_internal moved_from v m ≡ ok tt m')
        × SameRest m m'
        × Holds m' (q ++ v ∷ [])
  unfolding store_internal step
  store_internal_ends v m c q l =
      let (m', goes, rest, holds) =
        store_alone none none none (λ v new m. refl) (λ v new m. refl) v m c q l in
      (m', ground (arith, goes), rest, holds)

  pub try_store_internal_ends :
      (v : V) (m : Shared V) (c : Chain) (q : List V)
      → Linked m c q
      → (m' : Shared V) × (try_store_internal moved_from v m ≡ ok true m')
        × SameRest m m'
        × Holds m' (q ++ v ∷ [])
  unfolding try_store_internal step
  try_store_internal_ends v m c q l =
      let (m', goes, rest, holds) =
        store_alone (some 64) (some 63) (some 62) (λ v new m. refl) (λ v new m. refl) v m c q l in
      (m', rw goes, rest, holds)

  -- A try on a queue that is not empty, with the tail beyond the head.
  pub pop_once_quiet :
      (v : V) (m : Shared V) (c : Chain) (q : List V)
      → Linked m c (v ∷ q)
      → (m.head == m.tail) ≡ false
      → m.retired_locked ≡ false
      → (m' : Shared V) × (try_pop_once moved_from m ≡ ok (some v) m') × SameRest m m' × Holds m' q
  unfolding try_pop_once
  pop_once_quiet v m c q l apart free =
      let next = c.at (suc c.head_pos) in
      let m' : Shared V = record (taken moved_from next (record m { head = next })) {
        retired = m.retired ++ m.head ∷ [];
        retired_locked = false;
      } in
      let w = (m.cells next).value in
      let goes : alone moved_from 8 pop_load_head m ≡ ok (popped w) m' =
        pop_up_to_lock moved_from 2 m next (live_head m c (v ∷ q) l)
          (l.live (suc c.head_pos) (omega (arith, l.items.0)))
          (next_of m c (v ∷ q) l m.head c.head_pos l.at_head l.items.0) apart
        ∙ pop_section moved_from 0 (taken moved_from next (record m { head = next })) m.head w free
        ∙ alone-done moved_from 0 (popped w) m' refl in
      let (c', q', ph', l', h, e) =
        ends_at moved_from 8 pop_load_head (popped w) m m' c (v ∷ q) l refl goes in
      let rest : q ≡ q' = cc (Effect-has_taken w e h) in
      (
        m',
        rw goes (ap (λ x. ok (some x) m') l.items.1),
        record {
          size_same = refl;
          capacity_same = refl;
          closed_same = refl;
          done_same = refl;
          lock_same = sym free;
        },
        (c', subst (λ x. Linked m' c' x) (sym rest) l'),
      )

  alone_none : (m : Shared V) (pc : Pc V) → alone moved_from 0 pc m ≡ ok pc m
  unfolding alone
  alone_none m pc = refl

  -- With the mutex taken, such a try waits for it.
  pub pop_once_waits :
      (v : V) (m : Shared V) (c : Chain) (q : List V)
      → Linked m c (v ∷ q)
      → (m.head == m.tail) ≡ false
      → m.retired_locked ≡ true
      → (m' : Shared V) × (try_pop_once moved_from m ≡ blocks m')
  unfolding try_pop_once
  pop_once_waits v m c q l apart held =
      let next = c.at (suc c.head_pos) in
      let w = (m.cells next).value in
      let m' : Shared V = taken moved_from next (record m { head = next }) in
      let goes : alone moved_from 8 pop_load_head m ≡ ok (pop_retire m.head w) m' =
        pop_up_to_lock moved_from 2 m next (live_head m c (v ∷ q) l)
          (l.live (suc c.head_pos) (omega (arith, l.items.0)))
          (next_of m c (v ∷ q) l m.head c.head_pos l.at_head l.items.0) apart
        ∙ pop_waits moved_from 1 m' m.head w held
        ∙ pop_waits moved_from 0 m' m.head w held
        ∙ alone_none m' (pop_retire m.head w) in
      (m', rw goes)

  -- A try with the tail at the head, one node behind: the tail is moved on, and the try fails.
  pub pop_once_lagging :
      (v : V) (m : Shared V) (c : Chain) (q : List V)
      → Linked m c (v ∷ q)
      → m.tail ≡ m.head
      → (m' : Shared V) × (try_pop_once moved_from m ≡ ok none m')
        × SameRest m m'
        × Holds m' (v ∷ q)
        × ((m'.head == m'.tail) ≡ false)
  unfolding try_pop_once
  pop_once_lagging v m c q l same =
      let next = c.at (suc c.head_pos) in
      let m' : Shared V = record m { tail = next } in
      let goes : alone moved_from 8 pop_load_head m ≡ ok missed m' =
        pop_lagging moved_from 3 m next (live_head m c (v ∷ q) l)
          (next_of m c (v ∷ q) l m.head c.head_pos l.at_head l.items.0) same
        ∙ alone-done moved_from 3 missed m' refl in
      let (c', q', ph', l', h, e) =
        ends_at moved_from 8 pop_load_head missed m m' c (v ∷ q) l refl goes in
      (
        m',
        rw goes,
        record {
          size_same = refl;
          capacity_same = refl;
          closed_same = refl;
          done_same = refl;
          lock_same = refl;
        },
        (c', subst (λ x. Linked m' c' x) (Effect-nothing e h) l'),
        ne→==-false m.head next (λ f. omega (
          arith,
          l.distinct c.head_pos (suc c.head_pos) (omega (arith, l.items.0))
              (omega (arith, l.items.0)) (sym l.at_head ∙ f),
        )),
      )

  -- `PopMessage` on a queue that is not empty needs two tries at most.
  pub pop_message_ends :
      (tries : ℕ) (v : V) (m : Shared V) (c : Chain) (q : List V)
      → Linked m c (v ∷ q)
      → m.retired_locked ≡ false
      → (m' : Shared V) × (pop_message moved_from (suc (suc tries)) m ≡ ok v m')
        × SameRest m m'
        × Holds m' q
  unfolding pop_message
  pop_message_ends tries v m c q l free = elim (Bool-cases (m.head == m.tail)) [
    | inr apart ↦
        let (m', goes, rest, holds) = pop_once_quiet v m c q l apart free in
        (m', ground (arith, goes), rest, holds)
    | inl same ↦
        let (m1, goes1, rest1, (c1, l1), apart) =
          pop_once_lagging v m c q l (sym ((==_iff m.head m.tail).0 same)) in
        let (m', goes, rest, holds) = pop_once_quiet v m1 c1 q l1 apart (rest1.lock_same ∙ free) in
        (
          m',
          ground (arith, goes1, goes),
          record {
            size_same = rest.size_same ∙ rest1.size_same;
            capacity_same = rest.capacity_same ∙ rest1.capacity_same;
            closed_same = rest.closed_same ∙ rest1.closed_same;
            done_same = rest.done_same ∙ rest1.done_same;
            lock_same = rest.lock_same ∙ rest1.lock_same;
          },
          holds,
        )
  ]

  pub pop_message_waits :
      (tries : ℕ) (v : V) (m : Shared V) (c : Chain) (q : List V)
      → Linked m c (v ∷ q)
      → m.retired_locked ≡ true
      → (m' : Shared V) × (pop_message moved_from (suc (suc tries)) m ≡ blocks m')
  unfolding pop_message
  pop_message_waits tries v m c q l held = elim (Bool-cases (m.head == m.tail)) [
    | inr apart ↦ let (m', goes) = pop_once_waits v m c q l apart held in (m', ground (arith, goes))
    | inl same ↦
        let (m1, goes1, rest1, (c1, l1), apart) =
          pop_once_lagging v m c q l (sym ((==_iff m.head m.tail).0 same)) in
        let (m', goes) = pop_once_waits v m1 c1 q l1 apart (rest1.lock_same ∙ held) in
        (m', ground (arith, goes1, goes))
  ]

  -- A try on an empty queue fails and changes nothing.
  pub pop_once_empty :
      (m : Shared V) (c : Chain) → Linked m c [] → try_pop_once moved_from m ≡ ok none m
  unfolding try_pop_once
  pop_once_empty m c l = rw (
      pop_empty moved_from 4 m (live_head m c [] l)
        (next_last m c [] l m.head c.head_pos l.at_head l.items)
      ∙ alone-done moved_from 4 missed m refl)

  -- `PopMessage` on an empty queue spins, however often it tries.
  pub pop_message_spins :
      (tries : ℕ) (m : Shared V) (c : Chain)
      → Linked m c []
      → pop_message moved_from tries m ≡ blocks m
  unfolding pop_message
  pop_message_spins zero m c l = refl
  pop_message_spins (suc tries) m c l =
      ground (arith, pop_once_empty m c l, pop_message_spins tries m c l)
