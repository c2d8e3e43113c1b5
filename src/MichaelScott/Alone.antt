-- ===== src/MichaelScott/Alone.antt =====
-- lib/michael_scott_queue.hpp: a thread that runs alone, from the beginning of a store or a pop.
-- Other threads may stand anywhere in calls of theirs.
pub mod Finish
use message_queue_practical.Prelude.{
  ℕ, zero, suc, ◌≤◌, ◌<◌, ◌≡◌, ◌≢◌, refl, sym, ◌∙◌, ap, subst, Bool, true, false, Option, none,
  some, List, [], ◌∷◌, ◌++◌, Outcome, ok, throws, blocks, faults, M, arith, ◌==◌, if◌then◌else◌,
  ==_iff, dec_lt, inc_size,
}
use message_queue_practical.MichaelScott.Machine.{
  Shared, Attempts, Pc, pop_load_head, store_allocate, store_load_tail, store_load_next,
  store_reload_tail, store_link, store_swing, store_help, store_retry, stored, pop_load_tail,
  pop_load_next, pop_reload_head, pop_help, pop_swing, pop_take, pop_retire, pop_unlock, popped,
  missed, step, allocated, linked, taken,
}
use message_queue_practical.MichaelScott.Chain.{Chain, Linked, Follows, longer, shorter}
use message_queue_practical.MichaelScott.Local.{Phase, nothing, Mine}
use message_queue_practical.MichaelScott.Moves.{Linked-noted, Linked-swung, swung_chain}
use message_queue_practical.MichaelScott.Link.{Linked-linked, Follows-linked}
use message_queue_practical.MichaelScott.System.{is_done}

module _ {V : Type 0} (moved_from : V → V) where
  go_on : (Pc V → M (Shared V) (Pc V)) → Outcome (Shared V) (Pc V) → Outcome (Shared V) (Pc V)
  go_on rest (ok pc m) = rest pc m
  go_on rest (throws e m) = throws e m
  go_on rest (blocks m) = blocks m
  go_on rest faults = faults

  -- At most so many steps, until the call is done; no weak compare-exchange fails spuriously.
  unfoldable pub alone : ℕ → Pc V → M (Shared V) (Pc V)
  unfolding go_on
  alone zero pc m = ok pc m
  alone (suc n) pc m = elim (is_done pc) [
    | true ↦ ok pc m
    | false ↦ go_on (alone n) (step moved_from false pc m)
  ]

  pub alone-step :
      (n : ℕ) (pc pc' : Pc V) (m m' : Shared V)
      → is_done pc ≡ false
      → step moved_from false pc m ≡ ok pc' m'
      → alone (suc n) pc m ≡ alone n pc' m'
  unfolding alone
  alone-step n pc pc' m m' e f = ground arith

  pub alone-done : (n : ℕ) (pc : Pc V) (m : Shared V) → is_done pc ≡ true → alone n pc m ≡ ok pc m
  unfolding alone
  alone-done zero pc m e = refl
  alone-done (suc n) pc m e = ground arith

  -- A store with `k` turns of its loop left makes one, and has `k'` left then.
  abbrev pub Turns : Attempts → Attempts → Type 0
  Turns k k' =
      (v : V) (new : ℕ) (m : Shared V)
      → step moved_from false (store_load_tail v new k) m ≡ ok (store_load_next v new m.tail k') m

  module _ (n : ℕ) (m : Shared V) (v : V) (new : ℕ) (k k' : Attempts) (turns : Turns k k') where
    -- The tail is the last node: the new node is linked, and the tail moves to it.
    store_quiet :
        (m.cells m.tail).live ≡ true
        → (m.cells m.tail).next ≡ none
        → alone (suc (suc (suc (suc (suc n))))) (store_load_tail v new k) m
          ≡ alone n (stored v true) (record (linked m.tail new m) { tail = new })
    unfolding step
    store_quiet live free =
        alone-step (suc (suc (suc (suc n)))) (store_load_tail v new k)
          (store_load_next v new m.tail k') m m refl (turns v new m)
        ∙ alone-step (suc (suc (suc n))) (store_load_next v new m.tail k')
            (store_reload_tail v new m.tail none k') m m refl (rw (live, free))
        ∙ alone-step (suc (suc n)) (store_reload_tail v new m.tail none k')
            (store_link v new m.tail k') m m refl (rw ((==_iff m.tail m.tail).1 refl))
        ∙ alone-step (suc n) (store_link v new m.tail k') (store_swing v new m.tail) m
            (linked m.tail new m) refl (rw (live, free))
        ∙ alone-step n (store_swing v new m.tail) (stored v true) (linked m.tail new m)
            (record (linked m.tail new m) { tail = new }) refl (rw ((==_iff m.tail m.tail).1 refl))

    -- The tail is one node behind: it is moved on first.
    store_lagging :
        (next : ℕ)
        → (m.cells m.tail).live ≡ true
        → (m.cells m.tail).next ≡ some next
        → alone (suc (suc (suc (suc (suc n))))) (store_load_tail v new k) m
          ≡ alone n
              (store_load_tail v new k')
              (record m { tail = next; cas_retries = inc_size m.cas_retries })
    unfolding step
    store_lagging next live after =
        alone-step (suc (suc (suc (suc n)))) (store_load_tail v new k)
          (store_load_next v new m.tail k') m m refl (turns v new m)
        ∙ alone-step (suc (suc (suc n))) (store_load_next v new m.tail k')
            (store_reload_tail v new m.tail (some next) k') m m refl (rw (live, after))
        ∙ alone-step (suc (suc n)) (store_reload_tail v new m.tail (some next) k')
            (store_help v new m.tail next k') m m refl (rw ((==_iff m.tail m.tail).1 refl))
        ∙ alone-step (suc n) (store_help v new m.tail next k') (store_retry v new k') m
            (record m { tail = next }) refl (rw ((==_iff m.tail m.tail).1 refl))
        ∙ alone-step n (store_retry v new k') (store_load_tail v new k') (record m { tail = next })
            (record m { tail = next; cas_retries = inc_size m.cas_retries }) refl refl

  module _ (n : ℕ) (m : Shared V) where
    -- The head has a node after it, and is not the tail: its value is taken, up to the mutex of the
    -- retired nodes.
    pub pop_up_to_lock :
        (next : ℕ)
        → (m.cells m.head).live ≡ true
        → (m.cells next).live ≡ true
        → (m.cells m.head).next ≡ some next
        → (m.head == m.tail) ≡ false
        → alone (suc (suc (suc (suc (suc (suc n)))))) pop_load_head m
          ≡ alone n
              (pop_retire m.head (m.cells next).value)
              (taken moved_from next (record m { head = next }))
    unfolding step
    pop_up_to_lock next live live' after apart =
        alone-step (suc (suc (suc (suc (suc n))))) pop_load_head (pop_load_tail m.head) m m refl
          refl
        ∙ alone-step (suc (suc (suc (suc n)))) (pop_load_tail m.head) (pop_load_next m.head m.tail)
            m m refl refl
        ∙ alone-step (suc (suc (suc n))) (pop_load_next m.head m.tail)
            (pop_reload_head m.head m.tail (some next)) m m refl (rw (live, after))
        ∙ alone-step (suc (suc n)) (pop_reload_head m.head m.tail (some next))
            (pop_swing m.head next) m m refl (rw ((==_iff m.head m.head).1 refl, apart))
        ∙ alone-step (suc n) (pop_swing m.head next) (pop_take m.head next) m
            (record m { head = next }) refl (rw ((==_iff m.head m.head).1 refl))
        ∙ alone-step n (pop_take m.head next) (pop_retire m.head (m.cells next).value)
            (record m { head = next }) (taken moved_from next (record m { head = next })) refl
            (rw live')

    -- The section of the mutex, which is free.
    pub pop_section :
        (first : ℕ) (v : V)
        → m.retired_locked ≡ false
        → alone (suc (suc n)) (pop_retire first v) m
          ≡ alone n
              (popped v)
              (record m { retired = m.retired ++ first ∷ []; retired_locked = false })
    unfolding step
    pop_section first v free =
        alone-step (suc n) (pop_retire first v) (pop_unlock v) m
          (record m { retired = m.retired ++ first ∷ []; retired_locked = true }) refl (rw free)
        ∙ alone-step n (pop_unlock v) (popped v)
            (record m { retired = m.retired ++ first ∷ []; retired_locked = true }) _ refl refl

    -- With the mutex taken the thread waits.
    pub pop_waits :
        (first : ℕ) (v : V)
        → m.retired_locked ≡ true
        → alone (suc n) (pop_retire first v) m ≡ alone n (pop_retire first v) m
    unfolding step
    pop_waits first v held =
        alone-step n (pop_retire first v) (pop_retire first v) m m refl (rw held)

    -- The head is the last node.
    pub pop_empty :
        (m.cells m.head).live ≡ true
        → (m.cells m.head).next ≡ none
        → alone (suc (suc (suc (suc n)))) pop_load_head m ≡ alone n missed m
    unfolding step
    pop_empty live free =
        alone-step (suc (suc (suc n))) pop_load_head (pop_load_tail m.head) m m refl refl
        ∙ alone-step (suc (suc n)) (pop_load_tail m.head) (pop_load_next m.head m.tail) m m refl
            refl
        ∙ alone-step (suc n) (pop_load_next m.head m.tail) (pop_reload_head m.head m.tail none) m m
            refl (rw (live, free))
        ∙ alone-step n (pop_reload_head m.head m.tail none) missed m m refl
            (rw ((==_iff m.head m.head).1 refl))

    -- The tail is at the head, and one node behind: it is moved on.
    pub pop_lagging :
        (next : ℕ)
        → (m.cells m.head).live ≡ true
        → (m.cells m.head).next ≡ some next
        → m.tail ≡ m.head
        → alone (suc (suc (suc (suc (suc n))))) pop_load_head m
          ≡ alone n missed (record m { tail = next })
    unfolding step
    pop_lagging next live after same =
        alone-step (suc (suc (suc (suc n)))) pop_load_head (pop_load_tail m.head) m m refl refl
        ∙ alone-step (suc (suc (suc n))) (pop_load_tail m.head) (pop_load_next m.head m.tail) m m
            refl refl
        ∙ alone-step (suc (suc n)) (pop_load_next m.head m.tail)
            (pop_reload_head m.head m.tail (some next)) m m refl (rw (live, after))
        ∙ alone-step (suc n) (pop_reload_head m.head m.tail (some next)) (pop_help m.tail next) m m
            refl (rw ((==_iff m.head m.head).1 refl, (==_iff m.head m.tail).1 (sym same)))
        ∙ alone-step n (pop_help m.tail next) missed m (record m { tail = next }) refl
            (rw ((==_iff m.tail m.tail).1 refl))
