-- ===== src/MichaelScott/Reach.antt =====
-- lib/michael_scott_queue.hpp: the states that interleaved calls lead to. From them, a store or a pop
-- that runs alone, and the destructor.
use message_queue_practical.Prelude.{
  ℕ, suc, ◌≡◌, ◌∙◌, refl, sym, subst, false, true, List, [], ◌∷◌, ◌++◌, none, ok, blocks, arith,
  Bool-cases, ◌⊎◌, inl, inr,
}
use message_queue_practical.MichaelScott.Machine.{Shared}
use message_queue_practical.MichaelScott.Chain.{Chain}
use message_queue_practical.MichaelScott.System.{
  System, Turn, begin, advance, is_done, turn, interleave, Abstract, at_start, abstract_start,
}
use message_queue_practical.MichaelScott.Consistent.{
  IsConsistent, begun, reset, begun-IsConsistent, stepped, stepped-IsConsistent, turn-advance,
  start-IsConsistent, dummy,
}
use message_queue_practical.MichaelScott.Settle.{
  IsSettled, begun-IsSettled, stepped-IsSettled, start-IsSettled, done_free,
}
use message_queue_practical.MichaelScott.Mutex.{IsExclusive}
use message_queue_practical.MichaelScott.Destroy.{destroy, destroy_frees}
use message_queue_practical.MichaelScott.Queue.{
  store_internal, try_store_internal, try_pop_once, pop_message,
}
use message_queue_practical.MichaelScott.Solo.{Holds}

-- `PopMessage` with this queue: it takes the first value within two tries, or waits for the mutex of
-- the retired nodes if that is taken; if there is no value, it spins.
abbrev pub PopEnds : {V : Type 0} → (V → V) → Shared V → List V → Type 0
PopEnds moved_from m [] =
    (try_pop_once moved_from m ≡ ok none m)
    × ((tries : ℕ) → pop_message moved_from tries m ≡ blocks m)
PopEnds moved_from m (v ∷ rest) =
    (tries : ℕ)
    → ((m.retired_locked ≡ false)
        × (m' : _) × (pop_message moved_from (suc (suc tries)) m ≡ ok v m')
        × Holds m' rest)
      ⊎ ((m.retired_locked ≡ true)
          × (m' : _) × (pop_message moved_from (suc (suc tries)) m ≡ blocks m'))

module _ {V : Type 0} (moved_from : V → V) where
  -- After the turns `ts`, a store of `v` and a pop that run alone.
  abbrev pub Solo : System V → List (Turn V) → V → Type 0
  Solo start ts v =
      (s : System V) × (q : List V) × (interleave moved_from ts start ≡ ok tt s)
      × IsExclusive s
      × Holds s.shared q
      × ((m' : Shared V) × (store_internal moved_from v s.shared ≡ ok tt m')
          × Holds m' (q ++ v ∷ []))
      × ((m' : Shared V) × (try_store_internal moved_from v s.shared ≡ ok true m')
          × Holds m' (q ++ v ∷ []))
      × PopEnds moved_from s.shared q

  interleave-after :
      (t : Turn V) (ts : List (Turn V)) (s s1 s' : System V)
      → turn moved_from t s ≡ ok tt s1
      → interleave moved_from ts s1 ≡ ok tt s'
      → interleave moved_from (t ∷ ts) s ≡ ok tt s'
  unfolding interleave
  interleave-after t ts s s1 s' e f = ground (arith, e, f)

  -- Turns lead from consistent states to consistent ones.
  pub reaches :
      (ts : List (Turn V)) (s : System V) (c : Chain) (a : Abstract V)
      → IsConsistent s c a
      → IsSettled s c
      → (s' : System V) × (c' : Chain) × (a' : Abstract V) × (interleave moved_from ts s ≡ ok tt s')
        × IsConsistent s' c' a'
        × IsSettled s' c'
  unfolding interleave turn
  reaches [] s c a inv set = (s, c, a, refl, inv, set)
  reaches (begin u k ∷ ts) s c a inv set = elim (Bool-cases (is_done (s.threads u))) [
    | inl done ↦
        let (s', c', a', goes, inv', set') =
          reaches ts (begun moved_from s c a inv u k) c (reset moved_from s c a inv u)
            (begun-IsConsistent moved_from s c a inv u k)
            (begun-IsSettled moved_from s c a inv set u k done) in
        (s', c', a', rw done goes, inv', set')
    | inr busy ↦
        let (s', c', a', goes, inv', set') = reaches ts s c a inv set in
        (s', c', a', rw busy goes, inv', set')
  ]
  reaches (advance u spurious ∷ ts) s c a inv set =
      let r = stepped moved_from s c a inv u spurious in
      let (s', c', a', goes, inv', set') =
        reaches ts _ r.c' _ (stepped-IsConsistent moved_from s c a inv u spurious r)
          (stepped-IsSettled moved_from s c a inv set u spurious r) in
      (
        s',
        c',
        a',
        interleave-after (advance u spurious) ts s _ s'
            (turn-advance moved_from s u spurious r.pc' r.m' r.goes) goes,
        inv',
        set',
      )

  -- However the steps of stores and pops on a new queue were interleaved, once no thread is in a call
  -- the destructor ends and frees every node that is live then, the linked ones and the retired ones,
  -- each of them once: no node leaks, and no node is freed or read that is not live.
  pub destroy_leaks_nothing :
      (default : V) (capacity : ℕ) (ts : List (Turn V)) (s : System V)
      → interleave moved_from ts (at_start default capacity) ≡ ok tt s
      → ((u : ℕ) → is_done (s.threads u) ≡ true)
      → (turns : ℕ) × (m : Shared V) × (destroy turns s.shared ≡ ok tt m)
        × ((a : ℕ) → (m.cells a).live ≡ false)
  destroy_leaks_nothing default capacity ts s reached idle =
      let (s', c, a, goes, inv, set) =
        reaches ts (at_start default capacity) dummy abstract_start
          (start-IsConsistent default capacity) (start-IsSettled default capacity) in
      let same : s' ≡ s = cc (sym goes ∙ reached) in
      let free = λ (u : ℕ).
        done_free (s'.threads u) (subst (λ x. is_done (x.threads u) ≡ true) (sym same) (idle u)) in
      let (m, e, dead) =
        destroy_frees (suc c.end_pos) s'.shared c a.queue inv.linked (omega arith)
          set.settled.distinct set.settled.retired_at
          (λ i h. elim (set.settled.covered i h) [
            | inl k ↦ k
            | inr (u, k) ↦ absurd (cc (k, (free u).0))
          ])
          (λ b live. elim (set.owned b live) [
            | inl k ↦ k
            | inr (u, k) ↦ absurd (cc (k, (free u).1))
          ]) in
      (suc c.end_pos, m, subst (λ x. destroy (suc c.end_pos) x.shared ≡ ok tt m) same e, dead)
