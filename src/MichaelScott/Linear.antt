-- ===== src/MichaelScott/Linear.antt =====
-- lib/michael_scott_queue.hpp: stores and pops of any number of threads, interleaved in any order,
-- are linearizable.
use message_queue_practical.Prelude.{ℕ, inl, inr, refl, List, [], ◌∷◌, Bool-cases}
use message_queue_practical.Interface.History.{update}
use message_queue_practical.MichaelScott.Chain.{Chain}
use message_queue_practical.MichaelScott.System.{
  System, Turn, begin, advance, is_done, turn, Abstract, Agrees, Linearizes, at_start,
  abstract_start,
}
use message_queue_practical.MichaelScott.Consistent.{
  IsConsistent, Local-Agrees, begun, reset, begun-IsConsistent, stepped, stepped-IsConsistent,
  turn-advance, dummy, start-IsConsistent,
}

module _ {V : Type 0} (moved_from : V → V) where
  agrees :
      (s : System V) (c : Chain) (a : Abstract V)
      → IsConsistent s c a
      → (u : ℕ) → Agrees (a.phase u) (s.threads u)
  agrees s c a inv u = Local-Agrees s.shared c (a.phase u) (s.threads u) (inv.locals u)

  linearizes :
      (ts : List (Turn V)) (s : System V) (c : Chain) (a : Abstract V)
      → IsConsistent s c a
      → Linearizes moved_from s a ts
  unfolding turn
  linearizes [] s c a inv = tt
  linearizes (begin u k ∷ ts) s c a inv = elim (Bool-cases (is_done (s.threads u))) [
    | inl done ↦
        let inv' = begun-IsConsistent moved_from s c a inv u k in
        (
          begun moved_from s c a inv u k,
          reset moved_from s c a inv u,
          rw done,
          rw done,
          agrees (begun moved_from s c a inv u k) c (reset moved_from s c a inv u) inv',
          linearizes ts (begun moved_from s c a inv u k) c (reset moved_from s c a inv u) inv',
        )
    | inr busy ↦ (s, a, rw busy, rw busy, agrees s c a inv, linearizes ts s c a inv)
  ]
  linearizes (advance u spurious ∷ ts) s c a inv =
      let r = stepped moved_from s c a inv u spurious in
      let s' : System V = record { shared = r.m'; threads = update s.threads u r.pc' } in
      let a' : Abstract V = record { queue = r.q'; phase = update a.phase u r.ph' } in
      let inv' : IsConsistent s' r.c' a' = stepped-IsConsistent moved_from s c a inv u spurious r in
      (
        s',
        a',
        turn-advance moved_from s u spurious r.pc' r.m' r.goes,
        (r.ph', refl, r.effect),
        agrees s' r.c' a' inv',
        linearizes ts s' r.c' a' inv',
      )

  -- However the steps of any number of threads in stores and pops are interleaved on a new queue,
  -- and whichever weak compare-exchanges fail, no step touches a node that is not live, and the
  -- calls are linearizable: each step appends one value to the abstract queue, removes its first
  -- value, or leaves it alone; a store that has reported success has appended the value it was
  -- given, once and since it began; a pop that has returned a value has removed that value, once
  -- and since it began; a store or pop that has failed has done neither. Memory is sequentially
  -- consistent, and node addresses are not reused.
  pub store_pop_linearizable :
      (default : V) (capacity : ℕ) (ts : List (Turn V))
      → Linearizes moved_from (at_start default capacity) abstract_start ts
  store_pop_linearizable default capacity ts =
      linearizes ts _ dummy _ (start-IsConsistent default capacity)
