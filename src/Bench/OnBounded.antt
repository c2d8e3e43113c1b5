-- ===== src/Bench/OnBounded.antt =====
-- bin/benchmark_helpers.hpp: the adapter of a queue that is a bounded queue, and has the functions of the
-- interface alone.
use message_queue_practical.Prelude.{
  ◌∷◌, [], ◌++◌, subst, ap, ◌∙◌, ℕ, ◌≡◌, inl, inr, refl, arith, false, Bool-cases, none, List,
  Exception, ltb, length, if◌then◌else◌,
}
use message_queue_practical.Interface.Role.{DeadlockExceptionPolicy, ThreadRole, producer, consumer}
use message_queue_practical.Interface.Call.{Hooks}
use message_queue_practical.Interface.History.{
  Request, Reply, number, Fits, try_send, try_read, size, flag, option, World, step,
}
use message_queue_practical.Interface.Simulation.{Simulation, Sticks, IsPlain, step_simulates}
use message_queue_practical.Spec.Bounded.{Bounded, append, bounded, take_first}
use message_queue_practical.Bench.Params.{BenchmarkMessage}
use message_queue_practical.Bench.Adapter.{
  Extras, adapter, send_by, read_by, size_by, as_flag, as_option, as_number,
}
use message_queue_practical.Bench.Lossless.{IsFifo, first, but_first}

abbrev pub no_extras : {S : Type 0} → Extras S
no_extras = record { try_enqueue = none; try_dequeue = none; stats_cas_retries = none }

-- The first `producers` threads send, the others read.
abbrev pub role_in : ℕ → ℕ → ThreadRole
role_in producers t = if ltb t producers then producer else consumer

pub role_in-IsPlain : (producers t : ℕ) → IsPlain (role_in producers t)
role_in-IsPlain producers t = elim (Bool-cases (ltb t producers)) [
  | inl e ↦ rw e (inl refl)
  | inr e ↦ rw e (inr refl)
]

module _ {S : Type 0} (policy : DeadlockExceptionPolicy) (this producers capacity : ℕ)
    (hooks : Hooks S BenchmarkMessage) (Stands : S → Bounded BenchmarkMessage → Type 0) where
  abbrev pub open_with : List BenchmarkMessage → Bounded BenchmarkMessage
  open_with ms = record { capacity = capacity; items = ms; closed = false }

  -- The queue of this world is open and holds `ms`; the threads keep to their roles.
  pub record HoldsOpen (w : World S) (ms : List BenchmarkMessage) : Type 0 where
    pub sticks : (t : ℕ) → Sticks this (role_in producers t) (w.tables t)
    pub stands : Stands w.queue (open_with ms)

  module _ (send_error read_error : Exception)
      (simulation : Simulation policy hooks
        (λ _. Stands)
        (bounded append send_error read_error)
        (λ _. Unit {0})) where
    simulated :
        (w : World S) (ms ms' : List BenchmarkMessage) (t : ℕ) (c : Request BenchmarkMessage)
        (reply : Reply BenchmarkMessage)
        → Fits (role_in producers t) c
        → HoldsOpen w ms
        → bounded append send_error read_error (open_with ms) c ≡ (reply, open_with ms')
        → ((step policy this hooks w t c).0 ≡ reply)
          × HoldsOpen (step policy this hooks w t c).1 ms'
    simulated w ms ms' t c reply f h e =
        let (same, stands, sticks) =
          step_simulates policy this hooks (λ _. Stands) (bounded append send_error read_error)
            (λ _. Unit {0}) simulation (role_in producers) (role_in-IsPlain producers) 0 w
            (open_with ms) t c f tt h.sticks h.stands in
        (
          same ∙ ap (λ x. x.0) e,
          record {
            sticks = sticks;
            stands =
                subst (λ x. Stands (step policy this hooks w t c).1.queue x) (ap (λ x. x.1) e)
                  stands;
          },
        )

    pub adapter-IsFifo : IsFifo (adapter policy this hooks no_extras) producers capacity HoldsOpen
    unfolding adapter send_by read_by size_by as_flag as_option as_number bounded take_first
    adapter-IsFifo = record {
      sends = λ w ms t m h holds.
          let (reply, after) =
            simulated w ms (if ltb (length ms) capacity then ms ++ m ∷ [] else ms) t (try_send m)
              (flag (ltb (length ms) capacity)) (ground arith) holds (ground arith) in
          ((step policy this hooks w t (try_send m)).1, ground (arith, reply), after);
      reads = λ w ms t h holds.
          let (reply, after) =
            simulated w ms (but_first ms) t try_read (option (first ms)) (ground arith) holds
              (read_first ms) in
          ((step policy this hooks w t try_read).1, ground (arith, reply), after);
      sizes = λ w ms t h holds.
          let (reply, after) = simulated w ms ms t size (number (length ms)) tt holds refl in
          ((step policy this hooks w t size).1, ground (arith, reply), after);
    }
      where
        read_first :
            (ms : List BenchmarkMessage)
            → bounded append send_error read_error (open_with ms) try_read
              ≡ (option (first ms), open_with (but_first ms))
        read_first [] = refl
        read_first (m ∷ ms) = refl
