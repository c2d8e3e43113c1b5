-- ===== src/Bench/Lossless.antt =====
-- bin/benchmark_helpers.hpp: what a scenario relies on of a queue that loses no message.
use message_queue_practical.Prelude.{
  List, [], ◌∷◌, ◌++◌, length, length-append, ltb, refl, sym, ap, ◌∙◌, arith, ℕ, suc, ◌<◌, ◌≤◌, ◌≡◌,
  Bool, Option, none, some, ok, if◌then◌else◌,
}
use message_queue_practical.Bench.Params.{BenchmarkMessage}
use message_queue_practical.Bench.Adapter.{Adapter}

-- What a try to read leaves of `held` messages.
abbrev pub Leaves : ℕ → Option BenchmarkMessage → ℕ → Type 0
Leaves held none rest = held ≡ rest
Leaves held (some message) rest = held ≡ suc rest

-- `Holds q n`: the queue holds `n` messages. The first `producers` threads send, and the others read.
pub record IsLossless {Q : Type 0} (adapter : Adapter Q) (producers : ℕ) (Holds : Q → ℕ → Type 0)
    : Type 0 where
  pub sends :
      (q : Q) (n t : ℕ) (message : BenchmarkMessage)
      → t < producers
      → Holds q n
      → (b : Bool) × (q' : Q) × (adapter.try_send t message q ≡ ok b q')
        × Holds q' (if b then suc n else n)
  pub reads :
      (q : Q) (n t : ℕ)
      → producers ≤ t
      → Holds q n
      → (o : Option BenchmarkMessage) × (q' : Q) × (rest : ℕ) × (adapter.try_read t q ≡ ok o q')
        × Leaves n o rest
        × Holds q' rest
  pub sizes :
      (q : Q) (n t : ℕ)
      → producers ≤ t
      → Holds q n
      → (q' : Q) × (adapter.size t q ≡ ok n q') × Holds q' n

abbrev pub first : List BenchmarkMessage → Option BenchmarkMessage
first [] = none
first (m ∷ ms) = some m

abbrev pub but_first : List BenchmarkMessage → List BenchmarkMessage
but_first [] = []
but_first (m ∷ ms) = ms

-- `Holds q ms`: the queue holds the messages `ms`, the next to be read first.
pub record IsFifo {Q : Type 0} (adapter : Adapter Q) (producers capacity : ℕ)
    (Holds : Q → List BenchmarkMessage → Type 0) : Type 0 where
  pub sends :
      (q : Q) (ms : List BenchmarkMessage) (t : ℕ) (message : BenchmarkMessage)
      → t < producers
      → Holds q ms
      → (q' : Q) × (adapter.try_send t message q ≡ ok (ltb (length ms) capacity) q')
        × Holds q' (if ltb (length ms) capacity then ms ++ message ∷ [] else ms)
  pub reads :
      (q : Q) (ms : List BenchmarkMessage) (t : ℕ)
      → producers ≤ t
      → Holds q ms
      → (q' : Q) × (adapter.try_read t q ≡ ok (first ms) q') × Holds q' (but_first ms)
  pub sizes :
      (q : Q) (ms : List BenchmarkMessage) (t : ℕ)
      → producers ≤ t
      → Holds q ms
      → (q' : Q) × (adapter.size t q ≡ ok (length ms) q') × Holds q' ms

-- The number of messages held.
abbrev pub Counted : {Q : Type 0} → (Q → List BenchmarkMessage → Type 0) → Q → ℕ → Type 0
Counted Holds q n = (ms : List BenchmarkMessage) × Holds q ms × (length ms ≡ n)

module _ {Q : Type 0} (adapter : Adapter Q) (producers capacity : ℕ)
    (Holds : Q → List BenchmarkMessage → Type 0)
    (fifo : IsFifo adapter producers capacity Holds) where
  Leaves-first :
      (ms : List BenchmarkMessage) (n : ℕ)
      → length ms ≡ n
      → Leaves n (first ms) (length (but_first ms))
  Leaves-first [] n e = sym e
  Leaves-first (m ∷ ms) n e = sym e ∙ omega arith

  pub IsFifo-IsLossless : IsLossless adapter producers (Counted Holds)
  IsFifo-IsLossless = record {
    sends = λ q n t m h (ms, holds, e).
        let (q', goes, after) = fifo.sends q ms t m h holds in
        (
          ltb (length ms) capacity,
          q',
          goes,
          (
            (if ltb (length ms) capacity then ms ++ m ∷ [] else ms),
            after,
            ground (arith, e, length-append ms (m ∷ [])),
          ),
        );
    reads = λ q n t h (ms, holds, e).
        let (q', goes, after) = fifo.reads q ms t h holds in
        (
          first ms,
          q',
          length (but_first ms),
          goes,
          Leaves-first ms n e,
          (but_first ms, after, refl),
        );
    sizes = λ q n t h (ms, holds, e).
        let (q', goes, after) = fifo.sizes q ms t h holds in
        (q', goes ∙ ap (λ k. ok k q') e, (ms, after, e));
  }
