-- ===== src/Bench/Fairness.antt =====
-- bin/benchmark_helpers.hpp: what `FairnessRatio` returns.
use message_queue_practical.Prelude.{
  ℕ, ◌-◌, ◌^◌, ◌≤◌, ◌<◌, ◌≡◌, sym, ap₂, subst, inl, inr, arith, Bool-cases, ◌||◌, List, [], ◌∷◌,
  ltb, ◌==◌, if◌then◌else◌,
}
use message_queue_practical.Bench.Double.{Double, IsFraction, IsIeee}
use message_queue_practical.Bench.Metrics.{range_of, ratio_of, fairness_of}

abbrev pub Each : (ℕ → Type 0) → List ℕ → Type 0
Each P [] = Unit
Each P (n ∷ ns) = P n × Each P ns

range_of-le :
    (counts : List ℕ) (low high : ℕ)
    → low ≤ high
    → (range_of counts low high).0 ≤ (range_of counts low high).1
range_of-le [] low high h = h
range_of-le (n ∷ counts) low high h =
    range_of-le counts (if ltb n low then n else low) (if ltb high n then n else high)
      (ground arith)

-- The first entry alone is the range.
range_of-first :
    (n : ℕ) (counts : List ℕ)
    → n < 2 ^ 64
    → range_of (n ∷ counts) (2 ^ 64 - 1) 0 ≡ range_of counts n n
range_of-first n counts h =
    let low : (if ltb n (2 ^ 64 - 1) then n else 2 ^ 64 - 1) ≡ n = ground arith in
    let high : (if ltb 0 n then n else 0) ≡ n = ground arith in ap₂ (range_of counts) low high

module _ {W : Type 0} (d : Double W) where
  ratio_of-IsFraction :
      (low high : ℕ) → IsIeee d → low ≤ high → IsFraction d (ratio_of d (low, high))
  unfolding ratio_of
  ratio_of-IsFraction low high ieee h = elim (Bool-cases ((high == 0) || (low == 2 ^ 64 - 1))) [
    | inl e ↦ rw e ieee.one_fraction
    | inr e ↦ rw e (ieee.div-fraction low high h (ground (arith, e)))
  ]

  -- The fairness ratio of 64-bit counts is a number from 0 to 1; doubles are those of IEEE.
  pub fairness_of-IsFraction :
      (counts : List ℕ)
      → IsIeee d
      → Each (λ n. n < 2 ^ 64) counts
      → IsFraction d (fairness_of d counts)
  unfolding fairness_of
  fairness_of-IsFraction [] ieee h = ieee.one_fraction
  fairness_of-IsFraction (n ∷ counts) ieee h =
      subst (λ r. IsFraction d (ratio_of d r)) (sym (range_of-first n counts h.0))
        (ratio_of-IsFraction _ _ ieee (range_of-le counts n n (omega arith)))
