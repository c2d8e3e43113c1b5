-- ===== src/Bench/Shares.antt =====
-- bin/benchmark_helpers.hpp: the shares of the producers.
use message_queue_practical.Prelude.{
  ℕ, zero, suc, ◌+◌, ◌*◌, ◌/◌, ◌%◌, ◌≤◌, ◌<◌, ◌≡◌, ◌∙◌, arith, ltb, dec_lt, if◌then◌else◌,
}
use native.Mathlib.Nat.{div-add-mod, mod-lt}
use message_queue_practical.Bench.Params.{ScenarioParams, local_total}
use message_queue_practical.Bench.Sums.{sum}

-- The first `r` of `n` terms are one more than `b`.
sum-shares-all : (b r n : ℕ) → n ≤ r → sum (λ i. b + (if ltb i r then 1 else 0)) n ≡ n * b + n
sum-shares-all b r zero h = omega arith
sum-shares-all b r (suc n) h = let rest = sum-shares-all b r n (omega arith) in ground (arith, rest)

sum-shares : (b r n : ℕ) → r ≤ n → sum (λ i. b + (if ltb i r then 1 else 0)) n ≡ n * b + r
sum-shares b r zero h = omega arith
sum-shares b r (suc n) h = elim (dec_lt n r) [
  | yes all ↦ sum-shares-all b r (suc n) (omega arith) ∙ omega arith
  | no more ↦ let rest = sum-shares b r n (omega arith) in ground (arith, rest)
]

-- The shares of the producers add up to the messages of the scenario, if there is a producer.
pub shares_total :
    {W : Type 0} (params : ScenarioParams W)
    → 0 < params.producers
    → sum (local_total params) params.producers ≡ params.total_messages
unfolding local_total
shares_total params h =
    let r = mod-lt params.total_messages h in
    sum-shares (params.total_messages / params.producers) (params.total_messages % params.producers)
      params.producers (omega (arith, r))
    ∙ div-add-mod params.total_messages params.producers
