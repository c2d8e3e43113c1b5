-- ===== src/Bench/Percentile.antt =====
-- bin/benchmark_helpers.hpp: `Percentile`. `std::sort` is a parameter with what it promises.
use mathlib.Core.Option.{bind}
use message_queue_practical.Prelude.{
  ℕ, ◌-◌, ◌≤◌, Option, some, List, [], ◌∷◌, Perm, Mem, length, get_elem?, ◌==◌, if◌then◌else◌,
}
use message_queue_practical.Bench.Double.{Double, nought, one, clamp}

abbrev pub Ascends : List ℕ → Type 0
Ascends [] = Unit
Ascends (x ∷ xs) = ((y : ℕ) → Mem y xs → x ≤ y) × Ascends xs

-- `std::sort` on integers.
pub record Sort : Type 0 where
  pub sort : List ℕ → List ℕ
  pub sort-Perm : (xs : List ℕ) → Perm (sort xs) xs
  pub sort-Ascends : (xs : List ℕ) → Ascends (sort xs)

module _ {W : Type 0} (d : Double W) (s : Sort) where
  -- `none` where the source reads out of the range of the vector.
  unfoldable pub interpolate : List ℕ → W → Option W
  unfolding bind
  interpolate values rank =
      let lower = d.floor rank in
      let upper = d.ceil rank in
      if lower == upper
      then bind (get_elem? values lower) (λ low. some (d.of_integer low))
      else let weight = d.sub rank (d.of_integer lower) in
        bind (get_elem? values lower) (λ low. bind (get_elem? values upper) (λ high. some (
          d.add (d.mul (d.of_integer low) (d.sub (one d) weight))
            (d.mul (d.of_integer high) weight))))

  unfoldable pub percentile : List ℕ → W → Option W
  unfolding interpolate bind
  percentile [] p = some (nought d)
  percentile (x ∷ xs) p =
      let values = s.sort (x ∷ xs) in
      interpolate values (d.mul (clamp d p (nought d) (one d)) (d.of_integer (length values - 1)))
