-- ===== src/Bench/Double.antt =====
-- bin/benchmark_helpers.hpp: all that the scenarios do with a `double`, and what they rely on of it.
use message_queue_practical.Prelude.{
  ℕ, ◌^◌, ◌≤◌, ◌<◌, ◌≡◌, sym, ap, ◌∙◌, arith, ◌⊎◌, Bool, true, false, if◌then◌else◌,
}

-- `ratio a b` is the constant a / b, `of_integer` a cast to `double`, and `floor` and `ceil` the functions of
-- that name with a cast to an integer.
pub record Double (W : Type 0) : Type 0 where
  pub ratio : ℕ → ℕ → W
  pub of_integer : ℕ → W
  pub less : W → W → Bool
  pub add : W → W → W
  pub sub : W → W → W
  pub mul : W → W → W
  pub div : W → W → W
  pub floor : W → ℕ
  pub ceil : W → ℕ

module _ {W : Type 0} (d : Double W) where
  abbrev pub nought : W
  nought = d.ratio 0 1

  abbrev pub one : W
  one = d.ratio 1 1

  -- `std::clamp`, and `std::min` on doubles.
  abbrev pub clamp : W → W → W → W
  clamp x low high = if d.less x low then low else if d.less high x then high else x

  abbrev pub min_double : W → W → W
  min_double x y = if d.less y x then y else x

  -- A number lies below 1 or above 0; of NaN no comparison holds.
  abbrev pub IsNumber : W → Type 0
  IsNumber x = (d.less x one ≡ true) ⊎ (d.less nought x ≡ true)

  -- A number that is neither below 0 nor above 1.
  pub record IsFraction (x : W) : Type 0 where
    pub from_nought : d.less x nought ≡ false
    pub to_one : d.less one x ≡ false
    pub is_number : IsNumber x

  -- IEEE arithmetic: the integers below 2^53 are exact, so are products with 0 and 1, and rounding
  -- keeps the order.
  pub record IsIeee : Type 0 where
    pub nought_fraction : IsFraction nought
    pub one_fraction : IsFraction one
    pub ratio_below : (a b : ℕ) → a < b → b < 2 ^ 53 → d.less (d.ratio a b) one ≡ true
    pub of_integer_number : (n : ℕ) → IsNumber (d.of_integer n)
    pub of_integer_nought : d.of_integer 0 ≡ nought
    pub floor-of_integer : (n : ℕ) → n < 2 ^ 53 → d.floor (d.of_integer n) ≡ n
    pub ceil-of_integer : (n : ℕ) → n < 2 ^ 53 → d.ceil (d.of_integer n) ≡ n
    pub floor-le : (x y : W) → IsNumber x → IsNumber y → d.less y x ≡ false → d.floor x ≤ d.floor y
    pub ceil-le : (x y : W) → IsNumber x → IsNumber y → d.less y x ≡ false → d.ceil x ≤ d.ceil y
    pub mul_number : (x : W) (n : ℕ) → IsFraction x → IsNumber (d.mul x (d.of_integer n))
    pub mul_below :
        (x : W) (n : ℕ) → IsFraction x → d.less (d.of_integer n) (d.mul x (d.of_integer n)) ≡ false
    pub mul-nought : (n : ℕ) → d.mul nought (d.of_integer n) ≡ nought
    pub mul-one : (n : ℕ) → d.mul one (d.of_integer n) ≡ d.of_integer n
    pub div-fraction :
        (m n : ℕ) → m ≤ n → 0 < n → IsFraction (d.div (d.of_integer m) (d.of_integer n))

  module _ (ieee : IsIeee) where
    pub floor-mul :
        (x : W) (n : ℕ) → IsFraction x → n < 2 ^ 53 → d.floor (d.mul x (d.of_integer n)) ≤ n
    floor-mul x n h k =
        let le =
          ieee.floor-le (d.mul x (d.of_integer n)) (d.of_integer n) (ieee.mul_number x n h)
            (ieee.of_integer_number n) (ieee.mul_below x n h) in
        omega (arith, le, ieee.floor-of_integer n k)

    pub ceil-mul :
        (x : W) (n : ℕ) → IsFraction x → n < 2 ^ 53 → d.ceil (d.mul x (d.of_integer n)) ≤ n
    ceil-mul x n h k =
        let le =
          ieee.ceil-le (d.mul x (d.of_integer n)) (d.of_integer n) (ieee.mul_number x n h)
            (ieee.of_integer_number n) (ieee.mul_below x n h) in
        omega (arith, le, ieee.ceil-of_integer n k)

    -- The rank of a list at 0 is its first index, and at 1 its last.
    pub rank_nought :
        (n : ℕ)
        → (d.floor (d.mul nought (d.of_integer n)) ≡ 0)
          × (d.ceil (d.mul nought (d.of_integer n)) ≡ 0)
    rank_nought n =
        let e = ieee.mul-nought n ∙ sym ieee.of_integer_nought in
        (
          ap d.floor e ∙ ieee.floor-of_integer 0 (omega arith),
          ap d.ceil e ∙ ieee.ceil-of_integer 0 (omega arith),
        )

    pub rank_one :
        (n : ℕ)
        → n < 2 ^ 53
        → (d.floor (d.mul one (d.of_integer n)) ≡ n) × (d.ceil (d.mul one (d.of_integer n)) ≡ n)
    rank_one n k = (
      ap d.floor (ieee.mul-one n) ∙ ieee.floor-of_integer n k,
      ap d.ceil (ieee.mul-one n) ∙ ieee.ceil-of_integer n k,
    )
