-- ===== src/Bench/Environment.antt =====
-- bin/benchmark_helpers.hpp: what the scenarios read of the environment. `int` values are integers.
use mathlib.Core.Option.{Option, none, some}
use message_queue_practical.Prelude.{ℕ, ◌-◌, ◌%◌, ◌^◌, Bool, ◌||◌, String, ltb, if◌then◌else◌}

pub data ℤ : Type 0 where
  pos : ℕ → ℤ
  negsuc : ℕ → ℤ

-- `static_cast<int>` of an unsigned value.
abbrev pub to_int : ℕ → ℤ
to_int n = if ltb (n % 2 ^ 32) (2 ^ 31) then pos (n % 2 ^ 32) else negsuc (2 ^ 32 - 1 - n % 2 ^ 32)

-- `std::max(least, n)` for a `least` that is not negative.
abbrev pub max_int : ℕ → ℤ → ℕ
max_int least (pos n) = if ltb least n then n else least
max_int least (negsuc n) = least

-- The C and C++ libraries: `same_text` compares texts.
pub record Environment (W : Type 0) : Type 0 where
  pub getenv : String → Option String
  pub atoi : String → ℤ
  pub atof : String → W
  pub same_text : String → String → Bool
  pub hardware_concurrency : ℕ

module _ {W : Type 0} (env : Environment W) where
  abbrev pub env_read : String → ℤ → ℤ
  env_read name default_value = elim (env.getenv name) [
    | none ↦ default_value
    | some value ↦ env.atoi value
  ]

  abbrev pub env_read_double : String → W → W
  env_read_double name default_value = elim (env.getenv name) [
    | none ↦ default_value
    | some value ↦ env.atof value
  ]

  abbrev pub env_flag : String → Bool → Bool
  env_flag name default_value = elim (env.getenv name) [
    | none ↦ default_value
    | some text ↦
        env.same_text text "1"
        || env.same_text text "true"
        || env.same_text text "TRUE"
        || env.same_text text "on"
        || env.same_text text "ON"
  ]

  abbrev pub latency_sample_stride : ℕ
  latency_sample_stride = max_int 1 (env_read "MQ_BENCH_LATENCY_STRIDE" (pos 1))

-- `n` unless an override is set to a positive value.
abbrev pub overridden : ℤ → ℕ → ℕ
overridden (pos m) n = if ltb 0 m then m else n
overridden (negsuc m) n = n
