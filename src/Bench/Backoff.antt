-- ===== src/Bench/Backoff.antt =====
-- bin/benchmark_helpers.hpp: how long a thread waits between its steps. What the steady clock shows, in
-- nanoseconds, is a parameter.
use message_queue_practical.Prelude.{
  ℕ, zero, suc, ◌+◌, ◌*◌, ◌≤◌, ◌<◌, ◌≡◌, refl, ap, subst, Option, none, some, ◌⊎◌, inl, inr, arith,
  ltb, leb, ◌==◌, if◌then◌else◌, dec_lt,
}

-- What a thread has done to let time pass: the looks at the clock, the yields, and the microseconds
-- that it asked to sleep.
pub record Waited : Type 0 where
  pub looks : ℕ
  pub yields : ℕ
  pub slept_us : ℕ

module _ (now : ℕ → ℕ) where
  -- The loop of `PreciseDelayUs`, for at most `fuel` looks at the clock.
  unfoldable pub spin_until : (fuel deadline : ℕ) → Waited → Option Waited
  spin_until zero deadline w = none
  spin_until (suc fuel) deadline w =
      let rest = spin_until fuel deadline (record w { looks = suc w.looks }) in
      if ltb (now w.looks) deadline then rest else some (record w { looks = suc w.looks })

  unfoldable pub precise_delay_us : (fuel delay_us : ℕ) → Waited → Option Waited
  unfolding spin_until
  precise_delay_us fuel delay_us w =
      if delay_us == 0
      then some w
      else if leb 1000 delay_us
      then some (record w { slept_us = w.slept_us + delay_us })
      else spin_until fuel (now w.looks + delay_us * 1000) (record w { looks = suc w.looks })

  unfoldable pub spin_wait_backoff : (fuel attempt : ℕ) → Waited → Option Waited
  unfolding precise_delay_us
  spin_wait_backoff fuel attempt w =
      if ltb attempt 64
      then some (record w { yields = suc w.yields })
      else if ltb attempt 4096
      then precise_delay_us fuel 1 w
      else precise_delay_us fuel 10 w

  -- From `w` to `w'` the thread looks at the clock `turns` times in vain and once more, which shows the
  -- deadline.
  pub record Spun (deadline : ℕ) (w w' : Waited) : Type 0 where
    pub turns : ℕ
    pub looks_more : w'.looks ≡ suc (w.looks + turns)
    pub there : deadline ≤ now (w.looks + turns)
    pub before : (i : ℕ) → i < turns → now (w.looks + i) < deadline
    pub same_yields : w'.yields ≡ w.yields
    pub same_slept : w'.slept_us ≡ w.slept_us

  abbrev began : Waited → Waited
  began w = record w { looks = suc w.looks }

  -- What the back-off after a failed attempt does: it yields, or looks at the clock and spins until a
  -- look shows one microsecond more, or ten.
  abbrev pub BacksOff : (attempt : ℕ) → Waited → Waited → Type 0
  BacksOff attempt w w' =
      ((attempt < 64) × (w' ≡ record w { yields = suc w.yields }))
      ⊎ ((64 ≤ attempt)
          × (attempt < 4096)
          × Spun (now w.looks + 1000) (record w { looks = suc w.looks }) w')
      ⊎ ((4096 ≤ attempt) × Spun (now w.looks + 10000) (record w { looks = suc w.looks }) w')

  module _ (deadline : ℕ) where
    Spun-later :
        (w w' : Waited) → now w.looks < deadline → Spun deadline (began w) w' → Spun deadline w w'
    Spun-later w w' early h = record {
      turns = suc h.turns;
      looks_more = omega (arith, h.looks_more);
      there = subst (λ k. deadline ≤ now k) (omega arith) h.there;
      before = λ i g. earlier i g;
      same_yields = h.same_yields;
      same_slept = h.same_slept;
    }
      where
        earlier : (i : ℕ) → i < suc h.turns → now (w.looks + i) < deadline
        earlier zero g = subst (λ k. now k < deadline) (omega arith) early
        earlier (suc i) g = subst (λ k. now k < deadline) (omega arith) (h.before i (omega arith))

    -- With a look to come that shows the deadline, the loop ends.
    spin_ends :
        (fuel n : ℕ) (w : Waited)
        → deadline ≤ now (w.looks + n)
        → n < fuel
        → (w' : Waited) × (spin_until fuel deadline w ≡ some w') × Spun deadline w w'
    unfolding spin_until
    spin_ends zero n w h g = absurd (omega arith)
    spin_ends (suc fuel) n w h g = elim (dec_lt (now w.looks) deadline) [
      | no past ↦ (
        began w,
        ground arith,
        record {
          turns = 0;
          looks_more = omega arith;
          there = subst (λ k. deadline ≤ now k) (omega arith) (past_is past);
          before = λ i g. absurd (omega arith);
          same_yields = refl;
          same_slept = refl;
        },
      )
      | yes early ↦
          let (k, e) = not_now n early h in
          let (w', goes, spun) =
            spin_ends fuel k (began w) (subst (λ x. deadline ≤ now x) (omega (arith, e)) h)
              (omega (arith, e)) in
          (w', ground (arith, early, goes), Spun-later w w' early spun)
    ]
      where
        past_is : ¬ (now w.looks < deadline) → deadline ≤ now w.looks
        past_is past = omega arith

        not_now :
            (n : ℕ) → now w.looks < deadline → deadline ≤ now (w.looks + n) → (k : ℕ) × (n ≡ suc k)
        not_now zero early h =
            let same : now (w.looks + 0) ≡ now w.looks = ap now (omega arith) in
            absurd (omega (arith, same))
        not_now (suc k) early h = (k, refl)

  -- If one of the next looks at the clock, the `n`-th after the first, shows ten microseconds more than
  -- the first, and the fuel covers the looks, the back-off after a failed attempt ends: before the 64th
  -- attempt it yields; from then on it neither yields nor sleeps, and spins until the first look that
  -- shows one microsecond more than the clock did at the start, or ten from the 4096th attempt on.
  pub spin_wait_backoff_ends :
      (fuel attempt n : ℕ) (w : Waited)
      → now w.looks + 10000 ≤ now (suc w.looks + n)
      → n < fuel
      → (w' : Waited) × (spin_wait_backoff fuel attempt w ≡ some w') × BacksOff attempt w w'
  unfolding spin_wait_backoff precise_delay_us
  spin_wait_backoff_ends fuel attempt n w late enough = elim (dec_lt attempt 64) [
    | yes few ↦ (record w { yields = suc w.yields }, ground arith, inl (few, refl))
    | no more ↦ elim (dec_lt attempt 4096) [
      | yes some_more ↦
          let (w', goes, spun) =
            spin_ends (now w.looks + 1000) fuel n (began w) (omega (arith, late)) enough in
          (w', ground (arith, goes), inr (inl (omega arith, some_more, spun)))
      | no many ↦
          let (w', goes, spun) = spin_ends (now w.looks + 10000) fuel n (began w) late enough in
          (w', ground (arith, goes), inr (inr (omega arith, spun)))
    ]
  ]
