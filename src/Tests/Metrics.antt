-- ===== src/Tests/Metrics.antt =====
-- Metrics with doubles that are whole hundredths, and a sort that inserts.
use mathlib.Core.List.{forall_mem-cons, not-mem-nil}
use mathlib.Core.List.Perm
use mathlib.Core.Option.{bind}
use native.Mathlib.Bridge.{le_prop}
use native.Mathlib.Nat.{div-lt_iff_lt-mul, mul-le-mul_right, mul-div-mul_left, div-le_of_le-mul}
use message_queue_practical.Prelude.{
  ℕ, ◌+◌, ◌-◌, ◌*◌, ◌/◌, ◌≤◌, ◌≡◌, refl, sym, dec_lt, subst, inl, inr, arith, Bool, some, List, [],
  ◌∷◌, Mem, ltb,
}
use message_queue_practical.Priority.Heap.{IsStrictWeak}
use message_queue_practical.Priority.Sorting as Sorting
use message_queue_practical.Bench.Double.{IsNumber, Double, IsFraction, IsIeee}
use message_queue_practical.Bench.Percentile.{Sort, Ascends, percentile, interpolate}
use message_queue_practical.Bench.Ranks.{percentile-Perm, percentile_in_range, percentile_extremes}
use message_queue_practical.Bench.Fairness.{fairness_of-IsFraction}
use message_queue_practical.Bench.Metrics.{fairness_of}

abbrev pub hundredths : Double ℕ
hundredths = record {
  ratio = λ a b. 100 * a / b;
  of_integer = λ n. 100 * n;
  less = ltb;
  add = λ x y. x + y;
  sub = λ x y. x - y;
  mul = λ x y. x * y / 100;
  div = λ x y. 100 * x / y;
  floor = λ x. x / 100;
  ceil = λ x. (x + 99) / 100;
}

hundredths-IsNumber : (x : ℕ) → IsNumber hundredths x
hundredths-IsNumber x = elim (dec_lt x 100) [
  | yes k ↦ inl (ground arith)
  | no k ↦ inr (ground arith)
]

hundredths-IsFraction : (x : ℕ) → x ≤ 100 → IsFraction hundredths x
hundredths-IsFraction x h = record {
  from_nought = ground arith;
  to_one = ground arith;
  is_number = hundredths-IsNumber x;
}

IsFraction-le : (x : ℕ) → IsFraction hundredths x → x ≤ 100
IsFraction-le x h = ground (arith, h.to_one)

scaled-le : (x n : ℕ) → IsFraction hundredths x → x * (100 * n) / 100 ≤ 100 * n
scaled-le x n h = div-le_of_le-mul 100 (mul-le-mul_right (100 * n) (IsFraction-le x h))

scaled_ratio : (m n : ℕ) → 100 * (100 * m) / (100 * n) ≡ 100 * m / n
scaled_ratio m n = mul-div-mul_left (100 * m) n (omega arith)

pub hundredths-IsIeee : IsIeee hundredths
hundredths-IsIeee = record {
  nought_fraction = record { from_nought = refl; to_one = refl; is_number = inl refl };
  one_fraction = record { from_nought = refl; to_one = refl; is_number = inr refl };
  ratio_below = λ a b h k.
      let below =
        (div-lt_iff_lt-mul {k = b} {x = 100 * a} {y = 100} (omega arith)).1 (omega arith) in
      ground (arith, below);
  of_integer_number = λ n. hundredths-IsNumber (100 * n);
  of_integer_nought = refl;
  floor-of_integer = λ n k. omega arith;
  ceil-of_integer = λ n k. omega arith;
  floor-le = λ x y h k e. let le : x ≤ y = ground (arith, e) in omega (arith, le);
  ceil-le = λ x y h k e. let le : x ≤ y = ground (arith, e) in omega (arith, le);
  mul_number = λ x n h. hundredths-IsNumber (x * (100 * n) / 100);
  mul_below = λ x n h. let le = scaled-le x n h in ground (arith, le);
  mul-nought = λ n. omega arith;
  mul-one = λ n. omega arith;
  div-fraction = λ m n h k.
      subst (IsFraction hundredths) (sym (scaled_ratio m n))
        (hundredths-IsFraction _ (div-le_of_le-mul n (omega arith)));
}

abbrev pub later_first : ℕ → ℕ → Bool
later_first x y = ltb y x

pub later_first-IsStrictWeak : IsStrictWeak later_first
later_first-IsStrictWeak = record {
  asymmetric = λ x y h. ground arith;
  negatively_transitive = λ x y z h k. ground arith;
}

pub Above-least :
    (x : ℕ) (xs : List ℕ) → Sorting.Above later_first x xs → (y : ℕ) → Mem y xs → x ≤ y
Above-least x [] h = λ y m. absurd (not-mem-nil m)
Above-least x (z ∷ xs) h =
    (forall_mem-cons {p = λ y. x ≤ y} (λ y. le_prop)).1 (ground (arith, h.0), Above-least x xs h.1)

pub Descends-Ascends : (xs : List ℕ) → Sorting.Descends later_first xs → Ascends xs
Descends-Ascends [] h = tt
Descends-Ascends (x ∷ xs) h = (Above-least x xs h.0, Descends-Ascends xs h.1)

abbrev pub inserting : Sort
inserting = record {
  sort = Sorting.sort later_first;
  sort-Perm = Sorting.sort-perm later_first;
  sort-Ascends =
      λ xs. Descends-Ascends _ (Sorting.sort-Descends later_first later_first-IsStrictWeak xs);
}

percentile-Perm_example :
    percentile hundredths inserting (3 ∷ 1 ∷ 2 ∷ []) 50
    ≡ percentile hundredths inserting (1 ∷ 3 ∷ 2 ∷ []) 50
percentile-Perm_example =
    percentile-Perm hundredths inserting (3 ∷ 1 ∷ 2 ∷ []) (1 ∷ 3 ∷ 2 ∷ []) 50
      (Perm.swap 1 3 (2 ∷ []))

percentile_in_range_example :
    (w : ℕ) × (percentile hundredths inserting (3 ∷ 1 ∷ 2 ∷ []) 99 ≡ some w)
percentile_in_range_example =
    percentile_in_range hundredths inserting (3 ∷ 1 ∷ 2 ∷ []) 99 hundredths-IsIeee (inl refl)
      (omega arith)

percentile_extremes_example :
    ((m : ℕ) × (percentile hundredths inserting (3 ∷ 1 ∷ 2 ∷ []) 0 ≡ some (100 * m))
      × Mem m (3 ∷ 1 ∷ 2 ∷ [])
      × ((y : ℕ) → Mem y (3 ∷ 1 ∷ 2 ∷ []) → m ≤ y))
    × ((m : ℕ) × (percentile hundredths inserting (3 ∷ 1 ∷ 2 ∷ []) 100 ≡ some (100 * m))
        × Mem m (3 ∷ 1 ∷ 2 ∷ [])
        × ((y : ℕ) → Mem y (3 ∷ 1 ∷ 2 ∷ []) → y ≤ m))
percentile_extremes_example =
    percentile_extremes hundredths inserting 3 (1 ∷ 2 ∷ []) hundredths-IsIeee (omega arith)

-- Half way between the two middle samples, in hundredths.
test_percentile : percentile hundredths inserting (30 ∷ 10 ∷ 20 ∷ 40 ∷ []) 50 ≡ some 2500
unfolding percentile interpolate bind Sorting.sort Sorting.insert
test_percentile = refl

fairness_of-IsFraction_example : IsFraction hundredths (fairness_of hundredths (3 ∷ 1 ∷ 2 ∷ []))
fairness_of-IsFraction_example =
    fairness_of-IsFraction hundredths (3 ∷ 1 ∷ 2 ∷ []) hundredths-IsIeee
      (omega arith, (omega arith, (omega arith, tt)))
