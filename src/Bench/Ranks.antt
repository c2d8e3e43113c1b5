-- ===== src/Bench/Ranks.antt =====
-- bin/benchmark_helpers.hpp: which samples `Percentile` reads.
use mathlib.Core.List.{mem-cons_self, mem-cons_of_mem, forall_mem-cons, not-mem-nil}
use mathlib.Core.List.Perm
use mathlib.Core.Option.{bind}
use native.Mathlib.Bridge.{le_prop}
use message_queue_practical.Prelude.{
  ℕ, ◌-◌, ◌^◌, ◌≤◌, ◌<◌, ◌≡◌, refl, ◌∙◌, ap, subst, inl, inr, arith, Bool-cases, some, List, [],
  ◌∷◌, Perm, Mem, length, get_elem?, get_elem?-some, List-cases, ◌==◌,
}
use message_queue_practical.Priority.Contents.{length-perm}
use message_queue_practical.Bench.Double.{
  floor-mul, ceil-mul, rank_nought, rank_one, IsNumber, Double, IsFraction, IsIeee, nought, one,
  clamp,
}
use message_queue_practical.Bench.Percentile.{Ascends, Sort, interpolate, percentile}

-- A list in order is the only one of its entries.
Ascends-unique : (xs ys : List ℕ) → Ascends xs → Ascends ys → Perm xs ys → xs ≡ ys
Ascends-unique [] ys a b p = Perm.nil-eq p
Ascends-unique (x ∷ xs) [] a b p = Perm.eq-nil p
Ascends-unique (x ∷ xs) (y ∷ ys) a b p =
    let x_least =
      (forall_mem-cons {p = λ z. x ≤ z} (λ z. le_prop)).1 (omega arith, a.0) y
        ((Perm.mem_iff p).1 mem-cons_self) in
    let y_least =
      (forall_mem-cons {p = λ z. y ≤ z} (λ z. le_prop)).1 (omega arith, b.0) x
        ((Perm.mem_iff p).0 mem-cons_self) in
    let e : x ≡ y = omega (arith, x_least, y_least) in
    let rest =
      Ascends-unique xs ys a.1 b.1 (Perm.cons_inv (subst (λ z. Perm (z ∷ xs) (y ∷ ys)) e p)) in
    cc (e, rest)

-- The last entry is the greatest.
last_greatest :
    (x : ℕ) (xs : List ℕ)
    → Ascends (x ∷ xs)
    → (m : ℕ) × (get_elem? (x ∷ xs) (length xs) ≡ some m)
      × Mem m (x ∷ xs)
      × ((y : ℕ) → Mem y (x ∷ xs) → y ≤ m)
last_greatest x [] a = (
  x,
  refl,
  mem-cons_self,
  (forall_mem-cons {p = λ y. y ≤ x} (λ y. le_prop)).1 (omega arith, λ y m. absurd (not-mem-nil m)),
)
last_greatest x (x' ∷ xs) a =
    let (m, e, at, most) = last_greatest x' xs a.1 in
    (
      m,
      ground (arith, e),
      mem-cons_of_mem x at,
      (forall_mem-cons {p = λ y. y ≤ m} (λ y. le_prop)).1 (a.0 m at, most),
    )

module _ {W : Type 0} (d : Double W) (s : Sort) where
  -- The percentile depends only on which samples there are, and not on their order, as long as
  -- `std::sort` puts them in order.
  pub percentile-Perm :
      (xs ys : List ℕ) (p : W) → Perm xs ys → percentile d s xs p ≡ percentile d s ys p
  unfolding percentile
  percentile-Perm [] [] p same = refl
  percentile-Perm [] (y ∷ ys) p same = absurd (ground (arith, Perm.nil-eq same))
  percentile-Perm (x ∷ xs) [] p same = absurd (ground (arith, Perm.eq-nil same))
  percentile-Perm (x ∷ xs) (y ∷ ys) p same =
      let sorted =
        Ascends-unique (s.sort (x ∷ xs)) (s.sort (y ∷ ys)) (s.sort-Ascends (x ∷ xs))
          (s.sort-Ascends (y ∷ ys))
          (Perm.trans (s.sort-Perm (x ∷ xs))
            (Perm.trans same (Perm.symm (s.sort-Perm (y ∷ ys))))) in
      ap
        (λ values.
          interpolate d s values
            (d.mul (clamp d p (nought d) (one d)) (d.of_integer (length values - 1))))
        sorted

  interpolate_total :
      (values : List ℕ) (rank : W) (n : ℕ)
      → d.floor rank ≤ n
      → d.ceil rank ≤ n
      → n < length values
      → (w : W) × (interpolate d s values rank ≡ some w)
  unfolding interpolate bind
  interpolate_total values rank n low high h =
      let (a, at_low) = get_elem?-some values (d.floor rank) (omega arith) in
      let (b, at_high) = get_elem?-some values (d.ceil rank) (omega arith) in
      elim (Bool-cases (d.floor rank == d.ceil rank)) [
        | inl e ↦ (d.of_integer a, ground (arith, e, at_low))
        | inr e ↦
            let weight = d.sub rank (d.of_integer (d.floor rank)) in
            (
              d.add (d.mul (d.of_integer a) (d.sub (one d) weight)) (d.mul (d.of_integer b) weight),
              ground (arith, e, at_low, at_high),
            )
      ]

  interpolate_at :
      (values : List ℕ) (rank : W) (i m : ℕ)
      → (d.floor rank ≡ i) × (d.ceil rank ≡ i)
      → get_elem? values i ≡ some m
      → interpolate d s values rank ≡ some (d.of_integer m)
  unfolding interpolate bind
  interpolate_at values rank i m (low, high) e =
      let at_low : get_elem? values (d.floor rank) ≡ some m = rw low e in
      ground (arith, low, high, at_low)

  clamp-IsFraction : (p : W) → IsIeee d → IsNumber d p → IsFraction d (clamp d p (nought d) (one d))
  clamp-IsFraction p ieee number = elim (Bool-cases (d.less p (nought d))) [
    | inl e ↦ rw e ieee.nought_fraction
    | inr e ↦ elim (Bool-cases (d.less (one d) p)) [
      | inl f ↦ rw e (rw f ieee.one_fraction)
      | inr f ↦ rw e (rw f (record { from_nought = e; to_one = f; is_number = number }))
    ]
  ]

  -- `Percentile` reads no sample out of range, for any samples, of which there are at most 2^53, and
  -- any `p` that is a number; doubles are those of IEEE.
  pub percentile_in_range :
      (xs : List ℕ) (p : W)
      → IsIeee d
      → IsNumber d p
      → length xs ≤ 2 ^ 53
      → (w : W) × (percentile d s xs p ≡ some w)
  unfolding percentile
  percentile_in_range [] p ieee number small = (nought d, refl)
  percentile_in_range (x ∷ xs) p ieee number small =
      let n = length (s.sort (x ∷ xs)) - 1 in
      let same = length-perm (s.sort-Perm (x ∷ xs)) in
      let fits : n < 2 ^ 53 = omega (arith, same) in
      let fraction = clamp-IsFraction p ieee number in
      interpolate_total (s.sort (x ∷ xs)) _ n (floor-mul d ieee _ n fraction fits)
        (ceil-mul d ieee _ n fraction fits) (omega (arith, same))

  -- The percentile at 0 is the least sample, and the one at 1 the greatest, of 2^53 samples at
  -- most; doubles are those of IEEE.
  pub percentile_extremes :
      (x : ℕ) (xs : List ℕ)
      → IsIeee d
      → length (x ∷ xs) ≤ 2 ^ 53
      → ((m : ℕ) × (percentile d s (x ∷ xs) (nought d) ≡ some (d.of_integer m))
          × Mem m (x ∷ xs)
          × ((y : ℕ) → Mem y (x ∷ xs) → m ≤ y))
        × ((m : ℕ) × (percentile d s (x ∷ xs) (one d) ≡ some (d.of_integer m))
            × Mem m (x ∷ xs)
            × ((y : ℕ) → Mem y (x ∷ xs) → y ≤ m))
  unfolding percentile
  percentile_extremes x xs ieee small =
      let same = length-perm (s.sort-Perm (x ∷ xs)) in
      elim (List-cases (s.sort (x ∷ xs))) [
        | inl e ↦ absurd (ground (arith, e, same))
        | inr (y, ys, e) ↦
            let ordered : Ascends (y ∷ ys) = subst Ascends e (s.sort-Ascends (x ∷ xs)) in
            let perm : Perm (y ∷ ys) (x ∷ xs) =
              subst (λ zs. Perm zs (x ∷ xs)) e (s.sort-Perm (x ∷ xs)) in
            let (m, last, at, most) = last_greatest y ys ordered in
            let first : get_elem? (s.sort (x ∷ xs)) 0 ≡ some y = rw e refl in
            let final : get_elem? (s.sort (x ∷ xs)) (length (s.sort (x ∷ xs)) - 1) ≡ some m =
              rw e (ap (get_elem? (y ∷ ys)) (omega arith) ∙ last) in
            (
              (
                y,
                rw clamp_nought (interpolate_at _ _ 0 y (rank_nought d ieee _) first),
                (Perm.mem_iff perm).0 mem-cons_self,
                λ z at_z.
                    (forall_mem-cons {p = λ v. y ≤ v} (λ v. le_prop)).1 (omega arith, ordered.0) z
                      ((Perm.mem_iff perm).1 at_z),
              ),
              (
                m,
                rw clamp_one
                    (interpolate_at _ _ _ m (rank_one d ieee _ (omega (arith, same))) final),
                (Perm.mem_iff perm).0 at,
                λ z at_z. most z ((Perm.mem_iff perm).1 at_z),
              ),
            )
      ]
    where
      clamp_nought : clamp d (nought d) (nought d) (one d) ≡ nought d
      clamp_nought = rw ieee.nought_fraction.from_nought (rw ieee.nought_fraction.to_one refl)

      clamp_one : clamp d (one d) (nought d) (one d) ≡ one d
      clamp_one = rw ieee.one_fraction.from_nought (rw ieee.one_fraction.to_one refl)
