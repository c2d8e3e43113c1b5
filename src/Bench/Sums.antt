-- ===== src/Bench/Sums.antt =====
-- Sums over the threads of a kind.
use message_queue_practical.Prelude.{
  ℕ, zero, suc, ◌+◌, ◌≤◌, ◌<◌, ◌≡◌, ◌≢◌, refl, sym, ◌∙◌, ap, subst, arith, ==_iff, ne→==-false,
  ℕ_discrete,
}
use mathlib.Core.Path.{fun_ext}
use message_queue_practical.Interface.History.{update}

abbrev pub sum : (ℕ → ℕ) → ℕ → ℕ
sum f zero = 0
sum f (suc n) = sum f n + f n

pub sum-cong : (f g : ℕ → ℕ) (n : ℕ) → ((i : ℕ) → i < n → f i ≡ g i) → sum f n ≡ sum g n
sum-cong f g zero h = refl
sum-cong f g (suc n) h = omega (arith, sum-cong f g n (λ i k. h i (omega arith)), h n (omega arith))

pub sum-le : (f g : ℕ → ℕ) (n : ℕ) → ((i : ℕ) → i < n → f i ≤ g i) → sum f n ≤ sum g n
sum-le f g zero h = omega arith
sum-le f g (suc n) h = omega (arith, sum-le f g n (λ i k. h i (omega arith)), h n (omega arith))

pub sum-zero : (f : ℕ → ℕ) (n : ℕ) → ((i : ℕ) → i < n → f i ≡ 0) → sum f n ≡ 0
sum-zero f zero h = refl
sum-zero f (suc n) h = omega (arith, sum-zero f n (λ i k. h i (omega arith)), h n (omega arith))

pub sum-ones : (f : ℕ → ℕ) (n : ℕ) → ((i : ℕ) → f i ≤ 1) → sum f n ≤ n
sum-ones f zero h = omega arith
sum-ones f (suc n) h = omega (arith, sum-ones f n h, h n)

-- One of the terms changes.
pub sum-change :
    (f g : ℕ → ℕ) (n u : ℕ) → u < n → ((i : ℕ) → u ≢ i → g i ≡ f i) → sum g n + f u ≡ sum f n + g u
sum-change f g zero u h k = absurd (omega arith)
sum-change f g (suc n) u h k = elim (ℕ_discrete u n) [
  | yes e ↦ omega (arith, sum-cong g f n (λ i l. k i (λ p. omega arith)), ap f e, ap g e)
  | no ne ↦ omega (arith, sum-change f g n u (omega arith) k, k n ne)
]

-- One of the terms is at most the sum.
pub le-sum : (f : ℕ → ℕ) (n u : ℕ) → u < n → f u ≤ sum f n
le-sum f zero u h = absurd (omega arith)
le-sum f (suc n) u h = elim (ℕ_discrete u n) [
  | yes e ↦ omega (arith, ap f e)
  | no ne ↦ omega (arith, le-sum f n u (omega arith))
]

module _ {A : Type 0} (f : ℕ → A) (u : ℕ) (x : A) where
  pub update_here : update f u x u ≡ x
  update_here = rw ((==_iff u u).1 refl) refl

  pub update_other : (w : ℕ) → u ≢ w → update f u x w ≡ f w
  update_other w n = rw (ne→==-false u w n) refl

  pub update_same : f u ≡ x → update f u x ≡ f
  update_same e = fun_ext (λ w. elim (ℕ_discrete u w) [
    | yes p ↦ subst (λ v. update f u x v ≡ f v) p (update_here ∙ sym e)
    | no n ↦ update_other w n
  ])

-- Terms that are 1 at most, and add up to their number, are 1.
pub sum-full : (f : ℕ → ℕ) (n u : ℕ) → ((i : ℕ) → f i ≤ 1) → sum f n ≡ n → u < n → f u ≡ 1
sum-full f zero u h e k = absurd (omega arith)
sum-full f (suc n) u h e k =
    let most : sum f n ≤ n = sum-ones f n h in
    elim (ℕ_discrete u n) [
      | yes p ↦ omega (arith, ap f p, h n)
      | no p ↦ sum-full f n u h (omega (arith, h n)) (omega arith)
    ]
