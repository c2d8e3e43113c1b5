-- ===== src/Priority/Order.antt =====
-- lib/min-heap_queue.hpp: the order of `MinHeapComparator`, its least entry, and the list of the
-- nodes of a heap in the order in which they are read.
use mathlib.Core.List.{mem-cons_self, mem-cons_of_mem, mem-cons, not-mem-nil, forall_mem-cons}
use mathlib.Core.List.Perm
use mathlib.Core.Logic.Or
use mathlib.Core.Bool.{Bool-set}
use message_queue_practical.Prelude.{
  ℕ, zero, suc, ◌-◌, ◌/◌, ◌<◌, ◌≤◌, ◌≡◌, refl, sym, ap, subst, inl, inr, Bool, true, false, some,
  List, [], ◌∷◌, Perm, Mem, arith, get_elem?, Bool-cases, if◌then◌else◌,
}
use message_queue_practical.Priority.Heap.{later, IsStrictWeak, IsHeap}

module _ {V : Type 0} {comp : V → V → Bool} (weak : IsStrictWeak comp) where
  -- The comparator of heap nodes is a strict weak ordering if `Compare` is one.
  pub later-IsStrictWeak : IsStrictWeak (later comp)
  unfolding later
  later-IsStrictWeak = record {
    asymmetric = λ x y h.
        ground (arith, weak.asymmetric x.payload y.payload, weak.asymmetric y.payload x.payload);
    negatively_transitive = λ x y z h k. ground (
      arith,
      weak.asymmetric x.payload y.payload,
      weak.asymmetric y.payload x.payload,
      weak.asymmetric x.payload z.payload,
      weak.asymmetric z.payload x.payload,
      weak.asymmetric y.payload z.payload,
      weak.asymmetric z.payload y.payload,
      weak.negatively_transitive x.payload y.payload z.payload,
      weak.negatively_transitive z.payload y.payload x.payload,
      weak.negatively_transitive y.payload z.payload x.payload,
      weak.negatively_transitive x.payload z.payload y.payload,
      weak.negatively_transitive z.payload x.payload y.payload,
      weak.negatively_transitive y.payload x.payload z.payload,
    );
  }

get_elem?-le :
    {A : Type 0} (xs : List A) (j i : ℕ) {y : A}
    → j ≤ i
    → get_elem? xs i ≡ some y
    → (p : A) × (get_elem? xs j ≡ some p)
get_elem?-le [] j i h e = cc
get_elem?-le (x ∷ xs) zero i h e = (x, refl)
get_elem?-le (x ∷ xs) (suc j) zero h e = absurd (omega arith)
get_elem?-le (x ∷ xs) (suc j) (suc i) h e = get_elem?-le xs j i (omega arith) e

-- What holds of the entry at each index holds of each member.
of_index :
    {A : Type 0} (xs : List A) (P : A → Type 0)
    → ((y : A) → IsProp (P y))
    → ((i : ℕ) (y : A) → get_elem? xs i ≡ some y → P y)
    → (y : A) → Mem y xs
    → P y
of_index [] P prop h = λ y m. absurd (not-mem-nil m)
of_index (x ∷ xs) P prop h =
    (forall_mem-cons prop).1 (h 0 x refl, of_index xs P prop (λ i. h (suc i)))

-- The entries from the first to be read to the last, all distinct for the order.
abbrev pub IsSorted : {A : Type 0} → (A → A → Bool) → List A → Type 0
IsSorted less [] = Unit
IsSorted {A} less (x ∷ xs) = ((y : A) → Mem y xs → less y x ≡ true) × IsSorted less xs

unfoldable pub place : {A : Type 0} → (A → A → Bool) → A → List A → List A
place less n [] = n ∷ []
place less n (x ∷ xs) = if less x n then n ∷ x ∷ xs else x ∷ place less n xs

module _ {A : Type 0} {less : A → A → Bool} (weak : IsStrictWeak less) where
  pub less_trans : (x y z : A) → less x y ≡ true → less y z ≡ true → less x z ≡ true
  less_trans x y z h k = ground (arith, weak.asymmetric y z, weak.negatively_transitive x z y)

  pub less_irrefl : (x : A) → less x x ≡ false
  less_irrefl x = ground (arith, weak.asymmetric x x)

  -- No entry of a heap is greater than the first.
  root_greatest_below :
      (k : ℕ) (x y : A) (xs : List A) (i : ℕ)
      → i < k
      → IsHeap less (x ∷ xs)
      → get_elem? (x ∷ xs) i ≡ some y
      → less x y ≡ false
  root_greatest_below zero x y xs i h heap e = absurd (omega arith)
  root_greatest_below (suc k) x y xs zero h heap e = ground (arith, less_irrefl x)
  root_greatest_below (suc k) x y xs (suc i) h heap e =
      let (p, f) = get_elem?-le (x ∷ xs) ((suc i - 1) / 2) (suc i) (omega arith) e in
      weak.negatively_transitive x p y
        (root_greatest_below k x p xs ((suc i - 1) / 2) (omega arith) heap f)
        (heap (suc i) p y (omega arith) e f)

  pub root_greatest :
      (x : A) (xs : List A) → IsHeap less (x ∷ xs) → (y : A) → Mem y (x ∷ xs) → less x y ≡ false
  root_greatest x xs heap =
      of_index (x ∷ xs) (λ y. less x y ≡ false) (λ y. Bool-set _ _)
        (λ i y e. root_greatest_below (suc i) x y xs i (omega arith) heap e)

  pub place-perm : (n : A) (xs : List A) → Perm (place less n xs) (n ∷ xs)
  unfolding place
  place-perm n [] = Perm.refl _
  place-perm n (x ∷ xs) = elim (Bool-cases (less x n)) [
    | inl e ↦ rw e (Perm.refl _)
    | inr e ↦ rw e (Perm.trans (Perm.cons x (place-perm n xs)) (Perm.swap n x xs))
  ]

  pub place-IsSorted :
      (n : A) (xs : List A)
      → ((y : A) → Mem y xs → less y n ≡ false → less n y ≡ true)
      → IsSorted less xs
      → IsSorted less (place less n xs)
  unfolding place
  place-IsSorted n [] f s = (λ y m. absurd (not-mem-nil m), tt)
  place-IsSorted n (x ∷ xs) f s = elim (Bool-cases (less x n)) [
    | inl e ↦
        rw e ((forall_mem-cons (λ y. Bool-set _ _)).1 (e, λ y m. less_trans y x n (s.0 y m) e), s)
    | inr e ↦ rw e (
      λ y m.
          (forall_mem-cons {p = λ y. less y x ≡ true} (λ y. Bool-set _ _)).1
            (f x mem-cons_self e, s.0) y ((Perm.mem_iff (place-perm n xs)).0 m),
      place-IsSorted n xs (λ y m. f y (mem-cons_of_mem x m)) s.1,
    )
  ]

  -- The first entry of a heap is the first of its sorted list, and the others are the rest.
  pub heap-sorted :
      (set : IsSet A) (x : A) (xs ys : List A)
      → IsHeap less (x ∷ xs)
      → IsSorted less ys
      → Perm (x ∷ xs) ys
      → (rest : List A) × (ys ≡ x ∷ rest) × Perm xs rest
  heap-sorted set x xs [] heap s p = absurd (not-mem-nil ((Perm.mem_iff p).0 mem-cons_self))
  heap-sorted set x xs (y ∷ ys) heap s p = (
    ys,
    ap (λ a. a ∷ ys) (sym same),
    Perm.cons_inv (subst (λ a. Perm (x ∷ xs) (a ∷ ys)) (sym same) p),
  )
    where
      reads_first : less x y ≡ false
      reads_first = root_greatest x xs heap y ((Perm.mem_iff p).1 mem-cons_self)

      same : x ≡ y
      same =
          Or.elim (set x y) (mem-cons.0 ((Perm.mem_iff p).0 mem-cons_self)) (λ e. e)
            (λ m. absurd (cc (s.0 x m, reads_first)))
