-- ===== src/Priority/Sorting.antt =====
-- Sorting as an instance of what lib/min-heap_queue.hpp relies on of the heap algorithms.
use mathlib.Core.List.Perm
use message_queue_practical.Prelude.{
  ℕ, zero, suc, ◌-◌, ◌/◌, ◌<◌, ◌≡◌, refl, inl, inr, Bool, false, some, List, [], ◌∷◌, ◌++◌, Perm,
  arith, Bool-cases, get_elem?, if◌then◌else◌,
}
use message_queue_practical.Priority.Heap.{HeapAlgorithms, IsStrictWeak, IsHeap}

module _ {A : Type 0} (less : A → A → Bool) where
  unfoldable pub insert : A → List A → List A
  insert n [] = n ∷ []
  insert n (x ∷ xs) = if less x n then n ∷ x ∷ xs else x ∷ insert n xs

  unfoldable pub sort : List A → List A
  unfolding insert
  sort [] = []
  sort (x ∷ xs) = insert x (sort xs)

  -- No entry of the list is greater than `x`.
  abbrev pub Above : A → List A → Type 0
  Above x [] = Unit
  Above x (y ∷ ys) = (less x y ≡ false) × Above x ys

  -- No entry is greater than an earlier one.
  abbrev pub Descends : List A → Type 0
  Descends [] = Unit
  Descends (x ∷ xs) = Above x xs × Descends xs

  insert-perm : (n : A) (xs : List A) → Perm (insert n xs) (n ∷ xs)
  unfolding insert
  insert-perm n [] = Perm.refl _
  insert-perm n (x ∷ xs) = elim (Bool-cases (less x n)) [
    | inl e ↦ rw e (Perm.refl _)
    | inr e ↦ rw e (Perm.trans (Perm.cons x (insert-perm n xs)) (Perm.swap n x xs))
  ]

  pub sort-perm : (xs : List A) → Perm (sort xs) xs
  unfolding sort
  sort-perm [] = Perm.refl _
  sort-perm (x ∷ xs) = Perm.trans (insert-perm x (sort xs)) (Perm.cons x (sort-perm xs))

  insert-Above : (x n : A) (xs : List A) → less x n ≡ false → Above x xs → Above x (insert n xs)
  unfolding insert
  insert-Above x n [] e a = (e, tt)
  insert-Above x n (y ∷ ys) e a = elim (Bool-cases (less y n)) [
    | inl f ↦ rw f (e, a)
    | inr f ↦ rw f (a.0, insert-Above x n ys e a.1)
  ]

  module _ (weak : IsStrictWeak less) where
    Above-lower : (n x : A) (xs : List A) → less n x ≡ false → Above x xs → Above n xs
    Above-lower n x [] e a = tt
    Above-lower n x (y ∷ ys) e a =
        (weak.negatively_transitive n x y e a.0, Above-lower n x ys e a.1)

    insert-Descends : (n : A) (xs : List A) → Descends xs → Descends (insert n xs)
    unfolding insert
    insert-Descends n [] d = (tt, tt)
    insert-Descends n (x ∷ xs) d = elim (Bool-cases (less x n)) [
      | inl e ↦
          let lower : less n x ≡ false = weak.asymmetric x n e in
          rw e ((lower, Above-lower n x xs lower d.0), d)
      | inr e ↦ rw e (insert-Above x n xs e d.0, insert-Descends n xs d.1)
    ]

    pub sort-Descends : (xs : List A) → Descends (sort xs)
    unfolding sort
    sort-Descends [] = tt
    sort-Descends (x ∷ xs) = insert-Descends x (sort xs) (sort-Descends xs)

  Above-get_elem? :
      (x y : A) (xs : List A) (i : ℕ) → Above x xs → get_elem? xs i ≡ some y → less x y ≡ false
  Above-get_elem? x y [] i a e = absurd (cc e)
  Above-get_elem? x y (z ∷ zs) zero a e = ground (arith, a.0)
  Above-get_elem? x y (z ∷ zs) (suc i) a e = Above-get_elem? x y zs i a.1 e

  Descends-get_elem? :
      (p y : A) (xs : List A) (j i : ℕ)
      → j < i
      → Descends xs
      → get_elem? xs j ≡ some p
      → get_elem? xs i ≡ some y
      → less p y ≡ false
  Descends-get_elem? p y [] j i h d e f = absurd (cc f)
  Descends-get_elem? p y (x ∷ xs) j zero h d e f = absurd (omega arith)
  Descends-get_elem? p y (x ∷ xs) zero (suc i) h d e f =
      let above = Above-get_elem? x y xs i d.0 f in ground arith
  Descends-get_elem? p y (x ∷ xs) (suc j) (suc i) h d e f =
      Descends-get_elem? p y xs j i (omega arith) d.1 e f

  Descends-IsHeap : (xs : List A) → Descends xs → IsHeap less xs
  Descends-IsHeap xs d i p x h e f = Descends-get_elem? p x xs ((i - 1) / 2) i (omega arith) d f e

  pub sort-IsHeap : (xs : List A) → IsStrictWeak less → IsHeap less (sort xs)
  sort-IsHeap xs weak = Descends-IsHeap (sort xs) (sort-Descends weak xs)

unfoldable pub pop_sorting : {A : Type 0} → (A → A → Bool) → List A → List A
unfolding sort
pop_sorting less [] = []
pop_sorting less (x ∷ xs) = sort less xs ++ x ∷ []

-- Algorithms that sort the whole heap each time.
abbrev pub by_sorting : {V : Type 0} → HeapAlgorithms V
unfolding pop_sorting
by_sorting = record {
  push_heap = sort;
  pop_heap = pop_sorting;
  push_heap_lem =
      λ less xs x weak heap. (sort-IsHeap less (xs ++ x ∷ []) weak, sort-perm less (xs ++ x ∷ []));
  pop_heap_lem =
      λ less x xs weak heap. (sort less xs, refl, sort-IsHeap less xs weak, sort-perm less xs);
}
