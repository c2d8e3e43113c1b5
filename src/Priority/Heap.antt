-- ===== src/Priority/Heap.antt =====
-- lib/min-heap_queue.hpp: `HeapNode`, `MinHeapComparator`, and what the code relies on of
-- `std::push_heap` and `std::pop_heap`.
use message_queue_practical.Prelude.{
  ℕ, ◌-◌, ◌/◌, ◌<◌, ◌≡◌, Bool, true, false, some, List, [], ◌∷◌, ◌++◌, Perm, ltb, get_elem?,
  if◌then◌else◌,
}

pub record HeapNode (V : Type 0) : Type 0 where
  pub sequence_id : ℕ
  pub payload : V

-- `MinHeapComparator`: whether `lhs` is to be read after `rhs`.
unfoldable pub later : {V : Type 0} → (V → V → Bool) → HeapNode V → HeapNode V → Bool
later comp lhs rhs =
    if comp rhs.payload lhs.payload
    then true
    else if comp lhs.payload rhs.payload
    then false
    else ltb rhs.sequence_id lhs.sequence_id

-- A strict weak ordering, as `Compare` and the comparator of a heap must be.
pub record IsStrictWeak {A : Type 0} (less : A → A → Bool) : Type 0 where
  pub asymmetric : (x y : A) → less x y ≡ true → less y x ≡ false
  pub negatively_transitive : (x y z : A) → less x y ≡ false → less y z ≡ false → less x z ≡ false

-- `std::is_heap`: no entry is greater than its parent.
abbrev pub IsHeap : {A : Type 0} → (A → A → Bool) → List A → Type 0
IsHeap {A} less xs =
    (i : ℕ) (p x : A)
    → 0 < i
    → get_elem? xs i ≡ some x
    → get_elem? xs ((i - 1) / 2) ≡ some p
    → less p x ≡ false

-- The two algorithms of the standard library, with what it guarantees of them: under a strict weak
-- ordering `push_heap` makes a heap of a heap with one more entry at its end, and `pop_heap` moves
-- the first entry of a heap to the end and makes a heap of the others.
pub record HeapAlgorithms (V : Type 0) : Type 0 where
  pub push_heap : (HeapNode V → HeapNode V → Bool) → List (HeapNode V) → List (HeapNode V)
  pub pop_heap : (HeapNode V → HeapNode V → Bool) → List (HeapNode V) → List (HeapNode V)
  pub push_heap_lem :
      (less : HeapNode V → HeapNode V → Bool) (xs : List (HeapNode V)) (x : HeapNode V)
      → IsStrictWeak less
      → IsHeap less xs
      → IsHeap less (push_heap less (xs ++ x ∷ []))
        × Perm (push_heap less (xs ++ x ∷ [])) (xs ++ x ∷ [])
  pub pop_heap_lem :
      (less : HeapNode V → HeapNode V → Bool) (x : HeapNode V) (xs : List (HeapNode V))
      → IsStrictWeak less
      → IsHeap less (x ∷ xs)
      → (ys : List (HeapNode V)) × (pop_heap less (x ∷ xs) ≡ ys ++ x ∷ [])
        × IsHeap less ys
        × Perm ys xs
