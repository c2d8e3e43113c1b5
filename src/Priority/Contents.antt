-- ===== src/Priority/Contents.antt =====
-- lib/min-heap_queue.hpp: the heap as the list of its messages in the order in which they are read.
use mathlib.Core.List.{
  mem-cons_self, mem-cons_of_mem, forall_mem-cons, Permᴰ, perm_append_singleton,
}
use mathlib.Core.List.Perm
use mathlib.Core.Logic.{∥∥₁_elim}
use native.Mathlib.Bridge.{le_prop}
use native.Mathlib.Nat.{ℕ_set}
use message_queue_practical.Prelude.{
  ℕ, suc, ◌<◌, ◌≡◌, refl, sym, ap, subst, ◌∙◌, Bool, true, false, List, [], ◌∷◌, ◌++◌, Perm, Mem,
  map, arith, length, length-map,
}
use message_queue_practical.Spec.Stable.{by_priority}
use message_queue_practical.Priority.Heap.{HeapNode, HeapAlgorithms, later, IsStrictWeak, IsHeap}
use message_queue_practical.Priority.Order.{
  later-IsStrictWeak, IsSorted, place, place-perm, place-IsSorted, heap-sorted,
}

-- The heap `xs` holds the messages `items`, in that order of reading.
pub record Holds {V : Type 0} (comp : V → V → Bool) (xs : List (HeapNode V)) (items : List V)
    : Type 0 where
  pub is_heap : IsHeap (later comp) xs
  pub nodes : List (HeapNode V)
  pub sorted : IsSorted (later comp) nodes
  pub perm : Perm xs nodes
  pub payloads : map (λ n. n.payload) nodes ≡ items

-- Every node of the heap has a sequence number below `seq`.
abbrev pub IsBelow : {V : Type 0} → ℕ → List (HeapNode V) → Type 0
IsBelow {V} seq xs = (n : HeapNode V) → Mem n xs → n.sequence_id < seq

same_length : {A : Type 0} {xs ys : List A} → Permᴰ xs ys → length xs ≡ length ys
same_length (Permᴰ.trans left right) = same_length left ∙ same_length right
same_length (Permᴰ.cons x tails) = ap suc (same_length tails)
same_length (Permᴰ.swap x y) = refl
same_length Permᴰ.nil = refl

pub length-perm : {A : Type 0} {xs ys : List A} → Perm xs ys → length xs ≡ length ys
length-perm p = ∥∥₁_elim p (ℕ_set _ _) same_length

HeapNode-set : {V : Type 0} → IsSet V → IsSet (HeapNode V)
HeapNode-set set = hlevel (set, ℕ_set)

module _ {V : Type 0} (comp : V → V → Bool) where
  pub length-Holds :
      {xs : List (HeapNode V)} {items : List V} → Holds comp xs items → length xs ≡ length items
  length-Holds h =
      length-perm h.perm ∙ sym (length-map h.nodes (λ n. n.payload)) ∙ ap length h.payloads

  -- A node with the highest sequence number is placed behind all that are not greater.
  map-place :
      (n : HeapNode V) (xs : List (HeapNode V))
      → IsBelow n.sequence_id xs
      → map (λ m. m.payload) (place (later comp) n xs)
        ≡ by_priority comp n.payload (map (λ m. m.payload) xs)
  unfolding place later by_priority
  map-place n [] b = refl
  map-place n (x ∷ xs) b =
      ground (arith, b x mem-cons_self, map-place n xs (λ y m. b y (mem-cons_of_mem x m)))

  later_of_newer :
      (n y : HeapNode V)
      → y.sequence_id < n.sequence_id
      → later comp y n ≡ false
      → later comp n y ≡ true
  unfolding later
  later_of_newer n y b e = ground arith

  module _ (algorithms : HeapAlgorithms V) (weak : IsStrictWeak comp) where
    open algorithms use {push_heap, pop_heap, push_heap_lem, pop_heap_lem}

    pub push-Holds :
        (n : HeapNode V) (xs : List (HeapNode V)) (items : List V)
        → IsBelow n.sequence_id xs
        → Holds comp xs items
        → Holds comp (push_heap (later comp) (xs ++ n ∷ [])) (by_priority comp n.payload items)
    push-Holds n xs items b h =
        let strict = later-IsStrictWeak weak in
        let (heap, same) = push_heap_lem (later comp) xs n strict h.is_heap in
        let below : IsBelow n.sequence_id h.nodes = λ y m. b y ((Perm.mem_iff h.perm).1 m) in
        record {
          is_heap = heap;
          nodes = place (later comp) n h.nodes;
          sorted =
              place-IsSorted strict n h.nodes (λ y m e. later_of_newer n y (below y m) e) h.sorted;
          perm = Perm.trans same (
              Perm.trans (perm_append_singleton n xs)
                (Perm.trans (Perm.cons n h.perm) (Perm.symm (place-perm strict n h.nodes))));
          payloads = map-place n h.nodes below ∙ ap (by_priority comp n.payload) h.payloads;
        }

    pub push-IsBelow :
        (n : HeapNode V) (xs : List (HeapNode V)) (items : List V)
        → IsBelow n.sequence_id xs
        → Holds comp xs items
        → IsBelow (suc n.sequence_id) (push_heap (later comp) (xs ++ n ∷ []))
    push-IsBelow n xs items b h y m =
        let same = (push_heap_lem (later comp) xs n (later-IsStrictWeak weak) h.is_heap).1 in
        (forall_mem-cons {p = λ y. y.sequence_id < suc n.sequence_id} (λ y. le_prop)).1
          (omega arith, λ z k. omega (arith, b z k)) y
          ((Perm.mem_iff (Perm.trans same (perm_append_singleton n xs))).0 m)

    -- What `pop_heap` moves to the end is the first message to be read.
    pub pop-Holds :
        (set : IsSet V) (n : HeapNode V) (xs : List (HeapNode V)) (items : List V)
        → Holds comp (n ∷ xs) items
        → (ys : List (HeapNode V)) × (rest : List V) × (pop_heap (later comp) (n ∷ xs)
            ≡ ys ++ n ∷ [])
          × (items ≡ n.payload ∷ rest)
          × Holds comp ys rest
          × Perm ys xs
    pop-Holds set n xs items h =
        let strict = later-IsStrictWeak weak in
        let (ys, popped, heap, same) = pop_heap_lem (later comp) n xs strict h.is_heap in
        let (rest, split, others) =
          heap-sorted strict (HeapNode-set set) n xs h.nodes h.is_heap h.sorted h.perm in
        (
          ys,
          map (λ m. m.payload) rest,
          popped,
          sym h.payloads ∙ ap (map (λ m. m.payload)) split,
          record {
            is_heap = heap;
            nodes = rest;
            sorted = (subst (IsSorted (later comp)) split h.sorted).1;
            perm = Perm.trans same others;
            payloads = refl;
          },
          same,
        )
