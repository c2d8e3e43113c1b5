-- ===== src/MichaelScott/Destroy.antt =====
-- lib/michael_scott_queue.hpp: the destructor. It frees the nodes from the head on, and those of
-- `retired_nodes_`. Freeing a node that is not live is undefined. `head_` is what the loop hands on.
use message_queue_practical.Prelude.{
  ℕ, zero, suc, ◌+◌, ◌≤◌, ◌<◌, ◌≡◌, ◌≢◌, inl, inr, refl, sym, ◌∙◌, ap, subst, true, false, Option,
  none, some, List, [], ◌∷◌, ok, blocks, faults, M, ◌>>◌, arith, ==_iff, ne→==-false, ℕ_discrete,
  Bool-cases, dec_lt,
}
use message_queue_practical.MichaelScott.Machine.{Node, Shared, freed}
use message_queue_practical.MichaelScott.Chain.{Chain, Linked}
use message_queue_practical.MichaelScott.Ledger.{Within, Distinct}

-- A node at a position from `i` on.
abbrev pub From : Chain → ℕ → ℕ → Type 0
From c i a = (j : ℕ) × (i ≤ j) × (j ≤ c.end_pos) × (c.at j ≡ a)

module _ {V : Type 0} where
  -- The first loop, for at most so many turns.
  unfoldable pub free_chain : ℕ → Option ℕ → M (Shared V) (Unit {0})
  free_chain n none m = ok tt m
  free_chain zero (some current) m = blocks m
  free_chain (suc n) (some current) m = elim (m.cells current).live [
    | true ↦ free_chain n (m.cells current).next (freed current m)
    | false ↦ faults
  ]

  unfoldable pub free_retired : List ℕ → M (Shared V) (Unit {0})
  free_retired [] m = ok tt m
  free_retired (current ∷ rest) m = elim (m.cells current).live [
    | true ↦ free_retired rest (freed current m)
    | false ↦ faults
  ]

  unfoldable pub destroy : ℕ → M (Shared V) (Unit {0})
  destroy n m = (do free_chain n (some m.head); free_retired m.retired) m

  -- What is live after a node was freed.
  freed-live :
      (b a : ℕ) (m : Shared V)
      → ((freed b m).cells a).live ≡ true
      → ((m.cells a).live ≡ true) × (b ≢ a)
  freed-live b a m h = elim (ℕ_discrete b a) [
    | yes e ↦ absurd (ground (arith, ==_iff b a))
    | no n ↦ (ground (arith, ne→==-false b a n), n)
  ]

  freed-other : (b a : ℕ) (m : Shared V) → b ≢ a → (freed b m).cells a ≡ m.cells a
  freed-other b a m n = rw (ne→==-false b a n) refl

  -- The nodes of the chain from position `i` on.
  pub record Rest (m : Shared V) (c : Chain) (i : ℕ) : Type 0 where
    pub covers : i ≤ c.end_pos
    pub next_at : (j : ℕ) → i ≤ j → j < c.end_pos → (m.cells (c.at j)).next ≡ some (c.at (suc j))
    pub next_end : (m.cells (c.at c.end_pos)).next ≡ none
    pub live : (j : ℕ) → i ≤ j → j ≤ c.end_pos → (m.cells (c.at j)).live ≡ true

  -- The nodes of `P` were freed, and no other.
  pub record Freed (m m' : Shared V) (P : ℕ → Type 0) : Type 0 where
    pub live_before : (a : ℕ) → (m'.cells a).live ≡ true → ((m.cells a).live ≡ true) × ¬ P a
    pub others : (a : ℕ) → ¬ P a → m'.cells a ≡ m.cells a
    pub retired_same : m'.retired ≡ m.retired

  module _ (c : Chain)
      (distinct : (i j : ℕ) → i ≤ c.end_pos → j ≤ c.end_pos → c.at i ≡ c.at j → i ≡ j) where
    Rest-freed :
        (m : Shared V) (i : ℕ) → Rest m c i → i < c.end_pos → Rest (freed (c.at i) m) c (suc i)
    Rest-freed m i r h = record {
      covers = omega arith;
      next_at = λ j k g.
          ap (λ (x : Node V). x.next) (freed-other (c.at i) (c.at j) m (apart j k (omega arith)))
          ∙ r.next_at j (omega arith) g;
      next_end =
          ap (λ (x : Node V). x.next)
            (freed-other (c.at i) (c.at c.end_pos) m (apart c.end_pos (omega arith) (omega arith)))
          ∙ r.next_end;
      live = λ j k g.
          ap (λ (x : Node V). x.live) (freed-other (c.at i) (c.at j) m (apart j k g))
          ∙ r.live j (omega arith) g;
    }
      where
        apart : (j : ℕ) → suc i ≤ j → j ≤ c.end_pos → c.at i ≢ c.at j
        apart j k g e = omega (arith, distinct i j (omega arith) g e)

    free_chain-Freed :
        (n i : ℕ) (m : Shared V)
        → Rest m c i
        → c.end_pos < i + n
        → (m' : Shared V) × (free_chain n (some (c.at i)) m ≡ ok tt m') × Freed m m' (From c i)
    unfolding free_chain
    free_chain-Freed zero i m r h = absurd (omega (arith, r.covers))
    free_chain-Freed (suc n) i m r h = elim (ℕ_discrete i c.end_pos) [
      | yes e ↦
          let here : (m.cells (c.at i)).next ≡ none =
            subst (λ j. (m.cells (c.at j)).next ≡ none) (sym e) r.next_end in
          (
            freed (c.at i) m,
            ground (arith, here, r.live i (omega arith) r.covers),
            record {
              live_before = λ a f.
                  let (was, other) = freed-live (c.at i) a m f in
                  (was, λ (j, k, g, p). other (ap c.at (omega arith) ∙ p));
              others = λ a f. freed-other (c.at i) a m (λ p. f (i, omega arith, r.covers, p));
              retired_same = refl;
            },
          )
      | no more ↦
          let lt : i < c.end_pos = omega (arith, r.covers) in
          let (m', goes, s) =
            free_chain-Freed n (suc i) (freed (c.at i) m) (Rest-freed m i r lt) (omega arith) in
          (
            m',
            ground (arith, goes, r.live i (omega arith) r.covers, r.next_at i (omega arith) lt),
            record {
              live_before = λ a f.
                  let (was, later) = s.live_before a f in
                  let (first, other) = freed-live (c.at i) a m was in
                  (
                    first,
                    λ (j, k, g, p). elim (ℕ_discrete i j) [
                      | yes q ↦ other (ap c.at q ∙ p)
                      | no q ↦ later (j, omega arith, g, p)
                    ],
                  );
              others = λ a f.
                  s.others a (λ (j, k, g, p). f (j, omega arith, g, p))
                  ∙ freed-other (c.at i) a m (λ p. f (i, omega arith, r.covers, p));
              retired_same = s.retired_same;
            },
          )
    ]

  free_retired-live :
      (xs : List ℕ) (m : Shared V)
      → Distinct xs
      → ((a : ℕ) → Within a xs → (m.cells a).live ≡ true)
      → (m' : Shared V) × (free_retired xs m ≡ ok tt m')
        × ((a : ℕ) → (m'.cells a).live ≡ true → ((m.cells a).live ≡ true) × ¬ Within a xs)
  unfolding free_retired
  free_retired-live [] m d live = (m, refl, λ a h. (h, λ k. k))
  free_retired-live (x ∷ xs) m d live =
      let (m', goes, after) = free_retired-live xs (freed x m) d.1 (λ a k.
        ap (λ (y : Node V). y.live)
          (freed-other x a m (λ e. d.0 (subst (λ b. Within b xs) (sym e) k)))
        ∙ live a (inr k)) in
      (
        m',
        ground (arith, goes, live x (inl refl)),
        λ a h.
            let (was, later) = after a h in
            let (first, other) = freed-live x a m was in
            (first, λ k. elim k [ inl e ↦ other e | inr f ↦ later f ]),
      )

  -- Where the retired nodes are those that the head has passed, and all live nodes were linked.
  pub destroy_frees :
      (n : ℕ) (m : Shared V) (c : Chain) (q : List V)
      → Linked m c q
      → c.end_pos < c.head_pos + n
      → Distinct m.retired
      → ((a : ℕ) → Within a m.retired → (i : ℕ) × (i < c.head_pos) × (c.at i ≡ a))
      → ((i : ℕ) → i < c.head_pos → Within (c.at i) m.retired)
      → ((a : ℕ) → (m.cells a).live ≡ true → (i : ℕ) × (i ≤ c.end_pos) × (c.at i ≡ a))
      → (m' : Shared V) × (destroy n m ≡ ok tt m') × ((a : ℕ) → (m'.cells a).live ≡ false)
  unfolding destroy
  destroy_frees n m c q l enough distinct passed covered owned =
      let (m', goes, s) = free_chain-Freed c l.distinct n c.head_pos m rest enough in
      let (m'', goes', after) = free_retired-live m.retired m' distinct (λ a k.
        let (i, h, e) = passed a k in
        ap (λ (x : Node V). x.live)
          (s.others a (λ (j, g, p, f). omega (arith, l.distinct i j (omega arith) p (e ∙ sym f))))
        ∙ subst (λ x. (m.cells x).live ≡ true) e
            (l.live i (omega (arith, l.head_le_tail, l.tail_le_end)))) in
      (
        m'',
        ground (arith, goes, goes', l.at_head, s.retired_same),
        λ a. elim (Bool-cases (m''.cells a).live) [
          | inr e ↦ e
          | inl e ↦
              let (was, not_retired) = after a e in
              let (first, not_linked) = s.live_before a was in
              let (i, h, f) = owned a first in
              elim (dec_lt i c.head_pos) [
                | yes k ↦ absurd (not_retired (subst (λ x. Within x m.retired) f (covered i k)))
                | no k ↦ absurd (not_linked (i, omega arith, h, f))
              ]
        ],
      )
    where
      rest : Rest m c c.head_pos
      rest = record {
        covers = omega (arith, l.head_le_tail, l.tail_le_end);
        next_at = λ j h g. l.next_at j g;
        next_end = l.next_end;
        live = λ j h g. l.live j g;
      }
