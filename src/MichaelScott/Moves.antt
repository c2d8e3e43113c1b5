-- ===== src/MichaelScott/Moves.antt =====
-- lib/michael_scott_queue.hpp: the changes of the shared fields that a step can make, and what they
-- do to the chain.
use message_queue_practical.Prelude.{
  ℕ, suc, ◌≤◌, ◌<◌, ◌≡◌, ◌≢◌, ◌⊎◌, inl, inr, refl, sym, ◌∙◌, ap, Bool, Option, some, List, arith,
  ◌==◌, if◌then◌else◌, ==_iff, ne→==-false, ℕ_discrete,
}
use message_queue_practical.Interface.History.{update}
use message_queue_practical.MichaelScott.Machine.{Node, Shared, swung}
use message_queue_practical.MichaelScott.Chain.{Chain, Items-frame, Linked, Follows}
use message_queue_practical.MichaelScott.Local.{Frame}

module _ {V : Type 0} (m : Shared V) (c : Chain) (q : List V) (l : Linked m c q) where
  pub end_covers : (c.head_pos ≤ c.end_pos) × (c.tail_pos ≤ c.end_pos)
  end_covers = omega (arith, l.head_le_tail, l.tail_le_end)

  -- The retired nodes, their mutex and the statistics do not matter.
  pub Linked-noted :
      (r : List ℕ) (b : Bool) (n : ℕ)
      → Linked (record m { retired = r; retired_locked = b; cas_retries = n }) c q
  Linked-noted r b n = record {
    head_le_tail = l.head_le_tail;
    tail_le_end = l.tail_le_end;
    end_le_tail = l.end_le_tail;
    at_head = l.at_head;
    at_tail = l.at_tail;
    distinct = l.distinct;
    next_at = l.next_at;
    next_end = l.next_end;
    live = l.live;
    old = l.old;
    items = l.items;
  }

  pub Frame-noted :
      (own : Option ℕ) (r : List ℕ) (b : Bool) (n : ℕ)
      → Frame own m (record m { retired = r; retired_locked = b; cas_retries = n }) c c
  Frame-noted own r b n = record {
    at_kept = λ i h. refl;
    head_moves = omega arith;
    tail_moves = omega arith;
    end_moves = omega arith;
    fresh_moves = omega arith;
    value_kept = λ a h k. refl;
    live_kept = λ a h k. refl;
    next_kept = λ a h k g. refl;
    added = λ i h k. absurd (omega arith);
  }

  -- Cells may change outside the chain, and in the values that the head has passed.
  pub Linked-cells :
      (cells : ℕ → Node V) (fresh : ℕ)
      → m.fresh ≤ fresh
      → ((i : ℕ) → i ≤ c.end_pos → (cells (c.at i)).next ≡ (m.cells (c.at i)).next)
      → ((i : ℕ) → i ≤ c.end_pos → (cells (c.at i)).live ≡ (m.cells (c.at i)).live)
      → ((i : ℕ)
          → c.head_pos < i
          → i ≤ c.end_pos
          → (cells (c.at i)).value ≡ (m.cells (c.at i)).value)
      → Linked (record m { cells = cells; fresh = fresh }) c q
  Linked-cells cells fresh le nexts lives values = record {
    head_le_tail = l.head_le_tail;
    tail_le_end = l.tail_le_end;
    end_le_tail = l.end_le_tail;
    at_head = l.at_head;
    at_tail = l.at_tail;
    distinct = l.distinct;
    next_at = λ i h. nexts i (omega arith) ∙ l.next_at i h;
    next_end = nexts c.end_pos (omega arith) ∙ l.next_end;
    live = λ i h. lives i h ∙ l.live i h;
    old = λ i h. omega (arith, l.old i h);
    items = Items-frame m.cells cells c.at c.at c.head_pos c.end_pos q values l.items;
  }

  -- A node outside the chain is written.
  pub Linked-outside :
      (a : ℕ) (node : Node V) (fresh : ℕ)
      → m.fresh ≤ fresh
      → ((i : ℕ) → i ≤ c.end_pos → c.at i ≢ a)
      → Linked (record m { cells = update m.cells a node; fresh = fresh }) c q
  Linked-outside a node fresh le apart =
      Linked-cells (update m.cells a node) fresh le (λ i h. ap (λ (x : Node V). x.next) (same i h))
        (λ i h. ap (λ (x : Node V). x.live) (same i h))
        (λ i k h. ap (λ (x : Node V). x.value) (same i h))
    where
      same : (i : ℕ) → i ≤ c.end_pos → update m.cells a node (c.at i) ≡ m.cells (c.at i)
      same i h = rw (ne→==-false a (c.at i) (λ e. apart i h (sym e)))

  pub Frame-outside :
      (own : Option ℕ) (a : ℕ) (node : Node V) (fresh : ℕ)
      → m.fresh ≤ fresh
      → (own ≡ some a) ⊎ (m.fresh ≤ a)
      → Frame own m (record m { cells = update m.cells a node; fresh = fresh }) c c
  Frame-outside own a node fresh le mine = record {
    at_kept = λ i h. refl;
    head_moves = omega arith;
    tail_moves = omega arith;
    end_moves = omega arith;
    fresh_moves = le;
    value_kept = λ b h k. ap (λ (x : Node V). x.value) (same b h k);
    live_kept = λ b h k. ap (λ (x : Node V). x.live) (same b h k);
    next_kept = λ b h k g. ap (λ (x : Node V). x.next) (same b h k);
    added = λ i h k. absurd (omega arith);
  }
    where
      same : (b : ℕ) → b < m.fresh → own ≢ some b → update m.cells a node b ≡ m.cells b
      same b h k =
          rw (ne→==-false a b (λ e. elim mine [ inl o ↦ k (o ∙ ap some e) | inr ge ↦ omega arith ]))

  -- The compare-exchange of the tail from a node to the one after it.
  unfoldable pub swung_chain : ℕ → Chain
  swung_chain last = if m.tail == last then record c { tail_pos = suc c.tail_pos } else c

  pub swung_same :
      (last next : ℕ)
      → ((swung_chain last).head_pos ≡ c.head_pos)
        × ((swung last next m).retired ≡ m.retired)
        × ((a : ℕ) → ((swung last next m).cells a).live ≡ (m.cells a).live)
  unfolding swung_chain
  swung_same last next = elim (ℕ_discrete m.tail last) [
    | yes f ↦ rw ((==_iff m.tail last).1 f) (refl, refl, λ a. refl)
    | no n ↦ rw (ne→==-false m.tail last n) (refl, refl, λ a. refl)
  ]

  pub Linked-swung :
      (last next : ℕ)
      → Follows c c.tail_pos last next
      → Linked (swung last next m) (swung_chain last) q
  unfolding swung_chain
  Linked-swung last next (i, p, b, e, g) = elim (ℕ_discrete m.tail last) [
    | yes f ↦
        let here : i ≡ c.tail_pos =
          l.distinct i c.tail_pos (omega arith) l.tail_le_end (e ∙ sym f ∙ l.at_tail) in
        rw ((==_iff m.tail last).1 f) (record {
          head_le_tail = omega (arith, l.head_le_tail);
          tail_le_end = omega arith;
          end_le_tail = omega (arith, l.end_le_tail);
          at_head = l.at_head;
          at_tail = sym g ∙ ap (λ j. c.at (suc j)) here;
          distinct = l.distinct;
          next_at = l.next_at;
          next_end = l.next_end;
          live = l.live;
          old = l.old;
          items = l.items;
        })
    | no n ↦ rw (ne→==-false m.tail last n) l
  ]

  pub Frame-swung :
      (own : Option ℕ) (last next : ℕ) → Frame own m (swung last next m) c (swung_chain last)
  unfolding swung_chain
  Frame-swung own last next = elim (ℕ_discrete m.tail last) [
    | yes f ↦ rw ((==_iff m.tail last).1 f) (record {
      at_kept = λ i h. refl;
      head_moves = omega arith;
      tail_moves = omega arith;
      end_moves = omega arith;
      fresh_moves = omega arith;
      value_kept = λ a h k. refl;
      live_kept = λ a h k. refl;
      next_kept = λ a h k g. refl;
      added = λ i h k. absurd (omega arith);
    })
    | no n ↦
        rw (ne→==-false m.tail last n) (Frame-noted own m.retired m.retired_locked m.cas_retries)
  ]
