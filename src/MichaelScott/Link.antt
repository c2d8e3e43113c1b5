-- ===== src/MichaelScott/Link.antt =====
-- lib/michael_scott_queue.hpp: a node is linked behind the last one, and the head moves on.
use message_queue_practical.Prelude.{
  ℕ, suc, ◌≤◌, ◌<◌, ◌≡◌, ◌≢◌, refl, sym, ◌∙◌, ap, subst, true, Option, none, some, List, [], ◌∷◌,
  ◌++◌, arith, dec_lt, ==_iff, ne→==-false,
}
use message_queue_practical.MichaelScott.Machine.{Shared, linked}
use message_queue_practical.MichaelScott.Chain.{
  Chain, Items, Items-frame, Items-append, Linked, Before, Follows, longer, shorter,
}
use message_queue_practical.MichaelScott.Local.{Frame, Mine, Behind}

module _ {V : Type 0} (m : Shared V) (c : Chain) (q : List V) (l : Linked m c q) (new last : ℕ)
    (v : V) (mine : Mine m c new v) (before : Before c c.tail_pos last)
    (free : (m.cells last).next ≡ none) where
  -- A node with no next one is the last, and the tail is there.
  last_is_end : (c.at c.end_pos ≡ last) × (c.tail_pos ≡ c.end_pos)
  last_is_end =
      let (i, p, e) = before in
      elim (dec_lt i c.end_pos) [
        | yes lt ↦ absurd (cc (l.next_at i lt, e, free))
        | no ge ↦
            let here : i ≡ c.end_pos = omega (arith, l.tail_le_end) in
            (subst (λ j. c.at j ≡ last) here e, omega (arith, l.tail_le_end))
      ]

  abbrev after : Shared V
  after = linked last new m

  longer_at : (i : ℕ) → i ≤ c.end_pos → (longer c new).at i ≡ c.at i
  unfolding longer
  longer_at i h = rw (ne→==-false (suc c.end_pos) i (λ e. omega arith))

  longer_new : (longer c new).at (suc c.end_pos) ≡ new
  unfolding longer
  longer_new = rw ((==_iff (suc c.end_pos) (suc c.end_pos)).1 refl)

  value_same : (a : ℕ) → (after.cells a).value ≡ (m.cells a).value
  value_same a = ground (arith, ==_iff last a)

  live_same : (a : ℕ) → (after.cells a).live ≡ (m.cells a).live
  live_same a = ground (arith, ==_iff last a)

  next_other : (a : ℕ) → last ≢ a → (after.cells a).next ≡ (m.cells a).next
  next_other a h = rw (ne→==-false last a h)

  next_last : (after.cells last).next ≡ some new
  next_last = rw ((==_iff last last).1 refl)

  longer-distinct :
      (i j : ℕ)
      → i ≤ suc c.end_pos
      → j ≤ suc c.end_pos
      → (longer c new).at i ≡ (longer c new).at j
      → i ≡ j
  longer-distinct i j h k e = elim (dec_lt c.end_pos i) [
    | yes p ↦ elim (dec_lt c.end_pos j) [
      | yes r ↦ omega arith
      | no r ↦ absurd (
          mine.apart j (omega arith) (
            sym (longer_at j (omega arith))
            ∙ sym e
            ∙ ap (longer c new).at (omega arith)
            ∙ longer_new))
    ]
    | no p ↦ elim (dec_lt c.end_pos j) [
      | yes r ↦ absurd (
          mine.apart i (omega arith)
            (sym (longer_at i (omega arith)) ∙ e ∙ ap (longer c new).at (omega arith) ∙ longer_new))
      | no r ↦
          l.distinct i j (omega arith) (omega arith)
            (sym (longer_at i (omega arith)) ∙ e ∙ longer_at j (omega arith))
    ]
  ]

  longer-next_at :
      (i : ℕ)
      → i < suc c.end_pos
      → (after.cells ((longer c new).at i)).next ≡ some ((longer c new).at (suc i))
  longer-next_at i h = elim (dec_lt i c.end_pos) [
    | yes p ↦
        rw (longer_at i (omega arith), longer_at (suc i) p)
          (next_other (c.at i) (λ e.
              omega (arith, l.distinct c.end_pos i (omega arith) (omega arith) (last_is_end.0 ∙ e)))
            ∙ l.next_at i p)
    | no p ↦
        let here : i ≡ c.end_pos = omega arith in
        subst (λ j. (after.cells ((longer c new).at j)).next ≡ some ((longer c new).at (suc j)))
          (sym here) (rw (longer_at c.end_pos (omega arith), longer_new, last_is_end.0) next_last)
  ]

  -- What holds of each node of the chain and of the new one.
  each :
      (P : ℕ → Type 0)
      → ((i : ℕ) → i ≤ c.end_pos → P (c.at i))
      → P new
      → (i : ℕ) → i ≤ suc c.end_pos
      → P ((longer c new).at i)
  each P f p i h = elim (dec_lt c.end_pos i) [
    | yes lt ↦ subst (λ j. P ((longer c new).at j)) (omega arith) (subst P (sym longer_new) p)
    | no ge ↦ subst P (sym (longer_at i (omega arith))) (f i (omega arith))
  ]

  pub Linked-linked : Linked after (longer c new) (q ++ v ∷ [])
  unfolding longer
  Linked-linked = record {
    head_le_tail = l.head_le_tail;
    tail_le_end = omega (arith, l.tail_le_end);
    end_le_tail = omega (arith, last_is_end.1);
    at_head = l.at_head ∙ sym (longer_at c.head_pos (omega (arith, l.head_le_tail, l.tail_le_end)));
    at_tail = l.at_tail ∙ sym (longer_at c.tail_pos l.tail_le_end);
    distinct = longer-distinct;
    next_at = longer-next_at;
    next_end = rw longer_new (
        next_other new (λ e. mine.apart c.end_pos (omega arith) (last_is_end.0 ∙ e))
        ∙ mine.no_next);
    live = λ i h.
        live_same ((longer c new).at i) ∙ each (λ a. (m.cells a).live ≡ true) l.live mine.live i h;
    old = λ i h. each (λ a. a < m.fresh) l.old mine.old i h;
    items =
        Items-append after.cells (longer c new).at c.head_pos c.end_pos v q
          (rw longer_new (value_same new ∙ mine.value))
          (Items-frame m.cells after.cells c.at (longer c new).at c.head_pos c.end_pos q
            (λ i h k. rw (longer_at i k) (value_same (c.at i))) l.items);
  }

  pub Frame-linked : Frame (some new) m after c (longer c new)
  unfolding longer
  Frame-linked = record {
    at_kept = longer_at;
    head_moves = omega arith;
    tail_moves = omega arith;
    end_moves = omega arith;
    fresh_moves = omega arith;
    value_kept = λ a h k. value_same a;
    live_kept = λ a h k. live_same a;
    next_kept = λ a h k g. next_other a (λ e. g c.end_pos (omega arith) (last_is_end.0 ∙ e));
    added = λ i h k. ap some (sym longer_new ∙ ap (longer c new).at (omega arith));
  }

  -- The tail may now be moved to the new node.
  pub Follows-linked : Follows (longer c new) c.tail_pos last new
  unfolding longer
  Follows-linked = (
    c.end_pos,
    omega (arith, last_is_end.1),
    omega arith,
    longer_at c.end_pos (omega arith) ∙ last_is_end.0,
    longer_new,
  )

module _ {V : Type 0} (m : Shared V) (c : Chain) (q : List V) (l : Linked m c q) (first next : ℕ)
    (behind : Behind c first next) (here : first ≡ m.head) where
  abbrev popping : Shared V
  popping = record m { head = next }

  -- The node is the head's, and the tail is past it.
  pub head_position :
      (c.head_pos < c.tail_pos) × (c.at c.head_pos ≡ first) × (c.at (suc c.head_pos) ≡ next)
  head_position =
      let (i, p, r, e, g) = behind in
      let same : i ≡ c.head_pos =
        l.distinct i c.head_pos (omega (arith, l.tail_le_end))
          (omega (arith, l.head_le_tail, l.tail_le_end)) (e ∙ here ∙ l.at_head) in
      (omega arith, subst (λ j. c.at j ≡ first) same e, subst (λ j. c.at (suc j) ≡ next) same g)

  -- The value of the next node is the first of the queue.
  pub first_item :
      (v : V) × (rest : List V) × (q ≡ v ∷ rest)
      × ((m.cells next).value ≡ v)
      × Items m.cells c.at (suc c.head_pos) c.end_pos rest
  first_item = split q l.items
    where
      split :
          (vs : List V)
          → Items m.cells c.at c.head_pos c.end_pos vs
          → (v : V) × (rest : List V) × (vs ≡ v ∷ rest)
            × ((m.cells next).value ≡ v)
            × Items m.cells c.at (suc c.head_pos) c.end_pos rest
      split [] h = absurd (omega (arith, head_position.0, l.tail_le_end))
      split (v ∷ rest) h =
          (v, rest, refl, subst (λ a. (m.cells a).value ≡ v) head_position.2 h.1, h.2)

  pub Linked-shorter :
      (rest : List V)
      → Items m.cells c.at (suc c.head_pos) c.end_pos rest
      → Linked popping (shorter c) rest
  Linked-shorter rest items = record {
    head_le_tail = omega (arith, head_position.0);
    tail_le_end = l.tail_le_end;
    end_le_tail = l.end_le_tail;
    at_head = sym head_position.2;
    at_tail = l.at_tail;
    distinct = l.distinct;
    next_at = l.next_at;
    next_end = l.next_end;
    live = l.live;
    old = l.old;
    items = items;
  }

  pub Frame-shorter : (own : Option ℕ) → Frame own m popping c (shorter c)
  Frame-shorter own = record {
    at_kept = λ i h. refl;
    head_moves = omega arith;
    tail_moves = omega arith;
    end_moves = omega arith;
    fresh_moves = omega arith;
    value_kept = λ a h k. refl;
    live_kept = λ a h k. refl;
    next_kept = λ a h k g. refl;
    added = λ i h k. absurd (omega arith);
  }
