-- ===== src/MichaelScott/Progress/Pops.antt =====
-- lib/michael_scott_queue.hpp: the steps of `TryPopOnce`, and all steps together.
use message_queue_practical.Prelude.{
  ℕ, zero, suc, ◌≤◌, ◌≡◌, inl, inr, refl, sym, ◌∙◌, ap, subst, Bool, true, false, not, ◌&&◌, Option,
  none, some, List, [], ◌∷◌, ◌++◌, ok, arith, ◌==◌, Bool-cases, ==_iff, ne→==-false, inc_size,
  dec_lt,
}
use message_queue_practical.Interface.History.{update}
use message_queue_practical.MichaelScott.Machine.{
  Node, Shared, Pc, idle, missed, pop_load_head, pop_retry, store_allocate, store_load_tail,
  store_load_next, store_reload_tail, store_link, store_swing, store_help, store_retry, stored,
  pop_load_tail, pop_load_next, pop_reload_head, pop_help, pop_swing, pop_take, pop_retire,
  pop_unlock, popped, step, taken,
}
use message_queue_practical.MichaelScott.Chain.{Chain, Linked, Follows, shorter}
use message_queue_practical.MichaelScott.Local.{
  pending, Phase, nothing, has_taken, Ends, Behind, Local, touches,
}
use message_queue_practical.MichaelScott.Moves.{Linked-cells, Frame-outside}
use message_queue_practical.MichaelScott.Link.{
  first_item, head_position, Linked-shorter, Frame-shorter,
}
use message_queue_practical.MichaelScott.Progress.{
  keeps, passes, retires, Lives-written, silent, takes, Stepped, notes, quiet, swings,
}
use message_queue_practical.MichaelScott.Progress.Stores

module _ {V : Type 0} (moved_from : V → V) (spurious : Bool) (ph : Phase V) (m : Shared V)
    (c : Chain) (q : List V) (l : Linked m c q) where
  abbrev Steps : Pc V → Type 0
  Steps pc = Local m c ph pc → Stepped moved_from spurious pc ph m c q

  abbrev stays :
      (pc pc' : Pc V)
      → step moved_from spurious pc m ≡ ok pc' m
      → Local m c ph pc'
      → touches pc' ≡ touches pc
      → pending pc' ≡ pending pc
      → Stepped moved_from spurious pc ph m c q
  stays pc pc' = quiet moved_from spurious pc ph m c q l pc'

  Ends-loaded :
      (first last : ℕ) (next : Option ℕ)
      → Ends c first last
      → (m.cells first).next ≡ next
      → (ph ≡ nothing)
      → Local m c ph (pop_reload_head first last next)
  Ends-loaded first last none (i, j, p, r, s, e, g) f h = elim (dec_lt i j) [
    | yes lt ↦ absurd (cc (l.next_at i (omega (arith, l.tail_le_end)), e, f))
    | no ge ↦ (h, (i, j, p, r, s, e, g), sym e ∙ subst (λ k. c.at k ≡ last) (omega arith) g)
  ]
  Ends-loaded first last (some next) (i, j, p, r, s, e, g) f h =
      let covers : c.head_pos ≤ c.end_pos = omega (arith, l.head_le_tail, l.tail_le_end) in
      (
        h,
        (i, j, p, r, s, e, g),
        Stores.Before-Loaded moved_from spurious ph m c q l c.head_pos first (some next) covers
            (i, p, e) f,
      )

  loads_head : Steps pop_load_head
  unfolding step
  loads_head h =
      stays pop_load_head (pop_load_tail m.head) refl (h, (c.head_pos, omega arith, sym l.at_head))
        refl refl

  loads_tail : (first : ℕ) → Steps (pop_load_tail first)
  unfolding step
  loads_tail first (h, (i, p, e)) =
      stays (pop_load_tail first) (pop_load_next first m.tail) refl
        (h, (i, c.tail_pos, p, omega (arith, l.head_le_tail), omega arith, e, sym l.at_tail)) refl
        refl

  loads_next : (first last : ℕ) → Steps (pop_load_next first last)
  unfolding step
  loads_next first last h =
      let (i, j, p, r, s, e, g) = h.1 in
      stays (pop_load_next first last) (pop_reload_head first last (m.cells first).next)
        (rw (
          Stores.Before-live moved_from spurious ph m c q l c.head_pos first
            (omega (arith, l.head_le_tail, l.tail_le_end)) (i, p, e)))
        (Ends-loaded first last (m.cells first).next h.1 refl h.0) refl refl

  helps :
      (first last next : ℕ)
      → Follows c c.head_pos first next
      → first ≡ last
      → Follows c c.tail_pos last next
  helps first last next (i, p, r, e, g) f = (i, omega (arith, l.head_le_tail), r, e ∙ f, g)

  -- The tail, loaded after the head, is past a node other than it.
  behind :
      (first last next : ℕ)
      → Ends c first last
      → Follows c c.head_pos first next
      → (first == last) ≡ false
      → Behind c first next
  behind first last next (i, j, p, r, s, e, g) (k, a, b, f, d) more =
      let covers : c.head_pos ≤ c.end_pos = omega (arith, l.head_le_tail, l.tail_le_end) in
      let same : k ≡ i = l.distinct k i (omega arith) (omega arith) (f ∙ sym e) in
      elim (dec_lt i j) [
        | yes lt ↦ (k, a, omega arith, f, d)
        | no ge ↦
            let first_last : first ≡ last = sym e ∙ subst (λ x. c.at x ≡ last) (omega arith) g in
            absurd (ground arith)
      ]

  reloads_head : (first last : ℕ) (next : Option ℕ) → Steps (pop_reload_head first last next)
  unfolding step
  reloads_head first last none h = elim (Bool-cases (first == m.head)) [
    | inl same ↦ stays (pop_reload_head first last none) missed (rw same) h.0 refl refl
    | inr changed ↦ stays (pop_reload_head first last none) pop_retry (rw changed) h.0 refl refl
  ]
  reloads_head first last (some next) h = elim (Bool-cases (first == m.head)) [
    | inr changed ↦
        stays (pop_reload_head first last (some next)) pop_retry (rw changed) h.0 refl refl
    | inl same ↦ elim (Bool-cases (first == last)) [
      | inl empty ↦
          stays (pop_reload_head first last (some next)) (pop_help last next) (rw (same, empty))
            (h.0, helps first last next h.2 ((==_iff first last).0 empty)) refl refl
      | inr more ↦
          stays (pop_reload_head first last (some next)) (pop_swing first next) (rw (same, more))
            (h.0, behind first last next h.1 h.2 more) refl refl
    ]
  ]

  swings_head : (first next : ℕ) → Steps (pop_swing first next)
  unfolding step
  swings_head first next h = elim (Bool-cases (first == m.head && not spurious)) [
    | inr fails ↦ stays (pop_swing first next) pop_retry (rw fails) h.0 refl refl
    | inl wins ↦
        let here : first ≡ m.head = ground arith in
        let (v, rest, e, value, items) = first_item m c q l first next h.1 here in
        let at = head_position m c q l first next h.1 here in
        record {
          pc' = pop_take first next;
          m' = record m { head = next };
          c' = shorter c;
          ph' = has_taken v;
          q' = rest;
          goes = rw wins;
          linked = Linked-shorter m c q l first next h.1 here rest items;
          local = (ap has_taken (sym value), (c.head_pos, omega arith, at.1, at.2));
          frame = Frame-shorter m c q l first next h.1 here none;
          effect = takes v h.0 refl e;
          claims = λ a f. inr (inr (ground (arith, at.2), omega (arith, at.0, l.tail_le_end)));
          retires = passes refl refl refl (ap some (sym at.1));
          lives = λ a f. inr (inr (f, λ g. absurd (cc g)));
        }
  ]

  takes_value : (first next : ℕ) → Steps (pop_take first next)
  unfolding step
  takes_value first next (e, (i, p, f, g)) = record {
    pc' = pop_retire first (m.cells next).value;
    m' = taken moved_from next m;
    c' = c;
    ph' = ph;
    q' = q;
    goes = rw (subst (λ a. (m.cells a).live ≡ true) g (l.live (suc i) reached));
    linked =
        Linked-cells m c q l (update m.cells next left) m.fresh (omega arith)
          (λ j h. ground (arith, ==_iff next (c.at j)))
          (λ j h. ground (arith, ==_iff next (c.at j)))
          (λ j k h. rw (
            ne→==-false next (c.at j)
              (λ d. omega (arith, l.distinct (suc i) j reached h (g ∙ d)))));
    local = e;
    frame = Frame-outside m c q l (some next) next left m.fresh (omega arith) (inl refl);
    effect = silent refl refl;
    claims = λ a d. absurd (cc d);
    retires = keeps refl refl refl;
    lives =
        Lives-written m (taken moved_from next m) c (some next) none next left (λ a. refl)
          (inr refl) (λ d. inr (suc i, reached, g));
  }
    where
      reached : suc i ≤ c.end_pos
      reached = omega (arith, l.head_le_tail, l.tail_le_end)

      left : Node V
      left = record (m.cells next) { value = moved_from (m.cells next).value }

  -- Every step of a thread, from what it knows.
  pub step-Stepped : (pc : Pc V) → Steps pc
  unfolding step
  step-Stepped idle h = stays idle idle refl h refl refl
  step-Stepped missed h = stays missed missed refl h refl refl
  step-Stepped (stored v true) h = stays (stored v true) (stored v true) refl h refl refl
  step-Stepped (stored v false) h = stays (stored v false) (stored v false) refl h refl refl
  step-Stepped (popped v) h = stays (popped v) (popped v) refl h refl refl
  step-Stepped (store_allocate v k) h = Stores.allocates moved_from spurious ph m c q l v k h
  step-Stepped (store_load_tail v new k) h = Stores.loops moved_from spurious ph m c q l v new k h
  step-Stepped (store_load_next v new last k) h =
      Stores.loads_next moved_from spurious ph m c q l v new last k h
  step-Stepped (store_reload_tail v new last next k) h =
      Stores.reloads_tail moved_from spurious ph m c q l v new last next k h
  step-Stepped (store_link v new last k) h =
      Stores.links moved_from spurious ph m c q l v new last k h
  step-Stepped (store_swing v new last) h =
      (Stores.swings_tail moved_from spurious ph m c q l v new last zero none).0 h
  step-Stepped (store_help v new last next k) h =
      (Stores.swings_tail moved_from spurious ph m c q l v new last next k).1 h
  step-Stepped (store_retry v new k) h = Stores.retries moved_from spurious ph m c q l v new k h
  step-Stepped pop_load_head h = loads_head h
  step-Stepped (pop_load_tail first) h = loads_tail first h
  step-Stepped (pop_load_next first last) h = loads_next first last h
  step-Stepped (pop_reload_head first last next) h = reloads_head first last next h
  step-Stepped (pop_help last next) h =
      swings moved_from spurious (pop_help last next) ph m c q l missed last next h.1 refl h.0 refl
        refl
  step-Stepped (pop_swing first next) h = swings_head first next h
  step-Stepped (pop_take first next) h = takes_value first next h
  step-Stepped (pop_retire first v) h = elim (Bool-cases m.retired_locked) [
    | inl taken_by ↦ stays (pop_retire first v) (pop_retire first v) (rw taken_by) h refl refl
    | inr free ↦
        notes moved_from spurious (pop_retire first v) ph m c q l (pop_unlock v)
          (m.retired ++ first ∷ []) true m.cas_retries (rw free) h refl
          (retires first refl refl refl refl)
  ]
  step-Stepped (pop_unlock v) h =
      notes moved_from spurious (pop_unlock v) ph m c q l (popped v) m.retired false m.cas_retries
        refl h refl (keeps refl refl refl)
  step-Stepped pop_retry h =
      notes moved_from spurious pop_retry ph m c q l missed m.retired m.retired_locked
        (inc_size m.cas_retries) refl h refl (keeps refl refl refl)
