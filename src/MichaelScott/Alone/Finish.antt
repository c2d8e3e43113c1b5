-- ===== src/MichaelScott/Alone/Finish.antt =====
-- lib/michael_scott_queue.hpp: a store or a pop that runs alone ends, and does what it should.
use message_queue_practical.Prelude.{
  ℕ, zero, suc, ◌<◌, ◌≡◌, refl, sym, ◌∙◌, ap, subst, true, false, none, some, List, [], ◌∷◌, ◌++◌,
  ok, arith, dec_lt, inc_size, Bool-cases, inl, inr,
}
use message_queue_practical.MichaelScott.Machine.{
  Shared, Attempts, Pc, store_load_tail, stored, linked,
}
use message_queue_practical.MichaelScott.Chain.{Chain, Linked}
use message_queue_practical.MichaelScott.Local.{Phase, nothing, has_put, has_taken, Local}
use message_queue_practical.MichaelScott.Progress.{Effect, silent, puts, takes}
use message_queue_practical.MichaelScott.Progress.Pops.{step-Stepped}
use message_queue_practical.MichaelScott.System.{is_done}
use message_queue_practical.MichaelScott.Alone.{
  alone, alone-step, Turns, alone-done, store_quiet, store_lagging,
}

module _ {V : Type 0} where
  -- Two steps of one call together append or remove at most one value.
  Effect-trans :
      {ph ph' ph'' : Phase V} {q q' q'' : List V}
      → Effect ph ph' q q'
      → Effect ph' ph'' q' q''
      → Effect ph ph'' q q''
  Effect-trans (silent e f) (silent g h) = silent (g ∙ e) (h ∙ f)
  Effect-trans (silent e f) (puts v g h k) = puts v (sym e ∙ g) h (k ∙ ap (λ l. l ++ v ∷ []) f)
  Effect-trans (silent e f) (takes v g h k) = takes v (sym e ∙ g) h (sym f ∙ k)
  Effect-trans (puts v e f g) (silent h k) = puts v e (h ∙ f) (k ∙ g)
  Effect-trans (puts v e f g) (puts w h k r) = absurd (cc (f, h))
  Effect-trans (puts v e f g) (takes w h k r) = absurd (cc (f, h))
  Effect-trans (takes v e f g) (silent h k) = takes v e (h ∙ f) (g ∙ ap (λ l. v ∷ l) (sym k))
  Effect-trans (takes v e f g) (puts w h k r) = absurd (cc (f, h))
  Effect-trans (takes v e f g) (takes w h k r) = absurd (cc (f, h))

  pub Effect-has_put :
      {ph : Phase V} {q q' : List V} (v : V)
      → Effect nothing ph q q'
      → ph ≡ has_put v
      → q' ≡ q ++ v ∷ []
  Effect-has_put v (silent e f) g = absurd (cc (e, g))
  Effect-has_put {q = q} v (puts w e f g) h = g ∙ ap (λ x. q ++ x ∷ []) (cc (f, h))
  Effect-has_put v (takes w e f g) h = absurd (cc (f, h))

  pub Effect-has_taken :
      {ph : Phase V} {q q' : List V} (v : V)
      → Effect nothing ph q q'
      → ph ≡ has_taken v
      → q ≡ v ∷ q'
  Effect-has_taken v (silent e f) g = absurd (cc (e, g))
  Effect-has_taken v (puts w e f g) h = absurd (cc (f, h))
  Effect-has_taken {q' = q'} v (takes w e f g) h = g ∙ ap (λ x. x ∷ q') (cc (f, h))

  pub Effect-nothing :
      {ph : Phase V} {q q' : List V} → Effect nothing ph q q' → ph ≡ nothing → q' ≡ q
  Effect-nothing (silent e f) g = f
  Effect-nothing (puts w e f g) h = absurd (cc (f, h))
  Effect-nothing (takes w e f g) h = absurd (cc (f, h))

  -- The other fields stay.
  pub record SameRest (m m' : Shared V) : Type 0 where
    pub size_same : m'.current_size ≡ m.current_size
    pub capacity_same : m'.capacity ≡ m.capacity
    pub closed_same : m'.closed ≡ m.closed
    pub done_same : m'.successful_operations ≡ m.successful_operations
    pub lock_same : m'.retired_locked ≡ m.retired_locked

  module _ (m : Shared V) (c : Chain) (q : List V) (l : Linked m c q) where
    pub live_tail : (m.cells m.tail).live ≡ true
    live_tail =
        subst (λ a. (m.cells a).live ≡ true) (sym l.at_tail) (l.live c.tail_pos l.tail_le_end)

    pub live_head : (m.cells m.head).live ≡ true
    live_head =
        subst (λ a. (m.cells a).live ≡ true) (sym l.at_head)
          (l.live c.head_pos (omega (arith, l.head_le_tail, l.tail_le_end)))

    -- The node after a position, if it is not the last.
    pub next_of : (a i : ℕ) → a ≡ c.at i → i < c.end_pos → (m.cells a).next ≡ some (c.at (suc i))
    next_of a i e h = subst (λ b. (m.cells b).next ≡ some (c.at (suc i))) (sym e) (l.next_at i h)

    pub next_last : (a i : ℕ) → a ≡ c.at i → i ≡ c.end_pos → (m.cells a).next ≡ none
    next_last a i e f = subst (λ b. (m.cells b).next ≡ none) (ap c.at (sym f) ∙ sym e) l.next_end

module _ {V : Type 0} (moved_from : V → V) where
  -- What a thread that ran alone has reached.
  pub record Reached (n : ℕ) (pc : Pc V) (ph : Phase V) (m : Shared V) (q : List V) : Type 0 where
    pub pc' : Pc V
    pub m' : Shared V
    pub c' : Chain
    pub ph' : Phase V
    pub q' : List V
    pub goes : alone moved_from n pc m ≡ ok pc' m'
    pub linked : Linked m' c' q'
    pub local : Local m' c' ph' pc'
    pub effect : Effect ph ph' q q'

  alone-Reached :
      (n : ℕ) (pc : Pc V) (ph : Phase V) (m : Shared V) (c : Chain) (q : List V)
      → Linked m c q
      → Local m c ph pc
      → Reached n pc ph m q
  unfolding alone
  alone-Reached zero pc ph m c q l h = record {
    pc' = pc;
    m' = m;
    c' = c;
    ph' = ph;
    q' = q;
    goes = refl;
    linked = l;
    local = h;
    effect = silent refl refl;
  }
  alone-Reached (suc n) pc ph m c q l h = elim (Bool-cases (is_done pc)) [
    | inl done ↦ record {
      pc' = pc;
      m' = m;
      c' = c;
      ph' = ph;
      q' = q;
      goes = alone-done moved_from (suc n) pc m done;
      linked = l;
      local = h;
      effect = silent refl refl;
    }
    | inr busy ↦
        let r = step-Stepped moved_from false ph m c q l pc h in
        let rest = alone-Reached n r.pc' r.ph' r.m' r.c' r.q' r.linked r.local in
        record {
          pc' = rest.pc';
          m' = rest.m';
          c' = rest.c';
          ph' = rest.ph';
          q' = rest.q';
          goes = alone-step moved_from n pc r.pc' m r.m' busy r.goes ∙ rest.goes;
          linked = rest.linked;
          local = rest.local;
          effect = Effect-trans r.effect rest.effect;
        }
  ]

  -- A store from the head of its loop, with two turns of it left.
  module _ (k k' k'' : Attempts) (first : Turns moved_from k k') (second : Turns moved_from k' k'')
      (v : V) (new : ℕ) where
    pub stores_from :
        (m : Shared V) (c : Chain) (q : List V)
        → Linked m c q
        → (m' : Shared V) × (alone moved_from 10 (store_load_tail v new k) m
            ≡ ok (stored v true) m')
          × SameRest m m'
    stores_from m c q l = elim (dec_lt c.tail_pos c.end_pos) [
      | no quiet ↦
          let m' : Shared V = record (linked m.tail new m) { tail = new } in
          (
            m',
            store_quiet moved_from 5 m v new k k' first (live_tail m c q l)
                  (next_last m c q l m.tail c.tail_pos l.at_tail (omega (arith, l.tail_le_end)))
                ∙ alone-done moved_from 5 (stored v true) m' refl,
            record {
              size_same = refl;
              capacity_same = refl;
              closed_same = refl;
              done_same = refl;
              lock_same = refl;
            },
          )
      | yes lagging ↦
          let next = c.at (suc c.tail_pos) in
          let last : suc c.tail_pos ≡ c.end_pos = omega (arith, l.end_le_tail) in
          let m' : Shared V = record m { tail = next; cas_retries = inc_size m.cas_retries } in
          let m'' : Shared V = record (linked next new m') { tail = new } in
          (
            m'',
            store_lagging moved_from 5 m v new k k' first next (live_tail m c q l)
                  (next_of m c q l m.tail c.tail_pos l.at_tail lagging)
                ∙ store_quiet moved_from 0 m' v new k' k'' second (l.live (suc c.tail_pos) lagging)
                    (next_last m c q l next (suc c.tail_pos) refl last)
                ∙ alone-done moved_from 0 (stored v true) m'' refl,
            record {
              size_same = refl;
              capacity_same = refl;
              closed_same = refl;
              done_same = refl;
              lock_same = refl;
            },
          )
    ]

  -- Where a call that runs alone ends, the nodes are still chained.
  pub ends_at :
      (n : ℕ) (pc pc' : Pc V) (m m' : Shared V) (c : Chain) (q : List V)
      → Linked m c q
      → Local m c nothing pc
      → alone moved_from n pc m ≡ ok pc' m'
      → (c' : Chain) × (q' : List V) × (ph' : Phase V) × Linked m' c' q'
        × Local m' c' ph' pc'
        × Effect nothing ph' q q'
  ends_at n pc pc' m m' c q l h e =
      let r = alone-Reached n pc nothing m c q l h in
      let same : ok r.pc' r.m' ≡ ok pc' m' = sym r.goes ∙ e in
      let memory : r.m' ≡ m' = cc same in
      let point : r.pc' ≡ pc' = cc same in
      (
        r.c',
        r.q',
        r.ph',
        subst (λ x. Linked x r.c' r.q') memory r.linked,
        subst (λ x. Local x r.c' r.ph' pc') memory
            (subst (λ x. Local r.m' r.c' r.ph' x) point r.local),
        r.effect,
      )
