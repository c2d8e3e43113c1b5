-- ===== src/MichaelScott/Progress.antt =====
-- lib/michael_scott_queue.hpp: each step of a thread is no step, an append or a removal of the first
-- message of the abstract queue, and touches no node that is not live.
pub mod Stores
pub mod Pops
use message_queue_practical.Prelude.{
  ℕ, zero, suc, ◌≤◌, ◌<◌, ◌≡◌, ◌≢◌, ◌⊎◌, inl, inr, refl, sym, ◌∙◌, ap, ℕ_discrete, subst, Bool,
  true, false, not, ◌&&◌, Option, none, some, List, [], ◌∷◌, ◌++◌, ok, arith, ◌==◌, if◌then◌else◌,
  Bool-cases, Option-cases, ==_iff, ne→==-false, inc_size,
}
use message_queue_practical.Interface.History.{update}
use message_queue_practical.MichaelScott.Machine.{
  Node, Shared, Attempts, Pc, idle, missed, pop_load_head, pop_retry, store_allocate,
  store_load_tail, store_load_next, store_reload_tail, store_link, store_swing, store_help,
  store_retry, stored, pop_load_tail, pop_load_next, pop_reload_head, pop_help, pop_swing, pop_take,
  pop_retire, popped, step, is_null, swung, linked, taken, freed, allocated,
}
use message_queue_practical.MichaelScott.Chain.{Chain, Linked, Before, Follows, longer, shorter}
use message_queue_practical.MichaelScott.Local.{
  Phase, nothing, has_put, has_taken, Mine, Loaded, Ends, Behind, Passed, Local, touches, pending,
  Frame, Local-kept,
}
use message_queue_practical.MichaelScott.Moves.{
  end_covers, Linked-noted, Frame-noted, Linked-cells, Linked-outside, Frame-outside, swung_chain,
  swung_same, Linked-swung, Frame-swung,
}
use message_queue_practical.MichaelScott.Link

-- What a step of a thread in phase `ph` does to the abstract queue.
pub data Effect {V : Type 0} (ph ph' : Phase V) (q q' : List V) : Type 0 where
  silent : ph' ≡ ph → q' ≡ q → Effect ph ph' q q'
  puts : (v : V) → ph ≡ nothing → ph' ≡ has_put v → q' ≡ q ++ v ∷ [] → Effect ph ph' q q'
  takes : (v : V) → ph ≡ nothing → ph' ≡ has_taken v → q ≡ v ∷ q' → Effect ph ph' q q'

-- A node that the thread has now and did not have before is new, or the one after the head.
abbrev pub Claims : {V : Type 0} → Shared V → Chain → Option ℕ → Option ℕ → Type 0
Claims m c own own' =
    (a : ℕ)
    → own' ≡ some a
    → (own ≡ some a) ⊎ (m.fresh ≤ a) ⊎ ((a ≡ c.at (suc c.head_pos)) × (suc c.head_pos ≤ c.end_pos))

-- The head moves on and the thread has the node to retire, or the thread retires it, or neither.
pub data Retires {V : Type 0} (m m' : Shared V) (c c' : Chain) (p p' : Option ℕ) : Type 0 where
  keeps : c'.head_pos ≡ c.head_pos → m'.retired ≡ m.retired → p' ≡ p → Retires m m' c c' p p'
  passes :
      c'.head_pos ≡ suc c.head_pos
      → m'.retired ≡ m.retired
      → p ≡ none
      → p' ≡ some (c.at c.head_pos)
      → Retires m m' c c' p p'
  retires :
      (a : ℕ)
      → c'.head_pos ≡ c.head_pos
      → m'.retired ≡ m.retired ++ a ∷ []
      → p ≡ some a
      → p' ≡ none
      → Retires m m' c c' p p'

-- A node that is live after a step is the thread's, or in the chain, or was live and not the thread's.
abbrev pub Lives : {V : Type 0} → Shared V → Shared V → Chain → Option ℕ → Option ℕ → Type 0
Lives m m' c' own own' =
    (a : ℕ)
    → (m'.cells a).live ≡ true
    → (own' ≡ some a) ⊎ Before c' c'.end_pos a ⊎ (((m.cells a).live ≡ true) × (own ≢ some a))

-- Where the cells and the thread's node stay.
pub Lives-kept :
    {V : Type 0} (m m' : Shared V) (c' : Chain) (own own' : Option ℕ)
    → ((a : ℕ) → (m'.cells a).live ≡ (m.cells a).live)
    → own' ≡ own
    → Lives m m' c' own own'
Lives-kept m m' c' none own' same e a h = inr (inr (sym (same a) ∙ h, λ f. absurd (cc f)))
Lives-kept m m' c' (some b) own' same e a h = elim (ℕ_discrete b a) [
  | yes f ↦ inl (e ∙ ap some f)
  | no n ↦ inr (inr (sym (same a) ∙ h, λ f. n (cc f)))
]

-- Where one cell is written, the thread's if it has one.
pub Lives-written :
    {V : Type 0} (m m' : Shared V) (c' : Chain) (own own' : Option ℕ) (b : ℕ) (node : Node V)
    → ((a : ℕ) → m'.cells a ≡ update m.cells b node a)
    → (own ≡ none) ⊎ (own ≡ some b)
    → (node.live ≡ true → (own' ≡ some b) ⊎ Before c' c'.end_pos b)
    → Lives m m' c' own own'
Lives-written m m' c' own own' b node same mine there a h = elim (ℕ_discrete b a) [
  | yes e ↦
      let here : m'.cells a ≡ node = same a ∙ rw ((==_iff b a).1 e) refl in
      elim (there (ap (λ (x : Node _). x.live) (sym here) ∙ h)) [
        | inl f ↦ inl (f ∙ ap some e)
        | inr (i, k, f) ↦ inr (inl (i, k, f ∙ e))
      ]
  | no n ↦
      let here : m'.cells a ≡ m.cells a = same a ∙ rw (ne→==-false b a n) refl in
      inr (
        inr (
          ap (λ (x : Node _). x.live) (sym here) ∙ h,
          elim mine [ inl f ↦ λ g. absurd (cc (f, g)) | inr f ↦ λ g. n (cc (f, g)) ],
        ))
]

module _ {V : Type 0} (moved_from : V → V) where
  pub record Stepped (spurious : Bool) (pc : Pc V) (ph : Phase V) (m : Shared V) (c : Chain)
      (q : List V) : Type 0 where
    pub pc' : Pc V
    pub m' : Shared V
    pub c' : Chain
    pub ph' : Phase V
    pub q' : List V
    pub goes : step moved_from spurious pc m ≡ ok pc' m'
    pub linked : Linked m' c' q'
    pub local : Local m' c' ph' pc'
    pub frame : Frame (touches pc) m m' c c'
    pub effect : Effect ph ph' q q'
    pub claims : Claims m c (touches pc) (touches pc')
    pub retires : Retires m m' c c' (pending pc) (pending pc')
    pub lives : Lives m m' c' (touches pc) (touches pc')

  module _ (spurious : Bool) (pc : Pc V) (ph : Phase V) (m : Shared V) (c : Chain) (q : List V)
      (l : Linked m c q) where
    -- A step that changes the retired nodes, their mutex and the statistics at most.
    pub notes :
        (pc' : Pc V) (r : List ℕ) (b : Bool) (n : ℕ)
        → step moved_from spurious pc m
          ≡ ok pc' (record m { retired = r; retired_locked = b; cas_retries = n })
        → Local m c ph pc'
        → touches pc' ≡ touches pc
        → Retires m
            (record m { retired = r; retired_locked = b; cas_retries = n })
            c
            c
            (pending pc)
            (pending pc')
        → Stepped spurious pc ph m c q
    notes pc' r b n goes h k f = record {
      pc' = pc';
      m' = record m { retired = r; retired_locked = b; cas_retries = n };
      c' = c;
      ph' = ph;
      q' = q;
      goes = goes;
      linked = Linked-noted m c q l r b n;
      local =
          Local-kept (Frame-noted m c q l none r b n) (end_covers m c q l).0 (end_covers m c q l).1
            ph pc' l.old (λ a e. absurd (cc e)) h;
      frame = Frame-noted m c q l (touches pc) r b n;
      effect = silent refl refl;
      claims = λ a e. inl (sym k ∙ e);
      retires = f;
      lives =
          Lives-kept m (record m { retired = r; retired_locked = b; cas_retries = n }) c
            (touches pc) (touches pc') (λ a. refl) k;
    }

    pub quiet :
        (pc' : Pc V)
        → step moved_from spurious pc m ≡ ok pc' m
        → Local m c ph pc'
        → touches pc' ≡ touches pc
        → pending pc' ≡ pending pc
        → Stepped spurious pc ph m c q
    quiet pc' goes h k f =
        notes pc' m.retired m.retired_locked m.cas_retries goes h k (keeps refl refl f)

    -- A step that makes the compare-exchange of the tail.
    pub swings :
        (pc' : Pc V) (last next : ℕ)
        → Follows c c.tail_pos last next
        → step moved_from spurious pc m ≡ ok pc' (swung last next m)
        → Local m c ph pc'
        → touches pc' ≡ touches pc
        → pending pc' ≡ pending pc
        → Stepped spurious pc ph m c q
    swings pc' last next f goes h k d = record {
      pc' = pc';
      m' = swung last next m;
      c' = swung_chain m c q l last;
      ph' = ph;
      q' = q;
      goes = goes;
      linked = Linked-swung m c q l last next f;
      local =
          Local-kept (Frame-swung m c q l none last next) (end_covers m c q l).0
            (end_covers m c q l).1 ph pc' l.old (λ a e. absurd (cc e)) h;
      frame = Frame-swung m c q l (touches pc) last next;
      effect = silent refl refl;
      claims = λ a e. inl (sym k ∙ e);
      retires = keeps (swung_same m c q l last next).0 (swung_same m c q l last next).1 d;
      lives =
          Lives-kept m (swung last next m) (swung_chain m c q l last) (touches pc) (touches pc')
            (swung_same m c q l last next).2 k;
    }
