-- ===== src/MichaelScott/Consistent.antt =====
-- lib/michael_scott_queue.hpp: what holds between the steps of any number of threads, and that every
-- step keeps it.
use message_queue_practical.Prelude.{
  ℕ, suc, ◌≤◌, ◌<◌, ◌≡◌, ◌≢◌, inl, inr, refl, sym, ◌∙◌, subst, Bool, true, false, none, some, List,
  [], ok, arith, ==_iff, ne→==-false, ℕ_discrete,
}
use message_queue_practical.Interface.History.{update}
use message_queue_practical.MichaelScott.Machine.{
  Shared, Pc, idle, missed, pop_load_head, pop_retry, store_allocate, store_load_tail,
  store_load_next, store_reload_tail, store_link, store_swing, store_help, store_retry, stored,
  pop_load_tail, pop_load_next, pop_reload_head, pop_help, pop_swing, pop_take, pop_retire,
  pop_unlock, popped, step,
}
use message_queue_practical.MichaelScott.Chain.{Chain, Linked}
use message_queue_practical.MichaelScott.Local.{Phase, nothing, Local, touches, Local-kept, Mine}
use message_queue_practical.MichaelScott.Moves.{end_covers}
use message_queue_practical.MichaelScott.Progress.{Stepped, Claims}
use message_queue_practical.MichaelScott.Progress.Pops.{step-Stepped}
use message_queue_practical.MichaelScott.System.{
  System, Call, store, pop, advance, entry, turn, Abstract, Agrees, new_queue, at_start,
  abstract_start,
}

-- The nodes are chained, each thread knows what its point of a call says, and no two threads may
-- change the same node.
pub record IsConsistent {V : Type 0} (s : System V) (c : Chain) (a : Abstract V) : Type 0 where
  pub linked : Linked s.shared c a.queue
  pub locals : (u : ℕ) → Local s.shared c (a.phase u) (s.threads u)
  pub apart : (u w x : ℕ) → u ≢ w → touches (s.threads u) ≡ some x → touches (s.threads w) ≢ some x

-- A node that a thread may change is not one that another could get by a step.
module _ {V : Type 0} (m : Shared V) (c : Chain) (q : List V) (l : Linked m c q) where
  Mine-apart :
      (new x : ℕ) (v : V)
      → Mine m c new v
      → some new ≡ some x
      → (x < m.fresh) × (suc c.head_pos ≤ c.end_pos → x ≢ c.at (suc c.head_pos))
  Mine-apart new x v h e =
      let same : new ≡ x = cc in
      (subst (λ y. y < m.fresh) same h.old, λ k g. h.apart (suc c.head_pos) k (sym g ∙ sym same))

  touched_apart :
      (ph : Phase V) (pc : Pc V) (x : ℕ)
      → Local m c ph pc
      → touches pc ≡ some x
      → (x < m.fresh) × (suc c.head_pos ≤ c.end_pos → x ≢ c.at (suc c.head_pos))
  touched_apart ph (store_load_tail v new k) x h e = Mine-apart new x v h.1 e
  touched_apart ph (store_load_next v new last k) x h e = Mine-apart new x v h.1 e
  touched_apart ph (store_reload_tail v new last next k) x h e = Mine-apart new x v h.1 e
  touched_apart ph (store_link v new last k) x h e = Mine-apart new x v h.1 e
  touched_apart ph (store_help v new last next k) x h e = Mine-apart new x v h.1 e
  touched_apart ph (store_retry v new k) x h e = Mine-apart new x v h.1 e
  touched_apart ph (pop_take first next) x (d, (i, p, f, g)) e =
      let reached : suc i ≤ c.end_pos = omega (arith, l.head_le_tail, l.tail_le_end) in
      let same : c.at (suc i) ≡ x = g ∙ (cc) in
      (
        subst (λ y. y < m.fresh) same (l.old (suc i) reached),
        λ k b. omega (arith, l.distinct (suc i) (suc c.head_pos) reached k (same ∙ b)),
      )
  touched_apart ph idle x h e = absurd (cc e)
  touched_apart ph missed x h e = absurd (cc e)
  touched_apart ph pop_load_head x h e = absurd (cc e)
  touched_apart ph pop_retry x h e = absurd (cc e)
  touched_apart ph (store_allocate v k) x h e = absurd (cc e)
  touched_apart ph (store_swing v new last) x h e = absurd (cc e)
  touched_apart ph (stored v b) x h e = absurd (cc e)
  touched_apart ph (pop_load_tail first) x h e = absurd (cc e)
  touched_apart ph (pop_load_next first last) x h e = absurd (cc e)
  touched_apart ph (pop_reload_head first last next) x h e = absurd (cc e)
  touched_apart ph (pop_help last next) x h e = absurd (cc e)
  touched_apart ph (pop_swing first next) x h e = absurd (cc e)
  touched_apart ph (pop_retire first v) x h e = absurd (cc e)
  touched_apart ph (pop_unlock v) x h e = absurd (cc e)
  touched_apart ph (popped v) x h e = absurd (cc e)

-- What a thread knows says what its call has done.
pub Local-Agrees :
    {V : Type 0} (m : Shared V) (c : Chain) (ph : Phase V) (pc : Pc V)
    → Local m c ph pc
    → Agrees ph pc
Local-Agrees m c ph idle h = tt
Local-Agrees m c ph missed h = h
Local-Agrees m c ph pop_load_head h = tt
Local-Agrees m c ph pop_retry h = tt
Local-Agrees m c ph (store_allocate v k) h = tt
Local-Agrees m c ph (store_load_tail v new k) h = tt
Local-Agrees m c ph (store_load_next v new last k) h = tt
Local-Agrees m c ph (store_reload_tail v new last next k) h = tt
Local-Agrees m c ph (store_link v new last k) h = tt
Local-Agrees m c ph (store_swing v new last) h = tt
Local-Agrees m c ph (store_help v new last next k) h = tt
Local-Agrees m c ph (store_retry v new k) h = tt
Local-Agrees m c ph (stored v true) h = h
Local-Agrees m c ph (stored v false) h = h
Local-Agrees m c ph (pop_load_tail first) h = tt
Local-Agrees m c ph (pop_load_next first last) h = tt
Local-Agrees m c ph (pop_reload_head first last next) h = tt
Local-Agrees m c ph (pop_help last next) h = tt
Local-Agrees m c ph (pop_swing first next) h = tt
Local-Agrees m c ph (pop_take first next) h = tt
Local-Agrees m c ph (pop_retire first v) h = tt
Local-Agrees m c ph (pop_unlock v) h = tt
Local-Agrees m c ph (popped v) h = h

entry-Local :
    {V : Type 0} (m : Shared V) (c : Chain) (k : Call V)
    → Local m c nothing (entry k) × (touches (entry k) ≡ none)
entry-Local m c (store v k) = (refl, refl)
entry-Local m c pop = (refl, refl)

module _ {V : Type 0} (moved_from : V → V) (s : System V) (c : Chain) (a : Abstract V)
    (inv : IsConsistent s c a) where
  abbrev pub begun : ℕ → Call V → System V
  begun u k = record s { threads = update s.threads u (entry k) }

  abbrev pub reset : ℕ → Abstract V
  reset u = record a { phase = update a.phase u nothing }

  -- A pair of families after an update of both.
  both_updated :
      (m' : Shared V) (c' : Chain) (u : ℕ) (ph : Phase V) (pc : Pc V)
      → Local m' c' ph pc
      → ((w : ℕ) → u ≢ w → Local m' c' (a.phase w) (s.threads w))
      → (w : ℕ) → Local m' c' (update a.phase u ph w) (update s.threads u pc w)
  both_updated m' c' u ph pc h f w = elim (ℕ_discrete u w) [
    | yes e ↦ rw ((==_iff u w).1 e) h
    | no n ↦ rw (ne→==-false u w n) (f w n)
  ]

  apart_updated :
      (u : ℕ) (pc : Pc V)
      → ((w x : ℕ) → u ≢ w → touches pc ≡ some x → touches (s.threads w) ≢ some x)
      → (w z x : ℕ) → w ≢ z
      → touches (update s.threads u pc w) ≡ some x
      → touches (update s.threads u pc z) ≢ some x
  apart_updated u pc f w z x ne = elim (ℕ_discrete u w) [
    | yes e ↦ elim (ℕ_discrete u z) [
      | yes g ↦ absurd (ne (sym e ∙ g))
      | no g ↦ rw ((==_iff u w).1 e, ne→==-false u z g) (f z x g)
    ]
    | no e ↦ elim (ℕ_discrete u z) [
      | yes g ↦ rw ((==_iff u z).1 g, ne→==-false u w e) (λ p r. f w x e r p)
      | no g ↦ rw (ne→==-false u w e, ne→==-false u z g) (inv.apart w z x ne)
    ]
  ]

  pub begun-IsConsistent : (u : ℕ) (k : Call V) → IsConsistent (begun u k) c (reset u)
  begun-IsConsistent u k = record {
    linked = inv.linked;
    locals =
        both_updated s.shared c u nothing (entry k) (entry-Local s.shared c k).0
          (λ w n. inv.locals w);
    apart = apart_updated u (entry k) (λ w x n e. absurd (cc (e, (entry-Local s.shared c k).1)));
  }

  module _ (u : ℕ) (spurious : Bool) where
    abbrev pub stepped : Stepped moved_from spurious (s.threads u) (a.phase u) s.shared c a.queue
    stepped =
        step-Stepped moved_from spurious (a.phase u) s.shared c a.queue inv.linked (s.threads u)
          (inv.locals u)

    Claims-apart :
        (pc : Pc V) (w x : ℕ)
        → Claims s.shared c (touches (s.threads u)) (touches pc)
        → u ≢ w
        → touches pc ≡ some x
        → touches (s.threads w) ≢ some x
    Claims-apart pc w x k n e g =
        let (old, other) =
          touched_apart s.shared c a.queue inv.linked (a.phase w) (s.threads w) x (inv.locals w)
            g in
        elim (k x e) [
          | inl mine ↦ inv.apart u w x n mine g
          | inr (inl fresh) ↦ omega arith
          | inr (inr (f, covers)) ↦ other covers f
        ]

    pub stepped-IsConsistent :
        (r : Stepped moved_from spurious (s.threads u) (a.phase u) s.shared c a.queue)
        → IsConsistent
            (record { shared = r.m'; threads = update s.threads u r.pc' })
            r.c'
            (record { queue = r.q'; phase = update a.phase u r.ph' })
    stepped-IsConsistent r = record {
      linked = r.linked;
      locals = both_updated r.m' r.c' u r.ph' r.pc' r.local (λ w n.
          Local-kept r.frame (end_covers s.shared c a.queue inv.linked).0
            (end_covers s.shared c a.queue inv.linked).1 (a.phase w) (s.threads w) inv.linked.old
            (λ x e g. inv.apart u w x n e g) (inv.locals w));
      apart = apart_updated u r.pc' (λ w x n e. Claims-apart r.pc' w x r.claims n e);
    }

module _ {V : Type 0} (moved_from : V → V) where
  pub turn-advance :
      (s : System V) (u : ℕ) (spurious : Bool) (pc : Pc V) (m : Shared V)
      → step moved_from spurious (s.threads u) s.shared ≡ ok pc m
      → turn moved_from (advance u spurious) s
        ≡ ok tt (record { shared = m; threads = update s.threads u pc })
  unfolding turn
  turn-advance s u spurious pc m e = rw e

-- The dummy node alone.
abbrev pub dummy : Chain
dummy = record { at = λ i. 0; head_pos = 0; tail_pos = 0; end_pos = 0 }

module _ {V : Type 0} where
  pub new_queue-Linked : (default : V) (capacity : ℕ) → Linked (new_queue default capacity) dummy []
  unfolding new_queue
  new_queue-Linked default capacity = record {
    head_le_tail = omega arith;
    tail_le_end = omega arith;
    end_le_tail = omega arith;
    at_head = refl;
    at_tail = refl;
    distinct = λ i j h k e. omega arith;
    next_at = λ i h. absurd (omega arith);
    next_end = refl;
    live = λ i h. refl;
    old = λ i h. omega arith;
    items = refl;
  }

  pub start-IsConsistent :
      (default : V) (capacity : ℕ) → IsConsistent (at_start default capacity) dummy abstract_start
  start-IsConsistent default capacity = record {
    linked = new_queue-Linked default capacity;
    locals = λ u. tt;
    apart = λ u w x n e. absurd (cc e);
  }
