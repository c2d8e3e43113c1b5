-- ===== src/MichaelScott/Settle.antt =====
-- lib/michael_scott_queue.hpp: every node that was allocated is in the chain, or some thread's, or freed,
-- and every node that the head has passed is retired once, or about to be. So the destructor, which runs
-- when no call does, frees each node once.
use message_queue_practical.Prelude.{
  ℕ, ◌≤◌, ◌≡◌, ◌≢◌, ◌⊎◌, inl, inr, refl, sym, ◌∙◌, ap, subst, Bool, true, Option, none, some, arith,
  ==_iff, ne→==-false, ℕ_discrete,
}
use message_queue_practical.Interface.History.{update}
use message_queue_practical.MichaelScott.Machine.{
  Pc, idle, missed, pop_load_head, pop_retry, store_allocate, store_load_tail, store_load_next,
  store_reload_tail, store_link, store_swing, store_help, store_retry, stored, pop_load_tail,
  pop_load_next, pop_reload_head, pop_help, pop_swing, pop_take, pop_retire, pop_unlock, popped,
}
use message_queue_practical.MichaelScott.Chain.{Chain, Before}
use message_queue_practical.MichaelScott.Local.{touches, pending}
use message_queue_practical.MichaelScott.Progress.{Stepped, keeps, passes, retires}
use message_queue_practical.MichaelScott.System.{
  System, Call, store, pop, entry, is_done, Abstract, at_start, new_queue,
}
use message_queue_practical.MichaelScott.Consistent.{IsConsistent, begun, dummy}
use message_queue_practical.MichaelScott.Ledger.{
  Settled, Settled-kept, Settled-passed, Settled-retired,
}

pub record IsSettled {V : Type 0} (s : System V) (c : Chain) : Type 0 where
  pub settled : Settled c s.shared.retired (λ u. pending (s.threads u))
  pub owned :
      (a : ℕ)
      → (s.shared.cells a).live ≡ true
      → Before c c.end_pos a ⊎ ((u : ℕ) × (touches (s.threads u) ≡ some a))

-- A thread between calls has no node.
pub done_free :
    {V : Type 0} (pc : Pc V) → is_done pc ≡ true → (pending pc ≡ none) × (touches pc ≡ none)
done_free idle e = (refl, refl)
done_free missed e = (refl, refl)
done_free (stored v b) e = (refl, refl)
done_free (popped v) e = (refl, refl)
done_free pop_load_head e = absurd (cc e)
done_free pop_retry e = absurd (cc e)
done_free (store_allocate v k) e = absurd (cc e)
done_free (store_load_tail v new k) e = absurd (cc e)
done_free (store_load_next v new last k) e = absurd (cc e)
done_free (store_reload_tail v new last next k) e = absurd (cc e)
done_free (store_link v new last k) e = absurd (cc e)
done_free (store_swing v new last) e = absurd (cc e)
done_free (store_help v new last next k) e = absurd (cc e)
done_free (store_retry v new k) e = absurd (cc e)
done_free (pop_load_tail first) e = absurd (cc e)
done_free (pop_load_next first last) e = absurd (cc e)
done_free (pop_reload_head first last next) e = absurd (cc e)
done_free (pop_help last next) e = absurd (cc e)
done_free (pop_swing first next) e = absurd (cc e)
done_free (pop_take first next) e = absurd (cc e)
done_free (pop_retire first v) e = absurd (cc e)
done_free (pop_unlock v) e = absurd (cc e)

entry_free : {V : Type 0} (k : Call V) → (pending (entry k) ≡ none) × (touches (entry k) ≡ none)
entry_free (store v k) = (refl, refl)
entry_free pop = (refl, refl)

module _ {V : Type 0} (threads : ℕ → Pc V) (u : ℕ) (pc : Pc V) (g : Pc V → Option ℕ) where
  updated_here : g (update threads u pc u) ≡ g pc
  updated_here = rw ((==_iff u u).1 refl) refl

  updated_other : (w : ℕ) → u ≢ w → g (update threads u pc w) ≡ g (threads w)
  updated_other w n = rw (ne→==-false u w n) refl

  updated_same : g pc ≡ g (threads u) → (w : ℕ) → g (update threads u pc w) ≡ g (threads w)
  updated_same e w = elim (ℕ_discrete u w) [
    | yes f ↦ subst (λ x. g (update threads u pc x) ≡ g (threads x)) f (updated_here ∙ e)
    | no n ↦ updated_other w n
  ]

module _ {V : Type 0} (moved_from : V → V) (s : System V) (c : Chain) (a : Abstract V)
    (inv : IsConsistent s c a) (h : IsSettled s c) where
  pub begun-IsSettled :
      (u : ℕ) (k : Call V)
      → is_done (s.threads u) ≡ true
      → IsSettled (begun moved_from s c a inv u k) c
  begun-IsSettled u k done =
      let (no_pend, no_touch) = done_free (s.threads u) done in
      let (pend_entry, touch_entry) = entry_free k in
      record {
        settled =
            Settled-kept c c s.shared.retired _ _ h.settled (λ i g. refl) refl
              (updated_same s.threads u (entry k) pending (pend_entry ∙ sym no_pend));
        owned = λ b live. elim (h.owned b live) [
          | inl f ↦ inl f
          | inr (w, e) ↦
              inr (w, updated_same s.threads u (entry k) touches (touch_entry ∙ sym no_touch) w ∙ e)
        ];
      }

  module _ (u : ℕ) (spurious : Bool)
      (r : Stepped moved_from spurious (s.threads u) (a.phase u) s.shared c a.queue) where
    covers : c.head_pos ≤ c.end_pos
    covers = omega (arith, inv.linked.head_le_tail, inv.linked.tail_le_end)

    kept : (i : ℕ) → i ≤ c.head_pos → r.c'.at i ≡ c.at i
    kept i g = r.frame.at_kept i (omega (arith, covers))

    abbrev pend' : ℕ → Option ℕ
    pend' w = pending (update s.threads u r.pc' w)

    stepped-Settled : Settled r.c' r.m'.retired pend'
    stepped-Settled = elim r.retires [
      | keeps head same p ↦
          subst (λ x. Settled r.c' x pend') (sym same)
            (Settled-kept c r.c' s.shared.retired _ pend' h.settled kept head
              (updated_same s.threads u r.pc' pending p))
      | passes head same free now ↦
          subst (λ x. Settled r.c' x pend') (sym same)
            (Settled-passed c r.c' s.shared.retired _ pend' h.settled kept u
              (updated_other s.threads u r.pc' pending) head
              (λ i j f g. inv.linked.distinct i j (omega (arith, covers)) (omega (arith, covers)))
              free (updated_here s.threads u r.pc' pending ∙ now))
      | retires b head same had free ↦
          subst (λ x. Settled r.c' x pend') (sym same)
            (Settled-retired c r.c' s.shared.retired _ pend' h.settled kept u
              (updated_other s.threads u r.pc' pending) b head had
              (updated_here s.threads u r.pc' pending ∙ free))
    ]

    pub stepped-IsSettled :
        IsSettled (record { shared = r.m'; threads = update s.threads u r.pc' }) r.c'
    stepped-IsSettled = record {
      settled = stepped-Settled;
      owned = λ b live. elim (r.lives b live) [
        | inl e ↦ inr (u, updated_here s.threads u r.pc' touches ∙ e)
        | inr (inl f) ↦ inl f
        | inr (inr (was, other)) ↦ elim (h.owned b was) [
          | inl (i, g, e) ↦ inl (i, omega (arith, r.frame.end_moves), r.frame.at_kept i g ∙ e)
          | inr (w, e) ↦ elim (ℕ_discrete u w) [
            | yes f ↦ absurd (other (ap (λ x. touches (s.threads x)) f ∙ e))
            | no n ↦ inr (w, updated_other s.threads u r.pc' touches w n ∙ e)
          ]
        ]
      ];
    }

pub start-IsSettled :
    {V : Type 0} (default : V) (capacity : ℕ) → IsSettled (at_start default capacity) dummy
unfolding new_queue
start-IsSettled default capacity = record {
  settled = record {
    retired_at = λ a h. elim h [ ];
    pend_at = λ u a h. absurd (cc h);
    distinct = tt;
    apart = λ u w a n h. absurd (cc h);
    not_yet = λ u a h. absurd (cc h);
    covered = λ i h. absurd (omega arith);
  };
  owned = λ a h. inl (0, omega arith, ground arith);
}
