-- ===== src/MichaelScott/Mutex.antt =====
-- lib/michael_scott_queue.hpp: `retired_mtx_`, which one thread holds at a time.
use message_queue_practical.Prelude.{
  ℕ, ◌≡◌, ◌≢◌, ◌⊎◌, inl, inr, refl, sym, ◌∙◌, subst, Bool, true, false, none, some, ok, Outcome,
  throws, blocks, faults, List, [], ◌∷◌, arith, zero, suc, ==_iff, ne→==-false, ℕ_discrete,
  Bool-cases,
}
use message_queue_practical.Interface.History.{update}
use message_queue_practical.MichaelScott.Machine.{
  Shared, Pc, idle, missed, pop_load_head, pop_retry, store_allocate, store_load_tail,
  store_load_next, store_reload_tail, store_link, store_swing, store_help, store_retry, stored,
  pop_load_tail, pop_load_next, pop_reload_head, pop_help, pop_swing, pop_take, pop_retire,
  pop_unlock, popped, step,
}
use message_queue_practical.MichaelScott.System.{
  System, Turn, begin, advance, Call, store, pop, entry, is_done, at_start, turn, interleave,
  new_queue,
}
use message_queue_practical.MichaelScott.Consistent.{turn-advance}

-- The thread is in the section.
abbrev pub has_mutex : {V : Type 0} → Pc V → Bool
has_mutex (pop_unlock v) = true
has_mutex _ = false

-- The mutex is free and no thread is in the section, or it is taken and one thread is.
abbrev pub IsExclusive : {V : Type 0} → System V → Type 0
IsExclusive s =
    ((s.shared.retired_locked ≡ false) × ((w : ℕ) → has_mutex (s.threads w) ≡ false))
    ⊎ ((s.shared.retired_locked ≡ true)
        × (u : ℕ) × (has_mutex (s.threads u) ≡ true)
        × ((w : ℕ) → u ≢ w → has_mutex (s.threads w) ≡ false))

-- A step neither enters nor leaves the section, or enters it with the mutex free, or leaves it.
pub data Crosses {V : Type 0} (pc pc' : Pc V) (m m' : Shared V) : Type 0 where
  outside :
      has_mutex pc ≡ false
      → has_mutex pc' ≡ false
      → m'.retired_locked ≡ m.retired_locked
      → Crosses pc pc' m m'
  enters :
      has_mutex pc ≡ false
      → has_mutex pc' ≡ true
      → m.retired_locked ≡ false
      → m'.retired_locked ≡ true
      → Crosses pc pc' m m'
  leaves :
      has_mutex pc ≡ true → has_mutex pc' ≡ false → m'.retired_locked ≡ false → Crosses pc pc' m m'

module _ {V : Type 0} (moved_from : V → V) (spurious : Bool) (m m' : Shared V) (pc' : Pc V) where
  abbrev Crossing : Pc V → Type 0
  Crossing pc = step moved_from spurious pc m ≡ ok pc' m' → Crosses pc pc' m m'

  pub step-Crosses : (pc : Pc V) → Crossing pc
  unfolding step
  step-Crosses idle e = outside refl (ground arith) (ground arith)
  step-Crosses missed e = outside refl (ground arith) (ground arith)
  step-Crosses (stored v b) e = outside refl (ground arith) (ground arith)
  step-Crosses (popped v) e = outside refl (ground arith) (ground arith)
  step-Crosses (store_allocate v k) e = outside refl (ground arith) (ground arith)
  step-Crosses (store_load_tail v new none) e = outside refl (ground arith) (ground arith)
  step-Crosses (store_load_tail v new (some zero)) e = outside refl (ground arith) (ground arith)
  step-Crosses (store_load_tail v new (some (suc k))) e = outside refl (ground arith) (ground arith)
  step-Crosses (store_load_next v new last k) e = outside refl (ground arith) (ground arith)
  step-Crosses (store_reload_tail v new last none k) e = outside refl (ground arith) (ground arith)
  step-Crosses (store_reload_tail v new last (some next) k) e =
      outside refl (ground arith) (ground arith)
  step-Crosses (store_link v new last k) e = outside refl (ground arith) (ground arith)
  step-Crosses (store_swing v new last) e = outside refl (ground arith) (ground arith)
  step-Crosses (store_help v new last next k) e = outside refl (ground arith) (ground arith)
  step-Crosses (store_retry v new k) e = outside refl (ground arith) (ground arith)
  step-Crosses pop_load_head e = outside refl (ground arith) (ground arith)
  step-Crosses (pop_load_tail first) e = outside refl (ground arith) (ground arith)
  step-Crosses (pop_load_next first last) e = outside refl (ground arith) (ground arith)
  step-Crosses (pop_reload_head first last none) e = outside refl (ground arith) (ground arith)
  step-Crosses (pop_reload_head first last (some next)) e =
      outside refl (ground arith) (ground arith)
  step-Crosses (pop_help last next) e = outside refl (ground arith) (ground arith)
  step-Crosses (pop_swing first next) e = outside refl (ground arith) (ground arith)
  step-Crosses (pop_take first next) e = outside refl (ground arith) (ground arith)
  step-Crosses (pop_retire first v) e = elim (Bool-cases m.retired_locked) [
    | inl b ↦ outside refl (ground arith) (ground arith)
    | inr b ↦ enters refl (ground arith) b (ground arith)
  ]
  step-Crosses (pop_unlock v) e = leaves refl (ground arith) (ground arith)
  step-Crosses pop_retry e = outside refl (ground arith) (ground arith)

module _ {V : Type 0} (threads : ℕ → Pc V) (u : ℕ) (pc : Pc V) where
  mutex_here : has_mutex (update threads u pc u) ≡ has_mutex pc
  mutex_here = rw ((==_iff u u).1 refl) refl

  mutex_other : (w : ℕ) → u ≢ w → has_mutex (update threads u pc w) ≡ has_mutex (threads w)
  mutex_other w n = rw (ne→==-false u w n) refl

  without_mutex :
      (w : ℕ)
      → has_mutex pc ≡ false
      → (u ≢ w → has_mutex (threads w) ≡ false)
      → has_mutex (update threads u pc w) ≡ false
  without_mutex w free other = elim (ℕ_discrete u w) [
    | yes e ↦ subst (λ x. has_mutex (update threads u pc x) ≡ false) e (mutex_here ∙ free)
    | no n ↦ mutex_other w n ∙ other n
  ]

module _ {V : Type 0} (s : System V) (u : ℕ) (pc : Pc V) (m : Shared V) where
  abbrev after : System V
  after = record { shared = m; threads = update s.threads u pc }

  Crosses-IsExclusive : Crosses (s.threads u) pc s.shared m → IsExclusive s → IsExclusive after
  Crosses-IsExclusive (outside from to same) (inl (free, all)) =
      inl (same ∙ free, λ w. without_mutex s.threads u pc w to (λ n. all w))
  Crosses-IsExclusive (outside from to same) (inr (held, x, has, others)) =
      let apart : u ≢ x =
        λ e. absurd (cc (sym from ∙ subst (λ y. has_mutex (s.threads y) ≡ true) (sym e) has)) in
      inr (
        same ∙ held,
        x,
        mutex_other s.threads u pc x apart ∙ has,
        λ w n. without_mutex s.threads u pc w to (λ k. others w n),
      )
  Crosses-IsExclusive (enters from to free held) (inl (was, all)) =
      inr (held, u, mutex_here s.threads u pc ∙ to, λ w n. mutex_other s.threads u pc w n ∙ all w)
  Crosses-IsExclusive (enters from to free held) (inr (was, x, has, others)) =
      absurd (cc (sym free ∙ was))
  Crosses-IsExclusive (leaves from to free) (inl (was, all)) = absurd (cc (sym from ∙ all u))
  Crosses-IsExclusive (leaves from to free) (inr (was, x, has, others)) = elim (ℕ_discrete x u) [
    | yes e ↦
        inl (free, λ w. without_mutex s.threads u pc w to (λ n. others w (λ k. n (sym e ∙ k))))
    | no n ↦ absurd (cc (sym from ∙ others u n))
  ]

module _ {V : Type 0} (moved_from : V → V) where
  -- What the first turn of several did.
  pub continued :
      (ts : List (Turn V)) (s' : System V) (o : Outcome (System V) (Unit {0}))
      → elim o [
        | ok a s1 ↦ interleave moved_from ts s1
        | throws e s1 ↦ throws e s1
        | blocks s1 ↦ blocks s1
        | faults ↦ faults
      ]
        ≡ ok tt s'
      → (s1 : System V) × (o ≡ ok tt s1) × (interleave moved_from ts s1 ≡ ok tt s')
  continued ts s' (ok tt s1) h = (s1, refl, h)
  continued ts s' (throws e s1) h = absurd (cc h)
  continued ts s' (blocks s1) h = absurd (cc h)
  continued ts s' faults h = absurd (cc h)

  advance-IsExclusive :
      (u : ℕ) (spurious : Bool) (s s1 : System V) (o : Outcome (Shared V) (Pc V))
      → step moved_from spurious (s.threads u) s.shared ≡ o
      → turn moved_from (advance u spurious) s ≡ ok tt s1
      → IsExclusive s
      → IsExclusive s1
  unfolding turn
  advance-IsExclusive u spurious s s1 (ok pc m) e h inv =
      let same : after s u pc m ≡ s1 = cc (sym (turn-advance moved_from s u spurious pc m e) ∙ h) in
      subst (λ x. IsExclusive x) same
        (Crosses-IsExclusive s u pc m
          (step-Crosses moved_from spurious s.shared m pc (s.threads u) e) inv)
  advance-IsExclusive u spurious s s1 (throws x m) e h inv = absurd (ground (arith, e))
  advance-IsExclusive u spurious s s1 (blocks m) e h inv = absurd (ground (arith, e))
  advance-IsExclusive u spurious s s1 faults e h inv = absurd (ground (arith, e))

  entry_outside : (k : Call V) → has_mutex (entry k) ≡ false
  entry_outside (store v k) = refl
  entry_outside pop = refl

  done_outside : (pc : Pc V) → is_done pc ≡ true → has_mutex pc ≡ false
  done_outside pc e = ground arith

  turn-IsExclusive :
      (t : Turn V) (s s1 : System V)
      → turn moved_from t s ≡ ok tt s1
      → IsExclusive s
      → IsExclusive s1
  unfolding turn
  turn-IsExclusive (advance u spurious) s s1 h inv =
      advance-IsExclusive u spurious s s1 _ refl h inv
  turn-IsExclusive (begin u k) s s1 h inv = elim (Bool-cases (is_done (s.threads u))) [
    | inl done ↦
        let same : after s u (entry k) s.shared ≡ s1 = cc (begins_now done ∙ h) in
        subst (λ x. IsExclusive x) same
          (Crosses-IsExclusive s u (entry k) s.shared
            (outside (done_outside (s.threads u) done) (entry_outside k) refl) inv)
    | inr busy ↦
        let same : s ≡ s1 = cc (stays_inside busy ∙ h) in subst (λ x. IsExclusive x) same inv
  ]
    where
      begins_now :
          is_done (s.threads u) ≡ true
          → ok tt (after s u (entry k) s.shared) ≡ turn moved_from (begin u k) s
      begins_now done = rw done refl

      stays_inside : is_done (s.threads u) ≡ false → ok tt s ≡ turn moved_from (begin u k) s
      stays_inside busy = rw busy refl

  -- Turns keep the mutex exclusive.
  pub interleave-IsExclusive :
      (ts : List (Turn V)) (s s' : System V)
      → interleave moved_from ts s ≡ ok tt s'
      → IsExclusive s
      → IsExclusive s'
  unfolding interleave
  interleave-IsExclusive [] s s' h inv =
      let same : s ≡ s' = cc h in subst (λ x. IsExclusive x) same inv
  interleave-IsExclusive (t ∷ ts) s s' h inv =
      let (s1, e, g) = continued ts s' (turn moved_from t s) h in
      interleave-IsExclusive ts s1 s' g (turn-IsExclusive t s s1 e inv)

pub start-IsExclusive :
    {V : Type 0} (default : V) (capacity : ℕ) → IsExclusive (at_start default capacity)
unfolding new_queue
start-IsExclusive default capacity = inl (refl, λ w. refl)
