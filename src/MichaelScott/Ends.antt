-- ===== src/MichaelScott/Ends.antt =====
-- lib/michael_scott_queue.hpp: `TryStoreInternal` and `TryPopOnce` need a bounded number of steps of their
-- thread, whatever the other threads do in between, if waiting for `retired_mtx_` is not counted.
use message_queue_practical.Prelude.{
  ℕ, ◌||◌, ◌&&◌, not, Bool-cases, inl, inr, ℕ_discrete, ◌+◌, ◌-◌, ◌≤◌, ◌≡◌, refl, sym, ◌∙◌, ap,
  subst, Bool, true, false, some, List, [], ◌∷◌, ok, Outcome, throws, blocks, faults, arith, ◌==◌,
  ==_iff, ne→==-false, if◌then◌else◌,
}
use message_queue_practical.MichaelScott.Machine.{Shared, max_attempts, Pc, step}
use message_queue_practical.MichaelScott.System.{
  System, Call, store, pop, entry, at_start, abstract_start, Turn, begin, advance, is_done, turn,
  interleave,
}
use message_queue_practical.MichaelScott.Consistent.{start-IsConsistent, dummy}
use message_queue_practical.MichaelScott.Settle.{start-IsSettled}
use message_queue_practical.MichaelScott.Reach.{reaches}
use message_queue_practical.MichaelScott.Mutex.{continued}
use message_queue_practical.MichaelScott.Measure.{left, limited, finds_taken, left-done, step-Falls}

-- Whether one of the turns begins a call of thread `u`.
abbrev pub begins : {V : Type 0} → ℕ → List (Turn V) → Bool
begins u [] = false
begins u (begin w k ∷ ts) = (w == u) || begins u ts
begins u (advance w spurious ∷ ts) = begins u ts

-- `TryStoreInternal` and `TryPopOnce`, and how many steps they may need.
abbrev pub IsTry : {V : Type 0} → Call V → Type 0
IsTry (store v k) = k ≡ some max_attempts
IsTry pop = Unit

abbrev pub most_steps : {V : Type 0} → Call V → ℕ
most_steps (store v k) = 322
most_steps pop = 8

begins_first :
    {V : Type 0} (u : ℕ) (t : Turn V) (ts : List (Turn V))
    → begins u (t ∷ ts) ≡ false
    → begins u (t ∷ []) ≡ false
begins_first u (begin w k) ts h = ground arith
begins_first u (advance w spurious) ts h = refl

begins_rest :
    {V : Type 0} (u : ℕ) (t : Turn V) (ts : List (Turn V))
    → begins u (t ∷ ts) ≡ false
    → begins u ts ≡ false
begins_rest u (begin w k) ts h = ground arith
begins_rest u (advance w spurious) ts h = h

module _ {V : Type 0} (moved_from : V → V) (u : ℕ) where
  -- The turn is a step of thread `u` that does not find `retired_mtx_` taken.
  abbrev pub moves : Turn V → System V → ℕ
  moves (begin w k) s = 0
  moves (advance w spurious) s =
      if (w == u) && not (finds_taken (s.threads u) s.shared) then 1 else 0

  -- How many of the turns are such steps, and `after` the first of them.
  abbrev pub moves_after : (System V → ℕ) → Outcome (System V) (Unit {0}) → ℕ
  moves_after rest (ok a s) = rest s
  moves_after rest (throws e s) = rest s
  moves_after rest (blocks s) = rest s
  moves_after rest faults = 0

  unfoldable pub moves_of : List (Turn V) → System V → ℕ
  moves_of [] s = 0
  moves_of (t ∷ ts) s = moves t s + moves_after (moves_of ts) (turn moved_from t s)

  moves_of-first :
      (t : Turn V) (ts : List (Turn V)) (s s1 : System V)
      → turn moved_from t s ≡ ok tt s1
      → moves_of (t ∷ ts) s ≡ moves t s + moves_of ts s1
  unfolding moves_of
  moves_of-first t ts s s1 e = ap (λ o. moves t s + moves_after (moves_of ts) o) e

  went_on :
      (spurious : Bool) (s s1 : System V) (o : Outcome (Shared V) (Pc V))
      → step moved_from spurious (s.threads u) s.shared ≡ o
      → turn moved_from (advance u spurious) s ≡ ok tt s1
      → (m' : Shared V) × (step moved_from spurious (s.threads u) s.shared ≡ ok (s1.threads u) m')
  unfolding turn
  went_on spurious s s1 (ok pc m') e h =
      let same : s1.threads u ≡ pc = ground (arith, e, ==_iff u u) in
      (m', e ∙ ap (λ x. ok x m') (sym same))
  went_on spurious s s1 (throws x m') e h = absurd (ground (arith, e))
  went_on spurious s s1 (blocks m') e h = absurd (ground (arith, e))
  went_on spurious s s1 faults e h = absurd (ground (arith, e))

  no_moves : (s : System V) → left (s.threads u) ≤ left (s.threads u) - moves_of [] s
  unfolding moves_of
  no_moves s = omega arith

  -- The turn is a step of the thread.
  abbrev acts : ℕ → Turn V → Bool
  acts v (begin w k) = false
  acts v (advance w spurious) = w == v

  -- Other turns leave the thread where it is.
  turn-other :
      (t : Turn V) (s s1 : System V)
      → begins u (t ∷ []) ≡ false
      → acts u t ≡ false
      → turn moved_from t s ≡ ok tt s1
      → s1.threads u ≡ s.threads u
  unfolding turn
  turn-other (begin w k) s s1 b n h = ground (arith, ==_iff w u)
  turn-other (advance w spurious) s s1 b n h = ground (arith, ==_iff w u)

  abbrev Falling : ℕ → Pc V → Pc V → Type 0
  Falling n pc pc' = (limited pc' ≡ true) × (left pc' ≤ left pc - n)

  turn-Falling :
      (t : Turn V) (s s1 : System V)
      → begins u (t ∷ []) ≡ false
      → limited (s.threads u) ≡ true
      → turn moved_from t s ≡ ok tt s1
      → Falling (moves t s) (s.threads u) (s1.threads u)
  turn-Falling (begin w k) s s1 b l h =
      subst (λ x. Falling 0 (s.threads u) x) (sym (turn-other (begin w k) s s1 b refl h))
        (l, omega arith)
  turn-Falling (advance w spurious) s s1 b l h = elim (ℕ_discrete w u) [
    | yes e ↦
        let (m', goes) =
          went_on spurious s s1 _ refl
            (subst (λ x. turn moved_from (advance x spurious) s ≡ ok tt s1) e h) in
        let (l1, f1) =
          step-Falls moved_from spurious s.shared m' (s1.threads u) (s.threads u) l goes in
        (l1, counted w s (left (s1.threads u)) ((==_iff w u).1 e) f1)
    | no n ↦
        subst
          (λ x.
            Falling ((if x && not (finds_taken (s.threads u) s.shared) then 1 else 0)) (s.threads u)
              (s1.threads u))
          (sym (ne→==-false w u n))
          (subst (λ x. Falling 0 (s.threads u) x)
            (sym (turn-other (advance w spurious) s s1 b (ne→==-false w u n) h)) (l, omega arith))
  ]
    where
      counted :
          (w : ℕ) (s : System V) (n : ℕ)
          → (w == u) ≡ true
          → n ≤ left (s.threads u) - (if finds_taken (s.threads u) s.shared then 0 else 1)
          → n
            ≤ left (s.threads u)
              - (if (w == u) && not (finds_taken (s.threads u) s.shared) then 1 else 0)
      counted w s n e f = elim (Bool-cases (finds_taken (s.threads u) s.shared)) [
        | inl b ↦ rw (e, b) (subst (λ x. n ≤ left (s.threads u) - (if x then 0 else 1)) b f)
        | inr b ↦ rw (e, b) (subst (λ x. n ≤ left (s.threads u) - (if x then 0 else 1)) b f)
      ]

  interleave-Falling :
      (ts : List (Turn V)) (s s' : System V)
      → begins u ts ≡ false
      → limited (s.threads u) ≡ true
      → interleave moved_from ts s ≡ ok tt s'
      → Falling (moves_of ts s) (s.threads u) (s'.threads u)
  unfolding interleave
  interleave-Falling [] s s' b l h =
      let same : s ≡ s' = cc h in
      subst (λ (x : System V). Falling (moves_of [] s) (s.threads u) (x.threads u)) same
        (l, no_moves s)
  interleave-Falling (t ∷ ts) s s' b l h =
      let (s1, e, g) = continued moved_from ts s' (turn moved_from t s) h in
      let (l1, f1) = turn-Falling t s s1 (begins_first u t ts b) l e in
      let (l2, f2) = interleave-Falling ts s1 s' (begins_rest u t ts b) l1 g in
      (l2, omega (arith, f1, f2, moves_of-first t ts s s1 e))

  try-limited :
      (k : Call V) → IsTry k → (limited (entry k) ≡ true) × (left (entry k) ≤ most_steps k)
  try-limited (store v k) h = rw h (refl, omega arith)
  try-limited pop h = (refl, omega arith)

  -- From any state that interleaved stores and pops on a new queue lead to, `TryStoreInternal` with its
  -- 64 attempts or `TryPopOnce` begun by a thread between calls has ended once that thread has made
  -- 322 or 8 steps, not counting those in which a pop finds `retired_mtx_` taken and waits, however many
  -- steps the other threads make in between and whichever weak compare-exchanges fail; and none of
  -- these steps does anything undefined.
  pub tries_end :
      (default : V) (capacity : ℕ) (before after : List (Turn V)) (s : System V) (k : Call V)
      → interleave moved_from before (at_start default capacity) ≡ ok tt s
      → is_done (s.threads u) ≡ true
      → IsTry k
      → begins u after ≡ false
      → most_steps k ≤ moves_of (begin u k ∷ after) s
      → (s' : System V) × (interleave moved_from (begin u k ∷ after) s ≡ ok tt s')
        × (is_done (s'.threads u) ≡ true)
  unfolding interleave turn
  tries_end default capacity before after s k reached free try b enough =
      let (s0, c0, a0, goes0, inv0, set0) =
        reaches moved_from before (at_start default capacity) dummy abstract_start
          (start-IsConsistent default capacity) (start-IsSettled default capacity) in
      let (s', c', a', goes, inv, set) =
        reaches moved_from (begin u k ∷ after) s0 c0 a0 inv0 set0 in
      let same : s0 ≡ s = cc (sym goes0 ∙ reached) in
      let goes' : interleave moved_from (begin u k ∷ after) s ≡ ok tt s' =
        subst (λ x. interleave moved_from (begin u k ∷ after) x ≡ ok tt s') same goes in
      let (s1, e, g) = continued moved_from after s' (turn moved_from (begin u k) s) goes' in
      let entered : s1.threads u ≡ entry k = ground (arith, ==_iff u u) in
      let (l, few) = try-limited k try in
      let (l', f) =
        interleave-Falling after s1 s' b (subst (λ x. limited x ≡ true) (sym entered) l) g in
      let start : left (s1.threads u) ≤ most_steps k =
        subst (λ x. left x ≤ most_steps k) (sym entered) few in
      (
        s',
        goes',
        left-done (s'.threads u) l'
            (omega (arith, f, start, enough, moves_of-first (begin u k) after s s1 e)),
      )
