-- ===== src/MichaelScott/Measure.antt =====
-- lib/michael_scott_queue.hpp: how many steps `TryStoreInternal` and `TryPopOnce` may still make, and
-- that each step makes them fewer.
use message_queue_practical.Prelude.{
  ℕ, zero, suc, ◌+◌, ◌-◌, ◌*◌, ◌≤◌, ◌≡◌, refl, Bool, true, false, none, some, ok, arith,
  if◌then◌else◌,
}
use message_queue_practical.MichaelScott.Machine.{
  Shared, Pc, idle, missed, pop_load_head, pop_retry, store_allocate, store_load_tail,
  store_load_next, store_reload_tail, store_link, store_swing, store_help, store_retry, stored,
  pop_load_tail, pop_load_next, pop_reload_head, pop_help, pop_swing, pop_take, pop_retire,
  pop_unlock, popped, step,
}
use message_queue_practical.MichaelScott.System.{is_done}

-- How many steps a call may still make, and whether there is such a number: a store with no limit on
-- its attempts has none.
abbrev pub left : {V : Type 0} → Pc V → ℕ
left (store_allocate v (some k)) = 5 * k + 2
left (store_load_tail v new (some k)) = 5 * k + 1
left (store_load_next v new last (some k)) = 5 * k + 5
left (store_reload_tail v new last next (some k)) = 5 * k + 4
left (store_link v new last (some k)) = 5 * k + 3
left (store_help v new last next (some k)) = 5 * k + 3
left (store_retry v new (some k)) = 5 * k + 2
left (store_swing v new last) = 1
left pop_load_head = 8
left (pop_load_tail first) = 7
left (pop_load_next first last) = 6
left (pop_reload_head first last next) = 5
left (pop_swing first next) = 4
left (pop_take first next) = 3
left (pop_retire first v) = 2
left (pop_unlock v) = 1
left (pop_help last next) = 1
left pop_retry = 1
left _ = 0

-- The step only finds `retired_mtx_` taken.
abbrev pub finds_taken : {V : Type 0} → Pc V → Shared V → Bool
finds_taken (pop_retire first v) m = m.retired_locked
finds_taken _ m = false

abbrev pub limited : {V : Type 0} → Pc V → Bool
limited (store_allocate v none) = false
limited (store_load_tail v new none) = false
limited (store_load_next v new last none) = false
limited (store_reload_tail v new last next none) = false
limited (store_link v new last none) = false
limited (store_help v new last next none) = false
limited (store_retry v new none) = false
limited _ = true

module _ {V : Type 0} where
  pub left-done : (pc : Pc V) → limited pc ≡ true → left pc ≡ 0 → is_done pc ≡ true
  left-done idle l e = refl
  left-done missed l e = refl
  left-done (stored v b) l e = refl
  left-done (popped v) l e = refl
  left-done (store_allocate v none) l e = absurd (cc l)
  left-done (store_allocate v (some k)) l e = absurd (omega arith)
  left-done (store_load_tail v new none) l e = absurd (cc l)
  left-done (store_load_tail v new (some k)) l e = absurd (omega arith)
  left-done (store_load_next v new last none) l e = absurd (cc l)
  left-done (store_load_next v new last (some k)) l e = absurd (omega arith)
  left-done (store_reload_tail v new last next none) l e = absurd (cc l)
  left-done (store_reload_tail v new last next (some k)) l e = absurd (omega arith)
  left-done (store_link v new last none) l e = absurd (cc l)
  left-done (store_link v new last (some k)) l e = absurd (omega arith)
  left-done (store_help v new last next none) l e = absurd (cc l)
  left-done (store_help v new last next (some k)) l e = absurd (omega arith)
  left-done (store_retry v new none) l e = absurd (cc l)
  left-done (store_retry v new (some k)) l e = absurd (omega arith)
  left-done (store_swing v new last) l e = absurd (omega arith)
  left-done pop_load_head l e = absurd (omega arith)
  left-done (pop_load_tail first) l e = absurd (omega arith)
  left-done (pop_load_next first last) l e = absurd (omega arith)
  left-done (pop_reload_head first last next) l e = absurd (omega arith)
  left-done (pop_swing first next) l e = absurd (omega arith)
  left-done (pop_take first next) l e = absurd (omega arith)
  left-done (pop_retire first v) l e = absurd (omega arith)
  left-done (pop_unlock v) l e = absurd (omega arith)
  left-done (pop_help last next) l e = absurd (omega arith)
  left-done pop_retry l e = absurd (omega arith)

module _ {V : Type 0} (moved_from : V → V) (spurious : Bool) (m m' : Shared V) (pc' : Pc V) where
  abbrev Falls : Pc V → Type 0
  Falls pc =
      limited pc ≡ true
      → step moved_from spurious pc m ≡ ok pc' m'
      → (limited pc' ≡ true) × (left pc' ≤ left pc - (if finds_taken pc m then 0 else 1))

  pub step-Falls : (pc : Pc V) → Falls pc
  unfolding step
  step-Falls idle l e = ground arith
  step-Falls missed l e = ground arith
  step-Falls (stored v b) l e = ground arith
  step-Falls (popped v) l e = ground arith
  step-Falls (store_allocate v none) l e = absurd (cc l)
  step-Falls (store_allocate v (some k)) l e = ground arith
  step-Falls (store_load_tail v new none) l e = absurd (cc l)
  step-Falls (store_load_tail v new (some zero)) l e = ground arith
  step-Falls (store_load_tail v new (some (suc k))) l e = ground arith
  step-Falls (store_load_next v new last none) l e = absurd (cc l)
  step-Falls (store_load_next v new last (some k)) l e = ground arith
  step-Falls (store_reload_tail v new last next none) l e = absurd (cc l)
  step-Falls (store_reload_tail v new last none (some k)) l e = ground arith
  step-Falls (store_reload_tail v new last (some next) (some k)) l e = ground arith
  step-Falls (store_link v new last none) l e = absurd (cc l)
  step-Falls (store_link v new last (some k)) l e = ground arith
  step-Falls (store_help v new last next none) l e = absurd (cc l)
  step-Falls (store_help v new last next (some k)) l e = ground arith
  step-Falls (store_retry v new none) l e = absurd (cc l)
  step-Falls (store_retry v new (some k)) l e = ground arith
  step-Falls (store_swing v new last) l e = ground arith
  step-Falls pop_load_head l e = ground arith
  step-Falls (pop_load_tail first) l e = ground arith
  step-Falls (pop_load_next first last) l e = ground arith
  step-Falls (pop_reload_head first last none) l e = ground arith
  step-Falls (pop_reload_head first last (some next)) l e = ground arith
  step-Falls (pop_swing first next) l e = ground arith
  step-Falls (pop_take first next) l e = ground arith
  step-Falls (pop_retire first v) l e = ground arith
  step-Falls (pop_unlock v) l e = ground arith
  step-Falls (pop_help last next) l e = ground arith
  step-Falls pop_retry l e = ground arith
