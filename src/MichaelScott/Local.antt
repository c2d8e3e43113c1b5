-- ===== src/MichaelScott/Local.antt =====
-- lib/michael_scott_queue.hpp: what a thread inside a store or a pop knows, and keeps knowing while
-- other threads make their steps.
use message_queue_practical.Prelude.{
  ℕ, suc, ◌≤◌, ◌<◌, ◌≡◌, ◌≢◌, refl, sym, ◌∙◌, subst, true, false, Option, none, some, arith, ap,
  dec_lt,
}
use message_queue_practical.MichaelScott.Machine.{
  Shared, Pc, idle, missed, pop_load_head, pop_retry, store_allocate, store_load_tail,
  store_load_next, store_reload_tail, store_link, store_swing, store_help, store_retry, stored,
  pop_load_tail, pop_load_next, pop_reload_head, pop_help, pop_swing, pop_take, pop_retire,
  pop_unlock, popped,
}
use message_queue_practical.MichaelScott.Chain.{Chain, Before, Follows}

-- What the current call of a thread has done to the abstract queue.
pub data Phase (V : Type 0) : Type 0 where
  nothing : Phase V
  has_put has_taken : V → Phase V

-- A node that is not linked yet.
pub record Mine {V : Type 0} (m : Shared V) (c : Chain) (a : ℕ) (v : V) : Type 0 where
  pub old : a < m.fresh
  pub live : (m.cells a).live ≡ true
  pub value : (m.cells a).value ≡ v
  pub no_next : (m.cells a).next ≡ none
  pub apart : (i : ℕ) → i ≤ c.end_pos → c.at i ≢ a

-- What `next` says, once it was loaded from the node `last`.
abbrev pub Loaded : Chain → ℕ → ℕ → Option ℕ → Type 0
Loaded c b last none = Unit
Loaded c b last (some next) = Follows c b last next

-- Two addresses at positions up to the head and the tail.
abbrev pub Ends : Chain → ℕ → ℕ → Type 0
Ends c first last =
    (i j : ℕ) × (i ≤ c.head_pos) × (i ≤ j) × (j ≤ c.tail_pos) × (c.at i ≡ first) × (c.at j ≡ last)

-- A node before the tail that is, or was, the head, with the one after it.
abbrev pub Behind : Chain → ℕ → ℕ → Type 0
Behind c first next =
    (i : ℕ) × (i ≤ c.head_pos) × (i < c.tail_pos) × (c.at i ≡ first) × (c.at (suc i) ≡ next)

-- A node that the head has passed, with the one after it.
abbrev pub Passed : Chain → ℕ → ℕ → Type 0
Passed c first next = (i : ℕ) × (i < c.head_pos) × (c.at i ≡ first) × (c.at (suc i) ≡ next)

-- What a thread in phase `ph` knows at each point.
abbrev pub Local : {V : Type 0} → Shared V → Chain → Phase V → Pc V → Type 0
Local m c ph idle = Unit
Local m c ph missed = ph ≡ nothing
Local m c ph pop_load_head = ph ≡ nothing
Local m c ph pop_retry = ph ≡ nothing
Local m c ph (store_allocate v k) = ph ≡ nothing
Local m c ph (store_load_tail v new k) = (ph ≡ nothing) × Mine m c new v
Local m c ph (store_load_next v new last k) =
    (ph ≡ nothing) × Mine m c new v × Before c c.tail_pos last
Local m c ph (store_reload_tail v new last next k) =
    (ph ≡ nothing) × Mine m c new v × Before c c.tail_pos last × Loaded c c.tail_pos last next
Local m c ph (store_link v new last k) = (ph ≡ nothing) × Mine m c new v × Before c c.tail_pos last
Local m c ph (store_swing v new last) = (ph ≡ has_put v) × Follows c c.tail_pos last new
Local m c ph (store_help v new last next k) =
    (ph ≡ nothing) × Mine m c new v × Follows c c.tail_pos last next
Local m c ph (store_retry v new k) = (ph ≡ nothing) × Mine m c new v
Local m c ph (stored v true) = ph ≡ has_put v
Local m c ph (stored v false) = ph ≡ nothing
Local m c ph (pop_load_tail first) = (ph ≡ nothing) × Before c c.head_pos first
Local m c ph (pop_load_next first last) = (ph ≡ nothing) × Ends c first last
Local m c ph (pop_reload_head first last none) = (ph ≡ nothing) × Ends c first last × (first ≡ last)
Local m c ph (pop_reload_head first last (some next)) =
    (ph ≡ nothing) × Ends c first last × Follows c c.head_pos first next
Local m c ph (pop_help last next) = (ph ≡ nothing) × Follows c c.tail_pos last next
Local m c ph (pop_swing first next) = (ph ≡ nothing) × Behind c first next
Local m c ph (pop_take first next) = (ph ≡ has_taken (m.cells next).value) × Passed c first next
Local m c ph (pop_retire first v) = ph ≡ has_taken v
Local m c ph (pop_unlock v) = ph ≡ has_taken v
Local m c ph (popped v) = ph ≡ has_taken v

-- The node that only this thread may change: one not linked yet, or one whose value it is to take.
abbrev pub touches : {V : Type 0} → Pc V → Option ℕ
touches (store_load_tail v new k) = some new
touches (store_load_next v new last k) = some new
touches (store_reload_tail v new last next k) = some new
touches (store_link v new last k) = some new
touches (store_help v new last next k) = some new
touches (store_retry v new k) = some new
touches (pop_take first next) = some next
touches _ = none

-- The node that the thread has moved the head away from and not yet retired.
abbrev pub pending : {V : Type 0} → Pc V → Option ℕ
pending (pop_take first next) = some first
pending (pop_retire first v) = some first
pending _ = none

-- What a step of a thread with node `own` leaves alone.
pub record Frame {V : Type 0} (own : Option ℕ) (m m' : Shared V) (c c' : Chain) : Type 0 where
  pub at_kept : (i : ℕ) → i ≤ c.end_pos → c'.at i ≡ c.at i
  pub head_moves : c.head_pos ≤ c'.head_pos
  pub tail_moves : c.tail_pos ≤ c'.tail_pos
  pub end_moves : c.end_pos ≤ c'.end_pos
  pub fresh_moves : m.fresh ≤ m'.fresh
  pub value_kept : (a : ℕ) → a < m.fresh → own ≢ some a → (m'.cells a).value ≡ (m.cells a).value
  pub live_kept : (a : ℕ) → a < m.fresh → own ≢ some a → (m'.cells a).live ≡ (m.cells a).live
  pub next_kept :
      (a : ℕ)
      → a < m.fresh
      → own ≢ some a
      → ((i : ℕ) → i ≤ c.end_pos → c.at i ≢ a)
      → (m'.cells a).next ≡ (m.cells a).next
  pub added : (i : ℕ) → c.end_pos < i → i ≤ c'.end_pos → own ≡ some (c'.at i)

module _ {V : Type 0} {own : Option ℕ} {m m' : Shared V} {c c' : Chain} (f : Frame own m m' c c')
    (ends : c.head_pos ≤ c.end_pos) (tails : c.tail_pos ≤ c.end_pos) where
  Mine-kept : (a : ℕ) (v : V) → own ≢ some a → Mine m c a v → Mine m' c' a v
  Mine-kept a v ne h = record {
    old = omega (arith, h.old, f.fresh_moves);
    live = f.live_kept a h.old ne ∙ h.live;
    value = f.value_kept a h.old ne ∙ h.value;
    no_next = f.next_kept a h.old ne h.apart ∙ h.no_next;
    apart = λ i k e. elim (dec_lt c.end_pos i) [
      | yes lt ↦ ne (f.added i lt k ∙ ap some e)
      | no ge ↦ h.apart i (omega arith) (sym (f.at_kept i (omega arith)) ∙ e)
    ];
  }

  Before-kept : (b b' a : ℕ) → b ≤ c.end_pos → b ≤ b' → Before c b a → Before c' b' a
  Before-kept b b' a l k (i, p, e) = (i, omega arith, f.at_kept i (omega arith) ∙ e)

  Follows-kept : (b b' a a' : ℕ) → b ≤ b' → Follows c b a a' → Follows c' b' a a'
  Follows-kept b b' a a' k (i, p, q, e, g) = (
    i,
    omega arith,
    omega (arith, f.end_moves),
    f.at_kept i (omega arith) ∙ e,
    f.at_kept (suc i) (omega arith) ∙ g,
  )

  Loaded-kept :
      (b b' last : ℕ) (next : Option ℕ) → b ≤ b' → Loaded c b last next → Loaded c' b' last next
  Loaded-kept b b' last none k h = tt
  Loaded-kept b b' last (some next) k h = Follows-kept b b' last next k h

  Ends-kept : (first last : ℕ) → Ends c first last → Ends c' first last
  Ends-kept first last (i, j, p, q, r, e, g) = (
    i,
    j,
    omega (arith, f.head_moves),
    q,
    omega (arith, f.tail_moves),
    f.at_kept i (omega arith) ∙ e,
    f.at_kept j (omega arith) ∙ g,
  )

  Behind-kept : (first next : ℕ) → Behind c first next → Behind c' first next
  Behind-kept first next (i, p, q, e, g) = (
    i,
    omega (arith, f.head_moves),
    omega (arith, f.tail_moves),
    f.at_kept i (omega arith) ∙ e,
    f.at_kept (suc i) (omega arith) ∙ g,
  )

  Passed-kept : (first next : ℕ) → Passed c first next → Passed c' first next
  Passed-kept first next (i, p, e, g) = (
    i,
    omega (arith, f.head_moves),
    f.at_kept i (omega arith) ∙ e,
    f.at_kept (suc i) (omega arith) ∙ g,
  )

  Passed-old :
      (first next : ℕ)
      → ((i : ℕ) → i ≤ c.end_pos → c.at i < m.fresh)
      → Passed c first next
      → next < m.fresh
  Passed-old first next old (i, p, e, g) = subst (λ a. a < m.fresh) g (old (suc i) (omega arith))

  -- What another thread knows stays true.
  pub Local-kept :
      (ph : Phase V) (pc : Pc V)
      → ((i : ℕ) → i ≤ c.end_pos → c.at i < m.fresh)
      → ((a : ℕ) → own ≡ some a → touches pc ≢ some a)
      → Local m c ph pc
      → Local m' c' ph pc
  Local-kept ph idle old d h = tt
  Local-kept ph missed old d h = h
  Local-kept ph pop_load_head old d h = h
  Local-kept ph pop_retry old d h = h
  Local-kept ph (store_allocate v k) old d h = h
  Local-kept ph (store_load_tail v new k) old d h = (h.0, Mine-kept new v (λ e. d new e refl) h.1)
  Local-kept ph (store_load_next v new last k) old d h = (
    h.0,
    Mine-kept new v (λ e. d new e refl) h.1,
    Before-kept c.tail_pos c'.tail_pos last tails f.tail_moves h.2,
  )
  Local-kept ph (store_reload_tail v new last next k) old d h = (
    h.0,
    Mine-kept new v (λ e. d new e refl) h.1,
    Before-kept c.tail_pos c'.tail_pos last tails f.tail_moves h.2,
    Loaded-kept c.tail_pos c'.tail_pos last next f.tail_moves h.3,
  )
  Local-kept ph (store_link v new last k) old d h = (
    h.0,
    Mine-kept new v (λ e. d new e refl) h.1,
    Before-kept c.tail_pos c'.tail_pos last tails f.tail_moves h.2,
  )
  Local-kept ph (store_swing v new last) old d h =
      (h.0, Follows-kept c.tail_pos c'.tail_pos last new f.tail_moves h.1)
  Local-kept ph (store_help v new last next k) old d h = (
    h.0,
    Mine-kept new v (λ e. d new e refl) h.1,
    Follows-kept c.tail_pos c'.tail_pos last next f.tail_moves h.2,
  )
  Local-kept ph (store_retry v new k) old d h = (h.0, Mine-kept new v (λ e. d new e refl) h.1)
  Local-kept ph (stored v true) old d h = h
  Local-kept ph (stored v false) old d h = h
  Local-kept ph (pop_load_tail first) old d h =
      (h.0, Before-kept c.head_pos c'.head_pos first ends f.head_moves h.1)
  Local-kept ph (pop_load_next first last) old d h = (h.0, Ends-kept first last h.1)
  Local-kept ph (pop_reload_head first last none) old d h = (h.0, Ends-kept first last h.1, h.2)
  Local-kept ph (pop_reload_head first last (some next)) old d h = (
    h.0,
    Ends-kept first last h.1,
    Follows-kept c.head_pos c'.head_pos first next f.head_moves h.2,
  )
  Local-kept ph (pop_help last next) old d h =
      (h.0, Follows-kept c.tail_pos c'.tail_pos last next f.tail_moves h.1)
  Local-kept ph (pop_swing first next) old d h = (h.0, Behind-kept first next h.1)
  Local-kept ph (pop_take first next) old d h = (
    h.0
        ∙ ap has_taken
            (sym (f.value_kept next (Passed-old first next old h.1) (λ e. d next e refl))),
    Passed-kept first next h.1,
  )
  Local-kept ph (pop_retire first v) old d h = h
  Local-kept ph (pop_unlock v) old d h = h
  Local-kept ph (popped v) old d h = h
