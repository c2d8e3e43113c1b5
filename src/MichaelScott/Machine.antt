-- ===== src/MichaelScott/Machine.antt =====
-- lib/michael_scott_queue.hpp: the nodes, the fields, and `StoreInternal`, `TryStoreInternal` and
-- `TryPopOnce` one access to shared memory at a time. The heap gives each node an address of its
-- own: no address is used again, since a node that was linked is freed by the destructor only.
use message_queue_practical.Prelude.{
  ℕ, zero, suc, Bool, true, false, not, ◌&&◌, Option, none, some, List, [], ◌∷◌, ◌++◌, Outcome, ok,
  faults, M, ◌==◌, inc_size, if◌then◌else◌,
}
use message_queue_practical.Interface.History.{update}

-- `live` says that the node is constructed and not yet freed.
pub record Node (V : Type 0) : Type 0 where
  pub value : V
  pub next : Option ℕ
  pub live : Bool

-- The fields. `retired_locked` says that a thread holds `retired_mtx_`.
pub record Shared (V : Type 0) : Type 0 where
  pub cells : ℕ → Node V
  pub fresh : ℕ
  pub head : ℕ
  pub tail : ℕ
  pub retired : List ℕ
  pub retired_locked : Bool
  pub current_size : ℕ
  pub capacity : ℕ
  pub closed : Bool
  pub cas_retries : ℕ
  pub successful_operations : ℕ

-- How often the loop of a store may still turn: `none` is `while (true)`.
abbrev pub Attempts : Type 0
Attempts = Option ℕ

-- `kMaxAttempts`
abbrev pub max_attempts : ℕ
max_attempts = 64

-- Where a thread stands in a store or a pop, with the local variables that are live there: `new` is
-- `new_node`, and `value` what the caller passed.
pub data Pc (V : Type 0) : Type 0 where
  idle missed pop_load_head pop_retry : Pc V
  store_allocate : (value : V) → Attempts → Pc V
  store_load_tail : (value : V) → (new : ℕ) → Attempts → Pc V
  store_load_next : (value : V) → (new last : ℕ) → Attempts → Pc V
  store_reload_tail : (value : V) → (new last : ℕ) → (next : Option ℕ) → Attempts → Pc V
  store_link : (value : V) → (new last : ℕ) → Attempts → Pc V
  store_swing : (value : V) → (new last : ℕ) → Pc V
  store_help : (value : V) → (new last next : ℕ) → Attempts → Pc V
  store_retry : (value : V) → (new : ℕ) → Attempts → Pc V
  stored : (value : V) → Bool → Pc V
  pop_load_tail : (first : ℕ) → Pc V
  pop_load_next : (first last : ℕ) → Pc V
  pop_reload_head : (first last : ℕ) → (next : Option ℕ) → Pc V
  pop_help : (last next : ℕ) → Pc V
  pop_swing : (first next : ℕ) → Pc V
  pop_take : (first next : ℕ) → Pc V
  pop_retire : (first : ℕ) → V → Pc V
  pop_unlock : V → Pc V
  popped : V → Pc V

abbrev pub is_null : Option ℕ → Bool
is_null none = true
is_null (some a) = false

module _ {V : Type 0} where
  -- `Node<T>{value}` at an address.
  abbrev pub allocated : ℕ → V → Shared V → Shared V
  allocated a v m = record m {
    cells = update m.cells a (record { value = v; next = none; live = true });
  }

  abbrev pub freed : ℕ → Shared V → Shared V
  freed a m = record m { cells = update m.cells a (record (m.cells a) { live = false }) }

  abbrev pub linked : ℕ → ℕ → Shared V → Shared V
  linked a b m = record m { cells = update m.cells a (record (m.cells a) { next = some b }) }

  -- `tail_.compare_exchange_strong(last, next)`, whose result nothing uses.
  abbrev pub swung : ℕ → ℕ → Shared V → Shared V
  swung last next m = if m.tail == last then record m { tail = next } else m

  abbrev pub retried : Shared V → Shared V
  retried m = record m { cas_retries = inc_size m.cas_retries }

  -- An access to a node that is not live is undefined.
  abbrev at_node : ℕ → Outcome (Shared V) (Pc V) → Shared V → Outcome (Shared V) (Pc V)
  at_node a go m = if (m.cells a).live then go else faults

  -- The head of the loop of a store. Out of attempts, the node is freed.
  store_loop : V → ℕ → Attempts → M (Shared V) (Pc V)
  store_loop v new none m = ok (store_load_next v new m.tail none) m
  store_loop v new (some zero) m = at_node new (ok (stored v false) (freed new m)) m
  store_loop v new (some (suc k)) m = ok (store_load_next v new m.tail (some k)) m

  store_branch : V → ℕ → ℕ → Option ℕ → Attempts → Pc V
  store_branch v new last none k = store_link v new last k
  store_branch v new last (some next) k = store_help v new last next k

  pop_branch : Bool → ℕ → ℕ → Option ℕ → Pc V
  pop_branch empty first last none = missed
  pop_branch true first last (some next) = pop_help last next
  pop_branch false first last (some next) = pop_swing first next

module _ {V : Type 0} (moved_from : V → V) where
  -- `std::move(next->value)`
  abbrev pub taken : ℕ → Shared V → Shared V
  taken a m = record m {
    cells = update m.cells a (record (m.cells a) { value = moved_from (m.cells a).value });
  }

  -- One step of a thread. `spurious` makes a weak compare-exchange fail. A thread that finds
  -- `retired_mtx_` taken stays where it is; with the mutex it appends its node, which no other thread
  -- can see before the mutex is free again.
  unfoldable pub step : Bool → Pc V → M (Shared V) (Pc V)
  unfolding store_loop store_branch pop_branch
  step spurious idle m = ok idle m
  step spurious missed m = ok missed m
  step spurious (stored v b) m = ok (stored v b) m
  step spurious (popped v) m = ok (popped v) m
  step spurious (store_allocate v k) m =
      ok (store_load_tail v m.fresh k) (record (allocated m.fresh v m) { fresh = suc m.fresh })
  step spurious (store_load_tail v new k) m = store_loop v new k m
  step spurious (store_load_next v new last k) m =
      at_node last (ok (store_reload_tail v new last (m.cells last).next k) m) m
  step spurious (store_reload_tail v new last next k) m =
      ok (if last == m.tail then store_branch v new last next k else store_load_tail v new k) m
  step spurious (store_link v new last k) m =
      at_node last
        (if is_null (m.cells last).next && not spurious
          then ok (store_swing v new last) (linked last new m)
          else ok (store_retry v new k) m)
        m
  step spurious (store_swing v new last) m = ok (stored v true) (swung last new m)
  step spurious (store_help v new last next k) m = ok (store_retry v new k) (swung last next m)
  step spurious (store_retry v new k) m = ok (store_load_tail v new k) (retried m)
  step spurious pop_load_head m = ok (pop_load_tail m.head) m
  step spurious (pop_load_tail first) m = ok (pop_load_next first m.tail) m
  step spurious (pop_load_next first last) m =
      at_node first (ok (pop_reload_head first last (m.cells first).next) m) m
  step spurious (pop_reload_head first last next) m =
      ok (if first == m.head then pop_branch (first == last) first last next else pop_retry) m
  step spurious (pop_help last next) m = ok missed (swung last next m)
  step spurious (pop_swing first next) m =
      if first == m.head && not spurious
      then ok (pop_take first next) (record m { head = next })
      else ok pop_retry m
  step spurious (pop_take first next) m =
      at_node next (ok (pop_retire first (m.cells next).value) (taken next m)) m
  step spurious (pop_retire first v) m =
      if m.retired_locked
      then ok (pop_retire first v) m
      else ok (pop_unlock v) (record m { retired = m.retired ++ first ∷ []; retired_locked = true })
  step spurious (pop_unlock v) m = ok (popped v) (record m { retired_locked = false })
  step spurious pop_retry m = ok missed (retried m)
