-- ===== src/Spec/Bounded.antt =====
-- A queue of bounded size that can be closed. `place` says where a message goes in the list of those
-- held, which is read from the front. The two exceptions are those of a closed queue.
use message_queue_practical.Prelude.{
  ℕ, Bool, true, false, ◌||◌, List, [], ◌∷◌, ◌++◌, none, some, Exception, leb, length,
  if◌then◌else◌,
}
use message_queue_practical.Interface.History.{
  Request, send, try_send, read, try_read, size, empty, close, Reply, returned, waits, flag, value,
  option, number, raised,
}

pub record Bounded {ℓ} (V : Type ℓ) : Type ℓ where
  pub capacity : ℕ
  pub items : List V
  pub closed : Bool

abbrev pub is_nil {ℓ} : {V : Type ℓ} → List V → Bool
is_nil [] = true
is_nil (x ∷ xs) = false

abbrev pub append {ℓ} : {V : Type ℓ} → V → List V → List V
append v items = items ++ v ∷ []

module _ {ℓ} {V : Type ℓ} (place : V → List V → List V) (send_error read_error : Exception) where
  abbrev pub push : Bounded V → V → Bounded V
  push q v = record q { items = place v q.items }

  -- The first message, or what is reported where there is none.
  unfoldable pub take_first : List V → Bounded V → Reply V → (V → Reply V) → Reply V × Bounded V
  take_first [] q nothing found = (nothing, q)
  take_first (v ∷ rest) q nothing found = (found v, record q { items = rest })

  unfoldable pub bounded : Bounded V → Request V → Reply V × Bounded V
  unfolding take_first
  bounded q (send v) =
      if q.closed
      then (raised send_error, q)
      else if leb q.capacity (length q.items)
      then (waits, q)
      else (returned, push q v)
  bounded q (try_send v) =
      if q.closed || leb q.capacity (length q.items) then (flag false, q) else (flag true, push q v)
  bounded q read = take_first q.items q (if q.closed then raised read_error else waits) value
  bounded q try_read = take_first q.items q (option none) (λ v. option (some v))
  bounded q size = (number (length q.items), q)
  bounded q empty = (flag (is_nil q.items), q)
  bounded q close = (returned, record q { closed = true })
