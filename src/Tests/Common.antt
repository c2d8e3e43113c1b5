-- ===== src/Tests/Common.antt =====
-- Data that the tests share: two threads, the first a producer and the second a consumer.
use message_queue_practical.Prelude.{
  ℕ, inl, inr, refl, none, List, [], ◌∷◌, Bool-cases, ◌==◌, if◌then◌else◌,
}
use message_queue_practical.Interface.Role.{ThreadRole, producer, consumer, Roles, get_thread_role}
use message_queue_practical.Interface.History.{
  Request, send, try_send, read, try_read, size, empty, close,
}
use message_queue_practical.Interface.Simulation.{Sticks, IsPlain}

abbrev pub role_of : ℕ → ThreadRole
role_of t = if t == 0 then producer else consumer

pub role_of-IsPlain : (t : ℕ) → IsPlain (role_of t)
role_of-IsPlain t = elim (Bool-cases (t == 0)) [ inl e ↦ rw e (inl refl) | inr e ↦ rw e (inr refl) ]

abbrev pub fresh : ℕ → Roles
fresh t p = none

pub fresh-Sticks : (this : ℕ) (t : ℕ) → Sticks this (role_of t) (fresh t)
unfolding get_thread_role
fresh-Sticks this t = inl refl

-- More sends than a queue of capacity 2 holds, reads until it is empty, and sends again.
abbrev pub calls : List (ℕ × Request ℕ)
calls =
    (0, send 7)
    ∷ (0, try_send 5)
    ∷ (1, size)
    ∷ (0, try_send 6)
    ∷ (0, send 4)
    ∷ (1, try_read)
    ∷ (1, try_read)
    ∷ (1, try_read)
    ∷ (0, send 9)
    ∷ (1, empty)
    ∷ (1, try_read)
    ∷ []

-- The same with blocking reads, one of them of an empty queue.
abbrev pub blocking_calls : List (ℕ × Request ℕ)
blocking_calls =
    (0, send 7)
    ∷ (0, send 5)
    ∷ (0, send 6)
    ∷ (1, read)
    ∷ (1, try_read)
    ∷ (1, read)
    ∷ (0, send 8)
    ∷ (1, read)
    ∷ []

-- The same with a close.
abbrev pub closing_calls : List (ℕ × Request ℕ)
closing_calls =
    (0, send 7)
    ∷ (0, send 5)
    ∷ (1, close)
    ∷ (0, send 6)
    ∷ (0, try_send 6)
    ∷ (1, read)
    ∷ (1, read)
    ∷ (1, read)
    ∷ []
