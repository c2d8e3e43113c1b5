-- ===== src/Tests/MichaelScott.antt =====
-- Interleaved and whole calls of the Michael-Scott queue.
use message_queue_practical.Prelude.{
  ℕ, zero, suc, ◌≡◌, refl, false, true, List, [], ◌∷◌, none, some, Outcome, ok, arith, ap, Bool,
  ltb, ◌&&◌, ◌≤◌, ◌∙◌, ◌<◌, ne→==-false,
}
use message_queue_practical.Interface.Role.{on_thread_role_change}
use message_queue_practical.Interface.History.{run}
use message_queue_practical.Interface.Simulation.{replies}
use message_queue_practical.MichaelScott.Machine.{
  Shared, Pc, idle, store_swing, stored, popped, missed, max_attempts, step,
}
use message_queue_practical.MichaelScott.System.{
  System, Turn, begin, advance, store, pop, interleave, turn, is_done, new_queue, at_start,
  abstract_start, Linearizes,
}
use message_queue_practical.MichaelScott.Linear.{store_pop_linearizable}
use message_queue_practical.MichaelScott.Reach.{destroy_leaks_nothing}
use message_queue_practical.MichaelScott.Ends.{moves_of, tries_end}
use message_queue_practical.MichaelScott.Mutex.{continued}
use message_queue_practical.MichaelScott.Destroy.{destroy}
use message_queue_practical.MichaelScott.Queue
use message_queue_practical.MichaelScott.Queue.{hooks}
use message_queue_practical.MichaelScott.Refine.{michael_scott_history_refines, new_queue-Stands}
use message_queue_practical.MichaelScott.Meets.{spec}
use message_queue_practical.MichaelScott.Tries.{TriesMeet, try_enqueue_dequeue}
use message_queue_practical.Tests.Common.{
  role_of, role_of-IsPlain, fresh, fresh-Sticks, closing_calls,
}

-- What a move leaves behind.
abbrev moved : ℕ → ℕ
moved v = 0

abbrev steps : ℕ → ℕ → List (Turn ℕ)
steps thread zero = []
steps thread (suc n) = advance thread false ∷ steps thread n

abbrev then_turns : List (Turn ℕ) → List (Turn ℕ) → List (Turn ℕ)
then_turns [] us = us
then_turns (t ∷ ts) us = t ∷ then_turns ts us

-- Thread 0 stores 7, and is stopped before it swings the tail; thread 1 then stores 5, one of its
-- compare-exchanges failing spuriously.
abbrev two_stores : List (Turn ℕ)
two_stores =
    begin 0 (store 7 none)
    ∷ begin 1 (store 5 (some max_attempts))
    ∷ then_turns (steps 0 5) (then_turns (steps 1 10) (advance 1 true ∷ steps 1 8))

-- Two pops then, of one step in turn.
abbrev stores_and_pops : List (Turn ℕ)
stores_and_pops = then_turns two_stores (
    begin 2 pop
    ∷ begin 3 pop
    ∷ then_turns (steps 2 4) (then_turns (steps 3 4) (then_turns (steps 2 4) (steps 3 4))))

abbrev points : Outcome (System ℕ) (Unit {0}) → List (Pc ℕ)
points (ok u s) = s.threads 0 ∷ s.threads 1 ∷ s.threads 2 ∷ s.threads 3 ∷ []
points _ = []

-- The first pop has the value 7, the other has lost the race, and the first store has not ended.
points_reached :
    points (interleave moved stores_and_pops (at_start 0 2))
    ≡ store_swing 7 1 0 ∷ stored 5 true ∷ popped 7 ∷ missed ∷ []
unfolding interleave turn step new_queue
points_reached = refl

store_pop_linearizable_example : Linearizes moved (at_start 0 2) abstract_start stores_and_pops
store_pop_linearizable_example = store_pop_linearizable moved 0 2 stores_and_pops

michael_scott_history_refines_example :
    run on_thread_role_change 9
      (hooks moved 2)
      (record { tables = fresh; queue = new_queue 0 2 })
      closing_calls
    ≡ replies spec (record { capacity = 2; items = []; closed = false }) closing_calls
unfolding Queue.construct
michael_scott_history_refines_example =
    michael_scott_history_refines on_thread_role_change moved 0 2 9 2 (new_queue 0 2) role_of fresh
      closing_calls (omega arith) (omega arith) refl role_of-IsPlain (fresh-Sticks 9) (ground arith)

try_enqueue_dequeue_example :
    TriesMeet moved (new_queue 0 2) (record { capacity = 2; items = []; closed = false }) 7
try_enqueue_dequeue_example =
    try_enqueue_dequeue moved (new_queue 0 2) (record { capacity = 2; items = []; closed = false })
      7 (new_queue-Stands 0 2 (omega arith))

-- A store, a store that gives up at once, and a pop, each to its end.
abbrev finished_calls : List (Turn ℕ)
finished_calls =
    begin 0 (store 7 none)
    ∷ begin 1 (store 5 (some 0))
    ∷ then_turns (steps 0 7) (then_turns (steps 1 3) (begin 2 pop ∷ steps 2 8))

abbrev reached : Outcome (System ℕ) (Unit {0}) → System ℕ
reached (ok u s) = s
reached _ = at_start 0 2

abbrev finished : System ℕ
finished = reached (interleave moved finished_calls (at_start 0 2))

-- Turns of the first threads leave the others alone.
abbrev thread_of : Turn ℕ → ℕ
thread_of (begin u k) = u
thread_of (advance u spurious) = u

bystander :
    (t : Turn ℕ) (s s' : System ℕ) (u : ℕ)
    → thread_of t < u
    → turn moved t s ≡ ok tt s'
    → s'.threads u ≡ s.threads u
unfolding turn
bystander (begin v k) s s' u h e = ground (arith, ne→==-false v u)
bystander (advance v spurious) s s' u h e = ground (arith, ne→==-false v u)

abbrev all_below : ℕ → List (Turn ℕ) → Bool
all_below n [] = true
all_below n (t ∷ ts) = ltb (thread_of t) n && all_below n ts

-- All the turns, where `n` is past their threads.
bystanders :
    (n u : ℕ) (ts : List (Turn ℕ)) (s s' : System ℕ)
    → n ≤ u
    → all_below n ts ≡ true
    → interleave moved ts s ≡ ok tt s'
    → s'.threads u ≡ s.threads u
unfolding interleave
bystanders n u [] s s' h b e = let same : s' ≡ s = cc e in ap (λ (x : System ℕ). x.threads u) same
bystanders n u (t ∷ ts) s s' h b e =
    let (s1, f, g) = continued moved ts s' (turn moved t s) e in
    bystanders n u ts s1 s' h (ground arith) g ∙ bystander t s s1 u (ground arith) f

finished_reached : interleave moved finished_calls (at_start 0 2) ≡ ok tt finished
unfolding interleave turn step new_queue
finished_reached = refl

finished_done : (u : ℕ) → is_done (finished.threads u) ≡ true
unfolding interleave turn step new_queue
finished_done zero = refl
finished_done (suc zero) = refl
finished_done (suc (suc zero)) = refl
finished_done (suc (suc (suc u))) = ap is_done (
    bystanders 3 (suc (suc (suc u))) finished_calls (at_start 0 2) finished (omega arith) refl
      finished_reached)

destroy_leaks_nothing_example :
    (turns : ℕ) × (m : Shared ℕ) × (destroy turns finished.shared ≡ ok tt m)
    × ((a : ℕ) → (m.cells a).live ≡ false)
destroy_leaks_nothing_example =
    destroy_leaks_nothing moved 0 2 finished_calls finished finished_reached finished_done

-- Two messages are queued, and thread 2 is stopped in a pop while it holds the mutex of the retired
-- nodes.
abbrev holding : List (Turn ℕ)
holding =
    begin 0 (store 7 none)
    ∷ then_turns (steps 0 7)
        (begin 0 (store 5 none) ∷ then_turns (steps 0 7) (begin 2 pop ∷ steps 2 7))

abbrev held : System ℕ
held = reached (interleave moved holding (at_start 0 2))

held_reached : interleave moved holding (at_start 0 2) ≡ ok tt held
unfolding interleave turn step new_queue
held_reached = refl

-- The pop of thread 1 waits three times, until thread 2 goes on.
abbrev waiting : List (Turn ℕ)
waiting = then_turns (steps 1 9) (advance 2 false ∷ steps 1 2)

waiting-moves : moves_of moved 1 (begin 1 pop ∷ waiting) held ≡ 8
unfolding interleave turn step new_queue moves_of
waiting-moves = refl

waiting-points :
    points (interleave moved (begin 1 pop ∷ waiting) held)
    ≡ stored 5 true ∷ popped 5 ∷ popped 7 ∷ idle ∷ []
unfolding interleave turn step new_queue
waiting-points = refl

held_idle : is_done (held.threads 1) ≡ true
unfolding interleave turn step new_queue
held_idle = refl

tries_end_example :
    (s : System ℕ) × (interleave moved (begin 1 pop ∷ waiting) held ≡ ok tt s)
    × (is_done (s.threads 1) ≡ true)
tries_end_example =
    tries_end moved 1 0 2 holding waiting held pop held_reached held_idle tt refl
      (omega (arith, waiting-moves))
