-- ===== src/Bench/Tally.antt =====
-- bin/benchmark_helpers.hpp: what the counters of a scenario say, while no stop is requested.
use message_queue_practical.Prelude.{
  ℕ, suc, ◌+◌, ◌≤◌, ◌<◌, ◌≡◌, ◌≢◌, sym, ◌∙◌, ap, subst, arith, ℕ_discrete,
}
use message_queue_practical.Interface.History.{update}
use message_queue_practical.Bench.Scenario.{
  Producer, next_message, take_sequence, test_stop, offer, back_off, test_again, count_own,
  count_produced, finish, finished, Consumer, check_stop, check_done, check_size, check_produced,
  check_delivered, pull, wait, count_delivered, count_read, left,
}
use message_queue_practical.Bench.Sums.{sum, sum-change, sum-full, update_here, update_other}

-- Messages of a producer that the queue has taken and `producer_counts` has not.
abbrev pub sent : Producer → ℕ
sent (test_again i msg) = 1
sent (count_own i msg t) = 1
sent _ = 0

-- Those that `producer_counts` has and `produced` has not.
abbrev pub owed : Producer → ℕ
owed (count_produced i msg t) = 1
owed _ = 0

abbrev pub is_finished : Producer → ℕ
is_finished finished = 1
is_finished _ = 0

-- Messages that a consumer has read and `delivered`, or `consumer_counts`, has not.
abbrev pub unread : Consumer → ℕ
unread (count_delivered m t) = 1
unread _ = 0

abbrev pub uncounted : Consumer → ℕ
uncounted (count_read m t) = 1
uncounted _ = 0

-- Which message a producer with `share` messages to send is at, and how many it has counted.
abbrev pub Stage : ℕ → Producer → ℕ → Type 0
Stage share (next_message i) count = (count ≡ i) × (i ≤ share)
Stage share (take_sequence i) count = (count ≡ i) × (i < share)
Stage share (test_stop i msg a) count = (count ≡ i) × (i < share)
Stage share (offer i msg a) count = (count ≡ i) × (i < share)
Stage share (back_off i msg a) count = (count ≡ i) × (i < share)
Stage share (test_again i msg) count = (count ≡ i) × (i < share)
Stage share (count_own i msg t) count = (count ≡ i) × (i < share)
Stage share (count_produced i msg t) count = (count ≡ suc i) × (i < share)
Stage share finish count = count ≡ share
Stage share finished count = count ≡ share

-- What a consumer knows that has seen all producers done.
abbrev pub Knows : ℕ → ℕ → ℕ → ℕ → Consumer → Type 0
Knows threads held produced done (check_size a) = done ≡ threads
Knows threads held produced done (check_produced a) = done ≡ threads
Knows threads held produced done (check_delivered a p) = (done ≡ threads) × (p ≡ produced)
Knows threads held produced done left = (done ≡ threads) × (held ≡ 0)
Knows threads held produced done _ = Unit

pub sent-Stage : (share : ℕ) (pc : Producer) (n : ℕ) → Stage share pc n → n + sent pc ≤ share
sent-Stage share (next_message i) n h = omega arith
sent-Stage share (take_sequence i) n h = omega arith
sent-Stage share (test_stop i msg a) n h = omega arith
sent-Stage share (offer i msg a) n h = omega arith
sent-Stage share (back_off i msg a) n h = omega arith
sent-Stage share (test_again i msg) n h = omega arith
sent-Stage share (count_own i msg t) n h = omega arith
sent-Stage share (count_produced i msg t) n h = omega arith
sent-Stage share finish n h = omega arith
sent-Stage share finished n h = omega arith

pub is_finished-le : (pc : Producer) → is_finished pc ≤ 1
is_finished-le finished = omega arith
is_finished-le (next_message i) = omega arith
is_finished-le (take_sequence i) = omega arith
is_finished-le (test_stop i msg a) = omega arith
is_finished-le (offer i msg a) = omega arith
is_finished-le (back_off i msg a) = omega arith
is_finished-le (test_again i msg) = omega arith
is_finished-le (count_own i msg t) = omega arith
is_finished-le (count_produced i msg t) = omega arith
is_finished-le finish = omega arith

module _ (producers consumers : ℕ) (share : ℕ → ℕ) where
  -- `held` is the number of messages in the queue.
  pub record Tally (held delivered produced done : ℕ) (made got : ℕ → ℕ) (ps : ℕ → Producer)
      (cs : ℕ → Consumer) : Type 0 where
    pub stage : (i : ℕ) → i < producers → Stage (share i) (ps i) (made i)
    pub own : produced + sum (λ i. owed (ps i)) producers ≡ sum made producers
    pub balance :
        held + delivered + sum (λ i. unread (cs i)) consumers
        ≡ sum (λ i. made i + sent (ps i)) producers
    pub ended : done ≡ sum (λ i. is_finished (ps i)) producers
    pub counted : delivered ≡ sum got consumers + sum (λ i. uncounted (cs i)) consumers
    pub known : (i : ℕ) → i < consumers → Knows producers held produced done (cs i)

  module _ {held delivered produced done : ℕ} {made got : ℕ → ℕ} {ps : ℕ → Producer}
      {cs : ℕ → Consumer} (t : Tally held delivered produced done made got ps cs) where
    -- A consumer that knows something knows that no producer is on its way.
    unknown : (u : ℕ) → u < producers → is_finished (ps u) ≡ 0 → done ≢ producers
    unknown u h f e = omega (
      arith,
      sum-full (λ i. is_finished (ps i)) producers u (λ i. is_finished-le (ps i)) (sym t.ended ∙ e)
          h,
    )

    Knows-moot :
        (held' produced' done' : ℕ) (pc : Consumer)
        → done ≢ producers
        → Knows producers held produced done pc
        → Knows producers held' produced' done' pc
    Knows-moot held' produced' done' (check_stop a) n k = tt
    Knows-moot held' produced' done' (check_done a) n k = tt
    Knows-moot held' produced' done' (check_size a) n k = absurd (n k)
    Knows-moot held' produced' done' (check_produced a) n k = absurd (n k)
    Knows-moot held' produced' done' (check_delivered a p) n k = absurd (n k.0)
    Knows-moot held' produced' done' (pull a) n k = tt
    Knows-moot held' produced' done' (wait a) n k = tt
    Knows-moot held' produced' done' (count_delivered m a) n k = tt
    Knows-moot held' produced' done' (count_read m a) n k = tt
    Knows-moot held' produced' done' left n k = absurd (n k.0)

    -- A step of a producer on its way.
    pub Tally-producer :
        (u held' produced' done' : ℕ) (made' : ℕ → ℕ) (pc : Producer)
        → u < producers
        → is_finished (ps u) ≡ 0
        → ((i : ℕ) → u ≢ i → made' i ≡ made i)
        → Stage (share u) pc (made' u)
        → produced' + owed pc + made u ≡ produced + owed (ps u) + made' u
        → held' + made u + sent (ps u) ≡ held + made' u + sent pc
        → done' ≡ done + is_finished pc
        → Tally held' delivered produced' done' made' got (update ps u pc) cs
    Tally-producer u held' produced' done' made' pc h f others st e1 e2 e3 = record {
      stage = λ i k. elim (ℕ_discrete u i) [
        | yes p ↦
            subst (λ j. Stage (share j) (update ps u pc j) (made' j)) p
              (subst (λ x. Stage (share u) x (made' u)) (sym (update_here ps u pc)) st)
        | no n ↦
            subst (λ x. Stage (share i) x (made' i)) (sym (update_other ps u pc i n))
              (subst (λ x. Stage (share i) (ps i) x) (sym (others i n)) (t.stage i k))
      ];
      own = omega (arith, t.own, e1, changed owed, makes, ap owed (update_here ps u pc));
      balance = omega (arith, t.balance, e2, both, ap sent (update_here ps u pc));
      ended =
          omega (arith, t.ended, e3, f, changed is_finished, ap is_finished (update_here ps u pc));
      counted = t.counted;
      known = λ i k. Knows-moot held' produced' done' (cs i) (unknown u h f) (t.known i k);
    }
      where
        changed :
            (g : Producer → ℕ)
            → sum (λ i. g (update ps u pc i)) producers + g (ps u)
              ≡ sum (λ i. g (ps i)) producers + g (update ps u pc u)
        changed g =
            sum-change (λ i. g (ps i)) (λ i. g (update ps u pc i)) producers u h
              (λ i n. ap g (update_other ps u pc i n))

        makes : sum made' producers + made u ≡ sum made producers + made' u
        makes = sum-change made made' producers u h others

        both :
            sum (λ i. made' i + sent (update ps u pc i)) producers + (made u + sent (ps u))
            ≡ sum (λ i. made i + sent (ps i)) producers + (made' u + sent (update ps u pc u))
        both =
            sum-change (λ i. made i + sent (ps i)) (λ i. made' i + sent (update ps u pc i))
              producers u h (λ i n. omega (arith, others i n, ap sent (update_other ps u pc i n)))

    Knows-fewer :
        (held' : ℕ) (pc : Consumer)
        → held' ≤ held
        → Knows producers held produced done pc
        → Knows producers held' produced done pc
    Knows-fewer held' (check_stop a) n k = tt
    Knows-fewer held' (check_done a) n k = tt
    Knows-fewer held' (check_size a) n k = k
    Knows-fewer held' (check_produced a) n k = k
    Knows-fewer held' (check_delivered a p) n k = k
    Knows-fewer held' (pull a) n k = tt
    Knows-fewer held' (wait a) n k = tt
    Knows-fewer held' (count_delivered m a) n k = tt
    Knows-fewer held' (count_read m a) n k = tt
    Knows-fewer held' left n k = (k.0, omega arith)

    -- A step of a consumer.
    pub Tally-consumer :
        (u held' delivered' : ℕ) (got' : ℕ → ℕ) (pc : Consumer)
        → u < consumers
        → held' ≤ held
        → ((i : ℕ) → u ≢ i → got' i ≡ got i)
        → Knows producers held' produced done pc
        → held' + delivered' + unread pc ≡ held + delivered + unread (cs u)
        → delivered' + got u + uncounted (cs u) ≡ delivered + got' u + uncounted pc
        → Tally held' delivered' produced done made got' ps (update cs u pc)
    Tally-consumer u held' delivered' got' pc h le others kn e1 e2 = record {
      stage = t.stage;
      own = t.own;
      balance = omega (arith, t.balance, e1, changed unread, ap unread (update_here cs u pc));
      ended = t.ended;
      counted =
          omega (arith, t.counted, e2, changed uncounted, gets, ap uncounted (update_here cs u pc));
      known = λ i k. elim (ℕ_discrete u i) [
        | yes p ↦
            subst (λ j. Knows producers held' produced done (update cs u pc j)) p
              (subst (λ x. Knows producers held' produced done x) (sym (update_here cs u pc)) kn)
        | no n ↦
            subst (λ x. Knows producers held' produced done x) (sym (update_other cs u pc i n))
              (Knows-fewer held' (cs i) le (t.known i k))
      ];
    }
      where
        changed :
            (g : Consumer → ℕ)
            → sum (λ i. g (update cs u pc i)) consumers + g (cs u)
              ≡ sum (λ i. g (cs i)) consumers + g (update cs u pc u)
        changed g =
            sum-change (λ i. g (cs i)) (λ i. g (update cs u pc i)) consumers u h
              (λ i n. ap g (update_other cs u pc i n))

        gets : sum got' consumers + got u ≡ sum got consumers + got' u
        gets = sum-change got got' consumers u h others
