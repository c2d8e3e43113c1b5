-- ===== src/Bench/Cases.antt =====
-- bin/benchmark.cpp: the cases, and what is published of them.
use mathlib.Core.List.{
  flat_map, forall_mem-cons, mem-cons_self, mem-cons_of_mem, mem-append_left, mem-append_right,
  not-mem-nil, Mem-prop,
}
use mathlib.Core.Option.{bind}
use mathlib.Core.Path.{fun_ext}
use message_queue_practical.Prelude.{
  ℕ, zero, suc, ◌^◌, ◌≤◌, ◌<◌, ◌≡◌, refl, subst, arith, false, Bool-cases, inl, inr, String, some,
  Option-cases, List, [], ◌∷◌, ◌++◌, Mem, get_elem?, ap, ◌∙◌, ◌<◌, sym, subst, ℕ_discrete,
}
use message_queue_practical.Interface.Role.{ThreadAccessCategory, DeadlockExceptionPolicy}
use message_queue_practical.Priority.Heap.{IsStrictWeak}
use message_queue_practical.Bench.Params.{
  LoadProfile, balanced, fast_producer, fast_consumer, batch, burst, priority_mix, Topology, spsc,
  mpsc, spmc, mpmc, ScenarioParams,
}
use message_queue_practical.Bench.Double.{Double}
use message_queue_practical.Bench.Environment.{
  Environment, ℤ, pos, negsuc, env_read, overridden, max_int,
}
use message_queue_practical.Bench.Layout.{layout_positive, overridden-positive}
use message_queue_practical.Bench.Metrics.{ScenarioMetrics}
use message_queue_practical.Bench.Benchmark.{
  compare_messages, Strategy, circular_bounded, circular_overwrite, deque_bounded, michael_scott,
  priority_stub, strategy_int, profile_int, topology_int, strategies, profiles, topologies,
  capacities, Args, with_total, with_capacity, with_topology, with_profile, with_strategy,
  apply_case5_args, scenario_params, Counters, published, publish_counters, no_metrics,
  run_strategy, iterate, bm_queue_scenario,
}

get_elem?-Mem : {A : Type 0} (xs : List A) (i : ℕ) (x : A) → get_elem? xs i ≡ some x → Mem x xs
get_elem?-Mem [] i x e = absurd (cc e)
get_elem?-Mem (y ∷ xs) zero x e =
    let same : y ≡ x = cc e in subst (λ z. Mem z (y ∷ xs)) same mem-cons_self
get_elem?-Mem (y ∷ xs) (suc i) x e = mem-cons_of_mem y (get_elem?-Mem xs i x e)

Mem-flat_map :
    {A B : Type 0} (f : A → List B) (xs : List A) (x : A) (y : B)
    → Mem x xs
    → Mem y (f x)
    → Mem y (flat_map f xs)
unfolding flat_map
Mem-flat_map f [] x y at there = absurd (not-mem-nil at)
Mem-flat_map f (x' ∷ xs) x y at there =
    (forall_mem-cons {p = λ z. Mem y (f z) → Mem y (f x' ++ flat_map f xs)}
        (λ z a b. fun_ext (λ h. Mem-prop (a h) (b h)))).1
      (
        mem-append_left (flat_map f xs),
        λ z h k. mem-append_right (f x') (Mem-flat_map f xs z y h k),
      )
      x at there

-- What the priority queue of the benchmark relies on.
pub compare_messages-IsStrictWeak : IsStrictWeak compare_messages
compare_messages-IsStrictWeak = record {
  asymmetric = λ x y h. ground (arith, h);
  negatively_transitive = λ x y z h k. ground (arith, h, k);
}

strategy_round : (s : Strategy) → get_elem? strategies (strategy_int s) ≡ some s
strategy_round circular_bounded = refl
strategy_round circular_overwrite = refl
strategy_round deque_bounded = refl
strategy_round michael_scott = refl
strategy_round priority_stub = refl

profile_round : (p : LoadProfile) → get_elem? profiles (profile_int p) ≡ some p
profile_round balanced = refl
profile_round fast_producer = refl
profile_round fast_consumer = refl
profile_round batch = refl
profile_round burst = refl
profile_round priority_mix = refl

topology_round : (t : Topology) → get_elem? topologies (topology_int t) ≡ some t
topology_round spsc = refl
topology_round mpsc = refl
topology_round spmc = refl
topology_round mpmc = refl

-- Every strategy, load profile and topology is a case of the benchmark, with 100000 messages and
-- each capacity of the list, and the integers of the case stand for the enumerators they came from.
pub case5-Mem :
    (s : Strategy) (p : LoadProfile) (t : Topology) (c : ℕ)
    → Mem c capacities
    → (args : Args) × Mem args apply_case5_args
      × (get_elem? strategies args.strategy ≡ some s)
      × (get_elem? profiles args.profile ≡ some p)
      × (get_elem? topologies args.topology ≡ some t)
      × (args.capacity ≡ c)
      × (args.total_messages ≡ 100000)
unfolding apply_case5_args
case5-Mem s p t c at = (
  record {
    strategy = strategy_int s;
    profile = profile_int p;
    topology = topology_int t;
    capacity = c;
    total_messages = 100000;
  },
  Mem-flat_map with_strategy strategies s _
      (get_elem?-Mem strategies (strategy_int s) s (strategy_round s))
      (Mem-flat_map (with_profile s) profiles p _
        (get_elem?-Mem profiles (profile_int p) p (profile_round p))
        (Mem-flat_map (with_topology s p) topologies t _
          (get_elem?-Mem topologies (topology_int t) t (topology_round t))
          (Mem-flat_map (with_capacity s p t) capacities c _ at (
            let total : ℕ = 100000 in
            Mem-flat_map (with_total s p t c) (total ∷ []) total _ mem-cons_self
              (mem-cons_self {l = []}))))),
  strategy_round s,
  profile_round p,
  topology_round t,
  refl,
  refl,
)

module _ {W : Type 0} (d : Double W) (env : Environment W) where
  abbrev pub IsInt : ℤ → Type 0
  IsInt (pos n) = n < 2 ^ 31
  IsInt (negsuc n) = n < 2 ^ 31

  overridden-IsInt : (m : ℤ) (n : ℕ) → IsInt m → n < 2 ^ 31 → overridden m n < 2 ^ 31
  overridden-IsInt (pos m) n h k = ground (arith, h)
  overridden-IsInt (negsuc m) n h k = k

  max_int-le : (m : ℤ) → 1 ≤ max_int 1 m
  max_int-le (pos m) = ground arith
  max_int-le (negsuc m) = omega arith

  env_read-IsInt :
      (name : String)
      → ((text : String) → IsInt (env.atoi text))
      → IsInt (env_read env name (negsuc 0))
  env_read-IsInt name ints = elim (Option-cases (env.getenv name)) [
    | inl e ↦ ground (arith, e)
    | inr (text, e) ↦ ground (arith, e, ints text)
  ]

  -- Whatever the environment says, a case runs with a producer, a consumer, a capacity and a second
  -- of time at least, and with a number of messages that fits an `int`. The arguments of the case
  -- are such, and `atoi` returns an `int`.
  pub scenario_params_ready :
      (topology : Topology) (profile : LoadProfile) (capacity total : ℕ)
      → ((text : String) → IsInt (env.atoi text))
      → 1 ≤ capacity
      → total < 2 ^ 31
      → let params = scenario_params d env topology profile capacity total in
        (1 ≤ params.producers)
        × (1 ≤ params.consumers)
        × (1 ≤ params.capacity)
        × (1 ≤ params.scenario_timeout_sec)
        × (params.total_messages < 2 ^ 31)
  unfolding scenario_params
  scenario_params_ready topology profile capacity total ints room few =
      let (p, c, h) = layout_positive d env topology in
      (
        p,
        c,
        overridden-positive (env_read env "MQ_BENCH_CAPACITY" (negsuc 0)) capacity room,
        max_int-le (env_read env "MQ_BENCH_TIMEOUT_SEC" (pos 120)),
        overridden-IsInt (env_read env "MQ_BENCH_MESSAGES" (negsuc 0)) total
            (env_read-IsInt "MQ_BENCH_MESSAGES" ints) few,
      )

  module _
      (run : ℕ
        → Strategy
        → ThreadAccessCategory
        → DeadlockExceptionPolicy
        → ScenarioParams W
        → ScenarioMetrics W) where
    -- The metrics of the run that has `n` more to come, and those that are left after `n` runs.
    abbrev pub metrics_of : Strategy → ScenarioParams W → Topology → ℕ → ScenarioMetrics W
    metrics_of s params t n = run_strategy (run n) s params t

    abbrev pub last_metrics :
        Strategy → ScenarioParams W → Topology → ℕ → ScenarioMetrics W → ScenarioMetrics W
    last_metrics s params t zero m = m
    last_metrics s params t (suc n) m = metrics_of s params t 0

    last_again :
        (s : Strategy) (params : ScenarioParams W) (t : Topology) (n : ℕ) (m : ScenarioMetrics W)
        → last_metrics s params t n (metrics_of s params t n) ≡ last_metrics s params t (suc n) m
    last_again s params t zero m = refl
    last_again s params t (suc n) m = refl

    iterate_published :
        (s : Strategy) (params : ScenarioParams W) (t : Topology) (n : ℕ) (m : ScenarioMetrics W)
        (times times' : List W) (c : Counters W)
        → iterate d env run s params t n m times ≡ (times', published c)
        → (c ≡ publish_counters d (last_metrics s params t n m))
          × ((i : ℕ) → i < n → (metrics_of s params t i).timed_out ≡ false)
    unfolding iterate
    iterate_published s params t zero m times times' c e = (cc e, λ i h. absurd (omega (arith, h)))
    iterate_published s params t (suc n) m times times' c e =
        let metrics = metrics_of s params t n in
        elim (Bool-cases metrics.timed_out) [
          | inl late ↦ absurd (ground (arith, e, late))
          | inr fine ↦
              let (same, before) =
                iterate_published s params t n metrics (times ++ metrics.elapsed_sec ∷ []) times' c
                  (ground (arith, e, fine)) in
              (
                same ∙ ap (publish_counters d) (last_again s params t n m),
                λ i h. elim (ℕ_discrete i n) [
                  | yes k ↦ subst (λ j. (metrics_of s params t j).timed_out ≡ false) (sym k) fine
                  | no k ↦ before i (omega (arith, h))
                ],
              )
        ]

    -- What a case publishes are the counters of its last run, or of no run if there was none, and of
    -- its runs none timed out; the runs are those of the strategy and topology of the case, with the
    -- parameters of the environment.
    pub published_in_time :
        (iterations : ℕ) (args : Args) (times : List W) (c : Counters W)
        → bm_queue_scenario d env run iterations args ≡ some (times, published c)
        → (s : Strategy) × (p : LoadProfile) × (t : Topology) × (get_elem? strategies args.strategy
            ≡ some s)
          × (get_elem? profiles args.profile ≡ some p)
          × (get_elem? topologies args.topology ≡ some t)
          × (c
              ≡ publish_counters d (
                  last_metrics s
                    (scenario_params d env t p args.capacity args.total_messages)
                    t
                    iterations
                    (no_metrics d)))
          × ((i : ℕ)
              → i < iterations
              → (metrics_of s
                  (scenario_params d env t p args.capacity args.total_messages)
                  t
                  i).timed_out
                ≡ false)
    unfolding bm_queue_scenario bind
    published_in_time iterations args times c e =
        elim (Option-cases (get_elem? strategies args.strategy)) [
          | inl n ↦ absurd (ground (arith, e, n))
          | inr (s, es) ↦ elim (Option-cases (get_elem? profiles args.profile)) [
            | inl n ↦ absurd (ground (arith, e, es, n))
            | inr (p, ep) ↦ elim (Option-cases (get_elem? topologies args.topology)) [
              | inl n ↦ absurd (ground (arith, e, es, ep, n))
              | inr (t, et) ↦
                  let (same, fine) =
                    iterate_published s
                      (scenario_params d env t p args.capacity args.total_messages) t iterations
                      (no_metrics d) [] times c (ground (arith, e, es, ep, et)) in
                  (s, p, t, es, ep, et, same, fine)
            ]
          ]
        ]
