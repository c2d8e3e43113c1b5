-- ===== src/Lib.antt =====
-- Message queues: a verification library for the queues of lib/.
--
-- The program. `IMessageQueue` (lib/message_queue_interface.hpp) has the calls Send, TrySend, Read,
-- TryRead, Size, Empty and Close. It keeps in a thread-local table which roles the calling thread has
-- shown on each queue, throws or not by its `DeadlockExceptionPolicy`, and leaves the rest to virtual
-- functions. `DequeBoundedMessageQueue` (lib/deque_bounded_message_queue.hpp) and
-- `PriorityMessageQueue` (lib/min-heap_queue.hpp) override them under one mutex each. The circular
-- queues (lib/circular/) share a base class over a `CircularQueueSync`, of which there is one for each
-- `ThreadAccessCategory` (lib/circular/impl/). `MichaelScottQueue` (lib/michael_scott_queue.hpp) is a linked
-- list without a lock. The benchmark (bin/) runs producers and consumers on each of the queues and reports
-- what they sent and read, how fast and how evenly.
--
-- The files.
-- - Prelude: shared names, list lemmas, and `Outcome`, the result of a call on shared state: it
--   returns, throws, waits for another thread, or does what C++ does not define.
-- - Interface: lib/message_queue_interface.hpp. Role is the table of roles, Call the preworks and the
--   public calls over the record `Hooks` of the virtual functions, History the calls of several threads
--   one after the other, Simulation what it takes for a queue to follow an abstract one, and Policy what
--   accounting does to the roles.
-- - Spec: the abstract queues. Bounded has a capacity, a list and a flag for closed; Stable says where
--   a message goes by priority; Latest drops the first message when it is full.
-- - Deque: lib/deque_bounded_message_queue.hpp.
-- - Priority: lib/min-heap_queue.hpp. Heap has the comparator and the contract of std::push_heap and
--   std::pop_heap, which are parameters; Sorting shows an instance of the contract.
-- - Circular: lib/circular/. Queue is the base class over the record `SyncOps`, Bounded and Overwrite
--   are the two queues, Sync has the four synchronisation objects with what each guarantees, Ring is
--   lib/circular/impl/mpmc_bounded_sync_helper.hpp, and Limits shows where a circular queue goes wrong.
-- - MichaelScott: lib/michael_scott_queue.hpp. Machine has the nodes, the fields, and `StoreInternal`,
--   `TryStoreInternal` and `TryPopOnce` as a machine that makes one access to shared memory at a time;
--   System interleaves the machines of any number of threads, beside an abstract queue. Chain says how
--   the nodes hold the queue, Local what a thread knows at each point; Moves, Link and Progress follow a
--   step, and Consistent and Linear a whole interleaving. Alone, Solo and Reach are about a thread that
--   runs alone. Destroy is the destructor; Ledger and Settle follow who is to free which node, and
--   Mutex who holds the mutex of the retired nodes, and
--   Measure and Ends how many steps the calls need that may give up. Queue has the other functions,
--   as whole calls; Meets, Refine and Tries compare them with Spec.
-- - Bench: bin/benchmark_helpers.hpp and bin/benchmark.cpp. Params and Adapter are the data of a scenario
--   and `IMessageQueueAdapter`; Scenario is `RunScenario` with its threads, one access at a time. Lossless
--   is what a scenario relies on of its queue, OnBounded and OnDeque fill it. Sums, Shares and Tally say
--   what the counters mean, Sending, Reading and Samples follow the steps, Sampled counts the samples, and
--   Delivery and Report are about a scenario
--   that ends by itself, Ending and Stopping about one that its watchdog stops. Double is the interface of
--   `double`, Percentile, Ranks, Metrics and Fairness the results; Environment, Layout and Backoff what the
--   threads are given and how they wait, Benchmark and Cases the cases of bin/benchmark.cpp.
-- - Tests: runs on concrete histories.
--
-- How the code is read. A class is a record and a member function acts on it; the names are those of
-- the source in snake case. A number of type std::size_t wraps at 2^64 where it is counted up or down
-- (`inc_size`, `dec_size`). A wait on a condition variable or a semaphore is one test: where it fails,
-- the call blocks, keeps what it holds, and what it holds stays as it was left; a later call of the
-- history sees that state. A history is a sequence of whole calls of any threads: two calls of it do
-- not interleave, and memory order plays no part. The two guards of a circular queue are those of the
-- calling thread; between whole calls there are none. How often a weak compare-exchange fails is the
-- parameter `spurious`; the loop that drops the oldest message has the 64 attempts of the source as
-- its fuel. Containers and value types are parameters that say when they throw.
--
-- The stores and pops of the Michael-Scott queue do interleave. Memory is sequentially consistent
-- there, an address is used for one node only (a linked node is freed by the destructor at the
-- earliest), allocation does not fail, and a weak compare-exchange may fail at any step. A thread that
-- runs alone has no such failure and gets a number of steps as fuel, 11 for a store and 8 for a try of
-- a pop, which are enough in every state that interleaved calls reach if `retired_mtx_` is free; a thread
-- that finds that mutex taken stays where it is; the loop of `PopMessage` gets a
-- number of tries, and the first loop of the destructor a number of turns. The preworks, the postworks
-- and the size counter of that queue are whole calls.
--
-- The threads of a scenario take one step after the other in an order that is a list of turns; a call of
-- the queue is one step, and each turn says what the clock shows. The watchdog may expire at any turn. The
-- `int` values of a scenario are those that are not negative; a `double` is an element of any type with
-- the operations of `Double`, which are to be those of IEEE. The main thread's calls of the queue count as
-- those of one more thread. The environment, std::sort, the random generator and the benchmark library are
-- parameters.
--
-- Not modelled: the delays that a profile adds between the steps of a scenario (they only let time pass), the
-- preworks and the size counter of the Michael-Scott queue between interleaved calls,
-- interleaved calls of the other queues, notifications (they change no state), the three functions of
-- bin/benchmark.cpp that name enumerators and are not called, the scripts that plot, and the tests of the
-- repository.
pub mod Prelude
pub mod Interface
pub mod Spec
pub mod Deque
pub mod Priority
pub mod Circular
pub mod MichaelScott
pub mod Bench
pub mod Tests
