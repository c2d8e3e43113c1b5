-- ===== src/Interface/Role.antt =====
-- lib/message_queue_interface.hpp: `ThreadRole` and the thread-local table of the roles that a
-- thread has on each queue. A queue is named by its address.
pub mod Laws
use message_queue_practical.Prelude.{
  ℕ, Option, none, some, Bool, true, false, ◌&&◌, ◌==◌, if◌then◌else◌,
}

pub data ThreadAccessCategory : Type 0 where
  single_producer_single_consumer : ThreadAccessCategory
  multiple_producer_single_consumer : ThreadAccessCategory
  single_producer_multiple_consumer : ThreadAccessCategory
  multiple_producer_multiple_consumer : ThreadAccessCategory

-- The tests that the queues make of their category by `if constexpr`.
abbrev pub has_single_consumer : ThreadAccessCategory → Bool
has_single_consumer single_producer_single_consumer = true
has_single_consumer multiple_producer_single_consumer = true
has_single_consumer _ = false

abbrev pub has_single_producer : ThreadAccessCategory → Bool
has_single_producer single_producer_single_consumer = true
has_single_producer single_producer_multiple_consumer = true
has_single_producer _ = false

pub data DeadlockExceptionPolicy : Type 0 where
  on_thread_role_change on_deadlock no_exception : DeadlockExceptionPolicy

pub data ThreadRole : Type 0 where
  producer consumer both no_info : ThreadRole

-- The test `current != role`, negated.
abbrev pub same_role : ThreadRole → ThreadRole → Bool
same_role producer producer = true
same_role consumer consumer = true
same_role both both = true
same_role no_info no_info = true
same_role _ _ = false

-- The `std::unordered_map` of one thread, as the function that `find` computes.
abbrev pub Roles : Type 0
Roles = ℕ → Option ThreadRole

-- `roles[p] = r` and `roles.erase(p)`.
abbrev pub assign : ℕ → ThreadRole → Roles → Roles
assign p r roles q = if p == q then some r else roles q

abbrev pub erase : ℕ → Roles → Roles
erase p roles q = if p == q then none else roles q

abbrev is_missing : Option ThreadRole → Bool
is_missing none = true
is_missing (some r) = false

-- At a missing key nothing happens. Where `roles[to]` inserts, the table may have to rehash, which
-- invalidates the iterator that is then erased: `rehashes` says so, and `none` is undefined behaviour.
unfoldable pub move_thread_role : Bool → ℕ → ℕ → Roles → Option Roles
move_thread_role rehashes source target roles = elim (roles source) [
  | none ↦ some roles
  | some r ↦
      if is_missing (roles target) && rehashes
      then none
      else some (erase source (assign target r roles))
]

unfoldable pub copy_thread_role : ℕ → ℕ → Roles → Roles
copy_thread_role source target roles = elim (roles source) [
  | none ↦ roles
  | some r ↦ assign target r roles
]

unfoldable pub delete_thread_role : ℕ → Roles → Roles
delete_thread_role p roles = erase p roles

-- `try_emplace(this, kNoInfo)`: the table with an entry for `p`, and that entry.
unfoldable pub current_thread_role : ℕ → Roles → Roles
current_thread_role p roles = elim (roles p) [ none ↦ assign p no_info roles | some r ↦ roles ]

unfoldable pub get_thread_role : ℕ → Roles → ThreadRole
get_thread_role p roles = elim (roles p) [ none ↦ no_info | some r ↦ r ]

unfoldable pub is_both_role : ℕ → Roles → Bool
unfolding get_thread_role
is_both_role p roles = same_role (get_thread_role p roles) both

-- The constructors, assignments and the destructor of `IMessageQueue`, on the table.
unfoldable pub copy_construct : ℕ → ℕ → Roles → Roles
unfolding copy_thread_role
copy_construct this other = copy_thread_role other this

unfoldable pub copy_assign : ℕ → ℕ → Roles → Roles
unfolding copy_thread_role delete_thread_role
copy_assign this other roles =
    if this == other then roles else copy_thread_role other this (delete_thread_role this roles)

unfoldable pub move_construct : Bool → ℕ → ℕ → Roles → Option Roles
unfolding move_thread_role
move_construct rehashes this other = move_thread_role rehashes other this

unfoldable pub move_assign : Bool → ℕ → ℕ → Roles → Option Roles
unfolding move_thread_role delete_thread_role
move_assign rehashes this other roles =
    if this == other
    then some roles
    else move_thread_role rehashes other this (delete_thread_role this roles)

unfoldable pub destroy : ℕ → Roles → Roles
unfolding delete_thread_role
destroy this = delete_thread_role this
