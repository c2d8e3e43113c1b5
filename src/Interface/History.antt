-- ===== src/Interface/History.antt =====
-- Histories: the calls of several threads on one queue, one call after the other, each with the
-- thread-local roles of its thread, and what each call reports.
use message_queue_practical.Prelude.{
  ℕ, Bool, Option, ◌≡◌, List, [], ◌∷◌, Exception, Outcome, ok, throws, blocks, faults, ◌==◌,
  if◌then◌else◌, ==_iff, ne→==-false, refl, subst, ℕ_discrete,
}
use message_queue_practical.Interface.Role.{
  DeadlockExceptionPolicy, ThreadRole, producer, consumer, Roles,
}
use message_queue_practical.Interface.Call
use message_queue_practical.Interface.Call.{Hooks, Object, on_queue}

-- A call of a public function.
pub data Request {ℓ} (V : Type ℓ) : Type ℓ where
  send : V → Request V
  try_send : V → Request V
  read try_read size empty close : Request V

-- `waits`: the call blocks. `undefined`: it does what C++ does not define.
pub data Reply {ℓ} (V : Type ℓ) : Type ℓ where
  returned waits undefined : Reply V
  flag : Bool → Reply V
  value : V → Reply V
  option : Option V → Reply V
  number : ℕ → Reply V
  raised : Exception → Reply V

abbrev pub settle {ℓ κ μ} :
    {S : Type ℓ} {A : Type κ} {V : Type μ} → (A → Reply V) → S → Outcome S A → Reply V × S
settle f s (ok a s') = (f a, s')
settle f s (throws e s') = (raised e, s')
settle f s (blocks s') = (waits, s')
settle f s faults = (undefined, s)

-- The role that a call shows its thread to have, if any.
abbrev pub Fits {ℓ} : {V : Type ℓ} → ThreadRole → Request V → Type 0
Fits r (send v) = r ≡ producer
Fits r (try_send v) = r ≡ producer
Fits r read = r ≡ consumer
Fits r try_read = r ≡ consumer
Fits r size = Unit
Fits r empty = Unit
Fits r close = Unit

module _ {ℓ κ} {S : Type ℓ} {V : Type κ} (policy : DeadlockExceptionPolicy) (this : ℕ)
    (hooks : Hooks S V) where
  unfoldable pub perform : Object S → Request V → Reply V × Object S
  unfolding Call.send Call.try_send Call.read Call.try_read
  perform o (send v) = settle (λ _. returned) o (Call.send policy this hooks v o)
  perform o (try_send v) = settle flag o (Call.try_send policy this hooks v o)
  perform o read = settle value o (Call.read policy this hooks o)
  perform o try_read = settle option o (Call.try_read policy this hooks o)
  perform o size = settle number o (on_queue hooks.size o)
  perform o empty = settle flag o (on_queue hooks.empty o)
  perform o close = settle (λ _. returned) o (on_queue hooks.close o)

-- The thread-local tables of all threads, and the queue that they share.
pub record World {ℓ} (S : Type ℓ) : Type ℓ where
  pub tables : ℕ → Roles
  pub queue : S

abbrev pub update {ℓ} : {A : Type ℓ} → (ℕ → A) → ℕ → A → ℕ → A
update f i a j = if i == j then a else f j

module _ {ℓ κ} {S : Type ℓ} {V : Type κ} (policy : DeadlockExceptionPolicy) (this : ℕ)
    (hooks : Hooks S V) where
  -- A call by thread `t`.
  unfoldable pub step : World S → ℕ → Request V → Reply V × World S
  unfolding perform
  step w t c =
      let (r, o) = perform policy this hooks (record { roles = w.tables t; queue = w.queue }) c in
      (r, record { tables = update w.tables t o.roles; queue = o.queue })

  unfoldable pub run : World S → List (ℕ × Request V) → List (Reply V)
  unfolding step
  run w [] = []
  run w ((t, c) ∷ cs) = let (r, w') = step w t c in r ∷ run w' cs

-- What holds of each entry of a family holds after an update that it holds of.
pub update_pointwise {ℓ κ} :
    {A : Type ℓ} (P : ℕ → A → Type κ) (f : ℕ → A) (t : ℕ) (a : A)
    → P t a
    → ((u : ℕ) → P u (f u))
    → (u : ℕ) → P u (update f t a u)
update_pointwise P f t a p h u = elim (ℕ_discrete t u) [
  | yes e ↦ subst (λ v. P v (update f t a v)) e (rw ((==_iff t t).1 refl) p)
  | no n ↦ rw (ne→==-false t u n) (h u)
]
