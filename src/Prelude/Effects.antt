-- ===== src/Prelude/Effects.antt =====
-- How a call on shared state ends, and state passing with that result.
use Prim.Native.String.{String}
use mathlib.Core.Bool.{Bool, true, false}

-- `MessageQueueException` with its message, or an exception of the value type or the allocator.
pub data Exception : Type 0 where
  queue_error : String → Exception
  foreign : Exception

-- `blocks s`: the call waits for another thread and leaves `s` behind. `faults`: behaviour that
-- C++ does not define, such as an access out of range.
pub data Outcome {ℓ κ} (S : Type ℓ) (A : Type κ) : Type (ℓ ⊔ κ) where
  ok : A → S → Outcome S A
  throws : Exception → S → Outcome S A
  blocks : S → Outcome S A
  faults : Outcome S A

abbrev pub M {ℓ κ} : Type ℓ → Type κ → Type (ℓ ⊔ κ)
M S A = S → Outcome S A

module _ {ℓ κ} {S : Type ℓ} {A : Type κ} where
  infixl 5 ◌>>=◌
  abbrev pub ◌>>=◌ {μ} : {B : Type μ} → M S A → (A → M S B) → M S B
  ◌>>=◌ m f s = elim (m s) [
    | ok a s' ↦ f a s'
    | throws e s' ↦ throws e s'
    | blocks s' ↦ blocks s'
    | faults ↦ faults
  ]

  abbrev pub pure : A → M S A
  pure a s = ok a s

  abbrev pub throw : Exception → M S A
  throw e s = throws e s

infixl 5 ◌>>◌
abbrev pub ◌>>◌ {ℓ κ} : {S : Type ℓ} {B : Type κ} → M S (Unit {0}) → M S B → M S B
m >> k = m >>= λ _. k

abbrev pub done {ℓ} : {S : Type ℓ} → M S (Unit {0})
done s = ok tt s

abbrev pub modify {ℓ} : {S : Type ℓ} → (S → S) → M S (Unit {0})
modify f s = ok tt (f s)

abbrev pub gets {ℓ κ} : {S : Type ℓ} {A : Type κ} → (S → A) → M S A
gets f s = ok (f s) s

-- A test between two actions.
infix 1 when◌then◌else◌
abbrev pub when◌then◌else◌ {ℓ κ} : {S : Type ℓ} {A : Type κ} → Bool → M S A → M S A → M S A
(when b then x else y) s = elim b [ true ↦ x s | false ↦ y s ]

-- An action on a part of the state.
abbrev pub zoom {ℓ κ μ} :
    {S : Type ℓ} {T : Type κ} {A : Type μ} → (S → T) → (T → S → S) → M T A → M S A
zoom get put m s = elim (m (get s)) [
  | ok a t ↦ ok a (put t s)
  | throws e t ↦ throws e (put t s)
  | blocks t ↦ blocks (put t s)
  | faults ↦ faults
]
