-- ===== src/Spec/Stable.antt =====
-- The order of a priority queue: lesser messages first, equal ones in the order of arrival.
use message_queue_practical.Prelude.{Bool, List, [], ◌∷◌, if◌then◌else◌}

-- A new message goes before the first one that it is less than.
unfoldable pub by_priority {ℓ} : {V : Type ℓ} → (V → V → Bool) → V → List V → List V
by_priority comp v [] = v ∷ []
by_priority comp v (x ∷ xs) = if comp v x then v ∷ x ∷ xs else x ∷ by_priority comp v xs
