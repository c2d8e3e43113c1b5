-- ===== src/Circular/Window.antt =====
-- The messages of a circular buffer, from an absolute position on: position `p` is slot `p % cap`.
use native.Mathlib.Nat.{mod-eq_of_lt, mod-add-mod, mod-lt, div-add-mod}
use native.Mathlib.Numerals.{add-one}
use message_queue_practical.Prelude.{
  ℕ, suc, ◌+◌, ◌%◌, ◌<◌, ◌≤◌, ◌≡◌, ◌≢◌, some, List, [], ◌∷◌, ◌++◌, arith, length, set, get_elem?,
  get_elem?-set_self, get_elem?-set_ne, ap, sym, ◌∙◌, inc_size, ◌^◌,
}

abbrev pub Window : {V : Type 0} → List V → ℕ → ℕ → List V → Type 0
Window buffer cap p [] = Unit
Window buffer cap p (v ∷ vs) = (get_elem? buffer (p % cap) ≡ some v) × Window buffer cap (suc p) vs

-- Different positions less than `cap` apart are different slots.
pub mod-ne : (cap a b : ℕ) → a < b → b < a + cap → a % cap ≢ b % cap
mod-ne cap a b h k e = grind (arith, div-add-mod a cap, div-add-mod b cap)

module _ {V : Type 0} (buffer : List V) (cap : ℕ) where
  -- A write to a position before the window leaves it alone.
  pub Window-set_before :
      (vs : List V) (p j : ℕ) (v : V)
      → j < p
      → p + length vs ≤ j + cap
      → Window buffer cap p vs
      → Window (set buffer (j % cap) v) cap p vs
  Window-set_before [] p j v h k w = tt
  Window-set_before (x ∷ vs) p j v h k w = (
    get_elem?-set_ne buffer (j % cap) (p % cap) v (mod-ne cap j p h (omega arith)) ∙ w.0,
    Window-set_before vs (suc p) j v (omega arith) (omega arith) w.1,
  )

  -- A write to the position after the window extends it.
  pub Window-append :
      (vs : List V) (p j : ℕ) (v : V)
      → length buffer ≡ cap
      → j ≡ p + length vs
      → length vs < cap
      → Window buffer cap p vs
      → Window (set buffer (j % cap) v) cap p (vs ++ v ∷ [])
  Window-append [] p j v size e k w = (
    rw (← fits)
        (get_elem?-set_self buffer (j % cap) v (omega (arith, mod-lt j {m = cap} (omega arith)))),
    tt,
  )
    where
      fits : j % cap ≡ p % cap
      fits = ap (λ i. i % cap) (omega arith)
  Window-append (x ∷ vs) p j v size e k w = (
    get_elem?-set_ne buffer (j % cap) (p % cap) v
          (λ same. mod-ne cap p j (omega arith) (omega arith) (sym same))
        ∙ w.0,
    Window-append vs (suc p) j v size (omega arith) (omega arith) w.1,
  )

-- The position after `p`, in slots.
pub next_slot : (cap p : ℕ) → p % cap + 1 < 2 ^ 64 → inc_size (p % cap) % cap ≡ suc p % cap
next_slot cap p h =
    ap (λ i. i % cap) (mod-eq_of_lt h) ∙ mod-add-mod p cap 1 ∙ ap (λ i. i % cap) (add-one p)
