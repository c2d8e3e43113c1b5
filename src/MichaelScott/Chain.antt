-- ===== src/MichaelScott/Chain.antt =====
-- lib/michael_scott_queue.hpp: the chain of the nodes that were ever linked, from the first dummy on.
-- Positions in the chain never change: the head, the tail and the end move on along it.
use message_queue_practical.Prelude.{
  ℕ, suc, ◌+◌, ◌≤◌, ◌<◌, ◌≡◌, sym, ◌∙◌, ap, subst, true, none, some, List, [], ◌∷◌, ◌++◌, arith,
  length,
}
use message_queue_practical.Interface.History.{update}
use message_queue_practical.MichaelScott.Machine.{Node, Shared}

-- The node at each position, the positions of the head and of the tail, and the last position.
pub record Chain : Type 0 where
  pub at : ℕ → ℕ
  pub head_pos : ℕ
  pub tail_pos : ℕ
  pub end_pos : ℕ

-- The values after position `p` are those of the list.
abbrev pub Items : {V : Type 0} → (ℕ → Node V) → (ℕ → ℕ) → ℕ → ℕ → List V → Type 0
Items cells at p e [] = p ≡ e
Items cells at p e (v ∷ vs) =
    (p < e) × ((cells (at (suc p))).value ≡ v) × Items cells at (suc p) e vs

module _ {V : Type 0} (cells cells' : ℕ → Node V) (at at' : ℕ → ℕ) where
  -- Changes before position `p` and after position `e` do not matter.
  pub Items-frame :
      (p e : ℕ) (vs : List V)
      → ((i : ℕ) → p < i → i ≤ e → (cells' (at' i)).value ≡ (cells (at i)).value)
      → Items cells at p e vs
      → Items cells' at' p e vs
  Items-frame p e [] f h = h
  Items-frame p e (v ∷ vs) f h = (
    h.0,
    f (suc p) (omega arith) (omega arith) ∙ h.1,
    Items-frame (suc p) e vs (λ i k l. f i (omega arith) l) h.2,
  )

module _ {V : Type 0} (cells : ℕ → Node V) (at : ℕ → ℕ) where
  pub Items-append :
      (p e : ℕ) (v : V) (vs : List V)
      → (cells (at (suc e))).value ≡ v
      → Items cells at p e vs
      → Items cells at p (suc e) (vs ++ v ∷ [])
  Items-append p e v [] f h =
      (omega arith, subst (λ i. (cells (at (suc i))).value ≡ v) (sym h) f, ap suc h)
  Items-append p e v (x ∷ vs) f h = (omega arith, h.1, Items-append (suc p) e v vs f h.2)

  pub Items-length : (p e : ℕ) (vs : List V) → Items cells at p e vs → p + length vs ≡ e
  Items-length p e [] h = omega arith
  Items-length p e (v ∷ vs) h = omega (arith, Items-length (suc p) e vs h.2)

-- The fields against the chain: it has no node twice, each node points to the one after it, and the
-- tail is the last node or the one before.
pub record Linked {V : Type 0} (m : Shared V) (c : Chain) (queue : List V) : Type 0 where
  pub head_le_tail : c.head_pos ≤ c.tail_pos
  pub tail_le_end : c.tail_pos ≤ c.end_pos
  pub end_le_tail : c.end_pos ≤ suc c.tail_pos
  pub at_head : m.head ≡ c.at c.head_pos
  pub at_tail : m.tail ≡ c.at c.tail_pos
  pub distinct : (i j : ℕ) → i ≤ c.end_pos → j ≤ c.end_pos → c.at i ≡ c.at j → i ≡ j
  pub next_at : (i : ℕ) → i < c.end_pos → (m.cells (c.at i)).next ≡ some (c.at (suc i))
  pub next_end : (m.cells (c.at c.end_pos)).next ≡ none
  pub live : (i : ℕ) → i ≤ c.end_pos → (m.cells (c.at i)).live ≡ true
  pub old : (i : ℕ) → i ≤ c.end_pos → c.at i < m.fresh
  pub items : Items m.cells c.at c.head_pos c.end_pos queue

-- An address at a position up to `b`, and two addresses one after the other.
abbrev pub Before : Chain → ℕ → ℕ → Type 0
Before c b a = (i : ℕ) × (i ≤ b) × (c.at i ≡ a)

abbrev pub Follows : Chain → ℕ → ℕ → ℕ → Type 0
Follows c b a a' = (i : ℕ) × (i ≤ b) × (i < c.end_pos) × (c.at i ≡ a) × (c.at (suc i) ≡ a')

-- A node goes behind the last one.
unfoldable pub longer : Chain → ℕ → Chain
longer c new = record c { at = update c.at (suc c.end_pos) new; end_pos = suc c.end_pos }

-- The head goes to the next node.
abbrev pub shorter : Chain → Chain
shorter c = record c { head_pos = suc c.head_pos }
