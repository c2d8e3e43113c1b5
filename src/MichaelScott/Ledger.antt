-- ===== src/MichaelScott/Ledger.antt =====
-- lib/michael_scott_queue.hpp: `retired_nodes_` against the nodes that the head has passed. Each of them
-- is retired once, or some thread is about to retire it.
use message_queue_practical.Prelude.{
  ℕ, suc, ◌≤◌, ◌<◌, ◌≡◌, ◌≢◌, ◌⊎◌, inl, inr, refl, sym, ◌∙◌, ap, subst, Option, none, some, List,
  [], ◌∷◌, ◌++◌, arith, ℕ_discrete, dec_lt,
}
use message_queue_practical.MichaelScott.Chain.{Chain}

abbrev pub Within : ℕ → List ℕ → Type 0
Within a [] = ⊥
Within a (x ∷ xs) = (x ≡ a) ⊎ Within a xs

abbrev pub Distinct : List ℕ → Type 0
Distinct [] = Unit
Distinct (x ∷ xs) = ¬ Within x xs × Distinct xs

Within-append : (a b : ℕ) (xs : List ℕ) → Within a (xs ++ b ∷ []) → Within a xs ⊎ (b ≡ a)
Within-append a b [] (inl e) = inr e
Within-append a b [] (inr h) = elim h [ ]
Within-append a b (x ∷ xs) (inl e) = inl (inl e)
Within-append a b (x ∷ xs) (inr h) = elim (Within-append a b xs h) [
  | inl k ↦ inl (inr k)
  | inr e ↦ inr e
]

Within-left : (a b : ℕ) (xs : List ℕ) → Within a xs → Within a (xs ++ b ∷ [])
Within-left a b [] h = elim h [ ]
Within-left a b (x ∷ xs) (inl e) = inl e
Within-left a b (x ∷ xs) (inr h) = inr (Within-left a b xs h)

Within-last : (b : ℕ) (xs : List ℕ) → Within b (xs ++ b ∷ [])
Within-last b [] = inl refl
Within-last b (x ∷ xs) = inr (Within-last b xs)

Distinct-append : (b : ℕ) (xs : List ℕ) → ¬ Within b xs → Distinct xs → Distinct (xs ++ b ∷ [])
Distinct-append b [] n d = ((λ h. h), tt)
Distinct-append b (x ∷ xs) n d = (
  λ h. elim (Within-append x b xs h) [ inl k ↦ d.0 k | inr e ↦ n (inl (sym e)) ],
  Distinct-append b xs (λ h. n (inr h)) d.1,
)

-- A node that the head has passed.
abbrev pub Gone : Chain → ℕ → Type 0
Gone c a = (i : ℕ) × (i < c.head_pos) × (c.at i ≡ a)

pub record Settled (c : Chain) (retired : List ℕ) (pend : ℕ → Option ℕ) : Type 0 where
  pub retired_at : (a : ℕ) → Within a retired → Gone c a
  pub pend_at : (u a : ℕ) → pend u ≡ some a → Gone c a
  pub distinct : Distinct retired
  pub apart : (u w a : ℕ) → u ≢ w → pend u ≡ some a → pend w ≢ some a
  pub not_yet : (u a : ℕ) → pend u ≡ some a → ¬ Within a retired
  pub covered :
      (i : ℕ) → i < c.head_pos → Within (c.at i) retired ⊎ ((u : ℕ) × (pend u ≡ some (c.at i)))

module _ (c c' : Chain) (retired : List ℕ) (pend pend' : ℕ → Option ℕ) (s : Settled c retired pend)
    (kept : (i : ℕ) → i ≤ c.head_pos → c'.at i ≡ c.at i) where
  -- Nothing is passed or retired.
  pub Settled-kept :
      c'.head_pos ≡ c.head_pos → ((u : ℕ) → pend' u ≡ pend u) → Settled c' retired pend'
  Settled-kept head same = record {
    retired_at = λ a h. moved a (s.retired_at a h);
    pend_at = λ u a h. moved a (s.pend_at u a (sym (same u) ∙ h));
    distinct = s.distinct;
    apart = λ u w a n h k. s.apart u w a n (sym (same u) ∙ h) (sym (same w) ∙ k);
    not_yet = λ u a h. s.not_yet u a (sym (same u) ∙ h);
    covered = λ i h.
        let here : c'.at i ≡ c.at i = kept i (omega arith) in
        elim (s.covered i (omega arith)) [
          | inl k ↦ inl (subst (λ x. Within x retired) (sym here) k)
          | inr (u, e) ↦ inr (u, same u ∙ e ∙ ap some (sym here))
        ];
  }
    where
      moved : (a : ℕ) → Gone c a → Gone c' a
      moved a (i, h, e) = (i, omega arith, kept i (omega arith) ∙ e)

  module _ (u : ℕ) (others : (w : ℕ) → u ≢ w → pend' w ≡ pend w) where
    -- The head passes a node, which thread `u` has to retire.
    pub Settled-passed :
        c'.head_pos ≡ suc c.head_pos
        → ((i j : ℕ) → i ≤ c.head_pos → j ≤ c.head_pos → c.at i ≡ c.at j → i ≡ j)
        → pend u ≡ none
        → pend' u ≡ some (c.at c.head_pos)
        → Settled c' retired pend'
    Settled-passed head different free now = record {
      retired_at = λ a h. moved a (s.retired_at a h);
      pend_at = λ w a h. elim (ℕ_discrete u w) [
        | yes e ↦ (c.head_pos, omega arith, kept c.head_pos (omega arith) ∙ mine w a e h)
        | no n ↦ moved a (s.pend_at w a (sym (others w n) ∙ h))
      ];
      distinct = s.distinct;
      apart = λ w z a n h k. elim (ℕ_discrete u w) [
        | yes e ↦ elim (ℕ_discrete u z) [
          | yes f ↦ n (sym e ∙ f)
          | no f ↦ fresh a (mine w a e h) (s.pend_at z a (sym (others z f) ∙ k))
        ]
        | no e ↦ elim (ℕ_discrete u z) [
          | yes f ↦ fresh a (mine z a f k) (s.pend_at w a (sym (others w e) ∙ h))
          | no f ↦ s.apart w z a n (sym (others w e) ∙ h) (sym (others z f) ∙ k)
        ]
      ];
      not_yet = λ w a h k. elim (ℕ_discrete u w) [
        | yes e ↦ fresh a (mine w a e h) (s.retired_at a k)
        | no n ↦ s.not_yet w a (sym (others w n) ∙ h) k
      ];
      covered = λ i h.
          let here : c'.at i ≡ c.at i = kept i (omega arith) in
          elim (dec_lt i c.head_pos) [
            | yes k ↦ elim (s.covered i k) [
              | inl f ↦ inl (subst (λ x. Within x retired) (sym here) f)
              | inr (w, e) ↦
                  inr (w, others w (λ g. absurd (cc (e, free, g))) ∙ e ∙ ap some (sym here))
            ]
            | no k ↦
                let last : i ≡ c.head_pos = omega arith in
                inr (u, now ∙ ap some (ap c.at (sym last) ∙ sym here))
          ];
    }
      where
        moved : (a : ℕ) → Gone c a → Gone c' a
        moved a (i, h, e) = (i, omega arith, kept i (omega arith) ∙ e)

        mine : (w a : ℕ) → u ≡ w → pend' w ≡ some a → c.at c.head_pos ≡ a
        mine w a e h = cc (e, h, now)

        fresh : (a : ℕ) → c.at c.head_pos ≡ a → ¬ Gone c a
        fresh a e (i, h, f) =
            absurd (omega (arith, different i c.head_pos (omega arith) (omega arith) (f ∙ sym e)))

    -- Thread `u` retires its node.
    pub Settled-retired :
        (b : ℕ)
        → c'.head_pos ≡ c.head_pos
        → pend u ≡ some b
        → pend' u ≡ none
        → Settled c' (retired ++ b ∷ []) pend'
    Settled-retired b head had free = record {
      retired_at = λ a h. elim (Within-append a b retired h) [
        | inl k ↦ moved a (s.retired_at a k)
        | inr e ↦ moved a (s.pend_at u a (had ∙ ap some e))
      ];
      pend_at = λ w a h. moved a (s.pend_at w a (sym (others w (other w a h)) ∙ h));
      distinct = Distinct-append b retired (s.not_yet u b had) s.distinct;
      apart = λ w z a n h k.
          s.apart w z a n (sym (others w (other w a h)) ∙ h) (sym (others z (other z a k)) ∙ k);
      not_yet = λ w a h k.
          let before : pend w ≡ some a = sym (others w (other w a h)) ∙ h in
          elim (Within-append a b retired k) [
            | inl f ↦ s.not_yet w a before f
            | inr e ↦ s.apart u w b (other w a h) had (before ∙ ap some (sym e))
          ];
      covered = λ i h.
          let here : c'.at i ≡ c.at i = kept i (omega arith) in
          elim (s.covered i (omega arith)) [
            | inl k ↦ inl (
                subst (λ x. Within x (retired ++ b ∷ [])) (sym here)
                  (Within-left (c.at i) b retired k))
            | inr (w, e) ↦ elim (ℕ_discrete u w) [
              | yes f ↦
                  let same : b ≡ c'.at i = cc (had, e, f, here) in
                  inl (subst (λ x. Within x (retired ++ b ∷ [])) same (Within-last b retired))
              | no n ↦ inr (w, others w n ∙ e ∙ ap some (sym here))
            ]
          ];
    }
      where
        moved : (a : ℕ) → Gone c a → Gone c' a
        moved a (i, h, e) = (i, omega arith, kept i (omega arith) ∙ e)

        other : (w a : ℕ) → pend' w ≡ some a → u ≢ w
        other w a h e = absurd (cc (e, h, free))
