-- ===== src/MichaelScott/Progress/Stores.antt =====
-- lib/michael_scott_queue.hpp: the steps of `StoreInternal` and `TryStoreInternal`.
use message_queue_practical.Prelude.{
  ℕ, zero, suc, ◌≤◌, ◌≡◌, ◌∙◌, sym, ℕ_discrete, inl, inr, refl, sym, ap, subst, Bool, true, false,
  not, ◌&&◌, Option, none, some, List, [], ◌∷◌, ◌++◌, ok, arith, ◌==◌, Bool-cases, ==_iff, inc_size,
  dec_lt,
}
use message_queue_practical.Interface.History.{update}
use message_queue_practical.MichaelScott.Machine.{
  Node, Shared, Attempts, Pc, store_allocate, store_load_tail, store_load_next, store_reload_tail,
  store_link, store_swing, store_help, store_retry, stored, step, is_null, linked, freed, allocated,
}
use message_queue_practical.MichaelScott.Chain.{Chain, Linked, Before, longer}
use message_queue_practical.MichaelScott.Local.{
  pending, Phase, has_put, Mine, Loaded, Local, touches,
}
use message_queue_practical.MichaelScott.Moves.{Linked-outside, Frame-outside}
use message_queue_practical.MichaelScott.Link.{Linked-linked, Frame-linked, Follows-linked}
use message_queue_practical.MichaelScott.Progress.{
  keeps, Lives-written, Lives, silent, puts, Stepped, notes, quiet, swings,
}

module _ {V : Type 0} (moved_from : V → V) (spurious : Bool) (ph : Phase V) (m : Shared V)
    (c : Chain) (q : List V) (l : Linked m c q) where
  abbrev Steps : Pc V → Type 0
  Steps pc = Local m c ph pc → Stepped moved_from spurious pc ph m c q

  abbrev stays :
      (pc pc' : Pc V)
      → step moved_from spurious pc m ≡ ok pc' m
      → Local m c ph pc'
      → touches pc' ≡ touches pc
      → pending pc' ≡ pending pc
      → Stepped moved_from spurious pc ph m c q
  stays pc pc' = quiet moved_from spurious pc ph m c q l pc'

  -- A node of the chain is live.
  pub Before-live : (b a : ℕ) → b ≤ c.end_pos → Before c b a → (m.cells a).live ≡ true
  Before-live b a h (i, p, e) = subst (λ x. (m.cells x).live ≡ true) e (l.live i (omega arith))

  -- A next node that was loaded from a node of the chain follows it.
  pub Before-Loaded :
      (b a : ℕ) (next : Option ℕ)
      → b ≤ c.end_pos
      → Before c b a
      → (m.cells a).next ≡ next
      → Loaded c b a next
  Before-Loaded b a none h before e = tt
  Before-Loaded b a (some next) h (i, p, e) g = elim (dec_lt i c.end_pos) [
    | yes lt ↦ (i, p, lt, e, ground (arith, l.next_at i lt))
    | no ge ↦
        let here : i ≡ c.end_pos = omega arith in
        absurd (cc (subst (λ j. (m.cells (c.at j)).next ≡ none) (sym here) l.next_end, e, g))
  ]

  pub allocates : (v : V) (k : Attempts) → Steps (store_allocate v k)
  unfolding step
  allocates v k h = record {
    pc' = store_load_tail v m.fresh k;
    m' = record (allocated m.fresh v m) { fresh = suc m.fresh };
    c' = c;
    ph' = ph;
    q' = q;
    goes = refl;
    linked =
        Linked-outside m c q l m.fresh (record { value = v; next = none; live = true })
          (suc m.fresh) (omega arith) (λ i g e. omega (arith, l.old i g));
    local = (h, mine);
    frame =
        Frame-outside m c q l none m.fresh (record { value = v; next = none; live = true })
          (suc m.fresh) (omega arith) (inr (omega arith));
    effect = silent refl refl;
    claims = λ a e. inr (inl (ground arith));
    retires = keeps refl refl refl;
    lives =
        Lives-written m (record (allocated m.fresh v m) { fresh = suc m.fresh }) c none
          (some m.fresh) m.fresh (record { value = v; next = none; live = true }) (λ a. refl)
          (inl refl) (λ e. inl refl);
  }
    where
      here :
          update m.cells m.fresh (record { value = v; next = none; live = true }) m.fresh
          ≡ record { value = v; next = none; live = true }
      here = rw ((==_iff m.fresh m.fresh).1 refl)

      mine : Mine (record (allocated m.fresh v m) { fresh = suc m.fresh }) c m.fresh v
      mine = record {
        old = omega arith;
        live = ap (λ (x : Node V). x.live) here;
        value = ap (λ (x : Node V). x.value) here;
        no_next = ap (λ (x : Node V). x.next) here;
        apart = λ i g e. omega (arith, l.old i g);
      }

  -- The tail is at its position.
  tail-Before : Before c c.tail_pos m.tail
  tail-Before = (c.tail_pos, omega arith, sym l.at_tail)

  pub loops : (v : V) (new : ℕ) (k : Attempts) → Steps (store_load_tail v new k)
  unfolding step
  loops v new none h =
      stays (store_load_tail v new none) (store_load_next v new m.tail none) refl
        (h.0, h.1, tail-Before) refl refl
  loops v new (some (suc k)) h =
      stays (store_load_tail v new (some (suc k))) (store_load_next v new m.tail (some k)) refl
        (h.0, h.1, tail-Before) refl refl
  loops v new (some zero) h = record {
    pc' = stored v false;
    m' = freed new m;
    c' = c;
    ph' = ph;
    q' = q;
    goes = rw h.1.live;
    linked =
        Linked-outside m c q l new (record (m.cells new) { live = false }) m.fresh (omega arith)
          h.1.apart;
    local = h.0;
    frame =
        Frame-outside m c q l (some new) new (record (m.cells new) { live = false }) m.fresh
          (omega arith) (inl refl);
    effect = silent refl refl;
    claims = λ a e. absurd (cc e);
    retires = keeps refl refl refl;
    lives =
        Lives-written m (freed new m) c (some new) none new (record (m.cells new) { live = false })
          (λ a. refl) (inr refl) (λ e. absurd (cc e));
  }

  pub loads_next : (v : V) (new last : ℕ) (k : Attempts) → Steps (store_load_next v new last k)
  unfolding step
  loads_next v new last k h =
      stays (store_load_next v new last k) (store_reload_tail v new last (m.cells last).next k)
        (rw (Before-live c.tail_pos last l.tail_le_end h.2))
        (h.0, h.1, h.2, Before-Loaded c.tail_pos last (m.cells last).next l.tail_le_end h.2 refl)
        refl refl

  pub reloads_tail :
      (v : V) (new last : ℕ) (next : Option ℕ) (k : Attempts)
      → Steps (store_reload_tail v new last next k)
  unfolding step
  reloads_tail v new last next k h = elim (Bool-cases (last == m.tail)) [
    | inr no_more ↦
        stays (store_reload_tail v new last next k) (store_load_tail v new k) (rw no_more)
          (h.0, h.1) refl refl
    | inl same ↦ branch next same h
  ]
    where
      branch :
          (next : Option ℕ) → (last == m.tail) ≡ true → Steps (store_reload_tail v new last next k)
      branch none same h =
          stays (store_reload_tail v new last none k) (store_link v new last k) (rw same)
            (h.0, h.1, h.2) refl refl
      branch (some next) same h =
          stays (store_reload_tail v new last (some next) k) (store_help v new last next k)
            (rw same) (h.0, h.1, h.3) refl refl

  -- The new node is in the chain then.
  linked-Lives : (new last : ℕ) → Lives m (linked last new m) (longer c new) (some new) none
  unfolding longer
  linked-Lives new last a h = elim (ℕ_discrete new a) [
    | yes e ↦
        inr
          (inl (suc c.end_pos, omega arith, rw ((==_iff (suc c.end_pos) (suc c.end_pos)).1 refl) e))
    | no n ↦ inr (inr (sym (same a) ∙ h, λ g. n (cc g)))
  ]
    where
      same : (a : ℕ) → ((linked last new m).cells a).live ≡ (m.cells a).live
      same a = ground (arith, ==_iff last a)

  pub links : (v : V) (new last : ℕ) (k : Attempts) → Steps (store_link v new last k)
  unfolding step longer
  links v new last k h = elim (Bool-cases (is_null (m.cells last).next && not spurious)) [
    | inr fails ↦
        stays (store_link v new last k) (store_retry v new k)
          (rw (Before-live c.tail_pos last l.tail_le_end h.2, fails)) (h.0, h.1) refl refl
    | inl wins ↦
        let free : (m.cells last).next ≡ none = ground arith in
        record {
          pc' = store_swing v new last;
          m' = linked last new m;
          c' = longer c new;
          ph' = has_put v;
          q' = q ++ v ∷ [];
          goes = rw (Before-live c.tail_pos last l.tail_le_end h.2, wins);
          linked = Linked-linked m c q l new last v h.1 h.2 free;
          local = (refl, Follows-linked m c q l new last v h.1 h.2 free);
          frame = Frame-linked m c q l new last v h.1 h.2 free;
          effect = puts v h.0 refl refl;
          claims = λ a e. absurd (cc e);
          retires = keeps refl refl refl;
          lives = linked-Lives new last;
        }
  ]

  pub retries : (v : V) (new : ℕ) (k : Attempts) → Steps (store_retry v new k)
  unfolding step
  retries v new k h =
      notes moved_from spurious (store_retry v new k) ph m c q l (store_load_tail v new k) m.retired
        m.retired_locked (inc_size m.cas_retries) refl h refl (keeps refl refl refl)

  pub swings_tail :
      (v : V) (new last next : ℕ) (k : Attempts)
      → Steps (store_swing v new last) × Steps (store_help v new last next k)
  unfolding step
  swings_tail v new last next k = (
    λ h.
        swings moved_from spurious (store_swing v new last) ph m c q l (stored v true) last new h.1
          refl h.0 refl refl,
    λ h.
        swings moved_from spurious (store_help v new last next k) ph m c q l (store_retry v new k)
          last next h.2 refl (h.0, h.1) refl refl,
  )
