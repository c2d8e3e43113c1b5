-- ===== src/Interface/Role/Laws.antt =====
-- lib/message_queue_interface.hpp: what copying, moving and destroying a queue do to the roles.
use message_queue_practical.Prelude.{
  ℕ, Bool, true, false, none, some, Option-cases, Bool-cases, ◌⊎◌, inl, inr, ℕ_discrete, sym, ap,
  ◌∙◌, ne→==-false, ◌≡◌, ◌≢◌, refl, arith, ==_iff, ◌==◌, if◌then◌else◌,
}
use message_queue_practical.Interface.Role.{
  Roles, ThreadRole, no_info, assign, erase, move_thread_role, delete_thread_role, get_thread_role,
  copy_assign, move_assign,
}

-- Copy assignment gives the target the role that the thread has on the source (no information, if
-- it has none there), also on self-assignment, and leaves its role on every other queue alone.
pub copy_assign_lem :
    (this other : ℕ) (roles : Roles) (p : ℕ)
    → get_thread_role p (copy_assign this other roles)
      ≡ (if p == this then get_thread_role other roles else get_thread_role p roles)
unfolding get_thread_role copy_assign
copy_assign_lem this other roles p = ground arith

-- The role on `this` is that on `other`, the role on `other` is forgotten, and the others are kept.
abbrev pub IsMoved : ℕ → ℕ → Roles → Roles → Type 0
IsMoved this other roles roles' =
    (p : ℕ)
    → get_thread_role p roles' ≡ (
        if p == this
        then get_thread_role other roles
        else if p == other
        then no_info
        else get_thread_role p roles)

IsMoved-missing :
    (this other : ℕ) (roles : Roles)
    → this ≢ other
    → roles other ≡ none
    → IsMoved this other roles (delete_thread_role this roles)
unfolding get_thread_role delete_thread_role
IsMoved-missing this other roles h e p = elim (ℕ_discrete p this) [
  | yes k ↦
      rw
        (
          get_thread_role,
          delete_thread_role,
          erase,
          assign,
          (==_iff p this).1 k,
          (==_iff this p).1 (sym k),
          e,
        )
        refl
  | no k ↦ elim (ℕ_discrete p other) [
    | yes l ↦
        let at : roles p ≡ none = ap roles l ∙ e in
        rw
          (
            get_thread_role,
            delete_thread_role,
            erase,
            assign,
            ne→==-false p this k,
            ne→==-false this p (λ x. k (sym x)),
            (==_iff p other).1 l,
            at,
          )
          refl
    | no l ↦
        rw
          (
            get_thread_role,
            delete_thread_role,
            erase,
            assign,
            ne→==-false p this k,
            ne→==-false this p (λ x. k (sym x)),
            ne→==-false p other l,
          )
          refl
  ]
]

IsMoved-found :
    (this other : ℕ) (roles : Roles) (r : ThreadRole)
    → this ≢ other
    → roles other ≡ some r
    → IsMoved this other roles (erase other (assign this r (delete_thread_role this roles)))
unfolding get_thread_role delete_thread_role
IsMoved-found this other roles r h e p = elim (ℕ_discrete p this) [
  | yes k ↦
      rw
        (
          get_thread_role,
          delete_thread_role,
          erase,
          assign,
          (==_iff p this).1 k,
          (==_iff this p).1 (sym k),
          ne→==-false other p (λ x. h (sym (x ∙ k))),
          e,
        )
        refl
  | no k ↦ elim (ℕ_discrete p other) [
    | yes l ↦
        rw
          (
            get_thread_role,
            delete_thread_role,
            erase,
            assign,
            ne→==-false p this k,
            (==_iff p other).1 l,
            (==_iff other p).1 (sym l),
          )
          refl
    | no l ↦
        rw
          (
            get_thread_role,
            delete_thread_role,
            erase,
            assign,
            ne→==-false p this k,
            ne→==-false this p (λ x. k (sym x)),
            ne→==-false p other l,
            ne→==-false other p (λ x. l (sym x)),
          )
          refl
  ]
]

moves_missing :
    (rehashes : Bool) (source target : ℕ) (roles : Roles)
    → roles source ≡ none
    → move_thread_role rehashes source target roles ≡ some roles
unfolding move_thread_role
moves_missing rehashes source target roles e = rw (move_thread_role, e) refl

moves_found :
    (rehashes : Bool) (source target : ℕ) (roles : Roles) (r : ThreadRole)
    → roles source ≡ some r
    → roles target ≡ none
    → move_thread_role rehashes source target roles
      ≡ (if rehashes then none else some (erase source (assign target r roles)))
unfolding move_thread_role
moves_found rehashes source target roles r e f = rw (move_thread_role, e, f) refl

-- Move assignment between two queues either gives the target the role on the source, forgets the role
-- on the source, and leaves the role on every other queue alone, or is undefined; it is undefined
-- exactly if the thread has an entry for the source and the insertion for the target rehashes.
pub move_assign_lem :
    (rehashes : Bool) (this other : ℕ) (roles : Roles)
    → this ≢ other
    → ((r : ThreadRole) × (roles other ≡ some r)
        × (rehashes ≡ true)
        × (move_assign rehashes this other roles ≡ none))
      ⊎ (((roles other ≡ none) ⊎ (rehashes ≡ false))
          × (roles' : Roles) × (move_assign rehashes this other roles ≡ some roles')
          × IsMoved this other roles roles')
unfolding move_assign delete_thread_role
move_assign_lem rehashes this other roles h = elim (Option-cases (roles other)) [
  | inl e ↦ inr (
    inl e,
    delete_thread_role this roles,
    goes ∙ moves_missing rehashes other this (delete_thread_role this roles) (kept ∙ e),
    IsMoved-missing this other roles h e,
  )
  | inr (r, e) ↦
      let found =
        moves_found rehashes other this (delete_thread_role this roles) r (kept ∙ e) gone in
      elim (Bool-cases rehashes) [
        | inl b ↦ inl (r, e, b, goes ∙ found ∙ rw b refl)
        | inr b ↦ inr (
          inr b,
          erase other (assign this r (delete_thread_role this roles)),
          goes ∙ found ∙ rw b refl,
          IsMoved-found this other roles r h e,
        )
      ]
]
  where
    kept : delete_thread_role this roles other ≡ roles other
    kept = rw (ne→==-false this other h) refl

    gone : delete_thread_role this roles this ≡ none
    gone = rw ((==_iff this this).1 refl) refl

    goes :
        move_assign rehashes this other roles
        ≡ move_thread_role rehashes other this (delete_thread_role this roles)
    goes = rw (ne→==-false this other h) refl

pub get_thread_role-assign :
    (p : ℕ) (r : ThreadRole) (roles : Roles) → get_thread_role p (assign p r roles) ≡ r
unfolding get_thread_role
get_thread_role-assign p r roles = rw ((==_iff p p).1 refl, get_thread_role)
