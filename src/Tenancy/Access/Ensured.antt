-- ===== src/Tenancy/Access/Ensured.antt =====
-- What a pass over the grants of a division leaves (internal/tenancy/reconciler.go).
use marstack_govern.Prelude.{
  String, str_eq, str_eq_iff, true, Bool-cases, Option-cases, List, [], ◌∷◌, ◌++◌, none, ◌≡◌, ◌≢◌,
  refl, subst, ◌⊎◌, inl, inr, arith,
}
use marstack_govern.Prelude.Assoc.{contains}
use marstack_govern.Tenancy.Access.{
  Grant, Subject, Binding, cluster_role_for, role_binding_name, group_subject, same_subject,
  has_subject, append_subject, new_binding, granted, create_or_update, bind_all, wanted,
  ensure_role_bindings,
}
use marstack_govern.Tenancy.Access.Granted.{
  holds, no_faults, holds-bind_all, error-prune, IsFresh, prune-IsFresh, holds-prune, ensured,
}

-- A grant of a role that has a cluster role.
abbrev pub Asks : String → String → List Grant → Type 0
Asks group name [] = ⊥
Asks group name (g ∷ gs) =
    ((g.group ≡ group) × (role_binding_name g.role ≡ name) × (cluster_role_for g.role ≢ none))
    ⊎ Asks group name gs

same_subject_refl : (s : Subject) → same_subject s s ≡ true
unfolding same_subject
same_subject_refl s =
    rw
      (
        (str_eq_iff s.api_group s.api_group).1 refl,
        (str_eq_iff s.kind s.kind).1 refl,
        (str_eq_iff s.name s.name).1 refl,
        (str_eq_iff s.namespace s.namespace).1 refl,
      )
      refl

has_subject-snoc : (s : Subject) (xs : List Subject) → has_subject s (xs ++ (s ∷ [])) ≡ true
unfolding has_subject
has_subject-snoc s [] = rw (has_subject, same_subject_refl s) refl
has_subject-snoc s (x ∷ xs) = ground (arith, has_subject-snoc s xs)

has_subject-append_subject_new :
    (xs : List Subject) (group : String)
    → has_subject (group_subject group) (append_subject xs group) ≡ true
unfolding append_subject
has_subject-append_subject_new xs group = elim (Bool-cases (has_subject (group_subject group) xs)) [
  | inl e ↦ rw (append_subject, e) e
  | inr e ↦ rw (append_subject, e) (has_subject-snoc (group_subject group) xs)
]

holds-granted_new :
    (division role name group : String) (b : Binding) (bs : List Binding)
    → str_eq b.name name ≡ true
    → holds name group (granted division role group b ∷ bs) ≡ true
unfolding holds granted
holds-granted_new division role name group b bs e =
    rw (e, has_subject-append_subject_new b.subjects group) refl

holds-create_or_update_new :
    (division role name group : String) (bs : List Binding)
    → holds name group (create_or_update name (granted division role group) bs) ≡ true
unfolding create_or_update holds
holds-create_or_update_new division role name group [] =
    holds-granted_new division role name group (new_binding name) [] ((str_eq_iff name name).1 refl)
holds-create_or_update_new division role name group (b ∷ bs) =
    elim (Bool-cases (str_eq b.name name)) [
      | inl e ↦ rw (create_or_update, e) (holds-granted_new division role name group b bs e)
      | inr e ↦ ground (arith, e, holds-create_or_update_new division role name group bs)
    ]

bind_all-Asks :
    (division namespace group name : String) (grants : List Grant) (bs : List Binding)
    → Asks group name grants
    → holds name group (bind_all no_faults division namespace grants bs).bindings ≡ true
unfolding bind_all
bind_all-Asks division namespace group name [] bs h = absurd h
bind_all-Asks division namespace group name (g ∷ gs) bs h =
    elim (Option-cases (cluster_role_for g.role)) [
      | inl e ↦
          rw (bind_all, e)
            (elim h [
              | inl (_, _, mapped) ↦ absurd (mapped e)
              | inr later ↦ bind_all-Asks division namespace group name gs bs later
            ])
      | inr (role, e) ↦
          rw (bind_all, e)
            (elim h [
              | inr later ↦ bind_all-Asks division namespace group name gs _ later
              | inl (of_group, of_name, _) ↦ holds-bind_all name group division namespace gs _ (
                  subst
                    (λ n.
                      holds n group (
                        create_or_update (role_binding_name g.role) (granted division role g.group)
                          bs)
                      ≡ true)
                    of_name
                    (subst
                      (λ p.
                        holds (role_binding_name g.role) p (
                          create_or_update (role_binding_name g.role)
                            (granted division role g.group) bs)
                        ≡ true)
                      of_group
                      (holds-create_or_update_new division role (role_binding_name g.role) g.group
                        bs)))
            ])
    ]

wanted-Asks :
    (group name : String) (grants : List Grant)
    → Asks group name grants
    → contains name (wanted grants) ≡ true
unfolding wanted contains
wanted-Asks group name [] h = absurd h
wanted-Asks group name (g ∷ gs) h = elim (Option-cases (cluster_role_for g.role)) [
  | inl e ↦
      rw (wanted, e)
        (elim h [
          | inl (_, _, mapped) ↦ absurd (mapped e)
          | inr later ↦ wanted-Asks group name gs later
        ])
  | inr (role, e) ↦
      rw (wanted, e)
        (elim h [
          | inl (_, of_name, _) ↦
              rw ((str_eq_iff (role_binding_name g.role) name).1 of_name, contains) refl
          | inr later ↦ ground (arith, wanted-Asks group name gs later)
        ])
]

-- Where the API server refuses nothing, `ensureRoleBindings` ends without an error; every group that
-- is granted a role with a cluster role is then a subject of that role's binding, and no managed
-- binding of the division is left that no grant asks for.
pub ensure_role_bindings-grants :
    (division namespace : String) (grants : List Grant) (bs : List Binding)
    → let after = ensure_role_bindings no_faults division namespace grants bs in
      (after.error ≡ none)
      × IsFresh division (wanted grants) after.bindings
      × ((group name : String) → Asks group name grants → holds name group after.bindings ≡ true)
ensure_role_bindings-grants division namespace grants bs =
    let bound = bind_all no_faults division namespace grants bs in
    rw (ensured division namespace grants bs) (
      error-prune division namespace (wanted grants) bound.bindings,
      prune-IsFresh division namespace (wanted grants) bound.bindings,
      λ group name asks.
          holds-prune name group division namespace (wanted grants) bound.bindings
            (wanted-Asks group name grants asks)
            (bind_all-Asks division namespace group name grants bs asks),
    )
