-- ===== src/Tenancy/Access/Granted.antt =====
-- What the grants of a division give, and what they fail to take back
-- (internal/tenancy/reconciler.go).
use marstack_govern.Prelude.{
  String, str_eq, str_eq_iff, Bool, true, false, Bool-cases, Option-cases, List, [], ◌∷◌, ◌++◌, All,
  none, ◌≡◌, refl, sym, subst, inl, inr, arith, if◌then◌else◌,
}
use marstack_govern.Prelude.Assoc.{contains}
use marstack_govern.Tenancy.Access.{
  Grant, Subject, Binding, Faults, deleted, Bound, cluster_role_for, role_binding_name,
  group_subject, has_subject, append_subject, granted, create_or_update, bind_all, wanted, is_stale,
  prune, prune_role_bindings, ensure_role_bindings,
}

-- Some binding of this name has the group as a subject.
unfoldable pub holds : String → String → List Binding → Bool
unfolding has_subject
holds name group [] = false
holds name group (b ∷ bs) =
    let rest = holds name group bs in
    if str_eq b.name name
    then (if has_subject (group_subject group) b.subjects then true else rest)
    else rest

has_subject-append :
    (s : Subject) (xs ys : List Subject) → has_subject s xs ≡ true → has_subject s (xs ++ ys) ≡ true
unfolding has_subject
has_subject-append s [] ys h = cc
has_subject-append s (x ∷ xs) ys h = ground (arith, h, has_subject-append s xs ys)

has_subject-append_subject :
    (s : Subject) (xs : List Subject) (group : String)
    → has_subject s xs ≡ true
    → has_subject s (append_subject xs group) ≡ true
unfolding append_subject
has_subject-append_subject s xs group h =
    ground (arith, h, has_subject-append s xs (group_subject group ∷ []))

holds-granted :
    (name group : String) (division role other : String) (b : Binding) (bs : List Binding)
    → holds name group (b ∷ bs) ≡ true
    → holds name group (granted division role other b ∷ bs) ≡ true
unfolding holds granted
holds-granted name group division role other b bs h =
    ground (arith, h, has_subject-append_subject (group_subject group) b.subjects other)

holds-create_or_update :
    (name group at division role other : String) (bs : List Binding)
    → holds name group bs ≡ true
    → holds name group (create_or_update at (granted division role other) bs) ≡ true
unfolding holds create_or_update
holds-create_or_update name group at division role other [] h = cc
holds-create_or_update name group at division role other (b ∷ bs) h = ground (
  arith,
  h,
  holds-granted name group division role other b bs,
  holds-create_or_update name group at division role other bs,
)

-- No fault: everything that is asked of the API server is done.
abbrev pub no_faults : Faults
no_faults = record { write = λ name. none; list = none; delete = λ name. deleted }

pub holds-bind_all :
    (name group division namespace : String) (grants : List Grant) (bs : List Binding)
    → holds name group bs ≡ true
    → holds name group (bind_all no_faults division namespace grants bs).bindings ≡ true
unfolding bind_all
holds-bind_all name group division namespace [] bs h = h
holds-bind_all name group division namespace (g ∷ gs) bs h =
    elim (Option-cases (cluster_role_for g.role)) [
      | inl e ↦ rw (bind_all, e) (holds-bind_all name group division namespace gs bs h)
      | inr (role, e) ↦
          rw (bind_all, e)
            (holds-bind_all name group division namespace gs _ (
              holds-create_or_update name group (role_binding_name g.role) division role g.group bs
                h))
    ]

pub error-bind_all :
    (division namespace : String) (grants : List Grant) (bs : List Binding)
    → (bind_all no_faults division namespace grants bs).error ≡ none
unfolding bind_all
error-bind_all division namespace [] bs = refl
error-bind_all division namespace (g ∷ gs) bs = elim (Option-cases (cluster_role_for g.role)) [
  | inl e ↦ rw (bind_all, e) (error-bind_all division namespace gs bs)
  | inr (role, e) ↦ rw (bind_all, e) (error-bind_all division namespace gs _)
]

-- One step of the deletions, where each succeeds: what is stale is left out.
abbrev pruned : Bool → Binding → Bound → Bound
pruned true b rest = rest
pruned false b rest = record { bindings = b ∷ rest.bindings; error = rest.error }

prune_step :
    (division namespace : String) (names : List String) (b : Binding) (bs : List Binding)
    → prune no_faults division namespace names (b ∷ bs)
      ≡ pruned (is_stale division names b) b (prune no_faults division namespace names bs)
unfolding prune
prune_step division namespace names b bs = elim (Bool-cases (is_stale division names b)) [
  | inl e ↦ rw (prune, e) refl
  | inr e ↦ rw (prune, e) refl
]

error-pruned :
    (stale : Bool) (b : Binding) (rest : Bound)
    → rest.error ≡ none
    → (pruned stale b rest).error ≡ none
error-pruned true b rest h = h
error-pruned false b rest h = h

pub error-prune :
    (division namespace : String) (names : List String) (bs : List Binding)
    → (prune no_faults division namespace names bs).error ≡ none
unfolding prune
error-prune division namespace names [] = refl
error-prune division namespace names (b ∷ bs) =
    rw (prune_step division namespace names b bs)
      (error-pruned (is_stale division names b) b _ (error-prune division namespace names bs))

-- No managed binding of the division has a name that is not among `names`.
abbrev pub IsFresh : String → List String → List Binding → Type 0
IsFresh division names = All (λ b. is_stale division names b ≡ false)

pruned-IsFresh :
    (division : String) (names : List String) (stale : Bool) (b : Binding) (rest : Bound)
    → is_stale division names b ≡ stale
    → IsFresh division names rest.bindings
    → IsFresh division names (pruned stale b rest).bindings
pruned-IsFresh division names true b rest e h = h
pruned-IsFresh division names false b rest e h = (e, h)

pub prune-IsFresh :
    (division namespace : String) (names : List String) (bs : List Binding)
    → IsFresh division names (prune no_faults division namespace names bs).bindings
unfolding prune
prune-IsFresh division namespace names [] = tt
prune-IsFresh division namespace names (b ∷ bs) = rw (prune_step division namespace names b bs) (
    pruned-IsFresh division names (is_stale division names b) b _ refl
      (prune-IsFresh division namespace names bs))

-- A binding whose name is asked for is not stale.
holds_elsewhere :
    (name group division : String) (names : List String) (b : Binding) (bs : List Binding)
    → contains name names ≡ true
    → is_stale division names b ≡ true
    → holds name group (b ∷ bs) ≡ true
    → holds name group bs ≡ true
unfolding holds is_stale
holds_elsewhere name group division names b bs c stale h = elim (Bool-cases (str_eq b.name name)) [
  | inr e ↦ ground (arith, e, h)
  | inl e ↦
      let same : contains b.name names ≡ true = rw ((str_eq_iff b.name name).0 e) c in
      ground (arith, same, stale)
]

holds-pruned :
    (name group division : String) (names : List String) (stale : Bool) (b : Binding)
    (bs : List Binding) (rest : Bound)
    → is_stale division names b ≡ stale
    → contains name names ≡ true
    → holds name group (b ∷ bs) ≡ true
    → (holds name group bs ≡ true → holds name group rest.bindings ≡ true)
    → holds name group (pruned stale b rest).bindings ≡ true
unfolding holds
holds-pruned name group division names true b bs rest e c h more =
    more (holds_elsewhere name group division names b bs c e h)
holds-pruned name group division names false b bs rest e c h more = ground (arith, h, more)

pub holds-prune :
    (name group division namespace : String) (names : List String) (bs : List Binding)
    → contains name names ≡ true
    → holds name group bs ≡ true
    → holds name group (prune no_faults division namespace names bs).bindings ≡ true
unfolding holds
holds-prune name group division namespace names [] c h = cc
holds-prune name group division namespace names (b ∷ bs) c h =
    rw (prune_step division namespace names b bs) (
      holds-pruned name group division names (is_stale division names b) b bs _ refl c h
        (holds-prune name group division namespace names bs c))

pub ensured :
    (division namespace : String) (grants : List Grant) (bs : List Binding)
    → ensure_role_bindings no_faults division namespace grants bs
      ≡ prune no_faults division namespace
          (wanted grants)
          (bind_all no_faults division namespace grants bs).bindings
unfolding ensure_role_bindings prune_role_bindings
ensured division namespace grants bs =
    rw (ensure_role_bindings, error-bind_all division namespace grants bs) refl

-- A group that is a subject of a binding keeps its place, as long as some grant asks for the binding:
-- even where no grant names the group any more, so that its access is not revoked.
pub ensure_role_bindings-keeps :
    (division namespace : String) (grants : List Grant) (bs : List Binding) (name group : String)
    → contains name (wanted grants) ≡ true
    → holds name group bs ≡ true
    → holds name group (ensure_role_bindings no_faults division namespace grants bs).bindings ≡ true
ensure_role_bindings-keeps division namespace grants bs name group c h =
    subst (λ b. holds name group b.bindings ≡ true) (sym (ensured division namespace grants bs))
      (holds-prune name group division namespace (wanted grants) _ c
        (holds-bind_all name group division namespace grants bs h))
