-- ===== src/Tenancy/Access.antt =====
-- internal/tenancy/reconciler.go: `ensureRoleBindings` and `pruneRoleBindings`, on the role bindings
-- of one namespace. A label is `none` where it is not set; what the API server refuses is `Faults`.
pub mod Granted
pub mod Ensured
use marstack_govern.Prelude.{
  String, concat, str_eq, Bool, true, false, not, ◌&&◌, List, [], ◌∷◌, ◌++◌, Option, none, some,
  if◌then◌else◌,
}
use marstack_govern.Prelude.Assoc.{contains}

-- `Role`
pub data Role : Type 0 where
  viewer operator admin approver : Role

-- An entry of `spec.access`.
pub record Grant : Type 0 where
  pub group : String
  pub role : Role

pub record Subject : Type 0 where
  pub api_group : String
  pub kind : String
  pub name : String
  pub namespace : String

pub record Binding : Type 0 where
  pub name : String
  pub cluster_role : String
  pub subjects : List Subject
  pub managed_by : Option String
  pub division : Option String

-- The answer to a delete.
pub data Deletion : Type 0 where
  deleted gone : Deletion
  kept_by : String → Deletion

pub record Faults : Type 0 where
  pub write : String → Option String
  pub list : Option String
  pub delete : String → Deletion

-- The bindings after a call, and its error.
pub record Bound : Type 0 where
  pub bindings : List Binding
  pub error : Option String

-- `clusterRoleForRole`
unfoldable pub cluster_role_for : Role → Option String
cluster_role_for viewer = some "view"
cluster_role_for operator = some "edit"
cluster_role_for admin = some "admin"
cluster_role_for approver = none

unfoldable pub role_text : Role → String
role_text viewer = "viewer"
role_text operator = "operator"
role_text admin = "admin"
role_text approver = "approver"

-- `roleBindingName`
unfoldable pub role_binding_name : Role → String
unfolding role_text
role_binding_name role = concat "govern-" (role_text role)

abbrev pub manager : String
manager = "margov"

abbrev pub group_subject : String → Subject
group_subject group = record {
  api_group = "rbac.authorization.k8s.io";
  kind = "Group";
  name = group;
  namespace = "";
}

unfoldable pub same_subject : Subject → Subject → Bool
same_subject a b =
    str_eq a.api_group b.api_group
    && (str_eq a.kind b.kind && (str_eq a.name b.name && str_eq a.namespace b.namespace))

unfoldable pub has_subject : Subject → List Subject → Bool
unfolding same_subject
has_subject wanted [] = false
has_subject wanted (s ∷ ss) =
    let rest = has_subject wanted ss in if same_subject s wanted then true else rest

-- `appendSubject`
unfoldable pub append_subject : List Subject → String → List Subject
unfolding has_subject
append_subject subjects group =
    if has_subject (group_subject group) subjects
    then subjects
    else subjects ++ (group_subject group ∷ [])

abbrev pub new_binding : String → Binding
new_binding name = record {
  name = name;
  cluster_role = "";
  subjects = [];
  managed_by = none;
  division = none;
}

-- What `CreateOrUpdate` makes of a binding, with `markManaged`.
unfoldable pub granted : String → String → String → Binding → Binding
unfolding append_subject
granted division cluster_role group b = record b {
  cluster_role = cluster_role;
  subjects = append_subject b.subjects group;
  managed_by = some manager;
  division = some division;
}

-- The binding of that name, changed, or made anew at the end.
unfoldable pub create_or_update : String → (Binding → Binding) → List Binding → List Binding
create_or_update name change [] = change (new_binding name) ∷ []
create_or_update name change (b ∷ bs) =
    let rest = create_or_update name change bs in
    if str_eq b.name name then change b ∷ bs else b ∷ rest

-- The loop of `ensureRoleBindings`.
unfoldable pub bind_all : Faults → String → String → List Grant → List Binding → Bound
unfolding cluster_role_for role_binding_name granted create_or_update
bind_all f division namespace [] bs = record { bindings = bs; error = none }
bind_all f division namespace (g ∷ gs) bs = elim (cluster_role_for g.role) [
  | none ↦ bind_all f division namespace gs bs
  | some cluster_role ↦ elim (f.write (role_binding_name g.role)) [
    | some e ↦ record {
      bindings = bs;
      error = some (
          concat "role binding "
            (concat (role_binding_name g.role) (concat " in " (concat namespace (concat ": " e)))));
    }
    | none ↦
        bind_all f division namespace gs
          (create_or_update (role_binding_name g.role) (granted division cluster_role g.group) bs)
  ]
]

-- The names of the bindings that the grants ask for.
unfoldable pub wanted : List Grant → List String
unfolding cluster_role_for role_binding_name
wanted [] = []
wanted (g ∷ gs) =
    let rest = wanted gs in
    elim (cluster_role_for g.role) [ none ↦ rest | some r ↦ role_binding_name g.role ∷ rest ]

abbrev pub has_label : Option String → String → Bool
has_label none value = false
has_label (some v) value = str_eq v value

-- The bindings that `pruneRoleBindings` lists and does not want.
unfoldable pub is_stale : String → List String → Binding → Bool
unfolding contains
is_stale division names b =
    has_label b.managed_by manager && (has_label b.division division && not (contains b.name names))

-- The loop of `pruneRoleBindings`; it stops at the first delete that fails.
unfoldable pub prune : Faults → String → String → List String → List Binding → Bound
unfolding is_stale
prune f division namespace names [] = record { bindings = []; error = none }
prune f division namespace names (b ∷ bs) =
    let rest = prune f division namespace names bs in
    let kept : Bound = record { bindings = b ∷ rest.bindings; error = rest.error } in
    if not (is_stale division names b) then kept else elim (f.delete b.name) [
      | kept_by e ↦ record {
        bindings = b ∷ bs;
        error = some (
            concat "revoke role binding "
              (concat b.name (concat " in " (concat namespace (concat ": " e)))));
      }
      | deleted ↦ rest
      | gone ↦ rest
    ]

-- `pruneRoleBindings`
unfoldable pub prune_role_bindings : Faults → String → String → List String → List Binding → Bound
unfolding prune
prune_role_bindings f division namespace names bs = elim f.list [
  | some e ↦ record {
    bindings = bs;
    error = some (concat "list role bindings in " (concat namespace (concat ": " e)));
  }
  | none ↦ prune f division namespace names bs
]

-- `ensureRoleBindings`
unfoldable pub ensure_role_bindings : Faults → String → String → List Grant → List Binding → Bound
unfolding bind_all wanted prune_role_bindings
ensure_role_bindings f division namespace grants bs =
    let made = bind_all f division namespace grants bs in
    elim made.error [
      | some e ↦ made
      | none ↦ prune_role_bindings f division namespace (wanted grants) made.bindings
    ]
